-- ===== src/ControlPlane/Machines/Ensure/Checks.antt =====
-- What the checks of `ensureMachines` of controller/tartcontrolplane/machines.go establish.
use cluster_api_provider_tar.Base.{
  ℕ, String, ◌≡◌, sym, ap, subst, true, false, not, ◌&&◌, none, some, List, arith, ltb, ◌==◌, ◌!=◌,
  comparable_nat, comparable_text, comparable_list, is_some, length, In, ◌≢◌, ◌⊎◌, ◌∙◌, inl, inr,
  [], ◌∷◌, Bool-cases, Option-cases, eq_iff,
}
use cluster_api_provider_tar.Base.Result.{ok}
use cluster_api_provider_tar.Api.Machine.{CapiMachine}
use cluster_api_provider_tar.Host.FailureDomains.{FailureDomain}
use cluster_api_provider_tar.ControlPlane.Machines.{
  TartControlPlane, control_plane_failure_domain, contains_control_plane_failure_domain,
  validate_control_plane_machine_owners, control_plane_owner,
}
use cluster_api_provider_tar.ControlPlane.Machines.Ensure.{named, or_empty}
use mathlib.Core.Option.{some-injective}
use cluster_api_provider_tar.Controller.Ownership.{has_controller_owner}
use cluster_api_provider_tar.ControlPlane.Machines.Placement.Balance.{ServesNamed, contains-domain}
use cluster_api_provider_tar.ControlPlane.Machines.Ensure.Allowed.{AreOwned}

pub named_uid : (s : String) → (s == "") ≡ false → s ≢ ""
named_uid s h e = ground (arith, h, e, eq_iff s "")

-- What is found under a name is listed, and has it; and where nothing is found, nothing has it.
pub named-In :
    (machines : List CapiMachine) (name : String) (m : CapiMachine)
    → named machines name ≡ some m
    → In m machines × (m.name ≡ name)
named-In [] name m h = cc
named-In (x ∷ xs) name m h = elim (Bool-cases (x.name == name)) [
  | inl e ↦
      let same : x ≡ m = some-injective x m (ground (arith, e, h)) in
      (inl (sym same), subst (λ y. y.name ≡ name) same (ground (arith, e, eq_iff x.name name)))
  | inr e ↦ let (i, q) = named-In xs name m (ground (arith, e, h)) in (inr i, q)
]

pub named-none :
    (machines : List CapiMachine) (name : String)
    → named machines name ≡ none
    → (x : CapiMachine) → In x machines
    → x.name ≢ name
named-none [] name h x m e = m
named-none (y ∷ ys) name h x (inl q) e =
    ground (arith, h, ap (λ z. z.name) q, e, eq_iff y.name name)
named-none (y ∷ ys) name h x (inr m) e = named-none ys name (ground (arith, h)) x m e

pub owners-AreOwned :
    (machines : List CapiMachine) (cp : TartControlPlane)
    → validate_control_plane_machine_owners machines cp ≡ ok tt
    → AreOwned cp machines
unfolding validate_control_plane_machine_owners
owners-AreOwned [] cp h m i = absurd i
owners-AreOwned (x ∷ xs) cp h m (inl e) =
    subst (λ y. has_controller_owner y.owner_references (control_plane_owner cp) ≡ true) (sym e)
      (ground (arith, h))
owners-AreOwned (x ∷ xs) cp h m (inr i) = owners-AreOwned xs cp (ground (arith, h)) m i

pub placed-ServesNamed :
    (domains : List FailureDomain) (domain : String)
    → (domain != "" && not (contains_control_plane_failure_domain domains domain)) ≡ false
    → domain ≢ ""
    → ServesNamed domains domain
placed-ServesNamed domains domain h n =
    (n, contains-domain domains domain (ground (arith, h, n, eq_iff domain "")))

pub given_domain :
    (domains : List FailureDomain) (i : ℕ)
    → (ltb 0 (length domains) && not (is_some (control_plane_failure_domain domains i))) ≡ false
    → (control_plane_failure_domain domains i
        ≡ some (or_empty (control_plane_failure_domain domains i)))
      ⊎ ((length domains ≡ 0) × (or_empty (control_plane_failure_domain domains i) ≡ ""))
given_domain domains i h = elim (Option-cases (control_plane_failure_domain domains i)) [
  | inl e ↦ inr (ground (arith, h, e), ap or_empty e)
  | inr (a, e) ↦ inl (e ∙ sym (ap (λ o. some (or_empty o)) e))
]
