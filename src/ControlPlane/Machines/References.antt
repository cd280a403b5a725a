-- ===== src/ControlPlane/Machines/References.antt =====
-- controller/tartcontrolplane/machines.go: the machines that are created are those that are
-- accepted, and two ordinals never share a name.
use cluster_api_provider_tar.Base.{
  ℕ, suc, String, ◌+◌, ◌^◌, ◌<◌, ◌≡◌, refl, sym, ap, subst, ◌∙◌, ◌≢◌, ◌↔◌, inl, inr, Bool, true,
  not, ◌||◌, some, List, [], ◌∷◌, arith, eq_iff, if◌then◌else◌, ◌==◌, ◌!=◌, comparable_nat,
  comparable_text, comparable_list, ==_refl, Bool-cases,
}
use cluster_api_provider_tar.Base.Format.{concat, format_nat}
use cluster_api_provider_tar.Base.Parse.{parse_uint64, parse_uint64-format_nat}
use cluster_api_provider_tar.Base.Result.{ok, fail_if}
use cluster_api_provider_tar.Api.Machine.{CapiMachine, ContractReference}
use cluster_api_provider_tar.Controller.Ownership.{Owner, has_controller_owner}
use cluster_api_provider_tar.Machine.Release.{infra_group}
use cluster_api_provider_tar.ControlPlane.Etcd.Removal.{ControlPlaneError, failure}
use cluster_api_provider_tar.ControlPlane.Machines.{
  LabelNames, TartControlPlane, control_plane_owner, controller_owner_reference, bootstrap_group,
  new_machine, validate_machine_reference, validate_control_plane_machine_owners,
  control_plane_child_name, with_suffix,
}
use mathlib.Core.Option.{some-injective}
use Prim.Native.String
use Prim.Native.String.append

-- What a machine must carry to be taken for one of the control plane.
abbrev pub IsMachineOf : TartControlPlane → String → String → String → CapiMachine → Type 0
IsMachineOf cp cluster_name machine_name bootstrap_name m =
    (has_controller_owner m.owner_references (control_plane_owner cp) ≡ true)
    × (m.cluster_name ≡ cluster_name)
    × (m.infrastructure_ref
        ≡ record { api_group = infra_group; kind = "TartMachine"; name = machine_name })
    × (m.bootstrap_config_ref ≡ record {
      api_group = bootstrap_group;
      kind = "TartBootstrapConfig";
      name = bootstrap_name;
    })

reference_eta :
    (r : ContractReference) (g k n : String)
    → r.api_group ≡ g
    → r.kind ≡ k
    → r.name ≡ n
    → r ≡ record { api_group = g; kind = k; name = n }
reference_eta r g k n x y z = rw (sym x, sym y, sym z) refl

accepted_fields :
    (a : Bool) (c c' g g' k k' n n' h h' l l' o o' : String) (e : ControlPlaneError)
    → (fail_if
          (not a || c != c' || g != g' || k != k' || n != n' || h != h' || l != l' || o != o')
          e
        ≡ ok tt)
      ↔ ((a ≡ true)
          × (c ≡ c')
          × ((g ≡ g') × (k ≡ k') × (n ≡ n'))
          × ((h ≡ h') × (l ≡ l') × (o ≡ o')))
accepted_fields a c c' g g' k k' n n' h h' l l' o o' e = ground (
  arith,
  eq_iff c c',
  eq_iff g g',
  eq_iff k k',
  eq_iff n n',
  eq_iff h h',
  eq_iff l l',
  eq_iff o o',
)

-- The check accepts exactly the machines with that owner, cluster and references.
pub validate_machine_reference_iff :
    (m : CapiMachine) (cp : TartControlPlane) (cluster_name machine_name bootstrap_name : String)
    → (validate_machine_reference m cp cluster_name machine_name bootstrap_name ≡ ok tt)
      ↔ IsMachineOf cp cluster_name machine_name bootstrap_name m
unfolding validate_machine_reference
validate_machine_reference_iff m cp cluster_name machine_name bootstrap_name =
    let fields =
      accepted_fields (has_controller_owner m.owner_references (control_plane_owner cp))
        m.cluster_name cluster_name m.infrastructure_ref.api_group infra_group
        m.infrastructure_ref.kind "TartMachine" m.infrastructure_ref.name machine_name
        m.bootstrap_config_ref.api_group bootstrap_group m.bootstrap_config_ref.kind
        "TartBootstrapConfig" m.bootstrap_config_ref.name bootstrap_name
        (failure "MachineSpecMismatch") in
    (
      (λ h.
          let (a, c, (g, k, n), (u, l, o)) = fields.0 h in
          (
            a,
            c,
            reference_eta m.infrastructure_ref infra_group "TartMachine" machine_name g k n,
            reference_eta m.bootstrap_config_ref bootstrap_group "TartBootstrapConfig"
                bootstrap_name u l o,
          )),
      (λ h. fields.1 (
        h.0,
        h.1,
        (ap (λ r. r.api_group) h.2, ap (λ r. r.kind) h.2, ap (λ r. r.name) h.2),
        (ap (λ r. r.api_group) h.3, ap (λ r. r.kind) h.3, ap (λ r. r.name) h.3),
      )),
    )

controller_reference_owned :
    (owner : Owner) → has_controller_owner (controller_owner_reference owner ∷ []) owner ≡ true
unfolding has_controller_owner
controller_reference_owned owner =
    ground
      (arith, ==_refl owner.api_version, ==_refl owner.kind, ==_refl owner.name, ==_refl owner.uid)

-- The machine that is created is accepted: as one of the control plane, and under its references.
pub new_machine-accepted :
    (names : LabelNames) (cp : TartControlPlane) (cluster_name : String) (ordinal : ℕ)
    (failure_domain name bootstrap_name : String) (machines : List CapiMachine)
    → validate_control_plane_machine_owners machines cp ≡ ok tt
    → (validate_machine_reference
          (new_machine names cp cluster_name ordinal failure_domain name bootstrap_name)
          cp
          cluster_name
          name
          bootstrap_name
        ≡ ok tt)
      × (validate_control_plane_machine_owners
            (new_machine names cp cluster_name ordinal failure_domain name bootstrap_name
              ∷ machines)
            cp
          ≡ ok tt)
unfolding validate_control_plane_machine_owners new_machine
new_machine-accepted names cp cluster_name ordinal failure_domain name bootstrap_name machines h = (
  (validate_machine_reference_iff
        (new_machine names cp cluster_name ordinal failure_domain name bootstrap_name) cp
        cluster_name name bootstrap_name).1
      (controller_reference_owned (control_plane_owner cp), refl, refl, refl),
  ground (arith, h, controller_reference_owned (control_plane_owner cp)),
)

abbrev size : String → ℕ
size String.[] = 0
size (String.◌∷◌ c s) = suc (size s)

size-++ : (s t : String) → size (String.◌++◌ s t) ≡ size s + size t
size-++ String.[] t = omega (arith, ap size (append.nil t))
size-++ (String.◌∷◌ c s) t = omega (arith, ap size (append.cons c s t), size-++ s t)

++_cancel_left : (p s t : String) → String.◌++◌ p s ≡ String.◌++◌ p t → s ≡ t
++_cancel_left String.[] s t h = sym (append.nil s) ∙ h ∙ append.nil t
++_cancel_left (String.◌∷◌ c p) s t h =
    let e : String.◌∷◌ c (String.◌++◌ p s) ≡ String.◌∷◌ c (String.◌++◌ p t) =
      sym (append.cons c p s) ∙ h ∙ append.cons c p t in
    ++_cancel_left p s t cc

++_cancel_right : (s t u : String) → String.◌++◌ s u ≡ String.◌++◌ t u → s ≡ t
++_cancel_right String.[] String.[] u h = refl
++_cancel_right String.[] (String.◌∷◌ d t) u h =
    absurd (omega (arith, sym (size-++ String.[] u) ∙ ap size h ∙ size-++ (String.◌∷◌ d t) u))
++_cancel_right (String.◌∷◌ c s) String.[] u h =
    absurd (omega (arith, sym (size-++ (String.◌∷◌ c s) u) ∙ ap size h ∙ size-++ String.[] u))
++_cancel_right (String.◌∷◌ c s) (String.◌∷◌ d t) u h =
    let e : String.◌∷◌ c (String.◌++◌ s u) ≡ String.◌∷◌ d (String.◌++◌ t u) =
      sym (append.cons c s u) ∙ h ∙ append.cons d t u in
    let same : c ≡ d = cc in let rest : s ≡ t = ++_cancel_right s t u cc in rw (same, rest)

format_nat-injective : (i j : ℕ) → i < 2 ^ 64 → j < 2 ^ 64 → format_nat i ≡ format_nat j → i ≡ j
format_nat-injective i j h k e =
    some-injective i j
      (sym (parse_uint64-format_nat i h) ∙ ap parse_uint64 e ∙ parse_uint64-format_nat j k)

base_name : String → ℕ → String
base_name cp i = concat (cp ∷ "-" ∷ format_nat i ∷ [])

base_name-injective :
    (cp : String) (i j : ℕ) → i < 2 ^ 64 → j < 2 ^ 64 → base_name cp i ≡ base_name cp j → i ≡ j
unfolding base_name concat
base_name-injective cp i j h k e = format_nat-injective i j h k (
    ++_cancel_right (format_nat i) (format_nat j) ""
      (++_cancel_left "-" _ _ (++_cancel_left cp _ _ e)))

suffixed-injective :
    (suffix a b : String) → concat (with_suffix a suffix) ≡ concat (with_suffix b suffix) → a ≡ b
unfolding concat
suffixed-injective suffix a b h = elim (Bool-cases (suffix == "")) [
  | inl e ↦ ++_cancel_right a b "" (
      subst
        (λ c.
          concat (if c then a ∷ [] else a ∷ "-" ∷ suffix ∷ [])
          ≡ concat (if c then b ∷ [] else b ∷ "-" ∷ suffix ∷ []))
        e h)
  | inr e ↦ ++_cancel_right a b (concat ("-" ∷ suffix ∷ [])) (
      subst
        (λ c.
          concat (if c then a ∷ [] else a ∷ "-" ∷ suffix ∷ [])
          ≡ concat (if c then b ∷ [] else b ∷ "-" ∷ suffix ∷ []))
        e h)
]

child_name-eq :
    (is_dns1123_subdomain : String → Bool) (cp suffix name : String) (i : ℕ)
    → control_plane_child_name is_dns1123_subdomain cp i suffix ≡ some name
    → concat (with_suffix (base_name cp i) suffix) ≡ name
unfolding control_plane_child_name base_name
child_name-eq is_dns1123_subdomain cp suffix name i p =
    elim (Bool-cases (
      is_dns1123_subdomain (concat (with_suffix (concat (cp ∷ "-" ∷ format_nat i ∷ [])) suffix)))) [
        | inl e ↦ some-injective _ _ (ground (arith, p, e))
        | inr e ↦ absurd (ground (arith, p, e))
      ]

control_plane_child_name-injective :
    (is_dns1123_subdomain : String → Bool) (cp suffix name : String) (i j : ℕ)
    → i < 2 ^ 64
    → j < 2 ^ 64
    → control_plane_child_name is_dns1123_subdomain cp i suffix ≡ some name
    → control_plane_child_name is_dns1123_subdomain cp j suffix ≡ some name
    → i ≡ j
control_plane_child_name-injective is_dns1123_subdomain cp suffix name i j h k p q =
    base_name-injective cp i j h k (
      suffixed-injective suffix (base_name cp i) (base_name cp j) (
        child_name-eq is_dns1123_subdomain cp suffix name i p
        ∙ sym (child_name-eq is_dns1123_subdomain cp suffix name j q)))

-- Different ordinals below 2^64 never give the same name of a child, with or without a suffix.
pub control_plane_child_name_differs :
    (is_dns1123_subdomain : String → Bool) (cp suffix a b : String) (i j : ℕ)
    → i < 2 ^ 64
    → j < 2 ^ 64
    → i ≢ j
    → control_plane_child_name is_dns1123_subdomain cp i suffix ≡ some a
    → control_plane_child_name is_dns1123_subdomain cp j suffix ≡ some b
    → a ≢ b
control_plane_child_name_differs is_dns1123_subdomain cp suffix a b i j h k n p q e = n (
    control_plane_child_name-injective is_dns1123_subdomain cp suffix a i j h k p
      (q ∙ ap some (sym e)))
