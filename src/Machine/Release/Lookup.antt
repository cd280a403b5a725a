-- ===== src/Machine/Release/Lookup.antt =====
-- `findClaimedHost` of the reconciler.
use cluster_api_provider_tar.Base.{
  String, ◌≡◌, refl, subst, ◌≢◌, ◌⊎◌, inl, inr, false, Option, none, some, List, [], ◌∷◌, map,
  arith, eq_iff, ◌==◌, comparable_nat, comparable_text, comparable_list, Bool-cases, Option-cases,
  In,
}
use cluster_api_provider_tar.Base.Result.{ok, Result-cases, >>=-eq-ok, ok-injective}
use cluster_api_provider_tar.Api.Host.{TartHost, PreviousConsumerRef}
use cluster_api_provider_tar.Api.Machine.{TartMachine}
use cluster_api_provider_tar.Machine.Binding.{
  consumer_uid_of, find_claimed_host, find_claimed_host_name, candidate_of, is_bound_to,
}
use cluster_api_provider_tar.Machine.Binding.Claims.{
  Bound, Answers, find_claimed_host_lem, host_named-In,
}
use cluster_api_provider_tar.Machine.Release.{
  LookupError, holds_uid, by_name, claimed_in, with_status_host, look_up, find_allocated_host,
}

by_name-In :
    (hosts : List TartHost) (name : String) (h : TartHost)
    → by_name hosts name ≡ some h
    → In h hosts
by_name-In [] name h e = absurd cc
by_name-In (x ∷ hosts) name h e = ground (arith, by_name-In hosts name h)

find_claimed_host-In :
    (hosts : List TartHost) (uid : String) (h : TartHost)
    → find_claimed_host hosts uid ≡ ok (some h)
    → In h hosts
unfolding find_claimed_host
find_claimed_host-In hosts uid h e =
    let (name, _, k) = >>=-eq-ok (find_claimed_host_name (map candidate_of hosts) uid) _ e in
    (host_named-In hosts name h (ground (arith, ok-injective k))).0

claimed_in-eq :
    (hosts : List TartHost) (machine : TartMachine) (o : Option TartHost)
    → claimed_in hosts machine ≡ ok o
    → find_claimed_host hosts machine.uid ≡ ok o
unfolding claimed_in
claimed_in-eq hosts machine o e = elim (Result-cases (find_claimed_host hosts machine.uid)) [
  | inl (a, p) ↦ ground (arith, p)
  | inr (x, p) ↦ absurd (ground (arith, p))
]

-- The host on record was released by the machine.
abbrev pub ReleasedBefore : List TartHost → TartMachine → Type 0
ReleasedBefore hosts machine =
    (g : TartHost) × (previous : PreviousConsumerRef) × In g hosts
    × (g.spec.previous_consumer_ref ≡ some previous)
    × (previous.uid ≡ machine.uid)

-- What an answer without error says.
abbrev pub LookedUp : List TartHost → TartMachine → Option TartHost → Type 0
LookedUp hosts machine (some h) = In h hosts × (consumer_uid_of h.spec.consumer_ref ≡ machine.uid)
LookedUp hosts machine none =
    ReleasedBefore hosts machine ⊎ ((g : TartHost) → In g hosts → ¬ Bound machine.uid g)

Bound-uid : (h : TartHost) (uid : String) → Bound uid h → consumer_uid_of h.spec.consumer_ref ≡ uid
unfolding is_bound_to
Bound-uid h uid b = ground (arith, eq_iff (consumer_uid_of h.spec.consumer_ref) uid)

module _ (hosts : List TartHost) (machine : TartMachine)
    (named : (g : TartHost) → In g hosts → g.name ≢ "")
    (unique : (a b : TartHost) → In a hosts → In b hosts → a.name ≡ b.name → a ≡ b) where
  claimed_in-LookedUp :
      (o : Option TartHost) → claimed_in hosts machine ≡ ok o → LookedUp hosts machine o
  claimed_in-LookedUp o e = go o (
      subst (Answers hosts machine.uid) (claimed_in-eq hosts machine o e)
        (find_claimed_host_lem hosts machine.uid named unique))
    where
      go : (o : Option TartHost) → Answers hosts machine.uid (ok o) → LookedUp hosts machine o
      go none a = inr a
      go (some h) a = (a.0, Bound-uid h machine.uid a.1)

  with_status_host-LookedUp :
      (status_host : TartHost) (o : Option TartHost)
      → In status_host hosts
      → with_status_host hosts machine (some status_host) ≡ ok o
      → LookedUp hosts machine o
  unfolding with_status_host
  with_status_host-LookedUp status_host o m e = elim (Bool-cases (holds_uid status_host machine)) [
    | inr n ↦ released status_host.spec.previous_consumer_ref refl n
    | inl b ↦ elim (Result-cases (claimed_in hosts machine)) [
      | inr (x, p) ↦ absurd (ground (arith, p))
      | inl (none, p) ↦
          let same : ◌≡◌ {A = Option TartHost} (some status_host) o =
            ok-injective {E = LookupError} (ground (arith, p)) in
          subst (LookedUp hosts machine) same
            (m, ground (arith, eq_iff (consumer_uid_of status_host.spec.consumer_ref) machine.uid))
      | inl (some h, p) ↦
          let same : ◌≡◌ {A = Option TartHost} (some h) o =
            ok-injective {E = LookupError} (ground (arith, p)) in
          subst (LookedUp hosts machine) same (claimed_in-LookedUp (some h) p)
    ]
  ]
    where
      released :
          (p : Option PreviousConsumerRef)
          → status_host.spec.previous_consumer_ref ≡ p
          → holds_uid status_host machine ≡ false
          → LookedUp hosts machine o
      released none q n = absurd (ground (arith, q, n, e))
      released (some previous) q n = elim (Bool-cases (previous.uid == machine.uid)) [
        | inl b ↦
            let same : ◌≡◌ {A = Option TartHost} none o =
              ok-injective {E = LookupError} (ground (arith, q, n, e, b)) in
            subst (LookedUp hosts machine) same
              (inl (status_host, previous, m, q, (eq_iff previous.uid machine.uid).0 b))
        | inr b ↦ absurd (ground (arith, q, n, e, b))
      ]

  -- With hosts that have unique, nonempty names: a host that is found is listed and held by the
  -- machine, and nothing is found only when the machine has released the host on record or no host
  -- is bound to the machine.
  pub find_allocated_host_lem :
      (o : Option TartHost)
      → find_allocated_host (ok hosts) machine ≡ ok o
      → LookedUp hosts machine o
  unfolding find_allocated_host look_up
  find_allocated_host_lem o e = go machine.status.host_ref refl
    where
      go : (r : Option String) → machine.status.host_ref ≡ r → LookedUp hosts machine o
      go none q = claimed_in-LookedUp o (ground (arith, q))
      go (some name) q = elim (Option-cases (by_name hosts name)) [
        | inl p ↦ absurd (ground (arith, q, p))
        | inr (g, p) ↦
            with_status_host-LookedUp g o (by_name-In hosts name g p) (ground (arith, q, p))
      ]

-- A host that is found is listed, whatever the names.
claimed_in-In :
    (hosts : List TartHost) (machine : TartMachine) (h : TartHost)
    → claimed_in hosts machine ≡ ok (some h)
    → In h hosts
claimed_in-In hosts machine h e =
    find_claimed_host-In hosts machine.uid h (claimed_in-eq hosts machine (some h) e)

pub find_allocated_host-In :
    (hosts : List TartHost) (machine : TartMachine) (h : TartHost)
    → find_allocated_host (ok hosts) machine ≡ ok (some h)
    → In h hosts
unfolding find_allocated_host look_up with_status_host
find_allocated_host-In hosts machine h e = go machine.status.host_ref refl
  where
    go : (r : Option String) → machine.status.host_ref ≡ r → In h hosts
    go none q = claimed_in-In hosts machine h (ground (arith, q))
    go (some name) q = elim (Option-cases (by_name hosts name)) [
      | inl p ↦ absurd (ground (arith, q, p))
      | inr (g, p) ↦ elim (Result-cases (claimed_in hosts machine)) [
        | inr (x, c) ↦ absurd (ground (arith, q, p, c))
        | inl (none, c) ↦
            subst (λ k. In k hosts) (ground (arith, q, p, c)) (by_name-In hosts name g p)
        | inl (some k, c) ↦ claimed_in-In hosts machine h (ground (arith, q, p, c))
      ]
    ]
