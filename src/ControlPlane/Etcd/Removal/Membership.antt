-- ===== src/ControlPlane/Etcd/Removal/Membership.antt =====
-- What a summary of the observed members says, and when the members that a node lists are exactly
-- the observed ones.
use cluster_api_provider_tar.Base.{
  ℕ, suc, String, ◌+◌, ◌≤◌, ◌≡◌, refl, sym, ap, ◌∙◌, ◌≢◌, ◌⊎◌, inl, inr, true, false, not, Option,
  none, some, List, [], ◌∷◌, arith, eq_iff, if◌then◌else◌, ◌==◌, comparable_nat, comparable_text,
  comparable_list, Bool-cases, length, any, count_if, All, In,
}
use cluster_api_provider_tar.ControlPlane.Etcd.{
  EtcdMember, EtcdObservation, etcd_status_healthy, contains_etcd_member,
  all_etcd_members_are_voting,
}
use cluster_api_provider_tar.ControlPlane.Etcd.Removal.{
  summarize_from, summarize_etcd_observations, first_etcd_observation,
}

-- The numbers of a list differ from each other.
abbrev pub Distinct : List ℕ → Type 0
Distinct [] = Unit
Distinct (x ∷ xs) = All (λ y. y ≢ x) xs × Distinct xs

abbrev pub ids : List EtcdObservation → List ℕ
ids [] = []
ids (o ∷ os) = o.status.member_id ∷ ids os

abbrev pub member_ids : List EtcdMember → List ℕ
member_ids [] = []
member_ids (m ∷ ms) = m.id ∷ member_ids ms

abbrev pub healthy_count : List EtcdObservation → ℕ
healthy_count os = count_if (λ o. etcd_status_healthy o.status) os

summarize_from-healthy :
    (seen : List ℕ) (target : Option EtcdObservation) (healthy : ℕ) (os : List EtcdObservation)
    (uid : String)
    → (summarize_from seen target healthy os uid).unique ≡ true
    → (summarize_from seen target healthy os uid).healthy_members ≡ healthy + healthy_count os
unfolding summarize_from
summarize_from-healthy seen target healthy [] uid h = omega arith
summarize_from-healthy seen target healthy (o ∷ os) uid h = ground (
  arith,
  summarize_from-healthy (o.status.member_id ∷ seen)
      (if o.machine.uid == uid then some o else target)
      (if etcd_status_healthy o.status then suc healthy else healthy) os uid,
)

IsNew : List ℕ → List EtcdObservation → Type 0
IsNew seen os = All (λ o. any (λ i. i == o.status.member_id) seen ≡ false) os

IsNew-tail :
    (i : ℕ) (seen : List ℕ) (os : List EtcdObservation)
    → IsNew (i ∷ seen) os
    → All (λ y. y ≢ i) (ids os) × IsNew seen os
unfolding IsNew
IsNew-tail i seen [] h = (tt, tt)
IsNew-tail i seen (o ∷ os) h =
    let (ds, ns) = IsNew-tail i seen os h.1 in
    ((ground (arith, h.0, h.0), ds), (ground (arith, h.0), ns))

summarize_from-Distinct :
    (seen : List ℕ) (target : Option EtcdObservation) (healthy : ℕ) (os : List EtcdObservation)
    (uid : String)
    → (summarize_from seen target healthy os uid).unique ≡ true
    → IsNew seen os × Distinct (ids os)
unfolding summarize_from IsNew
summarize_from-Distinct seen target healthy [] uid h = (tt, tt)
summarize_from-Distinct seen target healthy (o ∷ os) uid h =
    let fresh : any (λ i. i == o.status.member_id) seen ≡ false = ground (arith, h) in
    let (ns, ds) =
      summarize_from-Distinct (o.status.member_id ∷ seen)
        (if o.machine.uid == uid then some o else target)
        (if etcd_status_healthy o.status then suc healthy else healthy) os uid
        (ground (arith, h, fresh)) in
    let (es, ms) = IsNew-tail o.status.member_id seen os ns in ((fresh, ms), (es, ds))

summarize_from-target :
    (seen : List ℕ) (target : Option EtcdObservation) (healthy : ℕ) (os : List EtcdObservation)
    (uid : String) (x : EtcdObservation)
    → (summarize_from seen target healthy os uid).target ≡ some x
    → (target ≡ some x) ⊎ (In x os × (x.machine.uid ≡ uid))
unfolding summarize_from
summarize_from-target seen target healthy [] uid x h = inl h
summarize_from-target seen target healthy (o ∷ os) uid x h =
    let next = if o.machine.uid == uid then some o else target in
    let later =
      summarize_from-target (o.status.member_id ∷ seen) next
        (if etcd_status_healthy o.status then suc healthy else healthy) os uid x
        (ground (arith, h)) in
    elim later [
      | inl e ↦ elim (Bool-cases (o.machine.uid == uid)) [
        | inl b ↦ ground (arith, e, b, eq_iff o.machine.uid uid)
        | inr b ↦ inl (ground (arith, e, b))
      ]
      | inr (i, u) ↦ inr (inr i, u)
    ]

-- A summary whose IDs are unique counts the healthy members, and its target is an observation of
-- the machine.
pub summarize_etcd_observations_lem :
    (os : List EtcdObservation) (uid : String) (x : EtcdObservation)
    → (summarize_etcd_observations os uid).unique ≡ true
    → (summarize_etcd_observations os uid).target ≡ some x
    → Distinct (ids os)
      × ((summarize_etcd_observations os uid).healthy_members ≡ healthy_count os)
      × In x os
      × (x.machine.uid ≡ uid)
unfolding summarize_etcd_observations
summarize_etcd_observations_lem os uid x h t =
    let found : In x os × (x.machine.uid ≡ uid) =
      elim (summarize_from-target [] none 0 os uid x t) [
        | inl e ↦ absurd (ground (arith, e))
        | inr f ↦ f
      ] in
    (
      (summarize_from-Distinct [] none 0 os uid h).1,
      summarize_from-healthy [] none 0 os uid h ∙ omega arith,
      found.0,
      found.1,
    )

pub first_etcd_observation_lem :
    (os : List EtcdObservation) (uid : String) (x : EtcdObservation)
    → first_etcd_observation os uid ≡ some x
    → In x os × (x.machine.uid ≢ uid)
unfolding first_etcd_observation
first_etcd_observation_lem [] uid x h = absurd (ground (arith, h))
first_etcd_observation_lem (o ∷ os) uid x h = elim (Bool-cases (o.machine.uid == uid)) [
  | inl b ↦ let (i, n) = first_etcd_observation_lem os uid x (ground (arith, h, b)) in (inr i, n)
  | inr b ↦
      let same : o ≡ x = ground (arith, h, b) in
      (inl (sym same), rw (sym same) (ground (arith, b, eq_iff o.machine.uid uid)))
]

remove : ℕ → List ℕ → List ℕ
remove x [] = []
remove x (y ∷ ys) = let rest = remove x ys in if x == y then ys else y ∷ rest

length-remove : (x : ℕ) (ys : List ℕ) → In x ys → length ys ≡ suc (length (remove x ys))
unfolding remove
length-remove x [] i = absurd i
length-remove x (y ∷ ys) i = elim (Bool-cases (x == y)) [
  | inl b ↦ rw b refl
  | inr b ↦ rw b (ap suc (length-remove x ys (ground (arith, i, b))))
]

In-remove : (x z : ℕ) (ys : List ℕ) → In z ys → z ≢ x → In z (remove x ys)
unfolding remove
In-remove x z [] i n = i
In-remove x z (y ∷ ys) i n = elim (Bool-cases (x == y)) [
  | inl b ↦ rw b (ground (arith, i, b, n))
  | inr b ↦ rw b (ground (arith, i, In-remove x z ys))
]

All-remove :
    (x : ℕ) (xs ys : List ℕ)
    → All (λ y. y ≢ x) xs
    → All (λ y. In y ys) xs
    → All (λ y. In y (remove x ys)) xs
All-remove x [] ys h k = tt
All-remove x (z ∷ xs) ys h k = (In-remove x z ys k.0 h.0, All-remove x xs ys h.1 k.1)

-- Distinct numbers that all stand in a list which is not longer are all of it.
Distinct-all :
    (xs ys : List ℕ)
    → Distinct xs
    → All (λ x. In x ys) xs
    → length ys ≤ length xs
    → (z : ℕ) → In z ys
    → In z xs
Distinct-all [] [] d a l z i = i
Distinct-all [] (y ∷ ys) d a l z i = absurd (omega arith)
Distinct-all (x ∷ xs) ys d a l z i =
    let rest = Distinct-all xs (remove x ys) d.1 (All-remove x xs ys d.0 a.1) in
    let shorter = length-remove x ys a.0 in
    elim (Bool-cases (z == x)) [
      | inl b ↦ inl (ground (arith, b))
      | inr b ↦ inr (rest (omega (arith, shorter)) z (In-remove x z ys i (ground (arith, b))))
    ]

members_all_voting :
    (members : List EtcdMember)
    → all_etcd_members_are_voting members ≡ true
    → All (λ m. m.learner ≡ false) members
unfolding all_etcd_members_are_voting
members_all_voting [] h = tt
members_all_voting (m ∷ ms) h = (ground (arith, h), members_all_voting ms (ground (arith, h)))

contains_etcd_member-In :
    (members : List EtcdMember) (i : ℕ)
    → contains_etcd_member members i ≡ true
    → In i (member_ids members)
unfolding contains_etcd_member
contains_etcd_member-In [] i h = cc
contains_etcd_member-In (m ∷ ms) i h = ground (arith, h, contains_etcd_member-In ms i)

observed_members-In :
    (members : List EtcdMember) (os : List EtcdObservation)
    → any (λ o. not (contains_etcd_member members o.status.member_id)) os ≡ false
    → All (λ i. In i (member_ids members)) (ids os)
observed_members-In members [] h = tt
observed_members-In members (o ∷ os) h = (
  contains_etcd_member-In members o.status.member_id (ground (arith, h)),
  observed_members-In members os (ground (arith, h)),
)

length-ids : (os : List EtcdObservation) → length (ids os) ≡ length os
length-ids [] = refl
length-ids (o ∷ os) = ap suc (length-ids os)

length-member_ids : (ms : List EtcdMember) → length (member_ids ms) ≡ length ms
length-member_ids [] = refl
length-member_ids (m ∷ ms) = ap suc (length-member_ids ms)

-- The members that were listed are voting members, and each of them was observed.
pub record IsWholeCluster (members : List EtcdMember) (os : List EtcdObservation) : Type 0 where
  pub as_many : length members ≡ length os
  pub voting : All (λ m. m.learner ≡ false) members
  pub all_observed : (i : ℕ) → In i (member_ids members) → In i (ids os)

pub whole_cluster_lem :
    (members : List EtcdMember) (os : List EtcdObservation)
    → Distinct (ids os)
    → length members ≡ length os
    → all_etcd_members_are_voting members ≡ true
    → any (λ o. not (contains_etcd_member members o.status.member_id)) os ≡ false
    → IsWholeCluster members os
whole_cluster_lem members os d l v a = record {
  as_many = l;
  voting = members_all_voting members v;
  all_observed =
      Distinct-all (ids os) (member_ids members) d (observed_members-In members os a)
        (omega (arith, l, length-ids os, length-member_ids members));
}
