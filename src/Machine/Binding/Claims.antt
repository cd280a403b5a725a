-- ===== src/Machine/Binding/Claims.antt =====
-- What the search for a machine's host finds.
use cluster_api_provider_tar.Base.{
  String, ◌≡◌, refl, sym, ap, subst, ◌∙◌, ◌≢◌, ◌⊎◌, inl, inr, true, ◌&&◌, Option, none, some, List,
  [], ◌∷◌, map, arith, eq_iff, if◌then◌else◌, ◌==◌, ◌!=◌, comparable_nat, comparable_text,
  comparable_list, Bool-cases, Option-cases, In,
}
use cluster_api_provider_tar.Base.Result.{ok, ok-injective, Result, err, Result-cases}
use cluster_api_provider_tar.Api.Host.{TartHost}
use cluster_api_provider_tar.Machine.Binding.{
  is_bound_to, find_name_from, candidate_of, consumer_uid_of, ClaimError, host_named,
  find_claimed_host, find_claimed_host_name,
}

-- The host is bound to the machine.
abbrev pub Bound : String → TartHost → Type 0
Bound machine_uid host = is_bound_to (consumer_uid_of host.spec.consumer_ref) machine_uid ≡ true

-- Two hosts of the list are bound to the machine under different names.
pub record IsAmbiguous (hosts : List TartHost) (machine_uid : String) : Type 0 where
  pub left : TartHost
  pub right : TartHost
  pub left_listed : In left hosts
  pub right_listed : In right hosts
  pub left_bound : Bound machine_uid left
  pub right_bound : Bound machine_uid right
  pub differ : left.name ≢ right.name

-- The search goes through the list: what it has found so far stays, unless it was nothing.
record Scan (claimed : String) (hosts : List TartHost) (machine_uid name : String) : Type 0 where
  kept : (claimed ≡ "") ⊎ (name ≡ claimed)
  every : (g : TartHost) → In g hosts → Bound machine_uid g → (g.name ≡ "") ⊎ (g.name ≡ name)
  from : (name ≡ claimed) ⊎ ((g : TartHost) × In g hosts × Bound machine_uid g × (g.name ≡ name))

find_name_from-Scan :
    (claimed : String) (hosts : List TartHost) (machine_uid name : String)
    → find_name_from claimed (map candidate_of hosts) machine_uid ≡ ok name
    → Scan claimed hosts machine_uid name
unfolding find_name_from
find_name_from-Scan claimed [] machine_uid name h =
    let same : claimed ≡ name = ok-injective h in
    record { kept = inr (sym same); every = λ g m. absurd m; from = inl (sym same) }
find_name_from-Scan claimed (x ∷ hosts) machine_uid name h =
    elim (Bool-cases (is_bound_to (consumer_uid_of x.spec.consumer_ref) machine_uid)) [
      | inl b ↦
          let s = find_name_from-Scan x.name hosts machine_uid name (ground arith) in
          record {
            kept = ground (arith, s.kept, eq_iff claimed "", eq_iff claimed x.name);
            every = λ g m c. elim m [ inl q ↦ ground (arith, s.kept) | inr n ↦ s.every g n c ];
            from = elim s.from [
              | inl e ↦ inr (x, inl refl, b, sym e)
              | inr (g, n, c, e) ↦ inr (g, inr n, c, e)
            ];
          }
      | inr b ↦
          let s = find_name_from-Scan claimed hosts machine_uid name (ground arith) in
          record {
            kept = s.kept;
            every = λ g m c. elim m [ inl q ↦ absurd (ground arith) | inr n ↦ s.every g n c ];
            from = elim s.from [ inl e ↦ inl e | inr (g, n, c, e) ↦ inr (g, inr n, c, e) ];
          }
    ]

lift-IsAmbiguous :
    (x : TartHost) (hosts : List TartHost) (machine_uid : String)
    → IsAmbiguous hosts machine_uid
    → IsAmbiguous (x ∷ hosts) machine_uid
lift-IsAmbiguous x hosts machine_uid a = record {
  left = a.left;
  right = a.right;
  left_listed = inr a.left_listed;
  right_listed = inr a.right_listed;
  left_bound = a.left_bound;
  right_bound = a.right_bound;
  differ = a.differ;
}

-- A search that fails has met a second name: after the one it started with, or in the list.
find_name_from-clash :
    (claimed : String) (hosts : List TartHost) (machine_uid : String) (e : ClaimError)
    → find_name_from claimed (map candidate_of hosts) machine_uid ≡ err e
    → ((g : TartHost) × In g hosts × Bound machine_uid g × (claimed ≢ "") × (claimed ≢ g.name))
      ⊎ IsAmbiguous hosts machine_uid
unfolding find_name_from
find_name_from-clash claimed [] machine_uid e h = cc
find_name_from-clash claimed (x ∷ hosts) machine_uid e h =
    elim (Bool-cases (is_bound_to (consumer_uid_of x.spec.consumer_ref) machine_uid)) [
      | inr b ↦ elim (find_name_from-clash claimed hosts machine_uid e (ground arith)) [
        | inl (g, m, c, k, d) ↦ inl (g, inr m, c, k, d)
        | inr a ↦ inr (lift-IsAmbiguous x hosts machine_uid a)
      ]
      | inl b ↦ elim (Bool-cases (claimed != "" && claimed != x.name)) [
        | inl t ↦ inl (
          x,
          inl refl,
          b,
          ground (arith, eq_iff claimed ""),
          ground (arith, eq_iff claimed x.name),
        )
        | inr f ↦ elim (find_name_from-clash x.name hosts machine_uid e (ground arith)) [
          | inl (g, m, c, k, d) ↦ inr (record {
            left = x;
            right = g;
            left_listed = inl refl;
            right_listed = inr m;
            left_bound = b;
            right_bound = c;
            differ = d;
          })
          | inr a ↦ inr (lift-IsAmbiguous x hosts machine_uid a)
        ]
      ]
    ]

pub host_named-In :
    (hosts : List TartHost) (name : String) (h : TartHost)
    → host_named hosts name ≡ some h
    → In h hosts × (h.name ≡ name)
host_named-In [] name h e = absurd cc
host_named-In (x ∷ hosts) name h e = ground (arith, host_named-In hosts name h, eq_iff x.name name)

host_named-none :
    (hosts : List TartHost) (g : TartHost) → host_named hosts g.name ≡ none → In g hosts → ⊥
host_named-none [] g e m = m
host_named-none (x ∷ hosts) g e (inl q) = ground (arith, eq_iff x.name g.name)
host_named-none (x ∷ hosts) g e (inr m) = ground (arith, host_named-none hosts g)

-- What each answer says of the hosts.
abbrev pub Answers : List TartHost → String → Result ClaimError (Option TartHost) → Type 0
Answers hosts machine_uid (ok (some h)) =
    In h hosts × Bound machine_uid h × ((g : TartHost) → In g hosts → Bound machine_uid g → g ≡ h)
Answers hosts machine_uid (ok none) = (g : TartHost) → In g hosts → ¬ Bound machine_uid g
Answers hosts machine_uid (err e) = IsAmbiguous hosts machine_uid

module _ (hosts : List TartHost) (machine_uid : String)
    (named : (g : TartHost) → In g hosts → g.name ≢ "")
    (unique : (a b : TartHost) → In a hosts → In b hosts → a.name ≡ b.name → a ≡ b) where
  answer_of_Scan :
      (name : String)
      → Scan "" hosts machine_uid name
      → Answers hosts machine_uid (ok (if name == "" then none else host_named hosts name))
  answer_of_Scan name s = elim (Bool-cases (name == "")) [
    | inl e ↦ rw e (λ g m b. ground (arith, s.every g m b, named g m, eq_iff name ""))
    | inr n ↦ rw n (elim s.from [
      | inl e ↦ absurd (ground (arith, eq_iff name ""))
      | inr (f, m, b, e) ↦ elim (Option-cases (host_named hosts name)) [
        | inl o ↦ absurd (host_named-none hosts f (ap (host_named hosts) e ∙ o) m)
        | inr (h, o) ↦ rw o (
            let (n', q) = host_named-In hosts name h o in
            let same : f ≡ h = unique f h m n' (e ∙ sym q) in
            (
              n',
              subst (λ g. Bound machine_uid g) same b,
              (λ g k c. unique g h k n' (ground (arith, s.every g k c, named g k))),
            ))
      ]
    ])
  ]

  -- With hosts that have unique, nonempty names: a host that is found is the only one that is bound
  -- to the machine, nothing is found exactly when no host is bound to it, and the search fails
  -- only when two hosts are bound to it.
  pub find_claimed_host_lem : Answers hosts machine_uid (find_claimed_host hosts machine_uid)
  unfolding find_claimed_host find_claimed_host_name
  find_claimed_host_lem =
      elim (Result-cases (find_name_from "" (map candidate_of hosts) machine_uid)) [
        | inl (name, e) ↦
            rw e (answer_of_Scan name (find_name_from-Scan "" hosts machine_uid name e))
        | inr (x, e) ↦ rw e (elim (find_name_from-clash "" hosts machine_uid x e) [
          | inl (g, m, c, k, d) ↦ absurd (k refl)
          | inr a ↦ a
        ])
      ]
