-- ===== src/Repository/Loop/Safety.antt =====
-- The states that the loop goes through.
use cluster_api_provider_tar.Base.{
  ℕ, zero, suc, String, ◌≡◌, refl, sym, subst, ◌∙◌, ◌≢◌, inl, inr, some, comparable_nat,
  comparable_text, comparable_list,
}
use cluster_api_provider_tar.Base.Result.{Result, ok, err}
use cluster_api_provider_tar.Api.Host.{TartHost}
use cluster_api_provider_tar.Host.ClaimDecision.{HostError, ClaimDecision, claim_noop, claim_apply}
use cluster_api_provider_tar.Repository.Server.{
  ApiServer, UpdateOutcome, updated, conflict, failed, SameContent,
}
use cluster_api_provider_tar.Repository.Loop.{Outcome, update_loop, decided, written, refresh}

-- Nothing but other clients' writes lies between the two states.
pub data OnlySettled (server : ApiServer) (s : server.State) : server.State → Type 0 where
  here : OnlySettled server s s
  settled : {t : server.State} → OnlySettled server s t → OnlySettled server s (server.settle t)

module _ (server : ApiServer) (decide : TartHost → Result HostError ClaimDecision)
    (modify : TartHost → TartHost) where
  open server use {State, stored}

  -- What a successful run has done: nothing, since the object is as wanted; or one write, over the
  -- object that the decision was made on.
  pub data Success (s : State) (name : String) (o : Outcome server) : Type 0 where
    unchanged : decide o.host ≡ ok claim_noop → OnlySettled server s o.state → Success s name o
    committed :
        (before : State) (current : TartHost)
        → OnlySettled server s before
        → stored before current.name ≡ some current
        → decide current ≡ ok claim_apply
        → stored o.state current.name ≡ some o.host
        → SameContent o.host (modify current)
        → current.name ≡ name
        → ((n : String) → n ≢ current.name → stored o.state n ≡ stored before n)
        → Success s name o

  -- What a failed run has done: nothing; or one write whose answer was lost, over the object that
  -- the decision was made on.
  pub data Failure (s : State) (name : String) (o : Outcome server) : Type 0 where
    untouched : OnlySettled server s o.state → Failure s name o
    maybe_committed :
        (before : State) (current last : TartHost)
        → OnlySettled server s before
        → stored before current.name ≡ some current
        → decide current ≡ ok claim_apply
        → stored o.state current.name ≡ some last
        → SameContent last (modify current)
        → current.name ≡ name
        → ((n : String) → n ≢ current.name → stored o.state n ≡ stored before n)
        → Failure s name o

module _ (server : ApiServer) (decide : TartHost → Result HostError ClaimDecision)
    (modify : TartHost → TartHost) (modify_name : (h : TartHost) → (modify h).name ≡ h.name)
    (modify_version : (h : TartHost) → (modify h).resource_version ≡ h.resource_version) where
  open server use {State, stored, settle, put, fetch, Seen, seen_settle}

  abbrev Sound : State → String → Outcome server → Type 0
  Sound s name o =
      (o.result ≡ ok tt → Success server decide modify s name o)
      × ((e : HostError) → o.result ≡ err e → Failure server decide modify s name o)

  abbrev SoundFrom : State → String → (State → TartHost → Outcome server) → Type 0
  SoundFrom start name retry =
      (s : State) (h : TartHost)
      → OnlySettled server start s
      → Seen s h
      → h.name ≡ name
      → Sound start name (retry s h)

  refresh-Sound :
      (start s : State) (name : String) (host : TartHost)
      (retry : State → TartHost → Outcome server)
      → SoundFrom start name retry
      → OnlySettled server start s
      → (n : String) (r : Result String TartHost) → fetch s n ≡ r
      → n ≡ name
      → Sound start name (refresh server decide modify retry s host r)
  unfolding refresh
  refresh-Sound start s name host retry ih since n (ok h) e same =
      let (seen, named) = server.fetch_seen s n h e in ih s h since seen (named ∙ same)
  refresh-Sound start s name host retry ih since n (err x) e same =
      (λ c. cc, λ y c. untouched since)

  -- The object that a write went over is the one that the decision was made on.
  written_over :
      (s : State) (host current : TartHost)
      → Seen s host
      → stored s (modify host).name ≡ some current
      → current.resource_version ≡ (modify host).resource_version
      → stored s host.name ≡ some host
  written_over s host current seen was same_version =
      let at_name : stored s host.name ≡ some current =
        subst (λ n. stored s n ≡ some current) (modify_name host) was in
      let same : host ≡ current =
        server.version_identifies s host current seen at_name
          (sym (modify_version host) ∙ sym same_version) in
      subst (λ g. stored s host.name ≡ some g) (sym same) at_name

  other_names :
      (s s' : State) (host : TartHost) (r : UpdateOutcome)
      → put s (modify host) ≡ (s', r)
      → (n : String) → n ≢ host.name
      → stored s' n ≡ stored s n
  other_names s s' host r e n d =
      server.put_others s s' (modify host) r n e (λ p. d (p ∙ modify_name host))

  failed-Failure :
      (start s : State) (name : String) (host : TartHost) (x : String) (s' : State)
      (o : Outcome server)
      → OnlySettled server start s
      → Seen s host
      → host.name ≡ name
      → decide host ≡ ok claim_apply
      → put s (modify host) ≡ (s', failed x)
      → o.state ≡ s'
      → Failure server decide modify start name o
  failed-Failure start s name host x s' o since seen named d e p =
      elim (server.put_failed s s' (modify host) x e) [
        | inl q ↦ untouched (subst (OnlySettled server start) (sym (p ∙ q)) since)
        | inr (h, current, was, same_version, now, content) ↦
            maybe_committed s host h since (written_over s host current seen was same_version) d
              (subst (λ n. stored o.state n ≡ some h) (modify_name host)
                (subst (λ t. stored t (modify host).name ≡ some h) (sym p) now))
              content named
              (λ n differ.
                subst (λ t. stored t n ≡ stored s n) (sym p)
                  (other_names s s' host (failed x) e n differ))
      ]

  written-Sound :
      (start s : State) (name : String) (host : TartHost)
      (retry : State → TartHost → Outcome server) (left : ℕ)
      → SoundFrom start name retry
      → OnlySettled server start s
      → Seen s host
      → host.name ≡ name
      → decide host ≡ ok claim_apply
      → (s' : State) (r : UpdateOutcome) → put s (modify host) ≡ (s', r)
      → Sound start name (written server decide modify retry left host (s', r))
  unfolding written
  written-Sound start s name host retry left ih since seen named d s' (updated h) e =
      let (current, was, same_version, now, content) = server.put_updated s s' (modify host) h e in
      (
        λ c.
            committed s host since (written_over s host current seen was same_version) d
              (subst (λ n. stored s' n ≡ some h) (modify_name host) now) content named
              (other_names s s' host (updated h) e),
        λ y c. cc,
      )
  written-Sound start s name host retry left ih since seen named d s' (failed x) e =
      (λ c. cc, λ y c. failed-Failure start s name host x s' _ since seen named d e refl)
  written-Sound start s name host retry zero ih since seen named d s' conflict e =
      (λ c. cc, λ y c. untouched (rw (server.put_conflict s s' (modify host) e) since))
  written-Sound start s name host retry (suc left) ih since seen named d s' conflict e =
      refresh-Sound start (settle s') name host retry ih
        (settled (rw (server.put_conflict s s' (modify host) e) since)) host.name
        (fetch (settle s') host.name) refl named

  decided-Sound :
      (start s : State) (name : String) (host : TartHost)
      (retry : State → TartHost → Outcome server) (left : ℕ)
      → SoundFrom start name retry
      → OnlySettled server start s
      → Seen s host
      → host.name ≡ name
      → (d : Result HostError ClaimDecision) → decide host ≡ d
      → Sound start name (decided server decide modify retry left s host d)
  unfolding decided
  decided-Sound start s name host retry left ih since seen named (err x) e =
      (λ c. cc, λ y c. untouched since)
  decided-Sound start s name host retry left ih since seen named (ok claim_noop) e =
      (λ c. unchanged e since, λ y c. cc)
  decided-Sound start s name host retry left ih since seen named (ok claim_apply) e =
      written-Sound start (settle s) name host retry left ih (settled since)
        (seen_settle s host seen) named e (put (settle s) (modify host)).0
        (put (settle s) (modify host)).1 refl

  -- Started on an object that the server has stored, the loop succeeds only by a write over an
  -- object of that name that the decision was made on, or on one that needs none; and where it
  -- fails, it has written nothing, or one such write whose answer was lost.
  pub update_loop-Sound :
      (start : State) (name : String) (n : ℕ) (s : State) (host : TartHost)
      → OnlySettled server start s
      → Seen s host
      → host.name ≡ name
      → Sound start name (update_loop server decide modify n s host)
  unfolding update_loop
  update_loop-Sound start name zero s host since seen named = (λ c. cc, λ y c. untouched since)
  update_loop-Sound start name (suc n) s host since seen named =
      decided-Sound start s name host (update_loop server decide modify n) n
        (λ t h r p q. update_loop-Sound start name n t h r p q) since seen named (decide host) refl
