-- ===== src/Repository/Loop/Attempts.antt =====
-- The last attempt of the loop and the `return` behind it.
use cluster_api_provider_tar.Base.{
  ℕ, zero, suc, String, ◌≡◌, refl, ◌∙◌, ◌≢◌, arith, comparable_nat, comparable_text,
  comparable_list,
}
use cluster_api_provider_tar.Base.Result.{Result, ok, err}
use cluster_api_provider_tar.Api.Host.{TartHost}
use cluster_api_provider_tar.Host.ClaimDecision.{
  HostError, attempts_exhausted, ClaimDecision, claim_noop, claim_apply,
}
use cluster_api_provider_tar.Repository.Server.{ApiServer, UpdateOutcome, updated, conflict, failed}
use cluster_api_provider_tar.Repository.Loop.{Outcome, update_loop, decided, written, refresh}

module _ (server : ApiServer) (decide : TartHost → Result HostError ClaimDecision)
    (modify : TartHost → TartHost)
    (decide_returns : (h : TartHost) → decide h ≢ err attempts_exhausted) where
  open server use {State, settle, put, fetch}

  abbrev Returns : Outcome server → Type 0
  Returns o = o.result ≢ err attempts_exhausted

  refresh-Returns :
      (retry : State → TartHost → Outcome server)
      → ((s : State) (h : TartHost) → Returns (retry s h))
      → (s : State) (host : TartHost) (r : Result String TartHost)
      → Returns (refresh server decide modify retry s host r)
  unfolding refresh
  refresh-Returns retry ih s host (ok h) = ih s h
  refresh-Returns retry ih s host (err e) = λ p. cc

  decided-Returns :
      (n : ℕ) (s : State) (host : TartHost) (d : Result HostError ClaimDecision)
      → decide host ≡ d
      → ((t : State) (r : UpdateOutcome)
          → Returns
              (written server decide modify (update_loop server decide modify n) n host (t, r)))
      → Returns (decided server decide modify (update_loop server decide modify n) n s host d)
  unfolding decided
  decided-Returns n s host (err x) e w = λ p. decide_returns host (e ∙ ground arith)
  decided-Returns n s host (ok claim_noop) e w = λ p. cc
  decided-Returns n s host (ok claim_apply) e w =
      w (put (settle s) (modify host)).0 (put (settle s) (modify host)).1

  last_written-Returns :
      (retry : State → TartHost → Outcome server) (host : TartHost) (t : State) (r : UpdateOutcome)
      → Returns (written server decide modify retry 0 host (t, r))
  unfolding written
  last_written-Returns retry host t (updated h) = λ p. cc
  last_written-Returns retry host t (failed e) = λ p. cc
  last_written-Returns retry host t conflict = λ p. cc

  written-Returns :
      (retry : State → TartHost → Outcome server)
      → ((s : State) (h : TartHost) → Returns (retry s h))
      → (n : ℕ) (host : TartHost) (t : State) (r : UpdateOutcome)
      → Returns (written server decide modify retry (suc n) host (t, r))
  unfolding written
  written-Returns retry ih n host t (updated h) = λ p. cc
  written-Returns retry ih n host t (failed e) = λ p. cc
  written-Returns retry ih n host t conflict =
      refresh-Returns retry ih (settle t) host (fetch (settle t) host.name)

  pub update_loop-Returns :
      (n : ℕ) (s : State) (host : TartHost)
      → Returns (update_loop server decide modify (suc n) s host)
  unfolding update_loop
  update_loop-Returns zero s host =
      decided-Returns 0 s host (decide host) refl
        (last_written-Returns (update_loop server decide modify 0) host)
  update_loop-Returns (suc n) s host = decided-Returns (suc n) s host (decide host) refl (
      written-Returns (update_loop server decide modify (suc n)) (λ t h. update_loop-Returns n t h)
        n host)
