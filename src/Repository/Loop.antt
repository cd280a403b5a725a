-- ===== src/Repository/Loop.antt =====
-- The loop that `ClaimHostWithRequest` and `RetainHost` share: decide on the object at hand, write,
-- and on a conflict read again and start over.
pub mod Safety
pub mod Attempts
use cluster_api_provider_tar.Base.{
  ℕ, zero, suc, String, comparable_nat, comparable_text, comparable_list,
}
use cluster_api_provider_tar.Base.Result.{Result, ok, err}
use cluster_api_provider_tar.Api.Host.{TartHost}
use cluster_api_provider_tar.Host.ClaimDecision.{
  HostError, conflict_after_attempts, attempts_exhausted, api_error, ClaimDecision, claim_noop,
  claim_apply,
}
use cluster_api_provider_tar.Repository.Server.{ApiServer, UpdateOutcome, updated, conflict, failed}

-- The constant `claimAttempts`.
abbrev pub claim_attempts : ℕ
claim_attempts = 3

module _ (server : ApiServer) where
  open server use {State, settle, put, fetch}

  -- The state of the server, the host behind the caller's pointer, and the returned error.
  pub record Outcome : Type 0 where
    pub state : State
    pub host : TartHost
    pub result : Result HostError (Unit {0})

module _ (server : ApiServer) (decide : TartHost → Result HostError ClaimDecision)
    (modify : TartHost → TartHost) where
  open server use {State, settle, put, fetch}

  -- The re-read after a conflict.
  refresh :
      (State → TartHost → Outcome server)
      → State
      → TartHost
      → Result String TartHost
      → Outcome server
  refresh retry s host (ok refreshed) = retry s refreshed
  refresh retry s host (err e) = record { state = s; host = host; result = err (api_error e) }

  -- The branches after `Update`, `left` attempts being left.
  written :
      (State → TartHost → Outcome server) → ℕ → TartHost → State × UpdateOutcome → Outcome server
  unfolding refresh
  written retry left host (s, updated h) = record { state = s; host = h; result = ok tt }
  written retry left host (s, failed e) = record {
    state = s;
    host = host;
    result = err (api_error e);
  }
  written retry zero host (s, conflict) = record {
    state = s;
    host = host;
    result = err conflict_after_attempts;
  }
  written retry (suc left) host (s, conflict) =
      refresh retry (settle s) host (fetch (settle s) host.name)

  decided :
      (State → TartHost → Outcome server)
      → ℕ
      → State
      → TartHost
      → Result HostError ClaimDecision
      → Outcome server
  unfolding written
  decided retry left s host (err e) = record { state = s; host = host; result = err e }
  decided retry left s host (ok claim_noop) = record { state = s; host = host; result = ok tt }
  decided retry left s host (ok claim_apply) =
      written retry left host (put (settle s) (modify host))

  unfoldable pub update_loop : ℕ → State → TartHost → Outcome server
  unfolding decided
  update_loop zero s host = record { state = s; host = host; result = err attempts_exhausted }
  update_loop (suc left) s host = decided (update_loop left) left s host (decide host)
