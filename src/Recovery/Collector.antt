-- ===== src/Recovery/Collector.antt =====
-- controller/talosrecovery/reconciler.go: one reconciliation of a recovery Secret. What it reads
-- and the answer to its deletion are arguments; the UID and the version that the deletion carries
-- as its preconditions are left out, and a conflict is how the answer reports that one has changed.
use cluster_api_provider_tar.Base.{
  ℕ, String, ◌≡◌, refl, ◌||◌, some, List, arith, eq_iff, if◌then◌else◌, ◌==◌, ◌!=◌, comparable_nat,
  comparable_text, comparable_list,
}
use cluster_api_provider_tar.Base.Result.{Result, ok, err}
use cluster_api_provider_tar.Api.Meta.{ApiError, not_found, conflict, already_exists, other_error}
use cluster_api_provider_tar.Api.Host.{TartHost}
use cluster_api_provider_tar.Api.Secret.{Secret}
use cluster_api_provider_tar.Recovery.RecoverySecret.{is_recovery_secret}
use cluster_api_provider_tar.Recovery.Retention.{should_delete, creation_grace_period}
use cluster_api_provider_tar.Recovery.Retention.Holders.{IsDeletable, should_delete_iff}

-- What one reconciliation reads, and how the server answers its deletion.
pub record SecretReadings : Type 0 where
  pub secret : Result ApiError Secret
  pub hosts : Result ApiError (List TartHost)
  pub now : ℕ
  pub deletion : Result ApiError (Unit {0})

pub data Collected : Type 0 where
  left_alone requeued : Collected
  -- The deletion was requested, with the answer that is passed on.
  requested : Result ApiError (Unit {0}) → Collected
  read_failed : ApiError → Collected

abbrev pub gone_is_fine : Result ApiError (Unit {0}) → Result ApiError (Unit {0})
gone_is_fine (ok u) = ok u
gone_is_fine (err not_found) = ok tt
gone_is_fine (err conflict) = ok tt
gone_is_fine (err already_exists) = err already_exists
gone_is_fine (err (other_error e)) = err (other_error e)

with_hosts : SecretReadings → Secret → Result ApiError (List TartHost) → Collected
with_hosts readings secret (err e) = read_failed e
with_hosts readings secret (ok hosts) =
    if should_delete (some secret) hosts readings.now creation_grace_period
    then requested (gone_is_fine readings.deletion)
    else requeued

with_secret : SecretReadings → Result ApiError Secret → Collected
unfolding with_hosts
with_secret readings (err not_found) = left_alone
with_secret readings (err conflict) = read_failed conflict
with_secret readings (err already_exists) = read_failed already_exists
with_secret readings (err (other_error e)) = read_failed (other_error e)
with_secret readings (ok secret) =
    if is_recovery_secret (some secret)
    then with_hosts readings secret readings.hosts
    else left_alone

-- `Reconcile`, for a request in a namespace.
unfoldable pub reconcile_recovery_secret : String → String → SecretReadings → Collected
unfolding with_secret
reconcile_recovery_secret management_namespace namespace readings =
    if management_namespace == "" || namespace != management_namespace
    then left_alone
    else with_secret readings readings.secret

pub record IsCollectable (management_namespace namespace : String) (readings : SecretReadings)
    : Type 0 where
  pub secret : Secret
  pub hosts : List TartHost
  pub in_namespace : namespace ≡ management_namespace
  pub secret_read : readings.secret ≡ ok secret
  pub hosts_read : readings.hosts ≡ ok hosts
  pub deletable : IsDeletable secret hosts readings.now 1800

-- A reconciliation asks for the deletion of a Secret only when the Secret and all hosts were read,
-- in the management namespace, and the Secret may be deleted after the grace period of half an
-- hour; so no host that was read refers to it.
pub reconcile_recovery_secret_safe :
    (management_namespace namespace : String) (readings : SecretReadings)
    (answer : Result ApiError (Unit {0}))
    → reconcile_recovery_secret management_namespace namespace readings ≡ requested answer
    → IsCollectable management_namespace namespace readings
unfolding reconcile_recovery_secret
reconcile_recovery_secret_safe management_namespace namespace readings answer h =
    go readings.secret refl readings.hosts refl
  where
    go :
        (s : Result ApiError Secret)
        → readings.secret ≡ s
        → (hs : Result ApiError (List TartHost)) → readings.hosts ≡ hs
        → IsCollectable management_namespace namespace readings
    go (err x) e hs k = absurd (ground (arith, e, h))
    go (ok s) e (err y) k = absurd (ground (arith, e, k, h))
    go (ok s) e (ok hs) k = record {
      secret = s;
      hosts = hs;
      in_namespace = ground (arith, h, eq_iff namespace management_namespace);
      secret_read = e;
      hosts_read = k;
      deletable = (should_delete_iff s hs readings.now 1800).0 (ground (arith, e, k, h));
    }
