-- ===== src/Recovery/Retention/Holders.antt =====
-- A recovery Secret stays as long as a host refers to it.
use cluster_api_provider_tar.Base.{
  ℕ, ◌+◌, ◌≤◌, ◌≡◌, refl, ◌↔◌, inl, inr, Bool, true, false, Option, none, some, List, [], ◌∷◌,
  arith, comparable_nat, comparable_text, comparable_list, any, In, is_blank,
}
use cluster_api_provider_tar.Base.Int.{pos}
use cluster_api_provider_tar.Api.Meta.{lookup_or_empty}
use cluster_api_provider_tar.Api.Host.{TartHost}
use cluster_api_provider_tar.Api.Secret.{Secret}
use cluster_api_provider_tar.Recovery.RecoverySecret.{cluster_id_label, is_recovery_secret}
use cluster_api_provider_tar.Recovery.Retention.{is_referenced_by, should_delete}

-- The Secret was created at least so many seconds ago, if its creation has a time.
abbrev pub OldEnough : Option ℕ → ℕ → ℕ → Type 0
OldEnough none now period = Unit
OldEnough (some created) now period = created + period ≤ now

pub record IsDeletable (secret : Secret) (hosts : List TartHost) (now period : ℕ) : Type 0 where
  pub recovery : is_recovery_secret (some secret) ≡ true
  pub not_deleting : secret.deletion_timestamp ≡ none
  pub of_cluster : is_blank (lookup_or_empty secret.labels cluster_id_label) ≡ false
  pub old_enough : OldEnough secret.creation_timestamp now period
  pub unreferenced : (host : TartHost) → In host hosts → is_referenced_by host secret.name ≡ false

any_false→all :
    {A : Type 0} (p : A → Bool) (xs : List A) → any p xs ≡ false → (x : A) → In x xs → p x ≡ false
any_false→all p [] h x i = absurd i
any_false→all p (y ∷ ys) h x (inl e) = rw e (ground arith)
any_false→all p (y ∷ ys) h x (inr i) = any_false→all p ys (ground arith) x i

all→any_false :
    {A : Type 0} (p : A → Bool) (xs : List A) → ((x : A) → In x xs → p x ≡ false) → any p xs ≡ false
all→any_false p [] h = refl
all→any_false p (y ∷ ys) h = rw (h y (inl refl)) (all→any_false p ys (λ x i. h x (inr i)))

-- A recovery Secret may be deleted, after a period that is not negative, exactly when it has the
-- label of recovery Secrets and of its cluster, is not being deleted, is older than the period,
-- and no host refers to it.
pub should_delete_iff :
    (secret : Secret) (hosts : List TartHost) (now period : ℕ)
    → (should_delete (some secret) hosts now (pos period) ≡ true)
      ↔ IsDeletable secret hosts now period
unfolding should_delete
should_delete_iff secret hosts now period = (
  λ h. record {
    recovery = ground arith;
    not_deleting = ground arith;
    of_cluster = ground arith;
    old_enough = ground arith;
    unreferenced = any_false→all (λ host. is_referenced_by host secret.name) hosts (ground arith);
  },
  λ d. ground (
    arith,
    d.recovery,
    d.not_deleting,
    d.of_cluster,
    d.old_enough,
    all→any_false (λ host. is_referenced_by host secret.name) hosts d.unreferenced,
  ),
)
