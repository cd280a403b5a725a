-- ===== src/Controller/Ownership.antt =====
-- controller/ownership.go: whether an object is owned by its controller.
use cluster_api_provider_tar.Base.{
  String, ◌≡◌, refl, ◌↔◌, Bool, true, not, ◌&&◌, ◌||◌, List, [], ◌∷◌, arith, ◌==◌, ◌!=◌,
  comparable_nat, comparable_text, comparable_list, length, any,
}
use cluster_api_provider_tar.Base.Result.{Result, ok, fail_if}
use cluster_api_provider_tar.Api.Meta.{OwnerReference, is_true}

-- What an owner is identified by.
pub record Owner : Type 0 where
  pub api_version : String
  pub kind : String
  pub name : String
  pub uid : String

pub data OwnershipFailure : Type 0 where
  machine_ownership_mismatch : OwnershipFailure

abbrev pub refers_to : Owner → OwnerReference → Bool
refers_to owner reference =
    reference.api_version == owner.api_version
    && reference.kind == owner.kind
    && reference.name == owner.name
    && reference.uid == owner.uid
    && is_true reference.controller

-- `HasControllerOwner`.
unfoldable pub has_controller_owner : List OwnerReference → Owner → Bool
has_controller_owner references owner = any (refers_to owner) references

-- `ValidateProviderOwner`.
unfoldable pub validate_provider_owner :
    List OwnerReference → Owner → Result OwnershipFailure (Unit {0})
unfolding has_controller_owner
validate_provider_owner references owner =
    fail_if (length references != 1 || not (has_controller_owner references owner))
      machine_ownership_mismatch

pub validate_provider_owner_iff :
    (references : List OwnerReference) (owner : Owner)
    → (validate_provider_owner references owner ≡ ok tt)
      ↔ ((r : OwnerReference) × (references ≡ r ∷ []) × (refers_to owner r ≡ true))
unfolding validate_provider_owner
validate_provider_owner_iff [] owner =
    (λ h. absurd (ground (arith, h)), λ h. absurd (ground (arith, h.1)))
validate_provider_owner_iff (r ∷ []) owner =
    (λ h. (r, refl, ground (arith, h)), λ h. ground (arith, h.1, h.2))
validate_provider_owner_iff (r ∷ q ∷ rs) owner =
    (λ h. absurd (ground (arith, h)), λ h. absurd (ground (arith, h.1)))
