-- ===== src/Api/Secret.antt =====
-- `corev1.Secret`, whose data are texts, and the identifiers' textual forms.
use cluster_api_provider_tar.Base.{
  ℕ, String, ◌≡◌, Bool, Option, some, List, comparable_nat, comparable_text, comparable_list,
  trim_space,
}
use cluster_api_provider_tar.Api.Meta.{Uuid, StringMap, OwnerReference}

pub record Secret : Type 0 where
  pub name : String
  pub namespace : String
  pub labels : StringMap
  pub owner_references : List OwnerReference
  pub kind : String
  pub immutable : Option Bool
  pub data_entries : StringMap
  pub creation_timestamp : Option ℕ
  pub deletion_timestamp : Option ℕ

abbrev pub secret_type_opaque : String
secret_type_opaque = "Opaque"

-- The `uuid` package: the printed form has no spaces around it and is read back.
pub record UuidText : Type 0 where
  pub print : Uuid → String
  pub parse : String → Option Uuid
  pub trim_space-print : (u : Uuid) → trim_space (print u) ≡ print u
  pub parse-print : (u : Uuid) → parse (print u) ≡ some u
