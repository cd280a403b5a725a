-- ===== src/Api/Meta.antt =====
-- The Kubernetes types that the API structs of api/ embed, as far as the program reads them, and
-- the identifiers of domain/host, domain/cluster and domain/network.
use cluster_api_provider_tar.Base.{
  ℕ, String, ◌≡◌, ◌↔◌, Bool, true, false, ◌&&◌, Option, none, some, List, [], ◌∷◌, arith, eq_iff,
  if◌then◌else◌, Comparable, ◌==◌, comparable_nat, comparable_text, comparable_list, list_beq_iff,
}

-- A UUID is its 128-bit value; the nil UUID is 0.
abbrev pub Uuid : Type 0
Uuid = ℕ

-- domain/host/id.go and domain/cluster/id.go.
abbrev pub HostId : Type 0
HostId = Uuid

abbrev pub ClusterId : Type 0
ClusterId = Uuid

abbrev pub host_id_is_zero : HostId → Bool
host_id_is_zero id = id == 0

abbrev pub cluster_id_is_zero : ClusterId → Bool
cluster_id_is_zero id = id == 0

-- domain/network/mac_address.go: six bytes and whether they are set.
pub record MacAddress : Type 0 where
  pub value : List ℕ
  pub is_set : Bool

abbrev pub bool_beq : Bool → Bool → Bool
bool_beq true true = true
bool_beq false false = true
bool_beq _ _ = false

unfoldable pub mac_beq : MacAddress → MacAddress → Bool
mac_beq a b = comparable_list.same a.value b.value && bool_beq a.is_set b.is_set

pub mac_beq_iff : (a b : MacAddress) → (mac_beq a b ≡ true) ↔ (a ≡ b)
unfolding mac_beq
mac_beq_iff a b = ground (arith, list_beq_iff a.value b.value)

-- `corev1.ObjectReference`.
pub record ObjectReference : Type 0 where
  pub api_version : String
  pub kind : String
  pub namespace : String
  pub name : String
  pub uid : String
  pub resource_version : String
  pub field_path : String

-- Go compares the structs field by field.
unfoldable pub reference_beq : ObjectReference → ObjectReference → Bool
reference_beq a b =
    a.api_version == b.api_version
    && a.kind == b.kind
    && a.namespace == b.namespace
    && a.name == b.name
    && a.uid == b.uid
    && a.resource_version == b.resource_version
    && a.field_path == b.field_path

pub reference_beq_iff : (a b : ObjectReference) → (reference_beq a b ≡ true) ↔ (a ≡ b)
unfolding reference_beq
reference_beq_iff a b = ground (
  arith,
  eq_iff a.api_version b.api_version,
  eq_iff a.kind b.kind,
  eq_iff a.namespace b.namespace,
  eq_iff a.name b.name,
  eq_iff a.uid b.uid,
  eq_iff a.resource_version b.resource_version,
  eq_iff a.field_path b.field_path,
)

instance abbrev pub comparable_mac : Comparable MacAddress
comparable_mac = record { same = mac_beq; decides = mac_beq_iff }

instance abbrev pub comparable_reference : Comparable ObjectReference
comparable_reference = record { same = reference_beq; decides = reference_beq_iff }

-- Labels and annotations: a missing key reads as the empty text.
abbrev pub StringMap : Type 0
StringMap = List (String × String)

unfoldable pub lookup_or_empty : StringMap → String → String
lookup_or_empty [] k = ""
lookup_or_empty ((j, v) ∷ m) k = if j == k then v else lookup_or_empty m k

-- `metav1.LabelSelector`.
pub record LabelSelectorRequirement : Type 0 where
  pub key : String
  pub operator : String
  pub values : List String

pub record LabelSelector : Type 0 where
  pub match_labels : StringMap
  pub match_expressions : List LabelSelectorRequirement

-- `metav1.Condition`, without its message.
pub data ConditionStatus : Type 0 where
  condition_true condition_false condition_unknown : ConditionStatus

pub record Condition : Type 0 where
  pub kind : String
  pub status : ConditionStatus
  pub reason : String
  pub last_transition_time : Option ℕ

-- `meta.FindStatusCondition`.
unfoldable pub find_status_condition : List Condition → String → Option Condition
find_status_condition [] k = none
find_status_condition (c ∷ cs) k = if c.kind == k then some c else find_status_condition cs k

-- `metav1.OwnerReference`.
pub record OwnerReference : Type 0 where
  pub api_version : String
  pub kind : String
  pub name : String
  pub uid : String
  pub controller : Option Bool

-- `pointer != nil && *pointer`.
abbrev pub is_true : Option Bool → Bool
is_true none = false
is_true (some b) = b

-- `value, ok := m[key]`.
unfoldable pub find_key : StringMap → String → Option String
find_key [] k = none
find_key ((j, v) ∷ m) k = if j == k then some v else find_key m k

-- `delete(m, key)` on a copy.
unfoldable pub without_key : StringMap → String → StringMap
without_key [] k = []
without_key ((j, v) ∷ m) k = let rest = without_key m k in if j == k then rest else (j, v) ∷ rest

-- `m[key] = value` on a copy.
unfoldable pub put_key : StringMap → String → String → StringMap
unfolding without_key
put_key m k v = (k, v) ∷ without_key m k

-- An error of the API server, as `apierrors` sorts them.
pub data ApiError : Type 0 where
  not_found conflict already_exists : ApiError
  other_error : String → ApiError
