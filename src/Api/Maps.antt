-- ===== src/Api/Maps.antt =====
-- The laws of string maps.
use cluster_api_provider_tar.Base.{
  String, ◌≡◌, refl, false, some, [], ◌∷◌, arith, eq_iff, ◌==◌, comparable_nat, comparable_text,
  comparable_list, ==_refl,
}
use cluster_api_provider_tar.Api.Meta.{StringMap, lookup_or_empty, find_key, put_key, without_key}

pub lookup_or_empty-without_key :
    (m : StringMap) (j k : String)
    → (k == j) ≡ false
    → lookup_or_empty (without_key m k) j ≡ lookup_or_empty m j
unfolding lookup_or_empty without_key
lookup_or_empty-without_key [] j k n = refl
lookup_or_empty-without_key ((i, v) ∷ m) j k n =
    ground (arith, n, lookup_or_empty-without_key m j k n, eq_iff i k, eq_iff i j, eq_iff k j)

pub find_key-without_key :
    (m : StringMap) (j k : String) → (k == j) ≡ false → find_key (without_key m k) j ≡ find_key m j
unfolding find_key without_key
find_key-without_key [] j k n = refl
find_key-without_key ((i, v) ∷ m) j k n =
    ground (arith, n, find_key-without_key m j k n, eq_iff i k, eq_iff i j, eq_iff k j)

pub lookup_or_empty-put_key_other :
    (m : StringMap) (j k v : String)
    → (k == j) ≡ false
    → lookup_or_empty (put_key m k v) j ≡ lookup_or_empty m j
unfolding put_key lookup_or_empty
lookup_or_empty-put_key_other m j k v n = ground (arith, n, lookup_or_empty-without_key m j k n)

pub find_key-put_key_other :
    (m : StringMap) (j k v : String) → (k == j) ≡ false → find_key (put_key m k v) j ≡ find_key m j
unfolding put_key find_key
find_key-put_key_other m j k v n = ground (arith, n, find_key-without_key m j k n)

pub lookup_or_empty-put_key : (m : StringMap) (k v : String) → lookup_or_empty (put_key m k v) k ≡ v
unfolding put_key lookup_or_empty
lookup_or_empty-put_key m k v = ground (arith, ==_refl k)

pub find_key-put_key : (m : StringMap) (k v : String) → find_key (put_key m k v) k ≡ some v
unfolding put_key find_key
find_key-put_key m k v = ground (arith, ==_refl k)
