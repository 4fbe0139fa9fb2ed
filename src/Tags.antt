-- ===== src/Tags.antt =====
-- The registers of metric tag keys, trace/aitracer/tags/metric_tags.go. A Go map with keys and no
-- values is the list of its keys; the order in which a range visits it is a parameter.
use apminsight_server_sdk_go.Prelude.{
  Bool, true, false, List, [], ◌∷◌, Option, none, some, Bytes, bytes_eq, codes, ◌||◌, if◌then◌else◌,
}
pub mod Merged
mod Tests

pub record TagKeysRegister : Type 0 where
  pub server_tag_keys : List Bytes
  pub client_tag_keys : List Bytes

abbrev pub builtin_keys_reg : TagKeysRegister
builtin_keys_reg = record {
  server_tag_keys =
      codes "from_service_type" ∷ codes "from_service" ∷ codes "http.status_code" ∷ [];
  client_tag_keys = codes "db.slow_query" ∷ codes "http.status_code" ∷ [];
}

unfoldable pub new_metric_tag_keys_register : List Bytes → List Bytes → TagKeysRegister
new_metric_tag_keys_register sk ck = record { server_tag_keys = sk; client_tag_keys = ck }

unfoldable pub contains : Bytes → List Bytes → Bool
contains k [] = false
contains k (x ∷ xs) = bytes_eq k x || contains k xs

-- m[k] = struct{}{}
unfoldable pub put : Bytes → List Bytes → List Bytes
put k m = if contains k m then m else k ∷ m

-- A loop that puts the keys of a list.
unfoldable pub put_all : List Bytes → List Bytes → List Bytes
put_all [] m = m
put_all (k ∷ ks) m = put_all ks (put k m)

module _ (range_server range_client : List Bytes → List Bytes) where
  unfoldable pub merge_tag_keys_register :
      TagKeysRegister → Option TagKeysRegister → TagKeysRegister
  merge_tag_keys_register t none = t
  merge_tag_keys_register t (some from) = record {
    server_tag_keys = range_server (put_all from.server_tag_keys (put_all t.server_tag_keys []));
    client_tag_keys = range_client (put_all from.client_tag_keys (put_all t.client_tag_keys []));
  }
