-- ===== src/Tags/Tests.antt =====
-- The builtin register, merged.
use mathlib.Core.List.{Perm, perm_append_comm}
use mathlib.Core.List.Perm
use apminsight_server_sdk_go.Prelude.{◌≡◌, refl, List, [], ◌∷◌, ◌++◌, some, Bytes, bytes_eq, codes}
use apminsight_server_sdk_go.Tags.{
  TagKeysRegister, builtin_keys_reg, new_metric_tag_keys_register, contains, put, put_all,
  merge_tag_keys_register,
}
use apminsight_server_sdk_go.Tags.Merged.{IsMerged, merge_tag_keys_register-IsMerged}

-- The last key that was put is visited last.
abbrev last_put : List Bytes → List Bytes
last_put [] = []
last_put (k ∷ ks) = ks ++ k ∷ []

last_put-perm : (ks : List Bytes) → Perm (last_put ks) ks
last_put-perm [] = Perm.refl []
last_put-perm (k ∷ ks) = perm_append_comm ks (k ∷ [])

abbrev from : TagKeysRegister
from =
    new_metric_tag_keys_register (codes "foo" ∷ codes "bar" ∷ codes "bar" ∷ [])
      (codes "baz" ∷ codes "qux" ∷ codes "http.status_code" ∷ [])

merge_tag_keys_register-IsMerged_example :
    IsMerged builtin_keys_reg
      (some from)
      (merge_tag_keys_register last_put (λ ks. ks) builtin_keys_reg (some from))
merge_tag_keys_register-IsMerged_example =
    merge_tag_keys_register-IsMerged last_put (λ ks. ks) last_put-perm Perm.refl builtin_keys_reg
      (some from)

merged_keys : merge_tag_keys_register last_put (λ ks. ks) builtin_keys_reg (some from) ≡ record {
  server_tag_keys =
      codes "foo"
      ∷ codes "http.status_code"
      ∷ codes "from_service"
      ∷ codes "from_service_type"
      ∷ codes "bar"
      ∷ [];
  client_tag_keys =
      codes "qux" ∷ codes "baz" ∷ codes "http.status_code" ∷ codes "db.slow_query" ∷ [];
}
unfolding bytes_eq merge_tag_keys_register put_all put contains new_metric_tag_keys_register
merged_keys = refl
