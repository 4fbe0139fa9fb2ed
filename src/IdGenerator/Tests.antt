-- ===== src/IdGenerator/Tests.antt =====
-- An id of the end of November.
use apminsight_server_sdk_go.Prelude.{◌≡◌, refl, none, codes}
use apminsight_server_sdk_go.IdGenerator.{flag_of, random_flags, gen_id}

gen_id_value : gen_id none 4660 ≡ codes "42000000"
unfolding gen_id random_flags flag_of
gen_id_value = refl
