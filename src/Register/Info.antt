-- ===== src/Register/Info.antt =====
-- trace/internal/service_register/register_utils/infos.go: what is read of this process under /proc.
-- `none` is a panic. Of the white space only that of ASCII counts.
use apminsight_server_sdk_go.Prelude.{
  ℕ, zero, suc, ◌+◌, ◌-◌, ◌/◌, ◌%◌, ◌^◌, Bool, true, false, ◌&&◌, ◌||◌, List, [], ◌∷◌, ◌++◌, Option,
  none, some, Bytes, codes, length, take, drop, get_elem?, ltb, leb, ◌==◌, if◌then◌else◌, bytes_eq,
  ◌>>=◌,
}
use apminsight_server_sdk_go.Prelude.Int.{ℤ, pos, negsuc, unsigned, atoi, to_int64, to_u64}
use apminsight_server_sdk_go.Prelude.Strings.{split, cons_head, has_prefix}
pub mod Stat

pub record RegisterInfo : Type 0 where
  pub pid : ℕ
  pub start_time : ℤ
  pub container_id : Bytes
  pub cmdline : Bytes

-- `err` says whether the cached error is not nil.
pub record CacheRegisterInfo : Type 0 where
  pub info : RegisterInfo
  pub err : Bool

-- What the code reads of the system: the pid, the files /proc/<pid>/stat, /proc/stat by its lines,
-- /proc/1/cpuset and /proc/<pid>/cmdline, `none` for an error, and the hexadecimal MD5 sum.
pub record Host : Type 0 where
  pub os_pid : ℕ
  pub stat : Option Bytes
  pub system_stat : Option (List Bytes)
  pub cpuset : Option Bytes
  pub cmdline_file : Option Bytes
  pub md5_hex : Bytes → Bytes

unfoldable pub is_space : ℕ → Bool
is_space c = (leb 9 c && leb c 13) || c == 32

-- Pieces at the white space, and those that are not empty: strings.Fields.
unfoldable pub split_space : Bytes → List Bytes
unfolding is_space
split_space [] = [] ∷ []
split_space (c ∷ s) = let rest = split_space s in if is_space c then [] ∷ rest else cons_head c rest

unfoldable pub drop_empty : List Bytes → List Bytes
drop_empty [] = []
drop_empty ([] ∷ ps) = drop_empty ps
drop_empty ((c ∷ p) ∷ ps) = (c ∷ p) ∷ drop_empty ps

unfoldable pub fields : Bytes → List Bytes
fields s = drop_empty (split_space s)

-- strings.HasSuffix(s, ")")
unfoldable pub ends_in_paren : Bytes → Bool
ends_in_paren [] = false
ends_in_paren (c ∷ []) = c == b')'
ends_in_paren (c ∷ d ∷ s) = ends_in_paren (d ∷ s)

-- The loop for the end of the command's name: the fields after the first that ends in ")"; past the
-- last field the index panics.
unfoldable pub after_name : List Bytes → Option (List Bytes)
after_name [] = none
after_name (f ∷ fs) = let rest = after_name fs in if ends_in_paren f then some fs else rest

-- strconv.ParseUint(s, 10, 64)
unfoldable pub parse_uint : Bytes → Option ℕ
parse_uint s = elim (unsigned s) [ none ↦ none | some n ↦ if ltb n (2 ^ 64) then some n else none ]

-- The time of the start in clock ticks: `some none` is an error, `fields[i+20]` being the 20th
-- field after the name.
unfoldable pub start_ticks : List Bytes → Option (Option ℕ)
start_ticks fs = elim (after_name (drop 1 fs)) [
  | none ↦ none
  | some rest ↦ elim (get_elem? rest 19) [ none ↦ some none | some f ↦ some (parse_uint f) ]
]

-- `none` is an error.
unfoldable pub boot_time_of : List Bytes → Option ℕ
boot_time_of [] = none
boot_time_of (line ∷ lines) =
    let rest = boot_time_of lines in
    if has_prefix line (codes "btime")
    then (elim (get_elem? (fields line) 1) [
      | none ↦ none
      | some f ↦
          if (length (fields line) == 2) && (atoi f).1 then some (to_u64 (atoi f).0) else none
    ])
    else rest

unfoldable pub get_boot_time : Host → Option ℕ
get_boot_time host = elim host.system_stat [ none ↦ none | some lines ↦ boot_time_of lines ]

unfoldable pub trim_left : Bytes → Bytes
trim_left [] = []
trim_left (c ∷ s) = let rest = trim_left s in if is_space c then rest else c ∷ s

unfoldable pub trim_right : Bytes → Bytes
trim_right [] = []
trim_right (c ∷ s) =
    let rest = trim_right s in if is_space c && (length rest == 0) then [] else c ∷ rest

unfoldable pub last_part : List Bytes → Bytes
last_part [] = []
last_part (p ∷ []) = p
last_part (p ∷ q ∷ ps) = last_part (q ∷ ps)

unfoldable pub trim_prefix : Bytes → Bytes → Bytes
trim_prefix s prefix = if has_prefix s prefix then drop (length prefix) s else s

unfoldable pub trim_suffix : Bytes → Bytes → Bytes
trim_suffix s suffix =
    if leb (length suffix) (length s) && bytes_eq (drop (length s - length suffix) s) suffix
    then take (length s - length suffix) s
    else s

unfoldable pub get_self_docker_id : Host → Option Bytes
get_self_docker_id host = elim host.cpuset [
  | none ↦ none
  | some content ↦ some (
      trim_suffix
        (trim_prefix (trim_right (trim_left (last_part (split b'/' content)))) (codes "docker-"))
        (codes ".scope"))
]

-- strings.Join(parts, " ")
unfoldable pub join_space : List Bytes → Bytes
join_space [] = []
join_space (p ∷ []) = p
join_space (p ∷ q ∷ ps) = p ++ (b' ' ∷ join_space (q ∷ ps))

unfoldable pub ends_in_zero : Bytes → Bool
ends_in_zero [] = false
ends_in_zero (c ∷ []) = c == 0
ends_in_zero (c ∷ d ∷ s) = ends_in_zero (d ∷ s)

unfoldable pub get_cmdline : Host → Option Bytes
get_cmdline host = elim host.cmdline_file [
  | none ↦ none
  | some content ↦
      if length content == 0
      then some []
      else some (
          host.md5_hex (
            join_space (
              split 0
                (if ends_in_zero content then take (length content - 1) content else content))))
]

abbrev empty_info : RegisterInfo
empty_info = record { pid = 0; start_time = pos 0; container_id = []; cmdline = [] }

abbrev failed_with : RegisterInfo → CacheRegisterInfo
failed_with info = record { info = info; err = true }

-- `int64(upTime/uint64(clockTicks) + uint64(bootTime))`
unfoldable pub start_time_of : ℕ → ℕ → ℤ
start_time_of up_time boot_time = to_int64 ((up_time / 100 + boot_time) % 2 ^ 64)

-- getInfo after the time of the start: the container and the command.
unfoldable pub with_container : Host → RegisterInfo → CacheRegisterInfo
with_container host info = elim (get_self_docker_id host) [
  | none ↦ failed_with info
  | some id ↦ elim (get_cmdline host) [
    | none ↦ failed_with (record info { container_id = id })
    | some cmd ↦ record { info = record info { container_id = id; cmdline = cmd }; err = false }
  ]
]

unfoldable pub get_info_uncached : Host → Option CacheRegisterInfo
get_info_uncached host =
    let info : RegisterInfo = record empty_info { pid = host.os_pid } in
    elim host.stat [
      | none ↦ some (failed_with info)
      | some content ↦ elim (start_ticks (fields content)) [
        | none ↦ none
        | some none ↦ some (failed_with info)
        | some (some up_time) ↦ elim (get_boot_time host) [
          | none ↦ some (failed_with info)
          | some boot_time ↦
              some
                (with_container host (record info { start_time = start_time_of up_time boot_time }))
        ]
      ]
    ]

-- GetInfo: what is cached, unless its pid is 0. What it returns is the new cache.
unfoldable pub get_info : Host → CacheRegisterInfo → Option CacheRegisterInfo
get_info host cache = if cache.info.pid == 0 then get_info_uncached host else some cache
