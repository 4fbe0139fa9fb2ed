-- ===== src/Profiler/Task.antt =====
-- aiprofiler/common and drivers/interface.go: profile types, the preset configurations, and the
-- tasks that the drivers make of the profiles in the settings.
use apminsight_server_sdk_go.Prelude.{
  ℕ, Bool, true, false, ◌||◌, List, [], ◌∷◌, Option, none, some, Bytes, codes, bytes_eq,
  if◌then◌else◌,
}
use apminsight_server_sdk_go.Prelude.Int.{ℤ, pos}

-- ProfileTypeConfig of the settings
pub record PtConfig : Type 0 where
  pub profile_type : Bytes
  pub duration_seconds : ℤ
  pub is_snapshot : Bool

-- `value` is the bit pattern of a float64.
pub record TriggerCondition : Type 0 where
  pub key : Bytes
  pub compare : Bytes
  pub op : Bytes
  pub value : ℕ
  pub unit : Bytes

-- The fields of a profile that are read.
pub record Profile : Type 0 where
  pub profile_id : ℤ
  pub record_type : Bytes
  pub instance_id_list : List Bytes
  pub profile_type_list : List Bytes
  pub start_time : ℤ
  pub trigger_condition_list : List TriggerCondition
  pub pt_config_list : List PtConfig

pub record SampleType : Type 0 where
  pub type : Bytes
  pub unit : Bytes

pub record ProfileTypeConfig : Type 0 where
  pub profile_type : Bytes
  pub duration_seconds : ℤ
  pub is_snapshot : Bool
  pub target_delta_sample_types : List SampleType

-- `name` and the two times are not set by the drivers.
pub record Task : Type 0 where
  pub profile_id : ℤ
  pub upload_id : Bytes
  pub profile_types : List Bytes
  pub pt_configs : List ProfileTypeConfig
  pub use_cache : Bool

abbrev pub valid_profile_types : List Bytes
valid_profile_types =
    codes "cpu" ∷ codes "heap" ∷ codes "block" ∷ codes "mutex" ∷ codes "goroutine" ∷ []

unfoldable pub is_in : Bytes → List Bytes → Bool
is_in s [] = false
is_in s (t ∷ ts) = bytes_eq s t || is_in s ts

unfoldable pub from_string : Bytes → Option Bytes
from_string s = if is_in s valid_profile_types then some s else none

-- The first configuration of a type in a list, and Task.FindConfig.
unfoldable pub find_in : List ProfileTypeConfig → Bytes → Option ProfileTypeConfig
find_in [] pt = none
find_in (c ∷ cs) pt =
    let rest = find_in cs pt in if bytes_eq c.profile_type pt then some c else rest

unfoldable pub find_config : Task → Bytes → Option ProfileTypeConfig
find_config t = find_in t.pt_configs

abbrev pub seconds60 : ℤ
seconds60 = pos 60

abbrev pub period : Bytes → List SampleType → ProfileTypeConfig
period pt targets = record {
  profile_type = pt;
  duration_seconds = seconds60;
  is_snapshot = false;
  target_delta_sample_types = targets;
}

abbrev pub preset_profile_type_configs : List ProfileTypeConfig
preset_profile_type_configs =
    period (codes "cpu") []
    ∷ period (codes "heap") (
        record { type = codes "alloc_objects"; unit = codes "count" }
        ∷ record { type = codes "alloc_space"; unit = codes "bytes" }
        ∷ [])
    ∷ period (codes "block") []
    ∷ period (codes "mutex") []
    ∷ record {
      profile_type = codes "goroutine";
      duration_seconds = pos 0;
      is_snapshot = true;
      target_delta_sample_types = [];
    }
    ∷ []

unfoldable pub valid_types : List Bytes → List Bytes
valid_types [] = []
valid_types (s ∷ ss) =
    let rest = valid_types ss in elim (from_string s) [ none ↦ rest | some pt ↦ pt ∷ rest ]

-- `none` for the result false.
unfoldable pub extract_profile_types : Profile → Option (List Bytes)
extract_profile_types p = elim (valid_types p.profile_type_list) [
  | [] ↦ none
  | pt ∷ pts ↦ some (pt ∷ pts)
]

unfoldable pub preset_configs : List Bytes → List ProfileTypeConfig
preset_configs [] = []
preset_configs (pt ∷ pts) =
    let rest = preset_configs pts in
    elim (find_in preset_profile_type_configs pt) [ none ↦ rest | some c ↦ c ∷ rest ]

-- The configurations of a timed profile, those of an unknown type left out.
unfoldable pub listed_configs : List PtConfig → List ProfileTypeConfig
listed_configs [] = []
listed_configs (cfg ∷ cfgs) =
    let rest = listed_configs cfgs in
    elim (from_string cfg.profile_type) [
      | none ↦ rest
      | some pt ↦
          record {
            profile_type = pt;
            duration_seconds = cfg.duration_seconds;
            is_snapshot = cfg.is_snapshot;
            target_delta_sample_types = [];
          }
          ∷ rest
    ]

-- The three profileToTask, `none` for nil. `id` is the result of NewRandID.
unfoldable pub preset_task : Bool → Bytes → Profile → Option Task
preset_task use_cache id p = elim (extract_profile_types p) [
  | none ↦ none
  | some pts ↦ some (record {
    profile_id = p.profile_id;
    upload_id = id;
    profile_types = pts;
    pt_configs = preset_configs pts;
    use_cache = use_cache;
  })
]

unfoldable pub continuous_task : Bytes → Profile → Option Task
continuous_task = preset_task true

unfoldable pub conditional_task : Bytes → Profile → Option Task
conditional_task = preset_task false

unfoldable pub timed_task : Bytes → Profile → Option Task
timed_task id p = elim (extract_profile_types p) [
  | none ↦ none
  | some pts ↦ some (record {
    profile_id = p.profile_id;
    upload_id = id;
    profile_types = pts;
    pt_configs = listed_configs p.pt_config_list;
    use_cache = false;
  })
]
