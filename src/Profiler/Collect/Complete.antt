-- ===== src/Profiler/Collect/Complete.antt =====
-- What is collected for a task with preset configurations.
use apminsight_server_sdk_go.Prelude.{
  ◌≡◌, ◌≢◌, refl, ap, suc, Bool, true, false, List, [], ◌∷◌, some, Bytes, length, ◌==◌, All, arith,
}
use apminsight_server_sdk_go.Profiler.Task.{
  Profile, ProfileTypeConfig, Task, valid_profile_types, is_in, preset_task,
}
use apminsight_server_sdk_go.Profiler.Presets.{preset_task-find_config}
use apminsight_server_sdk_go.Profiler.Collect.{Collectors, collect_one, collect_all, marshal_all}

module _ {D : Type 0} (collectors : Collectors D) where
  -- Every valid profile type has a collector, which finds something to send.
  pub record IsWorking : Type 0 where
    pub available :
        (n : Bytes) → is_in n valid_profile_types ≡ true → collectors.has_collector n ≡ true
    pub collects :
        (n : Bytes) (cfg : ProfileTypeConfig) (use_cache : Bool)
        → (d : D) × (b : Bytes) × (collectors.pc_collect n cfg use_cache ≡ some d)
          × (collectors.marshal d ≡ some b)
          × (length b ≢ 0)

  collect_one-some :
      (use_cache : Bool) (id : Bytes) (p : Profile) (t : Task) (n : Bytes)
      → IsWorking
      → preset_task use_cache id p ≡ some t
      → is_in n t.profile_types ≡ true
      → (d : D) × (b : Bytes) × (collect_one collectors t n ≡ some d)
        × (collectors.marshal d ≡ some b)
        × (length b ≢ 0)
  unfolding collect_one
  collect_one-some use_cache id p t n w made m =
      let (valid, cfg, found, preset, typed) = preset_task-find_config use_cache id p t n made m in
      let (d, b, e, f, g) = w.collects n cfg t.use_cache in
      let has : collectors.has_collector n ≡ true = w.available n valid in
      (d, b, rw (has, found, collect_one) e, f, g)

  -- For the task of a continuous or a conditional profile, and in any order of its types: where the
  -- collectors work, there is one piece of data to send for each type, and no type is dropped for
  -- want of a configuration.
  pub collect_all_complete :
      (use_cache : Bool) (id : Bytes) (p : Profile) (t : Task) (order : List Bytes)
      → IsWorking
      → preset_task use_cache id p ≡ some t
      → All (λ n. is_in n t.profile_types ≡ true) order
      → length (marshal_all collectors (collect_all collectors t order)) ≡ length order
  unfolding collect_all marshal_all
  collect_all_complete use_cache id p t [] w made m = refl
  collect_all_complete use_cache id p t (n ∷ order) w made m =
      let (d, b, e, f, g) = collect_one-some use_cache id p t n w made m.0 in
      let full : (length b == 0) ≡ false = ground arith in
      rw (e, collect_all, f, marshal_all, full)
        (ap suc (collect_all_complete use_cache id p t order w made m.1))
