-- ===== src/Profiler/Manager/Dispatch.antt =====
-- Which profiles each driver gets.
use apminsight_server_sdk_go.Prelude.{
  ◌≡◌, refl, ◌∙◌, false, ◌&&◌, List, [], ◌∷◌, ◌++◌, append_assoc, append-nil, Option, none, some,
  Bytes, bytes_eq, bytes_eq_other, if◌then◌else◌, Bool-cases, inl, inr,
}
use apminsight_server_sdk_go.Profiler.Task.{Profile}
use apminsight_server_sdk_go.Profiler.Continuous
use apminsight_server_sdk_go.Profiler.Timed
use apminsight_server_sdk_go.Profiler.Conditional
use apminsight_server_sdk_go.Profiler.Manager.{
  Manager, Lists, no_lists, instance_id_matched, add_profile, dispatch, handle_all,
  handler_profile_tasks, record_type_continuous, record_type_task, record_type_conditional,
}

-- The profiles for this instance that have a record type, in their order.
abbrev pub selected : Bytes → Bytes → List Profile → List Profile
selected instance_id record_type [] = []
selected instance_id record_type (p ∷ ps) =
    if instance_id_matched instance_id p && bytes_eq p.record_type record_type
    then p ∷ selected instance_id record_type ps
    else selected instance_id record_type ps

abbrev pub settings_profiles : Option (Option (List Profile)) → List Profile
settings_profiles none = []
settings_profiles (some none) = []
settings_profiles (some (some ps)) = ps

-- The lists with the selected profiles behind.
abbrev extended : Bytes → Lists → List Profile → Lists
extended i l ps = record {
  continuous_profiles = l.continuous_profiles ++ selected i record_type_continuous ps;
  timed_profiles = l.timed_profiles ++ selected i record_type_task ps;
  conditional_profiles = l.conditional_profiles ++ selected i record_type_conditional ps;
}

differ :
    (bytes_eq record_type_continuous record_type_task ≡ false)
    × (bytes_eq record_type_continuous record_type_conditional ≡ false)
    × (bytes_eq record_type_task record_type_conditional ≡ false)
unfolding bytes_eq
differ = (refl, refl, refl)

-- One step of the loop, on the other side.
extended-add :
    (i : Bytes) (l : Lists) (p : Profile) (ps : List Profile)
    → extended i (if instance_id_matched i p then add_profile l p else l) ps ≡ extended i l (p ∷ ps)
unfolding add_profile
extended-add i l p ps = elim (Bool-cases (instance_id_matched i p)) [
  | inr e ↦ rw e refl
  | inl e ↦ elim (Bool-cases (bytes_eq p.record_type record_type_continuous)) [
    | inl c ↦
        let t = bytes_eq_other p.record_type record_type_continuous record_type_task c differ.0 in
        let k =
          bytes_eq_other p.record_type record_type_continuous record_type_conditional c differ.1 in
        rw (e, c, t, k, append_assoc) refl
    | inr c ↦ elim (Bool-cases (bytes_eq p.record_type record_type_task)) [
      | inl t ↦
          let k =
            bytes_eq_other p.record_type record_type_task record_type_conditional t differ.2 in
          rw (e, c, t, k, append_assoc) refl
      | inr t ↦ elim (Bool-cases (bytes_eq p.record_type record_type_conditional)) [
        | inl k ↦ rw (e, c, t, k, append_assoc) refl
        | inr k ↦ rw (e, c, t, k) refl
      ]
    ]
  ]
]

dispatch-eq : (i : Bytes) (l : Lists) (ps : List Profile) → dispatch i l ps ≡ extended i l ps
unfolding dispatch
dispatch-eq i l [] = rw (append-nil, append-nil, append-nil) refl
dispatch-eq i l (p ∷ ps) =
    dispatch-eq i (if instance_id_matched i p then add_profile l p else l) ps
    ∙ extended-add i l p ps

-- Whatever the settings: each driver is handed just the profiles of its record type that are for
-- this instance, in the order of the settings, and none when the settings are missing; nothing else
-- of the manager changes.
pub handler_profile_tasks-eq :
    (m : Manager) (s : Option (Option (List Profile)))
    → handler_profile_tasks m s ≡ record m {
      continuous_driver =
          Continuous.handle
            (selected m.instance_id record_type_continuous (settings_profiles s))
            m.continuous_driver;
      timed_driver =
          Timed.handle
            (selected m.instance_id record_type_task (settings_profiles s))
            m.timed_driver;
      conditional_driver =
          Conditional.handle
            (selected m.instance_id record_type_conditional (settings_profiles s))
            m.conditional_driver;
    }
unfolding handler_profile_tasks handle_all
handler_profile_tasks-eq m none = refl
handler_profile_tasks-eq m (some none) = refl
handler_profile_tasks-eq m (some (some ps)) = rw (dispatch-eq m.instance_id no_lists ps) refl
