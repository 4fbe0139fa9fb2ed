-- ===== src/Profiler/Presets.antt =====
-- What a task of a continuous or a conditional profile carries.
use mathlib.Core.Path.{subst}
use apminsight_server_sdk_go.Prelude.{
  ◌≡◌, refl, sym, ◌∙◌, Bool, true, false, List, [], ◌∷◌, Option, none, some, Bytes, bytes_eq,
  bytes_eq_refl, bytes_eq→eq, Bool-cases, Option-cases, some_inj, inl, inr, ◌⊎◌,
}
use apminsight_server_sdk_go.Profiler.Task.{
  Profile, ProfileTypeConfig, Task, valid_profile_types, is_in, from_string, find_in, find_config,
  preset_profile_type_configs, valid_types, extract_profile_types, preset_configs, preset_task,
}

abbrev types_of : List ProfileTypeConfig → List Bytes
types_of [] = []
types_of (c ∷ cs) = c.profile_type ∷ types_of cs

find_in-type :
    (cs : List ProfileTypeConfig) (pt : Bytes) (c : ProfileTypeConfig)
    → find_in cs pt ≡ some c
    → c.profile_type ≡ pt
unfolding find_in
find_in-type [] pt c h = absurd cc
find_in-type (d ∷ cs) pt c h = elim (Bool-cases (bytes_eq d.profile_type pt)) [
  | inl e ↦ subst (λ x. x.profile_type ≡ pt) (some_inj (rw e at h)) (bytes_eq→eq _ _ e)
  | inr e ↦ find_in-type cs pt c (rw e at h)
]

is_in-cons :
    (s t : Bytes) (ts : List Bytes) → is_in s (t ∷ ts) ≡ true → (s ≡ t) ⊎ (is_in s ts ≡ true)
unfolding is_in
is_in-cons s t ts h = elim (Bool-cases (bytes_eq s t)) [
  | inl e ↦ inl (bytes_eq→eq s t e)
  | inr e ↦ inr (rw e at h)
]

find_in-head :
    (c : ProfileTypeConfig) (cs : List ProfileTypeConfig) → find_in (c ∷ cs) c.profile_type ≡ some c
unfolding find_in
find_in-head c cs = rw (bytes_eq_refl c.profile_type) refl

find_in_listed :
    (cs : List ProfileTypeConfig) (pt : Bytes)
    → is_in pt (types_of cs) ≡ true
    → (c : ProfileTypeConfig) × (find_in cs pt ≡ some c)
unfolding find_in
find_in_listed [] pt h = let k : is_in pt [] ≡ true = h in unfold is_in in absurd cc
find_in_listed (c ∷ cs) pt h = elim (Bool-cases (bytes_eq c.profile_type pt)) [
  | inl e ↦ rw e (c, refl)
  | inr e ↦ elim (is_in-cons pt c.profile_type (types_of cs) h) [
    | inl same ↦ rw same (c, find_in-head c cs)
    | inr later ↦ rw e (find_in_listed cs pt later)
  ]
]

from_string-valid : (s pt : Bytes) → from_string s ≡ some pt → is_in pt valid_profile_types ≡ true
unfolding from_string
from_string-valid s pt h = elim (Bool-cases (is_in s valid_profile_types)) [
  | inl e ↦ subst (λ x. is_in x valid_profile_types ≡ true) (some_inj (rw e at h)) e
  | inr e ↦ let k : none ≡ some pt = (rw e at h) in absurd cc
]

valid_types-none :
    (s : Bytes) (ss : List Bytes) → from_string s ≡ none → valid_types (s ∷ ss) ≡ valid_types ss
unfolding valid_types
valid_types-none s ss e = rw (e, valid_types) refl

valid_types-some :
    (s q : Bytes) (ss : List Bytes)
    → from_string s ≡ some q
    → valid_types (s ∷ ss) ≡ q ∷ valid_types ss
unfolding valid_types
valid_types-some s q ss e = rw (e, valid_types) refl

valid_types-valid :
    (ss : List Bytes) (pt : Bytes)
    → is_in pt (valid_types ss) ≡ true
    → is_in pt valid_profile_types ≡ true
valid_types-valid [] pt h = let k : false ≡ true = (unfold valid_types is_in in h) in absurd cc
valid_types-valid (s ∷ ss) pt h = elim (Option-cases (from_string s)) [
  | inl e ↦ valid_types-valid ss pt (rw (valid_types-none s ss e) at h)
  | inr (q, e) ↦ elim (is_in-cons pt q (valid_types ss) (rw (valid_types-some s q ss e) at h)) [
    | inl same ↦ rw same (from_string-valid s q e)
    | inr later ↦ valid_types-valid ss pt later
  ]
]

preset_configs-none :
    (pt : Bytes) (pts : List Bytes)
    → find_in preset_profile_type_configs pt ≡ none
    → preset_configs (pt ∷ pts) ≡ preset_configs pts
unfolding preset_configs
preset_configs-none pt pts e = rw (e, preset_configs) refl

preset_configs-some :
    (pt : Bytes) (pts : List Bytes) (c : ProfileTypeConfig)
    → find_in preset_profile_type_configs pt ≡ some c
    → preset_configs (pt ∷ pts) ≡ c ∷ preset_configs pts
unfolding preset_configs
preset_configs-some pt pts c e = rw (e, preset_configs) refl

find_in_later :
    (c d : ProfileTypeConfig) (cs : List ProfileTypeConfig) (pt : Bytes)
    → find_in cs pt ≡ some d
    → (c.profile_type ≡ pt → c ≡ d)
    → find_in (c ∷ cs) pt ≡ some d
unfolding find_in
find_in_later c d cs pt h same = elim (Bool-cases (bytes_eq c.profile_type pt)) [
  | inl e ↦ rw (e, same (bytes_eq→eq _ _ e)) refl
  | inr e ↦ rw e h
]

presets_some :
    (pt : Bytes)
    → is_in pt valid_profile_types ≡ true
    → (c : ProfileTypeConfig) × (find_in preset_profile_type_configs pt ≡ some c)
presets_some pt h = find_in_listed preset_profile_type_configs pt h

-- The presets of a list of types are found again by the type.
find_in-preset_configs :
    (pts : List Bytes) (pt : Bytes) (c : ProfileTypeConfig)
    → is_in pt pts ≡ true
    → find_in preset_profile_type_configs pt ≡ some c
    → find_in (preset_configs pts) pt ≡ some c
find_in-preset_configs [] pt c h e = let k : false ≡ true = (unfold is_in in h) in absurd cc
find_in-preset_configs (q ∷ pts) pt c h e = elim (is_in-cons pt q pts h) [
  | inl same ↦
      let found : find_in preset_profile_type_configs q ≡ some c = rw (← same) e in
      let typed : pt ≡ c.profile_type = sym (find_in-type _ pt c e) in
      rw (preset_configs-some q pts c found) (rw typed (find_in-head c (preset_configs pts)))
  | inr later ↦ elim (Option-cases (find_in preset_profile_type_configs q)) [
    | inl none_of ↦ rw (preset_configs-none q pts none_of) (find_in-preset_configs pts pt c later e)
    | inr (d, found) ↦ rw (preset_configs-some q pts d found) (
        find_in_later d c (preset_configs pts) pt (find_in-preset_configs pts pt c later e)
          (λ typed.
            let named : pt ≡ q = sym typed ∙ find_in-type _ q d found in
            some_inj (sym found ∙ rw named at e)))
  ]
]

extract_profile_types-some :
    (p : Profile) (pts : List Bytes)
    → extract_profile_types p ≡ some pts
    → valid_types p.profile_type_list ≡ pts
unfolding extract_profile_types
extract_profile_types-some p pts h = go (valid_types p.profile_type_list) h
  where
    go :
        (ts : List Bytes)
        → elim ts as (λ _. Option (List Bytes)) [ [] ↦ none | t ∷ ts' ↦ some (t ∷ ts') ] ≡ some pts
        → ts ≡ pts
    go [] h = absurd cc
    go (t ∷ ts') h = some_inj h

-- Each profile type of the task of a continuous or a conditional profile is one of the five, and
-- the task has a configuration for it, which is the preset of that very type.
pub preset_task-find_config :
    (use_cache : Bool) (id : Bytes) (p : Profile) (t : Task) (pt : Bytes)
    → preset_task use_cache id p ≡ some t
    → is_in pt t.profile_types ≡ true
    → (is_in pt valid_profile_types ≡ true)
      × (c : ProfileTypeConfig) × (find_config t pt ≡ some c)
      × (find_in preset_profile_type_configs pt ≡ some c)
      × (c.profile_type ≡ pt)
unfolding preset_task find_config
preset_task-find_config use_cache id p t pt h m = elim (Option-cases (extract_profile_types p)) [
  | inl e ↦ let k : none ≡ some t = (rw (e, preset_task) at h) in absurd cc
  | inr (pts, e) ↦
      let made : record {
        profile_id = p.profile_id;
        upload_id = id;
        profile_types = pts;
        pt_configs = preset_configs pts;
        use_cache = use_cache;
      }
          ≡ t =
        some_inj (rw (e, preset_task) at h) in
      let valid : is_in pt valid_profile_types ≡ true =
        valid_types-valid p.profile_type_list pt
          (rw (extract_profile_types-some p pts e) (rw (← made) at m)) in
      let (c, e1) = presets_some pt valid in
      (
        valid,
        c,
        rw (← made) (find_in-preset_configs pts pt c (rw (← made) at m) e1),
        e1,
        find_in-type _ pt c e1,
      )
]
