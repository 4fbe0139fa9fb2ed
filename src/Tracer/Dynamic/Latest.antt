-- ===== src/Tracer/Dynamic/Latest.antt =====
-- The settings that are in force after several were handled.
use apminsight_server_sdk_go.Prelude.{
  ◌≡◌, refl, ap, ◌∙◌, List, [], ◌∷◌, Option, none, some, ◌>>=◌, some_inj, All, Option-cases, inl,
  inr,
}
use apminsight_server_sdk_go.Prelude.Int.{ℤ, pos}
use apminsight_server_sdk_go.Sampler.{InternalSampler, Strategy, SamplerValue, refresh_config}
use apminsight_server_sdk_go.Tracer.Dynamic.{
  TracerSettings, Dynamic, strategy_of, handle_settings_for_sampler, milliseconds,
  handle_settings_for_dynamic_config, handle_settings, handle_all,
}

-- The strategy and the value that some settings choose, if they choose any.
abbrev pub chosen : Option TracerSettings → Option (Strategy × SamplerValue)
chosen none = none
chosen (some settings) = do
  trace ← settings.trace
  sample ← trace.sample_config
  strategy ← strategy_of sample.strategy
  some (strategy, sample.value)

-- The last choice of a sequence, before which `o` was the last.
abbrev pub last_chosen :
    List (Option TracerSettings)
    → Option (Strategy × SamplerValue)
    → Option (Strategy × SamplerValue)
last_chosen [] o = o
last_chosen (s ∷ ss) o = last_chosen ss (elim (chosen s) [ none ↦ o | some c ↦ some c ])

abbrev pub last_slow : List (Option TracerSettings) → Option ℤ → Option ℤ
last_slow [] o = o
last_slow (none ∷ ss) o = last_slow ss o
last_slow (some s ∷ ss) o =
    last_slow ss
      (elim s.slow_query_millseconds [ none ↦ some (pos 0) | some ms ↦ some (milliseconds ms) ])

-- A choice that RefreshConfig does not divide by zero on.
abbrev pub IsSafe : Option TracerSettings → Type 0
IsSafe s = elim (chosen s) [
  | none ↦ Unit
  | some c ↦ (sampler : InternalSampler) × (refresh_config c.0 c.1 ≡ some sampler)
]

-- The sampler of a choice, `old` if there was none.
abbrev pub IsSamplerOf :
    InternalSampler → Option (Strategy × SamplerValue) → InternalSampler → Type 0
IsSamplerOf old none now = now ≡ old
IsSamplerOf old (some c) now = refresh_config c.0 c.1 ≡ some now

sampler-none :
    (s : Option TracerSettings) (d : Dynamic)
    → chosen s ≡ none
    → handle_settings_for_sampler s d ≡ some d
unfolding handle_settings_for_sampler
sampler-none none d h = refl
sampler-none (some s) d h = elim (Option-cases s.trace) [
  | inl e ↦ rw e refl
  | inr (t, e) ↦ elim (Option-cases t.sample_config) [
    | inl e2 ↦ rw (e, e2) refl
    | inr (sample, e2) ↦ elim (Option-cases (strategy_of sample.strategy)) [
      | inl e3 ↦ rw (e, e2, e3) refl
      | inr (strategy, e3) ↦
          let k : ◌≡◌ {A = Option (Strategy × SamplerValue)} (some (strategy, sample.value)) none =
            rw (e, e2, e3) at h in
          absurd cc
    ]
  ]
]

sampler-some :
    (s : Option TracerSettings) (d : Dynamic) (c : Strategy × SamplerValue) (x : InternalSampler)
    → chosen s ≡ some c
    → refresh_config c.0 c.1 ≡ some x
    → handle_settings_for_sampler s d ≡ some (record d { sampler = x })
unfolding handle_settings_for_sampler
sampler-some none d c x h r = absurd cc
sampler-some (some s) d c x h r = elim (Option-cases s.trace) [
  | inl e ↦ let k : none ≡ some c = rw e at h in absurd cc
  | inr (t, e) ↦ elim (Option-cases t.sample_config) [
    | inl e2 ↦ let k : none ≡ some c = rw (e, e2) at h in absurd cc
    | inr (sample, e2) ↦ elim (Option-cases (strategy_of sample.strategy)) [
      | inl e3 ↦ let k : none ≡ some c = rw (e, e2, e3) at h in absurd cc
      | inr (strategy, e3) ↦
          let k : some (strategy, sample.value) ≡ some c = rw (e, e2, e3) at h in
          let r' : refresh_config strategy sample.value ≡ some x =
            ap (λ (p : Strategy × SamplerValue). refresh_config p.0 p.1) (some_inj k) ∙ r in
          rw (e, e2, e3, r') refl
    ]
  ]
]

slow-last :
    (s : Option TracerSettings) (ss : List (Option TracerSettings)) (d : Dynamic)
    → last_slow ss (handle_settings_for_dynamic_config s d).db_slow_query
      ≡ last_slow (s ∷ ss) d.db_slow_query
unfolding handle_settings_for_dynamic_config
slow-last none ss d = refl
slow-last (some s) ss d = refl

dynamic-sampler :
    (s : Option TracerSettings) (d : Dynamic)
    → (handle_settings_for_dynamic_config s d).sampler ≡ d.sampler
unfolding handle_settings_for_dynamic_config
dynamic-sampler none d = refl
dynamic-sampler (some s) d = refl

dynamic-slow :
    (s : Option TracerSettings) (d : Dynamic) (x : InternalSampler)
    → (handle_settings_for_dynamic_config s (record d { sampler = x })).db_slow_query
      ≡ (handle_settings_for_dynamic_config s d).db_slow_query
unfolding handle_settings_for_dynamic_config
dynamic-slow none d x = refl
dynamic-slow (some s) d x = refl

handle_all-from :
    (ss : List (Option TracerSettings)) (d : Dynamic) (old : InternalSampler)
    (o : Option (Strategy × SamplerValue))
    → All IsSafe ss
    → IsSamplerOf old o d.sampler
    → (d' : Dynamic) × (handle_all ss d ≡ some d')
      × IsSamplerOf old (last_chosen ss o) d'.sampler
      × (d'.db_slow_query ≡ last_slow ss d.db_slow_query)
unfolding handle_all handle_settings
handle_all-from [] d old o safe h = (d, refl, h, refl)
handle_all-from (s ∷ ss) d old o safe h = elim (Option-cases (chosen s)) [
  | inl e ↦
      let d1 = handle_settings_for_dynamic_config s d in
      let (d', run, now, slow) = handle_all-from ss d1 old o safe.1 (rw (dynamic-sampler s d) h) in
      rw (sampler-none s d e, e) (d', run, now, slow ∙ slow-last s ss d)
  | inr (c, e) ↦
      let (x, made) : (x : InternalSampler) × (refresh_config c.0 c.1 ≡ some x) =
        rw (IsSafe, e) at (safe.0) in
      let d1 = handle_settings_for_dynamic_config s (record d { sampler = x }) in
      let (d', run, now, slow) =
        handle_all-from ss d1 old (some c) safe.1
          (rw (dynamic-sampler s (record d { sampler = x })) made) in
      rw (sampler-some s d c x e made, e)
        (d', run, now, slow ∙ ap (last_slow ss) (dynamic-slow s d x) ∙ slow-last s ss d)
]

-- When no settings choose a value that RefreshConfig divides by zero on, all are handled: the
-- sampler is then the one of the last settings with a known strategy, or the old one if there are
-- none; and the limit for slow queries is that of the last settings that are not nil, 0 if they have
-- no section for it, or the old one.
pub handle_all-latest :
    (ss : List (Option TracerSettings)) (d : Dynamic)
    → All IsSafe ss
    → (d' : Dynamic) × (handle_all ss d ≡ some d')
      × IsSamplerOf d.sampler (last_chosen ss none) d'.sampler
      × (d'.db_slow_query ≡ last_slow ss d.db_slow_query)
handle_all-latest ss d safe = handle_all-from ss d d.sampler none safe refl
