-- ===== src/Tracer/Propagators.antt =====
-- Extract and Inject of trace/aitracer/tracer.go, on the maps that NewTracer fills.
use apminsight_server_sdk_go.Prelude.{
  ◌≡◌, refl, ◌∙◌, List, [], ◌∷◌, Option, none, some, if◌then◌else◌, Bool-cases, Option-cases, inl,
  inr,
}
use apminsight_server_sdk_go.Propagation.{SpanContext}
use apminsight_server_sdk_go.Tracer.Config.{
  Format, format_eq, unsupported_format, Result, err, Injector, Extractor, PropagatorConfig,
  TracerConfig,
}

-- `m[f]` and `m[f] = v` of a map by formats.
abbrev pub FormatMap {ℓ} : Type ℓ → Type ℓ
FormatMap V = Format → Option V

unfoldable pub put {ℓ} : {V : Type ℓ} → Format → V → FormatMap V → FormatMap V
put f v m g = if format_eq g f then some v else m g

module _ {ℓ} (C : Type ℓ) where
  -- The loop of NewTracer over the propagators.
  unfoldable pub injects :
      List (PropagatorConfig C) → FormatMap (Injector C) → FormatMap (Injector C)
  injects [] m = m
  injects (p ∷ ps) m = injects ps (put p.format p.injector m)

  unfoldable pub extractors :
      List (PropagatorConfig C) → FormatMap (Extractor C) → FormatMap (Extractor C)
  extractors [] m = m
  extractors (p ∷ ps) m = extractors ps (put p.format p.extractor m)

  unfoldable pub inject : TracerConfig C → SpanContext → Format → C → Result C
  inject config sc format carrier = elim (injects config.propagator_configs (λ f. none) format) [
    | none ↦ err unsupported_format
    | some injector ↦ injector sc carrier
  ]

  unfoldable pub extract : TracerConfig C → Format → C → Result (Option SpanContext)
  extract config format carrier = elim (extractors config.propagator_configs (λ f. none) format) [
    | none ↦ err unsupported_format
    | some extractor ↦ extractor carrier
  ]

  -- The last propagator for a format.
  abbrev pub last_for : Format → List (PropagatorConfig C) → Option (PropagatorConfig C)
  last_for f [] = none
  last_for f (p ∷ ps) = elim (last_for f ps) [
    | none ↦ if format_eq f p.format then some p else none
    | some q ↦ some q
  ]

  injects-last :
      (f : Format) (ps : List (PropagatorConfig C)) (m : FormatMap (Injector C))
      → injects ps m f ≡ (elim (last_for f ps) [ none ↦ m f | some p ↦ some p.injector ])
  unfolding injects put
  injects-last f [] m = refl
  injects-last f (p ∷ ps) m = elim (Option-cases (last_for f ps)) [
    | inr (q, e) ↦ injects-last f ps (put p.format p.injector m) ∙ rw e refl
    | inl e ↦
        injects-last f ps (put p.format p.injector m)
        ∙ rw e (elim (Bool-cases (format_eq f p.format)) [ inl y ↦ rw y refl | inr n ↦ rw n refl ])
  ]

  extractors-last :
      (f : Format) (ps : List (PropagatorConfig C)) (m : FormatMap (Extractor C))
      → extractors ps m f ≡ (elim (last_for f ps) [ none ↦ m f | some p ↦ some p.extractor ])
  unfolding extractors put
  extractors-last f [] m = refl
  extractors-last f (p ∷ ps) m = elim (Option-cases (last_for f ps)) [
    | inr (q, e) ↦ extractors-last f ps (put p.format p.extractor m) ∙ rw e refl
    | inl e ↦
        extractors-last f ps (put p.format p.extractor m)
        ∙ rw e (elim (Bool-cases (format_eq f p.format)) [ inl y ↦ rw y refl | inr n ↦ rw n refl ])
  ]

  -- Inject and Extract go to the last propagator that was configured for the format, and fail with
  -- ErrUnsupportedFormat if there is none.
  pub dispatch-last :
      (config : TracerConfig C) (sc : SpanContext) (f : Format) (carrier : C)
      → (inject config sc f carrier ≡ (elim (last_for f config.propagator_configs) [
        | none ↦ err unsupported_format
        | some p ↦ p.injector sc carrier
      ]))
        × (extract config f carrier ≡ (elim (last_for f config.propagator_configs) [
          | none ↦ err unsupported_format
          | some p ↦ p.extractor carrier
        ]))
  unfolding inject extract
  dispatch-last config sc f carrier = elim (Option-cases (last_for f config.propagator_configs)) [
    | inl e ↦ (
      rw (inject, injects-last f config.propagator_configs (λ g. none), e) refl,
      rw (extract, extractors-last f config.propagator_configs (λ g. none), e) refl,
    )
    | inr (p, e) ↦ (
      rw (inject, injects-last f config.propagator_configs (λ g. none), e) refl,
      rw (extract, extractors-last f config.propagator_configs (λ g. none), e) refl,
    )
  ]
