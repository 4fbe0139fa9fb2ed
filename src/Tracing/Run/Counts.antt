-- ===== src/Tracing/Run/Counts.antt =====
-- How the spans of a trace, its count, and what was collected hang together.
use mathlib.Core.List.{Perm, perm_middle}
use mathlib.Core.List.Perm
use apminsight_server_sdk_go.Prelude.{
  ℕ, zero, suc, ◌≤◌, ◌≡◌, refl, ap, true, false, List, [], ◌∷◌, ◌++◌, some, Bytes, length,
  get_elem?, if◌then◌else◌, All, Bool-cases, inl, inr, arith, some_inj,
}
use apminsight_server_sdk_go.Tracing.Span.{Span}
use apminsight_server_sdk_go.Tracing.Span.Flags.{IsQuiet, IsFinishing}
use apminsight_server_sdk_go.Tracing.Emit.{EmittedSpan, mark, emitted, emit_spans}
use apminsight_server_sdk_go.Tracing.Run.{update_at}

abbrev pub finished_count : List Span → ℕ
finished_count [] = 0
finished_count (s ∷ spans) = if s.finished then suc (finished_count spans) else finished_count spans

-- The ids of the spans that were collected, and of those in a trace that was offered.
abbrev pub collected_ids : List Span → List Bytes
collected_ids [] = []
collected_ids (s ∷ spans) =
    if s.collected then s.span_id ∷ collected_ids spans else collected_ids spans

abbrev pub emitted_ids : List EmittedSpan → List Bytes
emitted_ids [] = []
emitted_ids (e ∷ es) = e.span_id ∷ emitted_ids es

abbrev pub AllFinished : List Span → Type 0
AllFinished = All (λ s. s.finished ≡ true)

-- Only spans that have finished were collected.
abbrev pub CollectedFinished : List Span → Type 0
CollectedFinished = All (λ s. s.collected ≡ true → s.finished ≡ true)

pub length-update_at :
    (i : ℕ) (f : Span → Span) (ss : List Span) → length (update_at i f ss) ≡ length ss
unfolding update_at
length-update_at i f [] = refl
length-update_at zero f (s ∷ ss) = refl
length-update_at (suc i) f (s ∷ ss) = ap suc (length-update_at i f ss)

pub finished_count-quiet :
    (i : ℕ) (f : Span → Span) (ss : List Span)
    → IsQuiet f
    → finished_count (update_at i f ss) ≡ finished_count ss
unfolding update_at
finished_count-quiet i f [] q = refl
finished_count-quiet zero f (s ∷ ss) q = rw (q.finished_same s) refl
finished_count-quiet (suc i) f (s ∷ ss) q = rw (finished_count-quiet i f ss q) refl

pub collected_ids-update_at :
    (i : ℕ) (f : Span → Span) (ss : List Span)
    → ((s : Span) → (f s).collected ≡ s.collected)
    → ((s : Span) → (f s).span_id ≡ s.span_id)
    → collected_ids (update_at i f ss) ≡ collected_ids ss
unfolding update_at
collected_ids-update_at i f [] c d = refl
collected_ids-update_at zero f (s ∷ ss) c d = rw (c s, d s) refl
collected_ids-update_at (suc i) f (s ∷ ss) c d = rw (collected_ids-update_at i f ss c d) refl

-- The span at a place that has not finished is counted once a Finish has written it.
pub finished_count-finishing :
    (i : ℕ) (f : Span → Span) (ss : List Span) (s : Span)
    → IsFinishing f
    → get_elem? ss i ≡ some s
    → s.finished ≡ false
    → finished_count (update_at i f ss) ≡ suc (finished_count ss)
unfolding update_at
finished_count-finishing i f [] s q e h = absurd cc
finished_count-finishing zero f (t ∷ ss) s q e h =
    let same : t.finished ≡ false = rw (some_inj e) h in rw (q.finished_set t, same) refl
finished_count-finishing (suc i) f (t ∷ ss) s q e h =
    rw (finished_count-finishing i f ss s q e h)
      (elim (Bool-cases t.finished) [ inl y ↦ rw y refl | inr n ↦ rw n refl ])

pub CollectedFinished-quiet :
    (i : ℕ) (f : Span → Span) (ss : List Span)
    → IsQuiet f
    → CollectedFinished ss
    → CollectedFinished (update_at i f ss)
unfolding update_at
CollectedFinished-quiet i f [] q h = h
CollectedFinished-quiet zero f (s ∷ ss) q h = (rw (q.finished_same s, q.collected_same s) h.0, h.1)
CollectedFinished-quiet (suc i) f (s ∷ ss) q h = (h.0, CollectedFinished-quiet i f ss q h.1)

pub CollectedFinished-finishing :
    (i : ℕ) (f : Span → Span) (ss : List Span)
    → IsFinishing f
    → CollectedFinished ss
    → CollectedFinished (update_at i f ss)
unfolding update_at
CollectedFinished-finishing i f [] q h = h
CollectedFinished-finishing zero f (s ∷ ss) q h = (λ c. q.finished_set s, h.1)
CollectedFinished-finishing (suc i) f (s ∷ ss) q h = (h.0, CollectedFinished-finishing i f ss q h.1)

pub finished_count-bound : (ss : List Span) → finished_count ss ≤ length ss
finished_count-bound [] = omega arith
finished_count-bound (s ∷ ss) = ground (arith, finished_count-bound ss)

-- When the count is the number of the spans, all have finished.
pub AllFinished-count : (ss : List Span) → finished_count ss ≡ length ss → AllFinished ss
AllFinished-count [] h = tt
AllFinished-count (s ∷ ss) h = elim (Bool-cases s.finished) [
  | inl y ↦ (y, AllFinished-count ss (ground arith))
  | inr n ↦ absurd (ground (arith, finished_count-bound ss))
]

pub finished_count-emit_spans :
    (r : Bytes) (ss : List Span) → finished_count (emit_spans r ss).0 ≡ finished_count ss
unfolding emit_spans mark
finished_count-emit_spans r [] = refl
finished_count-emit_spans r (s ∷ ss) = elim (Bool-cases s.collected) [
  | inl y ↦ rw (y, finished_count-emit_spans r ss) refl
  | inr n ↦ rw (n, finished_count-emit_spans r ss) refl
]

pub length-emit_spans : (r : Bytes) (ss : List Span) → length (emit_spans r ss).0 ≡ length ss
unfolding emit_spans
length-emit_spans r [] = refl
length-emit_spans r (s ∷ ss) = elim (Bool-cases s.collected) [
  | inl y ↦ rw (y, length-emit_spans r ss) refl
  | inr n ↦ rw (n, length-emit_spans r ss) refl
]

pub AllFinished-emit_spans :
    (r : Bytes) (ss : List Span) → AllFinished ss → CollectedFinished (emit_spans r ss).0
unfolding emit_spans mark
AllFinished-emit_spans r [] h = tt
AllFinished-emit_spans r (s ∷ ss) h = elim (Bool-cases s.collected) [
  | inl y ↦ rw y (λ c. h.0, AllFinished-emit_spans r ss h.1)
  | inr n ↦ rw n (λ c. h.0, AllFinished-emit_spans r ss h.1)
]

-- emitTrace leaves every span collected.
pub emit_spans-All :
    (r : Bytes) (ss : List Span) → All (λ s. s.collected ≡ true) (emit_spans r ss).0
unfolding emit_spans mark
emit_spans-All r [] = tt
emit_spans-All r (s ∷ ss) = elim (Bool-cases s.collected) [
  | inl y ↦ rw y (refl, emit_spans-All r ss)
  | inr n ↦ rw n (refl, emit_spans-All r ss)
]

-- It emits those that were not collected before, each once.
pub collected_ids-emit_spans :
    (r : Bytes) (ss : List Span)
    → Perm (collected_ids ss ++ emitted_ids (emit_spans r ss).1) (collected_ids (emit_spans r ss).0)
unfolding emit_spans mark emitted
collected_ids-emit_spans r [] = Perm.refl []
collected_ids-emit_spans r (s ∷ ss) = elim (Bool-cases s.collected) [
  | inl y ↦ rw y (Perm.cons s.span_id (collected_ids-emit_spans r ss))
  | inr n ↦ rw n (
      Perm.trans (perm_middle (collected_ids ss) (emitted_ids (emit_spans r ss).1))
        (Perm.cons s.span_id (collected_ids-emit_spans r ss)))
]
