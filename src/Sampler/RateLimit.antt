-- ===== src/Sampler/RateLimit.antt =====
-- The rate and the weights of the rate limiting sampler.
use native.Mathlib.Nat.{div-mul-le_self, le-div_iff_mul-le, mul-le-mul_right, one-mul, add-mul}
use apminsight_server_sdk_go.Prelude.{
  ℕ, ◌+◌, ◌*◌, ◌/◌, ◌≤◌, ◌<◌, ◌≡◌, refl, Bool, true, false, Option, none, some, ltb, ◌==◌, List, [],
  ◌∷◌, arith, Bool-cases, inl, inr, ◌⊎◌, length,
}
use apminsight_server_sdk_go.Sampler.{
  InternalSampler, ratelimit_sampler, since, sample_ratelimit, sample,
}

-- The variables of a ratelimitSampler, with what its calls answered so far.
pub record Limiter : Type 0 where
  pub last : ℕ
  pub no_sampled : ℕ
  pub taken : ℕ
  pub weights : ℕ

abbrev note : Limiter → Option (InternalSampler × Bool × ℕ) → Option Limiter
note l (some (ratelimit_sampler interval last no_sampled, true, weight)) = some (record {
  last = last;
  no_sampled = no_sampled;
  taken = l.taken + 1;
  weights = l.weights + weight;
})
note l (some (ratelimit_sampler interval last no_sampled, false, weight)) =
    some (record l { last = last; no_sampled = no_sampled; weights = l.weights + weight })
note l _ = none

-- A call at the time `now`, and the calls at the times `times`: how the sampler's variables, the
-- number of `true` answers and the sum of the weights go on. `none` when a call panics.
unfoldable pub call : ℕ → Limiter → ℕ → Option Limiter
unfolding sample
call interval l now = note l (sample (ratelimit_sampler interval l.last l.no_sampled) now 0)

unfoldable pub calls : ℕ → Limiter → List ℕ → Option Limiter
unfolding call
calls interval l [] = some l
calls interval l (now ∷ times) = elim (call interval l now) [
  | none ↦ none
  | some l' ↦ calls interval l' times
]

-- The times do not go back, and `t` is before them.
abbrev pub After : ℕ → List ℕ → Type 0
After t [] = Unit
After t (now ∷ times) = (t ≤ now) × After now times

abbrev pub latest : ℕ → List ℕ → ℕ
latest t [] = t
latest t (now ∷ times) = latest now times

After-mono : {s t : ℕ} (times : List ℕ) → s ≤ t → After t times → After s times
After-mono [] h a = tt
After-mono (now ∷ times) h a = (omega (arith, h, a.0), a.1)

latest_mono : {s t n : ℕ} (times : List ℕ) → s ≤ t → n ≤ latest s times → n ≤ latest t times
latest_mono [] h k = omega arith
latest_mono (now ∷ times) h k = k

-- What one call may do.
record Advances (interval now : ℕ) (l l' : Limiter) : Type 0 where
  moved : l.last ≤ l'.last
  past : l'.last ≤ now
  counted : l'.weights + l'.no_sampled ≡ l.weights + l.no_sampled + 1
  spaced : ((l'.taken ≡ l.taken)) ⊎ ((l'.taken ≡ l.taken + 1) × (l.last + interval ≤ l'.last))

since_le : (now last : ℕ) → last ≤ now → last + since now last ≤ now
unfolding since
since_le now last h = omega (arith, h)

-- Rounding down to a multiple of `k` leaves at least one `k`.
whole : (k d : ℕ) → 0 < k → k ≤ d → k ≤ d / k * k
whole k d pos h =
    let at_least : 1 * k ≤ d / k * k =
      mul-le-mul_right k ((le-div_iff_mul-le pos).1 (rw one-mul h)) in
    rw one-mul at at_least

call-Advances :
    (interval now : ℕ) (l : Limiter)
    → 0 < interval
    → l.last ≤ now
    → (l' : Limiter) × (call interval l now ≡ some l') × Advances interval now l l'
unfolding call sample sample_ratelimit
call-Advances interval now l pos order = elim (Bool-cases (ltb (since now l.last) interval)) [
  | inl early ↦ rw early (
    _,
    refl,
    record { moved = omega arith; past = order; counted = omega arith; spaced = inl refl },
  )
  | inr due ↦
      let before = since_le now l.last order in
      let divides : (interval == 0) ≡ false = ground arith in
      rw (due, divides)
        (
          _,
          refl,
          record {
            moved = omega arith;
            past = omega (arith, before, div-mul-le_self (since now l.last) interval);
            counted = omega arith;
            spaced =
                inr (refl, omega (arith, whole interval (since now l.last) pos (ground arith)));
          },
        )
]

rate_kept :
    {now : ℕ} (interval base : ℕ) (l l' : Limiter)
    → Advances interval now l l'
    → l.taken * interval + base ≤ l.last
    → l'.taken * interval + base ≤ l'.last
rate_kept interval base l l' a h = elim a.spaced [
  | inl same ↦ rw same (omega (arith, a.moved, h))
  | inr (more, far) ↦ rw (more, add-mul, one-mul) (omega (arith, far, h))
]

calls-from :
    (interval : ℕ) (l : Limiter) (times : List ℕ) (base : ℕ)
    → 0 < interval
    → After l.last times
    → l.taken * interval + base ≤ l.last
    → (l' : Limiter) × (calls interval l times ≡ some l')
      × (l'.weights + l'.no_sampled ≡ l.weights + l.no_sampled + length times)
      × (l'.taken * interval + base ≤ l'.last)
      × (l'.last ≤ latest l.last times)
unfolding calls
calls-from interval l [] base pos order h = (l, refl, omega arith, h, omega arith)
calls-from interval l (now ∷ times) base pos order h =
    let (l1, e, a) = call-Advances interval now l pos order.0 in
    let (l', es, w, t, last_in) =
      calls-from interval l1 times base pos (After-mono times a.past order.1)
        (rate_kept interval base l l1 a h) in
    (l', rw (calls, e) es, omega (arith, w, a.counted), t, latest_mono times a.past last_in)

-- A rate limiting sampler with an interval that is not 0, called at times that do not go back:
-- no call panics; the weights that were answered and the calls that are still to be accounted for
-- add up to the number of calls; and `true` was answered at most once for each whole interval
-- between the first `last` and the latest call.
pub calls-limits :
    (interval last : ℕ) (times : List ℕ)
    → 0 < interval
    → After last times
    → (l : Limiter) × (calls interval
          (record { last = last; no_sampled = 0; taken = 0; weights = 0 })
          times
        ≡ some l)
      × (l.weights + l.no_sampled ≡ length times)
      × (l.taken * interval + last ≤ latest last times)
calls-limits interval last times pos order =
    let (l, e, w, t, h) =
      calls-from interval (record { last = last; no_sampled = 0; taken = 0; weights = 0 }) times
        last pos order (omega arith) in
    (l, e, omega (arith, w), omega (arith, t, h))
