-- ===== src/Profiler/Upload/Retries.antt =====
-- When an upload ends.
use apminsight_server_sdk_go.Prelude.{
  ℕ, zero, suc, ◌+◌, ◌≤◌, ◌<◌, ◌≡◌, refl, Bool, true, false, ◌==◌, ◌⊎◌, List, [], Bool-cases, inl,
  inr, arith,
}
use apminsight_server_sdk_go.Prelude.Int.{ℤ}
use apminsight_server_sdk_go.Profiler.Upload.{
  Reply, Library, HttpSender, Outcome, send_request, sleep, send_from, upload,
}

module _ (lib : Library) (s : HttpSender) where
  -- The request was answered.
  abbrev pub succeeds : Reply → Bool
  succeeds r = (send_request lib s r).0

  -- The loop ended with the first answer, or without one after all its rounds.
  abbrev pub EndsRight : (ℕ → Reply) → ℕ → ℕ → Outcome → Type 0
  EndsRight replies i last o =
      ((o.answered ≡ true)
        × (k : ℕ) × (i ≤ k)
        × (k < last)
        × (o.requests ≡ k + 1)
        × (succeeds (replies k) ≡ true)
        × ((j : ℕ) → i ≤ j → j < k → succeeds (replies j) ≡ false))
      ⊎ ((o.answered ≡ false)
          × (o.requests ≡ last)
          × ((j : ℕ) → i ≤ j → j < last → succeeds (replies j) ≡ false))

  -- A failure in front.
  failed_from :
      (replies : ℕ → Reply) (i last : ℕ)
      → succeeds (replies i) ≡ false
      → ((j : ℕ) → i + 1 ≤ j → j < last → succeeds (replies j) ≡ false)
      → (j : ℕ) → i ≤ j
      → j < last
      → succeeds (replies j) ≡ false
  failed_from replies i last e f j h k = elim (Bool-cases (j == i)) [
    | inl same ↦ let at_i : j ≡ i = ground arith in rw at_i e
    | inr later ↦ f j (ground arith) k
  ]

  EndsRight-extend :
      (replies : ℕ → Reply) (i last : ℕ) (o : Outcome)
      → succeeds (replies i) ≡ false
      → EndsRight replies (i + 1) last o
      → EndsRight replies i last o
  EndsRight-extend replies i last o e (inl (a, k, h, l, r, y, f)) =
      inl (a, k, omega arith, l, r, y, failed_from replies i k e f)
  EndsRight-extend replies i last o e (inr (a, r, f)) = inr (a, r, failed_from replies i last e f)

  send_from-EndsRight :
      (replies : ℕ → Reply) (left i : ℕ) (sleeps : List ℤ)
      → EndsRight replies i (i + left) (send_from lib s replies left i sleeps)
  unfolding send_from
  send_from-EndsRight replies zero i sleeps = inr (refl, omega arith, λ j h k. absurd (omega arith))
  send_from-EndsRight replies (suc left) i sleeps = elim (Bool-cases (succeeds (replies i))) [
    | inl e ↦ rw e (inl (refl, i, omega arith, omega arith, refl, e, λ j h k. absurd (omega arith)))
    | inr e ↦
        let total : i + suc left ≡ i + 1 + left = omega arith in
        let slept = sleep lib s (send_request lib s (replies i)).1 sleeps in
        rw (e, total)
          (EndsRight-extend replies i (i + 1 + left) (send_from lib s replies left (i + 1) slept) e
            (send_from-EndsRight replies left (i + 1) slept))
  ]

  -- An upload ends: with the first request that is answered, no other being made after it, or
  -- without an answer after one request more than there are retries.
  pub upload-ends :
      (replies : ℕ → Reply) → EndsRight replies 0 (s.retry_count + 1) (upload lib s replies)
  unfolding upload
  upload-ends replies =
      let total : 0 + (s.retry_count + 1) ≡ s.retry_count + 1 = omega arith in
      rw total at (send_from-EndsRight replies (s.retry_count + 1) 0 [])
