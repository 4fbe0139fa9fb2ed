-- ===== src/Profiler/Timed/Due.antt =====
-- When the timed driver sends a profile.
use mathlib.Core.Path.{subst}
use mathlib.Core.List.{Memᴰ}
use apminsight_server_sdk_go.Prelude.{
  ◌≤◌, ◌≡◌, refl, ◌∙◌, true, false, List, [], map, ◌∷◌, ◌++◌, some, Bytes, length, Bool-cases,
  Option-cases, inl, inr, arith,
}
use apminsight_server_sdk_go.Prelude.Int.{ℤ, ltb_ℤ, eqb_ℤ}
use apminsight_server_sdk_go.Profiler.Task.{Profile, Task, timed_task, extract_profile_types}
use apminsight_server_sdk_go.Profiler.Channel.{Attempt, Env, sent}
use apminsight_server_sdk_go.Profiler.Timed.{
  TimedDriver, new_timed_driver, insert_by_start, sort_by_start, handle, is_handled, offer, visit,
  visit_all, tick, Event, handles, ticks, step, run,
}
use apminsight_server_sdk_go.Profiler.Timed.Delivery.{Counts, step-Counts, run-Counts, new-Counts}

Mem_swap :
    {p q r : Profile} {qs rest : List Profile}
    → (Memᴰ p (q ∷ qs) → Memᴰ p rest)
    → Memᴰ p (q ∷ r ∷ qs)
    → Memᴰ p (r ∷ rest)
Mem_swap f (Memᴰ.head e) = Memᴰ.tail (f (Memᴰ.head e))
Mem_swap f (Memᴰ.tail (Memᴰ.head e)) = Memᴰ.head e
Mem_swap f (Memᴰ.tail (Memᴰ.tail m)) = Memᴰ.tail (f (Memᴰ.tail m))

Mem-insert_by_start :
    (p q : Profile) (qs : List Profile) → Memᴰ p (q ∷ qs) → Memᴰ p (insert_by_start q qs)
unfolding insert_by_start
Mem-insert_by_start p q [] m = m
Mem-insert_by_start p q (r ∷ qs) m = elim (Bool-cases (ltb_ℤ r.start_time q.start_time)) [
  | inl e ↦ rw e (Mem_swap (Mem-insert_by_start p q qs) m)
  | inr e ↦ rw e m
]

Mem-sort_by_start : (p : Profile) (ps : List Profile) → Memᴰ p ps → Memᴰ p (sort_by_start ps)
unfolding sort_by_start
Mem-sort_by_start p [] m = elim m [ ]
Mem-sort_by_start p (q ∷ ps) (Memᴰ.head e) =
    Mem-insert_by_start p q (sort_by_start ps) (Memᴰ.head e)
Mem-sort_by_start p (q ∷ ps) (Memᴰ.tail m) =
    Mem-insert_by_start p q (sort_by_start ps) (Memᴰ.tail (Mem-sort_by_start p ps m))

timed_task-some :
    (id : Bytes) (p : Profile) (pts : List Bytes)
    → extract_profile_types p ≡ some pts
    → (t : Task) × (timed_task id p ≡ some t)
unfolding timed_task
timed_task-some id p pts e = rw (e, timed_task) (_, refl)

module _ (env : Env) where
  -- From these attempts on, the channel has room.
  abbrev pub HasRoomFrom : List Attempt → Type 0
  HasRoomFrom log =
      (later : List Attempt) (t : Task) → length log ≤ length later → env.takes later t ≡ true

  -- A later state of the driver: nothing is forgotten.
  record Grows (d d' : TimedDriver) : Type 0 where
    kept : (id : ℤ) → is_handled id d.handled_set ≡ true → is_handled id d'.handled_set ≡ true
    longer : length d.attempts ≤ length d'.attempts
    same : d'.profiles ≡ d.profiles

  Grows-refl : (d : TimedDriver) → Grows d d
  Grows-refl d = record { kept = λ id h. h; longer = omega arith; same = refl }

  Grows-trans : (d e f : TimedDriver) → Grows d e → Grows e f → Grows d f
  Grows-trans d e f g h = record {
    kept = λ id x. h.kept id (g.kept id x);
    longer = omega (arith, g.longer, h.longer);
    same = h.same ∙ g.same;
  }

  offer-Grows : (d : TimedDriver) (p : Profile) (t : Task) → Grows d (offer env d p t)
  unfolding offer is_handled
  offer-Grows d p t = record {
    kept = λ id h. elim (Bool-cases (env.takes d.attempts t)) [
      | inl e ↦ elim (Bool-cases (eqb_ℤ id p.profile_id)) [
        | inl k ↦ rw (e, k) refl
        | inr k ↦ rw (e, k) h
      ]
      | inr e ↦ rw e h
    ];
    longer = omega arith;
    same = refl;
  }

  visit-Grows : (now : ℤ) (d : TimedDriver) (p : Profile) → Grows d (visit env now d p)
  unfolding visit
  visit-Grows now d p = elim (Bool-cases (ltb_ℤ now p.start_time)) [
    | inl early ↦ rw (early, visit) (Grows-refl d)
    | inr due ↦ elim (Bool-cases (is_handled p.profile_id d.handled_set)) [
      | inl done ↦ rw (due, done, visit) (Grows-refl d)
      | inr fresh ↦ elim (Option-cases (timed_task (env.new_rand_id d.attempts) p)) [
        | inl e ↦ rw (due, fresh, e, visit) (Grows-refl d)
        | inr (t, e) ↦ rw (due, fresh, e, visit) (offer-Grows d p t)
      ]
    ]
  ]

  visit_all-Grows :
      (now : ℤ) (d : TimedDriver) (ps : List Profile) → Grows d (visit_all env now d ps)
  unfolding visit_all
  visit_all-Grows now d [] = Grows-refl d
  visit_all-Grows now d (p ∷ ps) =
      Grows-trans d (visit env now d p) _ (visit-Grows now d p)
        (visit_all-Grows now (visit env now d p) ps)

  offer_taken :
      (d : TimedDriver) (p : Profile) (t : Task)
      → env.takes d.attempts t ≡ true
      → is_handled p.profile_id (offer env d p t).handled_set ≡ true
  unfolding offer is_handled
  offer_taken d p t e =
      let same : eqb_ℤ p.profile_id p.profile_id ≡ true = ground arith in rw (e, same) refl

  -- A profile that is due, with a valid type, is handled by its visit if the channel has room.
  visit_due :
      (now : ℤ) (d : TimedDriver) (p : Profile) (pts : List Bytes)
      → extract_profile_types p ≡ some pts
      → ltb_ℤ now p.start_time ≡ false
      → HasRoomFrom d.attempts
      → is_handled p.profile_id (visit env now d p).handled_set ≡ true
  unfolding visit
  visit_due now d p pts valid due room = elim (Bool-cases (is_handled p.profile_id d.handled_set)) [
    | inl done ↦ rw (due, done, visit) done
    | inr fresh ↦
        let (t, e) = timed_task-some (env.new_rand_id d.attempts) p pts valid in
        let taken : env.takes d.attempts t ≡ true = room d.attempts t (omega arith) in
        rw (due, fresh, e, visit) (offer_taken d p t taken)
  ]

  visit_all_due :
      (now : ℤ) (d : TimedDriver) (ps : List Profile) (p : Profile) (pts : List Bytes)
      → Memᴰ p ps
      → extract_profile_types p ≡ some pts
      → ltb_ℤ now p.start_time ≡ false
      → HasRoomFrom d.attempts
      → is_handled p.profile_id (visit_all env now d ps).handled_set ≡ true
  unfolding visit_all
  visit_all_due now d [] p pts m valid due room = elim m [ ]
  visit_all_due now d (q ∷ ps) p pts (Memᴰ.head e) valid due room =
      (visit_all-Grows now (visit env now d q) ps).kept p.profile_id (
        subst (λ x. is_handled p.profile_id (visit env now d x).handled_set ≡ true) e
          (visit_due now d p pts valid due room))
  visit_all_due now d (q ∷ ps) p pts (Memᴰ.tail m) valid due room =
      visit_all_due now (visit env now d q) ps p pts m valid due
        (λ later t h. room later t (omega (arith, h, (visit-Grows now d q).longer)))

  run-append :
      (d : TimedDriver) (es fs : List Event) → run env d (es ++ fs) ≡ run env (run env d es) fs
  unfolding run
  run-append d [] fs = refl
  run-append d (e ∷ es) fs = run-append (step env d e) es fs

  run_ticks-profiles :
      (d : TimedDriver) (clocks : List ℤ) → (run env d (map ticks clocks)).profiles ≡ d.profiles
  unfolding run step tick
  run_ticks-profiles d [] = refl
  run_ticks-profiles d (now ∷ clocks) =
      run_ticks-profiles (tick env now d) clocks ∙ (visit_all-Grows now d d.profiles).same

  run_handles-profiles :
      (before : List Event) (ps : List Profile) (clocks : List ℤ)
      → (run env new_timed_driver (before ++ handles ps ∷ map ticks clocks)).profiles
        ≡ sort_by_start ps
  unfolding run step handle
  run_handles-profiles before ps clocks =
      rw (run-append new_timed_driver before (handles ps ∷ map ticks clocks))
        (run_ticks-profiles (handle ps (run env new_timed_driver before)) clocks)

  tick-Counts : (now : ℤ) (d : TimedDriver) → Counts d → Counts (tick env now d)
  unfolding step
  tick-Counts now d c = step-Counts env d (ticks now) c

  tick_due :
      (now : ℤ) (d : TimedDriver) (p : Profile) (pts : List Bytes)
      → Memᴰ p d.profiles
      → extract_profile_types p ≡ some pts
      → ltb_ℤ now p.start_time ≡ false
      → HasRoomFrom d.attempts
      → Counts d
      → sent p.profile_id (tick env now d).attempts ≡ 1
  unfolding tick
  tick_due now d p pts m valid due room c =
      rw (visit_all_due now d d.profiles p pts m valid due room) at
        (tick-Counts now d c p.profile_id)

  -- After any events, let the settings last handled hold a timed profile with a valid type, let
  -- any ticks follow, whether the channel had room or not, and let the profile be due. The next
  -- tick that finds room in the channel leaves exactly one task of the profile sent.
  pub tick_sends_due :
      (before : List Event) (ps : List Profile) (clocks : List ℤ) (now : ℤ) (p : Profile)
      (pts : List Bytes)
      → Memᴰ p ps
      → extract_profile_types p ≡ some pts
      → ltb_ℤ now p.start_time ≡ false
      → HasRoomFrom (run env new_timed_driver (before ++ handles ps ∷ map ticks clocks)).attempts
      → sent p.profile_id
          (tick env now
            (run env new_timed_driver (before ++ handles ps ∷ map ticks clocks))).attempts
        ≡ 1
  tick_sends_due before ps clocks now p pts m valid due room =
      let es = before ++ handles ps ∷ map ticks clocks in
      tick_due now (run env new_timed_driver es) p pts
        (rw (run_handles-profiles before ps clocks) (Mem-sort_by_start p ps m)) valid due room
        (run-Counts env new_timed_driver es (new-Counts env))
