-- ===== src/Register/Requests.antt =====
-- The requests of a register that runs.
use apminsight_server_sdk_go.Prelude.{
  ℕ, suc, ◌<◌, ◌≡◌, refl, false, List, [], ◌∷◌, some, replicate, ◌==◌, if◌then◌else◌, arith,
}
use apminsight_server_sdk_go.Register.Info.{Host, CacheRegisterInfo, get_info}
use apminsight_server_sdk_go.Register.{
  Process, Register, query, Attempt, requested, no_info, no_request, register, Event, tick, stop,
  select_loop, run_loop,
}

module _ (p : Process) (r : Register) where
  -- The ticks before the first stop.
  abbrev pub tick_count : List (Event p r) → ℕ
  tick_count [] = 0
  tick_count (tick host ∷ events) = suc (tick_count events)
  tick_count (stop ∷ events) = 0

  abbrev pub attempt_of : CacheRegisterInfo → Attempt
  attempt_of c =
      if c.err
      then no_info
      else if p.accepts r.url
      then requested (query p r c.info)
      else no_request

  register-cached :
      (host : Host) (c : CacheRegisterInfo)
      → 0 < c.info.pid
      → register p r host c ≡ some (c, attempt_of c)
  unfolding register get_info
  register-cached host c h = let full : (c.info.pid == 0) ≡ false = ground arith in rw full refl

  select_loop-cached :
      (events : List (Event p r)) (c : CacheRegisterInfo)
      → 0 < c.info.pid
      → select_loop p r events c ≡ some (replicate (tick_count events) (attempt_of c))
  unfolding select_loop
  select_loop-cached [] c h = refl
  select_loop-cached (stop ∷ events) c h = refl
  select_loop-cached (tick host ∷ events) c h =
      rw (select_loop, register-cached host c h, select_loop-cached events c h) refl

  -- What the first GetInfo finds decides on every attempt of the loop, the one at the start and one
  -- for each tick before the stop: if it failed, with a pid, none of them makes a request, whatever
  -- the system would say later; otherwise none does if http.NewRequest refuses the url of the
  -- register, and all of them send the same if it does not. The pid is not 0.
  pub run_loop-repeats :
      (host : Host) (events : List (Event p r)) (cache c : CacheRegisterInfo)
      → get_info host cache ≡ some c
      → 0 < c.info.pid
      → run_loop p r host events cache ≡ some (replicate (suc (tick_count events)) (attempt_of c))
  unfolding run_loop
  run_loop-repeats host events cache c found h =
      let register-found : register p r host cache ≡ some (c, attempt_of c) =
        unfold register in rw found refl in
      rw (run_loop, register-found, select_loop-cached events c h) refl
