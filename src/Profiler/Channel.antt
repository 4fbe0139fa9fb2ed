-- ===== src/Profiler/Channel.antt =====
-- The channel of tasks that the drivers share, and the random ids, as the drivers see them.
use apminsight_server_sdk_go.Prelude.{ℕ, suc, Bool, ◌&&◌, List, [], ◌∷◌, Bytes, if◌then◌else◌}
use apminsight_server_sdk_go.Prelude.Int.{ℤ, eqb_ℤ}
use apminsight_server_sdk_go.Profiler.Task.{Task}

-- A task that was offered to the channel, and whether the channel took it.
pub record Attempt : Type 0 where
  pub task : Task
  pub taken : Bool

-- Whether a send that does not block succeeds, and the id that uuid makes, both after the attempts
-- so far, the latest first.
pub record Env : Type 0 where
  pub takes : List Attempt → Task → Bool
  pub new_rand_id : List Attempt → Bytes

-- How many tasks of a profile the channel took, and how many were offered.
abbrev pub sent : ℤ → List Attempt → ℕ
sent id [] = 0
sent id (a ∷ as') = if a.taken && eqb_ℤ id a.task.profile_id then suc (sent id as') else sent id as'

abbrev pub offered : ℤ → List Attempt → ℕ
offered id [] = 0
offered id (a ∷ as') = if eqb_ℤ id a.task.profile_id then suc (offered id as') else offered id as'
