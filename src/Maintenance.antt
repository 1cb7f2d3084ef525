-- ===== src/Maintenance.antt =====
-- supervisor/src/runtime/maintenance.rs: the schedule of the periodic tasks. Times
-- are those of the monotonic clock, `limit` being the last one that an `Instant` can hold. What a
-- task does in a run is left to Backup and Sync.
pub mod Spaced
mod Tests
use vaultwarden_hummingbird.Base.{
  ℕ, ◌+◌, Bool, true, false, not, ◌&&◌, Option, none, some, List, [], ◌∷◌, leb, if◌then◌else◌,
}
use vaultwarden_hummingbird.Text.{Str}

pub record Task : Type 0 where
  pub name : Str
  pub first_delay : ℕ
  pub cadence : Option ℕ

-- `Instant::checked_add`.
abbrev pub checked_add : ℕ → ℕ → ℕ → Option ℕ
checked_add limit at delay = if leb (at + delay) limit then some (at + delay) else none

unfoldable pub next_due : ℕ → Option ℕ → ℕ → Option ℕ
next_due limit none at = none
next_due limit (some cadence) at = checked_add limit at cadence

abbrev pub first_of : ℕ → Option ℕ → ℕ → ℕ → Option ℕ
first_of limit none delay at = none
first_of limit (some cadence) delay at = checked_add limit at delay

unfoldable pub first_due : ℕ → Task → ℕ → Option ℕ
first_due limit task at = first_of limit task.cadence task.first_delay at

abbrev pub is_due : Option ℕ → ℕ → Bool
is_due none now = false
is_due (some at) now = leb at now

-- What a task meets in one round: the round's time, the clock when its turn comes, and whether a stop
-- request is seen then.
pub record Turn : Type 0 where
  pub now : ℕ
  pub clock : ℕ
  pub stopping : Bool

-- One task in one round: when it is due next, and whether it runs.
unfoldable pub visit : ℕ → Task → Option ℕ → Turn → Option ℕ × Bool
unfolding next_due
visit limit task due turn =
    if is_due due turn.now
    then (next_due limit task.cadence turn.clock, not turn.stopping)
    else (due, false)

-- A task through all rounds: the turns at which it runs.
unfoldable pub runs : ℕ → Task → Option ℕ → List Turn → List Turn
unfolding visit
runs limit task due [] = []
runs limit task due (turn ∷ turns) =
    let v = visit limit task due turn in
    let rest = runs limit task v.0 turns in if v.1 then turn ∷ rest else rest
