-- ===== src/Maintenance/Tests.antt =====
-- A concrete schedule.
use vaultwarden_hummingbird.Base.{true, false, some, List, [], ◌∷◌, ◌≡◌, ◌+◌, refl, arith}
use vaultwarden_hummingbird.Text.{codes}
use vaultwarden_hummingbird.Maintenance.{Task, Turn, first_due, next_due, visit, runs}
use vaultwarden_hummingbird.Maintenance.Spaced.{Forward, Spaced, runs-Spaced}

abbrev state_sync : Task
state_sync = record { name = codes "state sync"; first_delay = 5; cadence = some 10 }

abbrev rounds : List Turn
rounds =
    record { now = 4; clock = 4; stopping = false }
    ∷ record { now = 6; clock = 7; stopping = false }
    ∷ record { now = 12; clock = 12; stopping = false }
    ∷ record { now = 17; clock = 18; stopping = false }
    ∷ record { now = 29; clock = 29; stopping = true }
    ∷ []

ran :
    runs 1000 state_sync (first_due 1000 state_sync 0) rounds
    ≡ record { now = 6; clock = 7; stopping = false }
      ∷ record { now = 17; clock = 18; stopping = false }
      ∷ []
unfolding runs visit next_due first_due
ran = refl

rounds-Forward : Forward 0 rounds
rounds-Forward = (
  omega arith,
  omega arith,
  (
    omega arith,
    omega arith,
    (omega arith, omega arith, (omega arith, omega arith, (omega arith, omega arith, tt))),
  ),
)

runs-Spaced_example : Spaced 10 (0 + 5) (runs 1000 state_sync (first_due 1000 state_sync 0) rounds)
runs-Spaced_example = runs-Spaced 1000 0 10 state_sync rounds refl rounds-Forward
