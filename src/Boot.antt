-- ===== src/Boot.antt =====
-- supervisor/src/boot.rs: the boot as a machine of phases. The calls that a phase makes are modelled
-- by what they return, `Surroundings`, and by the log of the calls that were made.
pub mod Started
mod Tests
use vaultwarden_hummingbird.Base.{
  ℕ, Bool, true, false, not, Option, none, some, List, [], ◌∷◌, ◌++◌, ◌≡◌, if◌then◌else◌,
}
use vaultwarden_hummingbird.Text.{Str}
use vaultwarden_hummingbird.Config.Spec.{SyncConfig, DbBackupConfig}
use vaultwarden_hummingbird.Config.Merge.{Config}
use vaultwarden_hummingbird.Backup.Restore.{RestoreOutcome, ready, failed, aborted}

pub data Outcome : Type 0 where
  next : Outcome
  exit : ℕ → Outcome

pub data Phase : Type 0 where
  adopt_lineage restore_db restore_state tailscaled daemon_wait tailscale_up serve : Phase

abbrev pub phases : List Phase
phases =
    adopt_lineage ∷ restore_db ∷ restore_state ∷ tailscaled ∷ daemon_wait ∷ tailscale_up ∷ serve
    ∷ []

pub data Call : Type 0 where
  adopts restores_db restores_state spawns waits joins pushes serves : Call

-- `take_stop()` is looked at at most once in a phase.
pub record Surroundings : Type 0 where
  pub stop : Phase → Bool
  pub restored : RestoreOutcome
  pub spawned : Bool
  pub daemon_up : Bool
  pub node_up : Bool
  pub serving : Bool

-- Whether tailscaled has been spawned, and the calls so far.
pub record Boot : Type 0 where
  pub tsd : Bool
  pub calls : List Call

abbrev call : Call → Boot → Boot
call c b = record b { calls = b.calls ++ c ∷ [] }

abbrev call_if {ℓ} : {A : Type ℓ} → Option A → Call → Boot → Boot
call_if none c b = b
call_if (some a) c b = call c b

abbrev stopped_or : Bool → Boot → Outcome × Boot
stopped_or true b = (exit 0, b)
stopped_or false b = (exit 1, b)

unfoldable pub on_restored : RestoreOutcome → Boot → Outcome × Boot
on_restored ready b = (next, b)
on_restored failed b = (exit 1, b)
on_restored aborted b = (exit 0, b)

unfoldable pub run_restore_db : Option DbBackupConfig → RestoreOutcome → Boot → Outcome × Boot
unfolding on_restored
run_restore_db none r b = (next, b)
run_restore_db (some backup) r b = on_restored r (call restores_db b)

-- By the stop request and by whether the daemon was spawned.
unfoldable pub run_tailscaled : Bool → Bool → Boot → Outcome × Boot
run_tailscaled true spawned b = (exit 0, b)
run_tailscaled false true b = (next, record (call spawns b) { tsd = true })
run_tailscaled false false b = (exit 1, call spawns b)

unfoldable pub run_daemon_wait : Bool → Bool → Boot → Outcome × Boot
run_daemon_wait true stop b = (next, call waits b)
run_daemon_wait false stop b = stopped_or stop (call waits b)

unfoldable pub run_tailscale_up : Bool → Bool → Option SyncConfig → Boot → Outcome × Boot
run_tailscale_up true stop sync b = (next, call_if sync pushes (call joins b))
run_tailscale_up false stop sync b = stopped_or stop (call joins b)

-- By the configuration, the vault's port and the result of `tailscale serve`.
unfoldable pub run_serve : Bool → Option Str → Bool → Bool → Boot → Outcome × Boot
run_serve false port serving stop b = (next, b)
run_serve true none serving stop b = (exit 1, b)
run_serve true (some port) true stop b = (next, call serves b)
run_serve true (some port) false stop b = stopped_or stop (call serves b)

unfoldable pub run : Config → Surroundings → Phase → Boot → Outcome × Boot
unfolding run_restore_db run_tailscaled run_daemon_wait run_tailscale_up run_serve
run cfg s adopt_lineage b = (next, call_if cfg.backup adopts b)
run cfg s restore_db b = run_restore_db cfg.backup s.restored b
run cfg s restore_state b = (next, call_if cfg.sync restores_state b)
run cfg s tailscaled b = run_tailscaled (s.stop tailscaled) s.spawned b
run cfg s daemon_wait b = run_daemon_wait s.daemon_up (s.stop daemon_wait) b
run cfg s tailscale_up b = run_tailscale_up s.node_up (s.stop tailscale_up) cfg.sync b
run cfg s serve b = run_serve cfg.serve cfg.vault_port s.serving (s.stop serve) b

-- The container's end, with the exit code, or the vault's start.
pub data BootResult : Type 0 where
  exited : ℕ → Boot → BootResult
  started : Boot → BootResult

abbrev pub on_outcome : (Boot → BootResult) → Outcome × Boot → BootResult
on_outcome go (next, b) = go b
on_outcome go (exit code, b) = exited code b

unfoldable pub run_phases : Config → Surroundings → List Phase → Boot → BootResult
unfolding run
run_phases cfg s [] b = started b
run_phases cfg s (p ∷ ps) b = on_outcome (run_phases cfg s ps) (run cfg s p b)

unfoldable pub boot : Config → Surroundings → BootResult
unfolding run_phases
boot cfg s = run_phases cfg s phases (record { tsd = false; calls = [] })
