-- ===== src/Boot/Started.antt =====
-- When the boot reaches the vault, and how it ends otherwise.
use vaultwarden_hummingbird.Base.{
  ℕ, Bool, true, false, not, ◌&&◌, ◌||◌, Option, none, some, List, [], ◌∷◌, ◌++◌, ◌≡◌, refl, sym,
  ap, ◌∙◌, subst, arith, All, any, if◌then◌else◌, append_assoc, append-nil, inl, inr, Bool-cases,
}
use vaultwarden_hummingbird.Text.{Str}
use vaultwarden_hummingbird.Config.Spec.{SyncConfig, DbBackupConfig}
use vaultwarden_hummingbird.Config.Merge.{Config}
use vaultwarden_hummingbird.Backup.Restore.{RestoreOutcome, ready, failed, aborted}
use vaultwarden_hummingbird.Boot.{
  Call, adopts, restores_db, restores_state, spawns, waits, joins, pushes, serves, call_if, Outcome,
  next, exit, Phase, adopt_lineage, restore_db, restore_state, tailscaled, daemon_wait,
  tailscale_up, serve, Surroundings, Boot, run, run_restore_db, on_restored, run_tailscaled,
  run_daemon_wait, run_tailscale_up, run_serve, BootResult, exited, started, on_outcome, run_phases,
  boot,
}

abbrev is_tailscaled : Phase → Bool
is_tailscaled tailscaled = true
is_tailscaled _ = false

-- What a phase needs in order to go on, by itself.
abbrev restore_passes : Option DbBackupConfig → RestoreOutcome → Bool
restore_passes none r = true
restore_passes (some b) ready = true
restore_passes (some b) failed = false
restore_passes (some b) aborted = false

abbrev restore_code : RestoreOutcome → ℕ
restore_code aborted = 0
restore_code _ = 1

abbrev serve_passes : Bool → Option Str → Bool → Bool
serve_passes false port serving = true
serve_passes true none serving = false
serve_passes true (some p) serving = serving

abbrev stop_code : Bool → ℕ
stop_code true = 0
stop_code false = 1

abbrev serve_code : Option Str → Bool → ℕ
serve_code none stop = 1
serve_code (some p) stop = stop_code stop

abbrev if_some : {A : Type 0} → Option A → Call → List Call
if_some none c = []
if_some (some a) c = c ∷ []

abbrev serve_calls : Bool → Option Str → List Call
serve_calls true (some p) = serves ∷ []
serve_calls _ _ = []

-- A phase has made its calls, and goes on or exits; the handle is made only if it goes on.
abbrev leaves : Bool → Bool → ℕ → List Call → Boot → Outcome × Boot
leaves pass makes code made b = (
  (if pass then next else exit code),
  record { tsd = (pass && makes) || b.tsd; calls = b.calls ++ made },
)

no_call : (b : Boot) → b ≡ record { tsd = b.tsd; calls = b.calls ++ [] }
no_call b = ap (λ c. record b { calls = c }) (sym (append-nil b.calls))

restore_leaves :
    (o : Option DbBackupConfig) (r : RestoreOutcome) (b : Boot)
    → run_restore_db o r b
      ≡ leaves (restore_passes o r) false (restore_code r) (if_some o restores_db) b
unfolding run_restore_db on_restored
restore_leaves none r b = ap (λ x. (next, x)) (no_call b)
restore_leaves (some c) ready b = refl
restore_leaves (some c) failed b = refl
restore_leaves (some c) aborted b = refl

call_if-leaves :
    {A : Type 0} (o : Option A) (c : Call) (b : Boot)
    → (next, call_if o c b) ≡ leaves true false 1 (if_some o c) b
call_if-leaves none c b = ap (λ x. (next, x)) (no_call b)
call_if-leaves (some a) c b = refl

tailscaled_leaves :
    (stop spawned : Bool) (b : Boot)
    → run_tailscaled stop spawned b
      ≡ leaves (not stop && spawned) true (stop_code stop) (if stop then [] else spawns ∷ []) b
unfolding run_tailscaled
tailscaled_leaves true spawned b = ap (λ x. (exit 0, x)) (no_call b)
tailscaled_leaves false true b = refl
tailscaled_leaves false false b = refl

daemon_wait_leaves :
    (up stop : Bool) (b : Boot)
    → run_daemon_wait up stop b ≡ leaves up false (stop_code stop) (waits ∷ []) b
unfolding run_daemon_wait
daemon_wait_leaves true stop b = refl
daemon_wait_leaves false true b = refl
daemon_wait_leaves false false b = refl

tailscale_up_leaves :
    (up stop : Bool) (sync : Option SyncConfig) (b : Boot)
    → run_tailscale_up up stop sync b
      ≡ leaves up false (stop_code stop) (joins ∷ (if up then if_some sync pushes else [])) b
unfolding run_tailscale_up
tailscale_up_leaves true stop none b = refl
tailscale_up_leaves true stop (some c) b =
    ap (λ x. (next, record b { calls = x })) (append_assoc b.calls (joins ∷ []) (pushes ∷ []))
tailscale_up_leaves false true sync b = refl
tailscale_up_leaves false false sync b = refl

serve_leaves :
    (on : Bool) (port : Option Str) (serving stop : Bool) (b : Boot)
    → run_serve on port serving stop b
      ≡ leaves (serve_passes on port serving) false (serve_code port stop) (serve_calls on port) b
unfolding run_serve
serve_leaves false port serving stop b = ap (λ x. (next, x)) (no_call b)
serve_leaves true none serving stop b = ap (λ x. (exit 1, x)) (no_call b)
serve_leaves true (some p) true stop b = refl
serve_leaves true (some p) false true b = refl
serve_leaves true (some p) false false b = refl

module _ (cfg : Config) (s : Surroundings) where
  -- The policy table: what lets each phase pass.
  abbrev pub passes : Phase → Bool
  passes adopt_lineage = true
  passes restore_db = restore_passes cfg.backup s.restored
  passes restore_state = true
  passes tailscaled = not (s.stop tailscaled) && s.spawned
  passes daemon_wait = s.daemon_up
  passes tailscale_up = s.node_up
  passes serve = serve_passes cfg.serve cfg.vault_port s.serving

  -- The exit code of each phase that does not pass: 0 for a clean abort, otherwise 1.
  abbrev pub code : Phase → ℕ
  code restore_db = restore_code s.restored
  code serve = serve_code cfg.vault_port (s.stop serve)
  code p = stop_code (s.stop p)

  -- The calls that each phase makes.
  abbrev pub made : Phase → List Call
  made adopt_lineage = if_some cfg.backup adopts
  made restore_db = if_some cfg.backup restores_db
  made restore_state = if_some cfg.sync restores_state
  made tailscaled = if s.stop tailscaled then [] else spawns ∷ []
  made daemon_wait = waits ∷ []
  made tailscale_up = joins ∷ (if s.node_up then if_some cfg.sync pushes else [])
  made serve = serve_calls cfg.serve cfg.vault_port

  run-leaves :
      (p : Phase) (b : Boot)
      → run cfg s p b ≡ leaves (passes p) (is_tailscaled p) (code p) (made p) b
  unfolding run
  run-leaves adopt_lineage b = call_if-leaves cfg.backup adopts b
  run-leaves restore_db b = restore_leaves cfg.backup s.restored b
  run-leaves restore_state b = call_if-leaves cfg.sync restores_state b
  run-leaves tailscaled b = tailscaled_leaves (s.stop tailscaled) s.spawned b
  run-leaves daemon_wait b = daemon_wait_leaves s.daemon_up (s.stop daemon_wait) b
  run-leaves tailscale_up b = tailscale_up_leaves s.node_up (s.stop tailscale_up) cfg.sync b
  run-leaves serve b = serve_leaves cfg.serve cfg.vault_port s.serving (s.stop serve) b

  -- The calls of the phases that pass, and then those of the rest.
  abbrev pub made_by : List Phase → List Call
  made_by [] = []
  made_by (p ∷ ps) = made p ++ made_by ps

  -- How the phases end: with the vault, where all of them pass; otherwise with the first one that
  -- does not, and with its exit code. Behind `b`, the calls are those of the phases up to there, and
  -- the daemon's handle is there if the daemon's phase has passed.
  pub data Ends (ps : List Phase) (b : Boot) : BootResult → Type 0 where
    vault :
        (b' : Boot)
        → All (λ p. passes p ≡ true) ps
        → b'.tsd ≡ (any is_tailscaled ps || b.tsd)
        → b'.calls ≡ b.calls ++ made_by ps
        → Ends ps b (started b')
    stopped :
        (b' : Boot) (before : List Phase) (p : Phase) (after : List Phase)
        → ps ≡ before ++ p ∷ after
        → All (λ p. passes p ≡ true) before
        → passes p ≡ false
        → b'.tsd ≡ (any is_tailscaled before || b.tsd)
        → b'.calls ≡ b.calls ++ (made_by before ++ made p)
        → Ends ps b (exited (code p) b')

  Ends-cons :
      (p : Phase) (ps : List Phase) (b : Boot) (r : BootResult)
      → passes p ≡ true
      → Ends ps (record { tsd = is_tailscaled p || b.tsd; calls = b.calls ++ made p }) r
      → Ends (p ∷ ps) b r
  Ends-cons p ps b _ h (vault v a t c) =
      vault v (h, a) (ground (arith, t)) (c ∙ append_assoc b.calls (made p) (made_by ps))
  Ends-cons p ps b _ h (stopped v before q after e a n t c) =
      stopped v (p ∷ before) q after (ap (λ x. p ∷ x) e) (h, a) n (ground (arith, t))
        (c ∙ joined before q)
    where
      joined :
          (before : List Phase) (q : Phase)
          → (b.calls ++ made p) ++ (made_by before ++ made q)
            ≡ b.calls ++ ((made p ++ made_by before) ++ made q)
      joined before q =
          append_assoc b.calls (made p) (made_by before ++ made q)
          ∙ ap (λ x. b.calls ++ x) (sym (append_assoc (made p) (made_by before) (made q)))

  run_phases-Ends : (ps : List Phase) (b : Boot) → Ends ps b (run_phases cfg s ps b)
  unfolding run_phases
  run_phases-Ends [] b = vault b tt refl (sym (append-nil b.calls))
  run_phases-Ends (p ∷ ps) b =
      subst (λ r. Ends (p ∷ ps) b (on_outcome (run_phases cfg s ps) r)) (sym (run-leaves p b))
        (elim (Bool-cases (passes p)) [
          | inl e ↦ rw e (
              Ends-cons p ps b _ e (
                run_phases-Ends ps
                  (record { tsd = is_tailscaled p || b.tsd; calls = b.calls ++ made p })))
          | inr e ↦ rw e (stopped _ [] p ps refl tt e refl refl)
        ])

-- The boot goes through its seven phases in this order. It starts the vault exactly where every one
-- passes, with tailscaled's handle; otherwise it exits in the first one that does not pass, with the
-- code 0 where a stop request is seen in it or the restore was aborted, and the code 1 otherwise. In
-- both cases the calls made are those of the phases up to there, in their order.
pub boot-Ends :
    (cfg : Config) (s : Surroundings)
    → Ends cfg s
        (adopt_lineage ∷ restore_db ∷ restore_state ∷ tailscaled ∷ daemon_wait ∷ tailscale_up
          ∷ serve ∷ [])
        (record { tsd = false; calls = [] })
        (boot cfg s)
unfolding boot
boot-Ends cfg s = run_phases-Ends cfg s _ (record { tsd = false; calls = [] })
