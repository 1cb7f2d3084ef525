-- ===== src/Backup/Restore/Boot.antt =====
-- The boot-time restore as a whole.
use vaultwarden_hummingbird.Base.{
  ℕ, Bool, true, false, Option, none, some, List, [], ◌∷◌, ◌≡◌, ◌≢◌, refl, Result, ok, err,
  if◌then◌else◌, ◌⊎◌, inl, inr,
}
use vaultwarden_hummingbird.Config.Spec.{DbBackupConfig}
use vaultwarden_hummingbird.Backup.Manifest.{Manifest}
use vaultwarden_hummingbird.Backup.World.{World, ask, ◌>>=◌, pure}
use vaultwarden_hummingbird.Backup.Run.{attempt, Run, Run-pure, Run-bind, Run-if, Run-attempt}
use vaultwarden_hummingbird.Backup.Bucket.{Trouble, load_manifest, list_objects, get_optional_text}
use vaultwarden_hummingbird.Backup.Tick.{is_empty_db}
use vaultwarden_hummingbird.Backup.Tick.Sound.{Objects}
use vaultwarden_hummingbird.Backup.Restore.{
  Candidate, RestoreOutcome, ready, failed, aborted, legacy_candidates, on_loaded, candidates,
  on_candidates, on_empty, try_all, restore_if_empty, stopping,
}
use vaultwarden_hummingbird.Backup.Restore.Offers.{Source, candidates-Source}
use vaultwarden_hummingbird.Backup.Restore.Order.{Empty, Chosen, Outcome, try_all_run, stopping_run}

module _ (opens : List ℕ → Option ℕ) (cfg : DbBackupConfig) (o : Objects) where
  legacy_run : Run (Empty opens o) (legacy_candidates opens cfg) (λ _ w. Empty opens o w)
  unfolding legacy_candidates list_objects ask
  legacy_run = record { at = λ w p. record { same = p.same; empty = p.empty } }

  load_run : Run (Empty opens o) (load_manifest cfg) (λ _ w. Empty opens o w)
  unfolding load_manifest get_optional_text ask
  load_run = record { at = λ w p. record { same = p.same; empty = p.empty } }

  on_loaded_run :
      (r : Result Trouble (Option Manifest))
      → Run (Empty opens o) (on_loaded opens cfg r) (λ _ w. Empty opens o w)
  unfolding on_loaded
  on_loaded_run (ok (some m)) = Run-pure _ (λ w p. p)
  on_loaded_run (ok none) = legacy_run
  on_loaded_run (err e) = legacy_run

  candidates_run : Run (Empty opens o) (candidates opens cfg) (λ _ w. Empty opens o w)
  unfolding candidates
  candidates_run = Run-bind {m = load_manifest cfg} load_run on_loaded_run

module _ (opens : List ℕ → Option ℕ) (cfg : DbBackupConfig) (w : World) where
  -- The world in which the candidates are asked for.
  abbrev asked : World
  asked = (attempt (λ v. v) w).1

  -- The client connects, and `cs` are the candidates of this run.
  pub record Offered (cs : List Candidate) : Type 0 where
    pub connected : (attempt (λ v. v) w).0 ≡ true
    pub source : Source opens cfg asked cs

  -- Why the restore may leave the database empty and still let the boot go on.
  pub data Idle : Type 0 where
    switched_off : cfg.restore ≡ false → Idle
    unconnected : (attempt (λ v. v) w).0 ≡ false → Idle
    no_candidate : Offered [] → Idle

  -- The restore's three outcomes.
  abbrev pub Booted : RestoreOutcome → World → Type 0
  Booted ready v =
      (Idle × Empty opens w.objects v)
      ⊎ ((cs : List Candidate) × Offered cs × Chosen opens w.objects cs v)
  Booted failed v = Empty opens w.objects v
  Booted aborted v = Empty opens w.objects v

  Booted-Outcome :
      (cs : List Candidate) (r : RestoreOutcome) (v : World)
      → Offered cs
      → Outcome opens w.objects cs r v
      → Booted r v
  Booted-Outcome cs ready v f h = inr (cs, f, h)
  Booted-Outcome cs failed v f h = h
  Booted-Outcome cs aborted v f h = h

  on_candidates-Booted :
      (r : Result Trouble (List Candidate)) (v : World)
      → (attempt (λ v. v) w).0 ≡ true
      → (candidates opens cfg asked).0 ≡ r
      → Empty opens w.objects v
      → Booted (on_candidates opens r v).0 (on_candidates opens r v).1
  unfolding on_candidates
  on_candidates-Booted (ok []) v c e p =
      inl (no_candidate (record { connected = c; source = candidates-Source opens cfg asked e }), p)
  on_candidates-Booted (ok (x ∷ cs)) v c e p =
      let m = try_all opens (x ∷ cs) in
      Booted-Outcome (x ∷ cs) (m v).0 (m v).1
        (record { connected = c; source = candidates-Source opens cfg asked e })
        ((try_all_run opens w.objects (x ∷ cs)).at v p)
  on_candidates-Booted (err t) v c e p =
      (Run-bind {R = Booted} {m = stopping} (stopping_run opens w.objects)
          (λ stop. Run-if stop (Run-pure aborted (λ v p. p)) (Run-pure failed (λ v p. p)))).at
        v p

  on_empty-Booted :
      Empty opens w.objects w
      → Booted (on_empty opens cfg (some true) w).0 (on_empty opens cfg (some true) w).1
  unfolding on_empty
  on_empty-Booted p = go (attempt (λ v. v) w).0 refl
    where
      there : Empty opens w.objects asked
      there =
          (Run-attempt (Empty opens w.objects) (λ _ v. Empty opens w.objects v) (λ v. v)
              (λ v l p. record { same = p.same; empty = p.empty }) (λ v p. p) (λ v p. p)).at
            w p

      go :
          (b : Bool)
          → (attempt (λ v. v) w).0 ≡ b
          → (let r : RestoreOutcome × World =
                (if b then (candidates opens cfg >>= λ cs. on_candidates opens cs) else pure ready)
                  asked in
              Booted r.0 r.1)
      go false c = inl (unconnected c, there)
      go true c =
          on_candidates-Booted (candidates opens cfg asked).0 (candidates opens cfg asked).1 c refl
            ((candidates_run opens cfg w.objects).at asked there)

-- A database that is not provably empty survives the boot-time restore as it is, whatever the
-- bucket answers.
pub restore_if_empty-live :
    (opens : List ℕ → Option ℕ) (cfg : DbBackupConfig) (w : World)
    → is_empty_db w.live ≢ some true
    → (restore_if_empty opens cfg w).1.live ≡ w.live
unfolding restore_if_empty
restore_if_empty-live opens cfg w h = go cfg.restore (is_empty_db w.live) refl
  where
    go :
        (b : Bool) (e : Option Bool)
        → is_empty_db w.live ≡ e
        → ((if b then on_empty opens cfg e w else (ready, w))).1.live ≡ w.live
    go false e f = refl
    go true none f = unfold on_empty in refl
    go true (some false) f = unfold on_empty in refl
    go true (some true) f = absurd (h f)

-- With an empty database, the restore reports failure or an abort only with the database still
-- empty. It lets the boot go on with the database still empty only if it is switched off, does not
-- connect or has no candidate, and otherwise with the first candidate that opens, behind others that
-- were all downloaded in full and are no databases. The candidates are the entries of the stored
-- manifest, in descending generations, or, only where this run cannot read one, the listed dumps, the
-- last name first.
pub restore_if_empty-Booted :
    (opens : List ℕ → Option ℕ) (cfg : DbBackupConfig) (w : World)
    → is_empty_db w.live ≡ some true
    → Booted opens cfg w (restore_if_empty opens cfg w).0 (restore_if_empty opens cfg w).1
unfolding restore_if_empty
restore_if_empty-Booted opens cfg w h = go cfg.restore refl
  where
    start : Empty opens w.objects w
    start = record { same = refl; empty = h }

    go :
        (b : Bool)
        → cfg.restore ≡ b
        → (let r : RestoreOutcome × World =
              if b then on_empty opens cfg (is_empty_db w.live) w else (ready, w) in
            Booted opens cfg w r.0 r.1)
    go false e = inl (switched_off e, start)
    go true e = rw h (on_empty-Booted opens cfg w start)
