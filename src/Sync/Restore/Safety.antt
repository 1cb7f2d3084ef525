-- ===== src/Sync/Restore/Safety.antt =====
-- What a pull leaves on the volume, whatever is answered.
use vaultwarden_hummingbird.Base.{
  ℕ, ◌+◌, Bool, true, false, not, ◌&&◌, ◌||◌, Option, none, some, List, [], ◌∷◌, ◌≡◌, refl, sym,
  subst, arith, if◌then◌else◌, All, inl, inr, Bool-cases, Option-cases,
}
use vaultwarden_hummingbird.Text.Order.{str_lt-asym}
use vaultwarden_hummingbird.Text.{
  Str, codes, str_eq, str_eq_iff, str_lt, ends_with, starts_with, strip_prefix,
}
use vaultwarden_hummingbird.BTree.{BTreeMap, get, remove, get-remove}
use vaultwarden_hummingbird.Config.Spec.{SyncConfig, sync_prefix}
use vaultwarden_hummingbird.Backup.World.{Object, Answer}
use vaultwarden_hummingbird.Sync.Manifest.{Entry, Manifest}
use vaultwarden_hummingbird.Sync.Manifest.Format.{Ascending, IsValid}
use vaultwarden_hummingbird.Sync.Synced.{is_synced_file}
use vaultwarden_hummingbird.Sync.World.{File, World, ◌>>=◌, pure}
use vaultwarden_hummingbird.Sync.Run.{
  Run, Run-pure, Run-bind, Run-if, Run-request, Run-read, Run-stopping,
}
use vaultwarden_hummingbird.Sync.Client.{Listed, exists, list, listing}
use vaultwarden_hummingbird.Sync.Pull.{
  Target, Tally, fault, is_partial, clear, targets_of, legacy_target, listed_targets, pull_missing,
  pull_absent, pull_target, pull_targets, create_parent, download,
}
use vaultwarden_hummingbird.Sync.Pull.Fill.{
  create_parent_run, exists_get, Filled, Filled-stable, Gap, From, entry, listed, download_run,
}
use vaultwarden_hummingbird.Sync.Recover.Safety.{reconcile_objects_run}
use vaultwarden_hummingbird.Sync.Recover.{reconcile_objects}
use vaultwarden_hummingbird.Sync.Restore.{finish_pull, pull_from, pull_listed, pull_with}

-- Each row of a map in order is found by its key.
behind_row :
    (k : Str) (e : Entry) (m rows : BTreeMap Entry)
    → All (λ r. str_lt k r.0 ≡ true) rows
    → All (λ r. get r.0 m ≡ some r.1) rows
    → All (λ r. get r.0 ((k, e) ∷ m) ≡ some r.1) rows
unfolding get
behind_row k e m [] h g = tt
behind_row k e m (r ∷ rows) h g =
    (rw ((str_lt-asym k r.0 h.0).0) g.0, behind_row k e m rows h.1 g.1)

get-rows : (m : BTreeMap Entry) → Ascending m → All (λ r. get r.0 m ≡ some r.1) m
get-rows [] a = tt
get-rows ((k, e) ∷ m) a =
    (unfold get in rw ((str_eq_iff k k).1 refl) refl, behind_row k e m m a.0 (get-rows m a.1))

module _ (digest : List ℕ → List ℕ) (cfg : SyncConfig) (loaded : Option Manifest)
    (objects : BTreeMap Object) (files : BTreeMap File) where
  abbrev Fill : World → Type 0
  Fill = Filled digest cfg loaded objects files

  abbrev Source : Target → Type 0
  Source = From digest cfg loaded objects files

  stable : (w : World) (l : List Answer) → Fill w → Fill (record w { answers = l })
  stable = Filled-stable digest cfg loaded objects files

  pull_absent_run :
      (t : Target) (n : Tally) (here : Bool)
      → is_synced_file t.rel cfg.state_file ≡ true
      → Source t
      → Run
          (λ w. Fill w × (exists t.rel w.files ≡ here))
          (pull_absent digest cfg t n here)
          (λ _ w. Fill w)
  unfolding pull_absent pull_missing
  pull_absent_run t n true synced from = Run-pure _ (λ w p. p.0)
  pull_absent_run t n false synced from = record {
    at = λ w p.
        (Run-bind {P = Gap digest cfg loaded objects files t.rel} {R = λ _ v. Fill v}
            {m = create_parent} (create_parent_run digest cfg loaded objects files t.rel)
            (λ created.
              Run-if (not created) {m = pure (fault n)}
                {n = download digest cfg t >>= λ done.
                  pure (if done then record n { pulled = n.pulled + 1 } else fault n)}
                (λ _. Run-pure (fault n) (λ w p. p.0))
                (λ _.
                  Run-bind {m = download digest cfg t}
                    (download_run digest cfg loaded objects files t synced from)
                    (λ done.
                      Run-pure (if done then record n { pulled = n.pulled + 1 } else fault n)
                        (λ w p. p))))).at
          w (p.0, exists_get t.rel w.files p.1);
  }

  pull_target_run :
      (t : Target) (n : Tally) → Source t → Run Fill (pull_target digest cfg t n) (λ _ w. Fill w)
  unfolding pull_target
  pull_target_run t n from = elim (Bool-cases (is_synced_file t.rel cfg.state_file)) [
    | inl e ↦
        rw e (record {
          at = λ w p. (pull_absent_run t n (exists t.rel w.files) e from).at w (p, refl);
        })
    | inr e ↦ rw e (Run-pure (fault n) (λ w p. p))
  ]

  pull_targets_run :
      (ts : List Target) (n : Tally)
      → All Source ts
      → Run Fill (pull_targets digest cfg ts n) (λ _ w. Fill w)
  unfolding pull_targets
  pull_targets_run [] n from = Run-pure (some n) (λ w p. p)
  pull_targets_run (t ∷ ts) n from = Run-bind (Run-stopping Fill stable) (λ stop.
      Run-if stop {m = pure none}
        {n = pull_target digest cfg t n >>= λ n'. pull_targets digest cfg ts n'}
        (λ _. Run-pure none (λ w p. p))
        (λ _.
          Run-bind {m = pull_target digest cfg t n} (pull_target_run t n from.0)
            (λ n'. pull_targets_run ts n' from.1)))

  finish_pull_run :
      (m : Option Manifest) (n : Option Tally)
      → Run Fill (finish_pull digest cfg m n) (λ _ w. Fill w)
  unfolding finish_pull
  finish_pull_run m none = Run-pure true (λ w p. p)
  finish_pull_run m (some n) =
      Run-bind {m = reconcile_objects digest cfg m}
        (reconcile_objects_run digest cfg loaded objects files m) (λ _. Run-pure n.ok (λ w p. p))

  pull_from_run :
      (m : Option Manifest) (ts : List Target)
      → All Source ts
      → Run Fill (pull_from digest cfg m ts) (λ _ w. Fill w)
  unfolding pull_from
  pull_from_run m ts from =
      Run-bind {m = pull_targets digest cfg ts (record { ok = true; pulled = 0; kept = 0 })}
        (pull_targets_run ts (record { ok = true; pulled = 0; kept = 0 }) from)
        (λ n. finish_pull_run m n)

  legacy_target-From :
      (rel : Option Str) (size : ℕ) (ts : List Target)
      → loaded ≡ none
      → All Source ts
      → All Source (legacy_target rel size ts)
  legacy_target-From none size ts e h = h
  legacy_target-From (some rel) size ts e h =
      elim (Bool-cases (str_eq rel (codes "manifest") || starts_with (codes "objects/") rel)) [
        | inl c ↦ rw c h
        | inr c ↦ rw c (listed e refl, h)
      ]

  listed_targets-From : (l : List Listed) → loaded ≡ none → All Source (listed_targets cfg l)
  unfolding listed_targets
  listed_targets-From [] e = tt
  listed_targets-From (item ∷ l) e =
      legacy_target-From (strip_prefix (sync_prefix cfg) item.key) item.size (listed_targets cfg l)
        e (listed_targets-From l e)

  pull_listed_run :
      (found : Option (List Listed))
      → loaded ≡ none
      → Run Fill (pull_listed digest cfg found) (λ _ w. Fill w)
  unfolding pull_listed
  pull_listed_run none e = Run-pure false (λ w p. p)
  pull_listed_run (some l) e = pull_from_run none (listed_targets cfg l) (listed_targets-From l e)

  targets_of-From :
      (m : Manifest) (rows : BTreeMap Entry)
      → loaded ≡ some m
      → All (λ r. get r.0 m.entries ≡ some r.1) rows
      → All Source (targets_of rows)
  unfolding targets_of
  targets_of-From m [] l h = tt
  targets_of-From m ((rel, e) ∷ rows) l h =
      (entry m e l h.0 refl refl, targets_of-From m rows l h.1)

  pub pull_with_run :
      ((m : Manifest) → loaded ≡ some m → IsValid m)
      → Run Fill (pull_with digest cfg loaded) (λ _ w. Fill w)
  pull_with_run v = elim (Option-cases loaded) [
    | inl e ↦ subst (λ x. Run Fill (pull_with digest cfg x) (λ _ w. Fill w)) (sym e) (none_run e)
    | inr (m, e) ↦
        subst (λ x. Run Fill (pull_with digest cfg x) (λ _ w. Fill w)) (sym e)
          (unfold pull_with in
            pull_from_run (some m) (targets_of m.entries)
              (targets_of-From m m.entries e (get-rows m.entries (v m e).ascending)))
  ]
    where
      none_run : loaded ≡ none → Run Fill (pull_with digest cfg none) (λ _ w. Fill w)
      none_run e =
          unfold pull_with list in
          Run-bind {m = list (sync_prefix cfg)}
            (Run-read Fill stable (λ w. some (listing w.modified (sync_prefix cfg) w.objects))
              (λ _ w. Fill w) stable (λ w p. p))
            (λ found. pull_listed_run found e)

  remove-Filled :
      (rel : Str) (w : World)
      → is_partial rel ≡ true
      → Fill w
      → Fill (record w { files = remove rel w.files })
  remove-Filled rel w partial p = record {
    untouched = p.untouched;
    kept = λ r f e n. elim (Bool-cases (str_eq rel r)) [
      | inl same ↦
          let path : rel ≡ r = (str_eq_iff rel r).0 same in
          let ends : ends_with (codes ".part") r ≡ true =
            subst (λ x. ends_with (codes ".part") x ≡ true) path (first_of _ _ partial) in
          cc (ends, n)
      | inr other ↦ rw (get-remove, other) (p.kept r f e n)
    ];
    fresh = λ r f e. elim (Bool-cases (str_eq rel r)) [
      | inl same ↦ cc (rw (get-remove, same) at e)
      | inr other ↦ p.fresh r f (rw (get-remove, other) at e)
    ];
  }
    where
      first_of : (a b : Bool) → (a && b) ≡ true → a ≡ true
      first_of a b e = ground (arith, e)

  pub clear_run : (rels : List Str) → Run Fill (clear rels) (λ _ w. Fill w)
  unfolding clear
  clear_run [] = Run-pure 0 (λ w p. p)
  clear_run (rel ∷ rels) = elim (Bool-cases (is_partial rel)) [
    | inl e ↦ rw e (
        Run-bind
          (Run-request Fill stable (λ _ w. Fill w) (λ w. record w { files = remove rel w.files })
            (λ w p. (remove-Filled rel w e p, remove-Filled rel w e p)) (λ w p. p))
          (λ removed.
            Run-bind {m = clear rels} (clear_run rels)
              (λ n. Run-pure (if removed then n + 1 else n) (λ w p. p))))
    | inr e ↦ rw e (clear_run rels)
  ]
