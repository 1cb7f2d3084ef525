-- ===== src/Sync/Recover/Safety.antt =====
-- What the reconciliation does to the files, whatever is answered.
use vaultwarden_hummingbird.Base.{
  ℕ, ◌+◌, Bool, true, false, not, ◌&&◌, Option, none, some, List, [], ◌∷◌, ◌++◌, ◌≡◌, refl, ap, sym,
  arith, ◌==◌, leb, if◌then◌else◌, length, All, inl, inr, Bool-cases, Option-cases,
}
use vaultwarden_hummingbird.Text.{Str, str_eq, str_eq_iff}
use vaultwarden_hummingbird.BTree.{BTreeMap, get, insert, All-insert}
use vaultwarden_hummingbird.Config.Spec.{SyncConfig, sync_prefix}
use vaultwarden_hummingbird.Backup.World.{Object, Answer}
use vaultwarden_hummingbird.Util.Hash.{sha256_file}
use vaultwarden_hummingbird.Sync.Manifest.{Entry, Manifest}
use vaultwarden_hummingbird.Sync.Synced.{is_synced_file}
use vaultwarden_hummingbird.Sync.Objects.{split_object_key}
use vaultwarden_hummingbird.Sync.World.{File, World, ◌>>=◌, pure}
use vaultwarden_hummingbird.Sync.Run.{
  Run, Run-pure, Run-bind, Run-if, Run-request, Run-read, Run-stopping,
}
use vaultwarden_hummingbird.Sync.Client.{Listed, exists, list, listing}
use vaultwarden_hummingbird.Sync.Push.{BTreeSet, read_repair, write_repair, repair_file, text_lines}
use vaultwarden_hummingbird.Sync.Push.Held.{content_key}
use vaultwarden_hummingbird.Sync.Pull.{Expect, max_sync_object_bytes, create_parent, meets, fetch}
use vaultwarden_hummingbird.Sync.Pull.Fill.{
  exists_get, Checked, by_key, Filled, Filled-stable, Gap, After, fetch_run, create_parent_run,
}
use vaultwarden_hummingbird.Sync.Recover.{
  or_default, Version, group, choose_on, choose_newest, newest_of, unreferenced, repair_entry,
  is_held, check_entries, check_manifest, update_repair, present_of, recover_missing,
  recover_absent, recover, reconcile_listed, reconcile_objects, candidate, names,
}

-- Every path that may be recovered is in the set.
abbrev Paths {ℓ} : SyncConfig → {V : Type ℓ} → List (Str × V) → Type 0
Paths cfg l = All (λ r. is_synced_file r.0 cfg.state_file ≡ true) l

group-Paths :
    (cfg : SyncConfig) (l : List (Str × Version)) (by_rel : BTreeMap (List Version))
    → Paths cfg by_rel
    → Paths cfg l
    → Paths cfg (group by_rel l)
unfolding group
group-Paths cfg [] by_rel h k = h
group-Paths cfg ((rel, v) ∷ l) by_rel h k =
    let vs = or_default (get rel by_rel) ++ v ∷ [] in
    group-Paths cfg l (insert rel vs by_rel)
      (All-insert (λ r. is_synced_file r.0 cfg.state_file ≡ true) rel vs by_rel k.0 h) k.1

choose_on-Paths :
    (cfg : SyncConfig) (by_rel : BTreeMap (List Version))
    → Paths cfg by_rel
    → Paths cfg (choose_on by_rel)
unfolding choose_on
choose_on-Paths cfg [] h = tt
choose_on-Paths cfg ((rel, vs) ∷ by_rel) h = elim (Option-cases (newest_of vs)) [
  | inl e ↦ rw e (choose_on-Paths cfg by_rel h.1)
  | inr (v, e) ↦ rw e (h.0, choose_on-Paths cfg by_rel h.1)
]

candidate-Paths :
    (cfg : SyncConfig) (m : Option Manifest) (item : Listed) (o : Option (Str × Str))
    (rest : List (Str × Version))
    → Paths cfg rest
    → Paths cfg (candidate cfg m item o rest)
candidate-Paths cfg m item none rest h = h
candidate-Paths cfg m item (some (rel, sha256)) rest h =
    elim (Bool-cases (is_synced_file rel cfg.state_file)) [
      | inr e ↦ rw e h
      | inl e ↦ elim (Bool-cases (names m rel)) [ inl n ↦ rw (e, n) h | inr n ↦ rw (e, n) (e, h) ]
    ]

unreferenced-Paths :
    (cfg : SyncConfig) (m : Option Manifest) (listed : List Listed)
    → Paths cfg (unreferenced cfg m listed)
unfolding unreferenced
unreferenced-Paths cfg m [] = tt
unreferenced-Paths cfg m (item ∷ listed) =
    candidate-Paths cfg m item (split_object_key item.key (sync_prefix cfg))
      (unreferenced cfg m listed) (unreferenced-Paths cfg m listed)

choose_newest-Paths :
    (cfg : SyncConfig) (m : Option Manifest) (listed : List Listed)
    → Paths cfg (choose_newest (unreferenced cfg m listed))
unfolding choose_newest
choose_newest-Paths cfg m listed =
    choose_on-Paths cfg _
      (group-Paths cfg (unreferenced cfg m listed) [] tt (unreferenced-Paths cfg m listed))

module _ (digest : List ℕ → List ℕ) (cfg : SyncConfig) (loaded : Option Manifest)
    (objects : BTreeMap Object) (files : BTreeMap File) where
  abbrev Fill : World → Type 0
  Fill = Filled digest cfg loaded objects files

  abbrev GapAt : Str → World → Type 0
  GapAt = Gap digest cfg loaded objects files

  stable : (w : World) (l : List Answer) → Fill w → Fill (record w { answers = l })
  stable = Filled-stable digest cfg loaded objects files

  abbrev wanted : Version → Expect
  wanted v = record {
    size = some v.size;
    sha256 = some v.sha256;
    max_bytes = max_sync_object_bytes;
  }

  meets-by_key :
      (rel : Str) (v : Version) (bytes : List ℕ)
      → meets digest (wanted v) bytes ≡ true
      → Checked digest cfg loaded objects files rel bytes (content_key cfg rel v.sha256)
  unfolding meets
  meets-by_key rel v bytes c =
      let hash =
        last_of (leb (length bytes) max_sync_object_bytes && length bytes == v.size)
          (str_eq (sha256_file digest bytes) v.sha256) c in
      by_key
        (ap (content_key cfg rel) (sym ((str_eq_iff (sha256_file digest bytes) v.sha256).0 hash)))
    where
      last_of : (a b : Bool) → (a && b) ≡ true → b ≡ true
      last_of a b e = ground (arith, e)

  After-any :
      (rel : Str) (b : Bool) (w : World) → After digest cfg loaded objects files rel b w → Fill w
  After-any rel true w p = p
  After-any rel false w p = p.0

  recover_absent_run :
      (rel : Str) (v : Version) (here : Bool)
      → is_synced_file rel cfg.state_file ≡ true
      → Run
          (λ w. Fill w × (exists rel w.files ≡ here))
          (recover_absent digest cfg rel v here)
          (λ _ w. Fill w)
  unfolding recover_absent recover_missing
  recover_absent_run rel v true synced = Run-pure false (λ w p. p.0)
  recover_absent_run rel v false synced = record {
    at = λ w p.
        (Run-bind {P = GapAt rel} {R = λ _ v. Fill v} {m = create_parent}
            (create_parent_run digest cfg loaded objects files rel)
            (λ created.
              Run-if (not created) {m = pure false}
                {n = fetch digest (content_key cfg rel v.sha256) rel (wanted v)}
                (λ _. Run-pure false (λ w p. p.0))
                (λ _. record {
                  at = λ u q. After-any rel _ _ (
                      (fetch_run digest cfg loaded objects files rel (content_key cfg rel v.sha256)
                          (wanted v) synced (meets-by_key rel v)).at
                        u q);
                }))).at
          w (p.0, exists_get rel w.files p.1);
  }

  recover_run :
      (chosen : BTreeMap Version)
      → Paths cfg chosen
      → Run Fill (recover digest cfg chosen) (λ _ w. Fill w)
  unfolding recover
  recover_run [] h = Run-pure 0 (λ w p. p)
  recover_run ((rel, v) ∷ chosen) h = Run-bind (Run-stopping Fill stable) (λ stop.
      Run-if stop {m = pure 0}
        {n = (λ w. recover_absent digest cfg rel v (exists rel w.files) w) >>= λ done.
          recover digest cfg chosen >>= λ n. pure (if done then n + 1 else n)}
        (λ _. Run-pure 0 (λ w p. p))
        (λ _.
          Run-bind {m = λ w. recover_absent digest cfg rel v (exists rel w.files) w}
            (record {
              at = λ w p. (recover_absent_run rel v (exists rel w.files) h.0).at w (p, refl);
            })
            (λ done.
              Run-bind {m = recover digest cfg chosen} (recover_run chosen h.1)
                (λ n. Run-pure (if done then n + 1 else n) (λ w p. p)))))

  check_entries_run :
      (present : BTreeMap ℕ) (entries : BTreeMap Entry) (repair : BTreeSet)
      → Run Fill (check_entries cfg present entries repair) (λ _ w. Fill w)
  unfolding check_entries
  check_entries_run present [] repair = Run-pure repair (λ w p. p)
  check_entries_run present ((rel, e) ∷ entries) repair =
      Run-bind (Run-stopping Fill stable) (λ stop.
        Run-if stop {m = pure repair}
          {n = λ w.
            check_entries cfg present entries
              (repair_entry (is_held cfg present rel e) (exists rel w.files) rel repair) w}
          (λ _. Run-pure repair (λ w p. p))
          (λ _. record { at = λ w p. (check_entries_run present entries _).at w p }))

  check_manifest_run :
      (present : BTreeMap ℕ) (m : Option Manifest) (repair : BTreeSet)
      → Run Fill (check_manifest cfg present m repair) (λ _ w. Fill w)
  unfolding check_manifest
  check_manifest_run present none repair = Run-pure repair (λ w p. p)
  check_manifest_run present (some m) repair = check_entries_run present m.entries repair

  read_repair_run : Run Fill read_repair (λ _ w. Fill w)
  unfolding read_repair
  read_repair_run =
      Run-bind (Run-read Fill stable (λ w. w.repair) (λ _ w. Fill w) stable (λ w p. p))
        (λ t. Run-pure (text_lines t) (λ w p. p))

  write_repair_run : (set : BTreeSet) → Run Fill (write_repair set) (λ _ w. Fill w)
  unfolding write_repair
  write_repair_run set =
      let keeps : (w : World) → Fill w → Fill (record w { repair = repair_file set }) =
        λ w p. record { untouched = p.untouched; kept = p.kept; fresh = p.fresh } in
      Run-request Fill stable (λ _ w. Fill w) (λ w. record w { repair = repair_file set })
        (λ w p. (keeps w p, keeps w p)) (λ w p. p)

  update_repair_run :
      (present : BTreeMap ℕ) (m : Option Manifest)
      → Run Fill (update_repair cfg present m) (λ _ w. Fill w)
  unfolding update_repair
  update_repair_run present m = Run-bind {m = read_repair} read_repair_run (λ repair.
      Run-bind {m = check_manifest cfg present m repair} (check_manifest_run present m repair)
        (λ repair'. write_repair_run repair'))

  reconcile_listed_run :
      (m : Option Manifest) (found : Option (List Listed))
      → Run Fill (reconcile_listed digest cfg m found) (λ _ w. Fill w)
  unfolding reconcile_listed
  reconcile_listed_run m none = Run-pure 0 (λ w p. p)
  reconcile_listed_run m (some l) =
      Run-bind {m = recover digest cfg (choose_newest (unreferenced cfg m l))}
        (recover_run (choose_newest (unreferenced cfg m l)) (choose_newest-Paths cfg m l))
        (λ n.
          Run-bind {m = update_repair cfg (present_of l) m} (update_repair_run (present_of l) m)
            (λ _. Run-pure n (λ w p. p)))

  -- Whatever is answered, the reconciliation only fills gaps, with content that its key names.
  pub reconcile_objects_run :
      (m : Option Manifest) → Run Fill (reconcile_objects digest cfg m) (λ _ w. Fill w)
  unfolding reconcile_objects list
  reconcile_objects_run m =
      Run-bind {m = list (sync_prefix cfg)}
        (Run-read Fill stable (λ w. some (listing w.modified (sync_prefix cfg) w.objects))
          (λ _ w. Fill w) stable (λ w p. p))
        (λ found. reconcile_listed_run m found)
