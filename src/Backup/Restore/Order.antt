-- ===== src/Backup/Restore/Order.antt =====
-- What the boot-time restore may do to the live database.
use vaultwarden_hummingbird.Base.{
  ℕ, Bool, true, false, Option, none, some, List, [], ◌∷◌, ◌++◌, ◌≡◌, refl, ap, ◌∙◌, All, Result,
  ok, err, if◌then◌else◌, ◌==◌,
}
use vaultwarden_hummingbird.Text.{Str}
use vaultwarden_hummingbird.BTree.{get}
use vaultwarden_hummingbird.Backup.World.{
  Live, missing, corrupt, tables, World, M, Answer, served, refused, lost, ask, head_answer,
  tail_answers, ◌>>=◌, ◌>>◌, pure,
}
use vaultwarden_hummingbird.Backup.Run.{attempt, Run, Run-pure, Run-bind, Run-if, Run-attempt}
use vaultwarden_hummingbird.Backup.Lineage
use vaultwarden_hummingbird.Backup.World.{request, settle}
use vaultwarden_hummingbird.Backup.Tick.{is_empty_db, remove_staged}
use vaultwarden_hummingbird.Backup.Tick.Sound.{Objects}
use vaultwarden_hummingbird.Backup.Restore.{
  Candidate, RestoreOutcome, ready, failed, aborted, ImportError, invalid, publication, Attempt,
  imported, not_usable, not_published, fetched, stopping, download, remove_siblings, link,
  clear_and_link, place, import_checked, import_db, write_lineage, record_lineage, on_import,
  on_download, restore_object, on_attempt, try_all,
}

module _ (opens : List ℕ → Option ℕ) (o : Objects) where
  -- The bucket is as it was, and the live database is still provably empty.
  pub record Empty (w : World) : Type 0 where
    pub same : w.objects ≡ o
    pub empty : is_empty_db w.live ≡ some true

  -- The candidate was downloaded in full, and is no database.
  pub record Unusable (c : Candidate) : Type 0 where
    pub bytes : List ℕ
    pub downloaded : fetched c (get c.key o) ≡ some bytes
    pub rejected : opens bytes ≡ none

  -- The live database is this candidate's.
  pub record Placed (c : Candidate) (w : World) : Type 0 where
    pub bytes : List ℕ
    pub count : ℕ
    pub downloaded : fetched c (get c.key o) ≡ some bytes
    pub opened : opens bytes ≡ some count
    pub placed : w.live ≡ tables count bytes

  abbrev Imported : List ℕ → Result ImportError (Unit {0}) → World → Type 0
  Imported bytes (ok u) w = (n : ℕ) × (opens bytes ≡ some n) × (w.live ≡ tables n bytes)
  Imported bytes (err invalid) w = Empty w × (opens bytes ≡ none)
  Imported bytes (err publication) w = Empty w

  module _ (n : ℕ) (bytes : List ℕ) (h : opens bytes ≡ some n) where
    abbrev Linked : Bool → World → Type 0
    Linked true w = w.live ≡ tables n bytes
    Linked false w = Empty w

    kept_run :
        (f : World → World)
        → ((w : World) → (f w).live ≡ w.live)
        → Run (Linked true) (attempt f) (λ _ w. Linked true w)
    kept_run f k =
        Run-attempt (Linked true) (λ _ w. Linked true w) f (λ w l p. p) (λ w p. k w ∙ p) (λ w p. p)

    siblings_run : Run (Linked true) (remove_siblings opens) (λ _ w. Linked true w)
    unfolding remove_siblings
    siblings_run =
        Run-bind {m = attempt (λ w. record w { wal = false })}
          (kept_run (λ w. record w { wal = false }) (λ w. refl))
          (λ _. kept_run (λ w. record w { shm = false }) (λ w. refl))

    after_link :
        (linked : Bool)
        → Run
            (Linked linked)
            (if linked then (remove_siblings opens >> pure (ok tt)) else pure (err publication))
            (Imported bytes)
    after_link true =
        Run-bind {m = remove_siblings opens} siblings_run (λ _. Run-pure (ok tt) (λ w p. (n, h, p)))
    after_link false = Run-pure (err publication) (λ w p. p)

    link_run : Run Empty (link opens n bytes) (Imported bytes)
    unfolding link
    link_run =
        Run-bind {m = attempt (λ w. record w { live = tables n bytes })}
          (Run-attempt Empty Linked (λ w. record w { live = tables n bytes })
            (λ w l p. record { same = p.same; empty = p.empty }) (λ w p. refl) (λ w p. p))
          after_link

    clear_run :
        Run Empty
          (attempt (λ w. record w { live = missing }) >>= λ cleared.
            if cleared then link opens n bytes else pure (err publication))
          (Imported bytes)
    unfolding is_empty_db
    clear_run =
        Run-bind {m = attempt (λ w. record w { live = missing })}
          (Run-attempt Empty (λ _ w. Empty w) (λ w. record w { live = missing })
            (λ w l p. record { same = p.same; empty = p.empty })
            (λ w p. record { same = p.same; empty = refl }) (λ w p. p))
          (λ cleared. Run-if cleared link_run (Run-pure (err publication) (λ w p. p)))

    clear_and_link_run : (l : Live) → Run Empty (clear_and_link opens n bytes l) (Imported bytes)
    unfolding clear_and_link
    clear_and_link_run missing = link_run
    clear_and_link_run corrupt = Run-pure (err publication) (λ w p. p)
    clear_and_link_run (tables k old) =
        Run-if (k == 0) clear_run (Run-pure (err publication) (λ w p. p))

    secured_run :
        Run Empty
          (attempt (λ w. w) >>= λ secured.
            if secured then place opens n bytes else pure (err publication))
          (Imported bytes)
    unfolding place
    secured_run =
        Run-bind {m = attempt (λ w. w)}
          (Run-attempt Empty (λ _ w. Empty w) (λ w. w)
            (λ w l p. record { same = p.same; empty = p.empty }) (λ w p. p) (λ w p. p))
          (λ secured.
            Run-if secured (record { at = λ w p. (clear_and_link_run w.live).at w p })
              (Run-pure (err publication) (λ w p. p)))

  import_checked_run :
      (bytes : List ℕ) (checked : Option ℕ)
      → opens bytes ≡ checked
      → Run Empty (import_checked opens bytes checked) (Imported bytes)
  unfolding import_checked
  import_checked_run bytes none h = Run-pure (err invalid) (λ w p. (p, h))
  import_checked_run bytes (some n) h = secured_run n bytes h

  import_db_run : (bytes : List ℕ) → Run Empty (import_db opens bytes) (Imported bytes)
  unfolding import_db
  import_db_run bytes = import_checked_run bytes (opens bytes) refl

  -- What an attempt at a candidate leaves.
  abbrev Tried : Candidate → Attempt → World → Type 0
  Tried c imported w = Placed c w
  Tried c not_usable w = Empty w × Unusable c
  Tried c not_published w = Empty w

  remove_staged_run :
      (bytes : List ℕ) (r : Result ImportError (Unit {0}))
      → Run (Imported bytes r) remove_staged (λ _ w. Imported bytes r w)
  unfolding remove_staged
  remove_staged_run bytes (ok u) = record { at = λ w p. p }
  remove_staged_run bytes (err invalid) = record {
    at = λ w p. (record { same = p.0.same; empty = p.0.empty }, p.1);
  }
  remove_staged_run bytes (err publication) = record {
    at = λ w p. record { same = p.same; empty = p.empty };
  }

  request-live :
      (f : World → World)
      → ((w : World) → (f w).live ≡ w.live)
      → (w : World) → (request f w).1.live ≡ w.live
  unfolding request
  request-live f h w = go (head_answer w.answers) (record w { answers = tail_answers w.answers })
    where
      go : (a : Answer) (v : World) → (settle a f v).1.live ≡ v.live
      go served v = unfold settle in h v
      go refused v = unfold settle in refl
      go lost v = unfold settle in h v

  write_lineage-live :
      (key : Str) (g : Option ℕ) (w : World) → (write_lineage opens key g w).1.live ≡ w.live
  unfolding write_lineage
  write_lineage-live key none w = unfold Lineage.write_name in request-live _ (λ v. refl) w
  write_lineage-live key (some g) w = unfold Lineage.write in request-live _ (λ v. refl) w

  record_lineage-live : (c : Candidate) (w : World) → (record_lineage opens c w).1.live ≡ w.live
  unfolding record_lineage
  record_lineage-live c w = write_lineage-live c.key c.generation w

  on_import_run :
      (c : Candidate) (bytes : List ℕ) (r : Result ImportError (Unit {0}))
      → fetched c (get c.key o) ≡ some bytes
      → Run (Imported bytes r) (on_import opens c r) (Tried c)
  unfolding on_import
  on_import_run c bytes (ok u) h = record {
    at = λ w p. record {
      bytes = bytes;
      count = p.0;
      downloaded = h;
      opened = p.1;
      placed = record_lineage-live c w ∙ p.2;
    };
  }
  on_import_run c bytes (err invalid) h =
      Run-pure not_usable (λ w p. (p.0, record { bytes = bytes; downloaded = h; rejected = p.1 }))
  on_import_run c bytes (err publication) h = Run-pure not_published (λ w p. p)

  abbrev Downloaded : Candidate → Option (List ℕ) → World → Type 0
  Downloaded c none w = Empty w
  Downloaded c (some bytes) w = Empty w × (fetched c (get c.key o) ≡ some bytes)

  on_download_run :
      (c : Candidate) (r : Option (List ℕ)) → Run (Downloaded c r) (on_download opens c r) (Tried c)
  unfolding on_download
  on_download_run c none = Run-pure not_published (λ w p. p)
  on_download_run c (some bytes) = record {
    at = λ w p.
        (Run-bind {m = import_db opens bytes} (import_db_run bytes) (λ r.
            Run-bind {m = remove_staged} (remove_staged_run bytes r)
              (λ _. on_import_run c bytes r p.1))).at
          w p.0;
  }

  download_run : (c : Candidate) → Run Empty (download c) (Downloaded c)
  unfolding download ask
  download_run c = record { at = λ w p. go w p (head_answer w.answers) }
    where
      served_case :
          (w : World)
          → Empty w
          → (x : Option (List ℕ)) → fetched c (get c.key o) ≡ x
          → Downloaded c x (record w { answers = tail_answers w.answers; staged = x })
      served_case w p none h = record { same = p.same; empty = p.empty }
      served_case w p (some bytes) h = (record { same = p.same; empty = p.empty }, h)

      go :
          (w : World)
          → Empty w
          → (a : Answer)
          → (let x : Option (List ℕ) = elim a [
            | served ↦ fetched c (get c.key w.objects)
            | refused ↦ none
            | lost ↦ none
          ] in
              Downloaded c x (record w { answers = tail_answers w.answers; staged = x }))
      go w p served = served_case w p (fetched c (get c.key w.objects)) (rw (p.same) refl)
      go w p refused = record { same = p.same; empty = p.empty }
      go w p lost = record { same = p.same; empty = p.empty }

  restore_object_run : (c : Candidate) → Run Empty (restore_object opens c) (Tried c)
  unfolding restore_object
  restore_object_run c =
      Run-bind {m = attempt (λ w. record w { staged = none })}
        (Run-attempt Empty (λ _ w. Empty w) (λ w. record w { staged = none })
          (λ w l p. record { same = p.same; empty = p.empty })
          (λ w p. record { same = p.same; empty = p.empty }) (λ w p. p))
        (λ swept.
          Run-if swept (Run-bind {m = download c} (download_run c) (on_download_run c))
            (Run-pure not_published (λ w p. p)))

  pub stopping_run : Run Empty stopping (λ _ w. Empty w)
  unfolding stopping ask
  stopping_run = record { at = λ w p. record { same = p.same; empty = p.empty } }

  -- The outcome of trying candidates from the newest on: one is placed behind newer ones that are
  -- all unusable, or the database is still empty.
  pub record Chosen (cs : List Candidate) (w : World) : Type 0 where
    pub newer : List Candidate
    pub chosen : Candidate
    pub older : List Candidate
    pub splits : cs ≡ newer ++ chosen ∷ older
    pub unusable : All Unusable newer
    pub placed : Placed chosen w

  abbrev pub Outcome : List Candidate → RestoreOutcome → World → Type 0
  Outcome cs ready w = Chosen cs w
  Outcome cs failed w = Empty w
  Outcome cs aborted w = Empty w

  Outcome-older :
      (c : Candidate) (cs : List Candidate) (r : RestoreOutcome) (w : World)
      → Unusable c
      → Outcome cs r w
      → Outcome (c ∷ cs) r w
  Outcome-older c cs ready w u h = record {
    newer = c ∷ h.newer;
    chosen = h.chosen;
    older = h.older;
    splits = ap (λ x. c ∷ x) h.splits;
    unusable = (u, h.unusable);
    placed = h.placed;
  }
  Outcome-older c cs failed w u h = h
  Outcome-older c cs aborted w u h = h

  on_attempt_run :
      (c : Candidate) (cs : List Candidate) (older : M RestoreOutcome)
      → Run Empty older (Outcome cs)
      → (r : Attempt) → Run (Tried c r) (on_attempt opens older r) (Outcome (c ∷ cs))
  unfolding on_attempt
  on_attempt_run c cs older h imported = Run-pure ready (λ w p. record {
    newer = [];
    chosen = c;
    older = cs;
    splits = refl;
    unusable = tt;
    placed = p;
  })
  on_attempt_run c cs older h not_usable = record {
    at = λ w p. Outcome-older c cs (older w).0 (older w).1 p.1 (h.at w p.0);
  }
  on_attempt_run c cs older h not_published =
      Run-bind {m = stopping} stopping_run
        (λ stop. Run-if stop (Run-pure aborted (λ w p. p)) (Run-pure failed (λ w p. p)))

  pub try_all_run : (cs : List Candidate) → Run Empty (try_all opens cs) (Outcome cs)
  unfolding try_all
  try_all_run [] = Run-pure failed (λ w p. p)
  try_all_run (c ∷ cs) = Run-bind {m = stopping} stopping_run (λ stop.
      Run-if stop (Run-pure aborted (λ w p. p)) (
        Run-bind {m = restore_object opens c} (restore_object_run c)
          (on_attempt_run c cs (try_all opens cs) (try_all_run cs))))
