-- ===== src/Sync/Push/Safety.antt =====
-- What a push leaves in the bucket, whatever is answered.
use vaultwarden_hummingbird.Base.{
  ℕ, not, ◌≤◌, Bool, true, false, Option, none, some, List, [], ◌∷◌, ◌≡◌, refl, ap, sym, subst,
  length, Result, ok, err, All, inr,
}
use vaultwarden_hummingbird.Text.{Str}
use vaultwarden_hummingbird.BTree.{BTreeMap, get}
use vaultwarden_hummingbird.Config.Spec.{SyncConfig, sync_prefix}
use vaultwarden_hummingbird.Backup.World.{Object, Answer}
use vaultwarden_hummingbird.Backup.Manifest.{u64_max}
use vaultwarden_hummingbird.Sync.Manifest.{Manifest}
use vaultwarden_hummingbird.Sync.Manifest.Valid.{parse-IsReadable}
use vaultwarden_hummingbird.Sync.World.{File, World, pure}
use vaultwarden_hummingbird.Sync.Run.{Run, Run-pure, Run-bind, Run-if, Run-request, Run-read}
use vaultwarden_hummingbird.Sync.Client.{
  Failed, connect, manifest_key, text_of, missing_in, manifest_of, get_optional_text, load_manifest,
  list, listing, remote_only_files,
}
use vaultwarden_hummingbird.Sync.Local.{local_synced_files}
use vaultwarden_hummingbird.Sync.Push.{
  BTreeSet, shadow_of, no_entries, push_with, load_shadow, push_legacy, on_missing, rebuild,
  on_manifest, push_all, sync_state,
}
use vaultwarden_hummingbird.Sync.Push.Held.{
  loaded-Stores, IsFit, Stores, IsDigest, Held, Names, Kept,
}
use vaultwarden_hummingbird.Sync.Push.Publish.{push_with_run, Inv-Kept}
use vaultwarden_hummingbird.Sync.Push.Sound.{Good, Going}

module _ (digest : List ℕ → List ℕ) (is_digest : IsDigest digest) (cfg : SyncConfig)
    (before : BTreeMap Object) (files : BTreeMap File)
    (small : (rel : Str) (f : File) → get rel files ≡ some f → length f.bytes ≤ u64_max) where
  abbrev Stays : World → Type 0
  Stays w = Kept digest cfg before w.objects

  abbrev Goes : Bool → Manifest → World → Type 0
  Goes = Going digest is_digest cfg before files small

  -- Where the run has not written yet.
  record Starts (w : World) : Type 0 where
    untouched : w.objects ≡ before
    unread : w.files ≡ files

  Starts-Goes :
      (publish : Bool) (m : Manifest) (w : World)
      → (publish ≡ true → Good digest is_digest cfg before files small before m)
      → Starts w
      → Goes publish m w
  Starts-Goes publish m w good p = record {
    inv = record {
      copies = λ r h held. subst (λ o. Held digest cfg o r h) (sym p.untouched) held;
      manifest = ap (get (manifest_key cfg)) p.untouched;
    };
    good = λ e.
        subst (λ o. Good digest is_digest cfg before files small o m) (sym p.untouched) (good e);
    same = p.unread;
  }

  Starts-stable : (w : World) (l : List Answer) → Starts w → Starts (record w { answers = l })
  Starts-stable w l p = record { untouched = p.untouched; unread = p.unread }

  load_run :
      Run Starts
        (load_manifest cfg)
        (λ r w. Starts w × ((m : Manifest) → r ≡ ok (some m) → Stores cfg before m))
  unfolding load_manifest get_optional_text
  load_run =
      Run-bind
        (Run-read Starts Starts-stable (λ w. text_of (get (manifest_key cfg) w.objects))
          (λ t w. Starts w × ((m : Manifest) → manifest_of t ≡ ok (some m) → Stores cfg before m))
          (λ w l p. (
            Starts-stable w l p,
            λ m e.
                loaded-Stores cfg before (get (manifest_key cfg) w.objects) m
                  (sym (ap (get (manifest_key cfg)) p.untouched)) e,
          ))
          (λ w p. (p, λ m e. cc e)))
        (λ t. Run-pure (manifest_of t) (λ w p. p))

  Names-nil : Names digest cfg before before no_entries
  Names-nil = record { names = λ rel e g. unfold get in cc g }

  push_legacy_run :
      (rels : List Str) → All IsFit rels → Run Starts (push_legacy digest cfg rels) (λ _ w. Stays w)
  unfolding push_legacy load_shadow
  push_legacy_run rels fits =
      Run-bind {m = load_shadow} {f = λ m. push_with digest cfg false rels m}
        (Run-bind
          (Run-read Starts Starts-stable (λ w. w.shadow) (λ _ w. Starts w) Starts-stable (λ w p. p))
          (λ t. Run-pure (shadow_of t) (λ w p. p)))
        (λ m. record {
          at = λ w p.
              (push_with_run digest is_digest cfg before files small false rels m fits).at w
                (Starts-Goes false m w (λ e. cc e) p);
        })

  on_missing_run :
      (rels : List Str) (missing : Option BTreeSet)
      → All IsFit rels
      → Run Starts (on_missing digest cfg rels missing) (λ _ w. Stays w)
  unfolding on_missing
  on_missing_run rels (some []) fits = record {
    at = λ w p.
        (push_with_run digest is_digest cfg before files small true rels no_entries fits).at w (
          Starts-Goes true no_entries w
            (λ e. record { valid = record { ascending = tt; rows = tt }; names = Names-nil }) p);
  }
  on_missing_run rels (some (x ∷ l)) fits = push_legacy_run rels fits
  on_missing_run rels none fits = push_legacy_run rels fits

  rebuild_run :
      (rels : List Str) → All IsFit rels → Run Starts (rebuild digest cfg rels) (λ _ w. Stays w)
  unfolding rebuild remote_only_files list
  rebuild_run rels fits =
      Run-bind {m = remote_only_files cfg}
        (Run-bind {m = list (sync_prefix cfg)} {f = λ listed w. (missing_in cfg w.files listed, w)}
          (Run-read Starts Starts-stable
            (λ w. some (listing w.modified (sync_prefix cfg) w.objects)) (λ _ w. Starts w)
            Starts-stable (λ w p. p))
          (λ listed. record { at = λ w p. p }))
        (λ missing. on_missing_run rels missing fits)

  on_manifest_run :
      (rels : List Str) (r : Result Failed (Option Manifest))
      → All IsFit rels
      → Run
          (λ w. Starts w × ((m : Manifest) → r ≡ ok (some m) → Stores cfg before m))
          (on_manifest digest cfg rels r)
          (λ _ w. Stays w)
  unfolding on_manifest
  on_manifest_run rels (ok (some m)) fits = record {
    at = λ w p.
        let s = p.1 m refl in
        (push_with_run digest is_digest cfg before files small true rels m fits).at w (
          Starts-Goes true m w
            (λ e. record {
              valid = parse-IsReadable s.body {m = m} s.parsed;
              names = record { names = λ rel x g. inr (m, s, g) };
            })
            p.0);
  }
  on_manifest_run rels (ok none) fits = record { at = λ w p. (rebuild_run rels fits).at w p.0 }
  on_manifest_run rels (err e) fits = record { at = λ w p. (rebuild_run rels fits).at w p.0 }

  push_all_run :
      (rels : List Str) → All IsFit rels → Run Starts (push_all digest cfg rels) (λ _ w. Stays w)
  unfolding push_all
  push_all_run [] fits = Run-pure true (λ w p.
      Inv-Kept digest is_digest cfg before files small w.objects
        (Starts-Goes false no_entries w (λ e. cc e) p).inv)
  push_all_run (rel ∷ rels) fits =
      Run-bind {m = load_manifest cfg} load_run (λ r. on_manifest_run (rel ∷ rels) r fits)

-- Whatever is answered, and even if replies are lost or the run is cut short, a push keeps every copy
-- that the bucket holds under its own hash, and each entry of the manifest that the bucket then
-- has names such a copy or was in the manifest before. This is for synced files that fit a `u64` and
-- whose paths a manifest line and the bucket keys can carry.
pub sync_state-Kept :
    (digest : List ℕ → List ℕ) (cfg : SyncConfig) (w : World)
    → IsDigest digest
    → All IsFit (local_synced_files w.files cfg.state_file)
    → ((rel : Str) (f : File) → get rel w.files ≡ some f → length f.bytes ≤ u64_max)
    → Kept digest cfg w.objects (sync_state digest cfg w).1.objects
unfolding sync_state connect
sync_state-Kept digest cfg w d fits small =
    let run : Run (Starts digest d cfg w.objects w.files small) (sync_state digest cfg)
        (λ _ v. Kept digest cfg w.objects v.objects) =
      Run-bind {m = connect}
        (Run-request (Starts digest d cfg w.objects w.files small)
          (Starts-stable digest d cfg w.objects w.files small)
          (λ _ v. Starts digest d cfg w.objects w.files small v) (λ v. v) (λ v p. (p, p))
          (λ v p. p))
        (λ connected.
          Run-if (not connected) {m = pure false}
            {n = λ v. push_all digest cfg (local_synced_files v.files cfg.state_file) v}
            (λ _. Run-pure false (λ v p.
              Inv-Kept digest d cfg w.objects w.files small v.objects
                (Starts-Goes digest d cfg w.objects w.files small false no_entries v (λ e. cc e)
                  p).inv))
            (λ _. record {
              at = λ v p.
                  (push_all_run digest d cfg w.objects w.files small
                      (local_synced_files v.files cfg.state_file)
                      (subst (λ x. All IsFit (local_synced_files x cfg.state_file)) (sym p.unread)
                        fits)).at
                    v p;
            })) in
    run.at w (record { untouched = refl; unread = refl })
