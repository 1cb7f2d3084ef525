-- ===== src/Sync/Restore/Restored.antt =====
-- A whole pull, from any volume, bucket and answers.
use vaultwarden_hummingbird.Base.{
  Option, none, some, true, leb, if◌then◌else◌, ◌∙◌, List, ◌≡◌, refl, ap, subst, inl, inr,
  Bool-cases, Result, ok, err, ℕ,
}
use vaultwarden_hummingbird.BTree.{get}
use vaultwarden_hummingbird.Config.Spec.{SyncConfig}
use vaultwarden_hummingbird.Backup.World.{head_answer, tail_answers}
use vaultwarden_hummingbird.Text.{byte_len}
use vaultwarden_hummingbird.Sync.Manifest.{Manifest, max_manifest_bytes}
use vaultwarden_hummingbird.Sync.Manifest.Format.{IsValid}
use vaultwarden_hummingbird.Sync.Manifest.Valid.{parse-IsReadable}
use vaultwarden_hummingbird.Sync.World.{World, read, is_served}
use vaultwarden_hummingbird.Sync.Run.{Run, Run-request}
use vaultwarden_hummingbird.Sync.Client.{
  Failed, manifest_key, get_optional_text, connect, load_manifest,
}
use vaultwarden_hummingbird.Sync.Push.Held.{Stores, loaded-Stores}
use vaultwarden_hummingbird.Sync.Local.{paths}
use vaultwarden_hummingbird.Sync.Pull.{clear_partials}
use vaultwarden_hummingbird.Sync.Pull.Fill.{Filled, Filled-stable}
use vaultwarden_hummingbird.Sync.Restore.{usable, restore_state}
use vaultwarden_hummingbird.Sync.Restore.Safety.{pull_with_run, clear_run}

-- The world in which the manifest is asked for.
abbrev pub asked : World → World
asked w = (clear_partials (connect w).1).1

-- The manifest that the pull goes by: what it reads there, if the client connects.
abbrev pub went_by : SyncConfig → World → Option Manifest
went_by cfg w = if (connect w).0 then usable (load_manifest cfg (asked w)).0 else none

-- The manifest that the pull went by is the stored one, or it went by none, and that only if the
-- stored one is too long, or could not be read; and by it, the files are only filled up.
pub record Restored (digest : List ℕ → List ℕ) (cfg : SyncConfig) (before after : World)
    : Type 0 where
  pub genuine : (m : Manifest) → went_by cfg before ≡ some m → Stores cfg before.objects m
  pub followed :
      (m : Manifest) (s : Stores cfg before.objects m)
      → leb (byte_len s.body) max_manifest_bytes ≡ true
      → (connect before).0 ≡ true
      → is_served (head_answer (asked before).answers) ≡ true
      → went_by cfg before ≡ some m
  pub filled : Filled digest cfg (went_by cfg before) before.objects before.files after

load_manifest-stored :
    (cfg : SyncConfig) (w : World) (m : Manifest) (s : Stores cfg w.objects m)
    → leb (byte_len s.body) max_manifest_bytes ≡ true
    → is_served (head_answer w.answers) ≡ true
    → (load_manifest cfg w).0 ≡ ok (some m)
unfolding load_manifest get_optional_text read
load_manifest-stored cfg w m s c a = rw (a, s.stored, c, s.parsed) refl

usable_sound :
    (r : Result Failed (Option Manifest)) (m : Manifest) → usable r ≡ some m → r ≡ ok (some m)
usable_sound (ok o) m e = ap ok e
usable_sound (err x) m e = cc e

-- What is loaded is what is stored, and loading changes nothing.
load_manifest_result :
    (cfg : SyncConfig) (w : World) (m : Manifest)
    → (load_manifest cfg w).0 ≡ ok (some m)
    → Stores cfg w.objects m
unfolding load_manifest get_optional_text read
load_manifest_result cfg w m e = elim (Bool-cases (is_served (head_answer w.answers))) [
  | inl s ↦ loaded-Stores cfg w.objects (get (manifest_key cfg) w.objects) m refl (rw s at e)
  | inr s ↦ cc (rw s at e)
]

module _ (digest : List ℕ → List ℕ) (cfg : SyncConfig) (w : World) where
  -- Before anything is done.
  start : (loaded : Option Manifest) → Filled digest cfg loaded w.objects w.files w
  start loaded = record { untouched = refl; kept = λ rel f e n. e; fresh = λ rel f e. inl e }

  connected_run :
      (loaded : Option Manifest)
      → Run
          (Filled digest cfg loaded w.objects w.files)
          connect
          (λ _ v. Filled digest cfg loaded w.objects w.files v)
  unfolding connect
  connected_run loaded =
      Run-request (Filled digest cfg loaded w.objects w.files)
        (Filled-stable digest cfg loaded w.objects w.files)
        (λ _ v. Filled digest cfg loaded w.objects w.files v) (λ v. v) (λ v p. (p, p)) (λ v p. p)

  cleared :
      (loaded : Option Manifest)
      → Filled digest cfg loaded w.objects w.files (clear_partials (connect w).1).1
  unfolding clear_partials
  cleared loaded =
      (clear_run digest cfg loaded w.objects w.files (paths (connect w).1.files)).at (connect w).1
        ((connected_run loaded).at w (start loaded))

  stored-IsValid : (m : Manifest) → Stores cfg w.objects m → IsValid m
  stored-IsValid m s = parse-IsReadable s.body {m = m} s.parsed

  load_same :
      (loaded : Option Manifest)
      → Filled digest cfg loaded w.objects w.files (load_manifest cfg (asked w)).1
  unfolding load_manifest get_optional_text read
  load_same loaded =
      Filled-stable digest cfg loaded w.objects w.files (asked w) (tail_answers (asked w).answers)
        (cleared loaded)

  genuine_load :
      (m : Manifest) → usable (load_manifest cfg (asked w)).0 ≡ some m → Stores cfg w.objects m
  genuine_load m e =
      subst (λ o. Stores cfg o m) (cleared none).untouched
        (load_manifest_result cfg (asked w) m (usable_sound (load_manifest cfg (asked w)).0 m e))

-- Whatever is answered, and even if the run is cut short, a pull leaves the bucket alone, keeps every
-- file that is there as it is, except for partial downloads, and puts in place only files of the
-- synced set, each with the bytes of an object of the bucket: with the hash and the size that the
-- manifest gives for the path, or with the hash that the object's own key gives, or, only where the
-- pull goes by no manifest, from under the path itself. The manifest is the stored one that the pull
-- reads after it has connected and has removed partial downloads, and it goes by none only if it does
-- not connect, its request is not served, or what is stored is too long or no manifest.
pub restore_state-Restored :
    (digest : List ℕ → List ℕ) (cfg : SyncConfig) (w : World)
    → Restored digest cfg w (restore_state digest cfg w).1
unfolding restore_state
restore_state-Restored digest cfg w = record {
  genuine = λ m l. elim (Bool-cases (connect w).0) [
    | inl e ↦ genuine_load digest cfg w m (rw e at l)
    | inr e ↦ cc (rw e at l)
  ];
  followed = λ m s c e a.
      let here : Stores cfg (asked w).objects m = record {
        body = s.body;
        stored = ap (get (manifest_key cfg)) bucket ∙ s.stored;
        parsed = s.parsed;
      } in
      rw e (ap usable (load_manifest-stored cfg (asked w) m here c a));
  filled = elim (Bool-cases (connect w).0) [
    | inr e ↦ rw e ((connected_run digest cfg w none).at w (start digest cfg w none))
    | inl e ↦
        let loaded = usable (load_manifest cfg (asked w)).0 in
        rw e (
          (pull_with_run digest cfg loaded w.objects w.files
              (λ m l. stored-IsValid digest cfg w m (genuine_load digest cfg w m l))).at
            (load_manifest cfg (asked w)).1 (load_same digest cfg w loaded))
  ];
}
  where
    bucket : (asked w).objects ≡ w.objects
    bucket = (cleared digest cfg w none).untouched
