-- ===== src/Backup/Tick/Guards.antt =====
-- What the guards of a cycle keep from happening.
use vaultwarden_hummingbird.Base.{
  Bool, true, false, not, Option, none, some, List, ◌≡◌, refl, ◌⊎◌, inl, inr, leb, if◌then◌else◌,
  Result, ok, err,
}
use vaultwarden_hummingbird.Text.{Str, byte_len}
use vaultwarden_hummingbird.BTree.{get}
use vaultwarden_hummingbird.Config.Spec.{DbBackupConfig}
use vaultwarden_hummingbird.Backup.Manifest.{Manifest, ParseError, parse, latest, from_listing}
use vaultwarden_hummingbird.Backup.World.{
  World, Answer, served, refused, lost, Object, text, dump, ask, request, settle, head_answer,
  tail_answers, pure, ◌>>=◌,
}
use vaultwarden_hummingbird.Backup.Lineage.{Verdict, proceed, refuse, verdict}
use vaultwarden_hummingbird.Backup.Lineage
use vaultwarden_hummingbird.Backup.Bucket.{
  over_cap, load_manifest, get_optional_text, text_of, parsed_of, manifest_of, answered, flat,
  list_objects, dump_names, manifest_key, max_manifest_bytes,
}
use vaultwarden_hummingbird.Backup.Tick.{
  no_client, on_verdict, guard_push, on_listed, with_manifest, connect, on_emptiness, is_empty_db,
  resolve_known, tick,
}
use vaultwarden_hummingbird.Backup.Tick.Sound.{Stores}

-- Which manifest a cycle goes by: the stored one, or without one the listing's.
abbrev pub Found : DbBackupConfig → World → Manifest → Type 0
Found cfg w m =
    Stores cfg w.objects m
    ⊎ ((get (manifest_key cfg) w.objects ≡ none) × (m ≡ from_listing (dump_names cfg w.objects)))

-- The database holds tables, and its lineage is not behind the bucket's newest generation.
pub record MayPush (cfg : DbBackupConfig) (w : World) : Type 0 where
  pub manifest : Manifest
  pub found : Found cfg w manifest
  pub filled : is_empty_db w.live ≡ some false
  pub owns : verdict (resolve_known (Lineage.read w) manifest) (latest manifest) ≡ proceed

-- Neither the bucket nor the files that outlive a cycle have changed.
pub record Untouched (w w' : World) : Type 0 where
  pub objects : w'.objects ≡ w.objects
  pub sidecar : w'.sidecar ≡ w.sidecar
  pub retained : w'.retained ≡ w.retained
  pub live : w'.live ≡ w.live

module _ (cfg : DbBackupConfig) (ts : Str) (w : World)
    (filled : is_empty_db w.live ≡ some false) where
  -- From here on only the answers that are left differ from `w`.
  abbrev later : List Answer → World
  later l = record w { answers = l }

  abbrev Guarded : World → Type 0
  Guarded w' = MayPush cfg w ⊎ Untouched w w'

  same : (l : List Answer) → Guarded (later l)
  same l = inr (record { objects = refl; sidecar = refl; retained = refl; live = refl })

  guard_push-Guarded :
      (m : Manifest) (l : List Answer) → Found cfg w m → Guarded (guard_push cfg ts m (later l)).1
  unfolding guard_push on_verdict Lineage.read
  guard_push-Guarded m l f = go (verdict (resolve_known (Lineage.read (later l)) m) (latest m)) refl
    where
      go :
          (v : Verdict)
          → verdict (resolve_known (Lineage.read w) m) (latest m) ≡ v
          → Guarded (on_verdict cfg ts m (resolve_known (Lineage.read (later l)) m) v (later l)).1
      go proceed h = inl (record { manifest = m; found = f; filled = filled; owns = h })
      go refuse h = same l

  list_objects-Guarded :
      (l : List Answer)
      → get (manifest_key cfg) w.objects ≡ none
      → Guarded (with_manifest cfg ts (ok none) (later l)).1
  unfolding with_manifest list_objects ask on_listed
  list_objects-Guarded l h = go (head_answer l)
    where
      go :
          (a : Answer)
          → Guarded
              (on_listed cfg ts (answered a (dump_names cfg w.objects)) (later (tail_answers l))).1
      go served =
          guard_push-Guarded (from_listing (dump_names cfg w.objects)) (tail_answers l)
            (inr (h, refl))
      go refused = same (tail_answers l)
      go lost = same (tail_answers l)

  parsed-Guarded :
      (l : List Answer) (t : Str) (r : Result ParseError Manifest)
      → get (manifest_key cfg) w.objects ≡ some (text t)
      → parse t ≡ r
      → Guarded (with_manifest cfg ts (parsed_of r) (later l)).1
  unfolding with_manifest
  parsed-Guarded l t (ok m) h e =
      guard_push-Guarded m l (inl (record { body = t; stored = h; parsed = e }))
  parsed-Guarded l t (err x) h e = same l

  object-Guarded :
      (l : List Answer) (x : Option Object)
      → get (manifest_key cfg) w.objects ≡ x
      → Guarded (with_manifest cfg ts (manifest_of (text_of x)) (later l)).1
  object-Guarded l none h = list_objects-Guarded l h
  object-Guarded l (some (dump bytes)) h = unfold with_manifest in same l
  object-Guarded l (some (text t)) h = go (leb (byte_len t) max_manifest_bytes)
    where
      go :
          (b : Bool)
          → Guarded
              (with_manifest cfg ts
                (manifest_of (if b then ok (some t) else err over_cap))
                (later l)).1
      go true = parsed-Guarded l t (parse t) h refl
      go false = unfold with_manifest in same l

  load-Guarded :
      (l : List Answer) (a : Answer)
      → Guarded
          (with_manifest cfg ts
            (manifest_of (flat (answered a (text_of (get (manifest_key cfg) w.objects)))))
            (later l)).1
  load-Guarded l served = object-Guarded l (get (manifest_key cfg) w.objects) refl
  load-Guarded l refused = unfold with_manifest in same l
  load-Guarded l lost = unfold with_manifest in same l

  connect-Guarded :
      (a : Answer) (l : List Answer)
      → Guarded
          (let r = settle a (λ x. x) (later l) in
            (if not r.0
                then pure no_client
                else do loaded ← load_manifest cfg; with_manifest cfg ts loaded)
              r.1).1
  unfolding settle load_manifest get_optional_text ask
  connect-Guarded served l = load-Guarded (tail_answers l) (head_answer l)
  connect-Guarded refused l = same l
  connect-Guarded lost l = same l

  on_emptiness-Guarded : Guarded (on_emptiness cfg ts (some false) w).1
  unfolding on_emptiness connect request
  on_emptiness-Guarded = connect-Guarded (head_answer w.answers) (tail_answers w.answers)

-- Whatever is answered, a cycle leaves the bucket, the sidecar, the retained dump and the database
-- alone unless the database is known to hold tables and the bucket's manifest, stored or listed,
-- has no generation that is newer than this database's own.
pub tick-MayPush :
    (cfg : DbBackupConfig) (ts : Str) (stop : Bool) (w : World)
    → MayPush cfg w ⊎ Untouched w (tick cfg ts stop w).1
unfolding tick
tick-MayPush cfg ts true w =
    inr (record { objects = refl; sidecar = refl; retained = refl; live = refl })
tick-MayPush cfg ts false w = go (is_empty_db w.live) refl
  where
    go :
        (empty : Option Bool)
        → is_empty_db w.live ≡ empty
        → MayPush cfg w ⊎ Untouched w (on_emptiness cfg ts empty w).1
    go none h =
        unfold on_emptiness in
        inr (record { objects = refl; sidecar = refl; retained = refl; live = refl })
    go (some true) h =
        unfold on_emptiness in
        inr (record { objects = refl; sidecar = refl; retained = refl; live = refl })
    go (some false) h = on_emptiness-Guarded cfg ts w h
