-- ===== src/Backup/Tick/Cycle.antt =====
-- The guards of the cycle, and the whole of it.
use vaultwarden_hummingbird.Base.{
  ℕ, Bool, true, false, not, Option, none, some, List, ◌≡◌, refl, All, if◌then◌else◌, leb, Result,
  ok, err,
}
use vaultwarden_hummingbird.Text.{Str, str_eq, byte_len}
use vaultwarden_hummingbird.Text.Words.{NoSpace}
use vaultwarden_hummingbird.BTree.{get}
use vaultwarden_hummingbird.Config.Spec.{DbBackupConfig}
use vaultwarden_hummingbird.Backup.Manifest.{
  Manifest, latest, next_generation, parse, from_listing, ParseError,
}
use vaultwarden_hummingbird.Backup.Manifest.Order.{IsValid, has_name-All}
use vaultwarden_hummingbird.Backup.Manifest.Format.{parse-IsValid}
use vaultwarden_hummingbird.Backup.Manifest.Listing.{
  All-from_listing, IsUsable, from_listing-IsValid,
}
use vaultwarden_hummingbird.Backup.World.{
  World, Answer, served, refused, lost, Object, text, dump, ask, head_answer, tail_answers,
}
use vaultwarden_hummingbird.Backup.Hoare.{
  IsTruthful, Step, Step-pure, Step-bind, Step-if, Step-request, tail-IsTruthful,
}
use vaultwarden_hummingbird.Backup.Lineage.{Known, Verdict, proceed, refuse, verdict}
use vaultwarden_hummingbird.Backup.Lineage
use vaultwarden_hummingbird.Backup.Bucket.{
  Trouble, load_manifest, get_optional_text, text_of, parsed_of, manifest_of, answered, flat,
  list_objects, dump_names, manifest_key, over_cap, max_manifest_bytes,
}
use vaultwarden_hummingbird.Backup.Tick.{
  exhausted, shadow_refused, list_failed, manifest_failed, undecidable_db, empty_db, no_client,
  object_name, on_next, on_verdict, guard_push, on_listed, with_manifest, connect, on_emptiness,
  is_empty_db, resolve_known, tick,
}
use vaultwarden_hummingbird.Backup.Tick.Sound.{Objects, Stores, Present, IsSound, Avoids}
use vaultwarden_hummingbird.Backup.Tick.Publish.{Sound}
use vaultwarden_hummingbird.Backup.Tick.Listed.{dump_names-Present}
use vaultwarden_hummingbird.Backup.Tick.Safety.{
  LiveFits, CanPush, stage_step, object_name-other, object_name-IsWord,
}

module _ (cfg : DbBackupConfig) (ts : Str) where
  abbrev name : Str
  name = object_name cfg ts

  -- This run's object name is new: no entry of the stored manifest has it, and without a manifest
  -- none of the listed dumps, whose listing is a usable one.
  pub record IsFresh (o : Objects) : Type 0 where
    pub unused : Avoids cfg o (object_name cfg ts)
    pub usable : get (manifest_key cfg) o ≡ none → IsUsable (dump_names cfg o)
    pub unlisted :
        get (manifest_key cfg) o ≡ none
        → All (λ n. str_eq n.0 (object_name cfg ts) ≡ false) (dump_names cfg o)

  abbrev Start : World → Type 0
  Start w = Sound cfg w × LiveFits w × IsFresh w.objects

  -- All that the pushing part asks of the manifest.
  record Ready (m : Manifest) (o : Objects) : Type 0 where
    valid : IsValid m
    there : All (λ x. Present cfg o x.name) m.entries
    new : All (λ x. str_eq x.name (object_name cfg ts) ≡ false) m.entries

  Ready-stored :
      (m : Manifest) (o : Objects) → IsSound cfg o → IsFresh o → Stores cfg o m → Ready m o
  Ready-stored m o s f st = record {
    valid = parse-IsValid st.body st.parsed;
    there = s.present m st;
    new = f.unused.other m st;
  }

  Ready-listed :
      (o : Objects)
      → IsFresh o
      → get (manifest_key cfg) o ≡ none
      → Ready (from_listing (dump_names cfg o)) o
  Ready-listed o f h = record {
    valid = from_listing-IsValid (dump_names cfg o) (f.usable h);
    there = All-from_listing (Present cfg o) (dump_names cfg o) (dump_names-Present cfg o);
    new =
        All-from_listing (λ n. str_eq n (object_name cfg ts) ≡ false) (dump_names cfg o)
          (f.unlisted h);
  }

  module _ (word : NoSpace ts) (m : Manifest) where
    abbrev Go : World → Type 0
    Go w = Start w × Ready m w.objects

    Go-can :
        (w : World) (known : Option ℕ) (g : ℕ)
        → Go w
        → next_generation m ≡ some g
        → CanPush cfg m known g name
    Go-can w known g p h = record {
      valid = p.1.valid;
      next = h;
      fresh = has_name-All m.entries name p.1.new;
      word = object_name-IsWord cfg ts word;
      other = object_name-other cfg ts;
    }

    on_next_step :
        (known next : Option ℕ)
        → next_generation m ≡ next
        → Step Go (on_next cfg ts m known next) (λ _ w. Sound cfg w)
    unfolding on_next
    on_next_step known none h = Step-pure exhausted (λ w p. p.0.0)
    on_next_step known (some g) h = record {
      at = λ w t p.
          (stage_step cfg m known g name (Go-can w known g p h)).at w t
            ((p.0.0, p.1.there, p.0.2.unused), p.0.1);
    }

    on_verdict_step :
        (known : Option ℕ) (v : Verdict)
        → Step Go (on_verdict cfg ts m known v) (λ _ w. Sound cfg w)
    unfolding on_verdict
    on_verdict_step known refuse = Step-pure shadow_refused (λ w p. p.0.0)
    on_verdict_step known proceed = on_next_step known (next_generation m) refl

    guard_push_step : Step Go (guard_push cfg ts m) (λ _ w. Sound cfg w)
    unfolding guard_push
    guard_push_step = record {
      at = λ w t p.
          let known = resolve_known (Lineage.read w) m in
          (on_verdict_step known (verdict known (latest m))).at w t p;
    }

  -- What is known after the manifest has been fetched.
  abbrev Loaded : Result Trouble (Option Manifest) → World → Type 0
  Loaded (ok none) w = Start w × (get (manifest_key cfg) w.objects ≡ none)
  Loaded (ok (some m)) w = Start w × Ready m w.objects
  Loaded (err e) w = Sound cfg w

  module _ (w : World) (p : Start w) where
    Loaded-parsed :
        (t : Str) (r : Result ParseError Manifest)
        → get (manifest_key cfg) w.objects ≡ some (text t)
        → parse t ≡ r
        → Loaded (parsed_of r) w
    Loaded-parsed t (ok m) h e =
        (p, Ready-stored m w.objects p.0 p.2 (record { body = t; stored = h; parsed = e }))
    Loaded-parsed t (err x) h e = p.0

    Loaded-object :
        (x : Option Object)
        → get (manifest_key cfg) w.objects ≡ x
        → Loaded (manifest_of (text_of x)) w
    Loaded-object none h = (p, h)
    Loaded-object (some (dump bytes)) h = p.0
    Loaded-object (some (text t)) h = go (leb (byte_len t) max_manifest_bytes)
      where
        go : (b : Bool) → Loaded (manifest_of (if b then ok (some t) else err over_cap)) w
        go true = Loaded-parsed t (parse t) h refl
        go false = p.0

    Loaded-answer :
        (a : Answer)
        → Loaded (manifest_of (flat (answered a (text_of (get (manifest_key cfg) w.objects))))) w
    Loaded-answer served = Loaded-object (get (manifest_key cfg) w.objects) refl
    Loaded-answer refused = p.0
    Loaded-answer lost = p.0

  load_manifest_step : Step Start (load_manifest cfg) Loaded
  unfolding load_manifest get_optional_text ask
  load_manifest_step = record {
    at = λ w t p. (
      tail-IsTruthful w.answers t,
      Loaded-answer (record w { answers = tail_answers w.answers }) p (head_answer w.answers),
    );
  }

  abbrev Listed : Result Trouble (List (Str × ℕ)) → World → Type 0
  Listed (ok l) w = Start w × Ready (from_listing l) w.objects
  Listed (err e) w = Sound cfg w

  Listed-answer :
      (w : World) (a : Answer)
      → Start w × (get (manifest_key cfg) w.objects ≡ none)
      → Listed (answered a (dump_names cfg w.objects)) w
  Listed-answer w served p = (p.0, Ready-listed w.objects p.0.2 p.1)
  Listed-answer w refused p = p.0.0
  Listed-answer w lost p = p.0.0

  list_objects_step :
      Step (λ w. Start w × (get (manifest_key cfg) w.objects ≡ none)) (list_objects cfg) Listed
  unfolding list_objects ask
  list_objects_step = record {
    at = λ w t p. (
      tail-IsTruthful w.answers t,
      Listed-answer (record w { answers = tail_answers w.answers }) (head_answer w.answers) p,
    );
  }

  connect_step : Step Start connect (λ _ w. Start w)
  unfolding connect
  connect_step =
      Step-request Start (λ _ w. Start w) (λ w. w) (λ w. refl) (λ w l p. p) (λ w p. p) (λ w p. p)

  module _ (word : NoSpace ts) where
    on_listed_step :
        (r : Result Trouble (List (Str × ℕ)))
        → Step (Listed r) (on_listed cfg ts r) (λ _ w. Sound cfg w)
    unfolding on_listed
    on_listed_step (ok l) = guard_push_step word (from_listing l)
    on_listed_step (err e) = Step-pure list_failed (λ w p. p)

    with_manifest_step :
        (r : Result Trouble (Option Manifest))
        → Step (Loaded r) (with_manifest cfg ts r) (λ _ w. Sound cfg w)
    unfolding with_manifest
    with_manifest_step (err e) = Step-pure manifest_failed (λ w p. p)
    with_manifest_step (ok (some m)) = guard_push_step word m
    with_manifest_step (ok none) = Step-bind {m = list_objects cfg} list_objects_step on_listed_step

    on_emptiness_step :
        (empty : Option Bool) → Step Start (on_emptiness cfg ts empty) (λ _ w. Sound cfg w)
    unfolding on_emptiness
    on_emptiness_step none = Step-pure undecidable_db (λ w p. p.0)
    on_emptiness_step (some true) = Step-pure empty_db (λ w p. p.0)
    on_emptiness_step (some false) = Step-bind {m = connect} connect_step λ connected.
        Step-if (not connected) (λ _. Step-pure no_client (λ w p. p.0))
          λ _. Step-bind {m = load_manifest cfg} load_manifest_step with_manifest_step

-- A cycle whose requests are answered truthfully, any of them refused and the run cut short after
-- any of them, leaves a manifest that names only objects that are in the bucket. It asks that the
-- bucket was so before, that the timestamp has no white space, that the object name which it
-- gives is not in the stored manifest, or without one not in a listing that the line format can
-- carry, and that the size of the copied database fits a `u64`.
pub tick-IsSound :
    (cfg : DbBackupConfig) (ts : Str) (stop : Bool) (w : World)
    → IsTruthful w.answers
    → NoSpace ts
    → LiveFits w
    → IsFresh cfg ts w.objects
    → IsSound cfg w.objects
    → IsSound cfg (tick cfg ts stop w).1.objects
unfolding tick
tick-IsSound cfg ts true w t s l f h = h
tick-IsSound cfg ts false w t s l f h =
    ((on_emptiness_step cfg ts s (is_empty_db w.live)).at w t (h, l, f)).1
