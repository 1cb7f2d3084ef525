-- ===== src/Sync/Pull/Fill.antt =====
-- What one target of a pull does to the files, whatever is answered.
use vaultwarden_hummingbird.Base.{
  ℕ, Bool, true, false, not, ◌&&◌, ◌||◌, Option, none, some, List, [], ◌∷◌, ◌++◌, ◌≡◌, refl, ap,
  sym, subst, arith, ==_iff, leb, length, ◌⊎◌, inl, inr, Bool-cases,
}
use vaultwarden_hummingbird.Text.{Str, codes, str_eq, str_eq_iff, ends_with, starts_with}
use vaultwarden_hummingbird.BTree.{BTreeMap, get, insert, get-insert}
use vaultwarden_hummingbird.Config.Spec.{SyncConfig}
use vaultwarden_hummingbird.Backup.World.{Object, Answer, head_answer, tail_answers}
use vaultwarden_hummingbird.Backup.Restore.{body}
use vaultwarden_hummingbird.Util.Hash.{sha256_file}
use vaultwarden_hummingbird.Sync.Manifest.{Entry, Manifest}
use vaultwarden_hummingbird.Sync.Synced.{is_synced_file}
use vaultwarden_hummingbird.Sync.World.{File, World, answered, is_served}
use vaultwarden_hummingbird.Sync.Run.{Run, Run-pure, Run-bind, Run-if, Run-request}
use vaultwarden_hummingbird.Sync.Client.{exists}
use vaultwarden_hummingbird.Sync.Push.Held.{content_key}
use vaultwarden_hummingbird.Sync.Pull.{
  size_met, hash_met, max_sync_object_bytes, Expect, Target, expected, publish, meets, fetch,
  fallback, download, create_parent, legacy_key, primary_key, is_some,
}

pub exists_get :
    (rel : Str) (files : BTreeMap File) → exists rel files ≡ false → get rel files ≡ none
unfolding exists get
exists_get rel [] h = refl
exists_get rel ((x, f) ∷ files) h = elim (Bool-cases (str_eq x rel)) [
  | inl e ↦ cc (rw e at h)
  | inr e ↦ rw e (
      exists_get rel files
        (tail_of (str_eq x rel) (starts_with (rel ++ b'/' ∷ []) x) (exists rel files) h))
]
  where
    tail_of : (a b c : Bool) → (a || b || c) ≡ false → c ≡ false
    tail_of a b c e = ground (arith, e)

module _ (digest : List ℕ → List ℕ) (cfg : SyncConfig) (loaded : Option Manifest)
    (objects : BTreeMap Object) (files : BTreeMap File) where
  -- Why a file's bytes may be trusted: they have the hash and the size that the manifest gives for
  -- the path; or the object's key gives their hash; or, where there is no manifest, the object stands
  -- under the path itself.
  pub data Checked (rel : Str) (bytes : List ℕ) (key : Str) : Type 0 where
    by_manifest :
        (m : Manifest) (e : Entry)
        → loaded ≡ some m
        → get rel m.entries ≡ some e
        → sha256_file digest bytes ≡ e.sha256
        → length bytes ≡ e.size
        → Checked rel bytes key
    by_key : key ≡ content_key cfg rel (sha256_file digest bytes) → Checked rel bytes key
    by_path : loaded ≡ none → key ≡ legacy_key cfg rel → Checked rel bytes key

  -- A file that the pull has put in place: it is in the set, and holds the bytes of an object.
  pub record Fetched (rel : Str) (f : File) : Type 0 where
    pub synced : is_synced_file rel cfg.state_file ≡ true
    pub key : Str
    pub object : Object
    pub stored : get key objects ≡ some object
    pub same : body object ≡ f.bytes
    pub checked : Checked rel f.bytes key

  -- The bucket is as it was, no file but a partial download is lost or changed, and each new one was
  -- fetched.
  pub record Filled (w : World) : Type 0 where
    pub untouched : w.objects ≡ objects
    pub kept :
        (rel : Str) (f : File)
        → get rel files ≡ some f
        → ends_with (codes ".part") rel ≡ false
        → get rel w.files ≡ some f
    pub fresh :
        (rel : Str) (f : File) → get rel w.files ≡ some f → (get rel files ≡ some f) ⊎ Fetched rel f

  pub Filled-stable : (w : World) (l : List Answer) → Filled w → Filled (record w { answers = l })
  Filled-stable w l p = record { untouched = p.untouched; kept = p.kept; fresh = p.fresh }

  abbrev pub Gap : Str → World → Type 0
  Gap rel w = Filled w × (get rel w.files ≡ none)

  Filled-insert :
      (rel : Str) (f : File) (w : World)
      → Gap rel w
      → Fetched rel f
      → Filled (record w { files = insert rel f w.files })
  Filled-insert rel f w p new = record {
    untouched = p.0.untouched;
    kept = λ r g e n. elim (Bool-cases (str_eq rel r)) [
      | inl same ↦
          let path : rel ≡ r = (str_eq_iff rel r).0 same in
          cc (p.1, p.0.kept r g e n, ap (λ x. get x w.files) path)
      | inr other ↦ rw (get-insert, other) (p.0.kept r g e n)
    ];
    fresh = λ r g e. elim (Bool-cases (str_eq rel r)) [
      | inl same ↦
          let path : rel ≡ r = (str_eq_iff rel r).0 same in
          let file : f ≡ g = cc (rw (get-insert, same) at e) in
          inr (subst (λ x. Fetched x g) path (subst (λ x. Fetched rel x) file new))
      | inr other ↦ p.0.fresh r g (rw (get-insert, other) at e)
    ];
  }

  abbrev pub After : Str → Bool → World → Type 0
  After rel true w = Filled w
  After rel false w = Gap rel w

  module _ (rel key : Str) (expect : Expect) (synced : is_synced_file rel cfg.state_file ≡ true)
      (trust : (bytes : List ℕ) → meets digest expect bytes ≡ true → Checked rel bytes key) where
    publish-After :
        (o : Option Object) (w : World)
        → get key objects ≡ o
        → Gap rel w
        → After rel (publish digest rel expect o w).0 (publish digest rel expect o w).1
    publish-After none w e p = p
    publish-After (some o) w e p = elim (Bool-cases (meets digest expect (body o))) [
      | inl t ↦ rw t (
          Filled-insert rel (record { bytes = body o; mtime = w.clock; ctime = w.clock }) w p
            (record {
              synced = synced;
              key = key;
              object = o;
              stored = e;
              same = refl;
              checked = trust (body o) t;
            }))
      | inr t ↦ rw t p
    ]

    pub fetch_run : Run (Gap rel) (fetch digest key rel expect) (After rel)
    unfolding fetch
    fetch_run = record {
      at = λ w p.
          let q : Gap rel (answered w) = (Filled-stable w (tail_answers w.answers) p.0, p.1) in
          elim (Bool-cases (is_served (head_answer w.answers))) [
            | inl e ↦ rw e (
                publish-After (get key w.objects) (answered w) (sym (ap (get key) p.0.untouched)) q)
            | inr e ↦ rw e q
          ];
    }

  -- Where a target comes from: an entry of the manifest, or a listing without one.
  pub data From (t : Target) : Type 0 where
    entry :
        (m : Manifest) (e : Entry)
        → loaded ≡ some m
        → get t.rel m.entries ≡ some e
        → t.size ≡ some e.size
        → t.sha256 ≡ some e.sha256
        → From t
    listed : loaded ≡ none → t.sha256 ≡ none → From t

  meets-Checked :
      (t : Target) (key : Str) (bytes : List ℕ)
      → From t
      → (t.sha256 ≡ none → key ≡ legacy_key cfg t.rel)
      → meets digest (expected t) bytes ≡ true
      → Checked t.rel bytes key
  unfolding meets
  meets-Checked t key bytes (entry m e l g s h) k c =
      let hash =
        and_right (leb (length bytes) max_sync_object_bytes && size_met t.size bytes)
          (hash_met digest t.sha256 bytes) c in
      by_manifest m e l g ((str_eq_iff (sha256_file digest bytes) e.sha256).0 (rw h at hash)) (
        (==_iff (length bytes) e.size).0 (
          rw s at (
            and_mid (leb (length bytes) max_sync_object_bytes) (size_met t.size bytes)
              (hash_met digest t.sha256 bytes) c)))
    where
      and_right : (a b : Bool) → (a && b) ≡ true → b ≡ true
      and_right a b e = ground (arith, e)

      and_mid : (a b d : Bool) → (a && b && d) ≡ true → b ≡ true
      and_mid a b d e = ground (arith, e)
  meets-Checked t key bytes (listed l h) k c = by_path l (k h)

  pub download_run :
      (t : Target)
      → is_synced_file t.rel cfg.state_file ≡ true
      → From t
      → Run (Gap t.rel) (download digest cfg t) (λ _ w. Filled w)
  unfolding download
  download_run t synced from =
      Run-bind {m = fetch digest (primary_key cfg t.rel t.sha256) t.rel (expected t)}
        (fetch_run t.rel (primary_key cfg t.rel t.sha256) (expected t) synced (λ bytes c.
          meets-Checked t (primary_key cfg t.rel t.sha256) bytes from
            (λ h. unfold primary_key in rw h refl) c))
        (λ done. fallback_run done)
    where
      gap_or : (b : Bool) (w : World) → After t.rel b w → Filled w
      gap_or true w p = p
      gap_or false w p = p.0

      legacy_run :
          Run (Gap t.rel) (fetch digest (legacy_key cfg t.rel) t.rel (expected t)) (λ _ w. Filled w)
      legacy_run = record {
        at = λ w p. gap_or _ _ (
            (fetch_run t.rel (legacy_key cfg t.rel) (expected t) synced
                (λ bytes c. meets-Checked t (legacy_key cfg t.rel) bytes from (λ h. refl) c)).at
              w p);
      }

      fallback_run :
          (done : Bool)
          → Run (After t.rel done) (fallback digest cfg t (expected t) done) (λ _ w. Filled w)
      fallback_run true = unfold fallback in Run-pure true (λ w p. p)
      fallback_run false =
          unfold fallback in
          Run-if
            (is_some t.sha256
              && not (str_eq (primary_key cfg t.rel t.sha256) (legacy_key cfg t.rel)))
            (λ _. legacy_run) (λ _. Run-pure false (λ w p. p.0))

  pub create_parent_run : (rel : Str) → Run (Gap rel) create_parent (λ _ w. Gap rel w)
  unfolding create_parent
  create_parent_run rel =
      Run-request (Gap rel) (λ w l p. (Filled-stable w l p.0, p.1)) (λ _ w. Gap rel w) (λ w. w)
        (λ w p. (p, p)) (λ w p. p)
