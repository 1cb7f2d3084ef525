-- ===== src/Sync/Push/Sound.antt =====
-- The loop of a push, whatever is answered.
use vaultwarden_hummingbird.Base.{
  ℕ, ◌≤◌, Bool, true, false, not, ◌&&◌, Option, none, some, List, [], ◌∷◌, ◌++◌, ◌≡◌, refl, ap, ◌∙◌,
  sym, subst, if◌then◌else◌, length, All, inl, inr, Bool-cases,
}
use vaultwarden_hummingbird.Text.{Str, str_eq, str_eq_iff}
use vaultwarden_hummingbird.BTree.{BTreeMap, get, insert, get-insert}
use vaultwarden_hummingbird.Config.Spec.{SyncConfig, sync_prefix}
use vaultwarden_hummingbird.Backup.World.{Object, dump, Answer}
use vaultwarden_hummingbird.Backup.Manifest.{u64_max}
use vaultwarden_hummingbird.Util.Hash.{sha256_file}
use vaultwarden_hummingbird.Sync.Manifest.{Entry, Manifest, insert_entry}
use vaultwarden_hummingbird.Sync.Manifest.Format.{IsValid}
use vaultwarden_hummingbird.Sync.Manifest.Valid.{insert_entry-IsValid}
use vaultwarden_hummingbird.Sync.World.{File, World}
use vaultwarden_hummingbird.Sync.Run.{
  Run, Run-pure, Run-bind, Run-if, Run-request, Run-read, Run-stopping,
}
use vaultwarden_hummingbird.Sync.Client.{manifest_key, put}
use vaultwarden_hummingbird.Sync.Push.{
  Progress, fail, upload_key, uploaded, upload, on_hash, hash_file, on_metadata, push_file,
  push_files, has, is_listed,
}
use vaultwarden_hummingbird.Sync.Push.Held.{
  IsFit, IsDigest, Held, Names, content_key, content_key-manifest, legacy-content_key,
  legacy-manifest_key, Held-content, Held-here, Held-other, sha256_file-IsSha, sha256_file-IsHex,
}

module _ (digest : List ℕ → List ℕ) (is_digest : IsDigest digest) (cfg : SyncConfig)
    (before : BTreeMap Object) (files : BTreeMap File)
    (small : (rel : Str) (f : File) → get rel files ≡ some f → length f.bytes ≤ u64_max) where
  -- The manifest object is as it was, and no copy is lost.
  pub record Inv (objects : BTreeMap Object) : Type 0 where
    pub copies :
        (rel hash : Str) → Held digest cfg before rel hash → Held digest cfg objects rel hash
    pub manifest : get (manifest_key cfg) objects ≡ get (manifest_key cfg) before

  -- A manifest that may be published.
  pub record Good (objects : BTreeMap Object) (m : Manifest) : Type 0 where
    pub valid : IsValid m
    pub names : Names digest cfg before objects m

  pub record Going (publish : Bool) (m : Manifest) (w : World) : Type 0 where
    pub inv : Inv w.objects
    pub good : publish ≡ true → Good w.objects m
    pub same : w.files ≡ files

  pub Going-stable :
      (publish : Bool) (m : Manifest) (w : World) (l : List Answer)
      → Going publish m w
      → Going publish m (record w { answers = l })
  Going-stable publish m w l p = record { inv = p.inv; good = p.good; same = p.same }

  pub Names-map :
      (objects after : BTreeMap Object) (m : Manifest)
      → ((r h : Str) → Held digest cfg objects r h → Held digest cfg after r h)
      → Names digest cfg before objects m
      → Names digest cfg before after m
  Names-map objects after m f n = record {
    names =
        λ r e g. elim (n.names r e g) [ inl held ↦ inl (f r e.sha256 held) | inr old ↦ inr old ];
  }

  Names-insert :
      (objects : BTreeMap Object) (m : Manifest) (rel : Str) (e : Entry)
      → Held digest cfg objects rel e.sha256
      → Names digest cfg before objects m
      → Names digest cfg before objects (insert_entry m rel e)
  unfolding insert_entry
  Names-insert objects m rel e held n = record {
    names = λ r x g. elim (Bool-cases (str_eq rel r)) [
      | inl same ↦
          let path : rel ≡ r = (str_eq_iff rel r).0 same in
          let entry : e ≡ x = (cc (rw (get-insert, same) at g)) in
          inl (
            subst (λ y. Held digest cfg objects r y.sha256) entry
              (subst (λ y. Held digest cfg objects y e.sha256) path held))
      | inr other ↦ n.names r x (rw (get-insert, other) at g)
    ];
  }

  -- What is put under the content's own key, or in the legacy layout under the path.
  upload-Going :
      (publish : Bool) (rel : Str) (s : Progress) (f : File) (w : World)
      → IsFit rel
      → length f.bytes ≤ u64_max
      → Going publish s.manifest w
      → let hash = sha256_file digest f.bytes in
        let w' = record w {
          objects = insert (upload_key cfg publish rel hash) (dump f.bytes) w.objects;
        } in
        Going publish (uploaded s rel f hash).manifest w' × Going publish s.manifest w'
  unfolding upload_key uploaded
  upload-Going true rel s f w fit sized p =
      let hash = sha256_file digest f.bytes in
      let after = insert (content_key cfg rel hash) (dump f.bytes) w.objects in
      let keep : (r h : Str) → Held digest cfg w.objects r h → Held digest cfg after r h =
        λ r h. Held-content digest cfg is_digest w.objects rel r h f.bytes in
      let inv : Inv after = record {
        copies = λ r h held. keep r h (p.inv.copies r h held);
        manifest = rw (get-insert, content_key-manifest cfg rel hash) p.inv.manifest;
      } in
      let good = p.good refl in
      let names = Names-map w.objects after s.manifest keep good.names in
      let e : Entry = record { size = length f.bytes; sha256 = hash } in
      (
        record {
          inv = inv;
          good = λ _. record {
            valid = insert_entry-IsValid s.manifest rel e good.valid (record {
              path = fit.path;
              sha = sha256_file-IsSha digest cfg is_digest f.bytes;
              lower = (sha256_file-IsHex digest cfg is_digest f.bytes).lower;
              size_fits = sized;
            });
            names =
                Names-insert after s.manifest rel e
                  (Held-here digest cfg is_digest w.objects rel f.bytes) names;
          };
          same = p.same;
        },
        record {
          inv = inv;
          good = λ _. record { valid = good.valid; names = names };
          same = p.same;
        },
      )
  upload-Going false rel s f w fit sized p =
      let inv : Inv (insert (sync_prefix cfg ++ rel) (dump f.bytes) w.objects) = record {
        copies = λ r h held.
            Held-other digest cfg w.objects (sync_prefix cfg ++ rel) (dump f.bytes) r h
              (legacy-content_key cfg rel r h fit) (p.inv.copies r h held);
        manifest = rw (get-insert, legacy-manifest_key cfg rel fit) p.inv.manifest;
      } in
      (
        record { inv = inv; good = λ e. cc e; same = p.same },
        record { inv = inv; good = λ e. cc e; same = p.same },
      )

  upload_run :
      (publish : Bool) (rel : Str) (s : Progress) (f : File)
      → IsFit rel
      → length f.bytes ≤ u64_max
      → Run
          (Going publish s.manifest)
          (upload cfg publish rel s f (sha256_file digest f.bytes))
          (λ t w. Going publish t.manifest w)
  unfolding upload put
  upload_run publish rel s f fit sized =
      Run-bind
        (Run-request (Going publish s.manifest) (Going-stable publish s.manifest)
          (λ done w.
            Going publish
              (if done then uploaded s rel f (sha256_file digest f.bytes) else fail s).manifest w)
          _ (λ w p. upload-Going publish rel s f w fit sized p) (λ w p. p))
        (λ done.
          Run-pure (if done then uploaded s rel f (sha256_file digest f.bytes) else fail s)
            (λ w p. p))

  on_hash_run :
      (publish : Bool) (rel : Str) (s : Progress) (f : File) (hash : Option Str)
      → IsFit rel
      → length f.bytes ≤ u64_max
      → Run
          (λ w.
            Going publish s.manifest w
            × ((h : Str) → hash ≡ some h → sha256_file digest f.bytes ≡ h))
          (on_hash cfg publish rel s f hash)
          (λ t w. Going publish t.manifest w)
  unfolding on_hash
  on_hash_run publish rel s f none fit sized = Run-pure (fail s) (λ w p. p.0)
  on_hash_run publish rel s f (some hash) fit sized =
      Run-if (not (has rel s.repair) && is_listed s rel hash (length f.bytes))
        (λ _. Run-pure _ (λ w p. p.0))
        (λ _. record {
          at = λ w p.
              subst
                (λ h.
                  Going publish (upload cfg publish rel s f h w).0.manifest
                    (upload cfg publish rel s f h w).1)
                (p.1 hash refl) ((upload_run publish rel s f fit sized).at w p.0);
        })

  on_metadata_run :
      (publish : Bool) (rel : Str) (s : Progress) (found : Option File)
      → IsFit rel
      → Run
          (λ w.
            Going publish s.manifest w × ((f : File) → found ≡ some f → length f.bytes ≤ u64_max))
          (on_metadata digest cfg publish rel s found)
          (λ t w. Going publish t.manifest w)
  unfolding on_metadata hash_file
  on_metadata_run publish rel s none fit = Run-pure (fail s) (λ w p. p.0)
  on_metadata_run publish rel s (some f) fit =
      Run-if _ (λ _. Run-pure s (λ w p. p.0))
        (λ _. record {
          at = λ w p.
              let sized = p.1 f refl in
              (Run-bind {P = Going publish s.manifest}
                  (Run-read (Going publish s.manifest) (Going-stable publish s.manifest)
                    (λ w. some (sha256_file digest f.bytes))
                    (λ hash w.
                      Going publish s.manifest w
                      × ((h : Str) → hash ≡ some h → sha256_file digest f.bytes ≡ h))
                    (λ w l p. (Going-stable publish s.manifest w l p, λ h e. cc e))
                    (λ w p. (p, λ h e. cc e)))
                  (λ hash. on_hash_run publish rel s f hash fit sized)).at
                w p.0;
        })

  push_file_run :
      (publish : Bool) (rel : Str) (s : Progress)
      → IsFit rel
      → Run
          (Going publish s.manifest)
          (push_file digest cfg publish rel s)
          (λ t w. Going publish t.manifest w)
  unfolding push_file
  push_file_run publish rel s fit =
      Run-bind
        (Run-read (Going publish s.manifest) (Going-stable publish s.manifest)
          (λ w. get rel w.files)
          (λ found w.
            Going publish s.manifest w × ((f : File) → found ≡ some f → length f.bytes ≤ u64_max))
          (λ w l p. (
            Going-stable publish s.manifest w l p,
            λ f e. small rel f (sym (ap (get rel) p.same) ∙ e),
          ))
          (λ w p. (p, λ f e. cc e)))
        (λ found. on_metadata_run publish rel s found fit)

  abbrev pub Went : Bool → Option Progress → World → Type 0
  Went publish none w = Inv w.objects
  Went publish (some t) w = Going publish t.manifest w

  pub push_files_run :
      (publish : Bool) (rels : List Str) (s : Progress)
      → All IsFit rels
      → Run (Going publish s.manifest) (push_files digest cfg publish rels s) (Went publish)
  unfolding push_files
  push_files_run publish [] s fits = Run-pure (some s) (λ w p. p)
  push_files_run publish (rel ∷ rels) s fits =
      Run-bind (Run-stopping (Going publish s.manifest) (Going-stable publish s.manifest)) (λ stop.
        Run-if stop (λ _. Run-pure none (λ w p. p.inv))
          (λ _.
            Run-bind (push_file_run publish rel s fits.0)
              (λ t. push_files_run publish rels t fits.1)))
