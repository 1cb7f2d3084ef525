-- ===== src/Sync/Push/Held.antt =====
-- The bucket keys of a push, and what stands under them.
use vaultwarden_hummingbird.Base.{
  ℕ, ◌*◌, true, false, Option, none, some, List, [], ◌∷◌, ◌++◌, ◌≡◌, refl, ap, ◌∙◌, sym, subst,
  length, Result, ok, err, ◌⊎◌, inl, inr, Bool-cases, leb,
}
use vaultwarden_hummingbird.Text.{
  Str, codes, str_eq, str_eq_iff, starts_with, strip_prefix, rsplit_once, Lacks, byte_len,
  is_hexdigit,
}
use vaultwarden_hummingbird.Text.Split.{==_refl, strip_prefix-append, rsplit_once-append}
use vaultwarden_hummingbird.BTree.{BTreeMap, get, insert, get-insert}
use vaultwarden_hummingbird.Config.Spec.{SyncConfig, sync_prefix}
use vaultwarden_hummingbird.Backup.World.{Object, text, dump}
use vaultwarden_hummingbird.Backup.Restore.{body}
use vaultwarden_hummingbird.Util.Hash.{sha256_file, IsBytes, IsHex, hex-IsHex}
use vaultwarden_hummingbird.Sync.Manifest.{
  Entry, Manifest, ParseError, parse, is_sha256, max_manifest_bytes,
}
use vaultwarden_hummingbird.Sync.Manifest.Format.{IsPath, sha-Lacks}
use vaultwarden_hummingbird.Sync.Objects.{object_key}
use vaultwarden_hummingbird.Sync.Client.{text_of, parsed, manifest_of, manifest_key}

abbrev pub content_key : SyncConfig → Str → Str → Str
content_key cfg rel hash = sync_prefix cfg ++ object_key rel hash

pub append-cancel : (p a b : Str) → p ++ a ≡ p ++ b → a ≡ b
append-cancel p a b e =
    let h = sym (strip_prefix-append p a) ∙ ap (strip_prefix p) e ∙ strip_prefix-append p b in cc h

content_key-hash :
    (cfg : SyncConfig) (rel hash r h : Str)
    → Lacks b'/' hash
    → Lacks b'/' h
    → content_key cfg rel hash ≡ content_key cfg r h
    → hash ≡ h
unfolding object_key
content_key-hash cfg rel hash r h k l e =
    let under = append-cancel (sync_prefix cfg) _ _ e in
    let tail = append-cancel (codes "objects/") _ _ under in
    cc (
      rsplit_once-append b'/' rel hash k,
      rsplit_once-append b'/' r h l,
      ap (rsplit_once b'/') tail,
    )

pub content_key-manifest :
    (cfg : SyncConfig) (rel hash : Str)
    → str_eq (content_key cfg rel hash) (manifest_key cfg) ≡ false
unfolding manifest_key object_key
content_key-manifest cfg rel hash =
    elim (Bool-cases (str_eq (content_key cfg rel hash) (manifest_key cfg))) [
      | inl e ↦
          let k = append-cancel (sync_prefix cfg) _ _ ((str_eq_iff _ _).0 e) in
          let apart : true ≡ false = unfold starts_with in ap (starts_with (codes "o")) k in
          cc apart
      | inr e ↦ e
    ]

-- A path of a synced file that its keys and the manifest's lines can carry.
pub record IsFit (rel : Str) : Type 0 where
  pub path : IsPath rel
  pub other : str_eq rel (codes "manifest") ≡ false
  pub outside : starts_with (codes "objects/") rel ≡ false

starts_with-append : (p s : Str) → starts_with p (p ++ s) ≡ true
unfolding starts_with
starts_with-append [] s = refl
starts_with-append (c ∷ p) s = rw (==_refl c, starts_with-append p s)

pub legacy-content_key :
    (cfg : SyncConfig) (rel r h : Str)
    → IsFit rel
    → str_eq (sync_prefix cfg ++ rel) (content_key cfg r h) ≡ false
legacy-content_key cfg rel r h f =
    elim (Bool-cases (str_eq (sync_prefix cfg ++ rel) (content_key cfg r h))) [
      | inl e ↦
          let k = append-cancel (sync_prefix cfg) _ _ ((str_eq_iff _ _).0 e) in
          let inside : starts_with (codes "objects/") (object_key r h) ≡ true =
            unfold object_key in starts_with-append (codes "objects/") (r ++ b'/' ∷ h) in
          cc (f.outside, ap (starts_with (codes "objects/")) k, inside)
      | inr e ↦ e
    ]

pub legacy-manifest_key :
    (cfg : SyncConfig) (rel : Str)
    → IsFit rel
    → str_eq (sync_prefix cfg ++ rel) (manifest_key cfg) ≡ false
unfolding manifest_key
legacy-manifest_key cfg rel f =
    elim (Bool-cases (str_eq (sync_prefix cfg ++ rel) (manifest_key cfg))) [
      | inl e ↦
          let k = append-cancel (sync_prefix cfg) _ _ ((str_eq_iff _ _).0 e) in
          cc (f.other, (str_eq_iff rel (codes "manifest")).1 k)
      | inr e ↦ e
    ]

-- Some manifest is stored, and can be read.
pub record Stores (cfg : SyncConfig) (objects : BTreeMap Object) (m : Manifest) : Type 0 where
  pub body : Str
  pub stored : get (manifest_key cfg) objects ≡ some (text body)
  pub parsed : parse body ≡ ok m

-- A manifest that was loaded is the one that is stored.
pub loaded-Stores :
    (cfg : SyncConfig) (before : BTreeMap Object) (o : Option Object) (m : Manifest)
    → get (manifest_key cfg) before ≡ o
    → manifest_of (text_of o) ≡ ok (some m)
    → Stores cfg before m
loaded-Stores cfg before none m e h = cc h
loaded-Stores cfg before (some (dump b)) m e h = cc h
loaded-Stores cfg before (some (text t)) m e h =
    elim (Bool-cases (leb (byte_len t) max_manifest_bytes)) [
      | inl c ↦ parsed-Stores (parse t) refl (rw c at h)
      | inr c ↦ cc (rw c at h)
    ]
  where
    parsed-Stores :
        (r : Result ParseError Manifest)
        → parse t ≡ r
        → parsed r ≡ ok (some m)
        → Stores cfg before m
    parsed-Stores (ok m') k l = record { body = t; stored = e; parsed = k ∙ ap ok (cc l) }
    parsed-Stores (err x) k l = cc l

-- What a digest is: 32 bytes.
pub record IsDigest (digest : List ℕ → List ℕ) : Type 0 where
  pub bytes : (b : List ℕ) → IsBytes (digest b)
  pub count : (b : List ℕ) → length (digest b) ≡ 32

module _ (digest : List ℕ → List ℕ) (cfg : SyncConfig) where
  -- The bucket holds content of this hash under the path's content-addressed key.
  pub record Held (objects : BTreeMap Object) (rel hash : Str) : Type 0 where
    pub object : Object
    pub found : get (content_key cfg rel hash) objects ≡ some object
    pub matches : sha256_file digest (body object) ≡ hash

  -- Every entry of a manifest is held, or was one of a manifest that was there before.
  pub record Names (before objects : BTreeMap Object) (m : Manifest) : Type 0 where
    pub names :
        (rel : Str) (e : Entry)
        → get rel m.entries ≡ some e
        → Held objects rel e.sha256
          ⊎ ((m0 : Manifest) × Stores cfg before m0 × (get rel m0.entries ≡ some e))

  -- No copy is lost, and a manifest that can be read names what is there.
  pub record Kept (before objects : BTreeMap Object) : Type 0 where
    pub copies : (rel hash : Str) → Held before rel hash → Held objects rel hash
    pub named : (m : Manifest) → Stores cfg objects m → Names before objects m

  module _ (is_digest : IsDigest digest) where
    pub sha256_file-IsHex : (b : List ℕ) → IsHex 64 (sha256_file digest b)
    unfolding sha256_file
    sha256_file-IsHex b =
        subst (λ n. IsHex (2 * n) (sha256_file digest b)) (is_digest.count b)
          (hex-IsHex (digest b) (is_digest.bytes b)).0

    pub sha256_file-IsSha : (b : List ℕ) → is_sha256 (sha256_file digest b) ≡ true
    sha256_file-IsSha b = let h = sha256_file-IsHex b in rw (h.width, h.digits) refl

    sha256_file-Lacks : (b : List ℕ) → Lacks b'/' (sha256_file digest b)
    sha256_file-Lacks b =
        sha-Lacks b'/' (sha256_file digest b) (unfold is_hexdigit in refl) (sha256_file-IsSha b)

    pub Held-content :
        (objects : BTreeMap Object) (rel r h : Str) (b : List ℕ)
        → Held objects r h
        → Held (insert (content_key cfg rel (sha256_file digest b)) (dump b) objects) r h
    Held-content objects rel r h b held =
        let key = content_key cfg rel (sha256_file digest b) in
        elim (Bool-cases (str_eq key (content_key cfg r h))) [
          | inl e ↦
              let same =
                content_key-hash cfg rel (sha256_file digest b) r h (sha256_file-Lacks b)
                  (subst (Lacks b'/') held.matches (sha256_file-Lacks (body held.object)))
                  ((str_eq_iff _ _).0 e) in
              record {
                object = dump b;
                found = rw (get-insert, e) refl;
                matches = unfold body in same;
              }
          | inr e ↦ record {
            object = held.object;
            found = rw (get-insert, e) held.found;
            matches = held.matches;
          }
        ]

    pub Held-here :
        (objects : BTreeMap Object) (rel : Str) (b : List ℕ)
        → Held
            (insert (content_key cfg rel (sha256_file digest b)) (dump b) objects)
            rel
            (sha256_file digest b)
    Held-here objects rel b = record {
      object = dump b;
      found =
          rw
            (
              get-insert,
              (str_eq_iff (content_key cfg rel (sha256_file digest b))
                    (content_key cfg rel (sha256_file digest b))).1
                  refl,
            )
            refl;
      matches = unfold body in refl;
    }

  pub Held-other :
      (objects : BTreeMap Object) (key : Str) (o : Object) (r h : Str)
      → str_eq key (content_key cfg r h) ≡ false
      → Held objects r h
      → Held (insert key o objects) r h
  Held-other objects key o r h e held = record {
    object = held.object;
    found = rw (get-insert, e) held.found;
    matches = held.matches;
  }
