-- ===== src/Backup/Tick/Sound.antt =====
-- The bucket's invariant: the manifest names only objects that are there.
use vaultwarden_hummingbird.Base.{
  Bool, true, false, none, some, List, [], ◌∷◌, ◌++◌, ◌≡◌, ◌≢◌, refl, sym, subst, All, All-map,
  if◌then◌else◌, ok, Bool-cases, inl, inr,
}
use vaultwarden_hummingbird.Text.{Str, codes, str_eq, str_eq_iff}
use vaultwarden_hummingbird.BTree.{BTreeMap, get, insert, remove, get-insert, get-remove}
use vaultwarden_hummingbird.Config.Spec.{DbBackupConfig, backup_prefix}
use vaultwarden_hummingbird.Backup.Manifest.{Entry, Manifest, parse, render}
use vaultwarden_hummingbird.Backup.Manifest.Order.{IsValid}
use vaultwarden_hummingbird.Backup.Manifest.Format.{parse-render}
use vaultwarden_hummingbird.Backup.World.{Object, text}
use vaultwarden_hummingbird.Backup.Bucket.{manifest_key}

abbrev pub Objects : Type 0
Objects = BTreeMap Object

module _ (cfg : DbBackupConfig) where
  abbrev pub entry_key : Str → Str
  entry_key name = backup_prefix cfg ++ name

  -- The bucket's manifest is the text of `m`.
  pub record Stores (o : Objects) (m : Manifest) : Type 0 where
    pub body : Str
    pub stored : get (manifest_key cfg) o ≡ some (text body)
    pub parsed : parse body ≡ ok m

  abbrev pub Present : Objects → Str → Type 0
  Present o name = get (entry_key name) o ≢ none

  pub record IsSound (o : Objects) : Type 0 where
    pub present : (m : Manifest) → Stores o m → All (λ e. Present o e.name) m.entries

  -- No entry of the bucket's manifest has this name.
  pub record Avoids (o : Objects) (name : Str) : Type 0 where
    pub other : (m : Manifest) → Stores o m → All (λ e. str_eq e.name name ≡ false) m.entries

  append-cancel : (p a b : Str) → p ++ a ≡ p ++ b → a ≡ b
  append-cancel [] a b e = e
  append-cancel (c ∷ p) a b e = append-cancel p a b (cc)

  -- Keys differ where names do.
  pub key-ne : (a b : Str) → str_eq a b ≡ false → str_eq (entry_key a) (entry_key b) ≡ false
  key-ne a b h = elim (Bool-cases (str_eq (entry_key a) (entry_key b))) [
    | inl e ↦
        let same : a ≡ b =
          append-cancel (backup_prefix cfg) a b ((str_eq_iff (entry_key a) (entry_key b)).0 e) in
        cc ((str_eq_iff a b).1 same)
    | inr e ↦ e
  ]

  pub str_eq_sym : (a b : Str) → str_eq a b ≡ false → str_eq b a ≡ false
  str_eq_sym a b h = elim (Bool-cases (str_eq b a)) [
    | inl e ↦ cc ((str_eq_iff a b).1 (sym ((str_eq_iff b a).0 e)))
    | inr e ↦ e
  ]

  pub Present-insert :
      (o : Objects) (k : Str) (v : Object) (name : Str)
      → Present o name
      → Present (insert k v o) name
  Present-insert o k v name p = rw get-insert (go (str_eq k (entry_key name)))
    where
      go : (b : Bool) → (if b then some v else get (entry_key name) o) ≢ none
      go true e = cc
      go false e = p e

  pub Present-insert_self :
      (o : Objects) (v : Object) (name : Str) → Present (insert (entry_key name) v o) name
  Present-insert_self o v name e =
      cc (rw (get-insert, (str_eq_iff (entry_key name) (entry_key name)).1 refl) at e)

  Stores-insert :
      (o : Objects) (name : Str) (v : Object) {m : Manifest}
      → str_eq name (codes "manifest") ≡ false
      → Stores (insert (entry_key name) v o) m
      → Stores o m
  unfolding manifest_key
  Stores-insert o name v h s = record {
    body = s.body;
    stored = rw (get-insert, key-ne name (codes "manifest") h) at s.stored;
    parsed = s.parsed;
  }

  Stores-remove : (o : Objects) (k : Str) {m : Manifest} → Stores (remove k o) m → Stores o m
  Stores-remove o k s = record {
    body = s.body;
    stored = go (str_eq k (manifest_key cfg)) (rw get-remove at s.stored);
    parsed = s.parsed;
  }
    where
      go :
          (b : Bool)
          → (if b then none else get (manifest_key cfg) o) ≡ some (text s.body)
          → get (manifest_key cfg) o ≡ some (text s.body)
      go true e = cc
      go false e = e

  pub IsSound-insert :
      (o : Objects) (name : Str) (v : Object)
      → str_eq name (codes "manifest") ≡ false
      → IsSound o
      → IsSound (insert (entry_key name) v o)
  IsSound-insert o name v h s = record {
    present = λ m st.
        All-map (λ e. Present o e.name) (λ e. Present (insert (entry_key name) v o) e.name)
          m.entries (λ e p. Present-insert o (entry_key name) v e.name p)
          (s.present m (Stores-insert o name v h st));
  }

  pub Avoids-insert :
      (o : Objects) (name n : Str) (v : Object)
      → str_eq name (codes "manifest") ≡ false
      → Avoids o n
      → Avoids (insert (entry_key name) v o) n
  Avoids-insert o name n v h a = record { other = λ m st. a.other m (Stores-insert o name v h st) }

  Present-remove :
      (o : Objects) (name n : Str)
      → Present o n
      → str_eq n name ≡ false
      → Present (remove (entry_key name) o) n
  Present-remove o name n p h = rw get-remove (rw (key-ne name n (str_eq_sym n name h)) p)

  pub IsSound-remove :
      (o : Objects) (name : Str) → Avoids o name → IsSound o → IsSound (remove (entry_key name) o)
  IsSound-remove o name a s = record {
    present = λ m st.
        let st' = Stores-remove o (entry_key name) st in
        go m.entries (s.present m st') (a.other m st');
  }
    where
      go :
          (es : List Entry)
          → All (λ e. Present o e.name) es
          → All (λ e. str_eq e.name name ≡ false) es
          → All (λ e. Present (remove (entry_key name) o) e.name) es
      go [] p h = tt
      go (e ∷ es) p h = (Present-remove o name e.name p.0 h.0, go es p.1 h.1)

  pub Avoids-remove : (o : Objects) (k n : Str) → Avoids o n → Avoids (remove k o) n
  Avoids-remove o k n a = record { other = λ m st. a.other m (Stores-remove o k st) }

  -- Once `m` is published, it is what the bucket stores.
  Stores-publish :
      (o : Objects) (m m' : Manifest)
      → IsValid m
      → Stores (insert (manifest_key cfg) (text (render m)) o) m'
      → m ≡ m'
  Stores-publish o m m' v s = cc (
    parse-render m v,
    s.parsed,
    rw (get-insert, (str_eq_iff (manifest_key cfg) (manifest_key cfg)).1 refl) at s.stored,
  )

  pub IsSound-publish :
      (o : Objects) (m : Manifest)
      → IsValid m
      → All (λ e. Present o e.name) m.entries
      → IsSound (insert (manifest_key cfg) (text (render m)) o)
  IsSound-publish o m v p = record {
    present = λ m' s.
        subst
          (λ x. All (λ e. Present (insert (manifest_key cfg) (text (render m)) o) e.name) x.entries)
          (Stores-publish o m m' v s)
          (All-map (λ e. Present o e.name)
            (λ e. Present (insert (manifest_key cfg) (text (render m)) o) e.name) m.entries
            (λ e q. Present-insert o (manifest_key cfg) (text (render m)) e.name q) p);
  }

  pub Avoids-publish :
      (o : Objects) (m : Manifest) (n : Str)
      → IsValid m
      → All (λ e. str_eq e.name n ≡ false) m.entries
      → Avoids (insert (manifest_key cfg) (text (render m)) o) n
  Avoids-publish o m n v h = record {
    other = λ m' s.
        subst (λ x. All (λ e. str_eq e.name n ≡ false) x.entries) (Stores-publish o m m' v s) h;
  }
