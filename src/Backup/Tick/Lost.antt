-- ===== src/Backup/Tick/Lost.antt =====
-- The manifest's upload when its reply is lost.
use vaultwarden_hummingbird.Base.{
  ℕ, zero, suc, ◌-◌, ◌<◌, ◌≤◌, true, false, List, [], ◌∷◌, ◌++◌, ◌≡◌, refl, arith, All, leb, length,
  length-append, drop, Bool-cases, inl, inr, subst,
}
use vaultwarden_hummingbird.Text.{codes, str_eq, str_eq_iff, byte_len}
use vaultwarden_hummingbird.BTree.{insert, remove, get-insert, get-remove}
use vaultwarden_hummingbird.Config.Spec.{DbBackupConfig}
use vaultwarden_hummingbird.Backup.Manifest.{Entry, Manifest, push, retain, render}
use vaultwarden_hummingbird.Backup.Manifest.Order.{IsValid}
use vaultwarden_hummingbird.Backup.Manifest.Retain.{Retains, retain-Retains}
use vaultwarden_hummingbird.Backup.Manifest.Format.{parse-render}
use vaultwarden_hummingbird.Backup.World.{World, Answer, served, lost, text, request, settle}
use vaultwarden_hummingbird.Backup.Bucket.{
  store_manifest, put, delete, manifest_key, max_manifest_bytes,
}
use vaultwarden_hummingbird.Backup.Tick.{finish, publish, remove_staged}
use vaultwarden_hummingbird.Backup.Tick.Sound.{entry_key, Stores, Present, IsSound, key-ne}

All-drop-last :
    (P : Entry → Type 0) (n : ℕ) (es : List Entry) (e : Entry)
    → n ≤ length es
    → All P (drop n (es ++ e ∷ []))
    → P e
All-drop-last P zero [] e h p = p.0
All-drop-last P zero (x ∷ es) e h p = All-drop-last P zero es e (omega arith) p.1
All-drop-last P (suc n) [] e h p = absurd (omega (arith, h))
All-drop-last P (suc n) (x ∷ es) e h p = All-drop-last P n es e (omega (arith, h)) p

-- What is kept includes the entry that was pushed last.
pub All-retain-push :
    (P : Entry → Type 0) (m : Manifest) (e : Entry) (keep : ℕ)
    → 0 < keep
    → All P (retain (push m e) keep).0.entries
    → P e
unfolding retain push
All-retain-push P m e keep h p = elim (Bool-cases (leb (length (m.entries ++ e ∷ [])) keep)) [
  | inl c ↦ All-drop-last P 0 m.entries e (omega arith) (rw c at p)
  | inr c ↦
      All-drop-last P (length (m.entries ++ e ∷ []) - keep) m.entries e
        (ground (arith, length-append m.entries (e ∷ []), h)) (rw c at p)
]

module _ (cfg : DbBackupConfig) (m : Manifest) (e : Entry) (w : World) (rest : List Answer) where
  abbrev grown : Manifest
  grown = (retain (push m e) cfg.keep).0

  publish-objects :
      leb (byte_len (render grown)) max_manifest_bytes ≡ true
      → w.answers ≡ lost ∷ served ∷ rest
      → (publish cfg m e w).1.objects
        ≡ remove (entry_key cfg e.name) (insert (manifest_key cfg) (text (render grown)) w.objects)
  unfolding publish store_manifest put request settle finish delete remove_staged
  publish-objects c a = rw (c, a) refl

-- When the reply to the manifest's upload is lost and the clean-up that follows is served, the
-- cycle deletes a dump that the manifest in the bucket now names: the bucket is not sound. This
-- is for a well-formed grown manifest below the cap on its size, a positive `keep`, and a dump
-- that is not named "manifest".
pub publish-lost :
    (cfg : DbBackupConfig) (m : Manifest) (e : Entry) (w : World) (rest : List Answer)
    → IsValid (push m e)
    → 0 < cfg.keep
    → str_eq e.name (codes "manifest") ≡ false
    → leb (byte_len (render (retain (push m e) cfg.keep).0)) max_manifest_bytes ≡ true
    → w.answers ≡ lost ∷ served ∷ rest
    → ¬ IsSound cfg (publish cfg m e w).1.objects
unfolding manifest_key
publish-lost cfg m e w rest v k other c a s =
    let kept = (retain (push m e) cfg.keep).0 in
    let o =
      remove (entry_key cfg e.name) (insert (manifest_key cfg) (text (render kept)) w.objects) in
    let s' = subst (IsSound cfg) (publish-objects cfg m e w rest c a) s in
    let r : Retains (push m e) cfg.keep kept _ = retain-Retains (push m e) cfg.keep v in
    let st : Stores cfg o kept = record {
      body = render kept;
      stored =
          rw
            (
              get-remove,
              key-ne cfg e.name (codes "manifest") other,
              get-insert,
              (str_eq_iff (manifest_key cfg) (manifest_key cfg)).1 refl,
            )
            refl;
      parsed = parse-render kept r.valid;
    } in
    All-retain-push (λ x. Present cfg o x.name) m e cfg.keep k (s'.present kept st)
      (rw (get-remove, (str_eq_iff (entry_key cfg e.name) (entry_key cfg e.name)).1 refl) refl)
