-- ===== src/Backup/Tick/Listed.antt =====
-- What the listing of the bucket's dumps finds is there.
use vaultwarden_hummingbird.Base.{
  ℕ, Bool, true, false, Option, none, some, List, [], ◌∷◌, ◌++◌, ◌≡◌, ◌≢◌, refl, sym, All,
  if◌then◌else◌, ◌&&◌,
}
use vaultwarden_hummingbird.Text.{
  Str, codes, str_eq, str_eq_iff, strip_prefix, starts_with, ends_with,
}
use vaultwarden_hummingbird.Text.Split.{strip_prefix_sound}
use vaultwarden_hummingbird.BTree.{get}
use vaultwarden_hummingbird.Config.Spec.{DbBackupConfig, backup_prefix, db_label, db_ext}
use vaultwarden_hummingbird.Backup.World.{Object}
use vaultwarden_hummingbird.Backup.Bucket.{dump_name, keep_name, dump_names}
use vaultwarden_hummingbird.Backup.Tick.Sound.{Objects, entry_key, Present}

module _ (cfg : DbBackupConfig) where
  dump_name_sound : (key name : Str) → dump_name cfg key ≡ some name → key ≡ entry_key cfg name
  dump_name_sound key name h = go (strip_prefix (backup_prefix cfg) key) refl h
    where
      kept : (b : Bool) (n : Str) → (if b then some n else none) ≡ some name → n ≡ name
      kept true n e = cc
      kept false n e = cc

      go :
          (r : Option Str)
          → strip_prefix (backup_prefix cfg) key ≡ r
          → (elim r [
            | none ↦ none
            | some n ↦
                if starts_with (db_label cfg ++ codes "-") n
                  && ends_with (codes "." ++ db_ext cfg) n
                then some n
                else none
          ])
            ≡ some name
          → key ≡ entry_key cfg name
      go none e f = cc
      go (some n) e f = cc (strip_prefix_sound (backup_prefix cfg) key e, kept _ n f)

  abbrev Within : Objects → Objects → Type 0
  Within rest o = (k : Str) → get k rest ≢ none → get k o ≢ none

  Within-tail : (k : Str) (v : Object) (rest o : Objects) → Within ((k, v) ∷ rest) o → Within rest o
  unfolding get
  Within-tail k v rest o h j p = h j (go (str_eq k j))
    where
      go : (b : Bool) → (if b then some v else get j rest) ≢ none
      go true e = cc
      go false e = p e

  keep_name-Present :
      (o : Objects) (name : Option Str) (v : Object) (rest : List (Str × ℕ))
      → ((n : Str) → name ≡ some n → Present cfg o n)
      → All (λ n. Present cfg o n.0) rest
      → All (λ n. Present cfg o n.0) (keep_name name v rest)
  keep_name-Present o none v rest h p = p
  keep_name-Present o (some n) v rest h p = (h n refl, p)

  get-head : (k : Str) (v : Object) (rest : Objects) → get k ((k, v) ∷ rest) ≢ none
  unfolding get
  get-head k v rest e = cc (rw ((str_eq_iff k k).1 refl) at e)

  dump_names-Within :
      (rest o : Objects) → Within rest o → All (λ n. Present cfg o n.0) (dump_names cfg rest)
  unfolding dump_names
  dump_names-Within [] o h = tt
  dump_names-Within ((key, v) ∷ rest) o h =
      keep_name-Present o (dump_name cfg key) v (dump_names cfg rest)
        (λ n e. rw (sym (dump_name_sound key n e)) (h key (get-head key v rest)))
        (dump_names-Within rest o (Within-tail key v rest o h))

  pub dump_names-Present : (o : Objects) → All (λ n. Present cfg o n.0) (dump_names cfg o)
  dump_names-Present o = dump_names-Within o o (λ k p. p)
