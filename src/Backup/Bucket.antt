-- ===== src/Backup/Bucket.antt =====
-- supervisor/src/runtime/backup/tools.rs and prune.rs, over the operations of the S3 client
-- (supervisor/src/s3/client.rs: `put`, `put_bytes`, `get_optional_text`, `list`, `delete`), each of
-- which is one request here. An error that the client reports by itself (a stop request, a size
-- cap) is a refused request.
use vaultwarden_hummingbird.Base.{
  ℕ, ◌*◌, Bool, false, Option, none, some, List, [], ◌∷◌, ◌++◌, leb, if◌then◌else◌, length, Result,
  ok, err, ◌&&◌,
}
use vaultwarden_hummingbird.Text.{Str, codes, byte_len, strip_prefix, starts_with, ends_with}
use vaultwarden_hummingbird.BTree.{BTreeMap, get, insert, remove}
use vaultwarden_hummingbird.Config.Spec.{DbBackupConfig, backup_prefix, db_label, db_ext}
use vaultwarden_hummingbird.Backup.Manifest.{Entry, Manifest, ParseError, parse, render}
use vaultwarden_hummingbird.Backup.World.{
  Object, text, dump, M, Answer, served, ask, request, ◌>>◌, pure,
}

-- Why a helper failed: the request, the object, the manifest's text, or the cap on its size.
pub data Trouble : Type 0 where
  failed not_text over_cap : Trouble
  malformed : ParseError → Trouble

abbrev pub max_manifest_bytes : ℕ
max_manifest_bytes = 256 * 1024

unfoldable pub manifest_key : DbBackupConfig → Str
unfolding backup_prefix
manifest_key cfg = backup_prefix cfg ++ codes "manifest"

unfoldable pub put : Str → Object → M Bool
unfolding request insert
put key object = request (λ w. record w { objects = insert key object w.objects })

unfoldable pub delete : Str → M Bool
unfolding request remove
delete key = request (λ w. record w { objects = remove key w.objects })

abbrev pub text_of : Option Object → Result Trouble (Option Str)
text_of none = ok none
text_of (some (text t)) = if leb (byte_len t) max_manifest_bytes then ok (some t) else err over_cap
text_of (some (dump bytes)) = err not_text

abbrev pub answered {ℓ} : {A : Type ℓ} → Answer → A → Result Trouble A
answered served a = ok a
answered _ a = err failed

abbrev pub flat {ℓ} : {A : Type ℓ} → Result Trouble (Result Trouble A) → Result Trouble A
flat (ok r) = r
flat (err e) = err e

unfoldable pub get_optional_text : Str → M (Result Trouble (Option Str))
unfolding ask
get_optional_text key w =
    let (a, w') = ask w in (flat (answered a (text_of (get key w.objects))), w')

abbrev pub parsed_of : Result ParseError Manifest → Result Trouble (Option Manifest)
parsed_of (ok m) = ok (some m)
parsed_of (err e) = err (malformed e)

abbrev pub manifest_of : Result Trouble (Option Str) → Result Trouble (Option Manifest)
manifest_of (ok none) = ok none
manifest_of (ok (some t)) = parsed_of (parse t)
manifest_of (err e) = err e

unfoldable pub load_manifest : DbBackupConfig → M (Result Trouble (Option Manifest))
unfolding get_optional_text manifest_key
load_manifest cfg w = let (r, w') = get_optional_text (manifest_key cfg) w in (manifest_of r, w')

unfoldable pub store_manifest : DbBackupConfig → Manifest → M Bool
unfolding put manifest_key render
store_manifest cfg m =
    if leb (byte_len (render m)) max_manifest_bytes
    then put (manifest_key cfg) (text (render m))
    else pure false

abbrev object_size : Object → ℕ
object_size (text t) = byte_len t
object_size (dump bytes) = length bytes

-- The dumps among the listed keys, under their bare names. The bucket lists its keys in ascending
-- order, and taking off a common prefix keeps that order, which is what `names.sort()` asks for.
abbrev pub dump_name : DbBackupConfig → Str → Option Str
dump_name cfg key = elim (strip_prefix (backup_prefix cfg) key) [
  | none ↦ none
  | some name ↦
      if starts_with (db_label cfg ++ codes "-") name && ends_with (codes "." ++ db_ext cfg) name
      then some name
      else none
]

abbrev pub keep_name : Option Str → Object → List (Str × ℕ) → List (Str × ℕ)
keep_name none o rest = rest
keep_name (some name) o rest = (name, object_size o) ∷ rest

unfoldable pub dump_names : DbBackupConfig → BTreeMap Object → List (Str × ℕ)
unfolding strip_prefix starts_with ends_with backup_prefix db_label db_ext byte_len
dump_names cfg [] = []
dump_names cfg ((key, o) ∷ rest) = keep_name (dump_name cfg key) o (dump_names cfg rest)

unfoldable pub list_objects : DbBackupConfig → M (Result Trouble (List (Str × ℕ)))
unfolding ask dump_names
list_objects cfg w = let (a, w') = ask w in (answered a (dump_names cfg w.objects), w')

-- A failed delete is logged and the loop goes on.
unfoldable pub prune : DbBackupConfig → List Entry → M (Unit {0})
unfolding delete backup_prefix
prune cfg [] = pure tt
prune cfg (e ∷ evicted) = do delete (backup_prefix cfg ++ e.name); prune cfg evicted
