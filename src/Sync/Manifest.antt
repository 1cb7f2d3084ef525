-- ===== src/Sync/Manifest.antt =====
-- supervisor/src/runtime/sync/manifest.rs: one line `<sha256> <size> <rel>` per file, in the order of
-- the paths, behind the header "v1".
pub mod Format
pub mod Carried
pub mod Valid
use vaultwarden_hummingbird.Base.{
  ℕ, ◌+◌, ◌*◌, Bool, true, false, not, ◌&&◌, Option, none, some, List, [], ◌∷◌, ◌++◌, if◌then◌else◌,
  ◌==◌, all, Result, ok, err, ◌>>=◌, ◌>>◌, ensure, ok_or,
}
use vaultwarden_hummingbird.Text.{
  Str, codes, str_eq, str_lt, is_empty, byte_len, lines, trim_end, splitn, parse_uint, is_hexdigit,
  ascii_lower,
}
use vaultwarden_hummingbird.Text.Decimal.{to_decimal}
use vaultwarden_hummingbird.BTree.{BTreeMap, get, insert}
use vaultwarden_hummingbird.Backup.Manifest.{u64_max}

abbrev pub max_manifest_bytes : ℕ
max_manifest_bytes = 4 * 1024 * 1024

pub record Entry : Type 0 where
  pub size : ℕ
  pub sha256 : Str

pub record Manifest : Type 0 where
  pub entries : BTreeMap Entry

-- The messages of `bail!` and `ensure!`; each but the first carries its line.
pub data ParseError : Type 0 where
  missing_header : ParseError
  want_fields bad_sha256 bad_size empty_path : ℕ → ParseError

abbrev pub is_sha256 : Str → Bool
is_sha256 s = byte_len s == 64 && all is_hexdigit s

unfoldable pub parse_parts : ℕ → BTreeMap Entry → List Str → Result ParseError (BTreeMap Entry)
unfolding is_hexdigit byte_len parse_uint insert ascii_lower
parse_parts i entries (sha256 ∷ size ∷ rel ∷ []) = do
  ensure (is_sha256 sha256) (bad_sha256 i)
  n ← ok_or (bad_size i) (parse_uint u64_max size)
  ensure (not (is_empty rel)) (empty_path i)
  ok (insert rel (record { size = n; sha256 = ascii_lower sha256 }) entries)
parse_parts i entries _ = err (want_fields i)

unfoldable pub parse_line : ℕ → BTreeMap Entry → Str → Result ParseError (BTreeMap Entry)
unfolding parse_parts trim_end splitn
parse_line i entries line =
    if is_empty (trim_end line)
    then ok entries
    else parse_parts i entries (splitn 3 b' ' (trim_end line))

unfoldable pub parse_lines : ℕ → BTreeMap Entry → List Str → Result ParseError (BTreeMap Entry)
unfolding parse_line
parse_lines i entries [] = ok entries
parse_lines i entries (line ∷ rest) = do
  entries' ← parse_line i entries line
  parse_lines (i + 1) entries' rest

unfoldable pub parse_header : List Str → Result ParseError Manifest
unfolding parse_lines str_eq
parse_header [] = err missing_header
parse_header (header ∷ rest) = do
  ensure (str_eq header (codes "v1")) missing_header
  entries ← parse_lines 2 [] rest
  ok (record { entries = entries })

unfoldable pub parse : Str → Result ParseError Manifest
unfolding parse_header lines
parse text = parse_header (lines text)

abbrev pub line_of : Str → Entry → Str
line_of rel e = e.sha256 ++ b' ' ∷ (to_decimal e.size ++ b' ' ∷ rel)

unfoldable pub render_entries : BTreeMap Entry → Str
unfolding to_decimal
render_entries [] = []
render_entries ((rel, e) ∷ es) = line_of rel e ++ b'\n' ∷ render_entries es

unfoldable pub render : Manifest → Str
unfolding render_entries
render m = codes "v1" ++ b'\n' ∷ render_entries m.entries

unfoldable pub get_entry : Manifest → Str → Option Entry
unfolding get
get_entry m rel = get rel m.entries

unfoldable pub insert_entry : Manifest → Str → Entry → Manifest
unfolding insert
insert_entry m rel e = record { entries = insert rel e m.entries }
