-- ===== src/Backup/Manifest.antt =====
-- supervisor/src/runtime/backup/manifest.rs: the manifest of the dumps, `<generation> <name> <size>`
-- in ascending generation order behind the header "v1".
pub mod Order
pub mod Format
pub mod Retain
pub mod Listing
use vaultwarden_hummingbird.Base.{
  ℕ, ◌+◌, ◌-◌, ◌^◌, Bool, true, false, not, Option, none, some, List, [], ◌∷◌, ◌++◌, reverse, ltb,
  leb, if◌then◌else◌, length, take, drop, any, last, Result, ok, err, ◌>>=◌, ◌>>◌, ensure, ok_or,
}
use vaultwarden_hummingbird.Text.{
  Str, codes, str_eq, is_empty, lines, trim, split_whitespace, parse_uint,
}
use vaultwarden_hummingbird.Text.Decimal.{to_decimal}

abbrev pub u64_max : ℕ
u64_max = 2 ^ 64 - 1

pub record Entry : Type 0 where
  pub generation : ℕ
  pub name : Str
  pub size : ℕ

pub record Manifest : Type 0 where
  pub entries : List Entry

-- The messages of `bail!` and `ensure!`; each but the first carries its line.
pub data ParseError : Type 0 where
  missing_header : ParseError
  want_fields bad_generation bad_size generation_zero not_ascending duplicate_name : ℕ → ParseError

abbrev pub last_generation : List Entry → ℕ
last_generation entries = elim (last entries) [ none ↦ 0 | some e ↦ e.generation ]

abbrev pub has_name : List Entry → Str → Bool
has_name entries name = any (λ e. str_eq e.name name) entries

-- The tests on one entry, in the order of the source. `entries.last()` being `None` passes the
-- ascending test, as a last generation of 0 does under a positive generation.
add_entry : ℕ → List Entry → Entry → Result ParseError (List Entry)
unfolding str_eq
add_entry i entries e = do
  ensure (ltb 0 e.generation) (generation_zero i)
  ensure (ltb (last_generation entries) e.generation) (not_ascending i)
  ensure (not (has_name entries e.name)) (duplicate_name i)
  ok (entries ++ e ∷ [])

parse_fields : ℕ → List Entry → List Str → Result ParseError (List Entry)
unfolding add_entry parse_uint
parse_fields i entries (generation ∷ name ∷ size ∷ []) = do
  g ← ok_or (bad_generation i) (parse_uint u64_max generation)
  s ← ok_or (bad_size i) (parse_uint u64_max size)
  add_entry i entries (record { generation = g; name = name; size = s })
parse_fields i entries _ = err (want_fields i)

parse_line : ℕ → List Entry → Str → Result ParseError (List Entry)
unfolding parse_fields trim split_whitespace
parse_line i entries line =
    if is_empty (trim line)
    then ok entries
    else parse_fields i entries (split_whitespace (trim line))

-- `i` is the number of the line, counted from 1.
parse_lines : ℕ → List Entry → List Str → Result ParseError (List Entry)
unfolding parse_line
parse_lines i entries [] = ok entries
parse_lines i entries (line ∷ rest) = do
  entries' ← parse_line i entries line
  parse_lines (i + 1) entries' rest

parse_header : List Str → Result ParseError Manifest
unfolding parse_lines
parse_header [] = err missing_header
parse_header (header ∷ rest) = do
  ensure (str_eq header (codes "v1")) missing_header
  entries ← parse_lines 2 [] rest
  ok (record { entries = entries })

unfoldable pub parse : Str → Result ParseError Manifest
unfolding parse_header lines
parse text = parse_header (lines text)

abbrev line_of : Entry → Str
line_of e = to_decimal e.generation ++ (b' ' ∷ (e.name ++ (b' ' ∷ to_decimal e.size)))

unfoldable pub render_entries : List Entry → Str
unfolding to_decimal
render_entries [] = []
render_entries (e ∷ es) = line_of e ++ (b'\n' ∷ render_entries es)

unfoldable pub render : Manifest → Str
unfolding render_entries
render m = codes "v1" ++ (b'\n' ∷ render_entries m.entries)

unfoldable pub is_bare : Manifest → Bool
is_bare m = elim m.entries [ [] ↦ true | e ∷ es ↦ false ]

unfoldable pub latest : Manifest → ℕ
latest m = last_generation m.entries

-- `checked_add(1)` on a `u64`.
unfoldable pub next_generation : Manifest → Option ℕ
unfolding latest
next_generation m = if ltb (latest m) u64_max then some (latest m + 1) else none

unfoldable pub newest_first : Manifest → List Entry
newest_first m = reverse m.entries

find_in : Str → List Entry → Option Entry
find_in name [] = none
find_in name (e ∷ es) = if str_eq e.name name then some e else find_in name es

unfoldable pub find_name : Manifest → Str → Option Entry
unfolding find_in str_eq
find_name m name = find_in name m.entries

unfoldable pub push : Manifest → Entry → Manifest
push m e = record { entries = m.entries ++ e ∷ [] }

-- `retain`: the manifest that is kept, and the evicted entries.
unfoldable pub retain : Manifest → ℕ → Manifest × List Entry
retain m keep =
    let evict = length m.entries - keep in
    if leb (length m.entries) keep
    then (m, [])
    else (record { entries = drop evict m.entries }, take evict m.entries)

pub number_from : ℕ → List (Str × ℕ) → List Entry
number_from i [] = []
number_from i ((name, size) ∷ rest) =
    record { generation = i + 1; name = name; size = size } ∷ number_from (i + 1) rest

unfoldable pub from_listing : List (Str × ℕ) → Manifest
unfolding number_from
from_listing listed = record { entries = number_from 0 listed }
