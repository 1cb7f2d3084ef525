-- ===== src/Sync/Manifest/Valid.antt =====
-- What the reader of the sync manifest accepts, and what an insertion keeps.
use vaultwarden_hummingbird.Base.{
  ℕ, ◌+◌, true, false, ◌&&◌, List, [], ◌∷◌, ◌≡◌, refl, subst, arith, leb, if◌then◌else◌, all, All,
  All-map, Bool-cases, Option-cases, inl, inr, Result, ok, err, ◌>>=◌, ensure, bind-eq-ok,
}
use vaultwarden_hummingbird.Text.Order.{str_lt-total, str_lt_trans}
use vaultwarden_hummingbird.Text.{
  Str, codes, str_eq, str_eq_iff, str_lt, is_empty, byte_len, lines, trim_end, is_hexdigit,
  ascii_lower, Lacks, splitn, parse_uint,
}
use vaultwarden_hummingbird.Text.Decimal.{parse_uint_bound}
use vaultwarden_hummingbird.BTree.{BTreeMap, insert, All-insert}
use vaultwarden_hummingbird.Backup.Manifest.{u64_max}
use vaultwarden_hummingbird.Sync.Manifest.{
  Entry, Manifest, ParseError, missing_header, is_sha256, parse_parts, parse_line, parse_lines,
  parse_header, parse, insert_entry,
}
use vaultwarden_hummingbird.Sync.Manifest.Format.{IsPath, IsRow, Ascending, IsValid}
use vaultwarden_hummingbird.Sync.Manifest.Carried.{
  IsCarried, IsCarried-IsPath, IsCarried-after, splitn_rest, trim_end-IsCarried, lines_on-Lacks,
}

lower-digit :
    (c : ℕ)
    → is_hexdigit c ≡ true
    → is_hexdigit (if leb b'A' c && leb c b'Z' then c + 32 else c) ≡ true
unfolding is_hexdigit
lower-digit c h = ground (arith, h)

ascii_lower-digits : (s : Str) → all is_hexdigit s ≡ true → all is_hexdigit (ascii_lower s) ≡ true
unfolding ascii_lower
ascii_lower-digits [] h = h
ascii_lower-digits (c ∷ s) h =
    rw (lower-digit c (ground (arith, h)), ascii_lower-digits s (ground (arith, h))) refl

byte_len-ascii_lower : (s : Str) → byte_len (ascii_lower s) ≡ byte_len s
unfolding byte_len ascii_lower
byte_len-ascii_lower [] = refl
byte_len-ascii_lower (c ∷ s) = ground (arith, byte_len-ascii_lower s)

ascii_lower_twice : (s : Str) → ascii_lower (ascii_lower s) ≡ ascii_lower s
unfolding ascii_lower
ascii_lower_twice [] = refl
ascii_lower_twice (c ∷ s) = ground (arith, ascii_lower_twice s)

is_sha256-ascii_lower : (s : Str) → is_sha256 s ≡ true → is_sha256 (ascii_lower s) ≡ true
is_sha256-ascii_lower s h =
    rw (byte_len-ascii_lower s, ascii_lower-digits s (ground (arith, h))) (ground (arith, h))

insert-Ascending :
    (k : Str) (e : Entry) (m : BTreeMap Entry) → Ascending m → Ascending (insert k e m)
unfolding insert
insert-Ascending k e [] h = (tt, tt)
insert-Ascending k e ((j, v) ∷ m) h = elim (Bool-cases (str_eq j k)) [
  | inl a ↦ rw a (subst (λ i. All (λ r. str_lt i r.0 ≡ true) m) ((str_eq_iff j k).0 a) h.0, h.1)
  | inr a ↦ elim (Bool-cases (str_lt k j)) [
    | inl b ↦
        rw (a, b)
          ((b, All-map _ (λ r. str_lt k r.0 ≡ true) m (λ r l. str_lt_trans k j r.0 b l) h.0), h)
    | inr b ↦
        rw (a, b)
          (
            All-insert (λ r. str_lt j r.0 ≡ true) k e m (str_lt-total k j a b) h.0,
            insert-Ascending k e m h.1,
          )
  ]
]

-- A row that the line format can carry keeps the manifest well formed.
pub insert_entry-IsValid :
    (m : Manifest) (rel : Str) (e : Entry)
    → IsValid m
    → IsRow (rel, e)
    → IsValid (insert_entry m rel e)
unfolding insert_entry
insert_entry-IsValid m rel e v r = record {
  ascending = insert-Ascending rel e m.entries v.ascending;
  rows = All-insert IsRow rel e m.entries r v.rows;
}

abbrev Entries-IsValid : Result ParseError (BTreeMap Entry) → Type 0
Entries-IsValid (ok es) = IsValid (record { entries = es })
Entries-IsValid (err e) = Unit

parse_parts-IsValid :
    (i : ℕ) (es : BTreeMap Entry) (parts : List Str)
    → ((x y rel : Str) → parts ≡ x ∷ y ∷ rel ∷ [] → is_empty rel ≡ false → IsPath rel)
    → IsValid (record { entries = es })
    → Entries-IsValid (parse_parts i es parts)
unfolding parse_parts insert_entry
parse_parts-IsValid i es (sha256 ∷ size ∷ rel ∷ []) p v = elim (Bool-cases (is_sha256 sha256)) [
  | inr a ↦ rw a tt
  | inl a ↦ elim (Option-cases (parse_uint u64_max size)) [
    | inl b ↦ rw (a, b) tt
    | inr (n, b) ↦ elim (Bool-cases (is_empty rel)) [
      | inl c ↦ rw (a, b, c) tt
      | inr c ↦
          rw (a, b, c)
            (insert_entry-IsValid (record { entries = es }) rel
              (record { size = n; sha256 = ascii_lower sha256 }) v
              (record {
                path = p sha256 size rel refl c;
                sha = is_sha256-ascii_lower sha256 a;
                lower = ascii_lower_twice sha256;
                size_fits = parse_uint_bound u64_max size b;
              }))
    ]
  ]
]
parse_parts-IsValid i es _ p v = tt

parse_line-IsValid :
    (i : ℕ) (es : BTreeMap Entry) (line : Str)
    → Lacks b'\n' line
    → IsValid (record { entries = es })
    → Entries-IsValid (parse_line i es line)
unfolding parse_line
parse_line-IsValid i es line l v = elim (Bool-cases (is_empty (trim_end line))) [
  | inl a ↦ rw a v
  | inr a ↦ rw a (
      parse_parts-IsValid i es (splitn 3 b' ' (trim_end line))
        (λ x y rel e n.
          let r = splitn_rest b' ' (trim_end line) {x = x} {y = y} {z = rel} e in
          IsCarried-IsPath rel
            (IsCarried-after r.0 rel n (subst IsCarried r.1 (trim_end-IsCarried line l a))))
        v)
]

parse_lines-IsValid :
    (i : ℕ) (es : BTreeMap Entry) (rest : List Str)
    → All (Lacks b'\n') rest
    → IsValid (record { entries = es })
    → Entries-IsValid (parse_lines i es rest)
unfolding parse_lines
parse_lines-IsValid i es [] l v = v
parse_lines-IsValid i es (line ∷ rest) l v =
    go (parse_line i es line) (parse_line-IsValid i es line l.0 v)
      (λ fs. parse_lines-IsValid (i + 1) fs rest l.1)
  where
    go :
        (r : Result ParseError (BTreeMap Entry))
        → Entries-IsValid r
        → ((fs : BTreeMap Entry)
            → IsValid (record { entries = fs })
            → Entries-IsValid (parse_lines (i + 1) fs rest))
        → Entries-IsValid (r >>= λ fs. parse_lines (i + 1) fs rest)
    go (ok fs) w ih = ih fs w
    go (err e) w ih = tt

entries_of :
    (es : BTreeMap Entry) (r : Result ParseError (BTreeMap Entry))
    → Entries-IsValid r
    → r ≡ ok es
    → IsValid (record { entries = es })
entries_of es (ok fs) v e = subst (λ gs. IsValid (record { entries = gs })) (cc e) v
entries_of es (err x) v e = cc

parse_header-IsValid :
    (ls : List Str) {m : Manifest} → All (Lacks b'\n') ls → parse_header ls ≡ ok m → IsValid m
unfolding parse_header
parse_header-IsValid [] l h = cc
parse_header-IsValid (header ∷ rest) {m} l h =
    let after = bind-eq-ok (ensure (str_eq header (codes "v1")) missing_header) _ h in
    let (es, e, same) = bind-eq-ok (parse_lines 2 [] rest) _ after.2 in
    let none_IsValid : IsValid (record { entries = [] }) = record { ascending = tt; rows = tt } in
    subst IsValid (ground arith)
      (entries_of es (parse_lines 2 [] rest) (parse_lines-IsValid 2 [] rest l.1 none_IsValid) e)

-- Whatever the reader accepts can be printed and read again: the paths strictly ascend, hold no line
-- break and do not end in white space, the hashes are 64 lower-case hexadecimal digits, and the
-- sizes fit a `u64`.
pub parse-IsReadable : (text : Str) {m : Manifest} → parse text ≡ ok m → IsValid m
unfolding parse lines
parse-IsReadable text {m} h =
    parse_header-IsValid (lines text) {m = m} (lines_on-Lacks [] text tt) h
