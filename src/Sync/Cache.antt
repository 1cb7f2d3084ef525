-- ===== src/Sync/Cache.antt =====
-- supervisor/src/runtime/sync/cache.rs: the hashes remembered by size, mtime and ctime.
use vaultwarden_hummingbird.Base.{
  ℕ, Bool, true, false, not, ◌&&◌, ◌||◌, Option, none, some, List, [], ◌∷◌, ◌++◌, ◌≡◌, refl, ap,
  arith, if◌then◌else◌, ◌==◌, ==_iff, Bool-cases, inl, inr,
}
use vaultwarden_hummingbird.Text.{
  Str, codes, str_eq, str_eq_iff, is_empty, byte_len, lines, splitn, parse_uint,
}
use vaultwarden_hummingbird.Text.Decimal.{to_decimal}
use vaultwarden_hummingbird.BTree.{BTreeMap, get, insert, get-insert}
use vaultwarden_hummingbird.Backup.Manifest.{u64_max}

pub record Cached : Type 0 where
  pub size : ℕ
  pub mtime : ℕ
  pub ctime : ℕ
  pub sha256 : Str

pub record Cache : Type 0 where
  pub entries : BTreeMap Cached
  pub dirty : Bool

abbrev pub empty_cache : Cache
empty_cache = record { entries = []; dirty = false }

abbrev keep_row : BTreeMap Cached → Str → Str → Option ℕ → Option ℕ → Option ℕ → BTreeMap Cached
keep_row m rel sha256 (some size) (some mtime) (some ctime) =
    if not (byte_len sha256 == 64) || is_empty rel
    then m
    else insert rel (record { size = size; mtime = mtime; ctime = ctime; sha256 = sha256 }) m
keep_row m rel sha256 _ _ _ = m

unfoldable pub parse_row : BTreeMap Cached → List Str → BTreeMap Cached
unfolding insert byte_len parse_uint
parse_row m (sha256 ∷ size ∷ mtime ∷ ctime ∷ rel ∷ []) =
    keep_row m rel sha256 (parse_uint u64_max size) (parse_uint u64_max mtime)
      (parse_uint u64_max ctime)
parse_row m _ = m

unfoldable pub parse_rows : BTreeMap Cached → List Str → BTreeMap Cached
unfolding parse_row splitn
parse_rows m [] = m
parse_rows m (line ∷ rest) = parse_rows (parse_row m (splitn 5 b' ' line)) rest

abbrev parse_text : List Str → Cache
parse_text [] = empty_cache
parse_text (header ∷ rest) =
    if str_eq header (codes "v2")
    then record { entries = parse_rows [] rest; dirty = false }
    else empty_cache

unfoldable pub parse : Str → Cache
unfolding parse_rows lines str_eq
parse text = parse_text (lines text)

abbrev matching : ℕ → ℕ → ℕ → Option Cached → Option Str
matching size mtime ctime none = none
matching size mtime ctime (some c) =
    if c.size == size && c.mtime == mtime && c.ctime == ctime then some c.sha256 else none

unfoldable pub hash_of : Cache → Str → ℕ → ℕ → ℕ → Option Str
unfolding get
hash_of cache rel size mtime ctime =
    if mtime == 0 || ctime == 0 then none else matching size mtime ctime (get rel cache.entries)

abbrev cached_eq : Cached → Cached → Bool
cached_eq a b =
    a.size == b.size && a.mtime == b.mtime && a.ctime == b.ctime && str_eq a.sha256 b.sha256

abbrev is_cached : Option Cached → Cached → Bool
is_cached none c = false
is_cached (some b) c = cached_eq b c

unfoldable pub record_hash : Cache → Str → ℕ → ℕ → ℕ → Str → Cache
unfolding get insert
record_hash cache rel size mtime ctime sha256 =
    let entry : Cached = record { size = size; mtime = mtime; ctime = ctime; sha256 = sha256 } in
    if is_cached (get rel cache.entries) entry
    then cache
    else record { entries = insert rel entry cache.entries; dirty = true }

abbrev row_of : Str → Cached → Str
row_of rel c =
    c.sha256
    ++ b' '
      ∷ (to_decimal c.size
          ++ b' '
            ∷ (to_decimal c.mtime ++ b' ' ∷ (to_decimal c.ctime ++ b' ' ∷ (rel ++ b'\n' ∷ []))))

unfoldable pub render_rows : BTreeMap Cached → Str
unfolding to_decimal
render_rows [] = []
render_rows ((rel, c) ∷ rest) = row_of rel c ++ render_rows rest

-- What `save` writes, if anything.
unfoldable pub saved : Cache → Option Str
unfolding render_rows
saved cache =
    if not cache.dirty then none else some (codes "v2" ++ b'\n' ∷ render_rows cache.entries)

-- A recorded hash is found again under the same size and times, unless a time is unknown; under
-- another size or other times nothing is found; and the other files' hashes are as before.
pub record Recorded (cache after : Cache) (rel : Str) (size mtime ctime : ℕ) (sha256 : Str)
    : Type 0 where
  pub found : (mtime == 0 || ctime == 0) ≡ false → hash_of after rel size mtime ctime ≡ some sha256
  pub stale :
      (s m c : ℕ) → (size == s && mtime == m && ctime == c) ≡ false → hash_of after rel s m c ≡ none
  pub others :
      (r : Str) (s m c : ℕ) → str_eq rel r ≡ false → hash_of after r s m c ≡ hash_of cache r s m c

module _ (cache : Cache) (rel : Str) (size mtime ctime : ℕ) (sha256 : Str) where
  abbrev entry : Cached
  entry = record { size = size; mtime = mtime; ctime = ctime; sha256 = sha256 }

  -- Both ways of recording leave a cache that holds the entry, and the others as they were.
  record Holds (after : Cache) : Type 0 where
    here : get rel after.entries ≡ some entry
    there : (r : Str) → str_eq rel r ≡ false → get r after.entries ≡ get r cache.entries

  cached_eq_sound : (b : Cached) → cached_eq b entry ≡ true → b ≡ entry
  cached_eq_sound b h = cc (
    (==_iff b.size size).0 (ground (arith, h)),
    (==_iff b.mtime mtime).0 (ground (arith, h)),
    (==_iff b.ctime ctime).0 (ground (arith, h)),
    (str_eq_iff b.sha256 sha256).0 (ground (arith, h)),
  )

  is_cached_sound : (o : Option Cached) → is_cached o entry ≡ true → o ≡ some entry
  is_cached_sound none h = cc
  is_cached_sound (some b) h = ap some (cached_eq_sound b h)

  record_hash-Holds : Holds (record_hash cache rel size mtime ctime sha256)
  unfolding record_hash
  record_hash-Holds = elim (Bool-cases (is_cached (get rel cache.entries) entry)) [
    | inl e ↦
        rw e (record { here = is_cached_sound (get rel cache.entries) e; there = λ r n. refl })
    | inr e ↦ rw e (record {
      here = rw (get-insert, (str_eq_iff rel rel).1 refl) refl;
      there = λ r n. rw (get-insert, n) refl;
    })
  ]

  Holds-Recorded : (after : Cache) → Holds after → Recorded cache after rel size mtime ctime sha256
  unfolding hash_of
  Holds-Recorded after h = record {
    found = λ t. rw (t, h.here) (ground arith);
    stale = λ s m c n. rw (h.here) (ground (arith, n));
    others = λ r s m c n. rw (h.there r n) refl;
  }

-- A recorded hash is found again under the same size and times unless a time is 0, is not found under
-- others, and leaves what is found for the other files as it was.
pub record_hash-Recorded :
    (cache : Cache) (rel : Str) (size mtime ctime : ℕ) (sha256 : Str)
    → Recorded cache (record_hash cache rel size mtime ctime sha256) rel size mtime ctime sha256
record_hash-Recorded cache rel size mtime ctime sha256 =
    Holds-Recorded cache rel size mtime ctime sha256 (record_hash cache rel size mtime ctime sha256)
      (record_hash-Holds cache rel size mtime ctime sha256)
