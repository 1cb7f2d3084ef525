-- ===== src/Sync/Tests.antt =====
-- Concrete inputs for the theorems of the sync modules.
mod Runs
use vaultwarden_hummingbird.Base.{
  true, false, none, some, [], ◌∷◌, ◌++◌, ◌≡◌, ◌≢◌, ◌↔◌, refl, arith, ok,
}
use vaultwarden_hummingbird.Text.{
  Str, codes, str_eq, is_empty, byte_len, is_hexdigit, is_whitespace, ascii_lower, starts_with,
  ends_with, contains, contains_char, split_once,
}
use vaultwarden_hummingbird.Sync.Synced.{is_synced_file, is_synced_file-Contained}
use vaultwarden_hummingbird.Sync.Manifest.{Manifest, is_sha256, parse, render}
use vaultwarden_hummingbird.Sync.Manifest.Format.{IsPath, IsRow, IsValid, parse-render_paths}
use vaultwarden_hummingbird.Sync.Manifest.Valid.{parse-IsReadable}
use vaultwarden_hummingbird.Sync.Objects.{object_key, split_object_key, split_object_key_iff}
use vaultwarden_hummingbird.Sync.Cache.{empty_cache, record_hash, Recorded, record_hash-Recorded}

is_synced_file-Contained_example :
    ((a b : Str) → codes "certs/a.pem" ≢ a ++ (codes ".." ++ b))
    × ((b : Str) → codes "certs/a.pem" ≢ b'/' ∷ b)
    × (ends_with (codes ".part") (codes "certs/a.pem") ≡ false)
unfolding is_synced_file starts_with ends_with contains contains_char split_once str_eq
is_synced_file-Contained_example = is_synced_file-Contained (codes "certs/a.pem") none refl

abbrev sha : Str
sha = codes "0123456789abcdef0123456789abcdef0123456789abcdef0123456789abcdef"

sha-IsSha : is_sha256 sha ≡ true
unfolding byte_len is_hexdigit
sha-IsSha = refl

abbrev one : Manifest
one = record { entries = (codes "a b", record { size = 3; sha256 = sha }) ∷ [] }

one-IsPath : IsPath (codes "a b")
unfolding is_whitespace
one-IsPath = record {
  start = codes "a ";
  end = codes "b";
  splits = refl;
  word = (refl, (refl, tt));
  one_line = (refl, (refl, (refl, tt)));
}

one-IsRow : IsRow (codes "a b", record { size = 3; sha256 = sha })
unfolding ascii_lower
one-IsRow = record { path = one-IsPath; sha = sha-IsSha; lower = refl; size_fits = omega arith }

parse-render_paths_example : parse (render one) ≡ ok one
parse-render_paths_example =
    parse-render_paths one (record { ascending = (tt, tt); rows = (one-IsRow, tt) })

split_object_key_iff_example :
    (split_object_key (codes "p/" ++ object_key (codes "certs/a") sha) (codes "p/")
      ≡ some (codes "certs/a", sha))
    ↔ ((codes "p/" ++ object_key (codes "certs/a") sha
          ≡ codes "p/" ++ object_key (codes "certs/a") sha)
        × (is_sha256 sha ≡ true)
        × (is_empty (codes "certs/a") ≡ false))
split_object_key_iff_example =
    split_object_key_iff (codes "p/" ++ object_key (codes "certs/a") sha) (codes "p/")
      (codes "certs/a") sha

record_hash-Recorded_example :
    Recorded empty_cache (record_hash empty_cache (codes "a") 1 2 3 sha) (codes "a") 1 2 3 sha
record_hash-Recorded_example = record_hash-Recorded empty_cache (codes "a") 1 2 3 sha

parse-IsReadable_example : IsValid one
parse-IsReadable_example = parse-IsReadable (render one) parse-render_paths_example
