-- ===== src/Sync/Local.antt =====
-- supervisor/src/runtime/sync/synced.rs: the walks over the files under /data. A name in it is
-- UTF-8 text and every folder can be read; what is in the map is a regular file.
pub mod Exact
use vaultwarden_hummingbird.Base.{
  ℕ, Bool, true, false, not, ◌&&◌, ◌||◌, Option, none, some, List, [], ◌∷◌, ◌++◌, if◌then◌else◌,
}
use vaultwarden_hummingbird.Text.{
  Str, codes, str_eq, str_lt, starts_with, ends_with, contains_char, rsplit_once,
}
use vaultwarden_hummingbird.BTree.{BTreeMap, get, remove}
use vaultwarden_hummingbird.Sync.Synced.{trees, is_synced_file}
use vaultwarden_hummingbird.Sync.World.{File, World}

abbrev pub is_file : Str → BTreeMap File → Bool
is_file rel files = elim (get rel files) [ none ↦ false | some f ↦ true ]

abbrev pub filter : (Str → Bool) → List Str → List Str
filter p [] = []
filter p (x ∷ xs) = let rest = filter p xs in if p x then x ∷ rest else rest

abbrev pub paths : BTreeMap File → List Str
paths [] = []
paths ((rel, f) ∷ files) = rel ∷ paths files

-- The files below the folder `tree`, at any depth, that are in the set.
unfoldable pub walk_dir : BTreeMap File → Str → Option Str → List Str
unfolding starts_with is_synced_file
walk_dir files tree state_file =
    filter (λ rel. starts_with (tree ++ b'/' ∷ []) rel && is_synced_file rel state_file)
      (paths files)

unfoldable pub walk_trees : BTreeMap File → Option Str → List Str → List Str
unfolding walk_dir
walk_trees files state_file [] = []
walk_trees files state_file (tree ∷ rest) =
    walk_dir files tree state_file ++ walk_trees files state_file rest

-- `sort`, by insertion.
unfoldable pub place : Str → List Str → List Str
unfolding str_lt
place x [] = x ∷ []
place x (y ∷ ys) = let rest = place x ys in if str_lt y x then y ∷ rest else x ∷ y ∷ ys

unfoldable pub sort : List Str → List Str
unfolding place
sort [] = []
sort (x ∷ xs) = place x (sort xs)

abbrev pub default_state : Str
default_state = codes "tailscaled.state"

abbrev pub found_default : BTreeMap File → List Str
found_default files = if is_file default_state files then default_state ∷ [] else []

abbrev pub found_state : BTreeMap File → Option Str → List Str
found_state files none = []
found_state files (some state) =
    if not (str_eq state default_state) && is_file state files then state ∷ [] else []

abbrev pub found_keys : BTreeMap File → List Str
found_keys files =
    filter (λ rel. starts_with (codes "rsa_key") rel && not (contains_char b'/' rel)) (paths files)

unfoldable pub candidates : BTreeMap File → Option Str → List Str
unfolding get str_eq starts_with contains_char walk_trees
candidates files state_file =
    found_default files
    ++ (found_state files state_file ++ (found_keys files ++ walk_trees files state_file trees))

unfoldable pub local_synced_files : BTreeMap File → Option Str → List Str
unfolding candidates is_synced_file sort
local_synced_files files state_file =
    sort (filter (λ rel. is_synced_file rel state_file) (candidates files state_file))
