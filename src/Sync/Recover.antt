-- ===== src/Sync/Recover.antt =====
-- supervisor/src/runtime/sync/state.rs: `choose_newest` and `reconcile_objects`, which recovers what
-- the manifest does not name and notes what the bucket no longer holds.
pub mod Safety
pub mod Newest
use vaultwarden_hummingbird.Base.{
  ℕ, ◌+◌, Bool, true, false, not, ◌&&◌, ◌||◌, Option, none, some, List, [], ◌∷◌, ◌++◌, ◌==◌,
  if◌then◌else◌, length, any, map, last,
}
use vaultwarden_hummingbird.Text.{Str, codes, str_eq, is_empty}
use vaultwarden_hummingbird.BTree.{BTreeMap, get, insert, remove}
use vaultwarden_hummingbird.Config.Spec.{SyncConfig, sync_prefix}
use vaultwarden_hummingbird.Sync.Manifest.{Entry, Manifest, get_entry}
use vaultwarden_hummingbird.Sync.Synced.{is_synced_file}
use vaultwarden_hummingbird.Sync.Objects.{object_key, split_object_key}
use vaultwarden_hummingbird.Sync.Local.{sort}
use vaultwarden_hummingbird.Sync.World.{World, M, ◌>>=◌, ◌>>◌, pure, stopping}
use vaultwarden_hummingbird.Sync.Client.{Listed, exists, list}
use vaultwarden_hummingbird.Sync.Push.{BTreeSet, read_repair, write_repair}
use vaultwarden_hummingbird.Sync.Pull.{Expect, max_sync_object_bytes, create_parent, fetch}

pub record Version : Type 0 where
  pub sha256 : Str
  pub size : ℕ
  pub last_modified : Str

abbrev pub or_default : Option (List Version) → List Version
or_default none = []
or_default (some vs) = vs

-- The versions of each path, in the order in which they come.
unfoldable pub group : BTreeMap (List Version) → List (Str × Version) → BTreeMap (List Version)
unfolding get insert
group by_rel [] = by_rel
group by_rel ((rel, v) ∷ rest) =
    group (insert rel (or_default (get rel by_rel) ++ v ∷ []) by_rel) rest

abbrev pub stamps_of : List Version → List Str
stamps_of [] = []
stamps_of (v ∷ vs) = v.last_modified ∷ stamps_of vs

abbrev pub has_pair : List Str → Bool
has_pair [] = false
has_pair (a ∷ []) = false
has_pair (a ∷ b ∷ l) = str_eq a b || has_pair (b ∷ l)

abbrev pub find_stamp : Str → List Version → Option Version
find_stamp stamp [] = none
find_stamp stamp (v ∷ vs) =
    let rest = find_stamp stamp vs in if str_eq v.last_modified stamp then some v else rest

abbrev pub find_newest : Option Str → List Version → Option Version
find_newest none vs = none
find_newest (some newest) vs = find_stamp newest vs

-- The newest version of one path, if the times put its versions in one order.
unfoldable pub newest_of : List Version → Option Version
unfolding sort str_eq
newest_of [] = none
newest_of (v ∷ []) = some v
newest_of (u ∷ v ∷ vs) =
    let stamps = stamps_of (u ∷ v ∷ vs) in
    if any is_empty stamps || has_pair (sort stamps)
    then none
    else find_newest (last (sort stamps)) (u ∷ v ∷ vs)

abbrev pub keep_chosen : Str → Option Version → BTreeMap Version → BTreeMap Version
keep_chosen rel none rest = rest
keep_chosen rel (some v) rest = (rel, v) ∷ rest

unfoldable pub choose_on : BTreeMap (List Version) → BTreeMap Version
unfolding newest_of
choose_on [] = []
choose_on ((rel, vs) ∷ by_rel) = keep_chosen rel (newest_of vs) (choose_on by_rel)

unfoldable pub choose_newest : List (Str × Version) → BTreeMap Version
unfolding group choose_on
choose_newest versions = choose_on (group [] versions)

unfoldable pub present_of : List Listed → BTreeMap ℕ
unfolding insert
present_of [] = []
present_of (item ∷ listed) = insert item.key item.size (present_of listed)

abbrev pub names : Option Manifest → Str → Bool
names none rel = false
names (some m) rel = elim (get_entry m rel) [ none ↦ false | some e ↦ true ]

-- An object that the manifest does not name.
abbrev pub candidate :
    SyncConfig
    → Option Manifest
    → Listed
    → Option (Str × Str)
    → List (Str × Version)
    → List (Str × Version)
candidate cfg m item none rest = rest
candidate cfg m item (some (rel, sha256)) rest =
    if not (is_synced_file rel cfg.state_file) || names m rel
    then rest
    else (rel, record { sha256 = sha256; size = item.size; last_modified = item.last_modified })
      ∷ rest

unfoldable pub unreferenced : SyncConfig → Option Manifest → List Listed → List (Str × Version)
unfolding split_object_key is_synced_file get_entry sync_prefix
unreferenced cfg m [] = []
unreferenced cfg m (item ∷ listed) =
    candidate cfg m item (split_object_key item.key (sync_prefix cfg)) (unreferenced cfg m listed)

abbrev same_size : Option ℕ → ℕ → Bool
same_size none size = false
same_size (some n) size = n == size

unfoldable pub is_held : SyncConfig → BTreeMap ℕ → Str → Entry → Bool
unfolding get object_key sync_prefix
is_held cfg present rel e =
    same_size (get (sync_prefix cfg ++ object_key rel e.sha256) present) e.size
    || same_size (get (sync_prefix cfg ++ rel) present) e.size

-- One entry of the manifest, checked against the listing.
unfoldable pub repair_entry : Bool → Bool → Str → BTreeSet → BTreeSet
unfolding insert remove
repair_entry held here rel repair =
    if held then remove rel repair else if here then insert rel tt repair else repair

unfoldable pub check_entries : SyncConfig → BTreeMap ℕ → BTreeMap Entry → BTreeSet → M BTreeSet
unfolding stopping repair_entry is_held exists
check_entries cfg present [] repair = pure repair
check_entries cfg present ((rel, e) ∷ entries) repair = do
  stop ← stopping
  if stop then pure repair else λ w.
      check_entries cfg present entries
        (repair_entry (is_held cfg present rel e) (exists rel w.files) rel repair) w

unfoldable pub check_manifest : SyncConfig → BTreeMap ℕ → Option Manifest → BTreeSet → M BTreeSet
unfolding check_entries
check_manifest cfg present none repair = pure repair
check_manifest cfg present (some m) repair = check_entries cfg present m.entries repair

unfoldable pub update_repair : SyncConfig → BTreeMap ℕ → Option Manifest → M Bool
unfolding read_repair check_manifest write_repair
update_repair cfg present m = do
  repair ← read_repair
  repair' ← check_manifest cfg present m repair
  write_repair repair'

module _ (digest : List ℕ → List ℕ) where
  unfoldable pub recover_missing : SyncConfig → Str → Version → M Bool
  unfolding create_parent fetch object_key sync_prefix
  recover_missing cfg rel v = do
    created ← create_parent
    if not created
        then pure false
        else fetch digest (sync_prefix cfg ++ object_key rel v.sha256) rel (record {
          size = some v.size;
          sha256 = some v.sha256;
          max_bytes = max_sync_object_bytes;
        })

  unfoldable pub recover_absent : SyncConfig → Str → Version → Bool → M Bool
  unfolding recover_missing
  recover_absent cfg rel v true = pure false
  recover_absent cfg rel v false = recover_missing cfg rel v

  -- How many files were recovered; a stop request ends the loop.
  unfoldable pub recover : SyncConfig → BTreeMap Version → M ℕ
  unfolding stopping recover_absent exists
  recover cfg [] = pure 0
  recover cfg ((rel, v) ∷ chosen) = do
    stop ← stopping
    if stop then pure 0 else do
      done ← λ w. recover_absent cfg rel v (exists rel w.files) w
      n ← recover cfg chosen
      pure (if done then n + 1 else n)

  unfoldable pub reconcile_listed : SyncConfig → Option Manifest → Option (List Listed) → M ℕ
  unfolding recover choose_newest unreferenced update_repair present_of
  reconcile_listed cfg m none = pure 0
  reconcile_listed cfg m (some listed) = do
    n ← recover cfg (choose_newest (unreferenced cfg m listed))
    update_repair cfg (present_of listed) m
    pure n

  unfoldable pub reconcile_objects : SyncConfig → Option Manifest → M ℕ
  unfolding list reconcile_listed sync_prefix
  reconcile_objects cfg m = do listed ← list (sync_prefix cfg); reconcile_listed cfg m listed
