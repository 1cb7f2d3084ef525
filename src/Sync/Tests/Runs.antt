-- ===== src/Sync/Tests/Runs.antt =====
-- Concrete pushes and pulls.
use vaultwarden_hummingbird.Base.{
  ℕ, false, none, some, List, [], ◌∷◌, ◌≡◌, ◌≤◌, ◌%◌, refl, arith, length, All, ◌&&◌,
}
use vaultwarden_hummingbird.Text.{Str, codes, str_eq, is_whitespace, starts_with}
use vaultwarden_hummingbird.BTree.{BTreeMap, get, All-get}
use vaultwarden_hummingbird.Config.Spec.{SyncConfig}
use vaultwarden_hummingbird.Backup.World.{served, lost}
use vaultwarden_hummingbird.Backup.Manifest.{u64_max}
use vaultwarden_hummingbird.Sync.Synced.{is_synced_file}
use vaultwarden_hummingbird.Sync.World.{File, World}
use vaultwarden_hummingbird.Sync.Local.{is_file, local_synced_files}
use vaultwarden_hummingbird.Sync.Local.Exact.{member, local_synced_files-Exact}
use vaultwarden_hummingbird.Sync.Push.{sync_state}
use vaultwarden_hummingbird.Sync.Push.Held.{IsFit, IsDigest, Kept}
use vaultwarden_hummingbird.Sync.Push.Safety.{sync_state-Kept}
use vaultwarden_hummingbird.Sync.Recover.{Version, newest_of}
use vaultwarden_hummingbird.Sync.Recover.Newest.{Newest, newest_of-Newest}
use vaultwarden_hummingbird.Sync.Restore.{restore_state}
use vaultwarden_hummingbird.Sync.Restore.Restored.{Restored, restore_state-Restored}

-- A digest that gives the length of the bytes, in 32 bytes.
abbrev zeros : ℕ → List ℕ
zeros n =
    0
    ∷ 0
    ∷ 0
    ∷ 0
    ∷ 0
    ∷ 0
    ∷ 0
    ∷ 0
    ∷ 0
    ∷ 0
    ∷ 0
    ∷ 0
    ∷ 0
    ∷ 0
    ∷ 0
    ∷ 0
    ∷ 0
    ∷ 0
    ∷ 0
    ∷ 0
    ∷ 0
    ∷ 0
    ∷ 0
    ∷ 0
    ∷ 0
    ∷ 0
    ∷ 0
    ∷ 0
    ∷ 0
    ∷ 0
    ∷ 0
    ∷ n % 256
    ∷ []

abbrev digest : List ℕ → List ℕ
digest b = zeros (length b)

digest-IsDigest : IsDigest digest
digest-IsDigest = record {
  bytes = λ b. (
    omega arith,
    (
      omega arith,
      (
        omega arith,
        (
          omega arith,
          (
            omega arith,
            (
              omega arith,
              (
                omega arith,
                (
                  omega arith,
                  (
                    omega arith,
                    (
                      omega arith,
                      (
                        omega arith,
                        (
                          omega arith,
                          (
                            omega arith,
                            (
                              omega arith,
                              (
                                omega arith,
                                (
                                  omega arith,
                                  (
                                    omega arith,
                                    (
                                      omega arith,
                                      (
                                        omega arith,
                                        (
                                          omega arith,
                                          (
                                            omega arith,
                                            (
                                              omega arith,
                                              (
                                                omega arith,
                                                (
                                                  omega arith,
                                                  (
                                                    omega arith,
                                                    (
                                                      omega arith,
                                                      (
                                                        omega arith,
                                                        (
                                                          omega arith,
                                                          (
                                                            omega arith,
                                                            (
                                                            omega arith,
                                                            (omega arith, (omega arith, tt)),
                                                            ),
                                                          ),
                                                        ),
                                                      ),
                                                    ),
                                                  ),
                                                ),
                                              ),
                                            ),
                                          ),
                                        ),
                                      ),
                                    ),
                                  ),
                                ),
                              ),
                            ),
                          ),
                        ),
                      ),
                    ),
                  ),
                ),
              ),
            ),
          ),
        ),
      ),
    ),
  );
  count = λ b. refl;
}

abbrev cfg : SyncConfig
cfg = record {
  remote = codes "b:p";
  target = record {
    bucket = codes "b";
    prefix = codes "p/";
    key_id = [];
    key_secret = [];
    endpoint = codes "http://x";
  };
  interval = 0;
  state_file = none;
}

abbrev one_file : BTreeMap File
one_file = (codes "certs/a", record { bytes = 7 ∷ 8 ∷ []; mtime = 1; ctime = 1 }) ∷ []

abbrev volume : World
volume = record {
  objects = [];
  modified = λ key. [];
  files = one_file;
  clock = 5;
  repair = none;
  shadow = none;
  cache = none;
  answers =
      served ∷ served ∷ served ∷ served ∷ served ∷ served ∷ served ∷ served ∷ lost ∷ served ∷ [];
}

one_file-Fit : IsFit (codes "certs/a")
unfolding str_eq starts_with is_whitespace
one_file-Fit = record {
  path = record {
    start = codes "certs/";
    end = codes "a";
    splits = refl;
    word = (refl, (refl, tt));
    one_line = (refl, (refl, (refl, (refl, (refl, (refl, (refl, tt)))))));
  };
  other = refl;
  outside = refl;
}

volume_fits : All IsFit (local_synced_files one_file none)
unfolding local_synced_files
volume_fits = (one_file-Fit, tt)

one_file_small : (rel : Str) (f : File) → get rel one_file ≡ some f → length f.bytes ≤ u64_max
one_file_small rel f e =
    All-get (λ r. length r.1.bytes ≤ u64_max) rel one_file {v = f} (omega arith, tt) e

sync_state-Kept_example : Kept digest cfg [] (sync_state digest cfg volume).1.objects
sync_state-Kept_example =
    sync_state-Kept digest cfg volume digest-IsDigest volume_fits one_file_small

restore_state-Restored_example : Restored digest cfg volume (restore_state digest cfg volume).1
restore_state-Restored_example = restore_state-Restored digest cfg volume

local_synced_files-Exact_example :
    member (codes "certs/a") (local_synced_files one_file none)
    ≡ (is_synced_file (codes "certs/a") none && is_file (codes "certs/a") one_file)
local_synced_files-Exact_example = local_synced_files-Exact (codes "certs/a") one_file none

-- The reply to the file's upload is lost: the push reports a failure and publishes no manifest, and
-- yet a fresh volume gets the file back by its content-addressed key.
push_lost : (sync_state digest cfg volume).0 ≡ false
unfolding sync_state
push_lost = refl

abbrev fresh_volume : World
fresh_volume = record (sync_state digest cfg volume).1 {
  files = [];
  answers = served ∷ served ∷ served ∷ served ∷ served ∷ served ∷ served ∷ served ∷ [];
}

pull_fresh :
    get (codes "certs/a") (restore_state digest cfg fresh_volume).1.files
    ≡ some (record { bytes = 7 ∷ 8 ∷ []; mtime = 5; ctime = 5 })
unfolding sync_state restore_state get
pull_fresh = refl

-- Two versions of a path; the second one is newer.
abbrev old_version : Version
old_version = record { sha256 = codes "a"; size = 1; last_modified = codes "2024-01-01" }

abbrev new_version : Version
new_version = record { sha256 = codes "b"; size = 2; last_modified = codes "2025-01-01" }

abbrev versions : List Version
versions = old_version ∷ new_version ∷ []

chosen : newest_of versions ≡ some new_version
unfolding newest_of
chosen = refl

newest_of-Newest_example : Newest versions new_version
newest_of-Newest_example = newest_of-Newest versions new_version chosen
