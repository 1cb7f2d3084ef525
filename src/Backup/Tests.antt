-- ===== src/Backup/Tests.antt =====
-- Concrete inputs for the theorems of the backup modules.
use vaultwarden_hummingbird.Base.{
  ℕ, ◌≤◌, true, false, none, some, [], ◌∷◌, ◌≡◌, ◌≢◌, ◌↔◌, ◌⊎◌, refl, arith, length, ok, subst,
}
use vaultwarden_hummingbird.Text.{Str, codes, str_eq, str_eq_iff, is_whitespace, byte_len}
use vaultwarden_hummingbird.Text.Decimal.{to_decimal}
use vaultwarden_hummingbird.Text.Words.{IsWord}
use vaultwarden_hummingbird.BTree.{get, insert, get-insert}
use vaultwarden_hummingbird.Config.Spec.{DbBackupConfig}
use vaultwarden_hummingbird.Backup.Manifest.{
  Entry, Manifest, u64_max, parse, render, render_entries, latest, next_generation, push, retain,
}
use vaultwarden_hummingbird.Backup.Manifest.Order.{IsValid, InRange}
use vaultwarden_hummingbird.Backup.Manifest.Format.{parse-IsValid, parse-render}
use vaultwarden_hummingbird.Backup.Manifest.Retain.{
  Retains, retain-Retains, latest-retain, next_generation-none, push-IsValid,
}
use vaultwarden_hummingbird.Backup.Lineage
use vaultwarden_hummingbird.Backup.Lineage.{
  verdict, verdict_proceed, proceed, line, read_text, generation,
}
use vaultwarden_hummingbird.Backup.World.{World, text, dump, served, lost, tables, missing}
use vaultwarden_hummingbird.Backup.Bucket.{manifest_key}
use vaultwarden_hummingbird.Backup.Tick.{object_name, publish, tick}
use vaultwarden_hummingbird.Base.{List, Option, if◌then◌else◌, ◌==◌}
use vaultwarden_hummingbird.Backup.Tick.{is_empty_db}
use vaultwarden_hummingbird.Backup.World.{missing}
use vaultwarden_hummingbird.Backup.Restore.{restore_if_empty}
use vaultwarden_hummingbird.Backup.Restore.Boot.{
  Booted, restore_if_empty-live, restore_if_empty-Booted,
}
use vaultwarden_hummingbird.Backup.Tick.Sound.{
  Objects, entry_key, IsSound, Present-insert_self, IsSound-publish, Avoids-publish,
}
use vaultwarden_hummingbird.Backup.Tick.Cycle.{IsFresh, tick-IsSound}
use vaultwarden_hummingbird.Backup.Tick.Safety.{object_name-IsWord, LiveFits}
use vaultwarden_hummingbird.Backup.Tick.Guards.{MayPush, Untouched, tick-MayPush}
use vaultwarden_hummingbird.Backup.Tick.Continuity.{Continues, publish-Continues}
use vaultwarden_hummingbird.Backup.Tick.Lost.{publish-lost}

abbrev cfg : DbBackupConfig
cfg = record {
  sync = record {
    remote = codes "b";
    target = record {
      bucket = codes "b";
      prefix = codes "p/";
      key_id = codes "k";
      key_secret = codes "s";
      endpoint = codes "https://e";
    };
    interval = 60;
    state_file = none;
  };
  db_path = codes "/data/db.sqlite3";
  periodic = true;
  interval = 60;
  keep = 1;
  restore = false;
  staging = codes "/data/db-backups.staging";
}

abbrev name_a : Str
name_a = object_name cfg (codes "a")

abbrev name_b : Str
name_b = object_name cfg (codes "b")

IsWord-name_a : IsWord name_a
unfolding is_whitespace
IsWord-name_a = object_name-IsWord cfg (codes "a") (refl, tt)

IsWord-name_b : IsWord name_b
unfolding is_whitespace
IsWord-name_b = object_name-IsWord cfg (codes "b") (refl, tt)

abbrev entry_a : Entry
entry_a = record { generation = 1; name = name_a; size = 2 }

abbrev entry_b : Entry
entry_b = record { generation = 2; name = name_b; size = 3 }

abbrev one : Manifest
one = record { entries = entry_a ∷ [] }

InRange-entry_a : InRange entry_a
InRange-entry_a = record {
  positive = omega arith;
  generation_fits = omega arith;
  size_fits = omega arith;
  name_word = IsWord-name_a;
}

InRange-entry_b : InRange entry_b
InRange-entry_b = record {
  positive = omega arith;
  generation_fits = omega arith;
  size_fits = omega arith;
  name_word = IsWord-name_b;
}

one-IsValid : IsValid one
one-IsValid = record { ordered = (tt, tt); in_range = (InRange-entry_a, tt) }

parse-render_example : parse (render one) ≡ ok one
parse-render_example = parse-render one one-IsValid

parse-IsValid_example : IsValid one
parse-IsValid_example = parse-IsValid (render one) (parse-render one one-IsValid)

push-IsValid_example : IsValid (push one entry_b)
unfolding next_generation latest str_eq object_name
push-IsValid_example = push-IsValid one entry_b one-IsValid refl refl InRange-entry_b

two-IsValid : IsValid (push one entry_b)
unfolding next_generation latest str_eq object_name
two-IsValid = push-IsValid one entry_b one-IsValid refl refl InRange-entry_b

retain-Retains_example :
    Retains (push one entry_b) 1 (retain (push one entry_b) 1).0 (retain (push one entry_b) 1).1
retain-Retains_example = retain-Retains (push one entry_b) 1 two-IsValid

latest-retain_example : latest (retain (push one entry_b) 1).0 ≡ latest (push one entry_b)
latest-retain_example = latest-retain (push one entry_b) 1 (omega arith)

next_generation-none_example : (next_generation one ≡ none) ↔ (u64_max ≤ latest one)
next_generation-none_example = next_generation-none one

abbrev two : ℕ
two = 2

abbrev three : ℕ
three = 3

verdict_proceed_example :
    (verdict (some three) two ≡ proceed)
    ↔ ((two ≡ 0) ⊎ ((g : ℕ) × (some three ≡ some g) × (two ≤ g)))
verdict_proceed_example = verdict_proceed (some three) two

-- A bucket with one dump and the manifest that names it.
abbrev dumps : Objects
dumps = insert (entry_key cfg name_a) (dump (1 ∷ 2 ∷ [])) []

abbrev bucket : Objects
bucket = insert (manifest_key cfg) (text (render one)) dumps

abbrev world : World
world = record {
  objects = bucket;
  live = tables 3 (7 ∷ 8 ∷ 9 ∷ []);
  sidecar = some (line (to_decimal 1));
  retained = none;
  staged = none;
  wal = true;
  shm = true;
  answers =
      served ∷ served ∷ served ∷ served ∷ served ∷ served ∷ served ∷ served ∷ served ∷ served ∷ [];
}

bucket-IsSound : IsSound cfg bucket
bucket-IsSound =
    IsSound-publish cfg dumps one one-IsValid
      (Present-insert_self cfg [] (dump (1 ∷ 2 ∷ [])) name_a, tt)

bucket-stored : get (manifest_key cfg) bucket ≢ none
bucket-stored e =
    cc (rw (get-insert, (str_eq_iff (manifest_key cfg) (manifest_key cfg)).1 refl) at e)

bucket-IsFresh : IsFresh cfg (codes "b") bucket
unfolding str_eq object_name
bucket-IsFresh = record {
  unused = Avoids-publish cfg dumps one (object_name cfg (codes "b")) one-IsValid (refl, tt);
  usable = λ h. absurd (bucket-stored h);
  unlisted = λ h. absurd (bucket-stored h);
}

world-LiveFits : LiveFits world
world-LiveFits bytes h =
    subst (λ b. elim b [ none ↦ Unit {0} | some x ↦ length x ≤ u64_max ]) h (omega arith)

tick-IsSound_example : IsSound cfg (tick cfg (codes "b") false world).1.objects
unfolding is_whitespace
tick-IsSound_example =
    tick-IsSound cfg (codes "b") false world
      (refl, (refl, (refl, (refl, (refl, (refl, (refl, (refl, (refl, (refl, tt)))))))))) (refl, tt)
      world-LiveFits bucket-IsFresh bucket-IsSound

tick-MayPush_example : MayPush cfg world ⊎ Untouched world (tick cfg (codes "b") false world).1
tick-MayPush_example = tick-MayPush cfg (codes "b") false world

abbrev lossy : World
lossy = record world { answers = lost ∷ served ∷ [] }

publish-lost_example : ¬ IsSound cfg (publish cfg one entry_b lossy).1.objects
unfolding str_eq object_name render render_entries to_decimal retain push byte_len
publish-lost_example =
    publish-lost cfg one entry_b lossy [] two-IsValid (omega arith) refl refl refl

abbrev opens : List ℕ → Option ℕ
opens bytes = if length bytes == 2 then some 4 else none

abbrev restoring : DbBackupConfig
restoring = record cfg { restore = true }

restore_if_empty-live_example : (restore_if_empty opens restoring world).1.live ≡ world.live
unfolding is_empty_db
restore_if_empty-live_example = restore_if_empty-live opens restoring world (λ e. cc e)

abbrev wiped : World
wiped = record world { live = missing }

restore_if_empty-Booted_example :
    Booted opens restoring wiped
      (restore_if_empty opens restoring wiped).0
      (restore_if_empty opens restoring wiped).1
unfolding is_empty_db
restore_if_empty-Booted_example = restore_if_empty-Booted opens restoring wiped refl

abbrev lucky : World
lucky = record world { answers = served ∷ served ∷ lost ∷ [] }

publish-Continues_example :
    Continues cfg (retain (push one entry_b) 1).0 2 (publish cfg one entry_b lucky)
unfolding str_eq object_name render render_entries to_decimal retain push byte_len
publish-Continues_example =
    publish-Continues cfg one entry_b lucky (lost ∷ []) two-IsValid (omega arith) (omega arith)
      (refl, tt) refl refl
