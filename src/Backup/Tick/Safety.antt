-- ===== src/Backup/Tick/Safety.antt =====
-- A whole backup cycle keeps the bucket sound, whatever is refused and wherever it stops.
use vaultwarden_hummingbird.Base.{
  ℕ, ◌≤◌, ◌<◌, Bool, true, false, not, Option, none, some, List, ◌≡◌, refl, arith, All, All-append,
  length,
}
use vaultwarden_hummingbird.Text.{Str, codes, str_eq, is_whitespace}
use vaultwarden_hummingbird.Text.Words.{IsWord, NoSpace}
use vaultwarden_hummingbird.Config.Spec.{DbBackupConfig}
use vaultwarden_hummingbird.Backup.Manifest.{
  Manifest, u64_max, latest, next_generation, push, has_name,
}
use vaultwarden_hummingbird.Backup.Manifest.Order.{IsValid}
use vaultwarden_hummingbird.Backup.Manifest.Retain.{push-IsValid}
use vaultwarden_hummingbird.Backup.World.{World}
use vaultwarden_hummingbird.Backup.Hoare.{
  Step, Step-pure, Step-bind, Step-if, Step-request, Step-weaken,
}
use vaultwarden_hummingbird.Backup.Tick.{
  sweep_failed, dump_failed, not_private, sweep_staging, copy_into_staging, sqlite_dump, restrict,
  dumped, staged_bytes, is_repeat, upload_is_redundant, object_name, redundant, remove_staged,
  upload_if, upload, stage,
}
use vaultwarden_hummingbird.Backup.Tick.Sound.{Present, Avoids}
use vaultwarden_hummingbird.Backup.Tick.Publish.{Sound, push_dump_step, remove_staged_step}

-- The copy that `VACUUM INTO` makes has a size that a `u64` holds.
abbrev pub LiveFits : World → Type 0
LiveFits w = (bytes : List ℕ) → dumped w.live ≡ some bytes → length bytes ≤ u64_max

abbrev StagedFits : World → Type 0
StagedFits w = length (staged_bytes w) ≤ u64_max

pub object_name-other :
    (cfg : DbBackupConfig) (ts : Str) → str_eq (object_name cfg ts) (codes "manifest") ≡ false
unfolding object_name str_eq
object_name-other cfg ts = refl

pub object_name-IsWord :
    (cfg : DbBackupConfig) (ts : Str) → NoSpace ts → IsWord (object_name cfg ts)
unfolding object_name is_whitespace
object_name-IsWord cfg ts h = (
  refl,
  (
    refl,
    (
      refl,
      (
        refl,
        (
          refl,
          (
            refl,
            (
              refl,
              (
                refl,
                All-append (λ c. is_whitespace c ≡ false) ts (codes ".sqlite3") h
                    (refl, (refl, (refl, (refl, (refl, (refl, (refl, (refl, tt)))))))),
              ),
            ),
          ),
        ),
      ),
    ),
  ),
)

module _ (cfg : DbBackupConfig) (m : Manifest) (known : Option ℕ) (g : ℕ) (name : Str) where
  -- What the cycle needs of a manifest and of the entry to come.
  pub record CanPush : Type 0 where
    pub valid : IsValid m
    pub next : next_generation m ≡ some g
    pub fresh : has_name m.entries name ≡ false
    pub word : IsWord name
    pub other : str_eq name (codes "manifest") ≡ false

  abbrev pub Holds : World → Type 0
  Holds w =
      Sound cfg w × All (λ x. Present cfg w.objects x.name) m.entries × Avoids cfg w.objects name

  next_generation-fits : next_generation m ≡ some g → (0 < g) × (g ≤ u64_max)
  unfolding next_generation
  next_generation-fits h = ground arith

  module _ (can : CanPush) where
    can-push-IsValid :
        (size : ℕ)
        → size ≤ u64_max
        → IsValid (push m (record { generation = g; name = name; size = size }))
    can-push-IsValid size h =
        push-IsValid m (record { generation = g; name = name; size = size }) can.valid can.next
          can.fresh
          (record {
            positive = (next_generation-fits can.next).0;
            generation_fits = (next_generation-fits can.next).1;
            size_fits = h;
            name_word = can.word;
          })

    upload_if_step :
        (bytes : List ℕ) (redundant : Bool)
        → length bytes ≤ u64_max
        → Step Holds
            (upload_if cfg m
              (record { generation = g; name = name; size = length bytes })
              bytes
              redundant)
            (λ _ w. Sound cfg w)
    unfolding upload_if
    upload_if_step bytes true h =
        Step-bind {m = remove_staged} (remove_staged_step cfg Holds (λ w p. p))
          (λ _. Step-pure redundant (λ w p. p.0))
    upload_if_step bytes false h =
        push_dump_step cfg m (record { generation = g; name = name; size = length bytes })
          (can-push-IsValid (length bytes) h) bytes can.other

    upload_step :
        Step (λ w. Holds w × StagedFits w) (upload cfg m known g name) (λ _ w. Sound cfg w)
    unfolding upload
    upload_step = record {
      at = λ w t p.
          (upload_if_step (staged_bytes w) (upload_is_redundant known (latest m) (is_repeat w))
              p.1).at
            w t p.0;
    }

    copy_step :
        (bytes : Option (List ℕ))
        → ((b : List ℕ) → bytes ≡ some b → length b ≤ u64_max)
        → Step Holds
            (copy_into_staging bytes)
            (λ copied w. Holds w × (copied ≡ true → StagedFits w))
    unfolding copy_into_staging
    copy_step none h = Step-pure false (λ w p. (p, λ e. cc))
    copy_step (some b) h =
        Step-request Holds (λ copied w. Holds w × (copied ≡ true → StagedFits w))
          (λ w. record w { staged = some b }) (λ w. refl) (λ w l p. p) (λ w p. (p, λ _. h b refl))
          (λ w p. (p, λ e. cc))

    sqlite_dump_step :
        Step
          (λ w. Holds w × LiveFits w)
          sqlite_dump
          (λ copied w. Holds w × (copied ≡ true → StagedFits w))
    unfolding sqlite_dump
    sqlite_dump_step = record { at = λ w t p. (copy_step (dumped w.live) p.1).at w t p.0 }

    restrict_step : Step (λ w. Holds w × StagedFits w) restrict (λ _ w. Holds w × StagedFits w)
    unfolding restrict
    restrict_step =
        Step-request (λ w. Holds w × StagedFits w) (λ _ w. Holds w × StagedFits w) (λ w. w)
          (λ w. refl) (λ w l p. p) (λ w p. p) (λ w p. p)

    sweep_step : Step (λ w. Holds w × LiveFits w) sweep_staging (λ _ w. Holds w × LiveFits w)
    unfolding sweep_staging
    sweep_step =
        Step-request (λ w. Holds w × LiveFits w) (λ _ w. Holds w × LiveFits w)
          (λ w. record w { staged = none }) (λ w. refl) (λ w l p. p) (λ w p. p) (λ w p. p)

    pub stage_step :
        Step (λ w. Holds w × LiveFits w) (stage cfg m known g name) (λ _ w. Sound cfg w)
    unfolding stage
    stage_step = Step-bind {m = sweep_staging} sweep_step λ swept.
        Step-if (not swept) (λ _. Step-pure sweep_failed (λ w p. p.0.0))
          λ _. Step-bind {m = sqlite_dump} sqlite_dump_step λ copied.
            Step-if (not copied) (λ _. Step-pure dump_failed (λ w p. p.0.0))
              λ e.
                Step-bind {m = restrict}
                  (Step-weaken (λ w p. (p.0, p.1 (ground arith))) (λ _ w q. q) restrict_step)
                  λ restricted.
                    Step-if (not restricted)
                      (λ _.
                        Step-bind {m = remove_staged}
                          (Step-weaken (λ w p. p.0) (λ _ w q. q)
                            (remove_staged_step cfg Holds (λ w p. p)))
                          (λ _. Step-pure not_private (λ w p. p.0)))
                      λ _. upload_step
