-- ===== src/Backup/Tick/Continuity.antt =====
-- What a published push leaves for the next cycle.
use vaultwarden_hummingbird.Base.{
  ℕ, ◌<◌, ◌≤◌, true, false, Option, some, List, [], ◌∷◌, ◌≡◌, refl, arith, All, leb, last-append,
}
use vaultwarden_hummingbird.Text.{Str, codes, str_eq, str_eq_iff, byte_len}
use vaultwarden_hummingbird.Text.Decimal.{to_decimal}
use vaultwarden_hummingbird.BTree.{get, insert, remove, get-insert, get-remove}
use vaultwarden_hummingbird.Config.Spec.{DbBackupConfig}
use vaultwarden_hummingbird.Backup.Manifest.{
  Entry, Manifest, u64_max, push, retain, render, latest, last_generation,
}
use vaultwarden_hummingbird.Backup.Manifest.Order.{IsValid}
use vaultwarden_hummingbird.Backup.Manifest.Retain.{Retains, retain-Retains, latest-retain}
use vaultwarden_hummingbird.Backup.Manifest.Format.{parse-render}
use vaultwarden_hummingbird.Backup.World.{
  World, Answer, served, refused, lost, text, request, settle, head_answer, tail_answers, ◌>>=◌,
  pure,
}
use vaultwarden_hummingbird.Backup.Run.{Run, Run-pure, Run-bind}
use vaultwarden_hummingbird.Backup.Lineage.{
  Known, generation, line, read_text, read_text-line, Verdict, proceed, verdict,
}
use vaultwarden_hummingbird.Backup.Lineage
use vaultwarden_hummingbird.Backup.Bucket.{
  store_manifest, put, delete, prune, manifest_key, max_manifest_bytes,
}
use vaultwarden_hummingbird.Backup.Tick.{
  Outcome, pushed, finish, publish, remove_staged, retain_dump,
}
use vaultwarden_hummingbird.Backup.Tick.Sound.{entry_key, Stores, key-ne}

-- A request keeps what its effect keeps, whatever is answered.
Run-request :
    (P : World → Type 0) (f : World → World)
    → ((w : World) (l : List Answer) → P w → P (record w { answers = l }))
    → ((w : World) → P w → P (f w))
    → Run P (request f) (λ _ w. P w)
unfolding request
Run-request P f stable keeps = record {
  at = λ w p.
      go (head_answer w.answers) (record w { answers = tail_answers w.answers })
        (stable w (tail_answers w.answers) p);
}
  where
    go : (a : Answer) (w : World) → P w → P (settle a f w).1
    go served w p = unfold settle in keeps w p
    go refused w p = unfold settle in p
    go lost w p = unfold settle in keeps w p

module _ (cfg : DbBackupConfig) (body : Str) (note : Option Str) where
  -- The stored manifest and the sidecar.
  record Kept (w : World) : Type 0 where
    stored : get (manifest_key cfg) w.objects ≡ some (text body)
    noted : w.sidecar ≡ note

  prune_run :
      (evicted : List Entry)
      → All (λ e. str_eq e.name (codes "manifest") ≡ false) evicted
      → Run Kept (prune cfg evicted) (λ _ w. Kept w)
  unfolding prune delete manifest_key
  prune_run [] h = Run-pure tt (λ w p. p)
  prune_run (e ∷ es) h =
      Run-bind
        (Run-request Kept (λ w. record w { objects = remove (entry_key cfg e.name) w.objects })
          (λ w l p. record { stored = p.stored; noted = p.noted })
          (λ w p. record {
            stored = rw (get-remove, key-ne cfg e.name (codes "manifest") h.0) p.stored;
            noted = p.noted;
          }))
        (λ _. prune_run es h.1)

  remove_staged_run : Run Kept remove_staged (λ _ w. Kept w)
  unfolding remove_staged
  remove_staged_run = record { at = λ w p. record { stored = p.stored; noted = p.noted } }

  retain_dump_run : Run Kept retain_dump (λ _ w. Kept w)
  unfolding retain_dump
  retain_dump_run =
      Run-bind
        (Run-request Kept (λ w. record w { retained = w.staged })
          (λ w l p. record { stored = p.stored; noted = p.noted })
          (λ w p. record { stored = p.stored; noted = p.noted }))
        (λ _. remove_staged_run)

  rest_run :
      (g : ℕ) (evicted : List Entry)
      → All (λ e. str_eq e.name (codes "manifest") ≡ false) evicted
      → Run Kept
          (retain_dump >>= λ _. prune cfg evicted >>= λ _. pure (pushed g))
          (λ r w. (r ≡ pushed g) × Kept w)
  rest_run g evicted h = Run-bind {m = retain_dump} retain_dump_run (λ _.
      Run-bind {m = prune cfg evicted} (prune_run evicted h)
        (λ _. Run-pure (pushed g) (λ w p. (refl, p))))

latest-push : (m : Manifest) (e : Entry) → latest (push m e) ≡ e.generation
unfolding latest push
latest-push m e = rw (last-append m.entries e, last_generation)

verdict_same : (g : ℕ) → verdict (some g) g ≡ proceed
unfolding verdict
verdict_same g = ground arith

read-line :
    (w : World) (g : ℕ)
    → g ≤ u64_max
    → w.sidecar ≡ some (line (to_decimal g))
    → Lineage.read w ≡ some (generation g)
unfolding Lineage.read
read-line w g fits h = rw h (read_text-line g fits)

-- What the next cycle finds: the outcome is a success, the bucket stores the manifest that was
-- written, and by this database's own sidecar the next push is not refused.
pub record Continues (cfg : DbBackupConfig) (m : Manifest) (g : ℕ) (r : Outcome × World)
    : Type 0 where
  pub outcome : r.0 ≡ pushed g
  pub stores : Stores cfg r.1.objects m
  pub lineage : Lineage.read r.1 ≡ some (generation g)
  pub proceeds : verdict (some g) (latest m) ≡ proceed

-- Once the manifest's upload and the sidecar's write are served, the cycle reports the push, the bucket
-- stores the thinned manifest, the sidecar gives the new generation, and the next cycle's lineage
-- check lets it push, whatever becomes of the later requests. It asks for a well-formed grown
-- manifest, a positive `keep`, a rendered manifest below its cap, and that no evicted dump is named
-- "manifest".
pub publish-Continues :
    (cfg : DbBackupConfig) (m : Manifest) (e : Entry) (w : World) (rest : List Answer)
    → IsValid (push m e)
    → e.generation ≤ u64_max
    → 0 < cfg.keep
    → All (λ x. str_eq x.name (codes "manifest") ≡ false) (retain (push m e) cfg.keep).1
    → leb (byte_len (render (retain (push m e) cfg.keep).0)) max_manifest_bytes ≡ true
    → w.answers ≡ served ∷ served ∷ rest
    → Continues cfg (retain (push m e) cfg.keep).0 e.generation (publish cfg m e w)
unfolding publish store_manifest put request settle finish Lineage.write
publish-Continues cfg m e w rest v fits k names c a =
    let kept = (retain (push m e) cfg.keep).0 in
    let evicted = (retain (push m e) cfg.keep).1 in
    let r : Retains (push m e) cfg.keep kept evicted = retain-Retains (push m e) cfg.keep v in
    let note = some (line (to_decimal e.generation)) in
    let w' = record w {
      objects = insert (manifest_key cfg) (text (render kept)) w.objects;
      sidecar = note;
      answers = rest;
    } in
    let done = (rest_run cfg (render kept) note e.generation evicted names).at w' (record {
      stored = rw (get-insert, (str_eq_iff (manifest_key cfg) (manifest_key cfg)).1 refl) refl;
      noted = refl;
    }) in
    rw (c, a)
      (record {
        outcome = done.0;
        stores = record {
          body = render kept;
          stored = done.1.stored;
          parsed = parse-render kept r.valid;
        };
        lineage = read-line _ e.generation fits done.1.noted;
        proceeds =
            rw (latest-retain (push m e) cfg.keep k, latest-push m e) (verdict_same e.generation);
      })
