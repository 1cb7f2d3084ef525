-- ===== src/Sync/Push/Publish.antt =====
-- The end of a push, whatever is answered: the manifest, the repair list and the cache.
use vaultwarden_hummingbird.Base.{
  ℕ, not, ◌≤◌, Bool, true, false, Option, none, some, List, ◌≡◌, refl, ◌∙◌, sym, subst, ltb, length,
  All, inl, inr, Bool-cases, leb,
}
use vaultwarden_hummingbird.Text.{Str, str_eq, str_eq_iff, byte_len}
use vaultwarden_hummingbird.BTree.{BTreeMap, get, insert, get-insert}
use vaultwarden_hummingbird.Config.Spec.{SyncConfig}
use vaultwarden_hummingbird.Backup.World.{Object, text, Answer}
use vaultwarden_hummingbird.Backup.Manifest.{u64_max}
use vaultwarden_hummingbird.Sync.Manifest.{Manifest, render, max_manifest_bytes}
use vaultwarden_hummingbird.Sync.Manifest.Format.{parse-render_paths}
use vaultwarden_hummingbird.Sync.Cache.{saved}
use vaultwarden_hummingbird.Sync.World.{File, World, ◌>>=◌, pure, request}
use vaultwarden_hummingbird.Sync.Run.{Run, Run-pure, Run-bind, Run-if, Run-request, Run-read}
use vaultwarden_hummingbird.Sync.Client.{manifest_key, put, store_manifest}
use vaultwarden_hummingbird.Sync.Push.{
  BTreeSet, text_lines, cache_of, repair_file, keep_present, Progress, fail, write_cache,
  record_pushed, store_shadow, remove_shadow, write_repair, save_cache, close, on_pushed,
  read_repair, load_cache, push_with,
}
use vaultwarden_hummingbird.Sync.Push.Held.{
  IsFit, IsDigest, Held, Names, Kept, content_key, content_key-manifest, Held-other,
}
use vaultwarden_hummingbird.Sync.Push.Sound.{
  Inv, Going, Going-stable, Names-map, Went, push_files_run,
}

module _ (digest : List ℕ → List ℕ) (is_digest : IsDigest digest) (cfg : SyncConfig)
    (before : BTreeMap Object) (files : BTreeMap File)
    (small : (rel : Str) (f : File) → get rel files ≡ some f → length f.bytes ≤ u64_max) where
  abbrev pub Stays : World → Type 0
  Stays w = Kept digest cfg before w.objects

  abbrev pub Goes : Bool → Manifest → World → Type 0
  Goes = Going digest is_digest cfg before files small

  -- As long as the manifest is not written, what it names is what it named before.
  pub Inv-Kept :
      (objects : BTreeMap Object)
      → Inv digest is_digest cfg before files small objects
      → Kept digest cfg before objects
  Inv-Kept objects i = record {
    copies = i.copies;
    named = λ m s. record {
      names = λ rel e g.
          inr
            (m, record { body = s.body; stored = sym i.manifest ∙ s.stored; parsed = s.parsed }, g);
    };
  }

  other-key : (rel hash : Str) → str_eq (manifest_key cfg) (content_key cfg rel hash) ≡ false
  other-key rel hash = elim (Bool-cases (str_eq (manifest_key cfg) (content_key cfg rel hash))) [
    | inl e ↦
        let back =
          (str_eq_iff (content_key cfg rel hash) (manifest_key cfg)).1
            (sym ((str_eq_iff (manifest_key cfg) (content_key cfg rel hash)).0 e)) in
        cc (back, content_key-manifest cfg rel hash)
    | inr e ↦ e
  ]

  published-Kept :
      (m : Manifest) (w : World)
      → Goes true m w
      → Kept digest cfg before (insert (manifest_key cfg) (text (render m)) w.objects)
  published-Kept m w p =
      let after = insert (manifest_key cfg) (text (render m)) w.objects in
      let keep : (r h : Str) → Held digest cfg w.objects r h → Held digest cfg after r h =
        λ r h held.
          Held-other digest cfg w.objects (manifest_key cfg) (text (render m)) r h (other-key r h)
            held in
      let good = p.good refl in
      record {
        copies = λ r h held. keep r h (p.inv.copies r h held);
        named = λ m' s.
            let there : get (manifest_key cfg) after ≡ some (text (render m)) =
              rw (get-insert, (str_eq_iff (manifest_key cfg) (manifest_key cfg)).1 refl) refl in
            let same : m ≡ m' = (cc (there, s.stored, s.parsed, parse-render_paths m good.valid)) in
            subst (Names digest cfg before after) same
              (Names-map digest is_digest cfg before files small w.objects after m keep good.names);
      }

  quiet_run :
      (P : World → Type 0) (f : World → World)
      → ((w : World) (l : List Answer) → P w → P (record w { answers = l }))
      → ((w : World) → P w → P (f w))
      → Run P (request f) (λ _ w. P w)
  quiet_run P f stable keeps =
      Run-request P stable (λ _ w. P w) f (λ w p. (keeps w p, keeps w p)) (λ w p. p)

  store_manifest_run : (m : Manifest) → Run (Goes true m) (store_manifest cfg m) (λ _ w. Stays w)
  unfolding store_manifest put
  store_manifest_run m =
      Run-if (leb (byte_len (render m)) max_manifest_bytes)
        (λ _.
          Run-request (Goes true m) (Going-stable digest is_digest cfg before files small true m)
            (λ _ w. Stays w)
            (λ w. record w { objects = insert (manifest_key cfg) (text (render m)) w.objects })
            (λ w p. (published-Kept m w p, published-Kept m w p)) (λ w p. Inv-Kept w.objects p.inv))
        (λ _. Run-pure false (λ w p. Inv-Kept w.objects p.inv))

  remove_shadow_run : Run Stays remove_shadow (λ _ w. Stays w)
  unfolding remove_shadow
  remove_shadow_run = quiet_run Stays (λ w. record w { shadow = none }) (λ w l p. p) (λ w p. p)

  write_repair_run : (set : BTreeSet) → Run Stays (write_repair set) (λ _ w. Stays w)
  unfolding write_repair
  write_repair_run set =
      quiet_run Stays (λ w. record w { repair = repair_file set }) (λ w l p. p) (λ w p. p)

  record_pushed_run :
      (publish : Bool) (s : Progress)
      → Run (Goes publish s.manifest) (record_pushed cfg publish s) (λ _ w. Stays w)
  unfolding record_pushed store_shadow
  record_pushed_run true s =
      Run-bind {m = store_manifest cfg s.manifest} (store_manifest_run s.manifest) (λ stored.
        Run-if stored {m = remove_shadow >>= λ _. pure s} {n = pure (fail s)}
          (λ _. Run-bind {m = remove_shadow} remove_shadow_run (λ _. Run-pure s (λ w p. p)))
          (λ _. Run-pure (fail s) (λ w p. p)))
  record_pushed_run false s =
      Run-bind
        (quiet_run (Goes false s.manifest) (λ w. record w { shadow = some (render s.manifest) })
          (Going-stable digest is_digest cfg before files small false s.manifest)
          (λ w p. record { inv = p.inv; good = p.good; same = p.same }))
        (λ _. Run-pure s (λ w p. Inv-Kept w.objects p.inv))

  write_cache_run : (t : Option Str) → Run Stays (write_cache t) (λ _ w. Stays w)
  unfolding write_cache
  write_cache_run none = Run-pure true (λ w p. p)
  write_cache_run (some t) =
      quiet_run Stays (λ w. record w { cache = some t }) (λ w l p. p) (λ w p. p)

  close_run : (rels : List Str) (s : Progress) → Run Stays (close rels s) (λ _ w. Stays w)
  unfolding close save_cache
  close_run rels s =
      Run-bind {m = write_repair (keep_present rels s.repair)}
        (write_repair_run (keep_present rels s.repair))
        (λ _.
          Run-bind {m = write_cache (saved s.cache)} (write_cache_run (saved s.cache))
            (λ _. Run-pure (not s.failed) (λ w p. p)))

  on_pushed_run :
      (publish : Bool) (rels : List Str) (went : Option Progress)
      → Run
          (Went digest is_digest cfg before files small publish went)
          (on_pushed cfg publish rels went)
          (λ _ w. Stays w)
  unfolding on_pushed
  on_pushed_run publish rels none = Run-pure false (λ w p. Inv-Kept w.objects p)
  on_pushed_run publish rels (some s) =
      Run-bind {Q = λ _ w. Stays w}
        (Run-if (ltb 0 s.pushed) (λ _. record_pushed_run publish s)
          (λ _. Run-pure s (λ w p. Inv-Kept w.objects p.inv)))
        (λ t. close_run rels t)

  pub push_with_run :
      (publish : Bool) (rels : List Str) (m : Manifest)
      → All IsFit rels
      → Run (Goes publish m) (push_with digest cfg publish rels m) (λ _ w. Stays w)
  unfolding push_with read_repair load_cache
  push_with_run publish rels m fits =
      let stable = Going-stable digest is_digest cfg before files small publish m in
      let reads = λ (f : World → Option Str).
        Run-read (Goes publish m) stable f (λ _ w. Goes publish m w) (λ w l p. stable w l p)
          (λ w p. p) in
      Run-bind (Run-bind (reads (λ w. w.repair)) (λ t. Run-pure (text_lines t) (λ w p. p)))
        (λ repair.
          Run-bind (Run-bind (reads (λ w. w.cache)) (λ t. Run-pure (cache_of t) (λ w p. p)))
            (λ cache.
              Run-bind
                (push_files_run digest is_digest cfg before files small publish rels
                  (record {
                    manifest = m;
                    repair = repair;
                    cache = cache;
                    pushed = 0;
                    failed = false;
                  })
                  fits)
                (λ went. on_pushed_run publish rels went)))
