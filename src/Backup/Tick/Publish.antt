-- ===== src/Backup/Tick/Publish.antt =====
-- From the upload of a dump to the pruning of what it evicts, with truthful answers: at no point
-- does the bucket's manifest name an object that is not there.
use vaultwarden_hummingbird.Base.{
  ℕ, none, some, Bool, true, false, List, [], ◌∷◌, ◌++◌, ◌≡◌, refl, All, All-map, All-append,
  All-drop, Bool-cases, inl, inr, leb, length, ◌-◌,
}
use vaultwarden_hummingbird.Text.{Str, codes, str_eq, byte_len}
use vaultwarden_hummingbird.Text.Decimal.{to_decimal}
use vaultwarden_hummingbird.BTree.{insert, remove}
use vaultwarden_hummingbird.Config.Spec.{DbBackupConfig}
use vaultwarden_hummingbird.Backup.Manifest.{Entry, Manifest, push, retain, render}
use vaultwarden_hummingbird.Backup.Manifest.Order.{Precedes, IsValid}
use vaultwarden_hummingbird.Backup.Manifest.Retain.{AllPrecede, Retains, retain-Retains}
use vaultwarden_hummingbird.Backup.World.{World, text, dump, request, ◌>>◌}
use vaultwarden_hummingbird.Backup.Hoare.{Step, Step-pure, Step-bind, Step-if, Step-request}
use vaultwarden_hummingbird.Backup.Lineage
use vaultwarden_hummingbird.Backup.Bucket.{
  put, delete, store_manifest, prune, manifest_key, max_manifest_bytes,
}
use vaultwarden_hummingbird.Backup.Tick.{
  pushed, unpublished, finish, put_done, retain_dump, remove_staged, publish, push_dump,
}
use vaultwarden_hummingbird.Backup.Tick.Sound.{
  Objects, entry_key, Present, IsSound, Avoids, IsSound-insert, IsSound-remove, IsSound-publish,
  Avoids-insert, Avoids-remove, Avoids-publish, Present-insert, Present-insert_self, str_eq_sym,
}

module _ (cfg : DbBackupConfig) where
  abbrev pub Sound : World → Type 0
  Sound w = IsSound cfg w.objects

  abbrev AvoidsAll : List Entry → World → Type 0
  AvoidsAll es w = All (λ e. Avoids cfg w.objects e.name) es

  prune_step :
      (evicted : List Entry)
      → Step (λ w. Sound w × AvoidsAll evicted w) (prune cfg evicted) (λ _ w. Sound w)
  unfolding prune
  prune_step [] = Step-pure tt (λ w p. p.0)
  prune_step (e ∷ es) =
      Step-bind {Q = λ _ w. Sound w × AvoidsAll es w}
        (Step-request (λ w. Sound w × AvoidsAll (e ∷ es) w) (λ _ w. Sound w × AvoidsAll es w) _
          (λ w. refl) (λ w l p. p)
          (λ w p. (
            IsSound-remove cfg w.objects e.name p.1.0 p.0,
            All-map (λ x. Avoids cfg w.objects x.name)
                (λ x. Avoids cfg (remove (entry_key cfg e.name) w.objects) x.name) es
                (λ x a. Avoids-remove cfg w.objects (entry_key cfg e.name) x.name a) p.1.1,
          ))
          (λ w p. (p.0, p.1.1)))
        (λ _. prune_step es)

  -- The sidecar and the retained dump are changed, and the bucket is not.
  abbrev Held : List Entry → World → Type 0
  Held evicted w = Sound w × AvoidsAll evicted w

  write_step :
      (g : ℕ) (evicted : List Entry) → Step (Held evicted) (Lineage.write g) (λ _ w. Held evicted w)
  unfolding Lineage.write
  write_step g evicted =
      Step-request (Held evicted) (λ _ w. Held evicted w)
        (λ w. record w { sidecar = some (to_decimal g ++ b'\n' ∷ []) }) (λ w. refl) (λ w l p. p)
        (λ w p. p) (λ w p. p)

  rename_step :
      (evicted : List Entry)
      → Step
          (Held evicted)
          (request (λ w. record w { retained = w.staged }))
          (λ _ w. Held evicted w)
  rename_step evicted =
      Step-request (Held evicted) (λ _ w. Held evicted w) (λ w. record w { retained = w.staged })
        (λ w. refl) (λ w l p. p) (λ w p. p) (λ w p. p)

  retain_dump_step :
      (evicted : List Entry) → Step (Held evicted) retain_dump (λ _ w. Held evicted w)
  unfolding retain_dump
  retain_dump_step evicted = record { at = λ w t p. (rename_step evicted).at w t p }

  bookkeeping_step :
      (g : ℕ) (evicted : List Entry)
      → Step (Held evicted) (Lineage.write g >> retain_dump) (λ _ w. Held evicted w)
  bookkeeping_step g evicted =
      Step-bind {m = Lineage.write g} {f = λ _. retain_dump} (write_step g evicted)
        (λ _. retain_dump_step evicted)

  pub remove_staged_step :
      (P : World → Type 0)
      → ((w : World) → P w → P (record w { staged = none }))
      → Step P remove_staged (λ _ w. P w)
  unfolding remove_staged
  remove_staged_step P h = record { at = λ w t p. (t, h w p) }

  delete_step :
      (name : Str)
      → Step
          (λ w. Sound w × Avoids cfg w.objects name)
          (delete (entry_key cfg name))
          (λ _ w. Sound w)
  unfolding delete
  delete_step name =
      Step-request (λ w. Sound w × Avoids cfg w.objects name) (λ _ w. Sound w)
        (λ w. record w { objects = remove (entry_key cfg name) w.objects }) (λ w. refl) (λ w l p. p)
        (λ w p. IsSound-remove cfg w.objects name p.1 p.0) (λ w p. p.0)

  -- Before the manifest is written: the old one is sound, and all that the new one may name is there.
  pub record Ready (m : Manifest) (e : Entry) (w : World) : Type 0 where
    pub sound : IsSound cfg w.objects
    pub there : All (λ x. Present cfg w.objects x.name) m.entries
    pub dump_there : Present cfg w.objects e.name
    pub avoids : Avoids cfg w.objects e.name

  All-retain :
      (P : Entry → Type 0) (m : Manifest) (keep : ℕ)
      → All P m.entries
      → All P (retain m keep).0.entries
  unfolding retain
  All-retain P m keep h = elim (Bool-cases (leb (length m.entries) keep)) [
    | inl e ↦ rw e h
    | inr e ↦ rw e (All-drop P (length m.entries - keep) m.entries h)
  ]

  -- With the store reported as done, or not.
  abbrev Stored : List Entry → Str → Bool → World → Type 0
  Stored evicted name true w = Sound w × AvoidsAll evicted w
  Stored evicted name false w = Sound w × Avoids cfg w.objects name

  Avoids-evicted :
      (o : Objects) (kept : Manifest) (evicted : List Entry)
      → IsValid kept
      → AllPrecede evicted kept.entries
      → All (λ e. Avoids cfg (insert (manifest_key cfg) (text (render kept)) o) e.name) evicted
  Avoids-evicted o kept [] v h = tt
  Avoids-evicted o kept (e ∷ es) v h = (
    Avoids-publish cfg o kept e.name v (
        All-map (Precedes e) (λ x. str_eq x.name e.name ≡ false) kept.entries
          (λ x p. str_eq_sym cfg e.name x.name p.other_name) h.0),
    Avoids-evicted o kept es v h.1,
  )

  module _ (m : Manifest) (e : Entry) (valid : IsValid (push m e)) where
    store_step :
        Step
          (Ready m e)
          (store_manifest cfg (retain (push m e) cfg.keep).0)
          (Stored (retain (push m e) cfg.keep).1 e.name)
    unfolding store_manifest put
    store_step =
        let grown = retain (push m e) cfg.keep in
        let r : Retains (push m e) cfg.keep grown.0 grown.1 =
          retain-Retains (push m e) cfg.keep valid in
        Step-if (leb (byte_len (render grown.0)) max_manifest_bytes)
          (λ _.
            Step-request (Ready m e) (Stored grown.1 e.name) _ (λ w. refl)
              (λ w l p. record {
                sound = p.sound;
                there = p.there;
                dump_there = p.dump_there;
                avoids = p.avoids;
              })
              (λ w p. (
                IsSound-publish cfg w.objects grown.0 r.valid (
                    All-retain (λ x. Present cfg w.objects x.name) (push m e) cfg.keep
                      (unfold push in
                        All-append (λ x. Present cfg w.objects x.name) m.entries (e ∷ []) p.there
                          (p.dump_there, tt))),
                Avoids-evicted w.objects grown.0 grown.1 r.valid r.older,
              ))
              (λ w p. (p.sound, p.avoids)))
          (λ _. Step-pure false (λ w p. (p.sound, p.avoids)))

    after_store :
        (stored : Bool)
        → Step
            (Stored (retain (push m e) cfg.keep).1 e.name stored)
            (finish cfg e (retain (push m e) cfg.keep).1 stored)
            (λ _ w. Sound w)
    unfolding finish
    after_store true =
        let evicted = (retain (push m e) cfg.keep).1 in
        Step-bind {m = Lineage.write e.generation >> retain_dump}
          (bookkeeping_step e.generation evicted)
          (λ _.
            Step-bind {m = prune cfg evicted} (prune_step evicted)
              (λ _. Step-pure (pushed e.generation) (λ w p. p)))
    after_store false =
        Step-bind {m = remove_staged}
          (remove_staged_step (λ w. Sound w × Avoids cfg w.objects e.name) (λ w p. p))
          (λ _.
            Step-bind {m = delete (entry_key cfg e.name)} (delete_step e.name)
              (λ _. Step-pure unpublished (λ w p. p)))

    pub publish_step : Step (Ready m e) (publish cfg m e) (λ _ w. Sound w)
    unfolding publish
    publish_step =
        Step-bind {m = store_manifest cfg (retain (push m e) cfg.keep).0} store_step after_store

    abbrev pub Before : World → Type 0
    Before w =
        Sound w × All (λ x. Present cfg w.objects x.name) m.entries × Avoids cfg w.objects e.name

    -- With the upload reported as done, or not.
    abbrev Put : Bool → World → Type 0
    Put true w = Ready m e w
    Put false w = Sound w

    put_step :
        (bytes : List ℕ)
        → str_eq e.name (codes "manifest") ≡ false
        → Step Before (put (entry_key cfg e.name) (dump bytes)) Put
    unfolding put
    put_step bytes other =
        Step-request Before Put
          (λ w. record w { objects = insert (entry_key cfg e.name) (dump bytes) w.objects })
          (λ w. refl) (λ w l p. p)
          (λ w p. record {
            sound = IsSound-insert cfg w.objects e.name (dump bytes) other p.0;
            there =
                All-map (λ x. Present cfg w.objects x.name)
                  (λ x. Present cfg (insert (entry_key cfg e.name) (dump bytes) w.objects) x.name)
                  m.entries
                  (λ x q. Present-insert cfg w.objects (entry_key cfg e.name) (dump bytes) x.name q)
                  p.1;
            dump_there = Present-insert_self cfg w.objects (dump bytes) e.name;
            avoids = Avoids-insert cfg w.objects e.name e.name (dump bytes) other p.2;
          })
          (λ w p. p.0)

    after-Put : (done : Bool) → Step (Put done) (put_done cfg m e done) (λ _ w. Sound w)
    unfolding put_done
    after-Put true = publish_step
    after-Put false = unfold remove_staged in record { at = λ w t p. (t, p) }

    pub push_dump_step :
        (bytes : List ℕ)
        → str_eq e.name (codes "manifest") ≡ false
        → Step Before (push_dump cfg m e bytes) (λ _ w. Sound w)
    unfolding push_dump
    push_dump_step bytes other =
        Step-bind {m = put (entry_key cfg e.name) (dump bytes)} (put_step bytes other) after-Put
