-- ===== src/Backup/Restore/Offers.antt =====
-- Which candidates a restore has, and in which order.
use vaultwarden_hummingbird.Base.{
  ℕ, ◌<◌, true, Option, none, some, List, [], ◌∷◌, ◌≡◌, refl, sym, ap, ◌∙◌, Result, ok, err, All,
  map, reverse, reverse_aux, leb, Bool-cases, inl, inr,
}
use vaultwarden_hummingbird.Text.{Str, byte_len}
use vaultwarden_hummingbird.BTree.{get}
use vaultwarden_hummingbird.Config.Spec.{DbBackupConfig}
use vaultwarden_hummingbird.Backup.Manifest.{Entry, Manifest, ParseError, parse, newest_first}
use vaultwarden_hummingbird.Backup.Manifest.Order.{Precedes, Ordered}
use vaultwarden_hummingbird.Backup.Manifest.Format.{parse-IsValid}
use vaultwarden_hummingbird.Backup.World.{
  Object, text, dump, World, Answer, served, refused, lost, ask, head_answer,
}
use vaultwarden_hummingbird.Backup.Bucket.{
  Trouble, max_manifest_bytes, manifest_key, text_of, answered, flat, parsed_of, manifest_of,
  get_optional_text, load_manifest, dump_names, list_objects,
}
use vaultwarden_hummingbird.Backup.Restore.{
  Candidate, from_entry, from_listed, legacy_of, legacy_candidates, on_loaded, candidates,
}

-- Each entry is newer than all behind it.
abbrev pub Descends : List Entry → Type 0
Descends [] = Unit
Descends (e ∷ es) = All (λ f. f.generation < e.generation) es × Descends es

reverse_aux-Descends :
    (es acc : List Entry)
    → Ordered es
    → Descends acc
    → All (λ x. All (λ a. a.generation < x.generation) acc) es
    → Descends (reverse_aux es acc)
reverse_aux-Descends [] acc o d h = d
reverse_aux-Descends (e ∷ es) acc o d h =
    reverse_aux-Descends es (e ∷ acc) o.1 (h.0, d) (newer es o.0 h.1)
  where
    newer :
        (xs : List Entry)
        → All (Precedes e) xs
        → All (λ x. All (λ a. a.generation < x.generation) acc) xs
        → All (λ x. All (λ a. a.generation < x.generation) (e ∷ acc)) xs
    newer [] p q = tt
    newer (x ∷ xs) p q = ((p.0.older, q.0), newer xs p.1 q.1)

reverse-Descends : (es : List Entry) → Ordered es → Descends (reverse es)
reverse-Descends es o = reverse_aux-Descends es [] o tt (none_yet es)
  where
    none_yet :
        (xs : List Entry)
        → All {A = Entry} (λ x. All {A = Entry} (λ a. a.generation < x.generation) []) xs
    none_yet [] = tt
    none_yet (x ∷ xs) = (tt, none_yet xs)

-- A manifest is stored, is not too long, is well formed, and its request is served.
pub record Readable (cfg : DbBackupConfig) (w : World) (m : Manifest) : Type 0 where
  pub answer : head_answer w.answers ≡ served
  pub body : Str
  pub stored : get (manifest_key cfg) w.objects ≡ some (text body)
  pub short : leb (byte_len body) max_manifest_bytes ≡ true
  pub parsed : parse body ≡ ok m

load_manifest-Readable :
    (cfg : DbBackupConfig) (w : World) (m : Manifest)
    → Readable cfg w m
    → (load_manifest cfg w).0 ≡ ok (some m)
unfolding load_manifest get_optional_text ask
load_manifest-Readable cfg w m r = rw (r.answer, r.stored, r.short, r.parsed) refl

module _ (cfg : DbBackupConfig) (w : World) (m : Manifest) where
  parsed_of-Readable :
      (t : Str) (r : Result ParseError Manifest)
      → head_answer w.answers ≡ served
      → get (manifest_key cfg) w.objects ≡ some (text t)
      → leb (byte_len t) max_manifest_bytes ≡ true
      → parse t ≡ r
      → parsed_of r ≡ ok (some m)
      → Readable cfg w m
  parsed_of-Readable t (ok n) a s c p e = record {
    answer = a;
    body = t;
    stored = s;
    short = c;
    parsed = p ∙ ap ok (cc e);
  }
  parsed_of-Readable t (err x) a s c p e = cc e

  text_of-Readable :
      (o : Option Object)
      → head_answer w.answers ≡ served
      → get (manifest_key cfg) w.objects ≡ o
      → manifest_of (text_of o) ≡ ok (some m)
      → Readable cfg w m
  text_of-Readable none a s e = cc e
  text_of-Readable (some (dump b)) a s e = cc e
  text_of-Readable (some (text t)) a s e = elim (Bool-cases (leb (byte_len t) max_manifest_bytes)) [
    | inl c ↦ parsed_of-Readable t (parse t) a s c refl (rw c at e)
    | inr c ↦ cc (rw c at e)
  ]

  Readable-load_manifest : (load_manifest cfg w).0 ≡ ok (some m) → Readable cfg w m
  unfolding load_manifest get_optional_text ask
  Readable-load_manifest e = go (head_answer w.answers) refl e
    where
      go :
          (a : Answer)
          → head_answer w.answers ≡ a
          → manifest_of (flat (answered a (text_of (get (manifest_key cfg) w.objects))))
            ≡ ok (some m)
          → Readable cfg w m
      go served a h = text_of-Readable (get (manifest_key cfg) w.objects) a refl h
      go refused a h = cc h
      go lost a h = cc h

module _ (opens : List ℕ → Option ℕ) (cfg : DbBackupConfig) where
  -- Where the candidates come from: the entries of the stored manifest, the newest first, or, only
  -- where that cannot be read, the dumps that are listed, the last name first.
  pub data Source (w : World) (cs : List Candidate) : Type 0 where
    by_manifest :
        (m : Manifest)
        → Readable cfg w m
        → Descends (reverse m.entries)
        → cs ≡ map (from_entry opens cfg) (reverse m.entries)
        → Source w cs
    by_listing :
        ((m : Manifest) → ¬ (Readable cfg w m))
        → cs ≡ map (from_listed opens cfg) (reverse (dump_names cfg w.objects))
        → Source w cs

  legacy_candidates-listed :
      (v : World) {cs : List Candidate}
      → (legacy_candidates opens cfg v).0 ≡ ok cs
      → cs ≡ map (from_listed opens cfg) (reverse (dump_names cfg v.objects))
  unfolding legacy_candidates list_objects ask
  legacy_candidates-listed v {cs} e = go (head_answer v.answers) e
    where
      go :
          (a : Answer)
          → legacy_of opens cfg (answered a (dump_names cfg v.objects)) ≡ ok cs
          → cs ≡ map (from_listed opens cfg) (reverse (dump_names cfg v.objects))
      go served h = sym (cc h)
      go refused h = cc h
      go lost h = cc h

  pub candidates-Source :
      (w : World) {cs : List Candidate} → (candidates opens cfg w).0 ≡ ok cs → Source w cs
  unfolding candidates
  candidates-Source w {cs} e = go (load_manifest cfg w).0 refl e
    where
      same : (load_manifest cfg w).1.objects ≡ w.objects
      same = unfold load_manifest get_optional_text ask in refl

      listed :
          {r : Result Trouble (Option Manifest)}
          → (load_manifest cfg w).0 ≡ r
          → ((m : Manifest) → ¬ (r ≡ ok (some m)))
          → (legacy_candidates opens cfg (load_manifest cfg w).1).0 ≡ ok cs
          → Source w cs
      listed l n h =
          by_listing (λ m r. n m (sym l ∙ load_manifest-Readable cfg w m r))
            (legacy_candidates-listed (load_manifest cfg w).1 h
              ∙ ap (λ o. map (from_listed opens cfg) (reverse (dump_names cfg o))) same)

      go :
          (r : Result Trouble (Option Manifest))
          → (load_manifest cfg w).0 ≡ r
          → (on_loaded opens cfg r (load_manifest cfg w).1).0 ≡ ok cs
          → Source w cs
      go (ok (some m)) l h =
          let r = Readable-load_manifest cfg w m l in
          let found : ok (map (from_entry opens cfg) (newest_first m)) ≡ ok cs =
            unfold on_loaded in h in
          let there : map (from_entry opens cfg) (reverse m.entries) ≡ cs =
            unfold newest_first in cc found in
          by_manifest m r
            (reverse-Descends m.entries (parse-IsValid r.body {m = m} r.parsed).ordered) (sym there)
      go (ok none) l h = listed l (λ m x. cc x) (unfold on_loaded in h)
      go (err t) l h = listed l (λ m x. cc x) (unfold on_loaded in h)
