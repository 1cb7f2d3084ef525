-- ===== src/Backup/Manifest/Retain.antt =====
-- Growing and thinning the manifest.
use vaultwarden_hummingbird.Base.{
  ℕ, zero, suc, ◌-◌, ◌≤◌, ◌<◌, false, none, some, List, [], ◌∷◌, ◌++◌, ◌≡◌, refl, ◌↔◌, arith, leb,
  leb→le, All, All-drop, length, take, drop, take-append-drop, length-drop, Bool-cases, inl, inr,
  last, min,
}
use vaultwarden_hummingbird.Backup.Manifest.{
  Entry, Manifest, u64_max, last_generation, has_name, latest, next_generation, push, retain,
}
use vaultwarden_hummingbird.Backup.Manifest.Order.{
  Precedes, Ordered, InRange, IsValid, IsValid-concat,
}

Ordered-drop : (n : ℕ) (es : List Entry) → Ordered es → Ordered (drop n es)
Ordered-drop zero es o = o
Ordered-drop (suc n) [] o = o
Ordered-drop (suc n) (e ∷ es) o = Ordered-drop n es o.1

last-drop : (n : ℕ) (es : List Entry) → n < length es → last (drop n es) ≡ last es
last-drop zero es h = refl
last-drop (suc n) [] h = elim h [ ]
last-drop (suc n) (e ∷ []) h = absurd (omega arith)
last-drop (suc n) (e ∷ f ∷ es) h = last-drop n (f ∷ es) (omega arith)

-- Every entry that `take` keeps precedes every entry that `drop` keeps.
abbrev pub AllPrecede : List Entry → List Entry → Type 0
AllPrecede es fs = All (λ e. All (Precedes e) fs) es

take-AllPrecede-drop : (n : ℕ) (es : List Entry) → Ordered es → AllPrecede (take n es) (drop n es)
take-AllPrecede-drop zero es o = tt
take-AllPrecede-drop (suc n) [] o = tt
take-AllPrecede-drop (suc n) (e ∷ es) o =
    (All-drop (Precedes e) n es o.0, take-AllPrecede-drop n es o.1)

-- What `retain` does: it splits the entries in two, keeps the newest `keep` of them (all, if there
-- are no more), and evicts only what is older than everything kept.
pub record Retains (m : Manifest) (keep : ℕ) (kept : Manifest) (evicted : List Entry) : Type 0 where
  pub splits : evicted ++ kept.entries ≡ m.entries
  pub count : length kept.entries ≡ min keep (length m.entries)
  pub valid : IsValid kept
  pub older : AllPrecede evicted kept.entries

-- Thinning a well-formed manifest splits it in two: the newest `keep` entries, all of them if there
-- are no more, are kept and stay well formed, and every evicted entry is older than every kept one.
pub retain-Retains :
    (m : Manifest) (keep : ℕ) → IsValid m → Retains m keep (retain m keep).0 (retain m keep).1
unfolding retain
retain-Retains m keep v =
    let n = length m.entries - keep in
    elim (Bool-cases (leb (length m.entries) keep)) [
      | inl h ↦
          rw h
            (record { splits = refl; count = omega (arith, leb→le _ _ h); valid = v; older = tt })
      | inr h ↦ rw h (record {
        splits = take-append-drop n m.entries;
        count = ground (arith, length-drop n m.entries);
        valid = record {
          ordered = Ordered-drop n m.entries v.ordered;
          in_range = All-drop InRange n m.entries v.in_range;
        };
        older = take-AllPrecede-drop n m.entries v.ordered;
      })
    ]

-- With a positive `keep`, thinning leaves the newest generation as it was.
pub latest-retain : (m : Manifest) (keep : ℕ) → 0 < keep → latest (retain m keep).0 ≡ latest m
unfolding latest retain
latest-retain m keep h = elim (Bool-cases (leb (length m.entries) keep)) [
  | inl e ↦ rw e
  | inr e ↦
      rw e (rw (last-drop (length m.entries - keep) m.entries (ground arith), last_generation))
]

-- The next generation is one more than the newest; there is none exactly when the `u64` space is
-- used up.
pub next_generation-none : (m : Manifest) → (next_generation m ≡ none) ↔ (u64_max ≤ latest m)
unfolding next_generation
next_generation-none m = ground arith

-- An entry under the next generation, with a new name and fields that the line format can carry,
-- keeps the manifest well formed.
pub push-IsValid :
    (m : Manifest) (e : Entry)
    → IsValid m
    → next_generation m ≡ some e.generation
    → has_name m.entries e.name ≡ false
    → InRange e
    → IsValid (push m e)
unfolding push next_generation
push-IsValid m e v g n r = IsValid-concat m.entries e v (ground arith) n r
