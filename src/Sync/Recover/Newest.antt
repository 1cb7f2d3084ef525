-- ===== src/Sync/Recover/Newest.antt =====
-- Which version of a path is chosen.
use vaultwarden_hummingbird.Base.{
  Bool, true, false, ◌||◌, some, List, [], ◌∷◌, ◌++◌, ◌≡◌, refl, sym, ap, ◌∙◌, subst, All, All-map,
  any, last, ◌⊎◌, inl, inr, Bool-cases, Option-cases,
}
use vaultwarden_hummingbird.Text.Order.{
  str_lt-asym, str_lt-total, str_lt_trans, str_lt_same, not_below,
}
use vaultwarden_hummingbird.Text.{Str, str_eq, str_eq_iff, str_lt, is_empty}
use vaultwarden_hummingbird.Sync.Local.{place, sort}
use vaultwarden_hummingbird.Sync.Recover.{Version, stamps_of, has_pair, find_stamp, newest_of}

-- Texts in strictly ascending order.
abbrev Strict : List Str → Type 0
Strict [] = Unit
Strict (x ∷ xs) = All (λ y. str_lt x y ≡ true) xs × Strict xs

-- Texts in an order that repeats may stand in.
abbrev Ordered : List Str → Type 0
Ordered [] = Unit
Ordered (x ∷ xs) = All (λ y. str_lt y x ≡ false) xs × Ordered xs

All-place : (P : Str → Type 0) (x : Str) (ys : List Str) → P x → All P ys → All P (place x ys)
unfolding place
All-place P x [] p h = (p, tt)
All-place P x (y ∷ ys) p h = elim (Bool-cases (str_lt y x)) [
  | inl e ↦ rw e (h.0, All-place P x ys p h.1)
  | inr e ↦ rw e (p, h)
]

place-All : (P : Str → Type 0) (x : Str) (ys : List Str) → All P (place x ys) → P x × All P ys
unfolding place
place-All P x [] h = h
place-All P x (y ∷ ys) h = elim (Bool-cases (str_lt y x)) [
  | inl e ↦
      let g : All P (y ∷ place x ys) = rw e at h in
      let r = place-All P x ys g.1 in (r.0, (g.0, r.1))
  | inr e ↦ rw e at h
]

place-Ordered : (x : Str) (ys : List Str) → Ordered ys → Ordered (place x ys)
unfolding place
place-Ordered x [] h = (tt, tt)
place-Ordered x (y ∷ ys) h = elim (Bool-cases (str_lt y x)) [
  | inl e ↦
      rw e
        (All-place (λ z. str_lt z y ≡ false) x ys (str_lt-asym y x e).1 h.0, place-Ordered x ys h.1)
  | inr e ↦ rw e ((e, All-map _ (λ z. str_lt z x ≡ false) ys (λ z n. not_below z x y n e) h.0), h)
]

sort-Ordered : (xs : List Str) → Ordered (sort xs)
unfolding sort
sort-Ordered [] = tt
sort-Ordered (x ∷ xs) = place-Ordered x (sort xs) (sort-Ordered xs)

or_left : (a b : Bool) → (a || b) ≡ false → a ≡ false
or_left true b h = cc h
or_left false b h = refl

or_right : (a b : Bool) → (a || b) ≡ false → b ≡ false
or_right true b h = cc h
or_right false b h = h

-- An order without neighbours that are equal is strict.
Ordered-Strict : (xs : List Str) → Ordered xs → has_pair xs ≡ false → Strict xs
Ordered-Strict [] o h = tt
Ordered-Strict (x ∷ []) o h = (tt, tt)
Ordered-Strict (x ∷ y ∷ xs) o h =
    let rest = Ordered-Strict (y ∷ xs) o.1 (or_right (str_eq x y) (has_pair (y ∷ xs)) h) in
    let first = str_lt-total y x (or_left (str_eq x y) (has_pair (y ∷ xs)) h) o.0.0 in
    (
      (first, All-map _ (λ z. str_lt x z ≡ true) xs (λ z l. str_lt_trans x y z first l) rest.0),
      rest,
    )

-- Texts that are all different.
abbrev Distinct : List Str → Type 0
Distinct [] = Unit
Distinct (x ∷ xs) = All (λ y. str_eq x y ≡ false) xs × Distinct xs

Strict-Distinct : (xs : List Str) → Strict xs → Distinct xs
Strict-Distinct [] h = tt
Strict-Distinct (x ∷ xs) h = (
  All-map _ (λ y. str_eq x y ≡ false) xs (λ y l. (str_lt-asym x y l).0) h.0,
  Strict-Distinct xs h.1,
)

str_eq_back : (a b : Str) → str_eq a b ≡ false → str_eq b a ≡ false
str_eq_back a b h = elim (Bool-cases (str_eq b a)) [
  | inl e ↦ cc (h, (str_eq_iff a b).1 (sym ((str_eq_iff b a).0 e)))
  | inr e ↦ e
]

place-Distinct :
    (x : Str) (ys : List Str)
    → Distinct (place x ys)
    → All (λ y. str_eq x y ≡ false) ys × Distinct ys
unfolding place
place-Distinct x [] h = (tt, tt)
place-Distinct x (y ∷ ys) h = elim (Bool-cases (str_lt y x)) [
  | inl e ↦
      let g : Distinct (y ∷ place x ys) = rw e at h in
      let split = place-All (λ z. str_eq y z ≡ false) x ys g.0 in
      let r = place-Distinct x ys g.1 in ((str_eq_back y x split.0, r.0), (split.1, r.1))
  | inr e ↦ rw e at h
]

sort-All : (P : Str → Type 0) (xs : List Str) → All P (sort xs) → All P xs
unfolding sort
sort-All P [] h = tt
sort-All P (x ∷ xs) h = let r = place-All P x (sort xs) h in (r.0, sort-All P xs r.1)

sort-Distinct : (xs : List Str) → Distinct (sort xs) → Distinct xs
unfolding sort
sort-Distinct [] h = tt
sort-Distinct (x ∷ xs) h =
    let r = place-Distinct x (sort xs) h in
    (sort-All (λ y. str_eq x y ≡ false) xs r.0, sort-Distinct xs r.1)

last-All : (P : Str → Type 0) (xs : List Str) {n : Str} → All P xs → last xs ≡ some n → P n
last-All P [] h e = cc e
last-All P (x ∷ []) h e = subst P (cc e) h.0
last-All P (x ∷ y ∷ xs) {n} h e = last-All P (y ∷ xs) {n = n} h.1 e

-- No text of an order is behind its last one.
last-Ordered :
    (xs : List Str) {n : Str} → Ordered xs → last xs ≡ some n → All (λ x. str_lt n x ≡ false) xs
last-Ordered [] o e = tt
last-Ordered (x ∷ []) o e = (subst (λ y. str_lt y x ≡ false) (cc e) (str_lt_same x), tt)
last-Ordered (x ∷ y ∷ xs) {n} o e =
    (last-All (λ z. str_lt z x ≡ false) (y ∷ xs) {n = n} o.0 e, last-Ordered (y ∷ xs) {n = n} o.1 e)

stamps-All :
    (P : Str → Type 0) (vs : List Version) → All P (stamps_of vs) → All (λ v. P v.last_modified) vs
stamps-All P [] h = tt
stamps-All P (v ∷ vs) h = (h.0, stamps-All P vs h.1)

-- The one version of a time, if the times differ.
find_stamp-only :
    (n : Str) (vs : List Version) {v : Version}
    → Distinct (stamps_of vs)
    → find_stamp n vs ≡ some v
    → All (λ u. str_eq u.last_modified n ≡ true → u ≡ v) vs
find_stamp-only n [] d e = tt
find_stamp-only n (x ∷ vs) {v} d e = elim (Bool-cases (str_eq x.last_modified n)) [
  | inl m ↦
      let same : x ≡ v = cc (rw m at e) in
      let name : x.last_modified ≡ n = (str_eq_iff x.last_modified n).0 m in
      (
        λ _. same,
        All-map (λ u. str_eq x.last_modified u.last_modified ≡ false)
            (λ u. str_eq u.last_modified n ≡ true → u ≡ v) vs
            (λ u k h. cc (
              k,
              (str_eq_iff x.last_modified u.last_modified).1
                  (name ∙ sym ((str_eq_iff u.last_modified n).0 h)),
            ))
            (stamps-All (λ s. str_eq x.last_modified s ≡ false) vs d.0),
      )
  | inr m ↦ ((λ h. cc (h, m)), find_stamp-only n vs {v = v} d.1 (rw m at e))
]

-- `v` is one of the versions, and every other one is older.
pub record Newest (vs : List Version) (v : Version) : Type 0 where
  pub occurs : (before after : List Version) × (vs ≡ before ++ v ∷ after)
  pub older : All (λ u. (u ≡ v) ⊎ (str_lt u.last_modified v.last_modified ≡ true)) vs

find_stamp-name :
    (n : Str) (vs : List Version) {v : Version} → find_stamp n vs ≡ some v → v.last_modified ≡ n
find_stamp-name n [] e = cc e
find_stamp-name n (x ∷ vs) {v} e = elim (Bool-cases (str_eq x.last_modified n)) [
  | inl m ↦
      let same : x ≡ v = cc (rw m at e) in
      ap (λ u. u.last_modified) (sym same) ∙ (str_eq_iff x.last_modified n).0 m
  | inr m ↦ find_stamp-name n vs {v = v} (rw m at e)
]

find_stamp-occurs :
    (n : Str) (vs : List Version) {v : Version}
    → find_stamp n vs ≡ some v
    → (before after : List Version) × (vs ≡ before ++ v ∷ after)
find_stamp-occurs n [] e = cc e
find_stamp-occurs n (x ∷ vs) {v} e = elim (Bool-cases (str_eq x.last_modified n)) [
  | inl m ↦ let same : x ≡ v = cc (rw m at e) in ([], vs, ap (λ u. u ∷ vs) same)
  | inr m ↦
      let r = find_stamp-occurs n vs {v = v} (rw m at e) in (x ∷ r.0, r.1, ap (λ l. x ∷ l) r.2)
]

All-both :
    (P Q R : Version → Type 0) (vs : List Version)
    → ((u : Version) → P u → Q u → R u)
    → All P vs
    → All Q vs
    → All R vs
All-both P Q R [] f h k = tt
All-both P Q R (v ∷ vs) f h k = (f v h.0 k.0, All-both P Q R vs f h.1 k.1)

found-Newest :
    (vs : List Version) (n : Str) {v : Version}
    → has_pair (sort (stamps_of vs)) ≡ false
    → last (sort (stamps_of vs)) ≡ some n
    → find_stamp n vs ≡ some v
    → Newest vs v
found-Newest vs n {v} h l f =
    let ordered = sort-Ordered (stamps_of vs) in
    let distinct =
      sort-Distinct (stamps_of vs)
        (Strict-Distinct (sort (stamps_of vs)) (Ordered-Strict (sort (stamps_of vs)) ordered h)) in
    let behind =
      stamps-All (λ s. str_lt n s ≡ false) vs
        (sort-All (λ s. str_lt n s ≡ false) (stamps_of vs)
          (last-Ordered (sort (stamps_of vs)) {n = n} ordered l)) in
    let name = find_stamp-name n vs {v = v} f in
    record {
      occurs = find_stamp-occurs n vs {v = v} f;
      older =
          All-both (λ u. str_lt n u.last_modified ≡ false)
            (λ u. str_eq u.last_modified n ≡ true → u ≡ v) _ vs
            (λ u b o. elim (Bool-cases (str_eq u.last_modified n)) [
              | inl e ↦ inl (o e)
              | inr e ↦ inr (
                  subst (λ s. str_lt u.last_modified s ≡ true) (sym name)
                    (str_lt-total n u.last_modified e b))
            ])
            behind (find_stamp-only n vs {v = v} distinct f);
    }

-- The version that is recovered for a path is the only one, or every other one is strictly older: where
-- the times do not single one out, as where two are equal, none is chosen.
pub newest_of-Newest : (vs : List Version) (v : Version) → newest_of vs ≡ some v → Newest vs v
unfolding newest_of
newest_of-Newest [] v e = cc e
newest_of-Newest (u ∷ []) v e = record { occurs = ([], [], (cc e)); older = (inl (cc e), tt) }
newest_of-Newest (u ∷ w ∷ vs) v e =
    let all = u ∷ w ∷ vs in
    elim (Bool-cases (any is_empty (stamps_of all) || has_pair (sort (stamps_of all)))) [
      | inl b ↦ cc (rw b at e)
      | inr b ↦ elim (Option-cases (last (sort (stamps_of all)))) [
        | inl l ↦ cc (rw (b, l) at e)
        | inr (n, l) ↦
            found-Newest all n {v = v}
              (or_right (any is_empty (stamps_of all)) (has_pair (sort (stamps_of all))) b) l
              (rw (b, l) at e)
      ]
    ]
