-- ===== src/BTree.antt =====
-- `BTreeMap<String, V>`: pairs in ascending order of their keys.
use vaultwarden_hummingbird.Base.{
  Option, none, some, List, [], ◌∷◌, ◌≡◌, refl, arith, if◌then◌else◌, All, Bool-cases, inl, inr,
  subst,
}
use vaultwarden_hummingbird.Text.{Str, str_eq, str_lt, str_eq_iff}

abbrev pub BTreeMap {ℓ} : Type ℓ → Type ℓ
BTreeMap V = List (Str × V)

module _ {ℓ} {V : Type ℓ} where
  unfoldable pub get : Str → BTreeMap V → Option V
  unfolding str_eq
  get k [] = none
  get k ((j, v) ∷ m) = if str_eq j k then some v else get k m

  unfoldable pub insert : Str → V → BTreeMap V → BTreeMap V
  unfolding str_eq str_lt
  insert k v [] = (k, v) ∷ []
  insert k v ((j, w) ∷ m) =
      if str_eq j k
      then (k, v) ∷ m
      else if str_lt k j
      then (k, v) ∷ (j, w) ∷ m
      else (j, w) ∷ insert k v m

  unfoldable pub remove : Str → BTreeMap V → BTreeMap V
  unfolding str_eq
  remove k [] = []
  remove k ((j, w) ∷ m) = let rest = remove k m in if str_eq j k then rest else (j, w) ∷ rest

  pub All-insert {κ} :
      (P : Str × V → Type κ) (k : Str) (v : V) (m : BTreeMap V)
      → P (k, v)
      → All P m
      → All P (insert k v m)
  unfolding insert
  All-insert P k v [] p h = (p, tt)
  All-insert P k v ((j, w) ∷ m) p h = elim (Bool-cases (str_eq j k)) [
    | inl a ↦ rw a (p, h.1)
    | inr a ↦ elim (Bool-cases (str_lt k j)) [
      | inl b ↦ rw (a, b) (p, h)
      | inr b ↦ rw (a, b) (h.0, All-insert P k v m p h.1)
    ]
  ]

  pub All-get {κ} :
      (P : Str × V → Type κ) (k : Str) (m : BTreeMap V) {v : V}
      → All P m
      → get k m ≡ some v
      → P (k, v)
  unfolding get
  All-get P k [] h e = cc e
  All-get P k ((j, w) ∷ m) {v} h e = elim (Bool-cases (str_eq j k)) [
    | inl a ↦ subst P (cc ((str_eq_iff j k).0 a, rw a at e)) h.0
    | inr a ↦ All-get P k m {v = v} h.1 (rw a at e)
  ]

  pub get-insert :
      (k j : Str) (v : V) (m : BTreeMap V)
      → get j (insert k v m) ≡ (if str_eq k j then some v else get j m)
  unfolding get insert
  get-insert k j v [] = refl
  get-insert k j v ((i, w) ∷ m) =
      ground (arith, str_eq_iff k j, str_eq_iff i k, str_eq_iff i j, get-insert k j v m)

  pub get-remove :
      (k j : Str) (m : BTreeMap V) → get j (remove k m) ≡ (if str_eq k j then none else get j m)
  unfolding get remove
  get-remove k j [] = ground arith
  get-remove k j ((i, w) ∷ m) =
      ground (arith, str_eq_iff k j, str_eq_iff i k, str_eq_iff i j, get-remove k j m)

  pub ruleset map_laws = (get-insert, get-remove)
