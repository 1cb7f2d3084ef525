-- ===== src/Backup/Manifest/Order.antt =====
-- What a well-formed manifest is: generations that strictly ascend, distinct names, and fields
-- that the line format can carry.
use vaultwarden_hummingbird.Base.{
  ℕ, ◌≤◌, ◌<◌, false, List, [], ◌∷◌, ◌++◌, ◌≡◌, refl, arith, All, All-append,
}
use vaultwarden_hummingbird.Text.{Str, str_eq}
use vaultwarden_hummingbird.Text.Words.{IsWord}
use vaultwarden_hummingbird.Backup.Manifest.{Entry, Manifest, u64_max, last_generation, has_name}

-- `e` may stand anywhere before `f`.
pub record Precedes (e f : Entry) : Type 0 where
  pub older : e.generation < f.generation
  pub other_name : str_eq e.name f.name ≡ false

abbrev pub Ordered : List Entry → Type 0
Ordered [] = Unit
Ordered (e ∷ es) = All (Precedes e) es × Ordered es

pub record InRange (e : Entry) : Type 0 where
  pub positive : 0 < e.generation
  pub generation_fits : e.generation ≤ u64_max
  pub size_fits : e.size ≤ u64_max
  pub name_word : IsWord e.name

pub record IsValid (m : Manifest) : Type 0 where
  pub ordered : Ordered m.entries
  pub in_range : All InRange m.entries

pub Ordered-concat :
    (es : List Entry) (x : Entry) → Ordered es → All (λ e. Precedes e x) es → Ordered (es ++ x ∷ [])
Ordered-concat [] x o p = (tt, tt)
Ordered-concat (e ∷ es) x o p =
    (All-append (Precedes e) es (x ∷ []) o.0 (p.0, tt), Ordered-concat es x o.1 p.1)

-- The last generation bounds all of them.
pub last_generation-le :
    (es : List Entry) → Ordered es → All (λ e. e.generation ≤ last_generation es) es
last_generation-le [] o = tt
last_generation-le (e ∷ []) o = (omega arith, tt)
last_generation-le (e ∷ f ∷ es) o =
    let rest = last_generation-le (f ∷ es) o.1 in (omega (arith, o.0.0.older, rest.0), rest)

has_name_none :
    (es : List Entry) (name : Str)
    → has_name es name ≡ false
    → All (λ e. str_eq e.name name ≡ false) es
has_name_none [] name h = tt
has_name_none (e ∷ es) name h = (ground arith, has_name_none es name (ground arith))

All-Precedes :
    (es : List Entry) (x : Entry) (g : ℕ)
    → All (λ e. e.generation ≤ g) es
    → g < x.generation
    → All (λ e. str_eq e.name x.name ≡ false) es
    → All (λ e. Precedes e x) es
All-Precedes [] x g a h n = tt
All-Precedes (e ∷ es) x g a h n =
    (record { older = omega (arith, a.0); other_name = n.0 }, All-Precedes es x g a.1 h n.1)

pub IsValid-concat :
    (es : List Entry) (x : Entry)
    → IsValid (record { entries = es })
    → last_generation es < x.generation
    → has_name es x.name ≡ false
    → InRange x
    → IsValid (record { entries = es ++ x ∷ [] })
IsValid-concat es x v h n r = record {
  ordered = Ordered-concat es x v.ordered (
      All-Precedes es x (last_generation es) (last_generation-le es v.ordered) h
        (has_name_none es x.name n));
  in_range = All-append InRange es (x ∷ []) v.in_range (r, tt);
}

pub has_name-All :
    (es : List Entry) (name : Str)
    → All (λ e. str_eq e.name name ≡ false) es
    → has_name es name ≡ false
has_name-All [] name h = refl
has_name-All (e ∷ es) name h = ground (arith, h.0, has_name-All es name h.1)
