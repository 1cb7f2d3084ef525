-- ===== src/Backup/Manifest/Listing.antt =====
-- The manifest that a legacy listing stands for.
use vaultwarden_hummingbird.Base.{ℕ, ◌+◌, ◌≤◌, ◌<◌, ◌≡◌, arith, false, List, [], ◌∷◌, All, length}
use vaultwarden_hummingbird.Text.{Str, str_eq}
use vaultwarden_hummingbird.Text.Words.{IsWord}
use vaultwarden_hummingbird.Backup.Manifest.{number_from, from_listing, u64_max}
use vaultwarden_hummingbird.Backup.Manifest.Order.{Precedes, Ordered, InRange, IsValid}

All-number_from {ℓ} :
    (P : Str → Type ℓ) (i : ℕ) (listed : List (Str × ℕ))
    → All (λ n. P n.0) listed
    → All (λ e. P e.name) (number_from i listed)
unfolding number_from
All-number_from P i [] h = tt
All-number_from P i ((name, size) ∷ rest) h = (h.0, All-number_from P (i + 1) rest h.1)

-- Its names are the listed ones.
pub All-from_listing {ℓ} :
    (P : Str → Type ℓ) (listed : List (Str × ℕ))
    → All (λ n. P n.0) listed
    → All (λ e. P e.name) (from_listing listed).entries
unfolding from_listing
All-from_listing P listed h = All-number_from P 0 listed h

abbrev pub DistinctNames : List (Str × ℕ) → Type 0
DistinctNames [] = Unit
DistinctNames (n ∷ rest) = All (λ x. str_eq n.0 x.0 ≡ false) rest × DistinctNames rest

-- A listing that the line format can carry.
pub record IsUsable (listed : List (Str × ℕ)) : Type 0 where
  pub distinct : DistinctNames listed
  pub words : All (λ n. IsWord n.0 × (n.1 ≤ u64_max)) listed
  pub count : length listed ≤ u64_max

number_from-Precedes :
    (i j size : ℕ) (name : Str) (rest : List (Str × ℕ))
    → i < j + 1
    → All (λ x. str_eq name x.0 ≡ false) rest
    → All (Precedes (record { generation = i; name = name; size = size })) (number_from j rest)
unfolding number_from
number_from-Precedes i j size name [] h d = tt
number_from-Precedes i j size name ((n, s) ∷ rest) h d = (
  record { older = h; other_name = d.0 },
  number_from-Precedes i (j + 1) size name rest (omega arith) d.1,
)

number_from-Ordered :
    (i : ℕ) (listed : List (Str × ℕ)) → DistinctNames listed → Ordered (number_from i listed)
unfolding number_from
number_from-Ordered i [] d = tt
number_from-Ordered i ((name, size) ∷ rest) d = (
  number_from-Precedes (i + 1) (i + 1) size name rest (omega arith) d.0,
  number_from-Ordered (i + 1) rest d.1,
)

number_from-InRange :
    (i : ℕ) (listed : List (Str × ℕ))
    → i + length listed ≤ u64_max
    → All (λ n. IsWord n.0 × (n.1 ≤ u64_max)) listed
    → All InRange (number_from i listed)
unfolding number_from
number_from-InRange i [] h w = tt
number_from-InRange i ((name, size) ∷ rest) h w = (
  record {
    positive = omega arith;
    generation_fits = ground (arith, h);
    size_fits = w.0.1;
    name_word = w.0.0;
  },
  number_from-InRange (i + 1) rest (ground (arith, h)) w.1,
)

-- A usable listing makes a well-formed manifest.
pub from_listing-IsValid :
    (listed : List (Str × ℕ)) → IsUsable listed → IsValid (from_listing listed)
unfolding from_listing
from_listing-IsValid listed u = record {
  ordered = number_from-Ordered 0 listed u.distinct;
  in_range = number_from-InRange 0 listed (omega (arith, u.count)) u.words;
}
