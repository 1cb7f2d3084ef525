-- ===== src/Sync/Synced.antt =====
-- supervisor/src/runtime/sync/synced.rs: which paths under /data are synced at all.
use vaultwarden_hummingbird.Base.{
  Bool, true, false, not, ◌&&◌, ◌||◌, Option, none, some, List, [], ◌∷◌, ◌++◌, ◌≡◌, ◌≢◌, refl, ap,
  arith, any, if◌then◌else◌,
}
use vaultwarden_hummingbird.Text.{
  Str, codes, str_eq, starts_with, ends_with, contains, contains_char, split_once,
}
use vaultwarden_hummingbird.Text.Split.{==_refl}

abbrev pub trees : List Str
trees = codes "certs" ∷ codes "attachments" ∷ codes "sends" ∷ []

abbrev pub opt_eq : Option Str → Str → Bool
opt_eq none rel = false
opt_eq (some s) rel = str_eq s rel

abbrev pub in_tree : Option (Str × Str) → Bool
in_tree none = false
in_tree (some (dir, rest)) = any (λ t. str_eq t dir) trees

unfoldable pub is_synced_file : Str → Option Str → Bool
unfolding starts_with ends_with contains contains_char split_once str_eq
is_synced_file rel state_file =
    if contains (codes "..") rel || starts_with (codes "/") rel || ends_with (codes ".part") rel
    then false
    else if str_eq rel (codes "tailscaled.state")
        || opt_eq state_file rel
        || (starts_with (codes "rsa_key") rel && not (contains_char b'/' rel))
    then true
    else in_tree (split_once b'/' rel)

pub starts_with-append : (p s : Str) → starts_with p (p ++ s) ≡ true
unfolding starts_with
starts_with-append [] s = refl
starts_with-append (c ∷ p) s = rw (==_refl c, starts_with-append p s)

contains-append : (a p b : Str) → contains p (a ++ (p ++ b)) ≡ true
unfolding contains
contains-append [] [] [] = unfold starts_with in refl
contains-append [] [] (c ∷ b) = unfold starts_with in refl
contains-append [] (c ∷ p) b = rw (starts_with-append (c ∷ p) b)
contains-append (d ∷ a) p b = ground (arith, contains-append a p b)

-- A synced path holds no ".." anywhere, does not start with "/", and does not end in ".part",
-- whatever the configured state file is.
pub is_synced_file-Contained :
    (rel : Str) (state_file : Option Str)
    → is_synced_file rel state_file ≡ true
    → ((a b : Str) → rel ≢ a ++ (codes ".." ++ b))
      × ((b : Str) → rel ≢ b'/' ∷ b)
      × (ends_with (codes ".part") rel ≡ false)
unfolding is_synced_file
is_synced_file-Contained rel state_file h =
    let safe =
      outer
        (contains (codes "..") rel || starts_with (codes "/") rel || ends_with (codes ".part") rel)
        _ h in
    let parts =
      three (contains (codes "..") rel) (starts_with (codes "/") rel)
        (ends_with (codes ".part") rel) safe in
    (
      (λ a b e. cc (parts.0, ap (contains (codes "..")) e, contains-append a (codes "..") b)),
      (λ b e. cc (parts.1, ap (starts_with (codes "/")) e, starts_with-append (codes "/") b)),
      parts.2,
    )
  where
    outer : (b c : Bool) → (if b then false else c) ≡ true → b ≡ false
    outer true c e = cc
    outer false c e = refl

    three : (a b c : Bool) → (a || b || c) ≡ false → (a ≡ false) × (b ≡ false) × (c ≡ false)
    three a b c e = (ground (arith, e), ground (arith, e), ground (arith, e))
