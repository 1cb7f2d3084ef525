-- ===== src/Sync/Objects.antt =====
-- supervisor/src/runtime/sync/state.rs: the bucket keys of synced files.
use vaultwarden_hummingbird.Base.{
  ℕ, Bool, true, false, not, ◌&&◌, Option, none, some, [], ◌∷◌, ◌++◌, ◌≡◌, refl, ap, ◌∙◌, subst,
  arith, if◌then◌else◌, ◌==◌, ==_iff, ◌↔◌, Bool-cases, inl, inr,
}
use vaultwarden_hummingbird.Text.{
  Str, codes, is_empty, is_hexdigit, strip_prefix, rsplit_once, at_last,
}
use vaultwarden_hummingbird.Text.Split.{strip_prefix-append, strip_prefix_sound, rsplit_once-append}
use vaultwarden_hummingbird.Sync.Manifest.{is_sha256}
use vaultwarden_hummingbird.Sync.Manifest.Format.{sha-Lacks}

unfoldable pub object_key : Str → Str → Str
object_key rel sha256 = codes "objects/" ++ (rel ++ b'/' ∷ sha256)

-- The tests at the end of `split_object_key`.
abbrev well_formed : Option (Str × Str) → Option (Str × Str)
well_formed none = none
well_formed (some (rel, sha256)) =
    if is_sha256 sha256 && not (is_empty rel) then some (rel, sha256) else none

abbrev in_objects : Option Str → Option (Str × Str)
in_objects none = none
in_objects (some rest) = well_formed (rsplit_once b'/' rest)

abbrev in_prefix : Option Str → Option (Str × Str)
in_prefix none = none
in_prefix (some rest) = in_objects (strip_prefix (codes "objects/") rest)

unfoldable pub split_object_key : Str → Str → Option (Str × Str)
unfolding strip_prefix rsplit_once
split_object_key key prefix = in_prefix (strip_prefix prefix key)

-- The key of a file's content is split into its path and its hash again.
pub split_object_key-object_key :
    (prefix rel sha256 : Str)
    → is_sha256 sha256 ≡ true
    → is_empty rel ≡ false
    → split_object_key (prefix ++ object_key rel sha256) prefix ≡ some (rel, sha256)
unfolding split_object_key object_key
split_object_key-object_key prefix rel sha256 h k =
    ap in_prefix (strip_prefix-append prefix (object_key rel sha256))
    ∙ ap in_objects (strip_prefix-append (codes "objects/") (rel ++ b'/' ∷ sha256))
    ∙ ap well_formed
        (rsplit_once-append b'/' rel sha256 (sha-Lacks b'/' sha256 (unfold is_hexdigit in refl) h))
    ∙ rw (h, k) refl

at_last_sound :
    (c d : ℕ) (s : Str) (r : Option (Str × Str))
    → rsplit_once c s ≡ r
    → ((x y : Str) → rsplit_once c s ≡ some (x, y) → s ≡ x ++ c ∷ y)
    → {a b : Str} → at_last c d s r ≡ some (a, b)
    → d ∷ s ≡ a ++ c ∷ b
at_last_sound c d s none e ih {a} {b} h = go (c == d) refl h
  where
    ends : Bool → Option (Str × Str)
    ends x = if x then some ([], s) else none

    go : (x : Bool) → (c == d) ≡ x → ends x ≡ some (a, b) → d ∷ s ≡ a ++ c ∷ b
    go true e f = cc ((==_iff c d).0 e, f)
    go false e f = cc f
at_last_sound c d s (some (x, y)) e ih {a} {b} h = cc (ih x y e, h)

rsplit_once_sound : (c : ℕ) (s : Str) {a b : Str} → rsplit_once c s ≡ some (a, b) → s ≡ a ++ c ∷ b
unfolding rsplit_once
rsplit_once_sound c [] h = cc
rsplit_once_sound c (d ∷ s) {a} {b} h =
    at_last_sound c d s (rsplit_once c s) refl (λ x y e. rsplit_once_sound c s {a = x} {b = y} e)
      {a = a} {b = b} h

well_formed_sound :
    (rest : Str) (r : Option (Str × Str)) {rel sha256 : Str}
    → rsplit_once b'/' rest ≡ r
    → well_formed r ≡ some (rel, sha256)
    → (rest ≡ rel ++ b'/' ∷ sha256) × (is_sha256 sha256 ≡ true) × (is_empty rel ≡ false)
well_formed_sound rest none e h = cc
well_formed_sound rest (some (x, y)) {rel} {sha256} e h =
    elim (Bool-cases (is_sha256 y && not (is_empty x))) [
      | inl t ↦
          let same : ◌≡◌ {A = Str × Str} (x, y) (rel, sha256) = cc (rw t at h) in
          subst (λ p. (rest ≡ p.0 ++ b'/' ∷ p.1) × (is_sha256 p.1 ≡ true) × (is_empty p.0 ≡ false))
            same (rsplit_once_sound b'/' rest e, (ground (arith, t)), (ground (arith, t)))
      | inr t ↦ cc (rw t at h)
    ]

in_objects_sound :
    (rest : Str) (r : Option Str) {rel sha256 : Str}
    → strip_prefix (codes "objects/") rest ≡ r
    → in_objects r ≡ some (rel, sha256)
    → (rest ≡ object_key rel sha256) × (is_sha256 sha256 ≡ true) × (is_empty rel ≡ false)
unfolding object_key
in_objects_sound rest none e h = cc
in_objects_sound rest (some x) {rel} {sha256} e h =
    let w = well_formed_sound x (rsplit_once b'/' x) {rel = rel} {sha256 = sha256} refl h in
    (strip_prefix_sound (codes "objects/") rest e ∙ ap (λ y. codes "objects/" ++ y) w.0, w.1, w.2)

in_prefix_sound :
    (prefix key : Str) (r : Option Str) {rel sha256 : Str}
    → strip_prefix prefix key ≡ r
    → in_prefix r ≡ some (rel, sha256)
    → (key ≡ prefix ++ object_key rel sha256) × (is_sha256 sha256 ≡ true) × (is_empty rel ≡ false)
in_prefix_sound prefix key none e h = cc
in_prefix_sound prefix key (some x) {rel} {sha256} e h =
    let w =
      in_objects_sound x (strip_prefix (codes "objects/") x) {rel = rel} {sha256 = sha256} refl h in
    (strip_prefix_sound prefix key e ∙ ap (λ y. prefix ++ y) w.0, w.1, w.2)

-- A key is split exactly when it is the content-addressed key of a path that is not empty under a
-- well-formed hash, and into that path and that hash.
pub split_object_key_iff :
    (key prefix rel sha256 : Str)
    → (split_object_key key prefix ≡ some (rel, sha256)) ↔ (
        (key ≡ prefix ++ object_key rel sha256)
        × (is_sha256 sha256 ≡ true)
        × (is_empty rel ≡ false))
split_object_key_iff key prefix rel sha256 = (
  (λ h.
      unfold split_object_key in
      in_prefix_sound prefix key (strip_prefix prefix key) {rel = rel} {sha256 = sha256} refl h),
  (λ p.
      ap (λ k. split_object_key k prefix) p.0
      ∙ split_object_key-object_key prefix rel sha256 p.1 p.2),
)
