-- ===== src/Sync/Local/Exact.antt =====
-- Which files a push looks at.
use vaultwarden_hummingbird.Base.{
  ℕ, Bool, true, false, not, ◌&&◌, ◌||◌, Option, none, some, List, [], ◌∷◌, ◌++◌, ◌≡◌, refl, sym,
  ap, ◌∙◌, subst, arith, append_assoc, any, if◌then◌else◌, Bool-cases, inl, inr,
}
use vaultwarden_hummingbird.Text.Split.{split_once_sound}
use vaultwarden_hummingbird.Text.{
  Str, codes, str_eq, str_eq_iff, starts_with, ends_with, contains, contains_char, split_once,
}
use vaultwarden_hummingbird.BTree.{BTreeMap, get}
use vaultwarden_hummingbird.Sync.Synced.{trees, in_tree, opt_eq, is_synced_file, starts_with-append}
use vaultwarden_hummingbird.Sync.World.{File}
use vaultwarden_hummingbird.Sync.Local.{
  default_state, found_default, found_state, found_keys, is_file, filter, paths, walk_dir,
  walk_trees, place, sort, candidates, local_synced_files,
}

abbrev pub member : Str → List Str → Bool
member rel l = any (λ x. str_eq x rel) l

member-append : (rel : Str) (l m : List Str) → member rel (l ++ m) ≡ (member rel l || member rel m)
member-append rel [] m = refl
member-append rel (x ∷ l) m = ground (arith, member-append rel l m)

member-place :
    (rel x : Str) (l : List Str) → member rel (place x l) ≡ (str_eq x rel || member rel l)
unfolding place
member-place rel x [] = refl
member-place rel x (y ∷ l) = ground (arith, member-place rel x l)

member-sort : (rel : Str) (l : List Str) → member rel (sort l) ≡ member rel l
unfolding sort
member-sort rel [] = refl
member-sort rel (x ∷ l) = ground (arith, member-place rel x (sort l), member-sort rel l)

member-filter :
    (rel : Str) (p : Str → Bool) (l : List Str) → member rel (filter p l) ≡ (p rel && member rel l)
member-filter rel p [] = ground arith
member-filter rel p (x ∷ l) = elim (Bool-cases (str_eq x rel)) [
  | inl e ↦
      let same : p x ≡ p rel = ap p ((str_eq_iff x rel).0 e) in
      ground (arith, e, same, member-filter rel p l)
  | inr e ↦ ground (arith, e, member-filter rel p l)
]

member-paths : (rel : Str) (files : BTreeMap File) → member rel (paths files) ≡ is_file rel files
unfolding get
member-paths rel [] = refl
member-paths rel ((x, f) ∷ files) = ground (arith, member-paths rel files)

-- One file that is looked for by its name.
member-found :
    (rel x : Str) (b : Bool) (files : BTreeMap File)
    → member rel (if b && is_file x files then x ∷ [] else [])
      ≡ (b && str_eq x rel && is_file rel files)
member-found rel x b files = elim (Bool-cases (str_eq x rel)) [
  | inl e ↦
      let same : is_file x files ≡ is_file rel files =
        ap (λ y. is_file y files) ((str_eq_iff x rel).0 e) in
      ground (arith, e, same)
  | inr e ↦ ground (arith, e)
]

abbrev below : Str → List Str → Bool
below rel ts = any (λ t. starts_with (t ++ b'/' ∷ []) rel) ts

member-walk_trees :
    (rel : Str) (files : BTreeMap File) (state_file : Option Str) (ts : List Str)
    → member rel (walk_trees files state_file ts)
      ≡ (below rel ts && is_synced_file rel state_file && is_file rel files)
unfolding walk_trees walk_dir
member-walk_trees rel files state_file [] = refl
member-walk_trees rel files state_file (t ∷ ts) =
    member-append rel (walk_dir files t state_file) (walk_trees files state_file ts)
    ∙ rw
        (
          member-filter rel (λ r. starts_with (t ++ b'/' ∷ []) r && is_synced_file r state_file)
              (paths files),
          member-paths rel files,
          member-walk_trees rel files state_file ts,
        )
        (distribute (starts_with (t ++ b'/' ∷ []) rel) (below rel ts)
          (is_synced_file rel state_file) (is_file rel files))
  where
    distribute : (a b s f : Bool) → (((a && s) && f) || (b && s && f)) ≡ ((a || b) && s && f)
    distribute a b s f = ground arith

split_once_head :
    (c : ℕ) (s : Str) {a b : Str}
    → split_once c s ≡ some (a, b)
    → starts_with (a ++ c ∷ []) s ≡ true
split_once_head c s {a} {b} e =
    ap (starts_with (a ++ c ∷ []))
      (split_once_sound c s {a = a} {b = b} e ∙ sym (append_assoc a (c ∷ []) b))
    ∙ starts_with-append (a ++ c ∷ []) b

abbrev named_dir : Option (Str × Str) → Str → Bool
named_dir none t = false
named_dir (some (dir, rest)) t = str_eq t dir

named_dir-below :
    (t rel : Str) (r : Option (Str × Str))
    → split_once b'/' rel ≡ r
    → named_dir r t ≡ true
    → starts_with (t ++ b'/' ∷ []) rel ≡ true
named_dir-below t rel none e h = cc h
named_dir-below t rel (some (dir, rest)) e h =
    subst (λ d. starts_with (d ++ b'/' ∷ []) rel ≡ true) (sym ((str_eq_iff t dir).0 h))
      (split_once_head b'/' rel {a = dir} {b = rest} e)

-- The reasons for which a path is in the set.
abbrev is_state : Option Str → Str → Bool
is_state none rel = false
is_state (some s) rel = not (str_eq s default_state) && str_eq s rel

abbrev is_key : Str → Bool
is_key rel = starts_with (codes "rsa_key") rel && not (contains_char b'/' rel)

abbrev is_reason : Str → Option Str → Bool
is_reason rel state_file =
    str_eq default_state rel || is_state state_file rel || is_key rel || below rel trees

member-found_state :
    (rel : Str) (files : BTreeMap File) (state_file : Option Str)
    → member rel (found_state files state_file) ≡ (is_state state_file rel && is_file rel files)
member-found_state rel files none = refl
member-found_state rel files (some s) =
    member-found rel s (not (str_eq s default_state)) files ∙ ground arith

member-candidates :
    (rel : Str) (files : BTreeMap File) (state_file : Option Str)
    → is_synced_file rel state_file ≡ true
    → member rel (candidates files state_file) ≡ (is_reason rel state_file && is_file rel files)
unfolding candidates
member-candidates rel files state_file h =
    member-append rel (found_default files) _
    ∙ rw
        (
          member-found rel default_state true files,
          member-append rel (found_state files state_file)
              (found_keys files ++ walk_trees files state_file trees),
          member-found_state rel files state_file,
          member-append rel (found_keys files) (walk_trees files state_file trees),
          member-filter rel is_key (paths files),
          member-paths rel files,
          member-walk_trees rel files state_file trees,
          h,
        )
        (collect (str_eq default_state rel) (is_state state_file rel) (is_key rel) (below rel trees)
          (is_file rel files))
  where
    shared : (x y f : Bool) → ((x && f) || (y && f)) ≡ ((x || y) && f)
    shared x y f = ground arith

    and_true : (t f : Bool) → (t && true && f) ≡ (t && f)
    and_true t f = ground arith

    assoc : (a b k t : Bool) → (a || (b || (k || t))) ≡ (a || b || k || t)
    assoc true b k t = ground arith
    assoc false true k t = ground arith
    assoc false false k t = refl

    collect :
        (a b k t f : Bool)
        → (true && a && f || (b && f || (k && f || t && true && f))) ≡ ((a || b || k || t) && f)
    collect a b k t f =
        rw (and_true t f, shared k t f, shared b (k || t) f, shared a (b || (k || t)) f)
          (ap (λ x. x && f) (assoc a b k t))

str_eq_sym : (a b : Str) → str_eq a b ≡ str_eq b a
str_eq_sym a b = ground (arith, str_eq_iff a b, str_eq_iff b a)

in_tree-below :
    (rel : Str) (r : Option (Str × Str))
    → split_once b'/' rel ≡ r
    → in_tree r ≡ true
    → below rel trees ≡ true
in_tree-below rel none e h = cc h
in_tree-below rel (some (dir, rest)) e h = go trees h
  where
    go : (ts : List Str) → any (λ t. str_eq t dir) ts ≡ true → below rel ts ≡ true
    go [] k = cc k
    go (t ∷ ts) k = elim (Bool-cases (str_eq t dir)) [
      | inl m ↦ rw (named_dir-below t rel (some (dir, rest)) e m) refl
      | inr m ↦ rw (go ts (rw m at k)) (ground arith)
    ]

opt_eq-reason :
    (rel : Str) (state_file : Option Str)
    → opt_eq state_file rel ≡ true
    → (str_eq default_state rel || is_state state_file rel) ≡ true
opt_eq-reason rel none h = cc h
opt_eq-reason rel (some s) h =
    let same = (str_eq_iff s rel).0 h in
    subst (λ r. (str_eq default_state r || (not (str_eq s default_state) && str_eq s r)) ≡ true)
      same (rw (str_eq_sym default_state s, (str_eq_iff s s).1 refl) (ground arith))

last_of : (a b k t : Bool) → t ≡ true → (a || b || k || t) ≡ true
last_of a b k t e = ground (arith, e)

first_of : (a b k t : Bool) → (a || b) ≡ true → (a || b || k || t) ≡ true
first_of a b k t e = ground (arith, e)

synced-reason :
    (rel : Str) (state_file : Option Str)
    → is_synced_file rel state_file ≡ true
    → is_reason rel state_file ≡ true
unfolding is_synced_file
synced-reason rel state_file h = elim (Bool-cases (in_tree (split_once b'/' rel))) [
  | inl t ↦
      last_of (str_eq default_state rel) (is_state state_file rel) (is_key rel) (below rel trees)
        (in_tree-below rel (split_once b'/' rel) refl t)
  | inr t ↦ elim (Bool-cases (opt_eq state_file rel)) [
    | inl o ↦
        first_of (str_eq default_state rel) (is_state state_file rel) (is_key rel) (below rel trees)
          (opt_eq-reason rel state_file o)
    | inr o ↦
        cover
          (contains (codes "..") rel
            || starts_with (codes "/") rel
            || ends_with (codes ".part") rel)
          (str_eq rel default_state) (is_key rel) (str_eq default_state rel)
          (is_state state_file rel) (below rel trees) (str_eq_sym rel default_state)
          (rw (t, o) at h)
  ]
]
  where
    cover :
        (b a k a' s t : Bool)
        → a ≡ a'
        → (if b then false else if a || false || k then true else false) ≡ true
        → (a' || s || k || t) ≡ true
    cover true a k a' s t e h = cc h
    cover false true k a' s t e h = rw (sym e) refl
    cover false false true a' s t e h = ground (arith)
    cover false false false a' s t e h = cc h

-- A push looks at exactly the files that are in the synced set, which is what a pull may write.
pub local_synced_files-Exact :
    (rel : Str) (files : BTreeMap File) (state_file : Option Str)
    → member rel (local_synced_files files state_file)
      ≡ (is_synced_file rel state_file && is_file rel files)
unfolding local_synced_files
local_synced_files-Exact rel files state_file =
    member-sort rel _
    ∙ member-filter rel (λ r. is_synced_file r state_file) (candidates files state_file)
    ∙ elim (Bool-cases (is_synced_file rel state_file)) [
      | inl h ↦
          rw (h, member-candidates rel files state_file h, synced-reason rel state_file h) refl
      | inr h ↦ rw h refl
    ]
