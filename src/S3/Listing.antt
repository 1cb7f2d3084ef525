-- ===== src/S3/Listing.antt =====
-- supervisor/src/s3/client.rs: `list`, which follows truncated pages. The bucket is a list of answers,
-- one for each request: by the continuation token of the request a parsed page, or none for a failed
-- request, an unreadable body or a stop request. Answers that are not there count as failures.
pub mod Whole
use vaultwarden_hummingbird.Base.{
  ℕ, zero, suc, ◌+◌, ◌*◌, ◌≤◌, Bool, true, false, Option, none, some, List, [], ◌∷◌, ◌++◌, ◌≡◌,
  refl, sym, ap, ◌∙◌, subst, arith, ltb, if◌then◌else◌, Result, ok, err, length, length-append,
  append_assoc, append-nil, All, Bool-cases, Option-cases, inl, inr,
}
use vaultwarden_hummingbird.Text.{Str, str_eq, str_lt}
use vaultwarden_hummingbird.Sync.Client.{Listed}

pub record Content : Type 0 where
  pub key : Str
  pub size : Option ℕ
  pub last_modified : Option Str

pub record Page : Type 0 where
  pub contents : List Content
  pub next_token : Option Str

-- What the bucket answers to one request, by its token.
abbrev pub Reply : Type 0
Reply = Option Str → Option Page

pub data ListError : Type 0 where
  too_many_pages failed no_size too_many_keys repeated_token : ListError

abbrev pub max_list_pages : ℕ
max_list_pages = 1024

abbrev pub max_list_keys : ℕ
max_list_keys = 10000

abbrev or_empty : Option Str → Str
or_empty none = []
or_empty (some s) = s

abbrev pub sized : Content → Option ℕ → Option (List Listed) → Option (List Listed)
sized c (some size) (some rest) =
    some (record { key = c.key; size = size; last_modified = or_empty c.last_modified } ∷ rest)
sized c _ _ = none

-- An object without a size makes the listing fail.
unfoldable pub contents_of : List Content → Option (List Listed)
contents_of [] = some []
contents_of (c ∷ contents) = sized c c.size (contents_of contents)

abbrev pub is_repeated : Option Str → Str → Bool
is_repeated none next = false
is_repeated (some token) next = str_eq token next

-- What becomes of one page; `more` goes on with the next token and the names so far.
abbrev pub on_names :
    Option Str
    → Option Str
    → List Listed
    → (Str → Result ListError (List Listed))
    → Result ListError (List Listed)
on_names token none names more = ok names
on_names token (some next) names more =
    let rest = more next in if is_repeated token next then err repeated_token else rest

-- `left` pages may still be asked for; `token` is that of this request.
unfoldable pub list_pages :
    ℕ → Option Str → List Listed → List Reply → Result ListError (List Listed)
unfolding contents_of str_eq
list_pages zero token names answers = err too_many_pages
list_pages (suc left) token names [] = err failed
list_pages (suc left) token names (answer ∷ answers) = elim (answer token) [
  | none ↦ err failed
  | some page ↦ elim (contents_of page.contents) [
    | none ↦ err no_size
    | some contents ↦
        (let names' = names ++ contents in
          if ltb max_list_keys (length names')
          then err too_many_keys
          else on_names token page.next_token names'
              (λ next. list_pages left (some next) names' answers))
  ]
]

unfoldable pub place_key : Listed → List Listed → List Listed
unfolding str_lt
place_key x [] = x ∷ []
place_key x (y ∷ ys) =
    let rest = place_key x ys in if str_lt y.key x.key then y ∷ rest else x ∷ y ∷ ys

-- `sort_by` on the keys, which is stable.
unfoldable pub sort_keys : List Listed → List Listed
unfolding place_key
sort_keys [] = []
sort_keys (x ∷ xs) = place_key x (sort_keys xs)

abbrev pub sorted : Result ListError (List Listed) → Result ListError (List Listed)
sorted (ok names) = ok (sort_keys names)
sorted (err e) = err e

unfoldable pub list : List Reply → Result ListError (List Listed)
unfolding list_pages sort_keys
list answers = sorted (list_pages max_list_pages none [] answers)
