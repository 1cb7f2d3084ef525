-- ===== src/S3/Listing/Whole.antt =====
-- What a listing that succeeds holds.
use vaultwarden_hummingbird.Base.{
  ℕ, zero, suc, ◌≤◌, false, Option, none, some, List, [], ◌∷◌, ◌++◌, ◌≡◌, refl, sym, ◌∙◌, subst,
  arith, ltb, Result, ok, err, length, append_assoc, All, All-map, Bool-cases, Option-cases, inl,
  inr,
}
use vaultwarden_hummingbird.Text.Order.{str_lt-asym, not_below}
use vaultwarden_hummingbird.Text.{Str, str_lt}
use vaultwarden_hummingbird.Sync.Client.{Listed}
use mathlib.Core.List.{Permᴰ}
use mathlib.Core.List.Permᴰ as Permᴰ
use vaultwarden_hummingbird.S3.Listing.{
  Page, Reply, ListError, max_list_pages, max_list_keys, contents_of, is_repeated, list_pages,
  place_key, sort_keys, sorted, list,
}

-- A whole listing from the request with a token on: each page is the answer to the token that the
-- page before it gave, the last one gives none, every object has a size, and the names are those of
-- all pages in their order.
data IsWhole : ℕ → Option Str → List Reply → List Listed → Type 0 where
  final :
      (token : Option Str) (answer : Reply) (page : Page) (answers : List Reply)
      (names : List Listed)
      → answer token ≡ some page
      → contents_of page.contents ≡ some names
      → page.next_token ≡ none
      → IsWhole 1 token (answer ∷ answers) names
  truncated :
      (n : ℕ) (token : Option Str) (answer : Reply) (page : Page) (answers : List Reply)
      (names rest : List Listed) (next : Str)
      → answer token ≡ some page
      → contents_of page.contents ≡ some names
      → page.next_token ≡ some next
      → IsWhole n (some next) answers rest
      → IsWhole (suc n) token (answer ∷ answers) (names ++ rest)

-- The names are a whole listing of at most so many pages behind those that were there, and not too
-- many.
record Paged (left : ℕ) (token : Option Str) (before : List Listed) (answers : List Reply)
    (names : List Listed) : Type 0 where
  pages : ℕ
  rest : List Listed
  whole : IsWhole pages token answers rest
  appended : before ++ rest ≡ names
  few : pages ≤ left
  bounded : length names ≤ max_list_keys

few_keys : (n : ℕ) → ltb max_list_keys n ≡ false → n ≤ max_list_keys
few_keys n h = ground (arith, h)

list_pages-Paged :
    (left : ℕ) (token : Option Str) (before : List Listed) (answers : List Reply)
    (names : List Listed)
    → list_pages left token before answers ≡ ok names
    → Paged left token before answers names
unfolding list_pages
list_pages-Paged zero token before answers names h = cc h
list_pages-Paged (suc left) token before [] names h = cc h
list_pages-Paged (suc left) token before (answer ∷ answers) names h =
    elim (Option-cases (answer token)) [
      | inl a ↦ cc (rw a at h)
      | inr (page, a) ↦ elim (Option-cases (contents_of page.contents)) [
        | inl c ↦ cc (rw (a, c, list_pages) at h)
        | inr (contents, c) ↦ elim (Bool-cases (ltb max_list_keys (length (before ++ contents)))) [
          | inl k ↦ cc (rw (a, c, list_pages, k) at h)
          | inr k ↦ elim (Option-cases page.next_token) [
            | inl t ↦
                let same : before ++ contents ≡ names = cc (rw (a, c, list_pages, k, t) at h) in
                record {
                  pages = 1;
                  rest = contents;
                  whole = final token answer page answers contents a c t;
                  appended = same;
                  few = omega arith;
                  bounded =
                      subst (λ l. length l ≤ max_list_keys) same
                        (few_keys (length (before ++ contents)) k);
                }
            | inr (next, t) ↦ elim (Bool-cases (is_repeated token next)) [
              | inl r ↦ cc (rw (a, c, list_pages, k, t, r) at h)
              | inr r ↦
                  let more =
                    list_pages-Paged left (some next) (before ++ contents) answers names
                      (rw (a, c, list_pages, k, t, r) at h) in
                  record {
                    pages = suc more.pages;
                    rest = contents ++ more.rest;
                    whole =
                        truncated more.pages token answer page answers contents more.rest next a c t
                          more.whole;
                    appended = sym (append_assoc before contents more.rest) ∙ more.appended;
                    few = omega (arith, more.few);
                    bounded = more.bounded;
                  }
            ]
          ]
        ]
      ]
    ]

-- The keys ascend.
abbrev KeysAscend : List Listed → Type 0
KeysAscend [] = Unit
KeysAscend (x ∷ xs) = All (λ y. str_lt y.key x.key ≡ false) xs × KeysAscend xs

All-place_key :
    (P : Listed → Type 0) (x : Listed) (ys : List Listed) → P x → All P ys → All P (place_key x ys)
unfolding place_key
All-place_key P x [] p h = (p, tt)
All-place_key P x (y ∷ ys) p h = elim (Bool-cases (str_lt y.key x.key)) [
  | inl e ↦ rw e (h.0, All-place_key P x ys p h.1)
  | inr e ↦ rw e (p, h)
]

place_key-KeysAscend : (x : Listed) (ys : List Listed) → KeysAscend ys → KeysAscend (place_key x ys)
unfolding place_key
place_key-KeysAscend x [] h = (tt, tt)
place_key-KeysAscend x (y ∷ ys) h = elim (Bool-cases (str_lt y.key x.key)) [
  | inl e ↦ rw e (
    All-place_key (λ z. str_lt z.key y.key ≡ false) x ys (str_lt-asym y.key x.key e).1 h.0,
    place_key-KeysAscend x ys h.1,
  )
  | inr e ↦ rw e (
    (
      e,
      All-map _ (λ z. str_lt z.key x.key ≡ false) ys (λ z n. not_below z.key x.key y.key n e) h.0,
    ),
    h,
  )
]

sort_keys-KeysAscend : (xs : List Listed) → KeysAscend (sort_keys xs)
unfolding sort_keys
sort_keys-KeysAscend [] = tt
sort_keys-KeysAscend (x ∷ xs) = place_key-KeysAscend x (sort_keys xs) (sort_keys-KeysAscend xs)

place_key-Perm : (x : Listed) (ys : List Listed) → Permᴰ (place_key x ys) (x ∷ ys)
unfolding place_key
place_key-Perm x [] = Permᴰ.cons refl Permᴰ.nil
place_key-Perm x (y ∷ ys) = elim (Bool-cases (str_lt y.key x.key)) [
  | inl e ↦ rw e (Permᴰ.trans (Permᴰ.cons refl (place_key-Perm x ys)) (Permᴰ.swap refl refl))
  | inr e ↦ rw e (Permᴰ.refl (x ∷ y ∷ ys))
]

sort_keys-Perm : (xs : List Listed) → Permᴰ (sort_keys xs) xs
unfolding sort_keys
sort_keys-Perm [] = Permᴰ.nil
sort_keys-Perm (x ∷ xs) =
    Permᴰ.trans (place_key-Perm x (sort_keys xs)) (Permᴰ.cons refl (sort_keys-Perm xs))

-- What is listed: the objects of all pages, each as often as it is there, in the order of the keys.
pub record Complete (answers : List Reply) (names : List Listed) : Type 0 where
  pages : ℕ
  found : List Listed
  whole : IsWhole pages none answers found
  pages_bound : pages ≤ max_list_pages
  keys_bound : length found ≤ max_list_keys
  same : Permᴰ names found
  ascending : KeysAscend names

-- A listing that succeeds is complete: it has asked for every page by the token that the page before
-- it gave, up to one that is the last, at most 1024 of them, and holds exactly the objects of all of
-- them, each as often as it is there, at most 10,000, in the order of their keys; a listing that is cut
-- off, or holds an object without a size, never counts as one.
pub list-Complete :
    (answers : List Reply) (names : List Listed) → list answers ≡ ok names → Complete answers names
unfolding list
list-Complete answers names h = go (list_pages max_list_pages none [] answers) refl h
  where
    go :
        (r : Result ListError (List Listed))
        → list_pages max_list_pages none [] answers ≡ r
        → sorted r ≡ ok names
        → Complete answers names
    go (err e) k l = cc l
    go (ok found) k l =
        let p = list_pages-Paged max_list_pages none [] answers found k in
        let same : names ≡ sort_keys p.rest = (cc (l, p.appended)) in
        record {
          pages = p.pages;
          found = p.rest;
          whole = p.whole;
          pages_bound = p.few;
          keys_bound = subst (λ f. length f ≤ max_list_keys) (sym p.appended) p.bounded;
          same = subst (λ n. Permᴰ n p.rest) (sym same) (sort_keys-Perm p.rest);
          ascending = subst KeysAscend (sym same) (sort_keys-KeysAscend p.rest);
        }
