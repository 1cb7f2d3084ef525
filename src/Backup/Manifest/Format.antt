-- ===== src/Backup/Manifest/Format.antt =====
-- Reading and printing the manifest.
use vaultwarden_hummingbird.Base.{
  ℕ, ◌+◌, ◌≤◌, ◌<◌, false, List, [], ◌∷◌, ◌++◌, ◌≡◌, refl, sym, ap, ◌∙◌, arith, All, append_assoc,
  append-nil, ltb, lt→ltb, Result, ok, err, ◌>>=◌, ensure, bind-eq-ok, ltb→lt, inl, inr, Bool-cases,
  Option-cases, last-append, subst,
}
use vaultwarden_hummingbird.Text.{
  Str, codes, str_eq, is_empty, is_whitespace, lines, trim, split_whitespace, parse_uint,
}
use vaultwarden_hummingbird.Text.Words.{
  IsWord, split_whitespace-IsWord, trim-three, is_empty-three, split_whitespace-three, lines-three,
  lines_word,
}
use vaultwarden_hummingbird.Text.Decimal.{
  parse_uint-to_decimal, parse_uint_bound, to_decimal-IsWord,
}
use vaultwarden_hummingbird.Backup.Manifest.{
  Entry, Manifest, ParseError, missing_header, u64_max, last_generation, has_name, add_entry,
  parse_fields, parse_line, parse_lines, parse_header, parse, line_of, render_entries, render,
}
use vaultwarden_hummingbird.Backup.Manifest.Order.{
  Precedes, Ordered, InRange, IsValid, IsValid-concat,
}

none_IsValid : IsValid (record { entries = [] })
none_IsValid = record { ordered = tt; in_range = tt }

abbrev Entries-IsValid : Result ParseError (List Entry) → Type 0
Entries-IsValid (ok es) = IsValid (record { entries = es })
Entries-IsValid (err e) = Unit

add_entry-IsValid :
    (i : ℕ) (es : List Entry) (e : Entry)
    → e.generation ≤ u64_max
    → e.size ≤ u64_max
    → IsWord e.name
    → IsValid (record { entries = es })
    → Entries-IsValid (add_entry i es e)
unfolding add_entry
add_entry-IsValid i es e g s w v = elim (Bool-cases (ltb 0 e.generation)) [
  | inr p ↦ rw p tt
  | inl p ↦ elim (Bool-cases (ltb (last_generation es) e.generation)) [
    | inr q ↦ rw (p, q) tt
    | inl q ↦ elim (Bool-cases (has_name es e.name)) [
      | inl r ↦ rw (p, q, r) tt
      | inr r ↦
          rw (p, q, r)
            (IsValid-concat es e v (ltb→lt _ _ q) r (record {
              positive = ltb→lt _ _ p;
              generation_fits = g;
              size_fits = s;
              name_word = w;
            }))
    ]
  ]
]

parse_fields-IsValid :
    (i : ℕ) (es : List Entry) (fields : List Str)
    → All IsWord fields
    → IsValid (record { entries = es })
    → Entries-IsValid (parse_fields i es fields)
unfolding parse_fields
parse_fields-IsValid i es (g ∷ n ∷ s ∷ []) w v = elim (Option-cases (parse_uint u64_max g)) [
  | inl p ↦ rw p tt
  | inr (a, p) ↦ elim (Option-cases (parse_uint u64_max s)) [
    | inl q ↦ rw (p, q) tt
    | inr (b, q) ↦
        rw (p, q)
          (add_entry-IsValid i es (record { generation = a; name = n; size = b })
            (parse_uint_bound u64_max g p) (parse_uint_bound u64_max s q) w.1.0 v)
  ]
]
parse_fields-IsValid i es _ w v = tt

parse_line-IsValid :
    (i : ℕ) (es : List Entry) (line : Str)
    → IsValid (record { entries = es })
    → Entries-IsValid (parse_line i es line)
unfolding parse_line
parse_line-IsValid i es line v = elim (Bool-cases (is_empty (trim line))) [
  | inl p ↦ rw p v
  | inr p ↦ rw p (
      parse_fields-IsValid i es (split_whitespace (trim line)) (split_whitespace-IsWord (trim line))
        v)
]

parse_lines-IsValid :
    (i : ℕ) (es : List Entry) (rest : List Str)
    → IsValid (record { entries = es })
    → Entries-IsValid (parse_lines i es rest)
unfolding parse_lines
parse_lines-IsValid i es [] v = v
parse_lines-IsValid i es (line ∷ rest) v =
    go (parse_line i es line) (parse_line-IsValid i es line v)
      (λ fs. parse_lines-IsValid (i + 1) fs rest)
  where
    go :
        (r : Result ParseError (List Entry))
        → Entries-IsValid r
        → ((fs : List Entry)
            → IsValid (record { entries = fs })
            → Entries-IsValid (parse_lines (i + 1) fs rest))
        → Entries-IsValid (r >>= λ fs. parse_lines (i + 1) fs rest)
    go (ok fs) w ih = ih fs w
    go (err e) w ih = tt

entries_of :
    (es : List Entry) (r : Result ParseError (List Entry))
    → Entries-IsValid r
    → r ≡ ok es
    → IsValid (record { entries = es })
entries_of es (ok fs) v e = subst (λ gs. IsValid (record { entries = gs })) (ground arith) v
entries_of es (err x) v e = cc

parse_header-IsValid : (ls : List Str) {m : Manifest} → parse_header ls ≡ ok m → IsValid m
unfolding parse_header
parse_header-IsValid [] h = cc
parse_header-IsValid (header ∷ rest) {m} h =
    let after = bind-eq-ok (ensure (str_eq header (codes "v1")) missing_header) _ h in
    let (es, e, same) = bind-eq-ok (parse_lines 2 [] rest) _ after.2 in
    subst IsValid (ground arith)
      (entries_of es (parse_lines 2 [] rest) (parse_lines-IsValid 2 [] rest none_IsValid) e)

-- Whatever `parse` accepts is well formed: generations that strictly ascend from above 0,
-- distinct names that are words, and numbers that fit a `u64`.
pub parse-IsValid : (text : Str) {m : Manifest} → parse text ≡ ok m → IsValid m
unfolding parse
parse-IsValid text h = parse_header-IsValid (lines text) h

parse_line-line_of :
    (i : ℕ) (es : List Entry) (e : Entry)
    → InRange e
    → parse_line i es (line_of e) ≡ add_entry i es e
unfolding parse_line parse_fields
parse_line-line_of i es e r =
    let g = to_decimal-IsWord e.generation in
    let s = to_decimal-IsWord e.size in
    rw (trim-three _ e.name _ g r.name_word s) (
      rw (is_empty-three _ e.name _ g r.name_word s) (
        rw (split_whitespace-three _ e.name _ g r.name_word s) (
          rw (parse_uint-to_decimal e.generation u64_max r.generation_fits)
            (rw (parse_uint-to_decimal e.size u64_max r.size_fits)))))

add_entry_fits :
    (i : ℕ) (es : List Entry) (e : Entry)
    → 0 < e.generation
    → last_generation es < e.generation
    → has_name es e.name ≡ false
    → add_entry i es e ≡ ok (es ++ e ∷ [])
unfolding add_entry
add_entry_fits i es e p q r = rw (lt→ltb _ _ p) (rw (lt→ltb _ _ q) (rw r))

last_generation-concat :
    (es : List Entry) (e : Entry) → last_generation (es ++ e ∷ []) ≡ e.generation
last_generation-concat es e = rw (last-append es e, last_generation)

has_name-concat :
    (es : List Entry) (e : Entry) (n : Str)
    → has_name es n ≡ false
    → str_eq e.name n ≡ false
    → has_name (es ++ e ∷ []) n ≡ false
has_name-concat [] e n h k = rw k
has_name-concat (x ∷ es) e n h k = ground (arith, has_name-concat es e n)

-- `e` may be appended to `seen`.
record Follows (seen : List Entry) (e : Entry) : Type 0 where
  newer : last_generation seen < e.generation
  fresh : has_name seen e.name ≡ false

Follows-concat :
    (seen : List Entry) (e f : Entry) → Follows seen f → Precedes e f → Follows (seen ++ e ∷ []) f
Follows-concat seen e f h p = record {
  newer = rw (last_generation-concat seen e) p.older;
  fresh = has_name-concat seen e f.name h.fresh p.other_name;
}

All-Follows :
    (seen : List Entry) (e : Entry) (es : List Entry)
    → All (Follows seen) es
    → All (Precedes e) es
    → All (Follows (seen ++ e ∷ [])) es
All-Follows seen e [] h p = tt
All-Follows seen e (f ∷ es) h p = (Follows-concat seen e f h.0 p.0, All-Follows seen e es h.1 p.1)

render_entries-lines :
    (e : Entry) (es : List Entry)
    → InRange e
    → lines (line_of e ++ b'\n' ∷ render_entries es) ≡ line_of e ∷ lines (render_entries es)
render_entries-lines e es r =
    lines-three _ e.name _ (to_decimal-IsWord e.generation) r.name_word (to_decimal-IsWord e.size)
      (render_entries es)

-- The lines of a well-formed list are read back behind the entries that stand before it.
parse_lines-render :
    (i : ℕ) (seen es : List Entry)
    → Ordered es
    → All InRange es
    → All (Follows seen) es
    → parse_lines i seen (lines (render_entries es)) ≡ ok (seen ++ es)
unfolding parse_lines render_entries
parse_lines-render i seen [] o r h = unfold lines in ap ok (sym (append-nil seen))
parse_lines-render i seen (e ∷ es) o r h = rw (render_entries-lines e es r.0) (
    rw (parse_line-line_of i seen e r.0) (
      rw (add_entry_fits i seen e r.0.positive h.0.newer h.0.fresh) (
        parse_lines-render (i + 1) (seen ++ e ∷ []) es o.1 r.1 (All-Follows seen e es h.1 o.0)
        ∙ ap ok (append_assoc seen (e ∷ []) es))))

All-Follows-nil : (es : List Entry) → All InRange es → All (Follows []) es
All-Follows-nil [] r = tt
All-Follows-nil (e ∷ es) r = (record { newer = r.0.positive; fresh = refl }, All-Follows-nil es r.1)

header-lines : (r : Str) → lines (codes "v1" ++ b'\n' ∷ r) ≡ codes "v1" ∷ lines r
unfolding is_whitespace
header-lines r = lines_word [] (codes "v1") r (refl, (refl, tt)) (refl, (refl, (refl, tt)))

-- Printing a well-formed manifest and reading it gives the manifest back.
pub parse-render : (m : Manifest) → IsValid m → parse (render m) ≡ ok m
unfolding parse render parse_header
parse-render m v =
    ap parse_header (header-lines (render_entries m.entries))
    ∙ rw (
        parse_lines-render 2 [] m.entries v.ordered v.in_range
          (All-Follows-nil m.entries v.in_range))

-- Printing what was read and reading it again gives the same manifest.
pub parse-render-parse : (text : Str) {m : Manifest} → parse text ≡ ok m → parse (render m) ≡ ok m
parse-render-parse text {m} h = parse-render m (parse-IsValid text h)
