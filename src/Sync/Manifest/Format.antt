-- ===== src/Sync/Manifest/Format.antt =====
-- Printing the sync manifest and reading it back.
use vaultwarden_hummingbird.Base.{
  ℕ, ◌+◌, ◌≤◌, true, false, [], ◌∷◌, ◌++◌, ◌≡◌, refl, sym, ap, ◌∙◌, subst, arith, ◌==◌, all, All,
  All-append, append_assoc, append-nil, Bool-cases, inl, inr, ==_iff, ok,
}
use vaultwarden_hummingbird.Text.Order.{str_lt-asym}
use vaultwarden_hummingbird.Text.{
  Str, codes, str_lt, is_empty, byte_len, lines, trim_end, is_whitespace, is_hexdigit, ascii_lower,
  Lacks,
}
use vaultwarden_hummingbird.Text.Split.{splitn_three}
use vaultwarden_hummingbird.Text.Words.{IsWord, NoSpace, NoSpace-Lacks, lines_word, trim_end-append}
use vaultwarden_hummingbird.Text.Decimal.{to_decimal, to_decimal-Lacks, parse_uint-to_decimal}
use vaultwarden_hummingbird.BTree.{BTreeMap, insert}
use vaultwarden_hummingbird.Backup.Manifest.{u64_max}
use vaultwarden_hummingbird.Sync.Manifest.{
  Entry, Manifest, is_sha256, parse_parts, parse_line, parse_lines, parse_header, parse, line_of,
  render_entries, render,
}

-- A path that the line format can carry: no line break, and no white space at its end.
pub record IsPath (rel : Str) : Type 0 where
  pub start : Str
  pub end : Str
  pub splits : rel ≡ start ++ end
  pub word : IsWord end
  pub one_line : Lacks b'\n' rel

pub record IsRow (row : Str × Entry) : Type 0 where
  pub path : IsPath row.0
  pub sha : is_sha256 row.1.sha256 ≡ true
  pub lower : ascii_lower row.1.sha256 ≡ row.1.sha256
  pub size_fits : row.1.size ≤ u64_max

-- The keys strictly ascend, as they do in a `BTreeMap`.
abbrev pub Ascending : BTreeMap Entry → Type 0
Ascending [] = Unit
Ascending ((k, e) ∷ m) = All (λ r. str_lt k r.0 ≡ true) m × Ascending m

pub record IsValid (m : Manifest) : Type 0 where
  pub ascending : Ascending m.entries
  pub rows : All IsRow m.entries

-- A new last key goes to the end.
insert-last :
    (k : Str) (e : Entry) (m : BTreeMap Entry)
    → All (λ r. str_lt r.0 k ≡ true) m
    → insert k e m ≡ m ++ (k, e) ∷ []
unfolding insert
insert-last k e [] h = refl
insert-last k e ((j, v) ∷ m) h = let r = str_lt-asym j k h.0 in rw (r.0, r.1, insert-last k e m h.1)

hexdigit-space : (c : ℕ) → is_hexdigit c ≡ true → is_whitespace c ≡ false
unfolding is_hexdigit is_whitespace
hexdigit-space c h = ground (arith, h)

all-All : (s : Str) → all is_hexdigit s ≡ true → NoSpace s
all-All [] h = tt
all-All (c ∷ s) h = (hexdigit-space c (ground (arith, h)), all-All s (ground (arith, h)))

sha-IsWord : (s : Str) → is_sha256 s ≡ true → IsWord s
sha-IsWord [] h = unfold byte_len in cc h
sha-IsWord (c ∷ s) h = (refl, all-All (c ∷ s) (ground (arith, h)))

-- The part of a line before the last word of its path.
abbrev head_of : Str → Str → ℕ → Str
head_of start sha n = sha ++ b' ' ∷ (to_decimal n ++ b' ' ∷ start)

line_of-split :
    (rel : Str) (e : Entry) (p : IsPath rel)
    → line_of rel e ≡ head_of p.start e.sha256 e.size ++ p.end
line_of-split rel e p = rw (p.splits, append_assoc, append_assoc)

row-Lacks : (rel : Str) (e : Entry) → IsRow (rel, e) → Lacks b'\n' (line_of rel e)
row-Lacks rel e r =
    All-append (λ d. (b'\n' == d) ≡ false) e.sha256 _
      (NoSpace-Lacks b'\n' e.sha256 (unfold is_whitespace in refl) (sha-IsWord e.sha256 r.sha).1)
      (
        refl,
        All-append (λ d. (b'\n' == d) ≡ false) (to_decimal e.size) _
            (to_decimal-Lacks b'\n' e.size refl) (refl, r.path.one_line),
      )

row-lines :
    (rel : Str) (e : Entry) (rest : Str)
    → IsRow (rel, e)
    → lines (line_of rel e ++ b'\n' ∷ rest) ≡ line_of rel e ∷ lines rest
row-lines rel e rest r =
    let s = line_of-split rel e r.path in
    ap (λ l. lines (l ++ b'\n' ∷ rest)) s
    ∙ lines_word (head_of r.path.start e.sha256 e.size) r.path.end rest
        (subst (Lacks b'\n') s (row-Lacks rel e r)) r.path.word
    ∙ ap (λ l. l ∷ lines rest) (sym s)

row-trim_end : (rel : Str) (e : Entry) → IsRow (rel, e) → trim_end (line_of rel e) ≡ line_of rel e
row-trim_end rel e r =
    let s = line_of-split rel e r.path in
    ap trim_end s
    ∙ trim_end-append (head_of r.path.start e.sha256 e.size) r.path.end r.path.word
    ∙ sym s

parse_line-row :
    (i : ℕ) (entries : BTreeMap Entry) (rel : Str) (e : Entry)
    → IsRow (rel, e)
    → parse_line i entries (line_of rel e) ≡ ok (insert rel e entries)
unfolding parse_line parse_parts
parse_line-row i entries rel e r =
    let w = sha-IsWord e.sha256 r.sha in
    rw (row-trim_end rel e r) (
      rw (is_empty-append e.sha256 (b' ' ∷ (to_decimal e.size ++ b' ' ∷ rel)) w.0) (
        rw
          (splitn_three b' ' e.sha256 (to_decimal e.size) rel
            (NoSpace-Lacks b' ' e.sha256 (unfold is_whitespace in refl) w.1)
            (to_decimal-Lacks b' ' e.size refl))
          (rw (r.sha) (
            rw (parse_uint-to_decimal e.size u64_max r.size_fits)
              (rw (path-is_empty rel r.path, r.lower) refl)))))
  where
    is_empty-append : (a b : Str) → is_empty a ≡ false → is_empty (a ++ b) ≡ false
    is_empty-append [] b h = cc
    is_empty-append (c ∷ a) b h = refl

    ends-is_empty : (a b : Str) → is_empty b ≡ false → is_empty (a ++ b) ≡ false
    ends-is_empty [] b h = h
    ends-is_empty (c ∷ a) b h = refl

    path-is_empty : (rel : Str) → IsPath rel → is_empty rel ≡ false
    path-is_empty rel p = ap is_empty p.splits ∙ ends-is_empty p.start p.end p.word.0

abbrev Before : Str → BTreeMap Entry → Type 0
Before k = All (λ r. str_lt r.0 k ≡ true)

All-Before :
    (seen : BTreeMap Entry) (k : Str) (e : Entry) (es : BTreeMap Entry)
    → All (λ r. Before r.0 seen) es
    → All (λ r. str_lt k r.0 ≡ true) es
    → All (λ r. Before r.0 (seen ++ (k, e) ∷ [])) es
All-Before seen k e [] h a = tt
All-Before seen k e (r ∷ es) h a = (
  All-append (λ x. str_lt x.0 r.0 ≡ true) seen ((k, e) ∷ []) h.0 (a.0, tt),
  All-Before seen k e es h.1 a.1,
)

parse_lines-render :
    (i : ℕ) (seen es : BTreeMap Entry)
    → Ascending es
    → All IsRow es
    → All (λ r. Before r.0 seen) es
    → parse_lines i seen (lines (render_entries es)) ≡ ok (seen ++ es)
unfolding parse_lines render_entries
parse_lines-render i seen [] a r h = unfold lines in ap ok (sym (append-nil seen))
parse_lines-render i seen ((k, e) ∷ es) a r h = rw (row-lines k e (render_entries es) r.0) (
    rw (parse_line-row i seen k e r.0) (
      rw (insert-last k e seen h.0) (
        parse_lines-render (i + 1) (seen ++ (k, e) ∷ []) es a.1 r.1 (All-Before seen k e es h.1 a.0)
        ∙ ap ok (append_assoc seen ((k, e) ∷ []) es))))

All-Before-nil : (es : BTreeMap Entry) → All (λ r. Before r.0 []) es
All-Before-nil [] = tt
All-Before-nil (r ∷ es) = (tt, All-Before-nil es)

-- Printing a sync manifest and reading it gives the manifest, when its paths hold no line break and
-- do not end in white space, its hashes are 64 lower-case hexadecimal digits, and its sizes fit a
-- `u64`.
pub parse-render_paths : (m : Manifest) → IsValid m → parse (render m) ≡ ok m
unfolding parse render parse_header
parse-render_paths m v =
    ap parse_header (
      lines_word [] (codes "v1") (render_entries m.entries) (refl, (refl, tt))
        (unfold is_whitespace in (refl, (refl, (refl, tt)))))
    ∙ rw (parse_lines-render 2 [] m.entries v.ascending v.rows (All-Before-nil m.entries))

-- No character that is no digit stands in a hash.
pub sha-Lacks : (c : ℕ) (s : Str) → is_hexdigit c ≡ false → is_sha256 s ≡ true → Lacks c s
sha-Lacks c s n h = go s (ground (arith, h))
  where
    other : (d : ℕ) → is_hexdigit d ≡ true → (c == d) ≡ false
    other d e = elim (Bool-cases (c == d)) [ inl f ↦ cc ((==_iff c d).0 f) | inr f ↦ f ]

    go : (s : Str) → all is_hexdigit s ≡ true → Lacks c s
    go [] e = tt
    go (d ∷ s) e = (other d (ground (arith, e)), go s (ground (arith, e)))
