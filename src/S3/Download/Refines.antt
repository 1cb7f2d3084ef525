-- ===== src/S3/Download/Refines.antt =====
-- A download in several attempts is one request of the client, as the sync runs see it.
use vaultwarden_hummingbird.Base.{
  ℕ, zero, suc, ◌+◌, ◌-◌, ◌≤◌, Bool, true, false, not, ◌&&◌, ◌||◌, Option, none, some, List, [],
  ◌∷◌, ◌++◌, ◌≡◌, refl, sym, ap, ◌∙◌, subst, arith, ◌==◌, ==_iff, ltb, leb, le→leb, if◌then◌else◌,
  length, length-append, drop, append_assoc, append-nil, All, inl, inr, Bool-cases,
}
use vaultwarden_hummingbird.Sync.Pull.{Expect, size_met, hash_met, meets}
use vaultwarden_hummingbird.S3.Download.{
  Response, Reply, aborted, failed, rejected, answered, max_download_attempts, resumed_offset,
  exceeds, stream, opened, is_declared, is_closed, is_stopped, receive, start_of, attempts, Disk,
  settle, get_file, reaches, is_expected,
}

abbrev pub concat : List (List ℕ) → List ℕ
concat [] = []
concat (c ∷ cs) = c ++ concat cs

-- What the loop over a body writes: a part of the body behind the file, and never beyond the cap.
record Streamed (e : Expect) (file : List ℕ) (chunks : List (List ℕ)) (s : Bool × ℕ × List ℕ)
    : Type 0 where
  prefix : (rest : List ℕ) × (file ++ concat chunks ≡ s.2 ++ rest)
  grows : length file ≤ length s.2
  total : s.0 ≡ true → s.1 ≡ length s.2
  fits : length file ≤ e.max_bytes → length s.2 ≤ e.max_bytes

exceeds_not : (e : Expect) (n : ℕ) → exceeds e n ≡ false → n ≤ e.max_bytes
exceeds_not e n h = go (ltb e.max_bytes n) refl _ h
  where
    go : (b : Bool) → ltb e.max_bytes n ≡ b → (c : Bool) → (b || c) ≡ false → n ≤ e.max_bytes
    go true k c h = cc h
    go false k c h = ground (arith, k)

stream-Streamed :
    (e : Expect) (total : ℕ) (file : List ℕ) (chunks : List (List ℕ))
    → total ≡ length file
    → Streamed e file chunks (stream e total file chunks)
unfolding stream
stream-Streamed e total file [] t = record {
  prefix = ([], refl);
  grows = omega arith;
  total = λ _. t;
  fits = λ h. h;
}
stream-Streamed e total file ([] ∷ chunks) t = record {
  prefix = (concat chunks, refl);
  grows = omega arith;
  total = λ _. t;
  fits = λ h. h;
}
stream-Streamed e total file ((b ∷ bs) ∷ chunks) t =
    let more = length-append file (b ∷ bs) in
    let same : total + length (b ∷ bs) ≡ length (file ++ b ∷ bs) = omega (arith, more, t) in
    elim (Bool-cases (exceeds e (total + length (b ∷ bs)))) [
      | inl x ↦ rw x (record {
        prefix = (concat ((b ∷ bs) ∷ chunks), refl);
        grows = omega arith;
        total = λ y. cc y;
        fits = λ h. h;
      })
      | inr x ↦
          let rest = stream-Streamed e (total + length (b ∷ bs)) (file ++ b ∷ bs) chunks same in
          rw x (record {
            prefix =
                (rest.prefix.0, sym (append_assoc file (b ∷ bs) (concat chunks)) ∙ rest.prefix.1);
            grows = omega (arith, more, rest.grows);
            total = rest.total;
            fits = λ h. rest.fits (omega (arith, same, exceeds_not e (total + length (b ∷ bs)) x));
          })
    ]

-- The next attempt starts at the front, or behind a partial file that is the front of the object.
data Ready (e : Expect) (content : List ℕ) (offset : ℕ) (part : Option (List ℕ)) : Type 0 where
  afresh : offset ≡ 0 → Ready e content offset part
  resumed :
      (file rest : List ℕ)
      → part ≡ some file
      → offset ≡ length file
      → content ≡ file ++ rest
      → length file ≤ e.max_bytes
      → Ready e content offset part

-- The file that a response is written to.
record Opened (e : Expect) (content : List ℕ) (start : ℕ) (file : List ℕ) : Type 0 where
  count : start ≡ length file
  front : content ≡ file ++ drop start content
  fits : length file ≤ e.max_bytes

drop-append : (a b : List ℕ) → drop (length a) (a ++ b) ≡ b
drop-append [] b = refl
drop-append (x ∷ a) b = drop-append a b

opened-nil : (part : Option (List ℕ)) → opened 0 part ≡ []
opened-nil none = refl
opened-nil (some file) = refl

front-Opened :
    (e : Expect) (content : List ℕ) (start : ℕ) (part : Option (List ℕ))
    → start ≡ 0
    → Opened e content start (opened start part)
front-Opened e content start part z =
    subst (λ n. Opened e content n (opened n part)) (sym z)
      (subst (Opened e content 0) (sym (opened-nil part))
        (record { count = refl; front = refl; fits = omega arith }))

Ready-Opened :
    (e : Expect) (content : List ℕ) (offset : ℕ) (part : Option (List ℕ)) (r : Response)
    → Ready e content offset part
    → Opened e content (start_of offset r) (opened (start_of offset r) part)
Ready-Opened e content offset part r (afresh z) =
    front-Opened e content (start_of offset r) part
      (start_zero (ltb 0 offset && not r.partial_content))
  where
    start_zero : (b : Bool) → (if b then 0 else offset) ≡ 0
    start_zero true = refl
    start_zero false = z
Ready-Opened e content offset part r (resumed file rest p o c f) =
    go (ltb 0 offset && not r.partial_content)
  where
    keep : Opened e content offset (opened offset part)
    keep = elim (Bool-cases (offset == 0)) [
      | inl z ↦ front-Opened e content offset part ((==_iff offset 0).0 z)
      | inr z ↦
          let at : opened offset part ≡ file = ap (opened offset) p ∙ rw z refl in
          subst (Opened e content offset) (sym at) (record {
            count = o;
            front =
                c
                ∙ ap (λ x. file ++ x)
                    (sym (
                      ap (drop offset) c
                      ∙ ap (λ n. drop n (file ++ rest)) o
                      ∙ drop-append file rest));
            fits = f;
          })
    ]

    go :
        (b : Bool)
        → Opened e content (if b then 0 else offset) (opened (if b then 0 else offset) part)
    go true = front-Opened e content 0 part refl
    go false = keep

-- An honest response: its body is what it should be, or breaks off, and it declares the right length.
pub record Serves (content : List ℕ) (start : ℕ) (r : Response) : Type 0 where
  pub missing : List ℕ
  pub body : drop start content ≡ concat r.chunks ++ missing
  pub declared : r.declared ≡ some (length (drop start content))

pub record IsHonest (content : List ℕ) (reply : ℕ → Reply) : Type 0 where
  pub serves :
      (offset : ℕ) (r : Response) → reply offset ≡ answered r → Serves content (start_of offset r) r

-- What is on disk behind a response.
record Received (e : Expect) (content : List ℕ) (s : Bool × ℕ × List ℕ) : Type 0 where
  front : (rest : List ℕ) × (content ≡ s.2 ++ rest)
  fits : length s.2 ≤ e.max_bytes
  whole : s.0 ≡ true → (s.2 ≡ content) × (s.1 ≡ length content)

no_rest : (a rest content : List ℕ) → content ≡ a ++ rest → length content ≤ length a → a ≡ content
no_rest a [] content e h = sym (e ∙ append-nil a)
no_rest a (x ∷ rest) content e h =
    elim (absurd (length content) (length a) (length rest)
      (ap length e ∙ length-append a (x ∷ rest)) h) [ ]
  where
    absurd : (n m k : ℕ) → n ≡ m + suc k → n ≤ m → 1 ≤ 0
    absurd n m k p q = omega (arith, p, q)

first_of : (a b c : Bool) → (a && b && c) ≡ true → a ≡ true
first_of a b c h = ground (arith, h)

last_of : (a b c : Bool) → (a && b && c) ≡ true → c ≡ true
last_of a b c h = ground (arith, h)

receive-Received :
    (e : Expect) (content : List ℕ) (start : ℕ) (part : Option (List ℕ)) (r : Response)
    → Opened e content start (opened start part)
    → Serves content start r
    → Received e content (receive e start part r)
unfolding receive
receive-Received e content start part r o h =
    let file = opened start part in
    let s = stream-Streamed e start file r.chunks o.count in
    let t = stream e start file r.chunks in
    let front : content ≡ t.2 ++ (s.prefix.0 ++ h.missing) =
      o.front
      ∙ ap (λ x. file ++ x) h.body
      ∙ sym (append_assoc file (concat r.chunks) h.missing)
      ∙ ap (λ x. x ++ h.missing) s.prefix.1
      ∙ append_assoc t.2 s.prefix.0 h.missing in
    record {
      front = (s.prefix.0 ++ h.missing, front);
      fits = s.fits o.fits;
      whole = λ c.
          let ended =
            s.total (first_of t.0 (is_closed r.end) (is_declared r.declared (t.1 - start)) c) in
          let told : (t.1 - start == length (drop start content)) ≡ true =
            subst (λ d. is_declared d (t.1 - start) ≡ true) h.declared
              (last_of t.0 (is_closed r.end) (is_declared r.declared (t.1 - start)) c) in
          let same = (==_iff (t.1 - start) (length (drop start content))).0 told in
          let long : length content ≡ length file + length (drop start content) =
            ap length o.front ∙ length-append file (drop start content) in
          let all : t.2 ≡ content =
            no_rest t.2 (s.prefix.0 ++ h.missing) content front
              (omega (arith, ended, same, long, o.count, s.grows)) in
          (all, ended ∙ ap length all);
    }

-- What the attempts leave: nothing staged, or the whole object.
data Staged (e : Expect) (content : List ℕ) (r : Option ℕ × Option (List ℕ)) : Type 0 where
  nothing : r.0 ≡ none → Staged e content r
  whole :
      r ≡ (some (length content), some content) → length content ≤ e.max_bytes → Staged e content r

abbrev after_reply :
    ℕ → Expect → ℕ → Option (List ℕ) → List (ℕ → Reply) → Reply → Option ℕ × Option (List ℕ)
after_reply left e offset part replies reply = elim reply [
  | aborted ↦ (none, part)
  | rejected ↦ (none, part)
  | failed again ↦
      (let rest = attempts left e offset part replies in
        if again && ltb 0 left then rest else (none, part))
  | answered r ↦
      (let s = receive e (start_of offset r) part r in
        let rest = attempts left e (length s.2) (some s.2) replies in
        if s.0
        then (some s.1, some s.2)
        else if ltb 0 left && not (is_stopped r.end) && not (reaches e.size (length s.2))
        then rest
        else (none, some s.2))
]

after_reply-Staged :
    (left : ℕ) (e : Expect) (content : List ℕ) (offset : ℕ) (part : Option (List ℕ))
    (send : ℕ → Reply) (replies : List (ℕ → Reply)) (reply : Reply)
    → send offset ≡ reply
    → IsHonest content send
    → Ready e content offset part
    → ((o : ℕ) (q : Option (List ℕ))
        → Ready e content o q
        → Staged e content (attempts left e o q replies))
    → Staged e content (after_reply left e offset part replies reply)
after_reply-Staged left e content offset part send replies aborted s h p ih = nothing refl
after_reply-Staged left e content offset part send replies rejected s h p ih = nothing refl
after_reply-Staged left e content offset part send replies (failed again) s h p ih =
    elim (Bool-cases (again && ltb 0 left)) [
      | inl b ↦ rw b (ih offset part p)
      | inr b ↦ rw b (nothing refl)
    ]
after_reply-Staged left e content offset part send replies (answered r) s h p ih =
    let start = start_of offset r in
    let t = receive e start part r in
    let got =
      receive-Received e content start part r (Ready-Opened e content offset part r p)
        (h.serves offset r s) in
    elim (Bool-cases t.0) [
      | inl b ↦
          let w = got.whole b in
          rw b (whole (cc (w.0, w.1)) (subst (λ x. length x ≤ e.max_bytes) w.0 got.fits))
      | inr b ↦
          elim (Bool-cases
            (ltb 0 left && not (is_stopped r.end) && not (reaches e.size (length t.2)))) [
              | inl c ↦
                  rw (b, c)
                    (ih (length t.2) (some t.2)
                      (resumed t.2 got.front.0 refl refl got.front.1 got.fits))
              | inr c ↦ rw (b, c) (nothing refl)
            ]
    ]

attempts-Staged :
    (left : ℕ) (e : Expect) (content : List ℕ) (replies : List (ℕ → Reply)) (offset : ℕ)
    (part : Option (List ℕ))
    → All (IsHonest content) replies
    → Ready e content offset part
    → Staged e content (attempts left e offset part replies)
unfolding attempts
attempts-Staged zero e content replies offset part h p = nothing refl
attempts-Staged (suc left) e content [] offset part h p = nothing refl
attempts-Staged (suc left) e content (reply ∷ replies) offset part h p =
    after_reply-Staged left e content offset part reply replies (reply offset) refl h.0 p
      (λ o q. attempts-Staged left e content replies o q h.1)

-- The outcomes of a request that the sync runs know: the object is in place and met all expectations,
-- or nothing was done; either way no partial file is left.
pub data IsRequest (digest : List ℕ → List ℕ) (e : Expect) (content : List ℕ)
    (before : Option (List ℕ)) (r : Bool × Disk) : Type 0 where
  done :
      meets digest e content ≡ true
      → r ≡ (true, record { target = some content; part = none })
      → IsRequest digest e content before r
  not_done :
      r ≡ (false, record { target = before; part = none }) → IsRequest digest e content before r

expected-meets :
    (digest : List ℕ → List ℕ) (e : Expect) (content : List ℕ)
    → length content ≤ e.max_bytes
    → is_expected digest e (length content) content ≡ true
    → meets digest e content ≡ true
unfolding meets
expected-meets digest e content f h = go e.size (hash_met digest e.sha256 content) h
  where
    fits : leb (length content) e.max_bytes ≡ true
    fits = le→leb (length content) e.max_bytes f

    go :
        (size : Option ℕ) (b : Bool)
        → ((elim size [ none ↦ true | some n ↦ length content == n ]) && b) ≡ true
        → (leb (length content) e.max_bytes && size_met size content && b) ≡ true
    go none b k = rw fits k
    go (some n) b k = rw fits k

-- Against a bucket whose responses are honest, a download without a partial file ends as one request:
-- the object, whole and as expected, is in place, or the file there is as it was, however often the
-- attempts fail or break off and are resumed; and no partial file is left. Honest means that a body is
-- what its status and the requested offset call for, or breaks off, and that it declares its length.
pub get_file-IsRequest :
    (digest : List ℕ → List ℕ) (stop : Bool) (e : Expect) (content : List ℕ)
    (target : Option (List ℕ)) (replies : List (ℕ → Reply))
    → All (IsHonest content) replies
    → IsRequest digest e content target
        (get_file digest stop e (record { target = target; part = none }) replies)
unfolding get_file
get_file-IsRequest digest true e content target replies h = not_done refl
get_file-IsRequest digest false e content target replies h =
    go (attempts max_download_attempts e (resumed_offset none e.size) none replies) (
      attempts-Staged max_download_attempts e content replies (resumed_offset none e.size) none h
        (afresh (fresh e.size)))
  where
    fresh : (size : Option ℕ) → resumed_offset none size ≡ 0
    fresh none = unfold resumed_offset in refl
    fresh (some n) =
        unfold resumed_offset in
        elim (Bool-cases (leb n 0)) [ inl b ↦ rw b refl | inr b ↦ rw b refl ]

    go :
        (s : Option ℕ × Option (List ℕ))
        → Staged e content s
        → IsRequest digest e content target (settle digest e target s)
    go s (whole k f) =
        subst (λ s. IsRequest digest e content target (settle digest e target s)) (sym k)
          (unfold settle in
            elim (Bool-cases (is_expected digest e (length content) content)) [
              | inl b ↦ rw b (done (expected-meets digest e content f b) refl)
              | inr b ↦ rw b (not_done refl)
            ])
    go (none, part) (nothing k) = unfold settle in not_done refl
    go (some n, part) (nothing k) = cc k
