-- ===== src/S3/Requests.antt =====
-- supervisor/src/s3/client.rs: which failures are worth another attempt, and `retrying`. The requests
-- themselves are the HTTP library's.
use vaultwarden_hummingbird.Base.{
  ℕ, zero, suc, ◌≤◌, Bool, true, ◌&&◌, ◌||◌, ◌≡◌, refl, arith, ◌==◌, ltb, leb, if◌then◌else◌, ◌<◌,
  ◌+◌, ◌↔◌, ◌⊎◌, sym, subst, Result, ok, err, inl, inr, Bool-cases,
}

pub data HttpError : Type 0 where
  status : ℕ → HttpError
  transport : HttpError

unfoldable pub retryable : HttpError → Bool
retryable (status code) = code == 429 || (leb 500 code && ltb code 600)
retryable transport = true

abbrev pub retry_attempts : ℕ
retry_attempts = 3

-- `replies` is what each attempt gets, by its number from 1 on; `left` more may follow this one. The
-- result, and the number of the last attempt.
unfoldable pub retrying_on :
    {A : Type 0} → ℕ → ℕ → (ℕ → Result HttpError A) → Result HttpError A × ℕ
unfolding retryable
retrying_on zero attempt replies = (replies attempt, attempt)
retrying_on (suc left) attempt replies =
    let rest = retrying_on left (suc attempt) replies in
    elim (replies attempt) [
      | ok a ↦ (ok a, attempt)
      | err e ↦ if retryable e then rest else (err e, attempt)
    ]

unfoldable pub retrying : {A : Type 0} → (ℕ → Result HttpError A) → Result HttpError A × ℕ
unfolding retrying_on
retrying replies = retrying_on 2 1 replies

-- What may go away by itself: too many requests, a server error, or no answer at all.
abbrev pub IsTransient : HttpError → Type 0
IsTransient (status code) = (code ≡ 429) ⊎ ((500 ≤ code) × (code ≤ 599))
IsTransient transport = Unit

retryable_iff : (e : HttpError) → (retryable e ≡ true) ↔ IsTransient e
unfolding retryable
retryable_iff (status code) = (λ h. ground (arith, h), λ h. ground (arith, h))
retryable_iff transport = (λ h. tt, λ h. refl)

abbrev pub FailsTransiently : {A : Type 0} → Result HttpError A → Type 0
FailsTransiently (ok a) = ⊥
FailsTransiently (err e) = IsTransient e

-- After the attempts `first` to `n`, of which `last` is the last one allowed: all but the `n`th failed
-- in a way that may go away, the result is the reply to the `n`th, and it is no such failure, or no
-- attempt was left.
pub record Retried {A : Type 0} (first last : ℕ) (replies : ℕ → Result HttpError A)
    (r : Result HttpError A) (n : ℕ) : Type 0 where
  pub started : first ≤ n
  pub few : n ≤ last
  pub reply : r ≡ replies n
  pub failed : (i : ℕ) → first ≤ i → i < n → FailsTransiently (replies i)
  pub settled : ¬ (FailsTransiently r) ⊎ (n ≡ last)

module _ {A : Type 0} (replies : ℕ → Result HttpError A) where
  one :
      (first last : ℕ) (r : Result HttpError A)
      → first ≤ last
      → r ≡ replies first
      → ¬ (FailsTransiently r) ⊎ (first ≡ last)
      → Retried first last replies r first
  one first last r l e s = record {
    started = omega arith;
    few = l;
    reply = e;
    failed = λ i a b. absurd (omega (arith, a, b));
    settled = s;
  }

  more :
      (first last : ℕ) (r : Result HttpError A) (n : ℕ)
      → FailsTransiently (replies first)
      → Retried (suc first) last replies r n
      → Retried first last replies r n
  more first last r n f h = record {
    started = omega (arith, h.started);
    few = h.few;
    reply = h.reply;
    failed = λ i a b. elim (le_split first i a) [
      | inl e ↦ subst (λ i. FailsTransiently (replies i)) e f
      | inr l ↦ h.failed i l b
    ];
    settled = h.settled;
  }
    where
      le_split : (a b : ℕ) → a ≤ b → (a ≡ b) ⊎ (suc a ≤ b)
      le_split a b l = ground (arith, l)

  retrying_on-Retried :
      (left first last : ℕ)
      → left + first ≡ last
      → (let r = retrying_on left first replies in Retried first last replies r.0 r.1)
  unfolding retrying_on
  retrying_on-Retried zero first last e =
      one first last (replies first) (omega (arith, e)) refl (inr (omega (arith, e)))
  retrying_on-Retried (suc left) first last d =
      go (replies first) refl (retrying_on-Retried left (suc first) last (omega (arith, d)))
    where
      go :
          (x : Result HttpError A)
          → replies first ≡ x
          → (let rest = retrying_on left (suc first) replies in
              Retried (suc first) last replies rest.0 rest.1)
          → (let s : Result HttpError A × ℕ = elim x [
            | ok a ↦ (ok a, first)
            | err e ↦ if retryable e then retrying_on left (suc first) replies else (err e, first)
          ] in
              Retried first last replies s.0 s.1)
      go (ok a) e ih = one first last (ok a) (omega (arith, d)) (sym e) (inl (λ b. b))
      go (err x) e ih = elim (Bool-cases (retryable x)) [
        | inl b ↦
            rw b (more first last _ _ (subst FailsTransiently (sym e) ((retryable_iff x).0 b)) ih)
        | inr b ↦ rw b (
            one first last (err x) (omega (arith, d)) (sym e)
              (inl (λ t. let c = (retryable_iff x).1 t in cc (b, c))))
      ]

-- A request is made at least once and at most three times; every attempt but the last failed with a
-- status 429, a server error or without an answer; what is given back is the reply to the last
-- attempt, and it is such a failure only after the third one.
pub retrying-Retried :
    {A : Type 0} (replies : ℕ → Result HttpError A)
    → Retried 1 retry_attempts replies (retrying replies).0 (retrying replies).1
unfolding retrying
retrying-Retried replies = retrying_on-Retried replies 2 1 3 refl
