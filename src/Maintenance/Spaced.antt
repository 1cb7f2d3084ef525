-- ===== src/Maintenance/Spaced.antt =====
-- When a periodic task runs.
use vaultwarden_hummingbird.Base.{
  ℕ, ◌+◌, ◌≤◌, Bool, true, false, not, none, some, List, [], ◌∷◌, ◌≡◌, refl, sym, ap, ◌∙◌, subst,
  arith, leb, leb→le, if◌then◌else◌, Bool-cases, Option-cases, inl, inr,
}
use vaultwarden_hummingbird.Maintenance.{
  Task, Turn, checked_add, next_due, first_of, first_due, visit, runs,
}

-- Each run comes at least the cadence after the clock of the run before it, and not before `from`;
-- none starts once a stop request is seen.
abbrev pub Spaced : ℕ → ℕ → List Turn → Type 0
Spaced cadence from [] = Unit
Spaced cadence from (turn ∷ turns) =
    (from ≤ turn.now) × (turn.stopping ≡ false) × Spaced cadence (turn.clock + cadence) turns

-- The clock does not run backwards.
abbrev pub Forward : ℕ → List Turn → Type 0
Forward from [] = Unit
Forward from (turn ∷ turns) = (from ≤ turn.now) × (turn.now ≤ turn.clock) × Forward turn.clock turns

checked_add-eq-some :
    (limit at delay : ℕ) {r : ℕ} → checked_add limit at delay ≡ some r → r ≡ at + delay
checked_add-eq-some limit at delay h = elim (Bool-cases (leb (at + delay) limit)) [
  | inl e ↦ cc (rw e at h)
  | inr e ↦ cc (rw e at h)
]

next_due-eq-some :
    (limit cadence : ℕ) (task : Task) (clock : ℕ) {r : ℕ}
    → task.cadence ≡ some cadence
    → next_due limit task.cadence clock ≡ some r
    → r ≡ clock + cadence
unfolding next_due
next_due-eq-some limit cadence task clock {r} c n =
    checked_add-eq-some limit clock cadence {r = r} (sym (ap (λ d. next_due limit d clock) c) ∙ n)

Spaced-sooner :
    (cadence from sooner : ℕ) (turns : List Turn)
    → sooner ≤ from
    → Spaced cadence from turns
    → Spaced cadence sooner turns
Spaced-sooner cadence from sooner [] l s = tt
Spaced-sooner cadence from sooner (turn ∷ turns) l s = (omega (arith, l, s.0), s.1, s.2)

-- A turn that is due: the task runs, or a stop request is seen.
run_or_skip :
    (cadence at : ℕ) (turn : Turn) (rest : List Turn) (b : Bool)
    → turn.stopping ≡ b
    → at ≤ turn.now
    → turn.now ≤ turn.clock
    → Spaced cadence (turn.clock + cadence) rest
    → Spaced cadence at (if not b then turn ∷ rest else rest)
run_or_skip cadence at turn rest true s l k after =
    Spaced-sooner cadence (turn.clock + cadence) at rest (omega (arith, l, k)) after
run_or_skip cadence at turn rest false s l k after = (l, s, after)

-- A task that is not due again never runs.
never_due : (limit : ℕ) (task : Task) (turns : List Turn) → runs limit task none turns ≡ []
unfolding runs visit
never_due limit task [] = refl
never_due limit task (turn ∷ turns) = never_due limit task turns

due-Spaced :
    (limit cadence at clock : ℕ) (task : Task) (turns : List Turn)
    → task.cadence ≡ some cadence
    → Forward clock turns
    → Spaced cadence at (runs limit task (some at) turns)
unfolding runs visit
due-Spaced limit cadence at clock task [] c f = tt
due-Spaced limit cadence at clock task (turn ∷ turns) c f = elim (Bool-cases (leb at turn.now)) [
  | inr e ↦ rw e (due-Spaced limit cadence at turn.clock task turns c f.2)
  | inl e ↦
      let after : Spaced cadence (turn.clock + cadence)
          (runs limit task (next_due limit task.cadence turn.clock) turns) =
        elim (Option-cases (next_due limit task.cadence turn.clock)) [
          | inl n ↦ rw (n, never_due limit task turns) tt
          | inr (r, n) ↦
              let due : r ≡ turn.clock + cadence =
                next_due-eq-some limit cadence task turn.clock c n in
              rw n (
                subst (λ x. Spaced cadence x (runs limit task (some r) turns)) due
                  (due-Spaced limit cadence r turn.clock task turns c f.2))
        ] in
      rw e (
        run_or_skip cadence at turn (runs limit task (next_due limit task.cadence turn.clock) turns)
          turn.stopping refl (leb→le at turn.now e) f.1 after)
]

-- With a clock that does not run backwards, a task with a cadence first runs no sooner than its first
-- delay after the start; each later run comes at least the cadence after the clock at which the run
-- before it was scheduled; and no run starts once a stop request is seen.
pub runs-Spaced :
    (limit start cadence : ℕ) (task : Task) (turns : List Turn)
    → task.cadence ≡ some cadence
    → Forward start turns
    → Spaced cadence (start + task.first_delay) (runs limit task (first_due limit task start) turns)
runs-Spaced limit start cadence task turns c f = elim (Option-cases (first_due limit task start)) [
  | inl n ↦
      subst (λ d. Spaced cadence (start + task.first_delay) (runs limit task d turns)) (sym n)
        (subst (Spaced cadence (start + task.first_delay)) (sym (never_due limit task turns)) tt)
  | inr (r, n) ↦
      let opened : first_of limit task.cadence task.first_delay start ≡ some r =
        unfold first_due in n in
      let due : first_of limit (some cadence) task.first_delay start ≡ some r =
        ap (λ d. first_of limit d task.first_delay start) (sym c) ∙ opened in
      subst (λ d. Spaced cadence (start + task.first_delay) (runs limit task d turns)) (sym n)
        (subst (λ x. Spaced cadence x (runs limit task (some r) turns))
          (checked_add-eq-some limit start task.first_delay {r = r} due)
          (due-Spaced limit cadence r start task turns c f))
]
