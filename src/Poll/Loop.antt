-- ===== src/Poll/Loop.antt =====
-- `iterate` and the rounds behind it.
use corosh.Base.{ℕ, zero, suc, ◌+◌, ◌≡◌, refl, none, some, arith, ◌⊎◌, inl, inr, ap}
use corosh.Poll.{Step, ret, again, iterate}

-- `n` rounds that all go round again lead from one state to the other.
pub data Rounds {S A : Type 0} (step : S → Step S A) : ℕ → S → S → Type 0 where
  here : (s : S) → Rounds step zero s s
  next : {n : ℕ} {s t u : S} → step s ≡ again t → Rounds step n t u → Rounds step (suc n) s u

Step-cases :
    {S A : Type 0} (p : Step S A) → ((a : A) × (s : S) × (p ≡ ret a s)) ⊎ ((s : S) × (p ≡ again s))
Step-cases (ret a s) = inl (a, s, refl)
Step-cases (again s) = inr (s, refl)

-- A result of the loop is the result of its last round.
pub iterate_last :
    {S A : Type 0} (fuel : ℕ) (step : S → Step S A) (s : S) (a : A) (s' : S)
    → iterate fuel step s ≡ some (a, s')
    → (t : S) × (step t ≡ ret a s')
unfolding iterate
iterate_last zero step s a s' e = cc
iterate_last (suc fuel) step s a s' e = elim (Step-cases (step s)) [
  | inl (b, t, r) ↦ (s, cc (r, rw (r, iterate) at e))
  | inr (t, r) ↦ iterate_last fuel step t a s' (rw (r, iterate) at e)
]

-- The loop goes through its rounds, as far as the fuel allows, to what comes after them.
pub iterate-Rounds :
    {S A : Type 0} (step : S → Step S A) (fuel more : ℕ) (n : ℕ) (s t : S)
    → Rounds step n s t
    → fuel ≡ n + more
    → iterate fuel step s ≡ iterate more step t
unfolding iterate
iterate-Rounds step fuel more n s t (here _) e = ap (λ k. iterate k step s) (omega arith)
iterate-Rounds step zero more n s t (next one r) e = absurd (omega arith)
iterate-Rounds step (suc fuel) more n s t (next {t = u} one r) e =
    rw (one, iterate) (iterate-Rounds step fuel more _ u t r (omega arith))

-- A body that always goes round again never returns.
pub iterate_forever :
    {S A : Type 0} (fuel : ℕ) (step : S → Step S A) (next_state : S → S) (s : S)
    → ((t : S) → step t ≡ again (next_state t))
    → iterate fuel step s ≡ none
unfolding iterate
iterate_forever zero step next_state s h = refl
iterate_forever (suc fuel) step next_state s h =
    rw (h s, iterate) (iterate_forever fuel step next_state (next_state s) h)

pub iterate_one :
    {S A : Type 0} (fuel : ℕ) (step : S → Step S A) (s : S) {a : A} {t : S}
    → step s ≡ ret a t
    → iterate (suc fuel) step s ≡ some (a, t)
unfolding iterate
iterate_one fuel step s e = rw (e, iterate)
