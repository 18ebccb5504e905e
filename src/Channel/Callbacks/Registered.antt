-- ===== src/Channel/Callbacks/Registered.antt =====
-- Where a destroyed callbacks object is still registered.
use corosh.Base.{
  ℕ, ◌≡◌, ◌∙◌, Bool, true, false, Option, none, some, ◌==◌, Bool-cases, inl, inr, if◌then◌else◌,
}
use corosh.Base.Int.{ℤ, eq_ℤ}
use corosh.Errors.{ErrorCode}
use corosh.Poll.Outcomes.{eq_ℤ→eq}
use corosh.Poll.{World, rc_ok}
use corosh.Channel.Callbacks.{Registry, add_callbacks, destroy}

-- `holds` tells whether a channel has pointers to an object. A call that succeeds registers it with its
-- channel; no call changes what other channels have.
pub record Registers (w : World) (registry : Registry w.State) (holds : w.State → ℕ → ℕ → Bool)
    : Type 0 where
  pub add :
      (c cb : ℕ) (s : w.State)
      → (registry.add c cb s).0 ≡ rc_ok
      → holds (registry.add c cb s).1 c cb ≡ true
  pub set :
      (c cb : ℕ) (s : w.State)
      → (registry.set c cb s).0 ≡ rc_ok
      → holds (registry.set c cb s).1 c cb ≡ true
  pub add_other :
      (c d cb : ℕ) (s : w.State)
      → (c == d) ≡ false
      → holds (registry.add c cb s).1 d cb ≡ holds s d cb
  pub set_other :
      (c d cb : ℕ) (s : w.State)
      → (c == d) ≡ false
      → holds (registry.set c cb s).1 d cb ≡ holds s d cb
  pub remove_other :
      (c d cb : ℕ) (s : w.State)
      → (c == d) ≡ false
      → holds (registry.remove c cb s) d cb ≡ holds s d cb

module _ (w : World) (registry : Registry w.State) (holds : w.State → ℕ → ℕ → Bool)
    (laws : Registers w registry holds) where
  succeeded :
      (rc : ℤ) (ec : ErrorCode) (c : ℕ) (u s' : w.State)
      → ◌≡◌ {A = (Option ErrorCode × Option ℕ) × w.State}
          ((if eq_ℤ rc rc_ok then none else some ec, some c), u)
          ((none, some c), s')
      → (rc ≡ rc_ok) × (u ≡ s')
  succeeded rc ec c u s' e = elim (Bool-cases (eq_ℤ rc rc_ok)) [
    | inl ok ↦ (eq_ℤ→eq rc rc_ok ok, cc e)
    | inr bad ↦ absurd (cc (rw bad at e))
  ]

  added :
      (c cb : ℕ) (back : Bool) (chan : Option ℕ) (s s' : w.State)
      → add_callbacks w registry c cb back chan s ≡ ((none, some c), s')
      → holds s' c cb ≡ true
  unfolding add_callbacks
  added c cb true chan s s' e =
      let (ok, same) = succeeded (registry.add c cb s).0 _ c (registry.add c cb s).1 s' e in
      rw (← same) (laws.add c cb s ok)
  added c cb false chan s s' e =
      let (ok, same) = succeeded (registry.set c cb s).0 _ c (registry.set c cb s).1 s' e in
      rw (← same) (laws.set c cb s ok)

  added_other :
      (c d cb : ℕ) (back : Bool) (chan : Option ℕ) (s : w.State)
      → (c == d) ≡ false
      → holds (add_callbacks w registry c cb back chan s).1 d cb ≡ holds s d cb
  unfolding add_callbacks
  added_other c d cb true chan s differ = laws.add_other c d cb s differ
  added_other c d cb false chan s differ = laws.set_other c d cb s differ

  destroy_other :
      (c d cb : ℕ) (s : w.State)
      → (c == d) ≡ false
      → holds (destroy w registry cb (some c) s) d cb ≡ holds s d cb
  unfolding destroy
  destroy_other c d cb s differ = elim (Bool-cases (registry.is_open c s)) [
    | inl yes_open ↦ rw yes_open (laws.remove_other c d cb s differ)
    | inr closed ↦ rw closed
  ]

  -- An object whose callbacks were added to a channel and then to another one is still registered with the
  -- first channel after it has been destroyed, whether or not the second call succeeded.
  pub destroy-add_callbacks :
      (c d cb : ℕ) (back back' : Bool) (s s' : w.State)
      → (d == c) ≡ false
      → add_callbacks w registry c cb back none s ≡ ((none, some c), s')
      → holds
          (destroy w registry cb
            (add_callbacks w registry d cb back' (some c) s').0.1
            (add_callbacks w registry d cb back' (some c) s').1)
          c
          cb
        ≡ true
  unfolding add_callbacks
  destroy-add_callbacks c d cb back back' s s' differ first =
      destroy_other d c cb (add_callbacks w registry d cb back' (some c) s').1 differ
      ∙ added_other d c cb back' (some c) s' differ
      ∙ added c cb back none s s' first
