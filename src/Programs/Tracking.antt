-- ===== src/Programs/Tracking.antt =====
-- `tracked_work` of example/server.cpp: a count of the channels at work, and a wait for the last of them. The
-- count is of type `size_t`, with 64 bits. One thread runs all of it, so that a step is what a
-- coroutine does between two waits.
use corosh.Base.{
  ℕ, suc, ◌+◌, ◌-◌, ◌%◌, ◌^◌, ◌<◌, ◌≡◌, ◌≢◌, Bool, true, false, ltb, if◌then◌else◌, refl, arith,
}
use corosh.Errors.{ErrorCode, no_error, failed}

pub record TrackedWork : Type 0 where
  pub event : Bool
  pub working : ℕ

-- The constructors of `work` (`track`, and each copy), and its destructor by way of `complete`.
unfoldable pub track : TrackedWork → TrackedWork
track j = record j { working = (j.working + 1) % 2 ^ 64 }

unfoldable pub complete : TrackedWork → TrackedWork
complete j = record { event = true; working = (j.working + 2 ^ 64 - 1) % 2 ^ 64 }

-- Where a call of `wait` stands.
pub data Waiter : Type 0 where
  not_called waiting : Waiter
  returned : ErrorCode → Waiter

-- `wait` from the test of its loop on, and from the end of its wait for the event on.
unfoldable pub wait : TrackedWork → Waiter
wait j = if ltb 0 j.working then waiting else returned no_error

unfoldable pub woken : ErrorCode → TrackedWork → Waiter × TrackedWork
unfolding wait
woken ec j =
    if failed ec
    then (returned ec, j)
    else (let cleared = record j { event = false } in (wait cleared, cleared))

-- The object, the number of `work` objects that live, and a call of `wait`.
pub record System : Type 0 where
  pub tracked : TrackedWork
  pub live : ℕ
  pub waiter : Waiter

abbrev pub init : System
init = record { tracked = record { event = false; working = 0 }; live = 0; waiter = not_called }

-- Objects come, as long as there is room to count them, and go. A wait ends when the event is set, or
-- with an error, as when it is stopped.
pub data Step (s t : System) : Type 0 where
  constructed :
      suc s.live < 2 ^ 64 → t ≡ record s { tracked = track s.tracked; live = suc s.live } → Step s t
  destroyed :
      (n : ℕ) → s.live ≡ suc n → t ≡ record s { tracked = complete s.tracked; live = n } → Step s t
  called : s.waiter ≢ waiting → t ≡ record s { waiter = wait s.tracked } → Step s t
  resumed :
      (ec : ErrorCode)
      → s.waiter ≡ waiting
      → (failed ec ≡ false → s.tracked.event ≡ true)
      → t ≡ record s { tracked = (woken ec s.tracked).1; waiter = (woken ec s.tracked).0 }
      → Step s t

pub data Reach : System → Type 0 where
  start : Reach init
  later : {s t : System} → Reach s → Step s t → Reach t

-- The count is that of the objects, and who waits for none is told so.
pub record Inv (s : System) : Type 0 where
  pub counted : s.tracked.working ≡ s.live
  pub small : s.live < 2 ^ 64
  pub told : s.waiter ≡ waiting → s.live ≡ 0 → s.tracked.event ≡ true

Step-Inv : {s t : System} → Step s t → Inv s → Inv t
unfolding track complete wait woken
Step-Inv (constructed h e) inv = ground (arith, inv.counted, inv.small, inv.told)
Step-Inv (destroyed n h e) inv = ground (arith, inv.counted, inv.small, inv.told)
Step-Inv (called h e) inv = ground (arith, inv.counted, inv.small, inv.told)
Step-Inv (resumed ec h k e) inv = ground (arith, inv.counted, inv.small, inv.told)

pub Reach-Inv : {s : System} → Reach s → Inv s
Reach-Inv start = record { counted = refl; small = omega arith; told = λ w z. cc }
Reach-Inv (later r st) = Step-Inv st (Reach-Inv r)

-- No wakeup is lost: whatever has happened, a call of `wait` that waits while no object lives can go on,
-- since the event is set, and then returns without an error.
pub wait_ends :
    (s : System)
    → Reach s
    → s.waiter ≡ waiting
    → s.live ≡ 0
    → (t : System) × Step s t × (t.waiter ≡ returned no_error)
unfolding wait woken
wait_ends s r w none_live = (
  _,
  resumed no_error w (λ ok. (Reach-Inv r).told w none_live) refl,
  ground (arith, (Reach-Inv r).counted),
)

-- Whatever has happened, a step in which a call of `wait` comes to return without an error happens while no
-- object lives.
pub wait_success :
    (s t : System) (ec : ErrorCode)
    → Reach s
    → Step s t
    → s.waiter ≢ returned ec
    → t.waiter ≡ returned ec
    → failed ec ≡ false
    → t.live ≡ 0
unfolding wait woken
wait_success s t ec r (constructed h e) old new ok = absurd (old (cc))
wait_success s t ec r (destroyed n h e) old new ok = absurd (old (cc))
wait_success s t ec r (called h e) old new ok = ground (arith, (Reach-Inv r).counted)
wait_success s t ec r (resumed ec' h k e) old new ok = ground (arith, (Reach-Inv r).counted)
