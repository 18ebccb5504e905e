-- ===== src/Programs/Main/Endings.antt =====
-- How `ssh_main` of the example server ends.
use corosh.Base.{
  ℕ, zero, suc, ◌≡◌, ◌⊎◌, inl, inr, refl, false, Bool-cases, Option, none, some, arith,
}
use corosh.Base.Host.{Endian}
use corosh.Base.Text.{Text}
use corosh.Errors.{ErrorCode, failed}
use corosh.Poll.{World, Step, ret, again, iterate}
use corosh.Poll as P
use corosh.Session.{Completion, returned, thrown, handle_key_exchange}
use corosh.Session as S
use corosh.Message as M
use corosh.Acceptor as A
use corosh.Programs.Main.{
  Surroundings, bind_world, then_with, or_one, unless_failed, give_up, reply_to, after_reply,
  answer_with, handle_message, after_get, message_round, message_loop, run_session, ssh_main,
}

or_one_zero :
    {S A : Type 0} (r : Completion A × S) (rest : A → S → Option (ℕ × S)) (s' : S)
    → or_one r rest ≡ some (0, s')
    → (a : A) × (s : S) × (r ≡ (returned a, s)) × (rest a s ≡ some (0, s'))
unfolding or_one
or_one_zero (returned a, s) rest s' e = (a, s, refl, e)
or_one_zero (thrown ec, s) rest s' e = absurd (cc e)

unless_failed_zero :
    {S : Type 0} (ec : ErrorCode) (s : S) (rest : Option (ℕ × S)) (s' : S)
    → unless_failed ec s rest ≡ some (0, s')
    → (failed ec ≡ false) × (rest ≡ some (0, s'))
unfolding unless_failed
unless_failed_zero ec s rest s' e = elim (Bool-cases (failed ec)) [
  | inl bad ↦ absurd (cc (rw bad at e))
  | inr fine ↦ (fine, rw fine at e)
]

then_with-some :
    {S A B : Type 0} (r : Option (A × S)) (rest : A → S → Option (B × S)) (b : B × S)
    → then_with r rest ≡ some b
    → (a : A) × (s : S) × (r ≡ some (a, s)) × (rest a s ≡ some b)
unfolding then_with
then_with-some none rest b e = absurd (cc e)
then_with-some (some (a, s)) rest b e = (a, s, refl, e)

Round-cases :
    {S A : Type 0} (r : Option (Step S A))
    → (r ≡ none) ⊎ (((a : A) × (s : S) × (r ≡ some (ret a s))) ⊎ ((s : S) × (r ≡ some (again s))))
Round-cases none = inl refl
Round-cases (some (ret a s)) = inr (inl (a, s, refl))
Round-cases (some (again s)) = inr (inr (s, refl))

module _ {G : Type 0} (w : World) (mlib : G → M.Libssh w.State)
    (around : Surroundings w.State G) where
  -- The two ways in which the loop over the messages ends.
  abbrev pub IsEnding : ℕ → w.State → Type 0
  IsEnding code s' =
      ((code ≡ 0) × (w.is_open s' ≡ false))
      ⊎ ((code ≡ 1) × (t : w.State) × (s' ≡ (around.wait (around.request_stop t)).1))

  give_up-IsEnding :
      (t : w.State) (code : ℕ) (s' : w.State)
      → ◌≡◌ {A = Option (Step w.State ℕ)} (some (give_up w mlib around t)) (some (ret code s'))
      → IsEnding code s'
  unfolding give_up
  give_up-IsEnding t code s' e = inr (cc e, t, cc e)

  after_reply-IsEnding :
      (r : Option (ErrorCode × w.State)) (code : ℕ) (s' : w.State)
      → after_reply w mlib around r ≡ some (ret code s')
      → IsEnding code s'
  after_reply-IsEnding none code s' e = absurd (cc e)
  after_reply-IsEnding (some (ec, s)) code s' e = elim (Bool-cases (failed ec)) [
    | inl bad ↦ give_up-IsEnding s code s' (rw bad at e)
    | inr fine ↦ absurd (cc (rw fine at e))
  ]

  answer_with-IsEnding :
      (fuel : ℕ) (message : G) (reply : Option M.Reply) (s : w.State) (code : ℕ) (s' : w.State)
      → answer_with w mlib around fuel message reply s ≡ some (ret code s')
      → IsEnding code s'
  answer_with-IsEnding fuel message none s code s' e = absurd (cc e)
  answer_with-IsEnding fuel message (some reply) s code s' e = after_reply-IsEnding _ code s' e

  after_get-IsEnding :
      (fuel : ℕ) (r : Option ((ErrorCode × Option G) × w.State)) (code : ℕ) (s' : w.State)
      → after_get w mlib around fuel r ≡ some (ret code s')
      → IsEnding code s'
  unfolding handle_message
  after_get-IsEnding fuel none code s' e = absurd (cc e)
  after_get-IsEnding fuel (some ((ec, none), s)) code s' e = give_up-IsEnding s code s' e
  after_get-IsEnding fuel (some ((ec, some message), s)) code s' e = elim (Bool-cases (failed ec)) [
    | inl bad ↦ give_up-IsEnding s code s' (rw bad at e)
    | inr fine ↦
        answer_with-IsEnding fuel message (reply_to w mlib around message) s code s' (rw fine at e)
  ]

  message_round-IsEnding :
      (fuel : ℕ) (s : w.State) (code : ℕ) (s' : w.State)
      → message_round w mlib around fuel s ≡ some (ret code s')
      → IsEnding code s'
  unfolding message_round
  message_round-IsEnding fuel s code s' e = elim (Bool-cases (w.is_open s)) [
    | inl still ↦
        after_get-IsEnding fuel (iterate fuel (P.get_message w around.message_get) s) code s'
          (rw still at e)
    | inr shut ↦
        let same : ret 0 s ≡ ret code s' = cc (rw shut at e) in inl (cc same, cc (same, shut))
  ]

  -- The loop over the messages ends with 0 once the session is closed, or with 1 after a stop was requested and the
  -- channels were waited for, in that order, and not otherwise.
  pub message_loop-IsEnding :
      (rounds fuel : ℕ) (s : w.State) (code : ℕ) (s' : w.State)
      → message_loop w mlib around rounds fuel s ≡ some (code, s')
      → IsEnding code s'
  unfolding message_loop
  message_loop-IsEnding zero fuel s code s' e = absurd (cc e)
  message_loop-IsEnding (suc rounds) fuel s code s' e =
      elim (Round-cases (message_round w mlib around fuel s)) [
        | inl never ↦ absurd (cc (rw (never, message_loop) at e))
        | inr (inl (a, t, last)) ↦
            let same : some (a, t) ≡ some (code, s') = rw (last, message_loop) at e in
            message_round-IsEnding fuel s code s' (cc (last, same))
        | inr (inr (t, more)) ↦
            message_loop-IsEnding rounds fuel t code s' (rw (more, message_loop) at e)
      ]

  ending_closed : (s' : w.State) → IsEnding 0 s' → w.is_open s' ≡ false
  ending_closed s' (inl (same, shut)) = shut
  ending_closed s' (inr (one, t, e)) = absurd (omega (arith, one))

  module _ (host : Endian) (slib : S.Libssh w.State) (alib : A.Libssh w.State) where
    abbrev bound_world : World
    bound_world = bind_world w around.bind_error_code

    run_session_zero :
        (rounds fuel callbacks : ℕ) (s s' : w.State)
        → run_session w mlib around host slib alib rounds fuel callbacks s ≡ some (0, s')
        → (failed (A.accept bound_world alib s).0 ≡ false)
          × (ec : ErrorCode) × (t : w.State) × (S.perform w slib fuel handle_key_exchange
                (A.accept bound_world alib s).1
              ≡ some (ec, t))
          × (failed ec ≡ false)
          × (w.is_open s' ≡ false)
    unfolding run_session
    run_session_zero rounds fuel callbacks s s' e =
        let (accepted, e1) = unless_failed_zero _ _ _ s' e in
        let (ec, t, exchanged, e2) = then_with-some _ _ (0, s') e1 in
        let (fine, e3) = unless_failed_zero _ _ _ s' e2 in
        let (held, u, installed, looped) = or_one_zero _ _ s' e3 in
        (
          accepted,
          ec,
          t,
          exchanged,
          fine,
          ending_closed s' (message_loop-IsEnding rounds fuel u 0 s' looped),
        )

    -- If the program ends with 0, the acceptor was bound and has accepted without an error, the exchange of keys has
    -- succeeded, and the session is closed in the end.
    pub ssh_main_zero :
        (rounds fuel : ℕ) (key_path : Text) (endpoint : A.Endpoint) (callbacks : ℕ) (s s' : w.State)
        → ssh_main w mlib around host slib alib rounds fuel key_path endpoint callbacks s
          ≡ some (0, s')
        → ((t t' : w.State) × (ec : ErrorCode) × (A.bind host bound_world alib endpoint t
              ≡ (returned ec, t'))
            × (failed ec ≡ false))
          × ((t t' : w.State) × (ec : ErrorCode) × (failed (A.accept bound_world alib t).0 ≡ false)
              × (S.perform w slib fuel handle_key_exchange (A.accept bound_world alib t).1
                  ≡ some (ec, t'))
              × (failed ec ≡ false))
          × (w.is_open s' ≡ false)
    unfolding ssh_main
    ssh_main_zero rounds fuel key_path endpoint callbacks s s' e =
        let (u, s1, keyed, e1) = or_one_zero _ _ s' e in
        let (ec, s2, bound, e2) = or_one_zero _ _ s' e1 in
        let (fine, e3) = unless_failed_zero _ _ _ s' e2 in
        let (heard, e4) = unless_failed_zero _ _ _ s' e3 in
        let (u', s4, verbose, ran) = or_one_zero _ _ s' e4 in
        let (accepted, ec', t, exchanged, fine', shut) =
          run_session_zero rounds fuel callbacks s4 s' ran in
        (
          (around.open_acceptor s1, s2, ec, bound, fine),
          (s4, t, ec', accepted, exchanged, fine'),
          shut,
        )
