-- ===== src/Poll.antt =====
-- The retry loops around libssh: `do_open_`, `do_some_io_`, `do_io_` and `get_exit_state` of
-- src/channel.cpp, `connect`, `do_auth_`, `do_op_`, `listen_forward` and `get_message` of
-- src/session.cpp, `do_op_` of src/message.cpp. A loop's body is a function from the state of the world
-- to a `Step`; a round that does not return goes on.
pub mod Loop
pub mod Outcomes
pub mod Retries
use corosh.Base.{
  ℕ, zero, suc, Bool, true, false, not, ◌&&◌, ◌+◌, Option, none, some, ◌==◌, if◌then◌else◌,
}
use corosh.Base.Int.{ℤ, pos, negsuc, eq_ℤ}
use corosh.Errors.{ErrorCode, Category, no_error, failed, ssh_error, ssh_fatal}

-- What the loops use of libssh and of the socket: parameters of the model. `wait_both` is
-- `get<0>` of the `when_all`, `timer` the wait of one millisecond.
pub record World : Type 1 where
  pub State : Type 0
  pub poll_flags : State → ℕ × State
  pub error_code : State → ℕ
  pub is_open : State → Bool
  pub wait_read : State → ErrorCode × State
  pub wait_write : State → ErrorCode × State
  pub wait_both : State → ErrorCode × State
  pub timer : State → ErrorCode × State

-- The return codes of libssh, by the numbers that it documents.
abbrev pub rc_ok : ℤ
rc_ok = pos 0

abbrev pub rc_error : ℤ
rc_error = negsuc 0

abbrev pub rc_again : ℤ
rc_again = negsuc 1

abbrev pub rc_eof : ℤ
rc_eof = negsuc 126

-- SSH_AUTH_AGAIN and SSH_AUTH_ERROR
abbrev pub auth_again : ℤ
auth_again = pos 4

abbrev pub auth_error : ℤ
auth_error = negsuc 0

-- SSH_READ_PENDING and SSH_WRITE_PENDING
abbrev pub read_pending : ℕ
read_pending = 2

abbrev pub write_pending : ℕ
write_pending = 8

-- `std::make_error_code` of not_connected, broken_pipe and operation_not_supported (Linux numbers).
abbrev pub generic_error : ℕ → ErrorCode
generic_error v = record { value = v; category = Category.generic }

abbrev pub not_connected : ErrorCode
not_connected = generic_error 107

abbrev pub broken_pipe : ErrorCode
broken_pipe = generic_error 32

-- One round: the coroutine returns, or goes round again.
pub data Step (S A : Type 0) : Type 0 where
  ret : A → S → Step S A
  again : S → Step S A

-- `for (;;)`: `none` if all the rounds that the fuel allows have gone round again.
unfoldable pub iterate : {S A : Type 0} → ℕ → (S → Step S A) → S → Option (A × S)
iterate zero step s = none
iterate (suc fuel) step s = elim (step s) [
  | ret a s' ↦ some (a, s')
  | again s' ↦ iterate fuel step s'
]

module _ (w : World) where
  open w use {State, poll_flags, error_code, is_open, wait_read, wait_write, wait_both, timer}

  -- The ladder on `ssh_get_poll_flags`, with what the function does on READ_PENDING, and `ec` if no
  -- flag is set.
  abbrev pub wait_pending : (State → ErrorCode × State) → ErrorCode → State → ErrorCode × State
  wait_pending on_read otherwise s =
      let (r, s') = poll_flags s in
      if r == read_pending
      then on_read s'
      else if r == write_pending
      then wait_write s'
      else if r == read_pending + write_pending
      then wait_both s'
      else (otherwise, s')

  -- The end of a round: `if (ec) co_return ...;`
  abbrev pub go_on : {A : Type 0} → (ErrorCode → A) → ErrorCode × State → Step State A
  go_on result (ec, s) = if failed ec then ret (result ec) s else again s

  -- The code of `SSH_ERROR`.
  abbrev pub last_error : State → ErrorCode
  last_error s = ssh_error (error_code s)

  module _ (f : State → ℤ × State) where
    -- `channel::do_open_` and, to the letter, `message::do_op_`
    unfoldable pub do_open : State → Step State ErrorCode
    do_open s =
        let (rc, s') = f s in
        if eq_ℤ rc rc_ok
        then ret no_error s'
        else if eq_ℤ rc rc_error
        then ret (last_error s') s'
        else go_on (λ ec. ec) (wait_pending wait_read not_connected s')

    -- `session::do_op_`
    unfoldable pub do_op : State → Step State ErrorCode
    do_op s =
        let (rc, s') = f s in
        if eq_ℤ rc rc_ok
        then ret no_error s'
        else if eq_ℤ rc rc_error
        then ret (if error_code s' == 0 then ssh_fatal else last_error s') s'
        else go_on (λ ec. ec) (wait_pending wait_read not_connected s')

    -- `session::do_auth_`; an `ssh_auth_e` is its number.
    unfoldable pub do_auth : State → Step State (ErrorCode × ℤ)
    do_auth s =
        let (rc, s') = f s in
        if eq_ℤ rc auth_again
        then go_on (λ ec. (ec, auth_error)) (wait_pending wait_read not_connected s')
        else if eq_ℤ rc auth_error
        then ret (last_error s', auth_error) s'
        else ret (no_error, rc) s'

  -- `session::listen_forward`: the call gives `bound_port` too.
  unfoldable pub listen_forward : (State → (ℤ × ℕ) × State) → State → Step State (ErrorCode × ℕ)
  listen_forward f s =
      let (r, s') = f s in
      if eq_ℤ r.0 rc_ok
      then ret (no_error, r.1) s'
      else if eq_ℤ r.0 rc_error
      then ret (last_error s', 0) s'
      else go_on (λ ec. (ec, 0)) (wait_pending wait_read not_connected s')

  -- `channel::get_exit_state`: the call gives the exit state too, and `empty` is `exit_state{}`. With no
  -- flag pending there is no error and no wait.
  unfoldable pub get_exit_state :
      {E : Type 0} → E → (State → (ℤ × E) × State) → State → Step State (ErrorCode × E)
  get_exit_state empty f s =
      let (r, s') = f s in
      if eq_ℤ r.0 rc_ok
      then ret (no_error, r.1) s'
      else if eq_ℤ r.0 rc_error
      then ret (last_error s', empty) s'
      else go_on (λ ec. (ec, empty)) (wait_pending wait_read no_error s')

  -- `session::get_message`: a null pointer is `none`.
  unfoldable pub get_message :
      {M : Type 0} → (State → Option M × State) → State → Step State (ErrorCode × Option M)
  get_message f s = elim ((f s).0) [
    | some m ↦ ret (no_error, some m) (f s).1
    | none ↦
        let s' = (poll_flags (f s).1).1 in
        let r = (poll_flags (f s).1).0 in
        if r == read_pending
        then go_on (λ ec. (ec, none)) (wait_read s')
        else if r == write_pending
        then go_on (λ ec. (ec, none)) (wait_write s')
        else if r == read_pending + write_pending
        then go_on (λ ec. (ec, none)) (wait_both s')
        else if not (is_open s')
        then ret (broken_pipe, none) s'
        else again s'
  ]

  module _ (eof : ErrorCode) (f : State → ℤ × State) where
    -- `if (rc > 0) co_return {{}, rc};`
    abbrev positive : ℤ → State → Step State (ErrorCode × ℕ) → Step State (ErrorCode × ℕ)
    positive (pos n) s rest = if n == 0 then rest else ret (no_error, n) s
    positive (negsuc n) s rest = rest

    -- `channel::do_some_io_`
    unfoldable pub do_some_io : State → Step State (ErrorCode × ℕ)
    do_some_io s =
        let (rc, s') = f s in
        if eq_ℤ rc (pos 0)
        then ret (eof, 0) s'
        else positive rc s' (
            if eq_ℤ rc rc_error
            then ret (last_error s', 0) s'
            else go_on (λ ec. (ec, 0)) (wait_pending timer no_error s'))

    -- `channel::do_io_`
    unfoldable pub do_io : State → Step State (ErrorCode × ℕ)
    do_io s =
        let (rc, s') = f s in
        if eq_ℤ rc (pos 0)
        then ret (eof, 0) s'
        else if eq_ℤ rc rc_error
        then ret (last_error s', 0) s'
        else go_on (λ ec. (ec, 0)) (wait_pending wait_read no_error s')
