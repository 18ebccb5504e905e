-- ===== src/Session/Forwarding.antt =====
-- Operations of `session` that are one call of libssh: `parse_config`, `is_open`, `userauth_list`,
-- `userauth_publickey_auto_get_current_identity`, those of the keyboard-interactive
-- authentication, and `open_forward_port`.
use corosh.Base.{
  ℕ, ◌+◌, ◌%◌, ◌^◌, ◌==◌, ◌≡◌, Bool, true, false, [], Option, none, some, if◌then◌else◌, bit_and,
}
use corosh.Base.Int.{ℤ, pos, negsuc, eq_ℤ}
use corosh.Base.Text.{Text}
use corosh.Poll.{World, rc_ok, last_error}
use corosh.Session.{Completion, returned, thrown}

-- The functions of libssh; a null pointer is `none`. `accept_forward` is `ssh_channel_open_forward_port` without
-- a time to wait: it is given what stands in the variables for the two ports, as bit patterns of 32 bits, and
-- gives what stands there then, with a channel and the address of the originator.
pub record Libssh (S : Type 0) : Type 0 where
  pub parse_config : Option Text → S → ℤ × S
  pub status : S → ℕ
  pub userauth_list : S → ℕ × S
  pub current_identity : S → (ℤ × Option Text) × S
  pub kbdint_getinstruction : S → Option Text
  pub kbdint_getname : S → Option Text
  pub kbdint_getnprompts : S → ℤ
  pub kbdint_getprompt : ℕ → S → Option Text × ℕ
  pub kbdint_getnanswers : S → ℤ
  pub kbdint_getanswer : ℕ → S → Option Text
  pub kbdint_setanswer : ℕ → Text → S → ℤ × S
  pub accept_forward : ℕ → ℕ → S → (Option ℕ × ℕ × Option Text × ℕ) × S

-- SSH_CLOSED | SSH_CLOSED_ERROR
abbrev closed_bits : ℕ
closed_bits = 1 + 4

-- `open_forward_port_result`
pub record ForwardPort : Type 0 where
  pub chan : Option ℕ
  pub destination_port : ℕ
  pub originator : Text
  pub originator_port : ℕ

-- `std::string` of a pointer that may be null
abbrev text_of : Option Text → Text
text_of none = []
text_of (some t) = t

-- `>= 0`
abbrev not_negative : ℤ → Bool
not_negative (pos n) = true
not_negative (negsuc n) = false

module _ (w : World) (lib : Libssh w.State) where
  unfoldable pub parse_config : Option Text → w.State → Completion (Unit {0}) × w.State
  parse_config filename s =
      let (rc, s') = lib.parse_config filename s in
      (if eq_ℤ rc rc_ok then returned tt else thrown (last_error w s'), s')

  unfoldable pub is_open : w.State → Bool
  is_open s = bit_and (lib.status s) closed_bits == 0

  unfoldable pub userauth_list : w.State → ℕ × w.State
  userauth_list = lib.userauth_list

  unfoldable pub current_identity : w.State → Completion Text × w.State
  current_identity s =
      let ((rc, value), s') = lib.current_identity s in
      (if eq_ℤ rc rc_ok then returned (text_of value) else thrown (last_error w s'), s')

  unfoldable pub kbdint_setanswer : ℕ → Text → w.State → Bool × w.State
  kbdint_setanswer i answer s =
      let (rc, s') = lib.kbdint_setanswer i answer s in (not_negative rc, s')

  -- `d` and `o` are what the two variables hold before the call; the ports are cut down to 16 bits.
  unfoldable pub open_forward_port : ℕ → ℕ → w.State → ForwardPort × w.State
  open_forward_port d o s =
      let ((c, d', ptr, o'), s') = lib.accept_forward d o s in
      (
        record {
          chan = c;
          destination_port = d' % 2 ^ 16;
          originator = text_of ptr;
          originator_port = o' % 2 ^ 16;
        },
        s',
      )

  -- Where no channel has been opened, and libssh leaves the variables for the ports alone, the ports of the
  -- result are what happened to stand in the two variables, which nobody has set.
  pub open_forward_port_unset :
      (d o : ℕ) (s s' : w.State)
      → lib.accept_forward d o s ≡ ((none, d, none, o), s')
      → open_forward_port d o s ≡ (
        record {
          chan = none;
          destination_port = d % 2 ^ 16;
          originator = [];
          originator_port = o % 2 ^ 16;
        },
        s',
      )
  unfolding open_forward_port
  open_forward_port_unset d o s s' e = rw e
