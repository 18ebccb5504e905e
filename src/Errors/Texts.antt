-- ===== src/Errors/Texts.antt =====
-- The texts of `ssh_category_t` and `sftp_category_t` in src/error.cpp.
use native.Mathlib.Decide.{dec_lt}
use corosh.Base.{
  ℕ, zero, suc, ◌≤◌, ◌<◌, ◌≡◌, refl, ◌∙◌, Bool, true, not, ◌&&◌, ◌||◌, Bool-cases, inl, inr, List,
  [], ◌∷◌, ◌==◌, ==_iff, if◌then◌else◌, same_bytes, arith,
}
use corosh.Base.Text.{Text, bytes_of}
use corosh.Errors.Fx

-- SSH_NO_ERROR, SSH_REQUEST_DENIED, SSH_FATAL, SSH_EINTR
unfoldable pub ssh_message : ℕ → Text
ssh_message ev =
    if ev == 0
    then bytes_of "no error"
    else if ev == 1
    then bytes_of "request denied"
    else if ev == 2
    then bytes_of "fatal"
    else if ev == 3
    then bytes_of "interrupted"
    else bytes_of "unknown error"

unfoldable pub sftp_message : ℕ → Text
sftp_message ev =
    if ev == Fx.ok
    then bytes_of "no error"
    else if ev == Fx.eof
    then bytes_of "end of file"
    else if ev == Fx.no_such_file
    then bytes_of "no such file"
    else if ev == Fx.permission_denied
    then bytes_of "permission denied"
    else if ev == Fx.failure
    then bytes_of "failure"
    else if ev == Fx.bad_message
    then bytes_of "bad message"
    else if ev == Fx.no_connection
    then bytes_of "no connection"
    else if ev == Fx.connection_lost
    then bytes_of "connection lost"
    else if ev == Fx.op_unsupported
    then bytes_of "operation unsupported"
    else if ev == Fx.invalid_handle
    then bytes_of "invalid handle"
    else if ev == Fx.no_such_path
    then bytes_of "no such path"
    else if ev == Fx.file_already_exists
    then bytes_of "file already exists"
    else if ev == Fx.write_protect
    then bytes_of "write protected"
    else if ev == Fx.no_media
    then bytes_of "no media"
    else bytes_of "unknown error"

abbrev pub ssh_name : Text
ssh_name = bytes_of "libssh"

abbrev pub sftp_name : Text
sftp_name = bytes_of "libssh.sftp"

-- `p` holds of all numbers below `n`.
all_below : ℕ → (ℕ → Bool) → Bool
all_below zero p = true
all_below (suc n) p = p n && all_below n p

all_below_sound : (n : ℕ) (p : ℕ → Bool) (k : ℕ) → all_below n p ≡ true → k < n → p k ≡ true
unfolding all_below
all_below_sound zero p k h lt = absurd (omega arith)
all_below_sound (suc n) p k h lt = ground (arith, all_below_sound n p k)

same_bytes_eq : (a : List ℕ) → same_bytes a a ≡ true
same_bytes_eq [] = refl
same_bytes_eq (x ∷ xs) = ground (arith, same_bytes_eq xs)

-- The texts of two of the numbers that the category has differ.
differ : ℕ → ℕ → Bool
differ a b = (a == b) || not (same_bytes (sftp_message a) (sftp_message b))

all_differ : all_below 14 (λ a. all_below 15 (differ a)) ≡ true
unfolding all_below differ sftp_message
all_differ = refl

unknown_lem : (b : ℕ) → 14 ≤ b → sftp_message b ≡ sftp_message 14
unfolding sftp_message
unknown_lem b h = ground arith

differ→eq : (a b : ℕ) → differ a b ≡ true → sftp_message a ≡ sftp_message b → a ≡ b
unfolding differ
differ→eq a b h e = elim (Bool-cases (a == b)) [
  | inl same ↦ (==_iff a b).0 same
  | inr other ↦ absurd (cc (h, other, same_bytes_eq (sftp_message a), e))
]

-- The text of each number that the SFTP category has is the text of no other number, be it one that the
-- category has or not.
pub sftp_message_injective : (a b : ℕ) → a < 14 → sftp_message a ≡ sftp_message b → a ≡ b
sftp_message_injective a b h e = elim (dec_lt b 15) [
  | yes small ↦
      differ→eq a b
        (all_below_sound 15 (differ a) b
          (all_below_sound 14 (λ x. all_below 15 (differ x)) a all_differ h) small)
        e
  | no large ↦
      let e' = e ∙ unknown_lem b (omega arith) in
      absurd (
        omega (
          arith,
          differ→eq a 14
              (all_below_sound 15 (differ a) 14
                (all_below_sound 14 (λ x. all_below 15 (differ x)) a all_differ h) (omega arith))
              e',
        ))
]
