-- ===== src/File.antt =====
-- The overloads of `file::read_some_at` and `write_some_at` over buffer sequences, include/corosh/sftp.hpp from
-- line 157 on, which differ in the operation on a part only. Of a buffer its size is kept.
pub mod Parts
use corosh.Base.{ℕ, ◌+◌, ◌%◌, ◌^◌, not, ◌&&◌, List, [], ◌∷◌, if◌then◌else◌}
use corosh.Errors.{ErrorCode, no_error, failed}

-- `tasks`: the offset and the size of each part.
unfoldable pub tasks : ℕ → List ℕ → List (ℕ × ℕ)
tasks offset [] = []
tasks offset (size ∷ mb) = (offset, size) ∷ tasks ((offset + size) % 2 ^ 64) mb

-- The loop over the results, with `ec` and `n`.
unfoldable pub collect : List (ErrorCode × ℕ) → ErrorCode → ℕ → ErrorCode × ℕ
collect [] ec n = (ec, n)
collect ((ec_, n_) ∷ r) ec n =
    collect r (if failed ec_ && not (failed ec) then ec_ else ec) (n + n_)

-- `when_all` runs the operations on the parts: a parameter, which gives their results in order.
module _ {S : Type 0} (when_all : List (ℕ × ℕ) → S → List (ErrorCode × ℕ) × S) where
  unfoldable pub some_at : ℕ → List ℕ → S → (ErrorCode × ℕ) × S
  unfolding tasks collect
  some_at offset mb s =
      let (r, s') = when_all (tasks offset mb) s in
      let (ec, n) = collect r no_error 0 in ((no_error, n), s')
