-- ===== src/Operations/Moving.antt =====
-- Moving the objects of include/corosh/sftp.hpp: `file` and `dir` by their default move constructors, and
-- `session` by its own.
use corosh.Base.{ℕ, suc, ◌≡◌, refl, Bool, true, false, List, [], none}
use corosh.Errors.{ErrorCode}
use corosh.Requests as R
use corosh.Queue.{Queue, done, complete_request}
use corosh.Exchange.{Client, Waits}
use corosh.Directory.{code_returned}
use corosh.Operations.{Opened, call, close, closed_by, new_status}

-- `explicit operator bool`
abbrev pub is_set : Opened → Bool
is_set o = o.in_session

-- The new object, and the one that it is made from: the pointer `sess_` is copied. What is left of the text
-- `handle_` is a parameter, since the standard library does not say it.
unfoldable pub move_opened : List ℕ → Opened → Opened × Opened
move_opened left rhs = (rhs, record rhs { handle = left })

-- A response queue as it is made.
abbrev pub new_queue : Queue
new_queue = record { first = none; last = none; request_id_gen = 0; cells = λ a. none }

-- The queue of `session` is not among the members that its move constructor takes over, so that the new session has
-- a new one; the memory is the same. What is left of the stream is a parameter.
unfoldable pub move_session : {S : Type 0} → S → Client S → Client S × Client S
move_session left rhs = (
  record rhs { queue = record new_queue { cells = rhs.queue.cells } },
  record rhs { buffer = []; stream = left },
)

module _ {S : Type 0} (eof : ErrorCode) (w : Waits S) (rounds fuel a : ℕ) (small : List ℕ) where
  -- A file or a directory that was moved from still counts as open, and its `close` asks the server to close
  -- whatever is left of the handle.
  pub close-move_opened :
      (left hd : List ℕ) (c : Client S)
      → let (new, old) = move_opened left (record { in_session = true; handle = hd }) in
        (new.handle ≡ hd)
        × (is_set new ≡ true)
        × (is_set old ≡ true)
        × (close eof w rounds fuel a small old c
            ≡ call eof w rounds fuel a small
                (R.close left)
                new_status
                (λ r. (code_returned r, closed_by r old))
                c)
  unfolding move_opened close
  close-move_opened left hd c = (refl, refl, refl, refl)

-- Responses that wait while a session is moved are lost to the new one: whatever request a packet names, the new session
-- finds no response for it, and its numbers of requests begin again.
pub complete_request-move_session :
    {S : Type 0} (eof : ErrorCode) (fuel : ℕ) (left : S) (c : Client S) (id type : ℕ)
    (ec : ErrorCode) (payload : List ℕ)
    → (complete_request eof (suc fuel) id type ec payload (move_session left c).0.queue
        ≡ done (false, (move_session left c).0.queue))
      × ((move_session left c).0.queue.request_id_gen ≡ 0)
unfolding move_session complete_request
complete_request-move_session eof fuel left c id type ec payload = (refl, refl)
