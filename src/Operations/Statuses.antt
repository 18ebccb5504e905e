-- ===== src/Operations/Statuses.antt =====
-- The operations whose reply is a status, against the worker and its handlers.
use corosh.Base.{
  ℕ, suc, ◌+◌, ◌^◌, ◌<◌, ◌≡◌, refl, ap, ◌∙◌, Bool, List, [], Option, none, some, length, drop,
}
use corosh.Errors.{ErrorCode}
use corosh.Errors.Conditions.{Condition}
use corosh.Requests.{to_write}
use corosh.Requests.Packets.{
  Call, request, unlink_call, mkdir_call, rmdir_call, rename_call, chmod_call, chown_call,
  symlink_call, hardlink_call, setstat_call,
}
use corosh.Queue.{Queue, Run, done, ◌>>=◌}
use corosh.Server.{Handlers, serve_packet}
use corosh.Server.Status.{status_of}
use corosh.Server.Requests.{action, Sound}
use corosh.Exchange.{Client, Waits}
use corosh.Exchange.Answers.{Connected}
use corosh.Exchange.Served.{reply_bytes, learned, operation-served}
use corosh.Directory.{code_returned}
use corosh.Operations.{
  blank_status, new_status, call, unlink, mkdir, rmdir, rename, chmod, chown, symlink, hardlink,
  setstat,
}

module _ {S : Type 0} (eof : ErrorCode) (w : Waits S) (rounds fuel a : ℕ) (small : List ℕ) where
  -- The operation for a request, for those of `session` that return a code alone.
  abbrev pub status_operation : Call → Option (Client S → Run (ErrorCode × Client S))
  status_operation (unlink_call path) = some (unlink eof w rounds fuel a small path)
  status_operation (mkdir_call path mode) = some (mkdir eof w rounds fuel a small path mode)
  status_operation (rmdir_call path) = some (rmdir eof w rounds fuel a small path)
  status_operation (rename_call old new) = some (rename eof w rounds fuel a small old new)
  status_operation (chmod_call path mode) = some (chmod eof w rounds fuel a small path mode)
  status_operation (chown_call path owner group) =
      some (chown eof w rounds fuel a small path owner group)
  status_operation (symlink_call target dest) = some (symlink eof w rounds fuel a small target dest)
  status_operation (hardlink_call old new) = some (hardlink eof w rounds fuel a small old new)
  status_operation (setstat_call path attr) = some (setstat eof w rounds fuel a small path attr)
  status_operation _ = none

  status_operation_lem :
      (c : Call) (run : Client S → Run (ErrorCode × Client S))
      → status_operation c ≡ some run
      → (s : Client S)
      → run s ≡ call eof w rounds fuel a small (request c) new_status code_returned s
  unfolding request unlink mkdir rmdir rename chmod chown symlink hardlink setstat
  status_operation_lem (unlink_call path) run e s = cc
  status_operation_lem (mkdir_call path mode) run e s = cc
  status_operation_lem (rmdir_call path) run e s = cc
  status_operation_lem (rename_call old new) run e s = cc
  status_operation_lem (chmod_call path mode) run e s = cc
  status_operation_lem (chown_call path owner group) run e s = cc
  status_operation_lem (symlink_call target dest) run e s = cc
  status_operation_lem (hardlink_call old new) run e s = cc
  status_operation_lem (setstat_call path attr) run e s = cc
  status_operation_lem _ run e s = absurd (cc e)

module _ {S T : Type 0} (eof : ErrorCode) (w : Waits S) (is : ErrorCode → Condition → Bool)
    (message : ErrorCode → List ℕ) (h : Handlers T) where
  -- An operation of `session` that returns a code alone (`unlink`, `mkdir`, `rmdir`, `rename`, `chmod`, `chown`,
  -- `symlink`, `hardlink`, `setstat`), alone on a connection with nothing buffered and a queue without
  -- `last`, at whose other end a worker answers, returns the number of the code that the handler
  -- meant reported for these arguments: success if the number is 0, and else that number in the SFTP
  -- category. This holds for arguments that fit the protocol, a number that fits 32 bits, and a message that
  -- fits a packet.
  pub status_operation-served :
      {sent : List ℕ → S → S} {replies : S → List ℕ} (con : Connected w sent replies)
      (rounds fuel a : ℕ) (c : Call) (run : Client S → Run (ErrorCode × Client S))
      (act : T → ErrorCode × T) (small buffer : List ℕ) (q : Queue) (s : S) (t : T)
      → status_operation eof w (suc (suc rounds)) (suc fuel) a small c ≡ some run
      → action h c ≡ some act
      → q.last ≡ none
      → length small ≡ 1024
      → replies (sent (to_write (request c) q.request_id_gen small) s)
        ≡ reply_bytes (
            serve_packet is message h buffer
              (drop 4 (to_write (request c) q.request_id_gen small))
              t)
      → Sound c
      → q.request_id_gen < 2 ^ 32
      → status_of is message (act t).0 < 2 ^ 32
      → length (message (act t).0) + 21 < 2 ^ 32
      → (d : Client S) × (run (record { queue = q; buffer = []; stream = s })
          ≡ done ((learned is message (act t).0).ec, d))
  status_operation-served {sent} {replies} con rounds fuel a c run act small buffer q s t performs
        means idle small_size arrives ok hid in_range short =
      let (d, runs) =
        operation-served eof w is message h sent replies rounds fuel a c act blank_status small
          buffer q s t con idle refl small_size arrives means ok hid in_range short in
      (
        d,
        status_operation_lem eof w (suc (suc rounds)) (suc fuel) a small c run performs
              (record { queue = q; buffer = []; stream = s })
            ∙ ap (λ r. r >>= λ x. done (code_returned x.0, x.1)) runs,
      )
