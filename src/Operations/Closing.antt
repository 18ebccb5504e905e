-- ===== src/Operations/Closing.antt =====
-- Closing a file or a directory of the client.
use corosh.Base.{
  ℕ, suc, ◌+◌, ◌^◌, ◌<◌, ◌≡◌, refl, ap, ◌∙◌, true, Bool, List, [], none, length, drop,
}
use corosh.Errors.{ErrorCode, no_error}
use corosh.Errors.Conditions.{Condition}
use corosh.Requests.{to_write}
use corosh.Requests.Packets.{close_call, request}
use corosh.Queue.{Queue, done, ◌>>=◌}
use corosh.Server.{Handlers, serve_packet}
use corosh.Server.Status.{status_of}
use corosh.Exchange.{Client, Waits}
use corosh.Exchange.Answers.{Connected}
use corosh.Exchange.Served.{reply_bytes, learned, operation-served}
use corosh.Directory.{code_returned}
use corosh.Operations.{Opened, blank_status, nothing_open, closed_by, close}

module _ {S T : Type 0} (eof : ErrorCode) (w : Waits S) (is : ErrorCode → Condition → Bool)
    (message : ErrorCode → List ℕ) (h : Handlers T) where
  -- `close` of an open file or directory, alone on a connection with nothing buffered and a queue without `last`,
  -- at whose other end a worker answers, calls the handler with its handle and returns what that reports, as
  -- the number of an error in the SFTP category; the object is closed then, whatever was reported, and a
  -- further `close` succeeds and does nothing. This holds for handles and messages that fit the protocol, and
  -- a number that fits 32 bits.
  pub close-served :
      {sent : List ℕ → S → S} {replies : S → List ℕ} (con : Connected w sent replies)
      (rounds fuel a : ℕ) (small buffer : List ℕ) (q : Queue) (s : S) (t u : T) (hd : List ℕ)
      (reported : ErrorCode)
      → q.last ≡ none
      → length small ≡ 1024
      → replies (sent (to_write (request (close_call hd)) q.request_id_gen small) s)
        ≡ reply_bytes (
            serve_packet is message h buffer
              (drop 4 (to_write (request (close_call hd)) q.request_id_gen small))
              t)
      → h.close hd t ≡ (reported, u)
      → length hd < 2 ^ 32
      → q.request_id_gen < 2 ^ 32
      → status_of is message reported < 2 ^ 32
      → length (message reported) + 21 < 2 ^ 32
      → (d : Client S) × (close eof w
            (suc (suc rounds))
            (suc fuel)
            a
            small
            (record { in_session = true; handle = hd })
            (record { queue = q; buffer = []; stream = s })
          ≡ done (((learned is message reported).ec, nothing_open), d))
        × (close eof w (suc (suc rounds)) (suc fuel) a small nothing_open d
            ≡ done ((no_error, nothing_open), d))
  unfolding close request
  close-served {sent} {replies} con rounds fuel a small buffer q s t u hd reported idle small_size
        arrives closes hh hid in_range short =
      let told : (h.close hd t).0 ≡ reported = ap (λ r. r.0) closes in
      let o : Opened = record { in_session = true; handle = hd } in
      let (d, runs) =
        operation-served eof w is message h sent replies rounds fuel a (close_call hd) (h.close hd)
          blank_status small buffer q s t con idle refl small_size arrives refl hh hid
          (rw closes in_range) (rw closes short) in
      (
        d,
        ap (λ r. r >>= λ x. done ((code_returned x.0, closed_by x.0 o), x.1)) runs
            ∙ ap (λ r. done (((learned is message r).ec, nothing_open), d)) told,
        refl,
      )
