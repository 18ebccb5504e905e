-- ===== src/Operations/Calls.antt =====
-- Operations of the client that open something or look it up, over all requests of a kind, against the worker and
-- its handlers.
use corosh.Base.{
  ℕ, suc, ◌+◌, ◌^◌, ◌<◌, ◌≡◌, refl, ap, ◌∙◌, true, false, Bool, List, [], none, some, length,
  if◌then◌else◌,
}
use corosh.Errors.{ErrorCode, no_error, failed, sftp_error}
use corosh.Errors.Conditions.{Condition}
use corosh.Attributes.{Attributes, no_attributes, has, attr_extended}
use corosh.Attributes.Bytes.{InRange, on_wire}
use corosh.Requests.Packets.{Call, request}
use corosh.Queue.{Queue, done, ◌>>=◌}
use corosh.Server.{Handlers}
use corosh.Server.Status.{status_of}
use corosh.Server.Lookups as L
use corosh.Exchange.{Client, Waits}
use corosh.Exchange.Answers.{Connected}
use corosh.Operations as O
use corosh.Operations.{
  Opened, nothing_open, new_handle, new_attrs, new_name, handle_returned, attrs_returned,
  name_returned,
}
use corosh.Operations.Lookups.{
  client, Arrives, Reportable, operation-lookup, handle_completed, attrs_completed, name_completed,
}

module _ (is : ErrorCode → Condition → Bool) (message : ErrorCode → List ℕ) where
  -- The code that the caller gets for an error of the handler.
  abbrev pub told : ErrorCode → ErrorCode
  told reported = sftp_error (status_of is message reported)

  -- What the caller gets: an object with the handle, the attributes as far as they are announced, or the name,
  -- or, if the handler reports an error, that error's number in the SFTP category.
  abbrev pub opened : ErrorCode → List ℕ → ErrorCode × Opened
  opened reported hd =
      if failed reported
      then (told reported, nothing_open)
      else (no_error, record { in_session = true; handle = hd })

  abbrev pub described : ErrorCode → Attributes → ErrorCode × Attributes
  described reported b =
      if failed reported then (told reported, no_attributes) else (no_error, on_wire b)

  abbrev pub named : ErrorCode → List ℕ → ErrorCode × List ℕ
  named reported n = if failed reported then (told reported, []) else (no_error, n)

module _ {S T : Type 0} (eof : ErrorCode) (w : Waits S) (is : ErrorCode → Condition → Bool)
    (message : ErrorCode → List ℕ) (h : Handlers T) {sent : List ℕ → S → S} {replies : S → List ℕ}
    (con : Connected w sent replies) (rounds fuel a : ℕ) (small : List ℕ) (q : Queue) (s : S)
    (buffer : List ℕ) (t : T) (idle : q.last ≡ none) (small_size : length small ≡ 1024)
    (hid : q.request_id_gen < 2 ^ 32) where
  abbrev pub alone : Client S
  alone = client eof w is message h con rounds fuel a small q s buffer t idle small_size hid

  -- A worker at the other end answers the request.
  abbrev pub Replied : Call → Type 0
  Replied = Arrives eof w is message h con rounds fuel a small q s buffer t idle small_size hid

  -- The number and the text of what the handler reports fit a packet.
  abbrev pub Told : ErrorCode → Type 0
  Told = Reportable eof w is message h con rounds fuel a small q s buffer t idle small_size hid

  -- An operation of the kind, over any of its requests.
  pub handle_call :
      (c : Call) (reported : ErrorCode) (hd : List ℕ) (u : T)
      → Replied c
      → L.lookup h c t ≡ some ((reported, L.handle hd), u)
      → L.Asked c
      → length hd + 13 < 2 ^ 32
      → Told reported
      → (d : Client S) × (O.call eof w
            (suc (suc rounds))
            (suc fuel)
            a
            small
            (request c)
            new_handle
            handle_returned
            alone
          ≡ done (opened is message reported hd, d))
  handle_call c reported hd u arrives found asked carried short =
      let (d, runs) =
        operation-lookup eof w is message h con rounds fuel a small q s buffer t idle small_size hid
          c new_handle ((reported, L.handle hd), u) refl arrives found asked carried short in
      (
        d,
        ap (λ r. r >>= λ x. done (handle_returned x.0, x.1)) runs
            ∙ ap (λ y. done (y, d))
                (handle_completed eof w is message h con rounds fuel a small q s buffer t idle
                  small_size hid reported hd carried short),
      )

  -- An operation of the kind, over any of its requests.
  pub attrs_call :
      (c : Call) (reported : ErrorCode) (b : Attributes) (u : T)
      → Replied c
      → L.lookup h c t ≡ some ((reported, L.attrs b), u)
      → L.Asked c
      → InRange b
      → has b.flags attr_extended ≡ false
      → Told reported
      → (d : Client S) × (O.call eof w
            (suc (suc rounds))
            (suc fuel)
            a
            small
            (request c)
            new_attrs
            attrs_returned
            alone
          ≡ done (described is message reported b, d))
  attrs_call c reported b u arrives found asked ok plain short =
      let (d, runs) =
        operation-lookup eof w is message h con rounds fuel a small q s buffer t idle small_size hid
          c new_attrs ((reported, L.attrs b), u) refl arrives found asked (ok, plain) short in
      (
        d,
        ap (λ r. r >>= λ x. done (attrs_returned x.0, x.1)) runs
            ∙ ap (λ y. done (y, d))
                (attrs_completed eof w is message h con rounds fuel a small q s buffer t idle
                  small_size hid reported b ok plain short),
      )

  -- An operation of the kind, over any of its requests.
  pub name_call :
      (c : Call) (reported : ErrorCode) (n : List ℕ) (u : T)
      → Replied c
      → L.lookup h c t ≡ some ((reported, L.name n), u)
      → L.Asked c
      → length n + 25 < 2 ^ 32
      → Told reported
      → (d : Client S) × (O.call eof w
            (suc (suc rounds))
            (suc fuel)
            a
            small
            (request c)
            new_name
            name_returned
            alone
          ≡ done (named is message reported n, d))
  name_call c reported n u arrives found asked carried short =
      let (d, runs) =
        operation-lookup eof w is message h con rounds fuel a small q s buffer t idle small_size hid
          c new_name ((reported, L.name n), u) refl arrives found asked carried short in
      (
        d,
        ap (λ r. r >>= λ x. done (name_returned x.0, x.1)) runs
            ∙ ap (λ y. done (y, d))
                (name_completed eof w is message h con rounds fuel a small q s buffer t idle
                  small_size hid reported n carried short),
      )
