-- ===== src/Server/Worker/Streams.antt =====
-- A worker on a stream of requests, against the handlers called one after the other.
use corosh.Base.{
  Option, ℕ, zero, suc, ◌+◌, ◌^◌, ◌≤◌, ◌<◌, ◌≡◌, refl, sym, ap, ◌∙◌, Bool, false, List, [], ◌∷◌,
  ◌++◌, append-nil, append_assoc, length, take, drop, take-append, drop-append, some, arith,
}
use corosh.Errors.{ErrorCode, no_error}
use corosh.Errors.Conditions.{Condition}
use corosh.Wire.{add_u32, size_field, match_packet}
use corosh.Poll.{Step, again}
use corosh.Poll.Loop.{Rounds, here, next}
use corosh.Requests.Packets.{Call, opcode, body, packet}
use corosh.Requests.Sent.{match_packet-packet, size_field-packet, length-packet}
use corosh.Server.{Handlers, reply, serve_packet}
use corosh.Server.Replies.{status_packet}
use corosh.Server.Requests.{action, Sound, serve_packet-request}
use corosh.Server.Worker.{Shared, Link, send, answer, worker_round}

-- The stream as one worker alone sees it: `incoming` is what is still to arrive, `outgoing` what has
-- been written. `read_until` takes as much as it likes from `incoming`, but at least up to the end of
-- the first packet.
pub record Alone {S T : Type 0} (link : Link S T) (incoming outgoing : S → List ℕ)
    (arrives : List ℕ → S → List ℕ × S) (sends : List ℕ → S → S) : Type 0 where
  pub running : (s : Shared S T) → link.stop_requested s ≡ false
  pub lock_read : (s : Shared S T) → link.lock_read s ≡ (no_error, s)
  pub lock_write : (s : Shared S T) → link.lock_write s ≡ (no_error, s)
  pub read_until :
      (buf : List ℕ) (s : Shared S T)
      → link.read_until buf s ≡ (
        (no_error, buf ++ (arrives buf s.stream).0),
        record s { stream = (arrives buf s.stream).1 },
      )
  pub write :
      (bytes : List ℕ) (s : Shared S T)
      → link.write bytes s ≡ (no_error, record s { stream = sends bytes s.stream })
  pub arrives_in_order :
      (buf : List ℕ) (t : S) → (arrives buf t).0 ++ incoming (arrives buf t).1 ≡ incoming t
  pub arrives_enough :
      (buf : List ℕ) (t : S) (n : ℕ)
      → match_packet (buf ++ incoming t) ≡ some n
      → n ≤ length (buf ++ (arrives buf t).0)
  pub arrives_only : (buf : List ℕ) (t : S) → outgoing (arrives buf t).1 ≡ outgoing t
  pub sends_all : (bytes : List ℕ) (t : S) → outgoing (sends bytes t) ≡ outgoing t ++ bytes
  pub sends_only : (bytes : List ℕ) (t : S) → incoming (sends bytes t) ≡ incoming t

-- A prefix that is long enough to hold the first of two parts.
split_front :
    (xs ys ps rs : List ℕ)
    → xs ++ ys ≡ ps ++ rs
    → length ps ≤ length xs
    → (r : List ℕ) × (xs ≡ ps ++ r) × (r ++ ys ≡ rs)
split_front xs ys [] rs e le = (xs, refl, e)
split_front [] ys (p ∷ ps) rs e le = absurd (omega arith)
split_front (x ∷ xs) ys (p ∷ ps) rs e le =
    let (r, front, behind) = split_front xs ys ps rs (cc e) (omega arith) in
    (r, cc (e, front), behind)

module _ {S T : Type 0} (canceled : ErrorCode) (is : ErrorCode → Condition → Bool)
    (message : ErrorCode → List ℕ) (h : Handlers T) (link : Link S T)
    {incoming outgoing : S → List ℕ} {arrives : List ℕ → S → List ℕ × S} {sends : List ℕ → S → S}
    (alone : Alone link incoming outgoing arrives sends) where
  send_reply :
      (bytes : List ℕ) (u : T) (s : Shared S T)
      → send canceled is message h link (reply bytes u) s
        ≡ again (record s { stream = sends bytes s.stream; server = u })
  unfolding send
  send_reply bytes u s =
      rw (alone.lock_write (record s { server = u }))
        (rw (alone.write bytes (record s { server = u })) refl)

  answer-packet :
      (type id : ℕ) (content rest bytes : List ℕ) (u : T) (s : Shared S T)
      → length content + 9 < 2 ^ 32
      → ((buffer : List ℕ)
          → serve_packet is message h buffer (drop 4 (packet type id content)) s.server
            ≡ reply bytes u)
      → answer canceled is message h link (packet type id content ++ rest) s
        ≡ again (record { buffer = rest; stream = sends bytes s.stream; server = u })
  unfolding answer
  answer-packet type id content rest bytes u s short serves =
      let p = packet type id content in
      let my = p ++ rest in
      let size = size_field-packet type id content rest short in
      let wrapped : add_u32 (size_field my) 4 ≡ length p =
        omega (arith, size, length-packet type id content) in
      let plain : size_field my + 4 ≡ length p =
        omega (arith, size, length-packet type id content) in
      let run : List ℕ → List ℕ → Step (Shared S T) (Option ErrorCode) = λ frame left.
        send canceled is message h link (serve_packet is message h my (drop 4 frame) s.server)
          (record s { buffer = left }) in
      ap (λ n. run (take n my) (drop (size_field my + 4) my)) wrapped
      ∙ ap (λ n. run (take (length p) my) (drop n my)) plain
      ∙ ap (λ frame. run frame (drop (length p) my)) (take-append p rest)
      ∙ ap (λ left. run p left) (drop-append p rest)
      ∙ ap (λ o. send canceled is message h link o (record s { buffer = rest })) (serves my)
      ∙ send_reply bytes u (record s { buffer = rest })

  -- One request, at the front of what is buffered and still to arrive.
  round-packet :
      (type id : ℕ) (content rest bytes : List ℕ) (u : T) (s : Shared S T)
      → length content + 9 < 2 ^ 32
      → ((buffer : List ℕ)
          → serve_packet is message h buffer (drop 4 (packet type id content)) s.server
            ≡ reply bytes u)
      → s.buffer ++ incoming s.stream ≡ packet type id content ++ rest
      → (r : Shared S T) × (worker_round canceled is message h link s ≡ again r)
        × (r.server ≡ u)
        × (r.buffer ++ incoming r.stream ≡ rest)
        × (outgoing r.stream ≡ outgoing s.stream ++ bytes)
  unfolding worker_round
  round-packet type id content rest bytes u s short serves ahead =
      let p = packet type id content in
      let (taken, t) = arrives s.buffer s.stream in
      let matched : match_packet (s.buffer ++ incoming s.stream) ≡ some (length p) =
        rw ahead (match_packet-packet type id content rest short) in
      let whole : (s.buffer ++ taken) ++ incoming t ≡ p ++ rest =
        append_assoc s.buffer taken (incoming t)
        ∙ ap (λ l. s.buffer ++ l) (alone.arrives_in_order s.buffer s.stream)
        ∙ ahead in
      let (r, front, behind) =
        split_front (s.buffer ++ taken) (incoming t) p rest whole
          (alone.arrives_enough s.buffer s.stream (length p) matched) in
      let read = record s { stream = t } in
      (
        record { buffer = r; stream = sends bytes t; server = u },
        rw (alone.running s, alone.lock_read s)
            (rw (alone.read_until s.buffer s) (
              ap (λ my. answer canceled is message h link my read) front
              ∙ answer-packet type id content r bytes u read short serves)),
        refl,
        ap (λ l. r ++ l) (alone.sends_only bytes t) ∙ behind,
        alone.sends_all bytes t ∙ ap (λ l. l ++ bytes) (alone.arrives_only s.buffer s.stream),
      )

  -- What the server promises for a stream of requests that ask for a status: in the order of the requests
  -- each handler is called on the state that the one before has left, and each reply follows the one
  -- before. The numbers are those of the requests, the bytes the requests and the replies.
  pub data Serves : ℕ → T → List ℕ → List ℕ → T → Type 0 where
    nothing : (t : T) → Serves zero t [] [] t
    request_served :
        {n : ℕ} {t u : T} {requests replies : List ℕ} (c : Call) (act : T → ErrorCode × T) (id : ℕ)
        → action h c ≡ some act
        → Sound c
        → id < 2 ^ 32
        → length (body c) + 9 < 2 ^ 32
        → length (message (act t).0) + 21 < 2 ^ 32
        → Serves n (act t).1 requests replies u
        → Serves
            (suc n)
            t
            (packet (opcode c) id (body c) ++ requests)
            (status_packet is message id (act t).0 ++ replies)
            u

  -- A worker alone on a stream, with the bytes of requests that ask for a status, with arguments
  -- and messages that fit the protocol, in its buffer or still to arrive: however the bytes come
  -- in, it goes round once for each request, calls the handlers in the order of the requests, each
  -- on the state that the one before has left, and writes the replies in that order; no byte is
  -- left over.
  pub worker_round-Serves :
      {n : ℕ} {t u : T} {requests replies : List ℕ} (s : Shared S T)
      → Serves n t requests replies u
      → s.server ≡ t
      → s.buffer ++ incoming s.stream ≡ requests
      → (r : Shared S T) × Rounds (worker_round canceled is message h link) n s r
        × (r.server ≡ u)
        × (r.buffer ++ incoming r.stream ≡ [])
        × (outgoing r.stream ≡ outgoing s.stream ++ replies)
  worker_round-Serves s (nothing t) state ahead =
      (s, here s, state, ahead, sym (append-nil (outgoing s.stream)))
  worker_round-Serves s
        (request_served {t = t} {requests = requests} {replies = replies} c act id means ok hid
          small short rest)
        state ahead =
      let serves : (buffer : List ℕ)
          → serve_packet is message h buffer (drop 4 (packet (opcode c) id (body c))) s.server
            ≡ reply (status_packet is message id (act t).0) (act t).1 =
        λ buffer.
          rw state (serve_packet-request is message h c act buffer id t means ok hid short) in
      let (r, one, server, left, sent) =
        round-packet (opcode c) id (body c) requests _ _ s small serves ahead in
      let (z, more, end, none_left, all) = worker_round-Serves r rest server left in
      (
        z,
        next one more,
        end,
        none_left,
        all ∙ ap (λ l. l ++ replies) sent ∙ append_assoc (outgoing s.stream) _ replies,
      )
