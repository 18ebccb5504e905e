-- ===== src/Examples/Servers.antt =====
-- Workers, sessions and channels at work.
use corosh.Base.{◌==◌, ◌&&◌}
use corosh.Poll.{World}
use corosh.Base.{
  ℕ, ◌≤◌, ◌≡◌, refl, true, false, Bool, List, [], ◌++◌, append-nil, some, length, arith,
  if◌then◌else◌,
}
use corosh.Errors.{no_error}
use corosh.Wire.{match_packet}
use corosh.Requests.Packets.{mkdir_call, unlink_call, opcode, body, packet}
use corosh.Poll.{rc_ok}
use corosh.Poll.Loop.{Rounds}
use corosh.Server.Replies.{status_packet}
use corosh.Server.Worker.{Shared, Link, worker_round}
use corosh.Server.Worker.Streams.{Alone, Serves, nothing, request_served, worker_round-Serves}
use corosh.Channel.Callbacks as R
use corosh.Channel.Callbacks.{Registry, add_callbacks}
use corosh.Channel.Callbacks.Registered.{Registers, destroy-add_callbacks}
use corosh.Examples.Protocol.{path, is_none, no_text, counting, disk_full}

-- The state of the stream: what is still to arrive, which comes all at once, and what has been written.
abbrev Ends : Type 0
Ends = List ℕ × List ℕ

abbrev link : Link Ends ℕ
link = record {
  stop_requested = λ s. false;
  lock_read = λ s. (no_error, s);
  read_until = λ buf s. ((no_error, buf ++ (s.stream).0), record s { stream = ([], (s.stream).1) });
  lock_write = λ s. (no_error, s);
  write = λ bytes s. (no_error, record s { stream = ((s.stream).0, (s.stream).1 ++ bytes) });
}

match_packet_fits : (l : List ℕ) (n : ℕ) → match_packet l ≡ some n → n ≤ length l
unfolding match_packet
match_packet_fits l n h = ground arith

link-Alone :
    Alone link (λ t. t.0) (λ t. t.1) (λ buf t. (t.0, ([], t.1))) (λ bytes t. (t.0, t.1 ++ bytes))
link-Alone = record {
  running = λ s. refl;
  lock_read = λ s. refl;
  lock_write = λ s. refl;
  read_until = λ buf s. refl;
  write = λ bytes s. refl;
  arrives_in_order = λ buf t. append-nil t.0;
  arrives_enough = λ buf t n h. match_packet_fits (buf ++ t.0) n h;
  arrives_only = λ buf t. refl;
  sends_all = λ bytes t. refl;
  sends_only = λ bytes t. refl;
}

abbrev two_requests : List ℕ
two_requests =
    packet (opcode (mkdir_call path 493)) 5 (body (mkdir_call path 493))
    ++ (packet (opcode (unlink_call path)) 6 (body (unlink_call path)) ++ [])

abbrev two_replies : List ℕ
two_replies =
    status_packet is_none no_text 5 disk_full ++ (status_packet is_none no_text 6 no_error ++ [])

two-Serves :
    Serves disk_full is_none no_text counting link link-Alone 2 0 two_requests two_replies 2
two-Serves =
    request_served (mkdir_call path 493) (counting.mkdir path 493) 5 refl (omega arith, omega arith)
      (omega arith) (omega arith) (omega arith)
      (request_served (unlink_call path) (counting.unlink path) 6 refl (omega arith) (omega arith)
        (omega arith) (omega arith) (nothing 2))

worker_round-Serves_example :
    (r : Shared Ends ℕ) × Rounds
      (worker_round disk_full is_none no_text counting link)
      2
      (record { buffer = []; stream = (two_requests, []); server = 0 })
      r
    × (r.server ≡ 2)
    × (r.buffer ++ (r.stream).0 ≡ [])
    × ((r.stream).1 ≡ [] ++ two_replies)
worker_round-Serves_example =
    worker_round-Serves disk_full is_none no_text counting link link-Alone
      (record { buffer = []; stream = (two_requests, []); server = 0 }) two-Serves refl
      (append-nil two_requests)

-- The state tells which channel has pointers to which object.
abbrev Pointers : Type 0
Pointers = ℕ → ℕ → Bool

abbrev pointing : World
pointing = record {
  State = Pointers;
  poll_flags = λ s. (0, s);
  error_code = λ s. 1;
  is_open = λ s. true;
  wait_read = λ s. (no_error, s);
  wait_write = λ s. (no_error, s);
  wait_both = λ s. (no_error, s);
  timer = λ s. (no_error, s);
}

abbrev assign : Bool → ℕ → ℕ → Pointers → Pointers
assign b c cb s d e = if (c == d) && (cb == e) then b else s d e

abbrev registry : Registry Pointers
registry = record {
  add = λ c cb s. (rc_ok, assign true c cb s);
  set = λ c cb s. (rc_ok, assign true c cb s);
  is_open = λ c s. true;
  remove = λ c cb s. assign false c cb s;
}

registry-Registers : Registers pointing registry (λ s. s)
registry-Registers = record {
  add = λ c cb s ok. ground arith;
  set = λ c cb s ok. ground arith;
  add_other = λ c d cb s differ. rw differ;
  set_other = λ c d cb s differ. rw differ;
  remove_other = λ c d cb s differ. rw differ;
}

destroy-add_callbacks_example :
    R.destroy pointing registry 7 (some 2) (assign true 2 7 (assign true 1 7 (λ c cb. false))) 1 7
    ≡ true
unfolding add_callbacks
destroy-add_callbacks_example =
    destroy-add_callbacks pointing registry (λ s. s) registry-Registers 1 2 7 true true
      (λ c cb. false) (assign true 1 7 (λ c cb. false)) refl refl
