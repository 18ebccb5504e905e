-- ===== src/Examples/Exchanges.antt =====
-- Operations of the client over wires at whose other end each write is answered at once.
use corosh.Base.{ℕ, ◌≡◌, refl, List, [], ◌∷◌, ◌++◌, none, drop, arith}
use corosh.Errors.{no_error}
use corosh.Fxp
use corosh.Wire.{bytes_u32}
use corosh.Requests.Packets.{unlink_call, request}
use corosh.Responses.{status}
use corosh.Queue.{Queue, done, fault, complete_request}
use corosh.Server.{serve_packet}
use corosh.Exchange.{Client, Waits, answered, early, operation}
use corosh.Exchange.Answers.{Connected}
use corosh.Exchange.Served.{reply_bytes}
use corosh.Exchange.Defects.{operation_short_packet, operation-failed_write}
use corosh.Examples.Protocol.{
  eof, path, garbage, waiting_status, is_none, no_text, counting, disk_full,
}

-- The state of the stream is what has arrived.
abbrev pub wires : (List ℕ → List ℕ) → Waits (List ℕ)
wires answer = record {
  lock_write = λ c. (no_error, c);
  write = λ bytes c. (no_error, record c { stream = answer bytes });
  lock_read = λ c. (no_error, c);
  read_until = λ c. (no_error, record c { buffer = c.buffer ++ c.stream });
}

pub wires-Connected :
    (answer : List ℕ → List ℕ) → Connected (wires answer) (λ bytes s. answer bytes) (λ s. s)
wires-Connected answer = record {
  lock_write = λ c. refl;
  lock_read = λ c. refl;
  write = λ bytes c. refl;
  read_until = λ c. refl;
}

abbrev pub idle : Queue
idle = record { first = none; last = none; request_id_gen = 5; cells = λ a. none }

abbrev client : Client (List ℕ)
client = record { queue = idle; buffer = []; stream = [] }

-- The worker answers.
abbrev pub worker : List ℕ → List ℕ
worker bytes = reply_bytes (serve_packet is_none no_text counting garbage (drop 4 bytes) 0)

-- A packet of one byte.
abbrev runt : List ℕ → List ℕ
runt bytes = bytes_u32 1 ++ (101 ∷ [])

operation_short_packet_example :
    (c : Client (List ℕ)) × (operation eof
        (wires runt)
        4
        3
        10
        (request (unlink_call path))
        (status waiting_status)
        garbage
        client
      ≡ done (answered (status waiting_status), c))
    × (c.buffer ≡ 0 ∷ 0 ∷ 0 ∷ 1 ∷ 101 ∷ [])
operation_short_packet_example =
    operation_short_packet eof (wires runt) (λ bytes s. runt bytes) (λ s. s) 2 3 10
      (request (unlink_call path)) (status waiting_status) garbage idle [] 1 (101 ∷ [])
      (wires-Connected runt) refl refl refl (omega arith)

abbrev cut : Waits (List ℕ)
cut = record (wires runt) { write = λ bytes c. (disk_full, record c { stream = [] }) }

operation-failed_write_example :
    (c : Client (List ℕ)) × (operation eof cut 4 3 10
        (request (unlink_call path))
        (status waiting_status)
        garbage
        client
      ≡ done (early disk_full, c))
    × (complete_request eof 4 6 Fxp.status no_error [] c.queue ≡ fault)
operation-failed_write_example =
    operation-failed_write eof cut 4 3 10 (request (unlink_call path)) (status waiting_status)
      garbage idle [] [] disk_full 6 Fxp.status no_error [] refl (λ c. refl) (λ bytes c. refl) refl
