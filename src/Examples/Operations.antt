-- ===== src/Examples/Operations.antt =====
-- Operations of the client that open, look up and close, at whose other end a worker answers each write.
use corosh.Base.{ℕ, ◌≡◌, refl, true, List, [], length-replicate, arith}
use corosh.Errors.{no_error}
use corosh.Server.Status.{status_of}
use corosh.Queue.{done}
use corosh.Exchange.{Client}
use corosh.Exchange.Served.{learned}
use corosh.Operations.{Opened, nothing_open, mkdir, open_file, close}
use corosh.Operations.Calls.{opened}
use corosh.Operations.Served.{open_file-served}
use corosh.Operations.Statuses.{status_operation-served}
use corosh.Requests.Packets.{mkdir_call}
use corosh.Operations.Closing.{close-served}
use corosh.Examples.Protocol.{disk_full, eof, path, garbage, is_none, no_text, counting}
use corosh.Examples.Exchanges.{wires, wires-Connected, idle, worker}

abbrev alone : Client (List ℕ)
alone = record { queue = idle; buffer = []; stream = [] }

status_operation-served_example :
    (d : Client (List ℕ)) × (mkdir eof (wires worker) 4 3 10 garbage path 493 alone
      ≡ done ((learned is_none no_text disk_full).ec, d))
unfolding status_of
status_operation-served_example =
    status_operation-served eof (wires worker) is_none no_text counting (wires-Connected worker) 2 2
      10 (mkdir_call path 493) (mkdir eof (wires worker) 4 3 10 garbage path 493)
      (counting.mkdir path 493) garbage garbage idle [] 0 refl refl refl
      (length-replicate {A = ℕ} 1024 170) refl (omega arith, omega arith) (omega arith)
      (omega arith) (omega arith)

open_file-served_example :
    (d : Client (List ℕ)) × (open_file eof (wires worker) 4 3 10 garbage path 1 0 alone
      ≡ done (opened is_none no_text no_error path, d))
unfolding status_of
open_file-served_example =
    open_file-served eof (wires worker) is_none no_text counting (wires-Connected worker) 2 2 10
      garbage idle [] garbage 0 refl (length-replicate {A = ℕ} 1024 170) (omega arith) path 1 0
      no_error path 1 refl refl (omega arith) (omega arith) (omega arith) (omega arith)
      (omega arith, omega arith)

abbrev open_one : Opened
open_one = record { in_session = true; handle = path }

close-served_example :
    (d : Client (List ℕ)) × (close eof (wires worker) 4 3 10 garbage open_one alone
      ≡ done (((learned is_none no_text no_error).ec, nothing_open), d))
    × (close eof (wires worker) 4 3 10 garbage nothing_open d ≡ done ((no_error, nothing_open), d))
unfolding status_of
close-served_example =
    close-served eof (wires worker) is_none no_text counting (wires-Connected worker) 2 2 10 garbage
      garbage idle [] 0 1 path no_error refl (length-replicate {A = ℕ} 1024 170) refl refl
      (omega arith) (omega arith) (omega arith) (omega arith)
