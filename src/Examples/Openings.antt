-- ===== src/Examples/Openings.antt =====
-- A client and a server that open a connection, and a directory of two files.
use mathlib.Core.List.{map}
use corosh.Base.{ℕ, ◌≡◌, refl, false, List, [], ◌∷◌, ◌++◌, none, arith}
use corosh.Base.Host.{little, big}
use corosh.Errors.{no_error, ssh_fatal}
use corosh.Attributes.{has}
use corosh.Fxp
use corosh.Wire.{bytes_u32}
use corosh.Requests.{bytes_of}
use corosh.Requests.Packets.{packet}
use corosh.Responses.Parsed.{entries_bytes, entry_on_wire}
use corosh.Queue.{done}
use corosh.Exchange.{Client}
use corosh.Handshake.{Pipe, Extensions, init, init_server, init_message}
use corosh.Handshake.Opening.{
  version_packet, first_value, init-version_packet, init_server-init_message,
}
use corosh.Directory.{Directory, reads, do_read}
use corosh.Directory.Batches.{success, reads-entries_bytes}
use corosh.Examples.Protocol.{eof, path, garbage, file_entry, file_entry-Fits}
use corosh.Examples.Exchanges.{wires, wires-Connected, idle}

abbrev pub extensions : Extensions
extensions = (bytes_of "a@b", bytes_of "1") ∷ []

-- The state is what has been written.
abbrev pub pipe : List ℕ → Pipe (List ℕ)
pipe arrives = record {
  write = λ bytes s. (no_error, s ++ bytes);
  read_until = λ buffer s. ((no_error, buffer ++ arrives), s);
}

init-version_packet_example :
    (map : Extensions) × (init (pipe (version_packet extensions ++ (7 ∷ []))) little [] ≡ (
      (
        no_error,
        record { buffer = 7 ∷ []; extensions = map; server_version = Fxp.libsftp_version },
      ),
      init_message little,
    ))
    × ((name : List ℕ) → first_value name map ≡ first_value name extensions)
init-version_packet_example =
    init-version_packet (pipe (version_packet extensions ++ (7 ∷ []))) little extensions (7 ∷ []) []
      (init_message little) (init_message little) (omega arith) refl refl

init_server-init_message_example :
    init_server (pipe (init_message big ++ [])) extensions [] ≡ (ssh_fatal, [])
init_server-init_message_example =
    init_server-init_message (pipe (init_message big ++ [])) big extensions [] [] [] (omega arith)
      refl

abbrev batch : List ℕ → List ℕ
batch bytes =
    packet Fxp.name 5 (bytes_u32 2 ++ entries_bytes (file_entry ∷ file_entry ∷ [])) ++ (9 ∷ [])

abbrev empty_directory : Directory
empty_directory = record { handle = path; buffer = []; eof = false }

abbrev reader : Client (List ℕ)
reader = record { queue = idle; buffer = []; stream = [] }

reads-entries_bytes_example :
    (c : Client (List ℕ)) × (reads eof (wires batch) 2 2 1 10 garbage empty_directory reader
      ≡ done (map success (map entry_on_wire (file_entry ∷ file_entry ∷ [])), empty_directory, c))
    × (do_read eof (wires batch) 2 1 10 garbage empty_directory reader
        ≡ done (
          no_error,
          record {
            handle = path;
            buffer = map entry_on_wire (file_entry ∷ file_entry ∷ []);
            eof = false;
          },
          c,
        ))
    × (c.buffer ≡ 9 ∷ [])
    × (c.queue.last ≡ none)
unfolding has
reads-entries_bytes_example =
    reads-entries_bytes eof (wires batch) (λ bytes s. batch bytes) (λ s. s) 0 0 10 garbage path idle
      [] file_entry (file_entry ∷ []) (9 ∷ []) (wires-Connected batch) refl refl
      (file_entry-Fits, (file_entry-Fits, tt)) (omega arith) (omega arith) (omega arith)
