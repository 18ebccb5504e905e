-- ===== src/Directory/Batches.antt =====
-- What reading a directory returns, and when the server is asked.
use mathlib.Core.List.{map}
use corosh.Base.{
  ℕ, suc, ◌+◌, ◌^◌, ◌<◌, ◌≡◌, refl, ap, true, false, List, [], ◌∷◌, ◌++◌, none, length, ◌==◌,
  if◌then◌else◌, arith,
}
use corosh.Errors.{ErrorCode, no_error, sftp_error}
use corosh.Fxp
use corosh.Wire.{bytes_u32}
use corosh.Wire.Reads.{Reads-take_u32}
use corosh.Requests.{to_write, readdir}
use corosh.Requests.Packets.{packet, str_bytes}
use corosh.Responses.{Entry, DirEntry, dir_entry, complete, complete_dir_entry}
use corosh.Responses.Parsed.{
  status_body, entries_bytes, entry_on_wire, Fits, All, complete_dir_entry-entries_bytes,
}
use corosh.Queue.{Queue, done, destroy}
use corosh.Exchange.{Client, Waits}
use corosh.Exchange.Answers.{Connected, exchange-answered}
use corosh.Directory.{no_entry, do_read, read, reads, take_front}

abbrev pub success : Entry → ErrorCode × Entry
success e = (no_error, e)

length-map : (f : Entry → Entry) (es : List Entry) → length (map f es) ≡ length es
length-map f [] = refl
length-map f (e ∷ es) = ap suc (length-map f es)

dir_entry-status_body :
    (error : ℕ) (text tag : List ℕ) (r : DirEntry)
    → error < 2 ^ 32
    → complete_dir_entry no_error Fxp.status (status_body error text tag) r ≡ record {
      completed = true;
      ec = if error == 0 then no_error else sftp_error error;
      entries = r.entries;
    }
unfolding complete_dir_entry
dir_entry-status_body error text tag r h =
    rw ((Reads-take_u32 error h).at (str_bytes text ++ str_bytes tag)) (ground arith)

module _ {S : Type 0} (eof : ErrorCode) (w : Waits S) where
  -- Files that are in the buffer come out in order, without a word to the server.
  reads-buffer :
      (rounds fuel a : ℕ) (small handle : List ℕ) (es : List Entry) (c : Client S)
      → reads eof w
          (length es)
          rounds
          fuel
          a
          small
          (record { handle = handle; buffer = es; eof = false })
          c
        ≡ done (map success es, record { handle = handle; buffer = []; eof = false }, c)
  unfolding reads read
  reads-buffer rounds fuel a small handle [] c = refl
  reads-buffer rounds fuel a small handle (e ∷ es) c =
      rw (reads-buffer rounds fuel a small handle es c) refl

  do_read_lem :
      (sent : List ℕ → S → S) (replies : S → List ℕ) (rounds fuel a : ℕ) (small handle : List ℕ)
      (q : Queue) (s : S) (type : ℕ) (content rest : List ℕ) (r : DirEntry)
      → Connected w sent replies
      → q.last ≡ none
      → replies (sent (to_write (readdir handle) q.request_id_gen small) s)
        ≡ packet type q.request_id_gen content ++ rest
      → type < 256
      → q.request_id_gen < 2 ^ 32
      → length content + 9 < 2 ^ 32
      → complete_dir_entry no_error type content
          (record { completed = false; ec = no_error; entries = [] })
        ≡ r
      → (c : Client S) × (do_read eof w
            (suc (suc rounds))
            (suc fuel)
            a
            small
            (record { handle = handle; buffer = []; eof = false })
            (record { queue = q; buffer = []; stream = s })
          ≡ done (r.ec, record { handle = handle; buffer = r.entries; eof = false }, c))
        × (c.buffer ≡ rest)
        × (c.queue.last ≡ none)
  unfolding do_read complete
  do_read_lem sent replies rounds fuel a small handle q s type content rest r con idle arrives ht
        hid short parsed =
      let (c, runs, left, no_last, cell) =
        exchange-answered eof w sent replies rounds fuel a (readdir handle)
          (dir_entry (record { completed = false; ec = no_error; entries = [] })) small q s type
          content rest con idle refl arrives ht hid short in
      (record c { queue = destroy a c.queue }, rw runs (rw (cell, parsed) refl), left, no_last)

  read_lem :
      (rounds fuel a : ℕ) (small handle : List ℕ) (c d : Client S) (ec : ErrorCode)
      (es : List Entry)
      → do_read eof w rounds fuel a small (record { handle = handle; buffer = []; eof = false }) c
        ≡ done (ec, record { handle = handle; buffer = es; eof = false }, d)
      → read eof w rounds fuel a small (record { handle = handle; buffer = []; eof = false }) c ≡ (
          let (result, rest) =
            take_front ec (record { handle = handle; buffer = es; eof = false }) in
          done (result, rest, d))
  unfolding read
  read_lem rounds fuel a small handle c d ec es runs = rw runs refl

  -- As many reads of a directory whose buffer is empty as the server answers files in one batch,
  -- one at least, that the protocol can carry, alone on a connection with nothing buffered and a
  -- queue without `last`: the files come out one by one in order, without an error and with what
  -- the protocol carries of their attributes; and the client, with its stream, its queue and its
  -- numbers of requests, is then as one single request for a batch leaves it, so that the reads
  -- behind the first ask nothing of the server.
  pub reads-entries_bytes :
      (sent : List ℕ → S → S) (replies : S → List ℕ) (rounds fuel a : ℕ) (small handle : List ℕ)
      (q : Queue) (s : S) (e : Entry) (es : List Entry) (rest : List ℕ)
      → Connected w sent replies
      → q.last ≡ none
      → replies (sent (to_write (readdir handle) q.request_id_gen small) s)
        ≡ packet Fxp.name q.request_id_gen (bytes_u32 (length (e ∷ es)) ++ entries_bytes (e ∷ es))
          ++ rest
      → All Fits (e ∷ es)
      → length (e ∷ es) < 2 ^ 32
      → length (entries_bytes (e ∷ es)) + 13 < 2 ^ 32
      → q.request_id_gen < 2 ^ 32
      → (c : Client S) × (reads eof w
            (length (e ∷ es))
            (suc (suc rounds))
            (suc fuel)
            a
            small
            (record { handle = handle; buffer = []; eof = false })
            (record { queue = q; buffer = []; stream = s })
          ≡ done (
            map success (map entry_on_wire (e ∷ es)),
            record { handle = handle; buffer = []; eof = false },
            c,
          ))
        × (do_read eof w
              (suc (suc rounds))
              (suc fuel)
              a
              small
              (record { handle = handle; buffer = []; eof = false })
              (record { queue = q; buffer = []; stream = s })
            ≡ done (
              no_error,
              record { handle = handle; buffer = map entry_on_wire (e ∷ es); eof = false },
              c,
            ))
        × (c.buffer ≡ rest)
        × (c.queue.last ≡ none)
  unfolding reads
  reads-entries_bytes sent replies rounds fuel a small handle q s e es rest con idle arrives fit few
        short hid =
      let parsed =
        complete_dir_entry-entries_bytes (e ∷ es)
          (record { completed = false; ec = no_error; entries = [] }) (omega arith) few fit in
      let (c, runs, left, no_last) =
        do_read_lem sent replies rounds fuel a small handle q s Fxp.name
          (bytes_u32 (length (e ∷ es)) ++ entries_bytes (e ∷ es)) rest _ con idle arrives
          (omega arith) hid (omega arith) parsed in
      let first = read_lem (suc (suc rounds)) (suc fuel) a small handle _ c no_error _ runs in
      let behind =
        reads-buffer (suc (suc rounds)) (suc fuel) a small handle (map entry_on_wire es) c in
      (c, rw first (rw (rw (length-map entry_on_wire es) at behind) refl), runs, left, no_last)

  -- A read of a directory whose buffer is empty, alone on a connection with nothing buffered and a
  -- queue without `last`: where the server answers with a status that fits a packet (as at the end
  -- of the directory), the read returns its number in the SFTP category, or success if it is 0, in
  -- either case with an empty file, and the directory is as before: that its end was reached is not
  -- noted.
  pub read-status_body :
      (sent : List ℕ → S → S) (replies : S → List ℕ) (rounds fuel a : ℕ) (small handle : List ℕ)
      (q : Queue) (s : S) (error : ℕ) (text tag rest : List ℕ)
      → Connected w sent replies
      → q.last ≡ none
      → replies (sent (to_write (readdir handle) q.request_id_gen small) s)
        ≡ packet Fxp.status q.request_id_gen (status_body error text tag) ++ rest
      → error < 2 ^ 32
      → length (status_body error text tag) + 9 < 2 ^ 32
      → q.request_id_gen < 2 ^ 32
      → (c : Client S) × (read eof w
            (suc (suc rounds))
            (suc fuel)
            a
            small
            (record { handle = handle; buffer = []; eof = false })
            (record { queue = q; buffer = []; stream = s })
          ≡ done (
            (if error == 0 then no_error else sftp_error error, no_entry),
            record { handle = handle; buffer = []; eof = false },
            c,
          ))
        × (c.buffer ≡ rest)
        × (c.queue.last ≡ none)
  read-status_body sent replies rounds fuel a small handle q s error text tag rest con idle arrives
        in_range short hid =
      let parsed =
        dir_entry-status_body error text tag
          (record { completed = false; ec = no_error; entries = [] }) in_range in
      let (c, runs, left, no_last) =
        do_read_lem sent replies rounds fuel a small handle q s Fxp.status
          (status_body error text tag) rest _ con idle arrives (omega arith) hid short parsed in
      (c, read_lem (suc (suc rounds)) (suc fuel) a small handle _ c _ _ runs, left, no_last)
