-- ===== src/Examples/Files.antt =====
-- A server with one file, on a disk that gives four bytes at a time.
use corosh.Base.{
  ℕ, suc, ◌≡◌, refl, true, false, List, [], ◌∷◌, ◌++◌, none, some, length, take, drop, arith, ltb,
  same_bytes, if◌then◌else◌,
}
use corosh.Base.Int.{negsuc}
use corosh.Base.Text.{Text}
use corosh.Errors.{ErrorCode, no_error}
use corosh.Requests.{bytes_of}
use corosh.FileServer.{System, SftpServer, Stat, find, bad_file_descriptor, to_string}
use corosh.FileServer.Handles.{open_file, read_at, close}
use corosh.FileServer.Paths.{sftp_to_local, path}
use corosh.FileServer.Contents.{Readable}
use corosh.Fxp
use corosh.Requests.Packets.{write_at_call, read_at_call, body, packet}
use corosh.Server.{reply, serve_packet}
use corosh.Server.Replies.{status_packet}
use corosh.Attributes.{Attributes, no_attributes}
use corosh.FileServer.Named.{sftp_server, setstat, local}
use corosh.FileServer.Handles.{fsetstat}
use corosh.FileServer.Changes.{call_all, named_changes, open_changes, setstat-call_all}
use corosh.FileServer.Served.{serve_packet-write_at, serve_packet-read_at}
use corosh.Examples.Protocol.{is_none, no_text, disk_full, garbage}
use corosh.File.{tasks, some_at}
use corosh.File.Parts.{some_at-counts}
use corosh.FileServer.Written.{patch, Writable}
use corosh.FileServer.Opened.{IsServer, open_file-IsServer, close-IsServer}
use corosh.FileServer.Tables.{Made}
use corosh.FileServer.Sandbox.{rooted, sftp_to_local_escapes, sftp_to_local_below, NoneUp}

-- As many bytes as are asked for, but four at most.
abbrev at_most_four : ℕ → ℕ
at_most_four size = if ltb size 4 then size else 4

abbrev content : List ℕ
content = bytes_of "hello, world"

abbrev no_stat : Stat
no_stat = record { st_size = 0; st_uid = 0; st_gid = 0; st_mode = 0; st_atime = 0; st_mtime = 0 }

-- There are no directories, and no names but those of files.
abbrev disk_with : {S : Type 0} → (S → S) → (ℕ → List ℕ → S → (ErrorCode × ℕ) × S) → System S ℕ
disk_with closed write = record {
  open_file = λ p flags s. ((no_error, 3), s);
  close = λ fd s. closed s;
  read_some_at =
      λ fd offset size s. ((no_error, take (at_most_four size) (drop offset content)), s);
  write_some_at = λ fd offset bytes s. write offset bytes s;
  sync_all = λ fd s. (no_error, s);
  call = λ p s. (negsuc 0, s);
  stat = λ p s. ((negsuc 0, no_stat), s);
  lstat = λ p s. ((negsuc 0, no_stat), s);
  fstat = λ fd s. ((negsuc 0, no_stat), s);
  errno = λ s. 2;
  directory = λ p s. ((bad_file_descriptor, 0), s);
  at_end = λ d. true;
  filename = λ d. [];
  entry_path = λ d. rooted [];
  increment = λ d s. ((no_error, d), s);
  read_symlink = λ p s. ((bad_file_descriptor, []), s);
  weakly_canonical = λ p s. ((no_error, p), s);
  relative = λ p base s. p;
}

-- The state is the number of descriptors that have been closed.
abbrev disk : System ℕ ℕ
disk = disk_with suc (λ offset bytes s. ((no_error, length bytes), s))

-- The state is what the file holds.
abbrev paper : System (ℕ → ℕ) ℕ
paper =
    disk_with (λ s. s)
      (λ offset bytes s.
        let n = at_most_four (length bytes) in ((no_error, n), patch offset (take n bytes) s))

abbrev srv : List Text
srv = bytes_of "srv" ∷ bytes_of "sftp" ∷ []

abbrev file_server : SftpServer ℕ
file_server = record {
  handle_gen = 1;
  root_path = rooted srv;
  open_files = (bytes_of "1", 3) ∷ [];
  dirs = [];
}

disk-Readable : Readable disk 3 content
disk-Readable offset size s h = (
  refl,
  record {
    count = at_most_four size;
    some_of = ground arith;
    fits = ground arith;
    bytes_are = refl;
  },
)

file_server-IsServer : IsServer file_server
unfolding to_string Made
file_server-IsServer = record { files = ((1, omega arith, refl), tt); dirs = tt }

open_file-IsServer_example :
    (handle : Text) × (f' : SftpServer ℕ) × (open_file disk (bytes_of "new") 26 420 (file_server, 0)
      ≡ ((no_error, handle), (f', 0)))
    × (find handle file_server.open_files ≡ none)
    × (find handle f'.open_files ≡ some 3)
    × ((other : Text)
        → same_bytes handle other ≡ false
        → find other f'.open_files ≡ find other file_server.open_files)
    × (f'.dirs ≡ [])
    × IsServer f'
open_file-IsServer_example =
    open_file-IsServer disk (bytes_of "new") 26 420 file_server 0 0 3 file_server-IsServer
      (omega arith) refl

close-IsServer_example :
    (f' : SftpServer ℕ) × (close disk (bytes_of "1") (file_server, 0) ≡ (no_error, (f', 1)))
    × IsServer f'
    × ((t : ℕ) → close disk (bytes_of "1") (f', t) ≡ (bad_file_descriptor, (f', t)))
    × ((offset : ℕ) (buffer : List ℕ) (t : ℕ)
        → read_at disk (bytes_of "1") offset buffer (f', t)
          ≡ ((bad_file_descriptor, 0, buffer), (f', t)))
close-IsServer_example =
    close-IsServer disk (bytes_of "1") file_server 0 3 file_server-IsServer refl

sftp_to_local_escapes_example :
    sftp_to_local (rooted srv) (bytes_of "../../etc/passwd")
    ≡ rooted (bytes_of "etc" ∷ bytes_of "passwd" ∷ [])
unfolding path
sftp_to_local_escapes_example =
    sftp_to_local_escapes srv (bytes_of "../../etc/passwd") (bytes_of "etc")
      (bytes_of "passwd" ∷ []) (refl, refl, (refl, refl, tt)) (refl, refl, (refl, refl, tt)) refl

sftp_to_local_below_example :
    (rest : List Text) × (sftp_to_local (rooted srv) (bytes_of "/a/./b//c") ≡ rooted (srv ++ rest))
    × NoneUp rest
unfolding path
sftp_to_local_below_example =
    sftp_to_local_below srv (bytes_of "/a/./b//c") (refl, refl, (refl, refl, tt))
      (refl, (refl, (refl, (refl, tt))))

paper-Writable : Writable paper 3 (λ s. s)
paper-Writable offset b bs s = record {
  fine = refl;
  some_of = ground arith;
  fits = ground arith;
  written = λ i. refl;
}

serve_packet-write_at_example :
    (s' : ℕ → ℕ) × (serve_packet is_none no_text
        (sftp_server paper disk_full)
        garbage
        (drop 4 (packet Fxp.write 3 (body (write_at_call (bytes_of "1") 7 (bytes_of "hello")))))
        (file_server, λ i. 0)
      ≡ reply (status_packet is_none no_text 3 no_error) (file_server, s'))
    × ((i : ℕ) → s' i ≡ patch 7 (bytes_of "hello") (λ j. 0) i)
serve_packet-write_at_example =
    serve_packet-write_at is_none no_text disk_full paper 3 (bytes_of "1") file_server refl
      (omega arith) (λ s. s) 7 3 (bytes_of "hello") garbage (λ i. 0) paper-Writable (omega arith)
      (omega arith) (omega arith) (omega arith) (omega arith)

serve_packet-read_at_example :
    (s' : ℕ) × (serve_packet is_none no_text
        (sftp_server disk disk_full)
        garbage
        (drop 4 (packet Fxp.read 3 (body (read_at_call (bytes_of "1") 7 100))))
        (file_server, 0)
      ≡ reply (bytes_of "world") (file_server, s'))
serve_packet-read_at_example =
    serve_packet-read_at is_none no_text disk_full disk 3 (bytes_of "1") file_server refl
      (omega arith) content 7 100 3 garbage 0 disk-Readable (omega arith) (omega arith)
      (omega arith) (omega arith) (omega arith)

-- A new size and new permissions.
abbrev resized : Attributes
resized = record no_attributes { flags = 5; size = 4; permissions = 384 }

setstat-call_all_example :
    (setstat disk (bytes_of "a") resized (file_server, 0) ≡ (
      let r =
        call_all disk (named_changes (local disk (bytes_of "a") (file_server, 0)) resized) 0 in
      (r.0, (file_server, r.1))))
    × (fsetstat disk (bytes_of "1") resized (file_server, 0)
        ≡ (let r = call_all disk (open_changes 3 resized) 0 in (r.0, (file_server, r.1))))
setstat-call_all_example =
    setstat-call_all disk (bytes_of "a") (bytes_of "1") resized 3 file_server 0 refl

-- The second of two parts fails.
abbrev half : List (ℕ × ℕ) → ℕ → List (ErrorCode × ℕ) × ℕ
half parts s = ((no_error, 4) ∷ (disk_full, 0) ∷ [], suc s)

some_at-counts_example :
    (tasks 100 (4 ∷ 2 ∷ []) ≡ (100, 4) ∷ (104, 2) ∷ [])
    × (some_at half 100 (4 ∷ 2 ∷ []) 0 ≡ ((no_error, 4), 1))
unfolding tasks
some_at-counts_example = some_at-counts half 100 2 (4 ∷ []) [] 0 (omega arith)
