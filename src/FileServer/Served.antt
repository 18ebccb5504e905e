-- ===== src/FileServer/Served.antt =====
-- The example server behind a worker: what a client's request to write or read does to a file.
use corosh.Base.{
  not_ltb, ℕ, Bool, ◌+◌, ◌^◌, ◌≤◌, ◌<◌, ◌≡◌, refl, ap, ◌∙◌, List, some, ◌++◌, length, take, drop,
  take-append, length-append, length-drop, arith,
}
use corosh.Base.Text.{Text}
use corosh.Errors.{ErrorCode, no_error}
use corosh.Errors.Conditions.{Condition}
use corosh.Fxp
use corosh.Requests.Packets.{write_at_call, read_at_call, body, packet}
use corosh.Server.{reply, serve_packet, limit}
use corosh.Server.Status.{resize}
use corosh.Server.Replies.{status_packet, length-resize}
use corosh.Server.Requests.{serve_packet-request}
use corosh.Server.ReadReply.{serve_packet-read}
use corosh.FileServer.{System, SftpServer, find}
use corosh.FileServer.Named.{sftp_server}
use corosh.FileServer.Contents.{Readable, read_at-Readable, length-take_le}
use corosh.FileServer.Written.{patch, Writable, write_at-Writable}

module _ {S D : Type 0} (is : ErrorCode → Condition → Bool) (message : ErrorCode → List ℕ)
    (eof : ErrorCode) (sys : System S D) (fd : ℕ) (handle : Text) (f : SftpServer D)
    (known : find handle f.open_files ≡ some fd) (short : length handle < 2 ^ 32) where
  -- The worker of the example server answers a client's request to write at most 2^30 bytes to an
  -- open file, whose handle fits a packet, with room for the offsets in 64 bits, by the status of
  -- success under the request's id, and then the file holds these bytes from the offset on, and
  -- elsewhere what it held before, with however few bytes each write of the file is content.
  pub serve_packet-write_at :
      (bytes : S → ℕ → ℕ) (offset id : ℕ) (content my_buffer : List ℕ) (s : S)
      → Writable sys fd bytes
      → offset + length content ≤ 2 ^ 64
      → offset < 2 ^ 64
      → length content ≤ limit
      → id < 2 ^ 32
      → length (message no_error) + 21 < 2 ^ 32
      → (s' : S) × (serve_packet is message
            (sftp_server sys eof)
            my_buffer
            (drop 4 (packet Fxp.write id (body (write_at_call handle offset content))))
            (f, s)
          ≡ reply (status_packet is message id no_error) (f, s'))
        × ((i : ℕ) → bytes s' i ≡ patch offset content (bytes s) i)
  unfolding sftp_server
  serve_packet-write_at bytes offset id content my_buffer s writes range start few hid fits =
      let (s', e, all) =
        write_at-Writable sys fd bytes handle offset content f s writes known range in
      (
        s',
        rw e at (
            serve_packet-request is message (sftp_server sys eof)
              (write_at_call handle offset content) _ my_buffer id (f, s) refl (short, start, few)
              hid (rw e fits)),
        all,
      )

  -- The worker of the example server answers a client's request to read at most 2^30 bytes of an
  -- open file, whose handle fits a packet, with room for the offsets in 64 bits, and for header and data in
  -- the bytes that have arrived for the packet (else the handle dangles), by the bytes of
  -- the file from the offset on, as far as request and file reach; nothing stands in front of them.
  pub serve_packet-read_at :
      (content : List ℕ) (offset len id : ℕ) (my_buffer : List ℕ) (s : S)
      → Readable sys fd content
      → offset + len ≤ 2 ^ 64
      → offset < 2 ^ 64
      → len ≤ limit
      → id < 2 ^ 32
      → 13 + len ≤ length my_buffer
      → (s' : S) × (serve_packet is message
            (sftp_server sys eof)
            my_buffer
            (drop 4 (packet Fxp.read id (body (read_at_call handle offset len))))
            (f, s)
          ≡ reply (take len (drop offset content)) (f, s'))
  unfolding sftp_server
  serve_packet-read_at content offset len id my_buffer s reads range start few hid room =
      let buffer = drop 13 (resize (13 + len) my_buffer) in
      let size : length buffer ≡ len =
        omega (
          arith,
          length-drop 13 (resize (13 + len) my_buffer),
          length-resize (13 + len) my_buffer,
        ) in
      let (s', e) =
        read_at-Readable sys fd content handle offset buffer f s reads known (rw size range) in
      let x = take (length buffer) (drop offset content) in
      let fits : length x ≤ length buffer = length-take_le (length buffer) (drop offset content) in
      (
        s',
        serve_packet-read is message (sftp_server sys eof) handle offset len id (length x) my_buffer
              (x ++ drop (length x) buffer) (f, s) (f, s') short start few hid e
              (omega
                (arith, length-append x (drop (length x) buffer), length-drop (length x) buffer))
              (omega arith)
            ∙ rw (not_ltb (length my_buffer) (13 + len) room) refl
            ∙ ap (λ l. reply l (f, s'))
                (take-append x (drop (length x) buffer)
                  ∙ ap (λ n. take n (drop offset content)) size),
      )
