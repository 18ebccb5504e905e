-- ===== src/Operations/Served.antt =====
-- The operations that open something or look it up, against the worker and its handlers.
use corosh.Base.{ℕ, suc, ◌+◌, ◌^◌, ◌<◌, ◌≡◌, ap, false, Bool, List, none, some, length}
use corosh.Errors.{ErrorCode}
use corosh.Errors.Conditions.{Condition}
use corosh.Attributes.{Attributes, has, attr_extended}
use corosh.Attributes.Bytes.{InRange}
use corosh.Requests.Packets.{request, opendir_call, open_file_call, stat_call, lstat_call}
use corosh.Queue.{Queue, done}
use corosh.Server.{Handlers}
use corosh.Server.Lookups as L
use corosh.Exchange.{Client, Waits}
use corosh.Exchange.Answers.{Connected}
use corosh.Operations as O
use corosh.Operations.{
  Opened, nothing_open, new_handle, new_attrs, new_name, handle_returned, attrs_returned,
  name_returned,
}
use corosh.Operations.Calls.{alone, Replied, Told, opened, described, handle_call, attrs_call}

module _ {S T : Type 0} (eof : ErrorCode) (w : Waits S) (is : ErrorCode → Condition → Bool)
    (message : ErrorCode → List ℕ) (h : Handlers T) {sent : List ℕ → S → S} {replies : S → List ℕ}
    (con : Connected w sent replies) (rounds fuel a : ℕ) (small : List ℕ) (q : Queue) (s : S)
    (buffer : List ℕ) (t : T) (idle : q.last ≡ none) (small_size : length small ≡ 1024)
    (hid : q.request_id_gen < 2 ^ 32) where
  -- `open` of a file, alone on a connection with nothing buffered and a queue without `last`, at whose other
  -- end a worker answers: where the handler reports no error, the caller gets a file with the
  -- handle that it brings, and else the
  -- number of the error in the SFTP category. This holds for arguments, a handle and a message that fit the protocol, and request
  -- ids and numbers of errors that fit 32 bits.
  pub open_file-served :
      (path : List ℕ) (accesstype mode : ℕ) (reported : ErrorCode) (hd : List ℕ) (u : T)
      → Replied eof w is message h con rounds fuel a small q s buffer t idle small_size hid
          (open_file_call path accesstype mode)
      → h.open_file path accesstype mode t ≡ ((reported, hd), u)
      → length path < 2 ^ 32
      → accesstype < 2 ^ 32
      → mode < 2 ^ 32
      → length hd + 13 < 2 ^ 32
      → Told eof w is message h con rounds fuel a small q s buffer t idle small_size hid reported
      → (d : Client S) × (O.open_file eof w
            (suc (suc rounds))
            (suc fuel)
            a
            small
            path
            accesstype
            mode
            (alone eof w is message h con rounds fuel a small q s buffer t idle small_size hid)
          ≡ done (opened is message reported hd, d))
  unfolding O.open_file request
  open_file-served path accesstype mode reported hd u arrives reports hp ha hm carried short =
      handle_call eof w is message h con rounds fuel a small q s buffer t idle small_size hid
        (open_file_call path accesstype mode) reported hd u arrives
        (ap (λ (r : (ErrorCode × List ℕ) × T). some ((r.0.0, L.handle r.0.1), r.1)) reports)
        (hp, ha, hm) carried short

  -- `opendir`, alone on a connection with nothing buffered and a queue without `last`, at whose other
  -- end a worker answers: where the handler reports no error, the caller gets a directory with
  -- the handle that it brings, and else the
  -- number of the error in the SFTP category. This holds for arguments, a handle and a message that fit the protocol, and request
  -- ids and numbers of errors that fit 32 bits.
  pub opendir-served :
      (path : List ℕ) (reported : ErrorCode) (hd : List ℕ) (u : T)
      → Replied eof w is message h con rounds fuel a small q s buffer t idle small_size hid
          (opendir_call path)
      → h.opendir path t ≡ ((reported, hd), u)
      → length path < 2 ^ 32
      → length hd + 13 < 2 ^ 32
      → Told eof w is message h con rounds fuel a small q s buffer t idle small_size hid reported
      → (d : Client S) × (O.opendir eof w
            (suc (suc rounds))
            (suc fuel)
            a
            small
            path
            (alone eof w is message h con rounds fuel a small q s buffer t idle small_size hid)
          ≡ done (opened is message reported hd, d))
  unfolding O.opendir request
  opendir-served path reported hd u arrives reports hp carried short =
      handle_call eof w is message h con rounds fuel a small q s buffer t idle small_size hid
        (opendir_call path) reported hd u arrives
        (ap (λ (r : (ErrorCode × List ℕ) × T). some ((r.0.0, L.handle r.0.1), r.1)) reports) hp
        carried short

  -- `stat`, alone on a connection with nothing buffered and a queue without `last`, at whose other
  -- end a worker answers: where the handler reports no error, the caller gets the attributes
  -- that it brings, as far as they are announced, and else the
  -- number of the error in the SFTP category. This holds for a path and a message that fit the protocol, attributes
  -- in the range of their types that announce no extended ones, and request
  -- ids and numbers of errors that fit 32 bits.
  pub stat-served :
      (path : List ℕ) (reported : ErrorCode) (b : Attributes) (u : T)
      → Replied eof w is message h con rounds fuel a small q s buffer t idle small_size hid
          (stat_call path)
      → h.stat path t ≡ ((reported, b), u)
      → length path < 2 ^ 32
      → InRange b
      → has b.flags attr_extended ≡ false
      → Told eof w is message h con rounds fuel a small q s buffer t idle small_size hid reported
      → (d : Client S) × (O.stat eof w
            (suc (suc rounds))
            (suc fuel)
            a
            small
            path
            (alone eof w is message h con rounds fuel a small q s buffer t idle small_size hid)
          ≡ done (described is message reported b, d))
  unfolding O.stat request
  stat-served path reported b u arrives reports hp ok plain short =
      attrs_call eof w is message h con rounds fuel a small q s buffer t idle small_size hid
        (stat_call path) reported b u arrives
        (ap (λ (r : (ErrorCode × Attributes) × T). some ((r.0.0, L.attrs r.0.1), r.1)) reports) hp
        ok plain short

  -- `lstat`, alone on a connection with nothing buffered and a queue without `last`, at whose other
  -- end a worker answers: where the handler reports no error, the caller gets the attributes
  -- that it brings, as far as they are announced, and else the
  -- number of the error in the SFTP category. This holds for a path and a message that fit the protocol, attributes
  -- in the range of their types that announce no extended ones, and request
  -- ids and numbers of errors that fit 32 bits.
  pub lstat-served :
      (path : List ℕ) (reported : ErrorCode) (b : Attributes) (u : T)
      → Replied eof w is message h con rounds fuel a small q s buffer t idle small_size hid
          (lstat_call path)
      → h.lstat path t ≡ ((reported, b), u)
      → length path < 2 ^ 32
      → InRange b
      → has b.flags attr_extended ≡ false
      → Told eof w is message h con rounds fuel a small q s buffer t idle small_size hid reported
      → (d : Client S) × (O.lstat eof w
            (suc (suc rounds))
            (suc fuel)
            a
            small
            path
            (alone eof w is message h con rounds fuel a small q s buffer t idle small_size hid)
          ≡ done (described is message reported b, d))
  unfolding O.lstat request
  lstat-served path reported b u arrives reports hp ok plain short =
      attrs_call eof w is message h con rounds fuel a small q s buffer t idle small_size hid
        (lstat_call path) reported b u arrives
        (ap (λ (r : (ErrorCode × Attributes) × T). some ((r.0.0, L.attrs r.0.1), r.1)) reports) hp
        ok plain short
