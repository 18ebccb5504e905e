-- ===== src/Operations/Named.antt =====
-- The operations that ask for a path, against the worker and its handlers.
use corosh.Base.{ℕ, suc, ◌+◌, ◌^◌, ◌<◌, ◌≡◌, ap, Bool, List, none, some, length}
use corosh.Errors.{ErrorCode}
use corosh.Errors.Conditions.{Condition}
use corosh.Requests.Packets.{request, readlink_call, canonicalize_path_call, expand_path_call}
use corosh.Queue.{Queue, done}
use corosh.Server.{Handlers}
use corosh.Server.Lookups as L
use corosh.Exchange.{Client, Waits}
use corosh.Exchange.Answers.{Connected}
use corosh.Operations as O
use corosh.Operations.{
  Opened, nothing_open, new_handle, new_attrs, new_name, handle_returned, attrs_returned,
  name_returned,
}
use corosh.Operations.Calls.{alone, Replied, Told, named, name_call}

module _ {S T : Type 0} (eof : ErrorCode) (w : Waits S) (is : ErrorCode → Condition → Bool)
    (message : ErrorCode → List ℕ) (h : Handlers T) {sent : List ℕ → S → S} {replies : S → List ℕ}
    (con : Connected w sent replies) (rounds fuel a : ℕ) (small : List ℕ) (q : Queue) (s : S)
    (buffer : List ℕ) (t : T) (idle : q.last ≡ none) (small_size : length small ≡ 1024)
    (hid : q.request_id_gen < 2 ^ 32) where
  -- `readlink`, alone on a connection with nothing buffered and a queue without `last`, at whose other
  -- end a worker answers: where the handler reports no error, the caller gets the name that
  -- it brings, and else the
  -- number of the error in the SFTP category. This holds for a path, a name and a message that fit the protocol, and request
  -- ids and numbers of errors that fit 32 bits.
  pub readlink-served :
      (path : List ℕ) (reported : ErrorCode) (n : List ℕ) (u : T)
      → Replied eof w is message h con rounds fuel a small q s buffer t idle small_size hid
          (readlink_call path)
      → h.readlink path t ≡ ((reported, n), u)
      → length path < 2 ^ 32
      → length n + 25 < 2 ^ 32
      → Told eof w is message h con rounds fuel a small q s buffer t idle small_size hid reported
      → (d : Client S) × (O.readlink eof w
            (suc (suc rounds))
            (suc fuel)
            a
            small
            path
            (alone eof w is message h con rounds fuel a small q s buffer t idle small_size hid)
          ≡ done (named is message reported n, d))
  unfolding O.readlink request
  readlink-served path reported n u arrives reports hp carried short =
      name_call eof w is message h con rounds fuel a small q s buffer t idle small_size hid
        (readlink_call path) reported n u arrives
        (ap (λ (r : (ErrorCode × List ℕ) × T). some ((r.0.0, L.name r.0.1), r.1)) reports) hp
        carried short

  -- `canonicalize_path`, alone on a connection with nothing buffered and a queue without `last`, at whose other
  -- end a worker answers: where the handler reports no error, the caller gets the name that
  -- it brings, and else the
  -- number of the error in the SFTP category. This holds for a path, a name and a message that fit the protocol, and request
  -- ids and numbers of errors that fit 32 bits.
  pub canonicalize_path-served :
      (path : List ℕ) (reported : ErrorCode) (n : List ℕ) (u : T)
      → Replied eof w is message h con rounds fuel a small q s buffer t idle small_size hid
          (canonicalize_path_call path)
      → h.canonicalize_path path t ≡ ((reported, n), u)
      → length path < 2 ^ 32
      → length n + 25 < 2 ^ 32
      → Told eof w is message h con rounds fuel a small q s buffer t idle small_size hid reported
      → (d : Client S) × (O.canonicalize_path eof w
            (suc (suc rounds))
            (suc fuel)
            a
            small
            path
            (alone eof w is message h con rounds fuel a small q s buffer t idle small_size hid)
          ≡ done (named is message reported n, d))
  unfolding O.canonicalize_path request
  canonicalize_path-served path reported n u arrives reports hp carried short =
      name_call eof w is message h con rounds fuel a small q s buffer t idle small_size hid
        (canonicalize_path_call path) reported n u arrives
        (ap (λ (r : (ErrorCode × List ℕ) × T). some ((r.0.0, L.name r.0.1), r.1)) reports) hp
        carried short

  -- `expand_path`, alone on a connection with nothing buffered and a queue without `last`, at whose other
  -- end a worker answers: where the handler reports no error, the caller gets the name that
  -- it brings, and else the
  -- number of the error in the SFTP category. This holds for a path, a name and a message that fit the protocol, and request
  -- ids and numbers of errors that fit 32 bits.
  pub expand_path-served :
      (path : List ℕ) (reported : ErrorCode) (n : List ℕ) (u : T)
      → Replied eof w is message h con rounds fuel a small q s buffer t idle small_size hid
          (expand_path_call path)
      → h.expand_path path t ≡ ((reported, n), u)
      → length path < 2 ^ 32
      → length n + 25 < 2 ^ 32
      → Told eof w is message h con rounds fuel a small q s buffer t idle small_size hid reported
      → (d : Client S) × (O.expand_path eof w
            (suc (suc rounds))
            (suc fuel)
            a
            small
            path
            (alone eof w is message h con rounds fuel a small q s buffer t idle small_size hid)
          ≡ done (named is message reported n, d))
  unfolding O.expand_path request
  expand_path-served path reported n u arrives reports hp carried short =
      name_call eof w is message h con rounds fuel a small q s buffer t idle small_size hid
        (expand_path_call path) reported n u arrives
        (ap (λ (r : (ErrorCode × List ℕ) × T). some ((r.0.0, L.name r.0.1), r.1)) reports) hp
        carried short
