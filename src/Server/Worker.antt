-- ===== src/Server/Worker.antt =====
-- The loop of `serve_worker` in src/sftp.cpp: a request is read, served and answered, over and over. Several
-- workers share the bytes that were read beyond a packet, the stream and the server; while this one
-- waits the others run, so each wait is a function on all of it. (The `assert` is for debug builds.)
pub mod Streams
use corosh.Base.{Option, none, some, ℕ, ◌+◌, Bool, List, [], if◌then◌else◌, take, drop}
use corosh.Errors.{ErrorCode, failed}
use corosh.Errors.Conditions.{Condition}
use corosh.Wire.{add_u32, size_field}
use corosh.Poll.{Step, ret, again}
use corosh.Server.{Handlers, Outcome, reply, stop, dangling, serve_packet}

-- `buffer` is the vector that the workers share, `server` the state behind `s`.
pub record Shared (S T : Type 0) : Type 0 where
  pub buffer : List ℕ
  pub stream : S
  pub server : T

-- The stop token, `read_mutex.scoped_lock()`, `boost::capy::read_until` with `match_packet` on the
-- worker's own buffer, `write_mutex.scoped_lock()` and `boost::capy::write`.
pub record Link (S T : Type 0) : Type 0 where
  pub stop_requested : Shared S T → Bool
  pub lock_read : Shared S T → ErrorCode × Shared S T
  pub read_until : List ℕ → Shared S T → (ErrorCode × List ℕ) × Shared S T
  pub lock_write : Shared S T → ErrorCode × Shared S T
  pub write : List ℕ → Shared S T → ErrorCode × Shared S T

module _ {S T : Type 0} (canceled : ErrorCode) (is : ErrorCode → Condition → Bool)
    (message : ErrorCode → List ℕ) (h : Handlers T) (link : Link S T) where
  -- The end of a round; `none` is the end of what is known of the worker.
  unfoldable pub send : Outcome T → Shared S T → Step (Shared S T) (Option ErrorCode)
  send (stop ec t) s = ret (some ec) (record s { server = t })
  send (dangling t) s = ret none (record s { server = t })
  send (reply response t) s =
      let (ec, locked) = link.lock_write (record s { server = t }) in
      if failed ec
      then ret (some ec) locked
      else (let (ec', written) = link.write response locked in
          if failed ec' then ret (some ec') written else again written)

  -- The round behind `read_until`. `my_buffer.begin() + sz + 4u` does not wrap, `sz + 4u` does.
  unfoldable pub answer : List ℕ → Shared S T → Step (Shared S T) (Option ErrorCode)
  unfolding send
  answer my_buffer s =
      let sz = size_field my_buffer in
      let left = record s { buffer = drop (sz + 4) my_buffer } in
      send
        (serve_packet is message h my_buffer (drop 4 (take (add_u32 sz 4) my_buffer)) left.server)
        left

  unfoldable pub worker_round : Shared S T → Step (Shared S T) (Option ErrorCode)
  unfolding answer
  worker_round s =
      if link.stop_requested s
      then ret (some canceled) s
      else (let (ec, locked) = link.lock_read s in
          if failed ec
          then ret (some ec) locked
          else (let ((ec', my_buffer), read) = link.read_until locked.buffer locked in
              if failed ec' then ret (some ec') read else answer my_buffer read))
