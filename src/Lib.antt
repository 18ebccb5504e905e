-- ===== src/Lib.antt =====
-- Verification of corosh, a library of coroutines over libssh with an SFTP client and server of its own.
--
-- The program has two layers. `session`, `channel` and `message` (src/session.cpp, src/channel.cpp,
-- src/message.cpp) wrap calls of libssh that do not block: each runs in a loop that calls libssh, and
-- waits on the socket for what libssh says is pending. On a channel, or on any other stream, runs SFTP
-- (src/sftp.cpp, include/corosh/sftp.hpp): an operation of the client writes a request, puts a response
-- object into a queue, and reads packets until its own response is completed; a worker of the server
-- reads a request, calls a handler and writes the reply.
--
-- Base: lists, numbers and tests that the parts share, and objects in memory by the byte order of the host
--   (Base/Host).
-- Errors: `std::error_code` values as the program uses them, the SSH_FX_* numbers, and the conditions and
--   texts of the categories (src/error.cpp).
-- Fxp: the packet types.
-- Wire: `take_u8` to `take_str`, `put_u8` to `put_str` and `match_packet` of src/sftp.cpp. A buffer that
--   is read is the list of its bytes; a buffer that is written is the memory in front of it and behind.
-- Attributes: `attributes`, `attrs_length`, `put_attrs` and `take_attrs`.
-- Requests: for each operation of the client the length that it computes and the bytes that it puts.
-- Responses: the six classes `ssh_fxp_*_response`, each with its `complete`. The texts of a status, which are
--   views of the session's buffer that no operation reads, are left out.
-- Queue: `detail::response_queue`, as an intrusive list in a memory with addresses, so that an object that
--   has been destroyed can be told from one that lives.
-- Server: `build_status` and the body of `serve_worker`, from the bytes of a packet to those of the reply.
--   The handlers of `struct server` are parameters. Where the handle of a request to read is a view of memory
--   that the worker may have moved, the outcome is `dangling`.
-- Server/Worker: the loop of `serve_worker` around that. A wait for a mutex or the stream is a parameter
--   (`Link`) that may change all that the workers share.
-- Server/Serving: `serve`, which makes the handshake and starts the workers; `when_any` is a parameter.
-- Server/Lookups: the worker against the requests whose reply carries a handle, attributes or a name.
-- Handshake: `init` and `init_server` of src/sftp.cpp; the stream is a parameter (`Pipe`).
-- Directory: `dir::read_op` and `dir::do_read_`.
-- File: the overloads of `file` over buffer sequences. What runs their parts is a parameter.
-- FileServer: `sftp_server` of example/server.cpp, from its paths (FileServer/Paths) over the operations on
--   handles (FileServer/Handles) and on paths (FileServer/Named) to the handlers of a worker. The file
--   system is a parameter (`System`), `std::filesystem::path` is written out as far as it is used.
-- Poll: the loops `do_op_`, `do_open_`, `do_some_io_`, `do_io_`, `do_auth_` and those written out.
-- Channel: reading and writing of `channel`, and the templates over buffer sequences.
-- Channel/Requests, Message, Session: the operations of `channel`, `message` and `session` that hand a call
--   of libssh to one of these loops, with their arguments, and `connect`. The functions of libssh are
--   parameters (`Libssh` in each of the three).
-- Session/Forwarding: the other functions of `session` that do more than pass a value on, as
--   `parse_config`, `is_open` and `open_forward_port`.
-- Session/Callbacks, Session/ClientCallbacks: the callbacks of a server and of a client session, as tables for
--   libssh. Session/Lifetime: which of them live and are registered while a session is used, moved and
--   destroyed.
-- Message/Fields: the functions of `message` that read a field.
-- Options: the types of include/corosh/options.hpp and include/corosh/server_options.hpp, with the objects
--   that their pointers point to, and `set_option`. That an option of libssh is read as an object of a
--   certain type is written down in Options/Session/Typed and Options/Server/Typed as its documentation has it.
-- Acceptor: `bind` and `accept` of src/acceptor.cpp.
-- Channel/Callbacks: those of a channel, with the channel that an object is registered with.
-- Exchange: what an operation of the client does around its request, and `read_one_`. Each wait for a
--   mutex or the stream is a parameter that may change the whole client, as other coroutines do.
-- Operations: all operations of `session`, `file` and `dir` of the SFTP client as a whole, with what they
--   return. Operations/Statuses, Operations/Served, Operations/Named and Operations/Closing set them
--   against the worker.
--   Operations/Moving: what moving a `session`, a `file` or a `dir` leaves.
-- Programs: the examples around the library. Of example/server.cpp `tracked_work` (Tracking), as a step relation,
--   since constructors and destructors of its work objects and a wait for them interleave; the callbacks of a
--   channel and what they make of it (Requested), `echo` (Echo), the callbacks of the session (Accepting), and
--   `ssh_main` (Main). Of example/client.cpp `ssh_main` up to the handshake of SFTP (Client), and from the home
--   directory on (Browsing).
-- Examples: concrete inputs.
--
-- libssh, the socket, the timer and the code `boost::capy::error::eof` are parameters (`World`,
-- `ChannelCalls`, `eof`). The constants of libssh and of the protocol are written as these document them.
--
-- Fuel: `walk`, `cancel_loop` and `iterate` recurse on fuel. The theorems on the queue ask for more fuel
-- than there are objects, and then the result is never `stuck`. A loop around libssh may run forever if
-- libssh never stops asking for another call; theorems on it give the number of rounds that is enough,
-- or say of each result what it means. Integers of fixed width wrap where the source computes in them.
-- Sums of lengths, which are of type `size_t`, do not, since no memory holds that many bytes.
--
-- The loops of the example server need no fuel of their own: a round that goes on takes a byte off the
-- buffer or counts towards the 64 entries of a batch.
--
-- `push_workers` recurses on fuel, which is enough if it is more than one above `worker_count`, unless the loop
-- never ends. `message_loop` has a number of messages as its fuel, and each message a number of rounds for the
-- loops around libssh; `ssh_main` has both. Whether a client goes on sending messages is not for the program
-- to say, so the theorem on that loop says of each of its ends what it means.
--
-- Not modelled: the fairness of the mutexes, the accessors of `session` and `channel` that pass one value of libssh
-- on, construction and moving of `channel` and `acceptor`, output, `main` of the examples, and the tests.
-- `get_option` of a session and of an acceptor cannot be instantiated, and `acceptor::parse_config`, `file::fstat` and `file::fsync` have no
-- definition. `std::filesystem::relative` may throw, which `canonicalize_path` here does not.
pub mod Base
pub mod Errors
pub mod Wire
pub mod Attributes
pub mod Fxp
pub mod Requests
pub mod Responses
pub mod Queue
pub mod Server
pub mod Exchange
pub mod Handshake
pub mod Directory
pub mod Operations
pub mod File
pub mod FileServer
pub mod Message
pub mod Session
pub mod Options
pub mod Acceptor
pub mod Poll
pub mod Channel
pub mod Programs
pub mod Examples
