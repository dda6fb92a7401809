-- ===== src/Lib.antt =====
-- A model of the mock servers of this repository (FTP, SFTP, MQTT, REST and SOAP, for tests that
-- need a live server) and the theorems that hold of it.
--
-- The parts. Each server is a class with a state behind locks, a thread that accepts connections and
-- one thread for each connection. A handler reads commands or packets, checks them, changes the
-- state, and writes to sockets and files. An operation that holds its lock throughout is one step
-- here: a function from a state to the next one.
--
-- The files.
--   Base       numbers, lists, texts as lists of bytes, maps as sorted association lists.
--   Net        a socket is a number, and what happens to sockets is a list of events
--              (include/mock-services/detail/platform_socket.h).
--   Threads    `thread_group` (include/mock-services/detail/thread_utils.h).
--   Mqtt       src/mqtt_server.cpp. Wire: the remaining-length field, framing, `recv_exact` and
--              `send_all`. Packets: decoders and encoders. Topics: `split_topic` and
--              `topic_matches`. Server: sessions, history, routing and `client_handler`. Lifecycle:
--              `accept_loop`, `start` and `stop`; Lifecycle/Steps is the relation of one step of
--              any thread, Lifecycle/Runs is about the loop of a connection and that relation.
--   Ftp        src/ftp_server.cpp. Path: `resolve` and the directories of CWD. Session: accounts,
--              USER, PASS and the checks. Listing: the text of `dir_listing`. Commands: every
--              command. Dispatch: `dispatch` and the loops that cut the input into lines. World:
--              `start`, `accept_loop`, `stop`, and the clients that threads and the list share;
--              World/Steps is the relation of one step of any thread, World/Loops is about the
--              loop of a client and that relation.
--   Sftp       src/sftp_server.cpp and src/sftp_handlers.cpp. Path: `resolve_path` and
--              include/mock-services/detail/path_utils.h. Messages: what a handler is given and
--              what it does. Files and Changes: the handlers. Handlers: the `switch` of
--              `process_sftp`. A handler is a list of what it does, in order; its entries in the
--              log are applied by `log_activity` of Accounts. Accounts: accounts, sessions and the
--              activity log. Sessions: the thread of one session. Listener: the
--              constructor, `start`, `acceptor_loop`, `stop` and the destructor, with what libssh
--              hands out. World: the server with all its threads, each at its point of
--              `handle_session_after_auth`; World/Steps is the relation of one step of any
--              thread, World/Runs is about the thread of a session and that relation. Owners:
--              the classes that own a file, a directory, attributes, a key or a bind object,
--              with their moves.
--   TempDir    src/temp_dir.cpp: `unique_id`, the constructor and `erase_all`.
--   Http       Rest: src/rest_server.cpp and the builder of src/http_common.cpp. Soap:
--              src/soap_server.cpp.
-- A module `Tests` of each part applies the theorems to concrete inputs; the other children hold
-- proofs about their parent and are named for what they show.
--
-- What stands outside. The operating system, libssh, the HTTP library and the XML library are
-- parameters: what `recv` still returns (`incoming`), how much each `send` takes (`peer`), which
-- route a request takes (`find_route`), how a tree is printed (`print`), and the answers of the
-- file system and of libssh to one command (`System`). Nothing is assumed of them but what a
-- theorem names: for REST, that routes are tried in the order of their registration. In the steps
-- of the SFTP server libssh hands out no session that a thread still has, and gives a message no
-- handle but one that its client holds.
--
-- Bounds and fuel. A byte is a number, and fields of 16 and 32 bits are cut where the code cuts
-- them. `recv_loop` has as many rounds as bytes are asked for and each takes one at least; the loop
-- of `encode_remaining_length` has more rounds than the length, which each divides; the loop of
-- `decode_subscribe` has a round for each byte of the packet; `client_loop` and `lines_loop` get
-- their rounds as an argument, and each round of either takes a byte. Loops that end when a server
-- stops (`accept_loop`, `acceptor_loop`, `do_callback_handshake`, `process_sftp`) run over the list
-- of what their rounds find while it runs.
--
-- Not modelled. Branches for Windows; the Berkeley calls of
-- include/mock-services/detail/platform_socket.h; the constants of
-- include/mock-services/ftp_common.h and sftp_common.h. Threads of the FTP server are interleaved
-- line by line and those of the MQTT server packet by packet, each `stop` in as many steps as it has
-- waits. The threads of the SFTP server are interleaved callback by callback and message by
-- message; a round of its acceptor is one step. In Listener, where what a whole life of the server
-- hands out is counted, the session threads run one behind the other when `stop` joins them. A
-- directory that `erase_all` goes through keeps the entries that `readdir` gave. `ssh_key_ptr::ptr`
-- is called by nothing and left out. Where the language leaves open what the code does, the model
-- says so with an effect (`confused`, a handle taken for one of the other kind) or does nothing
-- (`update_hs` on a session without an entry). `join_all` gets to know which threads end; what they
-- do until then are steps of theirs before it returns.
pub mod Base
pub mod Net
pub mod Threads
pub mod Mqtt
pub mod Ftp
pub mod Sftp
pub mod Http
pub mod TempDir
