-- ===== src/Ftp/World.antt =====
-- src/ftp_server.cpp, the server as a whole: `start`, `stop`, `accept_loop`, and the client objects
-- that a thread and the list of clients share. An object has the number of its thread.
pub mod Stopping
pub mod Within
pub mod Confined
pub mod Transfers
pub mod Runs
pub mod Steps
pub mod Reach
pub mod Loops
use mock_services.Base.{
  ℕ, Bool, true, false, not, Option, none, some, List, [], ◌∷◌, ◌++◌, nat_eq, if◌then◌else◌, Text,
  text, to_string,
}
use mock_services.Net.{RawSocket, Ready, select_failed, idle, accepted, Setup}
use mock_services.Threads.{Entry, join_finished, join_all}
use mock_services.Threads
use mock_services.Ftp.Session.{
  Client, Server, Conn, Effect, closed, new_client, ftp_send, close_client,
}

pub record World : Type 0 where
  pub server : Server
  pub objects : ℕ → Client

-- The state of a new server with its temporary directory.
abbrev pub initial : Text → Server
initial temp_root = record {
  ctrl = none;
  running = false;
  port = 0;
  temp_root = temp_root;
  users = [];
  conn_users = [];
  clients = [];
  client_threads = [];
  effects = [];
}

-- What a function does that works on one client object and the server.
abbrev pub on_client : ℕ → (Conn → Conn) → World → World
on_client id f w =
    let c = f (record { client = w.objects id; server = w.server }) in
    record {
      server = c.server;
      objects = λ other. if nat_eq other id then c.client else w.objects other;
    }

unfoldable pub add_effect : Effect → Server → Server
add_effect e s = record s { effects = s.effects ++ (e ∷ []) }

abbrev pub give_up : ℕ → Server → Bool × Server
give_up sock s = (false, record (add_effect (closed sock) s) { ctrl = none })

-- `start` behind `getsockname`, behind `socket`, and as a whole; the flag is false for an exception.
unfoldable pub listen_on : Setup → ℕ → Option ℕ → Server → Bool × Server
listen_on os sock none s = give_up sock s
listen_on os sock (some port) s =
    if os.listening
    then (true, record s { ctrl = some sock; port = port; running = true })
    else give_up sock (record s { port = port })

unfoldable pub start_on : Setup → RawSocket → Server → Bool × Server
start_on os none s = (false, record s { ctrl = none })
start_on os (some sock) s = if os.bound then listen_on os sock os.name s else give_up sock s

unfoldable pub start : Setup → Server → Bool × Server
start os s = if s.running then (false, s) else start_on os os.socket s

-- A round of `accept_loop`; the new client gets the number `id`.
unfoldable pub accept_client : ℕ → ℕ → World → World
accept_client id sock w =
    let entry : Entry = record { thread = id; done = false } in
    let known : World = record {
      server = record w.server { clients = w.server.clients ++ (id ∷ []) };
      objects = λ other. if nat_eq other id then new_client (some sock) else w.objects other;
    } in
    let greeted =
      on_client id (ftp_send (some sock) (text "220 FTP Mock Server ready\r\n")) known in
    record greeted {
      server = record greeted.server {
        client_threads = (join_finished (Threads.add entry greeted.server.client_threads)).1;
      };
    }

unfoldable pub accept_round : ℕ → Ready → World → World
accept_round id (accepted (some sock)) w = accept_client id sock w
accept_round id (accepted none) w = w
accept_round id idle w = w
accept_round id select_failed w = w

-- Closes every client of the list.
unfoldable pub close_clients : List ℕ → World → World
close_clients [] w = w
close_clients (id ∷ ids) w = close_clients ids (on_client id close_client w)

unfoldable pub drop_clients : World → World
drop_clients w =
    let w' = close_clients w.server.clients w in
    record w' { server = record w'.server { clients = [] } }

unfoldable pub close_ctrl : RawSocket → Server → Server
close_ctrl none s = s
close_ctrl (some sock) s = record (add_effect (closed sock) s) { ctrl = none }

-- The end of `accept_loop`, behind its rounds.
unfoldable pub accept_end : World → World
accept_end w = drop_clients (record w { server = close_ctrl w.server.ctrl w.server })

-- `stop`, up to the join of the acceptor and behind it. In between the acceptor finishes the round
-- that it is in and runs `accept_end`, and threads go on. `none` is a thread that never ends.
unfoldable pub stop_begin : World → World
stop_begin w =
    if w.server.running
    then drop_clients (record w { server = record w.server { running = false } })
    else w

unfoldable pub stop_end : (ℕ → Bool) → World → Option World
stop_end ends w = elim (join_all ends w.server.client_threads) [
  | none ↦ none
  | some (joined, kept) ↦ some (record w { server = record w.server { client_threads = kept } })
]

-- `none` is the exception of a server that is not running.
unfoldable pub base_url : Server → Option Text
base_url s = if s.running then some (text "ftp://127.0.0.1:" ++ to_string s.port) else none
