-- ===== src/Mqtt/Lifecycle.antt =====
-- src/mqtt_server.cpp, the server from outside: `accept_loop`, `start`, `stop` and what a test reads.
pub mod Stopping
pub mod Steps
pub mod Runs
use mock_services.Base.{
  ℕ, Bool, true, false, not, Option, none, some, List, [], ◌∷◌, ◌++◌, if◌then◌else◌, String, Text,
  text, to_string,
}
use mock_services.Base.Dict.{Dict}
use mock_services.Net.{RawSocket, Ready, select_failed, idle, accepted, Setup, closed}
use mock_services.Threads.{Entry, join_finished, join_all}
use mock_services.Threads
use mock_services.Mqtt.Server.{Message, Session, Server, Control, again, leave, emit, close_session}

-- One round of `accept_loop`.
unfoldable pub accept_round : Ready → Server → Control
accept_round select_failed s = leave s
accept_round idle s = again s
accept_round (accepted none) s = again s
accept_round (accepted (some sock)) s =
    let entry : Entry = record { thread = sock; done = false } in
    again (record s { client_threads = (join_finished (Threads.add entry s.client_threads)).1 })

-- A call that may throw; the state keeps what was changed before.
pub data Outcome : Type 0 where
  returned : Server → Outcome
  threw : String → Server → Outcome

abbrev fail_closed : String → ℕ → Server → Outcome
fail_closed what sock s = threw what (record (emit (closed sock) s) { listen_sock = none })

unfoldable pub start : Setup → Server → Outcome
unfolding emit
start os s = elim os.socket [
  | none ↦
      if s.running
      then threw "mqtt_server is already running" s
      else threw "socket creation failed" (record s { listen_sock = none })
  | some sock ↦
      let named : Outcome = elim os.name [
        | none ↦ fail_closed "getsockname failed" sock s
        | some port ↦
            if os.listening
            then returned (record s { listen_sock = some sock; port = port; running = true })
            else fail_closed "listen failed" sock (record s { port = port })
      ] in
      if s.running
      then threw "mqtt_server is already running" s
      else if not os.bound
      then fail_closed "bind failed" sock s
      else named
]

unfoldable pub close_listener : RawSocket → Server → Server
unfolding emit
close_listener none s = s
close_listener (some sock) s = record (emit (closed sock) s) { listen_sock = none }

unfoldable pub close_sessions : Dict Text Session → Server → Server
unfolding close_session
close_sessions [] s = s
close_sessions ((client_id, session) ∷ rest) s = close_sessions rest (close_session session.sock s)

-- `stop` up to the join of the acceptor, the sessions, and the join of the handlers. Before each
-- join returns, the threads that it waits for go on: they close their sockets once more. `none` is a
-- handler that never ends.
unfoldable pub stop_begin : Server → Server
stop_begin s = if s.running then close_listener s.listen_sock (record s { running = false }) else s

unfoldable pub stop_sessions : Server → Server
stop_sessions s = record (close_sessions s.sessions s) { sessions = [] }

unfoldable pub stop_end : (ℕ → Bool) → Server → Option Server
stop_end ends s = elim (join_all ends s.client_threads) [
  | none ↦ none
  | some (joined, kept) ↦ some (record s { client_threads = kept })
]

-- `base_url`, which throws on a server that is not running.
unfoldable pub base_url : Server → Option Text
base_url s = if s.running then some (text "mqtt://127.0.0.1:" ++ to_string s.port) else none

unfoldable pub messages : Server → List Message
messages s = s.history

unfoldable pub clear_messages : Server → Server
clear_messages s = record s { history = [] }
