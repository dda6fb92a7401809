-- ===== src/Mqtt/Server.antt =====
-- src/mqtt_server.cpp, the server: sessions, history, the handler of a connection. A lock makes
-- each operation one step, so an operation is a function from the state to the new state.
pub mod Delivery
pub mod Sessions
pub mod Loop
pub mod Table
use mock_services.Base.{
  ℕ, zero, suc, ◌+◌, ◌/◌, Bool, true, false, not, Option, none, some, List, [], ◌∷◌, ◌++◌, map, any,
  nat_eq, if◌then◌else◌, String, Text, text, text_key, to_string,
}
use mock_services.Base.Dict.{Dict, find, assign, erase}
use mock_services.Net.{
  RawSocket, Event, sent, shut, closed, Ready, select_failed, idle, accepted, Setup,
}
use mock_services.Threads.{Entry, ThreadGroup, join_finished, join_all}
use mock_services.Threads
use mock_services.Mqtt.Wire.{Chunks, recv_exact, read_remaining_length, send_all}
use mock_services.Mqtt.Packets.{
  Decoded, ok, decode_connect, decode_publish, decode_subscribe, encode_connack, encode_suback,
  encode_publish, encode_pingresp, ConnectPacket, PublishPacket, SubscribePacket,
}
use mock_services.Mqtt.Topics.{topic_matches}

pub record Message : Type 0 where
  pub topic : Text
  pub payload : Text

pub record Session : Type 0 where
  pub client_id : Text
  pub sock : RawSocket
  pub filters : List Text

-- `incoming` is what each socket still delivers; `events` what the server did to sockets, in order.
pub record Server : Type 0 where
  pub running : Bool
  pub listen_sock : RawSocket
  pub port : ℕ
  pub sessions : Dict Text Session
  pub history : List Message
  pub client_threads : ThreadGroup
  pub incoming : ℕ → Chunks
  pub events : List Event

-- The constructor's state.
abbrev pub initial : (ℕ → Chunks) → Server
initial incoming = record {
  running = false;
  listen_sock = none;
  port = 0;
  sessions = [];
  history = [];
  client_threads = [];
  incoming = incoming;
  events = [];
}

unfoldable pub emit : Event → Server → Server
emit e s = record s { events = s.events ++ (e ∷ []) }

-- `sock_shutdown` and `sock_close`, where the socket is not `kInvalidSock`.
unfoldable pub close_session : RawSocket → Server → Server
unfolding emit
close_session none s = s
close_session (some sock) s = emit (closed sock) (emit (shut sock) s)

unfoldable pub remove_session : Text → Server → Server
unfolding close_session
remove_session client_id s = elim (find client_id s.sessions) [
  | none ↦ s
  | some session ↦ record (close_session session.sock s) { sessions = erase client_id s.sessions }
]

-- The targets of a message: the sockets of the sessions with a matching filter, in key order.
unfoldable pub targets : Text → Dict Text Session → List RawSocket
targets topic [] = []
targets topic ((client_id, session) ∷ sessions) =
    let rest = targets topic sessions in
    if any (λ filter. topic_matches filter topic) session.filters then session.sock ∷ rest else rest

-- `recv_exact` on a socket of the server.
unfoldable pub receive : ℕ → ℕ → Server → Option (List ℕ × Server)
receive len sock s = elim (recv_exact len (s.incoming sock)) [
  | none ↦ none
  | some (bytes, later) ↦
      some (bytes, record s { incoming = λ k. if nat_eq k sock then later else s.incoming k })
]

unfoldable pub receive_length : ℕ → Server → Option (ℕ × Server)
receive_length sock s = elim (read_remaining_length (s.incoming sock)) [
  | none ↦ none
  | some (len, later) ↦
      some (len, record s { incoming = λ k. if nat_eq k sock then later else s.incoming k })
]

-- What a round of a loop decides: another round, or the end.
pub data Control : Type 0 where
  again : Server → Control
  leave : Server → Control

abbrev pub go_on : Control → (Server → Option Server) → Option Server
go_on (again s) next = next s
go_on (leave s) next = some s

-- The end of `client_handler`.
unfoldable pub finish : ℕ → Text → Server → Server
finish sock client_id s = emit (closed sock) (remove_session client_id s)

-- The sessions with the filters of one SUBSCRIBE added, and one return code for each filter.
unfoldable pub subscribe : Text → List Text → Dict Text Session → Dict Text Session × List ℕ
subscribe client_id filters sessions = elim (find client_id sessions) [
  | none ↦ (sessions, [])
  | some session ↦ (
    assign client_id (record session { filters = session.filters ++ filters }) sessions,
    map (λ _. 0x00) filters,
  )
]

-- `peer sock bytes` holds what the calls of `send` return while `bytes` are sent to `sock`.
module _ (peer : ℕ → List ℕ → List ℕ) where
  -- `send_all` on a socket of the server; on `kInvalidSock` the call fails.
  unfoldable pub send_to : RawSocket → List ℕ → Server → Bool × Server
  unfolding emit
  send_to none bytes s = (false, s)
  send_to (some sock) bytes s =
      let (done, out, _) = send_all (peer sock bytes) bytes in (done, emit (sent sock out) s)

  unfoldable pub send_each : List RawSocket → List ℕ → Server → Server
  send_each [] frame s = s
  send_each (target ∷ rest) frame s = send_each rest frame (send_to target frame s).1

  unfoldable pub route_publish : Text → Text → Server → Server
  route_publish topic payload s =
      send_each (targets topic s.sessions) (encode_publish topic payload) s

  unfoldable pub publish_message : PublishPacket → Server → Server
  publish_message p s =
      route_publish p.topic p.payload
        (record s { history = s.history ++ (record { topic = p.topic; payload = p.payload } ∷ []) })

  -- `handle_publish` and `handle_subscribe` behind their decoder; only `ok` is `return true`.
  unfoldable pub accept_publish : Decoded PublishPacket → Server → Server
  accept_publish (ok p) s = publish_message p s
  accept_publish _ s = s

  unfoldable pub handle_publish : List ℕ → Server → Server
  unfolding accept_publish
  handle_publish bytes s = accept_publish (decode_publish bytes) s

  unfoldable pub accept_subscribe : ℕ → Text → Decoded SubscribePacket → Server → Server
  accept_subscribe sock client_id (ok p) s =
      let (sessions, return_codes) =
        subscribe client_id (map (λ filter. filter.0) p.filters) s.sessions in
      (send_to (some sock) (encode_suback p.packet_id return_codes)
        (record s { sessions = sessions })).1
  accept_subscribe sock client_id _ s = finish sock client_id s

  unfoldable pub handle_subscribe : ℕ → Text → List ℕ → Server → Server
  unfolding accept_subscribe
  handle_subscribe sock client_id bytes s =
      accept_subscribe sock client_id (decode_subscribe bytes) s

  -- The `switch` on the packet type.
  unfoldable pub dispatch : ℕ → ℕ → Text → List ℕ → Server → Control
  dispatch packet_type sock client_id body s =
      if nat_eq packet_type 3
      then again (handle_publish body s)
      else if nat_eq packet_type 8
      then again (handle_subscribe sock client_id body s)
      else if nat_eq packet_type 12
      then again (send_to (some sock) encode_pingresp s).1
      else leave (finish sock client_id s)

  -- One round of the `while` loop of `client_handler`, from its first read to its last; the first
  -- argument of each part is what the read before it gave. A failed read leaves the loop, and the
  -- handler ends the same way as on DISCONNECT and on an unknown packet.
  unfoldable pub body_read : Option (List ℕ × Server) → ℕ → ℕ → Text → Server → Control
  body_read none packet_type sock client_id s = leave (finish sock client_id s)
  body_read (some (body, s')) packet_type sock client_id s =
      dispatch packet_type sock client_id body s'

  unfoldable pub length_read : Option (ℕ × Server) → ℕ → ℕ → Text → Server → Control
  length_read none packet_type sock client_id s = leave (finish sock client_id s)
  length_read (some (remaining_length, s')) packet_type sock client_id s =
      body_read (receive remaining_length sock s') packet_type sock client_id s'

  unfoldable pub header_read : Option (List ℕ × Server) → ℕ → Text → Server → Control
  header_read (some (header ∷ [], s')) sock client_id s =
      length_read (receive_length sock s') (header / 16) sock client_id s'
  header_read _ sock client_id s = leave (finish sock client_id s)

  unfoldable pub packet_round : ℕ → Text → Server → Control
  packet_round sock client_id s = header_read (receive 1 sock s) sock client_id s

  -- The `while` loop; `none` means that the rounds were used up.
  unfoldable pub client_loop : ℕ → ℕ → Text → Server → Option Server
  client_loop zero sock client_id s = none
  client_loop (suc rounds) sock client_id s =
      let next =
        go_on (packet_round sock client_id s) (λ s'. client_loop rounds sock client_id s') in
      if s.running then next else some (finish sock client_id s)

  -- `client_handler` up to the loop: CONNECT, the session, CONNACK. `leave` is a return with the
  -- socket closed. An empty identifier is replaced by one made of an address.
  unfoldable pub register : ℕ → Text → Server → (Option Text) × Server
  register sock client_id s =
      let session : Session = record { client_id = client_id; sock = some sock; filters = [] } in
      let (done, s') =
        send_to (some sock) encode_connack
          (record s { sessions = assign client_id session s.sessions }) in
      if done then (some client_id, s') else (none, finish sock client_id s')

  unfoldable pub named : Text → ℕ → Text
  named [] address = text "anon-" ++ to_string address
  named (c ∷ cs) address = c ∷ cs

  -- The reads before the session, as in the parts of a round: the first argument of each part is
  -- what the read before it gave.
  unfoldable pub accept_connect : Decoded ConnectPacket → ℕ → ℕ → Server → (Option Text) × Server
  accept_connect (ok c) sock address s = register sock (named c.client_id address) s
  accept_connect _ sock address s = (none, emit (closed sock) s)

  unfoldable pub connect_read : Option (List ℕ × Server) → ℕ → ℕ → Server → (Option Text) × Server
  connect_read none sock address s = (none, emit (closed sock) s)
  connect_read (some (body, s')) sock address s =
      accept_connect (decode_connect body) sock address s'

  unfoldable pub connect_length : Option (ℕ × Server) → ℕ → ℕ → ℕ → Server → (Option Text) × Server
  connect_length none packet_type sock address s = (none, emit (closed sock) s)
  connect_length (some (remaining_length, s')) packet_type sock address s =
      let connect = connect_read (receive remaining_length sock s') sock address s' in
      if nat_eq packet_type 1 then connect else (none, emit (closed sock) s')

  unfoldable pub connect_header : Option (List ℕ × Server) → ℕ → ℕ → Server → (Option Text) × Server
  connect_header (some (header ∷ [], s')) sock address s =
      connect_length (receive_length sock s') (header / 16) sock address s'
  connect_header _ sock address s = (none, emit (closed sock) s)

  unfoldable pub handshake : ℕ → ℕ → Server → (Option Text) × Server
  handshake sock address s = connect_header (receive 1 sock s) sock address s

  unfoldable pub client_handler : ℕ → ℕ → ℕ → Server → Option Server
  client_handler rounds sock address s =
      let (connected, s') = handshake sock address s in
      elim connected [ none ↦ some s' | some client_id ↦ client_loop rounds sock client_id s' ]
