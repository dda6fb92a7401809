-- ===== src/Mqtt/Lifecycle/Steps.antt =====
-- The steps of src/mqtt_server.cpp, with the handlers of all connections interleaved packet by packet.
use mock_services.Threads.{ThreadGroup, join_all}
use mathlib.Core.Option.{some-injective}
use mock_services.Base.{
  ℕ, ◌/◌, ◌≡◌, ◌≢◌, refl, false, Option, none, some, List, [], ◌∷◌, arith, Text, text, text_key,
  nat_eq, if_split, Bool, sym,
}
use mock_services.Base.Dict.{find, assign}
use mock_services.Net.{RawSocket, Ready, select_failed, idle, accepted, Setup}
use mock_services.Mqtt.Wire.{Chunks}
use mock_services.Mqtt.Packets.{
  Decoded, ok, refused, overrun, stuck, ConnectPacket, decode_connect, encode_connack,
}
use mock_services.Mqtt.Server.{
  Session, Server, initial, emit, receive, receive_length, finish, send_to, packet_round, register,
  named, accept_connect, connect_read, connect_length, connect_header, handshake,
}
use mock_services.Mqtt.Server.Table.{
  IsEntry, IsTable, IsValid, IsTable-assign, finish-IsValid, after, receive-sessions,
  receive_length-sessions, send_to-sessions, packet_round-IsValid,
}
use mock_services.Mqtt.Lifecycle.{
  accept_round, Outcome, returned, threw, start, close_listener, stop_begin, stop_sessions,
  stop_end, clear_messages,
}

-- The server behind a call that may throw.
abbrev pub left : Outcome → Server
left (returned s) = s
left (threw what s) = s

module _ (peer : ℕ → List ℕ → List ℕ) where
  named-nonempty : (client_id : Text) (address : ℕ) → named peer client_id address ≢ []
  unfolding named text
  named-nonempty [] address e = cc
  named-nonempty (c ∷ client_id) address e = cc

  register-IsValid :
      (sock : ℕ) (client_id : Text) (s : Server)
      → client_id ≢ []
      → IsValid s
      → IsValid (register peer sock client_id s).1
  unfolding register
  register-IsValid sock client_id s some_id h =
      let session : Session = record { client_id = client_id; sock = some sock; filters = [] } in
      let known : Server = record s { sessions = assign client_id session s.sessions } in
      let k = IsTable-assign client_id session s.sessions (some_id, refl, λ e. cc) h in
      let (done, s') = send_to peer (some sock) encode_connack known in
      let kept : IsValid s' = rw (send_to-sessions peer (some sock) encode_connack known) k in
      if_split (λ (r : (Option Text) × Server). IsValid r.1) done _ _ (λ e. kept)
        (λ e. finish-IsValid sock client_id s' kept)

  accept_connect-IsValid :
      (r : Decoded ConnectPacket) (sock address : ℕ) (s : Server)
      → IsValid s
      → IsValid (accept_connect peer r sock address s).1
  unfolding accept_connect emit
  accept_connect-IsValid (ok c) sock address s h =
      register-IsValid sock (named peer c.client_id address) s (named-nonempty c.client_id address)
        h
  accept_connect-IsValid refused sock address s h = h
  accept_connect-IsValid overrun sock address s h = h
  accept_connect-IsValid stuck sock address s h = h

  connect_read-IsValid :
      (r : Option (List ℕ × Server)) (len sock address : ℕ) (s : Server)
      → receive len sock s ≡ r
      → IsValid s
      → IsValid (connect_read peer r sock address s).1
  unfolding connect_read emit
  connect_read-IsValid none len sock address s got h = h
  connect_read-IsValid (some (body, s')) len sock address s got h =
      accept_connect-IsValid (decode_connect body) sock address s'
        (rw (receive-sessions len sock s s' body got) h)

  connect_length-IsValid :
      (r : Option (ℕ × Server)) (kind sock address : ℕ) (s : Server)
      → receive_length sock s ≡ r
      → IsValid s
      → IsValid (connect_length peer r kind sock address s).1
  unfolding connect_length emit
  connect_length-IsValid none kind sock address s got h = h
  connect_length-IsValid (some (len, s')) kind sock address s got h =
      let k : IsValid s' = rw (receive_length-sessions sock len s s' got) h in
      if_split (λ (r : (Option Text) × Server). IsValid r.1) (nat_eq kind 1) _ _
        (λ e. connect_read-IsValid _ len sock address s' refl k) (λ e. k)

  connect_header-IsValid :
      (r : Option (List ℕ × Server)) (sock address : ℕ) (s : Server)
      → receive 1 sock s ≡ r
      → IsValid s
      → IsValid (connect_header peer r sock address s).1
  unfolding connect_header emit
  connect_header-IsValid none sock address s got h = h
  connect_header-IsValid (some ([], s')) sock address s got h = h
  connect_header-IsValid (some (header ∷ [], s')) sock address s got h =
      connect_length-IsValid _ (header / 16) sock address s' refl
        (rw (receive-sessions 1 sock s s' (header ∷ []) got) h)
  connect_header-IsValid (some (header ∷ b ∷ bs, s')) sock address s got h = h

  handshake-IsValid :
      (sock address : ℕ) (s : Server) → IsValid s → IsValid (handshake peer sock address s).1
  unfolding handshake
  handshake-IsValid sock address s = connect_header-IsValid _ sock address s refl

  -- What a server goes through: a test that starts, stops and reads it, the thread that accepts, and
  -- a handler of any connection, with one packet at a time. `stop` is three steps, with those of the
  -- threads that it waits for between them.
  pub data Step : Server → Server → Type 0 where
    started : (s : Server) (os : Setup) → Step s (left (start os s))
    stop_begun : (s : Server) → Step s (stop_begin s)
    sessions_stopped : (s : Server) → Step s (stop_sessions s)
    stop_ended : {s t : Server} (ends : ℕ → Bool) → stop_end ends s ≡ some t → Step s t
    cleared : (s : Server) → Step s (clear_messages s)
    accepting : (s : Server) (ready : Ready) → Step s (after (accept_round ready s))
    connected : (s : Server) (sock address : ℕ) → Step s (handshake peer sock address s).1
    packet :
        (s : Server) (sock : ℕ) (client_id : Text)
        → Step s (after (packet_round peer sock client_id s))
    ended : (s : Server) (sock : ℕ) (client_id : Text) → Step s (finish sock client_id s)

  pub data Reach (s : Server) : Server → Type 0 where
    here : Reach s s
    next : {t u : Server} → Reach s t → Step t u → Reach s u

  pub Reach-trans : {s t u : Server} → Reach s t → Reach t u → Reach s u
  Reach-trans r here = r
  Reach-trans r (next q step) = next (Reach-trans r q) step

start-sessions : (os : Setup) (s : Server) → (left (start os s)).sessions ≡ s.sessions
unfolding start emit
start-sessions os s = ground arith

empty-IsTable : IsTable []
unfolding find
empty-IsTable client_id session found = cc found

close_listener-sessions :
    (sock : RawSocket) (s : Server) → (close_listener sock s).sessions ≡ s.sessions
unfolding close_listener emit
close_listener-sessions none s = refl
close_listener-sessions (some sock) s = refl

stop_end-sessions :
    (ends : ℕ → Bool) (s t : Server) → stop_end ends s ≡ some t → t.sessions ≡ s.sessions
unfolding stop_end
stop_end-sessions ends s t e = go (join_all ends s.client_threads) e
  where
    go :
        (joined : Option (List ℕ × ThreadGroup))
        → (elim joined [ none ↦ none | some (_, kept) ↦ some (record s { client_threads = kept }) ])
          ≡ some t
        → t.sessions ≡ s.sessions
    go none e = cc
    go (some (threads, kept)) e = rw (sym (some-injective _ _ e)) refl

accept_round-IsValid :
    (ready : Ready) (s : Server) → IsValid s → IsValid (after (accept_round ready s))
unfolding accept_round
accept_round-IsValid select_failed s h = h
accept_round-IsValid idle s h = h
accept_round-IsValid (accepted none) s h = h
accept_round-IsValid (accepted (some sock)) s h = h

module _ (peer : ℕ → List ℕ → List ℕ) where
  Step-IsValid : {s t : Server} → Step peer s t → IsValid s → IsValid t
  unfolding clear_messages stop_begin stop_sessions stop_end
  Step-IsValid (started s os) h = rw (start-sessions os s) h
  Step-IsValid (stop_begun s) h =
      if_split IsValid s.running _ s
        (λ e. rw (close_listener-sessions s.listen_sock (record s { running = false })) h) (λ e. h)
  Step-IsValid (sessions_stopped s) h = empty-IsTable
  Step-IsValid (stop_ended {s} ends e) h = rw (stop_end-sessions ends s _ e) h
  Step-IsValid (cleared s) h = h
  Step-IsValid (accepting s ready) h = accept_round-IsValid ready s h
  Step-IsValid (connected s sock address) h = handshake-IsValid peer sock address s h
  Step-IsValid (packet s sock client_id) h = packet_round-IsValid peer sock client_id s h
  Step-IsValid (ended s sock client_id) h = finish-IsValid sock client_id s h

  Reach-keeps_IsValid : {s t : Server} → Reach peer s t → IsValid s → IsValid t
  Reach-keeps_IsValid here h = h
  Reach-keeps_IsValid (next r step) h = Step-IsValid step (Reach-keeps_IsValid r h)

-- However the handlers of all connections are interleaved, whatever the clients send and however much
-- of an answer they take, a session that the table of a server holds for an identifier carries that
-- identifier, which is not empty, and has a socket.
pub Reach-IsEntry :
    (peer : ℕ → List ℕ → List ℕ) (incoming : ℕ → Chunks) (s : Server) (client_id : Text)
    (session : Session)
    → Reach peer (initial incoming) s
    → find client_id s.sessions ≡ some session
    → IsEntry client_id session
Reach-IsEntry peer incoming s client_id session r =
    Reach-keeps_IsValid peer r empty-IsTable client_id session
