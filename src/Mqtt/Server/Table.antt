-- ===== src/Mqtt/Server/Table.antt =====
-- The session table of src/mqtt_server.cpp while the handlers of all connections work on it.
use mock_services.Base.{
  ℕ, ◌/◌, ◌≡◌, ◌≢◌, refl, inl, inr, Bool-cases, Option-cases, Option, none, some, List, [], ◌∷◌,
  map, arith, Text, text_key, text_eq_iff, nat_eq, if_split, ◌==◌,
}
use mock_services.Base.Dict.{Dict, find, assign, erase, find-erase, find-assign}
use mock_services.Net.{RawSocket}
use mock_services.Mqtt.Wire.{recv_exact, read_remaining_length}
use mock_services.Mqtt.Packets.{
  Decoded, ok, refused, overrun, stuck, decode_publish, decode_subscribe, encode_publish,
  encode_suback, encode_pingresp, PublishPacket, SubscribePacket,
}
use mock_services.Mqtt.Server.{
  Session, Server, Control, again, leave, emit, close_session, remove_session, receive,
  receive_length, finish, targets, subscribe, send_to, route_publish, publish_message, dispatch,
  handle_publish, handle_subscribe, accept_publish, accept_subscribe, body_read, length_read,
  header_read, packet_round,
}
use mock_services.Mqtt.Server.Delivery.{send_each_lem}

-- A session carries the name that it is found under, which is not empty, and has a socket.
abbrev pub IsEntry : Text → Session → Type 0
IsEntry client_id session =
    (client_id ≢ []) × (session.client_id ≡ client_id) × (session.sock ≢ none)

abbrev pub IsTable : Dict Text Session → Type 0
IsTable sessions =
    (client_id : Text) (session : Session)
    → find client_id sessions ≡ some session
    → IsEntry client_id session

pub IsTable-assign :
    (client_id : Text) (session : Session) (sessions : Dict Text Session)
    → IsEntry client_id session
    → IsTable sessions
    → IsTable (assign client_id session sessions)
IsTable-assign client_id session sessions entry h other found e =
    elim (Bool-cases (client_id == other)) [
      | inl same ↦
          let there : some session ≡ some found =
            rw same at (rw (find-assign client_id other session sessions) at e) in
          let is : session ≡ found = cc in
          let names : client_id ≡ other = (text_eq_iff client_id other).0 same in
          rw names at (rw is at entry)
      | inr differs ↦
          h other found (rw differs at (rw (find-assign client_id other session sessions) at e))
    ]

IsTable-erase :
    (client_id : Text) (sessions : Dict Text Session)
    → IsTable sessions
    → IsTable (erase client_id sessions)
IsTable-erase client_id sessions h other found e = elim (Bool-cases (client_id == other)) [
  | inl same ↦ cc (rw same at (rw (find-erase client_id other sessions) at e))
  | inr differs ↦ h other found (rw differs at (rw (find-erase client_id other sessions) at e))
]

pub close_session-sessions :
    (sock : RawSocket) (s : Server) → (close_session sock s).sessions ≡ s.sessions
unfolding close_session emit
close_session-sessions none s = refl
close_session-sessions (some sock) s = refl

-- The table of a server.
abbrev pub IsValid : Server → Type 0
IsValid s = IsTable s.sessions

pub finish-IsValid :
    (sock : ℕ) (client_id : Text) (s : Server) → IsValid s → IsValid (finish sock client_id s)
unfolding finish emit remove_session
finish-IsValid sock client_id s h = elim (Option-cases (find client_id s.sessions)) [
  | inl e ↦ rw (remove_session, e) h
  | inr (session, e) ↦ rw (remove_session, e) (IsTable-erase client_id s.sessions h)
]

subscribe-IsTable :
    (client_id : Text) (filters : List Text) (sessions : Dict Text Session)
    → IsTable sessions
    → IsTable (subscribe client_id filters sessions).0
unfolding subscribe
subscribe-IsTable client_id filters sessions h = elim (Option-cases (find client_id sessions)) [
  | inl e ↦ rw (subscribe, e) h
  | inr (session, e) ↦
      rw (subscribe, e) (IsTable-assign client_id _ sessions (h client_id session e) h)
]

-- What the loop goes on with or is left with.
abbrev pub after : Control → Server
after (again s) = s
after (leave s) = s

pub receive-sessions :
    (len sock : ℕ) (s s' : Server) (bytes : List ℕ)
    → receive len sock s ≡ some (bytes, s')
    → s'.sessions ≡ s.sessions
unfolding receive
receive-sessions len sock s s' bytes e = elim (Option-cases (recv_exact len (s.incoming sock))) [
  | inl failed ↦ cc (rw (failed, receive) at e)
  | inr ((front, later), got) ↦ ground (arith, e, got)
]

pub receive_length-sessions :
    (sock len : ℕ) (s s' : Server)
    → receive_length sock s ≡ some (len, s')
    → s'.sessions ≡ s.sessions
unfolding receive_length
receive_length-sessions sock len s s' e =
    elim (Option-cases (read_remaining_length (s.incoming sock))) [
      | inl failed ↦ cc (rw (failed, receive_length) at e)
      | inr ((l, later), got) ↦ ground (arith, e, got)
    ]

module _ (peer : ℕ → List ℕ → List ℕ) where
  accept_publish-IsValid :
      (r : Decoded PublishPacket) (s : Server) → IsValid s → IsValid (accept_publish peer r s)
  unfolding accept_publish publish_message route_publish
  accept_publish-IsValid (ok p) s h =
      rw (send_each_lem peer (targets p.topic s.sessions) (encode_publish p.topic p.payload) _) h
  accept_publish-IsValid refused s h = h
  accept_publish-IsValid overrun s h = h
  accept_publish-IsValid stuck s h = h

  pub send_to-sessions :
      (sock : RawSocket) (bytes : List ℕ) (s : Server)
      → (send_to peer sock bytes s).1.sessions ≡ s.sessions
  unfolding send_to emit
  send_to-sessions none bytes s = refl
  send_to-sessions (some k) bytes s = refl

  accept_subscribe-IsValid :
      (sock : ℕ) (id : Text) (r : Decoded SubscribePacket) (s : Server)
      → IsValid s
      → IsValid (accept_subscribe peer sock id r s)
  unfolding accept_subscribe
  accept_subscribe-IsValid sock id (ok p) s h =
      let filters = map (λ filter. filter.0) p.filters in
      let (sessions, return_codes) = subscribe id filters s.sessions in
      let subscribed : Server = record s { sessions = sessions } in
      rw (send_to-sessions (some sock) (encode_suback p.packet_id return_codes) subscribed)
        (subscribe-IsTable id filters s.sessions h)
  accept_subscribe-IsValid sock id refused s h = finish-IsValid sock id s h
  accept_subscribe-IsValid sock id overrun s h = finish-IsValid sock id s h
  accept_subscribe-IsValid sock id stuck s h = finish-IsValid sock id s h

  dispatch-IsValid :
      (kind sock : ℕ) (id : Text) (body : List ℕ) (s : Server)
      → IsValid s
      → IsValid (after (dispatch peer kind sock id body s))
  unfolding dispatch handle_publish handle_subscribe
  dispatch-IsValid kind sock id body s h =
      let P = λ (c : Control). IsValid (after c) in
      if_split P (nat_eq kind 3) _ _ (λ e. accept_publish-IsValid (decode_publish body) s h)
        λ e.
          if_split P (nat_eq kind 8) _ _
            (λ e. accept_subscribe-IsValid sock id (decode_subscribe body) s h)
            λ e.
              if_split P (nat_eq kind 12) _ _
                (λ e. rw (send_to-sessions (some sock) encode_pingresp s) h)
                (λ e. finish-IsValid sock id s h)

  body_read-IsValid :
      (r : Option (List ℕ × Server)) (len kind sock : ℕ) (id : Text) (s : Server)
      → receive len sock s ≡ r
      → IsValid s
      → IsValid (after (body_read peer r kind sock id s))
  unfolding body_read
  body_read-IsValid none len kind sock id s got h = finish-IsValid sock id s h
  body_read-IsValid (some (body, s')) len kind sock id s got h =
      dispatch-IsValid kind sock id body s' (rw (receive-sessions len sock s s' body got) h)

  length_read-IsValid :
      (r : Option (ℕ × Server)) (kind sock : ℕ) (id : Text) (s : Server)
      → receive_length sock s ≡ r
      → IsValid s
      → IsValid (after (length_read peer r kind sock id s))
  unfolding length_read
  length_read-IsValid none kind sock id s got h = finish-IsValid sock id s h
  length_read-IsValid (some (len, s')) kind sock id s got h =
      body_read-IsValid _ len kind sock id s' refl
        (rw (receive_length-sessions sock len s s' got) h)

  header_read-IsValid :
      (r : Option (List ℕ × Server)) (sock : ℕ) (id : Text) (s : Server)
      → receive 1 sock s ≡ r
      → IsValid s
      → IsValid (after (header_read peer r sock id s))
  unfolding header_read
  header_read-IsValid none sock id s got h = finish-IsValid sock id s h
  header_read-IsValid (some ([], s')) sock id s got h = finish-IsValid sock id s h
  header_read-IsValid (some (header ∷ [], s')) sock id s got h =
      length_read-IsValid _ (header / 16) sock id s' refl
        (rw (receive-sessions 1 sock s s' (header ∷ []) got) h)
  header_read-IsValid (some (header ∷ b ∷ bs, s')) sock id s got h = finish-IsValid sock id s h

  pub packet_round-IsValid :
      (sock : ℕ) (id : Text) (s : Server)
      → IsValid s
      → IsValid (after (packet_round peer sock id s))
  unfolding packet_round
  packet_round-IsValid sock id s = header_read-IsValid _ sock id s refl
