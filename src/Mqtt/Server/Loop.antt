-- ===== src/Mqtt/Server/Loop.antt =====
-- The packet loop of `client_handler` in src/mqtt_server.cpp.
use mock_services.Base.{
  ℕ, zero, suc, ◌+◌, ◌/◌, ◌≤◌, ◌<◌, ◌≡◌, refl, ap, ◌∙◌, inl, inr, Bool, Option-cases, true, false,
  Option, none, some, List, [], ◌∷◌, arith, length, nat_eq, text_key, if◌then◌else◌, Text,
}
use mock_services.Base.Dict.{find, key_refl}
use mock_services.Net.{RawSocket}
use mock_services.Mqtt.Wire.{Chunks, recv_exact, read_remaining_length}
use mock_services.Mqtt.Wire.Streams.{flat}
use mock_services.Mqtt.Wire.Takes.{recv_exact_takes, read_remaining_length_takes}
use mock_services.Mqtt.Packets.{
  Decoded, ok, refused, overrun, stuck, decode_publish, decode_subscribe, encode_pingresp,
  PublishPacket, SubscribePacket,
}
use mock_services.Mqtt.Server.Sessions.{remove_session_lem}
use mock_services.Mqtt.Server.{
  Server, Control, again, leave, go_on, emit, close_session, remove_session, receive,
  receive_length, finish, send_to, send_each, route_publish, publish_message, dispatch,
  handle_publish, handle_subscribe, accept_publish, accept_subscribe, body_read, length_read,
  header_read, packet_round, client_loop,
}

-- The bytes that a socket still delivers.
abbrev pub pending : ℕ → Server → ℕ
pending sock s = length (flat (s.incoming sock))

receive_takes :
    (len sock : ℕ) (s s' : Server) (bs : List ℕ)
    → receive len sock s ≡ some (bs, s')
    → pending sock s' + len ≡ pending sock s
unfolding receive
receive_takes len sock s s' bs e = elim (Option-cases (recv_exact len (s.incoming sock))) [
  | inl failed ↦ cc (rw (failed, receive) at e)
  | inr ((front, later), got) ↦
      let took = recv_exact_takes len front (s.incoming sock) later got in
      ground (arith, took, e, got)
]

receive_length_takes :
    (sock len : ℕ) (s s' : Server)
    → receive_length sock s ≡ some (len, s')
    → pending sock s' ≤ pending sock s
unfolding receive_length
receive_length_takes sock len s s' e =
    elim (Option-cases (read_remaining_length (s.incoming sock))) [
      | inl failed ↦ cc (rw (failed, receive_length) at e)
      | inr ((l, later), got) ↦
          let took = read_remaining_length_takes (s.incoming sock) later l got in
          ground (arith, took, e, got)
    ]

remove_session-incoming : (id : Text) (s : Server) → (remove_session id s).incoming ≡ s.incoming
unfolding remove_session close_session emit
remove_session-incoming id s = ground arith

finish-incoming : (sock : ℕ) (id : Text) (s : Server) → (finish sock id s).incoming ≡ s.incoming
unfolding finish emit
finish-incoming sock id s = remove_session-incoming id s

finish_absent : (sock : ℕ) (id : Text) (s : Server) → find id (finish sock id s).sessions ≡ none
unfolding finish emit
finish_absent sock id s = (remove_session_lem id id s).0 ∙ rw key_refl

module _ (peer : ℕ → List ℕ → List ℕ) where
  send_to-incoming :
      (sock : RawSocket) (bytes : List ℕ) (s : Server)
      → (send_to peer sock bytes s).1.incoming ≡ s.incoming
  unfolding send_to emit
  send_to-incoming none bytes s = refl
  send_to-incoming (some k) bytes s = refl

  send_each-incoming :
      (socks : List RawSocket) (frame : List ℕ) (s : Server)
      → (send_each peer socks frame s).incoming ≡ s.incoming
  unfolding send_each
  send_each-incoming [] frame s = refl
  send_each-incoming (k ∷ socks) frame s =
      send_each-incoming socks frame (send_to peer k frame s).1 ∙ send_to-incoming k frame s

  accept_publish-incoming :
      (r : Decoded PublishPacket) (s : Server) → (accept_publish peer r s).incoming ≡ s.incoming
  unfolding accept_publish publish_message route_publish
  accept_publish-incoming (ok p) s = send_each-incoming _ _ _
  accept_publish-incoming refused s = refl
  accept_publish-incoming overrun s = refl
  accept_publish-incoming stuck s = refl

  accept_subscribe-incoming :
      (sock : ℕ) (id : Text) (r : Decoded SubscribePacket) (s : Server)
      → (accept_subscribe peer sock id r s).incoming ≡ s.incoming
  unfolding accept_subscribe
  accept_subscribe-incoming sock id (ok p) s = send_to-incoming (some sock) _ _
  accept_subscribe-incoming sock id refused s = finish-incoming sock id s
  accept_subscribe-incoming sock id overrun s = finish-incoming sock id s
  accept_subscribe-incoming sock id stuck s = finish-incoming sock id s

  pending_of :
      (sock : ℕ) (s s' : Server) → s'.incoming ≡ s.incoming → pending sock s' ≡ pending sock s
  pending_of sock s s' e = ap (λ (f : ℕ → Chunks). length (flat (f sock))) e

  dispatch-pending :
      (kind sock : ℕ) (id : Text) (body : List ℕ) (s s' : Server)
      → dispatch peer kind sock id body s ≡ again s'
      → pending sock s' ≡ pending sock s
  unfolding dispatch handle_publish handle_subscribe
  dispatch-pending kind sock id body s s' e = ground (
    arith,
    pending_of sock s _ (accept_publish-incoming (decode_publish body) s),
    pending_of sock s _ (accept_subscribe-incoming sock id (decode_subscribe body) s),
    pending_of sock s _ (send_to-incoming (some sock) encode_pingresp s),
  )

  body_read_takes :
      (r : Option (List ℕ × Server)) (len kind sock : ℕ) (id : Text) (s s' : Server)
      → receive len sock s ≡ r
      → body_read peer r kind sock id s ≡ again s'
      → pending sock s' ≤ pending sock s
  unfolding body_read
  body_read_takes none len kind sock id s s' got e = cc
  body_read_takes (some (body, s₁)) len kind sock id s s' got e =
      omega
        (arith, dispatch-pending kind sock id body s₁ s' e, receive_takes len sock s s₁ body got)

  length_read_takes :
      (r : Option (ℕ × Server)) (kind sock : ℕ) (id : Text) (s s' : Server)
      → receive_length sock s ≡ r
      → length_read peer r kind sock id s ≡ again s'
      → pending sock s' ≤ pending sock s
  unfolding length_read
  length_read_takes none kind sock id s s' got e = cc
  length_read_takes (some (len, s₁)) kind sock id s s' got e = omega (
    arith,
    body_read_takes _ len kind sock id s₁ s' refl e,
    receive_length_takes sock len s s₁ got,
  )

  header_read_takes :
      (r : Option (List ℕ × Server)) (sock : ℕ) (id : Text) (s s' : Server)
      → receive 1 sock s ≡ r
      → header_read peer r sock id s ≡ again s'
      → pending sock s' < pending sock s
  unfolding header_read
  header_read_takes (some (header ∷ [], s₁)) sock id s s' got e = omega (
    arith,
    length_read_takes _ (header / 16) sock id s₁ s' refl e,
    receive_takes 1 sock s s₁ (header ∷ []) got,
  )
  header_read_takes r sock id s s' got e = cc

  -- Where a round ends the handler, the session of that identifier is gone.
  abbrev LeavesClean : Text → Control → Type 0
  LeavesClean id (again s) = Unit
  LeavesClean id (leave s) = find id s.sessions ≡ none

  dispatch-LeavesClean :
      (kind sock : ℕ) (id : Text) (body : List ℕ) (s : Server)
      → LeavesClean id (dispatch peer kind sock id body s)
  unfolding dispatch
  dispatch-LeavesClean kind sock id body s = leaf (nat_eq kind 3) (nat_eq kind 8) (nat_eq kind 12)
    where
      leaf :
          (b c d : Bool)
          → LeavesClean id (
              if b
              then again (handle_publish peer body s)
              else if c
              then again (handle_subscribe peer sock id body s)
              else if d
              then again (send_to peer (some sock) encode_pingresp s).1
              else leave (finish sock id s))
      leaf true c d = tt
      leaf false true d = tt
      leaf false false true = tt
      leaf false false false = finish_absent sock id s

  body_read-LeavesClean :
      (r : Option (List ℕ × Server)) (kind sock : ℕ) (id : Text) (s : Server)
      → LeavesClean id (body_read peer r kind sock id s)
  unfolding body_read
  body_read-LeavesClean none kind sock id s = finish_absent sock id s
  body_read-LeavesClean (some (body, s')) kind sock id s = dispatch-LeavesClean kind sock id body s'

  length_read-LeavesClean :
      (r : Option (ℕ × Server)) (kind sock : ℕ) (id : Text) (s : Server)
      → LeavesClean id (length_read peer r kind sock id s)
  unfolding length_read
  length_read-LeavesClean none kind sock id s = finish_absent sock id s
  length_read-LeavesClean (some (len, s')) kind sock id s =
      body_read-LeavesClean (receive len sock s') kind sock id s'

  header_read-LeavesClean :
      (r : Option (List ℕ × Server)) (sock : ℕ) (id : Text) (s : Server)
      → LeavesClean id (header_read peer r sock id s)
  unfolding header_read
  header_read-LeavesClean (some (header ∷ [], s')) sock id s =
      length_read-LeavesClean (receive_length sock s') (header / 16) sock id s'
  header_read-LeavesClean r sock id s = finish_absent sock id s

  go_on_ends :
      (id : Text) (c : Control) (next : Server → Option Server)
      → LeavesClean id c
      → ((s : Server)
          → c ≡ again s
          → (s' : Server) × (next s ≡ some s') × (find id s'.sessions ≡ none))
      → (s' : Server) × (go_on c next ≡ some s') × (find id s'.sessions ≡ none)
  go_on_ends id (again s) next clean h = h s refl
  go_on_ends id (leave s) next clean h = (s, refl, clean)

  if_ends :
      (id : Text) (b : Bool) (x y : Option Server)
      → ((s' : Server) × (x ≡ some s') × (find id s'.sessions ≡ none))
      → ((s' : Server) × (y ≡ some s') × (find id s'.sessions ≡ none))
      → (s' : Server) × ((if b then x else y) ≡ some s') × (find id s'.sessions ≡ none)
  if_ends id true x y h k = h
  if_ends id false x y h k = k

  -- With more rounds than the socket still delivers bytes the loop ends, and then the table holds no
  -- session of the client's identifier.
  pub client_loop_ends :
      (rounds sock : ℕ) (id : Text) (s : Server)
      → pending sock s < rounds
      → (s' : Server) × (client_loop peer rounds sock id s ≡ some s') × (find id s'.sessions ≡ none)
  unfolding client_loop packet_round
  client_loop_ends zero sock id s h = absurd (omega arith)
  client_loop_ends (suc rounds) sock id s h =
      if_ends id s.running _ _
        (go_on_ends id _ _ (header_read-LeavesClean (receive 1 sock s) sock id s) λ s' e.
          let took = header_read_takes (receive 1 sock s) sock id s s' refl e in
          client_loop_ends rounds sock id s' (omega arith))
        (finish sock id s, refl, finish_absent sock id s)
