-- ===== src/Mqtt/Tests.antt =====
-- The theorems on src/mqtt_server.cpp at concrete packets, connections and sessions.
use mock_services.Base.{
  false, Bool, if◌then◌else◌, ℕ, ◌≡◌, ◌↔◌, refl, true, none, some, List, [], ◌∷◌, ◌++◌, arith,
  length, Text, text_eq, text_key,
}
use mock_services.Base.Dict.{find}
use mock_services.Net.{RawSocket}
use mock_services.Mqtt.Wire.{
  Chunks, decode_remaining_length, encode_remaining_length, recv_exact, read_remaining_length,
}
use mock_services.Mqtt.Wire.Length.{decode-encode}
use mock_services.Mqtt.Wire.Streams.{IsOpen, Agrees, recv_exact_short, read_remaining_length-Agrees}
use mock_services.Mqtt.Packets.{
  ok, decode_connect, decode_publish, decode_subscribe, encode_publish, publish_body, PublishPacket,
  ConnectPacket,
}
use mock_services.Mqtt.Packets.Bounds.{Answers, decoders_answer}
use mock_services.Mqtt.Packets.RoundTrip.{
  word, filters_body, connect_body, decode_publish-body, decode_subscribe-body, decode_connect-body,
}
use mock_services.Mqtt.Topics.{split_topic, topic_matches}
use mock_services.Mqtt.Topics.Matching.{Matches, topic_matches_iff}
use mock_services.Mqtt.Server.{Session, Server, initial, handle_publish, client_loop}
use mock_services.Mqtt.Server.Delivery.{Recipients, deliveries, handle_publish_lem}
use mock_services.Mqtt.Lifecycle.Runs.{client_loop_runs}
use mock_services.Net.{Setup}
use mock_services.Base.Dict.{assign}
use mock_services.Base.{text, text_ltb}
use mock_services.Mqtt.Wire.{recv_loop, recv, read_length_loop, send_all}
use mock_services.Mqtt.Packets.{read8, read16, slice, encode_connack}
use mock_services.Mqtt.Server.{
  handshake, connect_header, connect_length, connect_read, accept_connect, receive, receive_length,
  register, named, send_to, emit,
}
use mock_services.Mqtt.Server.Table.{IsEntry}
use mock_services.Mqtt.Lifecycle.{start, stop_begin, stop_sessions, stop_end}
use mock_services.Mqtt.Lifecycle.Stopping.{listener_closing, all_closing, stop_closes_sessions}
use mock_services.Threads.Joining.{all_end}
use mock_services.Mqtt.Lifecycle.Steps.{left, Reach, here, next, started, connected, Reach-IsEntry}

abbrev topic : Text
topic = b'a' ∷ b'/' ∷ b'b' ∷ []

abbrev filter : Text
filter = b'a' ∷ b'/' ∷ b'+' ∷ []

abbrev name : Text
name = b'c' ∷ []

abbrev session : Session
session = record { client_id = name; sock = some 7; filters = filter ∷ [] }

-- A PINGREQ, then a DISCONNECT, in pieces.
abbrev incoming : ℕ → Chunks
incoming sock = (0xc0 ∷ []) ∷ (0 ∷ 0xe0 ∷ []) ∷ (0 ∷ []) ∷ []

abbrev server : Server
server = record (initial incoming) { running = true; sessions = (name, session) ∷ [] }

-- Every `send` takes up to 100 bytes.
abbrev peer : ℕ → List ℕ → List ℕ
peer sock bytes = 100 ∷ []

abbrev packet : PublishPacket
packet = record { topic = topic; payload = 1 ∷ 2 ∷ [] }

handle_publish_lem_example :
    let s' = handle_publish peer (publish_body topic (1 ∷ 2 ∷ [])) server in
    (s'.history ≡ record { topic = topic; payload = 1 ∷ 2 ∷ [] } ∷ [])
    × (s'.sessions ≡ (name, session) ∷ [])
    × ((socks : List RawSocket) × Recipients topic server.sessions socks
        × (s'.events ≡ deliveries peer (encode_publish topic (1 ∷ 2 ∷ [])) socks))
handle_publish_lem_example =
    handle_publish_lem peer (publish_body topic (1 ∷ 2 ∷ [])) packet server
      (decode_publish-body topic (1 ∷ 2 ∷ []) (omega arith) (omega arith))

topic_matches_iff_example :
    (topic_matches filter topic ≡ true) ↔ Matches (split_topic filter) (split_topic topic)
topic_matches_iff_example = topic_matches_iff filter topic

decoders_answer_example :
    Answers (decode_connect (0 ∷ 5 ∷ b'a' ∷ []))
    × Answers (decode_publish (0 ∷ 5 ∷ b'a' ∷ []))
    × Answers (decode_subscribe (0 ∷ 5 ∷ b'a' ∷ []))
decoders_answer_example = decoders_answer (0 ∷ 5 ∷ b'a' ∷ [])

abbrev pieces : Chunks
pieces = (0xc1 ∷ []) ∷ (2 ∷ 9 ∷ []) ∷ []

pieces-IsOpen : IsOpen pieces
pieces-IsOpen = ((λ e. cc), ((λ e. cc), tt))

read_remaining_length-Agrees_example :
    Agrees pieces (decode_remaining_length (0xc1 ∷ 2 ∷ 9 ∷ [])) (read_remaining_length pieces)
read_remaining_length-Agrees_example = read_remaining_length-Agrees pieces pieces-IsOpen

recv_exact_short_example : recv_exact 4 pieces ≡ none
recv_exact_short_example = recv_exact_short 4 pieces (omega arith)

decode-encode_example :
    decode_remaining_length (encode_remaining_length 321 ++ (9 ∷ []))
    ≡ some (321, length (encode_remaining_length 321))
decode-encode_example = decode-encode 321 (9 ∷ []) (omega arith)

decode_publish-body_example :
    decode_publish (publish_body topic (1 ∷ [])) ≡ ok (record { topic = topic; payload = 1 ∷ [] })
decode_publish-body_example = decode_publish-body topic (1 ∷ []) (omega arith) (omega arith)

decode_subscribe-body_example :
    decode_subscribe (word 10 ++ filters_body ((filter, 0) ∷ (topic, 1) ∷ []))
    ≡ ok (record { packet_id = 10; filters = (filter, 0) ∷ (topic, 1) ∷ [] })
decode_subscribe-body_example = decode_subscribe-body 10 ((filter, 0) ∷ (topic, 1) ∷ [])

abbrev connect : ConnectPacket
connect = record { client_id = name; keepalive = 60; flags = 2 }

decode_connect-body_example : decode_connect (connect_body connect (1 ∷ [])) ≡ ok connect
decode_connect-body_example = decode_connect-body connect (1 ∷ [])

client_loop_runs_example :
    (s' : Server) × (client_loop peer 5 7 name server ≡ some s')
    × Reach peer server s'
    × (find name s'.sessions ≡ none)
client_loop_runs_example = client_loop_runs peer 5 7 name server (omega arith)

-- Every socket delivers a CONNECT and then a PINGREQ.
abbrev arriving : ℕ → Chunks
arriving sock =
    (0x10 ∷ 13 ∷ 0 ∷ 4 ∷ b'M' ∷ b'Q' ∷ b'T' ∷ b'T' ∷ 4 ∷ 2 ∷ 0 ∷ 60 ∷ 0 ∷ 1 ∷ b'c' ∷ [])
    ∷ (0xc0 ∷ 0 ∷ [])
    ∷ []

abbrev started_server : Server
started_server = left (
    start (record { socket = some 3; bound = true; name = some 1883; listening = true })
      (initial arriving))

-- Two connections with one identifier.
abbrev connected_server : Server
connected_server = (handshake peer 8 0 (handshake peer 7 0 started_server).1).1

connected_server-Reach : Reach peer (initial arriving) connected_server
connected_server-Reach =
    let setup : Setup = record {
      socket = some 3;
      bound = true;
      name = some 1883;
      listening = true;
    } in
    let s₁ = started_server in
    let s₂ = (handshake peer 7 0 s₁).1 in
    let there = next here (started (initial arriving) setup) in
    next (next there (connected s₁ 7 0)) (connected s₂ 8 0)

-- The session of the second connection.
abbrev second_session : Session
second_session = record { client_id = name; sock = some 8; filters = [] }

second_session-found : find name connected_server.sessions ≡ some second_session
unfolding find assign text text_ltb start handshake connect_header connect_length connect_read
    accept_connect receive receive_length recv_exact recv_loop recv read_remaining_length
    read_length_loop decode_connect read8 read16 slice register named send_to send_all
    encode_connack emit text_eq
second_session-found = refl

Reach-IsEntry_example : IsEntry name second_session
Reach-IsEntry_example =
    Reach-IsEntry peer arriving connected_server name second_session connected_server-Reach
      second_session-found

stop_closes_sessions_example :
    ((stop_begin server).events ≡ server.events ++ listener_closing none)
    × ((stop_begin server).listen_sock ≡ none)
    × ((stop_begin server).sessions ≡ server.sessions)
    × ((stop_begin server).running ≡ false)
    × ((t : Server)
        → ((stop_sessions t).events ≡ t.events ++ all_closing t.sessions)
          × ((stop_sessions t).sessions ≡ []))
    × ((t : Server) (ends : ℕ → Bool)
        → stop_end ends t ≡ (
            if all_end ends t.client_threads
            then some (record t { client_threads = [] })
            else none))
stop_closes_sessions_example = stop_closes_sessions server refl
