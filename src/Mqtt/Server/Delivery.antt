-- ===== src/Mqtt/Server/Delivery.antt =====
-- Who receives a published message: `handle_publish` of src/mqtt_server.cpp.
use mathlib.Core.List.{Memᴰ}
use mock_services.Base.{
  ℕ, ◌≡◌, refl, ap, ◌∙◌, inl, inr, Bool-cases, true, none, some, List, [], ◌∷◌, ◌++◌, append_assoc,
  append-nil, arith, any, Text,
}
use mock_services.Base.Dict.{Dict}
use mock_services.Net.{RawSocket, Event, sent}
use mock_services.Mqtt.Wire.{send_all}
use mock_services.Mqtt.Packets.{ok, refused, decode_publish, encode_publish, PublishPacket}
use mock_services.Mqtt.Topics.{split_topic, topic_matches}
use mock_services.Mqtt.Topics.Matching.{Matches, topic_matches_iff}
use mock_services.Mqtt.Server.{
  Session, Server, emit, targets, send_to, send_each, route_publish, publish_message,
  accept_publish, handle_publish,
}

-- The session has a filter that matches the topic.
abbrev pub Wants : Text → Session → Type 0
Wants topic session =
    (f : Text) × Memᴰ f session.filters × Matches (split_topic f) (split_topic topic)

-- The sockets of the sessions that want the topic, once for each such session, in the order of the
-- table.
pub data Recipients (topic : Text) : Dict Text Session → List RawSocket → Type 0 where
  done : Recipients topic [] []
  chosen :
      {client_id : Text} {session : Session} {rest : Dict Text Session} {socks : List RawSocket}
      → Wants topic session
      → Recipients topic rest socks
      → Recipients topic ((client_id, session) ∷ rest) (session.sock ∷ socks)
  passed :
      {client_id : Text} {session : Session} {rest : Dict Text Session} {socks : List RawSocket}
      → ¬ Wants topic session
      → Recipients topic rest socks
      → Recipients topic ((client_id, session) ∷ rest) socks

matching_filter :
    (topic : Text) (filters : List Text)
    → any (λ filter. topic_matches filter topic) filters ≡ true
    → (f : Text) × Memᴰ f filters × Matches (split_topic f) (split_topic topic)
matching_filter topic [] e = cc
matching_filter topic (f ∷ fs) e = elim (Bool-cases (topic_matches f topic)) [
  | inl yes' ↦ (f, Memᴰ.head refl, (topic_matches_iff f topic).0 yes')
  | inr no' ↦ let (g, m, h) = matching_filter topic fs (ground arith) in (g, Memᴰ.tail m, h)
]

listed_filter :
    (topic f : Text) {filters : List Text}
    → Memᴰ f filters
    → topic_matches f topic ≡ true
    → any (λ filter. topic_matches filter topic) filters ≡ true
listed_filter topic f (Memᴰ.head e) h = ground arith
listed_filter topic f (Memᴰ.tail m) h = ground (arith, listed_filter topic f m h)

targets-Recipients :
    (topic : Text) (sessions : Dict Text Session)
    → Recipients topic sessions (targets topic sessions)
unfolding targets
targets-Recipients topic [] = done
targets-Recipients topic ((client_id, session) ∷ rest) =
    elim (Bool-cases (any (λ filter. topic_matches filter topic) session.filters)) [
      | inl has_filter ↦ rw has_filter (
          chosen (matching_filter topic session.filters has_filter) (targets-Recipients topic rest))
      | inr no_filter ↦ rw no_filter (
          passed
            (λ (f, listed, h).
              cc (no_filter, listed_filter topic f listed ((topic_matches_iff f topic).1 h)))
            (targets-Recipients topic rest))
    ]

module _ (peer : ℕ → List ℕ → List ℕ) where
  -- One attempt to send the frame to each socket, as far as its peer takes the bytes.
  abbrev pub deliveries : List ℕ → List RawSocket → List Event
  deliveries frame [] = []
  deliveries frame (none ∷ socks) = deliveries frame socks
  deliveries frame (some k ∷ socks) =
      sent k (send_all (peer k frame) frame).1 ∷ deliveries frame socks

  pub send_each_lem :
      (socks : List RawSocket) (frame : List ℕ) (s : Server)
      → send_each peer socks frame s ≡ record s { events = s.events ++ deliveries frame socks }
  unfolding send_each send_to emit
  send_each_lem [] frame s = rw append-nil refl
  send_each_lem (none ∷ socks) frame s = send_each_lem socks frame s
  send_each_lem (some k ∷ socks) frame s =
      let event = sent k (send_all (peer k frame) frame).1 in
      send_each_lem socks frame (record s { events = s.events ++ (event ∷ []) })
      ∙ ap (λ es. record s { events = es }) (append_assoc s.events (event ∷ []) _)

  -- A decodable PUBLISH is appended to the history and leaves the sessions as they are; its frame
  -- goes, in the order of the table, once to each session with a filter that matches the topic by
  -- the rules for + and #, and to no other. A session without a socket gets nothing.
  pub handle_publish_lem :
      (bytes : List ℕ) (p : PublishPacket) (s : Server)
      → decode_publish bytes ≡ ok p
      → let s' = handle_publish peer bytes s in
        (s'.history ≡ s.history ++ (record { topic = p.topic; payload = p.payload } ∷ []))
        × (s'.sessions ≡ s.sessions)
        × ((socks : List RawSocket) × Recipients p.topic s.sessions socks
            × (s'.events ≡ s.events ++ deliveries (encode_publish p.topic p.payload) socks))
  unfolding handle_publish publish_message route_publish
  handle_publish_lem bytes p s e =
      rw (e, accept_publish)
        (rw send_each_lem
          (refl, refl, (targets p.topic s.sessions, targets-Recipients p.topic s.sessions, refl)))

  -- A packet that `decode_publish` does not read leaves the server as it is.
  pub handle_publish_refused :
      (bytes : List ℕ) (s : Server)
      → decode_publish bytes ≡ refused
      → handle_publish peer bytes s ≡ s
  unfolding handle_publish
  handle_publish_refused bytes s e = rw (e, accept_publish)
