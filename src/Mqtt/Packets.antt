-- ===== src/Mqtt/Packets.antt =====
-- src/mqtt_server.cpp, the packets: decoders of CONNECT, PUBLISH and SUBSCRIBE bodies and encoders
-- of the server's answers. The decoders get `size` bytes, here `length bytes`.
pub mod Bounds
pub mod RoundTrip
use mock_services.Base.{
  ℕ, zero, suc, ◌+◌, ◌*◌, ◌/◌, ◌%◌, Bool, true, false, not, ◌||◌, none, some, List, [], ◌∷◌, ◌++◌,
  ltb, leb, nat_eq, if◌then◌else◌, length, take, drop, get_elem?, Text,
}
use mock_services.Mqtt.Wire.{frame_packet}

-- A decoder's answer: `refused` is `return false`. The last two are no answers of the program:
-- `overrun` is a read outside the `size` bytes, `stuck` a loop that used up its rounds.
pub data Decoded {ℓ} (A : Type ℓ) : Type ℓ where
  ok : A → Decoded A
  refused overrun stuck : Decoded A

infixl 5 ◌>>=◌ ◌>>◌
abbrev pub ◌>>=◌ {ℓ κ} : {A : Type ℓ} {B : Type κ} → Decoded A → (A → Decoded B) → Decoded B
ok a >>= f = f a
refused >>= f = refused
overrun >>= f = overrun
stuck >>= f = stuck

abbrev pub ◌>>◌ {ℓ} : {B : Type ℓ} → Decoded (Unit {0}) → Decoded B → Decoded B
m >> k = m >>= λ _. k

-- `if (test) return false;`
abbrev pub refuse_if : Bool → Decoded (Unit {0})
refuse_if true = refused
refuse_if false = ok tt

-- `data[i]`
unfoldable pub read8 : List ℕ → ℕ → Decoded ℕ
read8 bytes i = elim (get_elem? bytes i) [ some b ↦ ok b | none ↦ overrun ]

-- `(static_cast<uint16_t>(data[i]) << 8) | data[i + 1]`; the two bytes do not overlap.
unfoldable pub read16 : List ℕ → ℕ → Decoded ℕ
unfolding read8
read16 bytes i = do high ← read8 bytes i; low ← read8 bytes (i + 1); ok (high * 256 + low)

-- `assign(data + offset, len)`
unfoldable pub slice : List ℕ → ℕ → ℕ → Decoded Text
slice bytes offset len =
    if leb (offset + len) (length bytes) then ok (take len (drop offset bytes)) else overrun

pub record ConnectPacket : Type 0 where
  pub client_id : Text
  pub keepalive : ℕ
  pub flags : ℕ

unfoldable pub decode_connect : List ℕ → Decoded ConnectPacket
decode_connect bytes = do
  refuse_if (ltb (length bytes) 10)
  name_len ← read16 bytes 0
  m ← read8 bytes 2
  q ← read8 bytes 3
  t ← read8 bytes 4
  t' ← read8 bytes 5
  refuse_if (
      not (nat_eq name_len 4)
      || not (nat_eq m b'M')
      || not (nat_eq q b'Q')
      || not (nat_eq t b'T')
      || not (nat_eq t' b'T'))
  level ← read8 bytes 6
  refuse_if (not (nat_eq level 4))
  flags ← read8 bytes 7
  keepalive ← read16 bytes 8
  refuse_if (ltb (length bytes) (10 + 2))
  client_len ← read16 bytes 10
  refuse_if (ltb (length bytes) (12 + client_len))
  client_id ← slice bytes 12 client_len
  ok (record { client_id = client_id; keepalive = keepalive; flags = flags })

pub record PublishPacket : Type 0 where
  pub topic : Text
  pub payload : Text

unfoldable pub decode_publish : List ℕ → Decoded PublishPacket
decode_publish bytes = do
  refuse_if (ltb (length bytes) 2)
  topic_len ← read16 bytes 0
  refuse_if (nat_eq topic_len 0)
  refuse_if (ltb (length bytes) (2 + topic_len))
  topic ← slice bytes 2 topic_len
  ok (record { topic = topic; payload = drop (2 + topic_len) bytes })

pub record SubscribePacket : Type 0 where
  pub packet_id : ℕ
  pub filters : List (Text × ℕ)

-- The `while` loop of `decode_subscribe`.
unfoldable pub subscribe_loop : ℕ → List ℕ → ℕ → List (Text × ℕ) → Decoded (List (Text × ℕ))
subscribe_loop zero bytes offset filters = stuck
subscribe_loop (suc rounds) bytes offset filters =
    let round : Decoded (List (Text × ℕ)) = do
      refuse_if (ltb (length bytes) (offset + 2))
      filter_len ← read16 bytes offset
      refuse_if (ltb (length bytes) (offset + 2 + filter_len + 1))
      filter ← slice bytes (offset + 2) filter_len
      qos ← read8 bytes (offset + 2 + filter_len)
      subscribe_loop rounds bytes (offset + 2 + filter_len + 1) (filters ++ ((filter, qos) ∷ []))
    in if ltb offset (length bytes) then round else ok filters

-- A round takes three bytes at least.
unfoldable pub decode_subscribe : List ℕ → Decoded SubscribePacket
decode_subscribe bytes = do
  refuse_if (ltb (length bytes) 2)
  packet_id ← read16 bytes 0
  filters ← subscribe_loop (length bytes) bytes 2 []
  ok (record { packet_id = packet_id; filters = filters })

unfoldable pub encode_connack : List ℕ
unfolding frame_packet
encode_connack = frame_packet 0x20 (0x00 ∷ 0x00 ∷ [])

unfoldable pub encode_suback : ℕ → List ℕ → List ℕ
unfolding frame_packet
encode_suback packet_id codes =
    frame_packet 0x90 ((packet_id / 256 % 256) ∷ (packet_id % 256) ∷ codes)

-- The body that `encode_publish` builds; the length is cast to 16 bits.
unfoldable pub publish_body : Text → Text → List ℕ
publish_body topic payload =
    let topic_len = length topic % 65536 in
    (topic_len / 256) ∷ (topic_len % 256) ∷ (topic ++ payload)

unfoldable pub encode_publish : Text → Text → List ℕ
unfolding frame_packet publish_body
encode_publish topic payload = frame_packet 0x30 (publish_body topic payload)

unfoldable pub encode_pingresp : List ℕ
encode_pingresp = 0xd0 ∷ 0x00 ∷ []
