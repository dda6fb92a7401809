-- ===== src/Mqtt/Packets/RoundTrip.antt =====
-- The decoders of src/mqtt_server.cpp on well-formed bodies, each written by a reference encoder.
use mock_services.Base.{
  ℕ, zero, suc, ◌+◌, ◌/◌, ◌%◌, ◌<◌, ◌≡◌, refl, ap, ◌∙◌, Bool, true, false, List, [], ◌∷◌, ◌++◌,
  append_assoc, append-nil, arith, ltb, nat_eq, if◌then◌else◌, length, length-append, take, drop,
  take-length_append, drop-length_append, Text,
}
use mock_services.Mqtt.Packets.{
  Decoded, ok, ◌>>=◌, ◌>>◌, refuse_if, read8, read16, slice, decode_connect, decode_publish,
  subscribe_loop, decode_subscribe, publish_body, ConnectPacket,
}

-- A 16-bit number, high byte first.
abbrev pub word : ℕ → List ℕ
word n = (n / 256) ∷ (n % 256) ∷ []

drop_at : (pre ys : List ℕ) (o : ℕ) → o ≡ length pre → drop o (pre ++ ys) ≡ ys
drop_at pre ys o e = rw e (drop-length_append pre ys)

read8_at : (pre ys : List ℕ) (i o : ℕ) → o ≡ length pre + i → read8 (pre ++ ys) o ≡ read8 ys i
unfolding read8
read8_at [] ys i o e = let e' : o ≡ i = omega arith in rw e'
read8_at (b ∷ pre) ys i zero e = absurd (omega arith)
read8_at (b ∷ pre) ys i (suc o) e = read8_at pre ys i o (omega arith)

read16_at : (pre ys : List ℕ) (n o : ℕ) → o ≡ length pre → read16 (pre ++ (word n ++ ys)) o ≡ ok n
unfolding read16
read16_at pre ys n o e =
    rw
      (
        read8_at pre (word n ++ ys) 0 o (omega arith),
        read8_at pre (word n ++ ys) 1 (o + 1) (omega arith),
      )
      (unfold read8 in ap ok (omega arith))

slice_at :
    (pre ys zs : List ℕ) (o n : ℕ)
    → o ≡ length pre
    → n ≡ length ys
    → slice (pre ++ (ys ++ zs)) o n ≡ ok ys
unfolding slice
slice_at pre ys zs o n e e' =
    rw (e, e', drop-length_append pre (ys ++ zs), take-length_append ys zs)
      (ground (arith, length-append pre (ys ++ zs), length-append ys zs))

-- One step of a `do` block, and one guard that lets the rest run.
step {ℓ κ} :
    {A : Type ℓ} {B : Type κ} (m : Decoded A) (f : A → Decoded B) {a : A} {r : Decoded B}
    → m ≡ ok a
    → f a ≡ r
    → (m >>= f) ≡ r
step m f e h = rw (e, ◌>>=◌) h

enter {ℓ} :
    {B : Type ℓ} (test : Bool) (x y : Decoded B) {r : Decoded B}
    → test ≡ true
    → x ≡ r
    → (if test then x else y) ≡ r
enter test x y e h = rw e h

pass {ℓ} :
    {B : Type ℓ} (fails : Bool) (rest : Decoded B) {r : Decoded B}
    → fails ≡ false
    → rest ≡ r
    → (refuse_if fails >> rest) ≡ r
pass fails rest e h = rw (e, refuse_if) h

publish_body-word :
    (topic payload : Text)
    → length topic < 65536
    → publish_body topic payload ≡ word (length topic) ++ (topic ++ payload)
unfolding publish_body
publish_body-word topic payload h =
    let e : length topic % 65536 ≡ length topic = omega arith in rw e

-- Reading the body that `encode_publish` frames gives back topic and payload, for every topic that
-- is not empty and shorter than 2^16 bytes.
pub decode_publish-body :
    (topic payload : Text)
    → 0 < length topic
    → length topic < 65536
    → decode_publish (publish_body topic payload) ≡ ok (record { topic = topic; payload = payload })
unfolding decode_publish
decode_publish-body topic payload h h' =
    let n = length topic in
    let bytes = word n ++ (topic ++ payload) in
    let size = length-append topic payload in
    rw (publish_body-word topic payload h') (
      pass (ltb (length bytes) 2) _ (ground arith) (
        step (read16 bytes 0) _ (read16_at [] (topic ++ payload) n 0 refl) (
          pass (nat_eq n 0) _ (ground arith) (
            pass (ltb (length bytes) (2 + n)) _ (ground (arith, size)) (
              step (slice bytes 2 n) _ (slice_at (word n) topic payload 2 n refl refl) (
                ap (λ rest. ok (record { topic = topic; payload = rest }))
                  (drop_at (word n ++ topic) payload (2 + n) (omega arith))))))))

-- A SUBSCRIBE body: the filters with their QoS, one after the other.
abbrev pub filters_body : List (Text × ℕ) → List ℕ
filters_body [] = []
filters_body ((filter, qos) ∷ more) = word (length filter) ++ (filter ++ (qos ∷ filters_body more))

-- The filters before `filters` are read; `offset` is behind them.
subscribe_loop-filters :
    (rounds : ℕ) (pre : List ℕ) (done filters : List (Text × ℕ)) (offset : ℕ)
    → length (filters_body filters) < rounds
    → offset ≡ length pre
    → subscribe_loop rounds (pre ++ filters_body filters) offset done ≡ ok (done ++ filters)
unfolding subscribe_loop read8
subscribe_loop-filters zero pre done filters offset h e = absurd (omega arith)
subscribe_loop-filters (suc rounds) pre done [] offset h e =
    ground (arith, append-nil pre, append-nil done)
subscribe_loop-filters (suc rounds) pre done ((filter, qos) ∷ more) offset h e =
    let n = length filter in
    let rest = filter ++ (qos ∷ filters_body more) in
    let head = pre ++ (word n ++ (filter ++ (qos ∷ []))) in
    let split : pre ++ (word n ++ rest) ≡ head ++ filters_body more = (simp append_assoc) in
    let ih =
      subscribe_loop-filters rounds head (done ++ ((filter, qos) ∷ [])) more (offset + 2 + n + 1)
        (omega (arith, length-append filter (qos ∷ filters_body more)))
        (omega (
          arith,
          length-append pre (word n ++ (filter ++ (qos ∷ []))),
          length-append filter (qos ∷ []),
        )) in
    let size = length-append pre (word n ++ rest) in
    let size' = length-append filter (qos ∷ filters_body more) in
    let len = read16_at pre rest n offset e in
    let name =
      slice_at (pre ++ word n) filter (qos ∷ filters_body more) (offset + 2) n
        (omega (arith, length-append pre (word n))) refl in
    let code =
      read8_at (pre ++ (word n ++ filter)) (qos ∷ filters_body more) 0 (offset + 2 + n)
        (omega (arith, length-append pre (word n ++ filter), length-append (word n) filter)) in
    let bytes = pre ++ (word n ++ rest) in
    let name' : slice bytes (offset + 2) n ≡ ok filter =
      rw (append_assoc pre (word n) rest) at name in
    let code' : read8 bytes (offset + 2 + n) ≡ ok qos =
      rw (append_assoc pre (word n ++ filter) (qos ∷ filters_body more)) at code in
    enter (ltb offset (length bytes)) _ _ (ground (arith, size)) (
      pass (ltb (length bytes) (offset + 2)) _ (ground (arith, size)) (
        step (read16 bytes offset) _ len (
          pass (ltb (length bytes) (offset + 2 + n + 1)) _ (ground (arith, size, size')) (
            step (slice bytes (offset + 2) n) _ name' (
              step (read8 bytes (offset + 2 + n)) _ code'
                (rw split (ih ∙ ap ok (append_assoc done ((filter, qos) ∷ []) more))))))))

-- A SUBSCRIBE body written from a packet id and a list of filters is decoded to that id and those
-- filters with their QoS, in order.
pub decode_subscribe-body :
    (packet_id : ℕ) (filters : List (Text × ℕ))
    → decode_subscribe (word packet_id ++ filters_body filters)
      ≡ ok (record { packet_id = packet_id; filters = filters })
unfolding decode_subscribe
decode_subscribe-body packet_id filters =
    let bytes = word packet_id ++ filters_body filters in
    pass (ltb (length bytes) 2) _ (ground arith) (
      step (read16 bytes 0) _ (read16_at [] (filters_body filters) packet_id 0 refl) (
        step (subscribe_loop (length bytes) bytes 2 []) _
          (subscribe_loop-filters (length bytes) (word packet_id) [] filters 2 (omega arith) refl)
          refl))

-- A CONNECT body: protocol name and level, flags, keepalive, client identifier, and what follows.
abbrev pub connect_body : ConnectPacket → List ℕ → List ℕ
connect_body c more =
    word 4
    ++ (b'M'
        ∷ b'Q'
        ∷ b'T'
        ∷ b'T'
        ∷ 4
        ∷ c.flags
        ∷ (word c.keepalive ++ (word (length c.client_id) ++ (c.client_id ++ more))))

-- A CONNECT body of protocol MQTT, level 4, is decoded to its flags, keepalive and client
-- identifier, whatever follows the identifier.
pub decode_connect-body :
    (c : ConnectPacket) (more : List ℕ) → decode_connect (connect_body c more) ≡ ok c
unfolding decode_connect read8
decode_connect-body c more =
    let bytes = connect_body c more in
    let n = length c.client_id in
    let size = length-append c.client_id more in
    let name_len : read16 bytes 0 ≡ ok 4 = unfold read16 in refl in
    pass (ltb (length bytes) 10) _ (ground arith) (
      step (read16 bytes 0) _ name_len (
        step (read16 bytes 8) _ (read16_at (take 8 bytes) (drop 10 bytes) c.keepalive 8 refl) (
          pass (ltb (length bytes) (10 + 2)) _ (ground arith) (
            step (read16 bytes 10) _ (read16_at (take 10 bytes) (drop 12 bytes) n 10 refl) (
              pass (ltb (length bytes) (12 + n)) _ (ground (arith, size)) (
                step (slice bytes 12 n) _ (slice_at (take 12 bytes) c.client_id more 12 n refl refl)
                  refl))))))
