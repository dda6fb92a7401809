-- ===== src/Mqtt/Packets/Bounds.antt =====
-- The decoders of src/mqtt_server.cpp on arbitrary bytes: every read is within the input, and the
-- loop of `decode_subscribe` ends.
use mock_services.Base.{
  ℕ, zero, suc, ◌+◌, ◌*◌, ◌≤◌, ◌<◌, ◌≡◌, refl, Bool, true, false, List, [], ◌∷◌, ◌++◌, arith, ltb,
  nat_eq, not, ◌||◌, if◌then◌else◌, length, take, drop, Text,
}
use mock_services.Mqtt.Packets.{
  Decoded, ok, refused, ◌>>=◌, ◌>>◌, refuse_if, read8, read16, slice, decode_connect,
  decode_publish, subscribe_loop, decode_subscribe,
}

-- The decoder answers: it accepts or refuses.
pub data Answers {ℓ} {A : Type ℓ} : Decoded A → Type ℓ where
  accepts : (a : A) → Answers (ok a)
  refuses : Answers refused

abbrev Succeeds {ℓ} : {A : Type ℓ} → Decoded A → Type ℓ
Succeeds {A} r = (a : A) × (r ≡ ok a)

read8_in : (bytes : List ℕ) (i : ℕ) → i < length bytes → Succeeds (read8 bytes i)
unfolding read8
read8_in [] i h = absurd (omega arith)
read8_in (b ∷ bs) zero h = (b, refl)
read8_in (b ∷ bs) (suc i) h = read8_in bs i (omega arith)

read16_in : (bytes : List ℕ) (i : ℕ) → i + 1 < length bytes → Succeeds (read16 bytes i)
unfolding read16
read16_in bytes i h =
    let (high, e) = read8_in bytes i (omega arith) in
    let (low, e') = read8_in bytes (i + 1) (omega arith) in (high * 256 + low, rw (e, e'))

slice_in :
    (bytes : List ℕ) (offset len : ℕ)
    → offset + len ≤ length bytes
    → Succeeds (slice bytes offset len)
unfolding slice
slice_in bytes offset len h = (take len (drop offset bytes), ground arith)

module _ {ℓ κ} {A : Type ℓ} {B : Type κ} where
  -- A step that cannot fail.
  Answers-step :
      (m : Decoded A) (f : A → Decoded B)
      → Succeeds m
      → ((a : A) → Answers (f a))
      → Answers (m >>= f)
  Answers-step m f (a, e) h = rw (e, ◌>>=◌) (h a)

  Answers-bind :
      {m : Decoded A} (f : A → Decoded B)
      → Answers m
      → ((a : A) → Answers (f a))
      → Answers (m >>= f)
  Answers-bind f (accepts a) k = k a
  Answers-bind f refuses k = refuses

-- A guard lets the rest run only where its test is false.
Answers-guard {ℓ} :
    {B : Type ℓ} (fails : Bool) (rest : Decoded B)
    → (fails ≡ false → Answers rest)
    → Answers (refuse_if fails >> rest)
Answers-guard true rest h = refuses
Answers-guard false rest h = h refl

Answers-if {ℓ} :
    {A : Type ℓ} (b : Bool) (x y : Decoded A)
    → (b ≡ true → Answers x)
    → (b ≡ false → Answers y)
    → Answers (if b then x else y)
Answers-if true x y h k = h refl
Answers-if false x y h k = k refl

decode_publish-Answers : (bytes : List ℕ) → Answers (decode_publish bytes)
unfolding decode_publish
decode_publish-Answers bytes = Answers-guard (ltb (length bytes) 2) _ λ size.
    Answers-step _ _ (read16_in bytes 0 (ground arith)) λ topic_len.
      Answers-guard (nat_eq topic_len 0) _ λ _.
        Answers-guard (ltb (length bytes) (2 + topic_len)) _
          λ fits. Answers-step _ _ (slice_in bytes 2 topic_len (ground arith)) λ _. accepts _

decode_connect-Answers : (bytes : List ℕ) → Answers (decode_connect bytes)
unfolding decode_connect
decode_connect-Answers bytes = Answers-guard (ltb (length bytes) 10) _ λ size.
    let read = λ (i : ℕ) (h : i < 10). read8_in bytes i (ground arith) in
    Answers-step _ _ (read16_in bytes 0 (ground arith)) λ name_len.
      Answers-step _ _ (read 2 (omega arith)) λ m. Answers-step _ _ (read 3 (omega arith)) λ q.
        Answers-step _ _ (read 4 (omega arith)) λ t. Answers-step _ _ (read 5 (omega arith)) λ t'.
          Answers-guard
            (not (nat_eq name_len 4)
              || not (nat_eq m b'M')
              || not (nat_eq q b'Q')
              || not (nat_eq t b'T')
              || not (nat_eq t' b'T'))
            _
            λ _. Answers-step _ _ (read 6 (omega arith)) λ level.
              Answers-guard (not (nat_eq level 4)) _ λ _.
                Answers-step _ _ (read 7 (omega arith)) λ flags.
                  Answers-step _ _ (read16_in bytes 8 (ground arith)) λ keepalive.
                    Answers-guard (ltb (length bytes) (10 + 2)) _ λ more.
                      Answers-step _ _ (read16_in bytes 10 (ground arith)) λ client_len.
                        Answers-guard (ltb (length bytes) (12 + client_len)) _ λ fits.
                          Answers-step _ _ (slice_in bytes 12 client_len (ground arith))
                            λ _. accepts _

subscribe_loop-Answers :
    (rounds : ℕ) (bytes : List ℕ) (offset : ℕ) (filters : List (Text × ℕ))
    → 0 < rounds
    → length bytes < rounds + offset
    → Answers (subscribe_loop rounds bytes offset filters)
unfolding subscribe_loop
subscribe_loop-Answers zero bytes offset filters r h = absurd (omega arith)
subscribe_loop-Answers (suc rounds) bytes offset filters r h =
    Answers-if (ltb offset (length bytes)) _ _
      (λ more. Answers-guard (ltb (length bytes) (offset + 2)) _ λ two.
        Answers-step _ _ (read16_in bytes offset (ground arith)) λ filter_len.
          Answers-guard (ltb (length bytes) (offset + 2 + filter_len + 1)) _ λ fits.
            Answers-step _ _ (slice_in bytes (offset + 2) filter_len (ground arith)) λ filter.
              Answers-step _ _ (read8_in bytes (offset + 2 + filter_len) (ground arith)) λ qos.
                subscribe_loop-Answers rounds bytes (offset + 2 + filter_len + 1)
                  (filters ++ ((filter, qos) ∷ [])) (ground arith) (ground arith))
      (λ over. accepts _)

decode_subscribe-Answers : (bytes : List ℕ) → Answers (decode_subscribe bytes)
unfolding decode_subscribe
decode_subscribe-Answers bytes = Answers-guard (ltb (length bytes) 2) _ λ size.
    Answers-step _ _ (read16_in bytes 0 (ground arith)) λ packet_id.
      Answers-bind _ (subscribe_loop-Answers (length bytes) bytes 2 [] (ground arith) (omega arith))
        λ _. accepts _

-- On every byte sequence each of the three decoders accepts or refuses: none reads outside the
-- bytes that it was given, and the loop over the topic filters ends.
pub decoders_answer :
    (bytes : List ℕ)
    → Answers (decode_connect bytes)
      × Answers (decode_publish bytes)
      × Answers (decode_subscribe bytes)
decoders_answer bytes =
    (decode_connect-Answers bytes, decode_publish-Answers bytes, decode_subscribe-Answers bytes)
