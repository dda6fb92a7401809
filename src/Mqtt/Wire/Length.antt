-- ===== src/Mqtt/Wire/Length.antt =====
-- The remaining-length field of src/mqtt_server.cpp: what the encoder writes, the decoder reads.
use native.Mathlib.Nat.{div-add-mod, one-le-pow}
use mock_services.Base.{
  ℕ, zero, suc, ◌+◌, ◌*◌, ◌/◌, ◌%◌, ◌^◌, ◌≤◌, ◌<◌, bit_or, ◌≡◌, ap, none, some, List, ◌∷◌, ◌++◌,
  arith, length,
}
use mock_services.Base.Bits.{and_0x7f, and_0x80, or_0x80}
use mock_services.Mqtt.Wire.{
  decode_length_loop, decode_remaining_length, encode_length_loop, encode_remaining_length,
}

-- The two parts of `len`, scaled.
split_digit : (len m : ℕ) → len % 128 * m + len / 128 * (m * 128) ≡ len * m
split_digit len m = omega (arith, ap (λ (t : ℕ). t * m) (div-add-mod len 128))

module _ (d m c : ℕ) (rest : List ℕ) where
  last_digit :
      (k b : ℕ) → b < 128 → decode_length_loop (suc k) (b ∷ rest) d m c ≡ some (d + b * m, c + 1)
  unfolding decode_length_loop
  last_digit k b h = ground (arith, and_0x7f b, and_0x80 b)

  inner_digit :
      (k b : ℕ)
      → b < 128
      → decode_length_loop (suc k) (bit_or b 0x80 ∷ rest) d m c
        ≡ decode_length_loop k rest (d + b * m) (m * 128) (c + 1)
  unfolding decode_length_loop
  inner_digit k b h = ground (arith, or_0x80 b h, and_0x7f (b + 128), and_0x80 (b + 128))

decode-encode_loop :
    (k fuel len d m c : ℕ) (rest : List ℕ)
    → len < fuel
    → len < 128 ^ suc k
    → decode_length_loop (suc k) (encode_length_loop fuel len ++ rest) d m c
      ≡ some (d + len * m, c + length (encode_length_loop fuel len))
unfolding encode_length_loop
decode-encode_loop k zero len d m c rest f h = absurd (omega arith)
decode-encode_loop zero (suc fuel) len d m c rest f h =
    ground (arith, last_digit d m c rest zero (len % 128))
decode-encode_loop (suc k) (suc fuel) len d m c rest f h = ground (
  arith,
  last_digit d m c rest (suc k) (len % 128),
  inner_digit d m c (encode_length_loop fuel (len / 128) ++ rest) (suc k) (len % 128),
  split_digit len m,
  decode-encode_loop k fuel (len / 128) (d + len % 128 * m) (m * 128) (c + 1) rest,
)

encode_loop_refused :
    (k fuel len d m c : ℕ) (rest : List ℕ)
    → len < fuel
    → 128 ^ suc k ≤ len
    → decode_length_loop (suc k) (encode_length_loop fuel len ++ rest) d m c ≡ none
unfolding encode_length_loop
encode_loop_refused k zero len d m c rest f h = absurd (omega arith)
encode_loop_refused zero (suc fuel) len d m c rest f h =
    unfold decode_length_loop in
    ground (arith, inner_digit d m c (encode_length_loop fuel (len / 128) ++ rest) zero (len % 128))
encode_loop_refused (suc k) (suc fuel) len d m c rest f h = ground (
  arith,
  inner_digit d m c (encode_length_loop fuel (len / 128) ++ rest) (suc k) (len % 128),
  one-le-pow k 128 (omega arith),
  encode_loop_refused k fuel (len / 128) (d + len % 128 * m) (m * 128) (c + 1) rest,
)

-- For a length below 2^28 the decoder reads back what the encoder wrote, whatever follows it, and
-- consumes exactly the bytes written.
pub decode-encode :
    (len : ℕ) (rest : List ℕ)
    → len < 2 ^ 28
    → decode_remaining_length (encode_remaining_length len ++ rest)
      ≡ some (len, length (encode_remaining_length len))
unfolding decode_remaining_length encode_remaining_length
decode-encode len rest h = ground (arith, decode-encode_loop 3 (suc len) len 0 1 0 rest)

-- From 2^28 on the encoder, which checks no limit, writes a field that the decoder refuses.
pub decode-encode_too_long :
    (len : ℕ) (rest : List ℕ)
    → 2 ^ 28 ≤ len
    → decode_remaining_length (encode_remaining_length len ++ rest) ≡ none
unfolding decode_remaining_length encode_remaining_length
decode-encode_too_long len rest h = encode_loop_refused 3 (suc len) len 0 1 0 rest (omega arith) h
