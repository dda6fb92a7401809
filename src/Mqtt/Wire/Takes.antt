-- ===== src/Mqtt/Wire/Takes.antt =====
-- What the readers of src/mqtt_server.cpp take from a connection, open or not.
use mock_services.Base.{
  ℕ, zero, suc, ◌+◌, ◌-◌, ◌*◌, ◌≤◌, ◌≡◌, ap, bit_and, some, List, [], ◌∷◌, ◌++◌, arith, length,
  take, drop,
}
use mock_services.Mqtt.Wire.{
  Chunks, put_back, recv_loop, recv_exact, read_length_loop, read_remaining_length,
}
use mock_services.Mqtt.Wire.Streams.{flat, flat-put_back, length-split}

length-take-le : (n : ℕ) (xs : List ℕ) → length (take n xs) ≤ n
length-take-le zero xs = omega arith
length-take-le (suc n) [] = omega arith
length-take-le (suc n) (x ∷ xs) = omega (arith, length-take-le n xs)

recv_loop_takes :
    (rounds len : ℕ) (got bs : List ℕ) (chunks later : Chunks)
    → recv_loop rounds len got chunks ≡ some (bs, later)
    → length (flat later) + len ≡ length (flat chunks)
unfolding recv_loop
recv_loop_takes rounds zero got bs chunks later e = ground arith
recv_loop_takes zero (suc len) got bs chunks later e = cc
recv_loop_takes (suc rounds) (suc len) got bs [] later e = cc
recv_loop_takes (suc rounds) (suc len) got bs ([] ∷ chunks) later e = cc
recv_loop_takes (suc rounds) (suc len) got bs ((b ∷ front) ∷ chunks) later e =
    let rest = put_back (drop len front) chunks in
    let left = suc len - length (take (suc len) (b ∷ front)) in
    let ih =
      recv_loop_takes rounds left (got ++ take (suc len) (b ∷ front)) bs rest later
        (ground arith) in
    omega (
      arith,
      ih,
      length-take-le len front,
      ap length (flat-put_back (drop len front) chunks),
      length-split len front (flat chunks),
    )

read_length_loop_takes :
    (rounds : ℕ) (chunks later : Chunks) (d m len : ℕ)
    → read_length_loop rounds chunks d m ≡ some (len, later)
    → length (flat later) ≤ length (flat chunks)
unfolding read_length_loop recv_exact
read_length_loop_takes zero chunks later d m len e = cc
read_length_loop_takes (suc rounds) [] later d m len e = cc
read_length_loop_takes (suc rounds) ([] ∷ chunks) later d m len e = cc
read_length_loop_takes (suc rounds) ((b ∷ bs) ∷ chunks) later d m len e = ground (
  arith,
  ap length (flat-put_back bs chunks),
  read_length_loop_takes rounds (put_back bs chunks) later (d + bit_and b 0x7f * m) (m * 128) len,
)

pub recv_exact_takes :
    (len : ℕ) (bs : List ℕ) (chunks later : Chunks)
    → recv_exact len chunks ≡ some (bs, later)
    → length (flat later) + len ≡ length (flat chunks)
unfolding recv_exact
recv_exact_takes len bs chunks later e = recv_loop_takes len len [] bs chunks later e

pub read_remaining_length_takes :
    (chunks later : Chunks) (len : ℕ)
    → read_remaining_length chunks ≡ some (len, later)
    → length (flat later) ≤ length (flat chunks)
unfolding read_remaining_length
read_remaining_length_takes chunks later len e = read_length_loop_takes 4 chunks later 0 1 len e
