-- ===== src/Mqtt/Wire.antt =====
-- src/mqtt_server.cpp, bytes on a connection: the remaining-length field, framing, and the loops
-- around `recv` and `send`. A byte is a number below 256.
pub mod Length
pub mod Streams
pub mod Takes
use mock_services.Base.{
  ℕ, zero, suc, ◌+◌, ◌-◌, ◌*◌, ◌/◌, ◌%◌, ◌<◌, bit_and, bit_or, Bool, true, false, Option, none,
  some, List, [], ◌∷◌, ◌++◌, ltb, nat_eq, if◌then◌else◌, length, take, drop,
}

abbrev pub IsByte : ℕ → Type 0
IsByte b = b < 256

-- The `for` loop of `decode_remaining_length`: at most four rounds, over the bytes that are left.
-- The result is the length and the number of bytes consumed; `none` is `return false`.
unfoldable pub decode_length_loop : ℕ → List ℕ → ℕ → ℕ → ℕ → Option (ℕ × ℕ)
decode_length_loop zero data' decoded multiplier consumed = none
decode_length_loop (suc rounds) [] decoded multiplier consumed = none
decode_length_loop (suc rounds) (byte ∷ rest) decoded multiplier consumed =
    let decoded' = decoded + bit_and byte 0x7f * multiplier in
    let more = decode_length_loop rounds rest decoded' (multiplier * 128) (consumed + 1) in
    if nat_eq (bit_and byte 0x80) 0 then some (decoded', consumed + 1) else more

unfoldable pub decode_remaining_length : List ℕ → Option (ℕ × ℕ)
unfolding decode_length_loop
decode_remaining_length bytes = decode_length_loop 4 bytes 0 1 0

-- The `do` loop of `encode_remaining_length`; a round divides `length`, so more rounds than
-- `length` are never needed.
unfoldable pub encode_length_loop : ℕ → ℕ → List ℕ
encode_length_loop zero len = []
encode_length_loop (suc rounds) len =
    let more = encode_length_loop rounds (len / 128) in
    if ltb 0 (len / 128) then bit_or (len % 128) 0x80 ∷ more else (len % 128) ∷ []

unfoldable pub encode_remaining_length : ℕ → List ℕ
unfolding encode_length_loop
encode_remaining_length len = encode_length_loop (suc len) len

unfoldable pub frame_packet : ℕ → List ℕ → List ℕ
unfolding encode_remaining_length
frame_packet type_and_flags payload =
    type_and_flags ∷ (encode_remaining_length (length payload) ++ payload)

-- What a connection still delivers: one list for each `recv` that would return; an empty one, or
-- none at all, is a `recv` that returns 0 or an error.
abbrev pub Chunks : Type 0
Chunks = List (List ℕ)

pub put_back : List ℕ → Chunks → Chunks
put_back [] chunks = chunks
put_back (b ∷ bs) chunks = (b ∷ bs) ∷ chunks

-- One `recv` with room for `len` bytes.
unfoldable pub recv : ℕ → Chunks → List ℕ × Chunks
unfolding put_back
recv len [] = ([], [])
recv len (chunk ∷ chunks) = (take len chunk, put_back (drop len chunk) chunks)

-- The loop of `recv_exact`; each round takes a byte at least, so `len` rounds are enough.
unfoldable pub recv_loop : ℕ → ℕ → List ℕ → Chunks → Option (List ℕ × Chunks)
unfolding recv
recv_loop rounds zero got chunks = some (got, chunks)
recv_loop zero (suc len) got chunks = none
recv_loop (suc rounds) (suc len) got chunks =
    let (received, later) = recv (suc len) chunks in
    let next = recv_loop rounds (suc len - length received) (got ++ received) later in
    if nat_eq (length received) 0 then none else next

unfoldable pub recv_exact : ℕ → Chunks → Option (List ℕ × Chunks)
unfolding recv_loop
recv_exact len chunks = recv_loop len len [] chunks

-- `send_all`: the first argument holds what the next calls of `send` return, 0 for an error. The
-- result is the answer, the bytes that went out, and what later calls will return.
unfoldable pub send_all : List ℕ → List ℕ → Bool × List ℕ × List ℕ
send_all counts [] = (true, [], counts)
send_all [] (b ∷ bs) = (false, [], [])
send_all (count ∷ counts) (b ∷ bs) =
    let (done, out, left) = send_all counts (drop count (b ∷ bs)) in
    if nat_eq count 0 then (false, [], counts) else (done, take count (b ∷ bs) ++ out, left)

-- The loop of `read_remaining_length`, which asks the connection for one byte in each round.
unfoldable pub read_length_loop : ℕ → Chunks → ℕ → ℕ → Option (ℕ × Chunks)
unfolding recv_exact
read_length_loop zero chunks out_length multiplier = none
read_length_loop (suc rounds) chunks out_length multiplier = elim (recv_exact 1 chunks) [
  | some (byte ∷ [], later) ↦
      let out_length' = out_length + bit_and byte 0x7f * multiplier in
      let more = read_length_loop rounds later out_length' (multiplier * 128) in
      if nat_eq (bit_and byte 0x80) 0 then some (out_length', later) else more
  | _ ↦ none
]

unfoldable pub read_remaining_length : Chunks → Option (ℕ × Chunks)
unfolding read_length_loop
read_remaining_length chunks = read_length_loop 4 chunks 0 1
