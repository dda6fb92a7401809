-- ===== src/Mqtt/Wire/Streams.antt =====
-- The loops around `recv` and `send` of src/mqtt_server.cpp, against the plain sequence of bytes.
use native.Mathlib.Nat.{sub-zero}
use native.Mathlib.Numerals.{add-one}
use mock_services.Base.{
  ℕ, zero, suc, ◌+◌, ◌-◌, ◌*◌, ◌≤◌, ◌<◌, bit_and, ◌≡◌, refl, ap, ◌≢◌, ◌↔◌, true, ◌∙◌, inl, inr,
  nat_eq, Bool-cases, Option, none, some, List, [], ◌∷◌, ◌++◌, append_assoc, append-nil, arith,
  length, take, drop, take-append-drop, All,
}
use mock_services.Mqtt.Wire.{
  Chunks, put_back, recv_loop, recv_exact, send_all, read_length_loop, read_remaining_length,
  decode_length_loop, decode_remaining_length,
}

-- All bytes that are still to come.
abbrev pub flat : Chunks → List ℕ
flat [] = []
flat (chunk ∷ chunks) = chunk ++ flat chunks

-- The connection stays open until these bytes are read: no `recv` returns 0 before.
abbrev pub IsOpen : Chunks → Type 0
IsOpen = All (λ chunk. chunk ≢ [])

take_split :
    (n : ℕ) (xs ys : List ℕ)
    → take n xs ++ take (n - length (take n xs)) (drop n xs ++ ys) ≡ take n (xs ++ ys)
take_split zero xs ys = refl
take_split (suc n) [] ys = rw sub-zero refl
take_split (suc n) (x ∷ xs) ys = ground (arith, take_split n xs ys)

drop_split :
    (n : ℕ) (xs ys : List ℕ) → drop (n - length (take n xs)) (drop n xs ++ ys) ≡ drop n (xs ++ ys)
drop_split zero xs ys = refl
drop_split (suc n) [] ys = rw sub-zero refl
drop_split (suc n) (x ∷ xs) ys = ground (arith, drop_split n xs ys)

pub length-split :
    (n : ℕ) (xs ys : List ℕ) → length (drop n xs ++ ys) + length (take n xs) ≡ length (xs ++ ys)
length-split zero xs ys = omega arith
length-split (suc n) [] ys = omega arith
length-split (suc n) (x ∷ xs) ys = omega (arith, length-split n xs ys)

pub flat-put_back : (bs : List ℕ) (chunks : Chunks) → flat (put_back bs chunks) ≡ bs ++ flat chunks
unfolding put_back
flat-put_back [] chunks = refl
flat-put_back (b ∷ bs) chunks = refl

put_back-IsOpen : (bs : List ℕ) (chunks : Chunks) → IsOpen chunks → IsOpen (put_back bs chunks)
unfolding put_back
put_back-IsOpen [] chunks h = h
put_back-IsOpen (b ∷ bs) chunks h = ((λ e. cc), h)

recv_loop_reads :
    (rounds len : ℕ) (got : List ℕ) (chunks : Chunks)
    → len ≤ rounds
    → IsOpen chunks
    → len ≤ length (flat chunks)
    → (later : Chunks) × (recv_loop rounds len got chunks
        ≡ some (got ++ take len (flat chunks), later))
      × (flat later ≡ drop len (flat chunks))
      × IsOpen later
unfolding recv_loop
recv_loop_reads rounds zero got chunks f h l = (chunks, rw append-nil, refl, h)
recv_loop_reads zero (suc len) got chunks f h l = absurd (omega arith)
recv_loop_reads (suc rounds) (suc len) got [] f h l = absurd (omega arith)
recv_loop_reads (suc rounds) (suc len) got ([] ∷ chunks) f h l = absurd (h.0 refl)
recv_loop_reads (suc rounds) (suc len) got ((b ∷ bs) ∷ chunks) f h l =
    let rest = put_back (drop len bs) chunks in
    let left = suc len - length (take (suc len) (b ∷ bs)) in
    let same = flat-put_back (drop len bs) chunks in
    let (later, e, k, o) =
      recv_loop_reads rounds left (got ++ take (suc len) (b ∷ bs)) rest (omega arith)
        (put_back-IsOpen (drop len bs) chunks h.1)
        (omega (arith, ap length same, length-split len bs (flat chunks))) in
    (
      later,
      ground (
        arith,
        e,
        same,
        take_split (suc len) (b ∷ bs) (flat chunks),
        append_assoc got (take (suc len) (b ∷ bs)) (take left (flat rest)),
      ),
      ground (arith, k, same, drop_split (suc len) (b ∷ bs) (flat chunks)),
      o,
    )

recv_loop_short :
    (rounds len : ℕ) (got : List ℕ) (chunks : Chunks)
    → length (flat chunks) < len
    → recv_loop rounds len got chunks ≡ none
unfolding recv_loop
recv_loop_short rounds zero got chunks l = absurd (omega arith)
recv_loop_short zero (suc len) got chunks l = refl
recv_loop_short (suc rounds) (suc len) got [] l = refl
recv_loop_short (suc rounds) (suc len) got ([] ∷ chunks) l = refl
recv_loop_short (suc rounds) (suc len) got ((b ∷ bs) ∷ chunks) l =
    let rest = put_back (drop len bs) chunks in
    let left = suc len - length (take (suc len) (b ∷ bs)) in
    let short = recv_loop_short rounds left (got ++ take (suc len) (b ∷ bs)) rest (
      omega (
        arith,
        ap length (flat-put_back (drop len bs) chunks),
        length-split len bs (flat chunks),
      )) in
    ground (arith, short)

-- However an open connection cuts its bytes into pieces, `recv_exact` returns the next `len` bytes,
-- where so many are to come, and leaves the others, in order, on the still open connection.
pub recv_exact_reads :
    (len : ℕ) (chunks : Chunks)
    → IsOpen chunks
    → len ≤ length (flat chunks)
    → (later : Chunks) × (recv_exact len chunks ≡ some (take len (flat chunks), later))
      × (flat later ≡ drop len (flat chunks))
      × IsOpen later
unfolding recv_exact
recv_exact_reads len chunks h l = recv_loop_reads len len [] chunks (omega arith) h l

-- `recv_exact` fails where fewer bytes than it asks for are to come.
pub recv_exact_short :
    (len : ℕ) (chunks : Chunks) → length (flat chunks) < len → recv_exact len chunks ≡ none
unfolding recv_exact
recv_exact_short len chunks l = recv_loop_short len len [] chunks l

-- What `send_all` wrote is a prefix of the data, and the whole of it exactly when it answers true.
pub send_all_lem :
    (counts bytes : List ℕ)
    → (unsent : List ℕ) × ((send_all counts bytes).1 ++ unsent ≡ bytes)
      × (((send_all counts bytes).0 ≡ true) ↔ (unsent ≡ []))
unfolding send_all
send_all_lem counts [] = ([], refl, ((λ _. refl), (λ _. refl)))
send_all_lem [] (b ∷ bs) = (b ∷ bs, refl, ((λ e. cc), (λ e. cc)))
send_all_lem (zero ∷ counts) (b ∷ bs) = (b ∷ bs, refl, ((λ e. cc), (λ e. cc)))
send_all_lem (suc count ∷ counts) (b ∷ bs) =
    let (unsent, e, iff) = send_all_lem counts (drop count bs) in
    (
      unsent,
      ground (
        arith,
        e,
        take-append-drop count bs,
        append_assoc (take count bs) (send_all counts (drop count bs)).1 unsent,
      ),
      ground (arith, iff),
    )

-- The reader of one byte, on an open connection.
recv_exact_one :
    (b : ℕ) (bs : List ℕ) (chunks : Chunks)
    → recv_exact 1 ((b ∷ bs) ∷ chunks) ≡ some (b ∷ [], put_back bs chunks)
unfolding recv_exact
recv_exact_one b bs chunks = refl

-- What `decode_remaining_length` makes of the bytes to come is what `read` makes of the connection.
abbrev pub Agrees : Chunks → Option (ℕ × ℕ) → Option (ℕ × Chunks) → Type 0
Agrees chunks none read = read ≡ none
Agrees chunks (some (len, consumed)) read =
    (later : Chunks) × (read ≡ some (len, later))
    × (flat later ≡ drop consumed (flat chunks))
    × IsOpen later

shift_result : Option (ℕ × ℕ) → ℕ → Option (ℕ × ℕ)
shift_result none used = none
shift_result (some (len, consumed)) used = some (len, consumed + used)

decode_loop_shift :
    (rounds : ℕ) (bytes : List ℕ) (d m c used : ℕ)
    → decode_length_loop rounds bytes d m (c + used)
      ≡ shift_result (decode_length_loop rounds bytes d m c) used
unfolding decode_length_loop shift_result
decode_loop_shift zero bytes d m c used = refl
decode_loop_shift (suc rounds) [] d m c used = refl
decode_loop_shift (suc rounds) (b ∷ bs) d m c used =
    let e : c + used + 1 ≡ c + 1 + used = omega arith in
    let ih = decode_loop_shift rounds bs (d + bit_and b 0x7f * m) (m * 128) (c + 1) used in
    elim (Bool-cases (nat_eq (bit_and b 0x80) 0)) [
      | inl last ↦ rw last (ap (λ t. some (d + bit_and b 0x7f * m, t)) e)
      | inr more ↦ rw (more, e) ih
    ]

Agrees-cons :
    (b : ℕ) (bs : List ℕ) (chunks : Chunks) (r : Option (ℕ × ℕ)) (read : Option (ℕ × Chunks))
    → Agrees (put_back bs chunks) r read
    → Agrees ((b ∷ bs) ∷ chunks) (shift_result r 1) read
unfolding shift_result
Agrees-cons b bs chunks none read h = h
Agrees-cons b bs chunks (some (len, consumed)) read (later, e, k, o) =
    (later, e, rw add-one (k ∙ ap (drop consumed) (flat-put_back bs chunks)), o)

read_loop-Agrees :
    (rounds : ℕ) (chunks : Chunks) (d m : ℕ)
    → IsOpen chunks
    → Agrees chunks
        (decode_length_loop rounds (flat chunks) d m 0)
        (read_length_loop rounds chunks d m)
unfolding read_length_loop decode_length_loop
read_loop-Agrees zero chunks d m h = refl
read_loop-Agrees (suc rounds) [] d m h = refl
read_loop-Agrees (suc rounds) ([] ∷ chunks) d m h = absurd (h.0 refl)
read_loop-Agrees (suc rounds) ((b ∷ bs) ∷ chunks) d m h =
    let ih =
      read_loop-Agrees rounds (put_back bs chunks) (d + bit_and b 0x7f * m) (m * 128)
        (put_back-IsOpen bs chunks h.1) in
    elim (Bool-cases (nat_eq (bit_and b 0x80) 0)) [
      | inl last ↦
          rw last (put_back bs chunks, refl, flat-put_back bs chunks, put_back-IsOpen bs chunks h.1)
      | inr more ↦
          rw
            (
              more,
              decode_loop_shift rounds (bs ++ flat chunks) (d + bit_and b 0x7f * m) (m * 128) 0 1,
            )
            (Agrees-cons b bs chunks _ _ (rw flat-put_back at ih))
    ]

-- On an open connection `read_remaining_length` gives the length that `decode_remaining_length`
-- finds in the bytes to come, takes exactly the bytes that it consumes, and fails where it fails.
pub read_remaining_length-Agrees :
    (chunks : Chunks)
    → IsOpen chunks
    → Agrees chunks (decode_remaining_length (flat chunks)) (read_remaining_length chunks)
unfolding read_remaining_length decode_remaining_length
read_remaining_length-Agrees chunks h = read_loop-Agrees 4 chunks 0 1 h
