-- ===== src/TempDir/Naming.antt =====
-- The names that src/temp_dir.cpp gives to temporary directories.
use mock_services.Base.{
  ℕ, zero, suc, ◌+◌, ◌*◌, ◌-◌, ◌^◌, ◌/◌, ◌%◌, ◌≤◌, ◌<◌, ◌≡◌, ◌≢◌, refl, sym, ap, ◌∙◌, inl, inr,
  Bool-cases, Option, [], ◌∷◌, ◌++◌, append_assoc, length, arith, ltb, Text, if◌then◌else◌,
  if_split,
}
use mock_services.TempDir.{hex_digit, hex_digits, to_hex, unique_id, temp_path}

abbrev digit_value : ℕ → ℕ
digit_value c = if ltb c 58 then c - 48 else c - 87

-- The number that hexadecimal digits stand for, behind those read before.
abbrev value : ℕ → Text → ℕ
value front [] = front
value front (c ∷ cs) = value (front * 16 + digit_value c) cs

value-append :
    (front c : ℕ) (cs : Text) → value front (cs ++ (c ∷ [])) ≡ value front cs * 16 + digit_value c
value-append front c [] = refl
value-append front c (d ∷ cs) = value-append (front * 16 + digit_value d) c cs

digit_value-hex : (d : ℕ) → d < 16 → digit_value (hex_digit d) ≡ d
unfolding hex_digit
digit_value-hex d h = ground arith

value-hex_digits : (rounds n : ℕ) → n < rounds → value 0 (hex_digits rounds n) ≡ n
unfolding hex_digits
value-hex_digits zero n h = omega arith
value-hex_digits (suc rounds) n h = elim (Bool-cases (ltb n 16)) [
  | inl small ↦
      rw small (let last = digit_value-hex (n % 16) (omega arith) in ground (arith, small, last))
  | inr large ↦
      let front = value-hex_digits rounds (n / 16) (ground arith) in
      rw (large, value-append 0 (hex_digit (n % 16)) (hex_digits rounds (n / 16)))
        (let last = digit_value-hex (n % 16) (omega arith) in omega arith)
]

length-append_one : (c : ℕ) (cs : Text) → length (cs ++ (c ∷ [])) ≡ suc (length cs)
length-append_one c [] = refl
length-append_one c (d ∷ cs) = ap suc (length-append_one c cs)

length-hex_digits :
    (k rounds n : ℕ)
    → n < rounds
    → 16 ^ k ≤ n
    → n < 16 ^ suc k
    → length (hex_digits rounds n) ≡ suc k
unfolding hex_digits
length-hex_digits k zero n h p q = omega arith
length-hex_digits zero (suc rounds) n h p q = ground arith
length-hex_digits (suc k) (suc rounds) n h p q =
    let front = length-hex_digits k rounds (n / 16) (omega arith) (omega arith) (omega arith) in
    if_split (λ (digits : Text). length digits ≡ suc (suc k)) (ltb n 16) _ _ (λ e. ground arith)
      (λ e. length-append_one _ (hex_digits rounds (n / 16)) ∙ ap suc front)

append_cancel : (xs ys zs : Text) → xs ++ ys ≡ xs ++ zs → ys ≡ zs
append_cancel [] ys zs e = e
append_cancel (x ∷ xs) ys zs e = append_cancel xs ys zs cc

append_split :
    (xs ys vs ws : Text) → length xs ≡ length ys → xs ++ vs ≡ ys ++ ws → (xs ≡ ys) × (vs ≡ ws)
append_split [] [] vs ws h e = (refl, e)
append_split [] (y ∷ ys) vs ws h e = ground arith
append_split (x ∷ xs) [] vs ws h e = ground arith
append_split (x ∷ xs) (y ∷ ys) vs ws h e =
    let (p, q) = append_split xs ys vs ws (omega arith) cc in (cc, q)

to_hex-value : (n m : ℕ) → to_hex n ≡ to_hex m → n ≡ m
unfolding to_hex
to_hex-value n m e =
    sym (value-hex_digits (suc n) n (omega arith))
    ∙ ap (value 0) e
    ∙ value-hex_digits (suc m) m (omega arith)

length-to_hex : (n : ℕ) → 16 ^ 7 ≤ n → n < 16 ^ 8 → length (to_hex n) ≡ 8
unfolding to_hex
length-to_hex n = length-hex_digits 7 (suc n) n (omega arith)

unique_id-injective :
    (pid t u c d : ℕ)
    → length (to_hex t) ≡ length (to_hex u)
    → unique_id pid t c ≡ unique_id pid u d
    → (t ≡ u) × (c ≡ d)
unfolding unique_id
unique_id-injective pid t u c d h e =
    let joined =
      sym (append_assoc (to_hex pid) (to_hex t) (to_hex c))
      ∙ e
      ∙ append_assoc (to_hex pid) (to_hex u) (to_hex d) in
    let behind = append_cancel (to_hex pid) (to_hex t ++ to_hex c) (to_hex u ++ to_hex d) joined in
    let (p, q) = append_split (to_hex t) (to_hex u) (to_hex c) (to_hex d) h behind in
    (to_hex-value t u p, to_hex-value c d q)

temp_path-injective :
    (env : Option Text) (name_prefix : Text) (pid t u c d : ℕ)
    → 16 ^ 7 ≤ t
    → t < 16 ^ 8
    → 16 ^ 7 ≤ u
    → u < 16 ^ 8
    → temp_path env name_prefix (unique_id pid t c) ≡ temp_path env name_prefix (unique_id pid u d)
    → (t ≡ u) × (c ≡ d)
unfolding temp_path
temp_path-injective env name_prefix pid t u c d h h' k k' e =
    let behind_root = append_cancel _ _ _ e in
    let ids = append_cancel name_prefix _ _ behind_root in
    unique_id-injective pid t u c d (length-to_hex t h h' ∙ sym (length-to_hex u k k')) ids

-- Two temporary directories that one process makes with the same prefix and in the same place, at
-- times whose hexadecimal form has eight digits (from 1978 to 2106), have different paths where the
-- values of the counter differ, although the parts of a name stand in it without separators.
pub temp_path_differs :
    (env : Option Text) (name_prefix : Text) (pid t u c d : ℕ)
    → 16 ^ 7 ≤ t
    → t < 16 ^ 8
    → 16 ^ 7 ≤ u
    → u < 16 ^ 8
    → c ≢ d
    → temp_path env name_prefix (unique_id pid t c) ≢ temp_path env name_prefix (unique_id pid u d)
temp_path_differs env name_prefix pid t u c d h h' k k' differs e =
    differs (temp_path-injective env name_prefix pid t u c d h h' k k' e).1
