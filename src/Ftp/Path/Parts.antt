-- ===== src/Ftp/Path/Parts.antt =====
-- The loops of src/ftp_server.cpp over a path, on paths that are joined from plain parts.
use mock_services.Base.{
  ℕ, ◌≡◌, refl, sym, ap, ◌∙◌, ◌≢◌, inl, inr, Bool-cases, Option-cases, some, List, [], ◌∷◌, ◌++◌,
  append_assoc, append-nil, arith, nat_eq, All, All-append, Text, text, text_eq, text_eq_iff,
}
use mock_services.Ftp.Path.{
  pop_back, keep_part, join_parts, close_part, parts_loop, close_cwd_part, cwd_loop, and_then,
}

-- A name of a file or directory: not empty, "." or "..", and free of slashes.
pub record IsPlain (part : Text) : Type 0 where
  pub some_text : part ≢ []
  pub no_dot : part ≢ text "."
  pub no_dots : part ≢ text ".."
  pub no_slash : All (λ (c : ℕ). c ≢ b'/') part

-- Inside a part the loops only collect.
parts_loop-part :
    (parts : List Text) (current part rest : Text)
    → All (λ (c : ℕ). c ≢ b'/') part
    → parts_loop parts current (part ++ rest) ≡ parts_loop parts (current ++ part) rest
unfolding parts_loop
parts_loop-part parts current [] rest h = rw append-nil
parts_loop-part parts current (c ∷ part) rest (p, h) = ground (
  arith,
  parts_loop-part parts (current ++ (c ∷ [])) part rest h,
  append_assoc current (c ∷ []) part,
)

keep_part-IsPlain :
    (parts : List Text) (part : Text) → IsPlain part → keep_part parts part ≡ parts ++ (part ∷ [])
unfolding keep_part
keep_part-IsPlain parts [] h = absurd (h.some_text refl)
keep_part-IsPlain parts (c ∷ part) h = ground (arith, text_eq_iff (c ∷ part) (text "."), h.no_dot)

close_part-IsPlain :
    (parts : List Text) (part : Text)
    → IsPlain part
    → close_part parts part ≡ some (parts ++ (part ∷ []))
unfolding close_part
close_part-IsPlain [] part h =
    ground (arith, text_eq_iff part (text ".."), h.no_dots, keep_part-IsPlain [] part h)
close_part-IsPlain (p ∷ parts) part h =
    ground (arith, text_eq_iff part (text ".."), h.no_dots, keep_part-IsPlain (p ∷ parts) part h)

-- A part and the slash behind it are taken off the raw path.
pub parts_loop-slash :
    (parts : List Text) (part rest : Text)
    → IsPlain part
    → parts_loop parts [] (part ++ (b'/' ∷ rest)) ≡ parts_loop (parts ++ (part ∷ [])) [] rest
unfolding parts_loop
parts_loop-slash parts part rest h =
    parts_loop-part parts [] part (b'/' ∷ rest) h.no_slash
    ∙ rw (close_part-IsPlain parts part h, and_then) refl

pub parts_loop-last :
    (parts : List Text) (part : Text)
    → IsPlain part
    → parts_loop parts [] part ≡ some (parts ++ (part ∷ []))
unfolding parts_loop
parts_loop-last parts part h =
    ap (parts_loop parts []) (sym (append-nil part))
    ∙ parts_loop-part parts [] part [] h.no_slash
    ∙ close_part-IsPlain parts part h

pub parts_loop-join :
    (parts names : List Text) (rest : Text)
    → All IsPlain names
    → names ≢ []
    → parts_loop parts [] (join_parts names ++ (b'/' ∷ rest)) ≡ parts_loop (parts ++ names) [] rest
unfolding join_parts
parts_loop-join parts [] rest h e = absurd (e refl)
parts_loop-join parts (name ∷ []) rest (p, h) e = parts_loop-slash parts name rest p
parts_loop-join parts (name ∷ next ∷ names) rest (p, h) e = rw append_assoc (
    parts_loop-slash parts name (join_parts (next ∷ names) ++ (b'/' ∷ rest)) p
    ∙ parts_loop-join (parts ++ (name ∷ [])) (next ∷ names) rest h (λ q. cc)
    ∙ rw append_assoc)

pub parts_loop-join_last :
    (parts names : List Text)
    → All IsPlain names
    → names ≢ []
    → parts_loop parts [] (join_parts names) ≡ some (parts ++ names)
unfolding join_parts
parts_loop-join_last parts [] h e = absurd (e refl)
parts_loop-join_last parts (name ∷ []) (p, h) e = parts_loop-last parts name p
parts_loop-join_last parts (name ∷ next ∷ names) (p, h) e =
    parts_loop-slash parts name (join_parts (next ∷ names)) p
    ∙ parts_loop-join_last (parts ++ (name ∷ [])) (next ∷ names) h (λ q. cc)
    ∙ rw append_assoc

pop_back-All : (P : Text → Type 0) (parts : List Text) → All P parts → All P (pop_back parts)
unfolding pop_back
pop_back-All P [] h = tt
pop_back-All P (part ∷ []) h = tt
pop_back-All P (part ∷ next ∷ parts) (p, h) = (p, pop_back-All P (next ∷ parts) h)

pub keep_part-All :
    (parts : List Text) (part : Text)
    → All IsPlain parts
    → All (λ (c : ℕ). c ≢ b'/') part
    → part ≢ text ".."
    → All IsPlain (keep_part parts part)
unfolding keep_part
keep_part-All parts [] h k e = h
keep_part-All parts (c ∷ part) h k e = elim (Bool-cases (text_eq (c ∷ part) (text "."))) [
  | inl dot ↦ rw dot h
  | inr other ↦ rw other (
      All-append IsPlain parts _ h (
        record {
          some_text = λ p. cc;
          no_dot = λ p. ground (arith, text_eq_iff (c ∷ part) (text "."));
          no_dots = e;
          no_slash = k;
        },
        tt,
      ))
]

pub close_part-All :
    (parts : List Text) (part : Text) {kept : List Text}
    → All IsPlain parts
    → All (λ (c : ℕ). c ≢ b'/') part
    → close_part parts part ≡ some kept
    → All IsPlain kept
unfolding close_part
close_part-All [] part {kept} h k e = elim (Bool-cases (text_eq part (text ".."))) [
  | inl dots ↦ cc (rw (dots, close_part) at e)
  | inr other ↦
      let q : keep_part [] part ≡ kept = ground arith in
      rw (← q) (keep_part-All [] part h k (λ p. ground (arith, text_eq_iff part (text ".."))))
]
close_part-All (p ∷ parts) part {kept} h k e = elim (Bool-cases (text_eq part (text ".."))) [
  | inl dots ↦
      let q : pop_back (p ∷ parts) ≡ kept = ground arith in
      rw (← q) (pop_back-All IsPlain (p ∷ parts) h)
  | inr other ↦
      let q : keep_part (p ∷ parts) part ≡ kept = ground arith in
      rw (← q)
        (keep_part-All (p ∷ parts) part h k (λ p. ground (arith, text_eq_iff part (text ".."))))
]

close_cwd_part-IsPlain :
    (parts : List Text) (part : Text)
    → All IsPlain parts
    → All (λ (c : ℕ). c ≢ b'/') part
    → All IsPlain (close_cwd_part parts part)
unfolding close_cwd_part
close_cwd_part-IsPlain parts part h k = elim (Bool-cases (text_eq part (text ".."))) [
  | inl dots ↦ rw dots (pop_back-All IsPlain parts h)
  | inr other ↦
      rw other (keep_part-All parts part h k (λ e. ground (arith, text_eq_iff part (text ".."))))
]

-- Whatever it is given, the loop of `cwd_cmd` keeps plain parts only.
pub cwd_loop-IsPlain :
    (parts : List Text) (current path : Text)
    → All IsPlain parts
    → All (λ (c : ℕ). c ≢ b'/') current
    → All IsPlain (cwd_loop parts current path)
unfolding cwd_loop
cwd_loop-IsPlain parts current [] h k = close_cwd_part-IsPlain parts current h k
cwd_loop-IsPlain parts current (c ∷ path) h k = elim (Bool-cases (nat_eq c b'/')) [
  | inl e ↦ rw e (
      cwd_loop-IsPlain (close_cwd_part parts current) [] path
        (close_cwd_part-IsPlain parts current h k) tt)
  | inr e ↦ rw e (
      cwd_loop-IsPlain parts (current ++ (c ∷ [])) path h
        (All-append _ current (c ∷ []) k ((λ p. ground (arith, e)), tt)))
]

-- So does the loop of `resolve`, where it gives parts at all.
pub parts_loop-IsPlain :
    (parts : List Text) (current raw : Text) {kept : List Text}
    → All IsPlain parts
    → All (λ (c : ℕ). c ≢ b'/') current
    → parts_loop parts current raw ≡ some kept
    → All IsPlain kept
unfolding parts_loop
parts_loop-IsPlain parts current [] h k e = close_part-All parts current h k e
parts_loop-IsPlain parts current (c ∷ raw) {kept} h k e = elim (Bool-cases (nat_eq c b'/')) [
  | inr no_slash ↦
      parts_loop-IsPlain parts (current ++ (c ∷ [])) raw h
        (All-append _ current (c ∷ []) k ((λ p. ground (arith, no_slash)), tt)) (ground arith)
  | inl slash ↦ elim (Option-cases (close_part parts current)) [
    | inl refused ↦ cc (rw (slash, refused, and_then) at e)
    | inr (parts', closed) ↦
        parts_loop-IsPlain parts' [] raw (close_part-All parts current h k closed) tt
          (rw (slash, closed, and_then) at e)
  ]
]
