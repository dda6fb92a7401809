-- ===== src/Ftp/Path/Resolving.antt =====
-- Where `resolve` of src/ftp_server.cpp leads.
use mock_services.Base.{
  append-nil, ℕ, ◌≡◌, refl, sym, ap, ◌∙◌, ◌≢◌, ◌⊎◌, inl, inr, Bool-cases, true, Option, none, some,
  List, [], ◌∷◌, ◌++◌, append_assoc, arith, All, All-append, All-append_left, Text, text, text_eq,
  text_eq_refl, take-length_append,
}
use mock_services.Ftp.Path.{
  starts_with, forward_slashes, pop_back, join_parts, keep_part, close_part, parts_loop, with_cwd,
  with_target, with_root, checked, resolved, resolve, cwd_path, change_directory, and_then,
}
use mock_services.Ftp.Path.Parts.{
  IsPlain, parts_loop-join, parts_loop-join_last, parts_loop-last, parts_loop-IsPlain,
  cwd_loop-IsPlain,
}

-- The working directory after any CWD is a path of plain parts from the root: no "..", "." or empty
-- part, whatever the argument and the directory before.
pub change_directory-IsPlain :
    (cwd arg : Text)
    → (parts : List Text) × (change_directory cwd arg ≡ join_parts parts) × All IsPlain parts
unfolding change_directory
change_directory-IsPlain cwd arg = (_, refl, cwd_loop-IsPlain [] [] (cwd_path cwd arg) tt tt)

-- A refusal, the base itself, or a path of plain parts that begins with the text of the base.
abbrev pub IsResolved : Text → Text → Type 0
IsResolved base path =
    (path ≡ [])
    ⊎ (path ≡ base)
    ⊎ ((raw : Text) × (parts : List Text) × (path ≡ with_root raw (join_parts parts))
        × All IsPlain parts
        × (starts_with path (forward_slashes base) ≡ true))

checked-IsResolved :
    (base raw : Text) (parts : List Text) (r : Text)
    → with_root raw (join_parts parts) ≡ r
    → All IsPlain parts
    → IsResolved base (checked base r)
unfolding checked
checked-IsResolved base raw parts [] e h = inr (inl refl)
checked-IsResolved base raw parts (c ∷ r) e h =
    elim (Bool-cases (starts_with (c ∷ r) (forward_slashes base))) [
      | inl inside ↦ rw inside (inr (inr (raw, parts, sym e, h, inside)))
      | inr outside ↦ rw outside (inl refl)
    ]

resolved-IsResolved :
    (base raw : Text) (r : Option (List Text))
    → parts_loop [] [] raw ≡ r
    → IsResolved base (resolved base raw r)
unfolding resolved
resolved-IsResolved base raw none e = inl refl
resolved-IsResolved base raw (some parts) e =
    checked-IsResolved base raw parts _ refl (parts_loop-IsPlain [] [] raw tt tt e)

-- Every answer of `resolve` is a refusal, the base itself, or a path of plain parts, with no "..",
-- that begins with the text of the base.
pub resolve-IsResolved : (base cwd target : Text) → IsResolved base (resolve base cwd target)
unfolding resolve
resolve-IsResolved base cwd target = resolved-IsResolved base _ _ refl

-- The absolute path of some parts.
abbrev pub absolute : List Text → Text
absolute parts = b'/' ∷ join_parts parts

forward_slashes-id : (s : Text) → All (λ (c : ℕ). c ≢ b'\\') s → forward_slashes s ≡ s
unfolding forward_slashes
forward_slashes-id [] h = refl
forward_slashes-id (c ∷ s) (p, h) = ground (arith, forward_slashes-id s h)

join_parts-append :
    (names more : List Text)
    → names ≢ []
    → more ≢ []
    → join_parts (names ++ more) ≡ join_parts names ++ (b'/' ∷ join_parts more)
unfolding join_parts
join_parts-append [] more e f = absurd (e refl)
join_parts-append names [] e f = absurd (f refl)
join_parts-append (first ∷ []) (name ∷ more) e f = refl
join_parts-append (first ∷ next ∷ names) (name ∷ more) e f =
    ap (λ t. first ++ (b'/' ∷ t)) (join_parts-append (next ∷ names) (name ∷ more) (λ q. cc) f)
    ∙ sym (append_assoc first _ _)

starts_with-append : (s t : Text) → starts_with (s ++ t) s ≡ true
unfolding starts_with
starts_with-append s t = rw (take-length_append s t) (text_eq_refl s)

with_cwd-join :
    (base : Text) (cwd : List Text)
    → All IsPlain cwd
    → cwd ≢ []
    → with_cwd base (join_parts cwd) ≡ base ++ (b'/' ∷ join_parts cwd)
unfolding with_cwd join_parts
with_cwd-join base [] h e = absurd (e refl)
with_cwd-join base ([] ∷ cwd) (p, h) e = absurd (p.some_text refl)
with_cwd-join base ((c ∷ part) ∷ []) h e = refl
with_cwd-join base ((c ∷ part) ∷ next ∷ cwd) h e = refl

with_target-join :
    (base raw : Text) (target : List Text)
    → All IsPlain target
    → target ≢ []
    → with_target base raw (join_parts target) ≡ raw ++ (b'/' ∷ join_parts target)
unfolding with_target join_parts
with_target-join base raw [] h e = absurd (e refl)
with_target-join base raw ([] ∷ target) (p, h) e = absurd (p.some_text refl)
with_target-join base raw ((c ∷ part) ∷ []) (p, h) e = ground (arith, p.no_slash.0)
with_target-join base raw ((c ∷ part) ∷ next ∷ target) (p, h) e = ground (arith, p.no_slash.0)

-- The root slash of a raw path starts with no part.
parts_loop-root : (raw : Text) → parts_loop [] [] (b'/' ∷ raw) ≡ parts_loop [] [] raw
unfolding parts_loop close_part keep_part text_eq text
parts_loop-root raw = refl

resolved-absolute :
    (base raw : Text) (parts : List Text)
    → starts_with (absolute parts) (forward_slashes base) ≡ true
    → resolved base (b'/' ∷ raw) (some parts) ≡ absolute parts
unfolding resolved with_root checked
resolved-absolute base raw parts h = rw h

append-ne-nil : (xs ys : List Text) → xs ≢ [] → xs ++ ys ≢ []
append-ne-nil [] ys e = absurd (e refl)
append-ne-nil (x ∷ xs) ys e = λ q. cc

append-right_ne-nil : (xs ys : List Text) → ys ≢ [] → xs ++ ys ≢ []
append-right_ne-nil [] ys e = e
append-right_ne-nil (x ∷ xs) ys e = λ q. cc

with_cwd-absolute :
    (base cwd : List Text)
    → base ≢ []
    → All IsPlain cwd
    → with_cwd (absolute base) (join_parts cwd) ≡ absolute (base ++ cwd)
unfolding with_cwd join_parts
with_cwd-absolute base [] eb h = rw append-nil refl
with_cwd-absolute base (part ∷ cwd) eb h =
    with_cwd-join (absolute base) (part ∷ cwd) h (λ q. cc)
    ∙ ap (λ t. b'/' ∷ t) (sym (join_parts-append base (part ∷ cwd) eb (λ q. cc)))

-- For a base, a working directory and a target of plain parts without a backslash, where the base and
-- the target have parts and the directory may have none, as that of a new client: the target, which
-- is relative, resolves to the path of the base, the directory and the target, one below the other.
pub resolve-absolute :
    (base cwd target : List Text)
    → All IsPlain base
    → base ≢ []
    → All IsPlain cwd
    → All IsPlain target
    → target ≢ []
    → All (λ (c : ℕ). c ≢ b'\\') (absolute (base ++ (cwd ++ target)))
    → resolve (absolute base) (join_parts cwd) (join_parts target)
      ≡ absolute (base ++ (cwd ++ target))
unfolding resolve
resolve-absolute base cwd target hb eb hc ht et h =
    let all = base ++ (cwd ++ target) in
    let some_target = append-right_ne-nil cwd target et in
    let joined = join_parts-append base (cwd ++ target) eb some_target in
    let raw : with_target (absolute base) (with_cwd (absolute base) (join_parts cwd))
          (join_parts target)
        ≡ absolute all =
      rw
        (
          with_cwd-absolute base cwd eb hc,
          with_target-join (absolute base) (absolute (base ++ cwd)) target ht et,
        )
        (ap (λ t. b'/' ∷ t)
          (sym (join_parts-append (base ++ cwd) target (append-ne-nil base cwd eb) et)
            ∙ ap join_parts (append_assoc base cwd target))) in
    let slashes = forward_slashes-id (absolute all) h in
    let base_slashes =
      forward_slashes-id (absolute base)
        (All-append_left _ (absolute base) (b'/' ∷ join_parts (cwd ++ target)) (rw joined at h)) in
    let parts =
      parts_loop-root (join_parts all)
      ∙ parts_loop-join_last [] all
          (All-append IsPlain base (cwd ++ target) hb (All-append IsPlain cwd target hc ht))
          (append-ne-nil base (cwd ++ target) eb) in
    rw (raw, slashes, parts)
      (resolved-absolute (absolute base) (join_parts all) all
        (rw (base_slashes, joined) (starts_with-append (absolute base) _)))

-- The part before the last is dropped by a "..".
pop_back-concat : (parts : List Text) (part : Text) → pop_back (parts ++ (part ∷ [])) ≡ parts
unfolding pop_back
pop_back-concat [] part = refl
pop_back-concat (p ∷ []) part = refl
pop_back-concat (p ∷ q ∷ parts) part = ap (◌∷◌ p) (pop_back-concat (q ∷ parts) part)

close_dots :
    (parts : List Text) (part : Text) → close_part (parts ++ (part ∷ [])) (text "..") ≡ some parts
unfolding close_part
close_dots [] part = unfold pop_back in rw (text_eq_refl (text ".."))
close_dots (p ∷ parts) part =
    rw (text_eq_refl (text "..")) (ap some (pop_back-concat (p ∷ parts) part))

parts_loop-dots :
    (parts : List Text) (part rest : Text)
    → parts_loop (parts ++ (part ∷ [])) [] (text ".." ++ (b'/' ∷ rest)) ≡ parts_loop parts [] rest
unfolding parts_loop text
parts_loop-dots parts part rest = rw (close_dots parts part, and_then) refl

join_parts-extend :
    (names : List Text) (name suffix : Text)
    → join_parts (names ++ ((name ++ suffix) ∷ [])) ≡ join_parts (names ++ (name ∷ [])) ++ suffix
unfolding join_parts
join_parts-extend [] name suffix = refl
join_parts-extend (p ∷ []) name suffix = sym (append_assoc p (b'/' ∷ name) suffix)
join_parts-extend (p ∷ q ∷ names) name suffix =
    ap (λ t. p ++ (b'/' ∷ t)) (join_parts-extend (q ∷ names) name suffix)
    ∙ sym (append_assoc p _ suffix)

concat-ne-nil : (xs : List Text) (x : Text) → xs ++ (x ∷ []) ≢ []
concat-ne-nil [] x = λ q. cc
concat-ne-nil (y ∷ xs) x = λ q. cc

-- A target "../", the base's own last name, and any further text of that name leads out of the
-- base: the answer is not refused and is the sibling directory of the longer name.
pub resolve_sibling :
    (above : List Text) (name suffix : Text)
    → All IsPlain above
    → IsPlain name
    → IsPlain (name ++ suffix)
    → All (λ (c : ℕ). c ≢ b'\\') (absolute (above ++ (name ∷ [])))
    → All (λ (c : ℕ). c ≢ b'\\') (name ++ suffix)
    → resolve (absolute (above ++ (name ∷ []))) [] (text "../" ++ (name ++ suffix))
      ≡ absolute (above ++ ((name ++ suffix) ∷ []))
unfolding resolve with_cwd with_target text
resolve_sibling above name suffix ha hn hs b b' =
    let base = above ++ (name ∷ []) in
    let base_plain = All-append IsPlain above (name ∷ []) ha (hn, tt) in
    let some_base = concat-ne-nil above name in
    let slashes = forward_slashes-id (absolute base ++ (b'/' ∷ (text "../" ++ (name ++ suffix)))) (
      All-append _ (absolute base) _ b
        (omega arith, (omega arith, (omega arith, (omega arith, b'))))) in
    let parts =
      parts_loop-root (join_parts base ++ (b'/' ∷ (text "../" ++ (name ++ suffix))))
      ∙ parts_loop-join [] base (text "../" ++ (name ++ suffix)) base_plain some_base
      ∙ parts_loop-dots above name (name ++ suffix)
      ∙ parts_loop-last above (name ++ suffix) hs in
    rw (slashes, parts)
      (resolved-absolute (absolute base) _ (above ++ ((name ++ suffix) ∷ [])) (
        rw (forward_slashes-id (absolute base) b, join_parts-extend above name suffix)
          (starts_with-append (absolute base) suffix)))
