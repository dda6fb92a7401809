-- ===== src/Sftp/Path/Confined.antt =====
-- What `resolve_path` of src/sftp_server.cpp gives out.
use mock_services.Base.{
  ◌≡◌, ◌≢◌, refl, sym, ap, ◌↔◌, inl, inr, true, Bool, Bool-cases, Option, Option-cases, some, [],
  ◌∷◌, ◌++◌, nat_eq, nat_eq_iff, arith, Text,
}
use mock_services.Sftp.Path.{
  normalize_separators, has_case_insensitive_prefix, below, combined_path, resolve_existing,
  resolve_path,
}

-- `prefix` begins `s`.
abbrev pub IsBelow : Text → Text → Type 0
IsBelow prefix s = (rest : Text) × (s ≡ prefix ++ rest)

pub prefix_rest : (s prefix : Text) → has_case_insensitive_prefix s prefix ≡ true → IsBelow prefix s
unfolding has_case_insensitive_prefix
prefix_rest s [] h = (s, refl)
prefix_rest [] (b ∷ prefix) h = cc
prefix_rest (a ∷ s) (b ∷ prefix) h =
    let same : nat_eq a b ≡ true = ground arith in
    let later : has_case_insensitive_prefix s prefix ≡ true = ground arith in
    let (rest, e) = prefix_rest s prefix later in (rest, rw (e, (nat_eq_iff a b).0 same) refl)

pub rest_prefix : (prefix rest : Text) → has_case_insensitive_prefix (prefix ++ rest) prefix ≡ true
unfolding has_case_insensitive_prefix
rest_prefix [] rest = refl
rest_prefix (b ∷ prefix) rest = rw (rest_prefix prefix rest) (ground arith)

below_iff :
    (root resolved path : Text)
    → path ≢ []
    → (below root resolved ≡ path)
      ↔ ((resolved ≡ path) × IsBelow (normalize_separators root) (normalize_separators path))
unfolding below
below_iff root resolved path ne = (
  λ e.
      elim (Bool-cases
        (has_case_insensitive_prefix (normalize_separators resolved) (normalize_separators root))) [
          | inl inside ↦
              let same : resolved ≡ path = rw inside at e in
              (same, rw same at (prefix_rest _ _ inside))
          | inr outside ↦ absurd (ne (sym (rw outside at e)))
        ],
  λ (same, (rest, e)).
      let inside : has_case_insensitive_prefix (normalize_separators path)
            (normalize_separators root)
          ≡ true =
        rw e (rest_prefix (normalize_separators root) rest) in
      rw (same, inside) refl,
)

module _ (realpath : Text → Option Text) where
  -- A path that is not the empty refusal is given out exactly where the root is not empty, the
  -- lookup of the client's path under the root finds it, and it begins with the root's text.
  pub resolve_path_iff :
      (root client_path path : Text) (must_exist : Bool)
      → path ≢ []
      → (resolve_path realpath root client_path must_exist ≡ path) ↔ (
          (root ≢ [])
          × (resolve_existing realpath (combined_path root client_path) must_exist ≡ some path)
          × IsBelow (normalize_separators root) (normalize_separators path))
  unfolding resolve_path
  resolve_path_iff [] client_path path must_exist ne =
      (λ e. absurd (ne (sym e)), λ (h, _, _). absurd (h refl))
  resolve_path_iff (b ∷ root) client_path path must_exist ne =
      elim (Option-cases
        (resolve_existing realpath (combined_path (b ∷ root) client_path) must_exist)) [
          | inl e ↦ rw (resolve_path, e) (λ h. absurd (ne (sym h)), λ (_, k, _). absurd (cc k))
          | inr (found, e) ↦
              rw (resolve_path, e)
                (
                  λ h.
                      let (same, inside) = (below_iff (b ∷ root) found path ne).0 h in
                      (λ q. cc, ap some same, inside),
                  λ (_, k, inside).
                      let same : found ≡ path = cc in
                      (below_iff (b ∷ root) found path ne).1 (same, inside),
                )
        ]
