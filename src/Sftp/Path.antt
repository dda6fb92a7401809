-- ===== src/Sftp/Path.antt =====
-- `resolve_path` of src/sftp_server.cpp and include/mock-services/detail/path_utils.h, as they are
-- built for POSIX. `realpath` of the C library is a parameter.
pub mod Confined
use mock_services.Base.{
  ℕ, Bool, true, false, ◌&&◌, ◌||◌, Option, none, some, List, [], ◌∷◌, ◌++◌, map, nat_eq,
  if◌then◌else◌, Text,
}

abbrev slash_of : ℕ → ℕ
slash_of b = if nat_eq b b'\\' then b'/' else b

unfoldable pub normalize_separators : Text → Text
normalize_separators path = map slash_of path

unfoldable pub has_case_insensitive_prefix : Text → Text → Bool
has_case_insensitive_prefix s [] = true
has_case_insensitive_prefix [] (b ∷ prefix) = false
has_case_insensitive_prefix (a ∷ s) (b ∷ prefix) =
    nat_eq a b && has_case_insensitive_prefix s prefix

-- `combined += '/'`, unless it ends in one.
unfoldable pub end_in_slash : Text → Text
end_in_slash [] = []
end_in_slash (b ∷ []) = if nat_eq b b'/' then b ∷ [] else b ∷ b'/' ∷ []
end_in_slash (b ∷ next ∷ path) = b ∷ end_in_slash (next ∷ path)

unfoldable pub drop_slashes : Text → Text
drop_slashes [] = []
drop_slashes (b ∷ path) = if nat_eq b b'/' || nat_eq b b'\\' then drop_slashes path else b ∷ path

-- The text before the last slash and the text behind it.
unfoldable pub split_last_slash : Text → Option (Text × Text)
split_last_slash [] = none
split_last_slash (b ∷ path) = elim (split_last_slash path) [
  | some (dir, base) ↦ some (b ∷ dir, base)
  | none ↦ if nat_eq b b'/' then some ([], path) else none
]

-- The last test of `resolve_path`; the empty text is its refusal.
unfoldable pub below : Text → Text → Text
below root resolved =
    if has_case_insensitive_prefix (normalize_separators resolved) (normalize_separators root)
    then resolved
    else []

unfoldable pub combined_path : Text → Text → Text
combined_path root client_path =
    end_in_slash (normalize_separators root) ++ drop_slashes client_path

module _ (realpath : Text → Option Text) where
  -- A path that does not exist: its directory has to.
  unfoldable pub resolve_parent : Text → Option Text
  resolve_parent combined =
      let (dir, base) : Text × Text = elim (split_last_slash combined) [
        | none ↦ (combined, [])
        | some parts ↦ parts
      ] in
      elim (realpath dir) [ none ↦ none | some resolved ↦ some (resolved ++ (b'/' ∷ base)) ]

  unfoldable pub resolve_existing : Text → Bool → Option Text
  resolve_existing combined must_exist = elim (realpath combined) [
    | some resolved ↦ some resolved
    | none ↦ if must_exist then none else resolve_parent combined
  ]

  unfoldable pub resolve_path : Text → Text → Bool → Text
  resolve_path [] client_path must_exist = []
  resolve_path (b ∷ root) client_path must_exist =
      elim (resolve_existing (combined_path (b ∷ root) client_path) must_exist) [
        | none ↦ []
        | some resolved ↦ below (b ∷ root) resolved
      ]
