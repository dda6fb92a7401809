-- ===== src/Ftp/World/Within.antt =====
-- Paths of src/ftp_server.cpp that begin with the temporary root.
use mock_services.Base.{
  ◌≡◌, refl, sym, ap, ◌∙◌, ◌⊎◌, inl, inr, true, [], ◌∷◌, ◌++◌, append_assoc, append-nil, arith,
  length, take, drop, take-append-drop, nat_eq, Text, text_eq_iff, if◌then◌else◌,
}
use mock_services.Ftp.Path.{starts_with, forward_slashes, resolve}
use mock_services.Ftp.Path.Resolving.{resolve-IsResolved}

-- With every backslash read as a slash, the path begins with the root.
abbrev pub Within : Text → Text → Type 0
Within root path = (rest : Text) × (forward_slashes path ≡ forward_slashes root ++ rest)

slashes-append : (s t : Text) → forward_slashes (s ++ t) ≡ forward_slashes s ++ forward_slashes t
unfolding forward_slashes
slashes-append [] t = refl
slashes-append (b ∷ s) t = ap (◌∷◌ (if nat_eq b b'\\' then b'/' else b)) (slashes-append s t)

slashes_twice : (s : Text) → forward_slashes (forward_slashes s) ≡ forward_slashes s
unfolding forward_slashes
slashes_twice [] = refl
slashes_twice (b ∷ s) = ground (arith, slashes_twice s)

pub Within-append : (root path more : Text) → Within root path → Within root (path ++ more)
Within-append root path more (rest, e) = (
  rest ++ forward_slashes more,
  slashes-append path more ∙ rw e (append_assoc (forward_slashes root) rest (forward_slashes more)),
)

pub Within-refl : (root : Text) → Within root root
Within-refl root = ([], sym (append-nil (forward_slashes root)))

-- What begins with the slashed text of a path within the root is within the root.
starts_with-Within :
    (root base path : Text)
    → Within root base
    → starts_with path (forward_slashes base) ≡ true
    → Within root path
unfolding starts_with
starts_with-Within root base path (rest, e) h =
    let front =
      (text_eq_iff (take (length (forward_slashes base)) path) (forward_slashes base)).0 h in
    let more = drop (length (forward_slashes base)) path in
    let whole : path ≡ forward_slashes base ++ more =
      sym (take-append-drop (length (forward_slashes base)) path) ∙ rw front in
    let (rest', k) =
      Within-append root (forward_slashes base) more (rest, slashes_twice base ∙ e) in
    (rest', ap forward_slashes whole ∙ k)

pub resolve-Within :
    (root base dir target : Text)
    → Within root base
    → (resolve base dir target ≡ []) ⊎ Within root (resolve base dir target)
resolve-Within root base dir target h = elim (resolve-IsResolved base dir target) [
  | inl e ↦ inl e
  | inr (inl e) ↦ inr (rw e h)
  | inr (inr (raw, parts, _, _, inside)) ↦ inr (starts_with-Within root base _ h inside)
]
