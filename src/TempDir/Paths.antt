-- ===== src/TempDir/Paths.antt =====
-- Paths as src/temp_dir.cpp makes them: what is at or below a directory.
use mock_services.Base.{
  ◌≡◌, refl, Bool, true, false, not, ◌&&◌, [], ◌∷◌, All, arith, Text, nat_eq, nat_eq_iff, ◌==◌,
  text_key,
}
use mock_services.TempDir.{child_path}

-- Whether a path is that of a directory or stands below it.
abbrev pub within : Text → Text → Bool
within [] [] = true
within [] (c ∷ path) = nat_eq c b'/'
within (x ∷ dir) [] = false
within (x ∷ dir) (c ∷ path) = nat_eq x c && within dir path

abbrev pub below : Text → Text → Bool
below dir path = within dir path && not (dir == path)

names_meet :
    (name other path : Text)
    → All (λ c. nat_eq c b'/' ≡ false) name
    → All (λ c. nat_eq c b'/' ≡ false) other
    → within name path ≡ true
    → within other path ≡ true
    → name ≡ other
names_meet [] [] path h k p q = refl
names_meet [] (c ∷ other) [] h k p q = cc
names_meet [] (c ∷ other) (d ∷ path) h (k, _) p q = ground (arith, nat_eq_iff c d)
names_meet (c ∷ name) [] [] h k p q = cc
names_meet (c ∷ name) [] (d ∷ path) (h, _) k p q = ground (arith, nat_eq_iff c d)
names_meet (c ∷ name) (e ∷ other) [] h k p q = cc
names_meet (c ∷ name) (e ∷ other) (d ∷ path) (_, h) (_, k) p q =
    ground (arith, nat_eq_iff c d, nat_eq_iff e d, names_meet name other path h k)

pub children_meet :
    (dir name other path : Text)
    → All (λ c. nat_eq c b'/' ≡ false) name
    → All (λ c. nat_eq c b'/' ≡ false) other
    → within (child_path dir name) path ≡ true
    → within (child_path dir other) path ≡ true
    → name ≡ other
children_meet [] name other [] h k p q = cc
children_meet [] name other (d ∷ path) h k p q = ground (arith, names_meet name other path h k)
children_meet (c ∷ dir) name other [] h k p q = cc
children_meet (c ∷ dir) name other (d ∷ path) h k p q =
    ground (arith, children_meet dir name other path h k)

pub child_within :
    (dir name path : Text) → within (child_path dir name) path ≡ true → within dir path ≡ true
child_within [] name [] p = cc
child_within [] name (d ∷ path) p = ground (arith, nat_eq_iff b'/' d, nat_eq_iff d b'/')
child_within (c ∷ dir) name [] p = cc
child_within (c ∷ dir) name (d ∷ path) p = ground (arith, child_within dir name path)

pub child_not_dir : (dir name : Text) → within (child_path dir name) dir ≡ false
child_not_dir [] name = refl
child_not_dir (c ∷ dir) name = ground (arith, child_not_dir dir name)

pub within_refl : (dir : Text) → within dir dir ≡ true
within_refl [] = refl
within_refl (c ∷ dir) = ground (arith, nat_eq_iff c c, within_refl dir)
