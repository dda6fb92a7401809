-- ===== src/Sftp/Accounts/Logins.antt =====
-- The accounts and sessions of src/sftp_server.cpp.
use mock_services.Base.{
  ◌≡◌, refl, inl, inr, false, Bool-cases, some, List, [], ◌∷◌, All, arith, Text, text_eq_iff, ◌==◌,
  text_key, nat_key, if◌then◌else◌,
}
use mock_services.Sftp.Accounts.{User, add_user, find_user}

-- No two accounts have the same name.
abbrev pub IsUnique : List User → Type 0
IsUnique [] = Unit
IsUnique (u ∷ users) = All (λ v. (v.name == u.name) ≡ false) users × IsUnique users

find_user-add_user :
    (new : User) (name : Text) (users : List User)
    → find_user name (add_user new users)
      ≡ (if new.name == name then some new else find_user name users)
unfolding find_user add_user
find_user-add_user new name [] = refl
find_user-add_user new name (u ∷ users) = ground (
  arith,
  find_user-add_user new name users,
  text_eq_iff u.name new.name,
  text_eq_iff u.name name,
  text_eq_iff new.name name,
)

add_user-absent :
    (new : User) (name : Text) (users : List User)
    → (new.name == name) ≡ false
    → All (λ v. (v.name == name) ≡ false) users
    → All (λ v. (v.name == name) ≡ false) (add_user new users)
unfolding add_user
add_user-absent new name [] h k = (h, tt)
add_user-absent new name (u ∷ users) h (p, k) = elim (Bool-cases (u.name == new.name)) [
  | inl e ↦ rw e (h, k)
  | inr e ↦ rw e (p, add_user-absent new name users h k)
]

add_user-keeps_IsUnique :
    (new : User) (users : List User) → IsUnique users → IsUnique (add_user new users)
unfolding add_user
add_user-keeps_IsUnique new [] h = (tt, tt)
add_user-keeps_IsUnique new (u ∷ users) (h, k) = elim (Bool-cases (u.name == new.name)) [
  | inl e ↦ let same = (text_eq_iff u.name new.name).0 e in rw e (rw same at h, k)
  | inr e ↦ rw e (
    add_user-absent new u.name users (differs u.name new.name e) h,
    add_user-keeps_IsUnique new users k,
  )
]
  where
    differs : (a b : Text) → (a == b) ≡ false → (b == a) ≡ false
    differs a b h = ground (arith, text_eq_iff a b, text_eq_iff b a)

-- Adding an account keeps the names unique; the account of the new name is then the new one, and
-- every other name finds what it found.
pub add_user-IsUnique :
    (new : User) (users : List User) (name : Text)
    → IsUnique users
    → IsUnique (add_user new users)
      × (find_user name (add_user new users)
          ≡ (if new.name == name then some new else find_user name users))
add_user-IsUnique new users name h =
    (add_user-keeps_IsUnique new users h, find_user-add_user new name users)

find_user-has_name :
    (user : Text) (users : List User) (u : User) → find_user user users ≡ some u → u.name ≡ user
unfolding find_user
find_user-has_name user [] u h = cc
find_user-has_name user (v ∷ users) u h =
    ground (arith, find_user-has_name user users u, text_eq_iff v.name user)
