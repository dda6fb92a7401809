-- ===== src/Ftp/Session/Logins.antt =====
-- PASS of src/ftp_server.cpp.
use mock_services.Base.{◌≡◌, ◌↔◌, true, false, Option, Text, List, ◌∷◌}
use mock_services.Ftp.Path.{is_empty}
use mock_services.Ftp.Session.{User, Conn}

-- The first account of the list that has the name and is not anonymous.
pub data IsFirst (name : Text) : List User → User → Type 0 where
  here :
      {u : User} {users : List User} → u.name ≡ name → u.anon ≡ false → IsFirst name (u ∷ users) u
  there :
      {u v : User} {users : List User}
      → ¬ ((u.name ≡ name) × (u.anon ≡ false))
      → IsFirst name users v
      → IsFirst name (u ∷ users) v

-- The client is logged in after the command as the first account of its name that is not anonymous,
-- and that account's password is the argument.
abbrev pub LogsIn : Text → Conn → Conn → Type 0
LogsIn arg c after = (after.client.auth ≡ true) ↔ (
    (u : User) × (is_empty c.client.user ≡ false)
    × IsFirst c.client.user c.server.users u
    × (u.pass ≡ arg)
    × (after.client.perm ≡ u.perm))
