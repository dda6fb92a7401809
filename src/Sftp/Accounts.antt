-- ===== src/Sftp/Accounts.antt =====
-- src/sftp_server.cpp, the accounts, the sessions and the activity log. Each operation holds
-- `mtx_` throughout, so it is one step; a session is known by a number.
pub mod Logins
use mock_services.Base.{
  ℕ, Bool, true, false, not, ◌&&◌, Option, none, some, List, [], ◌∷◌, ◌++◌, if◌then◌else◌, Text,
  text, to_string, ◌==◌, text_key, nat_key,
}
use mock_services.Base.Dict.{Dict, find, assign, erase}
use mock_services.Sftp.Messages.{Permission, Context, Effect, logged}

pub record User : Type 0 where
  pub name : Text
  pub pass : Text
  pub root : Text
  pub perm : Permission

pub record Activity : Type 0 where
  pub user : Text
  pub operation : Text
  pub path : Text
  pub outcome : Text

-- `HandshakeState`; `none` is a null channel.
pub record Handshake : Type 0 where
  pub pending_channel : Option ℕ
  pub subsystem_accepted : Bool

pub record Server : Type 0 where
  pub running : Bool
  pub port : ℕ
  pub users : List User
  pub activity : List Activity
  pub conn_users : List Text
  pub session_users : Dict ℕ Text
  pub handshakes : Dict ℕ Handshake

-- `add_user`: the account of that name is overwritten.
unfoldable pub add_user : User → List User → List User
add_user new [] = new ∷ []
add_user new (u ∷ users) =
    let rest = add_user new users in if u.name == new.name then new ∷ users else u ∷ rest

unfoldable pub clear_users : Server → Server
clear_users s = record s { users = [] }

-- The loop of `check_auth`: whether some account has the name and the password.
unfoldable pub has_account : Text → Text → List User → Bool
has_account user password [] = false
has_account user password (u ∷ users) =
    if u.name == user && u.pass == password then true else has_account user password users

-- `std::find` on the connected users, and `erase` of what it finds.
unfoldable pub is_connected : Text → List Text → Bool
is_connected user [] = false
is_connected user (other ∷ users) = if other == user then true else is_connected user users

unfoldable pub erase_first : Text → List Text → List Text
erase_first user [] = []
erase_first user (other ∷ users) =
    let rest = erase_first user users in if other == user then users else other ∷ rest

-- `check_auth`, with whether it is `SSH_AUTH_SUCCESS`.
unfoldable pub check_auth : ℕ → Text → Text → Server → Bool × Server
check_auth session user password s =
    let conn_users =
      if is_connected user s.conn_users then s.conn_users else s.conn_users ++ (user ∷ []) in
    let s' : Server = record s {
      session_users = assign session user s.session_users;
      conn_users = conn_users;
    } in
    if has_account user password s.users then (true, s') else (false, s)

unfoldable pub remove_session : ℕ → Server → Server
remove_session session s = elim (find session s.session_users) [
  | none ↦ s
  | some user ↦ record s {
    conn_users = erase_first user s.conn_users;
    session_users = erase session s.session_users;
  }
]

unfoldable pub find_user : Text → List User → Option User
find_user name [] = none
find_user name (u ∷ users) = if u.name == name then some u else find_user name users

-- `lookup_user` into an empty name and root and the permission `none`, as its caller has them.
unfoldable pub lookup_user : ℕ → Server → Context
lookup_user session s = elim (find session s.session_users) [
  | none ↦ record { username = []; root = []; perm = 0 }
  | some username ↦ elim (find_user username s.users) [
    | none ↦ record { username = username; root = []; perm = 0 }
    | some u ↦ record { username = username; root = u.root; perm = u.perm }
  ]
]

-- `log_activity`, for the entries that one handler makes, behind one another. Those that other threads
-- make in between stand before or behind them.
unfoldable pub log_effects : Text → List Effect → List Activity
log_effects user [] = []
log_effects user (effect ∷ effects) =
    let rest = log_effects user effects in
    elim effect [
      | logged operation path outcome ↦
          record { user = user; operation = operation; path = path; outcome = outcome } ∷ rest
      | _ ↦ rest
    ]

unfoldable pub log_activity : Text → List Effect → Server → Server
log_activity user effects s = record s { activity = s.activity ++ log_effects user effects }

unfoldable pub connected_users : Server → List Text
connected_users s = s.conn_users

unfoldable pub clear_activity : Server → Server
clear_activity s = record s { activity = [] }

-- `none` is the exception of a server that is not running.
unfoldable pub base_url : Server → Option Text
base_url s = if s.running then some (text "sftp://127.0.0.1:" ++ to_string s.port) else none

-- The state that `stop` leaves. It joins every session first.
unfoldable pub stop : Server → Server
stop s =
    if s.running
    then record s { running = false; port = 0; conn_users = []; session_users = [] }
    else s
