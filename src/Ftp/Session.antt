-- ===== src/Ftp/Session.antt =====
-- src/ftp_server.cpp, users and logins: the state, the account list, USER, PASS and the two checks
-- that commands begin with. Each command holds its locks throughout, so it is one step.
pub mod Logins
use mock_services.Base.{
  ℕ, suc, ◌+◌, bit_and, Bool, true, false, not, ◌&&◌, ◌||◌, Option, none, some, List, [], ◌∷◌, ◌++◌,
  nat_eq, if◌then◌else◌, Text, text, text_ltb, ◌==◌, text_key, to_string,
}
use mock_services.Net.{RawSocket}
use mock_services.Threads.{ThreadGroup}
use mock_services.Ftp.Path.{is_empty}

-- `ftp_permission`: `none` 0, `read` 1, `write` 2, `all` 3.
abbrev pub Permission : Type 0
Permission = ℕ

abbrev pub read_permission : Permission
read_permission = 1

abbrev pub write_permission : Permission
write_permission = 2

pub record User : Type 0 where
  pub name : Text
  pub pass : Text
  pub root : Text
  pub perm : Permission
  pub anon : Bool

pub record Client : Type 0 where
  pub sock : RawSocket
  pub user : Text
  pub cwd : Text
  pub phy_root : Text
  pub perm : Permission
  pub auth : Bool
  pub data_sock : RawSocket
  pub pasv : Bool

-- The state of a client that was just accepted.
abbrev pub new_client : RawSocket → Client
new_client sock = record {
  sock = sock;
  user = [];
  cwd = [];
  phy_root = [];
  perm = 0;
  auth = false;
  data_sock = none;
  pasv = false;
}

-- What the server does to the world, in order: bytes sent, sockets, and files by their path.
pub data Effect : Type 0 where
  sent : ℕ → List ℕ → Effect
  shut closed : ℕ → Effect
  listed : Text → Effect
  opened : Text → Effect
  created : Text → List ℕ → Effect
  unlinked removed made : Text → Effect

pub record Server : Type 0 where
  pub ctrl : RawSocket
  pub running : Bool
  pub port : ℕ
  pub temp_root : Text
  pub users : List User
  pub conn_users : List Text
  pub clients : List ℕ
  pub client_threads : ThreadGroup
  pub effects : List Effect

-- A command works on one client of the server.
pub record Conn : Type 0 where
  pub client : Client
  pub server : Server

abbrev pub emit : Effect → Conn → Conn
emit e c = record c { server = record c.server { effects = c.server.effects ++ (e ∷ []) } }

-- `ftp_send`
unfoldable pub ftp_send : RawSocket → Text → Conn → Conn
ftp_send none msg c = c
ftp_send (some sock) msg c = emit (sent sock msg) c

abbrev pub reply : Text → Conn → Conn
reply msg c = ftp_send c.client.sock msg c

-- `std::set::insert` and `erase`, in the order of the strings.
unfoldable pub insert : Text → List Text → List Text
insert name [] = name ∷ []
insert name (other ∷ names) =
    if other == name
    then other ∷ names
    else if text_ltb name other
    then name ∷ other ∷ names
    else other ∷ insert name names

unfoldable pub remove : Text → List Text → List Text
remove name [] = []
remove name (other ∷ names) = if other == name then remove name names else other ∷ remove name names

unfoldable pub replace_user : User → List User → Option (List User)
replace_user new [] = none
replace_user new (u ∷ users) =
    let later : Option (List User) = elim (replace_user new users) [
      | none ↦ none
      | some users' ↦ some (u ∷ users')
    ] in
    if u.name == new.name && not u.anon then some (new ∷ users) else later

-- `add_user`: the first account of that name that is not anonymous is overwritten.
unfoldable pub add_user : Text → Text → Text → Permission → List User → List User
add_user name pass root perm users =
    let new : User = record { name = name; pass = pass; root = root; perm = perm; anon = false } in
    elim (replace_user new users) [ some users' ↦ users' | none ↦ users ++ (new ∷ []) ]

unfoldable pub add_anonymous_user : Text → Permission → List User → List User
add_anonymous_user root perm users =
    users
    ++ (record { name = text "anonymous"; pass = []; root = root; perm = perm; anon = true } ∷ [])

unfoldable pub clear_users : Server → Server
clear_users s = record s { users = [] }

unfoldable pub connected_users : Server → List Text
connected_users s = s.conn_users

abbrev pub login_message : Text
login_message = text "230 Login successful\r\n"

abbrev pub login_refused : Text
login_refused = text "530 Login incorrect\r\n"

-- What a login writes into the client and into the set of connected users.
abbrev pub log_in : User → Text → Conn → Conn
log_in u phy_root c = record c {
  client = record c.client { auth = true; perm = u.perm; phy_root = phy_root };
  server = record c.server { conn_users = insert u.name c.server.conn_users };
}

-- The loop of `user_cmd` over the accounts.
unfoldable pub find_user : Text → List User → Option User
find_user arg [] = none
find_user arg (u ∷ users) =
    if u.name == arg || (u.anon && arg == text "anonymous") then some u else find_user arg users

unfoldable pub named_user : Option User → Conn → Conn
named_user none c = reply login_refused c
named_user (some u) c =
    let c' : Conn = record c { client = record c.client { user = u.name } } in
    if u.anon
    then reply login_message (log_in u c.server.temp_root c')
    else reply (text "331 Password required\r\n") c'

unfoldable pub user_cmd : Text → Conn → Conn
user_cmd arg c = named_user (find_user arg c.server.users) c

-- The loop of `pass_cmd` over the accounts.
unfoldable pub find_account : Text → List User → Option User
find_account name [] = none
find_account name (u ∷ users) =
    if u.name == name && not u.anon then some u else find_account name users

-- The account's directory below the temporary root, with the `mkdir` of a root of its own.
unfoldable pub without_slash : Text → Text
without_slash [] = []
without_slash (c ∷ root) = if nat_eq c b'/' then root else c ∷ root

unfoldable pub enter_root : User → Conn → Conn
enter_root u c =
    let relative_root = without_slash u.root in
    let path = c.server.temp_root ++ (b'/' ∷ relative_root) in
    if is_empty u.root || u.root == text "/" || is_empty relative_root
    then log_in u c.server.temp_root c
    else log_in u path (emit (made path) c)

unfoldable pub check_pass : Text → Option User → Conn → Conn
check_pass arg none c = reply login_refused c
check_pass arg (some u) c =
    if u.pass == arg then reply login_message (enter_root u c) else reply login_refused c

unfoldable pub pass_cmd : Text → Conn → Conn
pass_cmd arg c =
    if c.client.auth
    then reply (text "230 Already logged in\r\n") c
    else if is_empty c.client.user
    then reply (text "503 Login with USER first\r\n") c
    else check_pass arg (find_account c.client.user c.server.users) c

-- `(have & need) == need`
abbrev pub allows : Permission → Permission → Bool
allows have need = nat_eq (bit_and have need) need

-- `if (!require_auth(client)) return;` and the same for `require_perm`, before the rest of a command.
unfoldable pub require_auth : (Conn → Conn) → Conn → Conn
require_auth rest c =
    if c.client.auth then rest c else reply (text "530 Please login with USER and PASS\r\n") c

unfoldable pub require_perm : Permission → (Conn → Conn) → Conn → Conn
require_perm need rest c =
    if allows c.client.perm need then rest c else reply (text "550 Permission denied\r\n") c

-- `close_pasv`, `close_client`
unfoldable pub close_data : RawSocket → Conn → Conn
close_data none c = c
close_data (some sock) c = emit (closed sock) c

unfoldable pub close_pasv : Conn → Conn
close_pasv c =
    let c' = close_data c.client.data_sock c in
    record c' { client = record c'.client { data_sock = none; pasv = false } }

unfoldable pub close_control : RawSocket → Conn → Conn
close_control none c = c
close_control (some sock) c =
    let c' = emit (closed sock) (emit (shut sock) c) in
    record c' { client = record c'.client { sock = none } }

unfoldable pub close_client : Conn → Conn
close_client c = close_pasv (close_control c.client.sock c)

-- The end of `client_loop`: the user is no longer connected, and the client is closed and dropped,
-- if it is still in the list.
abbrev pub without : ℕ → List ℕ → List ℕ
without id [] = []
without id (other ∷ ids) = if nat_eq other id then ids else other ∷ without id ids

abbrev pub has_client : ℕ → List ℕ → Bool
has_client id [] = false
has_client id (other ∷ ids) = nat_eq other id || has_client id ids

unfoldable pub remove_client : ℕ → Conn → Conn
remove_client id c =
    let c' = close_client c in
    if has_client id c.server.clients
    then record c' { server = record c'.server { clients = without id c'.server.clients } }
    else c

unfoldable pub end_session : ℕ → Conn → Conn
end_session id c =
    let left : Conn = record c {
      server = record c.server { conn_users = remove c.client.user c.server.conn_users };
    } in
    remove_client id (if c.client.auth then left else c)
