-- ===== src/Ftp/Commands.antt =====
-- src/ftp_server.cpp, what each command does.
pub mod Guards
pub mod Lines
use mock_services.Base.{
  ℕ, zero, suc, ◌+◌, ◌-◌, ◌/◌, ◌%◌, Bool, true, false, not, ◌&&◌, Option, none, some, List, [], ◌∷◌,
  ◌++◌, map, nat_eq, leb, if◌then◌else◌, Text, text, ◌==◌, text_key, to_string,
}
use mock_services.Net.{RawSocket}
use mock_services.Ftp.Path.{is_empty, resolve, change_directory}
use mock_services.Ftp.Listing.{Time, Entry, dir_listing}
use mock_services.Ftp.Session.{
  Client, Server, Conn, Effect, sent, shut, closed, listed, opened, created, unlinked, removed,
  made, emit, ftp_send, reply, user_cmd, pass_cmd, require_auth, require_perm, close_pasv,
  close_client, read_permission, write_permission, end_session,
}

-- The answers of the operating system to one command: the passive socket with its port, the data
-- connection, and the file system.
pub record System : Type 0 where
  pub passive : Option (ℕ × Option ℕ)
  pub connects : RawSocket
  pub entries : Text → Option (List Entry)
  pub local : ℕ → Time
  pub contents : Text → Option (List ℕ)
  pub can_create : Text → Bool
  pub received : List ℕ
  pub can_unlink : Text → Bool
  pub can_make : Text → Bool
  pub can_remove : Text → Bool

abbrev no_data : Text
no_data = text "425 Can't open data connection\r\n"

abbrev opening : Text
opening = text "150 Opening data connection\r\n"

abbrev complete : Text
complete = text "226 Transfer complete\r\n"

-- `pasv_cmd` behind its check. The new socket is closed again where `bind`, `listen` or
-- `getsockname` fails (`none` for the port).
unfoldable pub enter_passive : Option (ℕ × Option ℕ) → Conn → Conn
enter_passive none c = reply no_data c
enter_passive (some (sock, none)) c = reply no_data (emit (closed sock) c)
enter_passive (some (sock, some port)) c =
    let c' : Conn = record c { client = record c.client { data_sock = some sock; pasv = true } } in
    reply
      (text "227 Entering Passive Mode (127,0,0,1,"
        ++ (to_string (port / 256) ++ (text "," ++ (to_string (port % 256) ++ text ")\r\n"))))
      c'

unfoldable pub pasv_cmd : System → Conn → Conn
pasv_cmd os = require_auth (λ c. enter_passive os.passive (close_pasv c))

-- `accept_data`: the listening socket is used up, whatever `accept` returns.
unfoldable pub accept_data : System → Client → RawSocket
accept_data os client = elim client.data_sock [
  | none ↦ none
  | some _ ↦ if client.pasv then os.connects else none
]

unfoldable pub after_accept : Conn → Conn
after_accept c = elim c.client.data_sock [
  | none ↦ c
  | some _ ↦ if c.client.pasv then close_pasv c else c
]

-- A transfer: the data connection, then the rest on its socket.
unfoldable pub with_data : RawSocket → (ℕ → Conn → Conn) → Conn → Conn
with_data none transfer c = reply no_data c
with_data (some sock) transfer c = transfer sock c

unfoldable pub transfer_on : System → (ℕ → Conn → Conn) → Conn → Conn
transfer_on os transfer c =
    let c' = reply opening c in with_data (accept_data os c'.client) transfer (after_accept c')

-- `if (resolved_path.empty()) { ftp_send(...); return; }`
unfoldable pub with_path : Text → Text → (Text → Conn → Conn) → Conn → Conn
with_path refusal [] rest c = reply refusal c
with_path refusal (b ∷ path) rest c = rest (b ∷ path) c

abbrev pub resolve_for : Conn → Text → Text
resolve_for c arg = resolve c.client.phy_root c.client.cwd arg

-- `if (arg.empty()) { ftp_send(...); return; }`
unfoldable pub require_arg : Text → (Conn → Conn) → Conn → Conn
require_arg [] rest c = reply (text "501 Syntax error\r\n") c
require_arg (b ∷ arg) rest c = rest c

unfoldable pub send_listing : System → Text → ℕ → Conn → Conn
send_listing os path sock c = reply complete (
    emit (closed sock)
      (emit (sent sock (dir_listing os.local (os.entries path))) (emit (listed path) c)))

unfoldable pub list_cmd : System → Text → Conn → Conn
list_cmd os arg = require_auth (
    require_perm read_permission λ c.
      with_path (text "550 Invalid path\r\n") (resolve_for c arg)
        (λ path. transfer_on os (send_listing os path)) c)

unfoldable pub send_file : Option (List ℕ) → Text → ℕ → Conn → Conn
send_file none path sock c = reply (text "550 File not found\r\n") (emit (closed sock) c)
send_file (some bytes) path sock c =
    reply complete (emit (closed sock) (emit (sent sock bytes) (emit (opened path) c)))

unfoldable pub retr_cmd : System → Text → Conn → Conn
retr_cmd os arg = require_auth (
    require_perm read_permission (
      require_arg arg λ c.
        with_path (text "550 File not found\r\n") (resolve_for c arg)
          (λ path. transfer_on os (send_file (os.contents path) path)) c))

unfoldable pub store_file : System → Text → ℕ → Conn → Conn
store_file os path sock c =
    let stored = emit (closed sock) (emit (created path os.received) c) in
    if os.can_create path
    then reply complete stored
    else reply (text "550 Cannot create file\r\n") (emit (closed sock) c)

unfoldable pub stor_cmd : System → Text → Conn → Conn
stor_cmd os arg = require_auth (
    require_perm write_permission (
      require_arg arg λ c.
        with_path (text "550 Invalid path\r\n") (resolve_for c arg)
          (λ path. transfer_on os (store_file os path)) c))

-- One call on the file system, and the reply for its success or failure.
unfoldable pub file_call : Bool → Effect → Text → Text → Conn → Conn
file_call done effect success failure c =
    if done then reply success (emit effect c) else reply failure c

unfoldable pub dele_cmd : System → Text → Conn → Conn
dele_cmd os arg = require_auth (
    require_perm write_permission (
      require_arg arg λ c.
        with_path (text "550 File not found\r\n") (resolve_for c arg)
          (λ path.
            file_call (os.can_unlink path) (unlinked path) (text "250 File deleted\r\n")
              (text "550 File not found\r\n"))
          c))

unfoldable pub mkd_cmd : System → Text → Conn → Conn
mkd_cmd os arg = require_auth (
    require_perm write_permission (
      require_arg arg λ c.
        with_path (text "550 Invalid path\r\n") (resolve_for c arg)
          (λ path.
            file_call (os.can_make path) (made path)
              (text "257 \"" ++ (arg ++ text "\" created\r\n"))
              (text "550 Cannot create directory\r\n"))
          c))

unfoldable pub rmd_cmd : System → Text → Conn → Conn
rmd_cmd os arg = require_auth (
    require_perm write_permission (
      require_arg arg λ c.
        with_path (text "550 Invalid path\r\n") (resolve_for c arg)
          (λ path.
            file_call (os.can_remove path) (removed path) (text "250 Directory removed\r\n")
              (text "550 Cannot remove directory\r\n"))
          c))

-- The working directory that CWD sets.
unfoldable pub new_cwd : Text → Text → Text
new_cwd cwd [] = []
new_cwd cwd (b ∷ arg) = if (b ∷ arg) == text "/" then [] else change_directory cwd (b ∷ arg)

unfoldable pub cwd_cmd : Text → Conn → Conn
cwd_cmd arg = require_auth (
    require_perm read_permission λ c.
      let c' : Conn = record c { client = record c.client { cwd = new_cwd c.client.cwd arg } } in
      reply (text "250 Directory changed\r\n") c')

unfoldable pub feat_cmd : Conn → Conn
feat_cmd c =
    reply (text "211 End\r\n")
      (reply (text " PASV\r\n") (reply (text "211-Extensions supported:\r\n") c))

unfoldable pub ok_if : Text → Conn → Conn
ok_if msg = require_auth (reply msg)

unfoldable pub pwd_message : Text → Text
pwd_message cwd = text "257 \"/" ++ (cwd ++ text "\" is current directory\r\n")
