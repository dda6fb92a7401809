-- ===== src/Ftp/Commands/Guards.antt =====
-- The checks before the commands of src/ftp_server.cpp.
use mock_services.Base.{
  ℕ, ◌≡◌, ◌≢◌, refl, ap, append-nil, Option-cases, ◌∙◌, inl, inr, true, false, if_split, ◌&&◌,
  Option, none, some, List, [], ◌∷◌, ◌++◌, arith, Text, text,
}
use mock_services.Net.{RawSocket}
use mock_services.Ftp.Listing.{dir_listing}
use mock_services.Ftp.Session.{
  Permission, Conn, User, Effect, sent, shut, closed, listed, opened, created, unlinked, removed,
  made, emit, ftp_send, reply, user_cmd, named_user, allows, require_auth, require_perm, close_data,
  close_pasv, close_control, close_client, write_permission,
}
use mock_services.Ftp.Commands.{
  System, enter_passive, pasv_cmd, after_accept, with_data, transfer_on, with_path, require_arg,
  send_listing, list_cmd, send_file, retr_cmd, stor_cmd, dele_cmd, mkd_cmd, rmd_cmd, cwd_cmd,
  feat_cmd, ok_if,
}
use mock_services.Ftp.Dispatch.{
  Command, user, pass, syst, pwd, type_, pasv, list, retr, stor, dele, rmd, mkd, cwd, cdup, quit,
  noop, feat, other, run,
}

-- The effects that change the file system, in order.
abbrev pub changes : List Effect → List Effect
changes [] = []
changes (created path bytes ∷ effects) = created path bytes ∷ changes effects
changes (unlinked path ∷ effects) = unlinked path ∷ changes effects
changes (removed path ∷ effects) = removed path ∷ changes effects
changes (made path ∷ effects) = made path ∷ changes effects
changes (_ ∷ effects) = changes effects

abbrev pub changes_of : Conn → List Effect
changes_of c = changes c.server.effects

changes-append : (xs ys : List Effect) → changes (xs ++ ys) ≡ changes xs ++ changes ys
changes-append [] ys = refl
changes-append (sent k bytes ∷ xs) ys = changes-append xs ys
changes-append (shut k ∷ xs) ys = changes-append xs ys
changes-append (closed k ∷ xs) ys = changes-append xs ys
changes-append (listed path ∷ xs) ys = changes-append xs ys
changes-append (opened path ∷ xs) ys = changes-append xs ys
changes-append (created path bytes ∷ xs) ys = ap (◌∷◌ (created path bytes)) (changes-append xs ys)
changes-append (unlinked path ∷ xs) ys = ap (◌∷◌ (unlinked path)) (changes-append xs ys)
changes-append (removed path ∷ xs) ys = ap (◌∷◌ (removed path)) (changes-append xs ys)
changes-append (made path ∷ xs) ys = ap (◌∷◌ (made path)) (changes-append xs ys)

emit-keeps : (e : Effect) (c : Conn) → changes (e ∷ []) ≡ [] → changes_of (emit e c) ≡ changes_of c
emit-keeps e c h = changes-append c.server.effects (e ∷ []) ∙ rw (h, append-nil) refl

send-keeps :
    (sock : RawSocket) (msg : Text) (c : Conn) → changes_of (ftp_send sock msg c) ≡ changes_of c
unfolding ftp_send
send-keeps none msg c = refl
send-keeps (some sock) msg c = emit-keeps (sent sock msg) c refl

reply-keeps : (msg : Text) (c : Conn) → changes_of (reply msg c) ≡ changes_of c
reply-keeps msg c = send-keeps c.client.sock msg c

require_auth-keeps :
    (rest : Conn → Conn) (c : Conn)
    → (c.client.auth ≡ true → changes_of (rest c) ≡ changes_of c)
    → changes_of (require_auth rest c) ≡ changes_of c
unfolding require_auth
require_auth-keeps rest c h =
    if_split (λ d. changes_of d ≡ changes_of c) c.client.auth _ _ h
      λ _. send-keeps c.client.sock _ c

require_perm-keeps :
    (need : Permission) (rest : Conn → Conn) (c : Conn)
    → (allows c.client.perm need ≡ true → changes_of (rest c) ≡ changes_of c)
    → changes_of (require_perm need rest c) ≡ changes_of c
unfolding require_perm
require_perm-keeps need rest c h =
    if_split (λ d. changes_of d ≡ changes_of c) (allows c.client.perm need) _ _ h
      λ _. send-keeps c.client.sock _ c

-- A command behind both checks, for a client that does not pass both.
write_guard-keeps :
    (rest : Conn → Conn) (c : Conn)
    → (c.client.auth && allows c.client.perm write_permission) ≡ false
    → changes_of (require_auth (require_perm write_permission rest) c) ≡ changes_of c
write_guard-keeps rest c h =
    require_auth-keeps _ c λ e. require_perm-keeps write_permission rest c λ k. ground (arith)

close_pasv-keeps : (c : Conn) → changes_of (close_pasv c) ≡ changes_of c
unfolding close_pasv close_data
close_pasv-keeps c = elim (Option-cases c.client.data_sock) [
  | inl e ↦ rw e refl
  | inr (sock, e) ↦ rw e (emit-keeps (closed sock) c refl)
]

with_path-keeps :
    (refusal path : Text) (rest : Text → Conn → Conn) (c : Conn)
    → ((p : Text) → changes_of (rest p c) ≡ changes_of c)
    → changes_of (with_path refusal path rest c) ≡ changes_of c
unfolding with_path
with_path-keeps refusal [] rest c h = send-keeps c.client.sock refusal c
with_path-keeps refusal (b ∷ path) rest c h = h (b ∷ path)

require_arg-keeps :
    (arg : Text) (rest : Conn → Conn) (c : Conn)
    → changes_of (rest c) ≡ changes_of c
    → changes_of (require_arg arg rest c) ≡ changes_of c
unfolding require_arg
require_arg-keeps [] rest c h = send-keeps c.client.sock _ c
require_arg-keeps (b ∷ arg) rest c h = h

after_accept-keeps : (c : Conn) → changes_of (after_accept c) ≡ changes_of c
unfolding after_accept
after_accept-keeps c = elim (Option-cases c.client.data_sock) [
  | inl e ↦ rw (after_accept, e) refl
  | inr (sock, e) ↦
      simp (after_accept, e)
        (if_split (λ d. changes_of d ≡ changes_of c) c.client.pasv _ _ (λ _. close_pasv-keeps c)
          (λ _. refl))
]

with_data-keeps :
    (sock : RawSocket) (transfer : ℕ → Conn → Conn) (c : Conn)
    → ((k : ℕ) (d : Conn) → changes_of (transfer k d) ≡ changes_of d)
    → changes_of (with_data sock transfer c) ≡ changes_of c
unfolding with_data
with_data-keeps none transfer c h = send-keeps c.client.sock _ c
with_data-keeps (some k) transfer c h = h k c

transfer_on-keeps :
    (os : System) (transfer : ℕ → Conn → Conn) (c : Conn)
    → ((k : ℕ) (d : Conn) → changes_of (transfer k d) ≡ changes_of d)
    → changes_of (transfer_on os transfer c) ≡ changes_of c
unfolding transfer_on
transfer_on-keeps os transfer c h =
    with_data-keeps _ transfer _ h ∙ after_accept-keeps _ ∙ send-keeps c.client.sock _ c

-- A reply behind three effects that change nothing.
sent_after-keeps :
    (e f g : Effect) (msg : Text) (c : Conn)
    → changes (e ∷ []) ≡ []
    → changes (f ∷ []) ≡ []
    → changes (g ∷ []) ≡ []
    → changes_of (reply msg (emit g (emit f (emit e c)))) ≡ changes_of c
sent_after-keeps e f g msg c h i j =
    send-keeps c.client.sock msg (emit g (emit f (emit e c)))
    ∙ emit-keeps g (emit f (emit e c)) j
    ∙ emit-keeps f (emit e c) i
    ∙ emit-keeps e c h

send_file-keeps :
    (found : Option (List ℕ)) (path : Text) (k : ℕ) (c : Conn)
    → changes_of (send_file found path k c) ≡ changes_of c
unfolding send_file
send_file-keeps none path k c =
    send-keeps c.client.sock _ (emit (closed k) c) ∙ emit-keeps (closed k) c refl
send_file-keeps (some bytes) path k c =
    sent_after-keeps (opened path) (sent k bytes) (closed k) _ c refl refl refl

list-keeps : (os : System) (arg : Text) (c : Conn) → changes_of (list_cmd os arg c) ≡ changes_of c
unfolding list_cmd send_listing
list-keeps os arg c = require_auth-keeps _ c λ _. require_perm-keeps _ _ c λ _.
    with_path-keeps _ _ _ c λ path. transfer_on-keeps os _ c λ k d.
      sent_after-keeps (listed path) (sent k (dir_listing os.local (os.entries path))) (closed k) _
        d refl refl refl

retr-keeps : (os : System) (arg : Text) (c : Conn) → changes_of (retr_cmd os arg c) ≡ changes_of c
unfolding retr_cmd
retr-keeps os arg c = require_auth-keeps _ c λ _. require_perm-keeps _ _ c λ _.
    require_arg-keeps arg _ c
      (with_path-keeps _ _ _ c λ path. transfer_on-keeps os _ c (send_file-keeps _ path))

cwd-keeps : (arg : Text) (c : Conn) → changes_of (cwd_cmd arg c) ≡ changes_of c
unfolding cwd_cmd
cwd-keeps arg c =
    require_auth-keeps _ c λ _. require_perm-keeps _ _ c λ _. send-keeps c.client.sock _ _

named_user-keeps : (found : Option User) (c : Conn) → changes_of (named_user found c) ≡ changes_of c
unfolding named_user
named_user-keeps none c = send-keeps c.client.sock _ c
named_user-keeps (some u) c =
    if_split (λ d. changes_of d ≡ changes_of c) u.anon _ _ (λ _. send-keeps c.client.sock _ _)
      (λ _. send-keeps c.client.sock _ _)

enter_passive-keeps :
    (answer : Option (ℕ × Option ℕ)) (c : Conn) → changes_of (enter_passive answer c) ≡ changes_of c
unfolding enter_passive
enter_passive-keeps none c = send-keeps c.client.sock _ c
enter_passive-keeps (some (sock, none)) c =
    send-keeps c.client.sock _ (emit (closed sock) c) ∙ emit-keeps (closed sock) c refl
enter_passive-keeps (some (sock, some port)) c = send-keeps c.client.sock _ _

close_client-keeps : (c : Conn) → changes_of (close_client c) ≡ changes_of c
unfolding close_client close_control
close_client-keeps c = close_pasv-keeps (close_control c.client.sock c) ∙ control c.client.sock c
  where
    control : (sock : RawSocket) (c : Conn) → changes_of (close_control sock c) ≡ changes_of c
    control none c = refl
    control (some sock) c =
        emit-keeps (closed sock) (emit (shut sock) c) refl ∙ emit-keeps (shut sock) c refl

-- A client that is not logged in, or that has no permission to write, changes nothing on the file
-- system by any command but PASS, whatever the argument and the answers of the system.
pub run-keeps_files :
    (os : System) (command : Command) (arg : Text) (c : Conn)
    → (c.client.auth && allows c.client.perm write_permission) ≡ false
    → command ≢ pass
    → changes_of (run os command arg c) ≡ changes_of c
unfolding run user_cmd feat_cmd pasv_cmd stor_cmd dele_cmd mkd_cmd rmd_cmd ok_if
run-keeps_files os user arg c h k = named_user-keeps _ c
run-keeps_files os pass arg c h k = absurd (k refl)
run-keeps_files os syst arg c h k = require_auth-keeps _ c λ _. send-keeps c.client.sock _ c
run-keeps_files os pwd arg c h k = require_auth-keeps _ c λ _. send-keeps c.client.sock _ c
run-keeps_files os type_ arg c h k = require_auth-keeps _ c λ _. send-keeps c.client.sock _ c
run-keeps_files os pasv arg c h k =
    require_auth-keeps _ c λ _. enter_passive-keeps _ (close_pasv c) ∙ close_pasv-keeps c
run-keeps_files os list arg c h k = list-keeps os arg c
run-keeps_files os retr arg c h k = retr-keeps os arg c
run-keeps_files os stor arg c h k = write_guard-keeps _ c h
run-keeps_files os dele arg c h k = write_guard-keeps _ c h
run-keeps_files os rmd arg c h k = write_guard-keeps _ c h
run-keeps_files os mkd arg c h k = write_guard-keeps _ c h
run-keeps_files os cwd arg c h k = cwd-keeps arg c
run-keeps_files os cdup arg c h k = cwd-keeps (text "..") c
run-keeps_files os quit arg c h k = close_client-keeps (reply _ c) ∙ send-keeps c.client.sock _ c
run-keeps_files os noop arg c h k = send-keeps c.client.sock _ c
run-keeps_files os feat arg c h k =
    let first = reply (text "211-Extensions supported:\r\n") c in
    let second = reply (text " PASV\r\n") first in
    reply-keeps (text "211 End\r\n") second
    ∙ reply-keeps (text " PASV\r\n") first
    ∙ reply-keeps (text "211-Extensions supported:\r\n") c
run-keeps_files os other arg c h k = send-keeps c.client.sock _ c
