-- ===== src/Ftp/World/Runs.antt =====
-- Every command of src/ftp_server.cpp, and the end of a session, and the temporary root.
use mock_services.Base.{
  ℕ, ◌≡◌, refl, ◌∙◌, if_split, Option, none, some, ◌∷◌, ◌++◌, Text, text, text_eq,
}
use mock_services.Net.{RawSocket}
use mock_services.Ftp.World.Confined.{
  IsConfined, emit-IsConfined, set_client-IsConfined, reply-IsConfined, require_auth-IsConfined,
  require_perm-IsConfined, close_pasv-IsConfined,
}
use mock_services.Ftp.Path.{is_empty}
use mock_services.Ftp.World.Within.{Within, Within-append, Within-refl}
use mock_services.Ftp.Session.{
  Conn, Server, User, shut, closed, unlinked, removed, made, log_in, user_cmd, named_user, pass_cmd,
  check_pass, enter_root, without_slash, close_control, close_client, remove_client, end_session,
  has_client,
}
use mock_services.Ftp.Commands.{
  System, enter_passive, pasv_cmd, retr_cmd, stor_cmd, dele_cmd, mkd_cmd, rmd_cmd, cwd_cmd,
  feat_cmd, ok_if,
}
use mock_services.Ftp.Dispatch.{
  Command, user, pass, syst, pwd, type_, pasv, list, retr, stor, dele, rmd, mkd, cwd, cdup, quit,
  noop, feat, other, run, dispatch,
}
use mock_services.Ftp.World.Transfers.{
  transfer_on-IsConfined, list-IsConfined, send_file-IsConfined, store_file-IsConfined,
  path_command, file_call-IsConfined,
}

module _ {root : Text} where
  enter_passive-IsConfined :
      (answer : Option (ℕ × Option ℕ)) (c : Conn)
      → IsConfined root c
      → IsConfined root (enter_passive answer c)
  unfolding enter_passive
  enter_passive-IsConfined none c h = reply-IsConfined _ c h
  enter_passive-IsConfined (some (sock, none)) c h =
      reply-IsConfined _ _ (emit-IsConfined (closed sock) c tt h)
  enter_passive-IsConfined (some (sock, some port)) c h =
      reply-IsConfined _ _ (set_client-IsConfined _ c h.client_within h)

  close_control-IsConfined :
      (sock : RawSocket) (c : Conn) → IsConfined root c → IsConfined root (close_control sock c)
  unfolding close_control
  close_control-IsConfined none c h = h
  close_control-IsConfined (some sock) c h =
      let closed_c = emit-IsConfined (closed sock) _ tt (emit-IsConfined (shut sock) c tt h) in
      set_client-IsConfined _ _ h.client_within closed_c

  pub close_client-IsConfined : (c : Conn) → IsConfined root c → IsConfined root (close_client c)
  unfolding close_client
  close_client-IsConfined c h = close_pasv-IsConfined _ (close_control-IsConfined c.client.sock c h)

  -- A login into a root within the temporary one.
  log_in-IsConfined :
      (u : User) (path : Text) (c : Conn)
      → Within root path
      → IsConfined root c
      → IsConfined root (log_in u path c)
  log_in-IsConfined u path c w h = record {
    root_kept = h.root_kept;
    client_within = λ _. w;
    effects_within = h.effects_within;
  }

  root-Within : (c : Conn) → IsConfined root c → Within root c.server.temp_root
  root-Within c h = rw h.root_kept (Within-refl root)

  named_user-IsConfined :
      (found : Option User) (c : Conn) → IsConfined root c → IsConfined root (named_user found c)
  unfolding named_user
  named_user-IsConfined none c h = reply-IsConfined _ c h
  named_user-IsConfined (some u) c h =
      let k = set_client-IsConfined (record c.client { user = u.name }) c h.client_within h in
      if_split (IsConfined root) u.anon _ _
        (λ _. reply-IsConfined _ _ (log_in-IsConfined u c.server.temp_root _ (root-Within c h) k))
        (λ _. reply-IsConfined _ _ k)

  enter_root-IsConfined :
      (u : User) (c : Conn) → IsConfined root c → IsConfined root (enter_root u c)
  unfolding enter_root
  enter_root-IsConfined u c h =
      let path = c.server.temp_root ++ (b'/' ∷ without_slash u.root) in
      let within = Within-append root c.server.temp_root _ (root-Within c h) in
      if_split (IsConfined root) _ _ _
        (λ _. log_in-IsConfined u c.server.temp_root c (root-Within c h) h)
        (λ _. log_in-IsConfined u path _ within (emit-IsConfined (made path) c within h))

  check_pass-IsConfined :
      (arg : Text) (found : Option User) (c : Conn)
      → IsConfined root c
      → IsConfined root (check_pass arg found c)
  unfolding check_pass
  check_pass-IsConfined arg none c h = reply-IsConfined _ c h
  check_pass-IsConfined arg (some u) c h =
      if_split (IsConfined root) (text_eq u.pass arg) _ _
        (λ _. reply-IsConfined _ _ (enter_root-IsConfined u c h)) (λ _. reply-IsConfined _ c h)

  pass-IsConfined : (arg : Text) (c : Conn) → IsConfined root c → IsConfined root (pass_cmd arg c)
  unfolding pass_cmd
  pass-IsConfined arg c h =
      if_split (IsConfined root) c.client.auth _ _ (λ _. reply-IsConfined _ c h)
        λ _.
          if_split (IsConfined root) (is_empty c.client.user) _ _ (λ _. reply-IsConfined _ c h)
            (λ _. check_pass-IsConfined arg _ c h)

  cwd-IsConfined : (arg : Text) (c : Conn) → IsConfined root c → IsConfined root (cwd_cmd arg c)
  unfolding cwd_cmd
  cwd-IsConfined arg c h =
      require_auth-IsConfined _ c
        (λ _.
          require_perm-IsConfined _ _ c
            (reply-IsConfined _ _ (set_client-IsConfined _ c h.client_within h)) h)
        h

  ok_if-IsConfined : (msg : Text) (c : Conn) → IsConfined root c → IsConfined root (ok_if msg c)
  unfolding ok_if
  ok_if-IsConfined msg c h = require_auth-IsConfined _ c (λ _. reply-IsConfined msg c h) h

  run-IsConfined :
      (os : System) (command : Command) (arg : Text) (c : Conn)
      → IsConfined root c
      → IsConfined root (run os command arg c)
  unfolding run user_cmd feat_cmd pasv_cmd retr_cmd stor_cmd dele_cmd mkd_cmd rmd_cmd
  run-IsConfined os user arg c h = named_user-IsConfined _ c h
  run-IsConfined os pass arg c h = pass-IsConfined arg c h
  run-IsConfined os syst arg c h = ok_if-IsConfined _ c h
  run-IsConfined os pwd arg c h = ok_if-IsConfined _ c h
  run-IsConfined os type_ arg c h = ok_if-IsConfined _ c h
  run-IsConfined os pasv arg c h =
      require_auth-IsConfined _ c (λ _. enter_passive-IsConfined _ _ (close_pasv-IsConfined c h)) h
  run-IsConfined os list arg c h = list-IsConfined os arg c h
  run-IsConfined os retr arg c h =
      path_command _ _ arg _ c
        (λ p w. transfer_on-IsConfined os _ c (λ k d h'. send_file-IsConfined _ p k d w h') h) h
  run-IsConfined os stor arg c h =
      path_command _ _ arg _ c
        (λ p w. transfer_on-IsConfined os _ c (λ k d h'. store_file-IsConfined os p k d w h') h) h
  run-IsConfined os dele arg c h =
      path_command _ _ arg _ c (λ p w. file_call-IsConfined _ (unlinked p) _ _ c w h) h
  run-IsConfined os rmd arg c h =
      path_command _ _ arg _ c (λ p w. file_call-IsConfined _ (removed p) _ _ c w h) h
  run-IsConfined os mkd arg c h =
      path_command _ _ arg _ c (λ p w. file_call-IsConfined _ (made p) _ _ c w h) h
  run-IsConfined os cwd arg c h = cwd-IsConfined arg c h
  run-IsConfined os cdup arg c h = cwd-IsConfined _ c h
  run-IsConfined os quit arg c h = close_client-IsConfined _ (reply-IsConfined _ c h)
  run-IsConfined os noop arg c h = reply-IsConfined _ c h
  run-IsConfined os feat arg c h = reply-IsConfined (text "211 End\r\n") _ (
      reply-IsConfined (text " PASV\r\n") _
        (reply-IsConfined (text "211-Extensions supported:\r\n") c h))
  run-IsConfined os other arg c h = reply-IsConfined _ c h

  pub dispatch-IsConfined :
      (os : System) (line : Text) (c : Conn)
      → IsConfined root c
      → IsConfined root (dispatch os line c)
  unfolding dispatch
  dispatch-IsConfined os line c h = run-IsConfined os _ _ c h

  -- A change of the server that keeps its root and adds no effect.
  set_server-IsConfined :
      (server : Server) (c : Conn)
      → server.temp_root ≡ c.server.temp_root
      → server.effects ≡ c.server.effects
      → IsConfined root c
      → IsConfined root (record c { server = server })
  set_server-IsConfined server c e e' h = record {
    root_kept = e ∙ h.root_kept;
    client_within = h.client_within;
    effects_within = rw e' h.effects_within;
  }

  remove_client-IsConfined :
      (id : ℕ) (c : Conn) → IsConfined root c → IsConfined root (remove_client id c)
  unfolding remove_client
  remove_client-IsConfined id c h =
      if_split (IsConfined root) (has_client id c.server.clients) _ _
        (λ _. set_server-IsConfined _ (close_client c) refl refl (close_client-IsConfined c h))
        (λ _. h)

  pub end_session-IsConfined :
      (id : ℕ) (c : Conn) → IsConfined root c → IsConfined root (end_session id c)
  unfolding end_session
  end_session-IsConfined id c h = remove_client-IsConfined id _ (
      if_split (IsConfined root) c.client.auth _ _ (λ _. set_server-IsConfined _ c refl refl h)
        (λ _. h))
