-- ===== src/Ftp/Dispatch.antt =====
-- src/ftp_server.cpp, `dispatch`, and the loops of `client_loop` over the input of a client.
use mock_services.Base.{
  ℕ, zero, suc, ◌-◌, ◌&&◌, Option, none, some, List, [], ◌∷◌, ◌++◌, map, nat_eq, leb, if◌then◌else◌,
  length, Text, text, ◌==◌, text_key,
}
use mock_services.Ftp.Session.{Conn, reply, user_cmd, pass_cmd, close_client, end_session}
use mock_services.Ftp.Commands.{
  System, pasv_cmd, list_cmd, retr_cmd, stor_cmd, dele_cmd, mkd_cmd, rmd_cmd, cwd_cmd, feat_cmd,
  ok_if, pwd_message,
}

-- The names of the commands, and anything else.
pub data Command : Type 0 where
  user pass syst pwd type_ pasv list retr stor dele rmd mkd cwd cdup quit noop feat other : Command

unfoldable pub command_of : Text → Command
command_of cmd =
    if cmd == text "USER"
    then user
    else if cmd == text "PASS"
    then pass
    else if cmd == text "SYST"
    then syst
    else if cmd == text "PWD"
    then pwd
    else if cmd == text "TYPE"
    then type_
    else if cmd == text "PASV"
    then pasv
    else if cmd == text "LIST"
    then list
    else if cmd == text "RETR"
    then retr
    else if cmd == text "STOR"
    then stor
    else if cmd == text "DELE"
    then dele
    else if cmd == text "RMD"
    then rmd
    else if cmd == text "MKD"
    then mkd
    else if cmd == text "CWD"
    then cwd
    else if cmd == text "CDUP"
    then cdup
    else if cmd == text "QUIT"
    then quit
    else if cmd == text "NOOP"
    then noop
    else if cmd == text "FEAT"
    then feat
    else other

unfoldable pub run : System → Command → Text → Conn → Conn
run os user arg c = user_cmd arg c
run os pass arg c = pass_cmd arg c
run os syst arg c = ok_if (text "215 UNIX Type: L8\r\n") c
run os pwd arg c = ok_if (pwd_message c.client.cwd) c
run os type_ arg c = ok_if (text "200 TYPE set OK\r\n") c
run os pasv arg c = pasv_cmd os c
run os list arg c = list_cmd os arg c
run os retr arg c = retr_cmd os arg c
run os stor arg c = stor_cmd os arg c
run os dele arg c = dele_cmd os arg c
run os rmd arg c = rmd_cmd os arg c
run os mkd arg c = mkd_cmd os arg c
run os cwd arg c = cwd_cmd arg c
run os cdup arg c = cwd_cmd (text "..") c
run os quit arg c = close_client (reply (text "221 Goodbye\r\n") c)
run os noop arg c = reply (text "200 OK\r\n") c
run os feat arg c = feat_cmd c
run os other arg c = reply (text "502 Command not implemented\r\n") c

-- `std::toupper` of the C locale.
abbrev to_upper : ℕ → ℕ
to_upper b = if leb b'a' b && leb b b'z' then b - 32 else b

-- The words of a line: up to the first space, and behind it.
unfoldable pub split_space : Text → Text × Text
split_space [] = ([], [])
split_space (b ∷ line) =
    let (cmd, arg) = split_space line in if nat_eq b b' ' then ([], line) else (b ∷ cmd, arg)

unfoldable pub dispatch : System → Text → Conn → Conn
dispatch os line c =
    let (cmd, arg) = split_space line in run os (command_of (map to_upper cmd)) arg c

-- Takes the line up to the first newline off `partial`, if there is one.
unfoldable pub next_line : Text → Option (Text × Text)
next_line [] = none
next_line (b ∷ partial) =
    let later : Option (Text × Text) = elim (next_line partial) [
      | none ↦ none
      | some (line, rest) ↦ some (b ∷ line, rest)
    ] in
    if nat_eq b b'\n' then some ([], partial) else later

-- `if (!line.empty() && line.back() == '\r') line.pop_back();`
unfoldable pub drop_return : Text → Text
drop_return [] = []
drop_return (b ∷ []) = if nat_eq b b'\r' then [] else b ∷ []
drop_return (b ∷ next ∷ line) = b ∷ drop_return (next ∷ line)

-- The inner loop of `client_loop`; a line takes one byte of `partial` at least. The system answers
-- each line anew. `none` means that the rounds were used up.
unfoldable pub lines_loop : ℕ → (ℕ → System) → Text → Conn → Option (Text × Conn)
lines_loop zero os partial c = none
lines_loop (suc rounds) os partial c = elim (next_line partial) [
  | none ↦ some (partial, c)
  | some (line, rest) ↦
      lines_loop rounds os rest
        (elim (drop_return line) [ [] ↦ c | b ∷ cmd ↦ dispatch (os rounds) (b ∷ cmd) c ])
]

-- What `partial += buffer` appends: the received bytes up to the first zero.
unfoldable pub until_zero : Text → Text
until_zero [] = []
until_zero (b ∷ bytes) = if nat_eq b 0 then [] else b ∷ until_zero bytes

-- The outer loop of `client_loop`. `received` holds what each `recv` returns; an empty text, or none
-- at all, is a `recv` that returns 0 or an error.
unfoldable pub receive_loop : (ℕ → ℕ → System) → List Text → Text → Conn → Conn
receive_loop os [] partial c = c
receive_loop os ([] ∷ received) partial c = c
receive_loop os ((b ∷ bytes) ∷ received) partial c =
    let partial' = partial ++ until_zero (b ∷ bytes) in
    let next : Conn = elim (lines_loop (suc (length partial')) (os (length received)) partial' c) [
      | none ↦ c
      | some (rest, c') ↦ receive_loop os received rest c'
    ] in
    elim c.client.sock [ none ↦ c | some sock ↦ next ]

-- `client_loop`
unfoldable pub client_loop : (ℕ → ℕ → System) → ℕ → List Text → Conn → Conn
client_loop os id received c = end_session id (receive_loop os received [] c)
