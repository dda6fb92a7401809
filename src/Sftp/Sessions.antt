-- ===== src/Sftp/Sessions.antt =====
-- src/sftp_server.cpp, the thread of one session: the callbacks of libssh, the handshake on a channel,
-- `process_sftp` and the release of everything at the end.
pub mod Releases
pub mod Effects
use mock_services.Base.{
  ℕ, Bool, true, false, not, ◌&&◌, Option, none, some, List, [], ◌∷◌, ◌++◌, if◌then◌else◌, Text,
  text, ◌==◌, text_key, nat_key,
}
use mock_services.Base.Dict.{find, assign, erase}
use mock_services.Sftp.Messages.{System, Message, Context, Effect}
use mock_services.Sftp.Accounts.{
  Server, Handshake, check_auth, remove_session, lookup_user, log_activity,
}
use mock_services.Sftp.Handlers.{PacketType, handle_message}

-- `make_hs`; `emplace` leaves an entry that is there.
unfoldable pub make_hs : ℕ → Server → Server
make_hs session s =
    let fresh : Handshake = record { pending_channel = none; subsystem_accepted = false } in
    elim (find session s.handshakes) [
      | some hs ↦ s
      | none ↦ record s { handshakes = assign session fresh s.handshakes }
    ]

unfoldable pub remove_hs : ℕ → Server → Server
remove_hs session s = record s { handshakes = erase session s.handshakes }

-- A write through the reference that `get_hs` returns; a session without an entry is left out, for
-- which the language promises nothing.
unfoldable pub update_hs : ℕ → (Handshake → Handshake) → Server → Server
update_hs session f s = elim (find session s.handshakes) [
  | none ↦ s
  | some hs ↦ record s { handshakes = assign session (f hs) s.handshakes }
]

-- What libssh calls back while it handles packets: a password, a request for a channel with what
-- `ssh_channel_new` returns, and a request for a subsystem.
pub data Callback : Type 0 where
  auth_password : Text → Text → Callback
  open_session : Option ℕ → Callback
  subsystem : Text → Callback

unfoldable pub on_callback : ℕ → Callback → Server → Server
on_callback session (auth_password user password) s = (check_auth session user password s).1
on_callback session (open_session none) s = s
on_callback session (open_session (some chan)) s =
    update_hs session (λ hs. record hs { pending_channel = some chan }) s
on_callback session (subsystem name) s =
    if name == text "sftp"
    then update_hs session (λ hs. record hs { subsystem_accepted = true }) s
    else s

unfoldable pub on_callbacks : ℕ → List Callback → Server → Server
on_callbacks session [] s = s
on_callbacks session (callback ∷ callbacks) s =
    on_callbacks session callbacks (on_callback session callback s)

-- One call of `ssh_handle_packets`: the callbacks that it makes, and whether it fails.
pub record Packets : Type 0 where
  pub callbacks : List Callback
  pub failed : Bool

-- `if (chan && !out_chan) out_chan = chan;`
abbrev pub taken_channel : Option ℕ → Option Handshake → Option ℕ
taken_channel (some chan) hs = some chan
taken_channel none none = none
taken_channel none (some hs) = hs.pending_channel

abbrev pub is_accepted : Option ℕ → Option Handshake → Bool
is_accepted (some chan) (some hs) = hs.subsystem_accepted
is_accepted _ _ = false

-- The loop of `do_callback_handshake`, over the calls that are made while the server runs: the
-- answer, the channel, and the server.
unfoldable pub handshake_loop : ℕ → List Packets → Option ℕ → Server → Bool × Option ℕ × Server
handshake_loop session [] out_chan s = (false, out_chan, s)
handshake_loop session (packets ∷ rounds) out_chan s =
    let s' = on_callbacks session packets.callbacks s in
    let hs = find session s'.handshakes in
    let chan = taken_channel out_chan hs in
    let later = handshake_loop session rounds chan s' in
    if packets.failed
    then (false, out_chan, s')
    else if is_accepted chan hs
    then (true, chan, s')
    else later

unfoldable pub do_callback_handshake : ℕ → List Packets → Server → Bool × Option ℕ × Server
do_callback_handshake session rounds s = handshake_loop session rounds none (make_hs session s)

-- What a round of `process_sftp` finds: an error, nothing on a channel that is open or not, no
-- message, or a message with the answers of the system to it.
pub data Poll : Type 0 where
  poll_failed : Poll
  nothing : Bool → Poll
  no_message : Poll
  message : PacketType → System → Message → Poll

-- The loop of `process_sftp`, over the rounds that are made while the server runs.
unfoldable pub process_sftp : Context → List Poll → List Effect
process_sftp ctx [] = []
process_sftp ctx (poll_failed ∷ polls) = []
process_sftp ctx (nothing is_open ∷ polls) =
    let rest = process_sftp ctx polls in if is_open then rest else []
process_sftp ctx (no_message ∷ polls) = []
process_sftp ctx (message type os msg ∷ polls) =
    handle_message type os ctx msg ++ process_sftp ctx polls

-- What the thread of a session gives back to libssh.
pub data Release : Type 0 where
  freed_sftp : ℕ → Release
  freed_channel : ℕ → Release
  freed_session : ℕ → Release

-- `ssh_channel_send_eof`, `ssh_channel_close` and `ssh_channel_free`, for a channel that is there.
abbrev pub free_channel : Option ℕ → List Release
free_channel none = []
free_channel (some chan) = freed_channel chan ∷ []

-- How a session ends: its effects on files and clients, what it gives back, and the server.
pub record End : Type 0 where
  pub effects : List Effect
  pub releases : List Release
  pub server : Server

-- `remove_hs`, `remove_session`, `ssh_disconnect`, `ssh_free`
unfoldable pub leave : ℕ → List Effect → List Release → Server → End
leave session effects releases s = record {
  effects = effects;
  releases = releases ++ (freed_session session ∷ []);
  server = remove_session session (remove_hs session s);
}

-- The rest of a session behind `sftp_server_new` and `sftp_server_init`.
unfoldable pub serve : ℕ → Option ℕ → ℕ → List Poll → Server → End
serve session chan sftp polls s =
    let ctx = lookup_user session s in
    let effects = process_sftp ctx polls in
    leave session effects (freed_sftp sftp ∷ free_channel chan)
      (log_activity ctx.username effects s)

-- The answers of libssh behind the handshake.
pub record SftpSetup : Type 0 where
  pub sftp : Option ℕ
  pub initialised : Bool

unfoldable pub start_sftp : ℕ → Option ℕ → SftpSetup → List Poll → Server → End
start_sftp session chan setup polls s = elim setup.sftp [
  | none ↦ leave session [] (free_channel chan) s
  | some sftp ↦
      if setup.initialised
      then serve session chan sftp polls s
      else leave session [] (freed_sftp sftp ∷ free_channel chan) s
]

unfoldable pub handle_session_after_auth : ℕ → List Packets → SftpSetup → List Poll → Server → End
handle_session_after_auth session rounds setup polls s =
    let (accepted, chan, s') = do_callback_handshake session rounds s in
    if accepted
    then start_sftp session chan setup polls s'
    else leave session [] (free_channel chan) s'
