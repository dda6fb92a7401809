-- ===== src/Sftp/World.antt =====
-- src/sftp_server.cpp, the server as a whole: the acceptor, the threads of all sessions, `stop` and
-- the program that uses the server. A thread is known by the number of its session.
mod Tests
pub mod Steps
pub mod Stopping
pub mod Tables
pub mod Forgetting
pub mod Ending
pub mod Handshakes
pub mod Serving
pub mod Runs
pub mod Moves
pub mod Reaching
pub mod Keeping
pub mod Safe
pub mod Authorised
use mock_services.Base.{
  ℕ, Bool, true, false, Option, none, some, List, [], ◌∷◌, ◌++◌, map, nat_eq, nat_key,
  if◌then◌else◌, Text, ◌==◌,
}
use mock_services.Base.Dict.{find}
use mock_services.Sftp.Messages.{System, Context, Message, HandleData, Effect}
use mock_services.Sftp.Accounts.{User, Server, lookup_user, log_activity}
use mock_services.Sftp.Accounts
use mock_services.Sftp.Handlers.{PacketType, handle_message}
use mock_services.Sftp.Handlers.Handles.{grants}
use mock_services.Sftp.Sessions.{
  SftpSetup, Release, freed_sftp, free_channel, make_hs, taken_channel, is_accepted, End, leave,
}
use mock_services.Sftp.Listener.{Round, accept_round, reset_bind, ended}
use mock_services.Sftp.Listener

-- The locals of a thread behind `sftp_server_init`: the channel, the sftp session and the `SftpContext`,
-- with what the session has done so far and the handles that its client holds.
pub record Desk : Type 0 where
  pub chan : Option ℕ
  pub sftp : ℕ
  pub ctx : Context
  pub effects : List Effect
  pub handles : List HandleData

-- Where the thread of a session stands: there is none, or it has begun, is in the handshake with the
-- channel that it has found, has a channel for SFTP, or serves messages.
pub data Phase : Type 0 where
  absent begun : Phase
  shaking : Option ℕ → Phase
  accepted : Option ℕ → Phase
  serving : Desk → Phase

-- The server with the threads, every effect that a message had with the name of its user, and every
-- account that was ever added.
pub record World : Type 0 where
  pub core : Listener.World
  pub phase : ℕ → Phase
  pub log : List (Text × Effect)
  pub accounts : List User

abbrev pub enter : ℕ → Phase → World → World
enter x p w = record w { phase = λ other. if nat_eq other x then p else w.phase other }

abbrev pub on_server : (Server → Server) → World → World
on_server f w = record w { core = record w.core { server = f w.core.server } }

-- Whether a round of the acceptor ends with a new thread.
abbrev pub spawns : Round → Bool
spawns round = if round.accepted then (if round.running then round.exchanged else false) else false

-- `accept_round`, with the thread that it starts.
unfoldable pub accept : Round → World → World
accept round w =
    let w' = record w { core = (accept_round round w.core).0 } in
    elim round.session [ none ↦ w' | some x ↦ if spawns round then enter x begun w' else w' ]

-- The end of a thread.
unfoldable pub quit : ℕ → List Effect → List Release → World → World
quit x effects releases w =
    let end = leave x effects releases w.core.server in
    enter x absent (record w {
      core = record w.core {
        server = end.server;
        freed_sessions = w.core.freed_sessions ++ ended end.releases;
      };
    })

-- `do_callback_handshake`, up to its loop.
unfoldable pub begin_handshake : ℕ → World → World
begin_handshake x w = enter x (shaking none) (on_server (make_hs x) w)

-- A round of its loop behind `ssh_handle_packets`, which may have failed.
unfoldable pub poll_handshake : ℕ → Bool → Option ℕ → World → World
poll_handshake x failed out_chan w =
    let hs = find x w.core.server.handshakes in
    let chan = taken_channel out_chan hs in
    if failed
    then quit x [] (free_channel out_chan) w
    else if is_accepted chan hs
    then enter x (accepted chan) w
    else enter x (shaking chan) w

-- The thread between the handshake and the messages.
unfoldable pub set_up : ℕ → Option ℕ → SftpSetup → World → World
set_up x chan setup w = elim setup.sftp [
  | none ↦ quit x [] (free_channel chan) w
  | some sftp ↦
      let desk : Desk = record {
        chan = chan;
        sftp = sftp;
        ctx = lookup_user x w.core.server;
        effects = [];
        handles = [];
      } in
      if setup.initialised
      then enter x (serving desk) w
      else quit x [] (freed_sftp sftp ∷ free_channel chan) w
]

-- A round of `process_sftp` with a message; `kept` are the handles that the client does not close by
-- it.
unfoldable pub serve_message :
    ℕ → Desk → PacketType → System → Message → List HandleData → World → World
serve_message x desk type os msg kept w =
    let effects = handle_message type os desk.ctx msg in
    let desk' : Desk = record desk {
      effects = desk.effects ++ effects;
      handles = kept ++ grants effects;
    } in
    let w' = on_server (log_activity desk.ctx.username effects) w in
    enter x (serving desk') (record w' { log = w.log ++ map (λ e. (desk.ctx.username, e)) effects })

-- The end of `process_sftp` and of its thread.
unfoldable pub end_serving : ℕ → Desk → World → World
end_serving x desk w = quit x desk.effects (freed_sftp desk.sftp ∷ free_channel desk.chan) w

unfoldable pub add_user : User → World → World
add_user u w =
    let w' = on_server (λ s. record s { users = Accounts.add_user u s.users }) w in
    record w' { accounts = u ∷ w.accounts }

-- `stop`, up to the joins and behind them.
unfoldable pub stop_begin : World → World
stop_begin w = on_server (λ s. record s { running = false }) w

unfoldable pub stop_end : World → World
stop_end w =
    let core = reset_bind (record w.core { session_threads = [] }) in
    let server : Server = record core.server { port = 0; conn_users = []; session_users = [] } in
    record w { core = record core { server = server; accepting = false } }
