-- ===== src/Sftp/World/Steps.antt =====
-- The steps of src/sftp_server.cpp, with the threads of all sessions interleaved in any order.
use mock_services.Base.{ℕ, ◌≡◌, ◌≢◌, Bool, false, Option, none, some, List, [], ◌∷◌, ◌++◌, All}
use mock_services.Sftp.Messages.{System, Message, HandleData}
use mock_services.Sftp.Accounts.{User, clear_users, clear_activity}
use mock_services.Sftp.Handlers.{PacketType}
use mock_services.Sftp.Handlers.Handles.{closing}
use mock_services.Sftp.Sessions.{Callback, on_callback, SftpSetup}
use mock_services.Sftp.Listener.{Answers, Round, start, construct}
use mock_services.Sftp.World.{
  World, absent, begun, shaking, accepted, serving, Desk, on_server, accept, begin_handshake,
  poll_handshake, set_up, serve_message, end_serving, add_user, stop_begin, stop_end,
}

-- What libssh keeps of the handles: a message names no handle, or one that its client holds, which
-- a CLOSE takes out of the table. `kept` is what is left.
pub data Names (type : PacketType) (info : Option HandleData) (handles : List HandleData)
    : List HandleData → Type 0 where
  nothing_named : info ≡ none → Names type info handles handles
  named :
      (h : HandleData) (before after : List HandleData)
      → info ≡ some h
      → handles ≡ before ++ (h ∷ after)
      → closing type info ≡ []
      → Names type info handles handles
  closed :
      (h : HandleData) (before after : List HandleData)
      → info ≡ some h
      → handles ≡ before ++ (h ∷ after)
      → closing type info ≡ h ∷ []
      → Names type info handles (before ++ after)

-- `ssh_new` gives no session out that a thread still has.
abbrev pub IsFresh : Option ℕ → World → Type 0
IsFresh none w = Unit
IsFresh (some x) w = w.phase x ≡ absent

-- One step of some thread, or of the program that uses the server. A callback of libssh may come at
-- any time in the life of a thread. A handshake fails where `ssh_handle_packets` does or the server
-- no longer runs, and a session may end before any message. `stop` is two steps, with those of the
-- threads that it waits for between them.
pub data Step : World → World → Type 0 where
  started : (w : World) (a : Answers) → Step w (record w { core = (start a w.core).1 })
  round : (w : World) (r : Round) → IsFresh r.session w → Step w (accept r w)
  called :
      (w : World) (x : ℕ) (callback : Callback)
      → w.phase x ≢ absent
      → Step w (on_server (on_callback x callback) w)
  shake_begun : (w : World) (x : ℕ) → w.phase x ≡ begun → Step w (begin_handshake x w)
  polled :
      (w : World) (x : ℕ) (failed : Bool) (chan : Option ℕ)
      → w.phase x ≡ shaking chan
      → Step w (poll_handshake x failed chan w)
  made_ready :
      (w : World) (x : ℕ) (chan : Option ℕ) (setup : SftpSetup)
      → w.phase x ≡ accepted chan
      → Step w (set_up x chan setup w)
  served :
      (w : World) (x : ℕ) (desk : Desk) (type : PacketType) (os : System) (msg : Message)
      (kept : List HandleData)
      → w.phase x ≡ serving desk
      → Names type msg.info desk.handles kept
      → Step w (serve_message x desk type os msg kept w)
  left :
      (w : World) (x : ℕ) (desk : Desk) → w.phase x ≡ serving desk → Step w (end_serving x desk w)
  user_added : (w : World) (u : User) → Step w (add_user u w)
  users_cleared : (w : World) → Step w (on_server clear_users w)
  activity_cleared : (w : World) → Step w (on_server clear_activity w)
  stopping : (w : World) → Step w (stop_begin w)
  stop_ended :
      (w : World)
      → w.core.server.running ≡ false
      → All (λ x. w.phase x ≡ absent) w.core.session_threads
      → Step w (stop_end w)

-- A server from its constructor on.
unfoldable pub initial : ℕ → ℕ → World
initial bind key = record {
  core = construct bind key;
  phase = λ x. absent;
  log = [];
  accounts = [];
}

pub data Reach : World → World → Type 0 where
  here : {w : World} → Reach w w
  next : {w u t : World} → Reach w u → Step u t → Reach w t

pub Reach-trans : {w u t : World} → Reach w u → Reach u t → Reach w t
Reach-trans r here = r
Reach-trans r (next s step) = next (Reach-trans r s) step
