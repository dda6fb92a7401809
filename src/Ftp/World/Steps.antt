-- ===== src/Ftp/World/Steps.antt =====
-- The steps of src/ftp_server.cpp, with the sessions of all clients interleaved in any order.
use mock_services.Base.{ℕ, Text, Bool, some, ◌≡◌}
use mock_services.Net.{Ready, Setup}
use mock_services.Ftp.Session.{
  Server, Permission, end_session, add_user, add_anonymous_user, clear_users,
}
use mock_services.Ftp.Commands.{System}
use mock_services.Ftp.Dispatch.{dispatch}
use mock_services.Ftp.World.{
  World, on_client, start, accept_round, accept_end, stop_begin, stop_end,
}

abbrev pub with_server : World → Server → World
with_server w server = record w { server = server }

-- One step of some thread, or of the program that uses the server. A line of any client may come
-- between two lines of another; `stop` is two steps, with those of the acceptor between them.
pub data Step : World → World → Type 0 where
  started : (w : World) (os : Setup) → Step w (with_server w (start os w.server).1)
  accepting : (w : World) (id : ℕ) (ready : Ready) → Step w (accept_round id ready w)
  accept_ended : (w : World) → Step w (accept_end w)
  line :
      (w : World) (id : ℕ) (os : System) (bytes : Text)
      → Step w (on_client id (dispatch os bytes) w)
  ended : (w : World) (id : ℕ) → Step w (on_client id (end_session id) w)
  stopping : (w : World) → Step w (stop_begin w)
  stopped : {w t : World} (ends : ℕ → Bool) → stop_end ends w ≡ some t → Step w t
  adding :
      (w : World) (name pass root : Text) (perm : Permission)
      → Step w
          (with_server w (record w.server { users = add_user name pass root perm w.server.users }))
  adding_anonymous :
      (w : World) (root : Text) (perm : Permission)
      → Step w
          (with_server w (record w.server { users = add_anonymous_user root perm w.server.users }))
  clearing : (w : World) → Step w (with_server w (clear_users w.server))

pub data Reach (s : World) : World → Type 0 where
  here : Reach s s
  next : {t u : World} → Reach s t → Step t u → Reach s u
