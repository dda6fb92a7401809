-- ===== src/Sftp/World/Reaching.antt =====
-- What holds of the server of src/sftp_server.cpp whatever its threads and its user have done.
use mock_services.Base.{ℕ, ◌+◌, ◌≤◌, ◌≡◌, refl, sym, Bool, false, none, All, arith, nat_key}
use mock_services.Sftp.Messages.{HandleData}
use mock_services.Sftp.Accounts.{clear_users, clear_activity}
use mock_services.Sftp.Handlers.Handles.{opens, drops}
use mock_services.Sftp.Sessions.{on_callback, make_hs}
use mock_services.Sftp.Sessions.Effects.{on_callback-Keeps, make_hs-Keeps}
use mock_services.Sftp.Listener.{construct}
use mock_services.Sftp.Listener.Ledger.{count}
use mock_services.Sftp.World.{
  World, begun, shaking, serving, Desk, on_server, begin_handshake, stop_begin,
}
use mock_services.Sftp.World.Steps.{
  Step, started, round, called, shake_begun, polled, made_ready, served, left, user_added,
  users_cleared, activity_cleared, stopping, stop_ended, initial, Reach, here, next,
}
use mock_services.Sftp.World.Authorised.{IsAuthorised}
use mock_services.Sftp.World.Safe.{IsSafe, alive, AreInside, tally}
use mock_services.Sftp.World.Moves.{
  orderly, stands, poll_handshake-IsSafe, set_up-IsSafe, serve_message-IsSafe, end_serving-IsSafe,
  start-IsSafe, add_user-IsSafe, stop_end-IsSafe,
}
use mock_services.Sftp.World.Keeping.{enter-IsSafe, on_server-IsSafe, accept-IsSafe}

step-IsSafe : {w t : World} → Step w t → IsSafe w → IsSafe t
unfolding begin_handshake stop_begin clear_users clear_activity
step-IsSafe (started w a) h = start-IsSafe a w h
step-IsSafe (round w r fresh) h = accept-IsSafe r w h fresh
step-IsSafe (called w x callback alive) h =
    on_server-IsSafe (on_callback x callback) w h
      (rw ((on_callback-Keeps x callback w.core.server).0) h.users)
step-IsSafe (shake_begun w x e) h =
    enter-IsSafe x (shaking none) (on_server (make_hs x) w)
      (on_server-IsSafe (make_hs x) w h (rw ((make_hs-Keeps x w.core.server).0) h.users))
      (sym (stands x w begun e refl)) tt
step-IsSafe (polled w x failed chan e) h = poll_handshake-IsSafe x failed chan w h e
step-IsSafe (made_ready w x chan setup e) h =
    set_up-IsSafe x chan setup.sftp setup.initialised w h e
step-IsSafe (served w x desk type os msg kept e names) h =
    serve_message-IsSafe x desk type os msg kept w h e names
step-IsSafe (left w x desk e) h = end_serving-IsSafe x desk w h e
step-IsSafe (user_added w u) h = add_user-IsSafe u w h
step-IsSafe (users_cleared w) h = on_server-IsSafe clear_users w h tt
step-IsSafe (activity_cleared w) h = on_server-IsSafe clear_activity w h h.users
step-IsSafe (stopping w) h = on_server-IsSafe (λ s. record s { running = false }) w h h.users
step-IsSafe (stop_ended w stopped done) h = stop_end-IsSafe w h done

pub initial-IsSafe : (bind key : ℕ) → IsSafe (initial bind key)
unfolding initial construct
initial-IsSafe bind key = record {
  counts = λ x. omega arith;
  threads = λ x. omega arith;
  phases = λ x. tt;
  users = tt;
  log = tt;
}

pub Reach-IsSafe : {w t : World} → Reach w t → IsSafe w → IsSafe t
Reach-IsSafe here h = h
Reach-IsSafe (next r step) h = step-IsSafe step (Reach-IsSafe r h)

module _ (bind key : ℕ) {w : World} (r : Reach (initial bind key) w) where
  reached : IsSafe w
  reached = Reach-IsSafe r (initial-IsSafe bind key)

  -- However the acceptor, the threads of the sessions, the program and `stop` interleave, and whatever
  -- clients, libssh and the system answer: where a session has opened, listed, written, made, removed
  -- or renamed a path, or has given out or closed a handle, an account of the session's user had been
  -- added whose root begins every path of it, and for a change one that may write. What the
  -- language leaves open, a handle taken for one of the other kind, is not counted.
  pub log-IsAuthorised : All (IsAuthorised w.accounts) w.log
  log-IsAuthorised = reached.log

  -- At every moment of such a run, a session of libssh has been freed once for each time that it was
  -- handed out, but for the one that a thread still works with, and every thread that works with one
  -- is in the list that `stop` joins.
  pub sessions-settle :
      (x : ℕ)
      → (count x w.core.new_sessions ≡ count x w.core.freed_sessions + alive (w.phase x))
        × (alive (w.phase x) ≤ count x w.core.session_threads)
  sessions-settle x = (reached.counts x, reached.threads x)

  -- While a session serves messages in such a run, what it has opened is what it has closed and what
  -- its client still holds, counted by any test of handles, and the path of each handle that the
  -- client holds begins with the text of the root of the session's user. A path in a directory
  -- beside the root whose name begins with the root's name begins with that text too.
  pub handles-settle :
      (x : ℕ) (desk : Desk) (p : HandleData → Bool)
      → w.phase x ≡ serving desk
      → (tally p (opens desk.effects) ≡ tally p (drops desk.effects) + tally p desk.handles)
        × AreInside desk.ctx.root desk.handles
  handles-settle x desk p e = let good = orderly x w desk reached e in (good.settled p, good.inside)
