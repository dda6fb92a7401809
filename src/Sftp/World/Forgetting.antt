-- ===== src/Sftp/World/Forgetting.antt =====
-- What src/sftp_server.cpp still knows of a session whose thread has ended.
use mock_services.Base.{
  ℕ, ◌≡◌, ◌≢◌, refl, inl, inr, Bool, Bool-cases, true, false, Option, Option-cases, none, some,
  List, [], ◌∷◌, ◌++◌, arith, nat_key, if_split,
}
use mock_services.Base.Dict.{find}
use mock_services.Sftp.Messages.{Effect}
use mock_services.Sftp.Accounts.{Server, remove_session, log_activity, clear_users, clear_activity}
use mock_services.Sftp.Sessions.{
  Release, freed_sftp, free_channel, on_callback, on_callbacks, make_hs, remove_hs, leave,
  taken_channel, is_accepted,
}
use mock_services.Sftp.Sessions.Releases.{forgotten}
use mock_services.Sftp.Listener.{
  Round, accept_round, accept_session, Answers, start, construct, ensure_bind, start_bound,
  ensure_hostkey, set_options, import_key, listen_on, finish_start, refuse, reset_bind,
}
use mock_services.Sftp.Listener
use mock_services.Sftp.World.{
  World, Phase, absent, begun, shaking, accepted, spawns, accept, enter, quit, begin_handshake,
  poll_handshake, set_up, serve_message, end_serving, add_user, stop_begin, stop_end,
}
use mock_services.Sftp.World.Steps.{
  Step, started, round, called, shake_begun, polled, made_ready, served, left, user_added,
  users_cleared, activity_cleared, stopping, stop_ended, IsFresh, initial, Reach, here, next,
}
use mock_services.Sftp.World.Keeping.{accept_round-none}
use mock_services.Sftp.World.Tables.{
  IsUnknown, Spares, IsClean, touched-IsClean, moved-IsClean, on_callback-Spares,
  on_callbacks-Spares, make_hs-Spares, remove_session-Spares, remove_hs-Spares,
  on_callbacks-no_handshake, remove_session-forgets,
}

abbrev Knows : World → Type 0
Knows w = IsClean w.phase w.core.server

leave-Spares : (x : ℕ) (s : Server) → Spares x s (remove_session x (remove_hs x s))
leave-Spares x s y other h =
    remove_session-Spares x (remove_hs x s) y other (remove_hs-Spares x s y other h)

quit-Knows :
    (x : ℕ) (effects : List Effect) (releases : List Release) (w : World)
    → Knows w
    → Knows (quit x effects releases w)
unfolding quit leave
quit-Knows x effects releases w h =
    let s = w.core.server in
    moved-IsClean x absent w.phase s (remove_session x (remove_hs x s)) h (λ e. forgotten x s)
      (leave-Spares x s)

-- A thread that moves on and leaves the server alone.
stays-Knows : (x : ℕ) (p : Phase) (w : World) → Knows w → p ≢ absent → Knows (enter x p w)
stays-Knows x p w h there =
    moved-IsClean x p w.phase w.core.server w.core.server h (λ e. absurd (there e)) (λ y other k. k)

-- The session of a round of the acceptor that starts no thread.
refused-Unknown :
    (x : ℕ) (r : Round) (c : Listener.World)
    → spawns r ≡ false
    → IsUnknown x c.server
    → IsUnknown x (accept_session x r c).0.server
unfolding accept_session
refused-Unknown x r c e (login, hs) =
    let called = on_callbacks x r.callbacks c.server in
    let (gone, same) = remove_session-forgets x called in
    let dropped : IsUnknown x (remove_session x called) =
      (gone, rw same (on_callbacks-no_handshake x r.callbacks c.server hs)) in
    ground (arith, e, login, hs, dropped.0, dropped.1)

accept_session-Spares :
    (x : ℕ) (r : Round) (c : Listener.World) → Spares x c.server (accept_session x r c).0.server
unfolding accept_session
accept_session-Spares x r c y other h =
    let called = on_callbacks x r.callbacks c.server in
    let after = on_callbacks-Spares x r.callbacks c.server y other h in
    let dropped = remove_session-Spares x called y other after in
    ground (arith, h.0, h.1, after.0, after.1, dropped.0, dropped.1)

-- The same for the whole round.
accept_round-server :
    (r : Round) (x : ℕ) (c : Listener.World)
    → r.session ≡ some x
    → let t = (accept_round r c).0.server in
      Spares x c.server t × (spawns r ≡ false → IsUnknown x c.server → IsUnknown x t)
unfolding accept_round accept_session
accept_round-server r x c e =
    let made : Listener.World = record c { new_sessions = c.new_sessions ++ (x ∷ []) } in
    rw (accept_round, e) (accept_session-Spares x r made, refused-Unknown x r made)

accept-Knows : (r : Round) (w : World) → Knows w → IsFresh r.session w → Knows (accept r w)
unfolding accept
accept-Knows r w h fresh = elim (Option-cases r.session) [
  | inl e ↦ rw (accept, e, accept_round-none r w.core e) h
  | inr (x, e) ↦
      let free : w.phase x ≡ absent = rw e at fresh in
      let s = w.core.server in
      let t = (accept_round r w.core).0.server in
      let (spares, unknown) = accept_round-server r x w.core e in
      rw (accept, e)
        (elim (Bool-cases (spawns r)) [
          | inl q ↦ rw q (moved-IsClean x begun w.phase s t h (λ b. cc) spares)
          | inr q ↦ rw q (touched-IsClean x w.phase s t h (λ gone. unknown q (h x free)) spares)
        ])
]

poll_handshake-Knows :
    (x : ℕ) (failed : Bool) (chan : Option ℕ) (w : World)
    → Knows w
    → Knows (poll_handshake x failed chan w)
unfolding poll_handshake
poll_handshake-Knows x failed chan w h =
    let hs = find x w.core.server.handshakes in
    if_split Knows failed _ _ (λ _. quit-Knows x [] (free_channel chan) w h)
      λ _.
        if_split Knows (is_accepted (taken_channel chan hs) hs) _ _
          (λ _. stays-Knows x (accepted (taken_channel chan hs)) w h λ b. cc)
          (λ _. stays-Knows x (shaking (taken_channel chan hs)) w h λ b. cc)

set_up-Knows :
    (x : ℕ) (chan sftp : Option ℕ) (initialised : Bool) (w : World)
    → Knows w
    → Knows (set_up x chan (record { sftp = sftp; initialised = initialised }) w)
unfolding set_up
set_up-Knows x chan none initialised w h = quit-Knows x [] (free_channel chan) w h
set_up-Knows x chan (some sftp) false w h =
    quit-Knows x [] (freed_sftp sftp ∷ free_channel chan) w h
set_up-Knows x chan (some sftp) true w h = stays-Knows x _ w h λ b. cc

-- The tables of logins and handshakes are left alone, or that of the logins is emptied.
start-tables :
    (a : Answers) (c : Listener.World)
    → ((start a c).1.server.session_users ≡ c.server.session_users)
      × ((start a c).1.server.handshakes ≡ c.server.handshakes)
unfolding start ensure_bind start_bound ensure_hostkey set_options import_key listen_on finish_start
    refuse reset_bind
start-tables a c = ground arith

stop_end-tables :
    (w : World)
    → ((stop_end w).core.server.session_users ≡ [])
      × ((stop_end w).core.server.handshakes ≡ w.core.server.handshakes)
unfolding stop_end reset_bind
stop_end-tables w = ground arith

stop_end-IsUnknown :
    (x : ℕ) (w : World) → IsUnknown x w.core.server → IsUnknown x (stop_end w).core.server
unfolding find
stop_end-IsUnknown x w (login, hs) =
    let (logins, handshakes) = stop_end-tables w in (rw logins refl, rw handshakes hs)

stop_end-Knows : (w : World) → Knows w → Knows (stop_end w)
unfolding stop_end
stop_end-Knows w h x gone = stop_end-IsUnknown x w (h x gone)

step-Knows : {w t : World} → Step w t → Knows w → Knows t
unfolding begin_handshake serve_message log_activity end_serving add_user stop_begin clear_users
    clear_activity
step-Knows (started w a) h = λ x gone.
    let (logins, handshakes) = start-tables a w.core in
    (rw logins ((h x gone).0), rw handshakes ((h x gone).1))
step-Knows (round w r fresh) h = accept-Knows r w h fresh
step-Knows (called w x callback alive) h =
    touched-IsClean x w.phase w.core.server (on_callback x callback w.core.server) h
      (λ gone. absurd (alive gone)) (on_callback-Spares x callback w.core.server)
step-Knows (shake_begun w x e) h =
    moved-IsClean x (shaking none) w.phase w.core.server (make_hs x w.core.server) h (λ b. cc)
      (make_hs-Spares x w.core.server)
step-Knows (polled w x failed chan e) h = poll_handshake-Knows x failed chan w h
step-Knows (made_ready w x chan setup e) h = set_up-Knows x chan setup.sftp setup.initialised w h
step-Knows (served w x desk type os msg kept e names) h = stays-Knows x _ w h λ b. cc
step-Knows (left w x desk e) h = quit-Knows x desk.effects _ w h
step-Knows (user_added w u) h = h
step-Knows (users_cleared w) h = h
step-Knows (activity_cleared w) h = h
step-Knows (stopping w) h = h
step-Knows (stop_ended w stopped done) h = stop_end-Knows w h

Reach-Knows : {w t : World} → Reach w t → Knows w → Knows t
Reach-Knows here h = h
Reach-Knows (next r step) h = step-Knows step (Reach-Knows r h)

-- However the acceptor, the threads of the sessions, the program and `stop` interleave, the server
-- knows no login and no handshake of a session that no thread works with, so that a session which
-- libssh hands out at the same address starts without them.
pub threads-forget :
    (bind key : ℕ) {w : World}
    → Reach (initial bind key) w
    → (x : ℕ) → w.phase x ≡ absent
    → (find x w.core.server.session_users ≡ none) × (find x w.core.server.handshakes ≡ none)
unfolding initial construct find
threads-forget bind key r = Reach-Knows r λ x gone. (refl, refl)
