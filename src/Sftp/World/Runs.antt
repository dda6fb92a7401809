-- ===== src/Sftp/World/Runs.antt =====
-- The thread of one session of src/sftp_server.cpp as a run of the steps of the whole server.
use mock_services.Base.{
  ℕ, ◌≡◌, refl, sym, ap, ◌∙◌, append-nil, Bool, true, false, Option, none, some, List, [], ◌∷◌,
  ◌++◌, map, nat_key, if◌then◌else◌, Text,
}
use mock_services.Sftp.Messages.{Effect}
use mock_services.Sftp.Accounts.{Server, lookup_user, log_activity}
use mock_services.Sftp.Sessions.{
  Packets, SftpSetup, Poll, End, freed_sftp, free_channel, process_sftp, do_callback_handshake,
  leave, Release, serve, start_sftp, handle_session_after_auth,
}
use mock_services.Sftp.Listener.{ended}
use mock_services.Sftp.Listener
use mock_services.Sftp.World.{
  World, absent, begun, accepted, serving, Desk, enter, poll_handshake, quit, set_up, end_serving,
}
use mock_services.Sftp.World.Steps.{Step, polled, made_ready, left, Reach, next, Reach-trans}
use mock_services.Sftp.World.Ending.{entered, nat_eq_self}
use mock_services.Sftp.World.Handshakes.{At, Left, handshake-Reach}
use mock_services.Sftp.World.Serving.{Follows, tagged, process_sftp-Served}

-- The steps of the server end in what the thread as a whole returns.
abbrev pub Matches : ℕ → World → Text → End → Type 0
Matches x w name end =
    (t : World) × Reach w t
    × (t.phase x ≡ absent)
    × (t.core ≡ record w.core {
      server = end.server;
      freed_sessions = w.core.freed_sessions ++ ended end.releases;
    })
    × (t.log ≡ w.log ++ map (λ e. (name, e)) end.effects)

quit-Matches :
    (x : ℕ) (name : Text) (effects : List Effect) (releases : List Release) (w u : World)
    (s : Server)
    → Reach w (quit x effects releases u)
    → u.core ≡ record w.core { server = s }
    → u.log ≡ w.log ++ tagged name effects
    → Matches x w name (leave x effects releases s)
unfolding quit leave
quit-Matches x name effects releases w u s run core log = (
  quit x effects releases u,
  run,
  rw (nat_eq_self x) refl,
  ap {A = Listener.World}
      (λ c. record c {
        server = (leave x effects releases c.server).server;
        freed_sessions = c.freed_sessions ++ ended (leave x effects releases c.server).releases;
      })
      core,
  log,
)

start_sftp-Matches :
    (x : ℕ) (chan sftp : Option ℕ) (initialised : Bool) (polls : List Poll) (w u : World)
    → Reach w u
    → At x (accepted chan) u.core.server w u
    → Follows (lookup_user x u.core.server) [] polls
    → Matches x w
        (lookup_user x u.core.server).username
        (start_sftp x chan (record { sftp = sftp; initialised = initialised }) polls u.core.server)
unfolding start_sftp set_up serve end_serving
start_sftp-Matches x chan none initialised polls w u run (e, core, log) follows =
    quit-Matches x _ [] (free_channel chan) w u u.core.server
      (next run (made_ready u x chan (record { sftp = none; initialised = initialised }) e)) core
      (log ∙ sym (append-nil w.log))
start_sftp-Matches x chan (some sftp) false polls w u run (e, core, log) follows =
    quit-Matches x _ [] (freed_sftp sftp ∷ free_channel chan) w u u.core.server
      (next run (made_ready u x chan (record { sftp = some sftp; initialised = false }) e)) core
      (log ∙ sym (append-nil w.log))
start_sftp-Matches x chan (some sftp) true polls w u run (e, core, log) follows =
    let s = u.core.server in
    let ctx = lookup_user x s in
    let desk : Desk = record { chan = chan; sftp = sftp; ctx = ctx; effects = []; handles = [] } in
    let effects = process_sftp ctx polls in
    let v = enter x (serving desk) u in
    let ready : Reach w v =
      next run (made_ready u x chan (record { sftp = some sftp; initialised = true }) e) in
    let r = process_sftp-Served x polls v desk (entered x (serving desk) u) follows in
    let step : Step r.after
        (quit x r.desk'.effects (freed_sftp r.desk'.sftp ∷ free_channel r.desk'.chan) r.after) =
      left r.after x r.desk' r.stands in
    let step' : Step r.after (quit x effects (freed_sftp sftp ∷ free_channel chan) r.after) =
      rw (r.done, r.same_sftp, r.same_chan) at step in
    quit-Matches x ctx.username effects (freed_sftp sftp ∷ free_channel chan) w r.after
      (log_activity ctx.username effects s) (next (Reach-trans ready r.run) step')
      (r.core
        ∙ ap {A = Listener.World} (λ c. record c { server = log_activity ctx.username effects s })
            core)
      (r.log ∙ ap (λ l. l ++ tagged ctx.username effects) log)

-- Whatever its client and libssh do, as long as the client's messages name handles that it holds, what
-- `handle_session_after_auth` does in one piece is a run of the steps of the server: the same members
-- of the server and the same session freed, the same effects in the log under the same name, and no
-- thread left.
pub handle_session_after_auth_runs :
    (x : ℕ) (rounds : List Packets) (setup : SftpSetup) (polls : List Poll) (w : World)
    → w.phase x ≡ begun
    → let ctx = lookup_user x (do_callback_handshake x rounds w.core.server).2 in
      Follows ctx [] polls
      → Matches x w ctx.username (handle_session_after_auth x rounds setup polls w.core.server)
unfolding handle_session_after_auth poll_handshake
handle_session_after_auth_runs x rounds setup polls w e follows =
    go (do_callback_handshake x rounds w.core.server) follows (handshake-Reach x rounds w e)
  where
    go :
        (answer : Bool × Option ℕ × Server)
        → let ctx = lookup_user x answer.2 in
          Follows ctx [] polls
          → Left x w answer
          → Matches x w ctx.username (
              if answer.0
              then start_sftp x answer.1 setup polls answer.2
              else leave x [] (free_channel answer.1) answer.2)
    go (true, chan, s) follows (t, run, (e, core, log)) =
        let same : t.core.server ≡ s = ap {A = Listener.World} (λ c. c.server) core in
        let core' : t.core ≡ record w.core { server = t.core.server } = rw (← same) at core in
        let follows' : Follows (lookup_user x t.core.server) [] polls = rw (← same) at follows in
        rw⁻¹ same (
          start_sftp-Matches x chan setup.sftp setup.initialised polls w t run (e, core', log)
            follows')
    go (false, chan, s) follows (t, run, (e, core, log)) =
        quit-Matches x _ [] (free_channel chan) w t s (next run (polled t x true chan e)) core
          (log ∙ sym (append-nil w.log))
