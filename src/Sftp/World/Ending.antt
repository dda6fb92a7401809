-- ===== src/Sftp/World/Ending.antt =====
-- How the thread of a session in src/sftp_server.cpp ends.
use mock_services.Base.{
  ℕ, ◌≡◌, refl, ◌∙◌, Bool, true, false, Option, none, some, List, [], ◌∷◌, nat_eq, nat_eq_iff,
  nat_key,
}
use mock_services.Sftp.Messages.{Effect}
use mock_services.Sftp.Accounts.{Server, lookup_user}
use mock_services.Sftp.Sessions.{
  SftpSetup, Release, freed_sftp, free_channel, make_hs, leave, remove_hs,
}
use mock_services.Sftp.Sessions.Effects.{make_hs-Keeps, remove_session-Keeps}
use mock_services.Sftp.World.{
  World, Phase, absent, begun, shaking, accepted, serving, Desk, enter, on_server, begin_handshake,
  poll_handshake, quit, set_up, end_serving,
}
use mock_services.Sftp.World.Steps.{
  Step, shake_begun, polled, made_ready, left, Reach, here, next, Reach-trans,
}

-- What a thread leaves alone: the other threads, the list that `stop` joins, the sessions that were
-- handed out, the log of effects, and whether the server runs.
pub record Frames (x : ℕ) (w t : World) : Type 0 where
  pub others : (y : ℕ) → nat_eq y x ≡ false → t.phase y ≡ w.phase y
  pub threads : t.core.session_threads ≡ w.core.session_threads
  pub runs : t.core.server.running ≡ w.core.server.running
  pub handed : t.core.new_sessions ≡ w.core.new_sessions
  pub log : t.log ≡ w.log

Frames-trans : (x : ℕ) (w u t : World) → Frames x w u → Frames x u t → Frames x w t
Frames-trans x w u t f g = record {
  others = λ y e. g.others y e ∙ f.others y e;
  threads = g.threads ∙ f.threads;
  runs = g.runs ∙ f.runs;
  handed = g.handed ∙ f.handed;
  log = g.log ∙ f.log;
}

pub nat_eq_self : (x : ℕ) → nat_eq x x ≡ true
nat_eq_self x = (nat_eq_iff x x).1 refl

pub entered : (x : ℕ) (p : Phase) (w : World) → (enter x p w).phase x ≡ p
entered x p w = rw (nat_eq_self x) refl

enter-Frames :
    (x : ℕ) (p : Phase) (f : Server → Server) (w : World)
    → (f w.core.server).running ≡ w.core.server.running
    → Frames x w (enter x p (on_server f w))
enter-Frames x p f w same = record {
  others = λ y e. rw e refl;
  threads = refl;
  runs = same;
  handed = refl;
  log = refl;
}

-- The thread has ended by steps of its own.
abbrev pub Ends : ℕ → World → World → Type 0
Ends x w t = Reach w t × (t.phase x ≡ absent) × Frames x w t

quit-Frames :
    (x : ℕ) (effects : List Effect) (releases : List Release) (w : World)
    → (((quit x effects releases w).phase x) ≡ absent) × Frames x w (quit x effects releases w)
unfolding quit leave remove_hs
quit-Frames x effects releases w = (
  rw (nat_eq_self x) refl,
  record {
    others = λ y e. rw e refl;
    threads = refl;
    runs = (remove_session-Keeps x (remove_hs x w.core.server)).2;
    handed = refl;
    log = refl;
  },
)

ended_by : (x : ℕ) (w u t : World) → Step w u → Frames x w u → Ends x u t → Ends x w t
ended_by x w u t step f (r, done, g) =
    (Reach-trans (next here step) r, done, Frames-trans x w u t f g)

end_served : (x : ℕ) (w : World) (desk : Desk) → w.phase x ≡ serving desk → (t : World) × Ends x w t
unfolding end_serving
end_served x w desk e =
    let (done, frames) =
      quit-Frames x desk.effects (freed_sftp desk.sftp ∷ free_channel desk.chan) w in
    (end_serving x desk w, (next here (left w x desk e), done, frames))

-- Whatever `sftp_server_new` and `sftp_server_init` answer.
end_accepted :
    (setup : SftpSetup) (x : ℕ) (w : World) (chan : Option ℕ)
    → w.phase x ≡ accepted chan
    → (t : World) × Ends x w t
unfolding set_up
end_accepted setup x w chan e = go setup.sftp setup.initialised
  where
    go : (sftp : Option ℕ) (initialised : Bool) → (t : World) × Ends x w t
    go none initialised =
        let setup : SftpSetup = record { sftp = none; initialised = initialised } in
        let (done, frames) = quit-Frames x [] (free_channel chan) w in
        (set_up x chan setup w, (next here (made_ready w x chan setup e), done, frames))
    go (some sftp) false =
        let setup : SftpSetup = record { sftp = some sftp; initialised = false } in
        let (done, frames) = quit-Frames x [] (freed_sftp sftp ∷ free_channel chan) w in
        (set_up x chan setup w, (next here (made_ready w x chan setup e), done, frames))
    go (some sftp) true =
        let setup : SftpSetup = record { sftp = some sftp; initialised = true } in
        let desk : Desk = record {
          chan = chan;
          sftp = sftp;
          ctx = lookup_user x w.core.server;
          effects = [];
          handles = [];
        } in
        let u = set_up x chan setup w in
        let (t, ends) = end_served x u desk (entered x (serving desk) w) in
        (
          t,
          ended_by x w u t (made_ready w x chan setup e)
              (enter-Frames x (serving desk) (λ s. s) w refl) ends,
        )

end_shaking :
    (x : ℕ) (w : World) (chan : Option ℕ) → w.phase x ≡ shaking chan → (t : World) × Ends x w t
unfolding poll_handshake
end_shaking x w chan e =
    let (done, frames) = quit-Frames x [] (free_channel chan) w in
    (poll_handshake x true chan w, (next here (polled w x true chan e), done, frames))

end_begun : (x : ℕ) (w : World) → w.phase x ≡ begun → (t : World) × Ends x w t
unfolding begin_handshake
end_begun x w e =
    let u = begin_handshake x w in
    let (t, ends) = end_shaking x u none (entered x (shaking none) (on_server (make_hs x) w)) in
    (
      t,
      ended_by x w u t (shake_begun w x e)
          (enter-Frames x (shaking none) (make_hs x) w ((make_hs-Keeps x w.core.server).2)) ends,
    )

-- Wherever a thread stands, steps of its own end it.
pub thread-Ends : (setup : SftpSetup) (x : ℕ) (w : World) → (t : World) × Ends x w t
thread-Ends setup x w = go (w.phase x) refl
  where
    go : (p : Phase) → w.phase x ≡ p → (t : World) × Ends x w t
    go absent e = (
      w,
      (
        here,
        e,
        record { others = λ y _. refl; threads = refl; runs = refl; handed = refl; log = refl },
      ),
    )
    go begun e = end_begun x w e
    go (shaking chan) e = end_shaking x w chan e
    go (accepted chan) e = end_accepted setup x w chan e
    go (serving desk) e = end_served x w desk e
