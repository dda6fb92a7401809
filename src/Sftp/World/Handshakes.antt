-- ===== src/Sftp/World/Handshakes.antt =====
-- The handshake of a session in src/sftp_server.cpp as a run of steps.
use mock_services.Base.{
  ℕ, ◌≡◌, ◌≢◌, refl, sym, ◌∙◌, Bool, false, Option, none, List, [], ◌∷◌, nat_key, if◌then◌else◌,
  if_split,
}
use mock_services.Base.Dict.{find}
use mock_services.Sftp.Accounts.{Server}
use mock_services.Sftp.Sessions.{
  Packets, Callback, make_hs, taken_channel, is_accepted, on_callback, on_callbacks, handshake_loop,
  do_callback_handshake,
}
use mock_services.Sftp.World.{
  World, Phase, absent, begun, shaking, accepted, enter, on_server, begin_handshake, poll_handshake,
}
use mock_services.Sftp.World.Steps.{
  Step, called, shake_begun, polled, Reach, here, next, Reach-trans,
}
use mock_services.Sftp.World.Ending.{entered}

-- Where the thread stands when the server is `s`, and nothing else has happened.
abbrev pub At : ℕ → Phase → Server → World → World → Type 0
At x p s w t = (t.phase x ≡ p) × (t.core ≡ record w.core { server = s }) × (t.log ≡ w.log)

callbacks-Reach :
    (x : ℕ) (callbacks : List Callback) (w : World)
    → w.phase x ≢ absent
    → Reach w (on_server (on_callbacks x callbacks) w)
unfolding on_callbacks
callbacks-Reach x [] w h = here
callbacks-Reach x (callback ∷ callbacks) w h =
    let u = on_server (on_callback x callback) w in
    Reach-trans (next here (called w x callback h)) (callbacks-Reach x callbacks u h)

-- Where the handshake leaves the thread.
abbrev pub left_at : Bool × Option ℕ × Server → Phase
left_at answer = if answer.0 then accepted answer.1 else shaking answer.1

abbrev pub Left : ℕ → World → Bool × Option ℕ × Server → Type 0
Left x w answer = (t : World) × Reach w t × At x (left_at answer) answer.2 w t

handshake_loop-Reach :
    (x : ℕ) (rounds : List Packets) (chan : Option ℕ) (w : World)
    → w.phase x ≡ shaking chan
    → Left x w (handshake_loop x rounds chan w.core.server)
unfolding handshake_loop poll_handshake
handshake_loop-Reach x [] chan w e = (w, here, (e, refl, refl))
handshake_loop-Reach x (packets ∷ rounds) chan w e =
    let u = on_server (on_callbacks x packets.callbacks) w in
    let run = callbacks-Reach x packets.callbacks w λ h. let both = sym h ∙ e in cc in
    let hs = find x u.core.server.handshakes in
    let chan' = taken_channel chan hs in
    let step : Step u
        (if is_accepted chan' hs then enter x (accepted chan') u else enter x (shaking chan') u) =
      polled u x false chan e in
    if_split (Left x w) packets.failed _ _ (λ _. (u, run, (e, refl, refl)))
      λ _.
        if_split (Left x w) (is_accepted chan' hs) _ _
          (λ a.
            let step' : Step u (enter x (accepted chan') u) = rw a at step in
            (
              enter x (accepted chan') u,
              next run step',
              (entered x (accepted chan') u, refl, refl),
            ))
          λ a.
            let v = enter x (shaking chan') u in
            let step' : Step u v = rw a at step in
            let (t, more, at) =
              handshake_loop-Reach x rounds chan' v (entered x (shaking chan') u) in
            (t, Reach-trans (next run step') more, at)

pub handshake-Reach :
    (x : ℕ) (rounds : List Packets) (w : World)
    → w.phase x ≡ begun
    → Left x w (do_callback_handshake x rounds w.core.server)
unfolding do_callback_handshake begin_handshake
handshake-Reach x rounds w e =
    let u = begin_handshake x w in
    let (t, run, at) =
      handshake_loop-Reach x rounds none u (entered x (shaking none) (on_server (make_hs x) w)) in
    (t, Reach-trans (next here (shake_begun w x e)) run, at)
