-- ===== src/Sftp/World/Serving.antt =====
-- The messages of a session in src/sftp_server.cpp as a run of steps.
use mock_services.Base.{
  ℕ, ◌≡◌, refl, sym, ap, ◌∙◌, append_assoc, append-nil, true, false, List, [], ◌∷◌, ◌++◌, map,
  nat_key, Text, arith,
}
use mock_services.Sftp.Messages.{HandleData, Effect, Context}
use mock_services.Sftp.Accounts.{Server, log_activity, log_effects}
use mock_services.Sftp.Handlers.{handle_message}
use mock_services.Sftp.Handlers.Handles.{grants}
use mock_services.Sftp.Sessions.{Poll, poll_failed, nothing, no_message, message, process_sftp}
use mock_services.Sftp.World.{World, serving, Desk, enter, serve_message}
use mock_services.Sftp.World.Steps.{served, Names, Reach, here, next, Reach-trans}
use mock_services.Sftp.World.Ending.{entered}

-- The client's messages name handles that it holds.
abbrev pub Follows : Context → List HandleData → List Poll → Type 0
Follows ctx handles [] = Unit
Follows ctx handles (poll_failed ∷ polls) = Unit
Follows ctx handles (nothing is_open ∷ polls) = Follows ctx handles polls
Follows ctx handles (no_message ∷ polls) = Unit
Follows ctx handles (message type os msg ∷ polls) =
    (kept : List HandleData) × Names type msg.info handles kept
    × Follows ctx (kept ++ grants (handle_message type os ctx msg)) polls

log_effects-append :
    (name : Text) (xs ys : List Effect)
    → log_effects name (xs ++ ys) ≡ log_effects name xs ++ log_effects name ys
unfolding log_effects
log_effects-append name [] ys = refl
log_effects-append name (x ∷ xs) ys = ground (arith, log_effects-append name xs ys)

log_activity-nil : (name : Text) (s : Server) → log_activity name [] s ≡ s
unfolding log_activity log_effects
log_activity-nil name s = ap (λ a. record s { activity = a }) (append-nil s.activity)

log_activity-append :
    (name : Text) (xs ys : List Effect) (s : Server)
    → log_activity name ys (log_activity name xs s) ≡ log_activity name (xs ++ ys) s
unfolding log_activity
log_activity-append name xs ys s =
    ap (λ a. record s { activity = a })
      (append_assoc s.activity (log_effects name xs) (log_effects name ys)
        ∙ ap (λ l. s.activity ++ l) (sym (log_effects-append name xs ys)))

abbrev pub tagged : Text → List Effect → List (Text × Effect)
tagged name effects = map (λ e. (name, e)) effects

tagged-append :
    (name : Text) (xs ys : List Effect) → tagged name (xs ++ ys) ≡ tagged name xs ++ tagged name ys
tagged-append name [] ys = refl
tagged-append name (x ∷ xs) ys = ap (λ l. (name, x) ∷ l) (tagged-append name xs ys)

-- A session has served messages with these effects, from the desk on.
pub record Served (x : ℕ) (w : World) (desk : Desk) (effects : List Effect) : Type 0 where
  pub after : World
  pub desk' : Desk
  pub run : Reach w after
  pub stands : after.phase x ≡ serving desk'
  pub same_chan : desk'.chan ≡ desk.chan
  pub same_sftp : desk'.sftp ≡ desk.sftp
  pub done : desk'.effects ≡ desk.effects ++ effects
  pub core :
      after.core ≡ record w.core { server = log_activity desk.ctx.username effects w.core.server }
  pub log : after.log ≡ w.log ++ tagged desk.ctx.username effects

serve-none : (x : ℕ) (w : World) (desk : Desk) → w.phase x ≡ serving desk → Served x w desk []
serve-none x w desk e = record {
  after = w;
  desk' = desk;
  run = here;
  stands = e;
  same_chan = refl;
  same_sftp = refl;
  done = sym (append-nil desk.effects);
  core =
      ap (λ s. record w.core { server = s })
        (sym (log_activity-nil desk.ctx.username w.core.server));
  log = sym (append-nil w.log);
}

serve_message-Served :
    (x : ℕ) (w : World) (desk : Desk) (effects later : List Effect) (handles : List HandleData)
    → let desk' : Desk = record desk { effects = desk.effects ++ effects; handles = handles } in
      let u : World = enter x (serving desk') (record w {
        core = record w.core { server = log_activity desk.ctx.username effects w.core.server };
        log = w.log ++ tagged desk.ctx.username effects;
      }) in
      Reach w u → Served x u desk' later → Served x w desk (effects ++ later)
serve_message-Served x w desk effects later handles step r = record {
  after = r.after;
  desk' = r.desk';
  run = Reach-trans step r.run;
  stands = r.stands;
  same_chan = r.same_chan;
  same_sftp = r.same_sftp;
  done = r.done ∙ append_assoc desk.effects effects later;
  core =
      r.core
      ∙ ap (λ s. record w.core { server = s })
          (log_activity-append desk.ctx.username effects later w.core.server);
  log =
      r.log
      ∙ append_assoc w.log (tagged desk.ctx.username effects) (tagged desk.ctx.username later)
      ∙ ap (λ l. w.log ++ l) (sym (tagged-append desk.ctx.username effects later));
}

pub process_sftp-Served :
    (x : ℕ) (polls : List Poll) (w : World) (desk : Desk)
    → w.phase x ≡ serving desk
    → Follows desk.ctx desk.handles polls
    → Served x w desk (process_sftp desk.ctx polls)
unfolding process_sftp serve_message
process_sftp-Served x [] w desk e h = serve-none x w desk e
process_sftp-Served x (poll_failed ∷ polls) w desk e h = serve-none x w desk e
process_sftp-Served x (nothing true ∷ polls) w desk e h = process_sftp-Served x polls w desk e h
process_sftp-Served x (nothing false ∷ polls) w desk e h = serve-none x w desk e
process_sftp-Served x (no_message ∷ polls) w desk e h = serve-none x w desk e
process_sftp-Served x (message type os msg ∷ polls) w desk e (kept, names, follows) =
    let effects = handle_message type os desk.ctx msg in
    let desk' : Desk = record desk {
      effects = desk.effects ++ effects;
      handles = kept ++ grants effects;
    } in
    let u = serve_message x desk type os msg kept w in
    serve_message-Served x w desk effects (process_sftp desk.ctx polls) (kept ++ grants effects)
      (next here (served w x desk type os msg kept e names))
      (process_sftp-Served x polls u desk' (entered x (serving desk') w) follows)
