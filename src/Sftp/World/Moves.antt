-- ===== src/Sftp/World/Moves.antt =====
-- The steps of a thread, of the program and of `stop` in src/sftp_server.cpp keep its server safe.
use mock_services.Base.{
  ℕ, ◌≤◌, ◌≡◌, refl, sym, ap, inl, inr, ◌∙◌, Bool, Bool-cases, true, false, Option, none, some,
  List, [], ◌∷◌, ◌++◌, map, All, All-append, arith, nat_eq_iff, nat_key, if_split, ◌==◌,
}
use mock_services.Base.Dict.{find}
use mock_services.Sftp.Messages.{System, Message, HandleData}
use mock_services.Sftp.Accounts.{User, log_activity, lookup_user}
use mock_services.Sftp.Handlers.{PacketType, handle_message}
use mock_services.Sftp.Sessions.{free_channel, freed_sftp, taken_channel, is_accepted}
use mock_services.Sftp.Listener.{
  ended, Answers, start, construct, ensure_bind, start_bound, ensure_hostkey, set_options,
  import_key, listen_on, finish_start, refuse, reset_bind,
}
use mock_services.Sftp.Listener
use mock_services.Sftp.Listener.Ledger.{count}
use mock_services.Sftp.World.{
  World, Phase, absent, begun, shaking, accepted, serving, Desk, on_server, poll_handshake, set_up,
  serve_message, end_serving, add_user, stop_end,
}
use mock_services.Sftp.World.Steps.{Names}
use mock_services.Sftp.World.Authorised.{
  IsAuthorised, IsAuthorised-add, IsKnown-add, add_user-AreAdded, lookup_user-IsKnown,
}
use mock_services.Sftp.World.Safe.{
  IsSafe, IsOrderly, PhaseHolds, alive, message-IsOrderly, message-IsAuthorised,
}
use mock_services.Sftp.World.Keeping.{enter-IsSafe, on_server-IsSafe, quit-IsSafe}

channel-ended : (chan : Option ℕ) → ended (free_channel chan) ≡ []
channel-ended none = refl
channel-ended (some chan) = refl

-- A thread that stands at `p` is alive.
pub stands : (x : ℕ) (w : World) (p : Phase) → w.phase x ≡ p → alive p ≡ 1 → alive (w.phase x) ≡ 1
stands x w p e one = ap alive e ∙ one

pub poll_handshake-IsSafe :
    (x : ℕ) (failed : Bool) (chan : Option ℕ) (w : World)
    → IsSafe w
    → w.phase x ≡ shaking chan
    → IsSafe (poll_handshake x failed chan w)
unfolding poll_handshake
poll_handshake-IsSafe x failed chan w h e =
    let one = stands x w (shaking chan) e refl in
    let hs = find x w.core.server.handshakes in
    if_split IsSafe failed _ _
      (λ _. quit-IsSafe x [] (free_channel chan) w h one (channel-ended chan))
      λ _.
        if_split IsSafe (is_accepted (taken_channel chan hs) hs) _ _
          (λ _. enter-IsSafe x (accepted (taken_channel chan hs)) w h (sym one) tt)
          (λ _. enter-IsSafe x (shaking (taken_channel chan hs)) w h (sym one) tt)

pub set_up-IsSafe :
    (x : ℕ) (chan : Option ℕ) (sftp : Option ℕ) (initialised : Bool) (w : World)
    → IsSafe w
    → w.phase x ≡ accepted chan
    → IsSafe (set_up x chan (record { sftp = sftp; initialised = initialised }) w)
unfolding set_up
set_up-IsSafe x chan none initialised w h e =
    quit-IsSafe x [] (free_channel chan) w h (stands x w (accepted chan) e refl)
      (channel-ended chan)
set_up-IsSafe x chan (some sftp) false w h e =
    quit-IsSafe x [] (freed_sftp sftp ∷ free_channel chan) w h (stands x w (accepted chan) e refl)
      (channel-ended chan)
set_up-IsSafe x chan (some sftp) true w h e =
    let desk : Desk = record {
      chan = chan;
      sftp = sftp;
      ctx = lookup_user x w.core.server;
      effects = [];
      handles = [];
    } in
    enter-IsSafe x (serving desk) w h (sym (stands x w (accepted chan) e refl)) (record {
      known = lookup_user-IsKnown w.accounts x w.core.server h.users;
      inside = tt;
      settled = λ p. omega arith;
    })

-- What a session that serves messages keeps.
pub orderly :
    (x : ℕ) (w : World) (desk : Desk)
    → IsSafe w
    → w.phase x ≡ serving desk
    → IsOrderly w.accounts desk
orderly x w desk h e = rw e at (h.phases x)

pub serve_message-IsSafe :
    (x : ℕ) (desk : Desk) (type : PacketType) (os : System) (msg : Message) (kept : List HandleData)
    (w : World)
    → IsSafe w
    → w.phase x ≡ serving desk
    → Names type msg.info desk.handles kept
    → IsSafe (serve_message x desk type os msg kept w)
unfolding serve_message log_activity
serve_message-IsSafe x desk type os msg kept w h e names =
    let good = orderly x w desk h e in
    let effects = handle_message type os desk.ctx msg in
    let logged : World = record w { log = w.log ++ map (λ e. (desk.ctx.username, e)) effects } in
    let safe : IsSafe logged = record {
      counts = h.counts;
      threads = h.threads;
      phases = h.phases;
      users = h.users;
      log =
          All-append (IsAuthorised w.accounts) w.log _ h.log
            (message-IsAuthorised w.accounts desk type os msg kept good names);
    } in
    enter-IsSafe x _ (on_server (log_activity desk.ctx.username effects) logged)
      (on_server-IsSafe (log_activity desk.ctx.username effects) logged safe h.users)
      (sym (stands x w (serving desk) e refl))
      (message-IsOrderly w.accounts desk type os msg kept good names)

pub end_serving-IsSafe :
    (x : ℕ) (desk : Desk) (w : World)
    → IsSafe w
    → w.phase x ≡ serving desk
    → IsSafe (end_serving x desk w)
unfolding end_serving
end_serving-IsSafe x desk w h e =
    quit-IsSafe x desk.effects (freed_sftp desk.sftp ∷ free_channel desk.chan) w h
      (stands x w (serving desk) e refl) (channel-ended desk.chan)

-- Whatever libssh and the system answer to `start`, sessions and accounts stay.
start-keeps_sessions :
    (a : Answers) (c : Listener.World)
    → let c' = (start a c).1 in
      (c'.new_sessions ≡ c.new_sessions)
      × (c'.freed_sessions ≡ c.freed_sessions)
      × (c'.session_threads ≡ c.session_threads)
      × (c'.server.users ≡ c.server.users)
unfolding start ensure_bind start_bound ensure_hostkey set_options import_key listen_on finish_start
    refuse reset_bind
start-keeps_sessions a c = ground arith

pub start-IsSafe :
    (a : Answers) (w : World) → IsSafe w → IsSafe (record w { core = (start a w.core).1 })
start-IsSafe a w h =
    let (new, freed, threads, users) = start-keeps_sessions a w.core in
    record {
      counts = λ x. rw (new, freed) (h.counts x);
      threads = λ x. rw threads (h.threads x);
      phases = h.phases;
      users = rw users h.users;
      log = h.log;
    }

PhaseHolds-add :
    (u : User) (accounts : List User) (p : Phase)
    → PhaseHolds accounts p
    → PhaseHolds (u ∷ accounts) p
PhaseHolds-add u accounts absent h = tt
PhaseHolds-add u accounts begun h = tt
PhaseHolds-add u accounts (shaking chan) h = tt
PhaseHolds-add u accounts (accepted chan) h = tt
PhaseHolds-add u accounts (serving desk) h = record {
  known = IsKnown-add u accounts desk.ctx h.known;
  inside = h.inside;
  settled = h.settled;
}

pub add_user-IsSafe : (u : User) (w : World) → IsSafe w → IsSafe (add_user u w)
unfolding add_user
add_user-IsSafe u w h = record {
  counts = h.counts;
  threads = h.threads;
  phases = λ x. PhaseHolds-add u w.accounts (w.phase x) (h.phases x);
  users = add_user-AreAdded u w.accounts w.core.server.users h.users;
  log = IsAuthorised-add u w.accounts w.log h.log;
}

-- Where no thread of the list is alive, none is that the list counts.
none-alive :
    (phase : ℕ → Phase) (x : ℕ) (threads : List ℕ)
    → All (λ y. phase y ≡ absent) threads
    → alive (phase x) ≤ count x threads
    → alive (phase x) ≡ 0
none-alive phase x [] h le = omega arith
none-alive phase x (y ∷ threads) (e, h) le = elim (Bool-cases (x == y)) [
  | inl is ↦ let same = (nat_eq_iff x y).0 is in ap alive (ap phase same ∙ e)
  | inr is ↦ none-alive phase x threads h (rw is at le)
]

pub stop_end-keeps :
    (w : World)
    → let c = (stop_end w).core in
      (c.new_sessions ≡ w.core.new_sessions)
      × (c.freed_sessions ≡ w.core.freed_sessions)
      × (c.session_threads ≡ [])
      × (c.server.users ≡ w.core.server.users)
      × (c.bind ≡ none)
unfolding stop_end reset_bind
stop_end-keeps w = ground arith

pub stop_end-IsSafe :
    (w : World)
    → IsSafe w
    → All (λ x. w.phase x ≡ absent) w.core.session_threads
    → IsSafe (stop_end w)
unfolding stop_end
stop_end-IsSafe w h done =
    let (new, freed, threads, users, _) = stop_end-keeps w in
    record {
      counts = λ x. rw (new, freed) (h.counts x);
      threads = λ x.
          let gone = none-alive w.phase x w.core.session_threads done (h.threads x) in
          rw threads (omega (arith, gone));
      phases = h.phases;
      users = rw users h.users;
      log = h.log;
    }
