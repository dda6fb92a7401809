-- ===== src/Sftp/World/Keeping.antt =====
-- Every step of src/sftp_server.cpp keeps its server safe.
use mock_services.Base.{
  ℕ, ◌+◌, ◌≤◌, ◌≡◌, refl, inl, inr, ◌∙◌, Bool-cases, false, Option-cases, none, some, List, [], ◌∷◌,
  ◌++◌, arith, nat_eq, nat_eq_iff, nat_key, if◌then◌else◌,
}
use mock_services.Sftp.Messages.{Effect}
use mock_services.Sftp.Accounts.{Server}
use mock_services.Sftp.Sessions.{
  on_callbacks, Release, freed_session, freed_sftp, freed_channel, leave, remove_hs,
}
use mock_services.Sftp.Sessions.Effects.{on_callbacks-Keeps, remove_session-Keeps}
use mock_services.Sftp.Listener.{ended, Round, accept_session, accept_round}
use mock_services.Sftp.Listener
use mock_services.Sftp.Listener.Ledger.{count, count-append}
use mock_services.Sftp.World.{World, Phase, absent, begun, spawns, accept, enter, on_server, quit}
use mock_services.Sftp.World.Steps.{IsFresh}
use mock_services.Sftp.World.Authorised.{AreAdded}
use mock_services.Sftp.World.Safe.{IsSafe, PhaseHolds, alive}

-- A property of every session, where one of them has moved.
at_phases :
    (P : ℕ → Phase → Type 0) (x : ℕ) (p : Phase) (w : World)
    → P x p
    → ((y : ℕ) → nat_eq y x ≡ false → P y (w.phase y))
    → (y : ℕ) → P y ((enter x p w).phase y)
at_phases P x p w h all y = elim (Bool-cases (nat_eq y x)) [
  | inl e ↦ rw (e, (nat_eq_iff y x).0 e) h
  | inr e ↦ rw e (all y e)
]

-- A thread moves on.
pub enter-IsSafe :
    (x : ℕ) (p : Phase) (w : World)
    → IsSafe w
    → alive p ≡ alive (w.phase x)
    → PhaseHolds w.accounts p
    → IsSafe (enter x p w)
enter-IsSafe x p w h same holds = record {
  counts =
      at_phases (λ y q. count y w.core.new_sessions ≡ count y w.core.freed_sessions + alive q) x p w
        (h.counts x ∙ rw same refl) λ y _. h.counts y;
  threads =
      at_phases (λ y q. alive q ≤ count y w.core.session_threads) x p w (rw same (h.threads x))
        λ y _. h.threads y;
  phases = at_phases (λ y q. PhaseHolds w.accounts q) x p w holds λ y _. h.phases y;
  users = h.users;
  log = h.log;
}

pub on_server-IsSafe :
    (f : Server → Server) (w : World)
    → IsSafe w
    → AreAdded w.accounts (f w.core.server).users
    → IsSafe (on_server f w)
on_server-IsSafe f w h users = record {
  counts = h.counts;
  threads = h.threads;
  phases = h.phases;
  users = users;
  log = h.log;
}

-- What a thread gives back at its end frees its session.
leaves_one :
    (x : ℕ) (releases : List Release)
    → ended releases ≡ []
    → ended (releases ++ (freed_session x ∷ [])) ≡ x ∷ []
leaves_one x [] h = refl
leaves_one x (freed_session y ∷ releases) h = cc
leaves_one x (freed_sftp sftp ∷ releases) h = leaves_one x releases h
leaves_one x (freed_channel chan ∷ releases) h = leaves_one x releases h

-- A thread ends.
pub quit-IsSafe :
    (x : ℕ) (effects : List Effect) (releases : List Release) (w : World)
    → IsSafe w
    → alive (w.phase x) ≡ 1
    → ended releases ≡ []
    → IsSafe (quit x effects releases w)
unfolding quit leave remove_hs
quit-IsSafe x effects releases w h one none_ended =
    let freed : List ℕ = w.core.freed_sessions ++ ended (releases ++ (freed_session x ∷ [])) in
    let counted : (y : ℕ) → count y freed ≡ count y w.core.freed_sessions + count y (x ∷ []) =
      λ y. rw (leaves_one x releases none_ended) (count-append y w.core.freed_sessions (x ∷ [])) in
    record {
      counts =
          at_phases (λ y q. count y w.core.new_sessions ≡ count y freed + alive q) x absent w
            (let was = h.counts x in let now = counted x in ground arith)
            λ y e. let was = h.counts y in let now = counted y in ground arith;
      threads =
          at_phases (λ y q. alive q ≤ count y w.core.session_threads) x absent w (omega arith)
            λ y _. h.threads y;
      phases = at_phases (λ y q. PhaseHolds w.accounts q) x absent w tt λ y _. h.phases y;
      users = rw ((remove_session-Keeps x (remove_hs x w.core.server)).0) h.users;
      log = h.log;
    }

-- What a round of the acceptor does with the session `x` that it has made.
abbrev Accepts : ℕ → Round → Listener.World → Listener.World → Type 0
Accepts x round c c' =
    (c'.new_sessions ≡ c.new_sessions ++ (x ∷ []))
    × (c'.freed_sessions
        ≡ (if spawns round then c.freed_sessions else c.freed_sessions ++ (x ∷ [])))
    × (c'.session_threads
        ≡ (if spawns round then c.session_threads ++ (x ∷ []) else c.session_threads))
    × (c'.server.users ≡ c.server.users)

accept_session-Accepts :
    (x : ℕ) (round : Round) (c : Listener.World)
    → Accepts x round c
        (accept_session x round (record c { new_sessions = c.new_sessions ++ (x ∷ []) })).0
unfolding accept_session
accept_session-Accepts x round c =
    let server = on_callbacks x round.callbacks c.server in
    let called = (on_callbacks-Keeps x round.callbacks c.server).0 in
    let removed = (remove_session-Keeps x server).0 in ground (arith, called, removed)

-- The acceptor starts a thread with a session that had none.
spawned-IsSafe :
    (x : ℕ) (c : Listener.World) (w : World)
    → IsSafe w
    → w.phase x ≡ absent
    → c.new_sessions ≡ w.core.new_sessions ++ (x ∷ [])
    → c.freed_sessions ≡ w.core.freed_sessions
    → c.session_threads ≡ w.core.session_threads ++ (x ∷ [])
    → c.server.users ≡ w.core.server.users
    → IsSafe (enter x begun (record w { core = c }))
spawned-IsSafe x c w h free new freed threads users = record {
  counts =
      at_phases (λ y q. count y c.new_sessions ≡ count y c.freed_sessions + alive q) x begun w
        (let was = h.counts x in
          rw (new, freed, count-append x w.core.new_sessions (x ∷ [])) (ground arith))
        λ y e.
          let was = h.counts y in
          rw (new, freed, count-append y w.core.new_sessions (x ∷ [])) (ground arith);
  threads =
      at_phases (λ y q. alive q ≤ count y c.session_threads) x begun w
        (rw (threads, count-append x w.core.session_threads (x ∷ [])) (ground arith))
        λ y _.
          let was = h.threads y in
          rw (threads, count-append y w.core.session_threads (x ∷ [])) (omega arith);
  phases = at_phases (λ y q. PhaseHolds w.accounts q) x begun w tt λ y _. h.phases y;
  users = rw users h.users;
  log = h.log;
}

-- A session without a thread is freed at once.
refused-IsSafe :
    (x : ℕ) (c : Listener.World) (w : World)
    → IsSafe w
    → c.new_sessions ≡ w.core.new_sessions ++ (x ∷ [])
    → c.freed_sessions ≡ w.core.freed_sessions ++ (x ∷ [])
    → c.session_threads ≡ w.core.session_threads
    → c.server.users ≡ w.core.server.users
    → IsSafe (record w { core = c })
refused-IsSafe x c w h new freed threads users = record {
  counts = λ y.
      let was = h.counts y in
      rw
        (
          new,
          freed,
          count-append y w.core.new_sessions (x ∷ []),
          count-append y w.core.freed_sessions (x ∷ []),
        )
        (omega arith);
  threads = λ y. rw threads (h.threads y);
  phases = h.phases;
  users = rw users h.users;
  log = h.log;
}

pub accept_round-none :
    (r : Round) (c : Listener.World) → r.session ≡ none → (accept_round r c).0 ≡ c
unfolding accept_round
accept_round-none r c e = rw (accept_round, e) refl

-- The same for the whole round.
accept_round-Accepts :
    (r : Round) (x : ℕ) (c : Listener.World)
    → r.session ≡ some x
    → Accepts x r c (accept_round r c).0
unfolding accept_round accept_session
accept_round-Accepts r x c e = rw (accept_round, e) (accept_session-Accepts x r c)

pub accept-IsSafe : (r : Round) (w : World) → IsSafe w → IsFresh r.session w → IsSafe (accept r w)
unfolding accept
accept-IsSafe r w h fresh = elim (Option-cases r.session) [
  | inl e ↦ rw (accept, e, accept_round-none r w.core e) h
  | inr (x, e) ↦
      let free : w.phase x ≡ absent = rw e at fresh in
      let c = (accept_round r w.core).0 in
      let (new, freed, threads, users) = accept_round-Accepts r x w.core e in
      rw (accept, e)
        (elim (Bool-cases (spawns r)) [
          | inl s ↦ rw s (spawned-IsSafe x c w h free new (rw s at freed) (rw s at threads) users)
          | inr s ↦ rw s (refused-IsSafe x c w h new (rw s at freed) (rw s at threads) users)
        ])
]
