-- ===== src/Sftp/Listener/Rounds.antt =====
-- The rounds of the acceptor and the threads of the sessions in src/sftp_server.cpp.
use mock_services.Base.{
  ℕ, ◌+◌, ◌≡◌, refl, ap, inl, inr, ◌∙◌, Bool, true, if_split, Option-cases, List, [], ◌∷◌, ◌++◌,
  arith, nat_key,
}
use mock_services.Sftp.Accounts.{Server, remove_session}
use mock_services.Sftp.Sessions.{
  Release, freed_session, freed_sftp, freed_channel, on_callbacks, handle_session_after_auth,
}
use mock_services.Sftp.Sessions.Releases.{held, sessions, handle_session_after_auth-GivesBack}
use mock_services.Sftp.Sessions.Effects.{on_callbacks-Keeps, remove_session-Keeps}
use mock_services.Sftp.Listener.{
  World, Round, free_session, accept_session, accept_round, acceptor_loop, Job, ended,
  join_sessions,
}
use mock_services.Sftp.Listener.Ledger.{count, count-append, IsBalanced}

-- What a round of the loop keeps.
abbrev pub IsKept : World → World × Bool → Type 0
IsKept w r = IsBalanced r.0 × (r.0.server.running ≡ w.server.running)

-- A session that has been handed out and not been stored yet.
abbrev Pending : ℕ → World → Type 0
Pending session w =
    (w.new_binds ≡ w.freed_binds ++ held w.bind)
    × (w.new_keys ≡ w.given_keys ++ held w.hostkey)
    × ((x : ℕ)
        → count x w.new_sessions
          ≡ count x w.freed_sessions + count x w.session_threads + count x (session ∷ []))

free_session-IsBalanced :
    (session : ℕ) (w : World) → Pending session w → IsBalanced (free_session session w)
free_session-IsBalanced session w (binds, keys, counts) = record {
  binds = binds;
  keys = keys;
  counts =
      λ x. rw (count-append x w.freed_sessions (session ∷ [])) (let all = counts x in omega arith);
}

store-IsBalanced :
    (session : ℕ) (server : Server) (w : World)
    → Pending session w
    → IsBalanced
        (record w { server = server; session_threads = w.session_threads ++ (session ∷ []) })
store-IsBalanced session server w (binds, keys, counts) = record {
  binds = binds;
  keys = keys;
  counts =
      λ x. rw (count-append x w.session_threads (session ∷ [])) (let all = counts x in omega arith);
}

accept_session-IsKept :
    (session : ℕ) (round : Round) (w : World)
    → Pending session w
    → IsKept w (accept_session session round w)
unfolding accept_session
accept_session-IsKept session round w h =
    let server = on_callbacks session round.callbacks w.server in
    let called = (on_callbacks-Keeps session round.callbacks w.server).2 in
    let freed : IsKept w (free_session session w, true) =
      (free_session-IsBalanced session w h, refl) in
    let dropped : World = record w { server = remove_session session server } in
    if_split (IsKept w) round.accepted _ _
      (λ e.
        if_split (IsKept w) round.running _ _
          (λ e.
            if_split (IsKept w) round.exchanged _ _
              (λ e. (store-IsBalanced session server w h, called))
              (λ e. (
                free_session-IsBalanced session dropped h,
                (remove_session-Keeps session server).2 ∙ called,
              )))
          (λ e. freed))
      (λ e. freed)

pub accept_round-IsKept :
    (round : Round) (w : World) → IsBalanced w → IsKept w (accept_round round w)
unfolding accept_round
accept_round-IsKept round w h = elim (Option-cases round.session) [
  | inl e ↦ rw (accept_round, e) (h, refl)
  | inr (session, e) ↦
      rw (accept_round, e)
        (accept_session-IsKept session round
          (record w { new_sessions = w.new_sessions ++ (session ∷ []) })
          (
            h.binds,
            h.keys,
            λ x.
                rw (count-append x w.new_sessions (session ∷ []))
                  (let all = h.counts x in omega arith),
          ))
]

pub acceptor_loop-IsBalanced :
    (rounds : List Round) (w : World) → IsBalanced w → IsBalanced (acceptor_loop rounds w)
unfolding acceptor_loop
acceptor_loop-IsBalanced [] w h = h
acceptor_loop-IsBalanced (round ∷ rounds) w h =
    let kept = (accept_round-IsKept round w h).0 in
    if_split IsBalanced (accept_round round w).1 _ _
      (λ e. acceptor_loop-IsBalanced rounds (accept_round round w).0 kept) (λ e. kept)

ended-sessions : (releases : List Release) → ended releases ≡ sessions releases
ended-sessions [] = refl
ended-sessions (freed_session session ∷ releases) =
    ap (λ xs. session ∷ xs) (ended-sessions releases)
ended-sessions (freed_sftp sftp ∷ releases) = ended-sessions releases
ended-sessions (freed_channel chan ∷ releases) = ended-sessions releases

-- The threads that are still to be joined hold their sessions.
pub join_sessions-IsBalanced :
    (jobs : ℕ → Job) (threads : List ℕ) (w : World)
    → IsBalanced (record w { session_threads = threads })
    → let w' = join_sessions jobs threads w in IsBalanced w' × (w'.session_threads ≡ [])
unfolding join_sessions
join_sessions-IsBalanced jobs [] w h = (h, refl)
join_sessions-IsBalanced jobs (session ∷ threads) w h =
    let job = jobs session in
    let end = handle_session_after_auth session job.packets job.setup job.polls w.server in
    let given =
      (handle_session_after_auth-GivesBack session job.packets job.setup job.polls w.server).2 in
    let w' : World = record w {
      server = end.server;
      freed_sessions = w.freed_sessions ++ ended end.releases;
    } in
    join_sessions-IsBalanced jobs threads w' (record {
      binds = h.binds;
      keys = h.keys;
      counts = λ x.
          rw (ended-sessions end.releases ∙ given, count-append x w.freed_sessions (session ∷ []))
            (let all = h.counts x in ground arith);
    })
