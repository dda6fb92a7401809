-- ===== src/Sftp/Listener/Lifetime.antt =====
-- A server of src/sftp_server.cpp from its constructor to its destructor.
use mock_services.Base.{
  ℕ, ◌≡◌, refl, sym, inl, inr, ◌∙◌, true, false, Bool-cases, if_split, Option, Option-cases, none,
  some, List, [], append-nil, arith, nat_key,
}
use mock_services.Sftp.Accounts.{Server, stop as clear_server}
use mock_services.Sftp.Listener.{
  World, Answers, construct, reset_bind, start, free_hostkey, ensure_bind, start_bound,
  ensure_hostkey, set_options, import_key, listen_on, finish_start, refuse, Round, accept_round,
  acceptor_loop, Job, join_sessions, stop, destroy,
}
use mock_services.Sftp.Listener.Ledger.{count, IsBalanced, reset_bind-IsBalanced, start-IsBalanced}
use mock_services.Sftp.Listener.Rounds.{
  accept_round-IsKept, acceptor_loop-IsBalanced, join_sessions-IsBalanced,
}

-- Threads are only kept while the server runs.
abbrev pub IsIdle : World → Type 0
IsIdle w = w.server.running ≡ false → w.session_threads ≡ []

abbrev pub IsValid : World → Type 0
IsValid w = IsBalanced w × IsIdle w

running-IsIdle : (w : World) → w.server.running ≡ true → IsIdle w
running-IsIdle w runs stopped = ground (arith, runs, stopped)

reset_bind_lem :
    (w : World)
    → ((reset_bind w).bind ≡ none)
      × ((reset_bind w).hostkey ≡ w.hostkey)
      × ((reset_bind w).session_threads ≡ w.session_threads)
unfolding reset_bind
reset_bind_lem w = elim (Option-cases w.bind) [
  | inl e ↦ rw (reset_bind, e) (e, refl, refl)
  | inr (bind, e) ↦ rw (reset_bind, e) (refl, refl, refl)
]

clear_server-stopped : (s : Server) → (clear_server s).running ≡ false
unfolding clear_server
clear_server-stopped s = ground arith

-- Whether it ran or not, no thread of a session is left.
abbrev IsStopped : World → Type 0
IsStopped w = IsBalanced w × (w.session_threads ≡ []) × (w.server.running ≡ false)

stop-IsStopped :
    (last : List Round) (jobs : ℕ → Job) (w : World) → IsValid w → IsStopped (stop last jobs w)
unfolding stop
stop-IsStopped last jobs w (h, idle) =
    let accepted = acceptor_loop last w in
    let joined = join_sessions jobs accepted.session_threads accepted in
    let b = acceptor_loop-IsBalanced last w h in
    let (k, empty) = join_sessions-IsBalanced jobs accepted.session_threads accepted b in
    let r = reset_bind-IsBalanced joined k in
    if_split IsStopped w.server.running _ _
      (λ e. (
        record { binds = r.binds; keys = r.keys; counts = r.counts },
        (reset_bind_lem joined).2 ∙ empty,
        clear_server-stopped joined.server,
      ))
      (λ e. (h, idle e, e))

-- What happens to a server between its constructor and its destructor.
pub data Reach : World → Type 0 where
  constructed : (bind key : ℕ) → Reach (construct bind key)
  started : {w : World} (a : Answers) → Reach w → Reach (start a w).1
  round :
      {w : World} (round : Round)
      → Reach w
      → w.server.running ≡ true
      → Reach (accept_round round w).0
  changed :
      {w : World} (server : Server)
      → Reach w
      → server.running ≡ w.server.running
      → Reach (record w { server = server })
  stopped : {w : World} (last : List Round) (jobs : ℕ → Job) → Reach w → Reach (stop last jobs w)

pub construct-IsBalanced : (bind key : ℕ) → IsBalanced (construct bind key)
unfolding construct
construct-IsBalanced bind key = record { binds = refl; keys = refl; counts = λ x. refl }

start-keeps_threads : (a : Answers) (w : World) → (start a w).1.session_threads ≡ w.session_threads
unfolding start ensure_bind start_bound ensure_hostkey set_options import_key listen_on finish_start
    refuse reset_bind
start-keeps_threads a w = ground arith

start_running : (a : Answers) (w : World) → w.server.running ≡ true → (start a w).1 ≡ w
unfolding start
start_running a w e = ground (arith, e)

start-IsIdle : (a : Answers) (w : World) → IsIdle w → IsIdle (start a w).1
start-IsIdle a w h = elim (Bool-cases w.server.running) [
  | inl e ↦ rw (start_running a w e) h
  | inr e ↦ λ _. start-keeps_threads a w ∙ h e
]

Reach-IsValid : {w : World} → Reach w → IsValid w
unfolding construct
Reach-IsValid (constructed bind key) = (construct-IsBalanced bind key, λ e. refl)
Reach-IsValid (started a r) =
    let (h, idle) = Reach-IsValid r in (start-IsBalanced a _ h, start-IsIdle a _ idle)
Reach-IsValid (round {w} next r runs) =
    let (h, same) = accept_round-IsKept next w (Reach-IsValid r).0 in
    (h, running-IsIdle (accept_round next w).0 (same ∙ runs))
Reach-IsValid (changed server r same) =
    let (h, idle) = Reach-IsValid r in
    (record { binds = h.binds; keys = h.keys; counts = h.counts }, λ e. idle (sym same ∙ e))
Reach-IsValid (stopped {w} last jobs r) =
    let (h, empty, _) = stop-IsStopped last jobs w (Reach-IsValid r) in (h, λ e. empty)

free_hostkey_lem :
    (w : World)
    → IsBalanced w
    → let w' = free_hostkey w in
      IsBalanced w'
      × (w'.hostkey ≡ none)
      × (w'.bind ≡ w.bind)
      × (w'.session_threads ≡ w.session_threads)
unfolding free_hostkey
free_hostkey_lem w h = go w.hostkey h
  where
    go :
        (hostkey : Option ℕ)
        → IsBalanced (record w { hostkey = hostkey })
        → let w' = free_hostkey (record w { hostkey = hostkey }) in
          IsBalanced w'
          × (w'.hostkey ≡ none)
          × (w'.bind ≡ w.bind)
          × (w'.session_threads ≡ w.session_threads)
    go none k = (k, refl, refl, refl)
    go (some key) k = (
      record { binds = k.binds; keys = k.keys ∙ sym (append-nil _); counts = k.counts },
      refl,
      refl,
      refl,
    )

destroy-empty :
    (last : List Round) (jobs : ℕ → Job) (w : World)
    → IsValid w
    → let w' = destroy last jobs w in
      IsBalanced w' × (w'.bind ≡ none) × (w'.hostkey ≡ none) × (w'.session_threads ≡ [])
unfolding destroy
destroy-empty last jobs w h =
    let (k, empty, _) = stop-IsStopped last jobs w h in
    let stopped = stop last jobs w in
    let r = reset_bind-IsBalanced stopped k in
    let (b, _, threads) = reset_bind_lem stopped in
    let (f, no_key, no_bind, same) = free_hostkey_lem (reset_bind stopped) r in
    (f, no_bind ∙ b, no_key, same ∙ threads ∙ empty)

-- However a server is started, stopped and used, and whatever libssh and the system answer, when the
-- destructor has run every bind object that libssh handed out has been freed, in order and once,
-- every host key has been passed on to a bind object or freed, and every session has been freed as
-- often as it was handed out.
pub destroy-frees :
    (w : World) (last : List Round) (jobs : ℕ → Job) (x : ℕ)
    → Reach w
    → let w' = destroy last jobs w in
      (w'.new_binds ≡ w'.freed_binds)
      × (w'.new_keys ≡ w'.given_keys)
      × (count x w'.new_sessions ≡ count x w'.freed_sessions)
destroy-frees w last jobs x r =
    let (h, no_bind, no_key, no_threads) = destroy-empty last jobs w (Reach-IsValid r) in
    (
      h.binds ∙ rw no_bind (append-nil _),
      h.keys ∙ rw no_key (append-nil _),
      h.counts x ∙ rw no_threads (omega arith),
    )
