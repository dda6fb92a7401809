-- ===== src/Sftp/Listener.antt =====
-- src/sftp_server.cpp, the listener: the owners of libssh's bind object and of the host key, `start`,
-- the thread that accepts, `stop` and the destructor.
pub mod Ledger
pub mod Rounds
pub mod Lifetime
pub mod Starting
pub mod Constructing
use mock_services.Base.{
  ℕ, Bool, true, false, Option, none, some, List, [], ◌∷◌, ◌++◌, if◌then◌else◌, Text,
}
use mock_services.Sftp.Accounts.{Server, remove_session}
use mock_services.Sftp.Accounts.{stop as clear_server}
use mock_services.Sftp.Sessions.{
  Callback, on_callbacks, Packets, SftpSetup, Poll, Release, freed_session, freed_sftp,
  freed_channel, handle_session_after_auth,
}

-- The members of `implementation`, with what libssh has handed out and what was given back to it, in
-- order. A key goes to the bind object that imports it or is freed.
pub record World : Type 0 where
  pub server : Server
  pub bind : Option ℕ
  pub hostkey : Option ℕ
  pub accepting : Bool
  pub session_threads : List ℕ
  pub new_binds : List ℕ
  pub freed_binds : List ℕ
  pub new_keys : List ℕ
  pub given_keys : List ℕ
  pub new_sessions : List ℕ
  pub freed_sessions : List ℕ

-- The constructor, with the bind object and the key that libssh makes for it.
unfoldable pub construct : ℕ → ℕ → World
construct bind key = record {
  server = record {
    running = false;
    port = 0;
    users = [];
    activity = [];
    conn_users = [];
    session_users = [];
    handshakes = [];
  };
  bind = some bind;
  hostkey = some key;
  accepting = false;
  session_threads = [];
  new_binds = bind ∷ [];
  freed_binds = [];
  new_keys = key ∷ [];
  given_keys = [];
  new_sessions = [];
  freed_sessions = [];
}

-- What libssh and the system answer to `start`: `ssh_bind_new`, `generate_rsa_key`, the three calls of
-- `ssh_bind_options_set`, `ssh_bind_listen`, and the port that `getsockname` gives.
pub record Answers : Type 0 where
  pub new_bind : Option ℕ
  pub new_key : Option ℕ
  pub address_set : Bool
  pub port_set : Bool
  pub key_set : Bool
  pub listening : Bool
  pub name : Option ℕ

pub data Fault : Type 0 where
  already_running no_bind no_key not_set not_listening no_name : Fault

-- `ssh_bind_ptr::reset`
unfoldable pub reset_bind : World → World
reset_bind w = elim w.bind [
  | none ↦ w
  | some bind ↦ record w { bind = none; freed_binds = w.freed_binds ++ (bind ∷ []) }
]

-- `if (!bind_.valid()) bind_ = ssh_bind_ptr();`, where `none` is the exception.
unfoldable pub ensure_bind : Option ℕ → World → Option World
ensure_bind answer w = elim w.bind [
  | some bind ↦ some w
  | none ↦ elim answer [
    | none ↦ none
    | some bind ↦ some (record w { bind = some bind; new_binds = w.new_binds ++ (bind ∷ []) })
  ]
]

unfoldable pub ensure_hostkey : Option ℕ → World → Option World
ensure_hostkey answer w = elim w.hostkey [
  | some key ↦ some w
  | none ↦ elim answer [
    | none ↦ none
    | some key ↦ some (record w { hostkey = some key; new_keys = w.new_keys ++ (key ∷ []) })
  ]
]

-- `bind_.reset()` and an exception
unfoldable pub refuse : Fault → World → Option Fault × World
refuse fault w = (some fault, reset_bind w)

-- `start` behind `getsockname`, which fails or gives the port.
unfoldable pub finish_start : Option ℕ → World → Option Fault × World
finish_start none w = refuse no_name w
finish_start (some port) w =
    (none, record w { server = record w.server { port = port; running = true }; accepting = true })

unfoldable pub listen_on : Answers → World → Option Fault × World
listen_on a w = if a.listening then finish_start a.name w else refuse not_listening w

unfoldable pub import_key : Answers → World → Option Fault × World
import_key a w = elim w.hostkey [
  | none ↦ listen_on a w
  | some key ↦
      if a.key_set
      then listen_on a (record w { hostkey = none; given_keys = w.given_keys ++ (key ∷ []) })
      else refuse not_set w
]

unfoldable pub set_options : Answers → World → Option Fault × World
set_options a w =
    if a.address_set
    then (if a.port_set then import_key a w else refuse not_set w)
    else refuse not_set w

-- `start` behind the creation of the bind object.
unfoldable pub start_bound : Answers → World → Option Fault × World
start_bound a w = elim (ensure_hostkey a.new_key w) [
  | none ↦ (some no_key, w)
  | some keyed ↦ set_options a keyed
]

unfoldable pub start : Answers → World → Option Fault × World
start a w =
    if w.server.running then (some already_running, w) else elim (ensure_bind a.new_bind w) [
      | none ↦ (some no_bind, w)
      | some bound ↦ start_bound a bound
    ]

-- A round of `acceptor_loop`: the session of `ssh_new`, whether `ssh_bind_accept` succeeds, the
-- callbacks of the key exchange and whether it succeeds, and what each read of `running_` finds.
pub record Round : Type 0 where
  pub session : Option ℕ
  pub accepted : Bool
  pub running : Bool
  pub callbacks : List Callback
  pub exchanged : Bool

abbrev pub free_session : ℕ → World → World
free_session session w = record w { freed_sessions = w.freed_sessions ++ (session ∷ []) }

-- The round behind `ssh_new`; the second component is whether the loop goes on.
unfoldable pub accept_session : ℕ → Round → World → World × Bool
accept_session session round w =
    let called = record w { server = on_callbacks session round.callbacks w.server } in
    let dropped = record called { server = remove_session session called.server } in
    if round.accepted
    then (if round.running
        then (if round.exchanged
            then (record called { session_threads = w.session_threads ++ (session ∷ []) }, true)
            else (free_session session dropped, round.running))
        else (free_session session w, false))
    else (free_session session w, round.running)

unfoldable pub accept_round : Round → World → World × Bool
accept_round round w = elim round.session [
  | none ↦ (w, true)
  | some session ↦
      accept_session session round (record w { new_sessions = w.new_sessions ++ (session ∷ []) })
]

unfoldable pub acceptor_loop : List Round → World → World
acceptor_loop [] w = w
acceptor_loop (round ∷ rounds) w =
    let (w', goes_on) = accept_round round w in
    let later = acceptor_loop rounds w' in if goes_on then later else w'

-- What the client of a session does and what libssh answers to the session's thread.
pub record Job : Type 0 where
  pub packets : List Packets
  pub setup : SftpSetup
  pub polls : List Poll

abbrev pub ended : List Release → List ℕ
ended [] = []
ended (freed_session session ∷ releases) = session ∷ ended releases
ended (freed_sftp sftp ∷ releases) = ended releases
ended (freed_channel chan ∷ releases) = ended releases

-- The threads of the sessions run to their end, one behind the other, and are joined.
unfoldable pub join_sessions : (ℕ → Job) → List ℕ → World → World
join_sessions jobs [] w = record w { session_threads = [] }
join_sessions jobs (session ∷ sessions) w =
    let job = jobs session in
    let end = handle_session_after_auth session job.packets job.setup job.polls w.server in
    join_sessions jobs sessions
      (record w { server = end.server; freed_sessions = w.freed_sessions ++ ended end.releases })

-- `stop`, with the rounds that the loop still makes until it sees that it shall end.
unfoldable pub stop : List Round → (ℕ → Job) → World → World
stop last jobs w =
    let accepted = acceptor_loop last w in
    let joined = join_sessions jobs accepted.session_threads accepted in
    let reset = reset_bind joined in
    if w.server.running
    then record reset { server = clear_server joined.server; accepting = false }
    else w

-- `~ssh_key_ptr`
unfoldable pub free_hostkey : World → World
free_hostkey w = elim w.hostkey [
  | none ↦ w
  | some key ↦ record w { hostkey = none; given_keys = w.given_keys ++ (key ∷ []) }
]

-- The destructor: `stop`, and then those of the members.
unfoldable pub destroy : List Round → (ℕ → Job) → World → World
destroy last jobs w = free_hostkey (reset_bind (stop last jobs w))
