-- ===== src/Sftp/Listener/Starting.antt =====
-- When `start` of src/sftp_server.cpp succeeds, and what it leaves.
use mock_services.Base.{ℕ, ◌≡◌, Bool, true, false, ◌&&◌, ◌||◌, Option, none, some, arith}
use mock_services.Sftp.Listener.{
  World, Answers, Fault, reset_bind, ensure_bind, ensure_hostkey, refuse, finish_start, listen_on,
  import_key, set_options, start_bound, start,
}

abbrev pub is_some : Option ℕ → Bool
is_some none = false
is_some (some x) = true

-- Whether everything that `start` asks for is there or is given.
abbrev pub is_ready : Answers → World → Bool
is_ready a w =
    (is_some w.bind || is_some a.new_bind)
    && (is_some w.hostkey || is_some a.new_key)
    && a.address_set
    && a.port_set
    && a.key_set
    && a.listening
    && is_some a.name

-- A server that did not start does not run; one that did listens with a bind object on the port that
-- the system named, accepts, and has passed its key on.
abbrev pub Outcome : Answers → World → Option Fault × World → Type 0
Outcome a w (some fault, w') = (w'.server.running ≡ false) × (is_ready a w ≡ false)
Outcome a w (none, w') =
    (is_ready a w ≡ true)
    × (w'.server.running ≡ true)
    × (some w'.server.port ≡ a.name)
    × (is_some w'.bind ≡ true)
    × (w'.hostkey ≡ none)
    × (w'.accepting ≡ true)

-- A server that is not running starts if and only if libssh and the system grant all that it asks
-- for.
pub start_lem : (a : Answers) (w : World) → w.server.running ≡ false → Outcome a w (start a w)
unfolding start start_bound set_options import_key listen_on finish_start refuse ensure_bind
    ensure_hostkey reset_bind
start_lem a w e = ground arith
