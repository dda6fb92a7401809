-- ===== src/Ftp/Tests.antt =====
-- The theorems on src/ftp_server.cpp at concrete paths, clients and commands.
use mock_services.Base.{
  ◌++◌, Bool, if◌then◌else◌, arith, ℕ, ◌≡◌, ◌≢◌, refl, true, false, none, some, Option, List, [],
  ◌∷◌, All, Text, text,
}
use mock_services.Ftp.Path.{join_parts, resolve}
use mock_services.Ftp.Path.Parts.{IsPlain}
use mock_services.Ftp.Path.Resolving.{IsResolved, absolute, resolve-IsResolved, resolve-absolute}
use mock_services.Ftp.Listing.{Entry}
use mock_services.Ftp.Session.{closed, User, Server, Conn, new_client, add_user, write_permission}
use mock_services.Ftp.Commands.{System}
use mock_services.Net.{Setup, accepted}
use mock_services.Ftp.World.{
  World, initial, on_client, start, stop_begin, stop_end, accept_end, accept_round,
}
use mock_services.Ftp.World.Steps.{with_server, here, next, started, Reach, accepting, adding, line}
use mock_services.Ftp.World.Reach.{IsSafe, Reach-IsSafe}
use mock_services.Ftp.World.Loops.{client_loop-Reach}
use mock_services.Ftp.World.Stopping.{DropsAll, stop_closes}
use mock_services.Threads.Joining.{all_end}
use mock_services.Ftp.Dispatch.{run, stor, dispatch, client_loop}
use mock_services.Ftp.Commands.Guards.{changes_of, run-keeps_files}

abbrev name : Text
name = b'u' ∷ []

abbrev dir : Text
dir = b'd' ∷ []

plain : (c : ℕ) → (c ≢ b'/') → (c ≢ b'.') → IsPlain (c ∷ [])
unfolding text
plain c h k = record {
  some_text = λ e. cc;
  no_dot = λ e. k cc;
  no_dots = λ e. cc;
  no_slash = (h, tt);
}

abbrev no_file : Text → Option (List ℕ)
no_file path = none

abbrev no_entries : Text → Option (List Entry)
no_entries path = none

-- A system on which every call succeeds.
abbrev system : System
system = record {
  passive = some (9, some 5000);
  connects = some 8;
  entries = no_entries;
  local = λ timestamp. record { mon = 0; mday = 1; hour = 0; min = 0 };
  contents = no_file;
  can_create = λ path. true;
  received = 1 ∷ 2 ∷ [];
  can_unlink = λ path. true;
  can_make = λ path. true;
  can_remove = λ path. true;
}

abbrev account : User
account = record { name = name; pass = dir; root = dir; perm = 1; anon = false }

abbrev server : Server
server = record {
  ctrl = some 3;
  running = true;
  port = 2121;
  temp_root = b'/' ∷ b't' ∷ [];
  users = account ∷ [];
  conn_users = [];
  clients = 1 ∷ [];
  client_threads = [];
  effects = [];
}

-- A client that has sent USER, and one that is logged in and may only read.
abbrev named : Conn
named = record { client = record (new_client (some 4)) { user = name }; server = server }

abbrev reader : Conn
reader = record {
  client = record (new_client (some 4)) { user = name; auth = true; perm = 1 };
  server = server;
}

run-keeps_files_example : changes_of (run system stor dir reader) ≡ []
run-keeps_files_example = run-keeps_files system stor dir reader refl λ e. cc

resolve-IsResolved_example :
    IsResolved (b'/' ∷ b't' ∷ []) (resolve (b'/' ∷ b't' ∷ []) dir (b'.' ∷ b'.' ∷ []))
resolve-IsResolved_example = resolve-IsResolved (b'/' ∷ b't' ∷ []) dir (b'.' ∷ b'.' ∷ [])

dir-IsPlain : IsPlain dir
dir-IsPlain = plain b'd' (λ e. cc) (λ e. cc)

name-IsPlain : IsPlain name
name-IsPlain = plain b'u' (λ e. cc) (λ e. cc)

-- No byte of the text is a backslash.
abbrev Clean : Text → Type 0
Clean = All (λ (c : ℕ). c ≢ b'\\')

absolute-Clean : Clean (absolute (dir ∷ name ∷ dir ∷ []))
unfolding join_parts
absolute-Clean = (
  (λ e. omega arith),
  (
    (λ e. omega arith),
    ((λ e. omega arith), ((λ e. omega arith), ((λ e. omega arith), ((λ e. omega arith), tt)))),
  ),
)

resolve-absolute_example :
    resolve (absolute (dir ∷ [])) (join_parts []) (join_parts (name ∷ dir ∷ []))
    ≡ absolute (dir ∷ name ∷ dir ∷ [])
resolve-absolute_example =
    resolve-absolute (dir ∷ []) [] (name ∷ dir ∷ []) (dir-IsPlain, tt) (λ e. cc) tt
      (name-IsPlain, (dir-IsPlain, tt)) (λ e. cc) absolute-Clean

-- A line, and the beginning of another.
abbrev input : Text
input = b'n' ∷ b'\r' ∷ b'\n' ∷ b'q' ∷ []

abbrev setup : Setup
setup = record { socket = some 3; bound = true; name = some 2121; listening = true }

abbrev fresh : World
fresh = record { server = initial (b'/' ∷ b't' ∷ []); objects = λ id. new_client none }

abbrev begun : World
begun = with_server fresh (start setup fresh.server).1

abbrev joined : World
joined = accept_round 1 (accepted (some 7)) begun

-- An account is added, and the client logs in and stores a file.
abbrev with_account : World
with_account =
    with_server joined
      (record joined.server { users = add_user name dir [] write_permission joined.server.users })

abbrev typed : Text → World → World
typed bytes w = on_client 1 (dispatch system bytes) w

abbrev stored : World
stored = typed (text "STOR a") (typed (text "PASS d") (typed (text "USER u") with_account))

stored-Reach : Reach fresh stored
stored-Reach =
    let w₁ = with_account in
    let w₂ = typed (text "USER u") w₁ in
    let w₃ = typed (text "PASS d") w₂ in
    let begun_there = next here (started fresh setup) in
    let joined_there = next begun_there (accepting begun 1 (accepted (some 7))) in
    let added = next joined_there (adding joined name dir [] write_permission) in
    let named = next added (line w₁ 1 system (text "USER u")) in
    let logged_in = next named (line w₂ 1 system (text "PASS d")) in
    next logged_in (line w₃ 1 system (text "STOR a"))

Reach-IsSafe_example : IsSafe (b'/' ∷ b't' ∷ []) stored
Reach-IsSafe_example =
    Reach-IsSafe (b'/' ∷ b't' ∷ []) (λ id. new_client none) stored (λ id. refl) stored-Reach

abbrev running_world : World
running_world = record { server = server; objects = λ id. new_client (some 7) }

stop_closes_example :
    ((stop_begin running_world).server.running ≡ false)
    × DropsAll running_world.server.effects running_world (stop_begin running_world)
    × ((u : World)
        → ((accept_end u).server.ctrl ≡ none)
          × DropsAll
              (u.server.effects ++ (elim u.server.ctrl [ none ↦ [] | some k ↦ closed k ∷ [] ]))
              u
              (accept_end u))
    × ((u : World) (ends : ℕ → Bool)
        → stop_end ends u ≡ (
            if all_end ends u.server.client_threads
            then some (record u { server = record u.server { client_threads = [] } })
            else none))
stop_closes_example = stop_closes running_world refl

-- A command that is cut in two, and one behind it.
abbrev typed_bytes : List Text
typed_bytes =
    (b'N' ∷ b'O' ∷ []) ∷ (b'O' ∷ b'P' ∷ b'\r' ∷ b'\n' ∷ b'P' ∷ b'W' ∷ b'D' ∷ b'\n' ∷ []) ∷ []

client_loop-Reach_example :
    Reach running_world (on_client 1 (client_loop (λ k n. system) 1 typed_bytes) running_world)
client_loop-Reach_example = client_loop-Reach (λ k n. system) 1 typed_bytes running_world
