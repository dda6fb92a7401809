-- ===== src/Sftp/Tests.antt =====
-- The theorems on src/sftp_server.cpp and src/sftp_handlers.cpp at concrete messages.
use mock_services.Base.{
  ◌≡◌, ◌≢◌, ◌↔◌, refl, true, false, none, some, Option, List, text, [], ◌∷◌, any, Text, text_key,
  if◌then◌else◌,
}
use mock_services.Sftp.Path.{
  has_case_insensitive_prefix, normalize_separators, combined_path, resolve_existing, resolve_path,
}
use mock_services.Sftp.Path.Confined.{IsBelow, resolve_path_iff}
use mock_services.Sftp.Accounts.{User, Server}
use mock_services.Sftp.Messages.{System, Context, Message, Stat, file, can_write}
use mock_services.Sftp.Handlers.{handle_message, write, open_, close, mkdir}
use mock_services.Sftp.Handlers.Logging.{LogsChanges, handle_message-LogsChanges}
use mock_services.Sftp.Handlers.Kinds.{
  may_change, may_escape, handle_message-changes_nothing, handle_message-keeps_prefix,
}
use mock_services.Sftp.Handlers.Handles.{Settles, closing, handle_message-Settles}
use mock_services.Sftp.Handlers.Replies.{replies, handle_message-replies}
use mock_services.Sftp.Sessions.{
  Packets, auth_password, open_session, subsystem, SftpSetup, Poll, message, do_callback_handshake,
  handle_session_after_auth,
}
use mock_services.Sftp.Sessions.Releases.{GivesBack, handle_session_after_auth-GivesBack}
use mock_services.Sftp.Sessions.Effects.{Logs, handle_session_after_auth-Logs}
use mock_services.Sftp.Listener.{
  World, Answers, Round, Job, construct, start, start_bound, set_options, import_key, listen_on,
  finish_start, ensure_bind, ensure_hostkey, accept_round, destroy,
}
use mock_services.Sftp.Listener.Ledger.{count}
use mock_services.Sftp.Listener.Lifetime.{constructed, started, round, destroy-frees}

abbrev pub root : Text
root = b'/' ∷ b'r' ∷ []

abbrev pub name : Text
name = b'a' ∷ []

-- Every path exists and is its own canonical form.
abbrev realpath : Text → Option Text
realpath path = some path

abbrev no_stat : Text → Option Stat
no_stat path = none

abbrev pub system : System
system = record {
  realpath = realpath;
  can_open = λ path mode. true;
  can_seek = λ offset. true;
  contents = λ offset len. 1 ∷ [];
  accepted = λ len. len;
  can_list = λ path. true;
  entries = name ∷ [];
  stat = no_stat;
  can_calloc = true;
  can_alloc = true;
  can_reply = true;
  can_make = λ path. true;
  can_remove = λ path. true;
  can_unlink = λ path. true;
  can_rename = λ from to. true;
}

abbrev reader : Context
reader = record { username = name; root = root; perm = 1 }

abbrev pub msg : Message
msg = record {
  filename = name;
  flags = 1;
  info = some (file root true);
  offset = 0;
  len = 10;
  data_ = 1 ∷ 2 ∷ [];
  submessage = none;
  str_data = none;
}

handle_message-changes_nothing_example :
    any may_change (handle_message write system reader msg) ≡ false
unfolding can_write
handle_message-changes_nothing_example =
    handle_message-changes_nothing system reader msg write refl refl

handle_message-replies_example : replies (handle_message write system reader msg) ≡ 1
handle_message-replies_example = handle_message-replies system reader msg refl write refl

resolve_path_iff_example :
    (resolve_path realpath root name true ≡ b'/' ∷ b'r' ∷ b'/' ∷ b'a' ∷ []) ↔ (
      (root ≢ [])
      × (resolve_existing realpath (combined_path root name) true
          ≡ some (b'/' ∷ b'r' ∷ b'/' ∷ b'a' ∷ []))
      × IsBelow (normalize_separators root) (normalize_separators (b'/' ∷ b'r' ∷ b'/' ∷ b'a' ∷ [])))
resolve_path_iff_example =
    resolve_path_iff realpath root name (b'/' ∷ b'r' ∷ b'/' ∷ b'a' ∷ []) true λ e. cc

abbrev account : User
account = record { name = name; pass = 1 ∷ []; root = root; perm = 3 }

abbrev server : Server
server = record {
  running = true;
  port = 22;
  users = account ∷ [];
  activity = [];
  conn_users = [];
  session_users = [];
  handshakes = [];
}

abbrev pub reading_user : User
reading_user = record { name = name; pass = name; root = root; perm = 1 }

abbrev serving : Server
serving = record {
  running = true;
  port = 22;
  users = reading_user ∷ [];
  activity = [];
  conn_users = [];
  session_users = [];
  handshakes = [];
}

-- A login, a channel, the subsystem, and a file that is opened.
abbrev pub packets : List Packets
packets =
    record {
      callbacks = auth_password name name ∷ open_session (some 4) ∷ subsystem (text "sftp") ∷ [];
      failed = false;
    }
    ∷ []

abbrev pub sftp_setup : SftpSetup
sftp_setup = record { sftp = some 5; initialised = true }

abbrev polls : List Poll
polls = message open_ system msg ∷ message write system msg ∷ []

handle_session_after_auth-GivesBack_example :
    let (accepted, chan, _) = do_callback_handshake 9 packets serving in
    GivesBack 9 chan
      (if accepted then some 5 else none)
      (handle_session_after_auth 9 packets sftp_setup polls serving)
handle_session_after_auth-GivesBack_example =
    handle_session_after_auth-GivesBack 9 packets sftp_setup polls serving

handle_session_after_auth-Logs_example :
    Logs 9 serving
      (do_callback_handshake 9 packets serving).2
      (handle_session_after_auth 9 packets sftp_setup polls serving)
handle_session_after_auth-Logs_example =
    handle_session_after_auth-Logs 9 packets sftp_setup polls serving

abbrev pub answers : Answers
answers = record {
  new_bind = none;
  new_key = none;
  address_set = true;
  port_set = true;
  key_set = true;
  listening = true;
  name = some 2222;
}

abbrev pub client_round : Round
client_round = record {
  session = some 9;
  accepted = true;
  running = true;
  callbacks = [];
  exchanged = true;
}

abbrev listening_world : World
listening_world = (start answers (construct 1 2)).1

abbrev visited : World
visited = (accept_round client_round listening_world).0

abbrev job : Job
job = record { packets = packets; setup = sftp_setup; polls = polls }

listens : listening_world.server.running ≡ true
unfolding start construct start_bound set_options import_key listen_on finish_start ensure_bind
    ensure_hostkey
listens = refl

destroy-frees_example :
    let w = destroy [] (λ session. job) visited in
    (w.new_binds ≡ w.freed_binds)
    × (w.new_keys ≡ w.given_keys)
    × (count 9 w.new_sessions ≡ count 9 w.freed_sessions)
destroy-frees_example =
    destroy-frees visited [] (λ session. job) 9
      (round client_round (started answers (constructed 1 2)) listens)

handle_message-LogsChanges_example :
    LogsChanges system reader msg (handle_message mkdir system reader msg)
handle_message-LogsChanges_example = handle_message-LogsChanges system reader msg mkdir refl

handle_message-keeps_prefix_example :
    any (may_escape root) (handle_message write system reader msg) ≡ false
unfolding normalize_separators has_case_insensitive_prefix
handle_message-keeps_prefix_example = handle_message-keeps_prefix system reader msg write refl refl

handle_message-Settles_example :
    Settles (closing close (some (file root true))) (handle_message close system reader msg)
handle_message-Settles_example = handle_message-Settles system reader msg close
