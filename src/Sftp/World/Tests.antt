-- ===== src/Sftp/World/Tests.antt =====
-- The theorems on the whole server of src/sftp_server.cpp at a concrete run.
use mock_services.Base.Dict.{find, assign}
use mock_services.Base.{
  text_eq, ℕ, ◌+◌, ◌≤◌, ◌≡◌, refl, true, false, some, none, List, [], ◌∷◌, All, text, nat_key,
  text_key,
}
use mock_services.Sftp.Tests.{
  name, root, system, msg, reading_user, packets, sftp_setup, answers, client_round,
}
use mock_services.Sftp.Messages.{can_write, can_read, Message, file}
use mock_services.Sftp.Accounts.{lookup_user, check_auth, has_account, log_activity, find_user}
use mock_services.Sftp.Accounts
use mock_services.Sftp.Handlers.{open_, close, handle_message}
use mock_services.Sftp.Handlers.Handles.{opens, drops, grants}
use mock_services.Sftp.Path.{
  resolve_path, resolve_existing, below, combined_path, normalize_separators, end_in_slash,
  drop_slashes, has_case_insensitive_prefix,
}
use mock_services.Sftp.Files.{sftp_do_open, open_at, grant_handle}
use mock_services.Sftp.World.Serving.{Follows}
use mock_services.Sftp.World.Stopping.{stop_returns}
use mock_services.Sftp.World.Forgetting.{threads-forget}
use mock_services.Sftp.World.Runs.{Matches, handle_session_after_auth_runs}
use mock_services.Sftp.Sessions.{
  auth_password, open_session, subsystem, on_callback, make_hs, update_hs, Poll, message,
  do_callback_handshake, handshake_loop, on_callbacks, handle_session_after_auth,
}
use mock_services.Sftp.Listener.{
  start, construct, accept_round, accept_session, ensure_bind, start_bound, ensure_hostkey,
  set_options, import_key, listen_on, finish_start,
}
use mock_services.Sftp.Listener.Ledger.{count}
use mock_services.Sftp.World.{
  end_serving, quit, World, begun, serving, Desk, on_server, accept, begin_handshake,
  poll_handshake, set_up, serve_message, add_user, stop_begin, absent,
}
use mock_services.Sftp.World.Steps.{
  started, round, called, shake_begun, polled, made_ready, served, left, user_added, nothing_named,
  closed, initial, Reach, here, next,
}
use mock_services.Sftp.World.Authorised.{IsAuthorised}
use mock_services.Sftp.World.Safe.{alive, tally, AreInside}
use mock_services.Sftp.World.Reaching.{log-IsAuthorised, sessions-settle, handles-settle}

abbrev listening : World
listening =
    let known = add_user reading_user (initial 1 2) in
    record known { core = (start answers known.core).1 }

abbrev joined : World
joined = accept client_round listening

abbrev greeted : World
greeted = begin_handshake 9 joined

abbrev logged_in : World
logged_in =
    let known = on_server (on_callback 9 (auth_password name name)) greeted in
    let joined_channel = on_server (on_callback 9 (open_session (some 4))) known in
    on_server (on_callback 9 (subsystem (text "sftp"))) joined_channel

abbrev ready : World
ready = poll_handshake 9 false none logged_in

abbrev idle : World
idle = set_up 9 (some 4) sftp_setup ready

abbrev open_msg : Message
open_msg = record msg { info = none }

abbrev desk : Desk
desk = record {
  chan = some 4;
  sftp = 5;
  ctx = record { username = name; root = root; perm = 1 };
  effects = [];
  handles = [];
}

abbrev busy : World
busy = serve_message 9 desk open_ system open_msg [] idle

to_joined : Reach (initial 1 2) joined
unfolding initial add_user start construct
to_joined =
    next (next (next here (user_added (initial 1 2) reading_user)) (started _ answers))
      (round _ client_round refl)

to_greeted : Reach (initial 1 2) greeted
unfolding accept begin_handshake accept_round initial add_user
to_greeted = next to_joined (shake_begun joined 9 refl)

to_ready : Reach (initial 1 2) ready
unfolding begin_handshake
to_ready =
    next
      (next
        (next (next to_greeted (called greeted 9 (auth_password name name) λ h. cc))
          (called _ 9 (open_session (some 4)) λ h. cc))
        (called _ 9 (subsystem (text "sftp")) λ h. cc))
      (polled logged_in 9 false none refl)

to_idle : Reach (initial 1 2) idle
unfolding poll_handshake begin_handshake make_hs on_callback on_callbacks update_hs check_auth
    has_account accept accept_round accept_session add_user Accounts.add_user initial start
    construct ensure_bind start_bound ensure_hostkey set_options import_key listen_on finish_start
    text text_eq find assign
to_idle = next to_ready (made_ready ready 9 (some 4) sftp_setup refl)

idle_desk : idle.phase 9 ≡ serving desk
unfolding set_up poll_handshake begin_handshake make_hs on_callback on_callbacks update_hs
    check_auth has_account accept accept_round accept_session add_user Accounts.add_user initial
    start construct ensure_bind start_bound ensure_hostkey set_options import_key listen_on
    finish_start lookup_user find_user text text_eq find assign
idle_desk = refl

to_busy : Reach (initial 1 2) busy
to_busy = next to_idle (served idle 9 desk open_ system open_msg [] idle_desk (nothing_named refl))

log-IsAuthorised_example : All (IsAuthorised busy.accounts) busy.log
log-IsAuthorised_example = log-IsAuthorised 1 2 to_busy

sessions-settle_example :
    (count 9 busy.core.new_sessions ≡ count 9 busy.core.freed_sessions + alive (busy.phase 9))
    × (alive (busy.phase 9) ≤ count 9 busy.core.session_threads)
sessions-settle_example = sessions-settle 1 2 to_busy 9

abbrev after : Desk
after = record desk {
  effects = handle_message open_ system desk.ctx open_msg;
  handles = grants (handle_message open_ system desk.ctx open_msg);
}

handles-settle_example :
    (tally (λ h. true) (opens after.effects)
      ≡ tally (λ h. true) (drops after.effects) + tally (λ h. true) after.handles)
    × AreInside root after.handles
unfolding serve_message
handles-settle_example = handles-settle 1 2 to_busy 9 after (λ h. true) refl

stop_returns_example :
    (t : World) × Reach (stop_begin busy) t
    × (t.core.session_threads ≡ [])
    × (t.core.bind ≡ none)
    × ((x : ℕ) → t.phase x ≡ absent)
    × ((x : ℕ) → count x busy.core.new_sessions ≡ count x t.core.freed_sessions)
    × (t.log ≡ busy.log)
stop_returns_example = stop_returns 1 2 (λ x. sftp_setup) to_busy

abbrev polls : List Poll
polls =
    message open_ system open_msg
    ∷ message close system (record msg { info = some (file (b'/' ∷ b'r' ∷ b'/' ∷ b'a' ∷ []) true) })
    ∷ []

follows : Follows desk.ctx [] polls
unfolding handle_message sftp_do_open open_at grant_handle resolve_path resolve_existing below
    combined_path normalize_separators end_in_slash drop_slashes has_case_insensitive_prefix
    can_write can_read
follows = (
  [],
  nothing_named refl,
  ([], closed (file (b'/' ∷ b'r' ∷ b'/' ∷ b'a' ∷ []) true) [] [] refl refl refl, tt),
)

session_ctx : lookup_user 9 (do_callback_handshake 9 packets joined.core.server).2 ≡ desk.ctx
unfolding do_callback_handshake handshake_loop make_hs on_callback on_callbacks update_hs check_auth
    has_account accept accept_round accept_session add_user Accounts.add_user initial start
    construct ensure_bind start_bound ensure_hostkey set_options import_key listen_on finish_start
    lookup_user find_user text text_eq find assign
session_ctx = refl

joined_begun : joined.phase 9 ≡ begun
unfolding accept
joined_begun = refl

handle_session_after_auth_runs_example :
    Matches 9 joined
      (lookup_user 9 (do_callback_handshake 9 packets joined.core.server).2).username
      (handle_session_after_auth 9 packets sftp_setup polls joined.core.server)
handle_session_after_auth_runs_example =
    handle_session_after_auth_runs 9 packets sftp_setup polls joined joined_begun
      (rw session_ctx follows)

abbrev gone : World
gone = end_serving 9 after busy

to_gone : Reach (initial 1 2) gone
unfolding serve_message
to_gone = next to_busy (left busy 9 after refl)

threads-forget_example :
    (find 9 gone.core.server.session_users ≡ none) × (find 9 gone.core.server.handshakes ≡ none)
unfolding end_serving quit
threads-forget_example = threads-forget 1 2 to_gone 9 refl
