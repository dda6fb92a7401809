-- ===== src/Sftp/Sessions/Effects.antt =====
-- What the thread of a session in src/sftp_server.cpp does to files and to the activity log.
use mock_services.Base.{
  ℕ, ◌≡◌, refl, inl, inr, ◌∙◌, sym, append-nil, Bool, true, false, Option, Option-cases, Bool-cases,
  text_key, nat_key, none, some, List, [], ◌∷◌, ◌++◌, any, any-append, All, Text, text, arith, ◌==◌,
  if_split,
}
use mock_services.Sftp.Messages.{Effect, can_write, Context}
use mock_services.Base.Dict.{find}
use mock_services.Sftp.Accounts.{
  Handshake, User, Server, lookup_user, find_user, log_activity, log_effects, check_auth,
  remove_session,
}
use mock_services.Sftp.Handlers.{handle_message}
use mock_services.Sftp.Handlers.Permissions.{is_change, handle_message-harmless}
use mock_services.Sftp.Sessions.{
  Packets, SftpSetup, Callback, auth_password, open_session, subsystem, Poll, poll_failed, nothing,
  no_message, message, End, make_hs, remove_hs, update_hs, Release, freed_sftp, free_channel,
  taken_channel, is_accepted, on_callback, on_callbacks, process_sftp, handshake_loop,
  do_callback_handshake, leave, serve, start_sftp, handle_session_after_auth,
}

process_sftp-harmless :
    (ctx : Context) (polls : List Poll)
    → can_write ctx.perm ≡ false
    → any is_change (process_sftp ctx polls) ≡ false
unfolding process_sftp
process_sftp-harmless ctx [] h = refl
process_sftp-harmless ctx (poll_failed ∷ polls) h = refl
process_sftp-harmless ctx (nothing true ∷ polls) h = process_sftp-harmless ctx polls h
process_sftp-harmless ctx (nothing false ∷ polls) h = refl
process_sftp-harmless ctx (no_message ∷ polls) h = refl
process_sftp-harmless ctx (message type os msg ∷ polls) h =
    any-append is_change (handle_message type os ctx msg) (process_sftp ctx polls)
    ∙ rw (handle_message-harmless os ctx msg h type) (process_sftp-harmless ctx polls h)

find_user-cannot_write :
    (name : Text) (users : List User) (u : User)
    → All (λ v. can_write v.perm ≡ false) users
    → find_user name users ≡ some u
    → can_write u.perm ≡ false
unfolding find_user
find_user-cannot_write name [] u h e = ground (arith, e)
find_user-cannot_write name (v ∷ users) u (h, k) e = elim (Bool-cases (v.name == name)) [
  | inl is ↦ let same : some v ≡ some u = rw is at e in ground (arith, h, same)
  | inr is ↦ find_user-cannot_write name users u k (rw is at e)
]

nothing_allowed : can_write 0 ≡ false
unfolding can_write
nothing_allowed = refl

lookup_user-cannot_write :
    (session : ℕ) (s : Server)
    → All (λ u. can_write u.perm ≡ false) s.users
    → can_write (lookup_user session s).perm ≡ false
unfolding lookup_user
lookup_user-cannot_write session s h = elim (Option-cases (find session s.session_users)) [
  | inl e ↦ rw (lookup_user, e) nothing_allowed
  | inr (name, e) ↦ elim (Option-cases (find_user name s.users)) [
    | inl e' ↦ rw (lookup_user, e, e') nothing_allowed
    | inr (u, e') ↦ rw (lookup_user, e, e') (find_user-cannot_write name s.users u h e')
  ]
]

-- The users, the log and the flag of the server are left alone.
abbrev pub Keeps : Server → Server → Type 0
Keeps s t = (t.users ≡ s.users) × (t.activity ≡ s.activity) × (t.running ≡ s.running)

Keeps-trans : (s t u : Server) → Keeps s t → Keeps t u → Keeps s u
Keeps-trans s t u (p, q, r) (p', q', r') = (p' ∙ p, q' ∙ q, r' ∙ r)

update_hs-Keeps :
    (session : ℕ) (f : Handshake → Handshake) (s : Server) → Keeps s (update_hs session f s)
unfolding update_hs
update_hs-Keeps session f s = ground arith

pub on_callback-Keeps :
    (session : ℕ) (callback : Callback) (s : Server) → Keeps s (on_callback session callback s)
unfolding on_callback check_auth
on_callback-Keeps session (auth_password user password) s = ground arith
on_callback-Keeps session (open_session none) s = (refl, refl, refl)
on_callback-Keeps session (open_session (some chan)) s = update_hs-Keeps session _ s
on_callback-Keeps session (subsystem name) s =
    if_split (Keeps s) (name == text "sftp") _ _ (λ e. update_hs-Keeps session _ s)
      (λ e. (refl, refl, refl))

pub on_callbacks-Keeps :
    (session : ℕ) (callbacks : List Callback) (s : Server)
    → Keeps s (on_callbacks session callbacks s)
unfolding on_callbacks
on_callbacks-Keeps session [] s = (refl, refl, refl)
on_callbacks-Keeps session (callback ∷ callbacks) s =
    let t = on_callback session callback s in
    Keeps-trans s t (on_callbacks session callbacks t) (on_callback-Keeps session callback s)
      (on_callbacks-Keeps session callbacks t)

pub make_hs-Keeps : (session : ℕ) (s : Server) → Keeps s (make_hs session s)
unfolding make_hs
make_hs-Keeps session s = ground arith

pub remove_session-Keeps : (session : ℕ) (s : Server) → Keeps s (remove_session session s)
unfolding remove_session
remove_session-Keeps session s = ground arith

handshake_loop-Keeps :
    (session : ℕ) (rounds : List Packets) (out_chan : Option ℕ) (s : Server)
    → Keeps s (handshake_loop session rounds out_chan s).2
unfolding handshake_loop
handshake_loop-Keeps session [] out_chan s = (refl, refl, refl)
handshake_loop-Keeps session (packets ∷ rounds) out_chan s =
    let s' = on_callbacks session packets.callbacks s in
    let called = on_callbacks-Keeps session packets.callbacks s in
    let chan = taken_channel out_chan (find session s'.handshakes) in
    let later =
      Keeps-trans s s' (handshake_loop session rounds chan s').2 called
        (handshake_loop-Keeps session rounds chan s') in
    if_split (λ (r : Bool × Option ℕ × Server). Keeps s r.2) packets.failed _ _ (λ e. called)
      λ e.
        if_split (λ (r : Bool × Option ℕ × Server). Keeps s r.2)
          (is_accepted chan (find session s'.handshakes)) _ _ (λ e. called) (λ e. later)

do_callback_handshake-Keeps :
    (session : ℕ) (rounds : List Packets) (s : Server)
    → Keeps s (do_callback_handshake session rounds s).2
unfolding do_callback_handshake
do_callback_handshake-Keeps session rounds s =
    Keeps-trans s (make_hs session s) (handshake_loop session rounds none (make_hs session s)).2
      (make_hs-Keeps session s) (handshake_loop-Keeps session rounds none (make_hs session s))

-- The log has grown by the effects, under the name that `s'` knows the session by, or there are none.
abbrev pub Logs : ℕ → Server → Server → End → Type 0
Logs session s s' end =
    end.server.activity ≡ s.activity ++ log_effects (lookup_user session s').username end.effects

leave-Logs :
    (session : ℕ) (name : Text) (effects : List Effect) (releases : List Release) (s t : Server)
    → t.activity ≡ s.activity ++ log_effects name effects
    → (leave session effects releases t).server.activity ≡ s.activity ++ log_effects name effects
unfolding leave remove_hs
leave-Logs session name effects releases s t h =
    (remove_session-Keeps session (remove_hs session t)).1 ∙ h

unserved-Logs :
    (session : ℕ) (name : Text) (releases : List Release) (s t : Server)
    → t.activity ≡ s.activity
    → (leave session [] releases t).server.activity ≡ s.activity ++ log_effects name []
unfolding log_effects
unserved-Logs session name releases s t h =
    leave-Logs session name [] releases s t (h ∙ sym (append-nil s.activity))

start_sftp-Logs :
    (session : ℕ) (chan sftp : Option ℕ) (initialised : Bool) (polls : List Poll) (s t : Server)
    → t.activity ≡ s.activity
    → let setup : SftpSetup = record { sftp = sftp; initialised = initialised } in
      Logs session s t (start_sftp session chan setup polls t)
unfolding start_sftp serve log_activity leave
start_sftp-Logs session chan none initialised polls s t h =
    unserved-Logs session (lookup_user session t).username (free_channel chan) s t h
start_sftp-Logs session chan (some sftp) false polls s t h =
    unserved-Logs session (lookup_user session t).username (freed_sftp sftp ∷ free_channel chan) s t
      h
start_sftp-Logs session chan (some sftp) true polls s t h =
    let ctx = lookup_user session t in
    let effects = process_sftp ctx polls in
    leave-Logs session ctx.username effects (freed_sftp sftp ∷ free_channel chan) s
      (log_activity ctx.username effects t) (rw h refl)

start_sftp-harmless :
    (session : ℕ) (chan sftp : Option ℕ) (initialised : Bool) (polls : List Poll) (s : Server)
    → can_write (lookup_user session s).perm ≡ false
    → let setup : SftpSetup = record { sftp = sftp; initialised = initialised } in
      any is_change (start_sftp session chan setup polls s).effects ≡ false
unfolding start_sftp serve leave
start_sftp-harmless session chan none initialised polls s h = refl
start_sftp-harmless session chan (some sftp) false polls s h = refl
start_sftp-harmless session chan (some sftp) true polls s h =
    process_sftp-harmless (lookup_user session s) polls h

-- However a session goes, the activity log afterwards is the log before it followed by what the
-- session did for its client, in that order and all of it under the one name that the handshake
-- left for the session.
pub handle_session_after_auth-Logs :
    (session : ℕ) (rounds : List Packets) (setup : SftpSetup) (polls : List Poll) (s : Server)
    → Logs session s
        (do_callback_handshake session rounds s).2
        (handle_session_after_auth session rounds setup polls s)
unfolding handle_session_after_auth leave
handle_session_after_auth-Logs session rounds setup polls s =
    let (accepted, chan, t) = do_callback_handshake session rounds s in
    let kept = (do_callback_handshake-Keeps session rounds s).1 in
    if_split (Logs session s t) accepted _ _
      (λ e. start_sftp-Logs session chan setup.sftp setup.initialised polls s t kept)
      (λ e. unserved-Logs session (lookup_user session t).username (free_channel chan) s t kept)

-- On a server whose accounts all lack the permission to write, a session changes nothing on the
-- file system, whatever passwords, channels and messages its client sends and whatever libssh and
-- the system answer.
pub handle_session_after_auth-harmless :
    (session : ℕ) (rounds : List Packets) (setup : SftpSetup) (polls : List Poll) (s : Server)
    → All (λ u. can_write u.perm ≡ false) s.users
    → any is_change (handle_session_after_auth session rounds setup polls s).effects ≡ false
unfolding handle_session_after_auth leave
handle_session_after_auth-harmless session rounds setup polls s h =
    let (accepted, chan, t) = do_callback_handshake session rounds s in
    let kept = (do_callback_handshake-Keeps session rounds s).0 in
    let refused = lookup_user-cannot_write session t ((rw kept h)) in
    if_split (λ (end : End). any is_change end.effects ≡ false) accepted _ _
      (λ e. start_sftp-harmless session chan setup.sftp setup.initialised polls t refused)
      (λ e. refl)
