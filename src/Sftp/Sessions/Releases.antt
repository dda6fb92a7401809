-- ===== src/Sftp/Sessions/Releases.antt =====
-- What the thread of a session in src/sftp_server.cpp gives back at its end.
use mock_services.Base.{
  ℕ, ◌≡◌, refl, inl, inr, ◌∙◌, Bool, true, false, Option, Option-cases, none, some, List, [], ◌∷◌,
  nat_key, if◌then◌else◌,
}
use mock_services.Base.Dict.{find, erase, find-erase, key_refl}
use mock_services.Sftp.Messages.{Effect}
use mock_services.Sftp.Accounts.{Server, remove_session, log_activity, lookup_user}
use mock_services.Sftp.Sessions.{
  Packets, SftpSetup, Poll, Release, freed_sftp, freed_channel, freed_session, free_channel, End,
  leave, serve, start_sftp, remove_hs, process_sftp, do_callback_handshake,
  handle_session_after_auth,
}

abbrev pub channels : List Release → List ℕ
channels [] = []
channels (freed_channel chan ∷ releases) = chan ∷ channels releases
channels (freed_sftp sftp ∷ releases) = channels releases
channels (freed_session session ∷ releases) = channels releases

abbrev pub sftps : List Release → List ℕ
sftps [] = []
sftps (freed_sftp sftp ∷ releases) = sftp ∷ sftps releases
sftps (freed_channel chan ∷ releases) = sftps releases
sftps (freed_session session ∷ releases) = sftps releases

abbrev pub sessions : List Release → List ℕ
sessions [] = []
sessions (freed_session session ∷ releases) = session ∷ sessions releases
sessions (freed_channel chan ∷ releases) = sessions releases
sessions (freed_sftp sftp ∷ releases) = sessions releases

abbrev pub held : Option ℕ → List ℕ
held none = []
held (some x) = x ∷ []

-- Each of the three that was taken is given back once, and the server forgets the session.
abbrev pub GivesBack : ℕ → Option ℕ → Option ℕ → End → Type 0
GivesBack session chan sftp end =
    (channels end.releases ≡ held chan)
    × (sftps end.releases ≡ held sftp)
    × (sessions end.releases ≡ session ∷ [])
    × (find session end.server.session_users ≡ none)
    × (find session end.server.handshakes ≡ none)

pub find-erase_self {ℓ} :
    {V : Type ℓ} (session : ℕ) (m : List (ℕ × V)) → find session (erase session m) ≡ none
find-erase_self session m = find-erase session session m ∙ rw key_refl

pub forgotten :
    (session : ℕ) (s : Server)
    → (find session (remove_session session (remove_hs session s)).session_users ≡ none)
      × (find session (remove_session session (remove_hs session s)).handshakes ≡ none)
unfolding remove_session remove_hs
forgotten session s = elim (Option-cases (find session s.session_users)) [
  | inl e ↦ (
    rw (remove_session, remove_hs, e) e,
    rw (remove_session, remove_hs, e) (find-erase_self session s.handshakes),
  )
  | inr (user, e) ↦ (
    rw (remove_session, remove_hs, e) (find-erase_self session s.session_users),
    rw (remove_session, remove_hs, e) (find-erase_self session s.handshakes),
  )
]

-- What a session holds once the channel and the sftp session have been taken.
abbrev taken : Option ℕ → Option ℕ → List Release
taken none chan = free_channel chan
taken (some sftp) chan = freed_sftp sftp ∷ free_channel chan

leave_lem :
    (session : ℕ) (effects : List Effect) (chan sftp : Option ℕ) (s : Server)
    → GivesBack session chan sftp (leave session effects (taken sftp chan) s)
unfolding leave
leave_lem session effects none none s =
    let after = forgotten session s in (refl, refl, refl, after.0, after.1)
leave_lem session effects none (some x) s =
    let after = forgotten session s in (refl, refl, refl, after.0, after.1)
leave_lem session effects (some c) none s =
    let after = forgotten session s in (refl, refl, refl, after.0, after.1)
leave_lem session effects (some c) (some x) s =
    let after = forgotten session s in (refl, refl, refl, after.0, after.1)

-- Whether or not `sftp_server_init` fails, what was taken is given back.
start_sftp_lem :
    (session : ℕ) (chan : Option ℕ) (sftp : Option ℕ) (initialised : Bool) (polls : List Poll)
    (s : Server)
    → let setup : SftpSetup = record { sftp = sftp; initialised = initialised } in
      GivesBack session chan sftp (start_sftp session chan setup polls s)
unfolding start_sftp serve
start_sftp_lem session chan none initialised polls s = leave_lem session [] chan none s
start_sftp_lem session chan (some sftp) false polls s = leave_lem session [] chan (some sftp) s
start_sftp_lem session chan (some sftp) true polls s =
    let ctx = lookup_user session s in
    let effects = process_sftp ctx polls in
    leave_lem session effects chan (some sftp) (log_activity ctx.username effects s)

-- However the handshake, the set-up and the messages of a session go, its thread gives the channel
-- that the handshake left, the sftp session if one was made and the session back to libssh, each
-- exactly once, and the server keeps neither a user nor a handshake for it.
pub handle_session_after_auth-GivesBack :
    (session : ℕ) (rounds : List Packets) (setup : SftpSetup) (polls : List Poll) (s : Server)
    → let (accepted, chan, _) = do_callback_handshake session rounds s in
      GivesBack session chan
        (if accepted then setup.sftp else none)
        (handle_session_after_auth session rounds setup polls s)
unfolding handle_session_after_auth
handle_session_after_auth-GivesBack session rounds setup polls s =
    finish (do_callback_handshake session rounds s)
  where
    finish :
        (handshake : Bool × Option ℕ × Server)
        → GivesBack session handshake.1 (if handshake.0 then setup.sftp else none) (
            if handshake.0
            then start_sftp session handshake.1 setup polls handshake.2
            else leave session [] (free_channel handshake.1) handshake.2)
    finish (true, chan, s') = start_sftp_lem session chan setup.sftp setup.initialised polls s'
    finish (false, chan, s') = leave_lem session [] chan none s'
