-- ===== src/Mqtt/Server/Sessions.antt =====
-- The session table of src/mqtt_server.cpp.
use mock_services.Base.{
  ℕ, ◌≡◌, refl, ◌∙◌, inl, inr, Option-cases, Option, none, some, List, [], ◌∷◌, ◌++◌, append_assoc,
  append-nil, arith, Text, text_key, text_eq_iff, if◌then◌else◌, ◌==◌,
}
use mock_services.Base.Dict.{key_refl, find, find-erase}
use mock_services.Net.{Event, shut, closed}
use mock_services.Mqtt.Server.{Session, Server, close_session, remove_session, finish}

-- What happens to the socket of a session that is found.
abbrev pub closing : Option Session → List Event
closing none = []
closing (some session) = elim session.sock [ none ↦ [] | some j ↦ shut j ∷ closed j ∷ [] ]

pub close_session_events :
    (session : Session) (s : Server)
    → (close_session session.sock s).events ≡ s.events ++ closing (some session)
unfolding close_session
close_session_events session s = elim (Option-cases session.sock) [
  | inl e ↦ rw (e, append-nil) refl
  | inr (j, e) ↦ rw e (append_assoc s.events (shut j ∷ []) (closed j ∷ []))
]

-- Removing a session takes that key out of the table and leaves every other session; where the
-- session had a socket, it is shut down and closed, and nothing else happens to any socket.
pub remove_session_lem :
    (client_id other : Text) (s : Server)
    → (find other (remove_session client_id s).sessions
        ≡ (if client_id == other then none else find other s.sessions))
      × ((remove_session client_id s).events ≡ s.events ++ closing (find client_id s.sessions))
unfolding remove_session close_session
remove_session_lem client_id other s = elim (Option-cases (find client_id s.sessions)) [
  | inl e ↦ (ground (arith, text_eq_iff client_id other), rw (remove_session, e, append-nil) refl)
  | inr (session, e) ↦ (
    rw (e, remove_session) (find-erase client_id other s.sessions),
    rw (e, remove_session) (close_session_events session s),
  )
]

-- Where the session table holds a session with a socket for the identifier, the end of a handler
-- shuts down and closes that socket, whoever put it there, and then closes the handler's own; the
-- identifier has no session then.
pub finish_events :
    (sock j : ℕ) (client_id : Text) (session : Session) (s : Server)
    → find client_id s.sessions ≡ some session
    → session.sock ≡ some j
    → ((finish sock client_id s).events ≡ s.events ++ (shut j ∷ closed j ∷ closed sock ∷ []))
      × (find client_id (finish sock client_id s).sessions ≡ none)
unfolding finish remove_session close_session
finish_events sock j client_id session s e e' =
    rw (e, remove_session, e', close_session)
      (simp append_assoc, find-erase client_id client_id s.sessions ∙ rw key_refl)
