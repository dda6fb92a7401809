-- ===== src/Mqtt/Lifecycle/Stopping.antt =====
-- What `stop` of src/mqtt_server.cpp does before, between and behind its two waits.
use mock_services.Base.{
  ◌≡◌, refl, sym, ◌∙◌, true, false, none, some, List, [], ◌∷◌, ◌++◌, append_assoc, append-nil, Text,
  ℕ, Bool, Bool-cases, inl, inr, if◌then◌else◌,
}
use mock_services.Base.Dict.{Dict}
use mock_services.Net.{RawSocket, Event, closed}
use mock_services.Threads.Joining.{all_end, join_all_lem}
use mock_services.Mqtt.Server.{Session, Server, emit, close_session}
use mock_services.Mqtt.Server.Sessions.{closing, close_session_events}
use mock_services.Mqtt.Lifecycle.{
  close_listener, close_sessions, stop_begin, stop_sessions, stop_end,
}

-- What happens to the sockets of all sessions, in the order of their keys.
abbrev pub all_closing : Dict Text Session → List Event
all_closing [] = []
all_closing ((client_id, session) ∷ sessions) = closing (some session) ++ all_closing sessions

abbrev pub listener_closing : RawSocket → List Event
listener_closing none = []
listener_closing (some sock) = closed sock ∷ []

close_sessions_events :
    (sessions : Dict Text Session) (s : Server)
    → (close_sessions sessions s).events ≡ s.events ++ all_closing sessions
unfolding close_sessions
close_sessions_events [] s = sym (append-nil s.events)
close_sessions_events ((client_id, session) ∷ sessions) s =
    close_sessions_events sessions (close_session session.sock s)
    ∙ rw (close_session_events session s)
        (append_assoc s.events (closing (some session)) (all_closing sessions))

close_listener_lem :
    (sock : RawSocket) (s : Server)
    → sock ≡ s.listen_sock
    → let s' = close_listener sock s in
      (s'.events ≡ s.events ++ listener_closing sock)
      × (s'.listen_sock ≡ none)
      × (s'.sessions ≡ s.sessions)
      × (s'.running ≡ s.running)
unfolding close_listener emit
close_listener_lem none s e = (sym (append-nil s.events), sym e, refl, refl)
close_listener_lem (some sock) s e = (refl, refl, refl, refl)

stop_end_lem :
    (t : Server) (ends : ℕ → Bool)
    → stop_end ends t
      ≡ (if all_end ends t.client_threads then some (record t { client_threads = [] }) else none)
unfolding stop_end
stop_end_lem t ends = elim (Bool-cases (all_end ends t.client_threads)) [
  | inl e ↦ rw (stop_end, join_all_lem ends t.client_threads, e) refl
  | inr e ↦ rw (stop_end, join_all_lem ends t.client_threads, e) refl
]

-- Of `stop` on a running server: before it waits for the acceptor, it has closed the socket that it
-- listens on, if there is one, and nothing else, and the server does not run and has no listener;
-- then, whatever has happened until then, it shuts down and closes the socket of every session, if
-- it has one, in the order of their identifiers, and empties the table; and the wait for the
-- handlers returns exactly where each of them ends, and then only the list of threads has changed,
-- which is empty. What the handlers do while it waits is not said here.
pub stop_closes_sessions :
    (s : Server)
    → s.running ≡ true
    → ((stop_begin s).events ≡ s.events ++ listener_closing s.listen_sock)
      × ((stop_begin s).listen_sock ≡ none)
      × ((stop_begin s).sessions ≡ s.sessions)
      × ((stop_begin s).running ≡ false)
      × ((t : Server)
          → ((stop_sessions t).events ≡ t.events ++ all_closing t.sessions)
            × ((stop_sessions t).sessions ≡ []))
      × ((t : Server) (ends : ℕ → Bool)
          → stop_end ends t ≡ (
              if all_end ends t.client_threads
              then some (record t { client_threads = [] })
              else none))
unfolding stop_begin stop_sessions
stop_closes_sessions s runs =
    let (events, no_listener, sessions, stopped) =
      close_listener_lem s.listen_sock (record s { running = false }) refl in
    (
      rw runs events,
      rw runs no_listener,
      rw runs sessions,
      rw runs stopped,
      λ t. (close_sessions_events t.sessions t, refl),
      stop_end_lem,
    )
