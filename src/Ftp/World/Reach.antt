-- ===== src/Ftp/World/Reach.antt =====
-- What holds of every run of src/ftp_server.cpp.
use mock_services.Threads.{ThreadGroup, join_all}
use mathlib.Core.Option.{some-injective}
use mock_services.Base.{
  ℕ, ◌≡◌, refl, Bool, false, Option, none, some, List, [], ◌∷◌, ◌++◌, nat_eq, All, All-append, Text,
  text, if◌then◌else◌, if_split, sym,
}
use mock_services.Net.{RawSocket, Ready, select_failed, idle, accepted, Setup}
use mock_services.Ftp.Session.{
  Client, Server, Conn, new_client, closed, close_client, end_session, clear_users,
}
use mock_services.Ftp.Dispatch.{dispatch}
use mock_services.Ftp.World.{
  World, initial, on_client, add_effect, start, accept_client, accept_round, close_clients,
  drop_clients, close_ctrl, accept_end, stop_begin, stop_end, give_up, listen_on, start_on,
}
use mock_services.Ftp.World.Steps.{
  with_server, Step, started, accepting, accept_ended, line, ended, stopping, stopped, adding,
  adding_anonymous, clearing, Reach, here, next,
}
use mock_services.Ftp.World.Confined.{IsConfined, ClientWithin, EffectWithin, send-IsConfined}
use mock_services.Ftp.World.Runs.{
  close_client-IsConfined, dispatch-IsConfined, end_session-IsConfined,
}

-- Everything that a server did to files is within its temporary root, and so is the root of every
-- client that is logged in.
pub record IsSafe (root : Text) (w : World) : Type 0 where
  pub root_kept : w.server.temp_root ≡ root
  pub objects_within : (id : ℕ) → ClientWithin root (w.objects id)
  pub effects_within : All (EffectWithin root) w.server.effects

module _ (root : Text) where
  on_client-IsSafe :
      (id : ℕ) (f : Conn → Conn) (w : World)
      → ((c : Conn) → IsConfined root c → IsConfined root (f c))
      → IsSafe root w
      → IsSafe root (on_client id f w)
  on_client-IsSafe id f w keep h =
      let c : Conn = record { client = w.objects id; server = w.server } in
      let k = keep c (record {
        root_kept = h.root_kept;
        client_within = h.objects_within id;
        effects_within = h.effects_within;
      }) in
      record {
        root_kept = k.root_kept;
        objects_within = λ other.
            if_split (ClientWithin root) (nat_eq other id) (f c).client (w.objects other)
              (λ _. k.client_within) (λ _. h.objects_within other);
        effects_within = k.effects_within;
      }

  -- A change of the server that keeps its root and whose effects stay within it.
  with_server-IsSafe :
      (w : World) (server : Server)
      → server.temp_root ≡ root
      → All (EffectWithin root) server.effects
      → IsSafe root w
      → IsSafe root (with_server w server)
  with_server-IsSafe w server e within h = record {
    root_kept = e;
    objects_within = h.objects_within;
    effects_within = within;
  }

  closed_too :
      (sock : ℕ) (s : Server)
      → All (EffectWithin root) s.effects
      → All (EffectWithin root) (add_effect (closed sock) s).effects
  unfolding add_effect
  closed_too sock s h = All-append (EffectWithin root) s.effects (closed sock ∷ []) h (tt, tt)

  close_clients-IsSafe :
      (ids : List ℕ) (w : World) → IsSafe root w → IsSafe root (close_clients ids w)
  unfolding close_clients
  close_clients-IsSafe [] w h = h
  close_clients-IsSafe (id ∷ ids) w h =
      close_clients-IsSafe ids _
        (on_client-IsSafe id close_client w (λ c k. close_client-IsConfined c k) h)

  drop_clients-IsSafe : (w : World) → IsSafe root w → IsSafe root (drop_clients w)
  unfolding drop_clients
  drop_clients-IsSafe w h =
      let k = close_clients-IsSafe w.server.clients w h in
      with_server-IsSafe _ _ k.root_kept k.effects_within k

  closing-IsSafe :
      (sock : RawSocket) (w : World)
      → IsSafe root w
      → IsSafe root (with_server w (close_ctrl sock w.server))
  unfolding close_ctrl add_effect
  closing-IsSafe none w h = h
  closing-IsSafe (some sock) w h =
      with_server-IsSafe w _ h.root_kept (closed_too sock w.server h.effects_within) h

  give_up-IsSafe :
      (sock : ℕ) (s : Server) (w : World)
      → s.temp_root ≡ root
      → All (EffectWithin root) s.effects
      → IsSafe root w
      → IsSafe root (with_server w (give_up sock s).1)
  unfolding add_effect
  give_up-IsSafe sock s w e k h = with_server-IsSafe w _ e (closed_too sock s k) h

  -- What a call of `start` may do to the server.
  abbrev StartSafe : World → Bool × Server → Type 0
  StartSafe w outcome = IsSafe root (with_server w outcome.1)

  listen_on-IsSafe :
      (os : Setup) (sock : ℕ) (name : Option ℕ) (w : World)
      → IsSafe root w
      → StartSafe w (listen_on os sock name w.server)
  unfolding listen_on
  listen_on-IsSafe os sock none w h = give_up-IsSafe sock w.server w h.root_kept h.effects_within h
  listen_on-IsSafe os sock (some port) w h =
      if_split (StartSafe w) os.listening _ _
        (λ _. with_server-IsSafe w _ h.root_kept h.effects_within h)
        (λ _. give_up-IsSafe sock _ w h.root_kept h.effects_within h)

  start_on-IsSafe :
      (os : Setup) (sock : RawSocket) (w : World)
      → IsSafe root w
      → StartSafe w (start_on os sock w.server)
  unfolding start_on
  start_on-IsSafe os none w h = with_server-IsSafe w _ h.root_kept h.effects_within h
  start_on-IsSafe os (some sock) w h =
      if_split (StartSafe w) os.bound _ _ (λ _. listen_on-IsSafe os sock os.name w h)
        (λ _. give_up-IsSafe sock w.server w h.root_kept h.effects_within h)

  start-IsSafe : (os : Setup) (w : World) → IsSafe root w → StartSafe w (start os w.server)
  unfolding start
  start-IsSafe os w h =
      if_split (StartSafe w) w.server.running _ _ (λ _. h) (λ _. start_on-IsSafe os os.socket w h)

  add_object-IsSafe :
      (id sock : ℕ) (w : World)
      → IsSafe root w
      → IsSafe root (record {
        server = record w.server { clients = w.server.clients ++ (id ∷ []) };
        objects = λ other. if nat_eq other id then new_client (some sock) else w.objects other;
      })
  add_object-IsSafe id sock w h = record {
    root_kept = h.root_kept;
    objects_within = λ other.
        if_split (ClientWithin root) (nat_eq other id) (new_client (some sock)) (w.objects other)
          (λ _ q. cc) (λ _. h.objects_within other);
    effects_within = h.effects_within;
  }

  accept-IsSafe :
      (id : ℕ) (ready : Ready) (w : World) → IsSafe root w → IsSafe root (accept_round id ready w)
  unfolding accept_round accept_client
  accept-IsSafe id select_failed w h = h
  accept-IsSafe id idle w h = h
  accept-IsSafe id (accepted none) w h = h
  accept-IsSafe id (accepted (some sock)) w h =
      let known = add_object-IsSafe id sock w h in
      let greeted =
        on_client-IsSafe id _ _
          (λ c k. send-IsConfined (some sock) (text "220 FTP Mock Server ready\r\n") c k) known in
      with_server-IsSafe _ _ greeted.root_kept greeted.effects_within greeted

  accept_end-IsSafe : (w : World) → IsSafe root w → IsSafe root (accept_end w)
  unfolding accept_end
  accept_end-IsSafe w h = drop_clients-IsSafe _ (closing-IsSafe w.server.ctrl w h)

  stop_end-IsSafe :
      (ends : ℕ → Bool) (w t : World) → stop_end ends w ≡ some t → IsSafe root w → IsSafe root t
  unfolding stop_end
  stop_end-IsSafe ends w t e h = go (join_all ends w.server.client_threads) e
    where
      go :
          (joined : Option (List ℕ × ThreadGroup))
          → (elim joined [
            | none ↦ none
            | some (_, kept) ↦
                some (record w { server = record w.server { client_threads = kept } })
          ])
            ≡ some t
          → IsSafe root t
      go none e = cc
      go (some (threads, kept)) e =
          rw (sym (some-injective _ _ e)) (with_server-IsSafe w _ h.root_kept h.effects_within h)

  Step-IsSafe : {w w' : World} → Step w w' → IsSafe root w → IsSafe root w'
  unfolding stop_begin stop_end clear_users
  Step-IsSafe (started w os) h = start-IsSafe os w h
  Step-IsSafe (accepting w id ready) h = accept-IsSafe id ready w h
  Step-IsSafe (accept_ended w) h = accept_end-IsSafe w h
  Step-IsSafe (line w id os bytes) h =
      on_client-IsSafe id (dispatch os bytes) w (λ c k. dispatch-IsConfined os bytes c k) h
  Step-IsSafe (ended w id) h =
      on_client-IsSafe id (end_session id) w (λ c k. end_session-IsConfined id c k) h
  Step-IsSafe (stopping w) h =
      if_split (IsSafe root) w.server.running _ w
        (λ e. drop_clients-IsSafe _ (with_server-IsSafe w _ h.root_kept h.effects_within h))
        (λ e. h)
  Step-IsSafe (stopped {w} ends e) h = stop_end-IsSafe ends w _ e h
  Step-IsSafe (adding w name pass root perm) h =
      with_server-IsSafe w _ h.root_kept h.effects_within h
  Step-IsSafe (adding_anonymous w root perm) h =
      with_server-IsSafe w _ h.root_kept h.effects_within h
  Step-IsSafe (clearing w) h = with_server-IsSafe w _ h.root_kept h.effects_within h

  Reach-keeps_IsSafe : {w w' : World} → Reach w w' → IsSafe root w → IsSafe root w'
  Reach-keeps_IsSafe here h = h
  Reach-keeps_IsSafe (next r step) h = Step-IsSafe step (Reach-keeps_IsSafe r h)

-- Whatever the clients send, however their sessions are interleaved and whatever the system
-- answers, a new server touches no file whose path does not begin with its temporary root, and no
-- client is ever logged in to a root that does not; backslashes are read as slashes.
pub Reach-IsSafe :
    (root : Text) (objects : ℕ → Client) (w : World)
    → ((id : ℕ) → (objects id).auth ≡ false)
    → Reach (record { server = initial root; objects = objects }) w
    → IsSafe root w
Reach-IsSafe root objects w fresh r =
    Reach-keeps_IsSafe root r
      (record { root_kept = refl; objects_within = λ id e. cc (fresh id); effects_within = tt })
