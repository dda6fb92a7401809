-- ===== src/Ftp/World/Stopping.antt =====
-- What `stop` of src/ftp_server.cpp does, and the end of the acceptor that it waits for.
use mock_services.Base.{
  ℕ, ◌≡◌, refl, sym, ◌∙◌, ◌⊎◌, inl, inr, true, false, Bool-cases, none, some, List, [], ◌∷◌, ◌++◌,
  arith, nat_eq, nat_eq_iff, Text, ap, All, Bool, Option-cases, append_assoc, append-nil,
  if◌then◌else◌,
}
use mock_services.Net.{RawSocket}
use mock_services.Threads.Joining.{all_end, join_all_lem}
use mathlib.Core.Option.{some-injective}
use mock_services.Ftp.Session.{
  Effect, shut, closed, Server, Conn, ftp_send, has_client, close_data, close_pasv, close_control,
  close_client,
}
use mock_services.Ftp.World.{
  World, on_client, add_effect, close_clients, drop_clients, close_ctrl, accept_end, stop_begin,
  stop_end,
}

-- What an operation on one client leaves as it is.
abbrev pub SameServer : Server → Server → Type 0
SameServer s t = (s.ctrl ≡ t.ctrl) × (s.running ≡ t.running)

send-SameServer :
    (sock : RawSocket) (msg : Text) (c : Conn) → SameServer (ftp_send sock msg c).server c.server
unfolding ftp_send
send-SameServer none msg c = (refl, refl)
send-SameServer (some sock) msg c = (refl, refl)

close_client-SameServer : (c : Conn) → SameServer (close_client c).server c.server
unfolding close_client close_pasv close_data close_control
close_client-SameServer c = ground arith

close_client_sock : (c : Conn) → (close_client c).client.sock ≡ none
unfolding close_client close_pasv close_data close_control
close_client_sock c = ground arith

close_first :
    (other id : ℕ) (ids : List ℕ) (w : World)
    → (has_client id (other ∷ ids) ≡ true) ⊎ ((w.objects id).sock ≡ none)
    → (has_client id ids ≡ true) ⊎ (((on_client other close_client w).objects id).sock ≡ none)
close_first other id ids w h =
    let c : Conn = record { client = w.objects other; server = w.server } in
    elim (Bool-cases (nat_eq id other)) [
      | inl same ↦ inr (rw same (close_client_sock c))
      | inr differs ↦ elim h [
        | inl listed ↦ inl (ground arith)
        | inr shut_before ↦ inr (rw differs shut_before)
      ]
    ]

-- Closing clients closes those of the list, and leaves closed what was closed.
close_clients_sock :
    (ids : List ℕ) (w : World) (id : ℕ)
    → (has_client id ids ≡ true) ⊎ ((w.objects id).sock ≡ none)
    → ((close_clients ids w).objects id).sock ≡ none
unfolding close_clients
close_clients_sock [] w id (inl listed) = cc
close_clients_sock [] w id (inr shut_before) = shut_before
close_clients_sock (other ∷ ids) w id h =
    close_clients_sock ids (on_client other close_client w) id (close_first other id ids w h)

close_clients-SameServer :
    (ids : List ℕ) (w : World) → SameServer (close_clients ids w).server w.server
unfolding close_clients
close_clients-SameServer [] w = (refl, refl)
close_clients-SameServer (id ∷ ids) w =
    let c : Conn = record { client = w.objects id; server = w.server } in
    let (e, k) = close_clients-SameServer ids (on_client id close_client w) in
    let (e', k') = close_client-SameServer c in (e ∙ e', k ∙ k')

close_ctrl_lem :
    (sock : RawSocket) (s : Server)
    → sock ≡ s.ctrl
    → ((close_ctrl sock s).ctrl ≡ none)
      × ((close_ctrl sock s).running ≡ s.running)
      × ((close_ctrl sock s).clients ≡ s.clients)
unfolding close_ctrl add_effect
close_ctrl_lem none s e = (sym e, refl, refl)
close_ctrl_lem (some sock) s e = (refl, refl, refl)

-- The socket is shut down and closed.
abbrev pub ShutIn : ℕ → List Effect → Type 0
ShutIn sock es = (xs ys : List Effect) × (es ≡ xs ++ (shut sock ∷ closed sock ∷ ys))

ShutIn-after :
    (sock : ℕ) (front back : List Effect) → ShutIn sock back → ShutIn sock (front ++ back)
ShutIn-after sock front back (xs, ys, e) =
    (front ++ xs, ys, rw e (sym (append_assoc front xs (shut sock ∷ closed sock ∷ ys))))

ShutIn-before :
    (sock : ℕ) (front back : List Effect) → ShutIn sock front → ShutIn sock (front ++ back)
ShutIn-before sock front back (xs, ys, e) =
    (xs, ys ++ back, rw e (append_assoc xs (shut sock ∷ closed sock ∷ ys) back))

-- What closing one client does, with its socket for commands and the one for data.
abbrev CloseSteps : RawSocket → Conn → Conn → Type 0
CloseSteps sock c d =
    (es : List Effect) × (d.server.effects ≡ c.server.effects ++ es)
    × ((k : ℕ) → sock ≡ some k → ShutIn k es)

close_client-CloseSteps : (c : Conn) → CloseSteps c.client.sock c (close_client c)
unfolding close_client close_pasv close_control close_data
close_client-CloseSteps c = elim (Option-cases c.client.sock) [
  | inl e ↦ elim (Option-cases c.client.data_sock) [
    | inl k ↦ rw (e, k) ([], sym (append-nil _), λ j h. cc)
    | inr (d, k) ↦ rw (e, k) (closed d ∷ [], refl, λ j h. cc)
  ]
  | inr (i, e) ↦ elim (Option-cases c.client.data_sock) [
    | inl k ↦
        rw (e, k)
          (
            shut i ∷ closed i ∷ [],
            append_assoc c.server.effects (shut i ∷ []) (closed i ∷ []),
            λ j h. ([], [], rw (some-injective i j h) refl),
          )
    | inr (d, k) ↦
        rw (e, k)
          (
            shut i ∷ closed i ∷ closed d ∷ [],
            append_assoc (c.server.effects ++ (shut i ∷ [])) (closed i ∷ []) (closed d ∷ [])
                ∙ append_assoc c.server.effects (shut i ∷ []) (closed i ∷ closed d ∷ []),
            λ j h. ([], closed d ∷ [], rw (some-injective i j h) refl),
          )
  ]
]

-- The same as `DropsAll` below, for one client at a time.
abbrev ClosesAll : List ℕ → List Effect → World → World → Type 0
ClosesAll ids before w t =
    (es : List Effect) × (t.server.effects ≡ before ++ es)
    × ((id sock : ℕ)
        → has_client id ids ≡ true
        → (w.objects id).sock ≡ some sock
        → ((t.objects id).sock ≡ none) × ShutIn sock es)

close_clients-ClosesAll :
    (ids : List ℕ) (w : World) → ClosesAll ids w.server.effects w (close_clients ids w)
unfolding close_clients
close_clients-ClosesAll [] w = ([], sym (append-nil _), λ id sock listed has. cc)
close_clients-ClosesAll (other ∷ ids) w =
    let c : Conn = record { client = w.objects other; server = w.server } in
    let (es, e, first) = close_client-CloseSteps c in
    let (later, k, rest) = close_clients-ClosesAll ids (on_client other close_client w) in
    (
      es ++ later,
      k ∙ ap (λ xs. xs ++ later) e ∙ append_assoc w.server.effects es later,
      λ id sock listed has. (
        close_clients_sock (other ∷ ids) w id (inl listed),
        elim (Bool-cases (nat_eq id other)) [
          | inl same ↦
              let is = (nat_eq_iff id other).0 same in
              ShutIn-before sock es later (first sock (rw is at has))
          | inr differs ↦
              ShutIn-after sock es later (rest id sock (ground arith) (rw differs has)).1
        ],
      ),
    )

drop_clients-ClosesAll :
    (w : World) → ClosesAll w.server.clients w.server.effects w (drop_clients w)
unfolding drop_clients
drop_clients-ClosesAll w = close_clients-ClosesAll w.server.clients w

abbrev pub ShutOf : RawSocket → List Effect → Type 0
ShutOf none es = Unit
ShutOf (some sock) es = ShutIn sock es

-- Behind the effects given, the socket of every client in the list, if it had one, is shut down and
-- then closed; the client has none then, and the list is empty.
abbrev pub DropsAll : List Effect → World → World → Type 0
DropsAll before w t =
    ((es : List Effect) × (t.server.effects ≡ before ++ es)
      × All (λ id. ((t.objects id).sock ≡ none) × ShutOf (w.objects id).sock es) w.server.clients)
    × (t.server.clients ≡ [])

All-listed :
    (P : ℕ → Type 0) (ids : List ℕ) → ((id : ℕ) → has_client id ids ≡ true → P id) → All P ids
All-listed P [] h = tt
All-listed P (other ∷ ids) h = (
  h other (rw ((nat_eq_iff other other).1 refl) refl),
  All-listed P ids λ id listed. h id (ground arith),
)

ShutOf-intro :
    (sock : RawSocket) (es : List Effect) → ((k : ℕ) → sock ≡ some k → ShutIn k es) → ShutOf sock es
ShutOf-intro none es h = tt
ShutOf-intro (some k) es h = h k refl

close_ctrl-effects :
    (sock : RawSocket) (s : Server)
    → (close_ctrl sock s).effects ≡ s.effects ++ (elim sock [ none ↦ [] | some k ↦ closed k ∷ [] ])
unfolding close_ctrl add_effect
close_ctrl-effects none s = sym (append-nil s.effects)
close_ctrl-effects (some sock) s = refl

drop_clients_sock :
    (w : World) (id : ℕ)
    → has_client id w.server.clients ≡ true
    → ((drop_clients w).objects id).sock ≡ none
unfolding drop_clients
drop_clients_sock w id listed = close_clients_sock w.server.clients w id (inl listed)

drop_clients_empty : (w : World) → (drop_clients w).server.clients ≡ []
unfolding drop_clients
drop_clients_empty w = refl

drop_clients_ctrl : (w : World) → (drop_clients w).server.ctrl ≡ w.server.ctrl
unfolding drop_clients
drop_clients_ctrl w = (close_clients-SameServer w.server.clients w).0

drop_clients-DropsAll : (w : World) → DropsAll w.server.effects w (drop_clients w)
drop_clients-DropsAll w =
    let (es, e, closes) = drop_clients-ClosesAll w in
    (
      (
        es,
        e,
        All-listed _ w.server.clients λ id listed. (
          drop_clients_sock w id listed,
          ShutOf-intro (w.objects id).sock es λ k has. (closes id k listed has).1,
        ),
      ),
      drop_clients_empty w,
    )

All-same : (P : ℕ → Type 0) {xs ys : List ℕ} → xs ≡ ys → All P xs → All P ys
All-same P e h = rw (sym e) h

drop_clients_running : (w : World) → (drop_clients w).server.running ≡ w.server.running
unfolding drop_clients
drop_clients_running w = (close_clients-SameServer w.server.clients w).1

accept_end_lem :
    (u : World)
    → ((accept_end u).server.ctrl ≡ none)
      × DropsAll
          (u.server.effects ++ (elim u.server.ctrl [ none ↦ [] | some k ↦ closed k ∷ [] ]))
          u
          (accept_end u)
unfolding accept_end
accept_end_lem u =
    let v : World = record u { server = close_ctrl u.server.ctrl u.server } in
    let (no_ctrl, _, same) = close_ctrl_lem u.server.ctrl u.server refl in
    let ((es, e, closes), empty) = drop_clients-DropsAll v in
    (
      drop_clients_ctrl v ∙ no_ctrl,
      (
        (
          es,
          e ∙ ap (λ xs. xs ++ es) (close_ctrl-effects u.server.ctrl u.server),
          All-same _ same closes,
        ),
        empty,
      ),
    )

stop_end_lem :
    (u : World) (ends : ℕ → Bool)
    → stop_end ends u ≡ (
        if all_end ends u.server.client_threads
        then some (record u { server = record u.server { client_threads = [] } })
        else none)
unfolding stop_end
stop_end_lem u ends = elim (Bool-cases (all_end ends u.server.client_threads)) [
  | inl e ↦ rw (stop_end, join_all_lem ends u.server.client_threads, e) refl
  | inr e ↦ rw (stop_end, join_all_lem ends u.server.client_threads, e) refl
]

-- Of `stop` on a running server: before it waits for the acceptor, the server does not run, and the
-- socket of every client in the list has been shut down and then closed, and the list is empty; the end
-- of the acceptor, whatever has happened until then, closes the socket that the server listens on
-- first and then does the same with every client that is in the list now; and the wait for the threads
-- returns exactly where each of them ends, and then only the list of threads has changed, which is
-- empty.
pub stop_closes :
    (w : World)
    → w.server.running ≡ true
    → ((stop_begin w).server.running ≡ false)
      × DropsAll w.server.effects w (stop_begin w)
      × ((u : World)
          → ((accept_end u).server.ctrl ≡ none)
            × DropsAll
                (u.server.effects ++ (elim u.server.ctrl [ none ↦ [] | some k ↦ closed k ∷ [] ]))
                u
                (accept_end u))
      × ((u : World) (ends : ℕ → Bool)
          → stop_end ends u ≡ (
              if all_end ends u.server.client_threads
              then some (record u { server = record u.server { client_threads = [] } })
              else none))
unfolding stop_begin
stop_closes w runs =
    let w' : World = record w { server = record w.server { running = false } } in
    (
      rw runs (drop_clients_running w'),
      rw runs (drop_clients-DropsAll w'),
      accept_end_lem,
      stop_end_lem,
    )
