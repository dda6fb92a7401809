-- ===== src/Ftp/World/Loops.antt =====
-- The loop of a client in src/ftp_server.cpp as a run of the steps of the server.
use mock_services.Base.{
  ℕ, zero, suc, ◌≡◌, refl, ap, Bool-cases, inl, inr, Option, Option-cases, none, some, List, [],
  ◌∷◌, ◌++◌, Text, arith, nat_eq, nat_eq_iff, length, if◌then◌else◌,
}
use mathlib.Core.Path.{fun_ext}
use mock_services.Net.{RawSocket}
use mock_services.Ftp.Session.{Conn, end_session}
use mock_services.Ftp.Commands.{System}
use mock_services.Ftp.Dispatch.{
  dispatch, next_line, drop_return, lines_loop, until_zero, receive_loop, client_loop,
}
use mock_services.Ftp.World.{World, on_client}
use mock_services.Ftp.World.Steps.{Step, line, ended, Reach, here, next}

-- The part of the world that a handler of one client works on.
abbrev get : ℕ → World → Conn
get id w = record { client = w.objects id; server = w.server }

abbrev put : ℕ → Conn → World → World
put id c w = record {
  server = c.server;
  objects = λ other. if nat_eq other id then c.client else w.objects other;
}

get-put : (id : ℕ) (c : Conn) (w : World) → get id (put id c w) ≡ c
get-put id c w = rw ((nat_eq_iff id id).1 refl) refl

put-put : (id : ℕ) (c d : Conn) (w : World) → put id d (put id c w) ≡ put id d w
put-put id c d w = ap (λ objects. record { server = d.server; objects = objects }) (fun_ext same)
  where
    same :
        (other : ℕ)
        → (if nat_eq other id
            then d.client
            else if nat_eq other id
            then c.client
            else w.objects other)
          ≡ (if nat_eq other id then d.client else w.objects other)
    same other = ground arith

put-get : (id : ℕ) (w : World) → put id (get id w) w ≡ w
put-get id w = ap (λ objects. record { server = w.server; objects = objects }) (fun_ext same)
  where
    same :
        (other : ℕ) → (if nat_eq other id then w.objects id else w.objects other) ≡ w.objects other
    same other = elim (Bool-cases (nat_eq other id)) [
      | inl e ↦ rw (e, (nat_eq_iff other id).0 e) refl
      | inr e ↦ rw e refl
    ]

Reach-trans : {s t u : World} → Reach s t → Reach t u → Reach s u
Reach-trans r here = r
Reach-trans r (next q step) = next (Reach-trans r q) step

-- What one client does takes the world with one state of the client to that with another.
abbrev Leads : ℕ → World → Conn → Conn → Type 0
Leads id w c d = Reach (put id c w) (put id d w)

-- A step of the client's handler.
handled :
    (id : ℕ) (f : Conn → Conn) (w : World) (c : Conn)
    → ((u : World) → Step u (on_client id f u))
    → Leads id w c (f c)
handled id f w c step =
    let one : Reach (put id c w) (put id (f (get id (put id c w))) (put id c w)) =
      next here (step (put id c w)) in
    rw (put-put id c (f c) w) at (rw (get-put id c w) at one)

-- An empty line is left out.
abbrev on_line : System → Text → Conn → Conn
on_line os cmd c = elim cmd [ [] ↦ c | b ∷ rest ↦ dispatch os (b ∷ rest) c ]

on_line-Leads :
    (id : ℕ) (os : System) (cmd : Text) (c : Conn) (w : World) → Leads id w c (on_line os cmd c)
on_line-Leads id os [] c w = here
on_line-Leads id os (b ∷ cmd) c w =
    handled id (dispatch os (b ∷ cmd)) w c (λ u. line u id os (b ∷ cmd))

lines_loop-Leads :
    (id rounds : ℕ) (os : ℕ → System) (partial rest : Text) (c d : Conn) (w : World)
    → lines_loop rounds os partial c ≡ some (rest, d)
    → Leads id w c d
unfolding lines_loop
lines_loop-Leads id zero os partial rest c d w e = cc e
lines_loop-Leads id (suc rounds) os partial rest c d w e = elim (Option-cases (next_line partial)) [
  | inl done ↦
      let is : c ≡ d = cc (rw (lines_loop, done) at e) in
      let same : Leads id w c c = here in rw⁻¹ is same
  | inr ((found, more), taken) ↦
      let d' = on_line (os rounds) (drop_return found) c in
      let later : lines_loop rounds os more d' ≡ some (rest, d) = rw (lines_loop, taken) at e in
      Reach-trans (on_line-Leads id (os rounds) (drop_return found) c w)
        (lines_loop-Leads id rounds os more rest d' d w later)
]

-- What a `recv` brings is worked on line by line, and the loop goes on with what is left.
received-Leads :
    (id rounds : ℕ) (os : ℕ → System) (partial : Text) (c : Conn) (w : World)
    (rest : Text → Conn → Conn) (r : Option (Text × Conn))
    → lines_loop rounds os partial c ≡ r
    → ((left : Text) (d : Conn) → Leads id w d (rest left d))
    → Leads id w c (elim r as (λ x. Conn) [ none ↦ c | some (left, d) ↦ rest left d ])
received-Leads id rounds os partial c w rest none e h = here
received-Leads id rounds os partial c w rest (some (left, d)) e h =
    Reach-trans (lines_loop-Leads id rounds os partial left c d w e) (h left d)

sock-Leads :
    (id : ℕ) (sock : RawSocket) (c d : Conn) (w : World)
    → Leads id w c d
    → Leads id w c (elim sock as (λ x. Conn) [ none ↦ c | some s ↦ d ])
sock-Leads id none c d w h = here
sock-Leads id (some s) c d w h = h

receive_loop-Leads :
    (id : ℕ) (os : ℕ → ℕ → System) (received : List Text) (partial : Text) (c : Conn) (w : World)
    → Leads id w c (receive_loop os received partial c)
unfolding receive_loop
receive_loop-Leads id os [] partial c w = here
receive_loop-Leads id os ([] ∷ received) partial c w = here
receive_loop-Leads id os ((b ∷ bytes) ∷ received) partial c w =
    let more = partial ++ until_zero (b ∷ bytes) in
    sock-Leads id c.client.sock c _ w (
      received-Leads id (suc (length more)) (os (length received)) more c w
        (λ left d. receive_loop os received left d) _ refl
        (λ left d. receive_loop-Leads id os received left d w))

-- Whatever a client sends and however it is cut, what its thread does from the first `recv` to the
-- end of the session is a run of steps. Which lines the steps take is not said.
pub client_loop-Reach :
    (os : ℕ → ℕ → System) (id : ℕ) (received : List Text) (w : World)
    → Reach w (on_client id (client_loop os id received) w)
unfolding client_loop
client_loop-Reach os id received w =
    let c = get id w in
    let d = receive_loop os received [] c in
    let run : Leads id w c (end_session id d) =
      Reach-trans (receive_loop-Leads id os received [] c w)
        (handled id (end_session id) w d (λ u. ended u id)) in
    rw (put-get id w) at run
