-- ===== src/Sftp/World/Tables.antt =====
-- The tables of logins and handshakes in src/sftp_server.cpp hold nothing of a session that is gone.
use mock_services.Base.{
  ℕ, ◌≡◌, refl, ap, inl, inr, ◌∙◌, Bool, Bool-cases, false, Option-cases, none, some, List, [], ◌∷◌,
  arith, nat_eq, nat_eq_iff, nat_key, if◌then◌else◌, if_split, Text, text, text_key, ◌==◌,
}
use mock_services.Base.Dict.{Dict, find, assign, erase, find-assign, find-erase}
use mock_services.Sftp.Accounts.{Handshake, Server, check_auth, has_account, remove_session}
use mock_services.Sftp.Sessions.{
  Callback, auth_password, open_session, subsystem, on_callback, on_callbacks, make_hs, remove_hs,
  update_hs,
}
use mock_services.Sftp.Sessions.Releases.{find-erase_self}
use mock_services.Sftp.World.{Phase, absent}

-- The server knows neither a login nor a handshake of the session.
abbrev pub IsUnknown : ℕ → Server → Type 0
IsUnknown x s = (find x s.session_users ≡ none) × (find x s.handshakes ≡ none)

nat_eq_flip : (y x : ℕ) → nat_eq y x ≡ false → nat_eq x y ≡ false
nat_eq_flip y x e = ground arith

-- A change for the session `x` makes no other session known.
abbrev pub Spares : ℕ → Server → Server → Type 0
Spares x s t = (y : ℕ) → nat_eq x y ≡ false → IsUnknown y s → IsUnknown y t

module _ {V : Type 0} (x y : ℕ) (m : Dict ℕ V) (other : nat_eq x y ≡ false) where
  assign-spares : (v : V) → find y m ≡ none → find y (assign x v m) ≡ none
  assign-spares v h = find-assign x y v m ∙ rw other h

  erase-spares : find y m ≡ none → find y (erase x m) ≡ none
  erase-spares h = find-erase x y m ∙ rw other h

update_hs-Spares : (x : ℕ) (f : Handshake → Handshake) (s : Server) → Spares x s (update_hs x f s)
unfolding update_hs
update_hs-Spares x f s y other (user, hs) = elim (Option-cases (find x s.handshakes)) [
  | inl e ↦ rw (update_hs, e) (user, hs)
  | inr (h, e) ↦ rw (update_hs, e) (user, assign-spares x y s.handshakes other (f h) hs)
]

check_auth-Spares :
    (x : ℕ) (user password : Text) (s : Server) → Spares x s (check_auth x user password s).1
unfolding check_auth
check_auth-Spares x user password s y other (login, hs) =
    if_split (λ (r : Bool × Server). IsUnknown y r.1) (has_account user password s.users) _ _
      (λ e. (assign-spares x y s.session_users other user login, hs)) (λ e. (login, hs))

pub on_callback-Spares :
    (x : ℕ) (callback : Callback) (s : Server) → Spares x s (on_callback x callback s)
unfolding on_callback
on_callback-Spares x (auth_password user password) s = check_auth-Spares x user password s
on_callback-Spares x (open_session none) s = λ y other h. h
on_callback-Spares x (open_session (some chan)) s = update_hs-Spares x _ s
on_callback-Spares x (subsystem name) s =
    if_split (Spares x s) (name == text "sftp") _ _ (λ e. update_hs-Spares x _ s) (λ e y other h. h)

pub on_callbacks-Spares :
    (x : ℕ) (callbacks : List Callback) (s : Server) → Spares x s (on_callbacks x callbacks s)
unfolding on_callbacks
on_callbacks-Spares x [] s y other h = h
on_callbacks-Spares x (callback ∷ callbacks) s y other h =
    on_callbacks-Spares x callbacks (on_callback x callback s) y other
      (on_callback-Spares x callback s y other h)

pub make_hs-Spares : (x : ℕ) (s : Server) → Spares x s (make_hs x s)
unfolding make_hs
make_hs-Spares x s y other (user, hs) = elim (Option-cases (find x s.handshakes)) [
  | inl e ↦ rw (make_hs, e) (user, assign-spares x y s.handshakes other _ hs)
  | inr (h, e) ↦ rw (make_hs, e) (user, hs)
]

pub remove_session-Spares : (x : ℕ) (s : Server) → Spares x s (remove_session x s)
unfolding remove_session
remove_session-Spares x s y other (login, hs) = elim (Option-cases (find x s.session_users)) [
  | inl e ↦ rw (remove_session, e) (login, hs)
  | inr (user, e) ↦ rw (remove_session, e) (erase-spares x y s.session_users other login, hs)
]

pub remove_hs-Spares : (x : ℕ) (s : Server) → Spares x s (remove_hs x s)
unfolding remove_hs
remove_hs-Spares x s y other (login, hs) = (login, erase-spares x y s.handshakes other hs)

-- A callback makes no handshake for a session that has none.
update_hs-no_handshake :
    (x : ℕ) (f : Handshake → Handshake) (s : Server)
    → find x s.handshakes ≡ none
    → find x (update_hs x f s).handshakes ≡ none
unfolding update_hs
update_hs-no_handshake x f s h = rw (update_hs, h) h

on_callback-no_handshake :
    (x : ℕ) (callback : Callback) (s : Server)
    → find x s.handshakes ≡ none
    → find x (on_callback x callback s).handshakes ≡ none
unfolding on_callback check_auth
on_callback-no_handshake x (auth_password user password) s h =
    if_split (λ (r : Bool × Server). find x r.1.handshakes ≡ none)
      (has_account user password s.users) _ _ (λ e. h) (λ e. h)
on_callback-no_handshake x (open_session none) s h = h
on_callback-no_handshake x (open_session (some chan)) s h = update_hs-no_handshake x _ s h
on_callback-no_handshake x (subsystem name) s h =
    if_split (λ (t : Server). find x t.handshakes ≡ none) (name == text "sftp") _ _
      (λ e. update_hs-no_handshake x _ s h) (λ e. h)

pub on_callbacks-no_handshake :
    (x : ℕ) (callbacks : List Callback) (s : Server)
    → find x s.handshakes ≡ none
    → find x (on_callbacks x callbacks s).handshakes ≡ none
unfolding on_callbacks
on_callbacks-no_handshake x [] s h = h
on_callbacks-no_handshake x (callback ∷ callbacks) s h =
    on_callbacks-no_handshake x callbacks (on_callback x callback s)
      (on_callback-no_handshake x callback s h)

pub remove_session-forgets :
    (x : ℕ) (s : Server)
    → (find x (remove_session x s).session_users ≡ none)
      × ((remove_session x s).handshakes ≡ s.handshakes)
unfolding remove_session
remove_session-forgets x s = elim (Option-cases (find x s.session_users)) [
  | inl e ↦ rw (remove_session, e) (e, refl)
  | inr (user, e) ↦ rw (remove_session, e) (find-erase_self x s.session_users, refl)
]

-- What is known of sessions is known of those that have a thread.
abbrev pub IsClean : (ℕ → Phase) → Server → Type 0
IsClean phase s = (x : ℕ) → phase x ≡ absent → IsUnknown x s

-- The server changes for one session, which stays unknown if it has no thread.
pub touched-IsClean :
    (x : ℕ) (phase : ℕ → Phase) (s t : Server)
    → IsClean phase s
    → (phase x ≡ absent → IsUnknown x t)
    → Spares x s t
    → IsClean phase t
touched-IsClean x phase s t h own spares y gone = elim (Bool-cases (nat_eq x y)) [
  | inl e ↦
      let same = (nat_eq_iff x y).0 e in
      let here : phase x ≡ absent = ap phase same ∙ gone in rw same at (own here)
  | inr e ↦ spares y e (h y gone)
]

-- The same, where the session's thread moves.
pub moved-IsClean :
    (x : ℕ) (p : Phase) (phase : ℕ → Phase) (s t : Server)
    → IsClean phase s
    → (p ≡ absent → IsUnknown x t)
    → Spares x s t
    → IsClean (λ other. if nat_eq other x then p else phase other) t
moved-IsClean x p phase s t h own spares y gone = elim (Bool-cases (nat_eq y x)) [
  | inl e ↦ let here : p ≡ absent = rw e at gone in rw ((nat_eq_iff y x).0 e) (own here)
  | inr e ↦ let was : phase y ≡ absent = rw e at gone in spares y (nat_eq_flip y x e) (h y was)
]
