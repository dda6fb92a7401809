-- ===== src/Sftp/Listener/Ledger.antt =====
-- What the listener of src/sftp_server.cpp takes from libssh and gives back to it.
use mock_services.Base.{
  ℕ, suc, ◌+◌, ◌≡◌, refl, sym, inl, inr, ◌∙◌, if_split, Option, Option-cases, none, some, List, [],
  ◌∷◌, ◌++◌, append-nil, arith, if◌then◌else◌, ◌==◌, nat_key,
}
use mock_services.Sftp.Sessions.Releases.{held}
use mock_services.Sftp.Listener.{
  World, Answers, Fault, not_set, no_bind, reset_bind, ensure_bind, ensure_hostkey, refuse,
  finish_start, listen_on, import_key, set_options, start, start_bound,
}

-- How often a number stands in a list.
abbrev pub count : ℕ → List ℕ → ℕ
count x [] = 0
count x (y ∷ ys) = if x == y then suc (count x ys) else count x ys

pub count-append : (x : ℕ) (xs ys : List ℕ) → count x (xs ++ ys) ≡ count x xs + count x ys
count-append x [] ys = omega arith
count-append x (y ∷ xs) ys = ground (arith, count-append x xs ys)

-- What was handed out is what was given back and then what is held; a session counts as held while
-- its thread has not been joined.
pub record IsBalanced (w : World) : Type 0 where
  pub binds : w.new_binds ≡ w.freed_binds ++ held w.bind
  pub keys : w.new_keys ≡ w.given_keys ++ held w.hostkey
  pub counts :
      (x : ℕ) → count x w.new_sessions ≡ count x w.freed_sessions + count x w.session_threads

pub reset_bind-IsBalanced : (w : World) → IsBalanced w → IsBalanced (reset_bind w)
unfolding reset_bind
reset_bind-IsBalanced w = go w.bind
  where
    go :
        (bind : Option ℕ)
        → IsBalanced (record w { bind = bind })
        → IsBalanced (reset_bind (record w { bind = bind }))
    go none h = h
    go (some bind) h = record {
      binds = h.binds ∙ sym (append-nil _);
      keys = h.keys;
      counts = h.counts;
    }

-- What holds of a value that may be missing.
abbrev Holds {ℓ κ} : {A : Type ℓ} → (A → Type κ) → Option A → Type κ
Holds P none = Unit
Holds P (some x) = P x

ensure_bind-IsBalanced :
    (answer : Option ℕ) (w : World) → IsBalanced w → Holds IsBalanced (ensure_bind answer w)
unfolding ensure_bind
ensure_bind-IsBalanced answer w = go answer w.bind
  where
    go :
        (answer bind : Option ℕ)
        → IsBalanced (record w { bind = bind })
        → Holds IsBalanced (ensure_bind answer (record w { bind = bind }))
    go answer (some bind) h = h
    go none none h = tt
    go (some new) none h = record {
      binds = rw (h.binds ∙ append-nil _) refl;
      keys = h.keys;
      counts = h.counts;
    }

ensure_hostkey-IsBalanced :
    (answer : Option ℕ) (w : World) → IsBalanced w → Holds IsBalanced (ensure_hostkey answer w)
unfolding ensure_hostkey
ensure_hostkey-IsBalanced answer w = go answer w.hostkey
  where
    go :
        (answer hostkey : Option ℕ)
        → IsBalanced (record w { hostkey = hostkey })
        → Holds IsBalanced (ensure_hostkey answer (record w { hostkey = hostkey }))
    go answer (some hostkey) h = h
    go none none h = tt
    go (some new) none h = record {
      binds = h.binds;
      keys = rw (h.keys ∙ append-nil _) refl;
      counts = h.counts;
    }

refuse-IsBalanced : (fault : Fault) (w : World) → IsBalanced w → IsBalanced (refuse fault w).1
unfolding refuse
refuse-IsBalanced fault w = reset_bind-IsBalanced w

-- The world that an answer of `start` leaves.
abbrev Leaves : (Option Fault × World) → Type 0
Leaves answer = IsBalanced answer.1

finish_start-IsBalanced :
    (name : Option ℕ) (w : World) → IsBalanced w → Leaves (finish_start name w)
unfolding finish_start
finish_start-IsBalanced none w h = refuse-IsBalanced _ w h
finish_start-IsBalanced (some port) w h = record {
  binds = h.binds;
  keys = h.keys;
  counts = h.counts;
}

listen_on-IsBalanced : (a : Answers) (w : World) → IsBalanced w → Leaves (listen_on a w)
unfolding listen_on
listen_on-IsBalanced a w h =
    if_split Leaves a.listening _ _ (λ e. finish_start-IsBalanced a.name w h)
      (λ e. refuse-IsBalanced _ w h)

import_key-IsBalanced : (a : Answers) (w : World) → IsBalanced w → Leaves (import_key a w)
unfolding import_key
import_key-IsBalanced a w = go w.hostkey
  where
    go :
        (hostkey : Option ℕ)
        → IsBalanced (record w { hostkey = hostkey })
        → Leaves (import_key a (record w { hostkey = hostkey }))
    go none h = listen_on-IsBalanced a (record w { hostkey = none }) h
    go (some key) h =
        let given : World = record w { hostkey = none; given_keys = w.given_keys ++ (key ∷ []) } in
        if_split Leaves a.key_set _ _
          (λ e.
            listen_on-IsBalanced a given
              (record { binds = h.binds; keys = h.keys ∙ sym (append-nil _); counts = h.counts }))
          (λ e. refuse-IsBalanced _ (record w { hostkey = some key }) h)

set_options-IsBalanced : (a : Answers) (w : World) → IsBalanced w → Leaves (set_options a w)
unfolding set_options
set_options-IsBalanced a w h =
    let refused = refuse-IsBalanced not_set w h in
    if_split Leaves a.address_set _ _
      (λ e. if_split Leaves a.port_set _ _ (λ e. import_key-IsBalanced a w h) (λ e. refused))
      (λ e. refused)

start_bound-IsBalanced : (a : Answers) (w : World) → IsBalanced w → Leaves (start_bound a w)
unfolding start_bound
start_bound-IsBalanced a w h = elim (Option-cases (ensure_hostkey a.new_key w)) [
  | inl e ↦ rw (start_bound, e) h
  | inr (keyed, e) ↦
      rw (start_bound, e)
        (set_options-IsBalanced a keyed (rw e at (ensure_hostkey-IsBalanced a.new_key w h)))
]

pub start-IsBalanced : (a : Answers) (w : World) → IsBalanced w → Leaves (start a w)
unfolding start
start-IsBalanced a w h = if_split Leaves w.server.running _ _ (λ e. h) λ e. bound
  where
    bound : Leaves (elim (ensure_bind a.new_bind w) as (λ b. Option Fault × World) [
      | none ↦ (some no_bind, w)
      | some bound ↦ start_bound a bound
    ])
    bound = elim (Option-cases (ensure_bind a.new_bind w)) [
      | inl e ↦ rw e h
      | inr (w', e) ↦
          rw e (start_bound-IsBalanced a w' (rw e at (ensure_bind-IsBalanced a.new_bind w h)))
    ]
