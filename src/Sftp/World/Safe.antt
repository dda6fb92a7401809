-- ===== src/Sftp/World/Safe.antt =====
-- What the steps of src/sftp_server.cpp keep true of sessions, handles and files.
use mock_services.Base.{
  ℕ, ◌+◌, ◌≤◌, ◌≡◌, refl, ap, Bool, true, false, Option, none, List, [], ◌∷◌, ◌++◌, map, any, All,
  All-append, arith, nat_key, if◌then◌else◌, Text,
}
use mock_services.Sftp.Messages.{System, Message, HandleData, Effect, sent_handle}
use mock_services.Sftp.Accounts.{User}
use mock_services.Sftp.Handlers.{PacketType, handle_message}
use mock_services.Sftp.Handlers.Confinement.{
  escapes, is_outside, path_of, names_inside, handle_message-stays_inside,
}
use mock_services.Sftp.Handlers.Handles.{opens, grants, drops, closing, handle_message-Settles}
use mock_services.Sftp.Handlers.Permissions.{handle_message-harmless}
use mock_services.Sftp.World.{World, Phase, absent, begun, shaking, accepted, serving, Desk}
use mock_services.Sftp.World.Steps.{Names, nothing_named, named, closed}
use mock_services.Sftp.World.Authorised.{IsAuthorised, IsKnown, AreAdded, effects-IsAuthorised}
use mock_services.Sftp.Listener.Ledger.{count}

-- How many of the handles pass a test.
abbrev pub tally : (HandleData → Bool) → List HandleData → ℕ
tally p [] = 0
tally p (h ∷ hs) = if p h then tally p hs + 1 else tally p hs

pub tally-append :
    (p : HandleData → Bool) (xs ys : List HandleData) → tally p (xs ++ ys) ≡ tally p xs + tally p ys
tally-append p [] ys = omega arith
tally-append p (x ∷ xs) ys = ground (arith, tally-append p xs ys)

abbrev pub AreInside : Text → List HandleData → Type 0
AreInside root handles = All (λ h. is_outside root (path_of h) ≡ false) handles

-- What holds of a session that serves messages: whom it works for, where its handles lie, and that
-- what it has opened is what it has closed and what its client holds.
pub record IsOrderly (accounts : List User) (desk : Desk) : Type 0 where
  pub known : IsKnown accounts desk.ctx
  pub inside : AreInside desk.ctx.root desk.handles
  pub settled :
      (p : HandleData → Bool)
      → tally p (opens desk.effects) ≡ tally p (drops desk.effects) + tally p desk.handles

abbrev pub PhaseHolds : List User → Phase → Type 0
PhaseHolds accounts absent = Unit
PhaseHolds accounts begun = Unit
PhaseHolds accounts (shaking chan) = Unit
PhaseHolds accounts (accepted chan) = Unit
PhaseHolds accounts (serving desk) = IsOrderly accounts desk

-- Whether a session has a thread.
abbrev pub alive : Phase → ℕ
alive absent = 0
alive begun = 1
alive (shaking chan) = 1
alive (accepted chan) = 1
alive (serving desk) = 1

pub record IsSafe (w : World) : Type 0 where
  pub counts :
      (x : ℕ) → count x w.core.new_sessions ≡ count x w.core.freed_sessions + alive (w.phase x)
  pub threads : (x : ℕ) → alive (w.phase x) ≤ count x w.core.session_threads
  pub phases : (x : ℕ) → PhaseHolds w.accounts (w.phase x)
  pub users : AreAdded w.accounts w.core.server.users
  pub log : All (IsAuthorised w.accounts) w.log

opens-append : (xs ys : List Effect) → opens (xs ++ ys) ≡ opens xs ++ opens ys
opens-append [] ys = refl
opens-append (x ∷ xs) ys = ground (arith, opens-append xs ys)

drops-append : (xs ys : List Effect) → drops (xs ++ ys) ≡ drops xs ++ drops ys
drops-append [] ys = refl
drops-append (x ∷ xs) ys = ground (arith, drops-append xs ys)

closing-none : (type : PacketType) → closing type none ≡ []
closing-none type = ground arith

-- The handles that a message leaves are those that were there, without the one that it closes.
kept-tally :
    {type : PacketType} {info : Option HandleData} {handles kept : List HandleData}
    (p : HandleData → Bool)
    → Names type info handles kept
    → tally p handles ≡ tally p (closing type info) + tally p kept
kept-tally {type} p (nothing_named e) = rw (e, closing-none type) (omega arith)
kept-tally p (named h before after e same none_closed) = rw none_closed (omega arith)
kept-tally p (closed h before after e same one_closed) =
    rw (same, one_closed, tally-append p before (h ∷ after), tally-append p before after)
      (ground arith)

AreInside-append :
    (root : Text) (before after : List HandleData) (h : HandleData)
    → AreInside root (before ++ (h ∷ after))
    → (is_outside root (path_of h) ≡ false) × AreInside root (before ++ after)
AreInside-append root [] after h (inside, rest) = (inside, rest)
AreInside-append root (first ∷ before) after h (inside, rest) =
    let (it, others) = AreInside-append root before after h rest in (it, (inside, others))

kept-AreInside :
    {type : PacketType} {info : Option HandleData} {handles kept : List HandleData} (root : Text)
    → Names type info handles kept
    → AreInside root handles
    → (names_inside root info ≡ true) × AreInside root kept
kept-AreInside root (nothing_named e) h = (rw e refl, h)
kept-AreInside root (named it before after e same none_closed) h =
    let (inside, _) = AreInside-append root before after it (rw same at h) in
    (rw (e, inside) refl, h)
kept-AreInside root (closed it before after e same one_closed) h =
    let (inside, rest) = AreInside-append root before after it (rw same at h) in
    (rw (e, inside) refl, rest)

-- Handles that a message gives out are among those that do not escape.
grants-AreInside :
    (root : Text) (effects : List Effect)
    → any (escapes root) effects ≡ false
    → AreInside root (grants effects)
grants-AreInside root [] h = tt
grants-AreInside root (sent_handle it ∷ effects) h =
    (ground arith, grants-AreInside root effects (ground arith))
grants-AreInside root (_ ∷ effects) h = grants-AreInside root effects (ground arith)

-- The books of a session, with one more message.
settled-append :
    (p : HandleData → Bool) (before effects : List Effect) (handles gone kept : List HandleData)
    → tally p (opens before) ≡ tally p (drops before) + tally p handles
    → tally p handles ≡ tally p gone + tally p kept
    → gone ++ opens effects ≡ drops effects ++ grants effects
    → tally p (opens (before ++ effects))
      ≡ tally p (drops (before ++ effects)) + tally p (kept ++ grants effects)
settled-append p before effects handles gone kept was left message =
    let sums = ap (tally p) message in
    rw (opens-append before effects, drops-append before effects)
      (omega (
        arith,
        was,
        left,
        sums,
        tally-append p gone (opens effects),
        tally-append p (drops effects) (grants effects),
        tally-append p (opens before) (opens effects),
        tally-append p (drops before) (drops effects),
        tally-append p kept (grants effects),
      ))

module _ (accounts : List User) (desk : Desk) (type : PacketType) (os : System) (msg : Message)
    (kept : List HandleData) (orderly : IsOrderly accounts desk)
    (names : Names type msg.info desk.handles kept) where
  abbrev outcome : List Effect
  outcome = handle_message type os desk.ctx msg

  message_inside : any (escapes desk.ctx.root) outcome ≡ false
  message_inside =
      handle_message-stays_inside os desk.ctx msg type
        (kept-AreInside desk.ctx.root names orderly.inside).0

  -- A message keeps a session orderly.
  pub message-IsOrderly :
      IsOrderly accounts
        (record desk { effects = desk.effects ++ outcome; handles = kept ++ grants outcome })
  message-IsOrderly = record {
    known = orderly.known;
    inside =
        All-append _ kept (grants outcome) (kept-AreInside desk.ctx.root names orderly.inside).1
          (grants-AreInside desk.ctx.root outcome message_inside);
    settled = λ p.
        settled-append p desk.effects outcome desk.handles (closing type msg.info) kept
          (orderly.settled p) (kept-tally p names) (handle_message-Settles os desk.ctx msg type);
  }

  -- And what it does to files is authorised.
  pub message-IsAuthorised : All (IsAuthorised accounts) (map (λ e. (desk.ctx.username, e)) outcome)
  message-IsAuthorised =
      effects-IsAuthorised accounts desk.ctx outcome orderly.known
        (message_inside, λ e. handle_message-harmless os desk.ctx msg e type)
