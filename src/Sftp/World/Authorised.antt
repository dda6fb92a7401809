-- ===== src/Sftp/World/Authorised.antt =====
-- Which accounts stand behind what the sessions of src/sftp_server.cpp do to files.
use mock_services.Base.{
  ℕ, ◌≡◌, ◌⊎◌, refl, inl, inr, Bool, Bool-cases, true, false, Option-cases, some, List, [], ◌∷◌,
  map, any, All, arith, Text, ◌==◌, text_key, nat_key, if_split, text_eq_iff,
}
use mock_services.Base.Dict.{find}
use mock_services.Sftp.Messages.{Effect, Context, can_write}
use mock_services.Sftp.Accounts.{User, Server, find_user, lookup_user}
use mock_services.Sftp.Accounts
use mock_services.Sftp.Handlers.Permissions.{is_change}
use mock_services.Sftp.Handlers.Confinement.{escapes}

abbrev pub Among : User → List User → Type 0
Among u [] = ⊥
Among u (v ∷ accounts) = (v ≡ u) ⊎ Among u accounts

-- The effects that open, list, write, make, remove or rename a path, or give out or close a handle:
-- they lie outside every root where there is none.
abbrev pub touches : Effect → Bool
touches = escapes []

-- An account of the name has been added whose root begins every path of the effect, and which may
-- write if the effect is a change.
abbrev pub IsAuthorised : List User → Text × Effect → Type 0
IsAuthorised accounts (name, effect) =
    touches effect ≡ true
    → (u : User) × Among u accounts
      × (u.name ≡ name)
      × (escapes u.root effect ≡ false)
      × (is_change effect ≡ true → can_write u.perm ≡ true)

-- A session works for an account that has been added, or without a root.
abbrev pub IsKnown : List User → Context → Type 0
IsKnown accounts ctx =
    (ctx.root ≡ [])
    ⊎ ((u : User) × Among u accounts
        × (u.name ≡ ctx.username)
        × (u.root ≡ ctx.root)
        × (u.perm ≡ ctx.perm))

pub IsKnown-add :
    (new : User) (accounts : List User) (ctx : Context)
    → IsKnown accounts ctx
    → IsKnown (new ∷ accounts) ctx
IsKnown-add new accounts ctx (inl e) = inl e
IsKnown-add new accounts ctx (inr (u, among, name, root, perm)) =
    inr (u, inr among, name, root, perm)

pub IsAuthorised-add :
    (new : User) (accounts : List User) (log : List (Text × Effect))
    → All (IsAuthorised accounts) log
    → All (IsAuthorised (new ∷ accounts)) log
IsAuthorised-add new accounts [] h = tt
IsAuthorised-add new accounts ((name, effect) ∷ log) (h, hs) = (
  λ t. let (u, among, same, inside, may) = h t in (u, inr among, same, inside, may),
  IsAuthorised-add new accounts log hs,
)

-- The users of the server are accounts that have been added.
abbrev pub AreAdded : List User → List User → Type 0
AreAdded accounts users = All (λ u. Among u accounts) users

pub AreAdded-add :
    (new : User) (accounts users : List User)
    → AreAdded accounts users
    → AreAdded (new ∷ accounts) users
AreAdded-add new accounts [] h = tt
AreAdded-add new accounts (u ∷ users) (h, hs) = (inr h, AreAdded-add new accounts users hs)

pub add_user-AreAdded :
    (new : User) (accounts users : List User)
    → AreAdded accounts users
    → AreAdded (new ∷ accounts) (Accounts.add_user new users)
unfolding Accounts.add_user
add_user-AreAdded new accounts [] h = (inl refl, tt)
add_user-AreAdded new accounts (u ∷ users) (h, hs) =
    if_split (AreAdded (new ∷ accounts)) (u.name == new.name) _ _
      (λ e. (inl refl, AreAdded-add new accounts users hs))
      (λ e. (inr h, add_user-AreAdded new accounts users hs))

find_user-Among :
    (name : Text) (accounts users : List User) (u : User)
    → AreAdded accounts users
    → find_user name users ≡ some u
    → Among u accounts × (u.name ≡ name)
unfolding find_user
find_user-Among name accounts [] u h e = cc e
find_user-Among name accounts (v ∷ users) u (h, hs) e = elim (Bool-cases (v.name == name)) [
  | inl is ↦
      let same : some v ≡ some u = rw is at e in
      let eq : v ≡ u = cc in
      let found : Among v accounts × (v.name ≡ name) = (h, (text_eq_iff v.name name).0 is) in
      rw eq at found
  | inr is ↦ find_user-Among name accounts users u hs (rw is at e)
]

pub lookup_user-IsKnown :
    (accounts : List User) (session : ℕ) (s : Server)
    → AreAdded accounts s.users
    → IsKnown accounts (lookup_user session s)
unfolding lookup_user
lookup_user-IsKnown accounts session s h = elim (Option-cases (find session s.session_users)) [
  | inl e ↦ rw (lookup_user, e) (inl refl)
  | inr (name, e) ↦ elim (Option-cases (find_user name s.users)) [
    | inl e' ↦ rw (lookup_user, e, e') (inl refl)
    | inr (u, e') ↦
        let (among, same) = find_user-Among name accounts s.users u h e' in
        rw (lookup_user, e, e') (inr (u, among, same, refl, refl))
  ]
]

-- What the effects of a message need to be authorised.
abbrev AreBounded : Context → List Effect → Type 0
AreBounded ctx effects =
    (any (escapes ctx.root) effects ≡ false)
    × (can_write ctx.perm ≡ false → any is_change effects ≡ false)

one-IsAuthorised :
    (accounts : List User) (ctx : Context) (effect : Effect)
    → IsKnown accounts ctx
    → escapes ctx.root effect ≡ false
    → (can_write ctx.perm ≡ false → is_change effect ≡ false)
    → IsAuthorised accounts (ctx.username, effect)
one-IsAuthorised accounts ctx effect (inl e) inside bound t =
    absurd (let out : escapes [] effect ≡ false = rw e at inside in cc)
one-IsAuthorised accounts ctx effect (inr (u, among, name, root, perm)) inside bound t =
    (u, among, name, rw root inside, λ changes. rw perm (may changes))
  where
    may : is_change effect ≡ true → can_write ctx.perm ≡ true
    may changes = elim (Bool-cases (can_write ctx.perm)) [
      | inl e ↦ e
      | inr e ↦ absurd (let h = bound e in cc)
    ]

pub effects-IsAuthorised :
    (accounts : List User) (ctx : Context) (effects : List Effect)
    → IsKnown accounts ctx
    → AreBounded ctx effects
    → All (IsAuthorised accounts) (map (λ e. (ctx.username, e)) effects)
effects-IsAuthorised accounts ctx [] known bounded = tt
effects-IsAuthorised accounts ctx (effect ∷ effects) known (inside, bound) = (
  one-IsAuthorised accounts ctx effect known (ground arith) λ e. let h = bound e in ground arith,
  effects-IsAuthorised accounts ctx effects known
      (ground arith, λ e. let h = bound e in ground arith),
)
