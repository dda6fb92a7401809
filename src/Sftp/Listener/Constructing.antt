-- ===== src/Sftp/Listener/Constructing.antt =====
-- src/sftp_server.cpp, the constructor of `implementation` with its exceptions, and
-- `generate_rsa_key`.
use mock_services.Base.{
  ℕ, ◌≡◌, refl, Bool, true, false, Option, none, some, List, [], ◌∷◌, if◌then◌else◌,
}
use mock_services.Sftp.Owners.{ssh_bind_ptr, ssh_key_ptr, free_member, held}
use mock_services.Sftp.Listener.{World, construct}
use mock_services.Sftp.Listener.Ledger.{IsBalanced}
use mock_services.Sftp.Listener.Lifetime.{construct-IsBalanced}

-- What libssh answers: `ssh_pki_ctx_new`, and the key of `ssh_pki_generate_key` where that succeeds.
pub record Pki : Type 0 where
  pub context : Option ℕ
  pub generated : Option ℕ

-- The key, where `none` is an exception, and the contexts that were freed.
unfoldable pub generate_rsa_key : Pki → Option ℕ × List ℕ
generate_rsa_key pki = elim pki.context [
  | none ↦ (none, [])
  | some context ↦ (pki.generated, context ∷ [])
]

-- What libssh has handed out and what was given back to it when a constructor throws.
pub record Books : Type 0 where
  pub new_binds : List ℕ
  pub freed_binds : List ℕ
  pub new_keys : List ℕ
  pub freed_keys : List ℕ

pub data Construction : Type 0 where
  built : World → Construction
  threw : Books → Construction

-- The members that exist are destroyed in the reverse of their order.
unfoldable pub unwind : ℕ → Option ℕ → Books
unwind bind key = record {
  new_binds = bind ∷ [];
  freed_binds = (ssh_bind_ptr.destructor (some bind) []).1;
  new_keys = held key;
  freed_keys = (ssh_key_ptr.destructor key []).1;
}

-- `implementation()`, with `ssh_bind_new` for the member `bind_` and whether `TempDir` gets its
-- directory.
unfoldable pub make_server : Option ℕ → Pki → Bool → Construction
make_server none pki has_directory =
    threw (record { new_binds = []; freed_binds = []; new_keys = []; freed_keys = [] })
make_server (some bind) pki has_directory = elim (generate_rsa_key pki).0 [
  | none ↦ threw (unwind bind none)
  | some key ↦ if has_directory then built (construct bind key) else threw (unwind bind (some key))
]

-- A constructor that returns has a bind object and a key, and one that throws has given everything
-- back.
abbrev pub IsClosed : Construction → Type 0
IsClosed (built w) = IsBalanced w × (w.server.running ≡ false) × (w.session_threads ≡ [])
IsClosed (threw books) = (books.new_binds ≡ books.freed_binds) × (books.new_keys ≡ books.freed_keys)

unwind-IsClosed : (bind : ℕ) (key : Option ℕ) → IsClosed (threw (unwind bind key))
unfolding unwind ssh_bind_ptr ssh_key_ptr free_member
unwind-IsClosed bind none = (refl, refl)
unwind-IsClosed bind (some key) = (refl, refl)

generate_rsa_key_lem : (pki : Pki) → (generate_rsa_key pki).1 ≡ held pki.context
unfolding generate_rsa_key
generate_rsa_key_lem pki = go pki.context
  where
    go :
        (context : Option ℕ)
        → (generate_rsa_key (record pki { context = context })).1 ≡ held context
    go none = refl
    go (some context) = refl

construct-IsClosed : (bind key : ℕ) → IsClosed (built (construct bind key))
unfolding construct
construct-IsClosed bind key = (construct-IsBalanced bind key, refl, refl)

make_server-closes :
    (new_bind : Option ℕ) (pki : Pki) (has_directory : Bool)
    → IsClosed (make_server new_bind pki has_directory)
unfolding make_server
make_server-closes none pki has_directory = (refl, refl)
make_server-closes (some bind) pki has_directory = go (generate_rsa_key pki) has_directory
  where
    go :
        (made : Option ℕ × List ℕ) (has_directory : Bool)
        → IsClosed (elim made.0 [
          | none ↦ threw (unwind bind none)
          | some key ↦
              if has_directory then built (construct bind key) else threw (unwind bind (some key))
        ])
    go (none, freed) has_directory = unwind-IsClosed bind none
    go (some key, freed) true = construct-IsClosed bind key
    go (some key, freed) false = unwind-IsClosed bind (some key)

-- Whatever libssh and the system answer to the constructor of a server, the context that it makes the
-- key with is freed, and where it throws, so are the bind object and the key; where it returns, the
-- books of the new server balance, and it neither runs nor has a thread.
pub make_server-IsClosed :
    (new_bind : Option ℕ) (pki : Pki) (has_directory : Bool)
    → ((generate_rsa_key pki).1 ≡ held pki.context)
      × IsClosed (make_server new_bind pki has_directory)
make_server-IsClosed new_bind pki has_directory =
    (generate_rsa_key_lem pki, make_server-closes new_bind pki has_directory)
