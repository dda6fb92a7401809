-- ===== src/Sftp/Owners/Clients.antt =====
-- The listener of src/sftp_server.cpp does with its bind object and its host key what the members of
-- their classes do.
use mock_services.Base.{arith, ℕ, ◌≡◌, refl, false, Option, none, some, [], ◌∷◌, ◌++◌}
use mock_services.Sftp.Owners.{ssh_bind_ptr, ssh_key_ptr, free_member, assign_member, reset_member}
use mock_services.Sftp.Listener.{World, reset_bind, free_hostkey, ensure_bind, ensure_hostkey}

-- `bind_.reset()`
pub reset_bind-give_up :
    (w : World)
    → let (bind, freed, _) = ssh_bind_ptr.give_up w.bind w.freed_binds [] in
      reset_bind w ≡ record w { bind = bind; freed_binds = freed }
unfolding ssh_bind_ptr reset_member free_member reset_bind
reset_bind-give_up w = go w.bind
  where
    go :
        (bind : Option ℕ)
        → let w' : World = record w { bind = bind } in
          let (bind', freed, _) = ssh_bind_ptr.give_up bind w.freed_binds [] in
          reset_bind w' ≡ record w' { bind = bind'; freed_binds = freed }
    go none = refl
    go (some bind) = refl

-- The destructor of `hostkey_`
pub free_hostkey-destructor :
    (w : World)
    → let (key, given) = ssh_key_ptr.destructor w.hostkey w.given_keys in
      free_hostkey w ≡ record w { hostkey = key; given_keys = given }
unfolding ssh_key_ptr free_member free_hostkey
free_hostkey-destructor w = go w.hostkey
  where
    go :
        (hostkey : Option ℕ)
        → let w' : World = record w { hostkey = hostkey } in
          let (key, given) = ssh_key_ptr.destructor hostkey w.given_keys in
          free_hostkey w' ≡ record w' { hostkey = key; given_keys = given }
    go none = refl
    go (some key) = refl

-- `bind_ = ssh_bind_ptr();` and `hostkey_ = ssh_key_ptr(...);` where there is nothing to free.
pub ensure-move_assign :
    (bind key : ℕ) (w : World)
    → w.bind ≡ none
    → w.hostkey ≡ none
    → let (b, _, freed) = ssh_bind_ptr.move_assign false w.bind (some bind) w.freed_binds in
      let (k, _, given) = ssh_key_ptr.move_assign false w.hostkey (some key) w.given_keys in
      (ensure_bind (some bind) w
        ≡ some (record w { bind = b; freed_binds = freed; new_binds = w.new_binds ++ (bind ∷ []) }))
      × (ensure_hostkey (some key) w
          ≡ some
              (record w { hostkey = k; given_keys = given; new_keys = w.new_keys ++ (key ∷ []) }))
unfolding ssh_bind_ptr ssh_key_ptr assign_member free_member ensure_bind ensure_hostkey
ensure-move_assign bind key w no_bind no_key = ground (arith, no_bind, no_key)
