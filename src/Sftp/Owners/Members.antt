-- ===== src/Sftp/Owners/Members.antt =====
-- What the members of the owners in src/sftp_handlers.cpp and src/sftp_server.cpp do.
use mock_services.Base.{
  ℕ, ◌+◌, ◌≡◌, refl, true, false, Option, none, some, List, [], ◌∷◌, arith, nat_key,
}
use mock_services.Sftp.Listener.Ledger.{count, count-append}
use mock_services.Sftp.Owners.{
  Owner, Class, attr, file, dir, key, bind, owner_of, sftp_attr_ptr, file_ptr, dir_ptr, ssh_key_ptr,
  ssh_bind_ptr, free_member, take_member, assign_member, release_member, reset_member, held,
}

-- What the members of a class promise about any handle `x`.
pub record IsOwner (o : Owner) : Type 0 where
  pub destructor_lem :
      (x : ℕ) (p : Option ℕ) (freed : List ℕ)
      → count x (o.destructor p freed).1 ≡ count x freed + count x (held p)
  pub move_construct_lem : (p : Option ℕ) → o.move_construct p ≡ (p, none)
  pub move_assign_lem :
      (x : ℕ) (p q : Option ℕ) (freed : List ℕ)
      → let (this, other, freed') = o.move_assign false p q freed in
        (this ≡ q) × (other ≡ none) × (count x freed' ≡ count x freed + count x (held p))
  pub self_assign_lem :
      (p q : Option ℕ) (freed : List ℕ) → o.move_assign true p q freed ≡ (p, q, freed)
  pub give_up_lem :
      (x : ℕ) (p : Option ℕ) (freed released : List ℕ)
      → let (this, freed', released') = o.give_up p freed released in
        (this ≡ none)
        × (count x freed' + count x released' ≡ count x freed + count x released + count x (held p))

free_member_lem :
    (x : ℕ) (p : Option ℕ) (freed : List ℕ)
    → count x (free_member p freed).1 ≡ count x freed + count x (held p)
unfolding free_member
free_member_lem x none freed = omega arith
free_member_lem x (some p) freed = count-append x freed (p ∷ [])

release_member_lem :
    (x : ℕ) (p : Option ℕ) (freed released : List ℕ)
    → let (this, freed', released') = release_member p freed released in
      (this ≡ none)
      × (count x freed' + count x released' ≡ count x freed + count x released + count x (held p))
unfolding release_member
release_member_lem x none freed released = (refl, omega arith)
release_member_lem x (some p) freed released =
    (refl, omega (arith, count-append x released (p ∷ [])))

reset_member_lem :
    (x : ℕ) (p : Option ℕ) (freed released : List ℕ)
    → let (this, freed', released') = reset_member p freed released in
      (this ≡ none)
      × (count x freed' + count x released' ≡ count x freed + count x released + count x (held p))
unfolding reset_member free_member
reset_member_lem x none freed released = (refl, omega arith)
reset_member_lem x (some p) freed released = (refl, omega (arith, count-append x freed (p ∷ [])))

-- The classes differ in how they give up a handle.
members-IsOwner :
    (give_up : Option ℕ → List ℕ → List ℕ → Option ℕ × List ℕ × List ℕ)
    → ((x : ℕ) (p : Option ℕ) (freed released : List ℕ)
        → let (this, freed', released') = give_up p freed released in
          (this ≡ none)
          × (count x freed' + count x released'
              ≡ count x freed + count x released + count x (held p)))
    → IsOwner (record {
      destructor = free_member;
      move_construct = take_member;
      move_assign = assign_member;
      give_up = give_up;
    })
unfolding take_member assign_member
members-IsOwner give_up h = record {
  destructor_lem = free_member_lem;
  move_construct_lem = λ p. refl;
  move_assign_lem = λ x p q freed. (refl, refl, free_member_lem x p freed);
  self_assign_lem = λ p q freed. refl;
  give_up_lem = h;
}

pub owner_of-IsOwner : (c : Class) → IsOwner (owner_of c)
unfolding sftp_attr_ptr file_ptr dir_ptr ssh_key_ptr ssh_bind_ptr
owner_of-IsOwner attr = members-IsOwner release_member release_member_lem
owner_of-IsOwner file = members-IsOwner release_member release_member_lem
owner_of-IsOwner dir = members-IsOwner release_member release_member_lem
owner_of-IsOwner key = members-IsOwner release_member release_member_lem
owner_of-IsOwner bind = members-IsOwner reset_member reset_member_lem
