-- ===== src/Sftp/Owners.antt =====
-- The classes of src/sftp_handlers.cpp and src/sftp_server.cpp that own a handle, and the objects of
-- such a class in a store. A handle is a number; its null pointer is `none`.
mod Tests
pub mod Members
pub mod Clients
pub mod Settled
use mock_services.Base.{
  ℕ, Bool, true, false, Option, none, some, List, [], ◌∷◌, ◌++◌, nat_eq, get_elem?, if◌then◌else◌,
}

-- The members that a class may have. They get the handles that were freed so far, and those that
-- were released, and return the members of the objects and both lists again. `ssh_key_ptr::ptr`,
-- which hands out the address of the member and which nothing calls, is not one of them.
pub record Owner : Type 0 where
  pub destructor : Option ℕ → List ℕ → Option ℕ × List ℕ
  pub move_construct : Option ℕ → Option ℕ × Option ℕ
  pub move_assign : Bool → Option ℕ → Option ℕ → List ℕ → Option ℕ × Option ℕ × List ℕ
  pub give_up : Option ℕ → List ℕ → List ℕ → Option ℕ × List ℕ × List ℕ

-- `if (p) { free(p); p = nullptr; }`
unfoldable pub free_member : Option ℕ → List ℕ → Option ℕ × List ℕ
free_member none freed = (none, freed)
free_member (some p) freed = (none, freed ++ (p ∷ []))

-- The new object and the other one.
unfoldable pub take_member : Option ℕ → Option ℕ × Option ℕ
take_member other = (other, none)

-- `same` is whether `this == &other`.
unfoldable pub assign_member : Bool → Option ℕ → Option ℕ → List ℕ → Option ℕ × Option ℕ × List ℕ
assign_member same this other freed =
    if same then (this, other, freed) else (other, none, (free_member this freed).1)

unfoldable pub release_member : Option ℕ → List ℕ → List ℕ → Option ℕ × List ℕ × List ℕ
release_member none freed released = (none, freed, released)
release_member (some p) freed released = (none, freed, released ++ (p ∷ []))

unfoldable pub reset_member : Option ℕ → List ℕ → List ℕ → Option ℕ × List ℕ × List ℕ
reset_member this freed released =
    let (this', freed') = free_member this freed in (this', freed', released)

unfoldable pub sftp_attr_ptr : Owner
sftp_attr_ptr = record {
  destructor = free_member;
  move_construct = take_member;
  move_assign = assign_member;
  give_up = release_member;
}

unfoldable pub file_ptr : Owner
file_ptr = record {
  destructor = free_member;
  move_construct = take_member;
  move_assign = assign_member;
  give_up = release_member;
}

unfoldable pub dir_ptr : Owner
dir_ptr = record {
  destructor = free_member;
  move_construct = take_member;
  move_assign = assign_member;
  give_up = release_member;
}

unfoldable pub ssh_key_ptr : Owner
ssh_key_ptr = record {
  destructor = free_member;
  move_construct = take_member;
  move_assign = assign_member;
  give_up = release_member;
}

-- This class has a `reset` and no `release`.
unfoldable pub ssh_bind_ptr : Owner
ssh_bind_ptr = record {
  destructor = free_member;
  move_construct = take_member;
  move_assign = assign_member;
  give_up = reset_member;
}

pub data Class : Type 0 where
  attr file dir key bind : Class

abbrev pub owner_of : Class → Owner
owner_of attr = sftp_attr_ptr
owner_of file = file_ptr
owner_of dir = dir_ptr
owner_of key = ssh_key_ptr
owner_of bind = ssh_bind_ptr

-- The objects of one class by their number, the handles that were made for it, that were freed, and
-- that were released.
pub record Store : Type 0 where
  pub objects : List (Option ℕ)
  pub made : List ℕ
  pub freed : List ℕ
  pub released : List ℕ

abbrev pub put : List (Option ℕ) → ℕ → Option ℕ → List (Option ℕ)
put [] i v = []
put (o ∷ objects) ℕ.zero v = v ∷ objects
put (o ∷ objects) (ℕ.suc i) v = o ∷ put objects i v

abbrev pub held : Option ℕ → List ℕ
held none = []
held (some p) = p ∷ []

-- What a program does with objects of a class: it makes one of a handle or of another object, assigns
-- one to another by a move, or gives up what one holds.
pub data Use : Type 0 where
  made_of : Option ℕ → Use
  moved_from : ℕ → Use
  assigned : ℕ → ℕ → Use
  given_up : ℕ → Use

-- There is no call on an object that does not exist.
unfoldable pub use_object : Owner → Use → Store → Store
use_object o (made_of p) s = record s { objects = s.objects ++ (p ∷ []); made = s.made ++ held p }
use_object o (moved_from i) s = elim (get_elem? s.objects i) [
  | none ↦ s
  | some p ↦
      let (this, other) = o.move_construct p in
      record s { objects = put s.objects i other ++ (this ∷ []) }
]
use_object o (assigned i j) s = elim (get_elem? s.objects i) [
  | none ↦ s
  | some p ↦ elim (get_elem? s.objects j) [
    | none ↦ s
    | some q ↦
        let (this, other, freed) = o.move_assign (nat_eq i j) p q s.freed in
        record s { objects = put (put s.objects i this) j other; freed = freed }
  ]
]
use_object o (given_up i) s = elim (get_elem? s.objects i) [
  | none ↦ s
  | some p ↦
      let (this, freed, released) = o.give_up p s.freed s.released in
      record s { objects = put s.objects i this; freed = freed; released = released }
]

unfoldable pub use_objects : Owner → List Use → Store → Store
use_objects o [] s = s
use_objects o (use_ ∷ uses) s = use_objects o uses (use_object o use_ s)

-- The objects go out of scope.
unfoldable pub free_objects : Owner → List (Option ℕ) → List ℕ → List ℕ
free_objects o [] freed = freed
free_objects o (p ∷ objects) freed = free_objects o objects (o.destructor p freed).1

unfoldable pub end_scope : Owner → Store → Store
end_scope o s = record s { objects = []; freed = free_objects o s.objects s.freed }

abbrev pub no_objects : Store
no_objects = record { objects = []; made = []; freed = []; released = [] }
