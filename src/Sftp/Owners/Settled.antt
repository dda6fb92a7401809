-- ===== src/Sftp/Owners/Settled.antt =====
-- The owners of src/sftp_handlers.cpp and src/sftp_server.cpp free each handle once.
use mock_services.Base.{
  ℕ, zero, suc, ◌+◌, ◌≡◌, refl, inl, inr, Bool-cases, false, Option, Option-cases, none, some, List,
  [], ◌∷◌, ◌++◌, arith, nat_eq, nat_eq_iff, ap, ◌∙◌, nat_key, get_elem?,
}
use mock_services.Sftp.Listener.Ledger.{count, count-append}
use mock_services.Sftp.Owners.{
  Owner, Class, owner_of, Store, put, held, Use, made_of, moved_from, assigned, given_up,
  use_object, use_objects, free_objects, end_scope, no_objects,
}
use mock_services.Sftp.Owners.Members.{IsOwner, owner_of-IsOwner}

-- How many of the objects hold a handle.
abbrev pub owned : ℕ → List (Option ℕ) → ℕ
owned x [] = 0
owned x (p ∷ objects) = count x (held p) + owned x objects

owned-append :
    (x : ℕ) (objects : List (Option ℕ)) (p : Option ℕ)
    → owned x (objects ++ (p ∷ [])) ≡ owned x objects + count x (held p)
owned-append x [] p = omega arith
owned-append x (q ∷ objects) p = omega (arith, owned-append x objects p)

owned-put :
    (x : ℕ) (objects : List (Option ℕ)) (i : ℕ) (p v : Option ℕ)
    → get_elem? objects i ≡ some p
    → owned x (put objects i v) + count x (held p) ≡ owned x objects + count x (held v)
owned-put x [] i p v e = cc
owned-put x (q ∷ objects) zero p v e = let same : q ≡ p = cc in rw same (omega arith)
owned-put x (q ∷ objects) (suc i) p v e = omega (arith, owned-put x objects i p v e)

get-put :
    (objects : List (Option ℕ)) (i j : ℕ) (v : Option ℕ)
    → nat_eq i j ≡ false
    → get_elem? (put objects i v) j ≡ get_elem? objects j
get-put [] i j v e = refl
get-put (q ∷ objects) zero zero v e = ground arith
get-put (q ∷ objects) zero (suc j) v e = refl
get-put (q ∷ objects) (suc i) zero v e = refl
get-put (q ∷ objects) (suc i) (suc j) v e = get-put objects i j v (ground arith)

get-put_self :
    (objects : List (Option ℕ)) (i : ℕ) (p v : Option ℕ)
    → get_elem? objects i ≡ some p
    → get_elem? (put objects i v) i ≡ some v
get-put_self [] i p v e = cc
get-put_self (q ∷ objects) zero p v e = refl
get-put_self (q ∷ objects) (suc i) p v e = get-put_self objects i p v e

-- A handle that was made is held by an object, or was freed or released, as often as it was made.
abbrev pub IsSettled : Store → Type 0
IsSettled s = (x : ℕ) → count x s.made ≡ owned x s.objects + count x s.freed + count x s.released

module _ (o : Owner) (h : IsOwner o) where
  moved-IsSettled : (i : ℕ) (s : Store) → IsSettled s → IsSettled (use_object o (moved_from i) s)
  unfolding use_object
  moved-IsSettled i s settled = elim (Option-cases (get_elem? s.objects i)) [
    | inl e ↦ rw (use_object, e) settled
    | inr (p, e) ↦
        rw (use_object, e, h.move_construct_lem p)
          λ x.
            let was = settled x in
            omega (arith, owned-append x (put s.objects i none) p, owned-put x s.objects i p none e)
  ]

  given_up-IsSettled : (i : ℕ) (s : Store) → IsSettled s → IsSettled (use_object o (given_up i) s)
  unfolding use_object
  given_up-IsSettled i s settled = elim (Option-cases (get_elem? s.objects i)) [
    | inl e ↦ rw (use_object, e) settled
    | inr (p, e) ↦
        rw (use_object, e)
          λ x.
            let was = settled x in
            let (empty, books) = h.give_up_lem x p s.freed s.released in
            rw empty (omega (arith, owned-put x s.objects i p none e))
  ]

  assigned-IsSettled :
      (i j : ℕ) (s : Store) → IsSettled s → IsSettled (use_object o (assigned i j) s)
  unfolding use_object
  assigned-IsSettled i j s settled = elim (Option-cases (get_elem? s.objects i)) [
    | inl e ↦ rw (use_object, e) settled
    | inr (p, e) ↦ elim (Option-cases (get_elem? s.objects j)) [
      | inl e' ↦ rw (use_object, e, e') settled
      | inr (q, e') ↦ elim (Bool-cases (nat_eq i j)) [
        | inl same ↦
            rw (use_object, e, e', same, h.self_assign_lem p q s.freed)
              λ x.
                let ij : i ≡ j = (nat_eq_iff i j).0 same in
                let one : p ≡ q = cc in
                let again : get_elem? (put s.objects i p) j ≡ some p =
                  rw (← ij) (get-put_self s.objects i p p e) in
                let was = settled x in
                let equal = ap (λ v. count x (held v)) one in
                omega (
                  arith,
                  owned-put x s.objects i p p e,
                  owned-put x (put s.objects i p) j p q again,
                )
        | inr other ↦
            rw (use_object, e, e', other)
              λ x.
                let (this, null, books) = h.move_assign_lem x p q s.freed in
                let was = settled x in
                rw (this, null)
                  (omega (
                    arith,
                    owned-put x s.objects i p q e,
                    owned-put x (put s.objects i q) j q none (get-put s.objects i j q other ∙ e'),
                  ))
      ]
    ]
  ]

  use_object-IsSettled : (u : Use) (s : Store) → IsSettled s → IsSettled (use_object o u s)
  unfolding use_object
  use_object-IsSettled (made_of p) s settled = λ x.
      let was = settled x in
      omega (arith, owned-append x s.objects p, count-append x s.made (held p))
  use_object-IsSettled (moved_from i) s settled = moved-IsSettled i s settled
  use_object-IsSettled (assigned i j) s settled = assigned-IsSettled i j s settled
  use_object-IsSettled (given_up i) s settled = given_up-IsSettled i s settled

  use_objects-IsSettled :
      (uses : List Use) (s : Store) → IsSettled s → IsSettled (use_objects o uses s)
  unfolding use_objects
  use_objects-IsSettled [] s settled = settled
  use_objects-IsSettled (u ∷ uses) s settled =
      use_objects-IsSettled uses (use_object o u s) (use_object-IsSettled u s settled)

  free_objects_lem :
      (x : ℕ) (objects : List (Option ℕ)) (freed : List ℕ)
      → count x (free_objects o objects freed) ≡ count x freed + owned x objects
  unfolding free_objects
  free_objects_lem x [] freed = omega arith
  free_objects_lem x (p ∷ objects) freed =
      omega (arith, free_objects_lem x objects (o.destructor p freed).1, h.destructor_lem x p freed)

-- However objects of one of the five classes are constructed, moved, and reset or released, a handle
-- that was made is held by the objects, was freed, or was released, once for each time that it was
-- made; and at the end of their scope it has been freed or released as often. Nothing is written
-- through the pointer that `ssh_key_ptr::ptr` hands out.
pub use_objects-settles :
    (c : Class) (uses : List Use) (x : ℕ)
    → let s = use_objects (owner_of c) uses no_objects in
      let t = end_scope (owner_of c) s in
      (count x s.made ≡ owned x s.objects + count x s.freed + count x s.released)
      × (count x t.made ≡ count x t.freed + count x t.released)
unfolding end_scope
use_objects-settles c uses x =
    let h = owner_of-IsOwner c in
    let s = use_objects (owner_of c) uses no_objects in
    let books = use_objects-IsSettled (owner_of c) h uses no_objects (λ y. omega arith) x in
    (books, omega (arith, free_objects_lem (owner_of c) h x s.objects s.freed))
