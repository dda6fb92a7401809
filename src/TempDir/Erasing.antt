-- ===== src/TempDir/Erasing.antt =====
-- What `erase_all` of src/temp_dir.cpp leaves of a file system.
use mock_services.Base.{
  ◌≡◌, ◌≢◌, refl, sym, ap, ◌∙◌, inl, inr, Bool-cases, true, false, List, [], ◌∷◌, ◌++◌,
  append_assoc, any, All, All-append, arith, Text, nat_eq, text_eq_iff, text_eq_refl, ◌==◌,
  text_key, if◌then◌else◌, if_split,
}
use mock_services.TempDir.{
  Node, leaf, around, folder, link, Entries, end, entry, Call, unlink, rmdir, is_dots, child_path,
  erase_entries, erase_entry,
}
use mock_services.TempDir.Paths.{
  within, below, children_meet, child_within, child_not_dir, within_refl,
}

abbrev pub without : Text → List Text → List Text
without path [] = []
without path (other ∷ paths) =
    if path == other then without path paths else other ∷ without path paths

-- A file system, as the paths that exist. `rmdir` fails on a directory that is not empty. It has no
-- symbolic links to directories, through which one file would have two paths.
abbrev pub execute : List Call → List Text → List Text
execute [] paths = paths
execute (unlink path ∷ calls) paths = execute calls (without path paths)
execute (rmdir path ∷ calls) paths =
    execute calls (if any (below path) paths then paths else without path paths)

-- The paths that exist below a directory with the given entries.
abbrev mutual
  pub paths_below : Text → Entries → List Text
  paths_below dir end = []
  paths_below dir (entry name node entries) =
      (if is_dots name then [] else paths_of (child_path dir name) node) ++ paths_below dir entries

  pub paths_of : Text → Node → List Text
  paths_of path leaf = path ∷ []
  paths_of path (folder can_open entries) = paths_below path entries ++ (path ∷ [])
  paths_of path (link can_open entries) = path ∷ []

abbrev pub IsFresh : Text → Entries → Type 0
IsFresh name end = Unit
IsFresh name (entry other node entries) = (name ≢ other) × IsFresh name entries

-- Names hold no slash and differ within a directory, every directory can be opened, and there is no
-- symbolic link to a directory.
abbrev mutual
  pub IsErasable : Entries → Type 0
  IsErasable end = Unit
  IsErasable (entry name node entries) =
      All (λ c. nat_eq c b'/' ≡ false) name
      × IsFresh name entries
      × IsOpen node
      × IsErasable entries

  pub IsOpen : Node → Type 0
  IsOpen leaf = Unit
  IsOpen (folder can_open entries) = (can_open ≡ true) × IsErasable entries
  IsOpen (link can_open entries) = ⊥

abbrev pub IsClear : Text → List Text → Type 0
IsClear dir paths = All (λ path. within dir path ≡ false) paths

All-map {ℓ κ μ} :
    {A : Type ℓ} {P : A → Type κ} {Q : A → Type μ}
    → ((x : A) → P x → Q x)
    → (xs : List A) → All P xs
    → All Q xs
All-map f [] h = tt
All-map f (x ∷ xs) (h, k) = (f x h, All-map f xs k)

without-clear : (dir : Text) (paths : List Text) → IsClear dir paths → without dir paths ≡ paths
without-clear dir [] h = refl
without-clear dir (path ∷ paths) (h, k) = elim (Bool-cases (dir == path)) [
  | inl same ↦
      let is = (text_eq_iff dir path).0 same in
      let outside : within dir dir ≡ false = rw (sym is) at h in let inside = within_refl dir in cc
  | inr differs ↦ rw differs (ap (λ ps. path ∷ ps) (without-clear dir paths k))
]

clear_below : (dir : Text) (paths : List Text) → IsClear dir paths → any (below dir) paths ≡ false
clear_below dir [] h = refl
clear_below dir (path ∷ paths) (h, k) = rw (h, clear_below dir paths k) refl

execute-append :
    (front back : List Call) (paths : List Text)
    → execute (front ++ back) paths ≡ execute back (execute front paths)
execute-append [] back paths = refl
execute-append (unlink path ∷ front) back paths = execute-append front back _
execute-append (rmdir path ∷ front) back paths = execute-append front back _

-- An empty directory goes; one that is gone stays so.
rmdir_empty :
    (dir : Text) (paths : List Text)
    → IsClear dir paths
    → (execute (rmdir dir ∷ []) (dir ∷ paths) ≡ paths) × (execute (rmdir dir ∷ []) paths ≡ paths)
rmdir_empty dir paths h =
    let none_below = clear_below dir paths h in
    let same = (text_eq_iff dir dir).1 refl in
    (
      rw (within_refl dir, same, none_below) (without-clear dir paths h),
      rw none_below (without-clear dir paths h),
    )

mutual
  below-within :
      (dir : Text) (entries : Entries)
      → All (λ path. within dir path ≡ true) (paths_below dir entries)
  below-within dir end = tt
  below-within dir (entry name node entries) =
      All-append (λ path. within dir path ≡ true) _ (paths_below dir entries)
        (if_split (All (λ path. within dir path ≡ true)) (is_dots name) [] _ (λ e. tt)
          (λ e. All-map (child_within dir name) _ (of-within (child_path dir name) node)))
        (below-within dir entries)

  of-within : (path : Text) (node : Node) → All (λ p. within path p ≡ true) (paths_of path node)
  of-within path leaf = (within_refl path, tt)
  of-within path (folder can_open entries) =
      All-append (λ p. within path p ≡ true) (paths_below path entries) (path ∷ [])
        (below-within path entries) (within_refl path, tt)
  of-within path (link can_open entries) = (within_refl path, tt)

-- What stands below the entries of a directory is clear of an entry with a new name.
siblings-IsClear :
    (dir name : Text) (entries : Entries)
    → All (λ c. nat_eq c b'/' ≡ false) name
    → IsFresh name entries
    → IsErasable entries
    → IsClear (child_path dir name) (paths_below dir entries)
siblings-IsClear dir name end h fresh er = tt
siblings-IsClear dir name (entry other node entries) h (differs, fresh) (k, _, _, er) =
    All-append (λ path. within (child_path dir name) path ≡ false) _ (paths_below dir entries)
      (if_split (IsClear (child_path dir name)) (is_dots other) [] _ (λ e. tt)
        (λ e. All-map apart _ (of-within (child_path dir other) node)))
      (siblings-IsClear dir name entries h fresh er)
  where
    apart :
        (path : Text)
        → within (child_path dir other) path ≡ true
        → within (child_path dir name) path ≡ false
    apart path there = elim (Bool-cases (within (child_path dir name) path)) [
      | inl here ↦ elim (differs (children_meet dir name other path h k here there)) [ ]
      | inr outside ↦ outside
    ]

-- No path is at or below an entry.
abbrev pub IsClearOf : Text → List Text → Entries → Type 0
IsClearOf dir paths end = Unit
IsClearOf dir paths (entry name node entries) =
    IsClear (child_path dir name) paths × IsClearOf dir paths entries

clear_children :
    (dir : Text) (paths : List Text) (entries : Entries)
    → IsClear dir paths
    → IsClearOf dir (dir ∷ paths) entries
clear_children dir paths end h = tt
clear_children dir paths (entry name node entries) h =
    ((child_not_dir dir name, All-map (outside name) paths h), clear_children dir paths entries h)
  where
    outside :
        (name path : Text) → within dir path ≡ false → within (child_path dir name) path ≡ false
    outside name path h = ground (arith, child_within dir name path)

around-erased :
    (dir : Text) (calls : List Call) (paths rest : List Text)
    → execute calls (paths ++ (dir ∷ rest)) ≡ dir ∷ rest
    → IsClear dir rest
    → execute (around dir true calls) ((paths ++ (dir ∷ [])) ++ rest) ≡ rest
around-erased dir calls paths rest emptied h = rw (append_assoc paths (dir ∷ []) rest) (
    execute-append calls (rmdir dir ∷ []) (paths ++ (dir ∷ rest))
    ∙ ap (execute (rmdir dir ∷ [])) emptied
    ∙ (rmdir_empty dir rest h).0)

mutual
  unfolding erase_entries erase_entry

  entries-erased :
      (dir : Text) (entries : Entries) (rest : List Text)
      → IsErasable entries
      → IsClearOf dir rest entries
      → execute (erase_entries dir entries) (paths_below dir entries ++ rest) ≡ rest
  entries-erased dir end rest er clear = refl
  entries-erased dir (entry name node entries) rest (plain, fresh, is_open, er) (c, clear) =
      elim (Bool-cases (is_dots name)) [
        | inl dots ↦ rw dots (entries-erased dir entries rest er clear)
        | inr named ↦
            let child = child_path dir name in
            let later = paths_below dir entries ++ rest in
            let apart =
              All-append (λ path. within child path ≡ false) (paths_below dir entries) rest
                (siblings-IsClear dir name entries plain fresh er) c in
            rw (named, append_assoc (paths_of child node) (paths_below dir entries) rest)
              (execute-append (erase_entry child node) (erase_entries dir entries)
                  (paths_of child node ++ later)
                ∙ ap (execute (erase_entries dir entries))
                    (entry-erased child node later is_open apart)
                ∙ entries-erased dir entries rest er clear)
      ]

  entry-erased :
      (path : Text) (node : Node) (rest : List Text)
      → IsOpen node
      → IsClear path rest
      → execute (erase_entry path node) (paths_of path node ++ rest) ≡ rest
  entry-erased path leaf rest is_open clear = rw (text_eq_refl path) (without-clear path rest clear)
  entry-erased path (link can_open entries) rest is_open clear = elim is_open [ ]
  entry-erased path (folder can_open entries) rest (e, er) clear = rw e (
      execute-append (around path true (erase_entries path entries)) (rmdir path ∷ []) _
      ∙ ap (execute (rmdir path ∷ [])) (
          around-erased path (erase_entries path entries) (paths_below path entries) rest
            (entries-erased path entries (path ∷ rest) er (clear_children path rest entries clear))
            clear)
      ∙ (rmdir_empty path rest clear).1)
