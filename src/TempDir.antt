-- ===== src/TempDir.antt =====
-- src/temp_dir.cpp: how a temporary directory is named, and how its destructor removes it.
mod Tests
pub mod Paths
pub mod Erasing
pub mod Naming
use mock_services.Base.{
  ℕ, zero, suc, ◌+◌, ◌/◌, ◌%◌, ltb, nat_eq, Bool, true, false, Option, none, some, List, [], ◌∷◌,
  ◌++◌, ◌||◌, Text, text, ◌==◌, text_key, if◌then◌else◌,
}

-- The digits that `%x` prints; each round takes one, so more rounds than `n` are never needed.
unfoldable pub hex_digit : ℕ → ℕ
hex_digit d = if ltb d 10 then b'0' + d else 87 + d

unfoldable pub hex_digits : ℕ → ℕ → Text
hex_digits zero n = []
hex_digits (suc rounds) n =
    let front = hex_digits rounds (n / 16) in
    let last : Text = hex_digit (n % 16) ∷ [] in if ltb n 16 then last else front ++ last

unfoldable pub to_hex : ℕ → Text
to_hex n = hex_digits (suc n) n

-- `unique_id`, from what `getpid`, `time` and the counter give, which are 32 bits wide.
unfoldable pub unique_id : ℕ → ℕ → ℕ → Text
unique_id pid timestamp current_count = to_hex pid ++ to_hex timestamp ++ to_hex current_count

unfoldable pub ends_in_slash : Text → Bool
ends_in_slash [] = false
ends_in_slash (c ∷ []) = nat_eq c b'/' || nat_eq c b'\\'
ends_in_slash (c ∷ next ∷ path) = ends_in_slash (next ∷ path)

-- The path that the constructor of `TempDir` makes, from the value of TMPDIR, the prefix and the id;
-- with whether `mkdir` works, where `none` is the exception.
abbrev pub temp_root : Option Text → Text
temp_root (some (c ∷ path)) = c ∷ path
temp_root _ = text "/tmp"

unfoldable pub temp_path : Option Text → Text → Text → Text
temp_path temp_dir_env name_prefix id =
    let root = temp_root temp_dir_env in
    (if ends_in_slash root then root else root ++ (b'/' ∷ [])) ++ (name_prefix ++ id)

unfoldable pub make_dir : (Text → Bool) → Text → Option Text
make_dir mkdir path = if mkdir path then some path else none

-- What the loop over a directory finds under a name: a directory, with whether `opendir` works on it
-- and what `readdir` gives; a symbolic link to a directory, with the same of that directory, which
-- `stat` does not tell apart; or anything else.
mutual
  pub data Node : Type 0 where
    leaf : Node
    folder : Bool → Entries → Node
    link : Bool → Entries → Node

  pub data Entries : Type 0 where
    end : Entries
    entry : Text → Node → Entries → Entries

pub data Call : Type 0 where
  unlink rmdir : Text → Call

abbrev pub is_dots : Text → Bool
is_dots name = name == text "." || name == text ".."

-- `dir + "/" + entry->d_name`
abbrev pub child_path : Text → Text → Text
child_path dir name = dir ++ (b'/' ∷ name)

-- `erase_all` around the calls of its loop.
abbrev pub around : Text → Bool → List Call → List Call
around dir can_open calls = (if can_open then calls else []) ++ (rmdir dir ∷ [])

-- The loop of `erase_all`, and what it does with one entry, as the calls that are made.
unfoldable mutual
  pub erase_entries : Text → Entries → List Call
  erase_entries dir end = []
  erase_entries dir (entry name node entries) =
      (if is_dots name then [] else erase_entry (child_path dir name) node)
      ++ erase_entries dir entries

  pub erase_entry : Text → Node → List Call
  erase_entry path leaf = unlink path ∷ []
  erase_entry path (folder can_open entries) =
      around path can_open (erase_entries path entries) ++ (rmdir path ∷ [])
  erase_entry path (link can_open entries) =
      around path can_open (erase_entries path entries) ++ (rmdir path ∷ [])

unfoldable pub erase_all : Text → Bool → Entries → List Call
erase_all dir can_open entries = around dir can_open (erase_entries dir entries)
