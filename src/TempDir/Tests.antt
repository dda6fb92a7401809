-- ===== src/TempDir/Tests.antt =====
-- The theorems on src/temp_dir.cpp at a concrete directory.
use mock_services.Base.{true, List, [], ◌∷◌, Text, none, arith, ◌≢◌}
use mock_services.TempDir.{leaf, folder, Entries, end, entry, temp_path, unique_id}
use mock_services.TempDir.Naming.{temp_path_differs}

abbrev dir : Text
dir = b'/' ∷ b't' ∷ []

-- Itself, a file, and a directory with a file of the same name.
abbrev entries : Entries
entries = entry (b'.' ∷ []) leaf (
    entry (b'a' ∷ []) leaf
      (entry (b'a' ∷ b'a' ∷ []) (folder true (entry (b'a' ∷ []) leaf end)) end))

-- A directory beside it whose name begins with the same letters.
abbrev beside : List Text
beside = (b'/' ∷ b't' ∷ b'x' ∷ []) ∷ []

temp_path_differs_example :
    temp_path none (b'm' ∷ []) (unique_id 77 268435473 18)
    ≢ temp_path none (b'm' ∷ []) (unique_id 77 268435474 2)
temp_path_differs_example =
    temp_path_differs none (b'm' ∷ []) 77 268435473 268435474 18 2 (omega arith) (omega arith)
      (omega arith) (omega arith) (omega arith)
