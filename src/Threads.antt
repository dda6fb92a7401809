-- ===== src/Threads.antt =====
-- include/mock-services/detail/thread_utils.h: the threads of a server with their stop flags.
pub mod Joining
use mock_services.Base.{ℕ, Bool, Option, none, some, List, [], ◌∷◌, ◌++◌, if◌then◌else◌}

pub record Entry : Type 0 where
  pub thread : ℕ
  pub done : Bool

abbrev pub ThreadGroup : Type 0
ThreadGroup = List Entry

unfoldable pub add : Entry → ThreadGroup → ThreadGroup
add entry threads = threads ++ (entry ∷ [])

-- Joins and drops the threads whose flag is set; the result is those that were joined and the
-- group.
unfoldable pub join_finished : ThreadGroup → List ℕ × ThreadGroup
join_finished [] = ([], [])
join_finished (entry ∷ threads) =
    let (joined, kept) = join_finished threads in
    if entry.done then (entry.thread ∷ joined, kept) else (joined, entry ∷ kept)

-- Joins every thread, in order, where `ends` tells which of them come to their end; one that does
-- not is waited for for ever, which is `none`. The result is those that were joined and the group.
unfoldable pub join_all : (ℕ → Bool) → ThreadGroup → Option (List ℕ × ThreadGroup)
join_all ends [] = some ([], [])
join_all ends (entry ∷ threads) =
    let rest : Option (List ℕ × ThreadGroup) = elim (join_all ends threads) [
      | none ↦ none
      | some (joined, kept) ↦ some (entry.thread ∷ joined, kept)
    ] in
    if ends entry.thread then rest else none
