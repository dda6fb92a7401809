-- ===== src/Threads/Joining.antt =====
-- When `join_all` of include/mock-services/detail/thread_utils.h returns.
use mock_services.Base.{
  ℕ, ◌≡◌, refl, inl, inr, Bool, true, false, Bool-cases, none, some, [], ◌∷◌, map, if◌then◌else◌,
}
use mock_services.Threads.{ThreadGroup, join_all}

-- Whether every thread of the group comes to its end.
abbrev pub all_end : (ℕ → Bool) → ThreadGroup → Bool
all_end ends [] = true
all_end ends (entry ∷ threads) = if ends entry.thread then all_end ends threads else false

-- It returns exactly where every thread ends; it has then joined each in order, and the group is
-- empty.
pub join_all_lem :
    (ends : ℕ → Bool) (threads : ThreadGroup)
    → join_all ends threads
      ≡ (if all_end ends threads then some (map (λ entry. entry.thread) threads, []) else none)
unfolding join_all
join_all_lem ends [] = refl
join_all_lem ends (entry ∷ threads) = elim (Bool-cases (ends entry.thread)) [
  | inr e ↦ rw e refl
  | inl e ↦ elim (Bool-cases (all_end ends threads)) [
    | inl k ↦ rw (e, join_all_lem ends threads, k) refl
    | inr k ↦ rw (e, join_all_lem ends threads, k) refl
  ]
]
