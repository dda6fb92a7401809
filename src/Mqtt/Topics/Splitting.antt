-- ===== src/Mqtt/Topics/Splitting.antt =====
-- `split_topic` of src/mqtt_server.cpp takes a topic apart and loses nothing.
use mock_services.Base.{
  ◌≡◌, refl, sym, ◌∙◌, ◌≢◌, List, [], ◌∷◌, ◌++◌, append_assoc, append-nil, arith, All, All-append,
  Text, ℕ, inl, inr, nat_eq, Bool-cases, nat_eq_iff,
}
use mock_services.Mqtt.Topics.{split_loop, split_topic}

abbrev pub join : List Text → Text
join [] = []
join (segment ∷ []) = segment
join (segment ∷ next ∷ more) = segment ++ (b'/' ∷ join (next ∷ more))

abbrev pub IsSegment : Text → Type 0
IsSegment = All (λ (c : ℕ). c ≢ b'/')

join-cons :
    (current s topic : Text)
    → join (s ∷ split_loop current topic) ≡ s ++ (b'/' ∷ join (split_loop current topic))
unfolding split_loop
join-cons current s [] = refl
join-cons current s (c ∷ topic) = elim (Bool-cases (nat_eq c b'/')) [
  | inl e ↦ rw e
  | inr e ↦ rw e (join-cons (current ++ (c ∷ [])) s topic)
]

join-split_loop : (current topic : Text) → join (split_loop current topic) ≡ current ++ topic
unfolding split_loop
join-split_loop current [] = sym (append-nil current)
join-split_loop current (c ∷ topic) = elim (Bool-cases (nat_eq c b'/')) [
  | inl e ↦
      rw e (rw ((nat_eq_iff c b'/').0 e, join-cons [] current topic, join-split_loop [] topic) refl)
  | inr e ↦ rw e (join-split_loop (current ++ (c ∷ [])) topic ∙ append_assoc current (c ∷ []) topic)
]

split_loop-IsSegment :
    (current topic : Text) → IsSegment current → All IsSegment (split_loop current topic)
unfolding split_loop
split_loop-IsSegment current [] h = (h, tt)
split_loop-IsSegment current (c ∷ topic) h = elim (Bool-cases (nat_eq c b'/')) [
  | inl e ↦ rw e (h, split_loop-IsSegment [] topic tt)
  | inr e ↦ rw e (
      split_loop-IsSegment (current ++ (c ∷ [])) topic
        (All-append _ current (c ∷ []) h ((λ p. ground (arith, e)), tt)))
]

-- The segments of a topic hold no slash, and joined by slashes they are the topic again.
pub split_topic_lem :
    (topic : Text) → All IsSegment (split_topic topic) × (join (split_topic topic) ≡ topic)
unfolding split_topic
split_topic_lem topic = (split_loop-IsSegment [] topic tt, join-split_loop [] topic)
