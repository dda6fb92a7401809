-- ===== src/Mqtt/Topics.antt =====
-- src/mqtt_server.cpp, topic filters: `split_topic` and `topic_matches`.
pub mod Matching
pub mod Splitting
use mock_services.Base.{
  Bool, true, false, not, ◌||◌, List, [], ◌∷◌, ◌++◌, nat_eq, if◌then◌else◌, Text, text, ◌==◌,
  text_key,
}

-- The loop of `split_topic`; at the end of the topic it sees one more '/'.
unfoldable pub split_loop : Text → Text → List Text
split_loop current_segment [] = current_segment ∷ []
split_loop current_segment (character ∷ topic) =
    let closed = current_segment ∷ split_loop [] topic in
    let longer = split_loop (current_segment ++ (character ∷ [])) topic in
    if nat_eq character b'/' then closed else longer

unfoldable pub split_topic : Text → List Text
unfolding split_loop
split_topic topic = split_loop [] topic

-- The loop that looks for a "#" before the last segment.
unfoldable pub has_early_hash : List Text → Bool
has_early_hash [] = false
has_early_hash (segment ∷ []) = false
has_early_hash (segment ∷ next ∷ more) = segment == text "#" || has_early_hash (next ∷ more)

-- The `while` loop and the test behind it, on the segments that are left.
unfoldable pub match_segments : List Text → List Text → Bool
match_segments [] [] = true
match_segments [] (_ ∷ _) = false
match_segments (segment ∷ _) [] = segment == text "#"
match_segments (segment ∷ filters) (name ∷ names) =
    let rest = match_segments filters names in
    if segment == text "#"
    then true
    else if segment == text "+"
    then rest
    else if not (segment == name)
    then false
    else rest

unfoldable pub topic_matches : Text → Text → Bool
topic_matches filter topic =
    let filter_segments = split_topic filter in
    if has_early_hash filter_segments
    then false
    else match_segments filter_segments (split_topic topic)
