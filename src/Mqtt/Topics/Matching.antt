-- ===== src/Mqtt/Topics/Matching.antt =====
-- `topic_matches` of src/mqtt_server.cpp decides the wildcard rules of MQTT.
use mock_services.Base.{
  ◌≡◌, refl, ◌≢◌, inl, inr, Bool-cases, ◌↔◌, true, false, ◌||◌, List, [], ◌∷◌, arith, Text, text,
  text_eq, text_eq_iff, text_eq_refl, text_key,
}
use mock_services.Mqtt.Topics.{split_topic, has_early_hash, match_segments, topic_matches}

-- The rules, segment by segment: "#" stands last and for all that remains, also for nothing; "+"
-- for one segment; any other segment for itself.
pub data Matches : List Text → List Text → Type 0 where
  done : Matches [] []
  hash : {f : Text} {names : List Text} → f ≡ text "#" → Matches (f ∷ []) names
  plus :
      {f name : Text} {filters names : List Text}
      → f ≡ text "+"
      → Matches filters names
      → Matches (f ∷ filters) (name ∷ names)
  same :
      {f name : Text} {filters names : List Text}
      → f ≢ text "#"
      → f ≢ text "+"
      → f ≡ name
      → Matches filters names
      → Matches (f ∷ filters) (name ∷ names)

plus-ne-hash : text_eq (text "+") (text "#") ≡ false
unfolding text_eq text
plus-ne-hash = refl

-- A segment that is not "#".
match_plain :
    (f name : Text) {filters names : List Text}
    → text_eq f (text "#") ≡ false
    → Matches filters names
    → (text_eq f (text "+") || text_eq f name) ≡ true
    → Matches (f ∷ filters) (name ∷ names)
match_plain f name h m e = elim (Bool-cases (text_eq f (text "+"))) [
  | inl is_plus ↦ plus ((text_eq_iff f (text "+")).0 is_plus) m
  | inr no_plus ↦
      same (λ p. ground (arith, text_eq_iff f (text "#")))
        (λ p. ground (arith, text_eq_iff f (text "+"))) ((text_eq_iff f name).0 (ground arith)) m
]

match_sound :
    (fs ns : List Text) → has_early_hash fs ≡ false → match_segments fs ns ≡ true → Matches fs ns
unfolding has_early_hash match_segments
match_sound [] [] h e = done
match_sound [] (n ∷ ns) h e = cc
match_sound (f ∷ []) [] h e = hash ((text_eq_iff f (text "#")).0 e)
match_sound (f ∷ g ∷ fs) [] h e = cc
match_sound (f ∷ []) (n ∷ ns) h e = elim (Bool-cases (text_eq f (text "#"))) [
  | inl is_hash ↦ hash ((text_eq_iff f (text "#")).0 is_hash)
  | inr no_hash ↦ match_plain f n no_hash (match_sound [] ns refl (ground arith)) (ground arith)
]
match_sound (f ∷ g ∷ fs) (n ∷ ns) h e = elim (Bool-cases (text_eq f (text "#"))) [
  | inl is_hash ↦ cc
  | inr no_hash ↦
      match_plain f n no_hash (match_sound (g ∷ fs) ns (ground arith) (ground arith)) (ground arith)
]

match_complete :
    {fs ns : List Text}
    → Matches fs ns
    → (has_early_hash fs ≡ false) × (match_segments fs ns ≡ true)
unfolding has_early_hash match_segments
match_complete done = (refl, refl)
match_complete (hash {names = []} e) = (refl, (text_eq_iff _ _).1 e)
match_complete (hash {f} {names = n ∷ ns} e) = (refl, ground (arith, text_eq_iff f (text "#")))
match_complete (plus {f} {filters = []} e m) =
    ground (arith, match_complete m, plus-ne-hash, text_eq_iff f (text "+"))
match_complete (plus {f} {filters = g ∷ fs} e m) =
    ground (arith, match_complete m, plus-ne-hash, text_eq_refl (text "+"))
match_complete (same {f} {name} {filters = []} p q e m) = ground (
  arith,
  match_complete m,
  text_eq_iff f (text "#"),
  text_eq_iff f (text "+"),
  text_eq_iff f name,
)
match_complete (same {f} {name} {filters = g ∷ fs} p q e m) = ground (
  arith,
  match_complete m,
  text_eq_iff f (text "#"),
  text_eq_iff f (text "+"),
  text_eq_iff f name,
)

-- A filter matches a topic exactly when its segments match the topic's by the wildcard rules.
pub topic_matches_iff :
    (filter topic : Text)
    → (topic_matches filter topic ≡ true) ↔ Matches (split_topic filter) (split_topic topic)
unfolding topic_matches
topic_matches_iff filter topic = (
  λ e. match_sound (split_topic filter) (split_topic topic) (ground arith) (ground arith),
  λ m. ground (arith, match_complete m),
)
