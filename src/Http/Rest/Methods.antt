-- ===== src/Http/Rest/Methods.antt =====
-- The methods that `add_route` of src/rest_server.cpp registers.
use mock_services.Base.{
  ◌≡◌, arith, Text, if◌then◌else◌, text, text_eq, text_eq_iff, text_key, [], List, ◌∷◌, any,
}
use mock_services.Http.Rest.{registered_method}

-- The methods that have a route of their own.
abbrev pub known_methods : List Text
known_methods = text "GET" ∷ text "POST" ∷ text "PUT" ∷ text "DELETE" ∷ text "PATCH" ∷ []

-- A route of one of the five known methods is registered under that method, and a route of any
-- other method under GET.
pub registered_method_lem :
    (method : Text)
    → registered_method method ≡ (if any (text_eq method) known_methods then method else text "GET")
unfolding registered_method
registered_method_lem method = ground (
  arith,
  text_eq_iff method (text "GET"),
  text_eq_iff method (text "POST"),
  text_eq_iff method (text "PUT"),
  text_eq_iff method (text "DELETE"),
  text_eq_iff method (text "PATCH"),
)
