-- ===== src/Http/Rest/Dispatch.antt =====
-- Which response a request to src/rest_server.cpp gets.
use mock_services.Base.{
  ◌≡◌, refl, inl, inr, Bool, true, false, ◌||◌, Option, Option-cases, none, some, List, [], ◌∷◌,
  ◌++◌, Bool-cases, if◌then◌else◌, Text, text, text_eq, any, ◌∙◌, ap,
}
use mock_services.Http.Rest.Methods.{known_methods, registered_method_lem}
use mock_services.Http.Rest.{
  Outcome, thrown, Response, Request, Handler, Server, returned, registered_method, add_route,
  answer, respond, handle_request, route, when, build, then_return,
}

-- A route of the library: its method, its path and its handler.
abbrev pub Route : Type 0
Route = Text × Text × Handler

abbrev pub is_found : Option Handler → Bool
is_found none = false
is_found (some handler) = true

-- What a client gets from a handler: its response, or an error 500 for an exception.
abbrev pub answered : Outcome → Response
answered (returned resp) = resp
answered (thrown what) = record {
  status_code = 500;
  body = text "{\"error\":\"" ++ (what ++ text "\"}");
  content_type = text "application/json";
}

answer-answered : (outcome : Outcome) → answer outcome ≡ answered outcome
unfolding answer
answer-answered (returned resp) = refl
answer-answered (thrown what) = refl

-- Calls of `route`, in order.
abbrev pub route_all : List Route → Server → Server
route_all [] s = s
route_all ((method, path, handler) ∷ calls) s = route_all calls (route method path handler s)

-- The method of a route: one of the five known ones, or GET for any other.
abbrev pub method_of : Text → Text
method_of method = if any (text_eq method) known_methods then method else text "GET"

-- The handler of the first call whose method and path match the request.
abbrev pub first_matching : (Text → Text → Request → Bool) → Request → List Route → Option Handler
first_matching matches req [] = none
first_matching matches req ((method, path, handler) ∷ calls) =
    if matches (method_of method) path req then some handler else first_matching matches req calls

abbrev or_else : Option Handler → Option Handler → Option Handler
or_else (some earlier) later = some earlier
or_else none later = later

module _ (matches : Text → Text → Request → Bool)
    (find_route : List Route → Request → Option Handler) (unmatched : Response)
    (in_order : (routes : List Route) (method path : Text) (handler : Handler) (req : Request)
      → find_route (routes ++ ((method, path, handler) ∷ [])) req ≡ (elim (find_route routes req) [
        | some earlier ↦ some earlier
        | none ↦ if matches method path req then some handler else none
      ])) where
  -- Where the library tries the routes in the order in which they were registered, a response set by
  -- `when(method, path).then_return(builder)` answers exactly the requests that match it, under the
  -- method that it is registered for, and that no earlier route took; those are answered as
  -- before, with an error 500 for an exception. Every request that a route takes is added to the
  -- history, and no other.
  pub then_return-in_order :
      (method path : Text) (builder : Response) (req : Request) (s : Server)
      → let set = then_return (when method path) builder s in
        let matched = matches (registered_method method) path req in
        let (resp, s') = handle_request find_route unmatched req set in
        (resp ≡ (elim (find_route s.routes req) [
          | some earlier ↦ answer (earlier req)
          | none ↦ if matched then builder else unmatched
        ]))
        × (s'.requests ≡ (
            if is_found (find_route s.routes req) || matched
            then s.requests ++ (req ∷ [])
            else s.requests))
  unfolding then_return when route add_route build handle_request respond answer
  then_return-in_order method path builder req s =
      let matched = matches (registered_method method) path req in
      let added = in_order s.routes (registered_method method) path (λ r. returned builder) req in
      elim (Option-cases (find_route s.routes req)) [
        | inl e ↦ elim (Bool-cases matched) [
          | inl m ↦ rw (handle_request, added, e, m) (refl, refl)
          | inr m ↦ rw (handle_request, added, e, m) (refl, refl)
        ]
        | inr (earlier, e) ↦ rw (handle_request, added, e) (refl, refl)
      ]

  or_else-route :
      (method path : Text) (handler : Handler) (calls : List Route) (req : Request) (s : Server)
      → or_else
          (find_route (route method path handler s).routes req)
          (first_matching matches req calls)
        ≡ or_else
            (find_route s.routes req)
            (first_matching matches req ((method, path, handler) ∷ calls))
  unfolding route add_route
  or_else-route method path handler calls req s =
      let one = in_order s.routes (registered_method method) path handler req in
      let named = registered_method_lem method in
      elim (Option-cases (find_route s.routes req)) [
        | inr (earlier, e) ↦ rw (one, e) refl
        | inl e ↦ elim (Bool-cases (matches (method_of method) path req)) [
          | inl m ↦ rw (one, e, named, m) refl
          | inr m ↦ rw (one, e, named, m) refl
        ]
      ]

  found-route_all :
      (calls : List Route) (req : Request) (s : Server)
      → find_route (route_all calls s).routes req
        ≡ or_else (find_route s.routes req) (first_matching matches req calls)
  found-route_all [] req s = elim (Option-cases (find_route s.routes req)) [
    | inl e ↦ rw e refl
    | inr (earlier, e) ↦ rw e refl
  ]
  found-route_all ((method, path, handler) ∷ calls) req s =
      found-route_all calls req (route method path handler s)
      ∙ or_else-route method path handler calls req s

  route_all-requests : (calls : List Route) (s : Server) → (route_all calls s).requests ≡ s.requests
  unfolding route add_route
  route_all-requests [] s = refl
  route_all-requests ((method, path, handler) ∷ calls) s =
      route_all-requests calls (route method path handler s)

  -- Where the library tries the routes in the order of their registration, and a server that has none
  -- gets any number of them by `route`: a request is answered by the handler of the first call whose
  -- method, or GET for a method that is none of the five known ones, and path match it, with an
  -- error 500 for an exception, and is added to the history; where none does, the library
  -- answers it, and the history stays as it was.
  pub handle_request-in_order :
      (calls : List Route) (req : Request) (s : Server)
      → find_route s.routes req ≡ none
      → let (resp, s') = handle_request find_route unmatched req (route_all calls s) in
        let first = first_matching matches req calls in
        (resp ≡ (elim first [ none ↦ unmatched | some handler ↦ answered (handler req) ]))
        × (s'.requests ≡ (if is_found first then s.requests ++ (req ∷ []) else s.requests))
  unfolding handle_request respond
  handle_request-in_order calls req s empty =
      let found : find_route (route_all calls s).routes req ≡ first_matching matches req calls =
        found-route_all calls req s
        ∙ ap (λ found. or_else found (first_matching matches req calls)) empty in
      elim (Option-cases (first_matching matches req calls)) [
        | inl e ↦ rw (handle_request, found, e) (refl, route_all-requests calls s)
        | inr (handler, e) ↦
            rw (handle_request, found, e)
              (answer-answered (handler req), rw (route_all-requests calls s) refl)
      ]
