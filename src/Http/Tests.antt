-- ===== src/Http/Tests.antt =====
-- The theorems on src/rest_server.cpp and src/soap_server.cpp at concrete requests.
use mock_services.Base.{
  ◌≡◌, refl, inl, inr, Bool, Bool-cases, true, ◌&&◌, ◌||◌, Option, none, some, List, [], ◌∷◌, ◌++◌,
  Text, ◌==◌, text_key, if◌then◌else◌, pair_beq,
}
use mock_services.Http.Rest
use mock_services.Http.Rest.{Request, Response, registered_method, answer, when, then_return}
use mock_services.Http.Rest.Dispatch
use mock_services.Http.Rest.Dispatch.{
  Route, is_found, route_all, first_matching, handle_request-in_order,
}
use mock_services.Http.Soap.{
  Handler, HttpRequest, Server, Xml, returned, add_route, soap_request, handle_request,
  HttpResponse, is_posted, post,
}
use mock_services.Http.Soap.Dispatch.{answered, post-add_route}

abbrev action : Text
action = b'u' ∷ b'r' ∷ b'n' ∷ []

abbrev path : Text
path = b'/' ∷ []

abbrev req : HttpRequest
req = record {
  path = path;
  body = 1 ∷ [];
  content_type = none;
  soap_action = some (b'"' ∷ (action ++ (b'"' ∷ [])));
}

abbrev server : Server
server = record { running = true; port = 80; handlers = []; paths = []; posts = []; requests = [] }

abbrev handler : Handler
handler req = returned (record { status_code = 200; body = req.body })

abbrev print : Xml → Text
print xml = []

abbrev missing : HttpResponse
missing = record { status = 404; body = []; content_type = [] }

abbrev same : Text → Text → Bool
same pattern target = pattern == target

post-add_route_example :
    let (resp, s') = post print same missing req (add_route path action handler server) in
    let taken = is_posted same path [] || (path == path) in
    (resp ≡ (
      if taken
      then (if pair_beq (path, action) (path, action)
          then answered print (soap_request req) (handler (soap_request req))
          else (handle_request print req server).0)
      else missing))
    × (s'.requests ≡ (if taken then soap_request req ∷ [] else []))
post-add_route_example =
    post-add_route print same missing path action handler req action server refl refl

-- A library that takes the first route with the method and the path of the request.
abbrev matches : Text → Text → Request → Bool
matches method target request = method == request.method && target == request.path

find_route : List Route → Request → Option Rest.Handler
find_route [] request = none
find_route ((method, target, h) ∷ routes) request =
    let later = find_route routes request in if matches method target request then some h else later

find_route-in_order :
    (routes : List Route) (method target : Text) (h : Rest.Handler) (request : Request)
    → find_route (routes ++ ((method, target, h) ∷ [])) request
      ≡ (elim (find_route routes request) [
        | some earlier ↦ some earlier
        | none ↦ if matches method target request then some h else none
      ])
unfolding find_route
find_route-in_order [] method target h request = refl
find_route-in_order ((m, p, g) ∷ routes) method target h request =
    elim (Bool-cases (matches m p request)) [
      | inl e ↦ rw e refl
      | inr e ↦ rw e (find_route-in_order routes method target h request)
    ]

abbrev get : Text
get = b'G' ∷ b'E' ∷ b'T' ∷ []

abbrev hello : Request
hello = record { method = get; path = path; body = [] }

abbrev not_found : Response
not_found = record { status_code = 404; body = []; content_type = [] }

abbrev greeting : Response
greeting = record { status_code = 200; body = 1 ∷ []; content_type = [] }

abbrev rest_server : Rest.Server
rest_server = record { running = true; port = 80; routes = []; requests = [] }

abbrev options : Text
options = b'O' ∷ []

abbrev calls : List Route
calls =
    (options, action, (λ r. Rest.thrown [])) ∷ (options, path, (λ r. Rest.returned greeting)) ∷ []

find_route-empty : find_route [] hello ≡ none
unfolding find_route
find_route-empty = refl

handle_request-in_order_example :
    let (resp, s') = Rest.handle_request find_route not_found hello (route_all calls rest_server) in
    let first = first_matching matches hello calls in
    (resp ≡ (elim first [ none ↦ not_found | some h ↦ Dispatch.answered (h hello) ]))
    × (s'.requests ≡ (if is_found first then hello ∷ [] else []))
handle_request-in_order_example =
    handle_request-in_order matches find_route not_found find_route-in_order calls hello rest_server
      find_route-empty
