-- ===== src/Http/Rest.antt =====
-- src/rest_server.cpp and `response_builder` of src/http_common.cpp.
pub mod Methods
pub mod Dispatch
use mock_services.Base.{
  ℕ, zero, suc, Bool, true, false, Option, none, some, List, [], ◌∷◌, ◌++◌, if◌then◌else◌, Text,
  text, to_string, ◌==◌, text_key,
}

pub record Response : Type 0 where
  pub status_code : ℕ
  pub body : Text
  pub content_type : Text

-- `response_builder`, which starts as `response_builder {}` in the header.
unfoldable pub status : ℕ → Response → Response
status code builder = record builder { status_code = code }

unfoldable pub content_type : Text → Response → Response
content_type type builder = record builder { content_type = type }

unfoldable pub body : Text → Response → Response
body content builder = record builder { body = content }

unfoldable pub build : Response → Response
build builder = record {
  status_code = builder.status_code;
  body = builder.body;
  content_type = builder.content_type;
}

pub record Request : Type 0 where
  pub method : Text
  pub path : Text
  pub body : Text

-- A handler returns a response or throws an exception with its text.
pub data Outcome : Type 0 where
  returned : Response → Outcome
  thrown : Text → Outcome

abbrev pub Handler : Type 0
Handler = Request → Outcome

-- The table that the routing library keeps: the method under which a route was registered, its
-- path, and the handler.
pub record Server : Type 0 where
  pub running : Bool
  pub port : ℕ
  pub routes : List (Text × Text × Handler)
  pub requests : List Request

-- The method that `add_route` registers a route for.
unfoldable pub registered_method : Text → Text
registered_method method =
    if method == text "GET"
    then text "GET"
    else if method == text "POST"
    then text "POST"
    else if method == text "PUT"
    then text "PUT"
    else if method == text "DELETE"
    then text "DELETE"
    else if method == text "PATCH"
    then text "PATCH"
    else text "GET"

unfoldable pub add_route : Text → Text → Handler → Server → Server
add_route method path handler s = record s {
  routes = s.routes ++ ((registered_method method, path, handler) ∷ []);
}

unfoldable pub answer : Outcome → Response
answer (returned resp) = resp
answer (thrown what) = record {
  status_code = 500;
  body = text "{\"error\":\"" ++ (what ++ text "\"}");
  content_type = text "application/json";
}

-- The callback of one route: the history first, then the handler.
unfoldable pub respond : Handler → Request → Server → Response × Server
respond handler req s = (answer (handler req), record s { requests = s.requests ++ (req ∷ []) })

-- A request as the library hands it over: `find_route` is its choice among the routes, and `unmatched`
-- what it answers where it finds none.
unfoldable pub handle_request :
    (List (Text × Text × Handler) → Request → Option Handler)
    → Response
    → Request
    → Server
    → Response × Server
handle_request find_route unmatched req s = elim (find_route s.routes req) [
  | none ↦ (unmatched, s)
  | some handler ↦ respond handler req s
]

-- `route`
unfoldable pub route : Text → Text → Handler → Server → Server
route = add_route

-- What `when` returns, without its reference to the server.
pub record ResponseSetter : Type 0 where
  pub method : Text
  pub path : Text

unfoldable pub when : Text → Text → ResponseSetter
when method path = record { method = method; path = path }

unfoldable pub then_return : ResponseSetter → Response → Server → Server
then_return setter builder =
    let resp = build builder in route setter.method setter.path λ req. returned resp

unfoldable pub requests : Server → List Request
requests s = s.requests

unfoldable pub clear_requests : Server → Server
clear_requests s = record s { requests = [] }

-- `start` with the port that the library binds, which is not positive where that fails. The flag is
-- false for an exception; a failed bind has set the port.
unfoldable pub start : ℕ → Server → Bool × Server
start port s =
    let bound : Bool × Server = elim port [
      | zero ↦ (false, record s { port = 0 })
      | suc p ↦ (true, record s { port = suc p; running = true })
    ] in
    if s.running then (false, s) else bound

unfoldable pub stop : Server → Server
stop s = if s.running then record s { running = false } else s

unfoldable pub base_url : Server → Option Text
base_url s = if s.running then some (text "http://127.0.0.1:" ++ to_string s.port) else none
