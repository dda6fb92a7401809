-- ===== src/Http/Soap.antt =====
-- src/soap_server.cpp. The headers of a request are what the HTTP library finds under a name.
pub mod Dispatch
use mock_services.Base.{
  ℕ, suc, zero, Bool, true, false, ◌&&◌, Option, none, some, List, [], ◌∷◌, ◌++◌, nat_eq,
  if◌then◌else◌, Text, text, to_string, ◌==◌, text_key, pair_key,
}
use mock_services.Base.Dict.{Dict, find, assign}

pub data SoapVersion : Type 0 where
  v1_1 v1_2 : SoapVersion

pub record SoapRequest : Type 0 where
  pub path : Text
  pub soap_action : Text
  pub body : Text
  pub version : SoapVersion

pub record SoapResponse : Type 0 where
  pub status_code : ℕ
  pub body : Text

pub data Outcome : Type 0 where
  returned : SoapResponse → Outcome
  thrown : Text → Outcome

abbrev pub Handler : Type 0
Handler = SoapRequest → Outcome

-- What the HTTP library hands over, with the two headers that are looked up.
pub record HttpRequest : Type 0 where
  pub path : Text
  pub body : Text
  pub content_type : Option Text
  pub soap_action : Option Text

pub record HttpResponse : Type 0 where
  pub status : ℕ
  pub body : Text
  pub content_type : Text

pub record Server : Type 0 where
  pub running : Bool
  pub port : ℕ
  pub handlers : Dict (Text × Text) Handler
  pub paths : List Text
  pub posts : List Text
  pub requests : List SoapRequest

-- The document that `fault` builds, as a tree; the XML library prints it.
mutual
  pub data Xml : Type 0 where
    leaf : Text → Text → Xml
    node : Text → List (Text × Text) → Children → Xml

  pub data Children : Type 0 where
    no_more : Children
    child : Xml → Children → Children

abbrev pub only : Xml → Children
only xml = child xml no_more

unfoldable pub fault_document : SoapVersion → Text → Text → Xml
fault_document v1_1 faultcode faultstring =
    node (text "soap:Envelope")
      ((text "xmlns:soap", text "http://schemas.xmlsoap.org/soap/envelope/") ∷ [])
      (only (
        node (text "soap:Body") [] (
          only (
            node (text "soap:Fault") [] (
              child (leaf (text "faultcode") faultcode)
                (only (leaf (text "faultstring") faultstring)))))))
fault_document v1_2 faultcode faultstring =
    node (text "env:Envelope")
      ((text "xmlns:env", text "http://www.w3.org/2003/05/soap-envelope") ∷ [])
      (only (
        node (text "env:Body") [] (
          only (
            node (text "env:Fault") [] (
              child (node (text "env:Code") [] (only (leaf (text "env:Value") faultcode))) (
                only (node (text "env:Reason") [] (only (leaf (text "env:Text") faultstring)))))))))

-- Whether `part` occurs in the text.
abbrev pub begins : Text → Text → Bool
begins [] s = true
begins (a ∷ part) [] = false
begins (a ∷ part) (b ∷ s) = nat_eq a b && begins part s

unfoldable pub contains : Text → Text → Bool
contains part [] = begins part []
contains part (b ∷ s) = let later = contains part s in if begins part (b ∷ s) then true else later

unfoldable pub version_of : Option Text → SoapVersion
version_of none = v1_1
version_of (some header) = if contains (text "application/soap+xml") header then v1_2 else v1_1

-- The text without its last byte, where that is a quotation mark.
unfoldable pub drop_last_quote : Text → Option Text
drop_last_quote [] = none
drop_last_quote (b ∷ []) = if nat_eq b b'"' then some [] else none
drop_last_quote (b ∷ next ∷ s) = elim (drop_last_quote (next ∷ s)) [
  | none ↦ none
  | some rest ↦ some (b ∷ rest)
]

-- The quotation marks around an action, where it has both.
unfoldable pub unquote : Text → Text
unquote [] = []
unquote (b ∷ s) =
    let inner : Text = elim (drop_last_quote s) [ none ↦ b ∷ s | some rest ↦ rest ] in
    if nat_eq b b'"' then inner else b ∷ s

unfoldable pub action_of : Option Text → Text
action_of none = []
action_of (some header) = unquote header

unfoldable pub content_type_for : SoapVersion → Text
content_type_for v1_1 = text "text/xml; charset=utf-8"
content_type_for v1_2 = text "application/soap+xml; charset=utf-8"

abbrev pub has_path : Text → List Text → Bool
has_path path [] = false
has_path path (other ∷ paths) = if other == path then true else has_path path paths

-- The library learns of a path once; `paths` is a set.
unfoldable pub add_route : Text → Text → Handler → Server → Server
add_route path soap_action handler s =
    let handlers = assign (path, soap_action) handler s.handlers in
    if has_path path s.paths then record s { handlers = handlers } else record s {
      handlers = handlers;
      paths = s.paths ++ (path ∷ []);
      posts = s.posts ++ (path ∷ []);
    }

unfoldable pub soap_request : HttpRequest → SoapRequest
soap_request req = record {
  path = req.path;
  soap_action = action_of req.soap_action;
  body = req.body;
  version = version_of req.content_type;
}

module _ (print : Xml → Text) where
  -- `soap_response::fault`
  unfoldable pub fault : ℕ → Text → Text → SoapVersion → SoapResponse
  fault status_code faultcode faultstring version = record {
    status_code = status_code;
    body = print (fault_document version faultcode faultstring);
  }

  unfoldable pub outcome_response : SoapVersion → Outcome → SoapResponse
  outcome_response version (returned resp) = resp
  outcome_response version (thrown what) = fault 500 (text "soap:Server") what version

  unfoldable pub handled : SoapRequest → Option Handler → SoapResponse
  handled req none =
      fault 500 (text "soap:Client")
        (text "Action '" ++ (req.soap_action ++ text "' not supported")) req.version
  handled req (some handler) = outcome_response req.version (handler req)

  unfoldable pub response_to : SoapRequest → Option Handler → HttpResponse
  response_to req handler =
      let resp = handled req handler in
      record {
        status = resp.status_code;
        body = resp.body;
        content_type = content_type_for req.version;
      }

  unfoldable pub handle_request : HttpRequest → Server → HttpResponse × Server
  handle_request req s =
      let soap_req = soap_request req in
      (
        response_to soap_req (find (soap_req.path, soap_req.soap_action) s.handlers),
        record s { requests = s.requests ++ (soap_req ∷ []) },
      )

-- Whether some route of the library takes a path, where `matches` is how it compares the pattern of a
-- route with a path.
abbrev pub is_posted : (Text → Text → Bool) → Text → List Text → Bool
is_posted matches path [] = false
is_posted matches path (pattern ∷ posts) =
    if matches pattern path then true else is_posted matches path posts

-- A POST request as the library hands it over; `unmatched` is what it answers itself where no
-- route takes the path.
unfoldable pub post :
    (Xml → Text)
    → (Text → Text → Bool)
    → HttpResponse
    → HttpRequest
    → Server
    → HttpResponse × Server
post print matches unmatched req s =
    if is_posted matches req.path s.posts then handle_request print req s else (unmatched, s)

-- `route`
unfoldable pub route : Text → Text → Handler → Server → Server
route = add_route

-- What `when` returns, without its reference to the server.
pub record ResponseSetter : Type 0 where
  pub path : Text
  pub soap_action : Text

unfoldable pub when : Text → Text → ResponseSetter
when path soap_action = record { path = path; soap_action = soap_action }

unfoldable pub then_return : ResponseSetter → SoapResponse → Server → Server
then_return setter resp = route setter.path setter.soap_action λ req. returned resp

unfoldable pub requests : Server → List SoapRequest
requests s = s.requests

unfoldable pub clear_requests : Server → Server
clear_requests s = record s { requests = [] }

-- `start` with the port that the library binds, which is not positive where that fails. The flag
-- is false for an exception; a failed bind has set the port.
unfoldable pub start : ℕ → Server → Bool × Server
start port s =
    let bound : Bool × Server = elim port [
      | zero ↦ (false, record s { port = 0 })
      | suc p ↦ (true, record s { port = suc p; running = true })
    ] in
    if s.running then (false, s) else bound

unfoldable pub stop : Server → Server
stop s = if s.running then record s { running = false } else s

unfoldable pub base_url : Server → Option Text
base_url s = if s.running then some (text "http://127.0.0.1:" ++ to_string s.port) else none
