-- ===== src/Http/Soap/Dispatch.antt =====
-- The routes of src/soap_server.cpp.
use mock_services.Base.{
  ◌≡◌, refl, inl, inr, Bool, true, ◌||◌, Bool-cases, List, arith, ◌==◌, text_eq_iff, text, some, [],
  ◌∷◌, ◌++◌, Text, pair_beq, ap, text_key, pair_key, if◌then◌else◌,
}
use mock_services.Base.Dict.{find, assign, find-assign}
use mock_services.Http.Soap.{
  Handler, HttpRequest, Server, Xml, add_route, action_of, unquote, drop_last_quote, soap_request,
  handle_request, response_to, has_path, SoapResponse, returned, then_return, when, route, handled,
  outcome_response, content_type_for, HttpResponse, SoapRequest, Outcome, thrown, fault,
  fault_document, is_posted, post,
}

drop_last_quote-concat : (s : Text) → drop_last_quote (s ++ (b'"' ∷ [])) ≡ some s
unfolding drop_last_quote
drop_last_quote-concat [] = refl
drop_last_quote-concat (b ∷ []) = refl
drop_last_quote-concat (b ∷ next ∷ s) = rw (drop_last_quote-concat (next ∷ s)) refl

-- An action in quotation marks is the action between them.
unquote_quoted : (action : Text) → action_of (some (b'"' ∷ (action ++ (b'"' ∷ [])))) ≡ action
unfolding action_of unquote
unquote_quoted action = rw (drop_last_quote-concat action) refl

handlers-add_route :
    (path soap_action : Text) (handler : Handler) (s : Server)
    → (add_route path soap_action handler s).handlers
      ≡ assign (path, soap_action) handler s.handlers
unfolding add_route
handlers-add_route path soap_action handler s = elim (Bool-cases (has_path path s.paths)) [
  | inl e ↦ rw e refl
  | inr e ↦ rw e refl
]

module _ (print : Xml → Text) where
  -- A request whose `SOAPAction` header is an action in quotation marks is answered by the handler
  -- that was set last for its path and that action, and every other request of this form is
  -- answered as before the route was set, where the library hands it over at all. Each request that
  -- it hands over is added to the history.
  pub handle_request-add_route :
      (path soap_action : Text) (handler : Handler) (req : HttpRequest) (action : Text) (s : Server)
      → req.soap_action ≡ some (b'"' ∷ (action ++ (b'"' ∷ [])))
      → ((handle_request print req (add_route path soap_action handler s)).0 ≡ (
          if pair_beq (path, soap_action) (req.path, action)
          then response_to print (soap_request req) (some handler)
          else (handle_request print req s).0))
        × ((handle_request print req s).1.requests ≡ s.requests ++ (soap_request req ∷ []))
  unfolding handle_request soap_request
  handle_request-add_route path soap_action handler req action s e =
      let named : action_of req.soap_action ≡ action = rw e (unquote_quoted action) in
      let looked_up : find (req.path, action_of req.soap_action)
            (add_route path soap_action handler s).handlers
          ≡ (if pair_beq (path, soap_action) (req.path, action)
              then some handler
              else find (req.path, action_of req.soap_action) s.handlers) =
        rw (handlers-add_route path soap_action handler s, named)
          (find-assign (path, soap_action) (req.path, action) handler s.handlers) in
      (
        elim (Bool-cases (pair_beq (path, soap_action) (req.path, action))) [
          | inl same ↦ rw same (ap (response_to print (soap_request req)) (rw same at looked_up))
          | inr other ↦ rw other (ap (response_to print (soap_request req)) (rw other at looked_up))
        ],
        refl,
      )

  -- What `when(path, soap_action).then_return(resp)` sets is what a request to that path with the
  -- action in quotation marks gets, with the content type of its version of SOAP; a request with
  -- another path or action is answered as before.
  pub then_return-answers :
      (path soap_action : Text) (resp : SoapResponse) (req : HttpRequest) (action : Text)
      (s : Server)
      → req.soap_action ≡ some (b'"' ∷ (action ++ (b'"' ∷ [])))
      → (handle_request print req (then_return (when path soap_action) resp s)).0 ≡ (
          if pair_beq (path, soap_action) (req.path, action)
          then record {
            status = resp.status_code;
            body = resp.body;
            content_type = content_type_for (soap_request req).version;
          }
          else (handle_request print req s).0)
  unfolding then_return when route response_to handled outcome_response
  then_return-answers path soap_action resp req action s e =
      (handle_request-add_route path soap_action (λ r. returned resp) req action s e).0

is_posted-concat :
    (matches : Text → Text → Bool) (path pattern : Text) (posts : List Text)
    → is_posted matches path (posts ++ (pattern ∷ []))
      ≡ (is_posted matches path posts || matches pattern path)
is_posted-concat matches path pattern [] = ground arith
is_posted-concat matches path pattern (other ∷ posts) =
    ground (arith, is_posted-concat matches path pattern posts)

-- A path that is there already adds nothing to what is taken.
is_posted-known :
    (matches : Text → Text → Bool) (path pattern : Text) (posts : List Text)
    → has_path pattern posts ≡ true
    → is_posted matches path posts ≡ (is_posted matches path posts || matches pattern path)
is_posted-known matches path pattern [] h = cc
is_posted-known matches path pattern (other ∷ posts) h = elim (Bool-cases (other == pattern)) [
  | inl e ↦
      let same = (text_eq_iff other pattern).0 e in
      elim (Bool-cases (matches pattern path)) [ inl k ↦ rw (same, k) refl | inr k ↦ ground arith ]
  | inr e ↦ ground (arith, is_posted-known matches path pattern posts (rw e at h))
]

is_posted-add_route :
    (matches : Text → Text → Bool) (path soap_action : Text) (handler : Handler) (target : Text)
    (s : Server)
    → s.posts ≡ s.paths
    → is_posted matches target (add_route path soap_action handler s).posts
      ≡ (is_posted matches target s.posts || matches path target)
unfolding add_route
is_posted-add_route matches path soap_action handler target s h =
    elim (Bool-cases (has_path path s.paths)) [
      | inl e ↦ rw e (is_posted-known matches target path s.posts (rw h e))
      | inr e ↦ rw e (is_posted-concat matches target path s.posts)
    ]

-- What a client gets from a handler: its response, or a fault with the status 500 for an exception.
abbrev pub answered : (Xml → Text) → SoapRequest → Outcome → HttpResponse
answered print req (returned resp) = record {
  status = resp.status_code;
  body = resp.body;
  content_type = content_type_for req.version;
}
answered print req (thrown what) = record {
  status = 500;
  body = print (fault_document req.version (text "soap:Server") what);
  content_type = content_type_for req.version;
}

response_to-answered :
    (print : Xml → Text) (req : SoapRequest) (handler : Handler)
    → response_to print req (some handler) ≡ answered print req (handler req)
unfolding response_to handled outcome_response fault
response_to-answered print req handler = go (handler req)
  where
    go :
        (outcome : Outcome)
        → record {
          status = (outcome_response print req.version outcome).status_code;
          body = (outcome_response print req.version outcome).body;
          content_type = content_type_for req.version;
        }
          ≡ answered print req outcome
    go (returned resp) = refl
    go (thrown what) = refl

requests-add_route :
    (path soap_action : Text) (handler : Handler) (s : Server)
    → (add_route path soap_action handler s).requests ≡ s.requests
unfolding add_route
requests-add_route path soap_action handler s = elim (Bool-cases (has_path path s.paths)) [
  | inl e ↦ rw e refl
  | inr e ↦ rw e refl
]

history-add_route :
    (print : Xml → Text) (path soap_action : Text) (handler : Handler) (req : HttpRequest)
    (s : Server)
    → (handle_request print req (add_route path soap_action handler s)).1.requests
      ≡ s.requests ++ (soap_request req ∷ [])
unfolding handle_request
history-add_route print path soap_action handler req s =
    rw (requests-add_route path soap_action handler s) refl

-- Where the library knows the paths that have handlers, setting a handler for a path and an action
-- changes what a POST request gets whose `SOAPAction` header is an action in quotation marks as
-- follows. If the library takes the request's path by one of its routes or by the new one, the new
-- handler answers it where it has that path and that action, with a fault 500 for an exception, the
-- handlers that were there answer it otherwise, and it is added to the history. If not, the
-- library answers it and the history stays as it was.
pub post-add_route :
    (print : Xml → Text) (matches : Text → Text → Bool) (unmatched : HttpResponse)
    (path soap_action : Text) (handler : Handler) (req : HttpRequest) (action : Text) (s : Server)
    → req.soap_action ≡ some (b'"' ∷ (action ++ (b'"' ∷ [])))
    → s.posts ≡ s.paths
    → let (resp, s') = post print matches unmatched req (add_route path soap_action handler s) in
      let taken = is_posted matches req.path s.posts || matches path req.path in
      (resp ≡ (
        if taken
        then (if pair_beq (path, soap_action) (req.path, action)
            then answered print (soap_request req) (handler (soap_request req))
            else (handle_request print req s).0)
        else unmatched))
      × (s'.requests ≡ (if taken then s.requests ++ (soap_request req ∷ []) else s.requests))
unfolding post
post-add_route print matches unmatched path soap_action handler req action s e known =
    let routed = is_posted-add_route matches path soap_action handler req.path s known in
    let (resp, _) = handle_request-add_route print path soap_action handler req action s e in
    elim (Bool-cases (is_posted matches req.path s.posts || matches path req.path)) [
      | inl taken ↦
          rw (post, routed, taken)
            (
              rw (response_to-answered print (soap_request req) handler) at resp,
              history-add_route print path soap_action handler req s,
            )
      | inr left ↦ rw (post, routed, left) (refl, requests-add_route path soap_action handler s)
    ]
