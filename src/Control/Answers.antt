-- ===== src/Control/Answers.antt =====
-- What the control server makes of requests, those of the controller first.
use streaming_protocol_lt.Base.{
  ℕ, suc, String, ◌≡◌, refl, ap, subst, ◌∙◌, ◌⊎◌, inl, inr, Bool, true, false, List, [], ◌∷◌,
  Option, none, some, map, if◌then◌else◌,
}
use streaming_protocol_lt.Base.Int.{ℤ}
use streaming_protocol_lt.Base.Words.{wrap32}
use streaming_protocol_lt.Base.Result.{Result, ok, fails, throws, aborts, ◌>>=◌}
use streaming_protocol_lt.Base.Text.{join, split_first, has_code, split_first-separator}
use text.Mathlib.TextLemmas.{append_assoc}
use streaming_protocol_lt.Json.{Json}
use streaming_protocol_lt.Json.Object.{lookup, Members}
use streaming_protocol_lt.Control.{Controller, create_request}
use streaming_protocol_lt.Control.Requests.{
  Request, Response, CommandCall, bad_request_status, Handled, handle_request, with_id, with_method,
  with_params, with_parts, parsed, texts_of, execute, answer, bad_request,
}

module _ {J R : Type 0} (json : Json J R) (version_text : String)
    (command_cb : CommandCall → ℤ × String) where
  open json use {
    parse, is_null, is_array, elements, get_text, index_or_insert, from_text, from_nat, array,
    get_text-text, is_null-text, is_null-nat, is_null-array, is_array-array, elements-array,
    index_or_insert-member,
  }

  texts_of-map : (ids : List String) → texts_of json (map from_text ids) ≡ ok ids
  unfolding texts_of
  texts_of-map [] = refl
  texts_of-map (id ∷ ids) = rw (get_text-text id, texts_of-map ids) refl

  handle_request-split :
      (req : Request) (c : Controller) (s_id : ℕ) (id : String) (ids : List String)
      (method stream_id command : String)
      → req.is_post ≡ true
      → parse req.body ≡ some (create_request json c (id ∷ ids) method s_id).0
      → split_first 46 (join c.stream_id (join "." method)) ≡ some (stream_id, command)
      → handle_request json version_text command_cb req
        ≡ execute version_text command_cb req
            (record { stream_id = stream_id; command = command; signal_ids = id ∷ ids })
  unfolding handle_request create_request with_id with_method with_params lookup
  handle_request-split req c s_id id ids method stream_id command post body split =
      let m : Members J =
        ("jsonrpc", from_text "2.0")
        ∷ ("method", from_text (join c.stream_id (join "." method)))
        ∷ ("id", from_nat (wrap32 (suc s_id)))
        ∷ ("params", array (map from_text (id ∷ ids)))
        ∷ [] in
      simp (
        post,
        body,
        split,
        index_or_insert-member m "id" (from_nat (wrap32 (suc s_id))) refl,
        index_or_insert-member m "method" (from_text (join c.stream_id (join "." method))) refl,
        index_or_insert-member m "params" (array (map from_text (id ∷ ids))) refl,
        get_text-text,
        is_null-text,
        is_null-nat,
        is_null-array,
        is_array-array,
        elements-array,
        texts_of-map,
      )

  -- A posted request of the controller, for at least one signal, is handled as exactly that command
  -- for exactly these signals, if it is parsed back as it was dumped and there is no _ in the
  -- stream id.
  pub handle_request-create_request :
      (req : Request) (c : Controller) (s_id : ℕ) (id : String) (ids : List String)
      (method : String)
      → req.is_post ≡ true
      → parse req.body ≡ some (create_request json c (id ∷ ids) method s_id).0
      → has_code 46 c.stream_id ≡ false
      → handle_request json version_text command_cb req
        ≡ execute version_text command_cb req
            (record { stream_id = c.stream_id; command = method; signal_ids = id ∷ ids })
  handle_request-create_request req c s_id id ids method post body plain =
      handle_request-split req c s_id id ids method c.stream_id method post body
        (split_first-separator _ c.stream_id method plain)

  -- A stream id with a _ in it is cut there: what follows the first _ of the stream id is taken
  -- for the beginning of the command.
  pub handle_request-cut :
      (req : Request) (c : Controller) (s_id : ℕ) (id : String) (ids : List String)
      (method front back : String)
      → req.is_post ≡ true
      → parse req.body ≡ some (create_request json c (id ∷ ids) method s_id).0
      → has_code 46 front ≡ false
      → c.stream_id ≡ join front (join "." back)
      → handle_request json version_text command_cb req
        ≡ execute version_text command_cb req (record {
          stream_id = front;
          command = join back (join "." method);
          signal_ids = id ∷ ids;
        })
  handle_request-cut req c s_id id ids method front back post body plain cut =
      handle_request-split req c s_id id ids method front (join back (join "." method)) post body (
        ap (λ s. split_first 46 (join s (join "." method))) cut
        ∙ ap (split_first 46) (
            append_assoc front (join "." back) (join "." method)
            ∙ ap (join front) (append_assoc "." back (join "." method)))
        ∙ split_first-separator _ front (join back (join "." method)) plain)

  Answered : Request → Response → List CommandCall → Type 0
  Answered req r calls =
      ((r.status ≡ bad_request_status) × (calls ≡ []))
      ⊎ ((call : CommandCall) × (calls ≡ call ∷ [])
          × (r ≡ answer version_text req (command_cb call)))

  unfoldable Fine : Request → Handled → Type 0
  unfolding Answered
  Fine req (ok (r, calls)) = Answered req r calls
  Fine req fails = Unit {0}
  Fine req (throws e) = Unit {0}
  Fine req aborts = Unit {0}

  Fine-bind :
      {A : Type 0} (req : Request) (m : Result A) (f : A → Handled)
      → ((a : A) → Fine req (f a))
      → Fine req (m >>= f)
  unfolding Fine
  Fine-bind req (ok a) f h = h a
  Fine-bind req fails f h = tt
  Fine-bind req (throws e) f h = tt
  Fine-bind req aborts f h = tt

  Fine-if :
      (req : Request) (b : Bool) (x y : Handled)
      → Fine req x
      → Fine req y
      → Fine req (if b then x else y)
  Fine-if req true x y hx hy = hx
  Fine-if req false x y hx hy = hy

  Fine-bad_request :
      (req : Request) (why : String) → Fine req (ok (bad_request version_text req why, []))
  unfolding Fine bad_request
  Fine-bad_request req why = inl (refl, refl)

  Fine-execute :
      (req : Request) (call : CommandCall) → Fine req (execute version_text command_cb req call)
  unfolding Fine execute
  Fine-execute req call = inr (call, refl, refl)

  Fine-with_params :
      (req : Request) (stream_id command : String) (params : J)
      → Fine req (with_params json version_text command_cb req stream_id command params)
  unfolding with_params
  Fine-with_params req stream_id command params =
      Fine-if req (is_null params) _ _ (Fine-bad_request req _) (
        Fine-if req (is_array params) _ _
          (Fine-bind req (texts_of json (elements params)) _ (λ ids. Fine-execute req _))
          (Fine-bad_request req _))

  Fine-with_parts :
      (req : Request) (method : String) (request : J) (parts : Option (String × String))
      → Fine req (with_parts json version_text command_cb req method request parts)
  Fine-with_parts req method request none = Fine-bad_request req _
  Fine-with_parts req method request (some (stream_id, command)) =
      Fine-bind req (index_or_insert request "params") _
        (λ p. Fine-with_params req stream_id command p.0)

  Fine-with_method :
      (req : Request) (request method : J)
      → Fine req (with_method json version_text command_cb req request method)
  unfolding with_method
  Fine-with_method req request method =
      Fine-if req (is_null method) _ _ (Fine-bad_request req _)
        (Fine-bind req (get_text method) _ (λ m. Fine-with_parts req m request (split_first 46 m)))

  Fine-handle_request : (req : Request) → Fine req (handle_request json version_text command_cb req)
  unfolding handle_request with_id
  Fine-handle_request req =
      Fine-if req req.is_post _ _
        (Fine-bind req (parsed json (parse req.body)) _ (λ request.
          Fine-bind req (index_or_insert request "id") _ (λ p.
            Fine-if req (is_null p.0) _ _ (Fine-bad_request req _) (
              Fine-bind req (index_or_insert p.1 "method") _ (λ q. Fine-with_method req q.1 q.0)))))
        (Fine-bad_request req _)

  -- Whatever is answered, the command callback was called at most once: not at all for a bad
  -- request, and otherwise the response is what its result makes of it.
  pub handle_request-calls :
      (req : Request) (r : Response) (calls : List CommandCall)
      → handle_request json version_text command_cb req ≡ ok (r, calls)
      → ((r.status ≡ bad_request_status) × (calls ≡ []))
        ⊎ ((call : CommandCall) × (calls ≡ call ∷ [])
            × (r ≡ answer version_text req (command_cb call)))
  unfolding Fine
  handle_request-calls req r calls e = subst (Fine req) e (Fine-handle_request req)
