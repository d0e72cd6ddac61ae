-- ===== src/Control/Requests.antt =====
-- `handle_request` of lib/ControlServer.cpp: what the control server answers to a request. The
-- command callback is the application's, a parameter: it gets the call and gives a result and a
-- text. `version_text` is the library's name in the responses.
use streaming_protocol_lt.Base.{
  ℕ, String, Bool, true, false, List, [], ◌∷◌, Option, none, some, if◌then◌else◌,
}
use streaming_protocol_lt.Base.Int.{ℤ, pos, negsuc}
use streaming_protocol_lt.Base.Result.{Result, ok, throws, json_exception, ◌>>=◌}
use streaming_protocol_lt.Base.Text.{join, split_first}
use streaming_protocol_lt.Json.{Json}

pub record Request : Type 0 where
  pub is_post : Bool
  pub version : ℕ
  pub keep_alive : Bool
  pub body : String

pub data Status : Type 0 where
  ok_status bad_request_status : Status

-- A response has a length, and can be told from the next one, only if its payload is prepared.
pub record Response : Type 0 where
  pub status : Status
  pub version : ℕ
  pub server : String
  pub content_type : String
  pub keep_alive : Bool
  pub body : String
  pub prepared : Bool

pub record CommandCall : Type 0 where
  pub stream_id : String
  pub command : String
  pub signal_ids : List String

-- The response, and the calls of the command callback.
abbrev pub Handled : Type 0
Handled = Result (Response × List CommandCall)

module _ (version_text : String) where
  unfoldable pub bad_request : Request → String → Response
  bad_request req why = record {
    status = bad_request_status;
    version = req.version;
    server = version_text;
    content_type = "text/html";
    keep_alive = req.keep_alive;
    body = why;
    prepared = true;
  }

  unfoldable pub succeeded : Request → Response
  succeeded req = record {
    status = ok_status;
    version = req.version;
    server = version_text;
    content_type = "application/json";
    keep_alive = req.keep_alive;
    body = "Succeeded";
    prepared = false;
  }

  abbrev refuse : Request → String → Handled
  refuse req why = ok (bad_request req why, [])

  abbrev pub answer : Request → ℤ × String → Response
  answer req (pos n, text) = succeeded req
  answer req (negsuc n, text) = bad_request req (join "json rpc execution failed: " text)

  module _ (command_cb : CommandCall → ℤ × String) where
    unfoldable pub execute : Request → CommandCall → Handled
    unfolding bad_request succeeded
    execute req call = ok (answer req (command_cb call), call ∷ [])

module _ {J R : Type 0} (json : Json J R) where
  open json use {get_text}

  abbrev pub parsed : Option J → Result J
  parsed none = throws json_exception
  parsed (some j) = ok j

  -- The signal ids; one that is no text throws.
  unfoldable pub texts_of : List J → Result (List String)
  texts_of [] = ok []
  texts_of (j ∷ js) = get_text j >>= λ t. texts_of js >>= λ ts. ok (t ∷ ts)

module _ {J R : Type 0} (json : Json J R) (version_text : String)
    (command_cb : CommandCall → ℤ × String) where
  open json use {parse, index_or_insert, get_text, is_null, is_array, elements}

  unfoldable pub with_params : Request → String → String → J → Handled
  unfolding bad_request execute texts_of
  with_params req stream_id command params =
      if is_null params
      then refuse version_text req "json rpc request without parameters"
      else if is_array params
      then (texts_of json (elements params) >>= λ ids.
          execute version_text command_cb req
            (record { stream_id = stream_id; command = command; signal_ids = ids }))
      else refuse version_text req "Expecting an array of signal ids as parameters"

  -- The method is cut at its first '.'.
  abbrev pub with_parts : Request → String → J → Option (String × String) → Handled
  with_parts req method request none = refuse version_text req (
      join "json rpc request with invalid method '"
        (join method "'. Expecting <stream id>.<command>"))
  with_parts req method request (some (stream_id, command)) =
      index_or_insert request "params" >>= λ (params, _). with_params req stream_id command params

  unfoldable pub with_method : Request → J → J → Handled
  unfolding bad_request with_params split_first
  with_method req request method =
      if is_null method
      then refuse version_text req "json rpc request without method"
      else get_text method >>= λ m. with_parts req m request (split_first 46 m)

  unfoldable pub with_id : Request → J → J → Handled
  unfolding bad_request with_method
  with_id req request id =
      if is_null id
      then refuse version_text req "json rpc request without id"
      else index_or_insert request "method" >>= λ (method, request').
          with_method req request' method

  -- A body that does not parse throws, and so does one that is no object.
  unfoldable pub handle_request : Request → Handled
  unfolding bad_request with_id
  handle_request req =
      if req.is_post
      then (parsed json (parse req.body) >>= λ request.
          index_or_insert request "id" >>= λ (id, request'). with_id req request' id)
      else refuse version_text req "Unknown HTTP-method"
