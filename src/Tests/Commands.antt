-- ===== src/Tests/Commands.antt =====
-- The theorems on the control channel at concrete inputs.
use streaming_protocol_lt.Base.{
  String, ◌≡◌, ◌⊎◌, refl, true, false, List, [], ◌∷◌, ◌++◌, Option, some, ◌==◌, if◌then◌else◌,
}
use streaming_protocol_lt.Base.Int.{ℤ, pos, negsuc}
use streaming_protocol_lt.Base.Result.{ok}
use streaming_protocol_lt.Base.Text.{join, has_code}
use streaming_protocol_lt.Json.{Json}
use streaming_protocol_lt.StreamMeta.{StreamMeta}
use streaming_protocol_lt.Control.Sending.{new_post, handler_subscribe-sent}
use streaming_protocol_lt.Control.{Controller, create_request, sent, handler_subscribe}
use streaming_protocol_lt.Control.Post.{
  HttpPost, Completion, complete, outcome, run, results-complete, idle,
}
use streaming_protocol_lt.Control.Requests.{
  Request, Response, CommandCall, bad_request_status, handle_request, execute, answer, bad_request,
  succeeded,
}
use streaming_protocol_lt.Control.Answers.{
  handle_request-create_request, handle_request-cut, handle_request-calls,
}
use streaming_protocol_lt.Control.Connection.{Listener, on_accepts, stop_listener, do_accept}
use streaming_protocol_lt.Control.Listening.{stop_listener-accepting}
use streaming_protocol_lt.Tests.Items.{Value}
use streaming_protocol_lt.Tests.Values.{values}

abbrev post : HttpPost
post = record {
  host = "localhost";
  port = "7438";
  target = "/control";
  protocol_version = 10;
  body = "";
  stage = idle;
  response_status = 0;
  shut_down = false;
  results = [];
}

-- The write fails with error 32.
outcome_example :
    (complete ((0, 0) ∷ (0, 0) ∷ (32, 0) ∷ (0, 200) ∷ []) (run "{}" post)).results
    ≡ [] ++ outcome 4 ((0, 0) ∷ (0, 0) ∷ (32, 0) ∷ (0, 200) ∷ [])
outcome_example = results-complete ((0, 0) ∷ (0, 0) ∷ (32, 0) ∷ (0, 200) ∷ []) "{}" post

abbrev completions : List Completion
completions = (0, 0) ∷ (0, 0) ∷ (0, 0) ∷ (0, 400) ∷ []

abbrev plain : Controller
plain = record {
  stream_id = "stream";
  address = "localhost";
  port = "7438";
  target = "/control";
  http_version = 10;
}

-- The stream id that a session has is the end point of the client.
abbrev end_point : Controller
end_point = record plain { stream_id = "127.0.0.1:40000" }

-- Values whose parser knows the requests that are made for the two.
abbrev parser : String → Option Value
parser s =
    if s == "plain"
    then some (create_request values plain ("voltage" ∷ []) "subscribe" 0).0
    else some (create_request values end_point ("voltage" ∷ []) "subscribe" 0).0

abbrev parsing : Json Value ℤ
parsing = record values { parse = parser }

abbrev request : String → Request
request body = record { is_post = true; version = 10; keep_alive = false; body = body }

-- Only the stream "stream" is known.
abbrev callback : CommandCall → ℤ × String
callback call = if call.stream_id == "stream" then (pos 0, "") else (negsuc 0, "unknown stream")

request_example :
    handle_request parsing "Beast" callback (request "plain")
    ≡ execute "Beast" callback
        (request "plain")
        (record { stream_id = "stream"; command = "subscribe"; signal_ids = "voltage" ∷ [] })
unfolding create_request has_code
request_example =
    handle_request-create_request parsing "Beast" callback (request "plain") plain 0 "voltage" []
      "subscribe" refl refl refl

cut_example :
    handle_request parsing "Beast" callback (request "end point")
    ≡ execute "Beast" callback (request "end point") (record {
      stream_id = "127";
      command = join "0.0.1:40000" (join "." "subscribe");
      signal_ids = "voltage" ∷ [];
    })
unfolding create_request has_code
cut_example =
    handle_request-cut parsing "Beast" callback (request "end point") end_point 0 "voltage" []
      "subscribe" "127" "0.0.1:40000" refl refl refl refl

abbrev response : Response
response = answer "Beast" (request "plain") (pos 0, "")

abbrev call : CommandCall
call = record { stream_id = "stream"; command = "subscribe"; signal_ids = "voltage" ∷ [] }

answered_example :
    ((response.status ≡ bad_request_status) × (call ∷ [] ≡ []))
    ⊎ ((made : CommandCall) × (call ∷ [] ≡ made ∷ [])
        × (response ≡ answer "Beast" (request "plain") (callback made)))
unfolding execute bad_request succeeded
answered_example =
    handle_request-calls parsing "Beast" callback (request "plain") response (call ∷ [])
      request_example

abbrev listener : Listener
listener = record { is_open = true; accepting = false; connections = 0 }

accepting_example :
    (on_accepts (125 ∷ 9 ∷ 9 ∷ []) (stop_listener (do_accept listener))).accepting ≡ true
accepting_example = stop_listener-accepting (125 ∷ 9 ∷ 9 ∷ []) listener

abbrev learned : StreamMeta
learned = record {
  api_version = "1.5.0";
  stream_id = "stream";
  http_control_path = "/control";
  http_control_port = "7438";
  http_version = 10;
}

sent_example :
    (handler_subscribe values true learned "" ("voltage" ∷ []) 0).0
    ≡ ok (
        some (
          sent (
            run
              (values.dump (create_request values plain ("voltage" ∷ []) "subscribe" 0).0)
              (new_post learned ""))))
unfolding create_request
sent_example = handler_subscribe-sent values learned "" "voltage" [] 0
