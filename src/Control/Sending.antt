-- ===== src/Control/Sending.antt =====
-- What the protocol handler sends when signals are to be subscribed.
use streaming_protocol_lt.Base.{
  ℕ, String, ◌≡◌, Bool, true, false, List, [], ◌∷◌, none, some, ◌==◌, ◌||◌, if◌then◌else◌,
  Bool-cases, inl, inr,
}
use streaming_protocol_lt.Base.Result.{ok}
use streaming_protocol_lt.Json.{Json}
use streaming_protocol_lt.StreamMeta.{StreamMeta}
use streaming_protocol_lt.Control.{
  Controller, sent, create_request, handler_subscribe, session_controller, new_controller,
  async_subscribe, execute,
}
use streaming_protocol_lt.Control.Post.{HttpPost, new_http_post, run, idle}

-- Something that a request needs was not told.
abbrev pub is_incomplete : StreamMeta → Bool
is_incomplete meta =
    meta.stream_id == "" || (meta.http_control_port == "" || meta.http_control_path == "")

abbrev pub told_controller : StreamMeta → String → Controller
told_controller meta remote_host = record {
  stream_id = meta.stream_id;
  address = remote_host;
  port = meta.http_control_port;
  target = meta.http_control_path;
  http_version = meta.http_version;
}

abbrev pub new_post : StreamMeta → String → HttpPost
new_post meta remote_host = record {
  host = if remote_host == "" then "localhost" else remote_host;
  port = meta.http_control_port;
  target = meta.http_control_path;
  protocol_version = meta.http_version;
  body = "";
  stage = idle;
  response_status = 0;
  shut_down = false;
  results = [];
}

module _ {J R : Type 0} (json : Json J R) where
  -- With a stream, subscribing at least one signal posts the request of the controller to the port and
  -- the path that the stream's meta information told, and nothing is sent, and nothing thrown, if
  -- the stream id, the port or the path is empty.
  pub handler_subscribe-sent :
      (meta : StreamMeta) (remote_host id : String) (ids : List String) (s_id : ℕ)
      → (handler_subscribe json true meta remote_host (id ∷ ids) s_id).0 ≡ (
          if is_incomplete meta
          then ok none
          else ok (
              some (
                sent (
                  run
                    (json.dump
                      (create_request json
                        (told_controller meta remote_host)
                        (id ∷ ids)
                        "subscribe"
                        s_id).0)
                    (new_post meta remote_host)))))
  unfolding handler_subscribe session_controller new_controller async_subscribe execute
      new_http_post
  handler_subscribe-sent meta remote_host id ids s_id = elim (Bool-cases (meta.stream_id == "")) [
    | inl a ↦ simp (a)
    | inr a ↦ elim (Bool-cases (meta.http_control_port == "")) [
      | inl b ↦ simp (a, b)
      | inr b ↦ elim (Bool-cases (meta.http_control_path == "")) [
        | inl c ↦ simp (a, b, c)
        | inr c ↦ simp (a, b, c)
      ]
    ]
  ]
