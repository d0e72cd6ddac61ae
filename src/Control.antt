-- ===== src/Control.antt =====
-- The control channel, over which a client has signals subscribed: lib/Controller.cpp and the calls
-- of it in lib/ProtocolHandler.cpp, lib/HttpPost.cpp (Control/Post), and lib/ControlServer.cpp
-- (Control/Requests, Control/Connection). Resolving, connecting, reading and writing are Boost.Asio's
-- and Boost.Beast's, and come in as the completions that the handlers get.
pub mod Post
pub mod Requests
pub mod Connection
pub mod Answers
pub mod Listening
pub mod Sending
use streaming_protocol_lt.Base.{
  ℕ, suc, String, Bool, true, false, List, [], ◌∷◌, Option, none, some, map, if◌then◌else◌, ◌==◌,
}
use streaming_protocol_lt.Base.Result.{
  Result, ok, fails, throws, aborts, json_exception, logic_error, runtime_error, ◌>>=◌,
}
use streaming_protocol_lt.Base.Text.{join}
use streaming_protocol_lt.Base.Words.{wrap32}
use streaming_protocol_lt.Json.{Json}
use streaming_protocol_lt.Json.Object.{Members}
use streaming_protocol_lt.StreamMeta.{StreamMeta}
use Post.{HttpPost, new_http_post, run}

pub record Controller : Type 0 where
  pub stream_id : String
  pub address : String
  pub port : String
  pub target : String
  pub http_version : ℕ

unfoldable pub new_controller : String → String → String → String → ℕ → Result Controller
new_controller stream_id address port target http_version =
    if stream_id == ""
    then throws runtime_error
    else ok (record {
      stream_id = stream_id;
      address = address;
      port = port;
      target = target;
      http_version = http_version;
    })

-- What becomes of a command: nothing is left to ask for and the callback is called at once without
-- an error, or a request is on its way.
pub data Outcome : Type 0 where
  nothing_to_do : Outcome
  sent : HttpPost → Outcome

module _ {J R : Type 0} (json : Json J R) where
  open json use {from_text, from_nat, object, array, dump}

  -- `push_back` makes the array with the first id.
  abbrev params_member : List String → Members J
  params_member [] = []
  params_member (id ∷ ids) = ("params", array (map from_text (id ∷ ids))) ∷ []

  -- The requests are numbered by a counter that all controllers share, here given and returned.
  unfoldable pub create_request : Controller → List String → String → ℕ → J × ℕ
  create_request c ids method s_id =
      let id : ℕ = wrap32 (suc s_id) in
      (
        object (
            ("jsonrpc", from_text "2.0")
            ∷ ("method", from_text (join c.stream_id (join "." method)))
            ∷ ("id", from_nat id)
            ∷ params_member ids),
        id,
      )

  unfoldable pub execute : Controller → J → Result HttpPost
  unfolding new_http_post run
  execute c request =
      new_http_post c.address c.port c.target c.http_version >>= λ p. ok (run (dump request) p)

  abbrev command : String → Controller → List String → ℕ → Result Outcome × ℕ
  command method c [] s_id = (ok nothing_to_do, s_id)
  command method c (id ∷ ids) s_id =
      let (request, s_id') = create_request c (id ∷ ids) method s_id in
      (execute c request >>= λ p. ok (sent p), s_id')

  unfoldable pub async_subscribe : Controller → List String → ℕ → Result Outcome × ℕ
  unfolding create_request execute
  async_subscribe = command "subscribe"

  unfoldable pub async_unsubscribe : Controller → List String → ℕ → Result Outcome × ℕ
  unfolding create_request execute
  async_unsubscribe = command "unsubscribe"

  -- A runtime error is logged; others go on to the caller.
  abbrev logged : Result Outcome → Result (Option Outcome)
  logged (ok o) = ok (some o)
  logged (throws runtime_error) = ok none
  logged (throws json_exception) = throws json_exception
  logged (throws logic_error) = throws logic_error
  logged fails = fails
  logged aborts = aborts

  abbrev with_controller :
      (Controller → List String → ℕ → Result Outcome × ℕ)
      → Result Controller
      → List String
      → ℕ
      → Result Outcome × ℕ
  with_controller f (ok c) ids s_id = f c ids s_id
  with_controller f fails ids s_id = (fails, s_id)
  with_controller f (throws e) ids s_id = (throws e, s_id)
  with_controller f aborts ids s_id = (aborts, s_id)

  -- The controller of a session: it has what the stream's meta information told.
  unfoldable pub session_controller : StreamMeta → String → Result Controller
  unfolding new_controller
  session_controller meta remote_host =
      new_controller meta.stream_id remote_host meta.http_control_port meta.http_control_path
        meta.http_version

  -- The subscribe and unsubscribe of the protocol handler; nothing happens without a stream.
  unfoldable pub handler_subscribe :
      Bool → StreamMeta → String → List String → ℕ → Result (Option Outcome) × ℕ
  unfolding session_controller async_subscribe
  handler_subscribe has_stream meta remote_host ids s_id =
      let (r, s_id') =
        with_controller async_subscribe (session_controller meta remote_host) ids s_id in
      if has_stream then (logged r, s_id') else (ok none, s_id)

  unfoldable pub handler_unsubscribe :
      Bool → StreamMeta → String → List String → ℕ → Result (Option Outcome) × ℕ
  unfolding session_controller async_unsubscribe
  handler_unsubscribe has_stream meta remote_host ids s_id =
      let (r, s_id') =
        with_controller async_unsubscribe (session_controller meta remote_host) ids s_id in
      if has_stream then (logged r, s_id') else (ok none, s_id)
