-- ===== src/Session/Greeting.antt =====
-- The first two messages of a session, which the constructor writes, at the client.
use streaming_protocol_lt.Base.{◌%◌, ◌^◌, String, ◌≡◌, refl, true, [], ◌∷◌}
use streaming_protocol_lt.Base.Result.{ok, Method, then_run}
use streaming_protocol_lt.Base.Int.{ℤ, to_size}
use streaming_protocol_lt.Base.Text.{codes, stoi, stoul, split_at, eq_ignore_case, remove_code}
use streaming_protocol_lt.Json.{Json}
use streaming_protocol_lt.Json.Object.{lookup}
use streaming_protocol_lt.Meta.{MetaInformation, method, params}
use streaming_protocol_lt.StreamMeta.{
  StreamMeta, process_stream_metainformation, process_method, process_api_version, process_init,
  process_interfaces, process_interface, process_post_interface, set_port, member_text,
  accept_version, version_tokens, check_version,
}
use streaming_protocol_lt.Producer.{Written}
use streaming_protocol_lt.Session.{write_initial_metainformation, api_version_meta, init_meta}

accepted : accept_version "1.5.0" ≡ ok tt
unfolding accept_version version_tokens check_version split_at stoul
accepted = refl

posted : eq_ignore_case 5 (codes "POST") (codes "post") ≡ true
unfolding eq_ignore_case
posted = refl

module _ {J R : Type 0} (json : Json J R) where
  open json use {
    find, get_text, is_object, find-object, get_text-text, is_object-object, elements-member,
    object, from_text,
  }

  abbrev content : J → MetaInformation J
  content j = record { type = 2; json_content = j }

  -- The client goes through messages until one is refused.
  unfoldable pub receive : Written J → Method StreamMeta (Unit {0})
  unfolding process_stream_metainformation
  receive [] s = (ok tt, s)
  receive ((number, j) ∷ w) s =
      let rest = receive w in
      then_run (process_stream_metainformation json (content j) s) (λ u. rest)

  greeted_version :
      (s : StreamMeta)
      → process_stream_metainformation json (content (api_version_meta json)) s
        ≡ (ok tt, record s { api_version = "1.5.0" })
  unfolding process_stream_metainformation process_method process_api_version api_version_meta
      method params lookup
  greeted_version s = simp (find-object, get_text-text, accepted)

  -- The interface that posts JSON-RPC requests.
  unfoldable pub post_interface : String → String → String → J
  post_interface path version port = object (
      (
        "jsonrpc-http",
        object (
            ("httpMethod", from_text "POST")
            ∷ ("httpPath", from_text path)
            ∷ ("httpVersion", from_text version)
            ∷ ("port", from_text port)
            ∷ []),
      )
      ∷ [])

  greeted_init :
      (stream_id path version port : String) (n : ℤ) (s : StreamMeta)
      → stoi (remove_code 46 (codes version)) ≡ ok n
      → s.http_control_port ≡ ""
      → process_stream_metainformation json
          (content (init_meta json stream_id (post_interface path version port)))
          s
        ≡ (
          ok tt,
          record s {
            stream_id = stream_id;
            http_control_path = path;
            http_control_port = port;
            http_version = to_size n % 2 ^ 32;
          },
        )
  unfolding process_stream_metainformation process_method process_init process_interfaces
      process_interface process_post_interface set_port member_text init_meta post_interface method
      params lookup
  greeted_init stream_id path version port n s h e =
      simp (find-object, get_text-text, is_object-object, elements-member, posted, h, e)

  -- A client that reads the two messages of a new session accepts the version and learns the id of
  -- the stream and where to post requests, if the producer gives a POST interface whose version is
  -- a number once the points are taken out, and the client has no port yet.
  pub greeting :
      (stream_id path version port : String) (n : ℤ) (s : StreamMeta)
      → stoi (remove_code 46 (codes version)) ≡ ok n
      → s.http_control_port ≡ ""
      → receive (write_initial_metainformation json stream_id (post_interface path version port)) s
        ≡ (
          ok tt,
          record {
            api_version = "1.5.0";
            stream_id = stream_id;
            http_control_path = path;
            http_control_port = port;
            http_version = to_size n % 2 ^ 32;
          },
        )
  unfolding receive write_initial_metainformation
  greeting stream_id path version port n s h e =
      rw
        (
          greeted_version s,
          greeted_init stream_id path version port n (record s { api_version = "1.5.0" }) h e,
        )
        refl
