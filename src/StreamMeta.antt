-- ===== src/StreamMeta.antt =====
-- include/streaming_protocol/StreamMeta.hpp and lib/StreamMeta.cpp: the stream related meta
-- information on the consumer's side.
use streaming_protocol_lt.Base.{
  ℕ, ◌%◌, ◌^◌, String, List, [], ◌∷◌, Option, none, some, ltb, if◌then◌else◌, ◌==◌, ◌&&◌,
}
use streaming_protocol_lt.Base.Result.{
  Result, ok, fails, throws, aborts, Method, json_exception, logic_error, runtime_error, ◌>>=◌,
  ◌>>◌, write, skip, if_found, then_run,
}
use streaming_protocol_lt.Base.Words.{wrap32}
use streaming_protocol_lt.Base.Int.{to_size}
use streaming_protocol_lt.Base.Text.{codes, stoul, stoi, split_at, remove_code, eq_ignore_case}
use streaming_protocol_lt.Json.{Json, index, value_text}
use streaming_protocol_lt.Meta.{MetaInformation, method, params}

pub record StreamMeta : Type 0 where
  pub api_version : String
  pub stream_id : String
  pub http_control_path : String
  pub http_control_port : String
  pub http_version : ℕ

-- The numbers of a version; the first part that is none throws. A part is cut to 32 bits.
unfoldable pub version_tokens : List (List ℕ) → Result (List ℕ)
version_tokens [] = ok []
version_tokens (s ∷ rest) = stoul s >>= λ n. version_tokens rest >>= λ ns. ok (wrap32 n ∷ ns)

-- At least 0.6.0, in three parts.
unfoldable pub check_version : List ℕ → Result (Unit {0})
check_version (major ∷ minor ∷ patch ∷ []) = if ltb major 1 && ltb minor 6 then fails else ok tt
check_version _ = fails

unfoldable pub accept_version : String → Result (Unit {0})
unfolding version_tokens check_version
accept_version version = version_tokens (split_at 46 (codes version)) >>= check_version

abbrev catch_runtime_error : Result (Unit {0}) → Result (Unit {0})
catch_runtime_error (throws runtime_error) = ok tt
catch_runtime_error (throws json_exception) = throws json_exception
catch_runtime_error (throws logic_error) = throws logic_error
catch_runtime_error (ok u) = ok u
catch_runtime_error fails = fails
catch_runtime_error aborts = aborts

module _ {J R : Type 0} (json : Json J R) where
  open json use {find, get_text, get_nat, elements}

  -- `code` that does not change the object.
  abbrev just : Result (Unit {0}) → Method StreamMeta (Unit {0})
  just r s = (r, s)

  unfoldable pub process_api_version : Option J → Method StreamMeta (Unit {0})
  process_api_version none s = (fails, s)
  process_api_version (some version) s =
      then_run (write (get_text version) (λ v s'. record s' { api_version = v }) s)
        (λ _ s'. (accept_version s'.api_version, s'))

  -- The text of a member that has to be there.
  unfoldable pub member_text : J → String → Result String
  member_text element key = index json element key >>= get_text

  -- The port is kept once it is set.
  unfoldable pub set_port : J → Method StreamMeta (Unit {0})
  unfolding member_text
  set_port element s =
      if s.http_control_port == ""
      then write (member_text element "port") (λ v s'. record s' { http_control_port = v }) s
      else (ok tt, s)

  unfoldable pub process_post_interface : J → Method StreamMeta (Unit {0})
  unfolding set_port member_text
  process_post_interface element =
      write (member_text element "httpPath") (λ v s. record s { http_control_path = v })
      >> write (member_text element "httpVersion" >>= λ v. stoi (remove_code 46 (codes v)))
          (λ n s. record s { http_version = to_size n % 2 ^ 32 })
      >> set_port element

  -- "post" without regard to case, its end included.
  unfoldable pub process_interface : J → Method StreamMeta (Unit {0})
  unfolding process_post_interface
  process_interface element s =
      then_run (member_text element "httpMethod", s)
        (λ m.
          if eq_ignore_case 5 (codes m) (codes "post")
          then process_post_interface element
          else skip)

  unfoldable pub process_interfaces : List J → Method StreamMeta (Unit {0})
  unfolding process_interface
  process_interfaces [] s = (ok tt, s)
  process_interfaces (element ∷ rest) s =
      let others = process_interfaces rest in then_run (process_interface element s) (λ _. others)

  unfoldable pub process_init : J → Method StreamMeta (Unit {0})
  unfolding process_interfaces process_interface
  process_init node =
      write (value_text json node "streamId" "") (λ v s. record s { stream_id = v })
      >> if_found (find node "commandInterfaces") (λ v. process_interfaces (elements v))

  -- The fill level is converted, for the log.
  unfoldable pub process_alive : J → Method StreamMeta (Unit {0})
  process_alive node = if_found (find node "fillLevel") (λ v. write (get_nat 32 v) (λ n s. s))

  -- "available", "unavailable" and unknown methods are left to others.
  unfoldable pub process_method : String → J → Method StreamMeta (Unit {0})
  unfolding process_api_version process_init process_alive
  process_method m node =
      if m == "apiVersion"
      then process_api_version (find node "version")
      else if m == "init"
      then process_init node
      else if m == "alive"
      then process_alive node
      else skip

  -- `fails` is -1. The method's name is converted before the try block.
  unfoldable pub process_stream_metainformation : MetaInformation J → Method StreamMeta (Unit {0})
  unfolding process_method
  process_stream_metainformation meta s =
      then_run (method json meta, s)
        (λ m s'.
          let (r, s'') = process_method m (params json meta) s' in (catch_runtime_error r, s''))
