-- ===== src/Meta.antt =====
-- include/streaming_protocol/MetaInformation.hpp and lib/MetaInformation.cpp: one piece of meta
-- information, as the consumer keeps the last one that it received.
use streaming_protocol_lt.Base.{
  ℕ, String, List, drop, length, Option, none, some, ltb, eqb, if◌then◌else◌,
}
use streaming_protocol_lt.Base.Result.{Result, ok, fails, aborts, Method}
use streaming_protocol_lt.Base.Words.{from_bytes}
use streaming_protocol_lt.Json.{Json}
use streaming_protocol_lt.Wire.{metainformation_msgpack}

pub record MetaInformation (J : Type 0) : Type 0 where
  pub type : ℕ
  pub json_content : J

module _ {J R : Type 0} (json : Json J R) where
  open json use {null, find, get_text, from_msgpack}

  unfoldable pub new_metainformation : MetaInformation J
  new_metainformation = record { type = 0; json_content = null }

  -- A content that does not parse is an error, and the old content stays.
  abbrev store_content : Option J → Method (MetaInformation J) (Unit {0})
  store_content none m = (fails, m)
  store_content (some j) m = (ok tt, record m { json_content = j })

  -- A type that is not understood is ignored. `aborts`: fewer bytes than the type takes are read
  -- past their end.
  unfoldable pub interpret : List ℕ → Method (MetaInformation J) (Unit {0})
  unfolding from_bytes
  interpret bytes m =
      let m' : MetaInformation J = record m { type = from_bytes 4 bytes } in
      if ltb (length bytes) 4
      then (aborts, m)
      else if eqb m'.type metainformation_msgpack
      then store_content (from_msgpack (drop 4 bytes)) m'
      else (ok tt, m')

  abbrev pub text_or_empty : Option J → Result String
  text_or_empty none = ok ""
  text_or_empty (some j) = get_text j

  unfoldable pub method : MetaInformation J → Result String
  method m = text_or_empty (find m.json_content "method")

  abbrev value_or_null : Option J → J
  value_or_null none = null
  value_or_null (some j) = j

  unfoldable pub params : MetaInformation J → J
  params m = value_or_null (find m.json_content "params")
