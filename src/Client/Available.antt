-- ===== src/Client/Available.antt =====
-- What the example client subscribes when a session announces signals.
use streaming_protocol_lt.Base.{
  ℕ, String, ◌≡◌, refl, ap, List, [], ◌∷◌, Option, some, map, if◌then◌else◌, eq_iff, arith,
}
use streaming_protocol_lt.Session.View.{listed}
use streaming_protocol_lt.Base.Result.{Result, ok, ◌>>=◌}
use streaming_protocol_lt.Json.{Json}
use streaming_protocol_lt.Json.Object.{lookup}
use streaming_protocol_lt.Meta.{MetaInformation, method, params}
use streaming_protocol_lt.Session.{write_available}
use streaming_protocol_lt.Client.{allowed, listed_in, texts_of_elements, stream_metainformation_cb}

-- The ids that are in a filter, in order.
unfoldable pub filtered : List String → List String → List String
filtered filter [] = []
filtered filter (id ∷ ids) =
    let rest = filtered filter ids in if listed id filter then id ∷ rest else rest

-- An empty filter lets all pass.
unfoldable pub wanted : List String → List String → List String
wanted [] ids = ids
wanted (f ∷ fs) ids = filtered (f ∷ fs) ids

listed_in-listed : (i : String) (js : List String) → listed_in i js ≡ listed i js
unfolding listed_in listed
listed_in-listed i [] = refl
listed_in-listed i (j ∷ js) = ground (arith, eq_iff i j, eq_iff j i, listed_in-listed i js)

allowed-wanted : (filter ids : List String) → allowed filter ids ≡ wanted filter ids
unfolding allowed wanted filtered
allowed-wanted [] [] = refl
allowed-wanted [] (id ∷ ids) = ap (λ (l : List String). id ∷ l) (allowed-wanted [] ids)
allowed-wanted (f ∷ fs) [] = refl
allowed-wanted (f ∷ fs) (id ∷ ids) =
    rw (listed_in-listed id (f ∷ fs), allowed-wanted (f ∷ fs) ids) refl

module _ {J R : Type 0} (json : Json J R) where
  open json use {find, from_text, get_text-text, find-object, is_object-object, elements-array}

  texts_of_elements-map : (ids : List String) → texts_of_elements json (map from_text ids) ≡ ok ids
  unfolding texts_of_elements
  texts_of_elements-map [] = refl
  texts_of_elements-map (id ∷ ids) = rw (get_text-text id, texts_of_elements-map ids) refl

  -- Meta information as the consumer reads it, given to the callback.
  abbrev pub hear : List String → ℕ × J → ℕ × Result (Option (List String))
  hear filter (number, j) =
      let meta : MetaInformation J = record { type = 2; json_content = j } in
      (
        number,
        method json meta >>= (λ m. stream_metainformation_cb json filter m (params json meta)),
      )

  -- The announcement of a session of at least one id is one message about the stream, and the client that
  -- hears it subscribes those of the ids that are in its filter, in order, and all of them if the filter is
  -- empty.
  pub stream_metainformation_cb-write_available :
      (filter : List String) (id : String) (ids : List String)
      → map (hear filter) (write_available json (id ∷ ids))
        ≡ (0, ok (some (wanted filter (id ∷ ids)))) ∷ []
  unfolding stream_metainformation_cb write_available method params lookup texts_of_elements
  stream_metainformation_cb-write_available filter id ids =
      simp (find-object, get_text-text, elements-array, is_object-object, texts_of_elements-map ids)
        (ap (λ (l : List String). (0, ok (some l)) ∷ []) (allowed-wanted filter (id ∷ ids)))
