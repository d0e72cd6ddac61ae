-- ===== src/Session/View.antt =====
-- What a client knows of the signals of a session: the ids that the meta information of the stream
-- itself, on signal number 0, has made available and not made unavailable since. The method and
-- the parameters are read as the consumer reads them.
use streaming_protocol_lt.Base.{
  ℕ, String, ◌≡◌, refl, ap, Bool, true, false, not, ◌&&◌, ◌||◌, List, [], ◌∷◌, ◌++◌, Option, none,
  some, map, eqb, if◌then◌else◌, ◌==◌, eq_iff, arith,
}
use streaming_protocol_lt.Base.Result.{ok, fails, throws, aborts}
use streaming_protocol_lt.Json.{Json}
use streaming_protocol_lt.Json.Object.{lookup}
use streaming_protocol_lt.Meta.{MetaInformation, method, params}
use streaming_protocol_lt.Producer.{Written}
use streaming_protocol_lt.Session.{
  write_available, write_unavailable, write_initial_metainformation, api_version_meta, init_meta,
}

unfoldable pub listed : String → List String → Bool
listed i [] = false
listed i (j ∷ js) = i == j || listed i js

unfoldable pub without : List String → List String → List String
unfolding listed
without gone [] = []
without gone (j ∷ js) = let rest = without gone js in if listed j gone then rest else j ∷ rest

-- Every piece is on a signal number that is not 0.
unfoldable pub all_numbered : {J : Type 0} → Written J → Bool
all_numbered [] = true
all_numbered ((n, j) ∷ w) = not (eqb n 0) && all_numbered w

pub listed-append :
    (i : String) (xs ys : List String) → listed i (xs ++ ys) ≡ (listed i xs || listed i ys)
unfolding listed
listed-append i [] ys = refl
listed-append i (x ∷ xs) ys = ground (arith, listed-append i xs ys)

pub listed-without :
    (i : String) (gone known : List String)
    → listed i (without gone known) ≡ (listed i known && not (listed i gone))
unfolding listed without
listed-without i gone [] = refl
listed-without i gone (j ∷ js) = ground (arith, eq_iff i j, listed-without i gone js)

module _ {J R : Type 0} (json : Json J R) where
  open json use {from_text, find, elements, get_text, find-object, elements-array, get_text-text}

  unfoldable texts : List J → List String
  texts [] = []
  texts (j ∷ js) =
      let rest = texts js in
      elim (get_text j) [ ok t ↦ t ∷ rest | fails ↦ rest | throws e ↦ rest | aborts ↦ rest ]

  abbrev ids_in : Option J → List String
  ids_in none = []
  ids_in (some js) = texts (elements js)

  abbrev told : String → List String → List String → List String
  told m ids known =
      if m == "available"
      then ids ++ known
      else if m == "unavailable"
      then without ids known
      else known

  abbrev content : J → MetaInformation J
  content j = record { type = 2; json_content = j }

  unfoldable see : ℕ → J → List String → List String
  unfolding method params texts without listed
  see n j known =
      if eqb n 0
      then elim (method json (content j)) [
        | ok m ↦ told m (ids_in (find (params json (content j)) "signalIds")) known
        | fails ↦ known
        | throws e ↦ known
        | aborts ↦ known
      ]
      else known

  unfoldable pub view : Written J → List String → List String
  unfolding see
  view [] known = known
  view ((n, j) ∷ w) known = view w (see n j known)

  texts-map : (ids : List String) → texts (map from_text ids) ≡ ids
  unfolding texts
  texts-map [] = refl
  texts-map (id ∷ ids) = rw (get_text-text id, texts-map ids) refl

  pub view-append :
      (v w : Written J) (known : List String) → view (v ++ w) known ≡ view w (view v known)
  unfolding view
  view-append [] w known = refl
  view-append ((n, j) ∷ v) w known = view-append v w (see n j known)

  pub view-numbered :
      (w : Written J) (known : List String) → all_numbered w ≡ true → view w known ≡ known
  unfolding view see all_numbered
  view-numbered [] known h = refl
  view-numbered ((n, j) ∷ w) known h = ground (arith, view-numbered w known, h)

  pub view-available :
      (id : String) (ids known : List String)
      → view (write_available json (id ∷ ids)) known ≡ (id ∷ ids) ++ known
  unfolding view see write_available method params lookup
  view-available id ids known =
      simp (find-object, get_text-text, elements-array)
        (ap (λ (xs : List String). (id ∷ xs) ++ known) (texts-map ids))

  pub view-unavailable :
      (id : String) (ids known : List String)
      → view (write_unavailable json (id ∷ ids)) known ≡ without (id ∷ ids) known
  unfolding view see write_unavailable method params lookup
  view-unavailable id ids known =
      simp (find-object, get_text-text, elements-array)
        (ap (λ (xs : List String). without (id ∷ xs) known) (texts-map ids))

  -- The greeting makes nothing available.
  pub view-initial :
      (stream_id : String) (interfaces : J) (known : List String)
      → view (write_initial_metainformation json stream_id interfaces) known ≡ known
  unfolding view see write_initial_metainformation api_version_meta init_meta method params lookup
  view-initial stream_id interfaces known = simp (find-object, get_text-text)
