-- ===== src/Server.antt =====
-- lib/Server.cpp: the sessions of the connected clients by their end points. A session is held
-- weakly: `none` is one that is gone. The websocket server that accepts connections belongs to the
-- stream library.
pub mod Updates
use streaming_protocol_lt.Base.{
  ℕ, suc, String, ◌≡◌, refl, ap, ◌∙◌, sym, Bool, true, false, ◌&&◌, List, [], ◌∷◌, Option, none,
  some, if◌then◌else◌, length, map, arith, ◌==◌,
}
use streaming_protocol_lt.Base.Result.{Result, ok, fails, throws, aborts}
use streaming_protocol_lt.Json.{Json}
use streaming_protocol_lt.Container.Maps.{put_text, erase_text}
use streaming_protocol_lt.Session.{
  ProducerSession, new_session, start, stop as stop_session, remove_signals,
}

abbrev pub Sessions : Type 0 → Type 0
Sessions J = List (String × Option (ProducerSession J))

abbrev pub both_empty : List String → List String → Bool
both_empty [] [] = true
both_empty _ _ = false

module _ {J R : Type 0} (json : Json J R) where
  -- The command interfaces are null, and there are no signals to tell of yet.
  unfoldable pub create_session : String → Sessions J → Sessions J
  unfolding new_session start
  create_session end_point_url m =
      put_text end_point_url (some (start (new_session json end_point_url json.null))) m

  unfoldable pub remove_session : String → Sessions J → Sessions J
  remove_session session_id m = erase_text session_id m

  abbrev stopped : Option (ProducerSession J) → Option (ProducerSession J)
  stopped none = none
  stopped (some s) = some (stop_session s)

  -- The sessions that were stopped, in order, and the map, which is empty.
  unfoldable pub stop : Sessions J → List (Option (ProducerSession J)) × Sessions J
  unfolding stop_session
  stop m = (map (λ (entry : String × Option (ProducerSession J)). stopped entry.1) m, [])

  -- No ids are nothing to do.
  abbrev pub remove_from : List String → ProducerSession J → ProducerSession J
  remove_from [] s = s
  remove_from (id ∷ ids) s = (remove_signals json (id ∷ ids) s).1

  -- The loop over the sessions. Removed ids are removed from each; added ids are not told. A session
  -- that is gone is erased while the loop stands on it: what follows is undefined.
  unfoldable pub update_loop : List String → Sessions J → Result (Sessions J)
  unfolding remove_signals
  update_loop removed [] = ok []
  update_loop removed ((id, none) ∷ m) = aborts
  update_loop removed ((id, some s) ∷ m) = elim (update_loop removed m) [
    | ok m' ↦ ok ((id, some (remove_from removed s)) ∷ m')
    | fails ↦ fails
    | throws e ↦ throws e
    | aborts ↦ aborts
  ]

  unfoldable pub update_available_signals :
      List String → List String → Sessions J → Result (Sessions J)
  unfolding update_loop
  update_available_signals removed added m =
      if both_empty removed added then ok m else update_loop removed m
