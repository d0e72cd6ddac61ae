-- ===== src/Server/Updates.antt =====
-- What a change of the available signals does to the sessions of the server.
use streaming_protocol_lt.Base.{
  String, ◌≡◌, refl, Bool, true, false, ◌&&◌, not, List, [], ◌∷◌, none, some, arith,
}
use streaming_protocol_lt.Base.Result.{ok}
use streaming_protocol_lt.Json.{Json}
use streaming_protocol_lt.Session.{ProducerSession, remove_signals, put_out}
use streaming_protocol_lt.Session.View.{listed}
use streaming_protocol_lt.Session.Ids.{has_id}
use streaming_protocol_lt.Session.Loops.{has_id-remove_loop}
use streaming_protocol_lt.Server.{Sessions, remove_from, update_loop, update_available_signals}

module _ {J : Type 0} where
  unfoldable pub all_there : Sessions J → Bool
  all_there [] = true
  all_there ((id, none) ∷ m) = false
  all_there ((id, some s) ∷ m) = all_there m

module _ {J : Type 0} where
  -- A session keeps the signals whose ids are not removed, and no others.
  abbrev pub Lost : List String → ProducerSession J → ProducerSession J → Type 0
  Lost removed s t =
      (i : String) → has_id i t.signals ≡ (has_id i s.signals && not (listed i removed))

  -- Each session has lost the removed ids, under the id that it had.
  unfoldable pub AllLost : List String → Sessions J → Sessions J → Type 0
  AllLost removed [] [] = Unit {0}
  AllLost removed ((id, some s) ∷ m) ((id', some t) ∷ m') =
      (id' ≡ id) × Lost removed s t × AllLost removed m m'
  AllLost removed _ _ = ⊥

  AllLost-nothing : (m : Sessions J) → all_there m ≡ true → AllLost [] m m
  unfolding AllLost all_there listed
  AllLost-nothing [] h = tt
  AllLost-nothing ((id, none) ∷ m) h = ground (arith, h)
  AllLost-nothing ((id, some s) ∷ m) h = (refl, (λ i. ground arith), AllLost-nothing m h)

module _ {J R : Type 0} (json : Json J R) where
  Lost-remove_from :
      (removed : List String) (s : ProducerSession J) → Lost removed s (remove_from json removed s)
  unfolding remove_signals listed put_out
  Lost-remove_from [] s i = ground arith
  Lost-remove_from (id ∷ ids) s i = has_id-remove_loop i (id ∷ ids) s.signals

  update_loop-AllLost :
      (removed : List String) (m : Sessions J)
      → all_there m ≡ true
      → (after : Sessions J) × (update_loop json removed m ≡ ok after) × AllLost removed m after
  unfolding update_loop all_there AllLost
  update_loop-AllLost removed [] h = ([], refl, tt)
  update_loop-AllLost removed ((id, none) ∷ m) h = ground (arith, h)
  update_loop-AllLost removed ((id, some s) ∷ m) h =
      let (after, e, lost) = update_loop-AllLost removed m h in
      (
        (id, some (remove_from json removed s)) ∷ after,
        rw e refl,
        (refl, Lost-remove_from removed s, lost),
      )

  -- If all sessions are still there, the update returns, and every session keeps exactly the signals
  -- whose ids are not removed.
  pub update_available_signals-AllLost :
      (removed added : List String) (m : Sessions J)
      → all_there m ≡ true
      → (after : Sessions J) × (update_available_signals json removed added m ≡ ok after)
        × AllLost removed m after
  unfolding update_available_signals
  update_available_signals-AllLost [] [] m h = (m, refl, AllLost-nothing m h)
  update_available_signals-AllLost [] (a ∷ added) m h = update_loop-AllLost [] m h
  update_available_signals-AllLost (r ∷ removed) [] m h = update_loop-AllLost (r ∷ removed) m h
  update_available_signals-AllLost (r ∷ removed) (a ∷ added) m h =
      update_loop-AllLost (r ∷ removed) m h
