-- ===== src/Producer/Received.antt =====
-- The meta information of one signal at the consumer's signal, as `processMetaInformation` hands it on.
use streaming_protocol_lt.Base.{ℕ, ◌≡◌, refl, [], ◌∷◌}
use streaming_protocol_lt.Base.Result.{ok, Method, then_run}
use streaming_protocol_lt.Real.{Real}
use streaming_protocol_lt.Json.{Json}
use streaming_protocol_lt.Json.Object.{lookup}
use streaming_protocol_lt.Meta.{MetaInformation, method, params}
use streaming_protocol_lt.Signal.{SubscribedSignal}
use streaming_protocol_lt.Signal.Definition.{
  process_signal_metainformation, set_signal_id, text_or_number,
}
use streaming_protocol_lt.Producer.{Written, BaseSignal, subscribe_message, write_subscribe}

module _ {J R : Type 0} (json : Json J R) (real : Real R) where
  open json use {object, from_text, find-object, get_text-text, is_string-text}

  abbrev content : J → MetaInformation J
  content j = record { type = 2; json_content = j }

  -- The consumer's signal goes through the meta information on its number until a piece is refused.
  unfoldable pub receive : Written J → Method (SubscribedSignal J R) (Unit {0})
  unfolding process_signal_metainformation method params
  receive [] t = (ok tt, t)
  receive ((number, j) ∷ w) t =
      let rest = receive w in
      then_run (method json (content j), t)
        (λ m t'.
          then_run (process_signal_metainformation json real m (params json (content j)) t')
            (λ u. rest))

  -- The acknowledgement gives the signal its id.
  pub receive-write_subscribe :
      (base : BaseSignal J) (w : Written J) (t : SubscribedSignal J R)
      → receive (write_subscribe json base w) t
        ≡ receive w (record t { signal_id = base.signal_id })
  unfolding receive write_subscribe subscribe_message method params process_signal_metainformation
      set_signal_id text_or_number lookup
  receive-write_subscribe base w t = simp (find-object, get_text-text, is_string-text)

  abbrev pub signal_message : J → J
  signal_message description =
      object (("method", from_text "signal") ∷ ("params", description) ∷ [])

  params-signal_message :
      (description : J) → params json (content (signal_message description)) ≡ description
  unfolding params lookup
  params-signal_message description = simp (find-object)

  method-signal_message :
      (description : J) → method json (content (signal_message description)) ≡ ok "signal"
  unfolding method lookup
  method-signal_message description = simp (find-object, get_text-text)

  -- A description is handed on.
  pub receive-signal_message :
      (number : ℕ) (description : J) (t t' : SubscribedSignal J R)
      → process_signal_metainformation json real "signal" description t ≡ (ok tt, t')
      → receive ((number, signal_message description) ∷ []) t ≡ (ok tt, t')
  unfolding receive
  receive-signal_message number description t t' e =
      rw (method-signal_message description, params-signal_message description, e) refl
