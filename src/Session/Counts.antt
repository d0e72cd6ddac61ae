-- ===== src/Session/Counts.antt =====
-- What subscribing and unsubscribing the signals of a session returns and writes.
use streaming_protocol_lt.Base.{
  ℕ, suc, String, ◌≡◌, refl, sym, ap, ◌∙◌, List, [], ◌∷◌, ◌++◌, none, some, length, append-nil,
  append_assoc, Option-cases, inl, inr,
}
use streaming_protocol_lt.Json.{Json}
use streaming_protocol_lt.Container.Maps.{find_text}
use streaming_protocol_lt.Producer.{Written, write_subscribe, subscribe_message, write_unsubscribe}
use streaming_protocol_lt.Session.{
  ProducerSignal, ProducerSession, put_out, call_signals, subscribe_signals, unsubscribe_signals,
}

module _ {J : Type 0} where
  -- The signals of a list of ids, in the order of the list.
  unfoldable pub found : List String → List (String × ProducerSignal J) → List (ProducerSignal J)
  found [] m = []
  found (id ∷ ids) m = elim (find_text id m) [ none ↦ found ids m | some v ↦ v ∷ found ids m ]

  unfoldable pub written_for : (ProducerSignal J → Written J) → List (ProducerSignal J) → Written J
  written_for f [] = []
  written_for f (v ∷ vs) = f v ++ written_for f vs

  put_out-append :
      (v w : Written J) (s : ProducerSession J) → put_out w (put_out v s) ≡ put_out (v ++ w) s
  unfolding put_out
  put_out-append v w s =
      ap (λ (u : Written J). record s { written = u }) (append_assoc s.written v w)

  put_out-nil : (s : ProducerSession J) → put_out [] s ≡ s
  unfolding put_out
  put_out-nil s = ap (λ (u : Written J). record s { written = u }) (append-nil s.written)

  call_signals-found :
      (f : ProducerSignal J → Written J) (ids : List String) (s : ProducerSession J)
      → call_signals f ids s
        ≡ (length (found ids s.signals), put_out (written_for f (found ids s.signals)) s)
  unfolding call_signals found written_for put_out
  call_signals-found f [] s = ap (λ (t : ProducerSession J). (0, t)) (sym (put_out-nil s))
  call_signals-found f (id ∷ ids) s = elim (Option-cases (find_text id s.signals)) [
    | inl e ↦ rw (call_signals, found, e) (call_signals-found f ids s)
    | inr (v, e) ↦
        rw (call_signals, found, e)
          (ap (λ (r : ℕ × ProducerSession J). (suc r.0, r.1))
              (call_signals-found f ids (put_out (f v) s))
            ∙ ap (λ (t : ProducerSession J). (suc (length (found ids s.signals)), t))
                (put_out-append (f v) (written_for f (found ids s.signals)) s))
  ]

module _ {J R : Type 0} (json : Json J R) where
  -- The acknowledgement that names the signal, on its number, and then its description, for each signal.
  unfoldable pub answers : List (ProducerSignal J) → Written J
  answers [] = []
  answers (v ∷ vs) =
      (
        v.base.signal_number,
        json.object (
            ("method", json.from_text "subscribe")
            ∷ ("params", json.object (("signalId", json.from_text v.base.signal_id) ∷ []))
            ∷ []),
      )
        ∷ v.description
      ++ answers vs

  written_for-answers :
      (vs : List (ProducerSignal J))
      → written_for (λ v. write_subscribe json v.base v.description) vs ≡ answers vs
  unfolding written_for answers write_subscribe subscribe_message
  written_for-answers [] = refl
  written_for-answers (v ∷ vs) =
      ap (λ (w : Written J). write_subscribe json v.base v.description ++ w)
        (written_for-answers vs)

  -- The session is the old one but for what is written.
  pub subscribe_signals_lem :
      (ids : List String) (s : ProducerSession J)
      → subscribe_signals json ids s ≡ (
        length (found ids s.signals),
        put_out
            (written_for (λ v. write_subscribe json v.base v.description) (found ids s.signals))
            s,
      )
  unfolding subscribe_signals
  subscribe_signals_lem ids s =
      call_signals-found (λ v. write_subscribe json v.base v.description) ids s

  -- Subscribing ids returns how many of them are there, and for each of these writes the acknowledgement
  -- that names it on its number, followed by its description, in the order of the ids; the signals stay.
  pub subscribe_signals-found :
      (ids : List String) (s : ProducerSession J)
      → let r = subscribe_signals json ids s in
        (r.0 ≡ length (found ids s.signals))
        × (r.1.written ≡ s.written ++ answers (found ids s.signals))
        × (r.1.signals ≡ s.signals)
  unfolding subscribe_signals put_out
  subscribe_signals-found ids s =
      let e = subscribe_signals_lem ids s in
      (
        ap (λ r. r.0) e,
        ap (λ r. r.1.written) e
            ∙ ap (λ (w : Written J). s.written ++ w) (written_for-answers (found ids s.signals)),
        ap (λ r. r.1.signals) e,
      )

  -- Unsubscribing ids returns how many of them are there, and writes the acknowledgement of each of
  -- these, in the order of the ids; nothing else changes.
  pub unsubscribe_signals-found :
      (ids : List String) (s : ProducerSession J)
      → unsubscribe_signals json ids s ≡ (
        length (found ids s.signals),
        put_out (written_for (λ v. write_unsubscribe json v.base) (found ids s.signals)) s,
      )
  unfolding unsubscribe_signals
  unsubscribe_signals-found ids s = call_signals-found (λ v. write_unsubscribe json v.base) ids s
