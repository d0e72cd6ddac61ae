-- ===== src/Handler/Closing.antt =====
-- How lib/ProtocolHandler.cpp ends a session.
use streaming_protocol_lt.Base.{
  ℕ, zero, suc, ◌≡◌, ◌≢◌, ◌⊎◌, inl, inr, refl, true, List, [], ◌∷◌, ◌++◌, Option, none, some,
  if◌then◌else◌, arith, take, subst, ◌∙◌,
}
use streaming_protocol_lt.Base.Result.{Result, ok, fails, throws, aborts, then_run}
use streaming_protocol_lt.Real.{Real}
use streaming_protocol_lt.Json.{Json}
use streaming_protocol_lt.Handler.{
  Handler, Callback, header, additional_length, payload, on_header, on_additional_length,
  on_init_complete, on_payload, on_close, run, ready, call_back,
}
use streaming_protocol_lt.Handler.Ended.{Refused, Open, Ended, process_payload-Ended}
use streaming_protocol_lt.Handler.Payload.{
  success, protocol_error, stream_error, Session, close_session, process_payload, with_no_stream,
}

module _ {J R : Type 0} (json : Json J R) (real : Real R) where
  -- Every payload is either refused, and then the session is closed for a protocol error, once, or it
  -- is not refused, and then the session stays open.
  pub process_payload-Refused :
      (type number : ℕ) (bytes : List ℕ) (s : Session J R)
      → let o = process_payload json real type number bytes s in
        ((o.0 ≡ fails) × Refused s o.1) ⊎ ((o.0 ≢ fails) × Open s o.1)
  process_payload-Refused type number bytes s =
      decided (process_payload json real type number bytes s)
        (process_payload-Ended json real type number bytes s)
    where
      decided :
          (o : Result (Unit {0}) × Session J R)
          → Ended s o
          → ((o.0 ≡ fails) × Refused s o.1) ⊎ ((o.0 ≢ fails) × Open s o.1)
      decided (fails, t) h = inl (refl, h)
      decided (ok u, t) h = inr ((λ e. ground (arith, e)), h)
      decided (throws x, t) h = inr ((λ e. ground (arith, e)), h)
      decided (aborts, t) h = inr ((λ e. ground (arith, e)), h)

  run-idle : (k : ℕ) (h : Handler J R) → h.pending ≡ none → run json real k h ≡ (ok tt, h)
  unfolding run
  run-idle zero h e = refl
  run-idle (suc k) h e = idle h.pending e ∙ run-idle k h e
    where
      idle :
          (o : Option (Callback × ℕ))
          → o ≡ none
          → then_run (ready json real o h) (λ _. run json real k) ≡ run json real k h
      idle none q = refl
      idle (some c) q = ground (arith, q)

  -- However a read or the initialisation of the stream fails, nothing more is read, and when the
  -- stream is closed the completion callback is called with that error.
  pub call_back-error :
      (callback : Callback) (n k : ℕ) (h : Handler J R)
      → h.pending ≡ none
      → h.session.has_completion ≡ true
      → let ec = stream_error n in
        let failed = (call_back json real callback ec h).1 in
        let aborted = on_init_complete json real ec h in
        (run json real k failed ≡ (ok tt, failed))
        × (run json real k aborted ≡ (ok tt, aborted))
        × ((on_close json real failed).session.completions ≡ h.session.completions ++ ec ∷ [])
        × ((on_close json real aborted).session.completions ≡ h.session.completions ++ ec ∷ [])
  unfolding call_back on_header on_additional_length on_payload on_init_complete on_close
      close_session with_no_stream
  call_back-error header n k h e c = (run-idle k _ e, run-idle k _ e, rw c refl, rw c refl)
  call_back-error additional_length n k h e c =
      (run-idle k _ e, run-idle k _ e, rw c refl, rw c refl)
  call_back-error payload n k h e c = (run-idle k _ e, run-idle k _ e, rw c refl, rw c refl)

  -- A payload that is refused ends the session, if no other read is pending and there is a completion
  -- callback: nothing more is read, the session is closed once for a protocol error, and when the stream is
  -- closed the completion callback is called with that error.
  pub on_payload-refused :
      (k : ℕ) (h : Handler J R) (t : Session J R)
      → h.pending ≡ none
      → h.session.has_completion ≡ true
      → process_payload json real h.type h.signal_number (take h.length_word h.received) h.session
        ≡ (fails, t)
      → let closed = (on_payload json real success h).1 in
        (run json real k closed ≡ (ok tt, closed))
        × (closed.session.session_ec ≡ protocol_error)
        × (closed.session.closes
            ≡ (if h.session.has_stream then suc h.session.closes else h.session.closes))
        × ((on_close json real closed).session.completions
            ≡ h.session.completions ++ protocol_error ∷ [])
  unfolding on_payload on_close with_no_stream
  on_payload-refused k h t e c q =
      rw q (run-idle k _ e, ended.0, ended.2, rw (ended.4 ∙ c, ended.3, ended.0) refl)
    where
      ended : Refused h.session t
      ended = subst (Ended h.session) q (
          process_payload-Ended json real h.type h.signal_number (take h.length_word h.received)
            h.session)
