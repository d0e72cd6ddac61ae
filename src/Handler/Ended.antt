-- ===== src/Handler/Ended.antt =====
-- How the processing of a payload in lib/ProtocolHandler.cpp leaves the session.
use streaming_protocol_lt.Base.{
  ℕ, String, suc, ◌≡◌, ◌≢◌, refl, Bool, true, false, List, [], ◌∷◌, ◌++◌, Option, none, some, eqb,
  if◌then◌else◌, arith,
}
use streaming_protocol_lt.Base.Result.{Result, ok, fails, throws, aborts, Method, then_run}
use streaming_protocol_lt.Real.{Real}
use streaming_protocol_lt.Json.{Json}
use streaming_protocol_lt.Wire.{metainformation_msgpack}
use streaming_protocol_lt.Meta.{MetaInformation, interpret, text_or_empty, method, params}
use streaming_protocol_lt.StreamMeta.{StreamMeta, process_stream_metainformation}
use streaming_protocol_lt.Container.{SignalContainer}
use streaming_protocol_lt.Container.Measured.{process_container_data}
use streaming_protocol_lt.Container.Meta.{process_metainformation}
use streaming_protocol_lt.Handler.Payload.{
  protocol_error, Session, announced, close_session, process_payload, data_payload, meta_payload,
  stream_payload, signal_payload, or_refuse, refuse, logged,
}

module _ {J R : Type 0} where
  -- The session was closed for a protocol error, once.
  abbrev pub Refused : Session J R → Session J R → Type 0
  Refused s t =
      (t.session_ec ≡ protocol_error)
      × (t.has_stream ≡ s.has_stream)
      × (t.closes ≡ (if s.has_stream then suc s.closes else s.closes))
      × (t.completions ≡ s.completions)
      × (t.has_completion ≡ s.has_completion)

  -- The session is as it was, but for what the components hold.
  abbrev pub Open : Session J R → Session J R → Type 0
  Open s t =
      (t.session_ec ≡ s.session_ec)
      × (t.has_stream ≡ s.has_stream)
      × (t.closes ≡ s.closes)
      × (t.completions ≡ s.completions)
      × (t.has_completion ≡ s.has_completion)

  -- Closed for a protocol error where the result is the early return, and open otherwise.
  abbrev pub Ended : Session J R → Result (Unit {0}) × Session J R → Type 0
  Ended s (fails, t) = Refused s t
  Ended s (ok u, t) = Open s t
  Ended s (throws x, t) = Open s t
  Ended s (aborts, t) = Open s t

  or_refuse-Ended :
      (s : Session J R) (r : Result (Unit {0})) (t : Session J R)
      → Open s t
      → Ended s (or_refuse (r, t))
  unfolding close_session
  or_refuse-Ended s (ok u) t h = h
  or_refuse-Ended s fails t (a, b, c, d, e) = (refl, b, rw (b, c) refl, d, e)
  or_refuse-Ended s (throws x) t h = h
  or_refuse-Ended s aborts t h = h

  then_run-Ended :
      (s : Session J R) (o : Result (Unit {0}) × Session J R)
      (f : Unit {0} → Method (Session J R) (Unit {0}))
      → Ended s o
      → ((t : Session J R) → Open s t → Ended s (f tt t))
      → Ended s (then_run o f)
  then_run-Ended s (ok tt, t) f h k = k t h
  then_run-Ended s (fails, t) f h k = h
  then_run-Ended s (throws x, t) f h k = h
  then_run-Ended s (aborts, t) f h k = h

  choose-Ended :
      (s t : Session J R) (b : Bool) (f g : Method (Session J R) (Unit {0}))
      → Ended s (f t)
      → Ended s (g t)
      → Ended s ((if b then f else g) t)
  choose-Ended s t true f g h k = h
  choose-Ended s t false f g h k = k

  either-Ended :
      (s t : Session J R) (b : Bool) (f g : Method (Session J R) (Unit {0}))
      → Ended s (f t)
      → Ended s (g t)
      → Ended s (if b then f t else g t)
  either-Ended s t true f g h k = h
  either-Ended s t false f g h k = k

  logged-Ended :
      (s : Session J R) (r : Result ℕ) (t : Session J R) → Open s t → Ended s (logged r, t)
  logged-Ended s (ok n) t h = h
  logged-Ended s fails t h = h
  logged-Ended s (throws x) t h = h
  logged-Ended s aborts t h = h

module _ {J R : Type 0} (json : Json J R) (real : Real R) where
  method-returns : (m : MetaInformation J) → method json m ≢ fails
  unfolding method
  method-returns m = text-returns (json.find m.json_content "method")
    where
      text-returns : (o : Option J) → text_or_empty json o ≢ fails
      text-returns none e = ground (arith, e)
      text-returns (some j) e = json.get_text-returns j e

  announced-Ended : (s t : Session J R) → Open s t → Ended s (announced json real t)
  announced-Ended s t h =
      returned (method json t.meta_information) (method-returns t.meta_information)
    where
      returned :
          (r : Result String)
          → r ≢ fails
          → Ended s (
              then_run
                (r, t)
                λ m s'. (
                  ok tt,
                  record s' {
                    stream_meta_calls =
                        s'.stream_meta_calls ++ (m, params json s'.meta_information) ∷ [];
                  },
                ))
      returned (ok m) k = h
      returned fails k = elim (k refl) [ ]
      returned (throws x) k = h
      returned aborts k = h

  stream_payload-Ended : (s t : Session J R) → Open s t → Ended s (stream_payload json real t)
  unfolding stream_payload
  stream_payload-Ended s t h =
      then_run-Ended s (or_refuse (r.0, t')) next (or_refuse-Ended s r.0 t' h) λ u k.
        either-Ended s u (eqb u.meta_information.type metainformation_msgpack) (announced json real)
          refuse (announced-Ended s u k) (or_refuse-Ended s fails u k)
    where
      r : Result (Unit {0}) × StreamMeta
      r = process_stream_metainformation json t.meta_information t.stream_meta

      t' : Session J R
      t' = record t { stream_meta = r.1 }

      next : Unit {0} → Method (Session J R) (Unit {0})
      next _ u =
          if eqb u.meta_information.type metainformation_msgpack
          then announced json real u
          else refuse u

  signal_payload-Ended :
      (number : ℕ) (s t : Session J R) → Open s t → Ended s (signal_payload json real number t)
  unfolding signal_payload
  signal_payload-Ended number s t h = or_refuse-Ended s r.0 (record t { container = r.1 }) h
    where
      r : Result (Unit {0}) × SignalContainer J R
      r = process_metainformation json real number t.meta_information t.container

  meta_payload-Ended :
      (number : ℕ) (bytes : List ℕ) (s t : Session J R)
      → Open s t
      → Ended s (meta_payload json real number bytes t)
  unfolding meta_payload
  meta_payload-Ended number bytes s t h =
      then_run-Ended s (or_refuse (r.0, t')) (λ _. next) (or_refuse-Ended s r.0 t' h)
        λ u k.
          choose-Ended s u (eqb number 0) (stream_payload json real)
            (signal_payload json real number) (stream_payload-Ended s u k)
            (signal_payload-Ended number s u k)
    where
      r : Result (Unit {0}) × MetaInformation J
      r = interpret json bytes t.meta_information

      t' : Session J R
      t' = record t { meta_information = r.1 }

      next : Method (Session J R) (Unit {0})
      next = if eqb number 0 then stream_payload json real else signal_payload json real number

  pub process_payload-Ended :
      (type number : ℕ) (bytes : List ℕ) (s : Session J R)
      → Ended s (process_payload json real type number bytes s)
  unfolding process_payload data_payload
  process_payload-Ended type number bytes s =
      choose-Ended s s (eqb type 1) (data_payload json real number bytes) other
        (logged-Ended s r.0 (record s { container = r.1 }) same)
        (choose-Ended s s (eqb type 2) (meta_payload json real number bytes) refuse
          (meta_payload-Ended number bytes s s same) (or_refuse-Ended s fails s same))
    where
      r : Result ℕ × SignalContainer J R
      r = process_container_data number bytes s.container

      other : Method (Session J R) (Unit {0})
      other = if eqb type 2 then meta_payload json real number bytes else refuse

      same : Open s s
      same = (refl, refl, refl, refl, refl)
