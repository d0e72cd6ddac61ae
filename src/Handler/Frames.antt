-- ===== src/Handler/Frames.antt =====
-- The frames that lib/StreamWriter.cpp writes, taken apart by lib/ProtocolHandler.cpp.
use streaming_protocol_lt.Base.{
  ℕ, suc, ◌+◌, ◌^◌, ◌<◌, ◌≡◌, refl, ap, ◌∙◌, List, [], ◌∷◌, ◌++◌, length, drop, append_assoc,
  append-nil, drop-length-append, none, some, arith,
}
use streaming_protocol_lt.Base.Result.{Result, ok, fails, throws, aborts, Method, then_run}
use streaming_protocol_lt.Base.Words.{to_bytes}
use streaming_protocol_lt.Real.{Real}
use streaming_protocol_lt.Json.{Json}
use streaming_protocol_lt.Wire.{
  TransportType, type_signaldata, type_metainformation, type_value, metainformation_msgpack,
  create_transport_header, header_bytes, write_signal_data, write_msgpack_metainformation,
}
use streaming_protocol_lt.Handler.{Handler, header, after_payload, run}
use streaming_protocol_lt.Handler.Payload.{Session, process_payload}
use streaming_protocol_lt.Handler.Reads.{
  waiting, addressed, header_reads, run-header_bytes, run-payload,
}

-- What the producer sends: the data of a signal, or packed meta information.
pub record Message : Type 0 where
  pub kind : TransportType
  pub number : ℕ
  pub content : List ℕ

-- The payload: meta information has its own type in front.
abbrev pub payload_of : TransportType → List ℕ → List ℕ
payload_of type_signaldata bytes = bytes
payload_of type_metainformation bytes = to_bytes 4 metainformation_msgpack ++ bytes

abbrev pub joined : List (List ℕ) → List ℕ
joined [] = []
joined (b ∷ bs) = b ++ joined bs

-- The bytes that the writer hands to the stream.
unfoldable pub frame : ℕ → Message → List ℕ
unfolding write_signal_data write_msgpack_metainformation
frame additional m = elim m.kind [
  | type_signaldata ↦ joined (write_signal_data additional m.number m.content)
  | type_metainformation ↦ joined (write_msgpack_metainformation additional m.number m.content)
]

unfoldable pub frames : ℕ → List Message → List ℕ
unfolding frame
frames additional [] = []
frames additional (m ∷ ms) = frame additional m ++ frames additional ms

-- What a header can carry.
abbrev pub Fits : Message → Type 0
Fits m =
    (m.number < 2 ^ 20)
    × (0 < length (payload_of m.kind m.content))
    × (length (payload_of m.kind m.content) < 2 ^ 32)

abbrev pub AllFit : List Message → Type 0
AllFit [] = Unit {0}
AllFit (m ∷ ms) = Fits m × AllFit ms

-- The callbacks for the messages.
abbrev pub callbacks : List Message → ℕ
callbacks [] = 0
callbacks (m ∷ ms) = header_reads (length (payload_of m.kind m.content)) (suc (callbacks ms))

frame-payload :
    (additional : ℕ) (type : TransportType) (number : ℕ) (content rest : List ℕ)
    → frame additional (record { kind = type; number = number; content = content }) ++ rest
      ≡ header_bytes
          (create_transport_header type number additional (length (payload_of type content)))
        ++ (payload_of type content ++ rest)
unfolding frame to_bytes
frame-payload additional type_signaldata number content rest =
    rw (append-nil content) (append_assoc (header_bytes _) content rest)
frame-payload additional type_metainformation number content rest =
    rw (append-nil content, four (length content))
      (append_assoc (header_bytes _) (2 ∷ 0 ∷ 0 ∷ 0 ∷ content) rest)
  where
    four : (n : ℕ) → n + 4 ≡ suc (suc (suc (suc n)))
    four n = omega arith

module _ {J R : Type 0} (json : Json J R) (real : Real R) where
  -- The messages one after the other, without the stream.
  unfoldable pub handle : List Message → Method (Session J R) (Unit {0})
  handle [] s = (ok tt, s)
  handle (m ∷ ms) s =
      let rest = handle ms in
      then_run
        (process_payload json real (type_value m.kind) m.number (payload_of m.kind m.content) s)
        (λ _. rest)

  run-frame :
      (additional k : ℕ) (m : Message) (rest : List ℕ) (h : Handler J R)
      → Fits m
      → let bytes = payload_of m.kind m.content in
        let word = (create_transport_header m.kind m.number additional (length bytes)).word in
        run json real
          (header_reads (length bytes) (suc k))
          (waiting header 4 (frame additional m ++ rest) h)
        ≡ then_run
            (after_payload json real
              (record (addressed word m.kind m.number (length bytes) h) {
                received = bytes ++ rest;
                pending = none;
              })
              (process_payload json real (type_value m.kind) m.number bytes h.session))
            (λ _. run json real k)
  run-frame additional k m rest h (hn, lo, hi) =
      rw (frame-payload additional m.kind m.number m.content rest) (
        run-header_bytes json real (suc k) m.kind m.number additional (length bytes) (bytes ++ rest)
          h hn lo hi
        ∙ run-payload json real k bytes rest (addressed word m.kind m.number (length bytes) h) refl)
    where
      bytes : List ℕ
      bytes = payload_of m.kind m.content

      word : ℕ
      word = (create_transport_header m.kind m.number additional (length bytes)).word

  -- All is handled: what follows is still there, and its header is what the handler waits for.
  abbrev pub Arrived : List ℕ → Session J R → Result (Unit {0}) × Handler J R → Type 0
  Arrived rest s o =
      (o.0 ≡ ok tt) × (o.1.received ≡ rest) × (o.1.pending ≡ some (header, 4)) × (o.1.session ≡ s)

  -- After one message, when the other ones arrive.
  continue_lem :
      (known : Handler J R) (rest after : List ℕ) (s : Session J R) (ms : List Message) (k : ℕ)
      (o : Result (Unit {0}) × Session J R)
      → drop known.length_word known.received ≡ rest
      → ((t : Session J R)
          → handle ms t ≡ (ok tt, s)
          → Arrived after s
              (run json real k (waiting header 4 rest (record known { session = t }))))
      → then_run o (λ _. handle ms) ≡ (ok tt, s)
      → Arrived after s (then_run (after_payload json real known o) (λ _. run json real k))
  continue_lem known rest after s ms k (ok u, t) r others q = rw r (others t q)
  continue_lem known rest after s ms k (fails, t) r others q = ground (arith, q)
  continue_lem known rest after s ms k (throws x, t) r others q = ground (arith, q)
  continue_lem known rest after s ms k (aborts, t) r others q = ground (arith, q)

  -- If messages that a header can carry are all accepted when they are handled one after the other,
  -- the bytes that the writer makes of them arrive as these messages: the handler ends in the session
  -- that this gives, with exactly the frames consumed and waiting for the next header. The number of callbacks is two for each short message and three for each long one.
  pub run-frames :
      (additional : ℕ) (ms : List Message) (rest : List ℕ) (h : Handler J R) (s : Session J R)
      → AllFit ms
      → handle ms h.session ≡ (ok tt, s)
      → Arrived rest s
          (run json real (callbacks ms) (waiting header 4 (frames additional ms ++ rest) h))
  unfolding frames handle run
  run-frames additional [] rest h s fit e = (refl, refl, refl, ap (λ p. p.1) e)
  run-frames additional (m ∷ ms) rest h s (fit, fits) e =
      rw
        (
          append_assoc (frame additional m) (frames additional ms) rest,
          run-frame additional (callbacks ms) m (frames additional ms ++ rest) h fit,
        )
        (continue_lem known (frames additional ms ++ rest) rest s ms (callbacks ms) _
          (drop-length-append bytes (frames additional ms ++ rest))
          (λ t q. run-frames additional ms rest (record known { session = t }) s fits q) e)
    where
      bytes : List ℕ
      bytes = payload_of m.kind m.content

      known : Handler J R
      known =
          record (addressed (create_transport_header m.kind m.number additional (length bytes)).word
            m.kind m.number (length bytes) h) {
              received = bytes ++ (frames additional ms ++ rest);
              pending = none;
            }
