-- ===== src/Handler/Reads.antt =====
-- The reads of lib/ProtocolHandler.cpp: a header, an additional length, a payload.
use streaming_protocol_lt.Base.{
  ℕ, suc, ◌+◌, ◌%◌, ◌^◌, ◌<◌, ◌≡◌, refl, ◌∙◌, List, ◌++◌, length, length-append, append_assoc,
  take-length-append, none, some, leb, eqb, if◌then◌else◌, arith, Bool-cases, inl, inr, true, false,
}
use streaming_protocol_lt.Base.Result.{then_run}
use streaming_protocol_lt.Base.Words.{to_bytes}
use streaming_protocol_lt.Base.Words.Laws.{from_bytes-to_bytes, drop-to_bytes, length-to_bytes}
use streaming_protocol_lt.Real.{Real}
use streaming_protocol_lt.Json.{Json}
use streaming_protocol_lt.Wire.{
  TransportHeader, TransportType, type_signaldata, type_metainformation, type_value,
  create_transport_header, header_bytes, header_signal_number, header_type, header_length,
}
use streaming_protocol_lt.Wire.Header.{header-create_transport_header, word_sum}
use streaming_protocol_lt.Handler.{
  Handler, Callback, header, additional_length, payload, on_header, on_additional_length,
  on_payload, after_payload, run,
}
use streaming_protocol_lt.Handler.Payload.{process_payload}

word-lt :
    (type : TransportType) (number additional size : ℕ)
    → number < 2 ^ 20
    → (create_transport_header type number additional size).word < 2 ^ 32
word-lt type_signaldata number additional size h =
    ground (arith, word_sum type_signaldata number additional size h)
word-lt type_metainformation number additional size h =
    ground (arith, word_sum type_metainformation number additional size h)

-- A header of 4 bytes, or of 8 whose second word is the size.
header_bytes-cases :
    (type : TransportType) (number additional size : ℕ)
    → header_bytes (create_transport_header type number additional size) ≡ (
        if leb size 255
        then to_bytes 4 (create_transport_header type number additional size).word
        else to_bytes 4 (create_transport_header type number additional size).word
          ++ to_bytes 4 (size % 2 ^ 32))
unfolding header_bytes create_transport_header to_bytes
header_bytes-cases type number additional size = elim (Bool-cases (leb size 255)) [
  | inl b ↦ rw b refl
  | inr b ↦ rw b refl
]

enough : (n : ℕ) (bytes : List ℕ) → leb n (n + length bytes) ≡ true
enough n bytes = ground arith

-- The callbacks of a header, and k more.
abbrev pub header_reads : ℕ → ℕ → ℕ
header_reads size k = if leb size 255 then suc k else suc (suc k)

module _ {J R : Type 0} where
  -- The handler that waits for n bytes.
  abbrev pub waiting : Callback → ℕ → List ℕ → Handler J R → Handler J R
  waiting callback n bytes h = record h { received = bytes; pending = some (callback, n) }

  -- What the handler knows after the header.
  abbrev pub addressed : ℕ → TransportType → ℕ → ℕ → Handler J R → Handler J R
  addressed word type number size h = record h {
    header_word = word;
    signal_number = number;
    type = type_value type;
    length_word = size;
  }

module _ {J R : Type 0} (json : Json J R) (real : Real R) where
  run-header :
      (k word : ℕ) (rest : List ℕ) (h : Handler J R)
      → word < 2 ^ 32
      → run json real (suc k) (waiting header 4 (to_bytes 4 word ++ rest) h)
        ≡ run json real k (record h {
          received = rest;
          header_word = word;
          signal_number = header_signal_number word;
          type = header_type word;
          length_word = header_length word;
          pending = some (
              if eqb (header_length word) 0
              then (additional_length, 4)
              else (payload, header_length word));
        })
  unfolding run on_header
  run-header k word rest h b =
      rw
        (
          length-append (to_bytes 4 word) rest,
          length-to_bytes 4 word,
          enough 4 rest,
          from_bytes-to_bytes 4 word rest b,
          drop-to_bytes 4 word rest,
        )
        refl

  run-additional :
      (k size : ℕ) (rest : List ℕ) (h : Handler J R)
      → size < 2 ^ 32
      → run json real (suc k) (waiting additional_length 4 (to_bytes 4 size ++ rest) h)
        ≡ run json real k
            (record h { received = rest; length_word = size; pending = some (payload, size) })
  unfolding run on_additional_length
  run-additional k size rest h b =
      rw
        (
          length-append (to_bytes 4 size) rest,
          length-to_bytes 4 size,
          enough 4 rest,
          from_bytes-to_bytes 4 size rest b,
          drop-to_bytes 4 size rest,
        )
        refl

  -- The read of a payload that was received.
  pub run-payload :
      (k : ℕ) (bytes rest : List ℕ) (h : Handler J R)
      → h.length_word ≡ length bytes
      → run json real (suc k) (waiting payload (length bytes) (bytes ++ rest) h)
        ≡ then_run
            (after_payload json real
              (record h { received = bytes ++ rest; pending = none })
              (process_payload json real h.type h.signal_number bytes h.session))
            (λ _. run json real k)
  unfolding run on_payload
  run-payload k bytes rest h e =
      rw (length-append bytes rest, e, enough (length bytes) rest, take-length-append bytes rest)
        refl

  pub run-header_bytes :
      (k : ℕ) (type : TransportType) (number additional size : ℕ) (rest : List ℕ) (h : Handler J R)
      → number < 2 ^ 20
      → 0 < size
      → size < 2 ^ 32
      → let head = create_transport_header type number additional size in
        run json real (header_reads size k) (waiting header 4 (header_bytes head ++ rest) h)
        ≡ run json real k (waiting payload size rest (addressed head.word type number size h))
  run-header_bytes k type number additional size rest h hn lo hi =
      elim (Bool-cases (leb size 255)) [
        | inl b ↦
            rw (header_bytes-cases type number additional size, b)
              (run-header k head.word rest h (word-lt type number additional size hn)
                ∙ rw (fields.0, fields.1, fields.2, b, positive size lo) refl)
        | inr b ↦
            rw (header_bytes-cases type number additional size, b)
              (rw
                (
                  append_assoc (to_bytes 4 head.word) (to_bytes 4 (size % 2 ^ 32)) rest,
                  small size hi,
                )
                (run-header (suc k) head.word (to_bytes 4 size ++ rest) h
                    (word-lt type number additional size hn)
                  ∙ rw (fields.0, fields.1, fields.2, b)
                      (run-additional k size rest (addressed head.word type number 0 h) hi)))
      ]
    where
      head : TransportHeader
      head = create_transport_header type number additional size

      fields :
          (header_signal_number head.word ≡ number)
          × (header_type head.word ≡ type_value type)
          × (header_length head.word ≡ (if leb size 255 then size else 0))
      fields = header-create_transport_header type number additional size hn

      positive : (m : ℕ) → 0 < m → eqb m 0 ≡ false
      positive m p = ground arith

      small : (m : ℕ) → m < 2 ^ 32 → m % 2 ^ 32 ≡ m
      small m p = omega arith
