-- ===== src/Wire/Header.antt =====
-- The header that the producer writes and the consumer reads.
use Prim.Native.Nat.{bit_or}
use streaming_protocol_lt.Base.{
  ℕ, ◌+◌, ◌*◌, ◌/◌, ◌%◌, ◌^◌, ◌<◌, ◌≡◌, arith, leb, if◌then◌else◌, ap, Bool-cases, inl, inr,
}
use streaming_protocol_lt.Base.Bits.{
  bit_and_mask, bit_and_shifted, bit_or_fields, bit_or_above, bit_or_low,
}
use streaming_protocol_lt.Wire.{
  TransportType, type_signaldata, type_metainformation, type_value, create_transport_header,
  header_signal_number, header_type, header_length,
}

-- The fields of any header word as arithmetic.
pub header_fields :
    (h : ℕ)
    → (header_signal_number h ≡ h % 2 ^ 20)
      × (header_length h ≡ h / 2 ^ 20 % 256)
      × (header_type h ≡ h / 2 ^ 28 % 4)
unfolding header_signal_number header_length header_type
header_fields h = (
  bit_and_mask 20 h,
  omega (arith, bit_and_shifted 20 h 255, bit_and_mask 8 (h / 2 ^ 20)),
  omega (arith, bit_and_shifted 28 h 3, bit_and_mask 2 (h / 2 ^ 28)),
)

type_value-lt : (type : TransportType) → type_value type < 4
type_value-lt type_signaldata = omega arith
type_value-lt type_metainformation = omega arith

-- Three fields that do not overlap, joined by `|`.
join_fields :
    (n t s : ℕ)
    → n < 2 ^ 20
    → s < 2 ^ 8
    → bit_or (bit_or n (t * 2 ^ 28)) (s * 2 ^ 20) ≡ n + t * 2 ^ 28 + s * 2 ^ 20
join_fields n t s hn hs = omega (
  arith,
  bit_or_fields 28 n t (omega arith),
  ap (λ (x : ℕ). bit_or x (s * 2 ^ 20)) (regroup n t),
  ap (λ (x : ℕ). bit_or x (s * 2 ^ 20)) (bit_or_fields 28 n t (omega arith)),
  bit_or_above 20 (t * 2 ^ 8) s n hn,
  bit_or_low 8 t s hs,
)
  where
    regroup : (n t : ℕ) → n + t * 2 ^ 28 ≡ t * 2 ^ 8 * 2 ^ 20 + n
    regroup n t = omega arith

-- The written word is the sum of its fields: the size stands in it when it fits 8 bits.
pub word_sum :
    (type : TransportType) (number additional size : ℕ)
    → number < 2 ^ 20
    → (create_transport_header type number additional size).word
      ≡ number + type_value type * 2 ^ 28 + (if leb size 255 then size * 2 ^ 20 else 0)
unfolding create_transport_header
word_sum type_signaldata number additional size h = elim (Bool-cases (leb size 255)) [
  | inl fits ↦ rw fits (ground (arith, join_fields number 1 size))
  | inr large ↦ rw large (ground (arith, bit_or_fields 28 number 1))
]
word_sum type_metainformation number additional size h = elim (Bool-cases (leb size 255)) [
  | inl fits ↦ rw fits (ground (arith, join_fields number 2 size))
  | inr large ↦ rw large (ground (arith, bit_or_fields 28 number 2))
]

-- The consumer reads from the written word the signal number and the type, and the size if it
-- fits 8 bits, else 0.
pub header-create_transport_header :
    (type : TransportType) (number additional size : ℕ)
    → number < 2 ^ 20
    → let word = (create_transport_header type number additional size).word in
      (header_signal_number word ≡ number)
      × (header_type word ≡ type_value type)
      × (header_length word ≡ (if leb size 255 then size else 0))
header-create_transport_header type number additional size h = ground (
  arith,
  word_sum type number additional size h,
  type_value-lt type,
  header_fields (create_transport_header type number additional size).word,
)
