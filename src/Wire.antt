-- ===== src/Wire.antt =====
-- The transport layer: include/streaming_protocol/Defines.h, lib/StreamWriter.cpp, and the header
-- that lib/ProtocolHandler.cpp takes apart. What a write hands to the stream is a list of buffers.
pub mod Header
use Prim.Native.Nat.{bit_and, bit_or}
use streaming_protocol_lt.Base.{
  ℕ, ◌+◌, ◌*◌, ◌/◌, ◌%◌, ◌^◌, List, [], ◌∷◌, ◌++◌, length, take, leb, if◌then◌else◌, Option, none,
  some,
}
use streaming_protocol_lt.Base.Words.{wrap32, to_bytes}

abbrev pub signal_number_mask : ℕ
signal_number_mask = 0x000fffff

abbrev pub type_mask : ℕ
type_mask = 0x30000000

abbrev pub type_shift : ℕ
type_shift = 28

abbrev pub size_mask : ℕ
size_mask = 0x0ff00000

abbrev pub size_shift : ℕ
size_shift = 20

abbrev pub metainformation_msgpack : ℕ
metainformation_msgpack = 2

pub data TransportType : Type 0 where
  type_signaldata type_metainformation : TransportType

abbrev pub type_value : TransportType → ℕ
type_value type_signaldata = 1
type_value type_metainformation = 2

-- The two words of the buffer and the number of bytes of them that are the header. A short header
-- leaves the second word as it was.
pub record TransportHeader : Type 0 where
  pub word : ℕ
  pub additional : ℕ
  pub header_size : ℕ

unfoldable pub create_transport_header : TransportType → ℕ → ℕ → ℕ → TransportHeader
create_transport_header type number additional size =
    let header : ℕ = bit_or number (wrap32 (type_value type * 2 ^ type_shift)) in
    if leb size 0xff
    then record {
      word = bit_or header (wrap32 (size * 2 ^ size_shift));
      additional = additional;
      header_size = 4;
    }
    else record { word = header; additional = wrap32 size; header_size = 8 }

-- The first `header_size` bytes of the buffer.
unfoldable pub header_bytes : TransportHeader → List ℕ
header_bytes h = take h.header_size (to_bytes 4 h.word ++ to_bytes 4 h.additional)

-- `additional` is what the uninitialised second word of the header's buffer holds.
unfoldable pub write_signal_data : ℕ → ℕ → List ℕ → List (List ℕ)
unfolding header_bytes create_transport_header
write_signal_data additional number bytes =
    header_bytes (create_transport_header type_signaldata number additional (length bytes))
    ∷ bytes
    ∷ []

unfoldable pub write_msgpack_metainformation : ℕ → ℕ → List ℕ → List (List ℕ)
unfolding header_bytes create_transport_header
write_msgpack_metainformation additional number bytes =
    header_bytes (create_transport_header type_metainformation number additional (length bytes + 4))
    ∷ to_bytes 4 metainformation_msgpack
    ∷ bytes
    ∷ []

-- The fields of a header, as the consumer reads them.
unfoldable pub header_signal_number : ℕ → ℕ
header_signal_number header = bit_and header signal_number_mask

unfoldable pub header_type : ℕ → ℕ
header_type header = bit_and header type_mask / 2 ^ type_shift

unfoldable pub header_length : ℕ → ℕ
header_length header = bit_and header size_mask / 2 ^ size_shift
