-- ===== src/Producer/Data.antt =====
-- The data that value signals write: addData of include/streaming_protocol/SynchronousSignal.hpp,
-- AsynchronousSignal.hpp and ConstantSignal.hpp, and createTuples of the second. Values are the
-- numbers whose bytes the C++ values have; `w` is the size of the value type.
use streaming_protocol_lt.Base.{ℕ, suc, ◌+◌, ◌*◌, List, [], ◌∷◌, ◌++◌, take, drop, length}
use streaming_protocol_lt.Base.Int.{ℤ, pos, negsuc}
use streaming_protocol_lt.Base.Words.{wrap64, to_bytes}
use streaming_protocol_lt.Signal.Doubles.{packed}
use streaming_protocol_lt.Producer.{BaseValueSignal}

pub record SynchronousSignal (J R : Type 0) : Type 0 where
  pub value : BaseValueSignal J R
  pub value_index : ℕ

-- The writer is `writeSignalData` of the signal's stream: it takes the signal number and the bytes,
-- and gives a result that is negative on failure.
module _ {S : Type 0} (write_signal_data : ℕ → List ℕ → S → ℤ × S) where
  -- All values in one packet. The value index counts them, whatever the write gives.
  unfoldable pub add_data_synchronous :
      {J R : Type 0} → ℕ → List ℕ → SynchronousSignal J R → S → ℤ × SynchronousSignal J R × S
  add_data_synchronous w values s stream =
      let (result, stream') =
        write_signal_data s.value.base.signal_number (packed w values) stream in
      (result, record s { value_index = wrap64 (s.value_index + length values) }, stream')

  -- Each value in a packet of its own, up to the first write that fails. The time stamps of the
  -- tuples are not written here.
  unfoldable pub add_data_asynchronous : ℕ → ℕ → List (ℕ × ℕ) → S → ℤ × S
  add_data_asynchronous w number [] stream = (pos 0, stream)
  add_data_asynchronous w number ((time_stamp, value) ∷ tuples) stream =
      let written = write_signal_data number (to_bytes w value) stream in
      elim (written.0) [
        | pos n ↦ add_data_asynchronous w number tuples written.1
        | negsuc n ↦ (negsuc n, written.1)
      ]

-- Bytes are copied over those of a buffer.
unfoldable pub overwrite : ℕ → List ℕ → List ℕ → List ℕ
overwrite offset bytes buffer = take offset buffer ++ bytes ++ drop (offset + length bytes) buffer

-- Entry i of the buffer gets the value index and the value.
unfoldable pub fill_entries : ℕ → ℕ → List (ℕ × ℕ) → List ℕ → List ℕ
unfolding overwrite
fill_entries w i [] buffer = buffer
fill_entries w i ((index, value) ∷ entries) buffer = fill_entries w (suc i) entries (
    overwrite (i * (8 + w) + 8) (to_bytes w value)
      (overwrite (i * (8 + w)) (to_bytes 8 index) buffer))

module _ {S : Type 0} (write_signal_data : ℕ → List ℕ → S → ℤ × S) where
  -- The buffer is not initialised.
  unfoldable pub add_data_constant : ℕ → ℕ → List (ℕ × ℕ) → List ℕ → S → ℤ × S
  unfolding fill_entries
  add_data_constant w number entries uninitialised stream =
      write_signal_data number (fill_entries w 0 entries uninitialised) stream

-- The tuples are kept where there are already more of them.
unfoldable pub create_tuples : List (ℕ × ℕ) → List (ℕ × ℕ) → List (ℕ × ℕ)
create_tuples [] out = out
create_tuples ((value, time_stamp) ∷ rest) [] = (time_stamp, value) ∷ create_tuples rest []
create_tuples ((value, time_stamp) ∷ rest) (o ∷ out) = (time_stamp, value) ∷ create_tuples rest out
