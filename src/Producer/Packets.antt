-- ===== src/Producer/Packets.antt =====
-- The packets of asynchronous signals, at a writer that takes so many packets and then fails.
use streaming_protocol_lt.Base.{
  ℕ, zero, suc, ◌≡◌, refl, sym, ◌∙◌, List, [], ◌∷◌, ◌++◌, take, length, Option, none, some,
  append_assoc, append-nil,
}
use streaming_protocol_lt.Base.Int.{ℤ, pos, negsuc}
use streaming_protocol_lt.Base.Words.{to_bytes}
use streaming_protocol_lt.Producer.{Written}
use streaming_protocol_lt.Producer.Data.{add_data_asynchronous}

-- The errors with which the next writes fail, `none` for those that are taken, and all that was tried.
-- After these all is taken.
abbrev pub Scripted : Type 0
Scripted = List (Option ℕ) × Written (List ℕ)

unfoldable pub write_scripted : ℕ → List ℕ → Scripted → ℤ × Scripted
write_scripted number bytes ([], log) = (pos (length bytes), ([], log ++ (number, bytes) ∷ []))
write_scripted number bytes (none ∷ script, log) =
    (pos (length bytes), (script, log ++ (number, bytes) ∷ []))
write_scripted number bytes (some error ∷ script, log) =
    (negsuc error, (script, log ++ (number, bytes) ∷ []))

-- Of n writes, the result of the first that fails, or 0.
abbrev pub first_failure : ℕ → List (Option ℕ) → ℤ
first_failure n [] = pos 0
first_failure zero (w ∷ script) = pos 0
first_failure (suc n) (none ∷ script) = first_failure n script
first_failure (suc n) (some error ∷ script) = negsuc error

-- How many writes there are of n with the first that fails the last one.
abbrev pub tries : ℕ → List (Option ℕ) → ℕ
tries n [] = n
tries zero (w ∷ script) = zero
tries (suc n) (none ∷ script) = suc (tries n script)
tries (suc n) (some error ∷ script) = 1

-- One packet for each tuple.
abbrev pub value_packets : ℕ → ℕ → List (ℕ × ℕ) → Written (List ℕ)
value_packets w number [] = []
value_packets w number ((time_stamp, value) ∷ tuples) =
    (number, to_bytes w value) ∷ value_packets w number tuples

-- Each value is written as a packet of its own, in order, up to and with the first write that fails; the
-- result is 0 if none fails and that of the failed write otherwise.
pub add_data_asynchronous-packets :
    (w number : ℕ) (script : List (Option ℕ)) (tuples : List (ℕ × ℕ)) (log : Written (List ℕ))
    → ((add_data_asynchronous write_scripted w number tuples (script, log)).0
        ≡ first_failure (length tuples) script)
      × ((add_data_asynchronous write_scripted w number tuples (script, log)).1.1
          ≡ log ++ take (tries (length tuples) script) (value_packets w number tuples))
unfolding add_data_asynchronous write_scripted
add_data_asynchronous-packets w number [] [] log = (refl, sym (append-nil log))
add_data_asynchronous-packets w number (e ∷ script) [] log = (refl, sym (append-nil log))
add_data_asynchronous-packets w number [] ((t, v) ∷ tuples) log =
    let (result, packets) =
      add_data_asynchronous-packets w number [] tuples (log ++ (number, to_bytes w v) ∷ []) in
    (result, packets ∙ append_assoc log _ _)
add_data_asynchronous-packets w number (none ∷ script) ((t, v) ∷ tuples) log =
    let (result, packets) =
      add_data_asynchronous-packets w number script tuples (log ++ (number, to_bytes w v) ∷ []) in
    (result, packets ∙ append_assoc log _ _)
add_data_asynchronous-packets w number (some error ∷ script) ((t, v) ∷ tuples) log = (refl, refl)
