-- ===== src/Signal/Doubles.antt =====
-- `interpretValuesAsDouble` and `convert` of the subscribed signal: the values of a packet as
-- doubles. The conversions of a value to `double` are parameters.
use streaming_protocol_lt.Base.{
  ℕ, zero, suc, ◌-◌, ◌*◌, ◌^◌, ◌<◌, ◌≤◌, ◌≡◌, refl, List, [], ◌∷◌, ◌++◌, map, Option, none, some,
  length, drop, ltb, if◌then◌else◌, arith, ap, append_assoc, append-nil, ◌∙◌,
}
use streaming_protocol_lt.Base.Int.{ℤ, pos, negsuc}
use streaming_protocol_lt.Base.Words.{to_bytes, from_bytes}
use streaming_protocol_lt.Base.Words.Laws.{from_bytes-to_bytes, drop-to_bytes, AllBelow}
use streaming_protocol_lt.Types.{
  SampleType, u8, s8, u16, s16, u32, s32, u64, s64, real32, real64, bitfield32, bitfield64,
  RuleType, explicit, constant,
}
use streaming_protocol_lt.Signal.{SubscribedSignal}

-- `static_cast<double>`; a float is given by its bits.
pub record Casts (R : Type 0) : Type 0 where
  pub from_integer : ℤ → R
  pub from_float : ℕ → R
  pub from_double : ℕ → R

-- The number that w bytes stand for in two's complement.
abbrev pub signed : ℕ → ℕ → ℤ
signed w n = if ltb n (2 ^ (8 * w - 1)) then pos n else negsuc (2 ^ (8 * w) - n - 1)

-- Only explicit signals have no value index before each value.
abbrev pub index_size : RuleType → ℕ
index_size explicit = 0
index_size _ = 8

module _ {R : Type 0} where
  -- The loop: w bytes of each value, behind `skipped` bytes of its index.
  unfoldable pub convert : ℕ → ℕ → (ℕ → R) → ℕ → List ℕ → List R
  convert skipped w cast zero bytes = []
  convert skipped w cast (suc n) bytes =
      let value = drop skipped bytes in
      let rest = convert skipped w cast n (drop w value) in cast (from_bytes w value) ∷ rest

-- The width of a value and its cast, by sample type. Unsigned 64 bit values and bit fields are read
-- as `int64_t`.
unfoldable pub reading : {R : Type 0} → Casts R → SampleType → Option (ℕ × (ℕ → R))
reading c real32 = some (4, c.from_float)
reading c real64 = some (8, c.from_double)
reading c u8 = some (1, λ n. c.from_integer (pos n))
reading c u16 = some (2, λ n. c.from_integer (pos n))
reading c u32 = some (4, λ n. c.from_integer (pos n))
reading c bitfield32 = some (4, λ n. c.from_integer (pos n))
reading c u64 = some (8, λ n. c.from_integer (signed 8 n))
reading c bitfield64 = some (8, λ n. c.from_integer (signed 8 n))
reading c s8 = some (1, λ n. c.from_integer (signed 1 n))
reading c s16 = some (2, λ n. c.from_integer (signed 2 n))
reading c s32 = some (4, λ n. c.from_integer (signed 4 n))
reading c s64 = some (8, λ n. c.from_integer (signed 8 n))
reading c _ = none

module _ {J R : Type 0} (c : Casts R) where
  abbrev converted : Option (ℕ × (ℕ → R)) → SubscribedSignal J R → List ℕ → ℕ → ℕ × List R
  converted none s bytes count = (0, [])
  converted (some (w, cast)) s bytes count =
      (count, convert (index_size s.rule_type) w cast count bytes)

  -- The count that is returned, and what is written to the buffer.
  unfoldable pub interpret_values_as_double : SubscribedSignal J R → List ℕ → ℕ → ℕ × List R
  unfolding reading convert
  interpret_values_as_double s bytes count = converted (reading c s.data_value_type) s bytes count

-- The values of a synchronous or asynchronous packet: w bytes each.
abbrev pub packed : ℕ → List ℕ → List ℕ
packed w [] = []
packed w (n ∷ ns) = to_bytes w n ++ packed w ns

-- The entries of a constant signal's packet: the value index and the value.
abbrev pub indexed : ℕ → List (ℕ × ℕ) → List ℕ
indexed w [] = []
indexed w ((i, n) ∷ ns) = to_bytes 8 i ++ to_bytes w n ++ indexed w ns

abbrev pub entry_values : List (ℕ × ℕ) → List ℕ
entry_values [] = []
entry_values ((i, n) ∷ ns) = n ∷ entry_values ns

module _ {R : Type 0} (cast : ℕ → R) (w : ℕ) where
  pub convert-packed :
      (ns : List ℕ)
      → AllBelow (256 ^ w) ns
      → convert 0 w cast (length ns) (packed w ns) ≡ map cast ns
  unfolding convert
  convert-packed [] h = refl
  convert-packed (n ∷ ns) (h, hs) = simp (
    from_bytes-to_bytes w n (packed w ns) h,
    drop-to_bytes w n (packed w ns),
    convert-packed ns hs,
  )

  pub convert-indexed :
      (ns : List (ℕ × ℕ))
      → AllBelow (256 ^ w) (entry_values ns)
      → convert 8 w cast (length ns) (indexed w ns) ≡ map cast (entry_values ns)
  unfolding convert
  convert-indexed [] h = refl
  convert-indexed ((i, n) ∷ ns) (h, hs) = simp (
    append_assoc,
    drop-to_bytes 8 i (to_bytes w n ++ indexed w ns),
    from_bytes-to_bytes w n (indexed w ns) h,
    drop-to_bytes w n (indexed w ns),
    convert-indexed ns hs,
  )

module _ {J R : Type 0} (c : Casts R) (s : SubscribedSignal J R) where
  -- The values of a packet of an explicit signal are converted one by one in order, for every sample
  -- type that can be converted.
  pub interpret_values-packed :
      (w : ℕ) (cast : ℕ → R) (ns : List ℕ)
      → reading c s.data_value_type ≡ some (w, cast)
      → s.rule_type ≡ explicit
      → AllBelow (256 ^ w) ns
      → interpret_values_as_double c s (packed w ns) (length ns) ≡ (length ns, map cast ns)
  unfolding interpret_values_as_double
  interpret_values-packed w cast ns e r h = rw (e, r, convert-packed cast w ns h) refl

  -- The values of a packet of a constant signal, each behind its index, are converted one by one in
  -- order without the indices, for every sample type that can be converted.
  pub interpret_values-indexed :
      (w : ℕ) (cast : ℕ → R) (entries : List (ℕ × ℕ))
      → reading c s.data_value_type ≡ some (w, cast)
      → s.rule_type ≡ constant
      → AllBelow (256 ^ w) (entry_values entries)
      → interpret_values_as_double c s (indexed w entries) (length entries)
        ≡ (length entries, map cast (entry_values entries))
  unfolding interpret_values_as_double
  interpret_values-indexed w cast entries e r h = rw (e, r, convert-indexed cast w entries h) refl

  -- An unsigned 64 bit value from 2^63 on comes out as the negative number n - 2^64.
  pub interpret_values-u64_negative :
      (n : ℕ)
      → s.data_value_type ≡ u64
      → s.rule_type ≡ explicit
      → 2 ^ 63 ≤ n
      → n < 2 ^ 64
      → interpret_values_as_double c s (to_bytes 8 n) 1
        ≡ (1, c.from_integer (negsuc (2 ^ 64 - n - 1)) ∷ [])
  unfolding reading
  interpret_values-u64_negative n t r lo hi = rw (← append-nil (to_bytes 8 n)) (
      interpret_values-packed 8 (λ m. c.from_integer (signed 8 m)) (n ∷ []) (rw t refl) r (hi, tt)
      ∙ ap (λ (i : ℤ). (1, c.from_integer i ∷ [])) (negative n lo hi))
    where
      negative : (m : ℕ) → 2 ^ 63 ≤ m → m < 2 ^ 64 → signed 8 m ≡ negsuc (2 ^ 64 - m - 1)
      negative m p q = ground arith
