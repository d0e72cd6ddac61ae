-- ===== src/Producer/Entries.antt =====
-- The packets of constant signals: the loop over the buffer fills it with the entries.
use streaming_protocol_lt.Base.{
  ℕ, suc, ◌+◌, ◌*◌, ◌^◌, some, map, ◌≡◌, refl, sym, ap, ◌∙◌, List, [], ◌∷◌, ◌++◌, take, drop,
  length, arith, append_assoc, length-append, take-length-append, take-append-drop, length-take,
  length-drop, drop-length-append,
}
use streaming_protocol_lt.Base.Int.{ℤ}
use streaming_protocol_lt.Base.Words.{to_bytes}
use streaming_protocol_lt.Base.Words.Laws.{length-to_bytes, AllBelow}
use streaming_protocol_lt.Signal.Doubles.{
  Casts, indexed, entry_values, reading, interpret_values_as_double, interpret_values-indexed,
}
use streaming_protocol_lt.Signal.{SubscribedSignal}
use streaming_protocol_lt.Types.{constant}
use streaming_protocol_lt.Producer.Data.{overwrite, fill_entries, add_data_constant}

-- Bytes behind a prefix replace as many.
overwrite-append :
    (offset : ℕ) (front bytes old back : List ℕ)
    → offset ≡ length front
    → length old ≡ length bytes
    → overwrite offset bytes (front ++ old ++ back) ≡ front ++ bytes ++ back
unfolding overwrite
overwrite-append offset front bytes old back e l =
    let taken : take offset (front ++ old ++ back) ≡ front =
      ap (λ n. take n (front ++ old ++ back)) e
      ∙ ap (take (length front)) (append_assoc front old back)
      ∙ take-length-append front (old ++ back) in
    let dropped : drop (offset + length bytes) (front ++ old ++ back) ≡ back =
      ap (λ n. drop n (front ++ old ++ back)) (sum_of e) ∙ drop-length-append (front ++ old) back in
    ap (λ xs. xs ++ bytes ++ drop (offset + length bytes) (front ++ old ++ back)) taken
    ∙ ap (λ xs. front ++ bytes ++ xs) dropped
  where
    sum_of : offset ≡ length front → offset + length bytes ≡ length (front ++ old)
    sum_of h = omega (arith, h, l, length-append front old)

-- What is behind a prefix, cut at 8 and at w more.
split_entry :
    (w : ℕ) (front xs : List ℕ)
    → front ++ xs ≡ front ++ take 8 xs ++ take w (drop 8 xs) ++ drop w (drop 8 xs)
split_entry w front xs =
    ap (λ ys. front ++ ys)
      (sym (take-append-drop 8 xs)
        ∙ ap (λ ys. take 8 xs ++ ys) (sym (take-append-drop w (drop 8 xs))))
    ∙ sym (append_assoc front (take 8 xs) (take w (drop 8 xs) ++ drop w (drop 8 xs)))
    ∙ sym (append_assoc (front ++ take 8 xs) (take w (drop 8 xs)) (drop w (drop 8 xs)))

-- One round of the loop: the entry stands behind what was there, and what follows is left alone.
overwrite-entry :
    (w i index value : ℕ) (front a b back : List ℕ)
    → length front ≡ i * (8 + w)
    → length a ≡ 8
    → length b ≡ w
    → overwrite
        (i * (8 + w) + 8)
        (to_bytes w value)
        (overwrite (i * (8 + w)) (to_bytes 8 index) (front ++ a ++ b ++ back))
      ≡ front ++ to_bytes 8 index ++ to_bytes w value ++ back
overwrite-entry w i index value front a b back f la lb =
    ap (overwrite (i * (8 + w) + 8) (to_bytes w value)) (
      ap (overwrite (i * (8 + w)) (to_bytes 8 index)) (append_assoc (front ++ a) b back)
      ∙ overwrite-append (i * (8 + w)) front (to_bytes 8 index) a (b ++ back) (sym f)
          (la ∙ sym (length-to_bytes 8 index))
      ∙ sym (append_assoc (front ++ to_bytes 8 index) b back))
    ∙ overwrite-append (i * (8 + w) + 8) (front ++ to_bytes 8 index) (to_bytes w value) b back
        (omega (arith, f, length-append front (to_bytes 8 index), length-to_bytes 8 index))
        (lb ∙ sym (length-to_bytes w value))

product-suc : (n k : ℕ) → suc n * k ≡ n * k + k
product-suc n k = ground arith

fill_entries-append :
    (w i : ℕ) (entries : List (ℕ × ℕ)) (front rest : List ℕ)
    → length front ≡ i * (8 + w)
    → length rest ≡ length entries * (8 + w)
    → fill_entries w i entries (front ++ rest) ≡ front ++ indexed w entries
unfolding fill_entries
fill_entries-append w i [] front [] f r = refl
fill_entries-append w i [] front (x ∷ rest) f r = absurd (omega (arith, r))
fill_entries-append w i ((index, value) ∷ entries) front rest f r =
    ap (fill_entries w i ((index, value) ∷ entries)) (split_entry w front rest)
    ∙ ap (fill_entries w (suc i) entries) (
        overwrite-entry w i index value front (take 8 rest) (take w (drop 8 rest))
          (drop w (drop 8 rest)) f
          (length-take 8 rest (omega (arith, r, product-suc (length entries) (8 + w))))
          (length-take w (drop 8 rest)
            (omega (arith, r, length-drop 8 rest, product-suc (length entries) (8 + w)))))
    ∙ fill_entries-append w (suc i) entries (front ++ to_bytes 8 index ++ to_bytes w value)
        (drop w (drop 8 rest))
        (omega (
          arith,
          f,
          product-suc i (8 + w),
          length-append front (to_bytes 8 index),
          length-append (front ++ to_bytes 8 index) (to_bytes w value),
          length-to_bytes 8 index,
          length-to_bytes w value,
        ))
        (omega (
          arith,
          r,
          length-drop 8 rest,
          length-drop w (drop 8 rest),
          product-suc (length entries) (8 + w),
        ))
    ∙ ap (λ xs. xs ++ indexed w entries) (append_assoc front (to_bytes 8 index) (to_bytes w value))
    ∙ append_assoc front (to_bytes 8 index ++ to_bytes w value) (indexed w entries)

-- A constant signal writes its entries as one packet, index and value behind each other, whatever
-- the allocated memory holds, if it has the size that addData allocates.
pub add_data_constant-indexed :
    {S : Type 0} (write_signal_data : ℕ → List ℕ → S → ℤ × S) (w number : ℕ)
    (entries : List (ℕ × ℕ)) (uninitialised : List ℕ) (stream : S)
    → length uninitialised ≡ length entries * (8 + w)
    → add_data_constant write_signal_data w number entries uninitialised stream
      ≡ write_signal_data number (indexed w entries) stream
unfolding add_data_constant
add_data_constant-indexed write_signal_data w number entries uninitialised stream h =
    ap (λ bytes. write_signal_data number bytes stream)
      (fill_entries-append w 0 entries [] uninitialised (omega arith) h)

-- The consumer of a constant signal converts the packet of addData back into the values, in order,
-- for every sample type that can be converted and has the producer's size.
pub interpret_values-fill_entries :
    {J R : Type 0} (c : Casts R) (s : SubscribedSignal J R) (w : ℕ) (cast : ℕ → R)
    (entries : List (ℕ × ℕ)) (uninitialised : List ℕ)
    → reading c s.data_value_type ≡ some (w, cast)
    → s.rule_type ≡ constant
    → AllBelow (256 ^ w) (entry_values entries)
    → length uninitialised ≡ length entries * (8 + w)
    → interpret_values_as_double c s (fill_entries w 0 entries uninitialised) (length entries)
      ≡ (length entries, map cast (entry_values entries))
interpret_values-fill_entries c s w cast entries uninitialised e r h l =
    ap (λ bytes. interpret_values_as_double c s bytes (length entries))
      (fill_entries-append w 0 entries [] uninitialised (omega arith) l)
    ∙ interpret_values-indexed c s w cast entries e r h
