-- ===== src/Client/Numbers.antt =====
-- The numbers that are in a map, before and after meta information, and in the example client's map after
-- its callback.
use streaming_protocol_lt.Base.{
  ℕ, ◌≡◌, refl, String, Bool, true, false, ◌||◌, List, Option, none, some, ◌==◌, eq_iff, eqb,
  if◌then◌else◌, arith, Bool-cases, Option-cases, inl, inr,
}
use streaming_protocol_lt.Base.Result.{ok}
use streaming_protocol_lt.Meta.{method}
use streaming_protocol_lt.Container.Maps.{
  find_number, put_number, erase_number, find_number-put_number, find_number-erase_number,
}
use streaming_protocol_lt.Client.{
  Client, SignalInfo, signal_meta_cb, new_signal_info, emplace_info, at_number,
}

abbrev is_some : {A : Type 0} → Option A → Bool
is_some none = false
is_some (some a) = true

-- The number is in the map.
unfoldable pub has_number : {V : Type 0} → ℕ → List (ℕ × V) → Bool
has_number n m = is_some (find_number n m)

-- Whether number n is there after meta information for a number, if it was before or not.
abbrev pub changed : String → ℕ → ℕ → Bool → Bool
changed method number n before =
    if method == "unsubscribe"
    then (if eqb number n then false else before)
    else if method == "subscribe"
    then eqb number n || before
    else before

module _ {V : Type 0} where
  pub has_number-put_number :
      (k n : ℕ) (v : V) (m : List (ℕ × V))
      → has_number n (put_number k v m) ≡ (eqb k n || has_number n m)
  unfolding has_number
  has_number-put_number k n v m = ground (arith, find_number-put_number k n v m)

  pub has_number-erase_number :
      (k n : ℕ) (m : List (ℕ × V))
      → has_number n (erase_number k m) ≡ (if eqb k n then false else has_number n m)
  unfolding has_number
  has_number-erase_number k n m = ground (arith, find_number-erase_number k n m)

  not_missing : (k : ℕ) (m : List (ℕ × V)) → find_number k m ≡ none → has_number k m ≡ true → ⊥
  unfolding has_number
  not_missing k m e h = ground (arith, e, h)

  pub found-has_number :
      (k : ℕ) (v : V) (m : List (ℕ × V)) → find_number k m ≡ some v → has_number k m ≡ true
  unfolding has_number
  found-has_number k v m e = rw e refl

  pub combined :
      {W : Type 0} (m : String) (number n : ℕ) (before : List (ℕ × V)) (after : List (ℕ × W))
      → has_number n after ≡ (
          if m == "unsubscribe"
          then has_number n before
          else if m == "subscribe"
          then eqb number n || has_number n before
          else has_number n before)
      → (m == "subscribe" ≡ false → has_number number before ≡ true)
      → (if m == "unsubscribe"
          then (if eqb number n then false else has_number n after)
          else eqb number n || has_number n after)
        ≡ changed m number n (has_number n before)
  combined m number n before after h known =
      ground (arith, h, known, eq_iff m "unsubscribe", eq_iff m "subscribe")

module _ {R : Type 0} where
  -- The callback with a number that is there, or that is not to be unsubscribed.
  pub signal_meta_cb_returns :
      (number : ℕ) (id : String) (now : ℕ) (m : String) (client : Client R)
      → (m == "unsubscribe" ≡ true → has_number number client.signal_infos ≡ true)
      → (signal_meta_cb number id now m client).0 ≡ ok tt
  unfolding signal_meta_cb has_number
  signal_meta_cb_returns number id now m client h =
      ground (arith, h, eq_iff m "unsubscribe", eq_iff m "subscribe")

  emplaced :
      (number n : ℕ) (new : SignalInfo) (client : Client R)
      → has_number n
          (emplace_info number new (find_number number client.signal_infos) client).signal_infos
        ≡ (eqb number n || has_number n client.signal_infos)
  unfolding has_number
  emplaced number n new client = elim (Option-cases (find_number number client.signal_infos)) [
    | inl e ↦ rw e (has_number-put_number number n new client.signal_infos)
    | inr (i, e) ↦ rw e (ground (arith, e))
  ]

  pub has_number-signal_meta_cb :
      (number : ℕ) (id : String) (now : ℕ) (m : String) (client : Client R) (n : ℕ)
      → (m == "unsubscribe" ≡ true → has_number number client.signal_infos ≡ true)
      → has_number n (signal_meta_cb number id now m client).1.signal_infos
        ≡ changed m number n (has_number n client.signal_infos)
  unfolding signal_meta_cb
  has_number-signal_meta_cb number id now m client n h = elim (Bool-cases (m == "subscribe")) [
    | inl e ↦ rw ((eq_iff m "subscribe").0 e) (emplaced number n (new_signal_info id now) client)
    | inr e ↦ elim (Bool-cases (m == "unsubscribe")) [
      | inl u ↦ rw (e, u) (erased (h u))
      | inr u ↦ rw (e, u) refl
    ]
  ]
    where
      erased :
          has_number number client.signal_infos ≡ true
          → has_number n
              (at_number
                (find_number number client.signal_infos)
                (λ i. record client { signal_infos = erase_number number client.signal_infos })
                client).1.signal_infos
            ≡ (if eqb number n then false else has_number n client.signal_infos)
      erased there = elim (Option-cases (find_number number client.signal_infos)) [
        | inl none_there ↦ absurd (not_missing number client.signal_infos none_there there)
        | inr (i, found) ↦ rw found (has_number-erase_number number n client.signal_infos)
      ]
