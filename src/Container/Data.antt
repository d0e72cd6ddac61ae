-- ===== src/Container/Data.antt =====
-- Measured data in a well-formed container: `SignalContainer::processMeasuredData` of
-- lib/SignalContainer.cpp follows no null pointer and keeps the container well formed.
use streaming_protocol_lt.Base.{
  ℕ, ◌≡◌, ◌≢◌, ◌≤◌, refl, sym, subst, ◌∙◌, Bool, true, false, List, Option, none, some, eqb, ltb,
  length, drop, if◌then◌else◌, arith, Bool-cases, inl, inr,
}
use streaming_protocol_lt.Base.Result.{Result, ok, aborts}
use streaming_protocol_lt.Base.Words.{from_bytes}
use streaming_protocol_lt.Types.{RuleType, explicit, constant, linear, ruletype_unknown}
use streaming_protocol_lt.Signal.{SubscribedSignal}
use streaming_protocol_lt.Container.{Table, SignalContainer}
use streaming_protocol_lt.Container.Maps.{find_number, put_number, find_text}
use streaming_protocol_lt.Container.Meta.{is_empty}
use streaming_protocol_lt.Container.Measured.{
  explicit_time, indexed_time, time_data, value_data, process_container_data, dispatch,
}
use streaming_protocol_lt.Container.Members.{time_of}
use streaming_protocol_lt.Container.Touched.{
  Same, Safe, time_of-found, pass_on-Safe, index_signal-found, choice-Same, touch-table,
}
use streaming_protocol_lt.Container.Invariant.{IsWellFormed, update-IsWellFormed}

-- The bytes that are read of the packet of a time signal.
abbrev pub time_bytes : RuleType → ℕ
time_bytes explicit = 8
time_bytes _ = 16

long_enough : (m n : ℕ) → m ≤ n → ltb n m ≡ false
long_enough m n h = ground arith

module _ {J R : Type 0} where
  explicit_time-returns :
      (k : ℕ) (bytes : List ℕ) (o : Option Table) (s : SubscribedSignal J R)
      (c : SignalContainer J R)
      → IsWellFormed c
      → find_text s.table_id c.tables ≡ o
      → 8 ≤ length bytes
      → (t : SubscribedSignal J R) × (explicit_time k bytes o s c ≡ (ok t, c)) × Same s t
  unfolding explicit_time
  explicit_time-returns k bytes none s c w e h = (s, refl, (refl, refl, refl))
  explicit_time-returns k bytes (some t) s c w e h = (
    (if is_empty t.data_signal_numbers then s else record s { time = from_bytes 8 bytes }),
    rw (long_enough 8 (length bytes) h, touch-table s.table_id t c w e) refl,
    choice-Same (is_empty t.data_signal_numbers) s s _ (refl, refl, refl) (refl, refl, refl),
  )

  indexed_time-returns :
      (k : ℕ) (bytes : List ℕ) (o : Option Table) (s : SubscribedSignal J R)
      (c : SignalContainer J R)
      → IsWellFormed c
      → find_text s.table_id c.tables ≡ o
      → 16 ≤ length bytes
      → (t : SubscribedSignal J R) × (indexed_time k bytes o s c ≡ (ok t, c)) × Same s t
  unfolding indexed_time
  indexed_time-returns k bytes none s c w e h = (s, refl, (refl, refl, refl))
  indexed_time-returns k bytes (some t) s c w e h = (
    (if is_empty t.data_signal_numbers then s else record s {
      linear_value_index = from_bytes 8 bytes;
      time = from_bytes 8 (drop 8 bytes);
    }),
    rw (long_enough 16 (length bytes) h, touch-table s.table_id t c w e) refl,
    choice-Same (is_empty t.data_signal_numbers) s s _ (refl, refl, refl) (refl, refl, refl),
  )

  explicit-Safe :
      (k : ℕ) (bytes : List ℕ) (s : SubscribedSignal J R) (c : SignalContainer J R)
      → IsWellFormed c
      → find_number k c.signals ≡ some (some s)
      → 8 ≤ length bytes
      → Safe (time_data k bytes s explicit c)
  unfolding time_data
  explicit-Safe k bytes s c w e h =
      let (t, returns, same) =
        explicit_time-returns k bytes (find_text s.table_id c.tables) s c w refl h in
      rw returns ((pass_on-Safe k bytes none s t c w e same).0, (λ q. ground (arith, q)))

  stored-Safe :
      (k : ℕ) (s t : SubscribedSignal J R) (n : ℕ) (c : SignalContainer J R)
      → IsWellFormed c
      → find_number k c.signals ≡ some (some s)
      → Same s t
      → Safe {A = ℕ} (ok n, record c { signals = put_number k (some t) c.signals })
  stored-Safe k s t n c w e (number, table, kind) =
      (update-IsWellFormed c k s t w e number (λ _. (table, kind)), (λ q. ground (arith, q)))

  time_data-Safe :
      (k : ℕ) (bytes : List ℕ) (s : SubscribedSignal J R) (rule : RuleType)
      (c : SignalContainer J R)
      → IsWellFormed c
      → find_number k c.signals ≡ some (some s)
      → time_bytes rule ≤ length bytes
      → Safe (time_data k bytes s rule c)
  unfolding time_data
  time_data-Safe k bytes s explicit c w e h = explicit-Safe k bytes s c w e h
  time_data-Safe k bytes s constant c w e h =
      let (t, returns, same) =
        indexed_time-returns k bytes (find_text s.table_id c.tables) s c w refl h in
      rw returns (stored-Safe k s t (length bytes) c w e same)
  time_data-Safe k bytes s linear c w e h =
      let (t, returns, same) =
        indexed_time-returns k bytes (find_text s.table_id c.tables) s c w refl h in
      rw returns (stored-Safe k s t (length bytes) c w e same)
  time_data-Safe k bytes s ruletype_unknown c w e h =
      let (t, returns, same) =
        indexed_time-returns k bytes (find_text s.table_id c.tables) s c w refl h in
      rw returns (stored-Safe k s t (length bytes) c w e same)

  value_data-Safe :
      (k : ℕ) (bytes : List ℕ) (s : SubscribedSignal J R) (o : Option Table)
      (c : SignalContainer J R)
      → IsWellFormed c
      → find_number k c.signals ≡ some (some s)
      → find_text s.table_id c.tables ≡ o
      → Safe (value_data k bytes s o c)
  unfolding value_data
  value_data-Safe k bytes s none c w e f = (w, (λ q. ground (arith, q)))
  value_data-Safe k bytes s (some t) c w e f = elim (Bool-cases (eqb t.time_signal_number 0)) [
    | inl z ↦ rw z (w, (λ q. ground (arith, q)))
    | inr z ↦
        let m = timed (λ q. ground (arith, z, q)) in
        rw (z, index_signal-found t.time_signal_number m.0 c m.1)
          (pass_on-Safe k bytes (some m.0) s (record s { time_signal = some t.time_signal_number })
            c w e (refl, refl, refl))
  ]
    where
      named : time_of s.table_id c.tables ≡ t.time_signal_number
      named = time_of-found s.table_id t c.tables f

      timed :
          t.time_signal_number ≢ 0
          → (m : SubscribedSignal J R) × (find_number t.time_signal_number c.signals
              ≡ some (some m))
      timed h =
          let m = w.timed s.table_id (λ q. h (sym named ∙ q)) in
          (m.0, subst (λ (n : ℕ). find_number n c.signals ≡ some (some m.0)) named m.1)

  choose-Safe :
      (b : Bool) (o p : Result ℕ × SignalContainer J R)
      → (b ≡ true → Safe o)
      → Safe p
      → Safe (if b then o else p)
  choose-Safe true o p h k = h refl
  choose-Safe false o p h k = k

  dispatch-Safe :
      (k : ℕ) (bytes : List ℕ) (c : SignalContainer J R)
      (o : Option (Option (SubscribedSignal J R)))
      → IsWellFormed c
      → find_number k c.signals ≡ o
      → ((s : SubscribedSignal J R)
          → o ≡ some (some s)
          → s.is_time_signal ≡ true
          → time_bytes s.rule_type ≤ length bytes)
      → Safe (dispatch k bytes o c)
  dispatch-Safe k bytes c none w e long = (w, (λ q. ground (arith, q)))
  dispatch-Safe k bytes c (some none) w e long =
      let (s, q, number) = w.keyed k none e in ground (arith, q)
  dispatch-Safe k bytes c (some (some s)) w e long =
      choose-Safe s.is_time_signal (time_data k bytes s s.rule_type c)
        (value_data k bytes s (find_text s.table_id c.tables) c)
        (λ b. time_data-Safe k bytes s s.rule_type c w e (long s refl b))
        (value_data-Safe k bytes s (find_text s.table_id c.tables) c w e refl)

  -- Measured data for any signal number keeps a well-formed container well formed, and no null
  -- pointer is followed and nothing is read past the end, if the packets of time signals have the
  -- bytes of a time stamp, or of a value index and a time stamp.
  pub process_container_data-IsWellFormed :
      (k : ℕ) (bytes : List ℕ) (c : SignalContainer J R)
      → IsWellFormed c
      → ((s : SubscribedSignal J R)
          → find_number k c.signals ≡ some (some s)
          → s.is_time_signal ≡ true
          → time_bytes s.rule_type ≤ length bytes)
      → IsWellFormed (process_container_data k bytes c).1
        × ((process_container_data k bytes c).0 ≢ aborts)
  unfolding process_container_data
  process_container_data-IsWellFormed k bytes c w long =
      dispatch-Safe k bytes c (find_number k c.signals) w refl long
