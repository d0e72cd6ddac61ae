-- ===== src/Container/Touched.antt =====
-- What the steps of measured data leave of the signals of a container: number, table and kind stay.
use streaming_protocol_lt.Base.{
  ℕ, ◌≡◌, ◌≢◌, refl, ap, ◌∙◌, String, Bool, true, false, List, [], ◌∷◌, Option, none, some,
  eqb_refl, length, if◌then◌else◌, arith,
}
use streaming_protocol_lt.Base.Result.{Result, ok, aborts}
use streaming_protocol_lt.Types.{RuleType, explicit, constant, linear, ruletype_unknown}
use streaming_protocol_lt.Signal.{SubscribedSignal}
use streaming_protocol_lt.Signal.Measured.{
  process_measured_data, linear_data, explicit_data, by_rule,
}
use streaming_protocol_lt.Container.{Table, SignalContainer}
use streaming_protocol_lt.Container.Maps.{find_number, find_text, has}
use streaming_protocol_lt.Container.Meta.{table_or_new}
use streaming_protocol_lt.Container.Measured.{index_signal, touch_data_signals, pass_on}
use streaming_protocol_lt.Container.Members.{time_of, is_data}
use streaming_protocol_lt.Container.Invariant.{IsWellFormed, update-IsWellFormed}

pub time_of-found :
    (id : String) (t : Table) (tables : List (String × Table))
    → find_text id tables ≡ some t
    → time_of id tables ≡ t.time_signal_number
unfolding time_of
time_of-found id t tables e = ap (λ (o : Option Table). (table_or_new o).time_signal_number) e

module _ {J R : Type 0} where
  -- Number, table and kind of a signal stay.
  abbrev pub Same : SubscribedSignal J R → SubscribedSignal J R → Type 0
  Same s t =
      (t.signal_number ≡ s.signal_number)
      × (t.table_id ≡ s.table_id)
      × (t.is_time_signal ≡ s.is_time_signal)

  linear_data-Same :
      (rule : RuleType) (bytes : List ℕ) (t s : SubscribedSignal J R)
      → Same s (linear_data rule bytes t s).1
  unfolding linear_data
  linear_data-Same explicit bytes t s = (refl, refl, refl)
  linear_data-Same constant bytes t s = (refl, refl, refl)
  linear_data-Same linear bytes t s = (refl, refl, refl)
  linear_data-Same ruletype_unknown bytes t s = (refl, refl, refl)

  linear_data-returns :
      (rule : RuleType) (bytes : List ℕ) (t s : SubscribedSignal J R)
      → (linear_data rule bytes t s).0 ≡ ok (length bytes)
  unfolding linear_data
  linear_data-returns explicit bytes t s = refl
  linear_data-returns constant bytes t s = refl
  linear_data-returns linear bytes t s = refl
  linear_data-returns ruletype_unknown bytes t s = refl

  explicit_data-Same :
      (time : ℕ) (bytes : List ℕ) (s : SubscribedSignal J R)
      → ((explicit_data time bytes s).0 ≡ ok (length bytes)) × Same s (explicit_data time bytes s).1
  unfolding explicit_data
  explicit_data-Same time bytes s = ground arith

  by_rule-Same :
      (rule : RuleType) (bytes : List ℕ) (t s : SubscribedSignal J R)
      → ((by_rule rule bytes t s).0 ≢ aborts) × Same s (by_rule rule bytes t s).1
  by_rule-Same linear bytes t s = (
    (λ e. ground (arith, e, linear_data-returns s.rule_type bytes t s)),
    linear_data-Same s.rule_type bytes t s,
  )
  by_rule-Same explicit bytes t s =
      let (r, k) = explicit_data-Same t.time bytes s in ((λ e. ground (arith, e, r)), k)
  by_rule-Same constant bytes t s = ((λ e. ground (arith, e)), (refl, refl, refl))
  by_rule-Same ruletype_unknown bytes t s = ((λ e. ground (arith, e)), (refl, refl, refl))

  process_measured_data-Same :
      (bytes : List ℕ) (o : Option (SubscribedSignal J R)) (s : SubscribedSignal J R)
      → ((process_measured_data bytes o s).0 ≢ aborts) × Same s (process_measured_data bytes o s).1
  unfolding process_measured_data
  process_measured_data-Same bytes none s =
      let (r, k) = explicit_data-Same 0 bytes s in ((λ e. ground (arith, e, r)), k)
  process_measured_data-Same bytes (some t) s = by_rule-Same t.rule_type bytes t s

  -- Well formed, and nothing was followed that is not there.
  abbrev pub Safe : {A : Type 0} → Result A × SignalContainer J R → Type 0
  Safe o = IsWellFormed o.1 × (o.0 ≢ aborts)

  pub pass_on-Safe :
      (k : ℕ) (bytes : List ℕ) (o : Option (SubscribedSignal J R)) (old s : SubscribedSignal J R)
      (c : SignalContainer J R)
      → IsWellFormed c
      → find_number k c.signals ≡ some (some old)
      → Same old s
      → Safe (pass_on k bytes o s c)
  unfolding pass_on
  pass_on-Safe k bytes o old s c w e (number, table, kind) = (
    (let u =
          update-IsWellFormed c k old (process_measured_data bytes o s).1 w e (p.1.0 ∙ number)
            (λ _. (p.1.1 ∙ table, p.1.2 ∙ kind)) in
        record { keyed = u.keyed; timed = u.timed; joined = u.joined }),
    p.0,
  )
    where
      p :
          ((process_measured_data bytes o s).0 ≢ aborts)
          × Same s (process_measured_data bytes o s).1
      p = process_measured_data-Same bytes o s

  -- A number that is there is not inserted.
  pub index_signal-found :
      (n : ℕ) (s : SubscribedSignal J R) (c : SignalContainer J R)
      → find_number n c.signals ≡ some (some s)
      → index_signal n c ≡ (some s, c)
  unfolding index_signal
  index_signal-found n s c e = rw e refl

  touch_data_signals-joined :
      (id : String) (ns : List ℕ) (c : SignalContainer J R)
      → IsWellFormed c
      → ((n : ℕ) → has n ns ≡ true → is_data id n c.tables ≡ true)
      → touch_data_signals ns c ≡ (ok tt, c)
  unfolding touch_data_signals has
  touch_data_signals-joined id [] c w h = refl
  touch_data_signals-joined id (n ∷ ns) c w h =
      let m = w.joined id n (h n (rw (eqb_refl n) refl)) in
      rw (index_signal-found n m.0 c m.1)
        (touch_data_signals-joined id ns c w λ j e. h j (ground (arith, e)))

  -- A choice between two such signals.
  pub choice-Same :
      (b : Bool) (s t u : SubscribedSignal J R) → Same s t → Same s u → Same s (if b then t else u)
  choice-Same true s t u h k = h
  choice-Same false s t u h k = k

  pub touch-table :
      (id : String) (t : Table) (c : SignalContainer J R)
      → IsWellFormed c
      → find_text id c.tables ≡ some t
      → touch_data_signals t.data_signal_numbers c ≡ (ok tt, c)
  unfolding is_data
  touch-table id t c w e = touch_data_signals-joined id t.data_signal_numbers c w (λ n h. rw e h)
