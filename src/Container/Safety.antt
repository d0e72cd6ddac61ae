-- ===== src/Container/Safety.antt =====
-- Meta information and measured data keep the container well formed, and measured data never meets a
-- null pointer.
use streaming_protocol_lt.Base.{
  ℕ, ◌≡◌, refl, sym, ap, ◌∙◌, String, false, List, Option, none, some, ◌==◌, eq_iff, eqb_refl,
  Bool-cases, inl, inr,
}
use streaming_protocol_lt.Base.Result.{Result, ok, fails, throws, aborts, then_run}
use streaming_protocol_lt.Real.{Real}
use streaming_protocol_lt.Json.{Json}
use streaming_protocol_lt.Meta.{MetaInformation, method, params}
use streaming_protocol_lt.Signal.{SubscribedSignal, new_signal}
use streaming_protocol_lt.Signal.Definition.{process_signal_metainformation}
use streaming_protocol_lt.Signal.Invariant.{process_signal_metainformation_keeps}
use streaming_protocol_lt.Container.{Call, SignalContainer}
use streaming_protocol_lt.Container.Maps.{find_number, put_number, find_number-put_number}
use streaming_protocol_lt.Container.Meta.{
  leave_table, unsubscribe_member, subscribe_member, member_for, finish_meta, apply_meta,
  process_metainformation, stored, emplace, require_id,
}
use streaming_protocol_lt.Container.Invariant.{
  IsWellFormed, Stays, update-IsWellFormed, insert-IsWellFormed, join-IsWellFormed,
  leave-IsWellFormed,
}

module _ {J R : Type 0} (json : Json J R) (real : Real R) where
  -- The signal as the meta information leaves it.
  abbrev pub after_meta : String → J → SubscribedSignal J R → SubscribedSignal J R
  after_meta m p s = (process_signal_metainformation json real m p s).1

  -- The calls do not count.
  with_calls :
      (c : SignalContainer J R) (calls : List (Call J))
      → IsWellFormed c
      → IsWellFormed (record c { calls = calls })
  with_calls c calls w = record { keyed = w.keyed; timed = w.timed; joined = w.joined }

  finish_meta-IsWellFormed :
      (m : String) (p : J) (k : ℕ) (t : SubscribedSignal J R) (c : SignalContainer J R)
      → (m == "unsubscribe") ≡ false
      → find_number k c.signals ≡ some (some t)
      → IsWellFormed c
      → IsWellFormed (finish_meta json real m p k t c)
  unfolding finish_meta
  finish_meta-IsWellFormed m p k t c other e w = elim (Bool-cases (m == "signal")) [
    | inl joins ↦ rw (other, joins) (with_calls _ _ (join-IsWellFormed c k t w e))
    | inr stays ↦ rw (other, stays) (with_calls c _ w)
  ]

  finish-IsWellFormed :
      (m : String) (p : J) (k : ℕ) (t : SubscribedSignal J R) (c : SignalContainer J R)
      (r : Result (Unit {0}))
      → (m == "unsubscribe") ≡ false
      → find_number k c.signals ≡ some (some t)
      → IsWellFormed c
      → IsWellFormed (then_run (r, c) (λ _ d. (ok tt, finish_meta json real m p k t d))).1
  finish-IsWellFormed m p k t c (ok u) other e w = finish_meta-IsWellFormed m p k t c other e w
  finish-IsWellFormed m p k t c fails other e w = w
  finish-IsWellFormed m p k t c (throws x) other e w = w
  finish-IsWellFormed m p k t c aborts other e w = w

  -- A signal that stays subscribed, its meta information accepted or not.
  apply_meta-IsWellFormed :
      (m : String) (p : J) (k : ℕ) (s : SubscribedSignal J R) (c : SignalContainer J R)
      → (m == "unsubscribe") ≡ false
      → find_number k c.signals ≡ some (some s)
      → Stays k c.tables s (after_meta m p s)
      → IsWellFormed c
      → IsWellFormed (apply_meta json real m p k s c).1
  unfolding apply_meta
  apply_meta-IsWellFormed m p k s c other e stays w =
      let t = after_meta m p s in
      finish-IsWellFormed m p k t (record c { signals = put_number k (some t) c.signals })
        (process_signal_metainformation json real m p s).0 other
        (rw (find_number-put_number k k (some t) c.signals, eqb_refl k) refl)
        (update-IsWellFormed c k s t w e (process_signal_metainformation_keeps json real m p s).0
          stays)

  new_signal-number : (k : ℕ) → (new_signal json real k).signal_number ≡ k
  unfolding new_signal
  new_signal-number k = refl

  -- A free number stands in no table.
  free-Stays :
      (c : SignalContainer J R) (k : ℕ) (s t : SubscribedSignal J R)
      → IsWellFormed c
      → find_number k c.signals ≡ none
      → Stays k c.tables s t
  free-Stays c k s t w free (id, inl (z, e)) =
      let m = w.timed id (λ h. z (sym e ∙ h)) in
      absurd (taken (ap (λ (x : ℕ). find_number x c.signals) (sym e) ∙ m.1))
    where
      taken : {x : SubscribedSignal J R} → find_number k c.signals ≡ some (some x) → ⊥
      taken h = cc
  free-Stays c k s t w free (id, inr h) = absurd (taken (w.joined id k h).1)
    where
      taken : {x : SubscribedSignal J R} → find_number k c.signals ≡ some (some x) → ⊥
      taken h = cc

  emplace-IsWellFormed :
      (p : J) (k : ℕ) (c : SignalContainer J R) (o : Option (Option (SubscribedSignal J R)))
      → find_number k c.signals ≡ o
      → IsWellFormed c
      → IsWellFormed (then_run (emplace json real k o c) (apply_meta json real "subscribe" p k)).1
  emplace-IsWellFormed p k c (some x) e w = w
  emplace-IsWellFormed p k c none e w =
      let s = new_signal json real k in
      apply_meta-IsWellFormed "subscribe" p k s
        (record c { signals = put_number k (some s) c.signals }) refl
        (rw (find_number-put_number k k (some s) c.signals, eqb_refl k) refl)
        (free-Stays c k s (after_meta "subscribe" p s) w e)
        (insert-IsWellFormed c k s w e (new_signal-number k))

  require_id-IsWellFormed :
      (p : J) (k : ℕ) (c : SignalContainer J R) (o : Option J)
      → IsWellFormed c
      → IsWellFormed
          (then_run (require_id json real o k c) (apply_meta json real "subscribe" p k)).1
  require_id-IsWellFormed p k c none w = w
  require_id-IsWellFormed p k c (some id) w = emplace-IsWellFormed p k c _ refl w

  forget-IsWellFormed :
      (p : J) (k : ℕ) (c : SignalContainer J R) (o : Option (Option (SubscribedSignal J R)))
      → find_number k c.signals ≡ o
      → IsWellFormed c
      → IsWellFormed
          (then_run
            (then_run
              (stored json real o, c)
              λ s c'.
                (ok s, record c' { tables = leave_table k s.is_time_signal s.table_id c'.tables }))
            (apply_meta json real "unsubscribe" p k)).1
  unfolding apply_meta finish_meta process_signal_metainformation
  forget-IsWellFormed p k c none e w = w
  forget-IsWellFormed p k c (some none) e w = w
  forget-IsWellFormed p k c (some (some s)) e w = with_calls _ _ (leave-IsWellFormed c k s w e)

  known-IsWellFormed :
      (m : String) (p : J) (k : ℕ) (c : SignalContainer J R)
      (o : Option (Option (SubscribedSignal J R)))
      → (m == "unsubscribe") ≡ false
      → find_number k c.signals ≡ o
      → ((s : SubscribedSignal J R)
          → find_number k c.signals ≡ some (some s)
          → Stays k c.tables s (after_meta m p s))
      → IsWellFormed c
      → IsWellFormed (then_run (stored json real o, c) (apply_meta json real m p k)).1
  known-IsWellFormed m p k c none other e stays w = w
  known-IsWellFormed m p k c (some none) other e stays w = w
  known-IsWellFormed m p k c (some (some s)) other e stays w =
      apply_meta-IsWellFormed m p k s c other e (stays s e) w

  named-IsWellFormed :
      (m : String) (p : J) (k : ℕ) (c : SignalContainer J R)
      → ((s : SubscribedSignal J R)
          → find_number k c.signals ≡ some (some s)
          → Stays k c.tables s (after_meta m p s))
      → IsWellFormed c
      → IsWellFormed (then_run (member_for json real m p k c) (apply_meta json real m p k)).1
  unfolding member_for unsubscribe_member subscribe_member
  named-IsWellFormed m p k c stays w = elim (Bool-cases (m == "unsubscribe")) [
    | inl u ↦ rw ((eq_iff m "unsubscribe").0 u) (forget-IsWellFormed p k c _ refl w)
    | inr nu ↦ elim (Bool-cases (m == "subscribe")) [
      | inl s ↦ rw ((eq_iff m "subscribe").0 s) (require_id-IsWellFormed p k c _ w)
      | inr ns ↦ rw (nu, ns) (known-IsWellFormed m p k c _ nu refl stays w)
    ]
  ]

  method-IsWellFormed :
      (k : ℕ) (p : J) (c : SignalContainer J R) (r : Result String)
      → ((m : String) (s : SubscribedSignal J R)
          → r ≡ ok m
          → find_number k c.signals ≡ some (some s)
          → Stays k c.tables s (after_meta m p s))
      → IsWellFormed c
      → IsWellFormed
          (then_run
            (r, c)
            λ m c'. then_run (member_for json real m p k c') (apply_meta json real m p k)).1
  method-IsWellFormed k p c (ok m) stays w = named-IsWellFormed m p k c (λ s. stays m s refl) w
  method-IsWellFormed k p c fails stays w = w
  method-IsWellFormed k p c (throws x) stays w = w
  method-IsWellFormed k p c aborts stays w = w

  -- Meta information for any signal keeps the container well formed, whether it is accepted, refused
  -- or ends in an exception, as long as it does not move a signal that is in a table to another one
  -- or change whether that signal is a time signal.
  pub process_metainformation-IsWellFormed :
      (k : ℕ) (meta : MetaInformation J) (c : SignalContainer J R)
      → IsWellFormed c
      → ((m : String) (s : SubscribedSignal J R)
          → method json meta ≡ ok m
          → find_number k c.signals ≡ some (some s)
          → Stays k c.tables s (after_meta m (params json meta) s))
      → IsWellFormed (process_metainformation json real k meta c).1
  unfolding process_metainformation
  process_metainformation-IsWellFormed k meta c w stays =
      method-IsWellFormed k (params json meta) c (method json meta) stays w
