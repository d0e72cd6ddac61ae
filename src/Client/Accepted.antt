-- ===== src/Client/Accepted.antt =====
-- Which numbers the container has after meta information that it accepts, and how it calls the
-- callback.
use streaming_protocol_lt.Base.{
  ℕ, ◌≡◌, refl, sym, ap, subst, ◌∙◌, String, true, false, ◌||◌, List, [], ◌∷◌, ◌++◌, Option, none,
  some, ◌==◌, eq_iff, eqb, if◌then◌else◌, arith, Bool-cases, inl, inr,
}
use streaming_protocol_lt.Base.Result.{Result, ok, then_run, then_run-ok}
use streaming_protocol_lt.Real.{Real}
use streaming_protocol_lt.Json.{Json}
use streaming_protocol_lt.Meta.{MetaInformation, method, params}
use streaming_protocol_lt.Signal.{SubscribedSignal, new_signal}
use streaming_protocol_lt.Signal.Definition.{process_signal_metainformation}
use streaming_protocol_lt.Signal.Invariant.{process_signal_metainformation_keeps}
use streaming_protocol_lt.Container.{SignalContainer, meta_call}
use streaming_protocol_lt.Container.Maps.{find_number, put_number, erase_number}
use streaming_protocol_lt.Container.Meta.{
  Tables, stored, emplace, require_id, leave_table, unsubscribe_member, subscribe_member,
  member_for, finish_meta, apply_meta, process_metainformation,
}
use streaming_protocol_lt.Container.Invariant.{IsWellFormed}
use streaming_protocol_lt.Client.Numbers.{
  changed, has_number, has_number-put_number, has_number-erase_number, found-has_number, combined,
}

module _ {J R : Type 0} (json : Json J R) (real : Real R) where
  -- What is known of the signal that meta information is for, and of the container that has it.
  record IsFound (m : String) (number : ℕ) (c : SignalContainer J R) (s : SubscribedSignal J R)
      (c' : SignalContainer J R) : Type 0 where
    named : s.signal_number ≡ number
    calls : c'.calls ≡ c.calls
    there :
        (n : ℕ)
        → has_number n c'.signals ≡ (
            if m == "unsubscribe"
            then has_number n c.signals
            else if m == "subscribe"
            then eqb number n || has_number n c.signals
            else has_number n c.signals)
    known : m == "subscribe" ≡ false → has_number number c.signals ≡ true

  stored-IsFound :
      (m : String) (number : ℕ) (c : SignalContainer J R) (s : SubscribedSignal J R)
      (tables : Tables)
      → IsWellFormed c
      → m == "subscribe" ≡ false
      → stored json real (find_number number c.signals) ≡ ok s
      → IsFound m number c s (record c { tables = tables })
  stored-IsFound m number c s tables w other e =
      let found = is_stored (find_number number c.signals) e in
      let (t, same, named) = w.keyed number (some s) found in
      record {
        named = cc (same, named);
        calls = refl;
        there = λ n. ground (arith, other);
        known = λ _. found-has_number number _ c.signals found;
      }
    where
      is_stored :
          (o : Option (Option (SubscribedSignal J R)))
          → stored json real o ≡ ok s
          → o ≡ some (some s)
      is_stored none h = cc
      is_stored (some none) h = cc
      is_stored (some (some x)) h = cc

  emplaced-IsFound :
      (number : ℕ) (c : SignalContainer J R) (s : SubscribedSignal J R)
      (o : Option (Option (SubscribedSignal J R)))
      → (emplace json real number o c).0 ≡ ok s
      → IsFound "subscribe" number c s (emplace json real number o c).1
  unfolding new_signal
  emplaced-IsFound number c s (some x) h = cc
  emplaced-IsFound number c s none h = record {
    named = ground (arith, h);
    calls = refl;
    there = λ n. has_number-put_number number n _ c.signals;
    known = λ h. cc;
  }

  leaving-IsFound :
      (number : ℕ) (c : SignalContainer J R) (s : SubscribedSignal J R)
      (o : Option (Option (SubscribedSignal J R)))
      → IsWellFormed c
      → find_number number c.signals ≡ o
      → let r =
          then_run
            (stored json real o, c)
            (λ t c'. (
              ok t,
              record c' { tables = leave_table number t.is_time_signal t.table_id c'.tables },
            )) in
        r.0 ≡ ok s → IsFound "unsubscribe" number c s r.1
  leaving-IsFound number c s none w e h = cc
  leaving-IsFound number c s (some none) w e h = cc
  leaving-IsFound number c s (some (some t)) w e h =
      stored-IsFound "unsubscribe" number c s
        (leave_table number t.is_time_signal t.table_id c.tables) w refl (rw e h)

  required-IsFound :
      (number : ℕ) (c : SignalContainer J R) (s : SubscribedSignal J R) (id : Option J)
      → (require_id json real id number c).0 ≡ ok s
      → IsFound "subscribe" number c s (require_id json real id number c).1
  required-IsFound number c s none h = cc
  required-IsFound number c s (some id) h =
      emplaced-IsFound number c s (find_number number c.signals) h

  member_for-IsFound :
      (m : String) (p : J) (number : ℕ) (c : SignalContainer J R) (s : SubscribedSignal J R)
      → IsWellFormed c
      → (member_for json real m p number c).0 ≡ ok s
      → IsFound m number c s (member_for json real m p number c).1
  unfolding member_for unsubscribe_member subscribe_member
  member_for-IsFound m p number c s w h = elim (Bool-cases (m == "unsubscribe")) [
    | inl u ↦
        subst
          (λ k.
            (member_for json real k p number c).0 ≡ ok s
            → IsFound k number c s (member_for json real k p number c).1)
          (sym ((eq_iff m "unsubscribe").0 u)) (leaving-IsFound number c s _ w refl) h
    | inr nu ↦ elim (Bool-cases (m == "subscribe")) [
      | inl e ↦
          subst
            (λ k.
              (member_for json real k p number c).0 ≡ ok s
              → IsFound k number c s (member_for json real k p number c).1)
            (sym ((eq_iff m "subscribe").0 e))
            (required-IsFound number c s (json.find p "signalId")) h
      | inr e ↦ rw (nu, e) (stored-IsFound m number c s c.tables w e (rw (nu, e) at h))
    ]
  ]

  -- After meta information that is accepted: the numbers that are there, and the call of the callback.
  pub record IsAccepted (number : ℕ) (meta : MetaInformation J) (c c' : SignalContainer J R)
      : Type 0 where
    pub name : String
    pub reads : method json meta ≡ ok name
    pub calls : c'.calls ≡ c.calls ++ meta_call number name (params json meta) ∷ []
    pub there : (n : ℕ) → has_number n c'.signals ≡ changed name number n (has_number n c.signals)
    pub known : name == "subscribe" ≡ false → has_number number c.signals ≡ true

  left_after :
      (m : String) (number n : ℕ) (s : SubscribedSignal J R)
      (signals : List (ℕ × Option (SubscribedSignal J R)))
      → has_number n (
          if m == "unsubscribe"
          then erase_number number (put_number number (some s) signals)
          else put_number number (some s) signals)
        ≡ (if m == "unsubscribe"
            then (if eqb number n then false else has_number n signals)
            else eqb number n || has_number n signals)
  left_after m number n s signals = ground (
    arith,
    has_number-erase_number number n (put_number number (some s) signals),
    has_number-put_number number n (some s) signals,
  )

  apply_meta-calls :
      (m : String) (p : J) (number : ℕ) (s : SubscribedSignal J R) (c : SignalContainer J R)
      → s.signal_number ≡ number
      → (apply_meta json real m p number s c).0 ≡ ok tt
      → ((apply_meta json real m p number s c).1.calls ≡ c.calls ++ meta_call number m p ∷ [])
        × ((n : ℕ)
            → has_number n (apply_meta json real m p number s c).1.signals ≡ (
                if m == "unsubscribe"
                then (if eqb number n then false else has_number n c.signals)
                else eqb number n || has_number n c.signals))
  unfolding apply_meta finish_meta
  apply_meta-calls m p number s c named h =
      let (u, accepted, run) =
        then_run-ok _
          (λ _ d. (
            ok tt,
            finish_meta json real m p number (process_signal_metainformation json real m p s).1 d,
          ))
          tt h in
      (
        ap (λ (r : Result (Unit {0}) × SignalContainer J R). r.1.calls) run
            ∙ ap (λ (k : ℕ). c.calls ++ meta_call k m p ∷ [])
                ((process_signal_metainformation_keeps json real m p s).0 ∙ named),
        λ n.
            ap (λ (r : Result (Unit {0}) × SignalContainer J R). has_number n r.1.signals) run
            ∙ left_after m number n (process_signal_metainformation json real m p s).1 c.signals,
      )

  pub process-IsAccepted :
      (number : ℕ) (meta : MetaInformation J) (c : SignalContainer J R)
      → IsWellFormed c
      → (process_metainformation json real number meta c).0 ≡ ok tt
      → IsAccepted number meta c (process_metainformation json real number meta c).1
  unfolding process_metainformation
  process-IsAccepted number meta c w h =
      let p : J = params json meta in
      let (m, reads, run) =
        then_run-ok (method json meta, c)
          (λ m c'. then_run (member_for json real m p number c') (apply_meta json real m p number))
          tt h in
      let (s, stored, run') =
        then_run-ok (member_for json real m p number c) (apply_meta json real m p number) tt
          (ap (λ (r : Result (Unit {0}) × SignalContainer J R). r.0) (sym run) ∙ h) in
      let found = member_for-IsFound m p number c s w stored in
      let (calls, there) =
        apply_meta-calls m p number s (member_for json real m p number c).1 found.named
          (ap (λ (r : Result (Unit {0}) × SignalContainer J R). r.0) (sym (run ∙ run')) ∙ h) in
      record {
        name = m;
        reads = reads;
        calls =
            ap (λ (r : Result (Unit {0}) × SignalContainer J R). r.1.calls) (run ∙ run')
            ∙ calls
            ∙ ap (λ cs. cs ++ meta_call number m p ∷ []) found.calls;
        there = λ n.
            ap (λ (r : Result (Unit {0}) × SignalContainer J R). has_number n r.1.signals)
              (run ∙ run')
            ∙ there n
            ∙ combined m number n c.signals _ (found.there n) found.known;
        known = found.known;
      }
