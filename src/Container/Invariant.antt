-- ===== src/Container/Invariant.antt =====
-- The well-formedness of the container, and that meta information keeps it.
use streaming_protocol_lt.Base.{
  ℕ, ◌≡◌, ◌≢◌, ◌⊎◌, refl, sym, ap, ◌∙◌, String, Bool, true, false, not, ◌&&◌, ◌||◌, List, Option,
  none, some, ◌==◌, eqb, eq_iff, if◌then◌else◌, arith, eqb_iff, subst, Bool-cases, inl, inr,
}
use streaming_protocol_lt.Signal.{SubscribedSignal}
use streaming_protocol_lt.Container.{SignalContainer, new_container}
use streaming_protocol_lt.Container.Maps.{
  find_number, put_number, erase_number, find_number-put_number, find_number-erase_number,
  find_text, has,
}
use streaming_protocol_lt.Container.Meta.{Tables, leave_table, join_table}
use streaming_protocol_lt.Container.Members.{
  time_of, is_data, time_of-join_table, is_data-join_table, time_of-leave_table,
  is_data-leave_table,
}

-- The number stands in a table.
abbrev pub InTable : ℕ → Tables → Type 0
InTable n tables =
    (id : String) × (((n ≢ 0) × (time_of id tables ≡ n)) ⊎ (is_data id n tables ≡ true))

module _ {J R : Type 0} where
  -- The signal of this number is there, in this table and of this kind.
  abbrev pub Member : List (ℕ × Option (SubscribedSignal J R)) → ℕ → String → Bool → Type 0
  Member signals n id time =
      (s : SubscribedSignal J R) × (find_number n signals ≡ some (some s))
      × (s.table_id ≡ id)
      × (s.is_time_signal ≡ time)

  -- No pointer is null and each signal stands under its number; the time signal that a table names
  -- is a subscribed time signal of that table, and each data signal a subscribed data signal of it.
  pub record IsWellFormed (c : SignalContainer J R) : Type 0 where
    pub keyed :
        (n : ℕ) (o : Option (SubscribedSignal J R))
        → find_number n c.signals ≡ some o
        → (s : SubscribedSignal J R) × (o ≡ some s) × (s.signal_number ≡ n)
    pub timed :
        (id : String) → time_of id c.tables ≢ 0 → Member c.signals (time_of id c.tables) id true
    pub joined : (id : String) (n : ℕ) → is_data id n c.tables ≡ true → Member c.signals n id false

  -- A signal that changes from s to t: in a table it stays in its table and of its kind.
  abbrev pub Stays : ℕ → Tables → SubscribedSignal J R → SubscribedSignal J R → Type 0
  Stays n tables s t =
      InTable n tables → (t.table_id ≡ s.table_id) × (t.is_time_signal ≡ s.is_time_signal)

  pub Member-put :
      (signals : List (ℕ × Option (SubscribedSignal J R))) (k n : ℕ) (id : String) (time : Bool)
      (t : SubscribedSignal J R)
      → (k ≡ n → (t.table_id ≡ id) × (t.is_time_signal ≡ time))
      → (k ≢ n → Member signals n id time)
      → Member (put_number k (some t) signals) n id time
  Member-put signals k n id time t same other = elim (Bool-cases (eqb k n)) [
    | inl e ↦ (
      t,
      rw (find_number-put_number k n (some t) signals, e) refl,
      (same ((eqb_iff k n).0 e)).0,
      (same ((eqb_iff k n).0 e)).1,
    )
    | inr e ↦
        let m = other (λ h. differs k n e h) in
        (m.0, rw (find_number-put_number k n (some t) signals, e) m.1, m.2, m.3)
  ]
    where
      differs : (k n : ℕ) → eqb k n ≡ false → k ≡ n → ⊥
      differs k n e h = ground arith

  pub new_container-IsWellFormed : IsWellFormed (new_container {J = J} {R = R})
  unfolding new_container find_number time_of is_data find_text has
  new_container-IsWellFormed = record {
    keyed = λ n o h. cc;
    timed = λ id h. absurd (h refl);
    joined = λ id n h. cc;
  }

  Member-update :
      (signals : List (ℕ × Option (SubscribedSignal J R))) (k n : ℕ) (id : String) (time : Bool)
      (s t : SubscribedSignal J R)
      → find_number k signals ≡ some (some s)
      → (k ≡ n → (t.table_id ≡ s.table_id) × (t.is_time_signal ≡ s.is_time_signal))
      → Member signals n id time
      → Member (put_number k (some t) signals) n id time
  Member-update signals k n id time s t e stays (m, found, table, kind) =
      Member-put signals k n id time t
        (λ h.
          let same : m ≡ s = found_same h in
          (
            (stays h).0 ∙ ap (λ (x : SubscribedSignal J R). x.table_id) (sym same) ∙ table,
            (stays h).1 ∙ ap (λ (x : SubscribedSignal J R). x.is_time_signal) (sym same) ∙ kind,
          ))
        (λ _. (m, found, table, kind))
    where
      found_same : k ≡ n → m ≡ s
      found_same h = ground (arith, h, e, found)

  -- A stored signal that is replaced by what it became.
  pub update-IsWellFormed :
      (c : SignalContainer J R) (k : ℕ) (s t : SubscribedSignal J R)
      → IsWellFormed c
      → find_number k c.signals ≡ some (some s)
      → t.signal_number ≡ s.signal_number
      → Stays k c.tables s t
      → IsWellFormed (record c { signals = put_number k (some t) c.signals })
  update-IsWellFormed c k s t w e number stays = record {
    keyed = λ n o h. elim (Bool-cases (eqb k n)) [
      | inl same ↦ (
        t,
        ground (arith, h, find_number-put_number k n (some t) c.signals, same),
        number ∙ stored_number ∙ (eqb_iff k n).0 same,
      )
      | inr other ↦ w.keyed n o (rw (find_number-put_number k n (some t) c.signals, other) at h)
    ];
    timed = λ id h.
        Member-update c.signals k (time_of id c.tables) id true s t e
          (λ same. stays (id, inl (λ z. h (sym same ∙ z), sym same))) (w.timed id h);
    joined = λ id n h.
        Member-update c.signals k n id false s t e
          (λ same. stays (id, inr (subst (λ x. is_data id x c.tables ≡ true) (sym same) h)))
          (w.joined id n h);
  }
    where
      stored_number : s.signal_number ≡ k
      stored_number = ground (arith, w.keyed k (some s) e)

  -- The signal is subscribed under a number that was free.
  pub insert-IsWellFormed :
      (c : SignalContainer J R) (k : ℕ) (t : SubscribedSignal J R)
      → IsWellFormed c
      → find_number k c.signals ≡ none
      → t.signal_number ≡ k
      → IsWellFormed (record c { signals = put_number k (some t) c.signals })
  insert-IsWellFormed c k t w free number = record {
    keyed = λ n o h. elim (Bool-cases (eqb k n)) [
      | inl same ↦ (
        t,
        ground (arith, h, find_number-put_number k n (some t) c.signals, same),
        number ∙ (eqb_iff k n).0 same,
      )
      | inr other ↦ w.keyed n o (rw (find_number-put_number k n (some t) c.signals, other) at h)
    ];
    timed = λ id h.
        Member-put c.signals k (time_of id c.tables) id true t
          (λ same. absurd (taken (time_of id c.tables) id true same (w.timed id h)))
          (λ _. w.timed id h);
    joined = λ id n h.
        Member-put c.signals k n id false t
          (λ same. absurd (taken n id false same (w.joined id n h))) (λ _. w.joined id n h);
  }
    where
      taken : (n : ℕ) (id : String) (time : Bool) → k ≡ n → Member c.signals n id time → ⊥
      taken n id time same m = ground (arith, same, m.1, free)

  -- A signal joins the table that it names.
  pub join-IsWellFormed :
      (c : SignalContainer J R) (k : ℕ) (s : SubscribedSignal J R)
      → IsWellFormed c
      → find_number k c.signals ≡ some (some s)
      → IsWellFormed (record c { tables = join_table k s.is_time_signal s.table_id c.tables })
  join-IsWellFormed c k s w e = record {
    keyed = w.keyed;
    timed = λ id h. elim (Bool-cases (s.is_time_signal && (s.table_id == id))) [
      | inl joins ↦ (
        s,
        rw (joined_time id, joins) e,
        ground (arith, joins, eq_iff s.table_id id),
        ground (arith, joins),
      )
      | inr others ↦ rw (joined_time id, others) (w.timed id (rw (joined_time id, others) at h))
    ];
    joined = λ id n h. elim (Bool-cases (not s.is_time_signal && (s.table_id == id))) [
      | inl joins ↦ elim (Bool-cases (eqb k n)) [
        | inl same ↦ (
          s,
          subst (λ x. find_number x c.signals ≡ some (some s)) ((eqb_iff k n).0 same) e,
          ground (arith, joins, eq_iff s.table_id id),
          ground (arith, joins),
        )
        | inr other ↦ w.joined id n (ground (arith, h, joined_data id n, joins, other))
      ]
      | inr others ↦ w.joined id n (ground (arith, h, joined_data id n, others))
    ];
  }
    where
      joined_time :
          (id : String)
          → time_of id (join_table k s.is_time_signal s.table_id c.tables)
            ≡ (if s.is_time_signal && (s.table_id == id) then k else time_of id c.tables)
      joined_time id = time_of-join_table k s.is_time_signal s.table_id id c.tables

      joined_data :
          (id : String) (n : ℕ)
          → is_data id n (join_table k s.is_time_signal s.table_id c.tables) ≡ (
              if not s.is_time_signal && (s.table_id == id)
              then eqb k n || is_data id n c.tables
              else is_data id n c.tables)
      joined_data id n = is_data-join_table k n s.is_time_signal s.table_id id c.tables

  find_number-forgotten :
      (k n : ℕ) (o : Option (SubscribedSignal J R))
      (signals : List (ℕ × Option (SubscribedSignal J R)))
      → find_number n (erase_number k (put_number k o signals))
        ≡ (if eqb k n then none else find_number n signals)
  find_number-forgotten k n o signals = ground (
    arith,
    find_number-erase_number k n (put_number k o signals),
    find_number-put_number k n o signals,
  )

  -- A signal leaves its table and is forgotten.
  pub leave-IsWellFormed :
      (c : SignalContainer J R) (k : ℕ) (s : SubscribedSignal J R)
      → IsWellFormed c
      → find_number k c.signals ≡ some (some s)
      → IsWellFormed (record c {
        signals = erase_number k (put_number k (some s) c.signals);
        tables = leave_table k s.is_time_signal s.table_id c.tables;
      })
  leave-IsWellFormed c k s w e = record {
    keyed = λ n o h. elim (Bool-cases (eqb k n)) [
      | inl same ↦ ground (arith, h, find_number-forgotten k n (some s) c.signals, same)
      | inr other ↦ w.keyed n o (rw (find_number-forgotten k n (some s) c.signals, other) at h)
    ];
    timed = λ id h. elim (Bool-cases (s.is_time_signal && (s.table_id == id))) [
      | inl gone ↦ absurd (h (rw (left_time id, gone) refl))
      | inr others ↦
          rw (left_time id, others)
            (stays (time_of id c.tables) id true (w.timed id (rw (left_time id, others) at h))
              (λ same same_id kind. ground (arith, others, same_id, kind, eq_iff s.table_id id)))
    ];
    joined = λ id n h.
        stays n id false (w.joined id n (ground (arith, h, left_data id n))) (λ same same_id kind.
          ground (arith, h, left_data id n, same, same_id, kind, eq_iff s.table_id id));
  }
    where
      left_time :
          (id : String)
          → time_of id (leave_table k s.is_time_signal s.table_id c.tables)
            ≡ (if s.is_time_signal && (s.table_id == id) then 0 else time_of id c.tables)
      left_time id = time_of-leave_table k s.is_time_signal s.table_id id c.tables

      left_data :
          (id : String) (n : ℕ)
          → is_data id n (leave_table k s.is_time_signal s.table_id c.tables) ≡ (
              if not s.is_time_signal && (s.table_id == id) && eqb k n
              then false
              else is_data id n c.tables)
      left_data id n = is_data-leave_table k n s.is_time_signal s.table_id id c.tables

      -- Another member is still there.
      stays :
          (n : ℕ) (id : String) (time : Bool)
          → Member c.signals n id time
          → (k ≡ n → s.table_id ≡ id → s.is_time_signal ≡ time → ⊥)
          → Member (erase_number k (put_number k (some s) c.signals)) n id time
      stays n id time (m, found, table, kind) gone = elim (Bool-cases (eqb k n)) [
        | inl same ↦
            let eq : m ≡ s = ground (arith, found, e, same) in
            absurd (
              gone ((eqb_iff k n).0 same)
                (ap (λ (x : SubscribedSignal J R). x.table_id) (sym eq) ∙ table)
                (ap (λ (x : SubscribedSignal J R). x.is_time_signal) (sym eq) ∙ kind))
        | inr other ↦
            (m, rw (find_number-forgotten k n (some s) c.signals, other) found, table, kind)
      ]
