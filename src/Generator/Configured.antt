-- ===== src/Generator/Configured.antt =====
-- Which signals a configuration leaves in the generator.
use streaming_protocol_lt.Base.{
  ℕ, String, ◌≡◌, refl, ap, sym, ◌∙◌, Bool, true, false, ◌||◌, List, [], ◌∷◌, ◌==◌, if◌then◌else◌,
}
use streaming_protocol_lt.Base.Text.{join}
use streaming_protocol_lt.Base.Result.{Result, ok, ◌>>=◌, then_run-ok}
use streaming_protocol_lt.Real.{Real}
use streaming_protocol_lt.Json.{Json, index, value_text}
use streaming_protocol_lt.Container.Maps.{find_text}
use streaming_protocol_lt.Producer.Samples.{ValueType}
use streaming_protocol_lt.Generator.Function.{Arithmetic}
use streaming_protocol_lt.Generator.State.{SignalGenerator, clear, configure_times}
use streaming_protocol_lt.Generator.Configure.{
  Reader, Settings, add_explicit, add_linear, configure_signal, configure_item, configure_items,
  configure_with, configure, read_settings, or_fail, type_named, read_times,
}
use streaming_protocol_lt.Generator.Holds.{
  holds, holds-add_linear_time_signal, holds-add_explicit_time_signal, holds-add_synchronous_signal,
  holds-add_asynchronous_signal,
}

either :
    {A : Type 0} {c : Bool} (f : A → Bool) (b : Bool) (x y : A)
    → f x ≡ c
    → f y ≡ c
    → f (if b then x else y) ≡ c
either f true x y p q = p
either f false x y p q = q

or_false : (b : Bool) → (b || false) ≡ b
or_false true = refl
or_false false = refl

or_swap : (a b c : Bool) → (a || (b || c)) ≡ (b || a || c)
or_swap true true c = refl
or_swap true false c = refl
or_swap false true c = refl
or_swap false false c = refl

or_assoc : (a b c : Bool) → (a || (b || c)) ≡ (a || b || c)
or_assoc true b c = refl
or_assoc false b c = refl

-- The parts of what a method gives.
abbrev result_of : {J R : Type 0} → Result (Unit {0}) × SignalGenerator J R → Result (Unit {0})
result_of r = r.0

abbrev held_by : {J R : Type 0} → String → Result (Unit {0}) × SignalGenerator J R → Bool
held_by i r = holds i r.1

-- The id of the time signal of a configured signal.
abbrev pub time_signal_id : String → String
time_signal_id id = join "A_" (join id "_time")

unfoldable pub configured : {J : Type 0} → String → List (String × J) → Bool
configured i [] = false
configured i ((id, j) ∷ items) = id == i || time_signal_id id == i || configured i items

module _ {J R : Type 0} (json : Json J R) (real : Real R) (reader : Reader J)
    (uninitialised : String → ℕ × List ℕ) (arithmetic : Arithmetic R) where
  holds-add_explicit :
      (start : ℕ) (id i : String) (s : Settings R) (g : SignalGenerator J R)
      → holds i (add_explicit json real reader uninitialised arithmetic start id s g)
        ≡ (id == i || time_signal_id id == i || holds i g)
  unfolding add_explicit
  holds-add_explicit start id i s g =
      holds-add_asynchronous_signal json real arithmetic id s.table_id (time_signal_id id) i
        s.parameters s.sample_period _
      ∙ ap (λ b. id == i || b)
          (holds-add_explicit_time_signal json (time_signal_id id) s.table_id i start g)
      ∙ or_assoc (id == i) (time_signal_id id == i) (holds i g)

  holds-add_linear :
      (start : ℕ) (id i : String) (s : Settings R) (g : SignalGenerator J R)
      → holds i (add_linear json real reader uninitialised arithmetic start id s g)
        ≡ (id == i || time_signal_id id == i || holds i g)
  unfolding add_linear
  holds-add_linear start id i s g =
      holds-add_synchronous_signal json real arithmetic id s.table_id (time_signal_id id) i
        s.parameters s.sample_period 0 _
      ∙ ap (λ b. id == i || b)
          (holds-add_linear_time_signal json (time_signal_id id) s.table_id i s.sample_period start
            g)
      ∙ or_assoc (id == i) (time_signal_id id == i) (holds i g)

  -- A signal that is configured is there with its time signal.
  holds-configure_signal :
      (start : ℕ) (t : ValueType) (id i : String) (j : J) (g : SignalGenerator J R) (u : Unit {0})
      → let r = configure_signal json real reader uninitialised arithmetic start t id j g in
        r.0 ≡ ok u → holds i r.1 ≡ (id == i || time_signal_id id == i || holds i g)
  unfolding configure_signal
  holds-configure_signal start t id i j g u h =
      let (s, read, run) =
        then_run-ok (read_settings json real reader uninitialised t id j, g) _ u h in
      ap (held_by i) run
      ∙ either (λ (g' : SignalGenerator J R). holds i g') s.is_explicit _ _
          (holds-add_explicit start id i s g) (holds-add_linear start id i s g)

  holds-configure_item :
      (start : ℕ) (id i : String) (j : J) (g : SignalGenerator J R) (u : Unit {0})
      → let r = configure_item json real reader uninitialised arithmetic start (id, j) g in
        r.0 ≡ ok u → holds i r.1 ≡ (id == i || time_signal_id id == i || holds i g)
  unfolding configure_item
  holds-configure_item start id i j g u h =
      let (t, named, run) =
        then_run-ok
          (value_text json j "dataType" "real64" >>= (λ name. or_fail (type_named name)), g)
          (λ t. configure_signal json real reader uninitialised arithmetic start t id j) u h in
      ap (held_by i) run ∙ holds-configure_signal start t id i j g u (ap result_of (sym run) ∙ h)

  holds-configure_items :
      (start : ℕ) (i : String) (items : List (String × J)) (g : SignalGenerator J R) (u : Unit {0})
      → let r = configure_items json real reader uninitialised arithmetic start items g in
        r.0 ≡ ok u → holds i r.1 ≡ (configured i items || holds i g)
  unfolding configure_items configured
  holds-configure_items start i [] g u h = refl
  holds-configure_items start i ((id, j) ∷ items) g u h =
      let (v, first, run) =
        then_run-ok (configure_item json real reader uninitialised arithmetic start (id, j) g)
          (λ _. configure_items json real reader uninitialised arithmetic start items) u h in
      ap (held_by i) run
      ∙ holds-configure_items start i items _ u (ap result_of (sym run) ∙ h)
      ∙ ap (λ b. configured i items || b) (holds-configure_item start id i j g v first)
      ∙ or_swap (configured i items) (id == i || time_signal_id id == i) (holds i g)

  holds-configure_with :
      (start : ℕ) (j : J) (times : ℕ × ℕ) (g : SignalGenerator J R)
      → (configure_with json real reader uninitialised arithmetic start j times g).0 ≡ ok tt
      → (signals : J) × (index json j "signals" ≡ ok signals)
        × ((i : String)
            → holds i (configure_with json real reader uninitialised arithmetic start j times g).1
              ≡ (configured i (reader.items signals) || holds i g))
  unfolding configure_with configure_times holds
  holds-configure_with start j times g h =
      let (signals, found, run) =
        then_run-ok (index json j "signals", configure_times times.0 times.1 g)
          (λ signals.
            configure_items json real reader uninitialised arithmetic start (reader.items signals))
          tt h in
      (
        signals,
        found,
        λ i.
            ap (held_by i) run
            ∙ holds-configure_items start i (reader.items signals)
                (configure_times times.0 times.1 g) tt (ap result_of (sym run) ∙ h),
      )

  -- When a configuration succeeds, the ids in use are those of its signals and of their time signals,
  -- whatever was there before.
  pub holds-configure :
      (start : ℕ) (j : J) (g g' : SignalGenerator J R)
      → configure json real reader uninitialised arithmetic start j g ≡ (ok tt, g')
      → (signals : J) × (index json j "signals" ≡ ok signals)
        × ((i : String) → holds i g' ≡ configured i (reader.items signals))
  unfolding configure holds clear find_text
  holds-configure start j g g' h =
      let returned : (configure json real reader uninitialised arithmetic start j g).0 ≡ ok tt =
        ap result_of h in
      let (times, read, run) =
        then_run-ok (read_times json real reader uninitialised arithmetic j, clear g)
          (configure_with json real reader uninitialised arithmetic start j) tt returned in
      let (signals, found, held) =
        holds-configure_with start j times (clear g) (ap result_of (sym run) ∙ returned) in
      (
        signals,
        found,
        λ i. ap (held_by i) (sym h ∙ run) ∙ held i ∙ or_false (configured i (reader.items signals)),
      )
