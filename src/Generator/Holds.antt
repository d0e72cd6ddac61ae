-- ===== src/Generator/Holds.antt =====
-- Which ids are in use in the generator after a signal is added.
use streaming_protocol_lt.Base.{
  ℕ, String, ◌≡◌, refl, ap, ◌∙◌, Bool, true, false, ◌||◌, List, [], ◌∷◌, Option, none, some, ◌==◌,
  eq_iff, if◌then◌else◌, arith, Option-cases, inl, inr,
}
use streaming_protocol_lt.Real.{Real}
use streaming_protocol_lt.Json.{Json, index}
use streaming_protocol_lt.Container.Maps.{find_text}
use streaming_protocol_lt.Producer.{BaseSignal}
use streaming_protocol_lt.Generator.Function.{Arithmetic, FunctionParameters}
use streaming_protocol_lt.Generator.State.{
  Generated, SignalGenerator, insert_sorted, add_generated, add_linear_time_signal,
  add_explicit_time_signal, add_synchronous_signal, add_asynchronous_signal,
}

find_text-insert_sorted :
    {V : Type 0} (k j : String) (v : V) (m : List (String × V))
    → find_text k m ≡ none
    → find_text j (insert_sorted k v m) ≡ (if k == j then some v else find_text j m)
unfolding find_text insert_sorted
find_text-insert_sorted k j v [] h = refl
find_text-insert_sorted k j v ((i, w) ∷ m) h =
    ground (arith, eq_iff k j, eq_iff i k, eq_iff i j, find_text-insert_sorted k j v m)

abbrev is_some : {A : Type 0} → Option A → Bool
is_some none = false
is_some (some a) = true

if_some :
    {A : Type 0} (b : Bool) (a : A) (o : Option A)
    → is_some (if b then some a else o) ≡ (b || is_some o)
if_some true a o = refl
if_some false a o = refl

module _ {J R : Type 0} where
  -- The id is in use.
  unfoldable pub holds : String → SignalGenerator J R → Bool
  holds i g = is_some (find_text i g.generated_signals)

  module _ (json : Json J R) where
    -- A signal is added if its id is not in use, and the others stay.
    add_generated-find_text :
        (id table_id i : String) (make : BaseSignal J → Generated J R) (g : SignalGenerator J R)
        → (old : Generated J R) → find_text i g.generated_signals ≡ some old
        → find_text i (add_generated json id table_id make g).1.generated_signals ≡ some old
    unfolding add_generated
    add_generated-find_text id table_id i make g old h =
        elim (Option-cases (find_text id g.generated_signals)) [
          | inl e ↦
              rw (add_generated, e)
                (find_text-insert_sorted id i _ g.generated_signals e
                  ∙ ground (arith, eq_iff id i, e, h))
          | inr (v, e) ↦ rw (add_generated, e) h
        ]

    holds-add_generated :
        (id table_id i : String) (make : BaseSignal J → Generated J R) (g : SignalGenerator J R)
        → holds i (add_generated json id table_id make g).1 ≡ (id == i || holds i g)
    unfolding add_generated holds
    holds-add_generated id table_id i make g =
        elim (Option-cases (find_text id g.generated_signals)) [
          | inl e ↦
              rw (add_generated, e)
                (ap is_some (find_text-insert_sorted id i _ g.generated_signals e)
                  ∙ if_some (id == i) _ (find_text i g.generated_signals))
          | inr (v, e) ↦ rw (add_generated, e) (ground (arith, eq_iff id i, e))
        ]

    pub holds-add_linear_time_signal :
        (id table_id i : String) (period start : ℕ) (g : SignalGenerator J R)
        → holds i (add_linear_time_signal json id table_id period start g).1
          ≡ (id == i || holds i g)
    unfolding add_linear_time_signal
    holds-add_linear_time_signal id table_id i period start g =
        holds-add_generated id table_id i _ g

    pub holds-add_explicit_time_signal :
        (id table_id i : String) (start : ℕ) (g : SignalGenerator J R)
        → holds i (add_explicit_time_signal json id table_id start g).1 ≡ (id == i || holds i g)
    unfolding add_explicit_time_signal
    holds-add_explicit_time_signal id table_id i start g = holds-add_generated id table_id i _ g

    module _ (real : Real R) (arithmetic : Arithmetic R) where
      pub holds-add_synchronous_signal :
          (id table_id time_id i : String) (p : FunctionParameters R) (period index : ℕ)
          (g : SignalGenerator J R)
          → holds i
              (add_synchronous_signal json real arithmetic id table_id time_id p period index g).1
            ≡ (id == i || holds i g)
      unfolding add_synchronous_signal
      holds-add_synchronous_signal id table_id time_id i p period index g =
          holds-add_generated id table_id i _ g

      pub holds-add_asynchronous_signal :
          (id table_id time_id i : String) (p : FunctionParameters R) (period : ℕ)
          (g : SignalGenerator J R)
          → holds i (add_asynchronous_signal json real arithmetic id table_id time_id p period g).1
            ≡ (id == i || holds i g)
      unfolding add_asynchronous_signal
      holds-add_asynchronous_signal id table_id time_id i p period g =
          holds-add_generated id table_id i _ g
