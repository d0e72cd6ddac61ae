-- ===== src/Signal/Definition.antt =====
-- `SubscribedSignal::processSignalMetaInformation` of lib/SubscribedSignal.cpp. Each step writes the
-- members of the object as it goes, so what was written before an error stays.
use streaming_protocol_lt.Base.{
  suc, ◌/◌, String, Bool, true, ◌&&◌, ◌||◌, List, [], ◌∷◌, Option, none, some, ◌==◌, eqb,
  if◌then◌else◌,
}
use streaming_protocol_lt.Base.Int.{ℤ, pos, int_eqb}
use streaming_protocol_lt.Base.Result.{
  Result, ok, fails, throws, aborts, json_exception, logic_error, runtime_error, Method, ◌>>=◌,
  ◌>>◌, write, skip, if_found, then_run,
}
use streaming_protocol_lt.Real.{Real}
use streaming_protocol_lt.Json.{Json, index}
use streaming_protocol_lt.Types.{
  explicit, constant, linear, Resolution, SignalUnit, unit_id_none, unit_id_seconds, parse_unit,
  parse_resolution, parse_range, parse_post_scaling,
}
use streaming_protocol_lt.Signal.{SubscribedSignal}
use streaming_protocol_lt.Signal.DataType.{data_type_size}
use streaming_protocol_lt.Signal.TypeName.{set_data_type}

-- A method of a part of an object.
abbrev pub on_part :
    {S T : Type 0} → (S → T) → (T → S → S) → Method T (Unit {0}) → Method S (Unit {0})
on_part get put m s = let (r, t) = m (get s) in (r, put t s)

-- std::map: a later entry replaces an earlier one of the same type.
unfoldable pub put_related : String → String → List (String × String) → List (String × String)
put_related k v [] = (k, v) ∷ []
put_related k v ((j, w) ∷ m) = if j == k then (k, v) ∷ m else (j, w) ∷ put_related k v m

module _ {J R : Type 0} (json : Json J R) (real : Real R) where
  open json use {find, is_string, is_number, is_array, elements, get_text, get_nat, dump, depth}
  open json use {index_or_insert}

  abbrev Signal : Type 0
  Signal = SubscribedSignal J R

  -- A text, or a number as its text.
  unfoldable pub text_or_number : J → Result String
  text_or_number node =
      if is_string node then get_text node else if is_number node then ok (dump node) else fails

  unfoldable pub set_signal_id : Option J → Method (SubscribedSignal J R) (Unit {0})
  unfolding text_or_number
  set_signal_id none s = (fails, s)
  set_signal_id (some node) s = write (text_or_number node) (λ v s'. record s' { signal_id = v }) s

  abbrev delta_value : J → Method (SubscribedSignal J R) (Unit {0})
  delta_value v s =
      if is_number v
      then write (get_nat 64 v) (λ n s'. record s' { linear_delta = n }) s
      else (fails, s)

  unfoldable pub set_linear_delta : J → Method (SubscribedSignal J R) (Unit {0})
  set_linear_delta node =
      if_found (find node "linear")
        λ l. if_found (find l "delta") λ v s. delta_value v (record s { linear_delta_json = v })

  unfoldable pub set_constant_start : J → Method (SubscribedSignal J R) (Unit {0})
  set_constant_start node = if_found (find node "constant") λ c.
      if_found (find c "start")
        λ v s. (if is_number v then ok tt else fails, record s { const_rule_start_json = v })

  -- A linear rule needs a delta that is not 0, from this or an earlier description.
  unfoldable pub set_rule_named : String → Method (SubscribedSignal J R) (Unit {0})
  set_rule_named rule s =
      if rule == "linear"
      then (if eqb s.linear_delta 0 then (fails, s) else (ok tt, record s { rule_type = linear }))
      else if rule == "explicit"
      then (ok tt, record s { rule_type = explicit })
      else if rule == "constant"
      then (ok tt, record s { rule_type = constant })
      else (fails, s)

  unfoldable pub set_rule : J → Method (SubscribedSignal J R) (Unit {0})
  unfolding set_rule_named
  set_rule node = if_found (find node "rule") λ v s. then_run (get_text v, s) set_rule_named

  -- A size of 0 is none: the old one stays.
  unfoldable pub set_value_size : J → Method (SubscribedSignal J R) (Unit {0})
  set_value_size node =
      write (data_type_size json (suc (depth node)) node)
        (λ n s. if eqb n 0 then s else record s { data_value_size = n })

  unfoldable pub set_member_name : J → Method (SubscribedSignal J R) (Unit {0})
  set_member_name node =
      if_found (find node "name") λ v. write (get_text v) λ name s. record s { member_name = name }

  unfoldable pub set_unit : J → Method (SubscribedSignal J R) (Unit {0})
  set_unit node =
      on_part (λ s. s.unit) (λ u s. record s { unit = u }) (parse_unit json real node) >> λ s.
      (ok tt, if s.unit.quantity == "time" then record s { is_time_signal = true } else s)

  abbrev pub in_seconds : SignalUnit → Bool
  in_seconds u = int_eqb u.id unit_id_seconds || int_eqb u.id unit_id_none && u.display_name == "s"

  -- The resolution is the time between two ticks; the frequency is wanted. A refused resolution
  -- (-1) is passed over.
  unfoldable pub set_frequency : ℤ × Resolution → Method (SubscribedSignal J R) (Unit {0})
  set_frequency (result, r) s =
      if int_eqb result (pos 1)
      then if in_seconds s.unit
        then (ok tt, record s { resolution = r; time_base_frequency = r.denominator / r.numerator })
        else (fails, record s { resolution = r })
      else (ok tt, record s { resolution = r })

  unfoldable pub set_resolution : J → Method (SubscribedSignal J R) (Unit {0})
  unfolding set_frequency
  set_resolution node s = then_run (parse_resolution json real node s.resolution, s) set_frequency

  unfoldable pub set_reference : J → Method (SubscribedSignal J R) (Unit {0})
  set_reference node =
      if_found (find node "absoluteReference")
        λ v. write (get_text v) λ epoch s. record s { time_base_epoch = epoch }

  unfoldable pub set_range : J → Method (SubscribedSignal J R) (Unit {0})
  set_range node =
      on_part (λ s. s.range) (λ r s. record s { range = r }) (parse_range json real node)

  unfoldable pub set_post_scaling : J → Method (SubscribedSignal J R) (Unit {0})
  set_post_scaling node =
      on_part (λ s. s.post_scaling) (λ p s. record s { post_scaling = p })
        (parse_post_scaling json real node)

  member_text : J → String → Result String
  member_text node key = index json node key >>= get_text

  unfoldable pub add_item : J → Method (SubscribedSignal J R) (Unit {0})
  unfolding put_related member_text
  add_item item s =
      then_run (member_text item "type", s)
        λ type.
          write (member_text item "signalId")
            λ id t. record t { related_signals = put_related type id t.related_signals }

  unfoldable pub add_related : List J → Method (SubscribedSignal J R) (Unit {0})
  unfolding add_item
  add_related [] = skip
  add_related (item ∷ rest) = let others = add_related rest in add_item item >> others

  -- The related signals stand beside the definition, and are read only where one is.
  unfoldable pub set_related : J → Method (SubscribedSignal J R) (Unit {0})
  unfolding add_related
  set_related params = if_found (find params "relatedSignals") λ v s.
      let cleared : SubscribedSignal J R = record s { related_signals = [] } in
      if is_array v then add_related (elements v) cleared else (ok tt, cleared)

  unfoldable pub process_definition : J → J → Method (SubscribedSignal J R) (Unit {0})
  process_definition params node =
      set_linear_delta node
      >> set_constant_start node
      >> set_rule node
      >> set_value_size node
      >> set_member_name node
      >> set_data_type json real node
      >> set_unit node
      >> set_resolution node
      >> set_reference node
      >> set_range node
      >> set_post_scaling node
      >> set_related params

  abbrev pub catch_json : Result (Unit {0}) → Result (Unit {0})
  catch_json (throws json_exception) = fails
  catch_json (throws logic_error) = throws logic_error
  catch_json (throws runtime_error) = throws runtime_error
  catch_json (ok u) = ok u
  catch_json fails = fails
  catch_json aborts = aborts

  unfoldable pub try_definition : J → J → Method (SubscribedSignal J R) (Unit {0})
  try_definition params node s =
      let (r, s') = process_definition params node s in (catch_json r, s')

  -- What stands before the try block: an exception there is not caught.
  unfoldable pub set_table : J → Method (SubscribedSignal J R) (Unit {0})
  unfolding text_or_number
  set_table params =
      if_found (find params "tableId")
        (λ v. write (text_or_number v) λ id s. record s { table_id = id })
      >> if_found (find params "valueIndex")
          (λ v. write (get_nat 64 v) λ n s. record s { linear_value_index = n })
      >> if_found (find params "interpretation")
          (λ v. write (ok v) λ o s. record s { interpretation_object = o })

  -- `fails` is -1; other methods are nothing to the signal.
  unfoldable pub process_signal_metainformation :
      String → J → Method (SubscribedSignal J R) (Unit {0})
  process_signal_metainformation method params =
      if method == "subscribe"
      then set_signal_id (find params "signalId")
      else if method == "signal"
      then set_table params >> if_found (find params "definition") (try_definition params)
      else skip
