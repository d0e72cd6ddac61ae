-- ===== src/Client.antt =====
-- tool/StreamingClient/StreamingClient.cpp: the example client, which subscribes the signals that become
-- available and prints their values. What is printed besides the values is left out.
pub mod Available
pub mod Numbers
pub mod Accepted
pub mod Mirror
use streaming_protocol_lt.Base.{
  ℕ, zero, suc, ◌+◌, ◌-◌, ◌/◌, String, Bool, true, false, ◌||◌, List, [], ◌∷◌, ◌++◌, Option, none,
  some, ◌==◌, eqb, ltb, if◌then◌else◌, length,
}
use streaming_protocol_lt.Base.Words.{wrap64}
use streaming_protocol_lt.Base.Result.{
  Result, ok, fails, throws, aborts, Method, ◌>>=◌, logic_error, json_exception,
}
use streaming_protocol_lt.Json.{Json, index}
use streaming_protocol_lt.Container.Maps.{find_number, put_number, erase_number}
use streaming_protocol_lt.Signal.{SubscribedSignal}
use streaming_protocol_lt.Signal.Doubles.{Casts, interpret_values_as_double}

pub record SignalInfo : Type 0 where
  pub signal_id : String
  pub start_time : ℕ
  pub value_count : ℕ

-- The static variables, and the values that were printed.
pub record Client (R : Type 0) : Type 0 where
  pub signal_infos : List (ℕ × SignalInfo)
  pub signal_filter : List String
  pub printed : List R

unfoldable pub new_signal_info : String → ℕ → SignalInfo
new_signal_info signal_id now = record { signal_id = signal_id; start_time = now; value_count = 0 }

unfoldable pub increment_value_count : ℕ → SignalInfo → SignalInfo
increment_value_count count i = record i { value_count = wrap64 (i.value_count + count) }

unfoldable pub listed_in : String → List String → Bool
listed_in i [] = false
listed_in i (j ∷ js) = j == i || listed_in i js

abbrev pub buffer_size : ℕ
buffer_size = 1024

abbrev pub no_filter : List String → Bool
no_filter [] = true
no_filter (i ∷ is) = false

-- The signals of the list that are to be subscribed; all of them without a filter.
unfoldable pub allowed : List String → List String → List String
unfolding listed_in
allowed filter [] = []
allowed filter (id ∷ ids) =
    let rest = allowed filter ids in
    if no_filter filter then id ∷ rest else if listed_in id filter then id ∷ rest else rest

-- `at` of the map throws for a number that is not there.
abbrev pub at_number :
    {R : Type 0} → Option SignalInfo → (SignalInfo → Client R) → Method (Client R) (Unit {0})
at_number none f client = (throws logic_error, client)
at_number (some i) f client = (ok tt, f i)

-- The values that the conversion put in the buffer.
abbrev pub values_of : {R : Type 0} → ℕ × List R → List R
values_of (count, values) = values

abbrev pub chunk : ℕ → ℕ
chunk remaining = if ltb buffer_size remaining then buffer_size else remaining

module _ {J R : Type 0} (casts : Casts R) where
  -- The loop over the buffers. Each converts from the beginning of the data again.
  unfoldable pub print_loop : ℕ → SubscribedSignal J R → List ℕ → ℕ → List R
  unfolding interpret_values_as_double
  print_loop zero s bytes remaining = []
  print_loop (suc fuel) s bytes remaining =
      let rest = print_loop fuel s bytes (remaining - chunk remaining) in
      if eqb remaining 0
      then []
      else values_of (interpret_values_as_double casts s bytes (chunk remaining)) ++ rest

  -- `aborts`: the value size is 0, and the division by it undefined.
  unfoldable pub raw_data_cb : SubscribedSignal J R → List ℕ → Method (Client R) (Unit {0})
  unfolding print_loop increment_value_count find_number put_number
  raw_data_cb s bytes client =
      let count : ℕ = length bytes / s.data_value_size in
      let client' : Client R = record client {
        printed = client.printed ++ print_loop count s bytes count;
      } in
      if eqb s.data_value_size 0
      then (aborts, client)
      else at_number (find_number s.signal_number client.signal_infos)
          (λ i. record client' {
            signal_infos =
                put_number s.signal_number (increment_value_count count i) client.signal_infos;
          })
          client'

module _ {R : Type 0} where
  -- `emplace` keeps the value of a number that is there.
  abbrev pub emplace_info : ℕ → SignalInfo → Option SignalInfo → Client R → Client R
  emplace_info number new none client = record client {
    signal_infos = put_number number new client.signal_infos;
  }
  emplace_info number new (some old) client = client

  -- The signal is given by its number and its id.
  unfoldable pub signal_meta_cb : ℕ → String → ℕ → String → Method (Client R) (Unit {0})
  unfolding new_signal_info find_number put_number erase_number
  signal_meta_cb number signal_id now method client =
      let found = find_number number client.signal_infos in
      if method == "subscribe"
      then (ok tt, emplace_info number (new_signal_info signal_id now) found client)
      else if method == "unsubscribe"
      then at_number found
          (λ i. record client { signal_infos = erase_number number client.signal_infos }) client
      else (ok tt, client)

module _ {J R : Type 0} (json : Json J R) where
  open json use {find, elements, get_text, get_nat}

  unfoldable pub texts_of_elements : List J → Result (List String)
  texts_of_elements [] = ok []
  texts_of_elements (j ∷ js) = do id ← get_text j; ids ← texts_of_elements js; ok (id ∷ ids)

  abbrev fill_level : Option J → Result (Option (List String))
  fill_level none = ok none
  fill_level (some j) = get_nat 32 j >>= λ fill. ok none

  -- The ids that the protocol handler is told to subscribe, if it is called.
  unfoldable pub stream_metainformation_cb :
      List String → String → J → Result (Option (List String))
  unfolding texts_of_elements allowed
  stream_metainformation_cb filter method params =
      if method == "apiVersion"
      then index json params "version" >>= (λ version. ok none)
      else if method == "available"
      then index json params "signalIds" >>= (λ ids.
        texts_of_elements (elements ids) >>= (λ texts. ok (some (allowed filter texts))))
      else if method == "init"
      then ok none
      else if method == "unavailable"
      then index json params "signalIds" >>= (λ ids. ok none)
      else if method == "alive"
      then fill_level (find params "fillLevel")
      else ok none
