-- ===== src/Container/Callbacks.antt =====
-- lib/SignalContainer.cpp: the registration of the callbacks of the application, and what the recorded calls
-- of the container do to an application of state S. Callbacks get the number of the signal in place of it.
use streaming_protocol_lt.Base.{ℕ, ◌≡◌, refl, String, List, [], ◌∷◌, Option, none, some, length}
use streaming_protocol_lt.Base.Result.{ok, fails, Method}
use streaming_protocol_lt.Signal.Measured.{raw, values}
use streaming_protocol_lt.Container.{Call, data_call, meta_call}

abbrev MetaCb : Type 0 → Type 0 → Type 0
MetaCb J S = ℕ → String → J → S → S

-- Signal number, time stamp, bytes, and the number of bytes or values.
abbrev DataCb : Type 0 → Type 0
DataCb S = ℕ → ℕ → List ℕ → ℕ → S → S

pub record Callbacks (J S : Type 0) : Type 0 where
  pub signal_meta : MetaCb J S
  pub data_as_raw : DataCb S
  pub data_as_value : DataCb S

abbrev nop_signal_meta_cb : {J S : Type 0} → MetaCb J S
nop_signal_meta_cb number method params s = s

abbrev nop_data_cb : {S : Type 0} → DataCb S
nop_data_cb number stamp bytes count s = s

abbrev default_callbacks : {J S : Type 0} → Callbacks J S
default_callbacks = record {
  signal_meta = nop_signal_meta_cb;
  data_as_raw = nop_data_cb;
  data_as_value = nop_data_cb;
}

-- An empty function is `none`.
abbrev set_signal_meta_cb : {J S : Type 0} → Option (MetaCb J S) → Method (Callbacks J S) ℕ
set_signal_meta_cb none c = (fails, c)
set_signal_meta_cb (some cb) c = (ok 0, record c { signal_meta = cb })

abbrev set_data_as_raw_cb : {J S : Type 0} → Option (DataCb S) → Method (Callbacks J S) ℕ
set_data_as_raw_cb none c = (fails, c)
set_data_as_raw_cb (some cb) c = (ok 0, record c { data_as_raw = cb })

abbrev set_data_as_value_cb : {J S : Type 0} → Option (DataCb S) → Method (Callbacks J S) ℕ
set_data_as_value_cb none c = (fails, c)
set_data_as_value_cb (some cb) c = (ok 0, record c { data_as_value = cb })

abbrev call_one : {J S : Type 0} → Callbacks J S → Call J → S → S
call_one c (data_call (raw number stamp bytes)) s =
    c.data_as_raw number stamp bytes (length bytes) s
call_one c (data_call (values number stamp bytes count)) s =
    c.data_as_value number stamp bytes count s
call_one c (meta_call number method params) s = c.signal_meta number method params s

-- The recorded calls in their order.
unfoldable call_all : {J S : Type 0} → Callbacks J S → List (Call J) → S → S
call_all c [] s = s
call_all c (call ∷ calls) s = call_all c calls (call_one c call s)

-- Without a registration no call changes the application.
call_all-default_callbacks :
    {J S : Type 0} (calls : List (Call J)) (s : S) → call_all default_callbacks calls s ≡ s
unfolding call_all
call_all-default_callbacks [] s = refl
call_all-default_callbacks (data_call (raw n t b) ∷ calls) s = call_all-default_callbacks calls s
call_all-default_callbacks (data_call (values n t b c) ∷ calls) s =
    call_all-default_callbacks calls s
call_all-default_callbacks (meta_call n m p ∷ calls) s = call_all-default_callbacks calls s

-- The calls that carry the bytes of a packet.
unfoldable raw_calls : {J : Type 0} → List (Call J) → List (Call J)
raw_calls [] = []
raw_calls (data_call (raw n t b) ∷ calls) = data_call (raw n t b) ∷ raw_calls calls
raw_calls (data_call (values n t b c) ∷ calls) = raw_calls calls
raw_calls (meta_call n m p ∷ calls) = raw_calls calls

-- An application that registers for the bytes alone hears these calls alone, whatever it refused before.
call_all-set_data_as_raw_cb :
    {J S : Type 0} (cb : DataCb S) (calls : List (Call J)) (s : S)
    → let c = (set_data_as_raw_cb (some cb) (set_signal_meta_cb none default_callbacks).1).1 in
      call_all c calls s ≡ call_all c (raw_calls calls) s
unfolding call_all raw_calls
call_all-set_data_as_raw_cb cb [] s = refl
call_all-set_data_as_raw_cb cb (data_call (raw n t b) ∷ calls) s =
    call_all-set_data_as_raw_cb cb calls (cb n t b (length b) s)
call_all-set_data_as_raw_cb cb (data_call (values n t b c) ∷ calls) s =
    call_all-set_data_as_raw_cb cb calls s
call_all-set_data_as_raw_cb cb (meta_call n m p ∷ calls) s = call_all-set_data_as_raw_cb cb calls s
