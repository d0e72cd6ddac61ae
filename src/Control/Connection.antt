-- ===== src/Control/Connection.antt =====
-- The connections and listeners of lib/ControlServer.cpp. The completions of the asynchronous
-- operations come in as arguments; whether a response ends the connection (`need_eof`) is the
-- library's to say.
use streaming_protocol_lt.Base.{
  ℕ, zero, suc, Bool, true, false, List, [], ◌∷◌, ◌++◌, Option, none, some, if◌then◌else◌,
}
use streaming_protocol_lt.Base.Result.{Result, ok, fails, throws, aborts, runtime_error}
use streaming_protocol_lt.Control.Requests.{Request, Response, CommandCall, Handled}

pub data Waiting : Type 0 where
  for_request : Waiting
  for_write : Bool → Waiting
  for_nothing : Waiting

-- One connection; `response` is the one that is being written.
pub record Connection : Type 0 where
  pub waiting : Waiting
  pub response : Option Response
  pub shut_down : Bool
  pub sent : List Response
  pub calls : List CommandCall

pub data ReadEnd : Type 0 where
  end_of_stream : ReadEnd
  read_error : ReadEnd
  request_read : Request → ReadEnd

unfoldable pub do_read : Connection → Connection
do_read c = record c { waiting = for_request }

unfoldable pub run : Connection
unfolding do_read
run =
    do_read
      (record { waiting = for_nothing; response = none; shut_down = false; sent = []; calls = [] })

unfoldable pub do_close : Connection → Connection
do_close c = record c { waiting = for_nothing; shut_down = true }

module _ (need_eof : Response → Bool) (handle : Request → Handled) where
  unfoldable pub send : Response → List CommandCall → Connection → Connection
  send r calls c = record c {
    waiting = for_write (need_eof r);
    response = some r;
    sent = c.sent ++ r ∷ [];
    calls = c.calls ++ calls;
  }

  -- What `handle_request` throws is not caught here.
  abbrev pub respond : Handled → Connection → Result Connection
  respond (ok (r, calls)) c = ok (send r calls c)
  respond fails c = fails
  respond (throws e) c = throws e
  respond aborts c = aborts

  unfoldable pub on_read : ReadEnd → Connection → Result Connection
  unfolding do_close send
  on_read end_of_stream c = ok (do_close c)
  on_read read_error c = ok (record c { waiting = for_nothing })
  on_read (request_read req) c = respond (handle req) c

unfoldable pub on_write : Bool → ℕ → Connection → Connection
unfolding do_close do_read
on_write close (suc ec) c = record c { waiting = for_nothing }
on_write true zero c = do_close c
on_write false zero c = do_read (record c { response = none })

-- The errors that the calls of the listener's constructor give.
pub record SetUp : Type 0 where
  pub open_error : ℕ
  pub v6_only_error : ℕ
  pub reuse_error : ℕ
  pub bind_error : ℕ
  pub listen_error : ℕ

pub record Listener : Type 0 where
  pub is_open : Bool
  pub accepting : Bool
  pub connections : ℕ

-- An error throws.
abbrev check : ℕ → Result Listener → Result Listener
check zero r = r
check (suc ec) r = throws runtime_error

-- Only IPv6 is set to be alone.
unfoldable pub new_listener : Bool → SetUp → Result Listener
new_listener is_v6 e = check e.open_error (
    check (if is_v6 then e.v6_only_error else 0) (
      check e.reuse_error (
        check e.bind_error (
          check e.listen_error
            (ok (record { is_open = true; accepting = false; connections = 0 }))))))

unfoldable pub do_accept : Listener → Listener
do_accept l = record l { accepting = true }

-- An error of the close is logged.
unfoldable pub stop_listener : Listener → Listener
stop_listener l = record l { is_open = false }

-- A connection is run, an error is logged, and in both cases the next accept is started.
unfoldable pub on_accept : ℕ → Listener → Listener
unfolding do_accept
on_accept zero l = do_accept (record l { connections = suc l.connections })
on_accept (suc ec) l = do_accept l

-- The accept that was pending is no longer.
abbrev completed : Listener → Listener
completed l = record l { accepting = false }

-- Accepts complete one after the other, as long as one is pending.
unfoldable pub on_accepts : List ℕ → Listener → Listener
unfolding on_accept
on_accepts [] l = l
on_accepts (ec ∷ ecs) l =
    let next = on_accepts ecs (on_accept ec (completed l)) in if l.accepting then next else l

pub record ControlServer : Type 0 where
  pub listener_v4 : Option Listener
  pub listener_v6 : Option Listener

-- A listener that cannot be made is logged and left out.
abbrev try_listener : Option Listener → Result Listener → Option Listener
try_listener old (ok l) = some (do_accept l)
try_listener old fails = old
try_listener old (throws e) = old
try_listener old aborts = old

unfoldable pub start : SetUp → SetUp → ControlServer → ControlServer
unfolding new_listener do_accept
start v4 v6 s = record {
  listener_v4 = try_listener s.listener_v4 (new_listener false v4);
  listener_v6 = try_listener s.listener_v6 (new_listener true v6);
}

abbrev stop_if_there : Option Listener → Option Listener
stop_if_there none = none
stop_if_there (some l) = some (stop_listener l)

unfoldable pub stop : ControlServer → ControlServer
unfolding stop_listener
stop s = record {
  listener_v4 = stop_if_there s.listener_v4;
  listener_v6 = stop_if_there s.listener_v6;
}
