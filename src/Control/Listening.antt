-- ===== src/Control/Listening.antt =====
-- Whether the listeners of the control server come to rest.
use streaming_protocol_lt.Base.{ℕ, zero, suc, ◌≡◌, refl, true, List, [], ◌∷◌}
use streaming_protocol_lt.Control.Connection.{
  Listener, on_accept, on_accepts, do_accept, stop_listener,
}

on_accepts-accepting :
    (ecs : List ℕ) (l : Listener) → l.accepting ≡ true → (on_accepts ecs l).accepting ≡ true
unfolding on_accepts on_accept do_accept
on_accepts-accepting [] l h = h
on_accepts-accepting (zero ∷ ecs) l h = rw h (on_accepts-accepting ecs _ refl)
on_accepts-accepting (suc ec ∷ ecs) l h = rw h (on_accepts-accepting ecs _ refl)

-- A listener that accepts and is then stopped has an accept pending after each accept that completes,
-- whatever the errors, since each starts the next one.
pub stop_listener-accepting :
    (ecs : List ℕ) (l : Listener) → (on_accepts ecs (stop_listener (do_accept l))).accepting ≡ true
unfolding stop_listener do_accept
stop_listener-accepting ecs l = on_accepts-accepting ecs (stop_listener (do_accept l)) refl
