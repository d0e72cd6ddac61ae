-- ===== src/Client/Mirror.antt =====
-- The example client's list of signals beside the container whose callback it is.
use streaming_protocol_lt.Base.{ℕ, ◌≡◌, sym, ap, ◌∙◌, String, true, [], ◌∷◌, ◌++◌, ◌==◌, eq_iff}
use streaming_protocol_lt.Base.Result.{ok}
use streaming_protocol_lt.Real.{Real}
use streaming_protocol_lt.Json.{Json}
use streaming_protocol_lt.Meta.{MetaInformation, params}
use streaming_protocol_lt.Container.{SignalContainer, meta_call}
use streaming_protocol_lt.Container.Meta.{process_metainformation}
use streaming_protocol_lt.Container.Invariant.{IsWellFormed}
use streaming_protocol_lt.Client.{Client, signal_meta_cb}
use streaming_protocol_lt.Client.Numbers.{
  changed, has_number, signal_meta_cb_returns, has_number-signal_meta_cb,
}
use streaming_protocol_lt.Client.Accepted.{IsAccepted, process-IsAccepted}

module _ {J R : Type 0} (json : Json J R) (real : Real R) where
  -- The client has the numbers that the container has.
  abbrev pub Mirrors : SignalContainer J R → Client R → Type 0
  Mirrors c client = (n : ℕ) → has_number n c.signals ≡ has_number n client.signal_infos

  -- When the container accepts meta information for a signal, its one call of the callback of a client that
  -- has the numbers of the container returns, and afterwards the client has its numbers again.
  pub process_metainformation-Mirrors :
      (number : ℕ) (meta : MetaInformation J) (c : SignalContainer J R) (client : Client R)
      (id : String) (now : ℕ)
      → IsWellFormed c
      → Mirrors c client
      → (process_metainformation json real number meta c).0 ≡ ok tt
      → let c' = (process_metainformation json real number meta c).1 in
        (m : String) × (c'.calls ≡ c.calls ++ meta_call number m (params json meta) ∷ [])
        × ((signal_meta_cb number id now m client).0 ≡ ok tt)
        × Mirrors c' (signal_meta_cb number id now m client).1
  process_metainformation-Mirrors number meta c client id now w mirrors h =
      let a = process-IsAccepted json real number meta c w h in
      (
        a.name,
        a.calls,
        signal_meta_cb_returns number id now a.name client (there a),
        λ n.
            a.there n
            ∙ ap (changed a.name number n) (mirrors n)
            ∙ sym (has_number-signal_meta_cb number id now a.name client n (there a)),
      )
    where
      there :
          (a : IsAccepted json real number meta c
            (process_metainformation json real number meta c).1)
          → a.name == "unsubscribe" ≡ true
          → has_number number client.signal_infos ≡ true
      there a u =
          sym (mirrors number)
          ∙ a.known (ap (λ k. k == "subscribe") ((eq_iff a.name "unsubscribe").0 u))
