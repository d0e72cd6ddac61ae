-- ===== src/Session/Ids.antt =====
-- The maps of signals that a session's operations leave: which ids are there, and of which kind.
use streaming_protocol_lt.Base.{
  String, ◌≡◌, Bool, true, false, not, ◌&&◌, ◌||◌, List, [], ◌∷◌, Option, none, some, eqb, ◌==◌,
  eq_iff, arith,
}
use streaming_protocol_lt.Container.Maps.{
  find_text, put_text, erase_text, find_text-put_text, find_text-erase_text,
}
use streaming_protocol_lt.Session.{
  ProducerSignal, Call, add, add_all, take_away, subscribe, unsubscribe,
}
use streaming_protocol_lt.Session.View.{all_numbered}

unfoldable pub same : Bool → Bool → Bool
same true b = b
same false b = not b

module _ {J : Type 0} where
  abbrev is_there : Option (ProducerSignal J) → Bool
  is_there none = false
  is_there (some v) = true

  unfoldable pub has_id : String → List (String × ProducerSignal J) → Bool
  has_id i m = is_there (find_text i m)

  pub has_id-put_text :
      (i k : String) (v : ProducerSignal J) (m : List (String × ProducerSignal J))
      → has_id i (put_text k v m) ≡ (i == k || has_id i m)
  unfolding has_id
  has_id-put_text i k v m = ground (arith, eq_iff k i, eq_iff i k, find_text-put_text k i v m)

  pub has_id-erase_text :
      (i k : String) (m : List (String × ProducerSignal J))
      → has_id i (erase_text k m) ≡ (has_id i m && not (i == k))
  unfolding has_id
  has_id-erase_text i k m = ground (arith, eq_iff k i, eq_iff i k, find_text-erase_text k i m)

-- The ids of data signals are those of a fixed kind.
module _ {J : Type 0} (kind : String → Bool) where
  -- The signal has the kind of its id, and writes on signal numbers that are not 0 only.
  unfoldable pub fits : String → ProducerSignal J → Bool
  unfolding all_numbered same
  fits i v =
      same v.is_data_signal (kind i)
      && not (eqb v.base.signal_number 0)
      && all_numbered v.description

  unfoldable pub all_fit : List (String × ProducerSignal J) → Bool
  unfolding fits
  all_fit [] = true
  all_fit ((k, v) ∷ m) = fits k v && all_fit m

  -- The signals that a call brings in fit.
  unfoldable pub suits : Call J → Bool
  unfolding fits all_fit
  suits (add v) = fits v.base.signal_id v
  suits (add_all new) = all_fit new
  suits (take_away ids) = true
  suits (subscribe ids) = true
  suits (unsubscribe ids) = true

  unfoldable pub all_suit : List (Call J) → Bool
  unfolding suits
  all_suit [] = true
  all_suit (c ∷ cs) = suits c && all_suit cs

  abbrev fits_if_there : String → Option (ProducerSignal J) → Bool
  fits_if_there i none = true
  fits_if_there i (some v) = fits i v

  unfoldable pub good : String → List (String × ProducerSignal J) → Bool
  unfolding fits
  good i m = fits_if_there i (find_text i m)

  pub good-put_text :
      (i k : String) (v : ProducerSignal J) (m : List (String × ProducerSignal J))
      → fits k v ≡ true
      → good i m ≡ true
      → good i (put_text k v m) ≡ true
  unfolding good
  good-put_text i k v m h g = ground (arith, h, g, eq_iff k i, find_text-put_text k i v m)

  pub good-erase_text :
      (i k : String) (m : List (String × ProducerSignal J))
      → good i m ≡ true
      → good i (erase_text k m) ≡ true
  unfolding good
  good-erase_text i k m g = ground (arith, g, eq_iff k i, find_text-erase_text k i m)
