-- ===== src/Session/Loops.antt =====
-- What the loops over the signals of a session leave, and which ids they announce.
use streaming_protocol_lt.Base.{
  String, ◌≡◌, refl, Bool, true, false, not, ◌&&◌, ◌||◌, List, [], ◌∷◌, none, some, ◌==◌, eq_iff,
  arith, Option-cases, inl, inr,
}
use streaming_protocol_lt.Container.Maps.{find_text, put_text, erase_text, find_text-put_text}
use streaming_protocol_lt.Session.{ProducerSignal, insert_signals, data_ids, remove_loop}
use streaming_protocol_lt.Session.View.{listed}
use streaming_protocol_lt.Session.Ids.{
  has_id, same, fits, all_fit, good, has_id-erase_text, good-put_text, good-erase_text,
}

module _ {J : Type 0} where
  absent :
      (i k : String) (m : List (String × ProducerSignal J))
      → find_text k m ≡ none
      → i == k ≡ true
      → has_id i m ≡ false
  unfolding has_id
  absent i k m e b = ground (arith, eq_iff i k, e, b)

  present :
      (kind : String → Bool) (i k : String) (m : List (String × ProducerSignal J))
      (v : ProducerSignal J)
      → find_text k m ≡ some v
      → good kind k m ≡ true
      → i == k ≡ true
      → (has_id i m ≡ true) × (kind i ≡ v.is_data_signal)
  unfolding has_id good fits same
  present kind i k m v e g b = ground (arith, eq_iff i k, e, b, g)

  pub has_id-insert_signals :
      (i : String) (new m : List (String × ProducerSignal J))
      → has_id i (insert_signals new m) ≡ (has_id i new || has_id i m)
  unfolding insert_signals has_id find_text
  has_id-insert_signals i [] m = refl
  has_id-insert_signals i ((k, v) ∷ new) m = elim (Option-cases (find_text k m)) [
    | inl e ↦ rw e (
        ground (
          arith,
          eq_iff k i,
          has_id-insert_signals i new (put_text k v m),
          find_text-put_text k i v m,
        ))
    | inr (w, e) ↦ rw e (ground (arith, eq_iff k i, e, has_id-insert_signals i new m))
  ]

  module _ (kind : String → Bool) where
    pub good-insert_signals :
        (i : String) (new m : List (String × ProducerSignal J))
        → all_fit kind new ≡ true
        → good kind i m ≡ true
        → good kind i (insert_signals new m) ≡ true
    unfolding insert_signals all_fit
    good-insert_signals i [] m h g = g
    good-insert_signals i ((k, v) ∷ new) m h g = elim (Option-cases (find_text k m)) [
      | inl e ↦ rw e (
          ground
            (arith, h, good-insert_signals i new (put_text k v m), good-put_text kind i k v m, g))
      | inr (w, e) ↦ rw e (ground (arith, h, good-insert_signals i new m, g))
    ]

    pub listed-data_ids :
        (i : String) (new : List (String × ProducerSignal J))
        → all_fit kind new ≡ true
        → listed i (data_ids new) ≡ (kind i && has_id i new)
    unfolding data_ids listed has_id all_fit fits same find_text
    listed-data_ids i [] h = ground (arith)
    listed-data_ids i ((k, v) ∷ new) h =
        ground (arith, eq_iff i k, eq_iff k i, listed-data_ids i new, h)

    pub good-remove_loop :
        (i : String) (ids : List String) (m : List (String × ProducerSignal J))
        → good kind i m ≡ true
        → good kind i (remove_loop ids m).2 ≡ true
    unfolding remove_loop
    good-remove_loop i [] m g = g
    good-remove_loop i (id ∷ ids) m g = elim (Option-cases (find_text id m)) [
      | inl e ↦ rw (remove_loop, e) (good-remove_loop i ids m g)
      | inr (v, e) ↦
          rw (remove_loop, e)
            (good-remove_loop i ids (erase_text id m) (good-erase_text kind i id m g))
    ]

  pub has_id-remove_loop :
      (i : String) (ids : List String) (m : List (String × ProducerSignal J))
      → has_id i (remove_loop ids m).2 ≡ (has_id i m && not (listed i ids))
  unfolding remove_loop listed
  has_id-remove_loop i [] m = ground arith
  has_id-remove_loop i (id ∷ ids) m = elim (Option-cases (find_text id m)) [
    | inl e ↦ rw (remove_loop, e) (ground (arith, has_id-remove_loop i ids m, absent i id m, e))
    | inr (v, e) ↦
        rw (remove_loop, e)
          (ground (arith, has_id-remove_loop i ids (erase_text id m), has_id-erase_text i id m))
  ]

  module _ (kind : String → Bool) where
    -- The announced ids are those of the data signals that were there.
    pub listed-remove_loop :
        (i : String) (ids : List String) (m : List (String × ProducerSignal J))
        → ((j : String) → good kind j m ≡ true)
        → listed i (remove_loop ids m).1 ≡ (kind i && has_id i m && listed i ids)
    unfolding remove_loop listed
    listed-remove_loop i [] m g = ground arith
    listed-remove_loop i (id ∷ ids) m g = elim (Option-cases (find_text id m)) [
      | inl e ↦ rw (remove_loop, e) (ground (arith, listed-remove_loop i ids m g, absent i id m, e))
      | inr (v, e) ↦
          rw (remove_loop, e)
            (ground (
              arith,
              listed-remove_loop i ids (erase_text id m) (λ j. good-erase_text kind j id m (g j)),
              has_id-erase_text i id m,
              present kind i id m v e (g id),
            ))
    ]
