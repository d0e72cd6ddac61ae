-- ===== src/Session/Announced.antt =====
-- Which signals a client knows after any sequence of calls on its session.
use streaming_protocol_lt.Base.{
  String, ◌≡◌, refl, sym, ap, ◌∙◌, Bool, true, false, not, ◌&&◌, List, [], ◌∷◌, ◌++◌, some,
  if◌then◌else◌, eq_iff, arith, Option-cases, inl, inr,
}
use streaming_protocol_lt.Json.{Json}
use streaming_protocol_lt.Container.Maps.{find_text, put_text}
use streaming_protocol_lt.Producer.{Written, write_subscribe, write_unsubscribe}
use streaming_protocol_lt.Session.{
  ProducerSignal, ProducerSession, Call, add, add_all, take_away, subscribe, unsubscribe, perform,
  run, new_session, put_out, data_ids, remove_loop, insert_signals, announce, write_available,
  write_unavailable, call_signals, add_signal, add_signals, remove_signals, subscribe_signals,
  unsubscribe_signals,
}
use streaming_protocol_lt.Session.View.{
  listed, all_numbered, view, view-append, view-initial, view-numbered, view-available,
  view-unavailable, listed-append, listed-without,
}
use streaming_protocol_lt.Session.Ids.{
  suits, all_suit, has_id, fits, all_fit, good, same, good-put_text, has_id-put_text,
}
use streaming_protocol_lt.Session.Loops.{
  has_id-insert_signals, good-insert_signals, listed-data_ids, good-remove_loop, has_id-remove_loop,
  listed-remove_loop,
}

module _ {J R : Type 0} (json : Json J R) where
  -- Announcing a list of ids, the empty one included.
  view-announce_available :
      (ids known : List String)
      → view json (announce (write_available json) ids) known ≡ ids ++ known
  unfolding view
  view-announce_available [] known = refl
  view-announce_available (id ∷ ids) known = view-available json id ids known

  listed-announce_unavailable :
      (i : String) (ids known : List String)
      → listed i (view json (announce (write_unavailable json) ids) known)
        ≡ (listed i known && not (listed i ids))
  unfolding view listed
  listed-announce_unavailable i [] known = ground arith
  listed-announce_unavailable i (id ∷ ids) known =
      ap (listed i) (view-unavailable json id ids known) ∙ listed-without i (id ∷ ids) known

  unfoldable pub known_ids : ProducerSession J → List String
  unfolding view
  known_ids s = view json s.written []

  view-put_out :
      (w : Written J) (s : ProducerSession J) → known_ids (put_out w s) ≡ view json w (known_ids s)
  unfolding known_ids put_out
  view-put_out w s = view-append json s.written w []

  known_ids-add :
      (b : Bool) (id : String) (s : ProducerSession J)
      → known_ids (if b then put_out (write_available json (id ∷ [])) s else s)
        ≡ (if b then id ∷ known_ids s else known_ids s)
  unfolding known_ids
  known_ids-add true id s =
      view-put_out (write_available json (id ∷ [])) s ∙ view-available json id [] (known_ids s)
  known_ids-add false id s = refl

  signals-add :
      (b : Bool) (id : String) (s : ProducerSession J)
      → (if b then put_out (write_available json (id ∷ [])) s else s).signals ≡ s.signals
  unfolding put_out
  signals-add true id s = refl
  signals-add false id s = refl

  -- The client knows the data signals of the session, and the session has fitting signals only.
  module _ (kind : String → Bool) where
    record InStep (s : ProducerSession J) : Type 0 where
      known : (i : String) → listed i (known_ids s) ≡ (kind i && has_id i s.signals)
      fitting : (i : String) → good kind i s.signals ≡ true

    listed-added :
        (i : String) (v : ProducerSignal J) (known : List String)
        (m : List (String × ProducerSignal J))
        → fits kind v.base.signal_id v ≡ true
        → listed i known ≡ (kind i && has_id i m)
        → listed i (if v.is_data_signal then v.base.signal_id ∷ known else known)
          ≡ (kind i && has_id i (put_text v.base.signal_id v m))
    unfolding listed fits same
    listed-added i v known m h e =
        ground (arith, h, e, has_id-put_text i v.base.signal_id v m, eq_iff i v.base.signal_id)

    add_signal-InStep :
        (v : ProducerSignal J) (s : ProducerSession J)
        → fits kind v.base.signal_id v ≡ true
        → InStep s
        → InStep (add_signal json v s)
    unfolding add_signal known_ids
    add_signal-InStep v s h p =
        let id : String = v.base.signal_id in
        let s' : ProducerSession J = record s { signals = put_text id v s.signals } in
        record {
          known = λ i.
              ap (listed i) (known_ids-add v.is_data_signal id s')
              ∙ listed-added i v (known_ids s) s.signals h (p.known i)
              ∙ ap (λ m. kind i && has_id i m) (sym (signals-add v.is_data_signal id s'));
          fitting = λ i.
              ap (good kind i) (signals-add v.is_data_signal id s')
              ∙ good-put_text kind i id v s.signals h (p.fitting i);
        }

    add_signals-InStep :
        (new : List (String × ProducerSignal J)) (s : ProducerSession J)
        → all_fit kind new ≡ true
        → InStep s
        → InStep (add_signals json new s)
    unfolding add_signals put_out known_ids
    add_signals-InStep new s h p = record {
      known = λ i.
          ap (listed i) (
            view-put_out (announce (write_available json) (data_ids new))
              (record s { signals = insert_signals new s.signals })
            ∙ view-announce_available (data_ids new) (known_ids s))
          ∙ listed-append i (data_ids new) (known_ids s)
          ∙ ground (
            arith,
            listed-data_ids kind i new h,
            p.known i,
            has_id-insert_signals i new s.signals,
          );
      fitting = λ i. good-insert_signals kind i new s.signals h (p.fitting i);
    }

    remove_signals-InStep :
        (ids : List String) (s : ProducerSession J)
        → InStep s
        → InStep (remove_signals json ids s).1
    unfolding remove_signals put_out known_ids
    remove_signals-InStep ids s p = record {
      known = λ i.
          let (count, removed, rest) = remove_loop ids s.signals in
          ap (listed i)
            (view-put_out (announce (write_unavailable json) removed) (record s { signals = rest }))
          ∙ listed-announce_unavailable i removed (known_ids s)
          ∙ ground (
            arith,
            listed-remove_loop kind i ids s.signals p.fitting,
            p.known i,
            has_id-remove_loop i ids s.signals,
          );
      fitting = λ i. good-remove_loop kind i ids s.signals (p.fitting i);
    }

    fits-found :
        (i : String) (v : ProducerSignal J) (m : List (String × ProducerSignal J))
        → find_text i m ≡ some v
        → good kind i m ≡ true
        → fits kind i v ≡ true
    unfolding good
    fits-found i v m e g = ground (arith, e, g)

    -- Numbered meta information tells nothing of the signals that are there.
    put_out-InStep :
        (w : Written J) (s : ProducerSession J)
        → all_numbered w ≡ true
        → InStep s
        → InStep (put_out w s)
    unfolding put_out
    put_out-InStep w s h p = record {
      known =
          λ i. ap (listed i) (view-put_out w s ∙ view-numbered json w (known_ids s) h) ∙ p.known i;
      fitting = p.fitting;
    }

    call_signals-InStep :
        (f : ProducerSignal J → Written J) (ids : List String) (s : ProducerSession J)
        → ((i : String) (v : ProducerSignal J) → fits kind i v ≡ true → all_numbered (f v) ≡ true)
        → InStep s
        → InStep (call_signals f ids s).1
    unfolding call_signals
    call_signals-InStep f [] s q p = p
    call_signals-InStep f (id ∷ ids) s q p = elim (Option-cases (find_text id s.signals)) [
      | inl e ↦ rw (call_signals, e) (call_signals-InStep f ids s q p)
      | inr (v, e) ↦
          rw (call_signals, e)
            (call_signals-InStep f ids (put_out (f v) s) q
              (put_out-InStep (f v) s (q id v (fits-found id v s.signals e (p.fitting id))) p))
    ]

    subscribe-numbered :
        (i : String) (v : ProducerSignal J)
        → fits kind i v ≡ true
        → all_numbered (write_subscribe json v.base v.description) ≡ true
    unfolding fits all_numbered write_subscribe
    subscribe-numbered i v h = ground (arith, h)

    unsubscribe-numbered :
        (i : String) (v : ProducerSignal J)
        → fits kind i v ≡ true
        → all_numbered (write_unsubscribe json v.base) ≡ true
    unfolding fits all_numbered write_unsubscribe
    unsubscribe-numbered i v h = ground (arith, h)

    perform-InStep :
        (c : Call J) (s : ProducerSession J)
        → suits kind c ≡ true
        → InStep s
        → InStep (perform json c s)
    unfolding suits perform subscribe_signals unsubscribe_signals
    perform-InStep (add v) s h p = add_signal-InStep v s h p
    perform-InStep (add_all new) s h p = add_signals-InStep new s h p
    perform-InStep (take_away ids) s h p = remove_signals-InStep ids s p
    perform-InStep (subscribe ids) s h p = call_signals-InStep _ ids s subscribe-numbered p
    perform-InStep (unsubscribe ids) s h p = call_signals-InStep _ ids s unsubscribe-numbered p

    run-InStep :
        (cs : List (Call J)) (s : ProducerSession J)
        → all_suit kind cs ≡ true
        → InStep s
        → InStep (run json cs s)
    unfolding run all_suit
    run-InStep [] s h p = p
    run-InStep (c ∷ cs) s h p =
        run-InStep cs (perform json c s) (ground (arith, h))
          (perform-InStep c s (ground (arith, h)) p)

    new_session-InStep :
        (stream_id : String) (interfaces : J) → InStep (new_session json stream_id interfaces)
    unfolding new_session known_ids has_id good find_text listed
    new_session-InStep stream_id interfaces = record {
      known = λ i. ap (listed i) (view-initial json stream_id interfaces []) ∙ ground (arith);
      fitting = λ i. refl;
    }

    -- After any calls of its session a client knows exactly the ids of the data signals that are
    -- there, if the signals of one id are always of the same kind and no signal has the number 0.
    pub listed-known_ids :
        (stream_id : String) (interfaces : J) (cs : List (Call J)) (i : String)
        → all_suit kind cs ≡ true
        → listed i (known_ids (run json cs (new_session json stream_id interfaces)))
          ≡ (kind i && has_id i (run json cs (new_session json stream_id interfaces)).signals)
    listed-known_ids stream_id interfaces cs i h =
        (run-InStep cs _ h (new_session-InStep stream_id interfaces)).known i
