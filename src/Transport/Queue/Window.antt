-- ===== src/Transport/Queue/Window.antt =====
-- A bounded queue is a window on the messages that passed the filter.
use visio_schema.Common.{
  ℕ, suc, ◌+◌, ◌-◌, ◌≤◌, ◌≡◌, ◌≢◌, refl, sym, ap, ◌∙◌, if◌then◌else◌, leb, true, false, List, [],
  ◌∷◌, ◌++◌, Option, none, some, length, drop, arith, append-nil, List-cases, append_assoc,
  Bool-cases, inl, inr, length-append, length-drop, drop-drop, drop-append_le,
}
use visio_schema.Wire.Message.{Message}
use visio_schema.Transport.Queue.{
  pop_from_empty, Call, put, drain, run, QueueEndpoint, filtered_out, shed, make_room,
  append_unless, send, send_all, pop_all, pop_batch, wait_if_empty,
}

module _ {T : Type 0} where
  -- The messages that the filter lets through.
  unfoldable pub admitted : Option ℕ → List (Message T) → List (Message T)
  admitted filter [] = []
  admitted filter (m ∷ ms) =
      let rest = admitted filter ms in if filtered_out filter m then rest else m ∷ rest

  shed-drop :
      (d : ℕ) (queue : List (Message T)) (dropped : ℕ)
      → shed (suc d) queue dropped
        ≡ (drop (length queue - d) queue, dropped + (length queue - d), none)
  unfolding shed
  shed-drop d [] dropped = ground arith
  shed-drop d (m ∷ queue) dropped = elim (Bool-cases (leb (suc d) (length (m ∷ queue)))) [
    | inl full ↦
        let shorter : length (m ∷ queue) - d ≡ suc (length queue - d) = ground (arith) in
        rw (full, shed, shorter)
          (shed-drop d queue (dropped + 1)
            ∙ ap (λ (k : ℕ). (drop (length queue - d) queue, k, none)) (omega arith))
    | inr room ↦
        let fits : length (m ∷ queue) - d ≡ 0 = ground (arith) in
        rw (room, shed, fits) (ground arith)
  ]

  shed-zero :
      (queue : List (Message T)) (dropped : ℕ)
      → shed 0 queue dropped ≡ ([], dropped + length queue, some pop_from_empty)
  unfolding shed
  shed-zero [] dropped = ground arith
  shed-zero (m ∷ queue) dropped = ground (arith, shed-zero queue (dropped + 1))

  -- The freshest n of a list, and how many are left out.
  abbrev pub freshest : ℕ → List (Message T) → List (Message T)
  freshest n xs = drop (length xs - n) xs

  freshest-append_one :
      (d : ℕ) (queue : List (Message T)) (m : Message T)
      → drop (length queue - d) queue ++ m ∷ [] ≡ freshest (suc d) (queue ++ m ∷ [])
  freshest-append_one d queue m =
      let counted : length (queue ++ m ∷ []) - suc d ≡ length queue - d =
        omega (arith, length-append queue (m ∷ [])) in
      rw counted (sym (drop-append_le (length queue - d) queue (m ∷ []) (omega arith)))

  -- A window of a window.
  freshest-append :
      (n : ℕ) (xs ys : List (Message T)) → freshest n (freshest n xs ++ ys) ≡ freshest n (xs ++ ys)
  freshest-append n xs ys =
      let left : ℕ = length xs - n in
      let joined : freshest n xs ++ ys ≡ drop left (xs ++ ys) =
        sym (drop-append_le left xs ys (omega arith)) in
      let counted : left + (length (drop left (xs ++ ys)) - n) ≡ length (xs ++ ys) - n =
        omega (arith, length-append xs ys, length-drop left (xs ++ ys)) in
      rw (joined, drop-drop, counted) refl

  length-freshest_append :
      (n : ℕ) (xs ys : List (Message T))
      → (length xs - n) + (length (freshest n xs ++ ys) - n) ≡ length (xs ++ ys) - n
  length-freshest_append n xs ys =
      omega (
        arith,
        length-append xs ys,
        length-append (freshest n xs) ys,
        length-drop (length xs - n) xs,
      )

  send-admitted :
      (e : QueueEndpoint T) (d : ℕ) (m : Message T)
      → e.max_depth ≡ some (suc d)
      → filtered_out e.filter m ≡ false
      → send e m ≡ (
        record e {
          queue = freshest (suc d) (e.queue ++ m ∷ []);
          dropped = e.dropped + (length (e.queue ++ m ∷ []) - suc d);
        },
        none,
      )
  unfolding send make_room append_unless
  send-admitted e d m bounded passes =
      let counted : length (e.queue ++ m ∷ []) - suc d ≡ length e.queue - d =
        omega (arith, length-append e.queue (m ∷ [])) in
      rw (passes, bounded, shed-drop d e.queue e.dropped, freshest-append_one d e.queue m, counted)
        refl

  send-filtered :
      (e : QueueEndpoint T) (m : Message T) → filtered_out e.filter m ≡ true → send e m ≡ (e, none)
  unfolding send
  send-filtered e m out = rw out refl

  -- A queue bounded by a positive depth holds the freshest of the messages that the filter let
  -- through since it was empty, in order, and `dropped` counts the others.
  pub send_all-window :
      (e : QueueEndpoint T) (d : ℕ) (ms : List (Message T))
      → e.max_depth ≡ some (suc d)
      → length e.queue ≤ suc d
      → send_all e ms ≡ record e {
        queue = freshest (suc d) (e.queue ++ admitted e.filter ms);
        dropped = e.dropped + (length (e.queue ++ admitted e.filter ms) - suc d);
      }
  unfolding send_all admitted
  send_all-window e d [] bounded small =
      let whole : length e.queue - suc d ≡ 0 = omega arith in
      rw (append-nil e.queue, whole) (ground arith)
  send_all-window e d (m ∷ ms) bounded small = elim (Bool-cases (filtered_out e.filter m)) [
    | inl out ↦ rw (out, send-filtered e m out) (send_all-window e d ms bounded small)
    | inr passes ↦
        let queue : List (Message T) = e.queue ++ m ∷ [] in
        let sent : QueueEndpoint T = record e {
          queue = freshest (suc d) queue;
          dropped = e.dropped + (length queue - suc d);
        } in
        let bound : length (freshest (suc d) queue) ≤ suc d =
          omega (arith, length-drop (length queue - suc d) queue) in
        let ih = send_all-window sent d ms bounded bound in
        let rest : List (Message T) = admitted e.filter ms in
        let joined : queue ++ rest ≡ e.queue ++ m ∷ rest = append_assoc e.queue (m ∷ []) rest in
        let window : freshest (suc d) (freshest (suc d) queue ++ rest)
            ≡ freshest (suc d) (e.queue ++ m ∷ rest) =
          freshest-append (suc d) queue rest ∙ ap (freshest (suc d)) joined in
        let count : e.dropped
              + (length queue - suc d)
              + (length (freshest (suc d) queue ++ rest) - suc d)
            ≡ e.dropped + (length (e.queue ++ m ∷ rest) - suc d) =
          omega (arith, length-freshest_append (suc d) queue rest, ap length joined) in
        rw (passes, send-admitted e d m bounded passes) (ih ∙ cc)
  ]

  -- A send to a queue of depth 0 that passes the filter empties the queue and raises IndexError.
  pub send-zero_depth :
      (e : QueueEndpoint T) (m : Message T)
      → e.max_depth ≡ some 0
      → filtered_out e.filter m ≡ false
      → send e m
        ≡ (record e { queue = []; dropped = e.dropped + length e.queue }, some pop_from_empty)
  unfolding send make_room append_unless
  send-zero_depth e m bounded passes = rw (passes, bounded, shed-zero e.queue e.dropped) refl

  send-unbounded :
      (e : QueueEndpoint T) (m : Message T)
      → e.max_depth ≡ none
      → filtered_out e.filter m ≡ false
      → send e m ≡ (record e { queue = e.queue ++ m ∷ [] }, none)
  unfolding send make_room append_unless
  send-unbounded e m unbounded passes = rw (passes, unbounded) refl

  unfoldable pub sent_by : List (Call T) → List (Message T)
  sent_by [] = []
  sent_by (put m ∷ calls) = m ∷ sent_by calls
  sent_by (drain ∷ calls) = sent_by calls

  -- Whatever the order of the sends and the drains, the consumer of an unbounded queue has
  -- received, and the queue still holds, exactly what the filter let through: nothing is lost,
  -- duplicated or reordered, and nothing is dropped.
  pub run-unbounded :
      (e : QueueEndpoint T) (calls : List (Call T))
      → e.max_depth ≡ none
      → ((run e calls).0 ++ (run e calls).1.queue ≡ e.queue ++ admitted e.filter (sent_by calls))
        × ((run e calls).1.dropped ≡ e.dropped)
  unfolding run pop_all admitted sent_by
  run-unbounded e [] unbounded = (sym (append-nil e.queue), refl)
  run-unbounded e (drain ∷ calls) unbounded =
      let (all, dropped) = run-unbounded (record e { queue = [] }) calls unbounded in
      (append_assoc e.queue _ _ ∙ ap (λ xs. e.queue ++ xs) all, dropped)
  run-unbounded e (put m ∷ calls) unbounded = elim (Bool-cases (filtered_out e.filter m)) [
    | inl out ↦ rw (out, run, send-filtered e m out) (run-unbounded e calls unbounded)
    | inr passes ↦
        let (all, dropped) =
          run-unbounded (record e { queue = e.queue ++ m ∷ [] }) calls unbounded in
        rw (passes, run, send-unbounded e m unbounded passes)
          (all ∙ append_assoc e.queue (m ∷ []) _, dropped)
  ]

  send_all-unbounded :
      (e : QueueEndpoint T) (ms : List (Message T))
      → e.max_depth ≡ none
      → send_all e ms ≡ record e { queue = e.queue ++ admitted e.filter ms }
  unfolding send_all admitted
  send_all-unbounded e [] unbounded = rw (append-nil e.queue) refl
  send_all-unbounded e (m ∷ ms) unbounded = elim (Bool-cases (filtered_out e.filter m)) [
    | inl out ↦ rw (out, send_all, send-filtered e m out) (send_all-unbounded e ms unbounded)
    | inr passes ↦
        rw (passes, send_all, send-unbounded e m unbounded passes)
          (send_all-unbounded (record e { queue = e.queue ++ m ∷ [] }) ms unbounded
            ∙ ap (λ xs. record e { queue = xs }) (append_assoc e.queue (m ∷ []) _))
  ]

  -- A batch of an unbounded queue is everything that was queued, without a wait, or else what the
  -- filter let through while the consumer waited; either way the queue is empty after it.
  pub pop_batch-unbounded :
      (e : QueueEndpoint T) (meanwhile : List (Message T))
      → e.max_depth ≡ none
      → (e.queue ≡ [] → pop_batch e meanwhile ≡ (admitted e.filter meanwhile, e))
        × (e.queue ≢ [] → pop_batch e meanwhile ≡ (e.queue, record e { queue = [] }))
  unfolding pop_batch pop_all wait_if_empty
  pop_batch-unbounded e meanwhile unbounded = elim (List-cases e.queue) [
    | inl empty ↦ (
      λ _.
          rw
            (empty, wait_if_empty, send_all-unbounded (record e { queue = [] }) meanwhile unbounded)
            refl,
      λ full. absurd (full empty),
    )
    | inr (m, ms, full) ↦ (λ empty. absurd (cc), λ _. rw (full, wait_if_empty) refl)
  ]
