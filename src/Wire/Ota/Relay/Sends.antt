-- ===== src/Wire/Ota/Relay/Sends.antt =====
-- The send loop of a relay sends only what it may.
use visio_schema.Common.{
  ℕ, ◌+◌, ◌*◌, ◌≤◌, ◌≡◌, ◌⊎◌, ltb, leb, refl, sym, ap, subst, ◌∙◌, if-cases, Bool, Bool-cases, inl,
  inr, true, false, ◌&&◌, String, List, [], ◌∷◌, Option, none, some, length, drop, length-take,
  length-drop, arith,
}
use visio_schema.Wire.Ota.{OtaBody, chunk, abort, Halt}
use visio_schema.Wire.Ota.Relay.{
  Outcome, fail_deadline, fail_stalled, fail_too_lossy, Settings, State, total, slice,
  pump_statuses, note, message, tell, emit, abort_with, done, going,
}
use visio_schema.Wire.Ota.Relay.Loop.{
  Tick, Turnout, goes_on, finished, returns, halts, next_size, has_room, sent_chunk, all_acked,
  is_none, check_time, log_progress, end_turn, after_pump, send_part, rewind, rewind_or_send,
  loop_turn, unless_ended, send_loop,
}
use visio_schema.Wire.Ota.Relay.Log.{
  watermark, success_heard, staged_heard, failure_heard, MaySend, Sound, Coherent,
}
use visio_schema.Wire.Ota.Relay.Folds.{pump_statuses-Coherent}

module _ (c : Settings) where
  pub Coherent-like :
      {st next : State}
      → Coherent c st
      → next.acked ≡ st.acked
      → next.succeeded ≡ st.succeeded
      → next.staged ≡ st.staged
      → next.failed ≡ st.failed
      → next.log ≡ st.log
      → Coherent c next
  Coherent-like h acked succeeded staged failed log = record {
    acked = acked ∙ h.acked ∙ ap (watermark c.session_id) (sym log);
    succeeded = succeeded ∙ h.succeeded ∙ ap (success_heard c.session_id) (sym log);
    staged = staged ∙ h.staged ∙ ap (staged_heard c.session_id) (sym log);
    failed = failed ∙ h.failed ∙ ap (failure_heard c.session_id) (sym log);
    sound = subst (Sound c.session_id c.window c.image) (sym log) h.sound;
  }

  pub tell-Coherent :
      (body : OtaBody) (st : State)
      → Coherent c st
      → MaySend c.session_id c.window c.image body st.log
      → Coherent c (tell c body st)
  unfolding tell note message watermark success_heard staged_heard failure_heard
  tell-Coherent body st h may = record {
    acked = h.acked;
    succeeded = h.succeeded;
    staged = h.staged;
    failed = h.failed;
    sound = (may, h.sound);
  }

  pub emit-Coherent :
      (sent : ℕ) (state : String) (st : State) → Coherent c st → Coherent c (emit c sent state st)
  unfolding emit note watermark success_heard staged_heard failure_heard
  emit-Coherent sent state st h = record {
    acked = h.acked;
    succeeded = h.succeeded;
    staged = h.staged;
    failed = h.failed;
    sound = h.sound;
  }

  pub abort_with-Coherent :
      (delivered : Bool) (reason : String) (st : State)
      → Coherent c st
      → Coherent c (abort_with c delivered reason st)
  unfolding abort_with
  abort_with-Coherent true reason st h = tell-Coherent (abort reason) st h tt
  abort_with-Coherent false reason st h = h

  -- The outcomes that the loop itself returns.
  abbrev pub GivesUp : Outcome → Type 0
  GivesUp o =
      (o.is_ok ≡ false)
      × ((o.reason ≡ fail_deadline) ⊎ ((o.reason ≡ fail_stalled) ⊎ (o.reason ≡ fail_too_lossy)))

  -- What an iteration leaves: a coherent state, a loop that is done only for a reason, and a
  -- return only with a failure of the loop.
  abbrev pub Fair : State × Turnout → Type 0
  Fair (st, goes_on) = Coherent c st
  Fair (st, finished) = Coherent c st × ((going st ≡ false) ⊎ (all_acked c st ≡ true))
  Fair (st, returns o) = Coherent c st × GivesUp o
  Fair (st, halts e) = Coherent c st

  log_progress-Coherent : (st : State) → Coherent c st → Coherent c (log_progress c st)
  unfolding log_progress
  log_progress-Coherent st h = elim (Bool-cases (leb (st.last_log + 4 * 1024 * 1024) st.cursor)) [
    | inl e ↦ rw e (emit-Coherent st.cursor "sending" _ (Coherent-like h refl refl refl refl refl))
    | inr e ↦ rw e h
  ]

  end_turn-Fair : (r : State × Turnout) → Fair r → Fair (end_turn c r)
  unfolding end_turn
  end_turn-Fair (st, goes_on) h = log_progress-Coherent st h
  end_turn-Fair (st, finished) h = h
  end_turn-Fair (st, returns o) h = h
  end_turn-Fair (st, halts e) h = h

  check_time-Fair : (tick : Tick) (st : State) → Coherent c st → Fair (check_time c tick st)
  unfolding check_time done
  check_time-Fair tick st h =
      if-cases Fair (ltb st.last_ack st.acked) (λ _. Coherent-like h refl refl refl refl refl)
        (λ _.
          if-cases Fair (ltb (st.last_progress + c.stall_timeout) tick.now)
            (λ _. (abort_with-Coherent tick.abort_delivered "stall" st h, (refl, inr (inl refl))))
            (λ _.
              if-cases Fair
                (ltb (st.last_soft + c.soft_retry) tick.now
                  && is_none st.resume_to
                  && ltb st.acked st.cursor)
                (λ _. Coherent-like h refl refl refl refl refl) (λ _. h)))

  after_pump-Fair :
      (tick : Tick) (r : State × Option Halt) → Coherent c r.0 → Fair (after_pump c tick r)
  unfolding after_pump
  after_pump-Fair tick (st, none) h =
      end_turn-Fair (check_time c tick st) (check_time-Fair tick st h)
  after_pump-Fair tick (st, some e) h = h

  slice-length :
      (st : State)
      → has_room c st ≡ true
      → length (slice c.image st.cursor (next_size c st)) ≡ next_size c st
  unfolding slice has_room next_size total
  slice-length st room =
      ground (
        arith,
        length-take (next_size c st) (drop st.cursor c.image),
        length-drop st.cursor c.image,
      )

  has_room-bounds :
      (st : State)
      → has_room c st ≡ true
      → (st.cursor + next_size c st ≤ length c.image)
        × (st.cursor + next_size c st ≤ c.window + st.acked)
  unfolding has_room next_size total
  has_room-bounds st room = (ground arith, ground arith)

  -- A chunk that has room.
  sent_chunk-Coherent :
      (st : State) → Coherent c st → has_room c st ≡ true → Coherent c (sent_chunk c st)
  unfolding sent_chunk
  sent_chunk-Coherent st h room =
      let same = slice-length st room in
      let bounds = has_room-bounds st room in
      Coherent-like
        (tell-Coherent (chunk st.cursor (slice c.image st.cursor (next_size c st))) st h (
          ap (slice c.image st.cursor) (sym same),
          rw same bounds.0,
          rw (same, sym h.acked) bounds.1,
        ))
        refl refl refl refl refl

  send_part-Fair : (tick : Tick) (st : State) → Coherent c st → Fair (send_part c tick st)
  unfolding send_part
  send_part-Fair tick st h =
      if-cases Fair (has_room c st)
        (λ room.
          if-cases Fair tick.delivered
            (λ _. after_pump-Fair tick (pump_statuses c (sent_chunk c st) tick.received) (
              pump_statuses-Coherent c (sent_chunk c st) tick.received
                (sent_chunk-Coherent st h room)))
            (λ _. h))
        (λ _.
          if-cases Fair (all_acked c st) (λ complete. (h, inr complete))
            (λ _.
              after_pump-Fair tick (pump_statuses c st tick.received)
                (pump_statuses-Coherent c st tick.received h)))

  rewind_or_send-Fair :
      (tick : Tick) (to : Option ℕ) (st : State)
      → Coherent c st
      → Fair (rewind_or_send c tick to st)
  unfolding rewind_or_send rewind done
  rewind_or_send-Fair tick none st h = send_part-Fair tick st h
  rewind_or_send-Fair tick (some to) st h =
      if-cases Fair (ltb c.max_resumes (st.resumes + 1))
        (λ _. (
          abort_with-Coherent tick.abort_delivered "too lossy" _
              (Coherent-like h refl refl refl refl refl),
          (refl, inr (inr refl)),
        ))
        (λ _. Coherent-like h refl refl refl refl refl)

  loop_turn-Fair :
      (started : ℕ) (tick : Tick) (st : State) → Coherent c st → Fair (loop_turn c started tick st)
  unfolding loop_turn done
  loop_turn-Fair started tick st h =
      if-cases Fair (ltb (started + c.deadline) tick.tested_at)
        (λ _. (abort_with-Coherent tick.abort_delivered "deadline" st h, (refl, inl refl)))
        (λ _. rewind_or_send-Fair tick st.resume_to st h)

  unless_ended-Fair :
      (others : State → State × Turnout)
      → ((st : State) → Coherent c st → Fair (others st))
      → (r : State × Turnout) → Fair r
      → Fair (unless_ended others r)
  unfolding unless_ended
  unless_ended-Fair others next (st, goes_on) h = next st h
  unless_ended-Fair others next (st, finished) h = h
  unless_ended-Fair others next (st, returns o) h = h
  unless_ended-Fair others next (st, halts e) h = h

  pub send_loop-Fair :
      (started : ℕ) (ticks : List Tick) (st : State)
      → Coherent c st
      → Fair (send_loop c started ticks st)
  unfolding send_loop
  send_loop-Fair started [] st h = if-cases Fair (going st) (λ _. h) (λ ended. (h, inl ended))
  send_loop-Fair started (tick ∷ ticks) st h =
      if-cases Fair (going st)
        (λ _.
          unless_ended-Fair (send_loop c started ticks) (send_loop-Fair started ticks)
            (loop_turn c started tick st) (loop_turn-Fair started tick st h))
        (λ ended. (h, inl ended))
