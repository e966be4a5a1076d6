-- ===== src/Wire/Ota/Relay/Receives.antt =====
-- The waits of a relay come to their ends when recv has nothing more and the clock is late.
use visio_schema.Common.{
  ℕ, ◌+◌, ◌≡◌, any, leb, ltb, refl, if-cases, Bool, Bool-cases, inl, inr, true, false, ◌||◌, ◌&&◌,
  List, [], ◌∷◌, Option, none, some, arith, All,
}
use visio_schema.Wire.Ota.{Halt, still_waiting, broken, Recv, heard, silence, raises}
use visio_schema.Wire.Ota.Relay.{Settings, State, going, pump_statuses, fold}
use visio_schema.Wire.Ota.Relay.Loop.{
  Tick, Turnout, goes_on, finished, returns, halts, check_time, end_turn, after_pump, send_part,
  rewind, rewind_or_send, loop_turn, unless_ended, send_loop, has_room, is_none, all_acked,
  sent_chunk,
}
use visio_schema.Wire.Ota.Relay.Call.{unless_raised, await_answer}

-- Recv has nothing more after some statuses, or raises.
unfoldable pub drains : List Recv → Bool
drains [] = false
drains (heard s ∷ more) = drains more
drains (silence ∷ more) = true
drains (raises e ∷ more) = true

unfoldable pub is_past : ℕ → List Tick → Bool
is_past deadline [] = false
is_past deadline (tick ∷ ticks) = ltb deadline tick.tested_at || is_past deadline ticks

-- The loop is left.
unfoldable pub is_left : Turnout → Bool
is_left goes_on = false
is_left finished = true
is_left (returns o) = true
is_left (halts still_waiting) = false
is_left (halts (broken e)) = true

-- The call does not hang in a receive.
unfoldable pub is_free : Turnout → Bool
is_free goes_on = true
is_free finished = true
is_free (returns o) = true
is_free (halts still_waiting) = false
is_free (halts (broken e)) = true

abbrev pub Freed : Option Halt → Type 0
Freed none = Unit {0}
Freed (some still_waiting) = ⊥
Freed (some (broken e)) = Unit {0}

pub pump_statuses-Freed :
    (c : Settings) (st : State) (received : List Recv)
    → drains received ≡ true
    → Freed (pump_statuses c st received).1
unfolding pump_statuses drains
pump_statuses-Freed c st [] h = absurd (cc)
pump_statuses-Freed c st (heard s ∷ more) h = pump_statuses-Freed c (fold c s st) more h
pump_statuses-Freed c st (silence ∷ more) h = tt
pump_statuses-Freed c st (raises e ∷ more) h = tt

module _ (c : Settings) (started : ℕ) where
  end_turn-is_free : (r : State × Turnout) → is_free r.1 ≡ true → is_free (end_turn c r).1 ≡ true
  unfolding end_turn
  end_turn-is_free (st, goes_on) h = h
  end_turn-is_free (st, finished) h = h
  end_turn-is_free (st, returns o) h = h
  end_turn-is_free (st, halts e) h = h

  check_time-is_free : (tick : Tick) (st : State) → is_free (check_time c tick st).1 ≡ true
  unfolding check_time is_free
  check_time-is_free tick st =
      let Free = λ (r : State × Turnout). is_free r.1 ≡ true in
      if-cases Free (ltb st.last_ack st.acked) (λ _. refl)
        (λ _.
          if-cases Free (ltb (st.last_progress + c.stall_timeout) tick.now) (λ _. refl)
            (λ _.
              if-cases Free
                (ltb (st.last_soft + c.soft_retry) tick.now
                  && is_none st.resume_to
                  && ltb st.acked st.cursor)
                (λ _. refl) (λ _. refl)))

  after_pump-is_free :
      (tick : Tick) (r : State × Option Halt) → Freed r.1 → is_free (after_pump c tick r).1 ≡ true
  unfolding after_pump is_free
  after_pump-is_free tick (st, none) h =
      end_turn-is_free (check_time c tick st) (check_time-is_free tick st)
  after_pump-is_free tick (st, some still_waiting) h = absurd h
  after_pump-is_free tick (st, some (broken e)) h = refl

  send_part-is_free :
      (tick : Tick) (st : State)
      → drains tick.received ≡ true
      → is_free (send_part c tick st).1 ≡ true
  unfolding send_part is_free
  send_part-is_free tick st h =
      let Free = λ (r : State × Turnout). is_free r.1 ≡ true in
      if-cases Free (has_room c st)
        (λ _.
          if-cases Free tick.delivered
            (λ _.
              after_pump-is_free tick (pump_statuses c (sent_chunk c st) tick.received)
                (pump_statuses-Freed c (sent_chunk c st) tick.received h))
            (λ _. refl))
        (λ _.
          if-cases Free (all_acked c st) (λ _. refl)
            (λ _.
              after_pump-is_free tick (pump_statuses c st tick.received)
                (pump_statuses-Freed c st tick.received h)))

  rewind_or_send-is_free :
      (tick : Tick) (to : Option ℕ) (st : State)
      → drains tick.received ≡ true
      → is_free (rewind_or_send c tick to st).1 ≡ true
  unfolding rewind_or_send rewind is_free
  rewind_or_send-is_free tick none st h = send_part-is_free tick st h
  rewind_or_send-is_free tick (some to) st h =
      if-cases (λ (r : State × Turnout). is_free r.1 ≡ true) (ltb c.max_resumes (st.resumes + 1))
        (λ _. refl) (λ _. refl)

  loop_turn-is_free :
      (tick : Tick) (st : State)
      → drains tick.received ≡ true
      → is_free (loop_turn c started tick st).1 ≡ true
  unfolding loop_turn is_free
  loop_turn-is_free tick st h =
      if-cases (λ (r : State × Turnout). is_free r.1 ≡ true)
        (ltb (started + c.deadline) tick.tested_at) (λ _. refl)
        (λ _. rewind_or_send-is_free tick st.resume_to st h)

  unless_ended-is_left :
      (others : State → State × Turnout)
      → ((st : State) → is_left (others st).1 ≡ true)
      → (r : State × Turnout) → is_free r.1 ≡ true
      → is_left (unless_ended others r).1 ≡ true
  unfolding unless_ended is_left is_free
  unless_ended-is_left others next (st, goes_on) h = next st
  unless_ended-is_left others next (st, finished) h = refl
  unless_ended-is_left others next (st, returns o) h = refl
  unless_ended-is_left others next (st, halts still_waiting) h = h
  unless_ended-is_left others next (st, halts (broken e)) h = refl

  loop_turn-late :
      (others : State → State × Turnout) (tick : Tick) (st : State)
      → ltb (started + c.deadline) tick.tested_at ≡ true
      → is_left (unless_ended others (loop_turn c started tick st)).1 ≡ true
  unfolding loop_turn unless_ended is_left
  loop_turn-late others tick st late =
      if-cases (λ (r : State × Turnout). is_left (unless_ended others r).1 ≡ true)
        (ltb (started + c.deadline) tick.tested_at) (λ _. refl) (λ early. absurd (cc))

  pub send_loop-is_left :
      (ticks : List Tick) (st : State)
      → is_past (started + c.deadline) ticks ≡ true
      → All (λ tick. drains tick.received ≡ true) ticks
      → is_left (send_loop c started ticks st).1 ≡ true
  unfolding send_loop is_past is_left
  send_loop-is_left [] st past dry = absurd (cc)
  send_loop-is_left (tick ∷ ticks) st past dry =
      if-cases (λ (r : State × Turnout). is_left r.1 ≡ true) (going st)
        (λ _. elim (Bool-cases (ltb (started + c.deadline) tick.tested_at)) [
          | inl late ↦ loop_turn-late (send_loop c started ticks) tick st late
          | inr early ↦
              unless_ended-is_left (send_loop c started ticks)
                (λ next. send_loop-is_left ticks next (ground (arith, past, early)) dry.1)
                (loop_turn c started tick st) (loop_turn-is_free tick st dry.0)
        ])
        (λ _. refl)

unless_raised-Freed :
    (others : State → State × Option Halt)
    → ((st : State) → Freed (others st).1)
    → (r : State × Option Halt) → Freed r.1
    → Freed (unless_raised others r).1
unfolding unless_raised
unless_raised-Freed others next (st, none) h = next st
unless_raised-Freed others next (st, some e) h = h

pub await_answer-Freed :
    (c : Settings) (deadline : ℕ) (rounds : List (ℕ × List Recv)) (st : State)
    → any (λ r. leb deadline r.0) rounds ≡ true
    → All (λ r. drains r.1 ≡ true) rounds
    → Freed (await_answer c deadline rounds st).1
unfolding await_answer
await_answer-Freed c deadline [] st late dry = absurd (cc)
await_answer-Freed c deadline ((now, received) ∷ rounds) st late dry =
    if-cases (λ (r : State × Option Halt). Freed r.1) (going st && ltb now deadline)
      (λ goes.
        unless_raised-Freed (await_answer c deadline rounds)
          (λ next. await_answer-Freed c deadline rounds next (ground (arith, late, goes)) dry.1)
          (pump_statuses c st received) (pump_statuses-Freed c st received dry.0))
      (λ _. tt)
