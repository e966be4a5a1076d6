-- ===== src/Wire/Ota/Relay/Ends.antt =====
-- A relay ends once its clock is past its deadlines, without an OSError, and with the link put back.
use visio_schema.Common.{
  ℕ, ◌+◌, ◌≡◌, ◌≢◌, any, leb, refl, if-cases, Bool, true, false, not, ◌||◌, List, ◌∷◌, Option, none,
  some, Result, ok, err, arith, All,
}
use visio_schema.Wire.Ota.{Raised, os_error, decode_error, Halt, still_waiting, broken, WaitRound}
use visio_schema.Wire.Ota.Negotiate.{Settled, negotiate_chunk-Settled}
use visio_schema.Wire.Ota.Relay.{Event, quieting, Settings, State, note}
use visio_schema.Wire.Ota.Relay.Loop.{Turnout, goes_on, finished, returns, halts, send_loop}
use visio_schema.Wire.Ota.Relay.Call.{
  World, Request, Ran, uncommitted, after_commit, commit_phase, after_loop, conclude_loop,
  after_first, transfer, negotiated, asked, idle, quieted, run_transfer, handled, is_over, restored,
  relay,
}
use visio_schema.Wire.Ota.Relay.Accounts.{waited_out}
use visio_schema.Wire.Ota.Relay.Receives.{
  drains, is_past, is_left, Freed, pump_statuses-Freed, send_loop-is_left, await_answer-Freed,
}

-- Neither still going nor left by an OSError.
unfoldable pub has_ended : Turnout → Bool
has_ended goes_on = false
has_ended finished = false
has_ended (returns o) = true
has_ended (halts still_waiting) = false
has_ended (halts (broken os_error)) = false
has_ended (halts (broken decode_error)) = true

after_commit-is_over :
    (c : Settings) (r : State × Option Halt) → Freed r.1 → is_over (after_commit c r).turnout ≡ true
unfolding after_commit is_over
after_commit-is_over c (st, none) h = refl
after_commit-is_over c (st, some still_waiting) h = absurd h
after_commit-is_over c (st, some (broken e)) h = refl

-- The world lets each receive and each wait come to its end.
module _ (w : World) (first_dry : drains w.first ≡ true)
    (ticks_dry : All (λ tick. drains tick.received ≡ true) w.ticks)
    (waits_dry : All (λ r. drains r.1 ≡ true) w.waits) where
  after_loop-is_over :
      (c : Settings) (st : State)
      → waited_out c w ≡ true
      → is_over (after_loop c w st).turnout ≡ true
  unfolding after_loop commit_phase uncommitted is_over waited_out
  after_loop-is_over c st late =
      let Over = λ (ran : Ran). is_over ran.turnout ≡ true in
      if-cases Over st.failed (λ _. refl)
        (λ _.
          if-cases Over st.staged (λ _. refl)
            (λ _.
              if-cases Over (not c.commits) (λ _. refl)
                (λ _.
                  if-cases Over w.commit_delivered
                    (λ _.
                      after_commit-is_over c _ (await_answer-Freed c _ w.waits _ late waits_dry))
                    (λ _. refl))))

  conclude_loop-is_over :
      (c : Settings) (r : State × Turnout)
      → waited_out c w ≡ true
      → is_left r.1 ≡ true
      → is_over (conclude_loop c w r).turnout ≡ true
  unfolding conclude_loop uncommitted is_over is_left
  conclude_loop-is_over c (st, goes_on) late left = left
  conclude_loop-is_over c (st, finished) late left = after_loop-is_over c st late
  conclude_loop-is_over c (st, returns o) late left = refl
  conclude_loop-is_over c (st, halts still_waiting) late left = left
  conclude_loop-is_over c (st, halts (broken e)) late left = refl

  after_first-is_over :
      (c : Settings) (r : State × Option Halt)
      → waited_out c w ≡ true
      → is_past (w.started + c.deadline) w.ticks ≡ true
      → Freed r.1
      → is_over (after_first c w r).turnout ≡ true
  unfolding after_first uncommitted is_over
  after_first-is_over c (st, none) late past free =
      conclude_loop-is_over c (send_loop c w.started w.ticks st) late
        (send_loop-is_left c w.started w.ticks st past ticks_dry)
  after_first-is_over c (st, some still_waiting) late past free = absurd free
  after_first-is_over c (st, some (broken e)) late past free = refl

  transfer-is_over :
      (q : Request) (st : State) (size : Result Halt ℕ)
      → size ≢ err still_waiting
      → waited_out q.settings w ≡ true
      → is_past (w.started + q.settings.deadline) w.ticks ≡ true
      → is_over (transfer q w st size).turnout ≡ true
  unfolding transfer uncommitted is_over waited_out
  transfer-is_over q st (err still_waiting) sized late past = absurd (sized refl)
  transfer-is_over q st (err (broken e)) sized late past = refl
  transfer-is_over q st (ok size) sized late past =
      if-cases (λ (ran : Ran). is_over ran.turnout ≡ true) w.begin_delivered
        (λ _. after_first-is_over _ _ late past (pump_statuses-Freed _ _ w.first first_dry))
        (λ _. refl)

Settled-ends :
    (session want cap deadline : ℕ) (delivered : Bool) (rounds : List WaitRound) (r : Result Halt ℕ)
    → Settled session want cap deadline delivered rounds r
    → any (λ round. leb deadline round.0) rounds ≡ true
    → r ≢ err still_waiting
Settled-ends session want cap deadline delivered rounds (ok n) h late same = absurd (cc)
Settled-ends session want cap deadline delivered rounds (err still_waiting) h late same =
    absurd (cc)
Settled-ends session want cap deadline delivered rounds (err (broken e)) h late same = absurd (cc)

negotiated-ends :
    (q : Request) (w : World)
    → (not q.negotiate || any (λ r. leb (w.queried_at + q.query_wait) r.0) w.rounds) ≡ true
    → negotiated q w ≢ err still_waiting
unfolding negotiated
negotiated-ends q w late =
    if-cases (λ (r : Result Halt ℕ). r ≢ err still_waiting) q.negotiate
      (λ asks.
        Settled-ends q.settings.session_id q.settings.chunk_bytes q.chunk_cap
          (w.queried_at + q.query_wait) w.query_delivered w.rounds _
          (negotiate_chunk-Settled q.settings.session_id q.settings.chunk_bytes q.chunk_cap
            q.query_wait w.query_delivered w.queried_at w.rounds)
          (ground (arith, late, asks)))
      (λ _ same. absurd (cc))

handled-has_ended :
    (c : Settings) (committed : Bool) (st : State) (turnout : Turnout)
    → is_over turnout ≡ true
    → has_ended (handled c committed st turnout) ≡ true
unfolding handled has_ended is_over
handled-has_ended c committed st goes_on over = over
handled-has_ended c committed st finished over = over
handled-has_ended c committed st (returns o) over = refl
handled-has_ended c committed st (halts still_waiting) over = over
handled-has_ended c committed st (halts (broken decode_error)) over = refl
handled-has_ended c committed st (halts (broken os_error)) over =
    if-cases (λ (t : Turnout). has_ended t ≡ true) (st.staged || committed) (λ _. refl) (λ _. refl)

-- Where the link was acknowledged quiet, the last event puts it back.
abbrev pub PutBack : Option (Result Raised Bool) → List Event → Type 0
PutBack none log = Unit
PutBack (some (err e)) log = Unit
PutBack (some (ok false)) log = Unit
PutBack (some (ok true)) log = (older : List Event) × (log ≡ quieting false ∷ older)

restored-PutBack :
    (answer : Option (Result Raised Bool)) (st : State) (turnout : Turnout)
    → is_over turnout ≡ true
    → PutBack answer (restored (quieted answer idle).1 st turnout).log
unfolding quieted restored note
restored-PutBack none st turnout over = tt
restored-PutBack (some (err e)) st turnout over = tt
restored-PutBack (some (ok false)) st turnout over = tt
restored-PutBack (some (ok true)) st turnout over = rw over (st.log, refl)

run_transfer-is_over :
    (q : Request) (w : World) (st : State) (halt : Option Halt)
    → Freed halt
    → ((size : Result Halt ℕ)
        → size ≢ err still_waiting
        → (before : State) → is_over (transfer q w before size).turnout ≡ true)
    → negotiated q w ≢ err still_waiting
    → is_over (run_transfer q w st halt).turnout ≡ true
unfolding run_transfer uncommitted is_over
run_transfer-is_over q w st none free next sized = next (negotiated q w) sized (asked q w st)
run_transfer-is_over q w st (some still_waiting) free next sized = absurd free
run_transfer-is_over q w st (some (broken e)) free next sized = refl

quieted-Freed : (answer : Option (Result Raised Bool)) (st : State) → Freed (quieted answer st).2
unfolding quieted
quieted-Freed none st = tt
quieted-Freed (some (ok acknowledged)) st = tt
quieted-Freed (some (err e)) st = tt

-- Whatever else the callbacks answer: where each pump comes to a receive that has nothing more or
-- raises, and the clock is at or past the deadline in a test of the wait for the adverts, if one
-- is asked for, of the send loop, where past, and of the wait after the commit, the relay has
-- returned an outcome or left by a DecodeError of a malformed status, never by an OSError; and
-- where the device had acknowledged quiesce(True), the last call is quiesce(False).
pub relay-has_ended :
    (q : Request) (w : World)
    → drains w.first ≡ true
    → All (λ tick. drains tick.received ≡ true) w.ticks
    → All (λ r. drains r.1 ≡ true) w.waits
    → (not q.negotiate || any (λ r. leb (w.queried_at + q.query_wait) r.0) w.rounds) ≡ true
    → is_past (w.started + q.settings.deadline) w.ticks ≡ true
    → waited_out q.settings w ≡ true
    → (has_ended (relay q w).1 ≡ true) × PutBack w.quiesce (relay q w).0.log
unfolding relay
relay-has_ended q w first_dry ticks_dry waits_dry asked_late past waited =
    let st = (quieted w.quiesce idle).0 in
    let halt = (quieted w.quiesce idle).2 in
    let ran = run_transfer q w st halt in
    let over : is_over ran.turnout ≡ true =
      run_transfer-is_over q w st halt (quieted-Freed w.quiesce idle)
        (λ size sized before.
          transfer-is_over w first_dry ticks_dry waits_dry q before size sized waited past)
        (negotiated-ends q w asked_late) in
    (
      handled-has_ended q.settings ran.committed ran.state ran.turnout over,
      restored-PutBack w.quiesce ran.state ran.turnout over,
    )
