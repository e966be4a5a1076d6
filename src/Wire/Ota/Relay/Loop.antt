-- ===== src/Wire/Ota/Relay/Loop.antt =====
-- python/visio_schema/wire/ota.py: the send loop of `relay`.
use visio_schema.Common.{
  ℕ, ◌+◌, ◌-◌, ◌*◌, min, ltb, leb, if◌then◌else◌, Bool, true, false, ◌&&◌, List, [], ◌∷◌, Option,
  none, some,
}
use visio_schema.Wire.Ota.{chunk, os_error, Halt, broken, Recv}
use visio_schema.Wire.Ota.Relay.{
  fail_stalled, fail_deadline, fail_too_lossy, Outcome, Settings, State, total, slice,
  pump_statuses, tell, emit, abort_with, done, going,
}

-- One iteration of the send loop: the clock in its deadline test, whether each send was let
-- through, what `pump` receives, and the clock after it.
pub record Tick : Type 0 where
  pub tested_at : ℕ
  pub delivered : Bool
  pub abort_delivered : Bool
  pub received : List Recv
  pub now : ℕ

-- How an iteration ends: it goes on, the loop is done, the call returns, or it halts.
pub data Turnout : Type 0 where
  goes_on : Turnout
  finished : Turnout
  returns : Outcome → Turnout
  halts : Halt → Turnout

unfoldable pub next_size : Settings → State → ℕ
next_size c st = min c.chunk_bytes (total c - st.cursor)

unfoldable pub has_room : Settings → State → Bool
has_room c st = ltb st.cursor (total c) && leb (st.cursor + next_size c st) (c.window + st.acked)

unfoldable pub sent_chunk : Settings → State → State
sent_chunk c st = record (tell c (chunk st.cursor (slice c.image st.cursor (next_size c st))) st) {
  cursor = st.cursor + next_size c st;
}

unfoldable pub all_acked : Settings → State → Bool
all_acked c st = leb (total c) st.cursor && leb (total c) st.acked

unfoldable pub is_none : Option ℕ → Bool
is_none none = true
is_none (some n) = false

-- An acknowledgement, the stall timer, or the retry of a quiet tail.
unfoldable pub check_time : Settings → Tick → State → State × Turnout
check_time c tick st =
    if ltb st.last_ack st.acked
    then (
      record st { last_ack = st.acked; last_progress = tick.now; last_soft = tick.now },
      goes_on,
    )
    else if ltb (st.last_progress + c.stall_timeout) tick.now
    then (
      abort_with c tick.abort_delivered "stall" st,
      returns (done c false fail_stalled (abort_with c tick.abort_delivered "stall" st)),
    )
    else if ltb (st.last_soft + c.soft_retry) tick.now
        && is_none st.resume_to
        && ltb st.acked st.cursor
    then (record st { last_soft = tick.now; resume_to = some st.acked }, goes_on)
    else (st, goes_on)

unfoldable pub log_progress : Settings → State → State
log_progress c st =
    if leb (st.last_log + 4 * 1024 * 1024) st.cursor
    then emit c st.cursor "sending" (record st { last_log = st.cursor })
    else st

unfoldable pub end_turn : Settings → State × Turnout → State × Turnout
end_turn c (st, goes_on) = (log_progress c st, goes_on)
end_turn c (st, finished) = (st, finished)
end_turn c (st, returns o) = (st, returns o)
end_turn c (st, halts h) = (st, halts h)

unfoldable pub after_pump : Settings → Tick → State × Option Halt → State × Turnout
after_pump c tick (st, none) = end_turn c (check_time c tick st)
after_pump c tick (st, some h) = (st, halts h)

unfoldable pub send_part : Settings → Tick → State → State × Turnout
send_part c tick st =
    if has_room c st
    then if tick.delivered
      then after_pump c tick (pump_statuses c (sent_chunk c st) tick.received)
      else (st, halts (broken os_error))
    else if all_acked c st
    then (st, finished)
    else after_pump c tick (pump_statuses c st tick.received)

-- A gap: rewind, within the bound on resumes.
unfoldable pub rewind : Settings → Tick → ℕ → State → State × Turnout
rewind c tick to st =
    let counted : State = record st { resumes = st.resumes + 1 } in
    if ltb c.max_resumes counted.resumes
    then (
      abort_with c tick.abort_delivered "too lossy" counted,
      returns (done c false fail_too_lossy (abort_with c tick.abort_delivered "too lossy" counted)),
    )
    else (record counted { cursor = to; resume_to = none }, goes_on)

unfoldable pub rewind_or_send : Settings → Tick → Option ℕ → State → State × Turnout
rewind_or_send c tick (some to) st = rewind c tick to st
rewind_or_send c tick none st = send_part c tick st

unfoldable pub loop_turn : Settings → ℕ → Tick → State → State × Turnout
loop_turn c started tick st =
    if ltb (started + c.deadline) tick.tested_at
    then (
      abort_with c tick.abort_delivered "deadline" st,
      returns (done c false fail_deadline (abort_with c tick.abort_delivered "deadline" st)),
    )
    else rewind_or_send c tick st.resume_to st

unfoldable pub unless_ended : (State → State × Turnout) → State × Turnout → State × Turnout
unless_ended others (st, goes_on) = others st
unless_ended others (st, finished) = (st, finished)
unless_ended others (st, returns o) = (st, returns o)
unless_ended others (st, halts h) = (st, halts h)

-- The send loop; it still goes on when the ticks are at their end.
unfoldable pub send_loop : Settings → ℕ → List Tick → State → State × Turnout
send_loop c started [] st = if going st then (st, goes_on) else (st, finished)
send_loop c started (tick ∷ ticks) st =
    let others = send_loop c started ticks in
    if going st then unless_ended others (loop_turn c started tick st) else (st, finished)
