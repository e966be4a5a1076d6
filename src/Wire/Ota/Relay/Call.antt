-- ===== src/Wire/Ota/Relay/Call.antt =====
-- python/visio_schema/wire/ota.py: `relay` from its first call to its return.
use visio_schema.Common.{
  ℕ, ◌+◌, ◌*◌, ◌/◌, max, min, ltb, if◌then◌else◌, Bool, true, false, not, ◌&&◌, ◌||◌, List, [], ◌∷◌,
  Option, none, some, Result, ok, err,
}
use visio_schema.Wire.Ota.{
  begin, commit, query, Raised, os_error, decode_error, Halt, still_waiting, broken, Recv,
  WaitRound, negotiate_chunk, capped,
}
use visio_schema.Wire.Ota.Relay.{
  quieting, ok_staged, ok_success, ok_staged_no_transfer, ok_committed_unconfirmed,
  ok_link_after_commit, fail_device, fail_link_dropped, ok_upload_only, Outcome, Settings, State,
  total, pump_statuses, note, tell, emit, abort_with, done, going,
}
use visio_schema.Wire.Ota.Relay.Loop.{Tick, Turnout, goes_on, finished, returns, halts, send_loop}

-- What the callbacks and the clock answer: `quiesce` if one is given, the negotiation, the begin,
-- the send loop, and the wait after the commit.
pub record World : Type 0 where
  pub quiesce : Option (Result Raised Bool)
  pub query_delivered : Bool
  pub queried_at : ℕ
  pub rounds : List WaitRound
  pub begin_delivered : Bool
  pub started : ℕ
  pub first : List Recv
  pub ticks : List Tick
  pub abort_delivered : Bool
  pub commit_delivered : Bool
  pub committed_at : ℕ
  pub waits : List (ℕ × List Recv)

-- The arguments that `Settings` is made from: the wanted chunk stands in its `chunk_bytes`.
pub record Request : Type 0 where
  pub settings : Settings
  pub chunk_cap : ℕ
  pub negotiate : Bool
  pub query_wait : ℕ
  pub max_resumes : Option ℕ

-- The state, whether the commit went out, and how it ended.
pub record Ran : Type 0 where
  pub state : State
  pub committed : Bool
  pub turnout : Turnout

unfoldable pub verdict : Settings → State → Outcome
verdict c st =
    if st.failed
    then done c false fail_device st
    else if st.succeeded
    then done c true ok_success st
    else if st.staged
    then done c true ok_staged st
    else done c true ok_committed_unconfirmed st

unfoldable pub unless_raised :
    (State → State × Option Halt) → State × Option Halt → State × Option Halt
unless_raised others (st, none) = others st
unless_raised others (st, some e) = (st, some e)

-- The wait for the answer to the commit, until the time is up.
unfoldable pub await_answer : Settings → ℕ → List (ℕ × List Recv) → State → State × Option Halt
await_answer c deadline [] st = if going st then (st, some still_waiting) else (st, none)
await_answer c deadline ((now, received) ∷ rounds) st =
    let others = await_answer c deadline rounds in
    if going st && ltb now deadline
    then unless_raised others (pump_statuses c st received)
    else (st, none)

unfoldable pub after_commit : Settings → State × Option Halt → Ran
after_commit c (st, none) = record {
  state = st;
  committed = true;
  turnout = returns (verdict c st);
}
after_commit c (st, some e) = record { state = st; committed = true; turnout = halts e }

unfoldable pub commit_phase : Settings → World → State → Ran
commit_phase c w st =
    let ready = emit c st.cursor "committing" st in
    if w.commit_delivered
    then after_commit c (
        await_answer c (w.committed_at + min c.stall_timeout c.commit_wait) w.waits
          (tell c commit ready))
    else record { state = ready; committed = false; turnout = halts (broken os_error) }

unfoldable pub uncommitted : State → Turnout → Ran
uncommitted st turnout = record { state = st; committed = false; turnout = turnout }

unfoldable pub after_loop : Settings → World → State → Ran
after_loop c w st =
    if st.failed
    then uncommitted st (returns (done c false fail_device st))
    else if st.staged
    then uncommitted st (returns (done c true ok_staged_no_transfer st))
    else if not c.commits
    then uncommitted (abort_with c w.abort_delivered "no-flash" st)
        (returns (done c true ok_upload_only (abort_with c w.abort_delivered "no-flash" st)))
    else commit_phase c w st

unfoldable pub conclude_loop : Settings → World → State × Turnout → Ran
conclude_loop c w (st, goes_on) = uncommitted st goes_on
conclude_loop c w (st, finished) = after_loop c w st
conclude_loop c w (st, returns o) = uncommitted st (returns o)
conclude_loop c w (st, halts h) = uncommitted st (halts h)

unfoldable pub after_first : Settings → World → State × Option Halt → Ran
after_first c w (st, none) = conclude_loop c w (send_loop c w.started w.ticks st)
after_first c w (st, some h) = uncommitted st (halts h)

unfoldable pub bound_of : Option ℕ → ℕ → ℕ → ℕ
bound_of (some n) total chunk = n
bound_of none total chunk = 2 * (total / max chunk 1 + 2) + 16

-- From the begin on, with the negotiated size.
unfoldable pub transfer : Request → World → State → Result Halt ℕ → Ran
transfer q w st (err h) = uncommitted st (halts h)
transfer q w st (ok size) =
    let c = record q.settings {
      chunk_bytes = size;
      max_resumes = bound_of q.max_resumes (total q.settings) size;
    } in
    if w.begin_delivered
    then after_first c w (
        pump_statuses c
          (emit c 0 "begin" (record (tell c (begin (total c) size c.fw_version c.board) st) {
            last_progress = w.started;
            last_soft = w.started;
          }))
          w.first)
    else uncommitted st (halts (broken os_error))

unfoldable pub negotiated : Request → World → Result Halt ℕ
negotiated q w =
    if q.negotiate
    then negotiate_chunk q.settings.session_id q.settings.chunk_bytes q.chunk_cap q.query_wait
        w.query_delivered w.queried_at w.rounds
    else ok (capped q.chunk_cap q.settings.chunk_bytes)

unfoldable pub asked : Request → World → State → State
asked q w st = if q.negotiate && w.query_delivered then tell q.settings query st else st

unfoldable pub idle : State
idle = record {
  acked = 0;
  staged = false;
  succeeded = false;
  failed = false;
  resume_to = none;
  cursor = 0;
  last_ack = 0;
  last_log = 0;
  resumes = 0;
  last_progress = 0;
  last_soft = 0;
  log = [];
}

-- `quiesce(True)`: the state, whether it was acknowledged, and what it raised.
unfoldable pub quieted : Option (Result Raised Bool) → State → State × Bool × Option Halt
quieted none st = (st, false, none)
quieted (some (ok acknowledged)) st = (note (quieting true) st, acknowledged, none)
quieted (some (err e)) st = (note (quieting true) st, false, some (broken e))

unfoldable pub run_transfer : Request → World → State → Option Halt → Ran
run_transfer q w st (some h) = uncommitted st (halts h)
run_transfer q w st none = transfer q w (asked q w st) (negotiated q w)

-- `except OSError`; another exception goes on to the caller.
unfoldable pub handled : Settings → Bool → State → Turnout → Turnout
handled c committed st goes_on = goes_on
handled c committed st finished = finished
handled c committed st (returns o) = returns o
handled c committed st (halts still_waiting) = halts still_waiting
handled c committed st (halts (broken os_error)) =
    if st.staged || committed
    then returns (done c true ok_link_after_commit st)
    else returns (done c false fail_link_dropped st)
handled c committed st (halts (broken decode_error)) = halts (broken decode_error)

-- The call is left, by a value or an exception.
unfoldable pub is_over : Turnout → Bool
is_over goes_on = false
is_over finished = false
is_over (returns o) = true
is_over (halts still_waiting) = false
is_over (halts (broken e)) = true

-- `finally`: the link is put back on every exit, where it was acknowledged quiet.
unfoldable pub restored : Bool → State → Turnout → State
restored acknowledged st turnout =
    if acknowledged && is_over turnout then note (quieting false) st else st

unfoldable pub relay : Request → World → State × Turnout
relay q w =
    let (st, acknowledged, halt) = quieted w.quiesce idle in
    let ran = run_transfer q w st halt in
    (
      restored acknowledged ran.state ran.turnout,
      handled q.settings ran.committed ran.state ran.turnout,
    )
