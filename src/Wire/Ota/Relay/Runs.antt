-- ===== src/Wire/Ota/Relay/Runs.antt =====
-- The promise of a relay holds from its first call on.
use visio_schema.Common.{
  ℕ, refl, if-cases, Bool, inl, true, ◌&&◌, Option, none, some, Result, ok, err,
}
use visio_schema.Wire.Ota.{begin, query, Raised, os_error, Halt, broken}
use visio_schema.Wire.Ota.Relay.{quieting, Settings, State, total, pump_statuses, note}
use visio_schema.Wire.Ota.Relay.Loop.{Turnout, goes_on, finished, returns, halts}
use visio_schema.Wire.Ota.Relay.Call.{
  World, Request, Ran, uncommitted, bound_of, transfer, negotiated, asked, idle, quieted,
  run_transfer,
}
use visio_schema.Wire.Ota.Relay.Log.{
  watermark, success_heard, staged_heard, failure_heard, Coherent,
}
use visio_schema.Wire.Ota.Relay.Folds.{pump_statuses-Coherent}
use visio_schema.Wire.Ota.Relay.Sends.{Coherent-like, tell-Coherent, emit-Coherent}
use visio_schema.Wire.Ota.Relay.Promise.{Backed, Promise, after_first-Promise}
use visio_schema.Wire.Ota.Relay.Accounts.{waited_out}

-- The settings of a transfer differ from those of the request in the chunk size and the bound.
Backed-request :
    (c : Settings) (w : World) (size bound : ℕ) (st : State) (committed : Bool) (turnout : Turnout)
    → Backed (record c { chunk_bytes = size; max_resumes = bound }) w st committed turnout
    → Backed c w st committed turnout
unfolding Backed waited_out
Backed-request c w size bound st committed goes_on h = tt
Backed-request c w size bound st committed finished h = tt
Backed-request c w size bound st committed (returns o) h = h
Backed-request c w size bound st committed (halts e) h = h

Promise-request :
    (c : Settings) (w : World) (size bound : ℕ) (ran : Ran)
    → Promise (record c { chunk_bytes = size; max_resumes = bound }) w ran
    → Promise c w ran
Promise-request c w size bound ran h = record {
  coherent = record {
    acked = h.coherent.acked;
    succeeded = h.coherent.succeeded;
    staged = h.coherent.staged;
    failed = h.coherent.failed;
    sound = h.coherent.sound;
  };
  backed = Backed-request c w size bound ran.state ran.committed ran.turnout h.backed;
}

uncommitted-Promise :
    (c : Settings) (w : World) (st : State) (h : Halt)
    → Coherent c st
    → Promise c w (uncommitted st (halts h))
unfolding uncommitted Backed
uncommitted-Promise c w st e h = record { coherent = h; backed = inl refl }

transfer-Promise :
    (q : Request) (w : World) (st : State) (size : Result Halt ℕ)
    → Coherent q.settings st
    → Promise q.settings w (transfer q w st size)
unfolding transfer
transfer-Promise q w st (err e) h = uncommitted-Promise q.settings w st e h
transfer-Promise q w st (ok size) h =
    let c : Settings = record q.settings {
      chunk_bytes = size;
      max_resumes = bound_of q.max_resumes (total q.settings) size;
    } in
    if-cases (Promise q.settings w) w.begin_delivered
      (λ _. Promise-request q.settings w size _ _ (
        after_first-Promise c w (pump_statuses c _ w.first) (
          pump_statuses-Coherent c _ w.first (
            emit-Coherent c 0 "begin" _ (
              Coherent-like c
                (tell-Coherent c (begin (total c) size c.fw_version c.board) st
                  (record {
                    acked = h.acked;
                    succeeded = h.succeeded;
                    staged = h.staged;
                    failed = h.failed;
                    sound = h.sound;
                  })
                  tt)
                refl refl refl refl refl)))))
      (λ _. uncommitted-Promise q.settings w st (broken os_error) h)

idle-Coherent : (c : Settings) → Coherent c idle
unfolding idle watermark success_heard staged_heard failure_heard
idle-Coherent c = record {
  acked = refl;
  succeeded = refl;
  staged = refl;
  failed = refl;
  sound = tt;
}

note-Coherent :
    (c : Settings) (quiet : Bool) (st : State)
    → Coherent c st
    → Coherent c (note (quieting quiet) st)
unfolding note watermark success_heard staged_heard failure_heard
note-Coherent c quiet st h = record {
  acked = h.acked;
  succeeded = h.succeeded;
  staged = h.staged;
  failed = h.failed;
  sound = h.sound;
}

quieted-Coherent :
    (c : Settings) (answer : Option (Result Raised Bool)) (st : State)
    → Coherent c st
    → Coherent c (quieted answer st).0
unfolding quieted
quieted-Coherent c none st h = h
quieted-Coherent c (some (ok acknowledged)) st h = note-Coherent c true st h
quieted-Coherent c (some (err e)) st h = note-Coherent c true st h

asked-Coherent :
    (q : Request) (w : World) (st : State)
    → Coherent q.settings st
    → Coherent q.settings (asked q w st)
unfolding asked
asked-Coherent q w st h =
    if-cases (Coherent q.settings) (q.negotiate && w.query_delivered)
      (λ _. tell-Coherent q.settings query st h tt) (λ _. h)

run_transfer-Promise :
    (q : Request) (w : World) (st : State) (halt : Option Halt)
    → Coherent q.settings st
    → Promise q.settings w (run_transfer q w st halt)
unfolding run_transfer
run_transfer-Promise q w st none h =
    transfer-Promise q w (asked q w st) (negotiated q w) (asked-Coherent q w st h)
run_transfer-Promise q w st (some e) h = uncommitted-Promise q.settings w st e h

pub ran-Promise :
    (q : Request) (w : World)
    → Promise q.settings w (run_transfer q w (quieted w.quiesce idle).0 (quieted w.quiesce idle).2)
ran-Promise q w =
    run_transfer-Promise q w (quieted w.quiesce idle).0 (quieted w.quiesce idle).2
      (quieted-Coherent q.settings w.quiesce idle (idle-Coherent q.settings))
