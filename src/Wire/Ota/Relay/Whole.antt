-- ===== src/Wire/Ota/Relay/Whole.antt =====
-- The whole call of a relay: its messages, and what each outcome rests on.
use visio_schema.Common.{
  ◌≡◌, ◌⊎◌, refl, sym, ◌∙◌, if-cases, Bool, inl, inr, true, false, ◌&&◌, ◌||◌, List, ◌∷◌, arith,
}
use visio_schema.Wire.Ota.{os_error, decode_error, still_waiting, broken}
use visio_schema.Wire.Ota.Relay.{
  Reason, ok_staged, ok_success, ok_staged_no_transfer, ok_committed_unconfirmed,
  ok_link_after_commit, fail_device, fail_stalled, fail_deadline, fail_too_lossy, fail_link_dropped,
  ok_upload_only, Event, quieting, Settings, State, note, done,
}
use visio_schema.Wire.Ota.Relay.Loop.{Turnout, goes_on, finished, returns, halts}
use visio_schema.Wire.Ota.Relay.Call.{
  World, Request, idle, quieted, run_transfer, handled, is_over, restored, relay,
}
use visio_schema.Wire.Ota.Relay.Log.{
  watermark, success_heard, staged_heard, failure_heard, Sound, Coherent,
}
use visio_schema.Wire.Ota.Relay.Promise.{Backed}
use visio_schema.Wire.Ota.Relay.Accounts.{commit_told, is_success_reason, Basis, Accounted}
use visio_schema.Wire.Ota.Relay.Runs.{ran-Promise}

-- An outcome is accounted for.
abbrev pub Justified : Settings → World → List Event → Turnout → Type 0
Justified c w log goes_on = Unit
Justified c w log finished = Unit
Justified c w log (returns o) = Accounted c w log o
Justified c w log (halts h) = Unit

record Shown (c : Settings) (w : World) (log : List Event) (turnout : Turnout) : Type 0 where
  justified : Justified c w log turnout

dropped_after :
    (c : Settings) (w : World) (st : State) (committed : Bool)
    → Coherent c st
    → (committed ≡ false) ⊎ (commit_told st.log ≡ true)
    → (st.staged || committed) ≡ true
    → Basis c w st.log ok_link_after_commit
dropped_after c w st committed h (inr sent) late = inl sent
dropped_after c w st committed h (inl before) late =
    inr (sym h.staged ∙ ground (arith, before, late))

handled-Shown :
    (c : Settings) (w : World) (committed : Bool) (st : State) (turnout : Turnout)
    → Coherent c st
    → Backed c w st committed turnout
    → Shown c w st.log (handled c committed st turnout)
unfolding handled Backed done is_success_reason
handled-Shown c w committed st goes_on h b = record { justified = tt }
handled-Shown c w committed st finished h b = record { justified = tt }
handled-Shown c w committed st (returns o) h b = record { justified = b }
handled-Shown c w committed st (halts still_waiting) h b = record { justified = tt }
handled-Shown c w committed st (halts (broken decode_error)) h b = record { justified = tt }
handled-Shown c w committed st (halts (broken os_error)) h b =
    if-cases (Shown c w st.log) (st.staged || committed)
      {x = returns (done c true ok_link_after_commit st)}
      {y = returns (done c false fail_link_dropped st)}
      (λ late. record { justified = (refl, dropped_after c w st committed h b late) })
      (λ early. record { justified = (refl, sym h.staged ∙ ground (arith, early)) })

restored-Sound :
    (c : Settings) (acknowledged : Bool) (st : State) (turnout : Turnout)
    → Coherent c st
    → Sound c.session_id c.window c.image (restored acknowledged st turnout).log
unfolding restored note
restored-Sound c acknowledged st turnout h =
    if-cases (λ (after : State). Sound c.session_id c.window c.image after.log)
      (acknowledged && is_over turnout) (λ _. h.sound) (λ _. h.sound)

Basis-restored :
    (c : Settings) (w : World) (log : List Event) (reason : Reason)
    → Basis c w log reason
    → Basis c w (quieting false ∷ log) reason
unfolding watermark success_heard staged_heard failure_heard commit_told
Basis-restored c w log ok_staged h = h
Basis-restored c w log ok_success h = h
Basis-restored c w log ok_staged_no_transfer h = h
Basis-restored c w log ok_committed_unconfirmed h = h
Basis-restored c w log ok_link_after_commit h = h
Basis-restored c w log fail_device h = h
Basis-restored c w log fail_stalled h = h
Basis-restored c w log fail_deadline h = h
Basis-restored c w log fail_too_lossy h = h
Basis-restored c w log fail_link_dropped h = h
Basis-restored c w log ok_upload_only h = h

Justified-restored :
    (c : Settings) (w : World) (log : List Event) (turnout : Turnout)
    → Justified c w log turnout
    → Justified c w (quieting false ∷ log) turnout
Justified-restored c w log goes_on h = tt
Justified-restored c w log finished h = tt
Justified-restored c w log (returns o) h = (h.0, Basis-restored c w log o.reason h.1)
Justified-restored c w log (halts e) h = tt

restored-Justified :
    (c : Settings) (w : World) (acknowledged : Bool) (st : State) (ran turnout : Turnout)
    → Justified c w st.log turnout
    → Justified c w (restored acknowledged st ran).log turnout
unfolding restored note
restored-Justified c w acknowledged st ran turnout h =
    if-cases (λ (after : State). Justified c w after.log turnout) (acknowledged && is_over ran)
      {x = note (quieting false) st} {y = st} (λ _. Justified-restored c w st.log turnout h)
      (λ _. h)

-- Whatever the callbacks and the clock answer, along the whole call of a relay: every chunk that
-- is sent is the piece of the image at its offset and ends within the image, no chunk reaches
-- further than the window beyond what the device had acknowledged to this session by then, and a
-- commit is sent only when the device has acknowledged every byte or has reported SUCCESS, which
-- it may have done with bytes still missing.
pub relay-Sound :
    (q : Request) (w : World)
    → Sound q.settings.session_id q.settings.window q.settings.image (relay q w).0.log
unfolding relay
relay-Sound q w =
    let ran = run_transfer q w (quieted w.quiesce idle).0 (quieted w.quiesce idle).2 in
    restored-Sound q.settings (quieted w.quiesce idle).1 ran.state ran.turnout
      (ran-Promise q w).coherent

-- Whatever the callbacks and the clock answer, where a relay returns an outcome, it reports
-- success exactly with a reason for success, and the log bears the reason out. `ok_staged` and
-- `ok_success`: the commit was sent, the device reported STAGED or SUCCESS to this session, and no
-- error that counts. `ok_committed_unconfirmed`: the commit was sent, the device reported neither,
-- no error that counts, and the wait for its answer saw the clock at its end.
-- `ok_staged_no_transfer`: STAGED and no error that counts. `ok_upload_only`: no commit was
-- wanted, no error that counts, and every byte was acknowledged or SUCCESS reported.
-- `ok_link_after_commit`: the commit was sent or STAGED reported. `fail_device`: an error that
-- counts. `fail_link_dropped`: no STAGED. An error counts unless, after STAGED or SUCCESS, it has no
-- code or is the bounce `no_session`. Nothing is said of the log for a stall, the deadline or too
-- many resumes.
pub relay-Justified :
    (q : Request) (w : World) → Justified q.settings w (relay q w).0.log (relay q w).1
unfolding relay
relay-Justified q w =
    let ran = run_transfer q w (quieted w.quiesce idle).0 (quieted w.quiesce idle).2 in
    restored-Justified q.settings w (quieted w.quiesce idle).1 ran.state ran.turnout _
      (handled-Shown q.settings w ran.committed ran.state ran.turnout (ran-Promise q w).coherent
        (ran-Promise q w).backed).justified
