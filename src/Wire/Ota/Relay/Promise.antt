-- ===== src/Wire/Ota/Relay/Promise.antt =====
-- What a relay promises: every message was one that it may send, and every outcome is accounted for
-- by the log.
use visio_schema.Common.{
  Bool-cases, ◌+◌, min, leb, any, ℕ, ◌≤◌, ◌≡◌, ◌⊎◌, ltb, refl, sym, subst, ◌∙◌, if-cases, Bool, inl,
  inr, true, false, not, ◌&&◌, List, [], ◌∷◌, Option, none, some, length, arith,
}
use visio_schema.Wire.Ota.{commit, Halt, Recv}
use visio_schema.Wire.Ota.Relay.{
  Outcome, ok_staged, ok_success, ok_committed_unconfirmed, fail_device, ok_upload_only, Event,
  Settings, State, total, pump_statuses, note, message, tell, emit, abort_with, done, going,
}
use visio_schema.Wire.Ota.Relay.Loop.{
  Turnout, goes_on, finished, returns, halts, all_acked, send_loop,
}
use visio_schema.Wire.Ota.Relay.Call.{
  World, Ran, verdict, unless_raised, await_answer, after_commit, commit_phase, uncommitted,
  after_loop, conclude_loop, after_first,
}
use visio_schema.Wire.Ota.Relay.Log.{watermark, success_heard, failure_heard, Coherent}
use visio_schema.Wire.Ota.Relay.Folds.{pump_statuses-Coherent}
use visio_schema.Wire.Ota.Relay.Sends.{
  tell-Coherent, emit-Coherent, abort_with-Coherent, Fair, send_loop-Fair,
}
use visio_schema.Wire.Ota.Relay.Accounts.{
  is_commit, commit_told, is_success_reason, waited_out, Basis, Accounted, GivesUp-Accounted,
  pump_statuses-commit_told,
}

module _ (c : Settings) (w : World) where
  record Explained (log : List Event) (o : Outcome) : Type 0 where
    accounted : Accounted c w log o

  -- The end of a run: an outcome is accounted for.
  unfoldable pub Backed : State → Bool → Turnout → Type 0
  Backed st committed goes_on = Unit
  Backed st committed finished = Unit
  Backed st committed (returns o) = Accounted c w st.log o
  Backed st committed (halts h) = (committed ≡ false) ⊎ (commit_told st.log ≡ true)

  pub record Promise (ran : Ran) : Type 0 where
    pub coherent : Coherent c ran.state
    pub backed : Backed ran.state ran.committed ran.turnout

  -- After a commit: the log stays coherent and keeps it.
  Committed : State → Type 0
  Committed st = Coherent c st × (commit_told st.log ≡ true)

  -- The wait for the answer ends with an answer or at its deadline.
  abbrev Answered : ℕ → List (ℕ × List Recv) → State × Option Halt → Type 0
  Answered deadline rounds (st, none) =
      Committed st × ((going st ≡ false) ⊎ (any (λ r. leb deadline r.0) rounds ≡ true))
  Answered deadline rounds (st, some h) = Committed st

  Answered-later :
      (deadline : ℕ) (round : ℕ × List Recv) (rounds : List (ℕ × List Recv))
      (r : State × Option Halt)
      → Answered deadline rounds r
      → Answered deadline (round ∷ rounds) r
  Answered-later deadline round rounds (st, none) (h, inl e) = (h, inl e)
  Answered-later deadline round rounds (st, none) (h, inr e) = (h, inr (ground (arith, e)))
  Answered-later deadline round rounds (st, some e) h = h

  unless_raised-Answered :
      (deadline : ℕ) (rounds : List (ℕ × List Recv)) (others : State → State × Option Halt)
      → ((st : State) → Committed st → Answered deadline rounds (others st))
      → (r : State × Option Halt) → Committed r.0
      → Answered deadline rounds (unless_raised others r)
  unfolding unless_raised
  unless_raised-Answered deadline rounds others next (st, none) h = next st h
  unless_raised-Answered deadline rounds others next (st, some e) h = h

  await_answer-Answered :
      (deadline : ℕ) (rounds : List (ℕ × List Recv)) (st : State)
      → Committed st
      → Answered deadline rounds (await_answer c deadline rounds st)
  unfolding await_answer Committed
  await_answer-Answered deadline [] st h =
      if-cases (Answered deadline []) (going st) (λ _. h) (λ ended. (h, inl ended))
  await_answer-Answered deadline ((now, received) ∷ rounds) st h =
      if-cases (Answered deadline ((now, received) ∷ rounds)) (going st && ltb now deadline)
        (λ _.
          Answered-later deadline (now, received) rounds _
            (unless_raised-Answered deadline rounds (await_answer c deadline rounds)
              (await_answer-Answered deadline rounds) (pump_statuses c st received)
              (
                pump_statuses-Coherent c st received h.0,
                pump_statuses-commit_told c st received h.1,
              )))
        (λ over. (
          h,
          elim (Bool-cases (going st)) [ inl e ↦ inr (ground (arith, over, e)) | inr e ↦ inl e ],
        ))

  verdict-Explained :
      (st : State)
      → Committed st
      → (going st ≡ false) ⊎ (waited_out c w ≡ true)
      → Explained st.log (verdict c st)
  unfolding verdict done Committed is_success_reason going
  verdict-Explained st (h, sent) ended =
      if-cases (Explained st.log) st.failed {x = done c false fail_device st}
        (λ failed. record { accounted = (refl, sym h.failed ∙ failed) })
        (λ sound.
          let unfailed = sym h.failed ∙ sound in
          if-cases (Explained st.log) st.succeeded {x = done c true ok_success st}
            (λ success. record { accounted = (refl, (sent, sym h.succeeded ∙ success, unfailed)) })
            (λ unsure.
              if-cases (Explained st.log) st.staged {x = done c true ok_staged st}
                {y = done c true ok_committed_unconfirmed st}
                (λ staged. record { accounted = (refl, (sent, sym h.staged ∙ staged, unfailed)) })
                (λ unstaged.
                  let past : waited_out c w ≡ true = elim ended [
                    | inl e ↦ absurd (ground (arith, e, sound, unsure, unstaged))
                    | inr e ↦ e
                  ] in
                  record {
                    accounted = (
                      refl,
                      (sent, sym h.staged ∙ unstaged, sym h.succeeded ∙ unsure, unfailed, past),
                    );
                  })))

  after_commit-Promise :
      (r : State × Option Halt)
      → Answered (w.committed_at + min c.stall_timeout c.commit_wait) w.waits r
      → Promise (after_commit c r)
  unfolding after_commit Backed Committed waited_out
  after_commit-Promise (st, none) h = record {
    coherent = h.0.0;
    backed = (verdict-Explained st h.0 h.1).accounted;
  }
  after_commit-Promise (st, some e) h = record { coherent = h.0; backed = inr h.1 }

  -- What the end of the send loop leaves to decide.
  Through : State → Type 0
  Through st =
      (length c.image ≤ watermark c.session_id st.log) ⊎ (success_heard c.session_id st.log ≡ true)

  commit_phase-Promise : (st : State) → Coherent c st → Through st → Promise (commit_phase c w st)
  unfolding commit_phase Through Backed Committed tell note message emit commit_told is_commit
      watermark success_heard
  commit_phase-Promise st h through =
      if-cases Promise w.commit_delivered
        (λ _.
          after_commit-Promise
            (await_answer c _ w.waits (tell c commit (emit c st.cursor "committing" st)))
            (await_answer-Answered _ w.waits (tell c commit (emit c st.cursor "committing" st)) (
              tell-Coherent c commit (emit c st.cursor "committing" st)
                  (emit-Coherent c st.cursor "committing" st h) through,
              refl,
            )))
        (λ _. record { coherent = emit-Coherent c st.cursor "committing" st h; backed = inl refl })

  through :
      (st : State)
      → Coherent c st
      → (going st ≡ false) ⊎ (all_acked c st ≡ true)
      → st.failed ≡ false
      → st.staged ≡ false
      → Through st
  unfolding Through going all_acked total
  through st h (inl ended) failed staged =
      inr (sym h.succeeded ∙ ground (arith, ended, failed, staged))
  through st h (inr complete) failed staged =
      inl (subst (λ n. length c.image ≤ n) h.acked (ground (arith, complete)))

  upload-Basis :
      (st : State) (delivered : Bool)
      → Coherent c st
      → c.commits ≡ false
      → st.failed ≡ false
      → Through st
      → Basis c w (abort_with c delivered "no-flash" st).log ok_upload_only
  unfolding Through abort_with tell note watermark success_heard failure_heard
  upload-Basis st true h kept sound reached = (kept, sym h.failed ∙ sound, reached)
  upload-Basis st false h kept sound reached = (kept, sym h.failed ∙ sound, reached)

  after_loop-Promise :
      (st : State)
      → Coherent c st
      → (going st ≡ false) ⊎ (all_acked c st ≡ true)
      → Promise (after_loop c w st)
  unfolding after_loop uncommitted Backed done is_success_reason
  after_loop-Promise st h ended =
      if-cases Promise st.failed
        (λ failed. record { coherent = h; backed = (refl, sym h.failed ∙ failed) })
        (λ sound.
          if-cases Promise st.staged
            (λ staged. record {
              coherent = h;
              backed = (refl, (sym h.staged ∙ staged, sym h.failed ∙ sound));
            })
            (λ unstaged.
              if-cases Promise (not c.commits)
                (λ kept. record {
                  coherent = abort_with-Coherent c w.abort_delivered "no-flash" st h;
                  backed = (
                    refl,
                    upload-Basis st w.abort_delivered h (ground (arith, kept)) sound
                        (through st h ended sound unstaged),
                  );
                })
                (λ _. commit_phase-Promise st h (through st h ended sound unstaged))))

  conclude_loop-Promise : (r : State × Turnout) → Fair c r → Promise (conclude_loop c w r)
  unfolding conclude_loop uncommitted Backed
  conclude_loop-Promise (st, goes_on) h = record { coherent = h; backed = tt }
  conclude_loop-Promise (st, finished) h = after_loop-Promise st h.0 h.1
  conclude_loop-Promise (st, returns o) h = record {
    coherent = h.0;
    backed = GivesUp-Accounted c w st.log o h.1;
  }
  conclude_loop-Promise (st, halts e) h = record { coherent = h; backed = inl refl }

  pub after_first-Promise : (r : State × Option Halt) → Coherent c r.0 → Promise (after_first c w r)
  unfolding after_first uncommitted Backed
  after_first-Promise (st, none) h =
      conclude_loop-Promise (send_loop c w.started w.ticks st)
        (send_loop-Fair c w.started w.ticks st h)
  after_first-Promise (st, some e) h = record { coherent = h; backed = inl refl }
