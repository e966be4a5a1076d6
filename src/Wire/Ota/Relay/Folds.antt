-- ===== src/Wire/Ota/Relay/Folds.antt =====
-- Statuses are folded as the log counts them.
use visio_schema.Common.{
  ◌≡◌, max, refl, ap, ap₂, ◌∙◌, if◌then◌else◌, Bool-cases, inl, inr, true, false, not, ◌&&◌, ◌||◌,
  List, [], ◌∷◌, arith,
}
use visio_schema.Wire.Ota.{
  OtaState, is_staged, is_success, needs_resume, is_failed, other_state, OtaStatus, Recv, heard,
  silence, raises, foreign,
}
use visio_schema.Wire.Ota.Relay.{
  got, Settings, State, fold_failure, fold_as, note, fold, pump_statuses, bounced,
}
use visio_schema.Wire.Ota.Relay.Log.{
  watermark, success_heard, staged_heard, failure_heard, says_failure, excused, says_success,
  says_staged, credits_as, Coherent,
}

-- What one status does, field by field.
fold_failure-log : (s : OtaStatus) (st : State) → (fold_failure s st).log ≡ st.log
unfolding fold_failure
fold_failure-log s st = ground arith

fold_as-log : (k : OtaState) (s : OtaStatus) (st : State) → (fold_as k s st).log ≡ st.log
unfolding fold_as fold_failure
fold_as-log is_staged s st = refl
fold_as-log is_success s st = refl
fold_as-log needs_resume s st = ground arith
fold_as-log is_failed s st = ground arith
fold_as-log other_state s st = ground arith

fold_as-acked :
    (k : OtaState) (s : OtaStatus) (st : State)
    → (fold_as k s st).acked ≡ (if credits_as k s then max st.acked s.bytes_received else st.acked)
unfolding fold_as fold_failure credits_as
fold_as-acked is_staged s st = refl
fold_as-acked is_success s st = refl
fold_as-acked needs_resume s st = ground arith
fold_as-acked is_failed s st = ground arith
fold_as-acked other_state s st = ground arith

fold_as-succeeded :
    (k : OtaState) (s : OtaStatus) (st : State)
    → (fold_as k s st).succeeded ≡ (says_success k || st.succeeded)
unfolding fold_as fold_failure says_success
fold_as-succeeded is_staged s st = refl
fold_as-succeeded is_success s st = refl
fold_as-succeeded needs_resume s st = ground arith
fold_as-succeeded is_failed s st = ground arith
fold_as-succeeded other_state s st = ground arith

fold_as-staged :
    (k : OtaState) (s : OtaStatus) (st : State)
    → (fold_as k s st).staged ≡ (says_staged k || st.staged)
unfolding fold_as fold_failure says_staged
fold_as-staged is_staged s st = refl
fold_as-staged is_success s st = refl
fold_as-staged needs_resume s st = ground arith
fold_as-staged is_failed s st = ground arith
fold_as-staged other_state s st = ground arith

fold_as-failed :
    (k : OtaState) (s : OtaStatus) (st : State)
    → (fold_as k s st).failed
      ≡ ((says_failure k s && not (excused (st.staged || st.succeeded) s)) || st.failed)
unfolding fold_as fold_failure says_failure excused bounced
fold_as-failed is_staged s st = refl
fold_as-failed is_success s st = refl
fold_as-failed needs_resume s st = ground arith
fold_as-failed is_failed s st = ground arith
fold_as-failed other_state s st = ground arith

fold_as-Coherent :
    (c : Settings) (s : OtaStatus) (st : State)
    → Coherent c st
    → foreign c.session_id s ≡ false
    → Coherent c (fold_as s.state s (note (got s) st))
unfolding note watermark success_heard staged_heard failure_heard
fold_as-Coherent c s st h ours =
    let same = fold_as-log s.state s (note (got s) st) in
    record {
      acked = rw same (
          rw ours (
            fold_as-acked s.state s (note (got s) st)
            ∙ ap (λ a. if credits_as s.state s then max a s.bytes_received else a) h.acked));
      succeeded = rw same (
          rw ours (
            fold_as-succeeded s.state s (note (got s) st)
            ∙ ap (λ b. says_success s.state || b) h.succeeded));
      staged = rw same (
          rw ours (
            fold_as-staged s.state s (note (got s) st)
            ∙ ap (λ b. says_staged s.state || b) h.staged));
      failed = rw same (
          rw ours (
            fold_as-failed s.state s (note (got s) st)
            ∙ ap (λ b. (says_failure s.state s && not (excused b s)) || st.failed)
                (ap₂ (λ a b. a || b) h.staged h.succeeded)
            ∙ ap
                (λ b.
                  (says_failure s.state s
                    && not (
                        excused
                          (staged_heard c.session_id st.log || success_heard c.session_id st.log)
                          s))
                  || b)
                h.failed));
      sound = rw same h.sound;
    }

note-got-Coherent :
    (c : Settings) (s : OtaStatus) (st : State)
    → Coherent c st
    → foreign c.session_id s ≡ true
    → Coherent c (note (got s) st)
unfolding note watermark success_heard staged_heard failure_heard
note-got-Coherent c s st h theirs = record {
  acked = rw theirs h.acked;
  succeeded = rw theirs h.succeeded;
  staged = rw theirs h.staged;
  failed = rw theirs h.failed;
  sound = h.sound;
}

pub fold-log : (c : Settings) (s : OtaStatus) (st : State) → (fold c s st).log ≡ got s ∷ st.log
unfolding fold note
fold-log c s st = elim (Bool-cases (foreign c.session_id s)) [
  | inl e ↦ rw e refl
  | inr e ↦ rw e (fold_as-log s.state s (note (got s) st))
]

fold-Coherent :
    (c : Settings) (s : OtaStatus) (st : State) → Coherent c st → Coherent c (fold c s st)
unfolding fold
fold-Coherent c s st h = elim (Bool-cases (foreign c.session_id s)) [
  | inl e ↦ rw e (note-got-Coherent c s st h e)
  | inr e ↦ rw e (fold_as-Coherent c s st h e)
]

pub pump_statuses-Coherent :
    (c : Settings) (st : State) (received : List Recv)
    → Coherent c st
    → Coherent c (pump_statuses c st received).0
unfolding pump_statuses
pump_statuses-Coherent c st [] h = h
pump_statuses-Coherent c st (heard s ∷ more) h =
    pump_statuses-Coherent c (fold c s st) more (fold-Coherent c s st h)
pump_statuses-Coherent c st (silence ∷ more) h = h
pump_statuses-Coherent c st (raises e ∷ more) h = h
