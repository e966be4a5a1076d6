-- ===== src/Wire/Ota/Relay/Accounts.antt =====
-- What accounts for the outcome of a relay.
use visio_schema.Common.{
  ◌+◌, min, leb, any, ◌≤◌, ◌≡◌, ◌⊎◌, refl, sym, ap, subst, ◌∙◌, Bool, inl, inr, true, false, ◌||◌,
  List, [], ◌∷◌, length,
}
use visio_schema.Wire.Ota.{
  OtaBody, begin, chunk, commit, abort, query, Recv, heard, silence, raises,
}
use visio_schema.Wire.Ota.Relay.{
  Reason, Outcome, ok_staged, ok_success, ok_staged_no_transfer, ok_committed_unconfirmed,
  ok_link_after_commit, fail_device, fail_stalled, fail_deadline, fail_too_lossy, fail_link_dropped,
  ok_upload_only, Event, told, got, progress, quieting, Settings, State, total, pump_statuses, fold,
}
use visio_schema.Wire.Ota.Relay.Call.{World}
use visio_schema.Wire.Ota.Relay.Log.{watermark, success_heard, staged_heard, failure_heard}
use visio_schema.Wire.Ota.Relay.Folds.{fold-log}
use visio_schema.Wire.Ota.Relay.Sends.{GivesUp}

unfoldable pub is_commit : OtaBody → Bool
is_commit (begin total size version board) = false
is_commit (chunk offset bytes) = false
is_commit commit = true
is_commit (abort reason) = false
is_commit query = false

unfoldable pub commit_told : List Event → Bool
commit_told [] = false
commit_told (told m ∷ older) = is_commit m.body || commit_told older
commit_told (got s ∷ older) = commit_told older
commit_told (progress p ∷ older) = commit_told older
commit_told (quieting b ∷ older) = commit_told older

unfoldable pub is_success_reason : Reason → Bool
is_success_reason ok_staged = true
is_success_reason ok_success = true
is_success_reason ok_staged_no_transfer = true
is_success_reason ok_committed_unconfirmed = true
is_success_reason ok_link_after_commit = true
is_success_reason ok_upload_only = true
is_success_reason fail_device = false
is_success_reason fail_stalled = false
is_success_reason fail_deadline = false
is_success_reason fail_too_lossy = false
is_success_reason fail_link_dropped = false

-- A test of the wait for the answer to the commit saw the clock at its end.
unfoldable pub waited_out : Settings → World → Bool
waited_out c w = any (λ r. leb (w.committed_at + min c.stall_timeout c.commit_wait) r.0) w.waits

pub pump_statuses-commit_told :
    (c : Settings) (st : State) (received : List Recv)
    → commit_told st.log ≡ true
    → commit_told (pump_statuses c st received).0.log ≡ true
unfolding pump_statuses commit_told
pump_statuses-commit_told c st [] h = h
pump_statuses-commit_told c st (heard s ∷ more) h =
    pump_statuses-commit_told c (fold c s st) more (ap commit_told (fold-log c s st) ∙ h)
pump_statuses-commit_told c st (silence ∷ more) h = h
pump_statuses-commit_told c st (raises e ∷ more) h = h

module _ (c : Settings) (w : World) where
  -- What the log says where a relay gives a reason.
  abbrev pub Basis : List Event → Reason → Type 0
  Basis log ok_staged =
      (commit_told log ≡ true)
      × (staged_heard c.session_id log ≡ true)
      × (failure_heard c.session_id log ≡ false)
  Basis log ok_success =
      (commit_told log ≡ true)
      × (success_heard c.session_id log ≡ true)
      × (failure_heard c.session_id log ≡ false)
  Basis log ok_staged_no_transfer =
      (staged_heard c.session_id log ≡ true) × (failure_heard c.session_id log ≡ false)
  Basis log ok_committed_unconfirmed =
      (commit_told log ≡ true)
      × (staged_heard c.session_id log ≡ false)
      × (success_heard c.session_id log ≡ false)
      × (failure_heard c.session_id log ≡ false)
      × (waited_out c w ≡ true)
  Basis log ok_link_after_commit = (commit_told log ≡ true) ⊎ (staged_heard c.session_id log ≡ true)
  Basis log ok_upload_only =
      (c.commits ≡ false)
      × (failure_heard c.session_id log ≡ false)
      × ((length c.image ≤ watermark c.session_id log) ⊎ (success_heard c.session_id log ≡ true))
  Basis log fail_device = failure_heard c.session_id log ≡ true
  Basis log fail_stalled = Unit
  Basis log fail_deadline = Unit
  Basis log fail_too_lossy = Unit
  Basis log fail_link_dropped = staged_heard c.session_id log ≡ false

  abbrev pub Accounted : List Event → Outcome → Type 0
  Accounted log o = (o.is_ok ≡ is_success_reason o.reason) × Basis log o.reason

  failed-Accounted :
      (log : List Event) (o : Outcome) (r : Reason)
      → o.is_ok ≡ false
      → o.reason ≡ r
      → is_success_reason r ≡ false
      → Basis log r
      → Accounted log o
  failed-Accounted log o r bad same fails basis =
      (bad ∙ sym (ap is_success_reason same ∙ fails), subst (Basis log) (sym same) basis)

  pub GivesUp-Accounted : (log : List Event) (o : Outcome) → GivesUp c o → Accounted log o
  unfolding is_success_reason
  GivesUp-Accounted log o (bad, inl e) = failed-Accounted log o fail_deadline bad e refl tt
  GivesUp-Accounted log o (bad, inr (inl e)) = failed-Accounted log o fail_stalled bad e refl tt
  GivesUp-Accounted log o (bad, inr (inr e)) = failed-Accounted log o fail_too_lossy bad e refl tt
