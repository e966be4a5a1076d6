-- ===== src/Wire/Ota/Relay.antt =====
-- python/visio_schema/wire/ota.py: `relay`, as a function of what its callbacks and its clock
-- answer. The log has what was sent and received, the last event first.
pub mod Loop
pub mod Call
pub mod Log
pub mod Folds
pub mod Sends
pub mod Accounts
pub mod Promise
pub mod Runs
pub mod Whole
pub mod Receives
pub mod Ends
use visio_schema.Common.{
  ℕ, ◌+◌, ◌-◌, ◌*◌, ◌==◌, min, max, ltb, leb, if◌then◌else◌, Bool, true, false, not, ◌&&◌, ◌||◌,
  String, str_eq, List, [], ◌∷◌, Option, none, some, length, take, drop,
}
use visio_schema.Wire.Ota.{
  OtaBody, OtaMessage, begin, chunk, commit, abort, OtaState, is_staged, is_success, needs_resume,
  is_failed, other_state, OtaStatus, Raised, Halt, still_waiting, broken, Recv, heard, silence,
  raises, WaitRound, foreign,
}

pub record Progress : Type 0 where
  pub sent : ℕ
  pub acked : ℕ
  pub total : ℕ
  pub resumes : ℕ
  pub state : String

pub data Event : Type 0 where
  told : OtaMessage → Event
  got : OtaStatus → Event
  progress : Progress → Event
  quieting : Bool → Event

pub data Reason : Type 0 where
  ok_staged : Reason
  ok_success : Reason
  ok_staged_no_transfer : Reason
  ok_committed_unconfirmed : Reason
  ok_link_after_commit : Reason
  fail_device : Reason
  fail_stalled : Reason
  fail_deadline : Reason
  fail_too_lossy : Reason
  fail_link_dropped : Reason
  ok_upload_only : Reason

-- `detail`, a text for humans, is left out.
pub record Outcome : Type 0 where
  pub is_ok : Bool
  pub acked : ℕ
  pub total : ℕ
  pub resumes : ℕ
  pub reason : Reason

-- The arguments, once the chunk size and the bound on resumes are known.
pub record Settings : Type 0 where
  pub image : List ℕ
  pub fw_version : String
  pub board : String
  pub target_device : String
  pub session_id : ℕ
  pub window : ℕ
  pub chunk_bytes : ℕ
  pub max_resumes : ℕ
  pub commits : Bool
  pub stall_timeout : ℕ
  pub soft_retry : ℕ
  pub commit_wait : ℕ
  pub deadline : ℕ

-- The dict `st`, the counters of the loop, and the log.
pub record State : Type 0 where
  pub acked : ℕ
  pub staged : Bool
  pub succeeded : Bool
  pub failed : Bool
  pub resume_to : Option ℕ
  pub cursor : ℕ
  pub last_ack : ℕ
  pub last_log : ℕ
  pub resumes : ℕ
  pub last_progress : ℕ
  pub last_soft : ℕ
  pub log : List Event

unfoldable pub total : Settings → ℕ
total c = length c.image

unfoldable pub slice : List ℕ → ℕ → ℕ → List ℕ
slice image offset n = take n (drop offset image)

-- What is left of an error after staging: only `no_session` bounces are ignored.
unfoldable pub bounced : String → Bool
bounced code = str_eq code "" || str_eq code "no_session"

unfoldable pub fold_failure : OtaStatus → State → State
fold_failure s st =
    if (st.staged || st.succeeded) && bounced s.error_code then st else record st { failed = true }

unfoldable pub fold_as : OtaState → OtaStatus → State → State
fold_as is_staged s st = record st { staged = true; acked = max st.acked s.bytes_received }
fold_as is_success s st = record st { succeeded = true }
fold_as needs_resume s st =
    if st.staged || st.succeeded then st else record st { resume_to = some s.bytes_received }
fold_as is_failed s st = fold_failure s st
fold_as other_state s st =
    if str_eq s.error_code ""
    then record st { acked = max st.acked s.bytes_received }
    else fold_failure s st

unfoldable pub note : Event → State → State
note event st = record st { log = event ∷ st.log }

unfoldable pub fold : Settings → OtaStatus → State → State
fold c s st =
    if foreign c.session_id s then note (got s) st else fold_as s.state s (note (got s) st)

-- `pump`, given what recv answers: it reads until recv has nothing more.
unfoldable pub pump_statuses : Settings → State → List Recv → State × Option Halt
pump_statuses c st [] = (st, some still_waiting)
pump_statuses c st (heard s ∷ more) = pump_statuses c (fold c s st) more
pump_statuses c st (silence ∷ more) = (st, none)
pump_statuses c st (raises e ∷ more) = (st, some (broken e))

unfoldable pub message : Settings → OtaBody → OtaMessage
message c body = record { session_id = c.session_id; target_device = c.target_device; body = body }

unfoldable pub tell : Settings → OtaBody → State → State
tell c body st = note (told (message c body)) st

unfoldable pub emit : Settings → ℕ → String → State → State
emit c sent state st =
    note
      (progress (record {
        sent = sent;
        acked = st.acked;
        total = total c;
        resumes = st.resumes;
        state = state;
      }))
      st

-- `abort`: a send that raises OSError is let pass.
unfoldable pub abort_with : Settings → Bool → String → State → State
abort_with c delivered reason st = if delivered then tell c (abort reason) st else st

unfoldable pub done : Settings → Bool → Reason → State → Outcome
done c is_ok reason st = record {
  is_ok = is_ok;
  acked = st.acked;
  total = total c;
  resumes = st.resumes;
  reason = reason;
}

unfoldable pub going : State → Bool
going st = not st.failed && not st.succeeded && not st.staged
