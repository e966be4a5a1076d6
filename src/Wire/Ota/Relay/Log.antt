-- ===== src/Wire/Ota/Relay/Log.antt =====
-- What the log of a relay says, by itself: what the device has acknowledged, and which messages
-- the sender may send.
use visio_schema.Common.{
  ℕ, ◌+◌, ◌≤◌, ◌≡◌, ◌⊎◌, max, if◌then◌else◌, Bool, true, false, not, ◌&&◌, ◌||◌, str_eq, List, [],
  ◌∷◌, length,
}
use visio_schema.Wire.Ota.{
  OtaBody, begin, chunk, commit, abort, query, OtaState, is_staged, is_success, needs_resume,
  is_failed, other_state, OtaStatus, foreign,
}
use visio_schema.Wire.Ota.Relay.{Event, told, got, progress, quieting, Settings, State, slice}

-- A status that says how many bytes the device has.
unfoldable pub credits_as : OtaState → OtaStatus → Bool
credits_as is_staged s = true
credits_as is_success s = false
credits_as needs_resume s = false
credits_as is_failed s = false
credits_as other_state s = str_eq s.error_code ""

unfoldable pub says_success : OtaState → Bool
says_success is_staged = false
says_success is_success = true
says_success needs_resume = false
says_success is_failed = false
says_success other_state = false

unfoldable pub says_staged : OtaState → Bool
says_staged is_staged = true
says_staged is_success = false
says_staged needs_resume = false
says_staged is_failed = false
says_staged other_state = false

unfoldable pub says_failure : OtaState → OtaStatus → Bool
says_failure is_staged s = false
says_failure is_success s = false
says_failure needs_resume s = false
says_failure is_failed s = true
says_failure other_state s = not (str_eq s.error_code "")

unfoldable pub excused : Bool → OtaStatus → Bool
excused over s = over && (str_eq s.error_code "" || str_eq s.error_code "no_session")

module _ (session : ℕ) where
  -- The most bytes that the device has acknowledged to this session.
  unfoldable pub watermark : List Event → ℕ
  watermark [] = 0
  watermark (got s ∷ older) =
      let before = watermark older in
      if foreign session s
      then before
      else if credits_as s.state s
      then max before s.bytes_received
      else before
  watermark (told m ∷ older) = watermark older
  watermark (progress p ∷ older) = watermark older
  watermark (quieting b ∷ older) = watermark older

  -- The device has reported SUCCESS to this session.
  unfoldable pub success_heard : List Event → Bool
  success_heard [] = false
  success_heard (got s ∷ older) =
      (not (foreign session s) && says_success s.state) || success_heard older
  success_heard (told m ∷ older) = success_heard older
  success_heard (progress p ∷ older) = success_heard older
  success_heard (quieting b ∷ older) = success_heard older

  -- The device has reported STAGED to this session.
  unfoldable pub staged_heard : List Event → Bool
  staged_heard [] = false
  staged_heard (got s ∷ older) =
      (not (foreign session s) && says_staged s.state) || staged_heard older
  staged_heard (told m ∷ older) = staged_heard older
  staged_heard (progress p ∷ older) = staged_heard older
  staged_heard (quieting b ∷ older) = staged_heard older

  -- The device has reported an error to this session. Once it has staged the image or reported
  -- SUCCESS, a FAILED without a code and the bounce of a late chunk do not count.
  unfoldable pub failure_heard : List Event → Bool
  failure_heard [] = false
  failure_heard (got s ∷ older) =
      let before = failure_heard older in
      if foreign session s
      then before
      else (says_failure s.state s && not (excused (staged_heard older || success_heard older) s))
        || before
  failure_heard (told m ∷ older) = failure_heard older
  failure_heard (progress p ∷ older) = failure_heard older
  failure_heard (quieting b ∷ older) = failure_heard older

  module _ (window : ℕ) (image : List ℕ) where
    -- After `older`, a chunk is the piece of the image at its offset and keeps what is in flight
    -- within the window; a commit comes when the device has every byte, or has said SUCCESS.
    abbrev pub MaySend : OtaBody → List Event → Type 0
    MaySend (begin total size version board) older = Unit
    MaySend (chunk offset bytes) older =
        (bytes ≡ slice image offset (length bytes))
        × (offset + length bytes ≤ length image)
        × (offset + length bytes ≤ window + watermark older)
    MaySend commit older = (length image ≤ watermark older) ⊎ (success_heard older ≡ true)
    MaySend (abort reason) older = Unit
    MaySend query older = Unit

    abbrev pub Sound : List Event → Type 0
    Sound [] = Unit
    Sound (told m ∷ older) = MaySend m.body older × Sound older
    Sound (got s ∷ older) = Sound older
    Sound (progress p ∷ older) = Sound older
    Sound (quieting b ∷ older) = Sound older

-- The state agrees with the log.
pub record Coherent (c : Settings) (st : State) : Type 0 where
  pub acked : st.acked ≡ watermark c.session_id st.log
  pub succeeded : st.succeeded ≡ success_heard c.session_id st.log
  pub staged : st.staged ≡ staged_heard c.session_id st.log
  pub failed : st.failed ≡ failure_heard c.session_id st.log
  pub sound : Sound c.session_id c.window c.image st.log
