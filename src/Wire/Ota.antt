-- ===== src/Wire/Ota.antt =====
-- python/visio_schema/wire/ota.py: the messages of an update and the choice of the chunk size. An
-- OtaMessage and an OtaStatus stand for their protobuf bytes, a time for its value of the clock.
pub mod Adverts
pub mod Negotiate
pub mod Relay
use visio_schema.Common.{
  ℕ, ◌+◌, ◌*◌, ◌==◌, min, max, ltb, if◌then◌else◌, Bool, true, false, not, ◌&&◌, String, str_eq,
  List, [], ◌∷◌, Option, none, some, Result, ok, err, ◌>>=◌, take,
}

abbrev pub max_chunk_bytes : ℕ
max_chunk_bytes = 60 * 1024

abbrev pub min_chunk_bytes : ℕ
min_chunk_bytes = 8 * 1024

-- "VENC" and "RKFW".
abbrev pub venc_magic : List ℕ
venc_magic = 86 ∷ 69 ∷ 78 ∷ 67 ∷ []

abbrev pub rkfw_magic : List ℕ
rkfw_magic = 82 ∷ 75 ∷ 70 ∷ 87 ∷ []

unfoldable pub same_magic : List ℕ → List ℕ → Bool
same_magic [] [] = true
same_magic [] (c ∷ cs) = false
same_magic (b ∷ bs) [] = false
same_magic (b ∷ bs) (c ∷ cs) = (b == c) && same_magic bs cs

pub data BundleError : Type 0 where
  raw_image : BundleError
  not_a_bundle : BundleError

unfoldable pub bundle_error : List ℕ → Option BundleError
bundle_error raw =
    if same_magic (take 4 raw) venc_magic
    then none
    else if same_magic (take 4 raw) rkfw_magic
    then some raw_image
    else some not_a_bundle

pub data OtaBody : Type 0 where
  begin : ℕ → ℕ → String → String → OtaBody
  chunk : ℕ → List ℕ → OtaBody
  commit : OtaBody
  abort : String → OtaBody
  query : OtaBody

pub record OtaMessage : Type 0 where
  pub session_id : ℕ
  pub target_device : String
  pub body : OtaBody

-- The states that the sender tells apart.
pub data OtaState : Type 0 where
  is_staged : OtaState
  is_success : OtaState
  needs_resume : OtaState
  is_failed : OtaState
  other_state : OtaState

pub record OtaStatus : Type 0 where
  pub session_id : ℕ
  pub state : OtaState
  pub bytes_received : ℕ
  pub max_chunk : ℕ
  pub error_code : String
  pub error_message : String

-- What a callback of the transport or ParseFromString may raise.
pub data Raised : Type 0 where
  os_error : Raised
  decode_error : Raised

-- Why a call of the transport does not go on: it still waits where its input is at its end, or it
-- raised.
pub data Halt : Type 0 where
  still_waiting : Halt
  broken : Raised → Halt

-- What `recv` answers, its payload parsed.
pub data Recv : Type 0 where
  heard : OtaStatus → Recv
  silence : Recv
  raises : Raised → Recv

-- `s.session_id and s.session_id != session_id`
unfoldable pub foreign : ℕ → OtaStatus → Bool
foreign session s = not (s.session_id == 0) && not (s.session_id == session)

-- One round of a wait: the clock's answer in the loop's test, and recv's.
abbrev pub WaitRound : Type 0
WaitRound = ℕ × Recv

unfoldable pub least : ℕ → ℕ → ℕ
least smallest advert =
    if advert == 0 then smallest else if smallest == 0 then advert else min smallest advert

unfoldable pub next_smallest : ℕ → ℕ → OtaStatus → ℕ
next_smallest session smallest s =
    if foreign session s then smallest else least smallest s.max_chunk

-- The smallest size that a device advertises, or 0, once the time is up.
unfoldable pub smallest_advert : ℕ → ℕ → ℕ → List WaitRound → Result Halt ℕ
smallest_advert session deadline smallest [] = err still_waiting
smallest_advert session deadline smallest ((now, heard s) ∷ rounds) =
    let rest = smallest_advert session deadline (next_smallest session smallest s) rounds in
    if ltb now deadline then rest else ok smallest
smallest_advert session deadline smallest ((now, silence) ∷ rounds) =
    let rest = smallest_advert session deadline smallest rounds in
    if ltb now deadline then rest else ok smallest
smallest_advert session deadline smallest ((now, raises e) ∷ rounds) =
    if ltb now deadline then err (broken e) else ok smallest

unfoldable pub chunk_size : ℕ → ℕ → ℕ
chunk_size want smallest =
    if smallest == 0 then want else max min_chunk_bytes (min smallest max_chunk_bytes)

unfoldable pub capped : ℕ → ℕ → ℕ
capped cap out = if cap == 0 then out else min out cap

-- `negotiate_chunk`: what the query's send did, when the wait began, and its rounds.
unfoldable pub negotiate_chunk : ℕ → ℕ → ℕ → ℕ → Bool → ℕ → List WaitRound → Result Halt ℕ
negotiate_chunk session want cap query_wait delivered started rounds =
    if delivered
    then (do
      smallest ← smallest_advert session (started + query_wait) 0 rounds
      ok (capped cap (chunk_size want smallest)))
    else err (broken os_error)
