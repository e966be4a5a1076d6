-- ===== src/Wire/Message.antt =====
-- python/visio_schema/wire/message.py: the in-memory message and its header.
use visio_schema.Common.{
  ℕ, ◌≡◌, Bool, List, Option, ltb, if◌then◌else◌, Result, ok, err, ◌>>=◌, arith, chain-eq-ok,
}
use visio_schema.Wire.Header.{
  SyncPoint, Header, Codec, IsLawful, Fits, SyncPointFits, u32_limit, u64_limit,
}
use visio_schema.Wire.Frame.{FrameError, encode_frame, decode_frame}
use visio_schema.Wire.Frame.RoundTrip.{decode-encode_frame}

pub record Message (T : Type 0) : Type 0 where
  pub stream_id : ℕ
  pub payload : List ℕ
  pub seq : ℕ
  pub timestamp : T
  pub clock_authority_epoch : ℕ
  pub clock_revision : ℕ
  pub sync_point : Option SyncPoint
  pub keyframe : Bool

-- A header field is out of its protobuf type's range, or the frame cannot be built.
pub data SendError : Type 0 where
  out_of_range : SendError
  frame_error : FrameError → SendError

-- h.field = n of an unsigned field: the generated class raises ValueError out of range.
unfoldable pub check_below : ℕ → ℕ → Result SendError ℕ
check_below limit n = if ltb n limit then ok n else err out_of_range

unfoldable pub to_header : {T : Type 0} → Message T → Result SendError (Header T)
unfolding check_below
to_header m = do
  stream_id ← check_below u32_limit m.stream_id
  seq ← check_below u32_limit m.seq
  epoch ← check_below u64_limit m.clock_authority_epoch
  revision ← check_below u32_limit m.clock_revision
  ok (record {
    stream_id = stream_id;
    seq = seq;
    timestamp = m.timestamp;
    keyframe = m.keyframe;
    clock_authority_epoch = epoch;
    clock_revision = revision;
    sync_point = m.sync_point;
  })

unfoldable pub from_header : {T : Type 0} → Header T → List ℕ → Message T
from_header h payload = record {
  stream_id = h.stream_id;
  payload = payload;
  seq = h.seq;
  timestamp = h.timestamp;
  clock_authority_epoch = h.clock_authority_epoch;
  clock_revision = h.clock_revision;
  sync_point = h.sync_point;
  keyframe = h.keyframe;
}

-- A `FrameError` goes on to the caller.
unfoldable pub raise_frame : {A : Type 0} → Result FrameError A → Result SendError A
raise_frame (ok a) = ok a
raise_frame (err e) = err (frame_error e)

module _ {T : Type 0} (c : Codec T) where
  unfoldable pub encode_message : Message T → Result SendError (List ℕ)
  encode_message msg = do header ← to_header msg; raise_frame (encode_frame c header msg.payload)

  unfoldable pub decode_message : List ℕ → Result FrameError (Message T)
  decode_message frame = do
    (header, payload) ← decode_frame c frame
    ok (from_header header payload)

-- The sync point of a message is a protobuf message already, so its fields are in range.
pub to_header-Fits :
    {T : Type 0} (m : Message T) {h : Header T}
    → SyncPointFits m.sync_point
    → to_header m ≡ ok h
    → Fits h
unfolding to_header
to_header-Fits m sync made = ground arith

pub from_header-to_header :
    {T : Type 0} (m : Message T) {h : Header T} → to_header m ≡ ok h → from_header h m.payload ≡ m
unfolding to_header from_header
from_header-to_header m made = ground arith

module _ {T : Type 0} (c : Codec T) where
  raise_frame-eq-ok :
      {A : Type 0} (r : Result FrameError A) {a : A} → raise_frame r ≡ ok a → r ≡ ok a
  unfolding raise_frame
  raise_frame-eq-ok (ok a) h = cc
  raise_frame-eq-ok (err e) h = cc

  -- An encoded message is the frame of its header, which is in range.
  pub encode_message-eq-ok :
      (m : Message T) {frame : List ℕ}
      → SyncPointFits m.sync_point
      → encode_message c m ≡ ok frame
      → (h : Header T) × Fits h
        × (encode_frame c h m.payload ≡ ok frame)
        × (from_header h m.payload ≡ m)
  unfolding encode_message
  encode_message-eq-ok m sync encoded =
      let (h, framed, made) = chain-eq-ok (to_header m) _ encoded in
      (h, to_header-Fits m sync made, raise_frame-eq-ok _ framed, from_header-to_header m made)

  -- A message that could be encoded comes back whole, every header field included.
  pub decode-encode_message :
      IsLawful c
      → (m : Message T) {frame : List ℕ} → SyncPointFits m.sync_point
      → encode_message c m ≡ ok frame
      → decode_message c frame ≡ ok m
  unfolding decode_message
  decode-encode_message lawful m sync encoded =
      let (h, fits, framed, same) = encode_message-eq-ok m sync encoded in
      rw (decode-encode_frame c lawful h m.payload fits framed, same)
