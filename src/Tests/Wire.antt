-- ===== src/Tests/Wire.antt =====
-- The frame codec, the message and the framing at concrete inputs.
use visio_schema.Common.{
  ℕ, ◌≡◌, refl, Bool, true, false, List, [], ◌∷◌, ◌++◌, none, some, ok, err, IsBytes, take, drop,
  arith, flatten,
}
use visio_schema.Wire.Header.{Header, Fits, SyncPointFits}
use visio_schema.Wire.Frame.{
  too_short, header_len_exceeds, crc_mismatch, encode_frame, decode_frame, crc16, pack_u16,
  unpack_u16, unpack_u8, parse_or_raise,
}
use visio_schema.Wire.Frame.RoundTrip.{frame_of, decode-encode_frame}
use visio_schema.Wire.Frame.Accepts.{decode_frame_sound}
use visio_schema.Wire.Message.{
  Message, to_header, from_header, raise_frame, encode_message, decode_message,
  decode-encode_message,
}
use visio_schema.Wire.Framing.{
  frame_bytes, find_zero, find_from, decode_segment, scan, extract_frames, read_frames_from,
  read_frames,
}
use visio_schema.Wire.Framing.Stream.{
  read_frames-chunks, extract_frames-resync, wire_of, read_frames-wire_of,
}
use visio_schema.Tests.Codecs.{toy, toy-IsLawful}

program : Unit {0}
unfolding encode_frame decode_frame crc16 pack_u16 unpack_u16 unpack_u8 parse_or_raise to_header
    from_header raise_frame encode_message decode_message frame_bytes find_zero find_from
    decode_segment scan extract_frames read_frames_from read_frames wire_of toy frame_of
    mathlib.Core.List.flatten
program = tt

abbrev header : Header Bool
header = record {
  stream_id = 16;
  seq = 7;
  timestamp = true;
  keyframe = false;
  clock_authority_epoch = 5;
  clock_revision = 2;
  sync_point = none;
}

header-Fits : Fits header
header-Fits = omega arith

abbrev message : Message Bool
message = record {
  stream_id = 17;
  payload = 0 ∷ 255 ∷ 0 ∷ [];
  seq = 3;
  timestamp = false;
  clock_authority_epoch = 0;
  clock_revision = 0;
  sync_point = some (record { authority_epoch = 9; grid_generation = 1; frame_index = 30 });
  keyframe = true;
}

abbrev frame : List ℕ
frame = elim (encode_frame toy header (1 ∷ 2 ∷ [])) [ ok f ↦ f | err _ ↦ [] ]

frame_decodes : decode_frame toy frame ≡ ok (header, 1 ∷ 2 ∷ [])
frame_decodes =
    decode-encode_frame toy toy-IsLawful header (1 ∷ 2 ∷ []) header-Fits (unfold program in refl)

header-frame : encode_frame toy header (1 ∷ 2 ∷ []) ≡ ok frame
unfolding program
header-frame = refl

frame-IsBytes : IsBytes frame
unfolding program
frame-IsBytes = omega arith

decode_frame_sound_example :
    (hb : List ℕ) × (frame ≡ frame_of toy hb (1 ∷ 2 ∷ [])) × (toy.parse hb ≡ some header)
decode_frame_sound_example = decode_frame_sound toy frame frame-IsBytes frame_decodes

abbrev corrupt : List ℕ
corrupt = 1 ∷ 9 ∷ 0 ∷ 0 ∷ []

corrupt_refused :
    (decode_frame toy (1 ∷ []) ≡ err too_short)
    × (decode_frame toy (9 ∷ 9 ∷ 9 ∷ []) ≡ err header_len_exceeds)
    × (decode_frame toy corrupt ≡ err crc_mismatch)
unfolding program
corrupt_refused = (refl, refl, refl)

message-SyncPointFits : SyncPointFits message.sync_point
message-SyncPointFits = omega arith

abbrev message_frame : List ℕ
message_frame = elim (encode_message toy message) [ ok f ↦ f | err _ ↦ [] ]

decode-encode_message_example : decode_message toy message_frame ≡ ok message
decode-encode_message_example =
    decode-encode_message toy toy-IsLawful message message-SyncPointFits (unfold program in refl)

abbrev messages : List (Message Bool)
messages = message ∷ record message { payload = []; sync_point = none } ∷ []

abbrev wire : List ℕ
wire = elim (wire_of toy messages) [ ok bytes ↦ bytes | err _ ↦ [] ]

abbrev chunks : List (List ℕ)
chunks = take 7 wire ∷ [] ∷ drop 7 wire ∷ []

read_frames-wire_of_example : read_frames toy chunks ≡ messages
read_frames-wire_of_example =
    read_frames-wire_of toy toy-IsLawful messages chunks
      ((message-SyncPointFits, omega arith), ((omega arith, omega arith), tt))
      (unfold program in refl)

read_frames-chunks_example : read_frames_from toy [] chunks ≡ extract_frames toy (flatten chunks)
read_frames-chunks_example = read_frames-chunks toy chunks

-- Rubbish before a delimiter costs nothing behind it.
extract_frames-resync_example : extract_frames toy (corrupt ++ 0 ∷ wire) ≡ (
  (extract_frames toy (corrupt ++ 0 ∷ [])).0 ++ (extract_frames toy wire).0,
  (extract_frames toy wire).1,
)
extract_frames-resync_example = extract_frames-resync toy corrupt wire
