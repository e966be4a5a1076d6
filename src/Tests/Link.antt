-- ===== src/Tests/Link.antt =====
-- The descriptor endpoint at concrete inputs.
use visio_schema.Common.{
  ℕ, ◌+◌, ◌≤◌, ◌≡◌, refl, Bool, true, false, List, [], ◌∷◌, ◌++◌, none, some, ok, err, length,
  arith, flatten,
}
use mathlib.Core.List.{Sublistᴰ}
use visio_schema.Wire.Frame.{
  encode_frame, decode_frame, crc16, pack_u16, unpack_u16, unpack_u8, parse_or_raise,
}
use visio_schema.Wire.Message.{
  Message, check_below, to_header, from_header, raise_frame, encode_message,
}
use visio_schema.Wire.Framing.{
  frame_bytes, find_zero, find_from, decode_segment, scan, extract_frames, read_frames_from,
  read_frames,
}
use visio_schema.Wire.Framing.Stream.{wire_of}
use visio_schema.Transport.FramedFd.Link.{
  OsWrite, accepted, write_would_block, write_failed, read_would_block, chunk, write_some,
  read_some,
}
use visio_schema.Transport.FramedFd.{
  FramedFd, init, link_up, pending_bytes, drop_oldest, make_room, as_raised, send, mark_link_dead,
  after_write, write_inflight, prepend, conclude, drain, pumped, pump, adopt_opened, reopen, tick,
  on_eof, read_inbound, Turn, read_if, iterate, loop,
}
use visio_schema.Transport.FramedFd.Traffic.{Traffic, idle, sending, pumping}
use visio_schema.Transport.FramedFd.Delivery.{Traffic-read_frames, Traffic-pending_bytes}
use visio_schema.Transport.FramedFd.Closing.{loop-closed_once, loop-write_failed}
use visio_schema.Tests.Codecs.{toy, toy-IsLawful}

program : Unit {0}
unfolding encode_frame decode_frame crc16 pack_u16 unpack_u16 unpack_u8 parse_or_raise to_header
    check_below from_header raise_frame encode_message frame_bytes find_zero find_from
    decode_segment scan extract_frames read_frames_from read_frames wire_of toy init link_up
    pending_bytes drop_oldest make_room as_raised send mark_link_dead after_write write_inflight
    prepend conclude drain pumped pump adopt_opened reopen tick on_eof read_inbound read_if iterate
    loop write_some read_some mathlib.Core.List.flatten
program = tt

abbrev message : ℕ → Message Bool
message seq = record {
  stream_id = 17;
  payload = 4 ∷ [];
  seq = seq;
  timestamp = false;
  clock_authority_epoch = 0;
  clock_revision = 0;
  sync_point = none;
  keyframe = true;
}

-- A fixed link whose outbox holds one frame.
abbrev fixed : FramedFd
fixed = init false (some 5) 500000000 1

abbrev after_send : FramedFd → ℕ → FramedFd
after_send e seq = elim (send toy e (message seq)) [ ok e' ↦ e' | err _ ↦ e ]

abbrev one_queued : FramedFd
one_queued = after_send fixed 1

abbrev two_sent : FramedFd
two_sent = after_send one_queued 2

-- The first write takes ten bytes, the second what is left.
abbrev partial : ℕ → List ℕ → OsWrite
partial k frame = accepted 10

abbrev all_of_it : ℕ → List ℕ → OsWrite
all_of_it k frame = accepted (length frame)

abbrev half_out : FramedFd
half_out = (pump partial two_sent).0

abbrev out : FramedFd
out = (pump all_of_it half_out).0

abbrev bytes : List ℕ
bytes = (pump partial two_sent).1 ++ (pump all_of_it half_out).1

sends_return :
    (send toy fixed (message 1) ≡ ok one_queued) × (send toy one_queued (message 2) ≡ ok two_sent)
unfolding program
sends_return = (refl, refl)

links_up : (link_up half_out ≡ true) × (link_up out ≡ true)
unfolding program
links_up = (refl, refl)

fresh_link : Traffic toy fixed [] []
unfolding init
fresh_link = idle refl refl refl refl

traffic : Traffic toy out (message 1 ∷ message 2 ∷ []) bytes
traffic = pumping all_of_it refl links_up.1 (
    pumping partial refl links_up.0
      (sending (message 2) sends_return.1 (sending (message 1) sends_return.0 fresh_link)))

drained : (out.inflight ≡ []) × (out.outbox ≡ [])
unfolding program
drained = (refl, refl)

Traffic-read_frames_example :
    (kept : List (Message Bool)) × Sublistᴰ kept (message 1 ∷ message 2 ∷ [])
    × (length kept + out.dropped ≡ 2)
    × ((chunks : List (List ℕ)) → flatten chunks ≡ bytes → read_frames toy chunks ≡ kept)
Traffic-read_frames_example =
    Traffic-read_frames toy toy-IsLawful (((tt, (omega arith)), ((tt, (omega arith)), tt))) traffic
      drained.0 drained.1

half_traffic : Traffic toy half_out (message 1 ∷ message 2 ∷ []) ((pump partial two_sent).1)
half_traffic =
    pumping partial refl links_up.0
      (sending (message 2) sends_return.1 (sending (message 1) sends_return.0 fresh_link))

Traffic-pending_bytes_example :
    (pending_bytes half_out ≡ length (half_out.inflight ++ flatten half_out.outbox))
    × ((gone : List (Message Bool)) × (wire_of toy gone
          ≡ ok ((pump partial two_sent).1 ++ half_out.inflight)))
Traffic-pending_bytes_example = Traffic-pending_bytes toy half_traffic

abbrev failing : Turn
failing = record {
  stop_requested = false;
  readable = false;
  write = λ k frame. write_failed;
  read = read_would_block;
  now_ns = 7;
  opened = none;
}

abbrev eof : Turn
eof = record failing { readable = true; write = λ k frame. write_would_block; read = chunk [] }

eof_reports : ((loop toy fixed (eof ∷ eof ∷ [])).0.closed_calls ≡ 1)
unfolding program
eof_reports = refl

loop-closed_once_example :
    ((loop toy fixed (eof ∷ eof ∷ [])).0.closed_calls ≤ 1)
    × (fixed.reopenable ≡ true → (loop toy fixed (eof ∷ eof ∷ [])).0.closed_calls ≡ 0)
    × ((loop toy fixed (eof ∷ eof ∷ [])).0.closed_calls ≡ 1
        → (loop toy fixed (eof ∷ eof ∷ [])).0.stopped ≡ true)
loop-closed_once_example = loop-closed_once toy fixed (eof ∷ eof ∷ []) (unfold init in refl)

loop-write_failed_example :
    loop toy (record fixed { inflight = 3 ∷ 4 ∷ [] }) (failing ∷ eof ∷ [])
    ≡ (mark_link_dead (record fixed { inflight = 3 ∷ 4 ∷ [] }), [])
loop-write_failed_example =
    loop-write_failed toy (record fixed { inflight = 3 ∷ 4 ∷ [] }) 3 (4 ∷ []) 5 failing (eof ∷ [])
      (unfold init in refl) (unfold init in refl) (unfold init in refl) refl refl refl
      (refl, (refl, tt))
