-- ===== src/Wire/Framing.antt =====
-- python/visio_schema/transport/framing.py: COBS-delimited frames in a byte stream.
pub mod Split
pub mod Stream
use visio_schema.Common.{
  ℕ, zero, suc, ◌+◌, ◌-◌, ◌==◌, List, [], ◌∷◌, ◌++◌, Option, none, some, length, take, drop,
  if◌then◌else◌, Result, ok, err, ◌>>=◌,
}
use visio_schema.Wire.Header.{Codec}
use visio_schema.Wire.Frame.{decode_frame}
use visio_schema.Wire.Message.{Message, SendError, encode_message, from_header}

abbrev next : Option ℕ → Option ℕ
next none = none
next (some i) = some (suc i)

-- buf.find(b"\x00") of a whole buffer.
unfoldable pub find_zero : List ℕ → Option ℕ
find_zero [] = none
find_zero (b ∷ bs) = if b == 0 then some 0 else next (find_zero bs)

-- rx_buf.find(b"\x00", pos)
unfoldable pub find_from : List ℕ → ℕ → Option ℕ
find_from buf pos = elim (find_zero (drop pos buf)) [ none ↦ none | some i ↦ some (pos + i) ]

module _ {T : Type 0} (c : Codec T) where
  unfoldable pub frame_bytes : Message T → Result SendError (List ℕ)
  frame_bytes msg = do frame ← encode_message c msg; ok (c.cobs_encode frame ++ 0 ∷ [])

  -- The `try` of the loop's body: an empty segment is skipped, and so is one that the COBS
  -- decoder or the frame decoder refuses.
  unfoldable pub decode_segment : List ℕ → List (Message T)
  decode_segment [] = []
  decode_segment (b ∷ bs) = elim (c.cobs_decode (b ∷ bs)) [
    | none ↦ []
    | some frame ↦ elim (decode_frame c frame) [
      | err e ↦ []
      | ok (header, payload) ↦ from_header header payload ∷ []
    ]
  ]

  -- `while True` over the cursor: `msgs` and `pos` at the break.
  unfoldable pub scan : ℕ → List ℕ → ℕ → List (Message T) → List (Message T) × ℕ
  scan zero buf pos msgs = (msgs, pos)
  scan (suc fuel) buf pos msgs = elim (find_from buf pos) [
    | none ↦ (msgs, pos)
    | some delim ↦
        let encoded = take (delim - pos) (drop pos buf) in
        scan fuel buf (delim + 1) (msgs ++ decode_segment encoded)
  ]

  -- The messages, and what `del rx_buf[:pos]` leaves. A round passes at least one byte.
  unfoldable pub extract_frames : List ℕ → List (Message T) × List ℕ
  extract_frames rx_buf =
      let (msgs, pos) = scan (length rx_buf + 1) rx_buf 0 [] in (msgs, drop pos rx_buf)

  -- The messages that the generator has yielded, and its buffer, after the chunks.
  unfoldable pub read_frames_from : List ℕ → List (List ℕ) → List (Message T) × List ℕ
  read_frames_from buf [] = ([], buf)
  read_frames_from buf (chunk ∷ chunks) =
      let (msgs, rest) = extract_frames (buf ++ chunk) in
      let (more, left) = read_frames_from rest chunks in (msgs ++ more, left)

  unfoldable pub read_frames : List (List ℕ) → List (Message T)
  read_frames chunks = (read_frames_from [] chunks).0
