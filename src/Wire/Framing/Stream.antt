-- ===== src/Wire/Framing/Stream.antt =====
-- Frames in a byte stream that arrives in arbitrary chunks.
use visio_schema.Common.{
  ℕ, ◌≤◌, ◌<◌, ◌≡◌, ◌≢◌, refl, sym, ap, ap₂, ◌∙◌, List, [], ◌∷◌, ◌++◌, flatten, Result, ok, ◌>>=◌,
  chain-eq-ok, ok-injective, length, arith, append-nil, append_assoc, All, All-append, IsBytes,
  some,
}
use visio_schema.Wire.Header.{Header, Codec, IsLawful, SyncPointFits}
use visio_schema.Wire.Frame.{crc16, pack_u16, decode_frame}
use visio_schema.Wire.Frame.RoundTrip.{frame_of, covered, encode_frame-eq-ok, decode-encode_frame}
use visio_schema.Wire.Message.{
  Message, SendError, encode_message, encode_message-eq-ok, from_header,
}
use visio_schema.Wire.Framing.{
  decode_segment, extract_frames, frame_bytes, read_frames_from, read_frames,
}
use visio_schema.Wire.Framing.Split.{split, decode_all, extract_frames-split}

-- A split goes on from the tail.
split-append :
    (xs ys : List ℕ)
    → split (xs ++ ys)
      ≡ ((split xs).0 ++ (split ((split xs).1 ++ ys)).0, (split ((split xs).1 ++ ys)).1)
unfolding split
split-append [] ys = refl
split-append (b ∷ xs) ys = ground (arith, split-append xs ys)

-- The tail has no delimiter.
split-tail : (bs : List ℕ) → split (split bs).1 ≡ ([], (split bs).1)
unfolding split
split-tail [] = refl
split-tail (b ∷ bs) = ground (arith, split-tail bs)

-- A delimiter at the end leaves no tail.
split-delimited : (xs : List ℕ) → ((split (xs ++ 0 ∷ [])).0 ≢ []) × ((split (xs ++ 0 ∷ [])).1 ≡ [])
unfolding split
split-delimited [] = (λ e. cc, refl)
split-delimited (b ∷ xs) = ground (arith, split-delimited xs)

-- Bytes without a zero, and the delimiter behind them, are one segment.
split-segment :
    (s ys : List ℕ) → All (λ b. 0 < b) s → split (s ++ 0 ∷ ys) ≡ (s ∷ (split ys).0, (split ys).1)
unfolding split
split-segment [] ys h = refl
split-segment (b ∷ s) ys h = ground (arith, split-segment s ys h.1)

module _ {T : Type 0} (c : Codec T) where
  decode_all-append :
      (ss ts : List (List ℕ)) → decode_all c (ss ++ ts) ≡ decode_all c ss ++ decode_all c ts
  unfolding decode_all
  decode_all-append [] ts = refl
  decode_all-append (s ∷ ss) ts =
      rw (decode_all-append ss ts) (sym (append_assoc (decode_segment c s) _ _))

  -- Reading chunk by chunk gives what one split of all the bytes gives.
  read_frames_from-split :
      (buf : List ℕ) (chunks : List (List ℕ))
      → split buf ≡ ([], buf)
      → read_frames_from c buf chunks
        ≡ (decode_all c (split (buf ++ flatten chunks)).0, (split (buf ++ flatten chunks)).1)
  unfolding read_frames_from decode_all split mathlib.Core.List.flatten
  read_frames_from-split buf [] whole = rw (append-nil buf, whole) refl
  read_frames_from-split buf (chunk ∷ chunks) whole = rw (
    extract_frames-split c (buf ++ chunk),
    read_frames_from-split (split (buf ++ chunk)).1 chunks (split-tail (buf ++ chunk)),
    ← append_assoc buf chunk (flatten chunks),
    split-append (buf ++ chunk) (flatten chunks),
    decode_all-append,
  )

  -- How the bytes are cut into chunks makes no difference: the reader yields what one call of
  -- `extract_frames` on all the bytes returns, and keeps the same rest.
  pub read_frames-chunks :
      (chunks : List (List ℕ)) → read_frames_from c [] chunks ≡ extract_frames c (flatten chunks)
  unfolding split
  read_frames-chunks chunks =
      read_frames_from-split [] chunks refl ∙ sym (extract_frames-split c (flatten chunks))

  -- A delimiter resynchronises: whatever stands before it, the bytes after it decode as they
  -- would alone.
  pub extract_frames-resync :
      (xs ys : List ℕ)
      → extract_frames c (xs ++ 0 ∷ ys)
        ≡ ((extract_frames c (xs ++ 0 ∷ [])).0 ++ (extract_frames c ys).0, (extract_frames c ys).1)
  extract_frames-resync xs ys = rw (
    extract_frames-split c (xs ++ 0 ∷ ys),
    extract_frames-split c (xs ++ 0 ∷ []),
    extract_frames-split c ys,
    (let e : xs ++ 0 ∷ ys ≡ (xs ++ 0 ∷ []) ++ ys = sym (append_assoc xs (0 ∷ []) ys) in e),
    split-append (xs ++ 0 ∷ []) ys,
    (split-delimited xs).1,
    decode_all-append,
  )

  -- What a sender puts on the wire for a list of messages.
  unfoldable pub wire_of : List (Message T) → Result SendError (List ℕ)
  wire_of [] = ok []
  wire_of (m ∷ ms) = do bytes ← frame_bytes c m; rest ← wire_of ms; ok (bytes ++ rest)

  frame_of-IsBytes :
      IsLawful c
      → (hb payload : List ℕ) → length hb ≤ 255
      → IsBytes hb
      → IsBytes payload
      → IsBytes (frame_of c hb payload)
  unfolding frame_of pack_u16 crc16
  frame_of-IsBytes lawful hb payload short hb_bytes payload_bytes =
      let crc_small = lawful.crc_hqx-lt (covered c hb payload) 0xFFFF in
      (
        omega arith,
        All-append _ (hb ++ payload) _ (All-append _ hb payload hb_bytes payload_bytes)
            (omega arith, (omega (arith, crc_small), tt)),
      )

  decode_segment-ok :
      (s : List ℕ) {frame : List ℕ} {h : Header T} {payload : List ℕ}
      → s ≢ []
      → c.cobs_decode s ≡ some frame
      → decode_frame c frame ≡ ok (h, payload)
      → decode_segment c s ≡ from_header h payload ∷ []
  unfolding decode_segment
  decode_segment-ok [] some_byte decoded framed = absurd (some_byte refl)
  decode_segment-ok (b ∷ bs) some_byte decoded framed = ground arith

  -- The segment of a message decodes to that message alone.
  decode-frame_bytes :
      IsLawful c
      → (m : Message T) {bytes : List ℕ} → SyncPointFits m.sync_point
      → IsBytes m.payload
      → frame_bytes c m ≡ ok bytes
      → (s : List ℕ) × (bytes ≡ s ++ 0 ∷ []) × All (λ b. 0 < b) s × (decode_segment c s ≡ m ∷ [])
  unfolding frame_bytes
  decode-frame_bytes lawful m sync payload_bytes sent =
      let (frame, bytes_are, encoded) = chain-eq-ok (encode_message c m) _ sent in
      let (h, fits, framed, same) = encode_message-eq-ok c m sync encoded in
      let (laid_out, short) = encode_frame-eq-ok c h m.payload framed in
      let frame_bytes' : IsBytes frame = rw laid_out (
        frame_of-IsBytes lawful _ m.payload short (lawful.serialize-IsBytes h fits)
          payload_bytes) in
      (
        c.cobs_encode frame,
        cc,
        lawful.cobs_encode-nonzero frame frame_bytes',
        decode_segment-ok (c.cobs_encode frame) (lawful.cobs_encode-ne-nil frame)
              (lawful.cobs_decode-encode frame frame_bytes')
              (decode-encode_frame c lawful h m.payload fits framed)
            ∙ ap (λ z. z ∷ []) same,
      )

  -- Every message is complete and in range.
  abbrev pub Sendable : Message T → Type 0
  Sendable m = SyncPointFits m.sync_point × IsBytes m.payload

  wire_of-split :
      IsLawful c
      → (ms : List (Message T)) {bytes : List ℕ} → All Sendable ms
      → wire_of ms ≡ ok bytes
      → (decode_all c (split bytes).0 ≡ ms) × ((split bytes).1 ≡ [])
  unfolding wire_of decode_all
  wire_of-split lawful [] {bytes} all sent =
      let none_sent : bytes ≡ [] = cc in rw none_sent (unfold split in (refl, refl))
  wire_of-split lawful (m ∷ ms) {bytes} (fits, all) sent =
      let (b, later, first) = chain-eq-ok (frame_bytes c m) _ sent in
      let (rest, joined, others) = chain-eq-ok (wire_of ms) _ later in
      let (s, cut, nonzero, decoded) = decode-frame_bytes lawful m fits.0 fits.1 first in
      let (ih, no_tail) = wire_of-split lawful ms all others in
      let bytes_are : bytes ≡ s ++ 0 ∷ rest =
        ok-injective {E = SendError} (sym joined)
        ∙ ap (λ z. z ++ rest) cut
        ∙ append_assoc s (0 ∷ []) rest in
      rw (bytes_are, split-segment s rest nonzero) (ap₂ (λ a z. a ++ z) decoded ih, no_tail)

  -- With a lawful codec, complete messages that a sender can frame are exactly those that the
  -- reader yields, in order, however the bytes are cut into chunks.
  pub read_frames-wire_of :
      IsLawful c
      → (ms : List (Message T)) (chunks : List (List ℕ)) → All Sendable ms
      → wire_of ms ≡ ok (flatten chunks)
      → read_frames c chunks ≡ ms
  unfolding read_frames
  read_frames-wire_of lawful ms chunks all sent =
      ap (λ p. p.0) (read_frames-chunks chunks ∙ extract_frames-split c (flatten chunks))
      ∙ (wire_of-split lawful ms all sent).0
