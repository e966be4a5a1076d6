-- ===== src/Wire/Frame/RoundTrip.antt =====
-- What `decode_frame` makes of a well-formed frame.
use visio_schema.Common.{
  ℕ, ◌+◌, ◌-◌, ◌≤◌, ◌≡◌, refl, List, ◌∷◌, ◌++◌, length, arith, append_assoc, length-append,
  take_prefix, drop_prefix, take-length-append, drop-length-append, take, drop, if◌then◌else◌, ok,
  err, ◌>>=◌, ltb, le→ltb_false, ==_refl,
}
use visio_schema.Wire.Header.{Header, Codec, Fits, IsLawful}
use visio_schema.Wire.Frame.{
  header_too_large, crc16, pack_u16, unpack_u16, unpack_u8, encode_frame, parse_or_raise,
  decode_frame,
}

pub unpack-pack_u16 : (n : ℕ) → unpack_u16 (pack_u16 n) ≡ n
unfolding unpack_u16 pack_u16
unpack-pack_u16 n = omega arith

module _ {T : Type 0} (c : Codec T) where
  -- HEADER_LEN || header || payload, the bytes that the CRC covers.
  abbrev pub covered : List ℕ → List ℕ → List ℕ
  covered hb payload = (length hb ∷ hb) ++ payload

  -- The frame layout of framing.md §1.
  unfoldable pub frame_of : List ℕ → List ℕ → List ℕ
  frame_of hb payload = covered hb payload ++ pack_u16 (crc16 c (covered hb payload))

  length-frame_of :
      (hb payload : List ℕ) → length (frame_of hb payload) ≡ length hb + length payload + 3
  unfolding frame_of pack_u16
  length-frame_of hb payload = omega (
    arith,
    length-append (covered hb payload) (pack_u16 (crc16 c (covered hb payload))),
    length-append hb payload,
  )

  module _ (hb payload : List ℕ) where
    unpack_u8-frame_of : unpack_u8 (frame_of hb payload) ≡ length hb
    unfolding frame_of unpack_u8
    unpack_u8-frame_of = refl

    crc : List ℕ
    crc = pack_u16 (crc16 c (covered hb payload))

    length-frame_of_sub : length (frame_of hb payload) - 2 ≡ length (covered hb payload)
    length-frame_of_sub = omega (arith, length-frame_of hb payload, length-append hb payload)

    take-frame_of :
        take (length (frame_of hb payload) - 2) (frame_of hb payload) ≡ covered hb payload
    take-frame_of =
        rw length-frame_of_sub (unfold frame_of in take-length-append (covered hb payload) _)

    crc-frame_of :
        unpack_u16 (drop (length (frame_of hb payload) - 2) (frame_of hb payload))
        ≡ crc16 c (covered hb payload)
    crc-frame_of =
        let cut : drop (length (covered hb payload)) (frame_of hb payload) ≡ crc =
          unfold frame_of crc in drop-length-append (covered hb payload) _ in
        rw (length-frame_of_sub, cut) (unfold crc in unpack-pack_u16 _)

    header-frame_of : take (length hb) (drop 1 (frame_of hb payload)) ≡ hb
    unfolding frame_of
    header-frame_of = rw append_assoc (take-length-append hb _)

    payload-frame_of :
        take
          (length (frame_of hb payload) - 2 - (1 + length hb))
          (drop (1 + length hb) (frame_of hb payload))
        ≡ payload
    payload-frame_of =
        let rest : drop (1 + length hb) (frame_of hb payload) ≡ payload ++ crc =
          unfold frame_of crc in
          rw append_assoc (drop_prefix (1 + length hb) (length hb ∷ hb) _ (omega arith)) in
        rw rest (take_prefix _ payload crc (omega (arith, length-frame_of hb payload)))

  -- Every part of the frame is cut out again, and only the header's parser may refuse.
  pub decode-frame_of :
      (hb payload : List ℕ)
      → decode_frame c (frame_of hb payload)
        ≡ (parse_or_raise (c.parse hb) >>= λ h. ok (h, payload))
  unfolding decode_frame
  decode-frame_of hb payload = rw (
    le→ltb_false (length (frame_of hb payload)) 3 (omega (arith, length-frame_of hb payload)),
    unpack_u8-frame_of hb payload,
    le→ltb_false (length (frame_of hb payload)) (1 + length hb + 2)
        (omega (arith, length-frame_of hb payload)),
    take-frame_of hb payload,
    crc-frame_of hb payload,
    ==_refl,
    payload-frame_of hb payload,
    (let e : 1 + length hb - 1 ≡ length hb = omega arith in e),
    header-frame_of hb payload,
  )

  -- `encode_frame` lays a frame out so, or refuses a header of more than 255 bytes.
  pub encode_frame_lem :
      (h : Header T) (payload : List ℕ)
      → encode_frame c h payload ≡ (
          if ltb 0xFF (length (c.serialize h))
          then err header_too_large
          else ok (frame_of (c.serialize h) payload))
  unfolding encode_frame frame_of
  encode_frame_lem h payload = ground arith

  pub encode_frame-eq-ok :
      (h : Header T) (payload : List ℕ) {frame : List ℕ}
      → encode_frame c h payload ≡ ok frame
      → (frame ≡ frame_of (c.serialize h) payload) × (length (c.serialize h) ≤ 255)
  encode_frame-eq-ok h payload encoded = ground (arith, encode_frame_lem h payload)

  -- A frame that `encode_frame` returns decodes to the header and the payload it was made of.
  pub decode-encode_frame :
      IsLawful c
      → (h : Header T) (payload : List ℕ) {frame : List ℕ} → Fits h
      → encode_frame c h payload ≡ ok frame
      → decode_frame c frame ≡ ok (h, payload)
  unfolding parse_or_raise
  decode-encode_frame lawful h payload {frame} fits encoded =
      rw ((encode_frame-eq-ok h payload encoded).0, decode-frame_of, lawful.parse-serialize h fits)
