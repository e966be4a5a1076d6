-- ===== src/Wire/Frame/Accepts.antt =====
-- Which buffers `decode_frame` accepts, and what it raises on the others.
use visio_schema.Common.{
  ℕ, zero, suc, ◌+◌, ◌-◌, ◌≤◌, ◌<◌, ◌≡◌, ap, ap₂, sym, ◌∙◌, List, [], ◌∷◌, ◌++◌, some, length, take,
  drop, arith, length-take, length-drop, take-append-drop, take-add, ok, IsBytes, All,
}
use visio_schema.Wire.Header.{Header, Codec}
use visio_schema.Wire.Frame.{crc16, pack_u16, unpack_u16, unpack_u8, parse_or_raise, decode_frame}
use visio_schema.Wire.Frame.RoundTrip.{frame_of, covered}

All-drop {ℓ κ} : {A : Type ℓ} (P : A → Type κ) (n : ℕ) (xs : List A) → All P xs → All P (drop n xs)
All-drop P zero xs h = h
All-drop P (suc n) [] h = h
All-drop P (suc n) (x ∷ xs) h = All-drop P n xs h.1

-- Two bytes are what packing their value gives.
pack-unpack_u16 : (bs : List ℕ) → length bs ≡ 2 → IsBytes bs → pack_u16 (unpack_u16 bs) ≡ bs
unfolding pack_u16 unpack_u16
pack-unpack_u16 (lo ∷ hi ∷ []) e h = ap₂ (λ a b. a ∷ b ∷ []) (omega arith) (omega arith)
pack-unpack_u16 bs e h = absurd (omega arith)

module _ {T : Type 0} (c : Codec T) where
  -- What an accepted buffer passed.
  record Passed (buf : List ℕ) (h : Header T) (payload : List ℕ) : Type 0 where
    fits : 1 + unpack_u8 buf + 2 ≤ length buf
    crc : unpack_u16 (drop (length buf - 2) buf) ≡ crc16 c (take (length buf - 2) buf)
    parsed : c.parse (take (1 + unpack_u8 buf - 1) (drop 1 buf)) ≡ some h
    rest : take (length buf - 2 - (1 + unpack_u8 buf)) (drop (1 + unpack_u8 buf) buf) ≡ payload

  decode_frame-Passed :
      (buf : List ℕ) {h : Header T} {payload : List ℕ}
      → decode_frame c buf ≡ ok (h, payload)
      → Passed buf h payload
  unfolding decode_frame parse_or_raise
  decode_frame-Passed buf decoded = ground arith

  length-eq_two : (buf : List ℕ) → 2 ≤ length buf → length (drop (length buf - 2) buf) ≡ 2
  length-eq_two buf h = omega (arith, length-drop (length buf - 2) buf)

  cut_list :
      (k m i j b : ℕ) (rest : List ℕ)
      → k ≡ suc (b + m)
      → i ≡ b
      → j ≡ suc b
      → b ≤ length rest
      → take k (b ∷ rest) ≡ length (take i rest) ∷ (take i rest ++ take m (drop j (b ∷ rest)))
  cut_list k m i j b rest ek ei ej h =
      let size : length (take b rest) ≡ b = omega (arith, length-take b rest) in
      rw (ek, ei, ej, size) (ap (◌∷◌ b) (take-add b m rest))

  -- The bytes under the CRC are HEADER_LEN, the header and the payload.
  covered-cut :
      (buf : List ℕ)
      → 1 + unpack_u8 buf + 2 ≤ length buf
      → take (length buf - 2) buf
        ≡ covered c
            (take (1 + unpack_u8 buf - 1) (drop 1 buf))
            (take (length buf - 2 - (1 + unpack_u8 buf)) (drop (1 + unpack_u8 buf) buf))
  unfolding unpack_u8
  covered-cut [] h = absurd (omega arith)
  covered-cut (b ∷ rest) h =
      cut_list _ _ _ _ b rest (omega arith) (omega arith) (omega arith) (omega arith)

  -- An accepted byte string is exactly the frame of some header bytes that parse to the header,
  -- and of the payload: nothing is skipped and nothing is left over.
  pub decode_frame_sound :
      (buf : List ℕ) {h : Header T} {payload : List ℕ}
      → IsBytes buf
      → decode_frame c buf ≡ ok (h, payload)
      → (hb : List ℕ) × (buf ≡ frame_of c hb payload) × (c.parse hb ≡ some h)
  unfolding frame_of
  decode_frame_sound buf {h} {payload} bytes decoded =
      let p : Passed buf h payload = decode_frame-Passed buf decoded in
      let cut : covered c (take (1 + unpack_u8 buf - 1) (drop 1 buf)) payload
          ≡ take (length buf - 2) buf =
        rw (← p.rest) (sym (covered-cut buf p.fits)) in
      let two : List ℕ = drop (length buf - 2) buf in
      let crc : pack_u16 (crc16 c (take (length buf - 2) buf)) ≡ two = rw (← p.crc) (
        pack-unpack_u16 two (length-eq_two buf (omega (arith, p.fits)))
          (All-drop (λ b. b < 256) (length buf - 2) buf bytes)) in
      (
        take (1 + unpack_u8 buf - 1) (drop 1 buf),
        sym (
            ap (λ z. z ++ pack_u16 (crc16 c z)) cut
            ∙ ap (λ z. take (length buf - 2) buf ++ z) crc
            ∙ take-append-drop (length buf - 2) buf),
        p.parsed,
      )
