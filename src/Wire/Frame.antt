-- ===== src/Wire/Frame.antt =====
-- python/visio_schema/wire/codec: crc16.py, cobs.py and the core frame of frame.py.
pub mod RoundTrip
pub mod Accepts
use visio_schema.Common.{
  ℕ, suc, ◌+◌, ◌-◌, ◌*◌, ◌/◌, ◌%◌, ◌≡◌, refl, List, [], ◌∷◌, ◌++◌, Option, none, some, length, take,
  drop, ltb, ◌==◌, if◌then◌else◌, get_elem?, Result, ok, err, ◌>>=◌, ◌>>◌, raise_if, false, true,
}
use visio_schema.Wire.Header.{Header, Codec}

-- The causes of a `FrameError`.
pub data FrameError : Type 0 where
  header_too_large : FrameError
  too_short : FrameError
  header_len_exceeds : FrameError
  crc_mismatch : FrameError
  header_parse_failed : FrameError

-- struct.pack("<H", n) of a 16-bit number.
unfoldable pub pack_u16 : ℕ → List ℕ
pack_u16 n = n % 256 ∷ n / 256 ∷ []

-- The little-endian value of the two bytes that struct.unpack_from("<H", …) reads.
unfoldable pub unpack_u16 : List ℕ → ℕ
unpack_u16 (lo ∷ hi ∷ rest) = lo + 256 * hi
unpack_u16 _ = 0

-- buf[0] of a buffer that has a byte.
unfoldable pub unpack_u8 : List ℕ → ℕ
unpack_u8 [] = 0
unpack_u8 (b ∷ rest) = b

-- header.ParseFromString(…), its DecodeError turned into a FrameError.
unfoldable pub parse_or_raise : {T : Type 0} → Option (Header T) → Result FrameError (Header T)
parse_or_raise none = err header_parse_failed
parse_or_raise (some h) = ok h

module _ {T : Type 0} (c : Codec T) where
  open c use {crc_hqx, serialize, parse}

  unfoldable pub crc16 : List ℕ → ℕ
  crc16 bytes = crc_hqx bytes 0xFFFF

  unfoldable pub encode_frame : Header T → List ℕ → Result FrameError (List ℕ)
  encode_frame header payload = do
    let header_bytes = serialize header
    raise_if (ltb 0xFF (length header_bytes)) header_too_large
    let covered = (length header_bytes ∷ header_bytes) ++ payload
    ok (covered ++ pack_u16 (crc16 covered))

  unfoldable pub decode_frame : List ℕ → Result FrameError (Header T × List ℕ)
  decode_frame buf = do
    raise_if (ltb (length buf) 3) too_short
    let payload_end = 1 + unpack_u8 buf
    raise_if (ltb (length buf) (payload_end + 2)) header_len_exceeds
    let covered = take (length buf - 2) buf
    let got_crc = unpack_u16 (drop (length buf - 2) buf)
    raise_if (if got_crc == crc16 covered then false else true) crc_mismatch
    header ← parse_or_raise (parse (take (payload_end - 1) (drop 1 buf)))
    ok (header, take (length buf - 2 - payload_end) (drop payload_end buf))
