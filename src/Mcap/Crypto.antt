-- ===== src/Mcap/Crypto.antt =====
-- python/visio_schema/mcap/crypto.py: the container of an encrypted recording, and the seekable
-- plaintext view of it. A file is the list of its bytes.
pub mod Reading
pub mod Opening
pub mod Layout
use visio_schema.Common.{
  ℕ, zero, suc, ◌+◌, ◌-◌, ◌*◌, ◌/◌, ◌%◌, ◌^◌, ◌==◌, ltb, leb, min, if◌then◌else◌, Bool, true, false,
  not, ◌&&◌, ◌||◌, List, [], ◌∷◌, ◌++◌, Option, none, some, Result, ok, err, ◌>>=◌, ◌>>◌, raise_if,
  length, take, drop,
}

abbrev pub header_bytes : ℕ
header_bytes = 32

abbrev pub block_bytes : ℕ
block_bytes = 64

pub record CipherSuite : Type 0 where
  pub magic : List ℕ
  pub key_label : List ℕ

pub record VrecHeader : Type 0 where
  pub format : ℕ
  pub cipher : ℕ
  pub key_fp : List ℕ
  pub nonce : List ℕ
  pub bytes_valid : ℕ

pub data CryptoError : Type 0 where
  not_a_container : CryptoError
  newer_format : CryptoError
  key_mismatch : CryptoError
  key_unavailable : CryptoError
  negative_seek : CryptoError
  block_overflow : CryptoError

-- hashlib, hmac and the ChaCha20 of the cryptography package. `update key iv n d` is
-- encryptor.update(d) of a fresh encryptor that has taken n bytes before.
pub record Primitives : Type 0 where
  pub sha256 : List ℕ → List ℕ
  pub hmac_sha256 : List ℕ → List ℕ → List ℕ
  pub update : List ℕ → List ℕ → ℕ → List ℕ → List ℕ

unfoldable pub same_bytes : List ℕ → List ℕ → Bool
same_bytes [] [] = true
same_bytes [] (b ∷ bs) = false
same_bytes (a ∷ rest) [] = false
same_bytes (a ∷ rest) (b ∷ bs) = (a == b) && same_bytes rest bs

-- int.from_bytes(d, "little"), and n bytes of int.to_bytes.
unfoldable pub from_little : List ℕ → ℕ
from_little [] = 0
from_little (b ∷ bs) = b + 256 * from_little bs

unfoldable pub to_little : ℕ → ℕ → List ℕ
to_little zero x = []
to_little (suc n) x = (x % 256) ∷ to_little n (x / 256)

-- head[i] of a buffer that is long enough.
unfoldable pub byte_at : ℕ → List ℕ → ℕ
byte_at i [] = 0
byte_at zero (b ∷ bs) = b
byte_at (suc i) (b ∷ bs) = byte_at i bs

unfoldable pub is_vrec : CipherSuite → List ℕ → Bool
is_vrec suite head = same_bytes (take (length suite.magic) head) suite.magic

unfoldable pub read_vrec_header : CipherSuite → List ℕ → Result CryptoError VrecHeader
read_vrec_header suite head =
    if ltb (length head) header_bytes || not (is_vrec suite head)
    then err not_a_container
    else if not (byte_at 4 head == 1) || not (byte_at 5 head == 1)
    then err newer_format
    else ok (record {
      format = byte_at 4 head;
      cipher = byte_at 5 head;
      key_fp = take 8 (drop 8 head);
      nonce = take 12 (drop 16 head);
      bytes_valid = from_little (take 4 (drop 28 head));
    })

unfoldable pub fingerprint : Primitives → List ℕ → List ℕ
fingerprint p key = take 8 (p.sha256 key)

unfoldable pub derive_file_key : Primitives → CipherSuite → List ℕ → List ℕ → List ℕ
derive_file_key p suite key nonce = p.hmac_sha256 key (suite.key_label ++ nonce)

-- The first of the environment's keys whose fingerprint is the header's.
unfoldable pub first_match : Primitives → List ℕ → List (List ℕ) → Result CryptoError (List ℕ)
first_match p want [] = err key_unavailable
first_match p want (candidate ∷ candidates) =
    let rest = first_match p want candidates in
    if same_bytes (fingerprint p candidate) want then ok candidate else rest

-- `key`: the one that the caller gave, if any; `candidates`: those of the environment.
unfoldable pub resolve_key :
    Primitives → VrecHeader → Option (List ℕ) → List (List ℕ) → Result CryptoError (List ℕ)
resolve_key p header (some key) candidates =
    if same_bytes (fingerprint p key) header.key_fp then ok key else err key_mismatch
resolve_key p header none candidates = first_match p header.key_fp candidates

pub record VrecReader : Type 0 where
  pub raw : List ℕ
  pub header : VrecHeader
  pub file_key : List ℕ
  pub pos : ℕ
  pub size : ℕ

unfoldable pub valid_size : ℕ → ℕ → ℕ
valid_size size bytes_valid = if bytes_valid == 0 then size else min size bytes_valid

unfoldable pub open_reader : Primitives → CipherSuite → List ℕ → VrecHeader → List ℕ → VrecReader
open_reader p suite raw header key = record {
  raw = raw;
  header = header;
  file_key = derive_file_key p suite key header.nonce;
  pos = 0;
  size = valid_size (length raw - header_bytes) header.bytes_valid;
}

-- Whole numbers: n, and -1 - n.
pub data ℤ : Type 0 where
  pos : ℕ → ℤ
  negsuc : ℕ → ℤ

pub data Whence : Type 0 where
  seek_set : Whence
  seek_cur : Whence
  seek_end : Whence

unfoldable pub seek_base : VrecReader → Whence → ℕ
seek_base r seek_set = 0
seek_base r seek_cur = r.pos
seek_base r seek_end = r.size

unfoldable pub moved_by : ℕ → ℤ → Result CryptoError ℕ
moved_by base (pos n) = ok (base + n)
moved_by base (negsuc n) = if leb base n then err negative_seek else ok (base - suc n)

unfoldable pub seek : VrecReader → ℤ → Whence → Result CryptoError VrecReader
seek r offset whence = do new ← moved_by (seek_base r whence) offset; ok (record r { pos = new })

-- block.to_bytes(4, "little") raises OverflowError from 2 ^ 32 on.
unfoldable pub xor_at : Primitives → VrecReader → ℕ → List ℕ → Result CryptoError (List ℕ)
xor_at p r at bytes =
    let block = at / block_bytes in
    let within = at % block_bytes in
    if leb 4294967296 block
    then err block_overflow
    else ok (p.update r.file_key (to_little 4 block ++ r.header.nonce) within bytes)

unfoldable pub read_cipher : VrecReader → ℕ → List ℕ
read_cipher r want = take (min want (r.size - r.pos)) (drop (header_bytes + r.pos) r.raw)

-- What was read is decrypted at the reader's position, which moves behind it.
unfoldable pub fill : Primitives → VrecReader → List ℕ → Result CryptoError (List ℕ × VrecReader)
fill p r [] = ok ([], r)
fill p r (b ∷ bs) = do
  plain ← xor_at p r r.pos (b ∷ bs)
  ok (plain, record r { pos = r.pos + length (b ∷ bs) })

-- The bytes put in the buffer, and the reader.
unfoldable pub readinto : Primitives → VrecReader → ℕ → Result CryptoError (List ℕ × VrecReader)
readinto p r want =
    if want == 0 || leb r.size r.pos then ok ([], r) else fill p r (read_cipher r want)

pub data Opened : Type 0 where
  plain_file : List ℕ → Opened
  decrypting : VrecReader → Opened

unfoldable pub open_recording :
    Primitives → CipherSuite → List ℕ → Option (List ℕ) → List (List ℕ) → Result CryptoError Opened
open_recording p suite raw key candidates =
    if not (is_vrec suite (take header_bytes raw)) then ok (plain_file raw) else do
      header ← read_vrec_header suite (take header_bytes raw)
      resolved ← resolve_key p header key candidates
      ok (decrypting (open_reader p suite raw header resolved))
