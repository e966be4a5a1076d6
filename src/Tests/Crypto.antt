-- ===== src/Tests/Crypto.antt =====
-- An encrypted recording under a concrete cipher.
use visio_schema.Common.{
  ℕ, ◌+◌, ◌-◌, ◌*◌, ◌%◌, ◌==◌, ◌<◌, ◌≤◌, ◌≡◌, refl, min, if◌then◌else◌, List, [], ◌∷◌, ◌++◌, some,
  ok, err, length, take, drop, arith,
}
use visio_schema.Mcap.Crypto.{
  header_bytes, CipherSuite, VrecHeader, key_mismatch, Primitives, VrecReader, same_bytes,
  from_little, to_little, byte_at, is_vrec, read_vrec_header, fingerprint, derive_file_key,
  first_match, resolve_key, valid_size, open_reader, xor_at, read_cipher, fill, readinto,
  decrypting, open_recording,
}
use visio_schema.Mcap.Crypto.Reading.{xor_from, IsStream, IsView, readinto-IsView}
use visio_schema.Mcap.Crypto.Opening.{open_recording-fingerprint}
use visio_schema.Mcap.Crypto.Layout.{OpensAs, container, container_head, open_recording-container}

-- The keystream turns the lowest bit of every second byte.
flip : ℕ → ℕ
flip a = if a % 2 == 0 then a + 1 else a - 1

xor : ℕ → ℕ → ℕ
unfolding flip
xor a b = if b == 0 then a else flip a

abbrev stream : List ℕ → List ℕ → ℕ → ℕ
stream key nonce at = at % 2

primitives : Primitives
unfolding xor_from xor from_little
primitives = record {
  sha256 = λ key. key;
  hmac_sha256 = λ key bytes. key ++ bytes;
  update = λ key iv n bytes.
      xor_from xor (stream key (drop 4 iv)) (64 * from_little (take 4 iv) + n) bytes;
}

program : Unit {0}
unfolding primitives xor flip xor_from same_bytes from_little to_little byte_at is_vrec
    read_vrec_header fingerprint derive_file_key first_match resolve_key valid_size open_reader
    xor_at read_cipher fill readinto open_recording
program = tt

four_bytes :
    (x : ℕ) (rest : List ℕ) → x < 4294967296 → from_little (take 4 (to_little 4 x ++ rest)) ≡ x
unfolding from_little to_little
four_bytes x rest small = omega arith

primitives-IsStream : IsStream primitives xor stream
unfolding primitives xor flip
primitives-IsStream = record {
  update-xor_from = λ key nonce block n bytes small. rw (four_bytes block nonce small) refl;
  xor_undone = λ a b. ground arith;
}

abbrev vrec : CipherSuite
vrec = record { magic = 86 ∷ 82 ∷ 69 ∷ 67 ∷ []; key_label = 1 ∷ [] }

abbrev key : List ℕ
key = 1 ∷ 2 ∷ 3 ∷ 4 ∷ 5 ∷ 6 ∷ 7 ∷ 8 ∷ 9 ∷ []

abbrev nonce : List ℕ
nonce = 9 ∷ 9 ∷ 9 ∷ 9 ∷ 9 ∷ 9 ∷ 9 ∷ 9 ∷ 9 ∷ 9 ∷ 9 ∷ 9 ∷ []

abbrev header : VrecHeader
header = record { format = 1; cipher = 1; key_fp = take 8 key; nonce = nonce; bytes_valid = 4 }

abbrev head : List ℕ
head = 86 ∷ 82 ∷ 69 ∷ 67 ∷ 1 ∷ 1 ∷ 0 ∷ 0 ∷ (take 8 key ++ (nonce ++ 4 ∷ 0 ∷ 0 ∷ 0 ∷ []))

abbrev plain : List ℕ
plain = 20 ∷ 21 ∷ 22 ∷ 23 ∷ 24 ∷ []

abbrev raw : List ℕ
raw = head ++ xor_from xor (stream (derive_file_key primitives vrec key nonce) nonce) 0 plain

key_long : 8 ≤ length (primitives.sha256 key)
unfolding program
key_long = omega arith

open_recording-container_example : OpensAs xor stream plain 1 1 4 (
    open_recording primitives vrec
      (container primitives vrec key nonce xor stream
        (container_head primitives vrec key nonce 1 1 (4 ∷ 0 ∷ 0 ∷ 0 ∷ []))
        plain)
      (some key)
      [])
open_recording-container_example =
    open_recording-container primitives vrec key nonce xor stream plain 1 1 4 0 0 0 refl refl
      key_long

abbrev reader : VrecReader
reader = open_reader primitives vrec raw header key

opens : open_recording primitives vrec raw (some key) [] ≡ ok (decrypting reader)
unfolding program
opens = refl

other_key_refused : open_recording primitives vrec raw (some (8 ∷ [])) [] ≡ err key_mismatch
unfolding program
other_key_refused = refl

open_recording-fingerprint_example :
    (k : List ℕ) × (fingerprint primitives k ≡ reader.header.key_fp)
    × (reader.file_key ≡ derive_file_key primitives vrec k reader.header.nonce)
    × (read_vrec_header vrec (take header_bytes raw) ≡ ok reader.header)
open_recording-fingerprint_example =
    open_recording-fingerprint primitives vrec raw (some key) [] opens

abbrev sought : VrecReader
sought = record reader { pos = 2 }

sought-IsView : IsView xor stream plain sought
unfolding program
sought-IsView = record { head = head; head_length = refl; encrypted = refl; sized = omega arith }

two_left : readinto primitives sought 10 ≡ ok (22 ∷ 23 ∷ [], record reader { pos = 4 })
unfolding program
two_left = refl

readinto-IsView_example :
    readinto primitives sought 10
    ≡ ok (
      take (min 10 (sought.size - 2)) (drop 2 plain),
      record sought { pos = 2 + length (take (min 10 (sought.size - 2)) (drop 2 plain)) },
    )
readinto-IsView_example =
    readinto-IsView primitives xor stream primitives-IsStream sought 10 plain sought-IsView
      (omega arith)
