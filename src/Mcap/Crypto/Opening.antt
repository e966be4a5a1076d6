-- ===== src/Mcap/Crypto/Opening.antt =====
-- Which key opens an encrypted recording, and what view it opens.
use visio_schema.Common.{
  ℕ, ◌-◌, ◌≤◌, ◌≡◌, refl, sym, ap, subst, true, List, [], ◌∷◌, ◌++◌, Option, none, some, ok, length,
  take, arith, Bool-cases, inl, inr, length-append, take_prefix, chain-eq-ok, ok-injective, ==_refl,
}
use visio_schema.Mcap.Crypto.{
  header_bytes, CipherSuite, VrecHeader, CryptoError, Primitives, VrecReader, same_bytes, is_vrec,
  read_vrec_header, fingerprint, first_match, resolve_key, open_reader, derive_file_key, valid_size,
  decrypting, open_recording,
}
use visio_schema.Mcap.Crypto.Reading.{xor_from, length-xor_from, IsView}

pub same_bytes_refl : (xs : List ℕ) → same_bytes xs xs ≡ true
unfolding same_bytes
same_bytes_refl [] = refl
same_bytes_refl (x ∷ xs) = ground (arith, ==_refl x, same_bytes_refl xs)

same_bytes-eq : (xs ys : List ℕ) → same_bytes xs ys ≡ true → xs ≡ ys
unfolding same_bytes
same_bytes-eq [] [] same = refl
same_bytes-eq [] (y ∷ ys) same = absurd (cc)
same_bytes-eq (x ∷ xs) [] same = absurd (cc)
same_bytes-eq (x ∷ xs) (y ∷ ys) same = ground (arith, same_bytes-eq xs ys)

first_match-eq-ok :
    (p : Primitives) (want : List ℕ) (candidates : List (List ℕ)) {key : List ℕ}
    → first_match p want candidates ≡ ok key
    → fingerprint p key ≡ want
unfolding first_match
first_match-eq-ok p want [] found = absurd (cc)
first_match-eq-ok p want (c ∷ candidates) {key} found =
    elim (Bool-cases (same_bytes (fingerprint p c) want)) [
      | inl same ↦
          subst (λ k. fingerprint p k ≡ want)
            (ok-injective {E = CryptoError} (rw (same, first_match) at found))
            (same_bytes-eq (fingerprint p c) want same)
      | inr other ↦ first_match-eq-ok p want candidates (rw (other, first_match) at found)
    ]

resolve_key-eq-ok :
    (p : Primitives) (header : VrecHeader) (given : Option (List ℕ)) (candidates : List (List ℕ))
    {key : List ℕ}
    → resolve_key p header given candidates ≡ ok key
    → fingerprint p key ≡ header.key_fp
unfolding resolve_key
resolve_key-eq-ok p header none candidates found =
    first_match-eq-ok p header.key_fp candidates found
resolve_key-eq-ok p header (some given) candidates {key} found =
    elim (Bool-cases (same_bytes (fingerprint p given) header.key_fp)) [
      | inl same ↦
          subst (λ k. fingerprint p k ≡ header.key_fp)
            (ok-injective {E = CryptoError} (rw (same, resolve_key) at found))
            (same_bytes-eq (fingerprint p given) header.key_fp same)
      | inr other ↦ absurd (ground (arith, other))
    ]

decrypting-injective : {a b : VrecReader} → decrypting a ≡ decrypting b → a ≡ b
decrypting-injective same = cc

valid_size-le : (size valid : ℕ) → valid_size size valid ≤ size
unfolding valid_size
valid_size-le size valid = ground arith

-- A file is only ever decrypted under a key whose fingerprint is the one in its header: another
-- key, given or found, never yields a view.
pub open_recording-fingerprint :
    (p : Primitives) (suite : CipherSuite) (raw : List ℕ) (given : Option (List ℕ))
    (candidates : List (List ℕ)) {r : VrecReader}
    → open_recording p suite raw given candidates ≡ ok (decrypting r)
    → (key : List ℕ) × (fingerprint p key ≡ r.header.key_fp)
      × (r.file_key ≡ derive_file_key p suite key r.header.nonce)
      × (read_vrec_header suite (take header_bytes raw) ≡ ok r.header)
unfolding open_recording open_reader
open_recording-fingerprint p suite raw given candidates {r} opened =
    elim (Bool-cases (is_vrec suite (take header_bytes raw))) [
      | inr plain ↦ absurd (ground (arith, plain))
      | inl sealed ↦
          let (header, later, parsed) =
            chain-eq-ok (read_vrec_header suite (take header_bytes raw)) _
              (rw (sealed, open_recording) at opened) in
          let (key, last, resolved) = chain-eq-ok (resolve_key p header given candidates) _ later in
          let same : open_reader p suite raw header key ≡ r =
            decrypting-injective (ok-injective {E = CryptoError} last) in
          subst
            (λ v.
              (key : List ℕ) × (fingerprint p key ≡ v.header.key_fp)
              × (v.file_key ≡ derive_file_key p suite key v.header.nonce)
              × (read_vrec_header suite (take header_bytes raw) ≡ ok v.header))
            same (key, resolve_key-eq-ok p header given candidates resolved, refl, parsed)
    ]

-- A header that parses, of the right length and naming the key, with the plaintext under the
-- keystream behind it, opens under that key as a view of the plaintext
-- from position 0, cut at the valid length that the header records, if it records one.
pub open_recording-IsView :
    (p : Primitives) (suite : CipherSuite) (xor : ℕ → ℕ → ℕ) (stream : List ℕ → List ℕ → ℕ → ℕ)
    (head key plain : List ℕ) (header : VrecHeader)
    → length head ≡ header_bytes
    → is_vrec suite head ≡ true
    → read_vrec_header suite head ≡ ok header
    → fingerprint p key ≡ header.key_fp
    → (r : VrecReader) × (open_recording p suite
          (head
            ++ xor_from xor
                (stream (derive_file_key p suite key header.nonce) header.nonce)
                0
                plain)
          (some key)
          []
        ≡ ok (decrypting r))
      × IsView xor stream plain r
      × (r.pos ≡ 0)
      × (r.size ≡ valid_size (length plain) header.bytes_valid)
unfolding open_recording open_reader resolve_key
open_recording-IsView p suite xor stream head key plain header long sealed parsed matches =
    let cipher : List ℕ =
      xor_from xor (stream (derive_file_key p suite key header.nonce) header.nonce) 0 plain in
    let r : VrecReader = open_reader p suite (head ++ cipher) header key in
    let first : take header_bytes (head ++ cipher) ≡ head =
      take_prefix header_bytes head cipher (sym long) in
    let counted : length (head ++ cipher) - header_bytes ≡ length plain = omega (
      arith,
      length-append head cipher,
      long,
      length-xor_from xor (stream (derive_file_key p suite key header.nonce) header.nonce) 0 plain,
    ) in
    let same : same_bytes (fingerprint p key) header.key_fp ≡ true =
      rw matches (same_bytes_refl header.key_fp) in
    let size : r.size ≡ valid_size (length plain) header.bytes_valid =
      ap (λ (n : ℕ). valid_size n header.bytes_valid) counted in
    (
      r,
      rw (first, sealed, parsed, same) refl,
      record {
        head = head;
        head_length = long;
        encrypted = refl;
        sized = rw size (valid_size-le (length plain) header.bytes_valid);
      },
      refl,
      size,
    )
