-- ===== src/Mcap/Crypto/Layout.antt =====
-- A container written byte by byte, as its format is described, and what opening it gives.
use visio_schema.Common.{
  ℕ, ◌+◌, ◌*◌, ◌==◌, ◌≤◌, ◌≡◌, ◌≢◌, ◌⊎◌, refl, sym, ap, ◌∙◌, min, if◌then◌else◌, true, false, not,
  ◌||◌, List, [], ◌∷◌, ◌++◌, some, Result, ok, err, length, take, drop, arith, inl, inr,
  length-append, length-take, take_prefix, drop_prefix, append_assoc, Bool-cases,
}
use visio_schema.Mcap.Crypto.{
  header_bytes, CipherSuite, VrecHeader, CryptoError, newer_format, Primitives, VrecReader,
  from_little, byte_at, is_vrec, read_vrec_header, fingerprint, derive_file_key, valid_size, Opened,
  decrypting, open_recording,
}
use visio_schema.Mcap.Crypto.Reading.{xor_from, IsView}
use visio_schema.Mcap.Crypto.Opening.{same_bytes_refl, open_recording-IsView}

-- What a container opens as: a file of format 1 under cipher 1 as a view of the plaintext from
-- its start, as long as its valid length says, if that is not 0; any other is refused.
abbrev pub OpensAs :
    (ℕ → ℕ → ℕ)
    → (List ℕ → List ℕ → ℕ → ℕ)
    → List ℕ
    → ℕ
    → ℕ
    → ℕ
    → Result CryptoError Opened
    → Type 0
OpensAs xor stream plain format cipher valid opened =
    ((format ≡ 1)
      × (cipher ≡ 1)
      × ((r : VrecReader) × (opened ≡ ok (decrypting r))
          × IsView xor stream plain r
          × (r.pos ≡ 0)
          × (r.size ≡ (if valid == 0 then length plain else min (length plain) valid))))
    ⊎ (((format ≢ 1) ⊎ (cipher ≢ 1)) × (opened ≡ err newer_format))

module _ (p : Primitives) (suite : CipherSuite) (key nonce : List ℕ) where
  -- The 32 bytes at the head: the magic, the format and the cipher, two reserved bytes, eight
  -- bytes of the key's digest, the nonce, and the valid length, its low byte first.
  abbrev pub container_head : ℕ → ℕ → List ℕ → List ℕ
  container_head format cipher valid =
      suite.magic ++ format ∷ cipher ∷ 0 ∷ 0 ∷ (take 8 (p.sha256 key) ++ (nonce ++ valid))

  -- The head, and the plaintext under the keystream of the derived key.
  abbrev pub container : (ℕ → ℕ → ℕ) → (List ℕ → List ℕ → ℕ → ℕ) → List ℕ → List ℕ → List ℕ
  container xor stream head plain =
      head ++ xor_from xor (stream (p.hmac_sha256 key (suite.key_label ++ nonce)) nonce) 0 plain

  module _ {m₀ m₁ m₂ m₃ : ℕ} (magic : suite.magic ≡ m₀ ∷ m₁ ∷ m₂ ∷ m₃ ∷ [])
      (long_nonce : length nonce ≡ 12) (long_digest : 8 ≤ length (p.sha256 key))
      (v₀ v₁ v₂ v₃ : ℕ) where
    digest_length : length (take 8 (p.sha256 key)) ≡ 8
    digest_length = omega (arith, length-take 8 (p.sha256 key), long_digest)

    head_length :
        (format cipher : ℕ)
        → length (container_head format cipher (v₀ ∷ v₁ ∷ v₂ ∷ v₃ ∷ [])) ≡ header_bytes
    head_length format cipher = rw magic (
        omega (
          arith,
          digest_length,
          long_nonce,
          length-append (take 8 (p.sha256 key)) (nonce ++ v₀ ∷ v₁ ∷ v₂ ∷ v₃ ∷ []),
          length-append nonce (v₀ ∷ v₁ ∷ v₂ ∷ v₃ ∷ []),
        ))

    head-is_vrec :
        (format cipher : ℕ)
        → is_vrec suite (container_head format cipher (v₀ ∷ v₁ ∷ v₂ ∷ v₃ ∷ [])) ≡ true
    unfolding is_vrec
    head-is_vrec format cipher = rw magic (same_bytes_refl (m₀ ∷ m₁ ∷ m₂ ∷ m₃ ∷ []))

    rest-digest :
        take 8 (take 8 (p.sha256 key) ++ (nonce ++ v₀ ∷ v₁ ∷ v₂ ∷ v₃ ∷ [])) ≡ take 8 (p.sha256 key)
    rest-digest =
        take_prefix 8 (take 8 (p.sha256 key)) (nonce ++ v₀ ∷ v₁ ∷ v₂ ∷ v₃ ∷ []) (sym digest_length)

    rest-nonce :
        take 12 (drop 8 (take 8 (p.sha256 key) ++ (nonce ++ v₀ ∷ v₁ ∷ v₂ ∷ v₃ ∷ []))) ≡ nonce
    rest-nonce =
        ap (take 12) (
          drop_prefix 8 (take 8 (p.sha256 key)) (nonce ++ v₀ ∷ v₁ ∷ v₂ ∷ v₃ ∷ [])
            (sym digest_length))
        ∙ take_prefix 12 nonce (v₀ ∷ v₁ ∷ v₂ ∷ v₃ ∷ []) (sym long_nonce)

    rest-valid :
        take 4 (drop 20 (take 8 (p.sha256 key) ++ (nonce ++ v₀ ∷ v₁ ∷ v₂ ∷ v₃ ∷ [])))
        ≡ v₀ ∷ v₁ ∷ v₂ ∷ v₃ ∷ []
    rest-valid =
        ap (λ (bytes : List ℕ). take 4 (drop 20 bytes))
          (sym (append_assoc (take 8 (p.sha256 key)) nonce (v₀ ∷ v₁ ∷ v₂ ∷ v₃ ∷ [])))
        ∙ ap (take 4) (
            drop_prefix 20 (take 8 (p.sha256 key) ++ nonce) (v₀ ∷ v₁ ∷ v₂ ∷ v₃ ∷ []) (
              omega
                (arith, digest_length, long_nonce, length-append (take 8 (p.sha256 key)) nonce)))

    abbrev written : ℕ → ℕ → VrecHeader
    written format cipher = record {
      format = format;
      cipher = cipher;
      key_fp = take 8 (p.sha256 key);
      nonce = nonce;
      bytes_valid = from_little (v₀ ∷ v₁ ∷ v₂ ∷ v₃ ∷ []);
    }

    head_parses :
        (format cipher : ℕ)
        → read_vrec_header suite (container_head format cipher (v₀ ∷ v₁ ∷ v₂ ∷ v₃ ∷ [])) ≡ (
            if not (format == 1) || not (cipher == 1)
            then err newer_format
            else ok (written format cipher))
    unfolding read_vrec_header byte_at
    head_parses format cipher =
        rw (head_length format cipher, head-is_vrec format cipher)
          (rw magic (rw (rest-digest, rest-nonce, rest-valid) refl))

    little : from_little (v₀ ∷ v₁ ∷ v₂ ∷ v₃ ∷ []) ≡ v₀ + 256 * v₁ + 65536 * v₂ + 16777216 * v₃
    unfolding from_little
    little = omega arith

    first_32 :
        (format cipher : ℕ) (body : List ℕ)
        → take header_bytes (container_head format cipher (v₀ ∷ v₁ ∷ v₂ ∷ v₃ ∷ []) ++ body)
          ≡ container_head format cipher (v₀ ∷ v₁ ∷ v₂ ∷ v₃ ∷ [])
    first_32 format cipher body =
        take_prefix header_bytes (container_head format cipher (v₀ ∷ v₁ ∷ v₂ ∷ v₃ ∷ [])) body
          (sym (head_length format cipher))

    pub container_refused :
        (format cipher : ℕ) (body : List ℕ)
        → (not (format == 1) || not (cipher == 1)) ≡ true
        → open_recording p suite
            (container_head format cipher (v₀ ∷ v₁ ∷ v₂ ∷ v₃ ∷ []) ++ body)
            (some key)
            []
          ≡ err newer_format
    unfolding open_recording
    container_refused format cipher body other =
        rw
          (
            first_32 format cipher body,
            head-is_vrec format cipher,
            head_parses format cipher,
            other,
          )
          refl

    pub container_opened :
        (xor : ℕ → ℕ → ℕ) (stream : List ℕ → List ℕ → ℕ → ℕ) (plain : List ℕ) (format cipher : ℕ)
        → (not (format == 1) || not (cipher == 1)) ≡ false
        → (r : VrecReader) × (open_recording p suite
              (container xor stream (container_head format cipher (v₀ ∷ v₁ ∷ v₂ ∷ v₃ ∷ [])) plain)
              (some key)
              []
            ≡ ok (decrypting r))
          × IsView xor stream plain r
          × (r.pos ≡ 0)
          × (r.size ≡ (
              if v₀ + 256 * v₁ + 65536 * v₂ + 16777216 * v₃ == 0
              then length plain
              else min (length plain) (v₀ + 256 * v₁ + 65536 * v₂ + 16777216 * v₃)))
    unfolding fingerprint derive_file_key valid_size
    container_opened xor stream plain format cipher same =
        let (r, opened, view, start, size) =
          open_recording-IsView p suite xor stream
            (container_head format cipher (v₀ ∷ v₁ ∷ v₂ ∷ v₃ ∷ [])) key plain
            (written format cipher) (head_length format cipher) (head-is_vrec format cipher)
            (head_parses format cipher ∙ rw same refl) refl in
        (r, opened, view, start, size ∙ ap (valid_size (length plain)) little)

-- A container written as its format says, under a suite with a magic of four bytes, opens under its
-- key as a view of the plaintext from position 0, cut at the valid length that it records, if it
-- records one; with another format or cipher byte it is refused as newer. The file key is the HMAC of
-- the label and the nonce under the key, the fingerprint the first eight bytes of the key's SHA-256.
pub open_recording-container :
    (p : Primitives) (suite : CipherSuite) (key nonce : List ℕ) {m₀ m₁ m₂ m₃ : ℕ} (xor : ℕ → ℕ → ℕ)
    (stream : List ℕ → List ℕ → ℕ → ℕ) (plain : List ℕ) (format cipher v₀ v₁ v₂ v₃ : ℕ)
    → suite.magic ≡ m₀ ∷ m₁ ∷ m₂ ∷ m₃ ∷ []
    → length nonce ≡ 12
    → 8 ≤ length (p.sha256 key)
    → OpensAs xor stream plain format cipher (v₀ + 256 * v₁ + 65536 * v₂ + 16777216 * v₃) (
        open_recording p suite
          (container p suite key nonce xor stream
            (container_head p suite key nonce format cipher (v₀ ∷ v₁ ∷ v₂ ∷ v₃ ∷ []))
            plain)
          (some key)
          [])
open_recording-container p suite key nonce xor stream plain format cipher v₀ v₁ v₂ v₃ magic
      long_nonce long_digest =
    elim (Bool-cases (not (format == 1) || not (cipher == 1))) [
      | inl other ↦ inr (
        ground (arith, other),
        container_refused p suite key nonce magic long_nonce long_digest v₀ v₁ v₂ v₃ format cipher _
            other,
      )
      | inr same ↦ inl (
        ground (arith, same),
        ground (arith, same),
        container_opened p suite key nonce magic long_nonce long_digest v₀ v₁ v₂ v₃ xor stream plain
            format cipher same,
      )
    ]
