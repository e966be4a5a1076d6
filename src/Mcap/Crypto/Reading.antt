-- ===== src/Mcap/Crypto/Reading.antt =====
-- Reads of an encrypted recording give its plaintext.
use visio_schema.Common.{
  ℕ, zero, suc, ◌+◌, ◌-◌, ◌*◌, ◌/◌, ◌%◌, ◌==◌, leb, min, ◌≤◌, ◌<◌, ◌≡◌, refl, sym, ap, ap₂, ◌∙◌,
  false, ◌||◌, List, [], ◌∷◌, ◌++◌, ok, length, take, drop, arith, Bool-cases, inl, inr, drop-drop,
  drop_prefix,
}
use visio_schema.Mcap.Crypto.{
  header_bytes, Primitives, VrecReader, to_little, xor_at, fill, read_cipher, readinto,
}

-- XOR of the bytes with the keystream from a position on.
unfoldable pub xor_from : (ℕ → ℕ → ℕ) → (ℕ → ℕ) → ℕ → List ℕ → List ℕ
xor_from xor stream at [] = []
xor_from xor stream at (b ∷ bs) = xor b (stream at) ∷ xor_from xor stream (suc at) bs

-- ChaCha20: an encryptor whose counter starts at a block gives the keystream of the key and the
-- nonce from that block on, 64 bytes a block, and XOR undoes itself.
pub record IsStream (p : Primitives) (xor : ℕ → ℕ → ℕ) (stream : List ℕ → List ℕ → ℕ → ℕ)
    : Type 0 where
  pub update-xor_from :
      (key nonce : List ℕ) (block n : ℕ) (bytes : List ℕ)
      → block < 4294967296
      → p.update key (to_little 4 block ++ nonce) n bytes
        ≡ xor_from xor (stream key nonce) (64 * block + n) bytes
  pub xor_undone : (a b : ℕ) → xor (xor a b) b ≡ a

xor_from_undone :
    (xor : ℕ → ℕ → ℕ) (stream : ℕ → ℕ) (at : ℕ) (bytes : List ℕ)
    → ((a b : ℕ) → xor (xor a b) b ≡ a)
    → xor_from xor stream at (xor_from xor stream at bytes) ≡ bytes
unfolding xor_from
xor_from_undone xor stream at [] undone = refl
xor_from_undone xor stream at (b ∷ bs) undone =
    ap₂ (λ x xs. x ∷ xs) (undone b (stream at)) (xor_from_undone xor stream (suc at) bs undone)

pub length-xor_from :
    (xor : ℕ → ℕ → ℕ) (stream : ℕ → ℕ) (at : ℕ) (bytes : List ℕ)
    → length (xor_from xor stream at bytes) ≡ length bytes
unfolding xor_from
length-xor_from xor stream at [] = refl
length-xor_from xor stream at (b ∷ bs) = ap suc (length-xor_from xor stream (suc at) bs)

-- A slice of the ciphertext is the ciphertext of the slice, at its own position.
drop-xor_from :
    (xor : ℕ → ℕ → ℕ) (stream : ℕ → ℕ) (n at : ℕ) (bytes : List ℕ)
    → drop n (xor_from xor stream at bytes) ≡ xor_from xor stream (at + n) (drop n bytes)
unfolding xor_from
drop-xor_from xor stream zero at bytes = ap (λ (k : ℕ). xor_from xor stream k bytes) (omega arith)
drop-xor_from xor stream (suc n) at [] = refl
drop-xor_from xor stream (suc n) at (b ∷ bs) =
    drop-xor_from xor stream n (suc at) bs
    ∙ ap (λ (k : ℕ). xor_from xor stream k (drop n bs)) (omega arith)

take-xor_from :
    (xor : ℕ → ℕ → ℕ) (stream : ℕ → ℕ) (n at : ℕ) (bytes : List ℕ)
    → take n (xor_from xor stream at bytes) ≡ xor_from xor stream at (take n bytes)
unfolding xor_from
take-xor_from xor stream zero at bytes = refl
take-xor_from xor stream (suc n) at [] = refl
take-xor_from xor stream (suc n) at (b ∷ bs) =
    ap (λ xs. xor b (stream at) ∷ xs) (take-xor_from xor stream n (suc at) bs)

-- The reader stands on an encrypted file: a header, and the plaintext under the keystream.
pub record IsView (xor : ℕ → ℕ → ℕ) (stream : List ℕ → List ℕ → ℕ → ℕ) (plain : List ℕ)
    (r : VrecReader) : Type 0 where
  pub head : List ℕ
  pub head_length : length head ≡ header_bytes
  pub encrypted : r.raw ≡ head ++ xor_from xor (stream r.file_key r.header.nonce) 0 plain
  pub sized : r.size ≤ length plain

module _ (p : Primitives) (xor : ℕ → ℕ → ℕ) (stream : List ℕ → List ℕ → ℕ → ℕ)
    (law : IsStream p xor stream) where
  xor_at-plain :
      (r : VrecReader) (plain : List ℕ)
      → r.pos < 274877906944
      → xor_at p r r.pos (xor_from xor (stream r.file_key r.header.nonce) r.pos plain) ≡ ok plain
  unfolding xor_at
  xor_at-plain r plain small =
      let low : leb 4294967296 (r.pos / 64) ≡ false = ground (arith, small) in
      let here : 64 * (r.pos / 64) + r.pos % 64 ≡ r.pos = omega arith in
      rw
        (
          low,
          law.update-xor_from r.file_key r.header.nonce (r.pos / 64) (r.pos % 64)
              (xor_from xor (stream r.file_key r.header.nonce) r.pos plain) (omega arith),
          here,
          xor_from_undone xor (stream r.file_key r.header.nonce) r.pos plain law.xor_undone,
        )
        refl

  read_cipher-view :
      (r : VrecReader) (want : ℕ) (plain : List ℕ)
      → IsView xor stream plain r
      → read_cipher r want
        ≡ xor_from xor
            (stream r.file_key r.header.nonce)
            r.pos
            (take (min want (r.size - r.pos)) (drop r.pos plain))
  unfolding read_cipher
  read_cipher-view r want plain view =
      let s : ℕ → ℕ = stream r.file_key r.header.nonce in
      let n : ℕ = min want (r.size - r.pos) in
      let after_head : drop (header_bytes + r.pos) r.raw ≡ drop r.pos (xor_from xor s 0 plain) =
        ap (drop (header_bytes + r.pos)) view.encrypted
        ∙ sym (drop-drop r.pos header_bytes (view.head ++ xor_from xor s 0 plain))
        ∙ ap (drop r.pos)
            (drop_prefix header_bytes view.head (xor_from xor s 0 plain) (sym view.head_length)) in
      ap (take n) (after_head ∙ drop-xor_from xor s r.pos 0 plain)
      ∙ take-xor_from xor s n (0 + r.pos) (drop r.pos plain)
      ∙ ap (λ (k : ℕ). xor_from xor s k (take n (drop r.pos plain))) (omega arith)

  fill-plain :
      (r : VrecReader) (plain : List ℕ)
      → r.pos < 274877906944
      → fill p r (xor_from xor (stream r.file_key r.header.nonce) r.pos plain)
        ≡ ok (plain, record r { pos = r.pos + length plain })
  unfolding fill xor_from
  fill-plain r [] small =
      ap (λ (n : ℕ). ok ([], record r { pos = n }))
        (let same : r.pos ≡ r.pos + 0 = omega arith in same)
  fill-plain r (b ∷ bs) small =
      rw
        (
          xor_at-plain r (b ∷ bs) small,
          length-xor_from xor (stream r.file_key r.header.nonce) (suc r.pos) bs,
        )
        refl

  -- Under a cipher that is a stream, a read of an encrypted file at any position gives the
  -- plaintext from there, as much as was asked for and as the
  -- view holds, and moves the position behind it: a seek needs no byte before its target. The
  -- position is below 2 ^ 38, where the 32-bit block counter ends.
  pub readinto-IsView :
      (r : VrecReader) (want : ℕ) (plain : List ℕ)
      → IsView xor stream plain r
      → r.pos < 274877906944
      → readinto p r want
        ≡ ok (
          take (min want (r.size - r.pos)) (drop r.pos plain),
          record r { pos = r.pos + length (take (min want (r.size - r.pos)) (drop r.pos plain)) },
        )
  unfolding readinto
  readinto-IsView r want plain view small = elim (Bool-cases (want == 0 || leb r.size r.pos)) [
    | inr some_bytes ↦
        rw (some_bytes, read_cipher-view r want plain view)
          (fill-plain r (take (min want (r.size - r.pos)) (drop r.pos plain)) small)
    | inl at_end ↦
        let nothing : min want (r.size - r.pos) ≡ 0 = ground (arith, at_end) in
        let same : r.pos ≡ r.pos + 0 = omega arith in
        rw (at_end, nothing) (ap (λ (n : ℕ). ok ([], record r { pos = n })) same)
  ]
