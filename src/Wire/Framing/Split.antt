-- ===== src/Wire/Framing/Split.antt =====
-- The cursor loop against a plain split of the bytes at each zero.
use visio_schema.Common.{
  ℕ, zero, suc, ◌+◌, ◌-◌, ◌<◌, ◌==◌, ◌≡◌, refl, sym, ap₂, ◌∙◌, List, [], ◌∷◌, ◌++◌, none, some,
  length, take, drop, if◌then◌else◌, arith, append-nil, append_assoc, Option-cases, inl, inr,
  length-drop, drop-drop,
}
use visio_schema.Wire.Header.{Codec}
use visio_schema.Wire.Message.{Message}
use visio_schema.Wire.Framing.{find_zero, find_from, decode_segment, scan, extract_frames}

-- The segments that a zero ends, and the bytes after the last zero.
unfoldable pub split : List ℕ → List (List ℕ) × List ℕ
split [] = ([], [])
split (b ∷ bs) =
    let (segments, tail) = split bs in
    if b == 0
    then ([] ∷ segments, tail)
    else elim segments [ [] ↦ ([], b ∷ tail) | s ∷ rest ↦ ((b ∷ s) ∷ rest, tail) ]

module _ {T : Type 0} (c : Codec T) where
  unfoldable pub decode_all : List (List ℕ) → List (Message T)
  decode_all [] = []
  decode_all (s ∷ ss) = decode_segment c s ++ decode_all ss

-- One round of the cursor: no zero, or the first segment and the rest.
split-find_none : (bs : List ℕ) → find_zero bs ≡ none → split bs ≡ ([], bs)
unfolding split find_zero
split-find_none [] h = refl
split-find_none (b ∷ bs) h = ground (arith, split-find_none bs)

split-find_some :
    (bs : List ℕ) (i : ℕ)
    → find_zero bs ≡ some i
    → split bs ≡ (take i bs ∷ (split (drop (suc i) bs)).0, (split (drop (suc i) bs)).1)
unfolding split find_zero
split-find_some [] i h = cc
split-find_some (b ∷ bs) zero h = ground (arith, Option-cases (find_zero bs))
split-find_some (b ∷ bs) (suc i) h =
    ground (arith, Option-cases (find_zero bs), split-find_some bs i)

find_zero-lt : (bs : List ℕ) (i : ℕ) → find_zero bs ≡ some i → i < length bs
unfolding find_zero
find_zero-lt [] i h = cc
find_zero-lt (b ∷ bs) zero h = omega arith
find_zero-lt (b ∷ bs) (suc i) h = ground (arith, Option-cases (find_zero bs), find_zero-lt bs i)

module _ {T : Type 0} (c : Codec T) where
  -- One round of the loop.
  scan-step :
      (fuel : ℕ) (buf : List ℕ) (pos : ℕ) (msgs : List (Message T))
      → (find_zero (drop pos buf) ≡ none → scan c (suc fuel) buf pos msgs ≡ (msgs, pos))
        × ((i : ℕ)
            → find_zero (drop pos buf) ≡ some i
            → scan c (suc fuel) buf pos msgs
              ≡ scan c fuel buf (pos + suc i) (msgs ++ decode_segment c (take i (drop pos buf))))
  unfolding scan find_from
  scan-step fuel buf pos msgs = (
    λ e. rw (e, scan),
    λ i e. rw (
      e,
      scan,
      (let same : pos + i - pos ≡ i = omega arith in same),
      (let same : pos + i + 1 ≡ pos + suc i = omega arith in same),
    ),
  )

  -- With more fuel than bytes left, the loop decodes every segment and stops at the tail.
  scan-split :
      (fuel : ℕ) (buf : List ℕ) (pos : ℕ) (msgs : List (Message T))
      → length (drop pos buf) < fuel
      → ((scan c fuel buf pos msgs).0 ≡ msgs ++ decode_all c (split (drop pos buf)).0)
        × (drop (scan c fuel buf pos msgs).1 buf ≡ (split (drop pos buf)).1)
  unfolding decode_all
  scan-split zero buf pos msgs enough = absurd (omega arith)
  scan-split (suc fuel) buf pos msgs enough = elim (Option-cases (find_zero (drop pos buf))) [
    | inl e ↦
        rw ((scan-step fuel buf pos msgs).0 e, split-find_none (drop pos buf) e)
          (sym (append-nil _), refl)
    | inr (i, e) ↦
        let bs : List ℕ = drop pos buf in
        let shorter : length (drop (pos + suc i) buf) < fuel =
          rw (← drop-drop (suc i) pos buf)
            (omega (arith, length-drop (suc i) bs, find_zero-lt bs i e)) in
        let (decoded, left) =
          scan-split fuel buf (pos + suc i) (msgs ++ decode_segment c (take i bs)) shorter in
        rw ((scan-step fuel buf pos msgs).1 i e, split-find_some bs i e, drop-drop (suc i) pos buf)
          (decoded ∙ append_assoc msgs _ _, left)
  ]

  -- The loop of `extract_frames` decodes the segments of a plain split, and keeps the tail.
  pub extract_frames-split :
      (buf : List ℕ) → extract_frames c buf ≡ (decode_all c (split buf).0, (split buf).1)
  unfolding extract_frames
  extract_frames-split buf =
      let (decoded, left) = scan-split (length buf + 1) buf 0 [] (omega arith) in
      ap₂ (λ a b. (a, b)) decoded left
