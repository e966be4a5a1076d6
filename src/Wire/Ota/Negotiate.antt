-- ===== src/Wire/Ota/Negotiate.antt =====
-- The chunk size that a negotiation ends with.
use visio_schema.Common.{
  get_elem?, some, if-cases, min, zero, suc, ◌*◌, Result, err, any, leb, ℕ, ◌+◌, ◌==◌, ◌≤◌, ◌<◌,
  ◌≡◌, ◌⊎◌, inl, inr, refl, max, Bool, true, false, List, [], ◌∷◌, ok, arith, All, ap, ◌∙◌, sym,
  subst, chain,
}
use visio_schema.Wire.Ota.{
  Halt, still_waiting, broken, WaitRound, least, chunk_size, capped, negotiate_chunk,
}
use visio_schema.Wire.Ota.Adverts.{
  adverts, least_of, is_raise, Sought, smallest_advert-Sought, adverts-positive,
}

-- `m` is the least of the sizes.
abbrev pub IsLeast : ℕ → List ℕ → Type 0
IsLeast m sizes = ((i : ℕ) × (get_elem? sizes i ≡ some m)) × All (λ b. m ≤ b) sizes

least-cases :
    (smallest b : ℕ)
    → 0 < smallest
    → 0 < b
    → ((least smallest b ≡ smallest) × (smallest ≤ b)) ⊎ ((least smallest b ≡ b) × (b ≤ smallest))
unfolding least
least-cases smallest b h k = ground arith

All-below : {m n : ℕ} → m ≤ n → (bs : List ℕ) → All (λ b. n ≤ b) bs → All (λ b. m ≤ b) bs
All-below h [] k = tt
All-below h (b ∷ bs) k = (omega (arith, h, k.0), All-below h bs k.1)

found_later :
    (smallest b : ℕ) (sizes : List ℕ) {m : ℕ} (i : ℕ)
    → (least smallest b ≡ smallest) ⊎ (least smallest b ≡ b)
    → get_elem? (least smallest b ∷ sizes) i ≡ some m
    → (j : ℕ) × (get_elem? (smallest ∷ b ∷ sizes) j ≡ some m)
found_later smallest b sizes zero (inl e) h = (0, ap some (sym e) ∙ h)
found_later smallest b sizes zero (inr e) h = (1, ap some (sym e) ∙ h)
found_later smallest b sizes (suc i) e h = (suc (suc i), h)

least_of-positive :
    (smallest : ℕ) (sizes : List ℕ)
    → 0 < smallest
    → All (λ b. 0 < b) sizes
    → 0 < least_of smallest sizes
unfolding least_of
least_of-positive smallest [] h k = h
least_of-positive smallest (b ∷ sizes) h k =
    least_of-positive (least smallest b) sizes (ground (arith, least-cases smallest b h k.0)) k.1

least_of-IsLeast :
    (smallest : ℕ) (sizes : List ℕ)
    → 0 < smallest
    → All (λ b. 0 < b) sizes
    → IsLeast (least_of smallest sizes) (smallest ∷ sizes)
unfolding least_of
least_of-IsLeast smallest [] h k = ((0, refl), (omega arith, tt))
least_of-IsLeast smallest (b ∷ sizes) h k = elim (least-cases smallest b h k.0) [
  | inl (e, below) ↦
      let ((i, found), (least_first, others)) =
        least_of-IsLeast (least smallest b) sizes (omega (arith, e, h)) k.1 in
      (
        found_later smallest b sizes i (inl e) found,
        (omega (arith, e, least_first), (omega (arith, e, below, least_first), others)),
      )
  | inr (e, below) ↦
      let ((i, found), (least_first, others)) =
        least_of-IsLeast (least smallest b) sizes (omega (arith, e, k.0)) k.1 in
      (
        found_later smallest b sizes i (inr e) found,
        (omega (arith, e, below, least_first), (omega (arith, e, least_first), others)),
      )
]

-- The bounds on what a device may ask for.
abbrev pub within_limits : ℕ → ℕ
within_limits size = max (8 * 1024) (min size (60 * 1024))

abbrev pub Capped : ℕ → ℕ → ℕ → Type 0
Capped cap size out = ((cap ≡ 0) × (out ≡ size)) ⊎ ((0 < cap) × (out ≡ min size cap))

-- The size that the sender ends with, given what was advertised: the wanted size if nothing was,
-- else the least advertised one within the limits, wherever the wanted one lies; the cap last.
abbrev pub Negotiated : ℕ → ℕ → ℕ → List ℕ → Type 0
Negotiated want cap out [] = Capped cap want out
Negotiated want cap out (b ∷ sizes) =
    (m : ℕ) × IsLeast m (b ∷ sizes) × Capped cap (within_limits m) out

capped-Capped : (cap size : ℕ) → Capped cap size (capped cap size)
unfolding capped
capped-Capped cap size =
    if-cases (Capped cap size) (cap == 0) (λ z. inl (ground (arith, z), refl))
      (λ z. inr (ground (arith, z), refl))

chunk_size-within_limits : (want m : ℕ) → 0 < m → chunk_size want m ≡ within_limits m
unfolding chunk_size
chunk_size-within_limits want m h = ground arith

Negotiated-least :
    (want cap : ℕ) (sizes : List ℕ)
    → All (λ b. 0 < b) sizes
    → Negotiated want cap (capped cap (chunk_size want (least_of 0 sizes))) sizes
unfolding least_of chunk_size least
Negotiated-least want cap [] h = capped-Capped cap want
Negotiated-least want cap (b ∷ sizes) h =
    let m : ℕ = least_of b sizes in
    let first : least 0 b ≡ b = ground (arith, h.0) in
    let is_least = least_of-IsLeast b sizes h.0 h.1 in
    subst (λ n. Negotiated want cap (capped cap (chunk_size want (least_of n sizes))) (b ∷ sizes))
      (sym first)
      (
        m,
        is_least,
        subst (λ n. Capped cap n (capped cap (chunk_size want m)))
            (chunk_size-within_limits want m (least_of-positive b sizes h.0 h.1))
            (capped-Capped cap (chunk_size want m)),
      )

-- How a negotiation ends.
abbrev pub Settled : ℕ → ℕ → ℕ → ℕ → Bool → List WaitRound → Result Halt ℕ → Type 0
Settled session want cap deadline delivered rounds (ok out) =
    Negotiated want cap out (adverts session deadline rounds)
Settled session want cap deadline delivered rounds (err still_waiting) =
    any (λ r. leb deadline r.0) rounds ≡ false
Settled session want cap deadline delivered rounds (err (broken e)) =
    (delivered ≡ false) ⊎ (any is_raise rounds ≡ true)

Settled-Sought :
    (session want cap deadline : ℕ) (rounds : List WaitRound) (r : Result Halt ℕ)
    → Sought session deadline 0 rounds r
    → Settled session want cap deadline true rounds
        (chain (λ smallest. ok (capped cap (chunk_size want smallest))) r)
Settled-Sought session want cap deadline rounds (ok n) h =
    let sizes = adverts session deadline rounds in
    subst (λ m. Negotiated want cap (capped cap (chunk_size want m)) sizes) (sym h)
      (Negotiated-least want cap sizes (adverts-positive session deadline rounds))
Settled-Sought session want cap deadline rounds (err still_waiting) h = h
Settled-Sought session want cap deadline rounds (err (broken e)) h = inr h

-- A negotiation agrees on the wanted size, even below the floor, where no device of this session
-- advertised one in time; otherwise on the least of the sizes advertised in time, at least 8 KiB
-- and at most 60 KiB, whether that is below the wanted size or above; a cap, if there is one, then
-- bounds it. It raises only if the query was not sent or recv raised, and it waits on only while
-- no test of its loop has seen the clock at the end of the wait.
pub negotiate_chunk-Settled :
    (session want cap query_wait : ℕ) (delivered : Bool) (started : ℕ) (rounds : List WaitRound)
    → Settled session want cap
        (started + query_wait)
        delivered
        rounds
        (negotiate_chunk session want cap query_wait delivered started rounds)
unfolding negotiate_chunk
negotiate_chunk-Settled session want cap query_wait true started rounds =
    Settled-Sought session want cap (started + query_wait) rounds _
      (smallest_advert-Sought session (started + query_wait) 0 rounds)
negotiate_chunk-Settled session want cap query_wait false started rounds = inl refl
