-- ===== src/Wire/Ota/Adverts.antt =====
-- The sizes that devices advertise, and the wait for them.
use visio_schema.Common.{
  if-cases, Result, err, any, leb, ℕ, ◌==◌, ◌<◌, ◌≡◌, inl, inr, refl, ltb, if◌then◌else◌, Bool,
  true, false, Bool-cases, List, [], ◌∷◌, ok, arith, All, ◌∙◌,
}
use visio_schema.Wire.Ota.{
  Halt, still_waiting, broken, Recv, OtaStatus, heard, silence, raises, WaitRound, foreign, least,
  next_smallest, smallest_advert,
}

-- The sizes that devices of this session advertise before the deadline.
unfoldable pub adverts : ℕ → ℕ → List WaitRound → List ℕ
adverts session deadline [] = []
adverts session deadline ((now, heard s) ∷ rounds) =
    let rest = adverts session deadline rounds in
    if ltb now deadline
    then (if foreign session s then rest else if s.max_chunk == 0 then rest else s.max_chunk ∷ rest)
    else []
adverts session deadline ((now, silence) ∷ rounds) =
    let rest = adverts session deadline rounds in if ltb now deadline then rest else []
adverts session deadline ((now, raises e) ∷ rounds) = []

unfoldable pub least_of : ℕ → List ℕ → ℕ
least_of smallest [] = smallest
least_of smallest (a ∷ others) = least_of (least smallest a) others

pub adverts-positive :
    (session deadline : ℕ) (rounds : List WaitRound)
    → All (λ b. 0 < b) (adverts session deadline rounds)
unfolding adverts
adverts-positive session deadline [] = tt
adverts-positive session deadline ((now, heard s) ∷ rounds) = elim (Bool-cases (ltb now deadline)) [
  | inl e ↦ rw e (elim (Bool-cases (foreign session s)) [
    | inl f ↦ rw f (adverts-positive session deadline rounds)
    | inr f ↦ rw f (elim (Bool-cases (s.max_chunk == 0)) [
      | inl z ↦ rw z (adverts-positive session deadline rounds)
      | inr z ↦ rw z (ground (arith, z), adverts-positive session deadline rounds)
    ])
  ])
  | inr e ↦ rw e tt
]
adverts-positive session deadline ((now, silence) ∷ rounds) = elim (Bool-cases (ltb now deadline)) [
  | inl e ↦ rw e (adverts-positive session deadline rounds)
  | inr e ↦ rw e tt
]
adverts-positive session deadline ((now, raises e) ∷ rounds) = tt

least-zero : (smallest advert : ℕ) → (advert == 0) ≡ true → least smallest advert ≡ smallest
unfolding least
least-zero smallest advert z = rw z refl

least_of-next :
    (session smallest : ℕ) (s : OtaStatus) (rest : List ℕ)
    → least_of (next_smallest session smallest s) rest
      ≡ least_of smallest (
          if foreign session s then rest else if s.max_chunk == 0 then rest else s.max_chunk ∷ rest)
unfolding next_smallest least_of
least_of-next session smallest s rest = elim (Bool-cases (foreign session s)) [
  | inl f ↦ rw f refl
  | inr f ↦ rw f (elim (Bool-cases (s.max_chunk == 0)) [
    | inl z ↦ rw (z, least-zero smallest s.max_chunk z) refl
    | inr z ↦ rw z refl
  ])
]

unfoldable pub is_raise : WaitRound → Bool
is_raise (now, heard s) = false
is_raise (now, silence) = false
is_raise (now, raises e) = true

-- How a wait for adverts ends: with the least of them; it goes on only while the clock is not
-- past the deadline, and it raises only what recv raised.
abbrev pub Sought : ℕ → ℕ → ℕ → List WaitRound → Result Halt ℕ → Type 0
Sought session deadline smallest rounds (ok n) =
    n ≡ least_of smallest (adverts session deadline rounds)
Sought session deadline smallest rounds (err still_waiting) =
    any (λ r. leb deadline r.0) rounds ≡ false
Sought session deadline smallest rounds (err (broken e)) = any is_raise rounds ≡ true

Sought-later :
    (session deadline smallest next now : ℕ) (answer : Recv) (rounds : List WaitRound)
    (r : Result Halt ℕ)
    → ltb now deadline ≡ true
    → least_of next (adverts session deadline rounds)
      ≡ least_of smallest (adverts session deadline ((now, answer) ∷ rounds))
    → Sought session deadline next rounds r
    → Sought session deadline smallest ((now, answer) ∷ rounds) r
Sought-later session deadline smallest next now answer rounds (ok n) early same h = h ∙ same
Sought-later session deadline smallest next now answer rounds (err still_waiting) early same h =
    ground (arith, early, h)
Sought-later session deadline smallest next now answer rounds (err (broken e)) early same h =
    ground (arith, h)

pub smallest_advert-Sought :
    (session deadline smallest : ℕ) (rounds : List WaitRound)
    → Sought session deadline smallest rounds (smallest_advert session deadline smallest rounds)
unfolding smallest_advert adverts least_of is_raise
smallest_advert-Sought session deadline smallest [] = refl
smallest_advert-Sought session deadline smallest ((now, heard s) ∷ rounds) =
    let next = next_smallest session smallest s in
    if-cases (Sought session deadline smallest ((now, heard s) ∷ rounds)) (ltb now deadline)
      (λ early.
        Sought-later session deadline smallest next now (heard s) rounds _ early
          (rw early (least_of-next session smallest s (adverts session deadline rounds)))
          (smallest_advert-Sought session deadline next rounds))
      (λ late. rw late refl)
smallest_advert-Sought session deadline smallest ((now, silence) ∷ rounds) =
    if-cases (Sought session deadline smallest ((now, silence) ∷ rounds)) (ltb now deadline)
      (λ early.
        Sought-later session deadline smallest smallest now silence rounds _ early (rw early refl)
          (smallest_advert-Sought session deadline smallest rounds))
      (λ late. rw late refl)
smallest_advert-Sought session deadline smallest ((now, raises e) ∷ rounds) =
    if-cases (Sought session deadline smallest ((now, raises e) ∷ rounds)) (ltb now deadline)
      (λ early. refl) (λ late. refl)
