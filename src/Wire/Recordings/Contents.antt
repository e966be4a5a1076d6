-- ===== src/Wire/Recordings/Contents.antt =====
-- What a pull hands to its sink.
use visio_schema.Common.{
  ℕ, zero, suc, ◌+◌, ◌-◌, ltb, min, ◌≤◌, ◌≡◌, refl, sym, ap, ap₂, ◌∙◌, subst, Bool, List, [], ◌∷◌,
  ◌++◌, Option, none, some, length, take, drop, All, arith, append_assoc, Bool-cases, inl, inr,
  length-append, length-take, drop-drop, take-add, ltb→lt, le→ltb_false,
}
use visio_schema.Wire.Recordings.{RecordingFileOpen}
use visio_schema.Wire.Recordings.Pull.{
  recv_buffer_bytes, Arrival, arrived, reset, Received, also, deliver, receive_loop, receive,
}

-- The bytes of the calls of the sink.
unfoldable pub written : List (ℕ × List ℕ) → List ℕ
written [] = []
written (w ∷ ws) = w.1 ++ written ws

pub written-append : (xs ys : List (ℕ × List ℕ)) → written (xs ++ ys) ≡ written xs ++ written ys
unfolding written
written-append [] ys = refl
written-append (w ∷ xs) ys =
    ap (λ z. w.1 ++ z) (written-append xs ys) ∙ sym (append_assoc w.1 (written xs) (written ys))

-- Each call of the sink starts where the one before it ended, the first at `at`.
abbrev pub Contiguous : ℕ → List (ℕ × List ℕ) → Type 0
Contiguous at [] = Unit
Contiguous at (w ∷ ws) = (w.0 ≡ at) × Contiguous (at + length w.1) ws

pub Contiguous-append :
    (at : ℕ) (xs ys : List (ℕ × List ℕ))
    → Contiguous at xs
    → Contiguous (at + length (written xs)) ys
    → Contiguous at (xs ++ ys)
unfolding written
Contiguous-append at [] ys h k = subst (λ n. Contiguous n ys) (omega arith) k
Contiguous-append at (w ∷ xs) ys h k = (
  h.0,
  Contiguous-append (at + length w.1) xs ys h.1
      (subst (λ n. Contiguous n ys) (omega (arith, length-append w.1 (written xs))) k),
)

-- Each call of the sink passes the bytes that the file has at its offset.
abbrev pub Slices : List ℕ → List (ℕ × List ℕ) → Type 0
Slices file = All (λ w. w.1 ≡ take (length w.1) (drop w.0 file))

-- What arrives on a socket is the file from a position on, in pieces that fit the buffer.
abbrev pub IsServed : List ℕ → ℕ → List Arrival → Type 0
IsServed file at [] = Unit
IsServed file at (reset ∷ arrivals) = Unit
IsServed file at (arrived chunk ∷ arrivals) =
    (length chunk ≤ recv_buffer_bytes)
    × (chunk ≡ take (length chunk) (drop at file))
    × IsServed file (at + length chunk) arrivals

-- The sum of the loop's guards.
pub record Range (opened : RecordingFileOpen) (received : ℕ) (r : Received) : Type 0 where
  pub contiguous : Contiguous (opened.offset + received) r.writes
  pub counted : r.received ≡ received + length (written r.writes)
  pub bounded : r.received ≤ opened.length

nothing-Range :
    (opened : RecordingFileOpen) (received : ℕ) (failed : Bool)
    → received ≤ opened.length
    → Range opened received (record { writes = []; received = received; failed = failed })
unfolding written
nothing-Range opened received failed small = record {
  contiguous = tt;
  counted = omega arith;
  bounded = small;
}

deliver-Range :
    (got : List ℕ) (opened : RecordingFileOpen) (received : ℕ) (rest : Received)
    → received ≤ opened.length
    → Range opened (received + length got) rest
    → Range opened received (deliver got opened received rest)
unfolding deliver also written
deliver-Range [] opened received rest small later = nothing-Range opened received _ small
deliver-Range (b ∷ bs) opened received rest small later = record {
  contiguous = (refl, subst (λ n. Contiguous n rest.writes) (omega arith) later.contiguous);
  counted = omega (arith, later.counted, length-append (b ∷ bs) (written rest.writes));
  bounded = later.bounded;
}

receive_loop-Range :
    (opened : RecordingFileOpen) (received : ℕ) (arrivals : List Arrival)
    → received ≤ opened.length
    → Range opened received (receive_loop opened received arrivals)
unfolding receive_loop
receive_loop-Range opened received [] small = nothing-Range opened received _ small
receive_loop-Range opened received (reset ∷ arrivals) small = nothing-Range opened received _ small
receive_loop-Range opened received (arrived chunk ∷ arrivals) small =
    let asked : ℕ = min recv_buffer_bytes (opened.length - received) in
    let got : List ℕ = take asked chunk in
    let fits : received + length got ≤ opened.length = omega (arith, length-take asked chunk) in
    let ih = receive_loop-Range opened (received + length got) arrivals fits in
    elim (Bool-cases (ltb received opened.length)) [
      | inr full ↦ rw (receive_loop, full) (nothing-Range opened received _ small)
      | inl more ↦ rw (receive_loop, more) (deliver-Range got opened received _ small ih)
    ]

pub receive-Range :
    (opened : RecordingFileOpen) (stream : Option (List Arrival))
    → Range opened 0 (receive opened stream)
unfolding receive
receive-Range opened none = nothing-Range opened 0 _ (omega arith)
receive-Range opened (some arrivals) = receive_loop-Range opened 0 arrivals (omega arith)

receive_loop-full :
    (opened : RecordingFileOpen) (received : ℕ) (arrivals : List Arrival)
    → opened.length ≤ received
    → (receive_loop opened received arrivals).writes ≡ []
unfolding receive_loop
receive_loop-full opened received [] full = refl
receive_loop-full opened received (reset ∷ arrivals) full = refl
receive_loop-full opened received (arrived chunk ∷ arrivals) full =
    rw (le→ltb_false received opened.length full) refl

pub take_part :
    (n : ℕ) (file chunk : List ℕ)
    → chunk ≡ take (length chunk) file
    → take n chunk ≡ take (length (take n chunk)) file
take_part zero file chunk part = refl
take_part (suc n) file [] part = refl
take_part (suc n) [] (b ∷ chunk) part = absurd (cc)
take_part (suc n) (f ∷ file) (b ∷ chunk) part =
    let first : b ≡ f = cc in
    let rest : chunk ≡ take (length chunk) file = cc in
    ap₂ (λ x xs. x ∷ xs) first (take_part n file chunk rest)

deliver-Slices :
    (file got : List ℕ) (opened : RecordingFileOpen) (received : ℕ) (rest : Received)
    → got ≡ take (length got) (drop (opened.offset + received) file)
    → Slices file rest.writes
    → Slices file (deliver got opened received rest).writes
unfolding deliver also
deliver-Slices file [] opened received rest part later = tt
deliver-Slices file (b ∷ bs) opened received rest part later = (part, later)

pub receive_loop-Slices :
    (file : List ℕ) (opened : RecordingFileOpen) (received : ℕ) (arrivals : List Arrival)
    → received ≤ opened.length
    → IsServed file (opened.offset + received) arrivals
    → Slices file (receive_loop opened received arrivals).writes
unfolding receive_loop
receive_loop-Slices file opened received [] small served = tt
receive_loop-Slices file opened received (reset ∷ arrivals) small served = tt
receive_loop-Slices file opened received (arrived chunk ∷ arrivals) small (fits, part, later) =
    let asked : ℕ = min recv_buffer_bytes (opened.length - received) in
    let got : List ℕ = take asked chunk in
    let counted : length got ≡ min asked (length chunk) = length-take asked chunk in
    let others : Slices file (receive_loop opened (received + length got) arrivals).writes =
      elim (Bool-cases (ltb (received + length got) opened.length)) [
        | inl more ↦
            let whole : length got ≡ length chunk =
              omega (arith, counted, ltb→lt (received + length got) opened.length more) in
            receive_loop-Slices file opened (received + length got) arrivals
              (omega (arith, ltb→lt (received + length got) opened.length more))
              (subst (λ n. IsServed file n arrivals) (omega (arith, whole)) later)
        | inr full ↦
            rw (receive_loop-full opened (received + length got) arrivals (ground (arith, full))) tt
      ] in
    elim (Bool-cases (ltb received opened.length)) [
      | inr full ↦ rw (receive_loop, full) tt
      | inl more ↦
          rw (receive_loop, more)
            (deliver-Slices file got opened received _ (take_part asked _ chunk part) others)
    ]

-- Contiguous slices are one slice.
pub Slices-written :
    (file : List ℕ) (at : ℕ) (ws : List (ℕ × List ℕ))
    → Contiguous at ws
    → Slices file ws
    → written ws ≡ take (length (written ws)) (drop at file)
unfolding written
Slices-written file at [] contiguous slices = refl
Slices-written file at (w ∷ ws) (starts, contiguous) (slice, slices) =
    rw
      (
        length-append w.1 (written ws),
        take-add (length w.1) (length (written ws)) (drop at file),
        drop-drop (length w.1) at file,
      )
      (ap₂ (λ a b. a ++ b) (rw starts at slice)
        (Slices-written file (at + length w.1) ws contiguous slices))
