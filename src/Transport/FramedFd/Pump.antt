-- ===== src/Transport/FramedFd/Pump.antt =====
-- What `_pump` leaves of the queued bytes.
use visio_schema.Common.{
  ℕ, zero, suc, ◌+◌, ◌-◌, ◌==◌, ◌≡◌, refl, sym, ap, ◌∙◌, false, List, [], ◌∷◌, ◌++◌, flatten,
  Option, none, some, length, take, drop, arith, append-nil, length-append, append_assoc,
  take-append-drop, List-cases, inl, inr,
}
use mathlib.Core.List.{Sublist}
use visio_schema.Transport.FramedFd.Link.{OsWrite, write_some}
use visio_schema.Transport.FramedFd.{
  Round, broken, waits, done, after_write, write_inflight, Drained, died, left, prepend, conclude,
  drain,
}

-- The number of bytes in a list of frames.
unfoldable pub total : List (List ℕ) → ℕ
total [] = 0
total (f ∷ fs) = length f + total fs

pub total-append : (xs ys : List (List ℕ)) → total (xs ++ ys) ≡ total xs + total ys
unfolding total
total-append [] ys = omega arith
total-append (x ∷ xs) ys = omega (arith, total-append xs ys)

pub length-flatten : (fs : List (List ℕ)) → length (flatten fs) ≡ total fs
unfolding total mathlib.Core.List.flatten
length-flatten [] = refl
length-flatten (f ∷ fs) = omega (arith, length-append f (flatten fs), length-flatten fs)

-- The bytes that one write took, and those that are left, are the frame.
abbrev RoundWhole : List ℕ → Round → Type 0
RoundWhole frame broken = Unit
RoundWhole frame (waits rest sent) = sent ++ rest ≡ frame
RoundWhole frame (done sent) = sent ≡ frame

after_write-RoundWhole : (n : Option ℕ) (frame : List ℕ) → RoundWhole frame (after_write n frame)
unfolding after_write
after_write-RoundWhole none frame = tt
after_write-RoundWhole (some zero) frame = refl
after_write-RoundWhole (some (suc n)) frame =
    let some_bytes : (suc n == 0) ≡ false = ground arith in
    let whole : take (suc n) frame ++ drop (suc n) frame ≡ frame = take-append-drop (suc n) frame in
    elim (List-cases (drop (suc n) frame)) [
      | inl all ↦ rw (some_bytes, all, after_write) (sym (append-nil _) ∙ rw all at whole)
      | inr (b, bs, rest) ↦ rw (some_bytes, rest, after_write) (rw rest at whole)
    ]

write_inflight-RoundWhole :
    (write : List ℕ → OsWrite) (frame : List ℕ) → RoundWhole frame (write_inflight write frame)
unfolding write_inflight
write_inflight-RoundWhole write [] = refl
write_inflight-RoundWhole write (b ∷ bs) =
    after_write-RoundWhole (write_some (write (b ∷ bs))) (b ∷ bs)

-- What the loop leaves: behind the frame in flight, some queued frames went out whole, the others
-- are still queued, and their size is counted.
abbrev pub DrainedWhole : List ℕ → List (List ℕ) → Drained → Type 0
DrainedWhole inflight outbox (died sent) = Unit
DrainedWhole inflight outbox (left inflight' outbox' bytes sent) =
    (moved : List (List ℕ)) × (outbox ≡ moved ++ outbox')
    × (sent ++ inflight' ≡ inflight ++ flatten moved)
    × (bytes ≡ total outbox')

prepend-DrainedWhole :
    (frame next : List ℕ) (outbox : List (List ℕ)) (d : Drained)
    → DrainedWhole next outbox d
    → DrainedWhole frame (next ∷ outbox) (prepend frame d)
unfolding prepend mathlib.Core.List.flatten
prepend-DrainedWhole frame next outbox (died sent) whole = tt
prepend-DrainedWhole frame next outbox (left i o b sent) (moved, split_at, joined, counted) = (
  next ∷ moved,
  ap (λ z. next ∷ z) split_at,
  append_assoc frame sent i ∙ ap (λ z. frame ++ z) joined,
  counted,
)

conclude-DrainedWhole :
    (r : Round) (inflight : List ℕ) (outbox : List (List ℕ)) (bytes : ℕ) (next : Drained)
    → RoundWhole inflight r
    → bytes ≡ total outbox
    → DrainedWhole inflight outbox (prepend inflight next)
    → DrainedWhole inflight outbox (conclude r next outbox bytes)
unfolding conclude mathlib.Core.List.flatten
conclude-DrainedWhole broken inflight outbox bytes next whole counted later = tt
conclude-DrainedWhole (waits rest sent) inflight outbox bytes next whole counted later =
    ([], refl, whole ∙ sym (append-nil inflight), counted)
conclude-DrainedWhole (done sent) inflight outbox bytes next whole counted later = rw whole later

pub drain-DrainedWhole :
    (write : ℕ → List ℕ → OsWrite) (k : ℕ) (inflight : List ℕ) (outbox : List (List ℕ)) (bytes : ℕ)
    → bytes ≡ total outbox
    → DrainedWhole inflight outbox (drain write k inflight outbox bytes)
unfolding drain prepend total mathlib.Core.List.flatten
drain-DrainedWhole write k inflight [] bytes counted =
    conclude-DrainedWhole _ inflight [] bytes _ (write_inflight-RoundWhole (write k) inflight)
      counted ([], refl, append-nil _, counted)
drain-DrainedWhole write k inflight (frame ∷ outbox) bytes counted =
    conclude-DrainedWhole _ inflight (frame ∷ outbox) bytes _
      (write_inflight-RoundWhole (write k) inflight) counted
      (prepend-DrainedWhole inflight frame outbox _
        (drain-DrainedWhole write (suc k) frame outbox (bytes - length frame) (omega arith)))
