-- ===== src/Wire/Diag/Read.antt =====
-- What the read of a file returns.
use visio_schema.Common.{
  ℕ, ◌+◌, ◌==◌, ◌≡◌, refl, sym, ap, ap₂, ◌∙◌, subst, Bool, true, false, String, str_eq, str_eq_iff,
  string_eq, nat_eq, List, [], ◌∷◌, ◌++◌, flatten, Result, ok, err, length, take, drop, All, arith,
  ==_iff, ==_refl, if-cases, take-add, drop-drop, append_assoc, append-nil, length-append,
}
use visio_schema.Wire.Diag.{
  DiagChunk, DiagState, DiagBody, DiagError, CallEnd, Reading, Receive, quiet, reply, done_state,
  failed_state, running_state, listing, chunk, status, no_body, waiting, returned, raised, gap,
  timed_out, declined, replies, failure, ends, abort_gap, progressed, misplaced, on_status,
  read_loop, read_file,
}

-- The bytes stand in the file at the offset.
abbrev pub IsPiece : List ℕ → ℕ → List ℕ → Type 0
IsPiece file offset bytes = bytes ≡ take (length bytes) (drop offset file)

-- A chunk of the file that is asked for carries the bytes at its offset.
abbrev pub IsFaithful : List ℕ → String → DiagBody → Type 0
IsFaithful file name (chunk c) = c.name ≡ name → IsPiece file c.offset c.content
IsFaithful file name (listing files) = Unit {0}
IsFaithful file name (status state code) = Unit {0}
IsFaithful file name no_body = Unit {0}

-- What is received is no reply of the session, or a faithful one.
abbrev pub IsFromDevice : List ℕ → String → ℕ → Receive → Type 0
IsFromDevice file name session (quiet past) = Unit {0}
IsFromDevice file name session (reply r) =
    (r.session_id == session) ≡ true → IsFaithful file name r.body

abbrev IsAnswer : List ℕ → String → Result DiagError DiagBody → Type 0
IsAnswer file name (err e) = e ≡ timed_out
IsAnswer file name (ok body) = IsFaithful file name body

-- The read ended with a piece of the file, or raised or waits; it sent an abort if it met a gap,
-- and only then.
abbrev pub IsSound : List ℕ → ℕ → CallEnd (List ℕ) → Bool → Type 0
IsSound file offset waiting aborted = aborted ≡ false
IsSound file offset (returned bytes) aborted = (aborted ≡ false) × IsPiece file offset bytes
IsSound file offset (raised timed_out) aborted = aborted ≡ false
IsSound file offset (raised gap) aborted = aborted ≡ true
IsSound file offset (raised (declined code)) aborted = aborted ≡ false

-- The replies of a device that sends the parts in order, from the offset on.
unfoldable served : String → ℕ → List ℕ → List (List ℕ) → List (Result DiagError DiagBody)
served name offset part [] =
    ok (chunk (record { name = name; offset = offset; content = part; last = true })) ∷ []
served name offset part (next ∷ parts) =
    ok (chunk (record { name = name; offset = offset; content = part; last = false }))
    ∷ served name (offset + length part) next parts

-- The same parts as they are received in a session.
unfoldable pub sent : ℕ → String → ℕ → List ℕ → List (List ℕ) → List Receive
sent session name offset part [] =
    reply (record {
      session_id = session;
      body = chunk (record { name = name; offset = offset; content = part; last = true });
    })
    ∷ []
sent session name offset part (next ∷ parts) =
    reply (record {
      session_id = session;
      body = chunk (record { name = name; offset = offset; content = part; last = false });
    })
    ∷ sent session name (offset + length part) next parts

IsPiece-append :
    (file : List ℕ) (offset : ℕ) (xs ys : List ℕ)
    → IsPiece file offset xs
    → IsPiece file (offset + length xs) ys
    → IsPiece file offset (xs ++ ys)
IsPiece-append file offset xs ys here there =
    ap₂ (λ a b. a ++ b) here
      (there ∙ ap (take (length ys)) (sym (drop-drop (length xs) offset file)))
    ∙ sym (take-add (length xs) (length ys) (drop offset file))
    ∙ ap (λ (n : ℕ). take n (drop offset file)) (sym (length-append xs ys))

replies-IsAnswer :
    (file : List ℕ) (name : String) (session : ℕ) (receives : List Receive)
    → All (IsFromDevice file name session) receives
    → All (IsAnswer file name) (replies session receives)
unfolding replies
replies-IsAnswer file name session [] all = tt
replies-IsAnswer file name session (quiet past ∷ receives) all =
    if-cases (All (IsAnswer file name)) past (λ _. (refl, tt))
      (λ _. replies-IsAnswer file name session receives all.1)
replies-IsAnswer file name session (reply r ∷ receives) all =
    let rest = replies-IsAnswer file name session receives all.1 in
    if-cases (All (IsAnswer file name)) (r.session_id == session) (λ same. (all.0 same, rest))
      (λ _. rest)

placed :
    (name : String) (expect : ℕ) (c : DiagChunk)
    → misplaced name expect c ≡ false
    → (c.name ≡ name) × (c.offset ≡ expect)
unfolding misplaced
placed name expect c h = ground (arith, str_eq_iff c.name name, ==_iff c.offset expect, h)

placed_iff :
    (name : String) (expect : ℕ) (c : DiagChunk)
    → c.name ≡ name
    → c.offset ≡ expect
    → misplaced name expect c ≡ false
unfolding misplaced
placed_iff name expect c n o = ground (arith, str_eq_iff c.name name, ==_iff c.offset expect, n, o)

module _ (file : List ℕ) (name : String) (offset : ℕ) where
  unfoldable Sound : Reading → Type 0
  Sound r = IsSound file offset r.ending r.aborted

  on_status-Sound :
      (state : DiagState) (code : String) (out : List ℕ) (rest : Reading)
      → IsPiece file offset out
      → Sound rest
      → Sound (on_status state code out rest)
  unfolding on_status Sound ends failure
  on_status-Sound done_state code out rest piece sound = (refl, piece)
  on_status-Sound failed_state code out rest piece sound = refl
  on_status-Sound running_state code out rest piece sound =
      if-cases Sound (str_eq code "") (λ _. sound) (λ _. refl)

  read_loop-Sound :
      (rs : List (Result DiagError DiagBody)) (expect : ℕ) (out : List ℕ)
      → expect ≡ offset + length out
      → IsPiece file offset out
      → All (IsAnswer file name) rs
      → Sound (read_loop name expect out rs)
  unfolding read_loop Sound ends progressed abort_gap
  read_loop-Sound [] expect out e piece faithful = refl
  read_loop-Sound (err e' ∷ rs) expect out e piece faithful =
      subst (λ t. IsSound file offset (raised t) false) (sym faithful.0) refl
  read_loop-Sound (ok (listing files) ∷ rs) expect out e piece faithful =
      read_loop-Sound rs expect out e piece faithful.1
  read_loop-Sound (ok no_body ∷ rs) expect out e piece faithful =
      read_loop-Sound rs expect out e piece faithful.1
  read_loop-Sound (ok (status state code) ∷ rs) expect out e piece faithful =
      on_status-Sound state code out (read_loop name expect out rs) piece
        (read_loop-Sound rs expect out e piece faithful.1)
  read_loop-Sound (ok (chunk c) ∷ rs) expect out e piece faithful =
      if-cases Sound (misplaced name expect c) (λ _. refl)
        (λ fits.
          let (same_name, same_offset) = placed name expect c fits in
          let joined =
            IsPiece-append file offset out c.content piece
              (subst (λ o. IsPiece file o c.content) (same_offset ∙ e) (faithful.0 same_name)) in
          if-cases (λ r. Sound (progressed (length (out ++ c.content)) r)) c.last
            (λ _. (refl, joined))
            (λ _.
              read_loop-Sound rs (expect + length c.content) (out ++ c.content)
                (omega (arith, e, length-append out c.content)) joined faithful.1))

read_loop-served :
    (name : String) (expect : ℕ) (out part : List ℕ) (parts : List (List ℕ))
    (more : List (Result DiagError DiagBody))
    → (read_loop name expect out (served name expect part parts ++ more)).ending
      ≡ returned (out ++ flatten (part ∷ parts))
unfolding read_loop served progressed ends mathlib.Core.List.flatten
read_loop-served name expect out part [] more =
    rw
      (placed_iff name expect (record { name = name; offset = expect; content = part; last = true })
        refl refl)
      (ap (λ bs. returned (out ++ bs)) (sym (append-nil part)))
read_loop-served name expect out part (next ∷ parts) more =
    rw
      (placed_iff name expect
        (record { name = name; offset = expect; content = part; last = false }) refl refl)
      (read_loop-served name (expect + length part) (out ++ part) next parts more
        ∙ ap returned (append_assoc out part (flatten (next ∷ parts))))

replies-sent :
    (session : ℕ) (name : String) (offset : ℕ) (part : List ℕ) (parts : List (List ℕ))
    (more : List Receive)
    → replies session (sent session name offset part parts ++ more)
      ≡ served name offset part parts ++ replies session more
unfolding replies sent served
replies-sent session name offset part [] more = rw ==_refl refl
replies-sent session name offset part (next ∷ parts) more =
    rw (==_refl session, replies-sent session name (offset + length part) next parts more) refl

-- However the replies of a session are mixed with others, lost, repeated or out of order, a read
-- from a device whose chunks of the file carry the bytes at their offset returns one piece of the
-- file, which starts at the offset, or it raises or waits; it sends an abort if a chunk leaves a
-- gap, and only then. When the parts from the offset on are received in order, the last one
-- marked, it returns those parts, whatever comes after.
pub read_file-piece :
    (file : List ℕ) (name : String) (session offset : ℕ) (receives more : List Receive)
    (part : List ℕ) (parts : List (List ℕ))
    → All (IsFromDevice file name session) receives
    → (let r = read_file session name offset receives in IsSound file offset r.ending r.aborted)
      × ((read_file session name offset (sent session name offset part parts ++ more)).ending
          ≡ returned (flatten (part ∷ parts)))
unfolding read_file Sound
read_file-piece file name session offset receives more part parts all = (
  read_loop-Sound file name offset (replies session receives) offset [] (omega arith) refl
      (replies-IsAnswer file name session receives all),
  ap (λ rs. (read_loop name offset [] rs).ending) (replies-sent session name offset part parts more)
      ∙ read_loop-served name offset [] part parts (replies session more),
)
