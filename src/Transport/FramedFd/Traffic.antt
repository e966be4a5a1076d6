-- ===== src/Transport/FramedFd/Traffic.antt =====
-- The bytes that an endpoint puts on one link: whole frames, in the order of the sends.
use visio_schema.Common.{
  ℕ, ◌+◌, ◌-◌, ◌≡◌, refl, sym, ap, ◌∙◌, subst, true, List, [], ◌∷◌, ◌++◌, flatten, Result, ok, err,
  ok-injective, chain-eq-ok, length, leb, arith, append_assoc, List-cases, Bool-cases, inl, inr,
  ◌⊎◌,
}
use mathlib.Core.List.{Sublist, sublist-cons_self}
use mathlib.Core.List.Sublist
use visio_schema.Wire.Header.{Codec}
use visio_schema.Wire.Message.{Message, SendError}
use visio_schema.Wire.Framing.{frame_bytes}
use visio_schema.Wire.Framing.Stream.{wire_of}
use visio_schema.Transport.FramedFd.Link.{OsWrite}
use visio_schema.Transport.FramedFd.{
  FramedFd, RaisedBySend, drop_oldest, make_room, as_raised, send, link_up, pump,
}

-- Room is made by dropping the oldest frame of a full outbox.
pub make_room-eq-ok :
    (e : FramedFd) {roomy : FramedFd}
    → make_room e ≡ ok roomy
    → (e ≡ roomy)
      ⊎ ((old : List ℕ) × (rest : List (List ℕ)) × (e.outbox ≡ old ∷ rest)
          × (record e {
            outbox = rest;
            outbox_bytes = e.outbox_bytes - length old;
            dropped = e.dropped + 1;
          }
              ≡ roomy))
unfolding make_room drop_oldest
make_room-eq-ok e {roomy} made = elim (Bool-cases (leb e.max_outbox (length e.outbox))) [
  | inr room ↦ inl (ok-injective {E = RaisedBySend} (rw room at made))
  | inl full ↦ elim (List-cases e.outbox) [
    | inl empty ↦ absurd (ground arith)
    | inr (old, rest, queued) ↦
        inr (old, rest, queued, ok-injective {E = RaisedBySend} (ground arith))
  ]
]

module _ {T : Type 0} (c : Codec T) where
  -- The sending side of one link while it stays up: the messages sent since it was opened with an
  -- empty outbox, and the bytes written to it.
  pub data Traffic : FramedFd → List (Message T) → List ℕ → Type 0 where
    idle :
        {e : FramedFd}
        → e.inflight ≡ []
        → e.outbox ≡ []
        → e.outbox_bytes ≡ 0
        → e.dropped ≡ 0
        → Traffic e [] []
    sending :
        {e e' : FramedFd} {ms : List (Message T)} {wire : List ℕ} (m : Message T)
        → send c e m ≡ ok e'
        → Traffic e ms wire
        → Traffic e' (ms ++ m ∷ []) wire
    pumping :
        {e e' : FramedFd} {ms : List (Message T)} {wire sent : List ℕ}
        (write : ℕ → List ℕ → OsWrite)
        → pump write e ≡ (e', sent)
        → link_up e' ≡ true
        → Traffic e ms wire
        → Traffic e' ms (wire ++ sent)

  pub wire_of-append :
      (xs ys : List (Message T)) {a b : List ℕ}
      → wire_of c xs ≡ ok a
      → wire_of c ys ≡ ok b
      → wire_of c (xs ++ ys) ≡ ok (a ++ b)
  unfolding wire_of
  wire_of-append [] ys {a} {b} xs_framed ys_framed =
      let nothing = ok-injective {E = SendError} xs_framed in
      subst (λ z. wire_of c ys ≡ ok (z ++ b)) nothing ys_framed
  wire_of-append (x ∷ xs) ys {a} {b} xs_framed ys_framed =
      let (f, later, first) = chain-eq-ok (frame_bytes c x) _ xs_framed in
      let (rest, joined, others) = chain-eq-ok (wire_of c xs) _ later in
      let ih = wire_of-append xs ys others ys_framed in
      rw (first, ih)
        (ap ok
          (sym (append_assoc f rest b) ∙ ap (λ z. z ++ b) (ok-injective {E = SendError} joined)))

  -- Each frame is that of its message.
  abbrev pub Framed : List (Message T) → List (List ℕ) → Type 0
  Framed [] [] = Unit
  Framed (m ∷ ms) (f ∷ fs) = (frame_bytes c m ≡ ok f) × Framed ms fs
  Framed [] (f ∷ fs) = ⊥
  Framed (m ∷ ms) [] = ⊥

  pub Framed-append_one :
      (ms : List (Message T)) (fs : List (List ℕ)) (m : Message T) (f : List ℕ)
      → Framed ms fs
      → frame_bytes c m ≡ ok f
      → Framed (ms ++ m ∷ []) (fs ++ f ∷ [])
  Framed-append_one [] [] m f framed one = (one, tt)
  Framed-append_one [] (g ∷ fs) m f framed one = absurd framed
  Framed-append_one (n ∷ ms) [] m f framed one = absurd framed
  Framed-append_one (n ∷ ms) (g ∷ fs) m f framed one =
      (framed.0, Framed-append_one ms fs m f framed.1 one)

  pub Framed-cut :
      (ms : List (Message T)) (xs ys : List (List ℕ))
      → Framed ms (xs ++ ys)
      → (front back : List (Message T)) × (ms ≡ front ++ back) × Framed front xs × Framed back ys
  Framed-cut ms [] ys framed = ([], ms, refl, tt, framed)
  Framed-cut [] (x ∷ xs) ys framed = absurd framed
  Framed-cut (m ∷ ms) (x ∷ xs) ys framed =
      let (front, back, cut, firsts, others) = Framed-cut ms xs ys framed.1 in
      (m ∷ front, back, ap (λ z. m ∷ z) cut, (framed.0, firsts), others)

  pub Framed-wire_of :
      (ms : List (Message T)) (fs : List (List ℕ)) → Framed ms fs → wire_of c ms ≡ ok (flatten fs)
  unfolding wire_of mathlib.Core.List.flatten
  Framed-wire_of [] [] framed = refl
  Framed-wire_of [] (f ∷ fs) framed = absurd framed
  Framed-wire_of (m ∷ ms) [] framed = absurd framed
  Framed-wire_of (m ∷ ms) (f ∷ fs) framed = rw (framed.0, Framed-wire_of ms fs framed.1) refl

  as_raised-eq-ok : (r : Result SendError (List ℕ)) {f : List ℕ} → as_raised r ≡ ok f → r ≡ ok f
  unfolding as_raised
  as_raised-eq-ok (ok f) raised = cc
  as_raised-eq-ok (err e) raised = absurd (cc)

  -- A send that returns has queued the frame behind the others, in the room that was made.
  pub send-eq-ok :
      (e : FramedFd) (m : Message T) {e' : FramedFd}
      → send c e m ≡ ok e'
      → (framed : List ℕ) × (roomy : FramedFd) × (frame_bytes c m ≡ ok framed)
        × (make_room e ≡ ok roomy)
        × (record roomy {
          outbox = roomy.outbox ++ framed ∷ [];
          outbox_bytes = roomy.outbox_bytes + length framed;
        }
            ≡ e')
  unfolding send
  send-eq-ok e m sent =
      let (framed, later, encoded) = chain-eq-ok (as_raised (frame_bytes c m)) _ sent in
      let (roomy, last, room) = chain-eq-ok (make_room e) _ later in
      (
        framed,
        roomy,
        as_raised-eq-ok (frame_bytes c m) encoded,
        room,
        ok-injective {E = RaisedBySend} last,
      )
