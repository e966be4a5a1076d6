-- ===== src/Transport/FramedFd/Ledger.antt =====
-- Which of the messages sent have gone out, are queued or were dropped.
use visio_schema.Common.{
  ℕ, ◌+◌, ◌-◌, ◌≡◌, refl, sym, ap, ◌∙◌, subst, true, List, [], ◌∷◌, ◌++◌, flatten, ok, length,
  arith, append-nil, append_assoc, length-append, Bool-cases, inl, inr,
}
use mathlib.Core.List.{Sublistᴰ}
use mathlib.Core.List.Sublistᴰ
use visio_schema.Wire.Header.{Codec}
use visio_schema.Wire.Message.{Message}
use visio_schema.Wire.Framing.{frame_bytes}
use visio_schema.Wire.Framing.Stream.{wire_of}
use visio_schema.Transport.FramedFd.Link.{OsWrite}
use visio_schema.Transport.FramedFd.{
  FramedFd, make_room, link_up, mark_link_dead, Drained, died, left, drain, pumped, pump,
}
use visio_schema.Transport.FramedFd.Pump.{total, total-append, DrainedWhole, drain-DrainedWhole}
use visio_schema.Transport.FramedFd.Traffic.{
  make_room-eq-ok, Traffic, idle, sending, pumping, Framed, Framed-append_one, Framed-cut,
  Framed-wire_of, wire_of-append, send-eq-ok,
}

module _ {T : Type 0} (c : Codec T) where
  -- The messages whose frames went out whole, or are in flight, and those still queued.
  pub record Ledger (e : FramedFd) (ms : List (Message T)) (wire : List ℕ) : Type 0 where
    pub gone : List (Message T)
    pub queued : List (Message T)
    pub gone_bytes : List ℕ
    pub gone_framed : wire_of c gone ≡ ok gone_bytes
    pub queued_framed : Framed c queued e.outbox
    pub on_wire : wire ++ e.inflight ≡ gone_bytes
    pub in_order : Sublistᴰ (gone ++ queued) ms
    pub counted : length gone + length queued + e.dropped ≡ length ms
    pub sized : e.outbox_bytes ≡ total e.outbox

  idle-Ledger :
      {e : FramedFd}
      → e.inflight ≡ []
      → e.outbox ≡ []
      → e.outbox_bytes ≡ 0
      → e.dropped ≡ 0
      → Ledger e [] []
  unfolding wire_of total
  idle-Ledger no_frame empty no_bytes none_dropped = record {
    gone = [];
    queued = [];
    gone_bytes = [];
    gone_framed = refl;
    queued_framed = rw empty tt;
    on_wire = no_frame;
    in_order = Sublistᴰ.slnil;
    counted = omega arith;
    sized = rw empty no_bytes;
  }

  Framed-first :
      (ms : List (Message T)) (f : List ℕ) {fs : List (List ℕ)}
      → Framed c ms (f ∷ fs)
      → (m : Message T) × (rest : List (Message T)) × (ms ≡ m ∷ rest) × Framed c rest fs
  Framed-first [] f framed = absurd framed
  Framed-first (m ∷ ms) f framed = (m, ms, refl, framed.1)

  drop-Ledger :
      {e : FramedFd} {ms : List (Message T)} {wire : List ℕ} (old : List ℕ) (rest : List (List ℕ))
      → e.outbox ≡ old ∷ rest
      → Ledger e ms wire
      → Ledger
          (record e {
            outbox = rest;
            outbox_bytes = e.outbox_bytes - length old;
            dropped = e.dropped + 1;
          })
          ms
          wire
  unfolding total
  drop-Ledger {e} {ms} {wire} old rest full l =
      let (m, others, first, framed) =
        Framed-first l.queued old (subst (Framed c l.queued) full l.queued_framed) in
      let size : e.outbox_bytes ≡ length old + total rest = l.sized ∙ ap total full in
      record {
        gone = l.gone;
        queued = others;
        gone_bytes = l.gone_bytes;
        gone_framed = l.gone_framed;
        queued_framed = framed;
        on_wire = l.on_wire;
        in_order =
            Sublistᴰ.trans
              (Sublistᴰ.append (Sublistᴰ.refl l.gone) (Sublistᴰ.cons (Sublistᴰ.refl others)))
              (subst (λ q. Sublistᴰ (l.gone ++ q) ms) first l.in_order);
        counted = omega (arith, l.counted, ap length first);
        sized = omega (arith, size);
      }

  make_room-Ledger :
      {e roomy : FramedFd} {ms : List (Message T)} {wire : List ℕ}
      → make_room e ≡ ok roomy
      → Ledger e ms wire
      → Ledger roomy ms wire
  make_room-Ledger {e} {roomy} {ms} {wire} made l = elim (make_room-eq-ok e made) [
    | inl same ↦ subst (λ r. Ledger r ms wire) same l
    | inr (old, rest, full, dropped) ↦
        subst (λ r. Ledger r ms wire) dropped (drop-Ledger old rest full l)
  ]

  enqueue-Ledger :
      {e : FramedFd} {ms : List (Message T)} {wire framed : List ℕ} (m : Message T)
      → frame_bytes c m ≡ ok framed
      → Ledger e ms wire
      → Ledger
          (record e {
            outbox = e.outbox ++ framed ∷ [];
            outbox_bytes = e.outbox_bytes + length framed;
          })
          (ms ++ m ∷ [])
          wire
  unfolding total
  enqueue-Ledger {e} {ms} {wire} {framed} m encoded l = record {
    gone = l.gone;
    queued = l.queued ++ m ∷ [];
    gone_bytes = l.gone_bytes;
    gone_framed = l.gone_framed;
    queued_framed = Framed-append_one c l.queued e.outbox m framed l.queued_framed encoded;
    on_wire = l.on_wire;
    in_order =
        rw (← append_assoc l.gone l.queued (m ∷ []))
          (Sublistᴰ.append l.in_order (Sublistᴰ.cons-cons refl Sublistᴰ.slnil));
    counted = omega (arith, length-append l.queued (m ∷ []), length-append ms (m ∷ []), l.counted);
    sized = omega (arith, total-append e.outbox (framed ∷ []), l.sized);
  }

  pumped-Ledger :
      {e : FramedFd} {ms : List (Message T)} {wire : List ℕ} (d : Drained)
      → DrainedWhole e.inflight e.outbox d
      → link_up (pumped e d).0 ≡ true
      → Ledger e ms wire
      → Ledger (pumped e d).0 ms (wire ++ (pumped e d).1)
  unfolding pumped link_up mark_link_dead
  pumped-Ledger (died sent) whole up l = absurd (cc)
  pumped-Ledger {e} {ms} {wire} (left inflight outbox bytes sent) (moved, cut_at, joined, size) up
        l =
      let (front, back, cut, went, stayed) =
        Framed-cut c l.queued moved outbox (subst (Framed c l.queued) cut_at l.queued_framed) in
      record {
        gone = l.gone ++ front;
        queued = back;
        gone_bytes = l.gone_bytes ++ flatten moved;
        gone_framed =
            wire_of-append c l.gone front l.gone_framed (Framed-wire_of c front moved went);
        queued_framed = stayed;
        on_wire =
            append_assoc wire sent inflight
            ∙ ap (λ z. wire ++ z) joined
            ∙ sym (append_assoc wire e.inflight (flatten moved))
            ∙ ap (λ z. z ++ flatten moved) l.on_wire;
        in_order = rw append_assoc (subst (λ q. Sublistᴰ (l.gone ++ q) ms) cut l.in_order);
        counted =
            omega (
              arith,
              l.counted,
              length-append l.gone front,
              ap length cut,
              length-append front back,
            );
        sized = size;
      }

  pump-Ledger :
      {e e' : FramedFd} {ms : List (Message T)} {wire sent : List ℕ} (write : ℕ → List ℕ → OsWrite)
      → pump write e ≡ (e', sent)
      → link_up e' ≡ true
      → Ledger e ms wire
      → Ledger e' ms (wire ++ sent)
  unfolding pump
  pump-Ledger {e} {e'} {ms} {wire} {sent} write ran up l = elim (Bool-cases (link_up e)) [
    | inl was_up ↦
        let d : Drained = drain write 0 e.inflight e.outbox e.outbox_bytes in
        let whole : DrainedWhole e.inflight e.outbox d =
          drain-DrainedWhole write 0 e.inflight e.outbox e.outbox_bytes l.sized in
        let same : pumped e d ≡ (e', sent) = rw was_up at ran in
        subst (λ p. Ledger p.0 ms (wire ++ p.1)) same
          (pumped-Ledger d whole (rw (ap (λ p. p.0) same) up) l)
    | inr was_down ↦
        let same : (e, []) ≡ (e', sent) = rw was_down at ran in
        subst (λ p. Ledger p.0 ms (wire ++ p.1)) same (rw append-nil l)
  ]

  pub Traffic-Ledger :
      {e : FramedFd} {ms : List (Message T)} {wire : List ℕ}
      → Traffic c e ms wire
      → Ledger e ms wire
  Traffic-Ledger (idle no_frame empty no_bytes none_dropped) =
      idle-Ledger no_frame empty no_bytes none_dropped
  Traffic-Ledger (sending {e} {e'} {ms} {wire} m sent traffic) =
      let (framed, roomy, encoded, room, same) = send-eq-ok c e m sent in
      subst (λ r. Ledger r (ms ++ m ∷ []) wire) same
        (enqueue-Ledger m encoded (make_room-Ledger room (Traffic-Ledger traffic)))
  Traffic-Ledger (pumping write ran up traffic) = pump-Ledger write ran up (Traffic-Ledger traffic)
