-- ===== src/Transport/FramedFd/Delivery.antt =====
-- What an endpoint has sent arrives as messages.
use visio_schema.Common.{
  ℕ, ◌+◌, ◌≡◌, refl, sym, ap, ◌∙◌, subst, List, [], ◌∷◌, ◌++◌, flatten, ok, length, arith,
  append-nil, length-append, All,
}
use mathlib.Core.List.{Sublistᴰ}
use visio_schema.Wire.Header.{Codec, IsLawful}
use visio_schema.Wire.Message.{Message}
use visio_schema.Wire.Framing.{read_frames}
use visio_schema.Wire.Framing.Stream.{wire_of, Sendable, read_frames-wire_of}
use visio_schema.Transport.FramedFd.{FramedFd, pending_bytes}
use visio_schema.Transport.FramedFd.Pump.{length-flatten}
use visio_schema.Transport.FramedFd.Traffic.{Traffic, Framed}
use visio_schema.Transport.FramedFd.Ledger.{Traffic-Ledger}

module _ {T : Type 0} (c : Codec T) where
  no_frames : (ms : List (Message T)) → Framed c ms [] → ms ≡ []
  no_frames [] framed = refl
  no_frames (m ∷ ms) framed = absurd framed

  All-Sublistᴰ :
      (P : Message T → Type 0) {xs ys : List (Message T)} → Sublistᴰ xs ys → All P ys → All P xs
  All-Sublistᴰ P Sublistᴰ.slnil all = tt
  All-Sublistᴰ P (Sublistᴰ.cons s) all = All-Sublistᴰ P s all.1
  All-Sublistᴰ P (Sublistᴰ.cons-cons same s) all =
      (subst P (sym same) all.0, All-Sublistᴰ P s all.1)

  -- With a lawful codec and complete messages: when everything queued on a link that stayed up has
  -- gone out, whatever the partial writes and the drops, a reader of the bytes gets whole messages
  -- only: those that were sent and not dropped, in the order of the sends, and `dropped` counts the
  -- others.
  pub Traffic-read_frames :
      IsLawful c
      → {e : FramedFd} {ms : List (Message T)} {wire : List ℕ} → All (Sendable c) ms
      → Traffic c e ms wire
      → e.inflight ≡ []
      → e.outbox ≡ []
      → (kept : List (Message T)) × Sublistᴰ kept ms
        × (length kept + e.dropped ≡ length ms)
        × ((chunks : List (List ℕ)) → flatten chunks ≡ wire → read_frames c chunks ≡ kept)
  Traffic-read_frames lawful {e} {ms} {wire} all traffic no_frame empty =
      let l = Traffic-Ledger c traffic in
      let none_queued : l.queued ≡ [] =
        no_frames l.queued (subst (Framed c l.queued) empty l.queued_framed) in
      let kept : Sublistᴰ l.gone ms =
        subst (λ q. Sublistᴰ q ms) (ap (λ q. l.gone ++ q) none_queued ∙ append-nil l.gone)
          l.in_order in
      let bytes : wire ≡ l.gone_bytes =
        sym (append-nil wire) ∙ ap (λ z. wire ++ z) (sym no_frame) ∙ l.on_wire in
      (
        l.gone,
        kept,
        omega (arith, l.counted, ap length none_queued),
        λ chunks cut.
            read_frames-wire_of c lawful l.gone chunks (All-Sublistᴰ (Sendable c) kept all)
              (l.gone_framed ∙ ap ok (sym bytes ∙ sym cut)),
      )

  -- On a link that stays up, `pending_bytes` is the number of bytes queued and in flight, and the
  -- bytes written are whole frames up to the one in flight.
  pub Traffic-pending_bytes :
      {e : FramedFd} {ms : List (Message T)} {wire : List ℕ}
      → Traffic c e ms wire
      → (pending_bytes e ≡ length (e.inflight ++ flatten e.outbox))
        × ((gone : List (Message T)) × (wire_of c gone ≡ ok (wire ++ e.inflight)))
  unfolding pending_bytes
  Traffic-pending_bytes {e} traffic =
      let l = Traffic-Ledger c traffic in
      (
        omega
            (arith, l.sized, length-append e.inflight (flatten e.outbox), length-flatten e.outbox),
        (l.gone, l.gone_framed ∙ ap ok (sym l.on_wire)),
      )
