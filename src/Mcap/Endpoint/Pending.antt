-- ===== src/Mcap/Endpoint/Pending.antt =====
-- What the thread of the recording endpoint still has to record.
use visio_schema.Common.{
  ◌≡◌, sym, ap, ◌∙◌, Bool, true, false, List, [], ◌∷◌, ◌++◌, append-nil, append_assoc, none,
}
use visio_schema.Mcap.Endpoint.{
  Queued, Thread, absent, waiting, busy, returned, died, spawn, with_batch, after_item,
}

-- What counts as sent: a message that comes after the thread's return is too late.
unfoldable pub sent_in_time : {T : Type 0} → Thread T → List (Queued T) → Queued T → List (Queued T)
sent_in_time returned items item = items
sent_in_time absent items item = items ++ item ∷ []
sent_in_time waiting items item = items ++ item ∷ []
sent_in_time (busy batch) items item = items ++ item ∷ []
sent_in_time (died rest) items item = items ++ item ∷ []

-- The thread has work before it, or none.
pub data Pending {T : Type 0}
    : Thread T → List (Queued T) → List (Queued T) → List (Queued T) → Type 0 where
  none_yet :
      (queue recorded items : List (Queued T))
      → recorded ++ queue ≡ items
      → Pending absent queue recorded items
  in_wait :
      (queue recorded items : List (Queued T))
      → recorded ++ queue ≡ items
      → Pending waiting queue recorded items
  in_batch :
      (batch queue recorded items : List (Queued T))
      → recorded ++ (batch ++ queue) ≡ items
      → Pending (busy batch) queue recorded items
  over :
      (queue recorded items : List (Queued T))
      → recorded ≡ items
      → Pending returned queue recorded items
  failed : (left queue recorded items : List (Queued T)) → Pending (died left) queue recorded items

pub Pending-spawn :
    {T : Type 0} {t : Thread T} {queue recorded items : List (Queued T)}
    → Pending t queue recorded items
    → Pending (spawn t) queue recorded items
unfolding spawn
Pending-spawn (none_yet q r i e) = in_wait q r i e
Pending-spawn (in_wait q r i e) = in_wait q r i e
Pending-spawn (in_batch b q r i e) = in_batch b q r i e
Pending-spawn (over q r i e) = over q r i e
Pending-spawn (failed l q r i) = failed l q r i

pub Pending-sent :
    {T : Type 0} {t : Thread T} {queue recorded items : List (Queued T)} (item : Queued T)
    → Pending t queue recorded items
    → Pending t (queue ++ item ∷ []) recorded (sent_in_time t items item)
unfolding sent_in_time
Pending-sent item (none_yet q r i e) = none_yet _ r _ (rw (sym e) (sym (append_assoc r q _)))
Pending-sent item (in_wait q r i e) = in_wait _ r _ (rw (sym e) (sym (append_assoc r q _)))
Pending-sent item (in_batch b q r i e) =
    in_batch b _ r _
      (rw (sym e) (ap (λ z. r ++ z) (sym (append_assoc b q _)) ∙ sym (append_assoc r (b ++ q) _)))
Pending-sent item (over q r i e) = over _ r i e
Pending-sent item (failed l q r i) = failed l _ r _

pub Pending-take :
    {T : Type 0} (queue recorded items : List (Queued T)) (stop : Bool)
    → recorded ++ queue ≡ items
    → Pending (with_batch queue stop) [] recorded items
unfolding with_batch
Pending-take [] recorded items true e = over [] recorded items (sym (append-nil recorded) ∙ e)
Pending-take [] recorded items false e = in_wait [] recorded items e
Pending-take (item ∷ queue) recorded items stop e =
    in_batch (item ∷ queue) [] recorded items
      (ap (λ z. recorded ++ z) (append-nil (item ∷ queue)) ∙ e)

pub Pending-write :
    {T : Type 0} (item : Queued T) (batch queue recorded items : List (Queued T))
    → recorded ++ (item ∷ batch ++ queue) ≡ items
    → Pending (after_item batch none) queue (recorded ++ item ∷ []) items
unfolding after_item
Pending-write item [] queue recorded items e =
    in_wait queue _ items (append_assoc recorded (item ∷ []) queue ∙ e)
Pending-write item (next ∷ batch) queue recorded items e =
    in_batch (next ∷ batch) queue _ items (append_assoc recorded (item ∷ []) _ ∙ e)

pub Pending-waiting :
    {T : Type 0} {t : Thread T} {queue recorded items : List (Queued T)}
    → Pending t queue recorded items
    → t ≡ waiting
    → recorded ++ queue ≡ items
Pending-waiting (none_yet q r i e) at_thread = absurd (cc)
Pending-waiting (in_wait q r i e) at_thread = e
Pending-waiting (in_batch b q r i e) at_thread = absurd (cc)
Pending-waiting (over q r i e) at_thread = absurd (cc)
Pending-waiting (failed l q r i) at_thread = absurd (cc)

pub Pending-returned :
    {T : Type 0} {t : Thread T} {queue recorded items : List (Queued T)}
    → Pending t queue recorded items
    → t ≡ returned
    → recorded ≡ items
Pending-returned (none_yet q r i e) at_thread = absurd (cc)
Pending-returned (in_wait q r i e) at_thread = absurd (cc)
Pending-returned (in_batch b q r i e) at_thread = absurd (cc)
Pending-returned (over q r i e) at_thread = e
Pending-returned (failed l q r i) at_thread = absurd (cc)

pub Pending-busy :
    {T : Type 0} {t : Thread T} {batch queue recorded items : List (Queued T)}
    → Pending t queue recorded items
    → t ≡ busy batch
    → recorded ++ (batch ++ queue) ≡ items
Pending-busy (none_yet q r i e) at_thread = absurd (cc)
Pending-busy (in_wait q r i e) at_thread = absurd (cc)
Pending-busy (in_batch b q r i e) at_thread = cc
Pending-busy (over q r i e) at_thread = absurd (cc)
Pending-busy (failed l q r i) at_thread = absurd (cc)
