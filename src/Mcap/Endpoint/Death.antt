-- ===== src/Mcap/Endpoint/Death.antt =====
-- A write that raises ends the thread of the recording endpoint.
use visio_schema.Common.{
  ℕ, ◌≡◌, refl, sym, ap, ◌∙◌, inl, inr, ◌≢◌, true, Bool-cases, List, none, some,
}
use visio_schema.Mcap.Writer.{WriterApi, McapWriter, WriterError, write, close}
use visio_schema.Mcap.Writer.Contents.{Keeps, found, contents}
use visio_schema.Mcap.Writer.Guards.{write-if, close-if}
use visio_schema.Mcap.Endpoint.{
  Queued, Thread, waiting, busy, died, McapWriterEndpoint, spawn, after_item, start, send,
  request_stop, take_batch, write_next, finish_stop, Step, started, sent, stop_requested, taken,
  written, joined,
}

-- No write can reach a file any more.
data Silent {P T : Type 0} (thread : Thread T) (w : McapWriter P) : Type 0 where
  dead : (left : List (Queued T)) → thread ≡ died left → Silent thread w
  shut : w.closed ≡ true → Silent thread w

waiting-died : {T : Type 0} {left : List (Queued T)} → ◌≢◌ {A = Thread T} waiting (died left)
waiting-died same = absurd (cc)

busy-died : {T : Type 0} {batch left : List (Queued T)} → busy batch ≢ died left
busy-died same = absurd (cc)

module _ {P T : Type 0} (api : WriterApi P) (to_nanoseconds : T → ℕ) where
  -- Any number of steps of the producers, the owner and the thread.
  pub data Steps (e : McapWriterEndpoint P T) : McapWriterEndpoint P T → Type 0 where
    stay : Steps e e
    onward :
        {before after : McapWriterEndpoint P T}
        → Steps e before
        → Step api to_nanoseconds before after
        → Steps e after

  module _ (keeps : Keeps api) where
    pub close-closed : (w : McapWriter P) → (close api w).closed ≡ true
    close-closed w = elim (Bool-cases w.closed) [
      | inl e ↦ rw (close-if api w e) e
      | inr e ↦ rw (close-if api w e) refl
    ]

    pub close-contents : (w : McapWriter P) → contents api (close api w) ≡ contents api w
    unfolding contents found
    close-contents w = elim (Bool-cases w.closed) [
      | inl e ↦ rw (close-if api w e) refl
      | inr e ↦ rw (close-if api w e, keeps.finished w.writer) refl
    ]

    Quiet : McapWriterEndpoint P T → McapWriterEndpoint P T → Type 0
    Quiet e e' = Silent e'.thread e'.writer × (contents api e'.writer ≡ contents api e.writer)

    Step-Quiet :
        {e e' : McapWriterEndpoint P T}
        → Silent e.thread e.writer
        → Step api to_nanoseconds e e'
        → Quiet e e'
    unfolding Quiet start send request_stop take_batch write_next finish_stop spawn
    Step-Quiet (dead left at_death) (started h) = (dead left (ap spawn at_death), refl)
    Step-Quiet (shut closed) (started h) = (shut closed, refl)
    Step-Quiet s (sent none msg) = (s, refl)
    Step-Quiet (dead left at_death) (sent (some channel) msg) = (dead left at_death, refl)
    Step-Quiet (shut closed) (sent (some channel) msg) = (shut closed, refl)
    Step-Quiet (dead left at_death) (stop_requested h) = (dead left at_death, refl)
    Step-Quiet (shut closed) (stop_requested h) = (shut closed, refl)
    Step-Quiet (dead left at_death) (taken at_wait h) =
        absurd (waiting-died (sym at_wait ∙ at_death))
    Step-Quiet (shut closed) (taken at_wait h) = (shut closed, refl)
    Step-Quiet (dead left at_death) (written item others checked opened at_item) =
        absurd (busy-died (sym at_item ∙ at_death))
    Step-Quiet {e} (shut closed) (written (channel, msg) others checked opened at_item) =
        rw (write-if api to_nanoseconds e.writer msg channel checked opened closed)
          (shut closed, refl)
    Step-Quiet {e} s (joined h at_end) = (shut (close-closed e.writer), close-contents e.writer)

    Steps-Quiet :
        {e e' : McapWriterEndpoint P T} → Silent e.thread e.writer → Steps e e' → Quiet e e'
    unfolding Quiet
    Steps-Quiet s stay = (s, refl)
    Steps-Quiet s (onward earlier step) =
        let (quiet, same) = Steps-Quiet s earlier in
        let (later, more) = Step-Quiet quiet step in (later, more ∙ same)

    -- When the write of a message raises, as for a topic that its file has under another schema,
    -- the thread ends for good: whatever is sent afterwards, and however the endpoint is stopped
    -- and started, nothing more is recorded, the rest of the batch and of the queue included.
    -- The mcap package keeps its records and gives out no id twice in a file.
    pub write_next-raised :
        (e : McapWriterEndpoint P T) (item : Queued T) (others : List (Queued T))
        (checked opened : ℕ) {error : WriterError} {e' : McapWriterEndpoint P T}
        → (write api to_nanoseconds e.writer item.1 item.0 checked opened).1 ≡ some error
        → Steps (write_next api to_nanoseconds e item others checked opened) e'
        → contents api e'.writer
          ≡ contents api (write api to_nanoseconds e.writer item.1 item.0 checked opened).0
    unfolding write_next after_item Quiet
    write_next-raised e (channel, msg) others checked opened raised steps =
        (Steps-Quiet (dead others (ap (after_item others) raised)) steps).1
