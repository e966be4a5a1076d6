-- ===== src/Mcap/Endpoint/Order.antt =====
-- What the recording endpoint was sent is what its files hold.
use visio_schema.Common.{
  ℕ, ◌≡◌, refl, sym, ap, ◌∙◌, subst, false, List, [], ◌∷◌, ◌++◌, map, Option, none, some,
  Option-cases, ok, inl, inr, String,
}
use visio_schema.Wire.Message.{Message}
use visio_schema.Routing.Channel.{Channel}
use visio_schema.Mcap.Writer as Writer
use visio_schema.Mcap.Writer.{WriterApi, McapWriter, WriterError, Output, write, close}
use visio_schema.Mcap.Writer.Contents.{Row, Keeps, contents}
use visio_schema.Mcap.Writer.Spec.{Recording, put, empty}
use visio_schema.Mcap.Writer.Refines.{Refines}
use visio_schema.Mcap.Writer.Writes.{write-Agrees}
use visio_schema.Mcap.Writer.Puts.{asked_row}
use visio_schema.Mcap.Writer.Runs.{init-Refines, contents-parts}
use visio_schema.Mcap.Writer.Gathered.{
  rows_in, all_rows, gathered, gathered-parts, put-rows, put-refused, put-is_closed,
}
use visio_schema.Mcap.Endpoint.{
  Queued, busy, returned, McapWriterEndpoint, init, after_item, start, send, request_stop,
  take_batch, write_next, finish_stop, Step, started, sent, stop_requested, taken, written, joined,
}
use visio_schema.Mcap.Endpoint.Death.{close-closed, close-contents}
use visio_schema.Mcap.Endpoint.Pending.{
  sent_in_time, Pending, none_yet, failed, Pending-spawn, Pending-sent, Pending-take, Pending-write,
  Pending-waiting, Pending-busy, Pending-returned,
}

module _ {T : Type 0} (to_nanoseconds : T → ℕ) where
  -- The rows of the items, the last one first, before `older`.
  unfoldable pub newest : List (Queued T) → List Row → List Row
  newest [] older = older
  newest ((channel, msg) ∷ items) older =
      newest items (asked_row to_nanoseconds msg channel ∷ older)

  newest-snoc :
      (items : List (Queued T)) (channel : Channel) (msg : Message T) (older : List Row)
      → newest (items ++ (channel, msg) ∷ []) older
        ≡ asked_row to_nanoseconds msg channel ∷ newest items older
  unfolding newest
  newest-snoc [] channel msg older = refl
  newest-snoc (item ∷ items) channel msg older = newest-snoc items channel msg _

module _ {P T : Type 0} (api : WriterApi P) (to_nanoseconds : T → ℕ) where
  -- The messages sent in time, after one more step.
  unfoldable pub heard :
      {e e' : McapWriterEndpoint P T}
      → Step api to_nanoseconds e e'
      → List (Queued T)
      → List (Queued T)
  heard (started h) items = items
  heard {e} (sent none msg) items = items
  heard {e} (sent (some channel) msg) items = sent_in_time e.thread items (channel, msg)
  heard (stop_requested h) items = items
  heard (taken at_wait h) items = items
  heard (written item others checked opened at_item) items = items
  heard (joined h at_end) items = items

  -- The steps from the construction until a stop has closed the writer, with the messages that
  -- were sent in time.
  pub data Run (made : McapWriterEndpoint P T)
      : List (Queued T) → McapWriterEndpoint P T → Type 0 where
    fresh : Run made [] made
    after :
        {items : List (Queued T)} {e e' : McapWriterEndpoint P T}
        → Run made items e
        → (step : Step api to_nanoseconds e e') → e'.writer.closed ≡ false
        → Run made (heard step items) e'

  module _ (keeps : Keeps api) (max_bytes max_duration : Option ℕ) where
    -- The rows that were recorded, and what is still to come.
    record Kept (e : McapWriterEndpoint P T) (items : List (Queued T)) : Type 0 where
      recorded : List (Queued T)
      recording : Recording
      refines : Refines api max_bytes max_duration e.writer recording
      live : recording.is_closed ≡ false
      rows : all_rows recording ≡ newest to_nanoseconds recorded []
      pending : Pending e.thread e.queue recorded items

    Kept-write :
        (e : McapWriterEndpoint P T) (channel : Channel) (msg : Message T)
        (others items : List (Queued T)) (checked opened : ℕ)
        → Kept e items
        → e.thread ≡ busy ((channel, msg) ∷ others)
        → Kept (write_next api to_nanoseconds e (channel, msg) others checked opened) items
    unfolding write_next after_item
    Kept-write e channel msg others items checked opened k at_item =
        let row = asked_row to_nanoseconds msg channel in
        let (refines, same) =
          write-Agrees api keeps to_nanoseconds e.writer k.recording msg channel checked opened
            k.refines in
        let live = put-is_closed max_bytes max_duration k.recording row checked opened k.live in
        elim (Option-cases (write api to_nanoseconds e.writer msg channel checked opened).1) [
          | inl kept ↦ record {
            recorded = k.recorded ++ (channel, msg) ∷ [];
            recording = (put max_bytes max_duration k.recording row checked opened).0;
            refines = refines;
            live = live;
            rows =
                put-rows max_bytes max_duration k.recording row checked opened k.live
                  (sym same ∙ kept)
                ∙ ap (λ r. row ∷ r) k.rows
                ∙ sym (newest-snoc to_nanoseconds k.recorded channel msg []);
            pending =
                subst
                  (λ o.
                    Pending (after_item others o) e.queue (k.recorded ++ (channel, msg) ∷ []) items)
                  (sym kept)
                  (Pending-write (channel, msg) others e.queue k.recorded items
                    (Pending-busy k.pending at_item));
          }
          | inr (error, raised) ↦ record {
            recorded = k.recorded;
            recording = (put max_bytes max_duration k.recording row checked opened).0;
            refines = refines;
            live = live;
            rows =
                put-refused max_bytes max_duration k.recording row checked opened k.live
                  (sym same ∙ raised)
                ∙ k.rows;
            pending =
                subst (λ o. Pending (after_item others o) e.queue k.recorded items) (sym raised)
                  (failed others e.queue k.recorded items);
          }
        ]

    Step-Kept :
        {e e' : McapWriterEndpoint P T} (items : List (Queued T))
        → Kept e items
        → (step : Step api to_nanoseconds e e') → e'.writer.closed ≡ false
        → Kept e' (heard step items)
    unfolding heard start send request_stop take_batch finish_stop
    Step-Kept items k (started h) live = record {
      recorded = k.recorded;
      recording = k.recording;
      refines = k.refines;
      live = k.live;
      rows = k.rows;
      pending = Pending-spawn k.pending;
    }
    Step-Kept items k (sent none msg) live = k
    Step-Kept items k (sent (some channel) msg) live = record {
      recorded = k.recorded;
      recording = k.recording;
      refines = k.refines;
      live = k.live;
      rows = k.rows;
      pending = Pending-sent (channel, msg) k.pending;
    }
    Step-Kept items k (stop_requested h) live = record {
      recorded = k.recorded;
      recording = k.recording;
      refines = k.refines;
      live = k.live;
      rows = k.rows;
      pending = k.pending;
    }
    Step-Kept {e} items k (taken at_wait h) live = record {
      recorded = k.recorded;
      recording = k.recording;
      refines = k.refines;
      live = k.live;
      rows = k.rows;
      pending = Pending-take e.queue k.recorded items e.stop (Pending-waiting k.pending at_wait);
    }
    Step-Kept items k (written (channel, msg) others checked opened at_item) live =
        Kept-write _ channel msg others items checked opened k at_item
    Step-Kept {e} items k (joined h at_end) live =
        absurd (let both = sym live ∙ close-closed api to_nanoseconds keeps e.writer in cc)

    Run-Kept :
        {made e : McapWriterEndpoint P T} {items : List (Queued T)}
        → Kept made []
        → Run made items e
        → Kept e items
    Run-Kept k fresh = k
    Run-Kept k (after {items} run_calls step live) =
        Step-Kept items (Run-Kept k run_calls) step live

    init-Kept :
        (w : McapWriter P) (now : ℕ)
        → Refines api max_bytes max_duration w (empty now)
        → Kept (init w) []
    unfolding init empty newest all_rows rows_in
    init-Kept w now r = record {
      recorded = [];
      recording = empty now;
      refines = r;
      live = refl;
      rows = refl;
      pending = none_yet [] [] [] refl;
    }

    -- However the sends of the producers, the batches of the thread and one stop fall together:
    -- when the thread has returned and the stop has closed the writer, the files hold every
    -- message that was sent before the return and had a channel, each once and in the order of
    -- the sends, with its topic, schema name, time, sequence number and payload. The last row
    -- stands first. The mcap package keeps its records and gives out no id twice in a file.
    pub Run-gathered :
        (output : Output) (profile : String) (library : Option String) (now : ℕ) {w : McapWriter P}
        {items : List (Queued T)} {e : McapWriterEndpoint P T}
        → Writer.init api output max_bytes max_duration profile library now ≡ ok w
        → Run (init w) items e
        → e.thread ≡ returned
        → gathered (contents api (finish_stop api to_nanoseconds e).writer)
          ≡ map some (newest to_nanoseconds items [])
    unfolding finish_stop
    Run-gathered output profile library now {w} {items} {e} made run_calls at_end =
        let k =
          Run-Kept
            (init-Kept w now (
              init-Refines to_nanoseconds api keeps output max_bytes max_duration profile library
                now made))
            run_calls in
        ap gathered (close-contents api to_nanoseconds keeps e.writer)
        ∙ ap gathered (contents-parts to_nanoseconds api keeps k.refines)
        ∙ gathered-parts k.recording
        ∙ ap (map some)
            (k.rows ∙ ap (λ r. newest to_nanoseconds r []) (Pending-returned k.pending at_end))
