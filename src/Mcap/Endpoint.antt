-- ===== src/Mcap/Endpoint.antt =====
-- python/visio_schema/mcap/writer_endpoint.py: the sink that records on a thread of its own. The
-- lock of its condition makes each method, and each step of the thread, one step; its owner calls
-- start and stop one after the other.
pub mod Pending
pub mod Order
pub mod Death
use visio_schema.Common.{
  ℕ, ◌≡◌, ◌≢◌, ◌⊎◌, Bool, true, false, List, [], ◌∷◌, ◌++◌, Option, none, some,
}
use visio_schema.Wire.Message.{Message}
use visio_schema.Routing.Channel.{Channel}
use visio_schema.Mcap.Writer.{WriterApi, McapWriter, WriterError, write, close}
use visio_schema.Mcap.Writer.Runs.{WriterCall, writes}

abbrev pub Queued : Type 0 → Type 0
Queued T = Channel × Message T

-- Where the writer thread is: not there, in wait, in its batch, returned, or ended by an
-- exception with the rest of its batch.
pub data Thread (T : Type 0) : Type 0 where
  absent : Thread T
  waiting : Thread T
  busy : List (Queued T) → Thread T
  returned : Thread T
  died : List (Queued T) → Thread T

-- `stopping`: a call of stop is between its two halves.
pub record McapWriterEndpoint (P T : Type 0) : Type 0 where
  pub queue : List (Queued T)
  pub stop : Bool
  pub thread : Thread T
  pub writer : McapWriter P
  pub stopping : Bool

unfoldable pub spawn : {T : Type 0} → Thread T → Thread T
spawn absent = waiting
spawn waiting = waiting
spawn (busy batch) = busy batch
spawn returned = returned
spawn (died rest) = died rest

-- The thread after the lock of its loop: the batch, or the return.
unfoldable pub with_batch : {T : Type 0} → List (Queued T) → Bool → Thread T
with_batch [] true = returned
with_batch [] false = waiting
with_batch (item ∷ batch) stop = busy (item ∷ batch)

-- After one write: the next of the batch, the wait, or the end by an exception.
unfoldable pub after_item : {T : Type 0} → List (Queued T) → Option WriterError → Thread T
after_item rest (some e) = died rest
after_item [] none = waiting
after_item (item ∷ rest) none = busy (item ∷ rest)

-- The messages that the thread still has in hand.
unfoldable pub in_hand : {T : Type 0} → Thread T → List (Queued T)
in_hand absent = []
in_hand waiting = []
in_hand (busy batch) = batch
in_hand returned = []
in_hand (died rest) = rest

module _ {P T : Type 0} where
  unfoldable pub init : McapWriter P → McapWriterEndpoint P T
  init writer = record {
    queue = [];
    stop = false;
    thread = absent;
    writer = writer;
    stopping = false;
  }

  unfoldable pub start : McapWriterEndpoint P T → McapWriterEndpoint P T
  start e = record e { stop = false; thread = spawn e.thread }

  -- `send`, where resolve has answered for the message's stream id.
  unfoldable pub send : McapWriterEndpoint P T → Option Channel → Message T → McapWriterEndpoint P T
  send e none msg = e
  send e (some channel) msg = record e { queue = e.queue ++ (channel, msg) ∷ [] }

  -- `stop` up to the join.
  unfoldable pub request_stop : McapWriterEndpoint P T → McapWriterEndpoint P T
  request_stop e = record e { stop = true; stopping = true }

  -- One pass of the thread through the lock, when the wait is over.
  unfoldable pub take_batch : McapWriterEndpoint P T → McapWriterEndpoint P T
  take_batch e = record e { queue = []; thread = with_batch e.queue e.stop }

  module _ (api : WriterApi P) (to_nanoseconds : T → ℕ) where
    -- `self._writer.write(msg, ch)` of the first of the batch.
    unfoldable pub write_next :
        McapWriterEndpoint P T → Queued T → List (Queued T) → ℕ → ℕ → McapWriterEndpoint P T
    write_next e (channel, msg) rest checked opened =
        let (writer, raised) = write api to_nanoseconds e.writer msg channel checked opened in
        record e { writer = writer; thread = after_item rest raised }

    -- `stop` after the join.
    unfoldable pub finish_stop : McapWriterEndpoint P T → McapWriterEndpoint P T
    finish_stop e = record e { thread = absent; writer = close api e.writer; stopping = false }

-- The join of stop waits for no thread, or for one that has ended.
unfoldable pub joinable : {T : Type 0} → Thread T → Bool
joinable absent = true
joinable waiting = false
joinable (busy batch) = false
joinable returned = true
joinable (died rest) = true

-- What the condition waits for.
unfoldable pub wakes : {T : Type 0} → List (Queued T) → Bool → Bool
wakes [] stop = stop
wakes (item ∷ queue) stop = true

module _ {P T : Type 0} (api : WriterApi P) (to_nanoseconds : T → ℕ) where
  -- One step of a producer, of the owner or of the thread.
  pub data Step (e : McapWriterEndpoint P T) : McapWriterEndpoint P T → Type 0 where
    started : e.stopping ≡ false → Step e (start e)
    sent : (channel : Option Channel) (msg : Message T) → Step e (send e channel msg)
    stop_requested : e.stop ≡ false → Step e (request_stop e)
    taken : e.thread ≡ waiting → wakes e.queue e.stop ≡ true → Step e (take_batch e)
    written :
        (item : Queued T) (rest : List (Queued T)) (checked opened : ℕ)
        → e.thread ≡ busy (item ∷ rest)
        → Step e (write_next api to_nanoseconds e item rest checked opened)
    joined :
        e.stopping ≡ true → joinable e.thread ≡ true → Step e (finish_stop api to_nanoseconds e)
