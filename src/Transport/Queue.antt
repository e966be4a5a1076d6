-- ===== src/Transport/Queue.antt =====
-- python/visio_schema/transport/queue.py: the in-process consumer queue. Each method holds the
-- condition's lock, so that calls from several threads are a sequence of calls.
pub mod Window
use visio_schema.Common.{
  ℕ, zero, suc, ◌+◌, ◌==◌, ltb, leb, if◌then◌else◌, Bool, true, false, not, List, [], ◌∷◌, ◌++◌,
  Option, none, some, length,
}
use visio_schema.Wire.Message.{Message}

-- deque.popleft() of an empty deque.
pub data IndexError : Type 0 where
  pop_from_empty : IndexError

pub record QueueEndpoint (T : Type 0) : Type 0 where
  pub filter : Option ℕ
  pub max_depth : Option ℕ
  pub queue : List (Message T)
  pub dropped : ℕ

-- A producer's send, or a consumer's pop_all.
pub data Call (T : Type 0) : Type 0 where
  put : Message T → Call T
  drain : Call T

module _ {T : Type 0} where
  unfoldable pub init : Option ℕ → Option ℕ → QueueEndpoint T
  init stream_filter max_depth = record {
    filter = stream_filter;
    max_depth = max_depth;
    queue = [];
    dropped = 0;
  }

  -- self._filter is not None and msg.stream_id != self._filter
  unfoldable pub filtered_out : Option ℕ → Message T → Bool
  filtered_out none msg = false
  filtered_out (some id) msg = not (msg.stream_id == id)

  -- `while len(queue) >= max_depth: queue.popleft()`: the queue, the number of messages popped,
  -- and the exception if the deque is empty.
  unfoldable pub shed : ℕ → List (Message T) → ℕ → List (Message T) × ℕ × Option IndexError
  shed max_depth [] dropped = ([], dropped, if leb max_depth 0 then some pop_from_empty else none)
  shed max_depth (m ∷ queue) dropped = elim (leb max_depth (length (m ∷ queue))) [
    | true ↦ shed max_depth queue (dropped + 1)
    | false ↦ (m ∷ queue, dropped, none)
  ]

  unfoldable pub make_room :
      Option ℕ → List (Message T) → ℕ → List (Message T) × ℕ × Option IndexError
  make_room none queue dropped = (queue, dropped, none)
  make_room (some max_depth) queue dropped = shed max_depth queue dropped

  unfoldable pub append_unless : Option IndexError → List (Message T) → Message T → List (Message T)
  append_unless none queue msg = queue ++ msg ∷ []
  append_unless (some e) queue msg = queue

  unfoldable pub send : QueueEndpoint T → Message T → QueueEndpoint T × Option IndexError
  send e msg =
      if filtered_out e.filter msg
      then (e, none)
      else let (queue, dropped, raised) = make_room e.max_depth e.queue e.dropped in
        (record e { queue = append_unless raised queue msg; dropped = dropped }, raised)

  unfoldable pub pop_all : QueueEndpoint T → List (Message T) × QueueEndpoint T
  pop_all e = (e.queue, record e { queue = [] })

  -- self._cv.wait: what other threads send while the lock is released.
  unfoldable pub send_all : QueueEndpoint T → List (Message T) → QueueEndpoint T
  send_all e [] = e
  send_all e (m ∷ ms) = send_all (send e m).0 ms

  unfoldable pub wait_if_empty :
      List (Message T) → QueueEndpoint T → List (Message T) → QueueEndpoint T
  wait_if_empty [] e meanwhile = send_all e meanwhile
  wait_if_empty (m ∷ ms) e meanwhile = e

  unfoldable pub pop_batch : QueueEndpoint T → List (Message T) → List (Message T) × QueueEndpoint T
  pop_batch e meanwhile = pop_all (wait_if_empty e.queue e meanwhile)

  -- What the consumer has received after the calls, and the endpoint.
  unfoldable pub run : QueueEndpoint T → List (Call T) → List (Message T) × QueueEndpoint T
  run e [] = ([], e)
  run e (put m ∷ calls) = run (send e m).0 calls
  run e (drain ∷ calls) =
      let (got, drained) = pop_all e in let (more, last) = run drained calls in (got ++ more, last)
