-- ===== src/Transport/FramedFd.antt =====
-- python/visio_schema/transport/framed_fd.py and link.py: frames over a file descriptor. What the
-- operating system answers is an input of each step.
pub mod Link
pub mod Pump
pub mod Traffic
pub mod Ledger
pub mod Delivery
pub mod Reported
pub mod Closing
use visio_schema.Common.{
  ℕ, suc, ◌+◌, ◌-◌, ◌==◌, ltb, leb, if◌then◌else◌, Bool, true, false, not, ◌&&◌, ◌||◌, List, [],
  ◌∷◌, ◌++◌, Option, none, some, Result, ok, err, ◌>>=◌, length, take, drop,
}
use visio_schema.Wire.Header.{Codec}
use visio_schema.Wire.Message.{Message, SendError}
use visio_schema.Wire.Framing.{frame_bytes, extract_frames}
use visio_schema.Transport.FramedFd.Link.{OsWrite, OsRead, write_some, read_some}

pub data RaisedBySend : Type 0 where
  encoding : SendError → RaisedBySend
  pop_from_empty : RaisedBySend

-- `fd` is none where the source has -1. `reopenable`: a factory is set. `closed_calls` counts the
-- calls of on_closed, and `stopped` is the `_stop` event.
pub record FramedFd : Type 0 where
  pub fd : Option ℕ
  pub reopenable : Bool
  pub reopen_backoff_ns : ℕ
  pub next_reopen_ns : ℕ
  pub max_outbox : ℕ
  pub outbox : List (List ℕ)
  pub outbox_bytes : ℕ
  pub dropped : ℕ
  pub inflight : List ℕ
  pub rx : List ℕ
  pub stopped : Bool
  pub closed_calls : ℕ

-- The constructor; `fd` is the one that is given, or what the factory answered.
unfoldable pub init : Bool → Option ℕ → ℕ → ℕ → FramedFd
init reopenable fd reopen_backoff_ns max_outbox_frames = record {
  fd = fd;
  reopenable = reopenable;
  reopen_backoff_ns = reopen_backoff_ns;
  next_reopen_ns = 0;
  max_outbox = max_outbox_frames;
  outbox = [];
  outbox_bytes = 0;
  dropped = 0;
  inflight = [];
  rx = [];
  stopped = false;
  closed_calls = 0;
}

unfoldable pub link_up : FramedFd → Bool
link_up e = elim e.fd [ none ↦ false | some fd ↦ true ]

unfoldable pub pending_bytes : FramedFd → ℕ
pending_bytes e = e.outbox_bytes + length e.inflight

unfoldable pub drop_oldest : FramedFd → List (List ℕ) → Result RaisedBySend FramedFd
drop_oldest e [] = err pop_from_empty
drop_oldest e (old ∷ outbox) = ok (record e {
  outbox = outbox;
  outbox_bytes = e.outbox_bytes - length old;
  dropped = e.dropped + 1;
})

unfoldable pub make_room : FramedFd → Result RaisedBySend FramedFd
make_room e = if leb e.max_outbox (length e.outbox) then drop_oldest e e.outbox else ok e

unfoldable pub as_raised : Result SendError (List ℕ) → Result RaisedBySend (List ℕ)
as_raised (ok framed) = ok framed
as_raised (err e) = err (encoding e)

unfoldable pub send : {T : Type 0} → Codec T → FramedFd → Message T → Result RaisedBySend FramedFd
send c e msg = do
  framed ← as_raised (frame_bytes c msg)
  roomy ← make_room e
  ok (record roomy {
    outbox = roomy.outbox ++ framed ∷ [];
    outbox_bytes = roomy.outbox_bytes + length framed;
  })

unfoldable pub mark_link_dead : FramedFd → FramedFd
mark_link_dead e = record e {
  fd = none;
  outbox = [];
  outbox_bytes = 0;
  inflight = [];
  rx = [];
  next_reopen_ns = 0;
}

-- What one write of the frame in flight leads to: the link is broken, the loop returns with the
-- bytes that are left, or the frame is out; with the bytes that the system took.
pub data Round : Type 0 where
  broken : Round
  waits : List ℕ → List ℕ → Round
  done : List ℕ → Round

unfoldable pub after_write : Option ℕ → List ℕ → Round
after_write none frame = broken
after_write (some n) frame =
    if n == 0
    then waits frame []
    else elim (drop n frame) [ [] ↦ done (take n frame) | b ∷ bs ↦ waits (b ∷ bs) (take n frame) ]

unfoldable pub write_inflight : (List ℕ → OsWrite) → List ℕ → Round
write_inflight write [] = done []
write_inflight write (b ∷ bs) = after_write (write_some (write (b ∷ bs))) (b ∷ bs)

-- How the loop of `_pump` ends, with the bytes that it wrote: on a broken link, or with what is
-- in flight, the outbox and its size.
pub data Drained : Type 0 where
  died : List ℕ → Drained
  left : List ℕ → List (List ℕ) → ℕ → List ℕ → Drained

unfoldable pub prepend : List ℕ → Drained → Drained
prepend sent (died more) = died (sent ++ more)
prepend sent (left inflight outbox bytes more) = left inflight outbox bytes (sent ++ more)

unfoldable pub conclude : Round → Drained → List (List ℕ) → ℕ → Drained
conclude broken next outbox bytes = died []
conclude (waits inflight sent) next outbox bytes = left inflight outbox bytes sent
conclude (done sent) next outbox bytes = prepend sent next

-- `while True` of `_pump`, by recursion on the outbox; `write k` is the write of round k.
unfoldable pub drain : (ℕ → List ℕ → OsWrite) → ℕ → List ℕ → List (List ℕ) → ℕ → Drained
drain write k inflight [] bytes =
    conclude (write_inflight (write k) inflight) (left [] [] bytes []) [] bytes
drain write k inflight (frame ∷ outbox) bytes =
    conclude (write_inflight (write k) inflight)
      (drain write (suc k) frame outbox (bytes - length frame)) (frame ∷ outbox) bytes

unfoldable pub pumped : FramedFd → Drained → FramedFd × List ℕ
pumped e (died sent) = (mark_link_dead e, sent)
pumped e (left inflight outbox bytes sent) =
    (record e { inflight = inflight; outbox = outbox; outbox_bytes = bytes }, sent)

unfoldable pub pump : (ℕ → List ℕ → OsWrite) → FramedFd → FramedFd × List ℕ
pump write e =
    if link_up e then pumped e (drain write 0 e.inflight e.outbox e.outbox_bytes) else (e, [])

-- What the factory opened is adopted.
unfoldable pub adopt_opened : Option ℕ → FramedFd → FramedFd
adopt_opened none e = e
adopt_opened (some fd) e = record e { fd = some fd; rx = [] }

unfoldable pub reopen : Option ℕ → FramedFd → FramedFd × Bool
reopen opened e =
    if not e.reopenable
    then (e, false)
    else let tried = adopt_opened opened e in (tried, link_up tried)

unfoldable pub tick : ℕ → Option ℕ → FramedFd → FramedFd
tick now_ns opened e =
    if link_up e || not e.reopenable
    then e
    else if ltb now_ns e.next_reopen_ns
    then e
    else let (tried, up) = reopen opened e in
      if up then tried else record tried { next_reopen_ns = now_ns + e.reopen_backoff_ns }

unfoldable pub on_eof : FramedFd → FramedFd
on_eof e =
    if e.reopenable
    then mark_link_dead e
    else record e { closed_calls = suc e.closed_calls; stopped = true }

-- The endpoint, and the messages that it hands to on_inbound.
unfoldable pub read_inbound :
    {T : Type 0} → Codec T → Option (List ℕ) → FramedFd → FramedFd × List (Message T)
read_inbound c none e = (on_eof e, [])
read_inbound c (some []) e = (e, [])
read_inbound c (some (b ∷ bs)) e =
    let (msgs, rest) = extract_frames c (e.rx ++ b ∷ bs) in (record e { rx = rest }, msgs)

-- What an iteration of `_loop` meets: whether stop() was called by the time that select returned,
-- whether it found the descriptor readable, and the answers of the system and of the factory.
pub record Turn : Type 0 where
  pub stop_requested : Bool
  pub readable : Bool
  pub write : ℕ → List ℕ → OsWrite
  pub read : OsRead
  pub now_ns : ℕ
  pub opened : Option ℕ

module _ {T : Type 0} (c : Codec T) where
  unfoldable pub read_if : Bool → OsRead → FramedFd → FramedFd × List (Message T)
  read_if false read e = (e, [])
  read_if true read e = read_inbound c (read_some read) e

  -- One iteration; the descriptor that is read is the one that select was given.
  unfoldable pub iterate : FramedFd → Turn → FramedFd × List (Message T)
  iterate e t =
      if e.stopped
      then (e, [])
      else if t.stop_requested
      then (record e { stopped = true }, [])
      else let after_pump = (pump t.write e).0 in
        let (after_read, msgs) = read_if (link_up e && t.readable) t.read after_pump in
        (tick t.now_ns t.opened after_read, msgs)

  unfoldable pub loop : FramedFd → List Turn → FramedFd × List (Message T)
  loop e [] = (e, [])
  loop e (t ∷ ts) =
      let (e', msgs) = iterate e t in let (last, more) = loop e' ts in (last, msgs ++ more)
