-- ===== src/Wire/Recordings/Pull.antt =====
-- python/visio_schema/wire/recordings.py: `receive` and `pull_file`. What arrives on a socket and
-- what the device answers are inputs; the sink is the list of its calls.
use visio_schema.Common.{
  ℕ, zero, suc, ◌+◌, ◌-◌, ◌==◌, ltb, leb, min, if◌then◌else◌, Bool, true, false, List, [], ◌∷◌,
  ◌++◌, Option, none, some, ok, err, length, take,
}
use visio_schema.Wire.Recordings.{
  RecordingsError, no_progress, Pins, Command, CommandResult, RecordingFileOpen,
  open_recording_file,
}

abbrev pub recv_buffer_bytes : ℕ
recv_buffer_bytes = 1048576

-- What one recv_into meets: bytes, of which it takes as many as it asked for, with none at the
-- end of the stream; or an OSError.
pub data Arrival : Type 0 where
  arrived : List ℕ → Arrival
  reset : Arrival

-- The calls of the sink, the bytes received, and whether an error ended it.
pub record Received : Type 0 where
  pub writes : List (ℕ × List ℕ)
  pub received : ℕ
  pub failed : Bool

unfoldable pub also : ℕ × List ℕ → Received → Received
also w r = record r { writes = w ∷ r.writes }

-- `n == 0` ends the loop; otherwise the bytes go to the sink.
unfoldable pub deliver : List ℕ → RecordingFileOpen → ℕ → Received → Received
deliver [] opened received rest = record { writes = []; received = received; failed = false }
deliver (b ∷ bs) opened received rest = also (opened.offset + received, b ∷ bs) rest

-- `while received < opened.length`; where the arrivals end, the socket times out.
unfoldable pub receive_loop : RecordingFileOpen → ℕ → List Arrival → Received
receive_loop opened received [] = record {
  writes = [];
  received = received;
  failed = ltb received opened.length;
}
receive_loop opened received (reset ∷ arrivals) = record {
  writes = [];
  received = received;
  failed = ltb received opened.length;
}
receive_loop opened received (arrived chunk ∷ arrivals) =
    let got : List ℕ = take (min recv_buffer_bytes (opened.length - received)) chunk in
    let rest = receive_loop opened (received + length got) arrivals in
    if ltb received opened.length
    then deliver got opened received rest
    else record { writes = []; received = received; failed = false }

-- `none`: the connection is refused.
unfoldable pub receive : RecordingFileOpen → Option (List Arrival) → Received
receive opened none = record { writes = []; received = 0; failed = true }
receive opened (some arrivals) = receive_loop opened 0 arrivals

-- How `pull_file` ends.
pub data Ending : Type 0 where
  returned : RecordingFileOpen → Ending
  raised : RecordingsError → Ending
  out_of_fuel : Ending

unfoldable pub pins_of : RecordingFileOpen → Pins
pins_of opened = record {
  size = opened.file_size;
  mtime_ns = opened.mtime_ns;
  object_version = opened.object_version;
  catalogue_generation = opened.catalogue_generation;
}

unfoldable pub prefix : List (ℕ × List ℕ) → List (ℕ × List ℕ) × Ending → List (ℕ × List ℕ) × Ending
prefix writes (more, ending) = (writes ++ more, ending)

unfoldable pub idle_after : ℕ → ℕ → ℕ
idle_after received idle = if received == 0 then idle + 1 else 0

-- The end of a round; `next` is the loop from the next round.
unfoldable pub after_receive :
    ℕ
    → RecordingFileOpen
    → Received
    → ℕ
    → ℕ
    → List (ℕ × List ℕ) × Ending
    → List (ℕ × List ℕ) × Ending
after_receive max_idle opened got offset idle next =
    if offset + got.received == opened.file_size
    then (got.writes, returned opened)
    else if (got.received == 0)
    then (if leb max_idle (idle + 1)
        then (got.writes, raised no_progress)
        else prefix got.writes next)
    else prefix got.writes next

-- The k-th command's answer, and what arrives on the socket of the k-th open.
module _ (run : ℕ → Command → CommandResult) (net : ℕ → RecordingFileOpen → Option (List Arrival))
    (target_device session_name file_name : List ℕ) (max_idle : ℕ) where
  -- `while True`: the calls of the sink, and how it ends.
  unfoldable pub pull_loop : ℕ → ℕ → ℕ → Pins → ℕ → List (ℕ × List ℕ) × Ending
  pull_loop zero k offset expect idle = ([], out_of_fuel)
  pull_loop (suc fuel) k offset expect idle =
      elim (open_recording_file (run k) target_device session_name file_name offset expect) [
        | err e ↦ ([], raised e)
        | ok opened ↦
            let got = receive opened (net k opened) in
            if opened.length == 0
            then ([], returned opened)
            else after_receive max_idle opened got offset idle (
                pull_loop fuel (suc k) (offset + got.received) (pins_of opened)
                  (idle_after got.received idle))
      ]
