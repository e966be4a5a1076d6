-- ===== src/Wire/Recordings/Pulled.antt =====
-- What a whole pull hands to its sink.
use visio_schema.Common.{
  ℕ, zero, suc, ◌+◌, ◌==◌, leb, ◌≡◌, refl, ap, ◌∙◌, subst, List, [], Option, some, ok, length, drop,
  All-append, arith, Bool-cases, Option-cases, inl, inr, length-append, length-drop, take_all,
  chain-eq-ok, Result-cases, ==_iff, ok-injective,
}
use visio_schema.Wire.Recordings.{
  RecordingsError, no_progress, Pins, Command, CommandResult, RecordingFileOpen,
  open_recording_file, check_open, open_recording_file_command, run_command, file_open_payload,
}
use visio_schema.Wire.Recordings.Pull.{
  Arrival, Received, receive, Ending, returned, raised, pins_of, prefix, idle_after, after_receive,
  pull_loop,
}
use visio_schema.Wire.Recordings.Contents.{
  written, written-append, Contiguous, Contiguous-append, Slices, IsServed, Range, receive-Range,
  receive_loop-Slices, Slices-written,
}

check_open-eq-ok :
    (offset : ℕ) (answer opened : RecordingFileOpen)
    → check_open offset answer ≡ ok opened
    → (answer ≡ opened)
      × (answer.offset ≡ offset)
      × (answer.offset + answer.length ≡ answer.file_size)
unfolding check_open
check_open-eq-ok offset answer opened checked = elim (Bool-cases (answer.offset == offset)) [
  | inr moved ↦ absurd (ground (arith, moved))
  | inl here ↦ elim (Bool-cases (answer.offset + answer.length == answer.file_size)) [
    | inr short ↦ absurd (ground (arith, here, short))
    | inl whole ↦ (
      ok-injective {E = RecordingsError} (rw (here, whole) at checked),
      (==_iff answer.offset offset).0 here,
      (==_iff (answer.offset + answer.length) answer.file_size).0 whole,
    )
  ]
]

-- An open that returns is at the offset that was asked for, and reaches the end of the file.
pub open-eq-ok :
    (run : Command → CommandResult) (target session file : List ℕ) (offset : ℕ) (expect : Pins)
    {opened : RecordingFileOpen}
    → open_recording_file run target session file offset expect ≡ ok opened
    → (opened.offset ≡ offset) × (opened.offset + opened.length ≡ opened.file_size)
unfolding open_recording_file
open-eq-ok run target session file offset expect {opened} succeeded =
    let (cmd, later, _) =
      chain-eq-ok (open_recording_file_command session file offset expect target) _ succeeded in
    let (result, later', _) = chain-eq-ok (run_command (run cmd)) _ later in
    let (answer, last, _) = chain-eq-ok (file_open_payload result.payload) _ later' in
    let (same, here, whole) = check_open-eq-ok offset answer opened last in
    subst (λ o. (o.offset ≡ offset) × (o.offset + o.length ≡ o.file_size)) same (here, whole)

-- What the calls of the sink cover, and that they pass the file's own bytes where the sockets
-- serve the file.
record Covers (served : Type 0) (file : List ℕ) (offset : ℕ) (result : List (ℕ × List ℕ) × Ending)
    : Type 0 where
  contiguous : Contiguous offset result.0
  complete :
      (opened : RecordingFileOpen)
      → result.1 ≡ returned opened
      → offset + length (written result.0) ≡ opened.file_size
  slices : served → Slices file result.0

prefix-Covers :
    {S : Type 0} {file : List ℕ} (offset received : ℕ) (ws : List (ℕ × List ℕ))
    (next : List (ℕ × List ℕ) × Ending)
    → Contiguous offset ws
    → received ≡ length (written ws)
    → (S → Slices file ws)
    → Covers S file (offset + received) next
    → Covers S file offset (prefix ws next)
unfolding prefix
prefix-Covers offset received ws next here counted part later = record {
  contiguous =
      Contiguous-append offset ws next.0 here
        (subst (λ n. Contiguous (offset + n) next.0) counted later.contiguous);
  complete = λ opened ended. omega (
    arith,
    ap length (written-append ws next.0),
    length-append (written ws) (written next.0),
    counted,
    later.complete opened ended,
  );
  slices = λ s. All-append _ ws next.0 (part s) (later.slices s);
}

raised-Covers :
    {S : Type 0} {file : List ℕ} (offset : ℕ) (ws : List (ℕ × List ℕ)) (e : RecordingsError)
    → Contiguous offset ws
    → (S → Slices file ws)
    → Covers S file offset (ws, raised e)
raised-Covers offset ws e here part = record {
  contiguous = here;
  complete = λ opened ended. absurd (cc);
  slices = part;
}

returned-opened : {a b : RecordingFileOpen} → returned a ≡ returned b → a ≡ b
returned-opened same = cc

after_receive-Covers :
    {S : Type 0} {file : List ℕ} (max_idle : ℕ) (opened : RecordingFileOpen) (got : Received)
    (offset idle : ℕ) (next : List (ℕ × List ℕ) × Ending)
    → Contiguous offset got.writes
    → got.received ≡ length (written got.writes)
    → (S → Slices file got.writes)
    → Covers S file (offset + got.received) next
    → Covers S file offset (after_receive max_idle opened got offset idle next)
unfolding after_receive
after_receive-Covers max_idle opened got offset idle next here counted part later =
    let more = prefix-Covers offset got.received got.writes next here counted part later in
    elim (Bool-cases (offset + got.received == opened.file_size)) [
      | inl done ↦ rw done (record {
        contiguous = here;
        complete = λ o ended.
            (let all = (==_iff (offset + got.received) opened.file_size).0 done in
              subst (λ r. offset + length (written got.writes) ≡ r.file_size)
                (returned-opened ended) (omega (arith, all, counted)));
        slices = part;
      })
      | inr short ↦ elim (Bool-cases (got.received == 0)) [
        | inr some_bytes ↦ rw (short, after_receive, some_bytes) more
        | inl idle_round ↦ elim (Bool-cases (leb max_idle (idle + 1))) [
          | inl gives_up ↦
              rw (short, after_receive, idle_round, gives_up)
                (raised-Covers offset got.writes no_progress here part)
          | inr goes_on ↦ rw (short, after_receive, idle_round, goes_on) more
        ]
      ]
    ]

returned-Covers :
    {S : Type 0} {file : List ℕ} (offset : ℕ) (opened : RecordingFileOpen)
    → offset ≡ opened.file_size
    → Covers S file offset ([], returned opened)
unfolding written
returned-Covers offset opened whole = record {
  contiguous = tt;
  complete = λ o ended.
      subst (λ r. offset + 0 ≡ r.file_size) (returned-opened ended) (omega (arith, whole));
  slices = λ s. tt;
}

module _ (run : ℕ → Command → CommandResult) (net : ℕ → RecordingFileOpen → Option (List Arrival))
    (target_device session_name file_name : List ℕ) (max_idle : ℕ) where
  -- Every socket serves the file from the offset of its open.
  abbrev pub Serves : List ℕ → Type 0
  Serves file =
      (k : ℕ) (opened : RecordingFileOpen) (arrivals : List Arrival)
      → net k opened ≡ some arrivals
      → IsServed file opened.offset arrivals

  receive-Slices :
      (file : List ℕ) (k : ℕ) (opened : RecordingFileOpen)
      → Serves file
      → Slices file (receive opened (net k opened)).writes
  unfolding receive
  receive-Slices file k opened serves = elim (Option-cases (net k opened)) [
    | inl refused ↦ rw (refused, receive) tt
    | inr (arrivals, connected) ↦
        rw (connected, receive)
          (receive_loop-Slices file opened 0 arrivals (omega arith) (
            subst (λ n. IsServed file n arrivals) (omega arith)
              (serves k opened arrivals connected)))
  ]

  pull_loop-Covers :
      (file : List ℕ) (fuel k offset : ℕ) (expect : Pins) (idle : ℕ)
      → Covers (Serves file) file offset (
          pull_loop run net target_device session_name file_name max_idle fuel k offset expect idle)
  unfolding pull_loop
  pull_loop-Covers file zero k offset expect idle = record {
    contiguous = tt;
    complete = λ o ended. absurd (cc);
    slices = λ s. tt;
  }
  pull_loop-Covers file (suc fuel) k offset expect idle =
      elim (Result-cases
        (open_recording_file (run k) target_device session_name file_name offset expect)) [
          | inr (e, refused) ↦ rw (refused, pull_loop) (raised-Covers offset [] e tt (λ s. tt))
          | inl (opened, succeeded) ↦
              let (here, whole) =
                open-eq-ok (run k) target_device session_name file_name offset expect succeeded in
              let got : Received = receive opened (net k opened) in
              let range : Range opened 0 got = receive-Range opened (net k opened) in
              elim (Bool-cases (opened.length == 0)) [
                | inl nothing ↦
                    rw (succeeded, pull_loop, nothing)
                      (returned-Covers offset opened
                        (omega (arith, here, whole, (==_iff opened.length 0).0 nothing)))
                | inr more ↦
                    rw (succeeded, pull_loop, more)
                      (after_receive-Covers max_idle opened got offset idle _
                        (subst (λ n. Contiguous n got.writes) (omega (arith, here))
                          range.contiguous)
                        (omega (arith, range.counted)) (receive-Slices file k opened)
                        (pull_loop-Covers file fuel (suc k) (offset + got.received) (pins_of opened)
                          (idle_after got.received idle)))
              ]
        ]

  -- Whatever the device and the network do, the calls of the sink follow one another from `offset`
  -- without a gap or an overlap, and a pull that returns has passed the bytes up to the size of the
  -- file that it returns.
  pub pull_loop-Contiguous :
      (fuel k offset : ℕ) (expect : Pins) (idle : ℕ) {ws : List (ℕ × List ℕ)} {ending : Ending}
      → pull_loop run net target_device session_name file_name max_idle fuel k offset expect idle
        ≡ (ws, ending)
      → Contiguous offset ws
        × ((opened : RecordingFileOpen)
            → ending ≡ returned opened
            → offset + length (written ws) ≡ opened.file_size)
  pull_loop-Contiguous fuel k offset expect idle {ws} {ending} ran =
      let covers : Covers (Serves []) [] offset (ws, ending) =
        subst (Covers (Serves []) [] offset) ran (pull_loop-Covers [] fuel k offset expect idle) in
      (covers.contiguous, covers.complete)

  -- A pull that returns has passed exactly the bytes of the file from `offset` on, across any
  -- number of short reads, if each socket serves the file from the offset of its open and the open
  -- that is returned names the size of the file.
  pub pull_loop-contents :
      (file : List ℕ) (fuel k offset : ℕ) (expect : Pins) (idle : ℕ) {ws : List (ℕ × List ℕ)}
      {opened : RecordingFileOpen}
      → Serves file
      → pull_loop run net target_device session_name file_name max_idle fuel k offset expect idle
        ≡ (ws, returned opened)
      → opened.file_size ≡ length file
      → written ws ≡ drop offset file
  pull_loop-contents file fuel k offset expect idle {ws} {opened} serves ran size =
      let covers : Covers (Serves file) file offset (ws, returned opened) =
        subst (Covers (Serves file) file offset) ran
          (pull_loop-Covers file fuel k offset expect idle) in
      Slices-written file offset ws covers.contiguous (covers.slices serves)
      ∙ take_all (length (written ws)) (drop offset file)
          (omega (arith, covers.complete opened refl, size, length-drop offset file))
