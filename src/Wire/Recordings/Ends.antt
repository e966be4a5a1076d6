-- ===== src/Wire/Recordings/Ends.antt =====
-- A pull ends.
use visio_schema.Common.{
  ℕ, zero, suc, ◌+◌, ◌-◌, ◌*◌, ◌==◌, leb, ◌≤◌, ◌<◌, ◌≡◌, ◌≢◌, refl, ap, true, false, List, Option,
  ok, arith, Bool-cases, inl, inr, Result-cases, ==_iff,
}
use native.Mathlib.Nat.{mul-le-mul_right, suc-mul}
use visio_schema.Wire.Recordings.{
  Pins, Command, CommandResult, RecordingFileOpen, open_recording_file,
}
use visio_schema.Wire.Recordings.Pull.{
  Arrival, Received, receive, Ending, out_of_fuel, pins_of, prefix, idle_after, after_receive,
  pull_loop,
}
use visio_schema.Wire.Recordings.Contents.{Range, receive-Range}
use visio_schema.Wire.Recordings.Pulled.{open-eq-ok}

-- What is left to try, as a number: each byte may cost `max_idle` idle opens.
abbrev pub budget : ℕ → ℕ → ℕ → ℕ → ℕ
budget size max_idle offset idle = (size - offset) * suc max_idle + (max_idle - idle)

budget-progress :
    (size max_idle offset received idle : ℕ)
    → 0 < received
    → offset + received ≤ size
    → budget size max_idle (offset + received) 0 < budget size max_idle offset idle
budget-progress size max_idle offset received idle some_bytes small =
    let fewer : suc (size - (offset + received)) ≤ size - offset = omega arith in
    omega (
      arith,
      mul-le-mul_right (suc max_idle) fewer,
      suc-mul (size - (offset + received)) (suc max_idle),
    )

budget-idle :
    (size max_idle offset received idle : ℕ)
    → received ≡ 0
    → idle + 1 < max_idle
    → budget size max_idle (offset + received) (idle + 1) < budget size max_idle offset idle
budget-idle size max_idle offset received idle nothing again =
    let same : size - (offset + received) ≡ size - offset = omega arith in
    omega (arith, ap (λ (n : ℕ). n * suc max_idle) same)

idle_after-some : (received idle : ℕ) → (received == 0) ≡ false → idle_after received idle ≡ 0
unfolding idle_after
idle_after-some received idle e = rw e refl

idle_after-none : (received idle : ℕ) → (received == 0) ≡ true → idle_after received idle ≡ idle + 1
unfolding idle_after
idle_after-none received idle e = rw e refl

after_receive-ends :
    (size max_idle fuel : ℕ) (opened : RecordingFileOpen) (got : Received) (offset idle : ℕ)
    (next : List (ℕ × List ℕ) × Ending)
    → offset + got.received ≤ size
    → budget size max_idle offset idle < suc fuel
    → (budget size max_idle (offset + got.received) (idle_after got.received idle) < fuel
        → next.1 ≢ out_of_fuel)
    → (after_receive max_idle opened got offset idle next).1 ≢ out_of_fuel
unfolding after_receive prefix
after_receive-ends size max_idle fuel opened got offset idle next small enough later =
    elim (Bool-cases (offset + got.received == opened.file_size)) [
      | inl done ↦ rw done (λ e. cc)
      | inr short ↦ elim (Bool-cases (got.received == 0)) [
        | inr some_bytes ↦
            let positive : 0 < got.received = ground (arith, some_bytes) in
            rw (short, after_receive, some_bytes)
              (later (
                rw (idle_after-some got.received idle some_bytes) (
                  omega (
                    arith,
                    enough,
                    budget-progress size max_idle offset got.received idle positive small,
                  ))))
        | inl idle_round ↦ elim (Bool-cases (leb max_idle (idle + 1))) [
          | inl gives_up ↦ rw (short, after_receive, idle_round, gives_up) (λ e. cc)
          | inr goes_on ↦
              let nothing : got.received ≡ 0 = (==_iff got.received 0).0 idle_round in
              let again : idle + 1 < max_idle = ground (arith, goes_on) in
              rw (short, after_receive, idle_round, goes_on)
                (later (
                  rw (idle_after-none got.received idle idle_round) (
                    omega (
                      arith,
                      enough,
                      budget-idle size max_idle offset got.received idle nothing again,
                    ))))
        ]
      ]
    ]

module _ (run : ℕ → Command → CommandResult) (net : ℕ → RecordingFileOpen → Option (List Arrival))
    (target_device session_name file_name : List ℕ) (max_idle : ℕ) where
  -- A pull of a file whose size does not change between opens ends, by a return or an error:
  -- `(size - offset) * (max_idle + 1) + max_idle + 1` rounds are enough, whatever the network does.
  pub pull_loop-ends :
      (size fuel k offset : ℕ) (expect : Pins) (idle : ℕ)
      → ((k at : ℕ) (pins : Pins) (opened : RecordingFileOpen)
          → open_recording_file (run k) target_device session_name file_name at pins ≡ ok opened
          → opened.file_size ≡ size)
      → (size - offset) * suc max_idle + (max_idle - idle) < fuel
      → (pull_loop run net target_device session_name file_name max_idle fuel k offset expect
          idle).1
        ≢ out_of_fuel
  unfolding pull_loop
  pull_loop-ends size zero k offset expect idle same_size enough = absurd (omega arith)
  pull_loop-ends size (suc fuel) k offset expect idle same_size enough =
      elim (Result-cases
        (open_recording_file (run k) target_device session_name file_name offset expect)) [
          | inr (e, refused) ↦ rw (refused, pull_loop) (λ same. cc)
          | inl (opened, succeeded) ↦
              let (here, whole) =
                open-eq-ok (run k) target_device session_name file_name offset expect succeeded in
              let got : Received = receive opened (net k opened) in
              let range : Range opened 0 got = receive-Range opened (net k opened) in
              let known : opened.file_size ≡ size = same_size k offset expect opened succeeded in
              elim (Bool-cases (opened.length == 0)) [
                | inl nothing ↦ rw (succeeded, pull_loop, nothing) (λ same. cc)
                | inr more ↦
                    rw (succeeded, pull_loop, more)
                      (after_receive-ends size max_idle fuel opened got offset idle _
                        (omega (arith, here, whole, known, range.bounded)) enough
                        (pull_loop-ends size fuel (suc k) (offset + got.received) (pins_of opened)
                          (idle_after got.received idle) same_size))
              ]
        ]
