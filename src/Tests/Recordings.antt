-- ===== src/Tests/Recordings.antt =====
-- Recordings pulled from a concrete device.
use visio_schema.Common.{
  ℕ, zero, suc, ◌+◌, ◌-◌, ◌≡◌, ◌≢◌, refl, true, false, List, [], ◌∷◌, Option, some, ok, length,
  take, drop, arith, ◌∙◌, sym, subst, take_all, length-take, length-drop,
}
use visio_schema.Wire.Recordings.{
  Pins, Body, list_body, open_body, delete_body, Command, RecordingEntry, RecordingsList,
  RecordingFileOpen, recordings, file_open, other_payload, CommandResult, contains, starts_with_dot,
  is_empty, check_name, list_recordings_command, open_recording_file_command, code_or_failed,
  run_command, recordings_payload, file_open_payload, check_open, same_name, list_recordings,
  open_recording_file,
}
use visio_schema.Wire.Recordings.Pull.{
  Arrival, arrived, reset, also, deliver, receive_loop, receive, returned, out_of_fuel, pins_of,
  prefix, idle_after, after_receive, pull_loop,
}
use visio_schema.Wire.Recordings.Contents.{written, Contiguous, IsServed, take_part}
use visio_schema.Wire.Recordings.Pulled.{Serves, pull_loop-Contiguous, pull_loop-contents}
use visio_schema.Wire.Recordings.Ends.{pull_loop-ends}
use visio_schema.Wire.Recordings.Pages as Pages
use visio_schema.Wire.Recordings.Pages.{
  seen_before, list_all_loop, list_all_recordings, listed, Follows, entries_of,
  list_all_recordings_total,
}

program : Unit {0}
unfolding contains starts_with_dot is_empty check_name list_recordings_command
    open_recording_file_command code_or_failed run_command recordings_payload file_open_payload
    check_open same_name list_recordings open_recording_file also deliver receive_loop receive
    pins_of prefix idle_after after_receive pull_loop written seen_before list_all_loop
    list_all_recordings entries_of
program = tt

abbrev file : List ℕ
file = 10 ∷ 11 ∷ 12 ∷ 13 ∷ 14 ∷ []

abbrev answer : ℕ → CommandResult
answer at = record {
  is_ok = true;
  error_code = [];
  payload = file_open (record {
    port = 50002;
    offset = at;
    length = 5 - at;
    file_size = 5;
    mtime_ns = 77;
    object_version = 0;
    catalogue_generation = 1;
  });
}

abbrev refusal : CommandResult
refusal = record { is_ok = false; error_code = 98 ∷ []; payload = other_payload }

abbrev serve : Body → CommandResult
serve (list_body limit cursor session) = refusal
serve (open_body session name at pins) = answer at
serve (delete_body session) = refusal

abbrev device : ℕ → Command → CommandResult
device k cmd = serve cmd.body

-- The first connection breaks off after two bytes, the second serves the rest.
abbrev net : ℕ → RecordingFileOpen → Option (List Arrival)
net zero opened = some (arrived (take 2 (drop opened.offset file)) ∷ reset ∷ [])
net (suc k) opened = some (arrived (drop opened.offset file) ∷ [])

abbrev no_pins : Pins
no_pins = record { size = 0; mtime_ns = 0; object_version = 0; catalogue_generation = 0 }

abbrev last_open : RecordingFileOpen
last_open = record {
  port = 50002;
  offset = 2;
  length = 3;
  file_size = 5;
  mtime_ns = 77;
  object_version = 0;
  catalogue_generation = 1;
}

abbrev calls : List (ℕ × List ℕ)
calls = (0, 10 ∷ 11 ∷ []) ∷ (2, 12 ∷ 13 ∷ 14 ∷ []) ∷ []

abbrev name : List ℕ
name = 97 ∷ []

pulled : pull_loop device net [] name name 5 40 0 0 no_pins 0 ≡ (calls, returned last_open)
unfolding program
pulled = refl

pull_loop-Contiguous_example :
    Contiguous 0 calls
    × ((opened : RecordingFileOpen)
        → returned last_open ≡ returned opened
        → 0 + length (written calls) ≡ opened.file_size)
pull_loop-Contiguous_example =
    pull_loop-Contiguous device net [] name name 5 40 0 0 no_pins 0 pulled

abbrev stream : ℕ → RecordingFileOpen → List Arrival
stream zero opened = arrived (take 2 (drop opened.offset file)) ∷ reset ∷ []
stream (suc k) opened = arrived (drop opened.offset file) ∷ []

all_of : (xs : List ℕ) → xs ≡ take (length xs) xs
all_of xs = sym (take_all (length xs) xs (omega arith))

stream-IsServed :
    (k : ℕ) (opened : RecordingFileOpen) → IsServed file opened.offset (stream k opened)
stream-IsServed zero opened =
    let rest : List ℕ = drop opened.offset file in
    (omega (arith, length-take 2 rest), take_part 2 rest rest (all_of rest), tt)
stream-IsServed (suc k) opened =
    let rest : List ℕ = drop opened.offset file in
    (omega (arith, length-drop opened.offset file), all_of rest, tt)

net-stream : (k : ℕ) (opened : RecordingFileOpen) → net k opened ≡ some (stream k opened)
net-stream zero opened = refl
net-stream (suc k) opened = refl

some_stream : (xs ys : List Arrival) → some xs ≡ some ys → xs ≡ ys
some_stream xs ys same = cc

device-Serves : Serves device net [] name name 5 file
device-Serves k opened arrivals connected =
    subst (IsServed file opened.offset)
      (some_stream (stream k opened) arrivals (sym (net-stream k opened) ∙ connected))
      (stream-IsServed k opened)

pull_loop-contents_example : written calls ≡ drop 0 file
pull_loop-contents_example =
    pull_loop-contents device net [] name name 5 file 40 0 0 no_pins 0 device-Serves pulled refl

one_size :
    (k at : ℕ) (pins : Pins) (opened : RecordingFileOpen)
    → open_recording_file (device k) [] name name at pins ≡ ok opened
    → opened.file_size ≡ 5
unfolding open_recording_file open_recording_file_command check_name is_empty contains
    starts_with_dot run_command file_open_payload check_open
one_size k at pins opened succeeded = ground (arith)

pull_loop-ends_example : (pull_loop device net [] name name 5 40 0 0 no_pins 0).1 ≢ out_of_fuel
pull_loop-ends_example =
    pull_loop-ends device net [] name name 5 5 40 0 0 no_pins 0 one_size (omega arith)

-- A device with two pages.
abbrev page_at : List ℕ → CommandResult
page_at [] = record {
  is_ok = true;
  error_code = [];
  payload = recordings (record {
    recordings = record { name = name; files = [] } ∷ [];
    next_cursor = 98 ∷ [];
    catalogue_generation = 1;
  });
}
page_at (b ∷ bs) = record {
  is_ok = true;
  error_code = [];
  payload = recordings (record {
    recordings = record { name = 99 ∷ []; files = [] } ∷ [];
    next_cursor = [];
    catalogue_generation = 1;
  });
}

abbrev catalogue : Body → CommandResult
catalogue (list_body limit cursor session) = page_at cursor
catalogue (open_body session label at pins) = refusal
catalogue (delete_body session) = refusal

abbrev lister : ℕ → Command → CommandResult
lister k cmd = catalogue cmd.body

both_listed :
    list_all_recordings lister [] 0 3
    ≡ listed (record { name = name; files = [] } ∷ record { name = 99 ∷ []; files = [] } ∷ [])
unfolding program
both_listed = refl

one_cursor :
    (k : ℕ) (at : List ℕ) (page : RecordingsList)
    → list_recordings (lister k) [] 0 at ≡ ok page
    → is_empty page.next_cursor ≡ false
    → seen_before page.next_cursor ((98 ∷ []) ∷ []) ≡ true
unfolding list_recordings list_recordings_command check_name run_command recordings_payload is_empty
    seen_before same_name
one_cursor k [] page answered goes_on = ground (arith)
one_cursor k (b ∷ bs) page answered goes_on = ground (arith)

list_all_recordings_total_example :
    (list_all_recordings lister [] 0 3 ≢ Pages.out_of_fuel)
    × ((all : List RecordingEntry)
        → list_all_recordings lister [] 0 3 ≡ listed all
        → (pages : List RecordingsList) × Follows lister [] 0 0 [] pages
          × (all ≡ entries_of lister [] 0 pages))
list_all_recordings_total_example =
    list_all_recordings_total lister [] 0 ((98 ∷ []) ∷ []) 3 one_cursor (omega arith)
