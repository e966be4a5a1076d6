-- ===== src/Tests/Ota.antt =====
-- The update relay at concrete inputs.
use visio_schema.Common.{ℕ, ◌≡◌, refl, Bool, true, false, List, [], ◌∷◌, none, some, ok, ◌++◌, All}
use visio_schema.Wire.Ota as Ota
use visio_schema.Wire.Ota.{
  OtaState, is_staged, is_success, needs_resume, is_failed, other_state, OtaStatus, Raised,
  os_error, Recv, heard, silence, raises, WaitRound, negotiate_chunk,
}
use visio_schema.Wire.Ota.Adverts as Adverts
use visio_schema.Wire.Ota.Negotiate.{Settled, negotiate_chunk-Settled}
use visio_schema.Wire.Ota.Relay as Relay
use visio_schema.Wire.Ota.Relay.{
  Settings, Outcome, ok_staged, ok_upload_only, fail_deadline, fail_device,
}
use visio_schema.Wire.Ota.Relay.Loop as Loop
use visio_schema.Wire.Ota.Relay.Loop.{Tick, returns}
use visio_schema.Wire.Ota.Relay.Call as Call
use visio_schema.Wire.Ota.Relay.Call.{World, Request, relay}
use visio_schema.Wire.Ota.Relay.Log.{Sound}
use visio_schema.Wire.Ota.Relay.Accounts as Accounts
use visio_schema.Wire.Ota.Relay.Accounts.{waited_out}
use visio_schema.Wire.Ota.Relay.Receives as Receives
use visio_schema.Wire.Ota.Relay.Receives.{drains, is_past}
use visio_schema.Wire.Ota.Relay.Whole.{Justified, relay-Sound, relay-Justified}
use visio_schema.Wire.Ota.Relay.Ends as Ends
use visio_schema.Wire.Ota.Relay.Ends.{has_ended, PutBack, relay-has_ended}

program : Unit {0}
unfolding Ota.same_magic Ota.bundle_error Ota.foreign Ota.least Ota.next_smallest
    Ota.smallest_advert Ota.chunk_size Ota.capped Ota.negotiate_chunk Adverts.adverts Relay.total
    Relay.slice Relay.bounced Relay.fold_failure Relay.fold_as Relay.note Relay.fold
    Relay.pump_statuses Relay.message Relay.tell Relay.emit Relay.abort_with Relay.done Relay.going
    Loop.next_size Loop.has_room Loop.sent_chunk Loop.all_acked Loop.is_none Loop.check_time
    Loop.log_progress Loop.end_turn Loop.after_pump Loop.send_part Loop.rewind Loop.rewind_or_send
    Loop.loop_turn Loop.unless_ended Loop.send_loop Call.verdict Call.unless_raised
    Call.await_answer Call.after_commit Call.commit_phase Call.uncommitted Call.after_loop
    Call.conclude_loop Call.after_first Call.bound_of Call.transfer Call.negotiated Call.asked
    Call.idle Call.quieted Call.run_transfer Call.handled Call.restored Call.relay Ends.has_ended
    Receives.is_past Receives.drains Call.is_over Accounts.waited_out
program = tt

abbrev status : OtaState → ℕ → ℕ → OtaStatus
status state bytes advert = record {
  session_id = 7;
  state = state;
  bytes_received = bytes;
  max_chunk = advert;
  error_code = "";
  error_message = "";
}

-- Two adverts, one of them above the limit of the encoding, and a foreign one.
abbrev answers : List WaitRound
answers =
    (1, heard (status other_state 0 20000))
    ∷ (2, silence)
    ∷ (3, heard (status other_state 0 90000))
    ∷ (4, heard (record (status other_state 0 1) { session_id = 8 }))
    ∷ (10, silence)
    ∷ []

negotiated-smallest : negotiate_chunk 7 32768 0 10 true 0 answers ≡ ok 20000
unfolding program
negotiated-smallest = refl

negotiated-capped : negotiate_chunk 7 32768 4096 10 true 0 answers ≡ ok 4096
unfolding program
negotiated-capped = refl

-- The smallest advert is above the wanted size.
negotiated-above : negotiate_chunk 7 16384 0 10 true 0 answers ≡ ok 20000
unfolding program
negotiated-above = refl

negotiate_chunk-Settled_example :
    Settled 7 16384 0 10 true answers (negotiate_chunk 7 16384 0 10 true 0 answers)
negotiate_chunk-Settled_example = negotiate_chunk-Settled 7 16384 0 10 true 0 answers

bundle-raw : Ota.bundle_error (82 ∷ 75 ∷ 70 ∷ 87 ∷ 1 ∷ []) ≡ some Ota.raw_image
unfolding program
bundle-raw = refl

-- Five bytes in chunks of three, with one chunk in flight.
abbrev request : Bool → Request
request commits = record {
  settings = record {
    image = 1 ∷ 2 ∷ 3 ∷ 4 ∷ 5 ∷ [];
    fw_version = "2";
    board = "head";
    target_device = "";
    session_id = 7;
    window = 4;
    chunk_bytes = 3;
    max_resumes = 0;
    commits = commits;
    stall_timeout = 45;
    soft_retry = 6;
    commit_wait = 8;
    deadline = 900;
  };
  chunk_cap = 0;
  negotiate = false;
  query_wait = 1;
  max_resumes = none;
}

abbrev tick_at : ℕ → List Recv → Tick
tick_at at_time received = record {
  tested_at = at_time;
  delivered = true;
  abort_delivered = true;
  received = received ++ silence ∷ [];
  now = at_time;
}

abbrev world : List Recv → List Tick → World
world first ticks = record {
  quiesce = some (ok true);
  query_delivered = true;
  queried_at = 0;
  rounds = [];
  begin_delivered = true;
  started = 0;
  first = first ++ silence ∷ [];
  ticks = ticks;
  abort_delivered = true;
  commit_delivered = true;
  committed_at = 10;
  waits = (11, heard (status is_staged 5 0) ∷ silence ∷ []) ∷ (19, silence ∷ []) ∷ [];
}

-- The second chunk waits for the first acknowledgement; a gap makes the sender go back.
abbrev good : World
good = world [] (
    tick_at 1 []
    ∷ tick_at 2 []
    ∷ tick_at 3 (heard (status other_state 3 0) ∷ [])
    ∷ tick_at 4 (heard (status needs_resume 3 0) ∷ [])
    ∷ tick_at 5 []
    ∷ tick_at 6 (heard (status other_state 5 0) ∷ [])
    ∷ tick_at 7 []
    ∷ [])

good-staged :
    (relay (request true) good).1
    ≡ returns (record { is_ok = true; acked = 5; total = 5; resumes = 1; reason = ok_staged })
unfolding program
good-staged = refl

-- A device that never answers.
abbrev mute : World
mute = world [] (tick_at 1 [] ∷ tick_at 901 [] ∷ [])

mute-late :
    (relay (request true) mute).1
    ≡ returns (record { is_ok = false; acked = 0; total = 5; resumes = 0; reason = fail_deadline })
unfolding program
mute-late = refl

-- A SUCCESS that comes before any chunk counts as a whole upload.
abbrev early : World
early = world (heard (status is_success 0 0) ∷ []) []

early-upload :
    (relay (request false) early).1
    ≡ returns (record { is_ok = true; acked = 0; total = 5; resumes = 0; reason = ok_upload_only })
unfolding program
early-upload = refl

relay-Sound_example : Sound 7 4 (1 ∷ 2 ∷ 3 ∷ 4 ∷ 5 ∷ []) (relay (request true) good).0.log
relay-Sound_example = relay-Sound (request true) good

relay-Justified_example :
    Justified
      (request true).settings
      good
      (relay (request true) good).0.log
      (relay (request true) good).1
relay-Justified_example = relay-Justified (request true) good

-- The device refuses the image after the commit.
abbrev refused : World
refused = record good { waits = (11, heard (status is_failed 5 0) ∷ silence ∷ []) ∷ [] }

refused-failed :
    (relay (request true) refused).1
    ≡ returns (record { is_ok = false; acked = 5; total = 5; resumes = 1; reason = fail_device })
unfolding program
refused-failed = refl

mute-past : is_past 900 mute.ticks ≡ true
unfolding program
mute-past = refl

mute-drains :
    (drains mute.first ≡ true)
    × All (λ tick. drains tick.received ≡ true) mute.ticks
    × All (λ r. drains r.1 ≡ true) mute.waits
unfolding program
mute-drains = (refl, (refl, (refl, tt)), (refl, (refl, tt)))

mute-waited : waited_out (request true).settings mute ≡ true
unfolding program
mute-waited = refl

relay-has_ended_example :
    (has_ended (relay (request true) mute).1 ≡ true)
    × PutBack (some (ok true)) (relay (request true) mute).0.log
relay-has_ended_example =
    relay-has_ended (request true) mute mute-drains.0 mute-drains.1 mute-drains.2 refl mute-past
      mute-waited
