-- ===== src/Tests/Transport.antt =====
-- The endpoints at concrete inputs.
use visio_schema.Common.{
  ℕ, ◌+◌, ◌-◌, ◌≡◌, refl, Bool, true, false, List, [], ◌∷◌, ◌++◌, none, some, length, arith,
}
use visio_schema.Wire.Message.{Message}
use visio_schema.Transport.Queue.{
  QueueEndpoint, put, drain, filtered_out, shed, make_room, append_unless, send_all, run,
  wait_if_empty, pop_all, pop_batch, pop_from_empty,
}
use visio_schema.Transport.Queue
use visio_schema.Transport.Queue.Window.{
  freshest, admitted, sent_by, send_all-window, run-unbounded,
}

program : Unit {0}
unfolding filtered_out shed make_room append_unless Queue.send send_all Queue.run wait_if_empty
    pop_all pop_batch admitted sent_by Queue.init
program = tt

abbrev message : ℕ → Message Bool
message seq = record {
  stream_id = 17;
  payload = 4 ∷ [];
  seq = seq;
  timestamp = false;
  clock_authority_epoch = 0;
  clock_revision = 0;
  sync_point = none;
  keyframe = true;
}

abbrev other : Message Bool
other = record (message 9) { stream_id = 18 }

abbrev bounded : QueueEndpoint Bool
bounded = record { filter = some 17; max_depth = some 2; queue = []; dropped = 0 }

abbrev three : List (Message Bool)
three = message 1 ∷ other ∷ message 2 ∷ message 3 ∷ []

keeps_two :
    send_all bounded three ≡ record bounded { queue = message 2 ∷ message 3 ∷ []; dropped = 1 }
unfolding program
keeps_two = refl

send_all-window_example : send_all bounded three ≡ record bounded {
  queue = freshest 2 (admitted (some 17) three);
  dropped = 0 + (length (admitted (some 17) three) - 2);
}
send_all-window_example = send_all-window bounded 1 three refl (omega arith)

abbrev unbounded : QueueEndpoint Bool
unbounded = record { filter = some 17; max_depth = none; queue = message 0 ∷ []; dropped = 0 }

abbrev calls : List (Queue.Call Bool)
calls = put (message 1) ∷ drain ∷ put other ∷ put (message 2) ∷ []

received_so_far : (run unbounded calls).0 ≡ message 0 ∷ message 1 ∷ []
unfolding program
received_so_far = refl

run-unbounded_example :
    ((run unbounded calls).0 ++ (run unbounded calls).1.queue
      ≡ message 0 ∷ admitted (some 17) (sent_by calls))
    × ((run unbounded calls).1.dropped ≡ 0)
run-unbounded_example = run-unbounded unbounded calls refl
