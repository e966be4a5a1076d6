-- ===== src/Tests/Recorder.antt =====
-- The recording endpoint at concrete inputs.
use visio_schema.Common.{ℕ, ◌≡◌, refl, List, [], ◌∷◌, none, some, map}
use visio_schema.Common.Dict
use visio_schema.Mcap.Writer.{Record, McapWriter}
use visio_schema.Mcap.Writer as Writer
use visio_schema.Mcap.Writer.Contents as Contents
use visio_schema.Mcap.Writer.Contents.{contents}
use visio_schema.Mcap.Writer.Puts as Puts
use visio_schema.Mcap.Writer.Gathered as Gathered
use visio_schema.Mcap.Writer.Gathered.{gathered}
use visio_schema.Mcap.Endpoint as Endpoint
use visio_schema.Mcap.Endpoint.{
  Queued, Thread, waiting, busy, returned, died, McapWriterEndpoint, init, start, send,
  request_stop, take_batch, write_next, finish_stop, Step, started, sent, stop_requested, taken,
  written, joined,
}
use visio_schema.Mcap.Endpoint.Pending as Pending
use visio_schema.Mcap.Endpoint.Order as Order
use visio_schema.Mcap.Endpoint.Order.{Run, fresh, after, newest, Run-gathered}
use visio_schema.Mcap.Endpoint.Death.{Steps, stay, onward, write_next-raised}
use visio_schema.Tests.Writer.{
  api, api-Keeps, message, channel, nanoseconds, output, opened, opened_lem,
}

program : Unit {0}
unfolding Writer.file_name Writer.or_default Writer.reached Writer.expired Writer.replay
    Writer.open_part Writer.should_roll Writer.roll Writer.rolled Writer.schema_id_of
    Writer.same_schema Writer.channel_id_of Writer.add_message Writer.add_unless Writer.write_open
    Writer.write Writer.close Contents.schema_of Contents.channel_of Contents.named
    Contents.attributed Contents.rows Contents.noted Contents.found Contents.found_all
    Contents.contents Puts.asked_row Gathered.gathered Endpoint.spawn Endpoint.with_batch
    Endpoint.after_item Endpoint.in_hand Endpoint.init Endpoint.start Endpoint.send
    Endpoint.request_stop Endpoint.take_batch Endpoint.write_next Endpoint.finish_stop
    Endpoint.joinable Endpoint.wakes Pending.sent_in_time Order.heard Order.newest Dict.get Dict.set
program = tt

abbrev imu : Queued ℕ
imu = (channel "imu" "Imu", message 1)

abbrev camera : Queued ℕ
camera = (channel "cam" "Frame", message 2)

-- The topic of `imu` under another schema.
abbrev clash : Queued ℕ
clash = (channel "imu" "Frame", message 3)

abbrev E : Type 0
E = McapWriterEndpoint (List Record) ℕ

abbrev made : E
made = init opened

-- Two messages, the second one while the first is in the thread's batch, and one of an unknown
-- stream; then a stop.
abbrev first_sent : E
first_sent = send (start made) (some imu.0) imu.1

abbrev in_batch : E
in_batch = send (send (take_batch first_sent) (some camera.0) camera.1) none (message 7)

abbrev one_written : E
one_written = write_next api nanoseconds in_batch imu [] 1 1

abbrev second_batch : E
second_batch = take_batch (request_stop one_written)

abbrev drained : E
drained = take_batch (write_next api nanoseconds second_batch camera [] 2 2)

abbrev sent_items : List (Queued ℕ)
sent_items = imu ∷ camera ∷ []

batch-Run : Run api nanoseconds made (imu ∷ []) (take_batch first_sent)
unfolding program
batch-Run =
    after (after (after fresh (started refl) refl) (sent (some imu.0) imu.1) refl) (taken refl refl)
      refl

written-Run : Run api nanoseconds made sent_items one_written
unfolding program
written-Run =
    after
      (after (after batch-Run (sent (some camera.0) camera.1) refl) (sent none (message 7)) refl)
      (written imu [] 1 1 refl) refl

drained-Run : Run api nanoseconds made sent_items drained
unfolding program
drained-Run =
    after
      (after (after (after written-Run (stop_requested refl) refl) (taken refl refl) refl)
        (written camera [] 2 2 refl) refl)
      (taken refl refl) refl

drained-returned : drained.thread ≡ returned
unfolding program
drained-returned = refl

Run-gathered_example :
    gathered (contents api (finish_stop api nanoseconds drained).writer)
    ≡ map some (newest nanoseconds sent_items [])
Run-gathered_example =
    Run-gathered api nanoseconds api-Keeps (some 5) none output "" none 0 opened_lem drained-Run
      drained-returned

-- A clash after the first message, and then a message that is sent and never recorded.
abbrev after_clash : E
after_clash = write_next api nanoseconds one_written clash (camera ∷ []) 2 2

abbrev sent_later : E
sent_later = finish_stop api nanoseconds (request_stop (send after_clash (some imu.0) imu.1))

clash-Steps : Steps api nanoseconds after_clash sent_later
unfolding program
clash-Steps =
    onward (onward (onward stay (sent (some imu.0) imu.1)) (stop_requested refl)) (joined refl refl)

clash-raised :
    (Writer.write api nanoseconds one_written.writer clash.1 clash.0 2 2).1
    ≡ some (Writer.topic_conflict "imu" "Imu" "Frame")
unfolding program
clash-raised = refl

write_next-raised_example :
    contents api sent_later.writer
    ≡ contents api (Writer.write api nanoseconds one_written.writer clash.1 clash.0 2 2).0
write_next-raised_example =
    write_next-raised api nanoseconds api-Keeps one_written clash (camera ∷ []) 2 2 clash-raised
      clash-Steps
