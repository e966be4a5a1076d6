-- ===== src/Tests/Registry.antt =====
-- The registry at concrete inputs.
use visio_schema.Common.{
  ℕ, ◌+◌, ◌==◌, ◌≡◌, ◌≢◌, refl, Bool, true, false, if◌then◌else◌, nat_eq, string_eq, str_eq,
  str_eq_iff, String, List, [], ◌∷◌, Option, none, some, ok, err, All, length, arith,
}
use visio_schema.Common.Dict
use visio_schema.Common.Sets
use visio_schema.Wire.Message.{Message}
use visio_schema.Routing.Channel.{Channel}
use visio_schema.Routing.Registry.{
  Registry, DeviceInfo, Identity, output, duplicate_topic, init, declare, learn, learn_all,
  forget_one, forget, own_channels, look_up_all, declare_entries, declare_entry, put_channel,
  learn_or_log,
}
use visio_schema.Routing.Registry.Inbound.{on_announce, accept, row_of, resolved}
use visio_schema.Routing.Registry.Invariant.{IsValid, init-IsValid, learn_all-IsValid}
use visio_schema.Routing.Registry.Topics.{learn-lookup, learn-forget_stale, declare-replaces}
use visio_schema.Routing.Registry.Runs.{fresh, after, heard, declared, Run-topics}
use visio_schema.Routing.Registry.Rows.{IsRow, resolved-IsRow, data_count, resolved-count}

program : Unit {0}
unfolding init declare learn learn_all forget_one forget own_channels look_up_all declare_entries
    declare_entry put_channel learn_or_log on_announce accept row_of resolved Dict.get Dict.set
    Dict.pop Sets.add Sets.member Sets.discard data_count
program = tt

abbrev identity : Identity
identity = record {
  device_name = "ego";
  equipment_type = "";
  firmware_version = "1.0";
  hardware_revision = "b";
  serial = "1a2b";
  boot_unix_seconds = 0;
}

abbrev schema_of : String → List ℕ
schema_of name = 1 ∷ []

abbrev start : Registry
start = init schema_of identity (output "/imu" "Imu" ∷ [])

start-IsValid : IsValid start
start-IsValid = init-IsValid schema_of identity (output "/imu" "Imu" ∷ [])

abbrev camera : Channel
camera = record {
  id = 20;
  topic = "/camera";
  encoding = "protobuf";
  schema_name = "Image";
  schema = [];
  schema_encoding = "protobuf";
}

abbrev learned : Registry
learned = put_channel start camera

learn-camera : learn start camera ≡ ok learned
unfolding program
learn-camera = refl

learned-IsValid : IsValid (learn_all start (camera ∷ []))
learned-IsValid = learn_all-IsValid start (camera ∷ []) start-IsValid

abbrev known : Registry
known = learn_all start (camera ∷ [])

camera_known : Dict.get known.by_id 20 ≡ some camera
unfolding program
camera_known = refl

-- A run: an announce of one camera, a frame of it, a heartbeat, and a frame of no channel.
abbrev parse : List ℕ → Option DeviceInfo
parse payload = some (record { identity = identity; channels = camera ∷ [] })

abbrev on : ℕ → Message Bool
on id = record {
  stream_id = id;
  payload = [];
  seq = 0;
  timestamp = true;
  clock_authority_epoch = 0;
  clock_revision = 0;
  sync_point = none;
  keyframe = false;
}

abbrev traffic : List (Message Bool)
traffic = on 20 ∷ on 1 ∷ on 20 ∷ on 3 ∷ on 99 ∷ []

traffic_rows : (resolved parse start traffic).0 ≡ (some (on 20), camera) ∷ []
unfolding program
traffic_rows = refl

traffic_dropped : (resolved parse start traffic).1.dropped_unmapped ≡ 2
unfolding program
traffic_dropped = refl

learn-lookup_example :
    ((j : ℕ) → Dict.get learned.by_id j ≡ (if 20 == j then some camera else Dict.get start.by_id j))
    × ((t : String)
        → Dict.get learned.topic_to_id t
          ≡ (if str_eq "/camera" t then some 20 else Dict.get start.topic_to_id t))
    × (learn learned camera ≡ ok learned)
learn-lookup_example = learn-lookup start camera learn-camera

abbrev renamed : Channel
renamed = record camera { topic = "/camera/left" }

renamed_differs : camera.topic ≢ renamed.topic
unfolding program
renamed_differs = λ e. cc ((str_eq_iff "/camera" "/camera/left").1 e)

learn-renamed : learn learned renamed ≡ ok (put_channel learned renamed)
unfolding program
learn-renamed = refl

learn-forget_stale_example :
    learn (forget (put_channel learned renamed) (20 ∷ [])) (record camera { id = 30 })
    ≡ err duplicate_topic
learn-forget_stale_example =
    learn-forget_stale start camera renamed refl renamed_differs learn-camera learn-renamed
      (record camera { id = 30 }) refl (λ e. absurd (omega arith))

abbrev at_next : Registry
at_next = put_channel start (record camera { id = 17 })

next_taken : Dict.get at_next.by_id at_next.next_id ≡ some (record camera { id = 17 })
unfolding program
next_taken = refl

out_free : Dict.get at_next.topic_to_id "/out" ≡ none
unfolding program
out_free = refl

next_topic : Dict.get at_next.topic_to_id camera.topic ≡ some at_next.next_id
unfolding program
next_topic = refl

declare-replaces_example :
    let after : Registry = (declare at_next "/out" "A" [] "a" "b").1 in
    (new : Channel) × (Dict.get after.by_id at_next.next_id ≡ some new)
    × (new.topic ≡ "/out")
    × (new ≢ record camera { id = 17 })
    × (Dict.get after.topic_to_id "/out" ≡ some at_next.next_id)
    × (Dict.get after.topic_to_id camera.topic ≡ some at_next.next_id)
declare-replaces_example =
    declare-replaces at_next "/out" "A" [] "a" "b" (record camera { id = 17 }) next_taken next_topic
      out_free

resolved-IsRow_example :
    All (IsRow {T = Bool} parse) (resolved parse start traffic).0
    × IsValid (resolved parse start traffic).1
resolved-IsRow_example = resolved-IsRow parse start traffic start-IsValid

resolved-count_example :
    length (resolved parse start traffic).0 + (resolved parse start traffic).1.dropped_unmapped
    ≡ start.dropped_unmapped + data_count parse traffic
resolved-count_example = resolved-count parse start traffic

abbrev made : Registry
made = init schema_of identity []

abbrev before : Registry
before = (accept parse made (on 1)).1

abbrev final : Registry
final = (declare before "/out" "A" [] "a" "b").1

Run-topics_example :
    ((i j : ℕ) (a b : Channel)
      → Dict.get final.by_id i ≡ some a
      → Dict.get final.by_id j ≡ some b
      → a.topic ≡ b.topic
      → i ≡ j)
    × ((i : ℕ) (a : Channel) → Dict.get final.by_id i ≡ some a → a.id ≡ i)
    × ((chs : List Channel) × (own_channels final ≡ ok chs))
Run-topics_example =
    Run-topics Bool parse schema_of identity []
      (after (declared before "/out" "A" [] "a" "b") (after (heard made (on 1)) fresh))
