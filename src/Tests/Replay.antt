-- ===== src/Tests/Replay.antt =====
-- The replay of a recording at concrete inputs.
use visio_schema.Common.{
  ℕ, ◌==◌, ◌≡◌, refl, sym, subst, All, if◌then◌else◌, false, String, List, [], ◌∷◌, Option, none,
  some, length, map, nat_eq, string_eq,
}
use visio_schema.Common.Dict
use visio_schema.Common.Sets
use visio_schema.Routing.Channel.{Channel}
use visio_schema.Routing.Registry as Registry
use visio_schema.Routing.Registry.{Identity, DeviceInfo, init}
use visio_schema.Routing.Registry.Inbound.{resolved}
use visio_schema.Mcap.Replay as Replay
use visio_schema.Mcap.Replay.{Played, replay_loop}
use visio_schema.Mcap.Replay.Rows as Rows
use visio_schema.Mcap.Replay.Rows.{view, recorded_rows, infos, Parses}
use visio_schema.Mcap.Replay.Heard.{replay_loop-heard}

program : Unit {0}
unfolding Registry.alloc Registry.declare_new Registry.declare Registry.local_id_for
    Registry.look_up_all Registry.own_channels Registry.self_info Registry.declare_entries
    Registry.init Replay.delivered Replay.left Replay.declared Replay.announce Replay.renumbered
    Replay.deliver_row Replay.paced Replay.announced Replay.replay_loop Rows.info_of Rows.view
    Rows.recorded_rows Rows.infos Dict.get Dict.set Sets.member Sets.add
program = tt

abbrev schemas : String → List ℕ
schemas name = []

abbrev identity : String → Identity
identity name = record {
  device_name = name;
  equipment_type = "";
  firmware_version = "";
  hardware_revision = "";
  serial = "";
  boot_unix_seconds = 0;
}

abbrev channel : ℕ → String → Channel
channel id topic = record {
  id = id;
  topic = topic;
  encoding = "protobuf";
  schema_name = "Imu";
  schema = [];
  schema_encoding = "protobuf";
}

abbrev row : ℕ → String → Played ℕ
row seq topic = record {
  recorded = record {
    stream_id = 3;
    payload = seq ∷ [];
    seq = seq;
    timestamp = 100;
    clock_authority_epoch = 0;
    clock_revision = 0;
    sync_point = none;
    keyframe = false;
  };
  channel = channel 3 topic;
  stopped_before = false;
  stopped_in_delay = false;
}

abbrev rows : List (Played ℕ)
rows = row 1 "/a" ∷ row 2 "/device_info" ∷ row 3 "/b" ∷ row 4 "/a" ∷ []

abbrev first_info : DeviceInfo
first_info = record { identity = identity "replay"; channels = channel 16 "/a" ∷ [] }

abbrev second_info : DeviceInfo
second_info = record {
  identity = identity "replay";
  channels = channel 17 "/b" ∷ channel 16 "/a" ∷ [];
}

-- The number of channels stands for the message.
abbrev serialize : DeviceInfo → List ℕ
serialize info = length info.channels ∷ []

abbrev parse : List ℕ → Option DeviceInfo
parse [] = none
parse (n ∷ bytes) = if n == 1 then some first_info else if n == 2 then some second_info else none

replayed-rows :
    recorded_rows rows
    ≡ some ("/a", 1, 100, 1 ∷ []) ∷ some ("/b", 3, 100, 3 ∷ []) ∷ some ("/a", 4, 100, 4 ∷ []) ∷ []
unfolding program
replayed-rows = refl

infos-first : infos (init schemas (identity "replay") []) [] rows ≡ first_info ∷ second_info ∷ []
unfolding program
infos-first = refl

infos-Parses :
    All (Parses {T = ℕ} 0 serialize parse) (infos (init schemas (identity "replay") []) [] rows)
infos-Parses = subst (All (Parses {T = ℕ} 0 serialize parse)) (sym infos-first) (refl, (refl, tt))

replay_loop-heard_example :
    (map view
        (resolved parse
          (init schemas (identity "bus") [])
          (replay_loop 0 serialize (init schemas (identity "replay") []) [] rows).inbound).0
      ≡ recorded_rows rows)
    × ((replay_loop 0 serialize (init schemas (identity "replay") []) [] rows).raised ≡ none)
replay_loop-heard_example =
    replay_loop-heard 0 serialize parse schemas (identity "replay") (identity "bus") rows
      infos-Parses
