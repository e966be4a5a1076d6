-- ===== src/Mcap/Replay.antt =====
-- python/visio_schema/mcap/reader_endpoint.py: the source that replays a recording. The rows are
-- those of read_mcap; the delays of the pacing are left out, but for a stop that comes during one.
pub mod Known
pub mod Sync
pub mod Follow
pub mod Rows
pub mod Heard
use visio_schema.Common.{
  ℕ, if◌then◌else◌, Bool, true, false, ◌||◌, String, str_eq, string_eq, List, [], ◌∷◌, ◌++◌, Option,
  none, some, Result, ok, err,
}
use visio_schema.Common.Sets
use visio_schema.Wire.Message.{Message}
use visio_schema.Routing.Channel.{Channel, device_info}
use visio_schema.Routing.Registry.{
  Identity, DeviceInfo, Registry, RegistryError, declare, local_id_for, self_info, init,
}

abbrev pub device_info_topic : String
device_info_topic = "/device_info"

-- A row, and when a stop is seen: before it, or in the delay before its delivery.
pub record Played (T : Type 0) : Type 0 where
  pub recorded : Message T
  pub channel : Channel
  pub stopped_before : Bool
  pub stopped_in_delay : Bool

-- What the owner has received, whether the replay ran to the end, and what it raised.
pub record Replayed (T : Type 0) : Type 0 where
  pub inbound : List (Message T)
  pub to_end : Bool
  pub raised : Option RegistryError

unfoldable pub delivered : {T : Type 0} → List (Message T) → Replayed T → Replayed T
delivered inbound r = record r { inbound = inbound ++ r.inbound }

unfoldable pub left : {T : Type 0} → Option RegistryError → Replayed T
left raised = record { inbound = []; to_end = false; raised = raised }

unfoldable pub declared : Registry → Channel → Registry
declared reg ch = (declare reg ch.topic ch.schema_name ch.schema ch.encoding ch.schema_encoding).1

unfoldable pub renumbered : {T : Type 0} → Message T → ℕ → Message T
renumbered msg id = record {
  stream_id = id;
  payload = msg.payload;
  seq = msg.seq;
  timestamp = msg.timestamp;
  clock_authority_epoch = 0;
  clock_revision = 0;
  sync_point = none;
  keyframe = false;
}

-- The delivery of a row, given the id of its topic; `rest` is the replay of the other rows.
unfoldable pub deliver_row :
    {T : Type 0} → Played T → Result RegistryError ℕ → Replayed T → Replayed T
deliver_row row (err e) rest = left (some e)
deliver_row row (ok id) rest = delivered (renumbered row.recorded id ∷ []) rest

unfoldable pub paced : {T : Type 0} → Played T → Result RegistryError ℕ → Replayed T → Replayed T
paced row id rest = if row.stopped_in_delay then left none else deliver_row row id rest

-- `unstamped` is the timestamp of a message that is given none.
module _ {T : Type 0} (unstamped : T) (serialize : DeviceInfo → List ℕ) where
  unfoldable pub announce : DeviceInfo → Message T
  announce info = record {
    stream_id = device_info;
    payload = serialize info;
    seq = 0;
    timestamp = unstamped;
    clock_authority_epoch = 0;
    clock_revision = 0;
    sync_point = none;
    keyframe = false;
  }

  unfoldable pub announced : Result RegistryError DeviceInfo → Replayed T → Replayed T
  announced (err e) rest = left (some e)
  announced (ok info) rest = delivered (announce info ∷ []) rest

  unfoldable pub replay_loop : Registry → List String → List (Played T) → Replayed T
  replay_loop reg seen [] = record { inbound = []; to_end = true; raised = none }
  replay_loop reg seen (row ∷ rows) =
      let topic : String = row.channel.topic in
      let known : Bool = Sets.member topic seen in
      let next : Registry = if known then reg else declared reg row.channel in
      let skip : Bool = str_eq topic device_info_topic in
      let rest =
        replay_loop (if skip then reg else next)
          (if skip || known then seen else Sets.add topic seen) rows in
      if row.stopped_before
      then left none
      else if skip
      then rest
      else if known
      then paced row (local_id_for next topic) rest
      else announced (self_info next) (paced row (local_id_for next topic) rest)
