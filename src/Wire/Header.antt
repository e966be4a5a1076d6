-- ===== src/Wire/Header.antt =====
-- The wire header (proto/visio_schema/v1/wire/header.proto) and what the codec takes from
-- outside the repository: protobuf's serializer, binascii's CRC and the `cobs` package.
use visio_schema.Common.{ℕ, ◌<◌, ◌^◌, ◌≡◌, ◌≢◌, Bool, List, [], Option, none, some, All, IsBytes}

pub record SyncPoint : Type 0 where
  pub authority_epoch : ℕ
  pub grid_generation : ℕ
  pub frame_index : ℕ

-- `T` is google.protobuf.Timestamp, which the codec only copies.
pub record Header (T : Type 0) : Type 0 where
  pub stream_id : ℕ
  pub seq : ℕ
  pub timestamp : T
  pub keyframe : Bool
  pub clock_authority_epoch : ℕ
  pub clock_revision : ℕ
  pub sync_point : Option SyncPoint

abbrev pub u32_limit : ℕ
u32_limit = 2 ^ 32

abbrev pub u64_limit : ℕ
u64_limit = 2 ^ 64

pub record SyncFits (s : SyncPoint) : Type 0 where
  pub epoch_fits : s.authority_epoch < u64_limit
  pub generation_fits : s.grid_generation < u64_limit
  pub index_fits : s.frame_index < u64_limit

abbrev pub SyncPointFits : Option SyncPoint → Type 0
SyncPointFits none = Unit
SyncPointFits (some s) = SyncFits s

-- Each field lies in the range of its protobuf type, as the generated class enforces.
pub record Fits {T : Type 0} (h : Header T) : Type 0 where
  pub stream_id_fits : h.stream_id < u32_limit
  pub seq_fits : h.seq < u32_limit
  pub clock_epoch_fits : h.clock_authority_epoch < u64_limit
  pub clock_revision_fits : h.clock_revision < u32_limit
  pub sync_point_fits : SyncPointFits h.sync_point

-- The functions of the third-party packages that the codec calls. `none` is an exception.
pub record Codec (T : Type 0) : Type 0 where
  pub crc_hqx : List ℕ → ℕ → ℕ
  pub cobs_encode : List ℕ → List ℕ
  pub cobs_decode : List ℕ → Option (List ℕ)
  pub serialize : Header T → List ℕ
  pub parse : List ℕ → Option (Header T)

-- What their documentation promises.
pub record IsLawful {T : Type 0} (c : Codec T) : Type 0 where
  pub crc_hqx-lt : (d : List ℕ) (seed : ℕ) → c.crc_hqx d seed < 65536
  pub cobs_decode-encode : (d : List ℕ) → IsBytes d → c.cobs_decode (c.cobs_encode d) ≡ some d
  pub cobs_encode-nonzero : (d : List ℕ) → IsBytes d → All (λ b. 0 < b) (c.cobs_encode d)
  pub cobs_encode-ne-nil : (d : List ℕ) → c.cobs_encode d ≢ []
  pub serialize-IsBytes : (h : Header T) → Fits h → IsBytes (c.serialize h)
  pub parse-serialize : (h : Header T) → Fits h → c.parse (c.serialize h) ≡ some h
