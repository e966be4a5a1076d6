-- ===== src/Tests/Codecs.antt =====
-- A concrete codec that keeps the promises of `IsLawful`: a checksum that is the sum of the
-- bytes, digits that are never zero in place of COBS, and fixed-width header fields.
use visio_schema.Common.{
  ℕ, zero, suc, ◌+◌, ◌-◌, ◌*◌, ◌/◌, ◌%◌, ◌<◌, ◌≡◌, ◌≢◌, refl, Bool, true, false, List, [], ◌∷◌,
  ◌++◌, Option, none, some, All, IsBytes-append, IsBytes, arith, take, drop,
}
use visio_schema.Wire.Header.{
  SyncPoint, Header, Fits, SyncPointFits, Codec, IsLawful, u32_limit, u64_limit,
}

-- n digits of x in base 256, and their value.
unfoldable pub digits : ℕ → ℕ → List ℕ
digits zero x = []
digits (suc n) x = (x % 256) ∷ digits n (x / 256)

unfoldable pub value : List ℕ → ℕ
value [] = 0
value (d ∷ ds) = d + 256 * value ds

unfoldable pub stuff : List ℕ → List ℕ
stuff [] = 1 ∷ []
stuff (b ∷ bs) = (b / 16 + 1) ∷ (b % 16 + 1) ∷ stuff bs

unfoldable pub unstuff : List ℕ → Option (List ℕ)
unstuff (hi ∷ lo ∷ bs) = elim (unstuff bs) [
  | none ↦ none
  | some out ↦ some (((hi - 1) * 16 + (lo - 1)) ∷ out)
]
unstuff (b ∷ []) = some []
unstuff [] = none

unstuff-stuff : (d : List ℕ) → unstuff (stuff d) ≡ some d
unfolding stuff unstuff
unstuff-stuff [] = refl
unstuff-stuff (b ∷ bs) = ground (arith, unstuff-stuff bs)

stuff-nonzero : (d : List ℕ) → All (λ b. 0 < b) (stuff d)
unfolding stuff
stuff-nonzero [] = (omega arith, tt)
stuff-nonzero (b ∷ bs) = (omega arith, (omega arith, stuff-nonzero bs))

stuff-ne-nil : (d : List ℕ) → stuff d ≢ []
unfolding stuff
stuff-ne-nil [] = λ e. cc
stuff-ne-nil (b ∷ bs) = λ e. cc

digits-IsBytes : (n x : ℕ) → IsBytes (digits n x)
unfolding digits
digits-IsBytes zero x = tt
digits-IsBytes (suc n) x = (omega arith, digits-IsBytes n (x / 256))

value-digits_four : (x : ℕ) → x < u32_limit → value (digits 4 x) ≡ x
unfolding value digits
value-digits_four x h = omega arith

value-digits_eight : (x : ℕ) → x < u64_limit → value (digits 8 x) ≡ x
unfolding value digits
value-digits_eight x h = omega arith

flag : Bool → ℕ
flag true = 1
flag false = 0

bool : ℕ → Bool
bool zero = false
bool (suc n) = true

write_sync : Option SyncPoint → List ℕ
write_sync none = 0 ∷ []
write_sync (some s) =
    1 ∷ (digits 8 s.authority_epoch ++ (digits 8 s.grid_generation ++ digits 8 s.frame_index))

read_sync : List ℕ → Option SyncPoint
read_sync [] = none
read_sync (zero ∷ bs) = none
read_sync (suc n ∷ bs) = some (record {
  authority_epoch = value (take 8 bs);
  grid_generation = value (take 8 (drop 8 bs));
  frame_index = value (take 8 (drop 16 bs));
})

read-write_sync : (s : Option SyncPoint) → SyncPointFits s → read_sync (write_sync s) ≡ s
unfolding read_sync write_sync digits
read-write_sync none h = refl
read-write_sync (some s) h = rw (
  value-digits_eight s.authority_epoch h.epoch_fits,
  value-digits_eight s.grid_generation h.generation_fits,
  value-digits_eight s.frame_index h.index_fits,
)

write_sync-IsBytes : (s : Option SyncPoint) → IsBytes (write_sync s)
unfolding write_sync
write_sync-IsBytes none = omega arith
write_sync-IsBytes (some s) = (
  omega arith,
  IsBytes-append (digits 8 s.authority_epoch) (digits 8 s.grid_generation ++ digits 8 s.frame_index)
      (digits-IsBytes 8 s.authority_epoch)
      (IsBytes-append (digits 8 s.grid_generation) (digits 8 s.frame_index)
        (digits-IsBytes 8 s.grid_generation) (digits-IsBytes 8 s.frame_index)),
)

-- The timestamp is a flag.
write : Header Bool → List ℕ
write h =
    digits 4 h.stream_id
    ++ (digits 4 h.seq
        ++ (flag h.timestamp
            ∷ (flag h.keyframe
                ∷ (digits 8 h.clock_authority_epoch
                    ++ (digits 4 h.clock_revision ++ write_sync h.sync_point)))))

read : List ℕ → Option (Header Bool)
read bs = some (record {
  stream_id = value (take 4 bs);
  seq = value (take 4 (drop 4 bs));
  timestamp = bool (value (take 1 (drop 8 bs)));
  keyframe = bool (value (take 1 (drop 9 bs)));
  clock_authority_epoch = value (take 8 (drop 10 bs));
  clock_revision = value (take 4 (drop 18 bs));
  sync_point = read_sync (drop 22 bs);
})

bool-flag : (b : Bool) → bool (value (flag b ∷ [])) ≡ b
unfolding bool flag value
bool-flag true = refl
bool-flag false = refl

read-write : (h : Header Bool) → Fits h → read (write h) ≡ some h
unfolding read write digits
read-write h f = rw (
  value-digits_four h.stream_id f.stream_id_fits,
  value-digits_four h.seq f.seq_fits,
  bool-flag h.timestamp,
  bool-flag h.keyframe,
  value-digits_eight h.clock_authority_epoch f.clock_epoch_fits,
  value-digits_four h.clock_revision f.clock_revision_fits,
  read-write_sync h.sync_point f.sync_point_fits,
)

flag-lt : (b : Bool) → flag b < 256
unfolding flag
flag-lt true = omega arith
flag-lt false = omega arith

write_tail : Header Bool → List ℕ
write_tail h =
    digits 8 h.clock_authority_epoch ++ (digits 4 h.clock_revision ++ write_sync h.sync_point)

write_tail-IsBytes : (h : Header Bool) → IsBytes (write_tail h)
unfolding write_tail
write_tail-IsBytes h =
    IsBytes-append (digits 8 h.clock_authority_epoch)
      (digits 4 h.clock_revision ++ write_sync h.sync_point)
      (digits-IsBytes 8 h.clock_authority_epoch)
      (IsBytes-append (digits 4 h.clock_revision) (write_sync h.sync_point)
        (digits-IsBytes 4 h.clock_revision) (write_sync-IsBytes h.sync_point))

write-IsBytes : (h : Header Bool) → IsBytes (write h)
unfolding write write_tail
write-IsBytes h =
    IsBytes-append (digits 4 h.stream_id)
      (digits 4 h.seq ++ (flag h.timestamp ∷ (flag h.keyframe ∷ write_tail h)))
      (digits-IsBytes 4 h.stream_id)
      (IsBytes-append (digits 4 h.seq) (flag h.timestamp ∷ (flag h.keyframe ∷ write_tail h))
        (digits-IsBytes 4 h.seq) (flag-lt h.timestamp, (flag-lt h.keyframe, write_tail-IsBytes h)))

sum : ℕ → List ℕ → ℕ
sum acc [] = acc % 65536
sum acc (b ∷ bs) = sum (acc + b) bs

sum-lt : (acc : ℕ) (d : List ℕ) → sum acc d < 65536
unfolding sum
sum-lt acc [] = omega arith
sum-lt acc (b ∷ bs) = sum-lt (acc + b) bs

unfoldable pub toy : Codec Bool
unfolding sum stuff unstuff write read digits value flag bool write_sync read_sync
toy = record {
  crc_hqx = λ d seed. sum seed d;
  cobs_encode = stuff;
  cobs_decode = unstuff;
  serialize = write;
  parse = read;
}

pub toy-IsLawful : IsLawful toy
unfolding toy
toy-IsLawful = record {
  crc_hqx-lt = λ d seed. sum-lt seed d;
  cobs_decode-encode = λ d _. unstuff-stuff d;
  cobs_encode-nonzero = λ d _. stuff-nonzero d;
  cobs_encode-ne-nil = stuff-ne-nil;
  serialize-IsBytes = λ h _. write-IsBytes h;
  parse-serialize = read-write;
}
