-- ===== src/Transport/FramedFd/Link.antt =====
-- python/visio_schema/transport/link.py: one non-blocking read or write.
use visio_schema.Common.{ℕ, List, [], ◌∷◌, Option, none, some}

-- What os.write and os.read answer: a value, BlockingIOError, or another OSError.
pub data OsWrite : Type 0 where
  accepted : ℕ → OsWrite
  write_would_block : OsWrite
  write_failed : OsWrite

pub data OsRead : Type 0 where
  chunk : List ℕ → OsRead
  read_would_block : OsRead
  read_failed : OsRead

-- none where the source answers -1.
unfoldable pub write_some : OsWrite → Option ℕ
write_some (accepted n) = some n
write_some write_would_block = some 0
write_some write_failed = none

unfoldable pub read_some : OsRead → Option (List ℕ)
read_some (chunk []) = none
read_some (chunk (b ∷ bs)) = some (b ∷ bs)
read_some read_would_block = some []
read_some read_failed = none
