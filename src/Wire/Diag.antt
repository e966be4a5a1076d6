-- ===== src/Wire/Diag.antt =====
-- python/visio_schema/wire/diag.py: the replies of a session, the catalogue and the read of a file.
-- A reply is given parsed; where the receives are at their end the call still waits.
pub mod Read
use visio_schema.Common.{
  ℕ, ◌+◌, ◌==◌, if◌then◌else◌, Bool, true, false, not, ◌||◌, String, str_eq, string_eq, nat_eq,
  List, [], ◌∷◌, ◌++◌, Result, ok, err, length,
}

pub record FileEntry : Type 0 where
  pub name : String
  pub size : ℕ
  pub bytes_valid : ℕ
  pub tier : ℕ

pub record DiagChunk : Type 0 where
  pub name : String
  pub offset : ℕ
  pub content : List ℕ
  pub last : Bool

pub data DiagState : Type 0 where
  done_state : DiagState
  failed_state : DiagState
  running_state : DiagState

pub data DiagBody : Type 0 where
  listing : List FileEntry → DiagBody
  chunk : DiagChunk → DiagBody
  status : DiagState → String → DiagBody
  no_body : DiagBody

pub record DiagReply : Type 0 where
  pub session_id : ℕ
  pub body : DiagBody

-- What one call of recv meets: nothing, and whether the deadline is past then, or a reply.
pub data Receive : Type 0 where
  quiet : Bool → Receive
  reply : DiagReply → Receive

pub data DiagError : Type 0 where
  timed_out : DiagError
  gap : DiagError
  declined : String → DiagError

pub data CallEnd (A : Type 0) : Type 0 where
  waiting : CallEnd A
  returned : A → CallEnd A
  raised : DiagError → CallEnd A

unfoldable pub replies : ℕ → List Receive → List (Result DiagError DiagBody)
replies session [] = []
replies session (quiet past ∷ rest) = if past then err timed_out ∷ [] else replies session rest
replies session (reply r ∷ rest) =
    if r.session_id == session then ok r.body ∷ replies session rest else replies session rest

unfoldable pub is_failed : DiagState → Bool
is_failed done_state = false
is_failed failed_state = true
is_failed running_state = false

unfoldable pub is_failure : DiagState → String → Bool
is_failure state code = not (str_eq code "") || is_failed state

unfoldable pub failure : {A : Type 0} → String → CallEnd A
failure code = raised (declined (if str_eq code "" then "failed" else code))

unfoldable pub list_loop : List (Result DiagError DiagBody) → CallEnd (List FileEntry)
list_loop [] = waiting
list_loop (err e ∷ rest) = raised e
list_loop (ok (listing files) ∷ rest) = returned files
list_loop (ok (chunk c) ∷ rest) = list_loop rest
list_loop (ok (status state code) ∷ rest) =
    if is_failure state code then failure code else list_loop rest
list_loop (ok no_body ∷ rest) = list_loop rest

unfoldable pub list_files : ℕ → List Receive → CallEnd (List FileEntry)
list_files session receives = list_loop (replies session receives)

-- How a read ends, whether an abort was sent, and what on_progress was told.
pub record Reading : Type 0 where
  pub ending : CallEnd (List ℕ)
  pub aborted : Bool
  pub progress : List ℕ

unfoldable pub ends : CallEnd (List ℕ) → Reading
ends ending = record { ending = ending; aborted = false; progress = [] }

unfoldable pub abort_gap : Reading
abort_gap = record { ending = raised gap; aborted = true; progress = [] }

unfoldable pub progressed : ℕ → Reading → Reading
progressed n r = record r { progress = n ∷ r.progress }

unfoldable pub misplaced : String → ℕ → DiagChunk → Bool
misplaced name expect c = not (str_eq c.name name) || not (c.offset == expect)

unfoldable pub on_status : DiagState → String → List ℕ → Reading → Reading
on_status done_state code out rest = ends (returned out)
on_status failed_state code out rest = ends (failure code)
on_status running_state code out rest = if str_eq code "" then rest else ends (failure code)

unfoldable pub read_loop : String → ℕ → List ℕ → List (Result DiagError DiagBody) → Reading
read_loop name expect out [] = ends waiting
read_loop name expect out (err e ∷ rs) = ends (raised e)
read_loop name expect out (ok (listing files) ∷ rs) = read_loop name expect out rs
read_loop name expect out (ok (chunk c) ∷ rs) =
    let joined : List ℕ = out ++ c.content in
    let rest = read_loop name (expect + length c.content) joined rs in
    if misplaced name expect c
    then abort_gap
    else progressed (length joined) (if c.last then ends (returned joined) else rest)
read_loop name expect out (ok (status state code) ∷ rs) =
    on_status state code out (read_loop name expect out rs)
read_loop name expect out (ok no_body ∷ rs) = read_loop name expect out rs

unfoldable pub read_file : ℕ → String → ℕ → List Receive → Reading
read_file session name offset receives = read_loop name offset [] (replies session receives)
