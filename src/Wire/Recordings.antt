-- ===== src/Wire/Recordings.antt =====
-- python/visio_schema/wire/recordings.py: the commands, their guards and their answers. A text is
-- the list of its UTF-8 bytes, and a field is in the range of its protobuf type.
pub mod Pull
pub mod Contents
pub mod Pulled
pub mod Ends
pub mod Pages
use visio_schema.Common.{
  ℕ, ◌+◌, ◌==◌, ltb, if◌then◌else◌, Bool, true, false, not, ◌&&◌, ◌||◌, List, [], ◌∷◌, Result, ok,
  err, ◌>>=◌, ◌>>◌, raise_if, length,
}

abbrev pub max_name_bytes : ℕ
max_name_bytes = 63

pub data RecordingsError : Type 0 where
  value_error : RecordingsError
  refused : List ℕ → RecordingsError
  protocol : RecordingsError
  no_progress : RecordingsError

pub record Pins : Type 0 where
  pub size : ℕ
  pub mtime_ns : ℕ
  pub object_version : ℕ
  pub catalogue_generation : ℕ

pub data Body : Type 0 where
  list_body : ℕ → List ℕ → List ℕ → Body
  open_body : List ℕ → List ℕ → ℕ → Pins → Body
  delete_body : List ℕ → Body

pub record Command : Type 0 where
  pub target_device : List ℕ
  pub body : Body

pub record RecordingEntry : Type 0 where
  pub name : List ℕ
  pub files : List (List ℕ × ℕ)

pub record RecordingsList : Type 0 where
  pub recordings : List RecordingEntry
  pub next_cursor : List ℕ
  pub catalogue_generation : ℕ

pub record RecordingFileOpen : Type 0 where
  pub port : ℕ
  pub offset : ℕ
  pub length : ℕ
  pub file_size : ℕ
  pub mtime_ns : ℕ
  pub object_version : ℕ
  pub catalogue_generation : ℕ

pub data Payload : Type 0 where
  recordings : RecordingsList → Payload
  file_open : RecordingFileOpen → Payload
  other_payload : Payload

pub record CommandResult : Type 0 where
  pub is_ok : Bool
  pub error_code : List ℕ
  pub payload : Payload

unfoldable pub contains : ℕ → List ℕ → Bool
contains b [] = false
contains b (x ∷ xs) = (x == b) || contains b xs

unfoldable pub starts_with_dot : List ℕ → Bool
starts_with_dot [] = false
starts_with_dot (x ∷ xs) = x == 46

unfoldable pub is_empty : List ℕ → Bool
is_empty [] = true
is_empty (x ∷ xs) = false

unfoldable pub check_name : Bool → List ℕ → Result RecordingsError (Unit {0})
check_name required name =
    if is_empty name
    then raise_if required value_error
    else if ltb max_name_bytes (length name)
    then err value_error
    else raise_if (contains 47 name || contains 0 name || starts_with_dot name) value_error

unfoldable pub list_recordings_command :
    ℕ → List ℕ → List ℕ → List ℕ → Result RecordingsError Command
list_recordings_command limit cursor session_name target_device =
    raise_if (ltb max_name_bytes (length cursor)) value_error
    >> check_name false session_name
    >> ok (record { target_device = target_device; body = list_body limit cursor session_name })

unfoldable pub open_recording_file_command :
    List ℕ → List ℕ → ℕ → Pins → List ℕ → Result RecordingsError Command
open_recording_file_command session_name file_name offset expect target_device =
    check_name true session_name
    >> check_name true file_name
    >> ok (record {
      target_device = target_device;
      body = open_body session_name file_name offset expect;
    })

unfoldable pub delete_recording_command : List ℕ → List ℕ → Result RecordingsError Command
delete_recording_command session_name target_device =
    check_name true session_name
    >> raise_if (is_empty target_device) value_error
    >> ok (record { target_device = target_device; body = delete_body session_name })

-- result.error_code or "failed"
unfoldable pub code_or_failed : List ℕ → List ℕ
code_or_failed [] = 102 ∷ 97 ∷ 105 ∷ 108 ∷ 101 ∷ 100 ∷ []
code_or_failed (b ∷ bs) = b ∷ bs

-- `_run`: the answer of the runner, or the device's refusal.
unfoldable pub run_command : CommandResult → Result RecordingsError CommandResult
run_command result =
    if result.is_ok then ok result else err (refused (code_or_failed result.error_code))

-- `_payload` for each payload that a caller wants.
unfoldable pub recordings_payload : Payload → Result RecordingsError RecordingsList
recordings_payload (recordings page) = ok page
recordings_payload (file_open opened) = err protocol
recordings_payload other_payload = err protocol

unfoldable pub file_open_payload : Payload → Result RecordingsError RecordingFileOpen
file_open_payload (recordings page) = err protocol
file_open_payload (file_open opened) = ok opened
file_open_payload other_payload = err protocol

-- opened.offset != offset or opened.offset + opened.length != opened.file_size
unfoldable pub check_open : ℕ → RecordingFileOpen → Result RecordingsError RecordingFileOpen
check_open offset opened =
    if not (opened.offset == offset) || not (opened.offset + opened.length == opened.file_size)
    then err protocol
    else ok opened

unfoldable pub same_name : List ℕ → List ℕ → Bool
same_name [] [] = true
same_name [] (b ∷ bs) = false
same_name (a ∷ rest) [] = false
same_name (a ∷ rest) (b ∷ bs) = (a == b) && same_name rest bs

-- len(page.recordings) != 1 or page.recordings[0].name != session_name
unfoldable pub the_session : List ℕ → List RecordingEntry → Result RecordingsError RecordingEntry
the_session session_name (entry ∷ []) =
    if same_name entry.name session_name then ok entry else err protocol
the_session session_name [] = err protocol
the_session session_name (entry ∷ other ∷ entries) = err protocol

module _ (run : Command → CommandResult) (target_device : List ℕ) where
  unfoldable pub list_recordings : ℕ → List ℕ → Result RecordingsError RecordingsList
  list_recordings limit cursor = do
    cmd ← list_recordings_command limit cursor [] target_device
    result ← run_command (run cmd)
    recordings_payload result.payload

  unfoldable pub list_session_files_with_generation :
      List ℕ → Result RecordingsError (RecordingEntry × ℕ)
  list_session_files_with_generation session_name = do
    cmd ← list_recordings_command 0 [] session_name target_device
    result ← run_command (run cmd)
    page ← recordings_payload result.payload
    entry ← the_session session_name page.recordings
    ok (entry, page.catalogue_generation)

  unfoldable pub open_recording_file :
      List ℕ → List ℕ → ℕ → Pins → Result RecordingsError RecordingFileOpen
  open_recording_file session_name file_name offset expect = do
    cmd ← open_recording_file_command session_name file_name offset expect target_device
    result ← run_command (run cmd)
    opened ← file_open_payload result.payload
    check_open offset opened

  unfoldable pub delete_recording : List ℕ → Result RecordingsError (Unit {0})
  delete_recording session_name = do
    cmd ← delete_recording_command session_name target_device
    result ← run_command (run cmd)
    ok tt
