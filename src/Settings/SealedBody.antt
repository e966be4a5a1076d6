-- ===== src/Settings/SealedBody.antt =====
-- python/visio_schema/settings_qr/sealed_body.py: the secrets of a settings code and their JSON body.
pub mod RoundTrip
pub mod Checks
use visio_schema.Common.{
  ℕ, ◌==◌, if◌then◌else◌, Bool, true, false, not, ◌&&◌, ◌||◌, String, str_eq, string_eq, List, [],
  ◌∷◌, Option, none, some, Result, ok, err, ◌>>=◌, ◌>>◌, raise_if, length,
}
use visio_schema.Common.Dict
use visio_schema.Common.Dict.{Dict}

-- A JSON list's element, and a JSON value as json.loads gives it: whole numbers n and -1 - n, an
-- object by its keys, and a float.
pub data Item : Type 0 where
  serial : String → Item
  other_item : Item

pub data Value : Type 0 where
  null : Value
  boolean : Bool → Value
  number : ℕ → Value
  negative : ℕ → Value
  text : String → Value
  items : List Item → Value
  object : List String → Value
  float : Value

pub data BodyError : Type 0 where
  value_error : BodyError
  type_error : BodyError
  change_refused : BodyError

-- base64url without padding, and the lenient decoder; they stand on the base64 module.
pub record Base64 : Type 0 where
  pub encode : List ℕ → String
  pub decode : String → Option (List ℕ)

pub data Seconds : Type 0 where
  after_epoch : ℕ → Seconds
  before_epoch : ℕ → Seconds

pub record SealedSecrets : Type 0 where
  pub storage_secret : Option String
  pub recording_key : Option (List ℕ)
  pub old_recording_key : Option (List ℕ)
  pub devices : List String
  pub expires_at : Option Seconds

unfoldable pub put_if : Dict String Value → String → Option Value → Dict String Value
put_if d k none = d
put_if d k (some v) = Dict.set d k v

unfoldable pub text_value : Option String → Option Value
text_value none = none
text_value (some s) = some (text s)

unfoldable pub device_items : List String → List Item
device_items [] = []
device_items (d ∷ ds) = serial d ∷ device_items ds

-- `if self.devices`
unfoldable pub devices_value : List String → Option Value
devices_value [] = none
devices_value (d ∷ ds) = some (items (device_items (d ∷ ds)))

unfoldable pub seconds_value : Option Seconds → Option Value
seconds_value none = none
seconds_value (some (after_epoch n)) = some (number n)
seconds_value (some (before_epoch n)) = some (negative n)

unfoldable pub known : String → Bool
known k = str_eq k "sk" || str_eq k "rk" || str_eq k "rko" || str_eq k "dev" || str_eq k "exp"

unfoldable pub all_known : Dict String Value → Bool
all_known [] = true
all_known ((k, v) ∷ d) = known k && all_known d

-- isinstance(devices, str)
unfoldable pub is_text : Option Value → Bool
is_text (some (text s)) = true
is_text _ = false

-- tuple(devices): an object gives its keys, and a value that cannot be iterated raises TypeError.
unfoldable pub key_items : List String → List Item
key_items [] = []
key_items (k ∷ ks) = serial k ∷ key_items ks

unfoldable pub as_tuple : Option Value → Result BodyError (List Item)
as_tuple none = ok []
as_tuple (some (items xs)) = ok xs
as_tuple (some (object ks)) = ok (key_items ks)
as_tuple (some (text s)) = err value_error
as_tuple (some null) = err type_error
as_tuple (some (boolean b)) = err type_error
as_tuple (some (number n)) = err type_error
as_tuple (some (negative n)) = err type_error
as_tuple (some float) = err type_error

unfoldable pub checked_secret : Option Value → Result BodyError (Option String)
checked_secret none = ok none
checked_secret (some null) = ok none
checked_secret (some (text s)) = ok (some s)
checked_secret (some _) = err value_error

unfoldable pub checked_serials : List Item → Result BodyError (List String)
checked_serials [] = ok []
checked_serials (serial d ∷ xs) = do ds ← checked_serials xs; ok (d ∷ ds)
checked_serials (other_item ∷ xs) = err value_error

unfoldable pub checked_seconds : Option Value → Result BodyError (Option Seconds)
checked_seconds none = ok none
checked_seconds (some null) = ok none
checked_seconds (some (number n)) = ok (some (after_epoch n))
checked_seconds (some (negative n)) = ok (some (before_epoch n))
checked_seconds (some _) = err value_error

-- _require_key_length, where the key may be absent.
unfoldable pub require_length : Option (List ℕ) → Result BodyError (Unit {0})
require_length none = ok tt
require_length (some key) = raise_if (not (length key == 32)) value_error

-- An empty recording key clears, and is not measured.
unfoldable pub require_recording_key : Option (List ℕ) → Result BodyError (Unit {0})
require_recording_key none = ok tt
require_recording_key (some []) = ok tt
require_recording_key (some (b ∷ bs)) = require_length (some (b ∷ bs))

module _ (b64 : Base64) where
  open b64 use {encode, decode}

  -- _b64(key) if key else ""
  unfoldable pub key_text : List ℕ → String
  key_text [] = ""
  key_text (b ∷ bs) = encode (b ∷ bs)

  unfoldable pub recording_key_value : Option (List ℕ) → Option Value
  recording_key_value none = none
  recording_key_value (some key) = some (text (key_text key))

  unfoldable pub old_key_value : Option (List ℕ) → Option Value
  old_key_value none = none
  old_key_value (some key) = some (text (encode key))

  unfoldable pub to_body : SealedSecrets → Dict String Value
  to_body s =
      put_if
        (put_if
          (put_if
            (put_if (put_if [] "sk" (text_value s.storage_secret)) "rk"
              (recording_key_value s.recording_key))
            "rko" (old_key_value s.old_recording_key))
          "dev" (devices_value s.devices))
        "exp" (seconds_value s.expires_at)

  unfoldable pub canonical : String → Option (List ℕ) → Result BodyError (List ℕ)
  canonical value none = err value_error
  canonical value (some raw) = if str_eq (encode raw) value then ok raw else err value_error

  unfoldable pub checked_b64_key : Value → Result BodyError (List ℕ)
  checked_b64_key (text s) = canonical s (decode s)
  checked_b64_key _ = err value_error

  unfoldable pub some_key : Value → Result BodyError (Option (List ℕ))
  some_key v = do key ← checked_b64_key v; ok (some key)

  unfoldable pub read_text_key : String → Result BodyError (Option (List ℕ))
  read_text_key s = if str_eq s "" then ok (some []) else some_key (text s)

  unfoldable pub read_recording_key : Option Value → Result BodyError (Option (List ℕ))
  read_recording_key none = ok none
  read_recording_key (some null) = ok none
  read_recording_key (some (text s)) = read_text_key s
  read_recording_key (some _) = err value_error

  unfoldable pub read_old_key : Option Value → Result BodyError (Option (List ℕ))
  read_old_key none = ok none
  read_old_key (some null) = ok none
  read_old_key (some (text s)) = some_key (text s)
  read_old_key (some _) = err value_error

  -- The fields in the order of the code, then the checks of `__post_init__`.
  unfoldable pub from_body : Dict String Value → Result BodyError SealedSecrets
  from_body body = do
    raise_if (not (all_known body)) value_error
    recording_key ← read_recording_key (Dict.get body "rk")
    raise_if (is_text (Dict.get body "dev")) value_error
    old_recording_key ← read_old_key (Dict.get body "rko")
    listed ← as_tuple (Dict.get body "dev")
    storage_secret ← checked_secret (Dict.get body "sk")
    require_recording_key recording_key
    require_length old_recording_key
    devices ← checked_serials listed
    expires_at ← checked_seconds (Dict.get body "exp")
    ok (record {
      storage_secret = storage_secret;
      recording_key = recording_key;
      old_recording_key = old_recording_key;
      devices = devices;
      expires_at = expires_at;
    })

unfoldable pub clears_recording_key : Option (List ℕ) → Bool
clears_recording_key (some []) = true
clears_recording_key _ = false

unfoldable pub is_some : Option (List ℕ) → Bool
is_some none = false
is_some (some key) = true

unfoldable pub key_change : Option (List ℕ) → Option (List ℕ) → Bool → Result BodyError (Unit {0})
key_change recording_key old_recording_key first_provision =
    if not (is_some recording_key)
    then ok tt
    else if is_some old_recording_key
    then ok tt
    else if clears_recording_key recording_key
    then err change_refused
    else raise_if (not first_provision) change_refused

unfoldable pub validate_recording_key_change : SealedSecrets → Bool → Result BodyError (Unit {0})
validate_recording_key_change s first_provision =
    key_change s.recording_key s.old_recording_key first_provision
