-- ===== src/Tests/Settings.antt =====
-- Sealed bodies at concrete inputs. In place of base64, a number is written as that many marks.
use Prim.Native.Char.{Char, char, nul}
use visio_schema.Common.{
  ℕ, zero, suc, ◌+◌, ◌≡◌, ◌↔◌, ◌⊎◌, refl, ap, ap₂, sym, ◌∙◌, Bool, true, false, String, List, [],
  ◌∷◌, none, some, ok, err, length, inl, arith,
}
use visio_schema.Common.Dict
use visio_schema.Settings.SealedBody.{
  object, null, Base64, SealedSecrets, after_epoch, type_error, put_if, text_value, device_items,
  devices_value, seconds_value, known, all_known, is_text, as_tuple, checked_secret,
  checked_serials, checked_seconds, require_length, require_recording_key, key_text,
  recording_key_value, old_key_value, to_body, canonical, checked_b64_key, some_key, read_text_key,
  read_recording_key, read_old_key, from_body, clears_recording_key, is_some, key_change,
  validate_recording_key_change,
}
use visio_schema.Settings.SealedBody.RoundTrip.{IsLawful, IsValid, from_body-to_body}
use visio_schema.Settings.SealedBody.Checks.{validate_recording_key_change_iff, from_body-IsValid}

mark : Char
mark = char 1 (omega arith)

marks : ℕ → String → String
marks zero rest = String.◌∷◌ nul rest
marks (suc n) rest = String.◌∷◌ mark (marks n rest)

write : List ℕ → String
write [] = ""
write (n ∷ ns) = marks n (write ns)

read : ℕ → String → List ℕ
read n String.[] = []
read n (String.◌∷◌ (char zero p) s) = n ∷ read 0 s
read n (String.◌∷◌ (char (suc k) p) s) = read (suc n) s

read-marks : (k n : ℕ) (rest : String) → read k (marks n rest) ≡ (k + n) ∷ read 0 rest
unfolding read marks mark
read-marks k zero rest = ap (λ (m : ℕ). m ∷ read 0 rest) (omega arith)
read-marks k (suc n) rest =
    read-marks (suc k) n rest ∙ ap (λ (m : ℕ). m ∷ read 0 rest) (omega arith)

read-write : (ns : List ℕ) → read 0 (write ns) ≡ ns
unfolding read write
read-write [] = refl
read-write (n ∷ ns) =
    read-marks 0 n (write ns)
    ∙ ap₂ (λ (m : ℕ) (xs : List ℕ). m ∷ xs) (let same : 0 + n ≡ n = omega arith in same)
        (read-write ns)

base : Base64
unfolding read write marks mark
base = record { encode = write; decode = λ s. some (read 0 s) }

base-IsLawful : IsLawful base
unfolding base write
base-IsLawful = record { decode-encode = λ bytes. ap some (read-write bytes); encode-nil = refl }

program : Unit {0}
unfolding base read write marks mark put_if text_value device_items devices_value seconds_value
    known all_known is_text as_tuple checked_secret checked_serials checked_seconds require_length
    require_recording_key key_text recording_key_value old_key_value to_body canonical
    checked_b64_key some_key read_text_key read_recording_key read_old_key from_body
    clears_recording_key is_some key_change validate_recording_key_change Dict.get Dict.set
program = tt

-- A code for one rig that clears the key.
abbrev old : List ℕ
old =
    1 ∷ 2 ∷ 3 ∷ 4 ∷ 1 ∷ 2 ∷ 3 ∷ 4 ∷ 1 ∷ 2 ∷ 3 ∷ 4 ∷ 1 ∷ 2 ∷ 3 ∷ 4 ∷ 1 ∷ 2 ∷ 3 ∷ 4 ∷ 1 ∷ 2 ∷ 3 ∷ 4
    ∷ 1 ∷ 2 ∷ 3 ∷ 4 ∷ 1 ∷ 2 ∷ 3 ∷ 4 ∷ []

abbrev secrets : SealedSecrets
secrets = record {
  storage_secret = some "s3cret";
  recording_key = some [];
  old_recording_key = some old;
  devices = "1a2b" ∷ [];
  expires_at = some (after_epoch 1786000000);
}

secrets-IsValid : IsValid secrets
secrets-IsValid = record {
  recording_key_length = λ key is_key. inl (cc);
  old_key_length = λ key is_key. (let same : old ≡ key = cc in ap length (sym same));
}

from_body-to_body_example : from_body base (to_body base secrets) ≡ ok secrets
from_body-to_body_example = from_body-to_body base base-IsLawful secrets secrets-IsValid

accepted : from_body base (to_body base secrets) ≡ ok secrets
unfolding program
accepted = refl

from_body-IsValid_example : IsValid secrets
from_body-IsValid_example = from_body-IsValid base (to_body base secrets) accepted

validate_recording_key_change_iff_example :
    (validate_recording_key_change secrets false ≡ ok tt) ↔ (
      (secrets.recording_key ≡ none)
      ⊎ (((k : List ℕ) × (secrets.old_recording_key ≡ some k))
          ⊎ (◌≡◌ {A = Bool} false true × (clears_recording_key secrets.recording_key ≡ false))))
validate_recording_key_change_iff_example = validate_recording_key_change_iff secrets false

-- A JSON object in the place of the device list, and a null.
dev_object_read :
    (from_body base (("dev", object ("uid" ∷ [])) ∷ [])
      ≡ ok (record {
        storage_secret = none;
        recording_key = none;
        old_recording_key = none;
        devices = "uid" ∷ [];
        expires_at = none;
      }))
    × (from_body base (("dev", null) ∷ []) ≡ err type_error)
unfolding program visio_schema.Settings.SealedBody.key_items
dev_object_read = (refl, refl)
