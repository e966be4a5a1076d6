-- ===== src/Mcap/Writer/Gathered.antt =====
-- All rows of a recording, over its parts.
use visio_schema.Common.{
  ℕ, ◌≡◌, refl, sym, ap, ◌∙◌, Bool, true, false, if◌then◌else◌, String, List, [], ◌∷◌, ◌++◌, map,
  Option, none, some, arith,
}
use visio_schema.Mcap.Writer.{WriterError}
use visio_schema.Mcap.Writer.Contents.{Row, Found}
use visio_schema.Mcap.Writer.Spec.{
  Recording, Part, is_full, next_part, put_row, put_rolled, put, readable, parts,
}
use visio_schema.Mcap.Writer.Guards.{put-if}

-- All rows of a recording, the last one first.
unfoldable pub rows_in : List Part → List Row
rows_in [] = []
rows_in (part ∷ parts) = part.0 ++ rows_in parts

unfoldable pub all_rows : Recording → List Row
all_rows s = s.current ++ rows_in s.finished

-- All messages of the files, the last one first.
unfoldable pub gathered : List Found → List (Option Row)
gathered [] = []
gathered (f ∷ fs) = f.0 ++ gathered fs

map-append : (xs ys : List Row) → map some (xs ++ ys) ≡ map some xs ++ map some ys
map-append [] ys = refl
map-append (x ∷ xs) ys = ap (λ r. some x ∷ r) (map-append xs ys)

gathered-readable : (ps : List Part) → gathered (map readable ps) ≡ map some (rows_in ps)
unfolding gathered readable rows_in
gathered-readable [] = refl
gathered-readable ((rows, noted) ∷ ps) =
    ap (λ r. map some rows ++ r) (gathered-readable ps) ∙ sym (map-append rows (rows_in ps))

pub gathered-parts : (s : Recording) → gathered (parts s) ≡ map some (all_rows s)
unfolding gathered parts all_rows readable
gathered-parts s =
    ap (λ r. map some s.current ++ r) (gathered-readable s.finished)
    ∙ sym (map-append s.current (rows_in s.finished))

put_row-rows :
    (s : Recording) (row : Row) (bound : Option String)
    → (put_row s row bound).1 ≡ none
    → all_rows (put_row s row bound).0 ≡ row ∷ all_rows s
unfolding put_row all_rows
put_row-rows s row none kept = refl
put_row-rows s row (some name) kept = ground (arith, kept)

next_part-rows : (now : ℕ) (s : Recording) → all_rows (next_part now s) ≡ all_rows s
unfolding next_part all_rows rows_in
next_part-rows now s = refl

rolled-rows :
    (full : Bool) (now : ℕ) (s : Recording)
    → all_rows (if full then next_part now s else s) ≡ all_rows s
rolled-rows true now s = next_part-rows now s
rolled-rows false now s = refl

pub put-rows :
    (max_bytes max_duration : Option ℕ) (s : Recording) (row : Row) (checked opened : ℕ)
    → s.is_closed ≡ false
    → (put max_bytes max_duration s row checked opened).1 ≡ none
    → all_rows (put max_bytes max_duration s row checked opened).0 ≡ row ∷ all_rows s
unfolding put_rolled
put-rows max_bytes max_duration s row checked opened live kept =
    let same = put-if max_bytes max_duration s row checked opened live in
    ap (λ r. all_rows r.0) same
    ∙ put_row-rows _ row _ (sym (ap (λ r. r.1) same) ∙ kept)
    ∙ ap (λ r. row ∷ r) (rolled-rows (is_full max_bytes max_duration checked s) opened s)

put_row-refused :
    (s : Recording) (row : Row) (bound : Option String) {e : WriterError}
    → (put_row s row bound).1 ≡ some e
    → all_rows (put_row s row bound).0 ≡ all_rows s
unfolding put_row all_rows
put_row-refused s row none refused = absurd (cc)
put_row-refused s row (some name) refused = ground (arith, refused)

-- A refused row changes none of the rows.
pub put-refused :
    (max_bytes max_duration : Option ℕ) (s : Recording) (row : Row) (checked opened : ℕ)
    {e : WriterError}
    → s.is_closed ≡ false
    → (put max_bytes max_duration s row checked opened).1 ≡ some e
    → all_rows (put max_bytes max_duration s row checked opened).0 ≡ all_rows s
unfolding put_rolled
put-refused max_bytes max_duration s row checked opened live refused =
    let same = put-if max_bytes max_duration s row checked opened live in
    ap (λ r. all_rows r.0) same
    ∙ put_row-refused _ row _ (sym (ap (λ r. r.1) same) ∙ refused)
    ∙ rolled-rows (is_full max_bytes max_duration checked s) opened s

put_row-is_closed :
    (s : Recording) (row : Row) (bound : Option String)
    → (put_row s row bound).0.is_closed ≡ s.is_closed
unfolding put_row
put_row-is_closed s row none = refl
put_row-is_closed s row (some name) = ground arith

rolled-is_closed :
    (full : Bool) (now : ℕ) (s : Recording)
    → (if full then next_part now s else s).is_closed ≡ s.is_closed
unfolding next_part
rolled-is_closed true now s = refl
rolled-is_closed false now s = refl

pub put-is_closed :
    (max_bytes max_duration : Option ℕ) (s : Recording) (row : Row) (checked opened : ℕ)
    → s.is_closed ≡ false
    → (put max_bytes max_duration s row checked opened).0.is_closed ≡ false
unfolding put_rolled
put-is_closed max_bytes max_duration s row checked opened live =
    ap (λ r. r.0.is_closed) (put-if max_bytes max_duration s row checked opened live)
    ∙ put_row-is_closed _ row _
    ∙ rolled-is_closed (is_full max_bytes max_duration checked s) opened s
    ∙ live
