-- ===== src/Wire/Recordings/Pages.antt =====
-- python/visio_schema/wire/recordings.py: `list_all_recordings`, which follows cursors page by page.
use visio_schema.Common.{
  ℕ, zero, suc, ◌+◌, ◌≤◌, ◌<◌, ◌≡◌, ◌≢◌, refl, sym, ap, ◌∙◌, if◌then◌else◌, Bool, true, false, ◌||◌,
  List, [], ◌∷◌, ◌++◌, ok, err, length, arith, Bool-cases, append-nil, append_assoc, inl, inr,
  Result-cases,
}
use visio_schema.Wire.Recordings.{
  RecordingsError, protocol, Command, CommandResult, RecordingEntry, RecordingsList, is_empty,
  same_name, list_recordings,
}

-- page.next_cursor in seen
unfoldable pub seen_before : List ℕ → List (List ℕ) → Bool
seen_before cursor [] = false
seen_before cursor (c ∷ seen) = same_name c cursor || seen_before cursor seen

pub data Listing : Type 0 where
  listed : List RecordingEntry → Listing
  failed : RecordingsError → Listing
  out_of_fuel : Listing

module _ (run : ℕ → Command → CommandResult) (target_device : List ℕ) (page_limit : ℕ) where
  unfoldable pub list_all_loop : ℕ → ℕ → List ℕ → List (List ℕ) → List RecordingEntry → Listing
  list_all_loop zero k cursor seen entries = out_of_fuel
  list_all_loop (suc fuel) k cursor seen entries =
      elim (list_recordings (run k) target_device page_limit cursor) [
        | err e ↦ failed e
        | ok page ↦
            let all : List RecordingEntry = entries ++ page.recordings in
            let rest = list_all_loop fuel (suc k) page.next_cursor (page.next_cursor ∷ seen) all in
            if is_empty page.next_cursor
            then listed all
            else if seen_before page.next_cursor seen
            then failed protocol
            else rest
      ]

  unfoldable pub list_all_recordings : ℕ → Listing
  list_all_recordings fuel = list_all_loop fuel 0 [] [] []

listed-injective : {xs ys : List RecordingEntry} → listed xs ≡ listed ys → xs ≡ ys
listed-injective same = cc

-- How many of the cursors have not been seen.
unfoldable pub unseen : List (List ℕ) → List (List ℕ) → ℕ
unseen [] seen = 0
unseen (c ∷ cursors) seen = (if seen_before c seen then 0 else 1) + unseen cursors seen

same_name_refl : (c : List ℕ) → same_name c c ≡ true
unfolding same_name
same_name_refl [] = refl
same_name_refl (b ∷ bs) = ground (arith, same_name_refl bs)

same_name-eq : (a b : List ℕ) → same_name a b ≡ true → a ≡ b
unfolding same_name
same_name-eq [] [] same = refl
same_name-eq [] (b ∷ bs) same = absurd (cc)
same_name-eq (a ∷ rest) [] same = absurd (cc)
same_name-eq (a ∷ rest) (b ∷ bs) same = ground (arith, same_name-eq rest bs)

unseen-le :
    (cursors seen : List (List ℕ)) (c : List ℕ) → unseen cursors (c ∷ seen) ≤ unseen cursors seen
unfolding unseen seen_before
unseen-le [] seen c = omega arith
unseen-le (d ∷ cursors) seen c = ground (arith, unseen-le cursors seen c)

-- A cursor that was not seen before is one fewer to see.
unseen-lt :
    (cursors seen : List (List ℕ)) (c : List ℕ)
    → seen_before c cursors ≡ true
    → seen_before c seen ≡ false
    → unseen cursors (c ∷ seen) < unseen cursors seen
unfolding unseen seen_before
unseen-lt [] seen c known fresh = absurd (cc)
unseen-lt (d ∷ cursors) seen c known fresh = elim (Bool-cases (same_name d c)) [
  | inl same ↦ ground (arith, same, same_name-eq d c, same_name_refl c, unseen-le cursors seen c)
  | inr different ↦ ground (arith, different, unseen-lt cursors seen c)
]

module _ (run : ℕ → Command → CommandResult) (target_device : List ℕ) (page_limit : ℕ) where
  -- The pages that the device answers from the k-th command on, each for the cursor of the one
  -- before it, up to the first page that names no next one.
  abbrev pub Follows : ℕ → List ℕ → List RecordingsList → Type 0
  Follows k cursor [] = ⊥
  Follows k cursor (page ∷ []) =
      (list_recordings (run k) target_device page_limit cursor ≡ ok page)
      × (is_empty page.next_cursor ≡ true)
  Follows k cursor (page ∷ next ∷ pages) =
      (list_recordings (run k) target_device page_limit cursor ≡ ok page)
      × (is_empty page.next_cursor ≡ false)
      × Follows (suc k) page.next_cursor (next ∷ pages)

  unfoldable pub entries_of : List RecordingsList → List RecordingEntry
  entries_of [] = []
  entries_of (page ∷ pages) = page.recordings ++ entries_of pages

  Follows-cons :
      (k : ℕ) (cursor : List ℕ) (page : RecordingsList) (pages : List RecordingsList)
      → list_recordings (run k) target_device page_limit cursor ≡ ok page
      → is_empty page.next_cursor ≡ false
      → Follows (suc k) page.next_cursor pages
      → Follows k cursor (page ∷ pages)
  Follows-cons k cursor page [] answered goes_on follows = absurd follows
  Follows-cons k cursor page (next ∷ pages) answered goes_on follows = (answered, goes_on, follows)

  list_all_loop-Follows :
      (fuel k : ℕ) (cursor : List ℕ) (seen : List (List ℕ)) (entries all : List RecordingEntry)
      → list_all_loop run target_device page_limit fuel k cursor seen entries ≡ listed all
      → (pages : List RecordingsList) × Follows k cursor pages × (all ≡ entries ++ entries_of pages)
  unfolding list_all_loop entries_of
  list_all_loop-Follows zero k cursor seen entries all done = absurd (cc)
  list_all_loop-Follows (suc fuel) k cursor seen entries all done =
      elim (Result-cases (list_recordings (run k) target_device page_limit cursor)) [
        | inr (e, refused) ↦ absurd (ground (arith, refused))
        | inl (page, answered) ↦ elim (Bool-cases (is_empty page.next_cursor)) [
          | inl last ↦ (
            page ∷ [],
            (answered, last),
            sym (listed-injective (rw (answered, list_all_loop, last) at done))
                ∙ ap (λ z. entries ++ z) (sym (append-nil page.recordings)),
          )
          | inr goes_on ↦ elim (Bool-cases (seen_before page.next_cursor seen)) [
            | inl again ↦ absurd (ground (arith, answered, goes_on, again))
            | inr fresh ↦
                let (pages, follows, joined) =
                  list_all_loop-Follows fuel (suc k) page.next_cursor (page.next_cursor ∷ seen)
                    (entries ++ page.recordings) all
                    (rw (answered, list_all_loop, goes_on, fresh) at done) in
                (
                  page ∷ pages,
                  Follows-cons k cursor page pages answered goes_on follows,
                  joined ∙ append_assoc entries page.recordings (entries_of pages),
                )
          ]
        ]
      ]

  -- If the device names no other cursors than those of a list, following them ends: one round more
  -- than the list is long is enough.
  list_all_loop-ends :
      (cursors : List (List ℕ)) (fuel k : ℕ) (cursor : List ℕ) (seen : List (List ℕ))
      (entries : List RecordingEntry)
      → ((k : ℕ) (at : List ℕ) (page : RecordingsList)
          → list_recordings (run k) target_device page_limit at ≡ ok page
          → is_empty page.next_cursor ≡ false
          → seen_before page.next_cursor cursors ≡ true)
      → unseen cursors seen < fuel
      → list_all_loop run target_device page_limit fuel k cursor seen entries ≢ out_of_fuel
  unfolding list_all_loop
  list_all_loop-ends cursors zero k cursor seen entries known enough = absurd (omega arith)
  list_all_loop-ends cursors (suc fuel) k cursor seen entries known enough =
      elim (Result-cases (list_recordings (run k) target_device page_limit cursor)) [
        | inr (e, refused) ↦ rw (refused, list_all_loop) (λ same. cc)
        | inl (page, answered) ↦ elim (Bool-cases (is_empty page.next_cursor)) [
          | inl last ↦ rw (answered, list_all_loop, last) (λ same. cc)
          | inr goes_on ↦ elim (Bool-cases (seen_before page.next_cursor seen)) [
            | inl again ↦ rw (answered, list_all_loop, goes_on, again) (λ same. cc)
            | inr fresh ↦
                rw (answered, list_all_loop, goes_on, fresh)
                  (list_all_loop-ends cursors fuel (suc k) page.next_cursor
                    (page.next_cursor ∷ seen) (entries ++ page.recordings) known
                    (omega (
                      arith,
                      enough,
                      unseen-lt cursors seen page.next_cursor (known k cursor page answered goes_on)
                          fresh,
                    )))
          ]
        ]
      ]

  unseen-length : (cursors : List (List ℕ)) → unseen cursors [] ≡ length cursors
  unfolding unseen seen_before
  unseen-length [] = refl
  unseen-length (c ∷ cursors) = omega (arith, unseen-length cursors)

  -- If the device names no other cursors than those of a list, following them ends, by a listing
  -- or an error: one round more than the list is long is enough. A listing is the entries of
  -- the pages that the cursors lead to, in order, up to the first page that names no next one.
  pub list_all_recordings_total :
      (cursors : List (List ℕ)) (fuel : ℕ)
      → ((k : ℕ) (at : List ℕ) (page : RecordingsList)
          → list_recordings (run k) target_device page_limit at ≡ ok page
          → is_empty page.next_cursor ≡ false
          → seen_before page.next_cursor cursors ≡ true)
      → length cursors < fuel
      → (list_all_recordings run target_device page_limit fuel ≢ out_of_fuel)
        × ((all : List RecordingEntry)
            → list_all_recordings run target_device page_limit fuel ≡ listed all
            → (pages : List RecordingsList) × Follows 0 [] pages × (all ≡ entries_of pages))
  unfolding list_all_recordings
  list_all_recordings_total cursors fuel known enough = (
    list_all_loop-ends cursors fuel 0 [] [] [] known (omega (arith, unseen-length cursors)),
    list_all_loop-Follows fuel 0 [] [] [],
  )
