-- ===== src/Tests/Diag.antt =====
-- Reads of a file of a device at concrete inputs.
use visio_schema.Common.{
  ℕ, ◌≡◌, refl, Bool, true, false, List, [], ◌∷◌, ◌++◌, flatten, nat_eq, string_eq,
}
use visio_schema.Wire.Diag.{
  Receive, quiet, reply, chunk, status, done_state, failed_state, returned, raised, declined, gap,
  replies, is_failed, is_failure, failure, list_loop, list_files, ends, abort_gap, progressed,
  misplaced, on_status, read_loop, read_file,
}
use visio_schema.Wire.Diag.Read.{IsSound, sent, read_file-piece}

program : Unit {0}
unfolding replies is_failed is_failure failure list_loop list_files ends abort_gap progressed
    misplaced on_status read_loop read_file sent
program = tt

abbrev part_at : ℕ → List ℕ → Bool → Receive
part_at offset content last = reply (record {
  session_id = 7;
  body = chunk (record { name = "a.vdlg"; offset = offset; content = content; last = last });
})

abbrev part_after : Receive
part_after = reply (record { session_id = 7; body = status done_state "" })

abbrev receives : List Receive
receives =
    part_at 1 (11 ∷ 12 ∷ []) false
    ∷ quiet false
    ∷ reply (record { session_id = 6; body = status done_state "" })
    ∷ part_at 3 (13 ∷ []) true
    ∷ part_after
    ∷ []

read-gap :
    read_file 7 "a.vdlg" 0 receives ≡ record { ending = raised gap; aborted = true; progress = [] }
unfolding program
read-gap = refl

list-failed :
    list_files 7 (reply (record { session_id = 7; body = status failed_state "" }) ∷ [])
    ≡ raised (declined "failed")
unfolding program
list-failed = refl

read_file-piece_example :
    (let r = read_file 7 "a.vdlg" 1 receives in
      IsSound (10 ∷ 11 ∷ 12 ∷ 13 ∷ []) 1 r.ending r.aborted)
    × ((read_file 7 "a.vdlg" 1
          (sent 7 "a.vdlg" 1 (11 ∷ 12 ∷ []) ((13 ∷ []) ∷ []) ++ part_after ∷ [])).ending
        ≡ returned (flatten ((11 ∷ 12 ∷ []) ∷ (13 ∷ []) ∷ [])))
read_file-piece_example =
    read_file-piece (10 ∷ 11 ∷ 12 ∷ 13 ∷ []) "a.vdlg" 7 1 receives (part_after ∷ []) (11 ∷ 12 ∷ [])
      ((13 ∷ []) ∷ []) ((λ _. λ _. refl), (tt, ((λ _. tt), ((λ _. λ _. refl), ((λ _. tt), tt)))))
