-- ===== src/Watermarks/Tests.antt =====
-- A cycle of a worker, and the theorems at inputs that meet their hypotheses.
use afair.Prelude.{
  ◌≡◌, refl, true, some, sort_by, insert_by, [], ◌∷◌, find?, update, select, newest, arith,
}
use afair.Watermarks.Store.{read_watermark, read_watermark_id, write_watermark}
use afair.Watermarks.Frontier.{Row, lag_threshold_id, frontier}
use afair.Watermarks.Cycle.{
  idle, World, contains, ids, candidates, selection, drained, capture, choose, score, pass_over,
  advance, stop, Reach, here, next,
}
use afair.Watermarks.NeverSkip.{Reach-never_skips}

program : Unit {0}
unfolding read_watermark read_watermark_id write_watermark lag_threshold_id frontier contains ids
    candidates selection drained sort_by insert_by find? update select newest
program = tt

abbrev old_row : Row
old_row = record { id = 3; at = 1; taken = true }

abbrev start : World
start = record { now = 60001000; rows = old_row ∷ []; table = []; handled = []; phase = idle }

abbrev final : World
final = record start { table = write_watermark [] "salience" 1 3 60001000; handled = 3 ∷ [] }

-- A row fails in one cycle, and is scored in the next, which advances.
run : Reach "salience" 60000000 start final
unfolding program
run =
    let first : Reach "salience" 60000000 start start =
      next
        (next (next (next here (capture refl refl)) (choose (some (1, 3)) (3 ∷ []) refl refl refl))
          (pass_over (some (1, 3)) 1 0 3 [] refl refl))
        (stop refl) in
    next
      (next (next (next first (capture refl refl)) (choose (some (1, 3)) (3 ∷ []) refl refl refl))
        (score (some (1, 3)) 1 0 3 [] refl refl))
      (advance 1 3 1 1 refl refl refl)

Reach-never_skips_example : contains 3 (3 ∷ []) ≡ true
unfolding program
Reach-never_skips_example =
    Reach-never_skips "salience" 60000000 (omega arith) start final old_row [] [] 3 refl refl run
      refl refl refl (omega arith)
