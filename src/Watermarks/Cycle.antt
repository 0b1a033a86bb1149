-- ===== src/Watermarks/Cycle.antt =====
-- A drain cycle of a worker among concurrent writers, as a step relation; read off `SalienceWorker.run`
-- of afair/agents/salience.py. The worker reads the frontier, then selects the newest of the
-- committed rows above its cursor that are not handled, up to its limit, goes through them one by
-- one, scoring a row or passing over one that fails, and writes the frontier as its cursor only when
-- fewer than the limit were selected and all of them were scored. Between any two of these steps the
-- clock goes on and writers commit rows: a writer mints its id from its clock, and commits at most
-- `gap` microseconds later. The worker may also end at any point.
use afair.Prelude.{
  ℕ, ◌+◌, ◌*◌, ◌/◌, ◌≤◌, ◌≡◌, String, Bool, true, false, not, ◌&&◌, ◌||◌, Option, none, some, List,
  [], ◌∷◌, ◌++◌, select, sort_by, take, length, ltb, ◌==◌,
}
use afair.Watermarks.Store.{Table, read_watermark_id, write_watermark}
use afair.Watermarks.Frontier.{Row, frontier, random_range}

unfoldable pub contains : ℕ → List ℕ → Bool
contains a [] = false
contains a (x ∷ xs) = x == a || contains a xs

abbrev pub salience_batch_limit : ℕ
salience_batch_limit = 200

-- What the worker holds while it runs: nothing, the frontier it captured, or that, how many rows it
-- selected, how many of them it has scored, and the ids that are left of its selection.
pub data Phase : Type 0 where
  idle : Phase
  captured : (frontier : Option (ℕ × ℕ)) → Phase
  draining : (frontier : Option (ℕ × ℕ)) → (chosen scored : ℕ) → List ℕ → Phase

pub record World : Type 0 where
  pub now : ℕ
  pub rows : List Row
  pub table : Table
  pub handled : List ℕ
  pub phase : Phase

-- `id > wm`, which holds of all ids while there is no cursor.
abbrev pub above : Option ℕ → ℕ → Bool
above none id = true
above (some wm) id = ltb wm id

unfoldable pub ids : List Row → List ℕ
ids [] = []
ids (r ∷ rs) = r.id ∷ ids rs

-- The candidates: rows of the worker's kinds above the cursor that have not reached a terminal state.
unfoldable pub candidates : Option ℕ → List ℕ → List Row → List Row
candidates wm handled rows =
    select (λ r. r.taken && above wm r.id && not (contains r.id handled)) rows

abbrev pub newest_first : Row → Row → Bool
newest_first x y = ltb y.at x.at

-- The selection: ORDER BY created_at DESC LIMIT.
unfoldable pub selection : Option ℕ → List ℕ → List Row → List ℕ
unfolding ids
selection wm handled rows =
    take salience_batch_limit (ids (sort_by newest_first (candidates wm handled rows)))

-- Whether the cursor may advance: the selection was not capped, and each of its rows was scored.
unfoldable pub drained : (chosen scored : ℕ) → Bool
drained chosen scored = ltb chosen salience_batch_limit && scored == chosen

pub data Step (worker : String) (gap : ℕ) (s t : World) : Type 0 where
  clock : (later : ℕ) → s.now ≤ later → t ≡ record s { now = later } → Step worker gap s t
  commit :
      (row : Row) (minted : ℕ)
      → minted / 1000 * random_range ≤ row.id
      → s.now ≤ minted + gap
      → t ≡ record s { rows = s.rows ++ row ∷ [] }
      → Step worker gap s t
  capture :
      s.phase ≡ idle
      → t ≡ record s { phase = captured (frontier s.rows s.now) }
      → Step worker gap s t
  choose :
      (f : Option (ℕ × ℕ)) (rest : List ℕ)
      → s.phase ≡ captured f
      → rest ≡ selection (read_watermark_id s.table worker) s.handled s.rows
      → t ≡ record s { phase = draining f (length rest) 0 rest }
      → Step worker gap s t
  score :
      (f : Option (ℕ × ℕ)) (chosen scored e : ℕ) (rest : List ℕ)
      → s.phase ≡ draining f chosen scored (e ∷ rest)
      → t ≡ record s { handled = e ∷ s.handled; phase = draining f chosen (scored + 1) rest }
      → Step worker gap s t
  -- The event is missing, its score fails the guard, or its write fails.
  pass_over :
      (f : Option (ℕ × ℕ)) (chosen scored e : ℕ) (rest : List ℕ)
      → s.phase ≡ draining f chosen scored (e ∷ rest)
      → t ≡ record s { phase = draining f chosen scored rest }
      → Step worker gap s t
  advance :
      (at id chosen scored : ℕ)
      → s.phase ≡ draining (some (at, id)) chosen scored []
      → drained chosen scored ≡ true
      → t ≡ record s { table = write_watermark s.table worker at id s.now; phase = idle }
      → Step worker gap s t
  stop : t ≡ record s { phase = idle } → Step worker gap s t

pub data Reach (worker : String) (gap : ℕ) (s : World) : World → Type 0 where
  here : Reach worker gap s s
  next : {t u : World} → Reach worker gap s t → Step worker gap t u → Reach worker gap s u
