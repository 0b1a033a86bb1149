-- ===== src/Watermarks/Safety.antt =====
-- When the cursor of a worker among its rows is safe (afair/substrate/watermarks.py).
use afair.Prelude.{
  ℕ, ◌+◌, length, ◌≤◌, ◌<◌, ◌≡◌, refl, String, true, not, ◌||◌, Option, none, some, List, [], ◌∷◌,
  ◌++◌, ltb, arith, All, All-append_one,
}
use afair.Watermarks.Store.{read_watermark_id}
use afair.Watermarks.Frontier.{Row, lag_threshold_id}
use afair.Watermarks.Cycle.{
  salience_batch_limit, Phase, idle, captured, draining, World, above, contains,
}

-- A cursor, if there is one, lies below the bound.
abbrev pub Below : Option ℕ → ℕ → Type 0
Below none bound = Unit {0}
Below (some wm) bound = wm < bound

-- Every row of the worker's kinds at or below the cursor is handled.
abbrev pub Covered : Option ℕ → List ℕ → List Row → Type 0
Covered wm handled = All (λ r. (not r.taken || above wm r.id || contains r.id handled) ≡ true)

-- Every row is above the captured frontier, handled, or still to be handled.
abbrev pub Selected : ℕ → List ℕ → List ℕ → List Row → Type 0
Selected id handled rest =
    All (λ r. (not r.taken || ltb id r.id || contains r.id handled || contains r.id rest) ≡ true)

-- The captured frontier, if there is one, lies below the bound.
abbrev pub IsBehind : Option (ℕ × ℕ) → (bound : ℕ) → Type 0
IsBehind none bound = Unit {0}
IsBehind (some (at, id)) bound = id < bound

abbrev pub IsSelected : Option (ℕ × ℕ) → List ℕ → List ℕ → List Row → Type 0
IsSelected none handled rest rows = Unit {0}
IsSelected (some (at, id)) handled rest rows = Selected id handled rest rows

-- While the selection was not capped and no row of it was passed over, all rows up to the frontier
-- are handled or left.
abbrev pub PhaseIsSafe : Phase → (bound : ℕ) → List ℕ → List Row → Type 0
PhaseIsSafe idle bound handled rows = Unit {0}
PhaseIsSafe (captured f) bound handled rows = IsBehind f bound
PhaseIsSafe (draining f chosen scored rest) bound handled rows =
    IsBehind f bound
    × (scored + length rest ≤ chosen)
    × (chosen < salience_batch_limit
        → scored + length rest ≡ chosen
        → IsSelected f handled rest rows)

pub record IsSafe (worker : String) (s : World) : Type 0 where
  pub covered : Covered (read_watermark_id s.table worker) s.handled s.rows
  pub behind : Below (read_watermark_id s.table worker) (lag_threshold_id s.now)
  pub phase_safe : PhaseIsSafe s.phase (lag_threshold_id s.now) s.handled s.rows

pub All-map :
    (P Q : Row → Type 0) (rows : List Row) → ((r : Row) → P r → Q r) → All P rows → All Q rows
All-map P Q [] f h = tt
All-map P Q (r ∷ rs) f h = (f r h.0, All-map P Q rs f h.1)

pub Below-mono : (wm : Option ℕ) (a b : ℕ) → a ≤ b → Below wm a → Below wm b
Below-mono none a b h k = tt
Below-mono (some wm) a b h k = omega arith

IsBehind-mono : (f : Option (ℕ × ℕ)) (a b : ℕ) → a ≤ b → IsBehind f a → IsBehind f b
IsBehind-mono none a b h k = tt
IsBehind-mono (some (at, id)) a b h k = omega arith

pub PhaseIsSafe-mono :
    (p : Phase) (a b : ℕ) (handled : List ℕ) (rows : List Row)
    → a ≤ b
    → PhaseIsSafe p a handled rows
    → PhaseIsSafe p b handled rows
PhaseIsSafe-mono idle a b handled rows h k = tt
PhaseIsSafe-mono (captured f) a b handled rows h k = IsBehind-mono f a b h k
PhaseIsSafe-mono (draining f chosen scored rest) a b handled rows h k =
    (IsBehind-mono f a b h k.0, k.1, k.2)

IsSelected-commit :
    (f : Option (ℕ × ℕ)) (bound : ℕ) (handled rest : List ℕ) (rows : List Row) (row : Row)
    → bound ≤ row.id
    → IsBehind f bound
    → IsSelected f handled rest rows
    → IsSelected f handled rest (rows ++ row ∷ [])
IsSelected-commit none bound handled rest rows row h k s = tt
IsSelected-commit (some (at, id)) bound handled rest rows row h k s =
    All-append_one _ rows row s (ground arith)

-- A committing row is above whatever cursor or frontier is below the threshold.
pub PhaseIsSafe-commit :
    (p : Phase) (bound : ℕ) (handled : List ℕ) (rows : List Row) (row : Row)
    → bound ≤ row.id
    → PhaseIsSafe p bound handled rows
    → PhaseIsSafe p bound handled (rows ++ row ∷ [])
PhaseIsSafe-commit idle bound handled rows row h k = tt
PhaseIsSafe-commit (captured f) bound handled rows row h k = k
PhaseIsSafe-commit (draining f chosen scored rest) bound handled rows row h k =
    (k.0, k.1, λ few all. IsSelected-commit f bound handled rest rows row h k.0 (k.2 few all))

pub above-commit : (wm : Option ℕ) (bound id : ℕ) → bound ≤ id → Below wm bound → above wm id ≡ true
above-commit none bound id h k = refl
above-commit (some wm) bound id h k = ground arith
