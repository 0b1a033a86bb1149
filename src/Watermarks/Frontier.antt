-- ===== src/Watermarks/Frontier.antt =====
-- `_lag_threshold_id`, `frontier_events` and `frontier_interpretations`: how far a cursor may go.
use afair.Prelude.{
  ℕ, ◌+◌, ◌-◌, ◌*◌, ◌/◌, ◌≤◌, ◌<◌, ◌≡◌, inl, inr, Bool, Option, none, some, List, [], ◌∷◌, select,
  newest, ltb, arith, Option-cases,
}

abbrev pub frontier_lag_seconds : ℕ
frontier_lag_seconds = 60

-- 80 bits of randomness follow the milliseconds.
abbrev pub random_range : ℕ
random_range = 1208925819614629174706176

-- The least id of the millisecond that lies the lag before `now`.
unfoldable pub lag_threshold_id : ℕ → ℕ
lag_threshold_id now =
    let horizon = now - frontier_lag_seconds * 1000000 in
    let ms = horizon / 1000 in ms * random_range

-- A row of `events` or `interpretations`, as far as the frontier reads it, and whether it is of a
-- kind that the worker takes.
pub record Row : Type 0 where
  pub id : ℕ
  pub at : ℕ
  pub taken : Bool

-- SELECT … WHERE id < ? ORDER BY id DESC LIMIT 1: the two queries differ in the table.
unfoldable pub frontier : List Row → ℕ → Option (ℕ × ℕ)
frontier rows now = elim (newest (λ r. r.id) (select (λ r. ltb r.id (lag_threshold_id now)) rows)) [
  | none ↦ none
  | some row ↦ some (row.at, row.id)
]

pub lag_threshold_id_mono :
    (now later : ℕ) → now ≤ later → lag_threshold_id now ≤ lag_threshold_id later
unfolding lag_threshold_id
lag_threshold_id_mono now later h = omega arith

-- What commits within the lag of its minting is not below the threshold.
pub lag_threshold_id-le :
    (now minted gap id : ℕ)
    → gap ≤ frontier_lag_seconds * 1000000
    → minted / 1000 * random_range ≤ id
    → now ≤ minted + gap
    → lag_threshold_id now ≤ id
unfolding lag_threshold_id
lag_threshold_id-le now minted gap id h m g = omega arith

newest-select_below :
    (bound : ℕ) (rows : List Row) {r : Row}
    → newest (λ r. r.id) (select (λ r. ltb r.id bound) rows) ≡ some r
    → r.id < bound
unfolding newest select
newest-select_below bound [] e = absurd (ground arith)
newest-select_below bound (x ∷ xs) {r} e =
    elim (Option-cases (newest (λ r. r.id) (select (λ r. ltb r.id bound) xs))) [
      | inl last ↦ ground (arith, last)
      | inr (y, more) ↦ ground (arith, more, newest-select_below bound xs {r = y} more)
    ]

-- The frontier is older than the lag.
pub frontier-lt_threshold :
    (rows : List Row) (now at id : ℕ)
    → frontier rows now ≡ some (at, id)
    → id < lag_threshold_id now
unfolding frontier
frontier-lt_threshold rows now at id e =
    elim (Option-cases (newest (λ r. r.id) (select (λ r. ltb r.id (lag_threshold_id now)) rows))) [
      | inl absent ↦ absurd (ground (arith, absent))
      | inr (r, found) ↦
          ground (arith, found, newest-select_below (lag_threshold_id now) rows found)
    ]
