-- ===== src/Watermarks/Store.antt =====
-- The table `worker_watermarks` and its one upsert. Times are microseconds since the epoch. An id
-- is a ULID read as a number, 48 bits of milliseconds before 80 random bits: texts of one length in
-- Crockford's alphabet compare as these numbers do.
use afair.Prelude.{
  ℕ, ◌≡◌, inl, inr, String, str_eq, eq_iff, eq_refl, Bool, true, false, ◌&&◌, Option, none, some,
  List, [], ◌∷◌, ◌++◌, is_some, find?-append_one, find?-append_other, find?-update_disjoint, find?,
  update, ltb, if◌then◌else◌, arith, Option-cases, Bool-cases,
}

pub record WatermarkRow : Type 0 where
  pub worker : String
  pub through_created_at : ℕ
  pub through_id : ℕ
  pub updated_at : ℕ

abbrev pub Table : Type 0
Table = List WatermarkRow

abbrev pub is_worker : String → WatermarkRow → Bool
is_worker worker r = str_eq r.worker worker

unfoldable pub read_watermark : Table → String → Option (ℕ × ℕ)
read_watermark table worker = elim (find? (is_worker worker) table) [
  | none ↦ none
  | some row ↦ some (row.through_created_at, row.through_id)
]

unfoldable pub read_watermark_id : Table → String → Option ℕ
unfolding read_watermark
read_watermark_id table worker = elim (read_watermark table worker) [
  | none ↦ none
  | some wm ↦ some wm.1
]

-- INSERT … ON CONFLICT(worker) DO UPDATE … WHERE excluded.through_id > through_id.
unfoldable pub write_watermark :
    Table → (worker : String) (through_created_at through_id now : ℕ) → Table
write_watermark table worker through_created_at through_id now =
    if is_some (find? (is_worker worker) table)
    then update (λ r. is_worker worker r && ltb r.through_id through_id)
        (λ r. record r {
          through_created_at = through_created_at;
          through_id = through_id;
          updated_at = now;
        })
        table
    else table
      ++ record {
        worker = worker;
        through_created_at = through_created_at;
        through_id = through_id;
        updated_at = now;
      }
        ∷ []

-- The cursor after a write of `through_id` over a cursor that may be there.
abbrev pub advanced : Option ℕ → ℕ → ℕ
advanced none through_id = through_id
advanced (some old) through_id = if ltb old through_id then through_id else old

abbrev id_of : Option WatermarkRow → Option ℕ
id_of none = none
id_of (some row) = some row.through_id

module _ (worker : String) (at id now : ℕ) where
  abbrev forward : WatermarkRow → Bool
  forward r = is_worker worker r && ltb r.through_id id

  abbrev replaced : WatermarkRow → WatermarkRow
  replaced r = record r { through_created_at = at; through_id = id; updated_at = now }

  id_of-upsert :
      (table : Table)
      → is_some (find? (is_worker worker) table) ≡ true
      → id_of (find? (is_worker worker) (update forward replaced table))
        ≡ some (advanced (id_of (find? (is_worker worker) table)) id)
  unfolding find? update
  id_of-upsert [] e = absurd (ground arith)
  id_of-upsert (x ∷ xs) e = elim (Bool-cases (is_worker worker x)) [
    | inl here ↦ ground (arith, here)
    | inr there ↦ ground (arith, there, id_of-upsert xs)
  ]

  read_id :
      (table : Table) (w : String) → read_watermark_id table w ≡ id_of (find? (is_worker w) table)
  unfolding read_watermark_id
  read_id table w = ground arith

  -- A write moves the cursor of its worker forward or not at all, and no other worker's.
  pub read-write_watermark :
      (table : Table)
      → read_watermark_id (write_watermark table worker at id now) worker
        ≡ some (advanced (read_watermark_id table worker) id)
  unfolding write_watermark
  read-write_watermark table =
      let row : WatermarkRow = record {
        worker = worker;
        through_created_at = at;
        through_id = id;
        updated_at = now;
      } in
      rw (read_id (write_watermark table worker at id now) worker, read_id table worker)
        (elim (Option-cases (find? (is_worker worker) table)) [
          | inl absent ↦ ground (
            arith,
            absent,
            eq_refl worker,
            find?-append_one (is_worker worker) table row absent (eq_refl worker),
          )
          | inr (r, found) ↦ ground (arith, found, id_of-upsert table (rw found))
        ])

  pub read-write_watermark_other :
      (table : Table) (other : String)
      → str_eq other worker ≡ false
      → read_watermark_id (write_watermark table worker at id now) other
        ≡ read_watermark_id table other
  unfolding write_watermark
  read-write_watermark_other table other differ =
      let row : WatermarkRow = record {
        worker = worker;
        through_created_at = at;
        through_id = id;
        updated_at = now;
      } in
      rw (read_id (write_watermark table worker at id now) other, read_id table other)
        (ground (
          arith,
          eq_iff other worker,
          eq_iff worker other,
          find?-append_other (is_worker other) table row,
          find?-update_disjoint forward (is_worker other) replaced table (λ r e.
              ground (
                arith,
                differ,
                eq_iff r.worker worker,
                eq_iff r.worker other,
                eq_iff other worker,
              )),
        ))
