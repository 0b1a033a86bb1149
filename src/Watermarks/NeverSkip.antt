-- ===== src/Watermarks/NeverSkip.antt =====
-- The never-skip contract: however cycles, writers and the clock interleave, a row at or below the
-- cursor has been handled.
use mathlib.Core.Path.{subst₂}
use afair.Prelude.{
  ℕ, ◌*◌, length, ◌≤◌, ◌<◌, ◌≡◌, sym, subst, String, true, none, some, List, [], ◌∷◌, ◌++◌, arith,
  All-append_one,
}
use afair.Watermarks.Store.{read_watermark_id, read-write_watermark}
use afair.Watermarks.Frontier.{
  Row, lag_threshold_id, lag_threshold_id_mono, lag_threshold_id-le, frontier_lag_seconds,
}
use afair.Watermarks.Cycle.{
  salience_batch_limit, Phase, idle, World, contains, Step, clock, commit, capture, choose, score,
  pass_over, advance, stop, Reach, here, next,
}
use afair.Watermarks.Safety.{
  Covered, IsSelected, PhaseIsSafe, IsSafe, Below-mono, PhaseIsSafe-mono, PhaseIsSafe-commit,
  above-commit,
}
use afair.Watermarks.Selection.{
  IsSelected-selection, IsSelected-handle, Covered-handle, Covered-advance, Below-advance,
  drained_all, IsBehind-frontier, Covered-none,
}

module _ (worker : String) (gap : ℕ) (short : gap ≤ frontier_lag_seconds * 1000000) where
  safe_phase :
      (s : World) {p : Phase}
      → s.phase ≡ p
      → IsSafe worker s
      → PhaseIsSafe p (lag_threshold_id s.now) s.handled s.rows
  safe_phase s e v =
      subst (λ q. PhaseIsSafe q (lag_threshold_id s.now) s.handled s.rows) e v.phase_safe

  Step-IsSafe : (s t : World) → Step worker gap s t → IsSafe worker s → IsSafe worker t
  Step-IsSafe s t (clock later h e) v =
      let up = lag_threshold_id_mono s.now later h in
      subst (IsSafe worker) (sym e) (record {
        covered = v.covered;
        behind = Below-mono _ _ _ up v.behind;
        phase_safe = PhaseIsSafe-mono s.phase _ _ s.handled s.rows up v.phase_safe;
      })
  Step-IsSafe s t (commit row minted m g e) v =
      let h = lag_threshold_id-le s.now minted gap row.id short m g in
      subst (IsSafe worker) (sym e) (record {
        covered =
            All-append_one _ s.rows row v.covered
              (ground (arith, above-commit (read_watermark_id s.table worker) _ row.id h v.behind));
        behind = v.behind;
        phase_safe = PhaseIsSafe-commit s.phase _ s.handled s.rows row h v.phase_safe;
      })
  Step-IsSafe s t (capture p e) v = subst (IsSafe worker) (sym e) (record {
    covered = v.covered;
    behind = v.behind;
    phase_safe = IsBehind-frontier s.rows s.now;
  })
  Step-IsSafe s t (choose f rest p chosen e) v =
      let safe = safe_phase s p v in
      subst (IsSafe worker) (sym e) (record {
        covered = v.covered;
        behind = v.behind;
        phase_safe = (
          safe,
          omega arith,
          λ few all.
              subst (λ l. IsSelected f s.handled l s.rows) (sym chosen)
                (IsSelected-selection _ f s.handled s.rows v.covered
                  (subst (λ l. length l < salience_batch_limit) chosen few)),
        );
      })
  Step-IsSafe s t (score f chosen scored x rest p e) v =
      let safe = safe_phase s p v in
      subst (IsSafe worker) (sym e) (record {
        covered = Covered-handle _ x s.handled s.rows v.covered;
        behind = v.behind;
        phase_safe = (
          safe.0,
          omega (arith, safe.1),
          λ few all. IsSelected-handle f x s.handled rest s.rows (safe.2 few (omega (arith, all))),
        );
      })
  Step-IsSafe s t (pass_over f chosen scored x rest p e) v =
      let safe = safe_phase s p v in
      subst (IsSafe worker) (sym e) (record {
        covered = v.covered;
        behind = v.behind;
        phase_safe =
            (safe.0, omega (arith, safe.1), λ few all. absurd (omega (arith, safe.1, all)));
      })
  Step-IsSafe s t (advance at id chosen scored p done e) v =
      let safe = safe_phase s p v in
      let all = drained_all chosen scored done in
      let wm = read_watermark_id s.table worker in
      let read = read-write_watermark worker at id s.now s.table in
      subst (IsSafe worker) (sym e) (record {
        covered = rw read (Covered-advance wm id s.handled s.rows v.covered (safe.2 all.0 all.1));
        behind = rw read (Below-advance wm id _ v.behind safe.0);
        phase_safe = tt;
      })
  Step-IsSafe s t (stop e) v =
      subst (IsSafe worker) (sym e)
        (record { covered = v.covered; behind = v.behind; phase_safe = tt })

  -- Whatever happens, the worker stays safe: every committed row at or below its cursor is handled,
  -- and the cursor stays behind the lag.
  pub Reach-IsSafe : (s t : World) → IsSafe worker s → Reach worker gap s t → IsSafe worker t
  Reach-IsSafe s t v here = v
  Reach-IsSafe s t v (next {t = u} r st) = Step-IsSafe u t st (Reach-IsSafe s u v r)

  handled_at :
      (wm : ℕ) (handled : List ℕ) (row : Row) (before after : List Row)
      → Covered (some wm) handled (before ++ row ∷ after)
      → row.taken ≡ true
      → row.id ≤ wm
      → contains row.id handled ≡ true
  handled_at wm handled row [] after c k h = ground (arith, c.0)
  handled_at wm handled row (r ∷ before) after c k h =
      handled_at wm handled row before after c.1 k h

  -- From a vault with no cursor, no row is ever skipped: a committed row of the worker's kinds whose
  -- id the cursor has passed has been handled.
  pub Reach-never_skips :
      (s t : World) (row : Row) (before after : List Row) (wm : ℕ)
      → read_watermark_id s.table worker ≡ none
      → s.phase ≡ idle
      → Reach worker gap s t
      → t.rows ≡ before ++ row ∷ after
      → read_watermark_id t.table worker ≡ some wm
      → row.taken ≡ true
      → row.id ≤ wm
      → contains row.id t.handled ≡ true
  Reach-never_skips s t row before after wm fresh idles reach there cursor taken passed =
      let start : IsSafe worker s = record {
        covered = rw fresh (Covered-none s.handled s.rows);
        behind = rw fresh tt;
        phase_safe = rw idles tt;
      } in
      let safe = Reach-IsSafe s t start reach in
      let covered : Covered (some wm) t.handled (before ++ row ∷ after) =
        subst₂ (λ c rows. Covered c t.handled rows) cursor there safe.covered in
      handled_at wm t.handled row before after covered taken passed
