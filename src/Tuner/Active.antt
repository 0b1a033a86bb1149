-- ===== src/Tuner/Active.antt =====
-- The active value of a parameter, and the promotes that are still watched, after a row is written.
use afair.Prelude.{
  ℕ, ◌-◌, ◌<◌, ◌≡◌, inl, inr, String, true, false, not, ◌&&◌, some, List, [], ◌∷◌, ◌++◌, find?, ltb,
  if◌then◌else◌, arith, All, All-select, newest-select-append_one, select-append_other, Bool-cases,
}
use afair.Tuner.State.{TunerEvent, has_key, changes, is_change, is_promote, write, current_value}
use afair.Tuner.Monitor.{superseded, active_promotes, rollback_stale}

abbrev time : TunerEvent → ℕ
time r = r.recorded_at

write-append :
    (bytes : String → ℕ) (rows rows' : List TunerEvent) (event : TunerEvent)
    → write bytes rows event ≡ some rows'
    → rows' ≡ rows ++ event ∷ []
unfolding write
write-append bytes rows rows' event e = ground arith

-- A row that is later than all others sets the active value if it is a promote or rollback of the
-- parameter, and changes no active value otherwise.
pub current_value-write :
    (bytes : String → ℕ) (rows rows' : List TunerEvent) (event : TunerEvent)
    (worker tunable : String)
    → write bytes rows event ≡ some rows'
    → All (λ r. r.recorded_at < event.recorded_at) rows
    → current_value rows' worker tunable ≡ (
        if changes worker tunable event
        then event.new_value_json
        else current_value rows worker tunable)
unfolding current_value
current_value-write bytes rows rows' event worker tunable e h =
    let p = changes worker tunable in
    rw (write-append bytes rows rows' event e) (elim (Bool-cases (changes worker tunable event)) [
      | inl k ↦
          ground (arith, k, newest-select-append_one time (changes worker tunable) rows event h k)
      | inr k ↦ ground (arith, k, select-append_other (changes worker tunable) rows event k)
    ])

superseded_by :
    (rows : List TunerEvent) (event p : TunerEvent)
    → changes p.worker p.tunable event ≡ true
    → p.recorded_at < event.recorded_at
    → superseded (rows ++ event ∷ []) p ≡ true
unfolding superseded find?
superseded_by [] event p e h = ground (arith, e, h)
superseded_by (r ∷ rows) event p e h = ground (arith, superseded_by rows event p e h)

earlier :
    (rows : List TunerEvent) (event p : TunerEvent) (now : ℕ)
    → is_change event.kind ≡ true
    → is_promote p.kind
        && ltb (now - rollback_stale) p.recorded_at
        && not (superseded (rows ++ event ∷ []) p)
      ≡ true
    → has_key p.worker p.tunable event && ltb p.recorded_at event.recorded_at ≡ false
earlier rows event p now k h =
    elim (Bool-cases (has_key p.worker p.tunable event && ltb p.recorded_at event.recorded_at)) [
      | inr e ↦ e
      | inl e ↦
          absurd (
            ground
              (arith, h, superseded_by rows event p (ground (arith, e, k)) (ground (arith, e))))
    ]

-- Once a promote or rollback of a parameter is written, no earlier promote of that parameter is
-- watched any more, at any time: the monitor does not roll the same promote back twice.
pub active_promotes-write :
    (bytes : String → ℕ) (rows rows' : List TunerEvent) (event : TunerEvent) (now : ℕ)
    → write bytes rows event ≡ some rows'
    → is_change event.kind ≡ true
    → All
        (λ p. has_key p.worker p.tunable event && ltb p.recorded_at event.recorded_at ≡ false)
        (active_promotes rows' now)
unfolding active_promotes
active_promotes-write bytes rows rows' event now e k =
    rw (write-append bytes rows rows' event e)
      (All-select _ _ (rows ++ event ∷ []) (λ p h. earlier rows event p now k h))
