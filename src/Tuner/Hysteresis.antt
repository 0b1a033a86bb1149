-- ===== src/Tuner/Hysteresis.antt =====
-- The two thresholds of the mode switcher under recorded changes
-- (afair/agents/tunable_registry.py).
use afair.Prelude.{
  ℕ, ◌<◌, ◌≡◌, ◌≢◌, ◌∙◌, refl, ap, sym, subst, inl, inr, String, str_eq, eq_iff, eq_refl, true,
  false, ◌&&◌, some, List, arith, All, Bool-cases,
}
use afair.Tuner.State.{TunerEvent, changes, is_change, write}
use afair.Tuner.Active.{current_value-write}
use afair.Tuner.Number.{Number, nan, is_nan, is_nan-false, lt, lt-is_nan, le-lt}
use afair.Tuner.Values.{
  int, float, bool, text, nested, nothing, Value, scalar, dict, Json, numeric, float_of,
  float_of_value, or_default,
}
use afair.Tuner.Validate.{accepted}
use afair.Tuner.Whitelist.{cen_spec, dmn_spec}
use afair.Tuner.Recorded.{record_change_inv}
use afair.Tuner.Fresh.{
  IsFresh, cen_of, dmn_of, validate_cross_tunable-IsFresh, validate_cross_tunable-cen,
  validate_cross_tunable-dmn,
}
use afair.Tuner.Registry.{
  Registry, active, invalidate, mode_switcher, cen_threshold, dmn_threshold, validate_cross_tunable,
  Change, recorded, event_of, record_change,
}

pub rows-invalidate :
    (r : Registry) (worker tunable : String) → (invalidate r worker tunable).rows ≡ r.rows
unfolding invalidate
rows-invalidate r worker tunable = refl

module _ (j : Json) where
  float_of_default :
      (v default : Value) (p : Number) → float_of_value j v ≡ some p → or_default v default ≡ v
  unfolding float_of_value float_of numeric
  float_of_default (scalar (int n)) default p e = refl
  float_of_default (scalar (float n)) default p e = refl
  float_of_default (scalar (bool b)) default p e = refl
  float_of_default (scalar (text s)) default p e = refl
  float_of_default (scalar (nested s)) default p e = refl
  float_of_default (scalar nothing) default p e = absurd (ground (arith, e))
  float_of_default (dict items) default p e = refl

  -- The upper threshold that is in force lies above the lower one.
  pub record IsHysteretic (rows : List TunerEvent) : Type 0 where
    pub cen : Number
    pub dmn : Number
    pub cen_in_force : float_of_value j (cen_of j rows) ≡ some cen
    pub dmn_in_force : float_of_value j (dmn_of j rows) ≡ some dmn
    pub apart : lt dmn cen ≡ true

  not_nan :
      (v : Value) (p : Number)
      → float_of_value j v ≢ some nan
      → float_of_value j v ≡ some p
      → is_nan p ≡ false
  not_nan v p n e = is_nan-false p (λ x. n (e ∙ ap (λ y. some y) x))

  in_force-not_nan :
      (v : Value) (p q : Number)
      → is_nan q ≡ false
      → float_of_value j v ≡ some q
      → float_of_value j v ≡ some p
      → is_nan p ≡ false
  in_force-not_nan v p q n f e =
      let same : q ≡ p = ground (arith, e, f) in subst (λ x. is_nan x ≡ false) same n

  module _ (bytes : String → ℕ) (rows rows' : List TunerEvent) (c : Change) (id : String)
      (now : ℕ) where
    -- A row of a parameter sets its value.
    pub active-write_hit :
        (default : Value) (p : Number)
        → write bytes rows (event_of j c id now) ≡ some rows'
        → All (λ r. r.recorded_at < now) rows
        → is_change c.kind ≡ true
        → j.from_json (j.to_json c.new_value) ≡ c.new_value
        → float_of_value j c.new_value ≡ some p
        → active j rows' c.worker c.tunable default ≡ c.new_value
    active-write_hit default p w late k back e =
        let mine : changes c.worker c.tunable (event_of j c id now) ≡ true =
          ground (arith, k, eq_refl c.worker, eq_refl c.tunable) in
        ap (λ x. or_default (j.from_json x) default)
          (current_value-write bytes rows rows' (event_of j c id now) c.worker c.tunable w late
            ∙ rw mine refl)
        ∙ ap (λ x. or_default x default) back
        ∙ float_of_default c.new_value default p e

    active-write_other :
        (worker tunable : String) (default : Value)
        → write bytes rows (event_of j c id now) ≡ some rows'
        → All (λ r. r.recorded_at < now) rows
        → changes worker tunable (event_of j c id now) ≡ false
        → active j rows' worker tunable default ≡ active j rows worker tunable default
    active-write_other worker tunable default w late o =
        ap (λ x. or_default (j.from_json x) default)
          (current_value-write bytes rows rows' (event_of j c id now) worker tunable w late
            ∙ rw o refl)

    other_parameter :
        (worker tunable : String)
        → str_eq c.worker worker && str_eq c.tunable tunable ≡ false
        → changes worker tunable (event_of j c id now) ≡ false
    other_parameter worker tunable o = ground (arith, o)

    -- A change of the upper threshold that passed the cross check.
    cen-IsHysteretic :
        (r : Registry)
        → r.rows ≡ rows
        → IsFresh j r
        → c.worker ≡ mode_switcher
        → c.tunable ≡ cen_threshold
        → (validate_cross_tunable j r mode_switcher cen_threshold c.new_value).1 ≡ accepted
        → write bytes rows (event_of j c id now) ≡ some rows'
        → All (λ r. r.recorded_at < now) rows
        → is_change c.kind ≡ true
        → j.from_json (j.to_json c.new_value) ≡ c.new_value
        → float_of_value j c.new_value ≢ some nan
        → IsHysteretic rows
        → IsHysteretic rows'
    cen-IsHysteretic r same fresh w t a wrote late k back number h =
        let passed = validate_cross_tunable-cen j r c.new_value fresh a in
        let hit = active-write_hit cen_spec.default passed.0 wrote late k back passed.2 in
        let other =
          active-write_other mode_switcher dmn_threshold dmn_spec.default wrote late
            (other_parameter mode_switcher dmn_threshold (rw (w, t) refl)) in
        record {
          cen = passed.0;
          dmn = passed.1;
          cen_in_force =
              ap (λ x. float_of_value j x)
                (subst (λ x. active j rows' x cen_threshold cen_spec.default ≡ c.new_value) w
                  (subst (λ y. active j rows' c.worker y cen_spec.default ≡ c.new_value) t hit))
              ∙ passed.2;
          dmn_in_force =
              ap (λ x. float_of_value j x) other
              ∙ ap (λ x. float_of_value j (dmn_of j x)) (sym same)
              ∙ passed.3;
          apart =
              le-lt passed.0 passed.1 (not_nan c.new_value passed.0 number passed.2)
                (in_force-not_nan (dmn_of j r.rows) passed.1 h.dmn (lt-is_nan h.dmn h.cen h.apart).0
                  (ap (λ x. float_of_value j (dmn_of j x)) same ∙ h.dmn_in_force) passed.3)
                passed.4;
        }

    dmn-IsHysteretic :
        (r : Registry)
        → r.rows ≡ rows
        → IsFresh j r
        → c.worker ≡ mode_switcher
        → c.tunable ≡ dmn_threshold
        → (validate_cross_tunable j r mode_switcher dmn_threshold c.new_value).1 ≡ accepted
        → write bytes rows (event_of j c id now) ≡ some rows'
        → All (λ r. r.recorded_at < now) rows
        → is_change c.kind ≡ true
        → j.from_json (j.to_json c.new_value) ≡ c.new_value
        → float_of_value j c.new_value ≢ some nan
        → IsHysteretic rows
        → IsHysteretic rows'
    dmn-IsHysteretic r same fresh w t a wrote late k back number h =
        let passed = validate_cross_tunable-dmn j r c.new_value fresh a in
        let hit = active-write_hit dmn_spec.default passed.0 wrote late k back passed.2 in
        let other =
          active-write_other mode_switcher cen_threshold cen_spec.default wrote late
            (other_parameter mode_switcher cen_threshold (rw (w, t) refl)) in
        record {
          cen = passed.1;
          dmn = passed.0;
          cen_in_force =
              ap (λ x. float_of_value j x) other
              ∙ ap (λ x. float_of_value j (cen_of j x)) (sym same)
              ∙ passed.3;
          dmn_in_force =
              ap (λ x. float_of_value j x)
                (subst (λ x. active j rows' x dmn_threshold dmn_spec.default ≡ c.new_value) w
                  (subst (λ y. active j rows' c.worker y dmn_spec.default ≡ c.new_value) t hit))
              ∙ passed.2;
          apart =
              le-lt passed.1 passed.0
                (in_force-not_nan (cen_of j r.rows) passed.1 h.cen (lt-is_nan h.dmn h.cen h.apart).1
                  (ap (λ x. float_of_value j (cen_of j x)) same ∙ h.cen_in_force) passed.3)
                (not_nan c.new_value passed.0 number passed.2) passed.4;
        }

    -- A change of any other parameter.
    other-IsHysteretic :
        write bytes rows (event_of j c id now) ≡ some rows'
        → All (λ r. r.recorded_at < now) rows
        → str_eq c.worker mode_switcher && str_eq c.tunable cen_threshold ≡ false
        → str_eq c.worker mode_switcher && str_eq c.tunable dmn_threshold ≡ false
        → IsHysteretic rows
        → IsHysteretic rows'
    other-IsHysteretic wrote late n m h = record {
      cen = h.cen;
      dmn = h.dmn;
      cen_in_force =
          ap (λ x. float_of_value j x)
            (active-write_other mode_switcher cen_threshold cen_spec.default wrote late
              (other_parameter mode_switcher cen_threshold n))
          ∙ h.cen_in_force;
      dmn_in_force =
          ap (λ x. float_of_value j x)
            (active-write_other mode_switcher dmn_threshold dmn_spec.default wrote late
              (other_parameter mode_switcher dmn_threshold m))
          ∙ h.dmn_in_force;
      apart = h.apart;
    }

  passed_at :
      (r : Registry) (c : Change) {worker tunable : String}
      → c.worker ≡ worker
      → c.tunable ≡ tunable
      → (validate_cross_tunable j r c.worker c.tunable c.new_value).1 ≡ accepted
      → (validate_cross_tunable j r worker tunable c.new_value).1 ≡ accepted
  passed_at r c {worker} w u a =
      subst (λ y. (validate_cross_tunable j r worker y c.new_value).1 ≡ accepted) u
        (subst (λ x. (validate_cross_tunable j r x c.tunable c.new_value).1 ≡ accepted) w a)

  -- A promote or rollback to a value that is not NaN, once recorded, keeps the upper threshold of
  -- the mode switcher above the lower one, where the registry's cache agrees with the table, the row
  -- is later than all others, and the new value reads back as it was written.
  pub record_change-IsHysteretic :
      (bytes : String → ℕ) (r r' : Registry) (c : Change) (id : String) (now : ℕ)
      → record_change j bytes r c id now ≡ (r', recorded)
      → IsFresh j r
      → All (λ r. r.recorded_at < now) r.rows
      → is_change c.kind ≡ true
      → j.from_json (j.to_json c.new_value) ≡ c.new_value
      → float_of_value j c.new_value ≢ some nan
      → IsHysteretic r.rows
      → IsHysteretic r'.rows
  record_change-IsHysteretic bytes r r' c id now e fresh late k back number h =
      let inv = record_change_inv j bytes r r' c id now e in
      let crossed = validate_cross_tunable j r c.worker c.tunable c.new_value in
      let kept = validate_cross_tunable-IsFresh j r c.worker c.tunable c.new_value fresh in
      let rows = inv.1 in
      let wrote : write bytes r.rows (event_of j c id now) ≡ some rows =
        subst (λ x. write bytes x (event_of j c id now) ≡ some rows) kept.0 inv.5 in
      let end : r'.rows ≡ rows =
        ap (λ (x : Registry). x.rows) inv.6
        ∙ rows-invalidate (record crossed.0 { rows = rows }) c.worker c.tunable in
      subst IsHysteretic (sym end)
        (elim (Bool-cases (str_eq c.worker mode_switcher && str_eq c.tunable cen_threshold)) [
          | inl t ↦
              let w : c.worker ≡ mode_switcher =
                (eq_iff c.worker mode_switcher).0 (ground (arith, t)) in
              let u : c.tunable ≡ cen_threshold =
                (eq_iff c.tunable cen_threshold).0 (ground (arith, t)) in
              cen-IsHysteretic bytes r.rows rows c id now r refl fresh w u (passed_at r c w u inv.4)
                wrote late k back number h
          | inr n ↦
              elim (Bool-cases (str_eq c.worker mode_switcher && str_eq c.tunable dmn_threshold)) [
                | inr m ↦ other-IsHysteretic bytes r.rows rows c id now wrote late n m h
                | inl t ↦
                    let w : c.worker ≡ mode_switcher =
                      (eq_iff c.worker mode_switcher).0 (ground (arith, t)) in
                    let u : c.tunable ≡ dmn_threshold =
                      (eq_iff c.tunable dmn_threshold).0 (ground (arith, t)) in
                    dmn-IsHysteretic bytes r.rows rows c id now r refl fresh w u
                      (passed_at r c w u inv.4) wrote late k back number h
              ]
        ])
