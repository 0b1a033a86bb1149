-- ===== src/Tuner/Modes.antt =====
-- Which mode of attention a cycle asks for, by the thresholds in force
-- (afair/agents/mode_switcher.py). Cumulative salience and surprise are in millionths.
use afair.Prelude.{
  ◌≡◌, ap, subst, inl, inr, ℤ, pos, ltb_ℤ, Bool, true, false, not, ◌&&◌, ◌||◌, Option, none, some,
  List, arith, Option-cases, Bool-cases, if◌then◌else◌,
}
use afair.Tuner.State.{TunerEvent}
use afair.Tuner.Number.{Number, finite, lt, le, lt-le}
use afair.Tuner.Values.{Json}
use afair.Tuner.Validate.{numeric_value}
use afair.Tuner.Allowed.{numeric_value-float_of_value}
use afair.Tuner.Hysteresis.{IsHysteretic}
use afair.Tuner.Fresh.{cen_of, dmn_of}

pub data Mode : Type 0 where
  cen dmn : Mode

abbrev pub is_cen : Mode → Bool
is_cen cen = true
is_cen dmn = false

abbrev pub surprise_cen_threshold : ℤ
surprise_cen_threshold = pos 10000000

abbrev pub surprise_dmn_threshold : ℤ
surprise_dmn_threshold = pos 5000000

-- `_decide_target_mode`.
unfoldable pub decide_target_mode :
    (current : Mode) (cumulative cumulative_surprise : ℤ) (cen_threshold dmn_threshold : Number)
    → Mode
decide_target_mode current cumulative cumulative_surprise cen_threshold dmn_threshold =
    let want_cen =
      le cen_threshold (finite cumulative)
      || not (ltb_ℤ cumulative_surprise surprise_cen_threshold) in
    let want_dmn =
      le (finite cumulative) dmn_threshold
      && not (ltb_ℤ surprise_dmn_threshold cumulative_surprise) in
    if not (is_cen current) && want_cen
    then cen
    else if is_cen current && want_dmn
    then dmn
    else current

abbrev decide_with :
    (current : Mode) (cumulative cumulative_surprise : ℤ)
    (cen_threshold dmn_threshold : Option Number)
    → Option Mode
decide_with current cumulative cumulative_surprise none d = none
decide_with current cumulative cumulative_surprise (some c) none = none
decide_with current cumulative cumulative_surprise (some c) (some d) =
    some (decide_target_mode current cumulative cumulative_surprise c d)

-- What `run` asks for, with the thresholds of a registry of its own; `none` is the TypeError of a
-- threshold that is no number.
unfoldable pub target_mode :
    Json → List TunerEvent → (current : Mode) (cumulative cumulative_surprise : ℤ) → Option Mode
target_mode j rows current cumulative cumulative_surprise =
    decide_with current cumulative cumulative_surprise (numeric_value (cen_of j rows))
      (numeric_value (dmn_of j rows))

decide_target_mode_stable :
    (current : Mode) (x s : ℤ) (c d : Number)
    → lt d c ≡ true
    → decide_target_mode (decide_target_mode current x s c d) x s c d
      ≡ decide_target_mode current x s c d
unfolding decide_target_mode
decide_target_mode_stable cen x s c d apart = elim (Bool-cases (le c (finite x))) [
  | inl up ↦ let calm = lt-le c d (finite x) apart up in ground (arith, up, calm)
  | inr low ↦ ground (arith, low)
]
decide_target_mode_stable dmn x s c d apart = elim (Bool-cases (le c (finite x))) [
  | inl up ↦ let calm = lt-le c d (finite x) apart up in ground (arith, up, calm)
  | inr low ↦ ground (arith, low)
]

-- The mode does not flap: while the upper threshold in force lies above the lower one, the mode that
-- a cycle asks for is the one that a further cycle with the same readings asks for.
pub target_mode_stable :
    (j : Json) (rows : List TunerEvent) (current m : Mode) (x s : ℤ)
    → IsHysteretic j rows
    → target_mode j rows current x s ≡ some m
    → target_mode j rows m x s ≡ some m
unfolding target_mode
target_mode_stable j rows current m x s h e = elim (Option-cases (numeric_value (cen_of j rows))) [
  | inl f ↦ absurd (ground (arith, f, e))
  | inr (c, f) ↦ elim (Option-cases (numeric_value (dmn_of j rows))) [
    | inl g ↦ absurd (ground (arith, f, g, e))
    | inr (d, g) ↦
        let c' : h.cen ≡ c =
          ground (arith, h.cen_in_force, numeric_value-float_of_value j (cen_of j rows) c f) in
        let d' : h.dmn ≡ d =
          ground (arith, h.dmn_in_force, numeric_value-float_of_value j (dmn_of j rows) d g) in
        let apart : lt d c ≡ true =
          subst (λ y. lt y c ≡ true) d' (subst (λ y. lt h.dmn y ≡ true) c' h.apart) in
        let asked : decide_target_mode current x s c d ≡ m = ground (arith, f, g, e) in
        let stable =
          subst (λ y. decide_target_mode y x s c d ≡ y) asked
            (decide_target_mode_stable current x s c d apart) in
        rw (f, g) (ap (λ y. some y) stable)
  ]
]
