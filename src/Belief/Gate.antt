-- ===== src/Belief/Gate.antt =====
-- What the trust gate and the durable-predicate gate promise.
use afair.Prelude.{
  ℕ, ◌≤◌, ◌≡◌, refl, String, Bool, true, false, Option, none, some, List, [], ◌∷◌, arith,
}
use afair.Belief.Predicates.{Words, is_aux, strip_aux, predicate_is_durable}
use afair.Belief.Trust.{Entrenchment, level, assertion_entrenchment, auto_confirm}

-- A predicate that no auxiliary can be taken from: none, one word, or one that starts otherwise.
abbrev pub IsStripped : List String → Type 0
IsStripped [] = Unit {0}
IsStripped (w ∷ []) = Unit {0}
IsStripped (w ∷ v ∷ rest) = is_aux w ≡ false

-- What a caller writes under who asserts a memory cannot change whether an edge is confirmed
-- without review, and never reaches the entrenchment of an operator's review.
pub assertion_entrenchment_advisory :
    (x : Words) (label label' : Option String) (confidence floor : ℕ) (predicate : String)
    (has_evidence : Bool)
    → (auto_confirm x confidence predicate (assertion_entrenchment label) has_evidence floor
        ≡ auto_confirm x confidence predicate (assertion_entrenchment label') has_evidence floor)
      × (level (assertion_entrenchment label) ≤ 2)
unfolding assertion_entrenchment auto_confirm
assertion_entrenchment_advisory x none none confidence floor predicate has_evidence =
    (refl, omega arith)
assertion_entrenchment_advisory x none (some b) confidence floor predicate has_evidence =
    (ground arith, omega arith)
assertion_entrenchment_advisory x (some a) none confidence floor predicate has_evidence =
    (ground arith, ground arith)
assertion_entrenchment_advisory x (some a) (some b) confidence floor predicate has_evidence =
    (ground arith, ground arith)

-- A better supported edge is no harder to confirm: more confidence, a lower floor, a more
-- entrenched source and evidence keep a confirmation.
pub auto_confirm_mono :
    (x : Words) (confidence confidence' floor floor' : ℕ) (predicate : String)
    (source source' : Entrenchment) (has_evidence : Bool)
    → auto_confirm x confidence predicate source has_evidence floor ≡ true
    → confidence ≤ confidence'
    → floor' ≤ floor
    → level source ≤ level source'
    → auto_confirm x confidence' predicate source' true floor' ≡ true
unfolding auto_confirm
auto_confirm_mono x confidence confidence' floor floor' predicate source source' has_evidence e c f
      l =
    ground arith

-- A leading auxiliary does not change whether a predicate is durable.
pub predicate_is_durable_aux :
    (x : Words) (predicate longer aux w : String) (ws : List String)
    → x.split (x.lower predicate) ≡ w ∷ ws
    → x.split (x.lower longer) ≡ aux ∷ w ∷ ws
    → is_aux aux ≡ true
    → predicate_is_durable x longer ≡ predicate_is_durable x predicate
unfolding predicate_is_durable strip_aux
predicate_is_durable_aux x predicate longer aux w ws e f a = rw e (rw f (rw a refl))
