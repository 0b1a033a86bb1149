-- ===== src/Belief/Tests.antt =====
-- The gates on predicates of the source's comments, and the theorems at inputs that meet their
-- hypotheses.
use afair.Prelude.{
  ◌≡◌, refl, if◌then◌else◌, String, str_eq, true, false, some, List, [], ◌∷◌, ◌≤◌, none,
}
use afair.Belief.Predicates.{
  Words, contains, is_aux, starts_with_stem, any_stem, strip_aux, predicate_is_crisp,
  predicate_is_durable,
}
use afair.Belief.Trust.{level, assertion_entrenchment, auto_confirm, resolve_trust}
use afair.Belief.Gate.{assertion_entrenchment_advisory}

program : Unit {0}
unfolding contains is_aux starts_with_stem any_stem strip_aux predicate_is_crisp
    predicate_is_durable assertion_entrenchment auto_confirm resolve_trust
program = tt

-- The words of the few texts that are used here.
abbrev splits : String → List String
splits s =
    if str_eq s "was similar to"
    then "was" ∷ "similar" ∷ "to" ∷ []
    else if str_eq s "similar to"
    then "similar" ∷ "to" ∷ []
    else if str_eq s "is design partner for"
    then "is" ∷ "design" ∷ "partner" ∷ "for" ∷ []
    else if str_eq s "is being"
    then "is" ∷ "being" ∷ []
    else s ∷ []

abbrev words : Words
words = record { lower = λ s. s; split = splits }

similar_run : predicate_is_durable words "was similar to" ≡ false
unfolding program
similar_run = refl

partner_run : predicate_is_durable words "is design partner for" ≡ true
unfolding program
partner_run = refl

-- One auxiliary is left of two.
is_being_run : strip_aux ("is" ∷ "being" ∷ []) ≡ "being" ∷ []
unfolding program
is_being_run = refl

assertion_entrenchment_advisory_example :
    (auto_confirm words 80 "runs" (assertion_entrenchment (some "user")) true 75
      ≡ auto_confirm words 80 "runs" (assertion_entrenchment none) true 75)
    × (level (assertion_entrenchment (some "user")) ≤ 2)
assertion_entrenchment_advisory_example =
    assertion_entrenchment_advisory words (some "user") none 80 75 "runs" true
