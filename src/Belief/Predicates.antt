-- ===== src/Belief/Predicates.antt =====
-- Which predicates make a relation (afair/substrate/belief.py). A normalized text, whose words are
-- joined by single spaces, is the list of its words: it starts with "is " when its first word is
-- "is" and another follows, and with a stem and a space when the stem's words are its first ones.
use afair.Prelude.{
  ℕ, String, str_eq, Bool, true, false, not, ◌&&◌, ◌||◌, List, [], ◌∷◌, length, leb, if◌then◌else◌,
}

-- `str.lower` and `str.split`.
pub record Words : Type 0 where
  pub lower : String → String
  pub split : String → List String

abbrev pub max_predicate_words : ℕ
max_predicate_words = 4

abbrev pub non_durable_predicate_stems : List (List String)
non_durable_predicate_stems =
    ("await" ∷ [])
    ∷ ("awaits" ∷ [])
    ∷ ("awaiting" ∷ [])
    ∷ ("contrast" ∷ [])
    ∷ ("contrasts" ∷ [])
    ∷ ("differ" ∷ [])
    ∷ ("differs" ∷ [])
    ∷ ("compare" ∷ [])
    ∷ ("compares" ∷ [])
    ∷ ("compared" ∷ [])
    ∷ ("resemble" ∷ [])
    ∷ ("resembles" ∷ [])
    ∷ ("similar" ∷ "to" ∷ [])
    ∷ ("relate" ∷ [])
    ∷ ("relates" ∷ [])
    ∷ ("related" ∷ "to" ∷ [])
    ∷ ("associated" ∷ "with" ∷ [])
    ∷ ("linked" ∷ "to" ∷ [])
    ∷ ("connected" ∷ "to" ∷ [])
    ∷ ("mention" ∷ [])
    ∷ ("mentions" ∷ [])
    ∷ ("mentioned" ∷ [])
    ∷ ("reference" ∷ [])
    ∷ ("references" ∷ [])
    ∷ ("referenced" ∷ [])
    ∷ ("refers" ∷ "to" ∷ [])
    ∷ ("discuss" ∷ [])
    ∷ ("discusses" ∷ [])
    ∷ ("discussed" ∷ [])
    ∷ ("criticize" ∷ [])
    ∷ ("criticizes" ∷ [])
    ∷ ("criticized" ∷ [])
    ∷ ("regarding" ∷ [])
    ∷ ("about" ∷ [])
    ∷ ("seems" ∷ [])
    ∷ ("appears" ∷ "to" ∷ [])
    ∷ ("may" ∷ "be" ∷ [])
    ∷ ("might" ∷ "be" ∷ [])
    ∷ []

abbrev pub aux_prefixes : List String
aux_prefixes =
    "is" ∷ "was" ∷ "are" ∷ "were" ∷ "has" ∷ "have" ∷ "had" ∷ "been" ∷ "being" ∷ "will" ∷ "would"
    ∷ []

unfoldable pub contains : List String → String → Bool
contains [] w = false
contains (x ∷ xs) w = str_eq x w || contains xs w

unfoldable pub is_aux : String → Bool
unfolding contains
is_aux w = contains aux_prefixes w

-- `norm == stem or norm.startswith(stem + " ")`.
unfoldable pub starts_with_stem : (norm stem : List String) → Bool
starts_with_stem norm [] = true
starts_with_stem [] (s ∷ stem) = false
starts_with_stem (w ∷ norm) (s ∷ stem) = str_eq w s && starts_with_stem norm stem

unfoldable pub any_stem : List (List String) → (norm : List String) → Bool
any_stem [] norm = false
any_stem (stem ∷ stems) norm = starts_with_stem norm stem || any_stem stems norm

-- The loop that strips leading auxiliaries.
unfoldable pub strip_aux : List String → List String
strip_aux [] = []
strip_aux (w ∷ []) = w ∷ []
strip_aux (w ∷ v ∷ rest) =
    let stripped = strip_aux (v ∷ rest) in if is_aux w then stripped else w ∷ v ∷ rest

abbrev durable_words : List String → Bool
durable_words [] = true
durable_words (w ∷ ws) = not (any_stem non_durable_predicate_stems (strip_aux (w ∷ ws)))

module _ (x : Words) where
  unfoldable pub predicate_is_crisp : String → Bool
  predicate_is_crisp predicate =
      let n = length (x.split predicate) in leb 1 n && leb n max_predicate_words

  unfoldable pub predicate_is_durable : String → Bool
  predicate_is_durable predicate = durable_words (x.split (x.lower predicate))
