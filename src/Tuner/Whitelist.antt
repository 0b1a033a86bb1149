-- ===== src/Tuner/Whitelist.antt =====
-- The whitelist of tunables (`REGISTRY` of afair/agents/tunable_registry.py).
use afair.Prelude.{ℕ, pos, String, str_eq, Bool, ◌&&◌, Option, some, List, [], ◌∷◌, find?}
use afair.Tuner.Number.{finite}
use afair.Tuner.Values.{int, float, Value, scalar, dict}
use afair.Tuner.Validate.{TunableKind, float_kind, int_kind, weights_dict, TunableSpec}

abbrev tuned :
    (worker tunable : String)
    → TunableKind
    → (default : Value) → (least most : ℕ) → (bounded_delta : ℕ) → TunableSpec
tuned worker tunable kind default least most bounded_delta = record {
  worker = worker;
  tunable = tunable;
  kind = kind;
  default = default;
  min_value = some (pos least);
  max_value = some (pos most);
  bounded_delta = bounded_delta;
  allowed_values = [];
}

abbrev pub millionths : ℕ → Value
millionths n = scalar (float (finite (pos n)))

abbrev pub cen_spec : TunableSpec
cen_spec = tuned "mode_switcher" "cen_threshold" float_kind (millionths 8000000) 5000000 12000000 20

abbrev pub dmn_spec : TunableSpec
dmn_spec = tuned "mode_switcher" "dmn_threshold" float_kind (millionths 4000000) 2000000 6000000 20

abbrev salience_spec : TunableSpec
salience_spec = record {
  worker = "salience";
  tunable = "component_weights";
  kind = weights_dict;
  default = dict (
      ("entity_density", float (finite (pos 250000)))
      ∷ ("link_density", float (finite (pos 200000)))
      ∷ ("has_conflict", float (finite (pos 100000)))
      ∷ ("type_hint_bump", float (finite (pos 150000)))
      ∷ ("is_compound", float (finite (pos 100000)))
      ∷ ("recency", float (finite (pos 200000)))
      ∷ []);
  min_value = some (pos 0);
  max_value = some (pos 1000000);
  bounded_delta = 20;
  allowed_values =
      "entity_density" ∷ "link_density" ∷ "has_conflict" ∷ "type_hint_bump" ∷ "is_compound"
      ∷ "recency" ∷ [];
}

abbrev pub registry_specs : List TunableSpec
registry_specs =
    salience_spec
    ∷ cen_spec
    ∷ dmn_spec
    ∷ tuned "surprise" "context_window" int_kind (scalar (int (pos 20))) 10000000 50000000 30
    ∷ tuned "schema_evolver" "other_share_threshold" float_kind (millionths 200000) 50000 600000 20
    ∷ tuned "schema_evolver" "promote_min_entities" int_kind (scalar (int (pos 10))) 3000000
        100000000 30
    ∷ tuned "edge_confidence" "base_rate" float_kind (millionths 700000) 550000 850000 10
    ∷ tuned "edge_confidence" "corroboration_weight" float_kind (millionths 800000) 200000 2000000
        20
    ∷ tuned "belief" "auto_confirm_floor" float_kind (millionths 750000) 600000 900000 10
    ∷ tuned "entity_dedup" "kind_unify_floor" float_kind (millionths 850000) 750000 950000 5
    ∷ []

abbrev pub is_spec : (worker tunable : String) → TunableSpec → Bool
is_spec worker tunable s = str_eq s.worker worker && str_eq s.tunable tunable

-- `_SPECS.get`.
unfoldable pub spec_of : (worker tunable : String) → Option TunableSpec
spec_of worker tunable = find? (is_spec worker tunable) registry_specs
