-- ===== src/Conflicts/Decide.antt =====
-- The operator's decision on a pair (`decide_conflict_proposal` and `_apply_resolution` of
-- afair/substrate/conflict_resolutions.py).
use Prim.Native.String.{◌++◌ as ◌+++◌}
use afair.Prelude.{
  ℕ, String, str_eq, Bool, true, false, not, ◌||◌, Option, none, some, [], find?, if◌then◌else◌,
}
use afair.Substrate.Events.{Host, Log, Draft, EventRow, action, write_event, read_event_by_hash}
use afair.Substrate.Interpretations.{Extraction, Likes, write_interpretation}
use afair.Substrate.Invalidations.{read_invalidation, write_invalidation}
use afair.Conflicts.Queue.{
  ProposalStatus, proposed, applied, rejected, is_proposed, Resolution, superseded_older,
  superseded_newer, no_conflict, Proposal, Vault, has_id, pair_key_for, claim,
}

-- What a decision draws and reads from the clock, in order, and the JSON of its record.
pub record Draws : Type 0 where
  pub at_claim : ℕ
  pub invalidation_id : String
  pub at_invalidation : ℕ
  pub interp_id : String
  pub at_interp : ℕ
  pub action_id : String
  pub at_action : ℕ
  pub resolution_json : Proposal → Resolution → (invalidation_event_id : Option String) → String

pub data Outcome : Type 0 where
  -- ValueError.
  bad_verdict : Outcome
  not_found already_decided applied_outcome rejected_outcome : Outcome
  -- An exception after the claim was committed.
  crashed : Outcome

abbrev pub name_of : Resolution → String
name_of superseded_older = "superseded_older"
name_of superseded_newer = "superseded_newer"
name_of no_conflict = "no_conflict"

abbrev pub older_hash : Proposal → String
older_hash p = if str_eq p.newer_hash p.event_b_hash then p.event_a_hash else p.event_b_hash

pub record Plan : Type 0 where
  pub new_status : ProposalStatus
  pub resolution : Resolution
  pub invalidate_target : Option String

-- What a verdict asks for; `none` is a verdict that is refused.
unfoldable pub plan : (verdict : String) → Proposal → Option Plan
plan verdict p =
    if str_eq verdict "reject"
    then some (record { new_status = rejected; resolution = no_conflict; invalidate_target = none })
    else if str_eq verdict "confirm"
    then some (record {
      new_status = applied;
      resolution = superseded_older;
      invalidate_target = some (older_hash p);
    })
    else if str_eq verdict "retract"
    then some (record {
      new_status = applied;
      resolution = superseded_newer;
      invalidate_target = some p.newer_hash;
    })
    else none

abbrev pub invalidation_reason : Option String
invalidation_reason = some "operator conflict resolution (ADR-0008)"

abbrev pub action_draft :
    (proposal_id : String)
    → Resolution
    → (invalidation_event_id : Option String) → (decided_by : String) → Draft
action_draft proposal_id resolution invalidation_event_id decided_by = record {
  origin = "user";
  kind = "observe";
  payload =
      action "resolve_conflict" proposal_id (name_of resolution) invalidation_event_id decided_by;
  parent_hashes = [];
  created_at = none;
  searchable_body = none;
}

abbrev pub extraction_of : Draws → Proposal → Resolution → Option String → Extraction
extraction_of d p resolution invalidation_event_id = record {
  failed = false;
  error_type = none;
  retries = none;
  text = d.resolution_json p resolution invalidation_event_id;
}

abbrev pub outcome_of : ProposalStatus → Bool → Outcome
outcome_of status false = crashed
outcome_of rejected true = rejected_outcome
outcome_of applied true = applied_outcome
outcome_of proposed true = applied_outcome

module _ (h : Host) (k : Likes) where
  -- The invalidation of the losing side, unless it is there; `none` is a failed write.
  unfoldable pub invalidate_loser :
      Log → Draws → (invalidate_target : Option String) → Option (Log × Option String)
  invalidate_loser l d none = some (l, none)
  invalidate_loser l d (some target) = elim (read_invalidation l.events target) [
    | some already ↦ some (l, some already.by_event_id)
    | none ↦
        elim (write_invalidation h l target invalidation_reason "user" d.invalidation_id
          d.at_invalidation) [ none ↦ none | some (l', event) ↦ some (l', some event.id) ]
  ]

  -- The record of the resolution on event B, and of the operator's action.
  unfoldable pub record_resolution :
      Vault
      → Draws
      → Proposal
      → Resolution
      → (invalidation_event_id : Option String) → (decided_by : String) → EventRow
      → Vault × Bool
  record_resolution v d p resolution invalidation_event_id decided_by event_b =
      elim (write_interpretation k v.interpretations event_b 1
        ("conflict_resolution:v1:" +++ pair_key_for k p.event_a_hash p.event_b_hash)
        (extraction_of d p resolution invalidation_event_id) d.interp_id d.at_interp) [
          | none ↦ (v, false)
          | some (rows, interpretation) ↦
              elim (write_event h v.log
                (action_draft p.id resolution invalidation_event_id decided_by) d.action_id
                d.at_action) [
                  | none ↦ (record v { interpretations = rows }, false)
                  | some (l, event) ↦ (record v { log = l; interpretations = rows }, true)
                ]
        ]

  -- `_apply_resolution`; `false` is an exception on the way. What was committed before it stays.
  unfoldable pub apply_resolution :
      Vault
      → Draws
      → Proposal
      → Resolution
      → (invalidate_target : Option String) → (decided_by : String) → Vault × Bool
  apply_resolution v d p resolution invalidate_target decided_by =
      elim (invalidate_loser v.log d invalidate_target) [
        | none ↦ (v, false)
        | some (l, invalidation_event_id) ↦ elim (read_event_by_hash l.events p.event_b_hash) [
          | none ↦ (record v { log = l }, true)
          | some event_b ↦
              record_resolution (record v { log = l }) d p resolution invalidation_event_id
                decided_by event_b
        ]
      ]

  -- From the claim on.
  unfoldable pub carry_out :
      Vault → Draws → Proposal → Plan → (decided_by : String) → Vault × Outcome
  carry_out v d p pl decided_by =
      let claimed = claim v.proposals p.id pl.new_status pl.resolution decided_by d.at_claim in
      let v' : Vault = record v { proposals = claimed.0 } in
      let done = apply_resolution v' d p pl.resolution pl.invalidate_target decided_by in
      if claimed.1 then (done.0, outcome_of pl.new_status done.1) else (v', already_decided)

  unfoldable pub decide_conflict_proposal :
      Vault → Draws → (proposal_id verdict decided_by : String) → Vault × Outcome
  decide_conflict_proposal v d proposal_id verdict decided_by =
      if not (str_eq verdict "confirm" || str_eq verdict "reject" || str_eq verdict "retract")
      then (v, bad_verdict)
      else elim (find? (has_id proposal_id) v.proposals) [
        | none ↦ (v, not_found)
        | some p ↦
            if not (is_proposed p.status) then (v, already_decided) else elim (plan verdict p) [
              | none ↦ (v, bad_verdict)
              | some pl ↦ carry_out v d p pl decided_by
            ]
      ]
