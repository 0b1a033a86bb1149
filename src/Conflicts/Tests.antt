-- ===== src/Conflicts/Tests.antt =====
-- A pair from its flag to its decision, and the theorems at inputs that meet their hypotheses.
use afair.Prelude.{
  ◌≡◌, ◌≢◌, refl, String, true, false, none, some, [], ◌∷◌, ◌++◌, find?, select, update, count,
  first_by, insert_by, sort_by, is_some, arith,
}
use afair.Substrate.Events.{
  other, EventRow, Draft, row_of, read_event_by_hash, read_event_by_id, write_event_with_status,
  write_event,
}
use afair.Substrate.Interpretations.{
  read_existing, insert_row, count_extractor_attempts, write_interpretation,
}
use afair.Substrate.Invalidations.{write_invalidation, read_invalidation}
use afair.Substrate.Samples.{host, likes}
use afair.Conflicts.Queue.{
  Flag, Proposal, Vault, pair_key_for, pair_is_settled, proposal_of, enqueue_conflict_proposal,
  read_pending_conflict_proposals, count_pending_conflict_proposals, claim, resolves,
}
use afair.Conflicts.Decide.{
  Draws, applied_outcome, crashed, plan, invalidate_loser, record_resolution, apply_resolution,
  carry_out, decide_conflict_proposal,
}
use afair.Conflicts.Carried.{has_claimed}
use afair.Conflicts.Race.{here, next, enqueues}
use afair.Conflicts.Once.{decide_once}
use afair.Conflicts.Effect.{decide_conflict_proposal-applied}
use afair.Conflicts.Settled.{
  IsQueue, enqueue_conflict_proposal-IsQueue, pair_is_settled-decide_conflict_proposal,
}
use afair.Conflicts.Asked.{enqueue-decide_conflict_proposal}

-- Everything that a decision computes with.
program : Unit {0}
unfolding find? select update count first_by insert_by sort_by read_event_by_hash read_event_by_id
    write_event_with_status write_event read_existing insert_row count_extractor_attempts
    write_interpretation write_invalidation read_invalidation pair_key_for pair_is_settled
    enqueue_conflict_proposal read_pending_conflict_proposals count_pending_conflict_proposals claim
    plan invalidate_loser record_resolution apply_resolution carry_out decide_conflict_proposal
program = tt

abbrev said : String → Draft
said text = record {
  origin = "user";
  kind = "observe";
  payload = other text;
  parent_hashes = [];
  created_at = none;
  searchable_body = none;
}

abbrev older : EventRow
older = row_of host (said "a") "1" 5

abbrev newer : EventRow
newer = row_of host (said "b") "2" 6

abbrev flag : Flag
flag = record {
  event_a_id = "1";
  event_a_hash = "observe:a";
  event_b_id = "2";
  event_b_hash = "observe:b";
  newer_hash = "observe:b";
  flag_verdict = "contradicts";
  reason = "both cannot hold";
  confidence = 8;
  detected_by = "resolver";
}

abbrev start : Vault
start = record {
  log = record { events = older ∷ newer ∷ []; fts = [] };
  interpretations = [];
  proposals = [];
}

abbrev proposal : Proposal
proposal = proposal_of likes flag "cfl_1" 7

abbrev asked : Vault
asked = record start { proposals = proposal ∷ [] }

enqueue_run : enqueue_conflict_proposal likes start flag "1" 7 ≡ some (asked, some "cfl_1")
unfolding program
enqueue_run = refl

-- A flag of the pair the other way round.
enqueue_again :
    enqueue_conflict_proposal likes asked
      (record flag { event_a_hash = "observe:b"; event_b_hash = "observe:a" })
      "2"
      8
    ≡ some (asked, none)
unfolding program
enqueue_again = refl

pending_run :
    (read_pending_conflict_proposals likes asked.proposals 20 0 ≡ proposal ∷ [])
    × (count_pending_conflict_proposals asked.proposals ≡ 1)
unfolding program
pending_run = (refl, refl)

abbrev draws : Draws
draws = record {
  at_claim = 10;
  invalidation_id = "3";
  at_invalidation = 11;
  interp_id = "i1";
  at_interp = 12;
  action_id = "4";
  at_action = 13;
  resolution_json = λ p resolution inv. "json";
}

abbrev confirmed : Vault
confirmed = (decide_conflict_proposal host likes asked draws "cfl_1" "confirm" "operator").0

confirm_run :
    (decide_conflict_proposal host likes asked draws "cfl_1" "confirm" "operator"
      ≡ (confirmed, applied_outcome))
    × (is_some (read_invalidation confirmed.log.events "observe:a") ≡ true)
    × (read_invalidation confirmed.log.events "observe:b" ≡ none)
unfolding program
confirm_run = (refl, refl, refl)

asked-IsQueue : IsQueue likes asked.proposals
unfolding program
asked-IsQueue =
    enqueue_conflict_proposal-IsQueue likes start asked flag "1" 7 (some "cfl_1") refl
      (record { keyed = tt; single = λ pair_key. omega arith })

enqueue_conflict_proposal-IsQueue_example : IsQueue likes asked.proposals
unfolding program
enqueue_conflict_proposal-IsQueue_example =
    enqueue_conflict_proposal-IsQueue likes start asked flag "1" 7 (some "cfl_1") refl
      (record { keyed = tt; single = λ pair_key. omega arith })

decide_conflict_proposal-applied_example :
    (is_some (read_invalidation confirmed.log.events "observe:a") ≡ true)
    × ((c : String)
        → c ≢ "observe:a"
        → read_invalidation confirmed.log.events c ≡ read_invalidation asked.log.events c)
unfolding program
decide_conflict_proposal-applied_example =
    decide_conflict_proposal-applied host likes asked confirmed draws proposal "cfl_1" "confirm"
      "operator" refl refl
      ((λ e. absurd (ground (arith, e))), ((λ e. absurd (ground (arith, e))), tt))

-- The retraction of a decision that was confirmed meanwhile, with another pair flagged between.
abbrev other_flag : Flag
other_flag = record flag { event_a_hash = "observe:c" }

abbrev later : Vault
later = record confirmed {
  proposals = confirmed.proposals ++ proposal_of likes other_flag "cfl_2" 14 ∷ [];
}

decide_once_example :
    ((decide_conflict_proposal host likes later draws "cfl_1" "retract" "dashboard").0 ≡ later)
    × (has_claimed (decide_conflict_proposal host likes later draws "cfl_1" "retract" "dashboard").1
        ≡ false)
unfolding program
decide_once_example =
    decide_once host likes asked confirmed later applied_outcome draws draws "cfl_1" "confirm"
      "retract" "operator" "dashboard" refl refl
      (next here (enqueues other_flag "cfl_2" 14 refl refl))

-- A decision whose invalidation gets an id that is taken crashes after its claim.
abbrev unlucky : Draws
unlucky = record draws { invalidation_id = "1" }

abbrev orphan : Vault
orphan = (decide_conflict_proposal host likes asked unlucky "cfl_1" "confirm" "operator").0

orphan_run :
    (decide_conflict_proposal host likes asked unlucky "cfl_1" "confirm" "operator"
      ≡ (orphan, crashed))
    × (enqueue_conflict_proposal likes orphan flag "2" 20
        ≡ some (
          record orphan { proposals = orphan.proposals ++ proposal_of likes flag "cfl_2" 20 ∷ [] },
          some "cfl_2",
        ))
unfolding program
orphan_run = (refl, refl)

pair_is_settled-decide_conflict_proposal_example :
    pair_is_settled orphan "observe:a:observe:b"
    ≡ is_some (find? (resolves "observe:a:observe:b") orphan.interpretations)
unfolding program
pair_is_settled-decide_conflict_proposal_example =
    pair_is_settled-decide_conflict_proposal host likes asked orphan crashed unlucky proposal
      "cfl_1" "confirm" "operator" asked-IsQueue refl refl refl

enqueue-decide_conflict_proposal_example :
    enqueue_conflict_proposal likes confirmed flag "9" 20 ≡ some (confirmed, none)
unfolding program
enqueue-decide_conflict_proposal_example =
    enqueue-decide_conflict_proposal host likes asked confirmed applied_outcome draws proposal newer
      flag "cfl_1" "confirm" "operator" "9" 20 refl refl refl refl refl
