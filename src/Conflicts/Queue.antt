-- ===== src/Conflicts/Queue.antt =====
-- The queue `proposed_conflict_resolutions` (afair/substrate/conflict_resolutions.py). A confidence
-- is a number of some exact unit.
use Prim.Native.String.{◌++◌ as ◌+++◌}
use afair.Prelude.{
  ℕ, String, str_eq, Bool, true, false, ◌&&◌, ◌||◌, Option, none, some, List, [], ◌∷◌, ◌++◌, find?,
  select, update, count, take, drop, sort_by, is_some, ltb, ◌==◌, if◌then◌else◌,
}
use afair.Substrate.Events.{Log}
use afair.Substrate.Interpretations.{
  Producer, base, same_producer, Interpretation, Interpretations, Likes,
}

pub data ProposalStatus : Type 0 where
  proposed applied rejected : ProposalStatus

abbrev pub is_proposed : ProposalStatus → Bool
is_proposed proposed = true
is_proposed applied = false
is_proposed rejected = false

pub data Resolution : Type 0 where
  superseded_older superseded_newer no_conflict : Resolution

pub record Proposal : Type 0 where
  pub id : String
  pub pair_key : String
  pub event_a_id : String
  pub event_a_hash : String
  pub event_b_id : String
  pub event_b_hash : String
  pub newer_hash : String
  pub flag_verdict : String
  pub reason : String
  pub confidence : ℕ
  pub detected_by : String
  pub detected_at : ℕ
  pub status : ProposalStatus
  pub resolution : Option Resolution
  pub decided_at : Option ℕ
  pub decided_by : Option String

abbrev pub Proposals : Type 0
Proposals = List Proposal

pub record Vault : Type 0 where
  pub log : Log
  pub interpretations : Interpretations
  pub proposals : Proposals

abbrev pub has_id : String → Proposal → Bool
has_id proposal_id p = str_eq p.id proposal_id

abbrev pub is_open : String → Proposal → Bool
is_open proposal_id p = has_id proposal_id p && is_proposed p.status

abbrev pub open_pair : String → Proposal → Bool
open_pair pair_key p = str_eq p.pair_key pair_key && is_proposed p.status

abbrev pub resolution_producer : String → Producer
resolution_producer pair_key = base ("conflict_resolution:v1:" +++ pair_key)

abbrev pub resolves : String → Interpretation → Bool
resolves pair_key r = same_producer r.produced_by (resolution_producer pair_key)

module _ (k : Likes) where
  unfoldable pub pair_key_for : (hash_a hash_b : String) → String
  pair_key_for hash_a hash_b =
      if ltb (k.rank hash_b) (k.rank hash_a)
      then hash_b +++ ":" +++ hash_a
      else hash_a +++ ":" +++ hash_b

unfoldable pub pair_is_settled : Vault → (pair_key : String) → Bool
pair_is_settled v pair_key =
    is_some (find? (open_pair pair_key) v.proposals)
    || is_some (find? (resolves pair_key) v.interpretations)

-- What the resolver says of a pair.
pub record Flag : Type 0 where
  pub event_a_id : String
  pub event_a_hash : String
  pub event_b_id : String
  pub event_b_hash : String
  pub newer_hash : String
  pub flag_verdict : String
  pub reason : String
  pub confidence : ℕ
  pub detected_by : String

abbrev pub proposal_of : Likes → Flag → (proposal_id : String) (now : ℕ) → Proposal
proposal_of k f proposal_id now = record {
  id = proposal_id;
  pair_key = pair_key_for k f.event_a_hash f.event_b_hash;
  event_a_id = f.event_a_id;
  event_a_hash = f.event_a_hash;
  event_b_id = f.event_b_id;
  event_b_hash = f.event_b_hash;
  newer_hash = f.newer_hash;
  flag_verdict = f.flag_verdict;
  reason = f.reason;
  confidence = f.confidence;
  detected_by = f.detected_by;
  detected_at = now;
  status = proposed;
  resolution = none;
  decided_at = none;
  decided_by = none;
}

-- `enqueue_conflict_proposal`, with the drawn id; `none` is the IntegrityError of one that is taken.
unfoldable pub enqueue_conflict_proposal :
    Likes → Vault → Flag → (drawn : String) (now : ℕ) → Option (Vault × Option String)
enqueue_conflict_proposal k v f drawn now =
    let proposal_id = "cfl_" +++ drawn in
    if pair_is_settled v (pair_key_for k f.event_a_hash f.event_b_hash)
    then some (v, none)
    else if is_some (find? (has_id proposal_id) v.proposals)
    then none
    else some (
      record v { proposals = v.proposals ++ proposal_of k f proposal_id now ∷ [] },
      some proposal_id,
    )

-- ORDER BY confidence DESC, detected_at ASC, id ASC.
abbrev pub more_urgent : Likes → Proposal → Proposal → Bool
more_urgent k a b =
    ltb b.confidence a.confidence
    || a.confidence == b.confidence
      && (ltb a.detected_at b.detected_at
          || a.detected_at == b.detected_at && ltb (k.rank a.id) (k.rank b.id))

unfoldable pub read_pending_conflict_proposals : Likes → Proposals → (limit offset : ℕ) → Proposals
read_pending_conflict_proposals k proposals limit offset =
    take limit
      (drop offset (sort_by (more_urgent k) (select (λ p. is_proposed p.status) proposals)))

unfoldable pub count_pending_conflict_proposals : Proposals → ℕ
count_pending_conflict_proposals proposals = count (λ p. is_proposed p.status) proposals

-- What a claim writes into its row.
abbrev pub decided :
    ProposalStatus → Resolution → (decided_by : String) (now : ℕ) → Proposal → Proposal
decided status resolution decided_by now p = record p {
  status = status;
  resolution = some resolution;
  decided_at = some now;
  decided_by = some decided_by;
}

-- `_claim`: whether exactly one row was updated.
unfoldable pub claim :
    Proposals
    → (proposal_id : String) → ProposalStatus
    → Resolution
    → (decided_by : String) (now : ℕ) → Proposals × Bool
claim proposals proposal_id status resolution decided_by now = (
  update (is_open proposal_id) (decided status resolution decided_by now) proposals,
  count (is_open proposal_id) proposals == 1,
)
