-- ===== src/Conflicts/Asked.antt =====
-- A flag after a decision on its pair (afair/substrate/conflict_resolutions.py).
use Prim.Native.String.{◌++◌ as ◌+++◌}
use afair.Prelude.{
  ℕ, ◌≡◌, ◌∙◌, refl, ap, sym, subst, inl, inr, String, Bool, true, false, Option, none, some, find?,
  is_some, arith, Option-cases, Bool-cases,
}
use afair.Substrate.Events.{Host, Log, EventRow, write_event, read_event_by_hash}
use afair.Substrate.EventLaws.{write_event_append_only}
use afair.Substrate.Interpretations.{Likes, write_interpretation}
use afair.Substrate.Recorded.{write_interpretation-of_producer}
use afair.Substrate.Invalidations.{read_invalidation, invalidation_draft, write_invalidation}
use afair.Substrate.Superseded.{write_event_inv}
use afair.Conflicts.Queue.{
  Proposal, ProposalStatus, Resolution, Flag, Vault, has_id, open_pair, resolves, pair_key_for,
  pair_is_settled, enqueue_conflict_proposal,
}
use afair.Conflicts.Decide.{
  Draws, Outcome, bad_verdict, not_found, already_decided, applied_outcome, rejected_outcome,
  crashed, outcome_of, invalidation_reason, extraction_of, action_draft, invalidate_loser,
  record_resolution, apply_resolution, decide_conflict_proposal,
}
use afair.Conflicts.Carried.{has_claimed, claimed_vault, carry_out_inv, decide_inv}

-- The outcomes of a decision that ran to its end.
abbrev pub is_complete : Outcome → Bool
is_complete bad_verdict = false
is_complete not_found = false
is_complete already_decided = false
is_complete applied_outcome = true
is_complete rejected_outcome = true
is_complete crashed = false

module _ (h : Host) (k : Likes) where
  invalidate_loser_append_only :
      (l l' : Log) (d : Draws) (target inv : Option String) (chash : String) (r : EventRow)
      → invalidate_loser h k l d target ≡ some (l', inv)
      → read_event_by_hash l.events chash ≡ some r
      → read_event_by_hash l'.events chash ≡ some r
  unfolding invalidate_loser write_invalidation
  invalidate_loser_append_only l l' d none inv chash r e f =
      let same : l ≡ l' = ground (arith, e) in rw (← same) f
  invalidate_loser_append_only l l' d (some target) inv chash r e f =
      elim (Option-cases (read_invalidation l.events target)) [
        | inr (already, g) ↦ let same : l ≡ l' = ground (arith, g, e) in rw (← same) f
        | inl g ↦
            elim (Option-cases (
              write_invalidation h l target invalidation_reason "user" d.invalidation_id
                d.at_invalidation)) [
                  | inl n ↦ absurd (ground (arith, g, n, e))
                  | inr ((m, event), n) ↦
                      let same : m ≡ l' = ground (arith, g, n, e) in
                      let draft = invalidation_draft target invalidation_reason "user" in
                      let inv' =
                        write_event_inv h l m draft d.invalidation_id d.at_invalidation event n in
                      rw (← same) (
                        write_event_append_only h l m draft d.invalidation_id d.at_invalidation
                          event r inv'.0 chash inv'.1 f)
                ]
      ]

  record_resolution-resolves :
      (v w : Vault) (d : Draws) (p : Proposal) (resolution : Resolution) (inv : Option String)
      (decided_by : String) (event_b : EventRow)
      → record_resolution h k v d p resolution inv decided_by event_b ≡ (w, true)
      → is_some (find? (resolves (pair_key_for k p.event_a_hash p.event_b_hash)) w.interpretations)
        ≡ true
  unfolding record_resolution
  record_resolution-resolves v w d p resolution inv decided_by event_b e =
      let producer = "conflict_resolution:v1:" +++ pair_key_for k p.event_a_hash p.event_b_hash in
      let ex = extraction_of d p resolution inv in
      elim (Option-cases
        (write_interpretation k v.interpretations event_b 1 producer ex d.interp_id d.at_interp)) [
          | inl f ↦ absurd (ground (arith, f, e))
          | inr ((rows, i), f) ↦
              elim (Option-cases (
                write_event h v.log (action_draft p.id resolution inv decided_by) d.action_id
                  d.at_action)) [
                    | inl g ↦ absurd (ground (arith, f, g, e))
                    | inr ((l, event), g) ↦
                        let same : rows ≡ w.interpretations = ground (arith, f, g, e) in
                        rw (← same) (
                          write_interpretation-of_producer k v.interpretations rows event_b 1
                            producer ex d.interp_id d.at_interp i f)
                  ]
        ]

  apply_resolution-resolves :
      (v w : Vault) (d : Draws) (p : Proposal) (resolution : Resolution) (target : Option String)
      (decided_by : String) (event_b : EventRow)
      → apply_resolution h k v d p resolution target decided_by ≡ (w, true)
      → read_event_by_hash v.log.events p.event_b_hash ≡ some event_b
      → is_some (find? (resolves (pair_key_for k p.event_a_hash p.event_b_hash)) w.interpretations)
        ≡ true
  unfolding apply_resolution
  apply_resolution-resolves v w d p resolution target decided_by event_b e b =
      elim (Option-cases (invalidate_loser h k v.log d target)) [
        | inl f ↦ absurd (ground (arith, f, e))
        | inr ((l, inv), f) ↦
            let b' = invalidate_loser_append_only v.log l d target inv p.event_b_hash event_b f b in
            record_resolution-resolves (record v { log = l }) w d p resolution inv decided_by
              event_b (ground (arith, f, b', e))
      ]

  settled_not_enqueued :
      (v : Vault) (f' : Flag) (drawn : String) (now : ℕ)
      → is_some
          (find? (resolves (pair_key_for k f'.event_a_hash f'.event_b_hash)) v.interpretations)
        ≡ true
      → enqueue_conflict_proposal k v f' drawn now ≡ some (v, none)
  unfolding enqueue_conflict_proposal pair_is_settled
  settled_not_enqueued v f' drawn now s =
      elim (Bool-cases (
        is_some (find? (open_pair (pair_key_for k f'.event_a_hash f'.event_b_hash)) v.proposals))) [
          | inl t ↦ rw t refl
          | inr t ↦ rw (t, s) refl
        ]

  complete_whole :
      (status : ProposalStatus) (b : Bool) → is_complete (outcome_of status b) ≡ true → b ≡ true
  complete_whole status true e = refl
  complete_whole status false e = absurd (ground arith)

  complete_end : (o : Outcome) → is_complete o ≡ true → has_claimed o ≡ true
  complete_end bad_verdict e = e
  complete_end not_found e = e
  complete_end already_decided e = e
  complete_end applied_outcome e = e
  complete_end rejected_outcome e = e
  complete_end crashed e = absurd (ground arith)

  -- A pair is not asked about again once a decision on it ran to its end: where event B of the
  -- pair is in the log, a flag whose pair has the same key puts no proposal on the queue.
  pub enqueue-decide_conflict_proposal :
      (v w : Vault) (o : Outcome) (d : Draws) (p : Proposal) (event_b : EventRow) (f' : Flag)
      (proposal_id verdict decided_by drawn : String) (now : ℕ)
      → find? (has_id proposal_id) v.proposals ≡ some p
      → read_event_by_hash v.log.events p.event_b_hash ≡ some event_b
      → decide_conflict_proposal h k v d proposal_id verdict decided_by ≡ (w, o)
      → is_complete o ≡ true
      → pair_key_for k f'.event_a_hash f'.event_b_hash
        ≡ pair_key_for k p.event_a_hash p.event_b_hash
      → enqueue_conflict_proposal k w f' drawn now ≡ some (w, none)
  enqueue-decide_conflict_proposal v w o d p event_b f' proposal_id verdict decided_by drawn now f b
        e c same =
      let won = complete_end o c in
      let inv = decide_inv h k v w o d proposal_id verdict decided_by e won in
      let q = inv.0 in
      let pl = inv.1 in
      let one : p ≡ q = ground (arith, f, inv.2) in
      let run = carry_out_inv h k v w o d q pl decided_by inv.5 won in
      let v' = claimed_vault v d q pl decided_by in
      let done = apply_resolution h k v' d q pl.resolution pl.invalidate_target decided_by in
      let whole : done ≡ (w, true) = ground (
        arith,
        run.1,
        complete_whole pl.new_status done.1 (subst (λ r. is_complete r ≡ true) (sym run.2) c),
      ) in
      let b' =
        subst (λ (r : Proposal). read_event_by_hash v.log.events r.event_b_hash ≡ some event_b) one
          b in
      let recorded =
        apply_resolution-resolves v' w d q pl.resolution pl.invalidate_target decided_by event_b
          whole b' in
      let key : pair_key_for k q.event_a_hash q.event_b_hash
          ≡ pair_key_for k f'.event_a_hash f'.event_b_hash =
        ap (λ (r : Proposal). pair_key_for k r.event_a_hash r.event_b_hash) (sym one) ∙ sym same in
      settled_not_enqueued w f' drawn now
        (subst (λ i. is_some (find? (resolves i) w.interpretations) ≡ true) key recorded)
