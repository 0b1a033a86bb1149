-- ===== src/Conflicts/Once.antt =====
-- A decision after a decision (afair/substrate/conflict_resolutions.py).
use afair.Prelude.{
  ◌≡◌, ◌∙◌, refl, ap, sym, subst, inl, inr, String, str_eq, true, false, Option, some, find?, arith,
  count_present, count_absent, Option-cases, Bool-cases, find?_holds, eq_iff,
}
use Prim.Native.String.{◌++◌ as ◌+++◌}
use afair.Substrate.Events.{Host, write_event, read_event_by_hash}
use afair.Substrate.Interpretations.{Likes, write_interpretation}
use afair.Conflicts.Queue.{
  Proposal, Proposals, applied, rejected, Resolution, Vault, is_proposed, has_id, is_open,
  pair_key_for, claim,
}
use afair.Conflicts.Decide.{
  Draws, Outcome, Plan, plan, action_draft, extraction_of, invalidate_loser, record_resolution,
  apply_resolution, carry_out, decide_conflict_proposal,
}
use afair.Conflicts.Carried.{has_claimed, claimed_vault, carry_out_inv, decide_cases, decide_inv}
use afair.Conflicts.Race.{Acts, IsClosed, Acts-IsClosed, claim-IsClosed}

pub plan_decides :
    (verdict : String) (p : Proposal) (pl : Plan)
    → plan verdict p ≡ some pl
    → is_proposed pl.new_status ≡ false
unfolding plan
plan_decides verdict p pl e = elim (Bool-cases (str_eq verdict "reject")) [
  | inl r ↦ let same : rejected ≡ pl.new_status = ground (arith, r, e) in rw (← same) refl
  | inr r ↦
      let same : applied ≡ pl.new_status = elim (Bool-cases (str_eq verdict "confirm")) [
        | inl c ↦ ground (arith, r, c, e)
        | inr c ↦ ground (arith, r, c, e)
      ] in
      rw (← same) refl
]

closed_status :
    (proposal_id : String) (ps : Proposals) (p : Proposal)
    → IsClosed proposal_id ps
    → find? (has_id proposal_id) ps ≡ some p
    → is_proposed p.status ≡ false
closed_status proposal_id ps p c f = elim (Bool-cases (is_proposed p.status)) [
  | inr s ↦ s
  | inl s ↦
      let hit : is_open proposal_id p ≡ true =
        ground (arith, s, find?_holds (has_id proposal_id) ps {a = p} f) in
      let some_open = count_present (is_open proposal_id) (has_id proposal_id) ps {a = p} f hit in
      absurd (omega (arith, some_open, count_absent (is_open proposal_id) ps c.shut))
]

module _ (h : Host) (k : Likes) where
  -- What is written after the claim leaves the queue as it was.
  pub proposals-apply_resolution :
      (v : Vault) (d : Draws) (p : Proposal) (resolution : Resolution) (target : Option String)
      (decided_by : String)
      → (apply_resolution h k v d p resolution target decided_by).0.proposals ≡ v.proposals
  unfolding apply_resolution record_resolution
  proposals-apply_resolution v d p resolution target decided_by =
      elim (Option-cases (invalidate_loser h k v.log d target)) [
        | inl f ↦ ground (arith, f)
        | inr ((l, inv), f) ↦ elim (Option-cases (read_event_by_hash l.events p.event_b_hash)) [
          | inl g ↦ ground (arith, f, g)
          | inr (event_b, g) ↦
              elim (Option-cases (
                write_interpretation k v.interpretations event_b 1
                  ("conflict_resolution:v1:" +++ pair_key_for k p.event_a_hash p.event_b_hash)
                  (extraction_of d p resolution inv) d.interp_id d.at_interp)) [
                    | inl i ↦ ground (arith, f, g, i)
                    | inr ((rows, i), r) ↦
                        elim (Option-cases (
                          write_event h l (action_draft p.id resolution inv decided_by) d.action_id
                            d.at_action)) [
                              | inl w ↦ ground (arith, f, g, r, w)
                              | inr ((l', e), w) ↦ ground (arith, f, g, r, w)
                            ]
                  ]
        ]
      ]

  -- What a decision that is carried out makes of the queue is its claim.
  pub proposals-carry_out :
      (v : Vault) (d : Draws) (p : Proposal) (pl : Plan) (decided_by : String)
      → (carry_out h k v d p pl decided_by).0.proposals
        ≡ (claim v.proposals p.id pl.new_status pl.resolution decided_by d.at_claim).0
  unfolding carry_out
  proposals-carry_out v d p pl decided_by =
      elim (Bool-cases
        (claim v.proposals p.id pl.new_status pl.resolution decided_by d.at_claim).1) [
          | inr c ↦ rw c refl
          | inl c ↦ rw c (
              proposals-apply_resolution (claimed_vault v d p pl decided_by) d p pl.resolution
                pl.invalidate_target decided_by)
        ]

  decide-IsClosed :
      (v w : Vault) (o : Outcome) (d : Draws) (proposal_id verdict decided_by : String)
      → decide_conflict_proposal h k v d proposal_id verdict decided_by ≡ (w, o)
      → has_claimed o ≡ true
      → IsClosed proposal_id w.proposals
  decide-IsClosed v w o d proposal_id verdict decided_by e won =
      let inv = decide_inv h k v w o d proposal_id verdict decided_by e won in
      let p = inv.0 in
      let pl = inv.1 in
      let run = carry_out_inv h k v w o d p pl decided_by inv.5 won in
      let named =
        (eq_iff p.id proposal_id).0 (find?_holds (has_id proposal_id) v.proposals inv.2) in
      let claimed = claim v.proposals p.id pl.new_status pl.resolution decided_by d.at_claim in
      let kept : w.proposals ≡ claimed.0 =
        ap (λ (r : Vault × Outcome). r.0.proposals) (sym inv.5)
        ∙ proposals-carry_out v d p pl decided_by in
      subst (IsClosed proposal_id) (sym kept) (
        subst (λ i. IsClosed i claimed.0) named
          (claim-IsClosed k p.id v.proposals pl.new_status pl.resolution decided_by d.at_claim
            (plan_decides verdict p pl inv.4) run.0))

  decide_closed :
      (v : Vault) (d : Draws) (proposal_id verdict decided_by : String)
      → IsClosed proposal_id v.proposals
      → ((decide_conflict_proposal h k v d proposal_id verdict decided_by).0 ≡ v)
        × (has_claimed (decide_conflict_proposal h k v d proposal_id verdict decided_by).1 ≡ false)
  decide_closed v d proposal_id verdict decided_by c =
      elim (decide_cases h k v d proposal_id verdict decided_by) [
        | inl same ↦ same
        | inr (p, pl, f, s, n, run) ↦
            absurd (ground (arith, s, closed_status proposal_id v.proposals p c f))
      ]

  -- A decision that won its claim, also one that crashed after it, is the last on its proposal:
  -- whatever happens to the queue in between, a further decision, by any verdict, changes nothing
  -- and claims nothing.
  pub decide_once :
      (v w u : Vault) (o : Outcome) (d d' : Draws)
      (proposal_id verdict verdict' decided_by decided_by' : String)
      → decide_conflict_proposal h k v d proposal_id verdict decided_by ≡ (w, o)
      → has_claimed o ≡ true
      → Acts k w.proposals u.proposals
      → ((decide_conflict_proposal h k u d' proposal_id verdict' decided_by').0 ≡ u)
        × (has_claimed (decide_conflict_proposal h k u d' proposal_id verdict' decided_by').1
            ≡ false)
  decide_once v w u o d d' proposal_id verdict verdict' decided_by decided_by' e won acts =
      decide_closed u d' proposal_id verdict' decided_by' (
        Acts-IsClosed k proposal_id w.proposals u.proposals acts
          (decide-IsClosed v w o d proposal_id verdict decided_by e won))
