-- ===== src/Conflicts/Carried.antt =====
-- What a decision that won its claim went through (afair/substrate/conflict_resolutions.py).
use afair.Prelude.{
  ◌≡◌, refl, sym, inl, inr, String, str_eq, Bool, true, false, not, ◌||◌, some, find?, arith,
  Option-cases, Bool-cases, ap, subst, ◌∙◌, ◌⊎◌,
}
use afair.Substrate.Events.{Host}
use afair.Substrate.Interpretations.{Likes}
use afair.Conflicts.Queue.{Proposal, Vault, is_proposed, has_id, claim}
use afair.Conflicts.Decide.{
  Draws, Outcome, bad_verdict, not_found, already_decided, applied_outcome, rejected_outcome,
  crashed, outcome_of, Plan, plan, apply_resolution, carry_out, decide_conflict_proposal,
}

-- The outcomes of a decision that won the claim.
abbrev pub has_claimed : Outcome → Bool
has_claimed bad_verdict = false
has_claimed not_found = false
has_claimed already_decided = false
has_claimed applied_outcome = true
has_claimed rejected_outcome = true
has_claimed crashed = true

abbrev pub claimed_vault : Vault → Draws → Proposal → Plan → (decided_by : String) → Vault
claimed_vault v d p pl decided_by = record v {
  proposals = (claim v.proposals p.id pl.new_status pl.resolution decided_by d.at_claim).0;
}

module _ (h : Host) (k : Likes) where
  pub carry_out_inv :
      (v w : Vault) (o : Outcome) (d : Draws) (p : Proposal) (pl : Plan) (decided_by : String)
      → carry_out h k v d p pl decided_by ≡ (w, o)
      → has_claimed o ≡ true
      → let done =
          apply_resolution h k
            (claimed_vault v d p pl decided_by)
            d
            p
            pl.resolution
            pl.invalidate_target
            decided_by in
        ((claim v.proposals p.id pl.new_status pl.resolution decided_by d.at_claim).1 ≡ true)
        × (w ≡ done.0)
        × (outcome_of pl.new_status done.1 ≡ o)
  unfolding carry_out
  carry_out_inv v w o d p pl decided_by e won =
      elim (Bool-cases
        (claim v.proposals p.id pl.new_status pl.resolution decided_by d.at_claim).1) [
          | inl c ↦ (c, ground (arith, c, e), ground (arith, c, e))
          | inr c ↦
              let same : already_decided ≡ o = ground (arith, c, e) in
              absurd (ground (arith, won, ap has_claimed same))
        ]

  -- A decision that is not carried out changes nothing.
  pub decide_cases :
      (v : Vault) (d : Draws) (proposal_id verdict decided_by : String)
      → let decision = decide_conflict_proposal h k v d proposal_id verdict decided_by in
        ((decision.0 ≡ v) × (has_claimed decision.1 ≡ false))
        ⊎ ((p : Proposal) × (pl : Plan) × (find? (has_id proposal_id) v.proposals ≡ some p)
            × (is_proposed p.status ≡ true)
            × (plan verdict p ≡ some pl)
            × (decision ≡ carry_out h k v d p pl decided_by))
  unfolding decide_conflict_proposal
  decide_cases v d proposal_id verdict decided_by =
      elim (Bool-cases
        (not (str_eq verdict "confirm" || str_eq verdict "reject" || str_eq verdict "retract"))) [
          | inl b ↦ inl (rw b refl, rw b refl)
          | inr b ↦ elim (Option-cases (find? (has_id proposal_id) v.proposals)) [
            | inl f ↦ inl (rw (b, f) refl, rw (b, f) refl)
            | inr (p, f) ↦ elim (Bool-cases (is_proposed p.status)) [
              | inr s ↦ inl (rw (b, f, s) refl, rw (b, f, s) refl)
              | inl s ↦ elim (Option-cases (plan verdict p)) [
                | inl n ↦ inl (rw (b, f, s, n) refl, rw (b, f, s, n) refl)
                | inr (pl, n) ↦ inr (p, pl, f, s, n, rw (b, f, s, n) refl)
              ]
            ]
          ]
        ]

  pub decide_inv :
      (v w : Vault) (o : Outcome) (d : Draws) (proposal_id verdict decided_by : String)
      → decide_conflict_proposal h k v d proposal_id verdict decided_by ≡ (w, o)
      → has_claimed o ≡ true
      → (p : Proposal) × (pl : Plan) × (find? (has_id proposal_id) v.proposals ≡ some p)
        × (is_proposed p.status ≡ true)
        × (plan verdict p ≡ some pl)
        × (carry_out h k v d p pl decided_by ≡ (w, o))
  decide_inv v w o d proposal_id verdict decided_by e won =
      elim (decide_cases v d proposal_id verdict decided_by) [
        | inl (same, lost) ↦
            let lost' : has_claimed o ≡ false =
              subst (λ (r : Vault × Outcome). has_claimed r.1 ≡ false) e lost in
            absurd (ground (arith, won, lost'))
        | inr (p, pl, f, s, n, run) ↦ (p, pl, f, s, n, sym run ∙ e)
      ]
