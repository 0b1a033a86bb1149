-- ===== src/Conflicts/Race.antt =====
-- The queue among concurrent claims and flags (afair/substrate/conflict_resolutions.py).
use afair.Prelude.{
  ℕ, ◌≡◌, ◌∙◌, refl, ap, sym, subst, inl, inr, String, str_eq, eq_iff, true, false, none, [], ◌∷◌,
  ◌++◌, find?, count, is_some, ◌==◌, arith, Option-cases, Bool-cases, find?-update-none,
  find?-update_hit, find?-append_other, count_absent, find?-append_some, is_some-find?-update,
  find?-none_sub,
}
use afair.Substrate.Interpretations.{Likes}
use afair.Conflicts.Queue.{
  ProposalStatus, is_proposed, Resolution, Proposals, Flag, has_id, is_open, proposal_of, claim,
}

-- What happens to the queue: a claim for a decision, or a new proposal.
pub data Act (k : Likes) (ps qs : Proposals) : Type 0 where
  claims :
      (proposal_id : String) (status : ProposalStatus) (resolution : Resolution)
      (decided_by : String) (now : ℕ)
      → is_proposed status ≡ false
      → qs ≡ (claim ps proposal_id status resolution decided_by now).0
      → Act k ps qs
  enqueues :
      (f : Flag) (proposal_id : String) (now : ℕ)
      → find? (has_id proposal_id) ps ≡ none
      → qs ≡ ps ++ proposal_of k f proposal_id now ∷ []
      → Act k ps qs

pub data Acts (k : Likes) (ps : Proposals) : Proposals → Type 0 where
  here : Acts k ps ps
  next : {qs rs : Proposals} → Acts k ps qs → Act k qs rs → Acts k ps rs

-- A proposal that is there, and not open.
pub record IsClosed (proposal_id : String) (ps : Proposals) : Type 0 where
  pub there : is_some (find? (has_id proposal_id) ps) ≡ true
  pub shut : find? (is_open proposal_id) ps ≡ none

module _ (k : Likes) (proposal_id : String) where
  Act-IsClosed :
      (ps qs : Proposals) → Act k ps qs → IsClosed proposal_id ps → IsClosed proposal_id qs
  unfolding claim
  Act-IsClosed ps qs (claims id status resolution decided_by now done e) c =
      subst (IsClosed proposal_id) (sym e) (record {
        there = is_some-find?-update (is_open id) (has_id proposal_id) _ ps (λ r. refl) ∙ c.there;
        shut =
            find?-update-none (is_open id) (is_open proposal_id) _ ps (λ r h. ground (arith, h))
              c.shut;
      })
  Act-IsClosed ps qs (enqueues f' id now free e) c =
      elim (Option-cases (find? (has_id proposal_id) ps)) [
        | inl f ↦ absurd (ground (arith, f, c.there))
        | inr (p, f) ↦ elim (Bool-cases (str_eq id proposal_id)) [
          | inl same ↦
              let gone =
                subst (λ i. find? (has_id i) ps ≡ none) ((eq_iff id proposal_id).0 same) free in
              absurd (ground (arith, f, gone))
          | inr other ↦ subst (IsClosed proposal_id) (sym e) (record {
            there = ap is_some (
                find?-append_some (has_id proposal_id) ps (proposal_of k f' id now ∷ []) {a = p} f);
            shut =
                find?-append_other (is_open proposal_id) ps (proposal_of k f' id now)
                  (ground (arith, other))
                ∙ c.shut;
          })
        ]
      ]

  pub Acts-IsClosed :
      (ps qs : Proposals) → Acts k ps qs → IsClosed proposal_id ps → IsClosed proposal_id qs
  Acts-IsClosed ps qs here c = c
  Acts-IsClosed ps rs (next {qs = qs} before act) c =
      Act-IsClosed qs rs act (Acts-IsClosed ps qs before c)

  claimed_there :
      (ps : Proposals)
      → (count (is_open proposal_id) ps == 1) ≡ true
      → is_some (find? (has_id proposal_id) ps) ≡ true
  claimed_there ps won = elim (Option-cases (find? (has_id proposal_id) ps)) [
    | inr (p, f) ↦ rw f refl
    | inl f ↦
        let none' =
          find?-none_sub (is_open proposal_id) (has_id proposal_id) ps (λ r h. ground (arith, h))
            f in
        absurd (ground (arith, won, count_absent (is_open proposal_id) ps none'))
  ]

  pub claim-IsClosed :
      (ps : Proposals) (status : ProposalStatus) (resolution : Resolution) (decided_by : String)
      (now : ℕ)
      → is_proposed status ≡ false
      → (claim ps proposal_id status resolution decided_by now).1 ≡ true
      → IsClosed proposal_id (claim ps proposal_id status resolution decided_by now).0
  unfolding claim
  claim-IsClosed ps status resolution decided_by now done won = record {
    there =
        is_some-find?-update (is_open proposal_id) (has_id proposal_id) _ ps (λ r. refl)
        ∙ claimed_there ps won;
    shut =
        find?-update_hit (is_open proposal_id) (is_open proposal_id) _ ps (λ r h. h)
          (λ r. ground (arith, done));
  }

  -- A proposal that is closed is not claimed again.
  claim_closed :
      (ps : Proposals) (status : ProposalStatus) (resolution : Resolution) (decided_by : String)
      (now : ℕ)
      → IsClosed proposal_id ps
      → (claim ps proposal_id status resolution decided_by now).1 ≡ false
  unfolding claim
  claim_closed ps status resolution decided_by now c =
      rw (count_absent (is_open proposal_id) ps c.shut) refl

  -- Of all decisions on a proposal at most one wins the claim: whatever claims and new proposals
  -- came between, a later claim of a proposal that was claimed fails.
  pub claim_once :
      (ps qs : Proposals) (status status' : ProposalStatus) (resolution resolution' : Resolution)
      (decided_by decided_by' : String) (now now' : ℕ)
      → is_proposed status ≡ false
      → (claim ps proposal_id status resolution decided_by now).1 ≡ true
      → Acts k (claim ps proposal_id status resolution decided_by now).0 qs
      → (claim qs proposal_id status' resolution' decided_by' now').1 ≡ false
  claim_once ps qs status status' resolution resolution' decided_by decided_by' now now' done won
        acts =
      claim_closed qs status' resolution' decided_by' now'
        (Acts-IsClosed _ qs acts (claim-IsClosed ps status resolution decided_by now done won))
