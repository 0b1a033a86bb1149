-- ===== src/Conflicts/Settled.antt =====
-- The well formed queue, and when a pair is settled (afair/substrate/conflict_resolutions.py).
use Prim.Native.String.{◌++◌ as ◌+++◌}
use afair.Prelude.{
  ℕ, ◌≤◌, ◌≡◌, ◌∙◌, refl, ap, sym, subst, inl, inr, String, str_eq, eq_iff, eq_refl, true, false,
  ◌||◌, Option, none, some, [], ◌∷◌, ◌++◌, find?, count, update, is_some, arith, All, All-update,
  All-append_one, Option-cases, Bool-cases, count-append_one, count-update, count-update_hit,
  count_absent, find?-count_zero, find?_sub, find?_holds,
}
use afair.Substrate.Events.{Host}
use afair.Substrate.Interpretations.{Likes}
use afair.Conflicts.Queue.{
  Proposal, Proposals, ProposalStatus, Resolution, Flag, Vault, is_proposed, has_id, is_open,
  open_pair, resolves, pair_key_for, pair_is_settled, proposal_of, enqueue_conflict_proposal,
  decided, claim,
}
use afair.Conflicts.Decide.{Draws, Outcome, decide_conflict_proposal}
use afair.Conflicts.Carried.{has_claimed, decide_cases, decide_inv}
use afair.Conflicts.Once.{plan_decides, proposals-carry_out}

-- The queue is well formed: a proposal's key is that of its hashes, and at most one proposal of a
-- pair is open.
pub record IsQueue (k : Likes) (ps : Proposals) : Type 0 where
  pub keyed : All (λ p. p.pair_key ≡ pair_key_for k p.event_a_hash p.event_b_hash) ps
  pub single : (pair_key : String) → count (open_pair pair_key) ps ≤ 1

module _ (k : Likes) where
  -- A flag is put on the queue only where its pair has no open proposal, so that at most one
  -- proposal of a pair is open.
  pub enqueue_conflict_proposal-IsQueue :
      (v w : Vault) (f' : Flag) (drawn : String) (now : ℕ) (id : Option String)
      → enqueue_conflict_proposal k v f' drawn now ≡ some (w, id)
      → IsQueue k v.proposals
      → IsQueue k w.proposals
  unfolding enqueue_conflict_proposal pair_is_settled
  enqueue_conflict_proposal-IsQueue v w f' drawn now id e q =
      let key = pair_key_for k f'.event_a_hash f'.event_b_hash in
      let r = proposal_of k f' ("cfl_" +++ drawn) now in
      elim (Bool-cases (pair_is_settled v key)) [
        | inl s ↦
            let same : v ≡ w = ground (arith, s, e) in
            subst (λ (u : Vault). IsQueue k u.proposals) same q
        | inr s ↦ elim (Bool-cases (is_some (find? (has_id ("cfl_" +++ drawn)) v.proposals))) [
          | inl t ↦ absurd (ground (arith, s, t, e))
          | inr t ↦
              let new : v.proposals ++ r ∷ [] ≡ w.proposals = ground (arith, s, t, e) in
              let absent : find? (open_pair key) v.proposals ≡ none =
                elim (Option-cases (find? (open_pair key) v.proposals)) [
                  | inl n ↦ n
                  | inr (a, n) ↦ absurd (ground (arith, s, n))
                ] in
              let more =
                λ (pair_key : String). count-append_one (open_pair pair_key) v.proposals r in
              subst (IsQueue k) new (record {
                keyed = All-append_one _ v.proposals r q.keyed refl;
                single = λ pair_key. elim (Bool-cases (str_eq key pair_key)) [
                  | inr o ↦ ground (arith, o, q.single pair_key, more pair_key)
                  | inl o ↦ ground (
                    arith,
                    o,
                    more pair_key,
                    subst (λ i. count (open_pair i) v.proposals ≡ 0) ((eq_iff key pair_key).0 o)
                        (count_absent (open_pair key) v.proposals absent),
                  )
                ];
              })
        ]
      ]

  claim-IsQueue :
      (ps : Proposals) (proposal_id : String) (status : ProposalStatus) (resolution : Resolution)
      (decided_by : String) (now : ℕ)
      → is_proposed status ≡ false
      → IsQueue k ps
      → IsQueue k (claim ps proposal_id status resolution decided_by now).0
  unfolding claim
  claim-IsQueue ps proposal_id status resolution decided_by now s q = record {
    keyed = All-update _ (is_open proposal_id) _ ps (λ r h. h) q.keyed;
    single = λ pair_key. omega (
      arith,
      q.single pair_key,
      count-update (is_open proposal_id) (open_pair pair_key)
          (decided status resolution decided_by now) (λ r h. ground (arith, s)) ps,
    );
  }

  -- A claim closes the only open proposal of the pair.
  claim-open_pair :
      (ps : Proposals) (p : Proposal) (status : ProposalStatus) (resolution : Resolution)
      (decided_by : String) (now : ℕ)
      → is_proposed status ≡ false
      → IsQueue k ps
      → find? (has_id p.id) ps ≡ some p
      → is_proposed p.status ≡ true
      → find? (open_pair p.pair_key) (claim ps p.id status resolution decided_by now).0 ≡ none
  unfolding claim
  claim-open_pair ps p status resolution decided_by now s q f t =
      let found : find? (is_open p.id) ps ≡ some p =
        find?_sub (is_open p.id) (has_id p.id) ps {a = p} (λ r h. ground (arith, h)) f
          (ground (arith, t, eq_refl p.id)) in
      let fewer =
        count-update_hit (is_open p.id) (open_pair p.pair_key)
          (decided status resolution decided_by now) (λ r h. ground (arith, s)) ps {a = p} found
          (ground (arith, t, eq_refl p.pair_key)) in
      find?-count_zero (open_pair p.pair_key)
        (update (is_open p.id) (decided status resolution decided_by now) ps)
        (omega (arith, fewer, q.single p.pair_key))

module _ (h : Host) (k : Likes) where
  -- A decision keeps the queue well formed, however it ends.
  decide_conflict_proposal-IsQueue :
      (v : Vault) (d : Draws) (proposal_id verdict decided_by : String)
      → IsQueue k v.proposals
      → IsQueue k (decide_conflict_proposal h k v d proposal_id verdict decided_by).0.proposals
  decide_conflict_proposal-IsQueue v d proposal_id verdict decided_by q =
      elim (decide_cases h k v d proposal_id verdict decided_by) [
        | inl (same, lost) ↦ rw same q
        | inr (p, pl, f, s, n, run) ↦ rw run (
            rw (proposals-carry_out h k v d p pl decided_by) (
              claim-IsQueue k v.proposals p.id pl.new_status pl.resolution decided_by d.at_claim
                (plan_decides verdict p pl n) q))
      ]

  -- Once a decision has won its claim, its pair is settled exactly if the record of the resolution
  -- is there: a decision that crashed before it leaves the pair open to be asked about again.
  pub pair_is_settled-decide_conflict_proposal :
      (v w : Vault) (o : Outcome) (d : Draws) (p : Proposal)
      (proposal_id verdict decided_by : String)
      → IsQueue k v.proposals
      → find? (has_id proposal_id) v.proposals ≡ some p
      → decide_conflict_proposal h k v d proposal_id verdict decided_by ≡ (w, o)
      → has_claimed o ≡ true
      → pair_is_settled w p.pair_key ≡ is_some (find? (resolves p.pair_key) w.interpretations)
  unfolding pair_is_settled
  pair_is_settled-decide_conflict_proposal v w o d p proposal_id verdict decided_by q f e won =
      let inv = decide_inv h k v w o d proposal_id verdict decided_by e won in
      let p' = inv.0 in
      let pl = inv.1 in
      let one : p ≡ p' = ground (arith, f, inv.2) in
      let named =
        (eq_iff p'.id proposal_id).0 (find?_holds (has_id proposal_id) v.proposals inv.2) in
      let kept : w.proposals
          ≡ (claim v.proposals p'.id pl.new_status pl.resolution decided_by d.at_claim).0 =
        ap (λ (r : Vault × Outcome). r.0.proposals) (sym inv.5)
        ∙ proposals-carry_out h k v d p' pl decided_by in
      let shut =
        claim-open_pair k v.proposals p' pl.new_status pl.resolution decided_by d.at_claim
          (plan_decides verdict p' pl inv.4) q
          (subst (λ i. find? (has_id i) v.proposals ≡ some p') (sym named) inv.2) inv.3 in
      let closed : find? (open_pair p.pair_key) w.proposals ≡ none =
        subst (λ (r : Proposal). find? (open_pair r.pair_key) w.proposals ≡ none) (sym one)
          (ap (find? (open_pair p'.pair_key)) kept ∙ shut) in
      ap (λ b. b || is_some (find? (resolves p.pair_key) w.interpretations)) (ap is_some closed)
