-- ===== src/Conflicts/Effect.antt =====
-- What an applied decision does to the invalidations that are read
-- (afair/substrate/conflict_resolutions.py).
use afair.Prelude.{
  ◌≡◌, ◌≢◌, ◌∙◌, refl, ap, sym, subst, inl, inr, String, str_eq, eq_iff, Bool, true, false, Option,
  some, find?, is_some, arith, Option-cases, Bool-cases, if◌then◌else◌,
}
use Prim.Native.String.{◌++◌ as ◌+++◌}
use afair.Substrate.Events.{Host, Log, EventRow, write_event, read_event_by_hash}
use afair.Substrate.Interpretations.{Likes, write_interpretation}
use afair.Substrate.Invalidations.{read_invalidation, invalidation_draft, write_invalidation}
use afair.Substrate.Superseded.{
  NoCollision, read_invalidation-write_event, read_invalidation-write_invalidation,
}
use afair.Conflicts.Queue.{
  ProposalStatus, rejected, Resolution, Proposal, Vault, has_id, pair_key_for,
}
use afair.Conflicts.Carried.{claimed_vault, carry_out_inv, decide_inv}
use afair.Conflicts.Decide.{
  Draws, applied_outcome, outcome_of, older_hash, Plan, plan, invalidate_loser, invalidation_reason,
  action_draft, extraction_of, record_resolution, apply_resolution, decide_conflict_proposal,
}

-- The hash that an operator's verdict rules out: "retract" the newer, else the older.
abbrev pub loser : (verdict : String) → Proposal → String
loser verdict p = if str_eq verdict "retract" then p.newer_hash else older_hash p

applied_end :
    (status : ProposalStatus) (b : Bool) → outcome_of status b ≡ applied_outcome → b ≡ true
applied_end status false e = cc
applied_end status true e = refl

not_rejected : (b : Bool) → outcome_of rejected b ≢ applied_outcome
not_rejected false e = cc
not_rejected true e = cc

plan-loser :
    (verdict : String) (p : Proposal) (pl : Plan)
    → plan verdict p ≡ some pl
    → pl.new_status ≢ rejected
    → pl.invalidate_target ≡ some (loser verdict p)
unfolding plan
plan-loser verdict p pl e n = elim (Bool-cases (str_eq verdict "reject")) [
  | inl r ↦ absurd (n (ground (arith, r, e)))
  | inr r ↦ elim (Bool-cases (str_eq verdict "confirm")) [
    | inl c ↦
        let other : str_eq verdict "retract" ≡ false = rw ((eq_iff verdict "confirm").0 c) refl in
        ground (arith, r, c, e, other)
    | inr c ↦ ground (arith, r, c, e)
  ]
]

module _ (h : Host) (k : Likes) where
  -- The record of a resolution invalidates nothing.
  record_resolution-invalidation :
      (v : Vault) (d : Draws) (p : Proposal) (resolution : Resolution) (inv : Option String)
      (decided_by : String) (event_b : EventRow) (c : String)
      → read_invalidation
          (record_resolution h k v d p resolution inv decided_by event_b).0.log.events
          c
        ≡ read_invalidation v.log.events c
  unfolding record_resolution
  record_resolution-invalidation v d p resolution inv decided_by event_b c =
      let key = pair_key_for k p.event_a_hash p.event_b_hash in
      elim (Option-cases (
        write_interpretation k v.interpretations event_b 1 ("conflict_resolution:v1:" +++ key)
          (extraction_of d p resolution inv) d.interp_id d.at_interp)) [
            | inl f ↦ rw (f, record_resolution) refl
            | inr ((rows, i), f) ↦
                let draft = action_draft p.id resolution inv decided_by in
                elim (Option-cases (write_event h v.log draft d.action_id d.at_action)) [
                  | inl g ↦ ground (arith, f, g)
                  | inr ((l, e), g) ↦ ground (
                    arith,
                    f,
                    g,
                    read_invalidation-write_event h v.log l draft d.action_id d.at_action e c g
                        refl,
                  )
                ]
          ]

  invalidate_loser_lem :
      (l l' : Log) (d : Draws) (target : String) (inv : Option String)
      → invalidate_loser h k l d (some target) ≡ some (l', inv)
      → NoCollision h l (invalidation_draft target invalidation_reason "user")
      → (is_some (read_invalidation l'.events target) ≡ true)
        × ((c : String) → c ≢ target → read_invalidation l'.events c ≡ read_invalidation l.events c)
  unfolding invalidate_loser write_invalidation
  invalidate_loser_lem l l' d target inv e free =
      elim (Option-cases (read_invalidation l.events target)) [
        | inr (already, f) ↦
            let same : l ≡ l' = ground (arith, f, e) in
            (rw (← same) (rw f refl), λ c n. rw (← same) refl)
        | inl f ↦
            elim (Option-cases (
              write_invalidation h l target invalidation_reason "user" d.invalidation_id
                d.at_invalidation)) [
                  | inl g ↦ absurd (ground (arith, f, g, e))
                  | inr ((m, event), g) ↦
                      let same : m ≡ l' = ground (arith, f, g, e) in
                      (
                        rw (← same) (
                            read_invalidation-write_invalidation h l m target invalidation_reason
                              "user" d.invalidation_id d.at_invalidation event g free),
                        λ c n. rw (← same) (
                            read_invalidation-write_event h l m
                              (invalidation_draft target invalidation_reason "user")
                              d.invalidation_id d.at_invalidation event c g
                              (ground (arith, n, eq_iff target c))),
                      )
                ]
      ]

  -- A decision that is carried out to its end leaves the losing side invalidated, and the
  -- invalidation of every other event as it was.
  apply_resolution-invalidation :
      (v w : Vault) (d : Draws) (p : Proposal) (resolution : Resolution)
      (target decided_by : String)
      → apply_resolution h k v d p resolution (some target) decided_by ≡ (w, true)
      → NoCollision h v.log (invalidation_draft target invalidation_reason "user")
      → (is_some (read_invalidation w.log.events target) ≡ true)
        × ((c : String)
            → c ≢ target
            → read_invalidation w.log.events c ≡ read_invalidation v.log.events c)
  unfolding apply_resolution
  apply_resolution-invalidation v w d p resolution target decided_by e free =
      elim (Option-cases (invalidate_loser h k v.log d (some target))) [
        | inl f ↦ absurd (ground (arith, f, e))
        | inr ((l, inv), f) ↦
            let done = invalidate_loser_lem v.log l d target inv f free in
            elim (Option-cases (read_event_by_hash l.events p.event_b_hash)) [
              | inl g ↦ let same : w.log ≡ l = ground (arith, f, g, e) in rw same done
              | inr (event_b, g) ↦
                  let recorded =
                    record_resolution h k (record v { log = l }) d p resolution inv decided_by
                      event_b in
                  let same : w ≡ recorded.0 = ground (arith, f, g, e) in
                  let kept =
                    record_resolution-invalidation (record v { log = l }) d p resolution inv
                      decided_by event_b in
                  rw same (ap is_some (kept target) ∙ done.0, λ c n. kept c ∙ done.1 c n)
            ]
      ]

  -- A decision that applies leaves the event that its verdict rules out invalidated: the older one
  -- of the pair on "confirm", the newer one on "retract". The invalidation of every other event is
  -- as it was, and the log has no other event of the invalidation's hash.
  pub decide_conflict_proposal-applied :
      (v w : Vault) (d : Draws) (p : Proposal) (proposal_id verdict decided_by : String)
      → find? (has_id proposal_id) v.proposals ≡ some p
      → decide_conflict_proposal h k v d proposal_id verdict decided_by ≡ (w, applied_outcome)
      → NoCollision h v.log (invalidation_draft (loser verdict p) invalidation_reason "user")
      → (is_some (read_invalidation w.log.events (loser verdict p)) ≡ true)
        × ((c : String)
            → c ≢ loser verdict p
            → read_invalidation w.log.events c ≡ read_invalidation v.log.events c)
  decide_conflict_proposal-applied v w d p proposal_id verdict decided_by f e free =
      let inv = decide_inv h k v w applied_outcome d proposal_id verdict decided_by e refl in
      let q = inv.0 in
      let pl = inv.1 in
      let one : p ≡ q = ground (arith, f, inv.2) in
      let run = carry_out_inv h k v w applied_outcome d q pl decided_by inv.5 refl in
      let v' = claimed_vault v d q pl decided_by in
      let done = apply_resolution h k v' d q pl.resolution pl.invalidate_target decided_by in
      let target =
        plan-loser verdict q pl inv.4
          (λ r. not_rejected done.1 (subst (λ s. outcome_of s done.1 ≡ applied_outcome) r run.2)) in
      let whole : done ≡ (w, true) =
        ground (arith, run.1, applied_end pl.new_status done.1 run.2) in
      apply_resolution-invalidation v' w d q pl.resolution (loser verdict p) decided_by
        (subst (λ o. apply_resolution h k v' d q pl.resolution o decided_by ≡ (w, true))
          (target ∙ ap (λ r. some (loser verdict r)) (sym one)) whole)
        free
