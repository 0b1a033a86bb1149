-- ===== src/Substrate/Superseded.antt =====
-- What an event does to the invalidations that are read (afair/agents/invalidation.py).
use afair.Prelude.{
  ℕ, ◌≡◌, refl, ap, inl, inr, String, eq_iff, eq_refl, Bool, true, false, Option, some, select,
  is_some, first_by, first_by-is_some, arith, All, All-find?, Option-cases, select-append_other,
  find?_holds,
}
use afair.Substrate.Events.{
  EventRow, Host, Log, Draft, hashed, draft_hash, row_of, read_event_by_hash, write_event,
  write_event_with_status,
}
use afair.Substrate.EventLaws.{write_event_cases, read_event_by_hash-write_event}
use afair.Substrate.Invalidations.{
  invalidation_draft, invalidates_hash, later, info_of, target_of, invalidate_kind,
  read_invalidation, write_invalidation,
}

module _ (h : Host) where
  pub write_event_inv :
      (l l' : Log) (d : Draft) (event_id : String) (now : ℕ) (e : EventRow)
      → write_event h l d event_id now ≡ some (l', e)
      → (inserted : Bool) × (write_event_with_status h l d event_id now ≡ some (l', e, inserted))
  unfolding write_event
  write_event_inv l l' d event_id now e w =
      elim (Option-cases (write_event_with_status h l d event_id now)) [
        | inl f ↦ absurd (ground (arith, f, w))
        | inr ((m, r, b), f) ↦ (b, ground (arith, f, w))
      ]

  -- An event that does not invalidate a hash leaves its invalidation as it was.
  pub read_invalidation-write_event :
      (l l' : Log) (d : Draft) (event_id : String) (now : ℕ) (e : EventRow) (content_hash : String)
      → write_event h l d event_id now ≡ some (l', e)
      → invalidates_hash content_hash (row_of h d event_id now) ≡ false
      → read_invalidation l'.events content_hash ≡ read_invalidation l.events content_hash
  unfolding read_invalidation
  read_invalidation-write_event l l' d event_id now e content_hash w other =
      let inv = write_event_inv l l' d event_id now e w in
      elim (write_event_cases h l l' d event_id now e inv.0 inv.1) [
        | inl (same, b, f) ↦ rw same refl
        | inr (new, b, row, f) ↦ rw new (
            ap (λ o. info_of o)
              (ap (first_by later)
                (select-append_other (invalidates_hash content_hash) l.events e (rw row other))))
      ]

  -- No row of the log has the hash of the draft but one of its kind and payload.
  abbrev pub NoCollision : Log → Draft → Type 0
  NoCollision l d =
      All (λ r. hashed (draft_hash h d) r ≡ true → (r.kind ≡ d.kind) × (r.payload ≡ d.payload))
        l.events

  -- After an invalidation was written, its target reads as invalidated.
  pub read_invalidation-write_invalidation :
      (l l' : Log) (target_hash : String) (reason : Option String) (origin event_id : String)
      (now : ℕ) (e : EventRow)
      → write_invalidation h l target_hash reason origin event_id now ≡ some (l', e)
      → NoCollision l (invalidation_draft target_hash reason origin)
      → is_some (read_invalidation l'.events target_hash) ≡ true
  unfolding read_invalidation write_invalidation read_event_by_hash
  read_invalidation-write_invalidation l l' target_hash reason origin event_id now e w free =
      let d = invalidation_draft target_hash reason origin in
      let inv = write_event_inv l l' d event_id now e w in
      let found = read_event_by_hash-write_event h l l' d event_id now e inv.0 inv.1 in
      let hit : invalidates_hash target_hash e ≡ true =
        elim (write_event_cases h l l' d event_id now e inv.0 inv.1) [
          | inr (new, b, row, f) ↦ rw row (eq_refl target_hash)
          | inl (same, b, f) ↦
              let content =
                All-find? _ (hashed (draft_hash h d)) l.events {a = e} free f
                  (find?_holds (hashed (draft_hash h d)) l.events f) in
              ground (
                arith,
                (eq_iff e.kind invalidate_kind).1 content.0,
                ap target_of content.1,
                eq_refl target_hash,
              )
        ] in
      let first =
        first_by-is_some later (invalidates_hash target_hash) (hashed (draft_hash h d)) l'.events
          {a = e} found hit in
      elim (Option-cases (first_by later (select (invalidates_hash target_hash) l'.events))) [
        | inl f ↦ absurd (ground (arith, f, first))
        | inr (r, f) ↦ rw f refl
      ]
