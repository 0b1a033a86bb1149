-- ===== src/Substrate/EventLaws.antt =====
-- What a write does to the log of events (afair/substrate/events.py).
use afair.Prelude.{
  ℕ, ◌≡◌, ◌∙◌, ◌⊎◌, refl, ap, sym, subst, inl, inr, String, eq_iff, eq_refl, Bool, true, false,
  none, some, List, [], ◌∷◌, ◌++◌, find?, arith, All, All-append_one, map, Option-cases,
  find?-append_some, find?-append_one, find?-append_none,
}
use afair.Substrate.Events.{
  EventRow, Events, Host, Log, Draft, hashed, draft_hash, row_of, read_event_by_hash,
  read_event_by_id, write_event_with_status,
}

abbrev pub Unique : Events → Type 0
Unique [] = Unit {0}
Unique (r ∷ rows) = (find? (hashed r.content_hash) rows ≡ none) × Unique rows

pub record IsLog (h : Host) (l : Log) : Type 0 where
  -- The hash of a row is that of what it holds.
  pub named :
      All (λ r. r.content_hash ≡ h.content_hash r.kind r.origin r.payload r.parent_hashes) l.events
  pub unique : Unique l.events
  -- Every event has one entry in the search index, in order.
  pub indexed : map (λ (e : String × String). e.0) l.fts ≡ map (λ r. r.content_hash) l.events

Unique-append_one :
    (rows : Events) (e : EventRow)
    → Unique rows
    → find? (hashed e.content_hash) rows ≡ none
    → Unique (rows ++ e ∷ [])
unfolding find?
Unique-append_one [] e u f = (refl, tt)
Unique-append_one (r ∷ rows) e u f =
    let other : hashed r.content_hash e ≡ false =
      ground
        (arith, f, eq_iff e.content_hash r.content_hash, eq_iff r.content_hash e.content_hash) in
    let here : find? (hashed r.content_hash) (e ∷ []) ≡ none = ground (arith, other) in
    (
      find?-append_none (hashed r.content_hash) rows (e ∷ []) u.0 ∙ here,
      Unique-append_one rows e u.1 (ground (arith, f)),
    )

map-append_one {ℓ} :
    {A : Type ℓ} (f : A → String) (xs : List A) (a : A)
    → map f (xs ++ a ∷ []) ≡ map f xs ++ f a ∷ []
map-append_one f [] a = refl
map-append_one f (x ∷ xs) a = ap (λ l. f x ∷ l) (map-append_one f xs a)

module _ (h : Host) where
  -- A successful write leaves the log as it was, with the row of that hash, or appends one row.
  pub write_event_cases :
      (l l' : Log) (d : Draft) (event_id : String) (now : ℕ) (e : EventRow) (inserted : Bool)
      → write_event_with_status h l d event_id now ≡ some (l', e, inserted)
      → ((l' ≡ l) × (inserted ≡ false) × (read_event_by_hash l.events (draft_hash h d) ≡ some e))
        ⊎ ((l' ≡ record {
          events = l.events ++ e ∷ [];
          fts = l.fts ++ (draft_hash h d, h.searchable d.payload d.searchable_body) ∷ [];
        })
            × (inserted ≡ true)
            × (e ≡ row_of h d event_id now)
            × (read_event_by_hash l.events (draft_hash h d) ≡ none))
  unfolding write_event_with_status
  write_event_cases l l' d event_id now e inserted w =
      elim (Option-cases (read_event_by_hash l.events (draft_hash h d))) [
        | inl f ↦ elim (Option-cases (read_event_by_id l.events event_id)) [
          | inl g ↦ inr (ground (arith, f, g), ground (arith, f, g), ground (arith, f, g), f)
          | inr (r, g) ↦ absurd (ground (arith, f, g))
        ]
        | inr (r, f) ↦ inl (ground (arith, f), ground (arith, f), ground (arith, f))
      ]

  -- After a write, its row is found by its hash.
  pub read_event_by_hash-write_event :
      (l l' : Log) (d : Draft) (event_id : String) (now : ℕ) (e : EventRow) (inserted : Bool)
      → write_event_with_status h l d event_id now ≡ some (l', e, inserted)
      → read_event_by_hash l'.events (draft_hash h d) ≡ some e
  unfolding read_event_by_hash
  read_event_by_hash-write_event l l' d event_id now e inserted w =
      elim (write_event_cases l l' d event_id now e inserted w) [
        | inl (same, k, f) ↦ rw same f
        | inr (new, k, row, f) ↦ rw new (
            find?-append_one (hashed (draft_hash h d)) l.events e f
              (rw row (eq_refl (draft_hash h d))))
      ]

  -- The log is append-only: after a write, an event that was there still reads as it was.
  pub write_event_append_only :
      (l l' : Log) (d : Draft) (event_id : String) (now : ℕ) (e r : EventRow) (inserted : Bool)
      (chash : String)
      → write_event_with_status h l d event_id now ≡ some (l', e, inserted)
      → read_event_by_hash l.events chash ≡ some r
      → read_event_by_hash l'.events chash ≡ some r
  unfolding read_event_by_hash
  write_event_append_only l l' d event_id now e r inserted chash w f =
      elim (write_event_cases l l' d event_id now e inserted w) [
        | inl (same, k, g) ↦ rw same f
        | inr (new, k, row, g) ↦
            rw new (find?-append_some (hashed chash) l.events (e ∷ []) {a = r} f)
      ]

  -- A write whose content is that of an earlier write changes nothing and gives the earlier row,
  -- whatever its id, its time and its search text.
  pub write_event_twice :
      (l l' : Log) (d d' : Draft) (event_id event_id' : String) (now now' : ℕ) (e : EventRow)
      (inserted : Bool)
      → write_event_with_status h l d event_id now ≡ some (l', e, inserted)
      → draft_hash h d' ≡ draft_hash h d
      → write_event_with_status h l' d' event_id' now' ≡ some (l', e, false)
  unfolding write_event_with_status
  write_event_twice l l' d d' event_id event_id' now now' e inserted w same =
      let found = read_event_by_hash-write_event l l' d event_id now e inserted w in
      let found' : read_event_by_hash l'.events (draft_hash h d') ≡ some e = rw same found in
      ground (arith, found')

  -- A write keeps the log well formed.
  pub write_event-IsLog :
      (l l' : Log) (d : Draft) (event_id : String) (now : ℕ) (e : EventRow) (inserted : Bool)
      → write_event_with_status h l d event_id now ≡ some (l', e, inserted)
      → IsLog h l
      → IsLog h l'
  unfolding read_event_by_hash
  write_event-IsLog l l' d event_id now e inserted w v =
      elim (write_event_cases l l' d event_id now e inserted w) [
        | inl (same, k, f) ↦ subst (IsLog h) (sym same) v
        | inr (new, k, row, f) ↦ subst (IsLog h) (sym new) (record {
          named = All-append_one _ l.events e v.named (rw row refl);
          unique = Unique-append_one l.events e v.unique (rw row f);
          indexed =
              map-append_one (λ (p : String × String). p.0) l.fts
                (draft_hash h d, h.searchable d.payload d.searchable_body)
              ∙ ap (λ (hs : List String). hs ++ draft_hash h d ∷ []) v.indexed
              ∙ rw row (
                  sym (
                    map-append_one (λ (r : EventRow). r.content_hash) l.events
                      (row_of h d event_id now)));
        })
      ]
