-- ===== src/Substrate/Events.antt =====
-- The table `events`, its index of searchable texts, and the writes on them
-- (afair/substrate/events.py). Times are microseconds since the epoch; an empty list of parents
-- stands for NULL.
use afair.Prelude.{
  ℕ, String, str_eq, Bool, true, false, ◌&&◌, Option, none, some, List, [], ◌∷◌, ◌++◌, find?,
  is_some, select, sort_by, ltb, take, if◌then◌else◌,
}

-- A payload as far as the program reads it again: an invalidation, the record of an operator's
-- action, or any other one by its canonical JSON.
pub data Payload : Type 0 where
  invalidates : (target_hash : String) → (reason : Option String) → Payload
  action :
      (action subject result : String) (invalidation_event_id : Option String) (decided_by : String)
      → Payload
  other : (canonical_json : String) → Payload

pub record EventRow : Type 0 where
  pub id : String
  pub content_hash : String
  pub created_at : ℕ
  pub origin : String
  pub kind : String
  pub payload : Payload
  pub parent_hashes : List String

abbrev pub Events : Type 0
Events = List EventRow

-- `payload.py`'s hash and search text, and the order of texts.
pub record Host : Type 0 where
  pub content_hash : (kind origin : String) → Payload → (parent_hashes : List String) → String
  pub sorted : List String → List String
  pub searchable : Payload → (body_override : Option String) → String

pub record Log : Type 0 where
  pub events : Events
  pub fts : List (String × String)

abbrev pub hashed : String → EventRow → Bool
hashed chash r = str_eq r.content_hash chash

abbrev pub has_id : String → EventRow → Bool
has_id id r = str_eq r.id id

unfoldable pub read_event_by_hash : Events → String → Option EventRow
read_event_by_hash events chash = find? (hashed chash) events

unfoldable pub read_event_by_id : Events → String → Option EventRow
read_event_by_id events event_id = find? (has_id event_id) events

-- What a caller gives of an event.
pub record Draft : Type 0 where
  pub origin : String
  pub kind : String
  pub payload : Payload
  pub parent_hashes : List String
  pub created_at : Option ℕ
  pub searchable_body : Option String

abbrev pub or_now : Option ℕ → ℕ → ℕ
or_now none now = now
or_now (some t) now = t

module _ (h : Host) where
  abbrev pub draft_hash : Draft → String
  draft_hash d = h.content_hash d.kind d.origin d.payload (h.sorted d.parent_hashes)

  abbrev pub row_of : Draft → (event_id : String) (now : ℕ) → EventRow
  row_of d event_id now = record {
    id = event_id;
    content_hash = draft_hash d;
    created_at = or_now d.created_at now;
    origin = d.origin;
    kind = d.kind;
    payload = d.payload;
    parent_hashes = h.sorted d.parent_hashes;
  }

  -- `write_event_with_status`, with the drawn id. `none` is the IntegrityError of an id that is
  -- taken; that the row of a hash that is there cannot be read does not happen on one table.
  unfoldable pub write_event_with_status :
      Log → Draft → (event_id : String) (now : ℕ) → Option (Log × EventRow × Bool)
  write_event_with_status l d event_id now = elim (read_event_by_hash l.events (draft_hash d)) [
    | some existing ↦ some (l, existing, false)
    | none ↦
        if is_some (read_event_by_id l.events event_id)
        then none
        else some (
          record {
            events = l.events ++ row_of d event_id now ∷ [];
            fts = l.fts ++ (draft_hash d, h.searchable d.payload d.searchable_body) ∷ [];
          },
          row_of d event_id now,
          true,
        )
  ]

  unfoldable pub write_event : Log → Draft → (event_id : String) (now : ℕ) → Option (Log × EventRow)
  write_event l d event_id now = elim (write_event_with_status l d event_id now) [
    | none ↦ none
    | some (l', event, inserted) ↦ some (l', event)
  ]

abbrev matches : Option String → String → Bool
matches none s = true
matches (some t) s = str_eq s t

abbrev limited : Option ℕ → List EventRow → List EventRow
limited none rows = rows
limited (some n) rows = take n rows

-- `iter_events`; `asc` is the order "asc".
unfoldable pub iter_events :
    Events → (kind origin : Option String) → (limit : Option ℕ) → (asc : Bool) → List EventRow
iter_events events kind origin limit asc = limited limit (
    sort_by (λ a b. if asc then ltb a.created_at b.created_at else ltb b.created_at a.created_at)
      (select (λ r. matches kind r.kind && matches origin r.origin) events))
