-- ===== src/Substrate/Invalidations.antt =====
-- Invalidations as events (afair/agents/invalidation.py).
use afair.Prelude.{
  ℕ, String, str_eq, Bool, false, ◌&&◌, Option, none, some, [], ◌∷◌, select, first_by, ltb,
}
use afair.Substrate.Events.{
  Payload, invalidates, action, other, EventRow, Events, Host, Log, Draft, write_event,
}

abbrev pub invalidate_kind : String
invalidate_kind = "invalidate"

pub record InvalidationInfo : Type 0 where
  pub at : ℕ
  pub by_event_id : String
  pub reason : Option String

abbrev pub invalidation_draft :
    (target_hash : String) → (reason : Option String) → (origin : String) → Draft
invalidation_draft target_hash reason origin = record {
  origin = origin;
  kind = invalidate_kind;
  payload = invalidates target_hash reason;
  parent_hashes = target_hash ∷ [];
  created_at = none;
  searchable_body = none;
}

unfoldable pub write_invalidation :
    Host
    → Log
    → (target_hash : String) → (reason : Option String) → (origin event_id : String) (now : ℕ)
    → Option (Log × EventRow)
write_invalidation h l target_hash reason origin event_id now =
    write_event h l (invalidation_draft target_hash reason origin) event_id now

abbrev pub target_of : Payload → Option String
target_of (invalidates target_hash reason) = some target_hash
target_of (action a s r i d) = none
target_of (other j) = none

abbrev reason_of : Payload → Option String
reason_of (invalidates target_hash reason) = reason
reason_of (action a s r i d) = none
reason_of (other j) = none

abbrev pub targets : String → Option String → Bool
targets content_hash none = false
targets content_hash (some t) = str_eq t content_hash

-- `kind = ? AND json_extract(payload, '$.target_hash') = ?`: the target of a payload of the
-- program's own; an invalidation that another writer made may have any payload.
abbrev pub invalidates_hash : String → EventRow → Bool
invalidates_hash content_hash r =
    str_eq r.kind invalidate_kind && targets content_hash (target_of r.payload)

abbrev pub later : EventRow → EventRow → Bool
later a b = ltb b.created_at a.created_at

abbrev pub info : EventRow → InvalidationInfo
info r = record { at = r.created_at; by_event_id = r.id; reason = reason_of r.payload }

abbrev pub info_of : Option EventRow → Option InvalidationInfo
info_of none = none
info_of (some r) = some (info r)

unfoldable pub read_invalidation : Events → String → Option InvalidationInfo
read_invalidation events content_hash =
    info_of (first_by later (select (invalidates_hash content_hash) events))
