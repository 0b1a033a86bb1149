-- ===== src/Substrate/Samples.antt =====
-- A hash and an order of texts to compute with, in place of those that the program takes.
use Prim.Native.String.{◌++◌ as ◌+++◌}
use afair.Prelude.{String, str_eq, Bool, false, if◌then◌else◌}
use afair.Substrate.Events.{Payload, invalidates, other, Host}
use afair.Substrate.Interpretations.{Producer, base, retry, Likes}

abbrev body : Payload → String
body (invalidates target reason) = target
body (other j) = j
body _ = "action"

abbrev pub host : Host
host = record {
  content_hash = λ kind origin payload parents. kind +++ ":" +++ body payload;
  sorted = λ l. l;
  searchable = λ payload override. body payload;
}

abbrev like_retry : String → Producer → Bool
like_retry b (base s) = false
like_retry b (retry s n) = str_eq s b

abbrev is_extractor : Producer → Bool
is_extractor (base s) = str_eq s "extractor:m"
is_extractor (retry s n) = str_eq s "extractor:m"

abbrev pub likes : Likes
likes = record {
  like_retry = like_retry;
  is_extractor = is_extractor;
  rank = λ s. if str_eq s "observe:b" then 1 else 0;
}
