-- ===== src/RateLimit/Buckets.antt =====
-- `TokenBucketRateLimiter`. Its floats are exact here: time is in microseconds, and a token is
-- 60,000,000 units, so that a limiter of r requests a minute refills r units a microsecond.
use afair.Prelude.{
  ℕ, ◌+◌, ◌-◌, ◌*◌, String, str_eq, Bool, true, false, Option, none, some, List, [], ◌∷◌, ◌++◌, min,
  ltb, leb, if◌then◌else◌, length,
}

abbrev pub unit : ℕ
unit = 60000000

-- `_Bucket`.
pub record Bucket : Type 0 where
  pub tokens : ℕ
  pub last_refill : ℕ

-- The dictionary of buckets, least recently used first.
abbrev pub Buckets : Type 0
Buckets = List (String × Bucket)

pub record Limiter : Type 0 where
  pub requests_per_minute : ℕ
  pub capacity : ℕ
  pub max_identities : ℕ
  pub buckets : Buckets

-- A number of seconds as a fraction.
pub record Seconds : Type 0 where
  pub numerator : ℕ
  pub denominator : ℕ

-- `__init__`; the burst multiplier is in hundredths, and `none` is the ValueError.
unfoldable pub init : (requests_per_minute burst_hundredths max_identities : ℕ) → Option Limiter
init requests_per_minute burst_hundredths max_identities =
    if ltb requests_per_minute 1
    then none
    else if ltb burst_hundredths 100
    then none
    else some (record {
      requests_per_minute = requests_per_minute;
      capacity = requests_per_minute * burst_hundredths * 600000;
      max_identities = max_identities;
      buckets = [];
    })

unfoldable pub get : String → Buckets → Option Bucket
get k [] = none
get k ((j, b) ∷ bs) = if str_eq j k then some b else get k bs

unfoldable pub remove : String → Buckets → Buckets
remove k [] = []
remove k ((j, b) ∷ bs) = if str_eq j k then bs else (j, b) ∷ remove k bs

-- The buckets are objects: what is done to one is seen in the dictionary, if it is still there.
unfoldable pub assign : String → Bucket → Buckets → Buckets
assign k c [] = []
assign k c ((j, b) ∷ bs) = if str_eq j k then (j, c) ∷ bs else (j, b) ∷ assign k c bs

-- `_evict_if_full`: the oldest entries go while there are too many.
unfoldable pub evict : ℕ → Buckets → Buckets
evict max_identities [] = []
evict max_identities (b ∷ bs) =
    let rest = evict max_identities bs in
    if ltb max_identities (length (b ∷ bs)) then rest else b ∷ bs

unfoldable pub refill : Limiter → Bucket → ℕ → Bucket
refill l b now = record {
  tokens = min l.capacity (b.tokens + (now - b.last_refill) * l.requests_per_minute);
  last_refill = now;
}

-- The end of `check`: spend a token of the bucket, or say how long until there is one.
unfoldable pub spend : Limiter → String → Bucket → Buckets → Limiter × Bool × Seconds
spend l identity b buckets =
    if leb unit b.tokens
    then (
      record l { buckets = assign identity (record b { tokens = b.tokens - unit }) buckets },
      true,
      record { numerator = 0; denominator = 1 },
    )
    else (
      record l { buckets = buckets },
      false,
      record { numerator = unit - b.tokens; denominator = l.requests_per_minute * 1000000 },
    )

-- `check`. A bucket that is found is refilled and moved to the end.
unfoldable pub check : Limiter → String → ℕ → Limiter × Bool × Seconds
check l identity now = elim (get identity l.buckets) [
  | none ↦
      let b : Bucket = record { tokens = l.capacity; last_refill = now } in
      spend l identity b (evict l.max_identities (l.buckets ++ (identity, b) ∷ []))
  | some old ↦
      let b = refill l old now in
      spend l identity b (remove identity l.buckets ++ (identity, b) ∷ [])
]

unfoldable pub reset : Limiter → Limiter
reset l = record l { buckets = [] }

unfoldable pub size : Limiter → ℕ
size l = length l.buckets
