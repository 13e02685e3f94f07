-- ===== src/RateLimit.antt =====
-- server/src/inbox/rate-limit.ts: the class `RateLimiter`. Times are milliseconds since 1970. The
-- ISO date of a time up to the year 9999 is determined by, and determines, the number of its day,
-- which stands for it; the empty `dayKey` of a new limiter is `none`.
pub mod History
pub mod Hour
pub mod Day
pub mod Exact
pub mod Notice
mod Examples
use shopify_vitrina.Base.{
  ℕ, ◌+◌, ◌*◌, ◌/◌, Bool, true, false, Option, none, some, List, [], ◌∷◌, ◌++◌, ltb, leb, eqb,
  if◌then◌else◌, length, Text, Dict, lookup, insert, select, not,
}

abbrev pub hour_ms : ℕ
hour_ms = 60 * 60 * 1000

abbrev pub day_ms : ℕ
day_ms = 24 * hour_ms

pub data RateDecision : Type 0 where
  ok phone_limited global_limited : RateDecision

pub record RateLimiterOptions : Type 0 where
  pub per_phone_per_hour : ℕ
  pub global_per_day : ℕ

pub record RateLimiter : Type 0 where
  pub options : RateLimiterOptions
  pub per_phone : Dict (List ℕ)
  pub notice_sent_at : Dict ℕ
  pub day_key : Option ℕ
  pub day_count : ℕ

unfoldable pub init : RateLimiterOptions → RateLimiter
init o = record { options = o; per_phone = []; notice_sent_at = []; day_key = none; day_count = 0 }

abbrev pub day_of : ℕ → ℕ
day_of now = now / day_ms

abbrev pub same_day : ℕ → Option ℕ → Bool
same_day d none = false
same_day d (some e) = eqb d e

-- The first lines of `check`: a new day starts the count again.
unfoldable pub roll_day : RateLimiter → ℕ → RateLimiter
roll_day r now =
    if same_day (day_of now) r.day_key
    then r
    else record r { day_key = some (day_of now); day_count = 0 }

abbrev pub or_empty : Option (List ℕ) → List ℕ
or_empty none = []
or_empty (some ts) = ts

-- `t > now - HOUR_MS`
abbrev pub within_hour : ℕ → ℕ → Bool
within_hour now t = ltb now (t + hour_ms)

unfoldable pub recent : RateLimiter → Text → ℕ → List ℕ
recent r phone now = select (within_hour now) (or_empty (lookup phone r.per_phone))

-- The rest of `check`, on the limiter of the day.
unfoldable pub admit : RateLimiter → Text → ℕ → RateLimiter × RateDecision
unfolding recent
admit r phone now =
    let ts = recent r phone now in
    if leb r.options.global_per_day r.day_count
    then (r, global_limited)
    else if leb r.options.per_phone_per_hour (length ts)
    then (record r { per_phone = insert phone ts r.per_phone }, phone_limited)
    else (
      record r {
        per_phone = insert phone (ts ++ now ∷ []) r.per_phone;
        day_count = r.day_count + 1;
      },
      ok,
    )

unfoldable pub check : RateLimiter → Text → ℕ → RateLimiter × RateDecision
unfolding admit roll_day
check r phone now = admit (roll_day r now) phone now

-- `last !== undefined && now - last < HOUR_MS`
abbrev pub noticed_lately : ℕ → Option ℕ → Bool
noticed_lately now none = false
noticed_lately now (some last) = ltb now (last + hour_ms)

unfoldable pub should_notify : RateLimiter → Text → ℕ → RateLimiter × Bool
should_notify r phone now =
    if noticed_lately now (lookup phone r.notice_sent_at)
    then (r, false)
    else (record r { notice_sent_at = insert phone now r.notice_sent_at }, true)
