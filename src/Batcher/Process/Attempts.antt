-- ===== src/Batcher/Process/Attempts.antt =====
-- The cap on attempts.
use shopify_vitrina.Base.{ℕ, ◌≡◌, Option, none, some, List}
use shopify_vitrina.Inbox.{InboxRow}
use shopify_vitrina.Batcher.Process.{Running, max_of}
use shopify_vitrina.Batcher.Process.Settled.{Settled}

-- The attempts of a turn, if there is one.
Counts : ℕ → Option Running → Type 0
Counts n none = Unit
Counts n (some r) = r.attempts ≡ n

-- The attempts of a batch, on the rows as they were claimed.
abbrev pub attempts_of : List InboxRow → ℕ
attempts_of rows = max_of (λ r. r.attempts) rows
