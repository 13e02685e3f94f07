-- ===== src/System/Apart.antt =====
-- The turns that run with the queue in full: no two of a conversation at once.
use shopify_vitrina.Base.{All, ◌≡◌, Option, List}
use shopify_vitrina.System.Chained.{Turn, Chained}
use shopify_vitrina.Batcher.Process.Keyed.{Keyed}

-- Each turn has the conversation of its job.
abbrev OwnKey : List Turn → Type 0
OwnKey ts = All (λ t. t.running.key ≡ t.job.key) ts
