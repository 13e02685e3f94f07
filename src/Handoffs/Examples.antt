-- ===== src/Handoffs/Examples.antt =====
-- The theorems on handoffs at a short history.
use shopify_vitrina.Base.{
  ◌≤◌, ◌≡◌, refl, true, none, List, [], ◌∷◌, length, Text, str, ◌==◌, select,
}
use shopify_vitrina.Handoffs.{
  live, is_conversation_paused, get_live_handoff, pause_conversation, release_conversation,
}
use shopify_vitrina.Handoffs.Paused.{
  Call, pause, release, run, step, paused_by_calls, is_conversation_paused-run, live-run_one,
}

abbrev ana : Text
ana = str "573001"

abbrev sales : Text
sales = str "vitrina-ventas"

-- Paused, released and paused again, the latest first.
abbrev pause_at : Text → Call
pause_at by = pause 10 (record {
  conversation_key = ana;
  agent_id = sales;
  paused_by = by;
  reason = none;
  lead_id = none;
})

abbrev calls : List Call
calls =
    pause_at (str "agent")
    ∷ pause_at (str "owner")
    ∷ release 20 ana sales (str "owner")
    ∷ pause_at (str "agent")
    ∷ []

paused_now : is_conversation_paused (run calls) ana sales ≡ true
unfolding is_conversation_paused run step pause_conversation release_conversation get_live_handoff
    ◌==◌
paused_now = refl

is_conversation_paused-run_example :
    is_conversation_paused (run calls) ana sales ≡ paused_by_calls calls ana sales
is_conversation_paused-run_example = is_conversation_paused-run calls ana sales

live-run_one_example : length (select (live ana sales) (run calls).rows) ≤ 1
live-run_one_example = live-run_one calls ana sales
