-- ===== src/AgentDoor/Exchanged.antt =====
-- An exchange that was admitted, up to the wait of its caller.
use shopify_vitrina.Base.{
  ℕ, ◌/◌, ◌≤◌, ◌≡◌, ◌⊎◌, refl, sym, subst, Bool, true, false, Option, none, some, any, Text, ◌==◌,
  ==_refl, lookup, insert, lookup-insert, lookup-remove, eqb_refl, arith, Option-cases, inl, inr,
  ==→eq,
}
use shopify_vitrina.Inbox.Tables.{Inbox, insert_agent_message}
use shopify_vitrina.Inbox.Grown.{grown, agent_row, insert_agent-cases}
use shopify_vitrina.Batcher.Timers.{deliver_now}
use shopify_vitrina.AgentRegistry.{AgentCredential}
use shopify_vitrina.Replies.{AgentReplies, register, release}
use shopify_vitrina.AgentDoor.{
  DoorDeps, DoorState, Answer, error, accepted, waiting, ExchangeInput, exchange_row,
  exchange_dedupe_key, key_of, run_parked, run_sync_exchange, post_for_callback, max_hop,
  busy_error, duplicate_error, called_back, await_turn, callback_allowed,
}

-- The caller may reach the target, which is another agent that this build has, within the hops.
abbrev pub MayReach : DoorDeps → AgentCredential → Text → ℕ → Type 0
MayReach d c target hop =
    ((c.agent_id == target) ≡ false)
    × (any (λ id. id == target) c.reach ≡ true)
    × (d.is_known_agent target ≡ true)
    × (hop ≤ max_hop)

-- The message is in the inbox, and its conversation has been handed to the queue.
abbrev pub Stored :
    DoorState → ℕ → Text → ExchangeInput → Option Text → DoorState → Text → Text → Type 0
Stored s now uuid x reply_to s' key turn_key =
    (key ≡ key_of x)
    × (turn_key ≡ exchange_dedupe_key x uuid)
    × (s'.inbox ≡ grown s.inbox (agent_row s.inbox (now / 1000) key (exchange_row x reply_to uuid)))
    × (s'.timers ≡ deliver_now s.timers key)

abbrev pub SameWaiters : DoorState → DoorState → Type 0
SameWaiters s s' = (k : Text) → lookup k s'.replies.waiters ≡ lookup k s.replies.waiters

abbrev pub Unchanged : DoorState → DoorState → Type 0
Unchanged s s' = (s'.inbox ≡ s.inbox) × (s'.timers ≡ s.timers) × SameWaiters s s'

-- The callback is not allowed; a caller waits on the conversation already; or the inbox refuses the
-- message.
abbrev pub NotExchanged :
    DoorDeps → AgentCredential → DoorState → ℕ → Text → ExchangeInput → Option Text → Type 0
NotExchanged d c s now uuid x reply_to =
    ((url : Text) × (reply_to ≡ some url)
      × (callback_allowed d.parse_url url c.callback_prefix ≡ false))
    ⊎ (((p : ℕ) × (reply_to ≡ none) × (lookup (key_of x) s.replies.waiters ≡ some p))
        ⊎ ((insert_agent_message s.inbox (now / 1000) (key_of x)
              (exchange_row x reply_to uuid)).1.row
            ≡ none))

-- Of an exchange that was admitted.
abbrev pub Exchanged :
    DoorDeps
    → AgentCredential
    → DoorState
    → ℕ
    → Text
    → ExchangeInput
    → Option Text
    → DoorState
    → Answer
    → Type 0
Exchanged d c s now uuid x reply_to s' (error status code) =
    Unchanged s s' × NotExchanged d c s now uuid x reply_to
Exchanged d c s now uuid x reply_to s' (accepted key turn_key) =
    (url : Text) × (reply_to ≡ some url)
    × (callback_allowed d.parse_url url c.callback_prefix ≡ true)
    × Stored s now uuid x reply_to s' key turn_key
    × SameWaiters s s'
Exchanged d c s now uuid x reply_to s' (waiting key p turn_key) =
    (reply_to ≡ none)
    × Stored s now uuid x reply_to s' key turn_key
    × (lookup key s.replies.waiters ≡ none)
    × (lookup key s'.replies.waiters ≡ some p)

abbrev Cases : Inbox → ℕ → Text → ExchangeInput → Option Text → Type 0
Cases db now uuid x reply_to =
    ((b : Bool) × (insert_agent_message db now (key_of x) (exchange_row x reply_to uuid)
        ≡ (db, record { row = none; busy = b })))
    ⊎ (insert_agent_message db now (key_of x) (exchange_row x reply_to uuid) ≡ (
      grown db (agent_row db now (key_of x) (exchange_row x reply_to uuid)),
      record {
        row = some (agent_row db now (key_of x) (exchange_row x reply_to uuid));
        busy = false;
      },
    ))

abbrev stored : DoorState → ℕ → Text → ExchangeInput → Option Text → DoorState
stored s now uuid x reply_to = record s {
  inbox = grown s.inbox (agent_row s.inbox (now / 1000) (key_of x) (exchange_row x reply_to uuid));
  timers = deliver_now s.timers (key_of x);
}

module _ (d : DoorDeps) (c : AgentCredential) (s : DoorState) (now : ℕ) (uuid : Text)
    (x : ExchangeInput) where
  pub post_for_callback-Exchanged :
      (url : Text)
      → callback_allowed d.parse_url url c.callback_prefix ≡ true
      → let p = post_for_callback s now uuid x url in Exchanged d c s now uuid x (some url) p.0 p.1
  unfolding post_for_callback
  post_for_callback-Exchanged url allowed =
      go (insert_agent-cases s.inbox (now / 1000) (key_of x) (exchange_row x (some url) uuid))
    where
      from :
          (q : DoorState × Answer)
          → post_for_callback s now uuid x url ≡ q
          → Exchanged d c s now uuid x (some url) q.0 q.1
          → let p = post_for_callback s now uuid x url in
            Exchanged d c s now uuid x (some url) p.0 p.1
      from q e h = subst (λ p. Exchanged d c s now uuid x (some url) p.0 p.1) (sym e) h

      go :
          Cases s.inbox (now / 1000) uuid x (some url)
          → let p = post_for_callback s now uuid x url in
            Exchanged d c s now uuid x (some url) p.0 p.1
      go (inl (true, e)) =
          from (s, busy_error) (rw e (unfold called_back in refl))
            ((refl, refl, λ k. refl), inr (inr (rw e refl)))
      go (inl (false, e)) =
          from (s, duplicate_error) (rw e (unfold called_back in refl))
            ((refl, refl, λ k. refl), inr (inr (rw e refl)))
      go (inr e) =
          from
            (
              stored s now uuid x (some url),
              accepted (key_of x)
                  (agent_row s.inbox (now / 1000) (key_of x)
                    (exchange_row x (some url) uuid)).dedupe_key,
            )
            (rw e (unfold called_back in refl))
            (
              url,
              refl,
              allowed,
              (refl, unfold agent_row exchange_row in refl, refl, refl),
              λ k. refl,
            )

  -- The waiters have come to have the key, of promise `p`.
  run_parked-Exchanged :
      (r : AgentReplies) (p : ℕ)
      → lookup (key_of x) s.replies.waiters ≡ none
      → r.waiters ≡ insert (key_of x) p s.replies.waiters
      → let q = run_parked (record s { replies = r }) now uuid x p in
        Exchanged d c s now uuid x none q.0 q.1
  unfolding run_parked
  run_parked-Exchanged r p free e =
      go (insert_agent-cases s.inbox (now / 1000) (key_of x) (exchange_row x none uuid))
    where
      parked : lookup (key_of x) r.waiters ≡ some p
      parked =
          rw (e, lookup-insert (key_of x) (key_of x) p s.replies.waiters, ==_refl (key_of x)) refl

      again : (k : Text) → lookup k (release r (key_of x) p).waiters ≡ lookup k s.replies.waiters
      again k =
          unfold release in
          rw (parked, release)
            (rw (eqb_refl p, lookup-remove (key_of x) k r.waiters)
              (rw (e, lookup-insert (key_of x) k p s.replies.waiters)
                (ground (arith, free, ==→eq (key_of x) k))))

      from :
          (q : DoorState × Answer)
          → run_parked (record s { replies = r }) now uuid x p ≡ q
          → Exchanged d c s now uuid x none q.0 q.1
          → let q' = run_parked (record s { replies = r }) now uuid x p in
            Exchanged d c s now uuid x none q'.0 q'.1
      from q h g = subst (λ q'. Exchanged d c s now uuid x none q'.0 q'.1) (sym h) g

      go :
          Cases s.inbox (now / 1000) uuid x none
          → let q = run_parked (record s { replies = r }) now uuid x p in
            Exchanged d c s now uuid x none q.0 q.1
      go (inl (true, f)) =
          from (record s { replies = release r (key_of x) p }, busy_error)
            (rw f (unfold await_turn in refl)) ((refl, refl, again), inr (inr (rw f refl)))
      go (inl (false, f)) =
          from (record s { replies = release r (key_of x) p }, duplicate_error)
            (rw f (unfold await_turn in refl)) ((refl, refl, again), inr (inr (rw f refl)))
      go (inr f) =
          from
            (
              stored (record s { replies = r }) now uuid x none,
              waiting (key_of x) p
                  (agent_row s.inbox (now / 1000) (key_of x) (exchange_row x none uuid)).dedupe_key,
            )
            (rw f (unfold await_turn in refl))
            (refl, (refl, unfold agent_row exchange_row in refl, refl, refl), free, parked)

  pub run_sync_exchange-Exchanged :
      let q = run_sync_exchange s now uuid x in Exchanged d c s now uuid x none q.0 q.1
  unfolding run_sync_exchange register
  run_sync_exchange-Exchanged = elim (Option-cases (lookup (key_of x) s.replies.waiters)) [
    | inl e ↦ rw (e, run_sync_exchange) (run_parked-Exchanged _ s.replies.next e refl)
    | inr (p, e) ↦ rw (e, run_sync_exchange) ((refl, refl, λ k. refl), inr (inl (p, refl, e)))
  ]
