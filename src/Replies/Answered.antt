-- ===== src/Replies/Answered.antt =====
-- A caller that parks, after any calls and before any others.
use shopify_vitrina.Base.{
  ℕ, suc, ◌<◌, ◌≤◌, ◌≡◌, ◌⊎◌, refl, sym, subst, ◌∙◌, Bool, true, false, Option, none, some, List,
  [], ◌∷◌, eqb, Text, ◌==◌, ==→eq, lookup, insert, remove, lookup-insert, lookup-remove, arith,
  Bool-cases, Option-cases, inl, inr, ==_refl,
}
use mathlib.Core.Option.{some-injective}
use shopify_vitrina.Turn.{truthy}
use shopify_vitrina.Replies.{
  Verdict, replied, timed_out, turn_failed, Callback, AgentReplies, ReplyRoute, verdict, register,
  settle_waiter, release, time_out, post_callback, deliver, fail,
}
use shopify_vitrina.Replies.Past.{
  Call, register_call, release_call, time_out_call, deliver_call, fail_call, registered, step, run,
  first_verdict, verdict-settle, Parked,
}
use shopify_vitrina.Replies.Verdicts.{run-Parked}

abbrev pub empty_replies : AgentReplies
empty_replies = record { waiters = []; settled = []; posted = []; next = 1 }

-- The promises of the map and those that are settled have been given out.
record Given (r : AgentReplies) : Type 0 where
  waiting : (k : Text) (q : ℕ) → lookup k r.waiters ≡ some q → q < r.next
  unsettled : (q : ℕ) → r.next ≤ q → verdict q r.settled ≡ none

module _ (r : AgentReplies) (g : Given r) where
  removed : (k k' : Text) (q : ℕ) → lookup k' (remove k r.waiters) ≡ some q → q < r.next
  removed k k' q e = elim (Bool-cases (k == k')) [
    | inl b ↦ absurd (cc (rw (lookup-remove k k' r.waiters, b) at e))
    | inr b ↦ g.waiting k' q (rw (lookup-remove k k' r.waiters, b) at e)
  ]

  settle-Given :
      (k : Text) (p : ℕ) (v : Verdict) → lookup k r.waiters ≡ some p → Given (settle_waiter r k p v)
  unfolding settle_waiter
  settle-Given k p v e = record {
    waiting = removed k;
    unsettled = λ q l.
        verdict-settle p q v r.settled (ground (arith, g.waiting k p e, l)) ∙ g.unsettled q l;
  }

  register-Given : (k : Text) → Given (registered r (register r k))
  unfolding register
  register-Given k = elim (Option-cases (lookup k r.waiters)) [
    | inl e ↦
        rw (e, register)
          (record {
            waiting = λ k' q e'. given k' q (Bool-cases (k == k')) e';
            unsettled = λ q l. g.unsettled q (omega (arith, l));
          })
    | inr (q, e) ↦ rw (e, register) g
  ]
    where
      given :
          (k' : Text) (q : ℕ)
          → ((k == k') ≡ true) ⊎ ((k == k') ≡ false)
          → lookup k' (insert k r.next r.waiters) ≡ some q
          → q < suc r.next
      given k' q (inl b) e =
          omega (arith, some-injective _ _ (rw (lookup-insert k k' r.next r.waiters, b) at e))
      given k' q (inr b) e =
          omega (arith, g.waiting k' q (rw (lookup-insert k k' r.next r.waiters, b) at e))

  release-Given : (k : Text) (p : ℕ) → Given (release r k p)
  unfolding release
  release-Given k p = elim (Option-cases (lookup k r.waiters)) [
    | inl e ↦ rw (e, release) g
    | inr (c, e) ↦
        rw (e, release)
          (elim (Bool-cases (eqb c p)) [
            | inl b ↦ rw b (record { waiting = removed k; unsettled = g.unsettled })
            | inr b ↦ rw b g
          ])
  ]

  time_out-Given : (k : Text) → Given (time_out r k)
  unfolding time_out
  time_out-Given k = elim (Option-cases (lookup k r.waiters)) [
    | inl e ↦ rw (e, time_out) g
    | inr (p, e) ↦ rw (e, time_out) (settle-Given k p timed_out e)
  ]

  fail-Given : (k : Text) → Given (fail r k)
  unfolding fail
  fail-Given k = elim (Option-cases (lookup k r.waiters)) [
    | inl e ↦ rw (e, fail) g
    | inr (p, e) ↦ rw (e, fail) (settle-Given k p turn_failed e)
  ]

  post_callback-Given :
      (fetch : Option (Callback → Bool)) (c : Callback) → Given (post_callback fetch r c).0
  unfolding post_callback
  post_callback-Given none c = g
  post_callback-Given (some f) c = record { waiting = g.waiting; unsettled = g.unsettled }

  deliver-Given :
      (fetch : Option (Callback → Bool)) (route : ReplyRoute) (reply : Text)
      → Given (deliver fetch r route reply).0
  unfolding deliver
  deliver-Given fetch route reply = elim (Option-cases (lookup route.conversation_key r.waiters)) [
    | inl e ↦
        rw (e, deliver)
          (elim (Option-cases (truthy route.reply_to)) [
            | inl n ↦ rw (n, deliver) g
            | inr (url, n) ↦
                rw (n, deliver)
                  (post_callback-Given fetch (record {
                    url = url;
                    conversation_key = route.conversation_key;
                    reply = reply;
                  }))
          ])
    | inr (p, e) ↦ rw (e, deliver) (settle-Given route.conversation_key p (replied reply) e)
  ]

  step-Given : (fetch : Option (Callback → Bool)) (c : Call) → Given (step fetch r c)
  unfolding step
  step-Given fetch (register_call k) = register-Given k
  step-Given fetch (release_call k p) = release-Given k p
  step-Given fetch (time_out_call k) = time_out-Given k
  step-Given fetch (fail_call k) = fail-Given k
  step-Given fetch (deliver_call route reply) = deliver-Given fetch route reply

run-Given :
    (fetch : Option (Callback → Bool)) (r : AgentReplies) (cs : List Call)
    → Given r
    → Given (run fetch r cs)
unfolding run
run-Given fetch r [] g = g
run-Given fetch r (c ∷ cs) g = run-Given fetch (step fetch r c) cs (step-Given r g fetch c)

register-Parked :
    (r r' : AgentReplies) (key : Text) (p : ℕ)
    → Given r
    → register r key ≡ some (r', p)
    → Parked p key r'
unfolding register
register-Parked r r' key p g e = elim (Option-cases (lookup key r.waiters)) [
  | inl n ↦
      subst (λ q. Parked q.1 key q.0) (some-injective _ _ (rw (n, register) at e))
        (record {
          own = lookup-insert key key r.next r.waiters ∙ rw (==_refl key) refl;
          only = λ k e'. here k (Bool-cases (key == k)) e';
          below = omega arith;
          open_yet = g.unsettled r.next (omega arith);
        })
  | inr (q, n) ↦ absurd (cc (rw (n, register) at e))
]
  where
    here :
        (k : Text)
        → ((key == k) ≡ true) ⊎ ((key == k) ≡ false)
        → lookup k (insert key r.next r.waiters) ≡ some r.next
        → k ≡ key
    here k (inl b) h = sym (==→eq key k b)
    here k (inr b) h =
        absurd
          (omega (arith, g.waiting k r.next (rw (lookup-insert key k r.next r.waiters, b) at h)))

empty-Given : Given empty_replies
unfolding lookup verdict
empty-Given = record { waiting = λ k q h. absurd (cc h); unsettled = λ q l. refl }

-- After any calls a caller parks on a conversation, and then come any others. It is told what the
-- first of them makes of it that is about its own conversation: the reply, the failure of the turn
-- or the end of its time; nothing after its own release, and never two things.
pub register-answered :
    (fetch : Option (Callback → Bool)) (before after : List Call) (key : Text) (r : AgentReplies)
    (p : ℕ)
    → register (run fetch empty_replies before) key ≡ some (r, p)
    → verdict p (run fetch r after).settled ≡ first_verdict key p after
register-answered fetch before after key r p e = run-Parked fetch p key r after (
    register-Parked (run fetch empty_replies before) r key p
      (run-Given fetch empty_replies before empty-Given) e)
