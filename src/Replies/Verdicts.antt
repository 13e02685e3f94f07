-- ===== src/Replies/Verdicts.antt =====
-- What a parked caller is told.
use shopify_vitrina.Turn.{truthy}
use mathlib.Core.Option.{some-injective}
use shopify_vitrina.Base.{
  ℕ, ◌≡◌, ◌≢◌, inl, inr, ◌∙◌, Bool, false, Option, none, some, List, [], ◌∷◌, if◌then◌else◌, eqb,
  Text, ◌==◌, ==_refl, lookup, arith, Bool-cases, Option-cases, ◌⊎◌, eqb→eq, insert, lookup-insert,
  true, eqb_refl, sym, subst, ==→eq,
}
use shopify_vitrina.Replies.{
  Verdict, replied, timed_out, turn_failed, Callback, AgentReplies, ReplyRoute, verdict, register,
  release, time_out, deliver, fail, settle_waiter, post_callback,
}
use shopify_vitrina.Replies.Past.{
  Call, Parked, Past, deliver_call, fail_call, first_verdict, other, own-nowhere, register_call,
  registered, release_call, removed-only, removed-own, run, run-Past, step, time_out_call,
  verdict-own, verdict-settle, register_call, release_call, time_out_call, deliver_call, fail_call,
}

module _ (p : ℕ) where
  -- The end of the wait, and a call on another conversation.
  module _ (key : Text) (r : AgentReplies) (w : Parked p key r) where
    settle-own : (v : Verdict) → Past p (some v) (settle_waiter r key p v)
    unfolding settle_waiter
    settle-own v = (
      record { nowhere = own-nowhere p key r w.only; below = w.below },
      verdict-own p v r.settled w.open_yet,
    )

    time_out-own : Past p (some timed_out) (time_out r key)
    unfolding time_out
    time_out-own = rw (w.own, time_out) (settle-own timed_out)

    fail-own : Past p (some turn_failed) (fail r key)
    unfolding fail
    fail-own = rw (w.own, fail) (settle-own turn_failed)

    deliver-own :
        (fetch : Option (Callback → Bool)) (route : ReplyRoute) (reply : Text)
        → route.conversation_key ≡ key
        → Past p (some (replied reply)) (deliver fetch r route reply).0
    unfolding deliver
    deliver-own fetch route reply e =
        rw (subst (λ x. lookup x r.waiters ≡ some p) (sym e) w.own, deliver)
          (subst (λ x. Past p (some (replied reply)) (settle_waiter r x p (replied reply))) (sym e)
            (settle-own (replied reply)))

    release-own : Past p none (release r key p)
    unfolding release
    release-own =
        rw (w.own, release)
          (rw (eqb_refl p)
            (record { nowhere = own-nowhere p key r w.only; below = w.below }, w.open_yet))

    module _ (k : Text) (n : (k == key) ≡ false) where
      not-own : lookup k r.waiters ≢ some p
      not-own e = absurd (cc (==_refl key, rw (w.only k e) at n))

      settle-other :
          (q : ℕ) (v : Verdict) → lookup k r.waiters ≡ some q → Parked p key (settle_waiter r k q v)
      unfolding settle_waiter
      settle-other q v e = record {
        own = removed-own p k r key n w.own;
        only = removed-only p k r key w.only;
        below = w.below;
        open_yet = verdict-settle q p v r.settled (other p r k q e not-own) ∙ w.open_yet;
      }

      time_out-other : Parked p key (time_out r k)
      unfolding time_out
      time_out-other = elim (Option-cases (lookup k r.waiters)) [
        | inl e ↦ rw (e, time_out) w
        | inr (q, e) ↦ rw (e, time_out) (settle-other q timed_out e)
      ]

      fail-other : Parked p key (fail r k)
      unfolding fail
      fail-other = elim (Option-cases (lookup k r.waiters)) [
        | inl e ↦ rw (e, fail) w
        | inr (q, e) ↦ rw (e, fail) (settle-other q turn_failed e)
      ]

      release-other : (q : ℕ) → Parked p key (release r k q)
      unfolding release
      release-other q = elim (Option-cases (lookup k r.waiters)) [
        | inl e ↦ rw (e, release) w
        | inr (c, e) ↦
            rw (e, release)
              (elim (Bool-cases (eqb c q)) [
                | inl b ↦ rw b (record {
                  own = removed-own p k r key n w.own;
                  only = removed-only p k r key w.only;
                  below = w.below;
                  open_yet = w.open_yet;
                })
                | inr b ↦ rw b w
              ])
      ]

    -- Another promise is released, or a second caller refused or parked elsewhere.
    release-wrong : (q : ℕ) → eqb p q ≡ false → Parked p key (release r key q)
    unfolding release
    release-wrong q b = rw (w.own, release) (rw b w)

    deliver-other :
        (fetch : Option (Callback → Bool)) (route : ReplyRoute) (reply : Text)
        → (route.conversation_key == key) ≡ false
        → Parked p key (deliver fetch r route reply).0
    unfolding deliver
    deliver-other fetch route reply n =
        elim (Option-cases (lookup route.conversation_key r.waiters)) [
          | inl e ↦
              rw (e, deliver)
                (elim (Option-cases (truthy route.reply_to)) [
                  | inl m ↦ rw (m, deliver) w
                  | inr (url, m) ↦
                      rw (m, deliver)
                        (posted fetch (record {
                          url = url;
                          conversation_key = route.conversation_key;
                          reply = reply;
                        }))
                ])
          | inr (q, e) ↦ rw (e, deliver) (settle-other route.conversation_key n q (replied reply) e)
        ]
      where
        posted :
            (f : Option (Callback → Bool)) (c : Callback) → Parked p key (post_callback f r c).0
        posted none c = unfold post_callback in w
        posted (some f) c =
            unfold post_callback in
            record { own = w.own; only = w.only; below = w.below; open_yet = w.open_yet }

    register-other : (k : Text) → Parked p key (registered r (register r k))
    unfolding register
    register-other k = elim (Option-cases (lookup k r.waiters)) [
      | inl e ↦
          rw (e, register)
            (record {
              own = lookup-insert k key r.next r.waiters ∙ kept e (Bool-cases (k == key));
              only = λ k' e'. elsewhere k' (Bool-cases (k == k')) e';
              below = omega (arith, w.below);
              open_yet = w.open_yet;
            })
      | inr (q, e) ↦ rw (e, register) w
    ]
      where
        kept :
            lookup k r.waiters ≡ none
            → ((k == key) ≡ true) ⊎ ((k == key) ≡ false)
            → (if k == key then some r.next else lookup key r.waiters) ≡ some p
        kept e (inl b) = absurd (cc (e, w.own, ==→eq k key b))
        kept e (inr b) = rw b w.own

        elsewhere :
            (k' : Text)
            → ((k == k') ≡ true) ⊎ ((k == k') ≡ false)
            → lookup k' (insert k r.next r.waiters) ≡ some p
            → k' ≡ key
        elsewhere k' (inl b) e = absurd (
            omega (
              arith,
              w.below,
              some-injective _ _ (rw (lookup-insert k k' r.next r.waiters, b) at e),
            ))
        elsewhere k' (inr b) e = w.only k' (rw (lookup-insert k k' r.next r.waiters, b) at e)

module _ (fetch : Option (Callback → Bool)) (p : ℕ) (key : Text) where
  pub run-Parked :
      (r : AgentReplies) (cs : List Call)
      → Parked p key r
      → verdict p (run fetch r cs).settled ≡ first_verdict key p cs
  unfolding run step first_verdict
  run-Parked r [] w = w.open_yet
  run-Parked r (register_call k ∷ cs) w =
      run-Parked (registered r (register r k)) cs (register-other p key r w k)
  run-Parked r (release_call k q ∷ cs) w = elim (Bool-cases (k == key)) [
    | inl b ↦ elim (Bool-cases (eqb p q)) [
      | inl c ↦
          rw (b, c)
            (run-Past p fetch none (release r k q) cs
              (rw⁻¹ (eqb→eq p q c) (rw (==→eq k key b) (release-own p key r w))))
      | inr c ↦
          rw (b, c)
            (run-Parked (release r k q) cs (rw (==→eq k key b) (release-wrong p key r w q c)))
    ]
    | inr b ↦ rw b (run-Parked (release r k q) cs (release-other p key r w k b q))
  ]
  run-Parked r (time_out_call k ∷ cs) w = elim (Bool-cases (k == key)) [
    | inl b ↦ rw b (
        run-Past p fetch (some timed_out) (time_out r k) cs
          (rw (==→eq k key b) (time_out-own p key r w)))
    | inr b ↦ rw b (run-Parked (time_out r k) cs (time_out-other p key r w k b))
  ]
  run-Parked r (deliver_call route reply ∷ cs) w =
      elim (Bool-cases (route.conversation_key == key)) [
        | inl b ↦ rw b (
            run-Past p fetch (some (replied reply)) (deliver fetch r route reply).0 cs
              (deliver-own p key r w fetch route reply (==→eq route.conversation_key key b)))
        | inr b ↦ rw b (
            run-Parked (deliver fetch r route reply).0 cs
              (deliver-other p key r w fetch route reply b))
      ]
  run-Parked r (fail_call k ∷ cs) w = elim (Bool-cases (k == key)) [
    | inl b ↦ rw b (
        run-Past p fetch (some turn_failed) (fail r k) cs (rw (==→eq k key b) (fail-own p key r w)))
    | inr b ↦ rw b (run-Parked (fail r k) cs (fail-other p key r w k b))
  ]
