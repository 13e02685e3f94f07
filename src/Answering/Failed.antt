-- ===== src/Answering/Failed.antt =====
-- The end of a turn of an agent's conversation that throws.
use shopify_vitrina.Alerts.{record_failure}
use shopify_vitrina.Base.{
  ℕ, ◌≡◌, refl, subst, sym, Bool, true, false, some, none, [], ◌∷◌, ◌++◌, ltb, leb, Text, ==_refl,
  lookup, lookup-remove, arith, Bool-cases, inl, inr,
}
use shopify_vitrina.Turn.{agent, TurnContext, Principal}
use shopify_vitrina.Replies.{verdict, turn_failed, settle_waiter, fail}
use shopify_vitrina.Replies.Past.{verdict-own}
use shopify_vitrina.Batcher.Process.{Store, Running, Failure, finish_batch, set_inbox_failed}
use shopify_vitrina.Answering.{Server, Services, on_batch_failure, tell_failure}

-- The caller's promise and its place.
abbrev pub Told : Text → ℕ → Bool → Server → Type 0
Told key p true s =
    (verdict p s.replies.settled ≡ some turn_failed) × (lookup key s.replies.waiters ≡ none)
Told key p false s = (verdict p s.replies.settled ≡ none) × (lookup key s.replies.waiters ≡ some p)

module _ (v : Services) (now : ℕ) (s : Server) (ctx : TurnContext) (caller : Text) (p : ℕ)
    (w : lookup ctx.conversation_key s.replies.waiters ≡ some p)
    (o : verdict p s.replies.settled ≡ none) where
  abbrev alerted : Server
  alerted = record s { alert = (record_failure s.alert now).0 }

  tell_failure-Told :
      (q : Principal)
      → q ≡ agent caller
      → Told ctx.conversation_key p true (tell_failure v now q alerted ctx)
  tell_failure-Told q e =
      subst (λ x. Told ctx.conversation_key p true (tell_failure v now x alerted ctx)) (sym e)
        (unfold tell_failure fail settle_waiter in
          rw (w, fail)
            (
              verdict-own p turn_failed s.replies.settled o,
              rw
                  (
                    lookup-remove ctx.conversation_key ctx.conversation_key s.replies.waiters,
                    ==_refl ctx.conversation_key,
                  )
                  refl,
            ))

  on_batch_failure-Told :
      ctx.principal ≡ agent caller
      → (final : Bool) → Told ctx.conversation_key p final (on_batch_failure v now s ctx final).0
  unfolding on_batch_failure
  on_batch_failure-Told e true = tell_failure-Told ctx.principal e
  on_batch_failure-Told e false = (o, w)

third : (n : ℕ) → leb 3 n ≡ ltb 2 n
third n = ground arith

-- The turn of an agent's conversation throws while its caller waits. One failure is reported: at the
-- third attempt it makes the server tell the caller that the turn failed and free its place; before
-- that the caller goes on waiting, its promise open.
pub finish_batch-Told :
    (v : Services) (store : Store) (s : Server) (now later : ℕ) (r : Running) (caller : Text)
    (p : ℕ)
    → r.context.principal ≡ agent caller
    → lookup r.context.conversation_key s.replies.waiters ≡ some p
    → verdict p s.replies.settled ≡ none
    → (f : Failure) × ((finish_batch store now r false).failures ≡ store.failures ++ f ∷ [])
      × Told r.context.conversation_key p
          (ltb 2 r.attempts)
          (on_batch_failure v later s f.context f.final).0
unfolding finish_batch set_inbox_failed
finish_batch-Told v store s now later r caller p a w o = (
  record { context = r.context; final = leb 3 r.attempts; attempts = r.attempts },
  elim (Bool-cases (leb 3 r.attempts)) [ inl e ↦ rw e refl | inr e ↦ rw e refl ],
  subst
      (λ b.
        Told r.context.conversation_key p b
          (on_batch_failure v later s r.context (leb 3 r.attempts)).0)
      (third r.attempts)
      (on_batch_failure-Told v later s r.context caller p w o a (leb 3 r.attempts)),
)
