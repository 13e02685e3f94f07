-- ===== src/Answering/Gated.antt =====
-- When the agent is not asked.
use shopify_vitrina.Base.{
  ℕ, ◌≡◌, inl, inr, refl, sym, subst, ◌∙◌, Bool, true, false, ◌&&◌, ◌||◌, not, Option,
  if◌then◌else◌, Text, arith, Bool-cases,
}
use shopify_vitrina.Turn.{Principal, agent, Envelope, TurnContext}
use shopify_vitrina.Turn
use shopify_vitrina.Handoffs.{is_conversation_paused}
use shopify_vitrina.RateLimit.{
  RateLimiter, RateDecision, ok, phone_limited, global_limited, check, should_notify,
}
use shopify_vitrina.Answering.{
  Server, Services, is_owner, record_safely, send_text, respond, answer, send_admin_link, limited,
  on_person, seen, on_message_of, on_message,
}

abbrev pub is_ok : RateDecision → Bool
is_ok ok = true
is_ok phone_limited = false
is_ok global_limited = false

-- The same services with another agent.
abbrev pub with_agent : Services → (Server → TurnContext → Text → Server × Option Text) → Services
with_agent v run = record v { run_agent_turn = run }

module _ (v : Services) (now : ℕ) (e : Envelope) (s : Server) (ctx : TurnContext)
    (phone : Text) where
  abbrev pub asks_for_link : Bool
  asks_for_link = is_owner ctx.role && v.is_admin_link_request e.text

  -- A human has the conversation, or it is a customer's and customers are shut out or past a limit.
  abbrev pub is_gated : Bool
  is_gated =
      is_conversation_paused s.handoffs e.conversation_key e.agent_id
      || (not (is_owner ctx.role)
          && (not v.customer_agent_enabled || not (is_ok (check s.limiter phone now).1)))

  module _ (run : Server → TurnContext → Text → Server × Option Text) where
    abbrev v' : Services
    v' = with_agent v run

    respond-same :
        (p : Principal) (t : Server) (body : Text)
        → respond v' now e p t body ≡ respond v now e p t body
    unfolding respond send_text record_safely
    respond-same (Turn.whatsapp ph) t body = refl
    respond-same (agent caller) t body = refl

    send_admin_link-same :
        (t : Server) (token : Text)
        → send_admin_link v' now e t phone token ≡ send_admin_link v now e t phone token
    unfolding send_admin_link record_safely
    send_admin_link-same t token = refl

    limited-same :
        (t : Server) (d : RateLimiter × RateDecision)
        → is_ok d.1 ≡ false
        → limited v' now e t ctx phone d ≡ limited v now e t ctx phone d
    unfolding limited
    limited-same t (l, ok) h = absurd (cc h)
    limited-same t (l, global_limited) h = refl
    limited-same t (l, phone_limited) h =
        rw
          (respond-same e.principal (record t { limiter = (should_notify l phone now).0 })
            v.rate_limit_notice)
          refl

    on_person-same :
        (token : Text)
        → (asks_for_link || is_gated) ≡ true
        → on_person v' now e s token ctx phone ≡ on_person v now e s token ctx phone
    unfolding on_person limited answer respond send_text record_safely
    on_person-same token h = elim (Bool-cases asks_for_link) [
      | inl a ↦ rw a (send_admin_link-same s token)
      | inr a ↦
          rw a
            (elim (Bool-cases (is_conversation_paused s.handoffs e.conversation_key e.agent_id)) [
              | inl b ↦ rw b refl
              | inr b ↦
                  rw (b, stranger a b)
                    (elim (Bool-cases v.customer_agent_enabled) [
                      | inr c ↦
                          rw c (rw (respond-same e.principal s v.customer_unavailable_notice) refl)
                      | inl c ↦ rw c (limited-same s (check s.limiter phone now) (past a b c))
                    ])
            ])
    ]
      where
        stranger :
            asks_for_link ≡ false
            → is_conversation_paused s.handoffs e.conversation_key e.agent_id ≡ false
            → is_owner ctx.role ≡ false
        stranger a b = ground (arith, h, a, b)

        past :
            asks_for_link ≡ false
            → is_conversation_paused s.handoffs e.conversation_key e.agent_id ≡ false
            → v.customer_agent_enabled ≡ true
            → is_ok (check s.limiter phone now).1 ≡ false
        past a b c = ground (arith, h, a, b, c)

else-lem {ℓ} : {A : Type ℓ} {b : Bool} (x y : A) → b ≡ false → (if b then x else y) ≡ y
else-lem x y h = rw h refl

-- A person's message is answered without the agent, so that it makes no difference what the agent
-- would do, if an owner asks for the admin link, a human has the conversation, or the person is not
-- an owner and customers are shut out or one of the limits is reached; the echo mode is off.
pub on_message-gated :
    (v : Services) (run : Server → TurnContext → Text → Server × Option Text) (now : ℕ)
    (e : Envelope) (s : Server) (token : Text) (ctx : TurnContext) (phone : Text)
    → e.principal ≡ Turn.whatsapp phone
    → v.echo_mode ≡ false
    → (asks_for_link v now e s ctx phone || is_gated v now e s ctx phone) ≡ true
    → on_message (with_agent v run) now e s token ctx ≡ on_message v now e s token ctx
unfolding on_message on_message_of seen
on_message-gated v run now e s token ctx phone p off h =
    subst
      (λ q.
        on_message_of (with_agent v run) now e q s token ctx ≡ on_message_of v now e q s token ctx)
      (sym p) gated
  where
    gated :
        on_message_of (with_agent v run) now e (Turn.whatsapp phone) s token ctx
        ≡ on_message_of v now e (Turn.whatsapp phone) s token ctx
    gated =
        else-lem _ _ off
        ∙ on_person-same v now e (seen v now e s phone) ctx phone run token h
        ∙ sym (else-lem _ _ off)
