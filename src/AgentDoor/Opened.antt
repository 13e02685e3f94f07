-- ===== src/AgentDoor/Opened.antt =====
-- A POST to the agents' door up to its wait.
use shopify_vitrina.Base.{
  ℕ, ◌≡◌, refl, true, false, ◌⊎◌, Option, none, some, Text, arith, Option-cases, inl, inr,
  Bool-cases,
}
use shopify_vitrina.AgentRegistry.{AgentCredential, find_agent_by_token}
use shopify_vitrina.AgentDoor.{
  DoorDeps, DoorState, Refusal, MessageBody, Request, Answer, error, accepted, waiting,
  ExchangeInput, exchange_of, valid_body, admit_exchange, hop_of, bearer_token, reply_by,
  callback_allowed, ErrorCode, post_admitted, post_body, open_post, post_known,
}
use shopify_vitrina.AgentDoor.Exchanged.{
  MayReach, Unchanged, NotExchanged, Exchanged, post_for_callback-Exchanged,
  run_sync_exchange-Exchanged,
}

admit_exchange-MayReach :
    (d : DoorDeps) (c : AgentCredential) (target : Text) (hop : ℕ)
    → admit_exchange c.agent_id target hop c.reach d.is_known_agent ≡ none
    → MayReach d c target hop
unfolding admit_exchange
admit_exchange-MayReach d c target hop e = ground (arith, e)

admit_exchange-barred :
    (d : DoorDeps) (c : AgentCredential) (target : Text) (hop : ℕ) (r : Refusal)
    → admit_exchange c.agent_id target hop c.reach d.is_known_agent ≡ some r
    → MayReach d c target hop
    → ⊥
unfolding admit_exchange
admit_exchange-barred d c target hop r e m = ground (arith, e, m.0, m.1, m.2, m.3)

-- What a POST comes to before anybody waits, and what it leaves behind.
module _ (d : DoorDeps) (s : DoorState) (now : ℕ) (uuid uuid' : Text) where
  -- The caller is not known; or its body is not valid, or it may not reach the target, or the
  -- exchange cannot be.
  abbrev pub Grounds : Request → Type 0
  Grounds q =
      (find_agent_by_token d.codec d.registry (bearer_token d.to_lower_case q.authorization) ≡ none)
      ⊎ ((c : AgentCredential) × (find_agent_by_token d.codec d.registry
              (bearer_token d.to_lower_case q.authorization)
            ≡ some c)
          × ((q.body ≡ none)
              ⊎ ((b : MessageBody) × (q.body ≡ some b)
                  × ((valid_body b ≡ false)
                      ⊎ ((MayReach d c q.target (hop_of b.hop) → ⊥)
                          ⊎ NotExchanged d c s now uuid' (exchange_of c q.target b uuid)
                              b.reply_to)))))

  unfoldable pub Opened : Request → DoorState × Answer → Type 0
  Opened q (s', error status code) = Unchanged s s' × Grounds q
  Opened q (s', answer) =
      (c : AgentCredential) × (b : MessageBody) × (find_agent_by_token d.codec d.registry
          (bearer_token d.to_lower_case q.authorization)
        ≡ some c)
      × (q.body ≡ some b)
      × (valid_body b ≡ true)
      × MayReach d c q.target (hop_of b.hop)
      × Exchanged d c s now uuid' (exchange_of c q.target b uuid) b.reply_to s' answer

  post_admitted-Exchanged :
      (c : AgentCredential) (target : Text) (b : MessageBody)
      → let p = post_admitted d s now uuid uuid' c target b in
        Exchanged d c s now uuid' (exchange_of c target b uuid) b.reply_to p.0 p.1
  unfolding post_admitted
  post_admitted-Exchanged c target b = go b.reply_to
    where
      x : ExchangeInput
      x = exchange_of c target b uuid

      go :
          (o : Option Text)
          → let p = reply_by d s now uuid' c x o in Exchanged d c s now uuid' x o p.0 p.1
      go none = unfold reply_by in run_sync_exchange-Exchanged d c s now uuid' x
      go (some url) = elim (Bool-cases (callback_allowed d.parse_url url c.callback_prefix)) [
        | inl e ↦
            unfold reply_by in
            rw (e, reply_by) (post_for_callback-Exchanged d c s now uuid' x url e)
        | inr e ↦ unfold reply_by in rw (e, reply_by) ((refl, refl, λ k. refl), inl (url, refl, e))
      ]

  to_Opened :
      (q : Request) (p : DoorState × Answer) (c : AgentCredential) (b : MessageBody)
      → find_agent_by_token d.codec d.registry (bearer_token d.to_lower_case q.authorization)
        ≡ some c
      → q.body ≡ some b
      → valid_body b ≡ true
      → MayReach d c q.target (hop_of b.hop)
      → Exchanged d c s now uuid' (exchange_of c q.target b uuid) b.reply_to p.0 p.1
      → Opened q p
  unfolding Opened
  to_Opened q (s', error status code) c b f g v m x = (x.0, inr (c, f, inr (b, g, inr (inr x.1))))
  to_Opened q (s', accepted key turn_key) c b f g v m x = (c, b, f, g, v, m, x)
  to_Opened q (s', waiting key p turn_key) c b f g v m x = (c, b, f, g, v, m, x)

  unchanged :
      (q : Request) (status : ℕ) (code : ErrorCode) → Grounds q → Opened q (s, error status code)
  unfolding Opened
  unchanged q status code h = ((refl, refl, λ k. refl), h)

  post_body-Opened :
      (q : Request) (c : AgentCredential) (b : MessageBody)
      → find_agent_by_token d.codec d.registry (bearer_token d.to_lower_case q.authorization)
        ≡ some c
      → q.body ≡ some b
      → Opened q (post_body d s now uuid uuid' c q.target b)
  unfolding post_body
  post_body-Opened q c b f g = elim (Bool-cases (valid_body b)) [
    | inr e ↦ rw e (unchanged q _ _ (inr (c, f, inr (b, g, inl e))))
    | inl e ↦
        rw e
          (elim (Option-cases
            (admit_exchange c.agent_id q.target (hop_of b.hop) c.reach d.is_known_agent)) [
              | inr (refusal, n) ↦
                  rw (n, post_body)
                    (unchanged q _ _ (
                      inr (
                        c,
                        f,
                        inr (
                          b,
                          g,
                          inr (inl (admit_exchange-barred d c q.target (hop_of b.hop) refusal n)),
                        ),
                      )))
              | inl n ↦
                  rw (n, post_body)
                    (to_Opened q _ c b f g e (admit_exchange-MayReach d c q.target (hop_of b.hop) n)
                      (post_admitted-Exchanged c q.target b))
            ])
  ]

  pub open_post-Opened : (q : Request) → Opened q (open_post d s now uuid uuid' q)
  unfolding open_post
  open_post-Opened q =
      elim (Option-cases
        (find_agent_by_token d.codec d.registry (bearer_token d.to_lower_case q.authorization))) [
          | inl e ↦ rw (e, open_post) (unchanged q _ _ (inl e))
          | inr (c, e) ↦ rw (e, open_post) (known c e q.body refl)
        ]
    where
      known :
          (c : AgentCredential)
          → find_agent_by_token d.codec d.registry (bearer_token d.to_lower_case q.authorization)
            ≡ some c
          → (body : Option MessageBody) → q.body ≡ body
          → Opened q (post_known d s now uuid uuid' c q.target body)
      known c e none n = unfold post_known in unchanged q _ _ (inr (c, e, inl n))
      known c e (some b) n = unfold post_known in post_body-Opened q c b e n
