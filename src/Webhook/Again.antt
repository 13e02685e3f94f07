-- ===== src/Webhook/Again.antt =====
-- The redelivery of an event.
use shopify_vitrina.Base.{
  ℕ, ◌/◌, ◌≡◌, refl, ap, ◌∙◌, ◌⊎◌, Bool, true, false, ◌||◌, Option, none, some, List, [], ◌∷◌, ◌++◌,
  any, All, Text, ==_refl, arith, Bool-cases, Option-cases, inl, inr, subst, sym,
}
use shopify_vitrina.Turn.{Role, truthy}
use shopify_vitrina.Inbox.Rows.{InboxRow, InboxInput, InboxMediaKind}
use shopify_vitrina.Inbox.Tables.{Inbox, insert_message, has_key, new_row}
use shopify_vitrina.Batcher.Timers.{Windows}
use shopify_vitrina.Webhook.{
  InboundMessage, Door, Delivery, stable_event_key, row_input, wanted_media, ref_of, release,
  release_unwanted, is_ignored, store_inbound, handle_inbound, handle_items, post_webhook,
  verify_signature, invalid_signature,
}

-- A message is settled with the door if it is ignored, or its key is in the inbox.
abbrev Known : Text → Inbox → InboundMessage → Type 0
Known digest db m =
    (is_ignored m ≡ true) ⊎ (any (has_key (stable_event_key digest m.id)) db.rows ≡ true)

release-inbox :
    (s : Door) (ref : Option Text)
    → ((release s ref).inbox ≡ s.inbox) × ((release s ref).timers ≡ s.timers)
unfolding release
release-inbox s ref = elim (Option-cases (truthy ref)) [
  | inl e ↦ rw (e, release) (refl, refl)
  | inr (r, e) ↦ rw (e, release) (refl, refl)
]

unwanted-inbox :
    (s : Door) (k : Option InboxMediaKind) (m : InboundMessage)
    → (release_unwanted s k m).inbox ≡ s.inbox
unfolding release_unwanted
unwanted-inbox s none m = (release-inbox s (ref_of m.media)).0
unwanted-inbox s (some k) m = refl

any-snoc :
    (p : InboxRow → Bool) (r : InboxRow) (rs : List InboxRow)
    → any p (rs ++ r ∷ []) ≡ (any p rs || p r)
any-snoc p r [] = ground arith
any-snoc p r (s ∷ rs) = ground (arith, any-snoc p r rs)

-- An insertion keeps every key, and leaves its own behind.
insert-key :
    (db : Inbox) (now : ℕ) (input : InboxInput) (k : Text)
    → any (has_key k) db.rows ≡ true
    → any (has_key k) (insert_message db now input).0.rows ≡ true
unfolding insert_message
insert-key db now input k h = elim (Bool-cases (any (has_key input.dedupe_key) db.rows)) [
  | inl e ↦ rw e h
  | inr e ↦ rw (e, any-snoc (has_key k) (new_row db now input) db.rows, h) refl
]

insert-own :
    (db : Inbox) (now : ℕ) (input : InboxInput)
    → any (has_key input.dedupe_key) (insert_message db now input).0.rows ≡ true
unfolding insert_message
insert-own db now input = elim (Bool-cases (any (has_key input.dedupe_key) db.rows)) [
  | inl e ↦ rw e e
  | inr e ↦
      rw
        (
          e,
          any-snoc (has_key input.dedupe_key) (new_row db now input) db.rows,
          ==_refl input.dedupe_key,
        )
        (ground arith)
]

insert-known :
    (db : Inbox) (now : ℕ) (input : InboxInput)
    → any (has_key input.dedupe_key) db.rows ≡ true
    → insert_message db now input ≡ (db, none)
unfolding insert_message
insert-known db now input h = rw h refl

module _ (w : Windows) (role_for : Text → Role) (digest : Text) where
  -- The message as a row.
  abbrev input_of : InboundMessage → InboxInput
  input_of m = row_input role_for digest m

  key-lem : (m : InboundMessage) → (input_of m).dedupe_key ≡ stable_event_key digest m.id
  unfolding row_input
  key-lem m = refl

  store_inbound-inbox :
      (s : Door) (now : ℕ) (m : InboundMessage)
      → (store_inbound w role_for s now digest m).inbox
        ≡ (insert_message s.inbox (now / 1000) (input_of m)).0
  unfolding store_inbound
  store_inbound-inbox s now m =
      elim (Option-cases ((insert_message s.inbox (now / 1000) (input_of m)).1)) [
        | inl e ↦ rw (e, store_inbound) refl
        | inr (r, e) ↦ rw (e, store_inbound) (unwanted-inbox _ (wanted_media role_for m) m)
      ]

  handle-key :
      (s : Door) (now : ℕ) (m : InboundMessage) (k : Text)
      → any (has_key k) s.inbox.rows ≡ true
      → any (has_key k) (handle_inbound w role_for s now digest m).inbox.rows ≡ true
  unfolding handle_inbound
  handle-key s now m k h = elim (Bool-cases (is_ignored m)) [
    | inl e ↦ rw (e, (release-inbox s (ref_of m.media)).0) h
    | inr e ↦ rw (e, store_inbound-inbox s now m) (insert-key s.inbox (now / 1000) (input_of m) k h)
  ]

  handle-kept :
      (s : Door) (now : ℕ) (m n : InboundMessage)
      → Known digest s.inbox n
      → Known digest (handle_inbound w role_for s now digest m).inbox n
  handle-kept s now m n (inl i) = inl i
  handle-kept s now m n (inr h) = inr (handle-key s now m (stable_event_key digest n.id) h)

  handle-Known :
      (s : Door) (now : ℕ) (m : InboundMessage)
      → Known digest (handle_inbound w role_for s now digest m).inbox m
  unfolding handle_inbound
  handle-Known s now m = elim (Bool-cases (is_ignored m)) [
    | inl e ↦ inl e
    | inr e ↦
        rw (e, store_inbound-inbox s now m)
          (inr (
            subst
              (λ k.
                any (has_key k) (insert_message s.inbox (now / 1000) (input_of m)).0.rows ≡ true)
              (key-lem m) (insert-own s.inbox (now / 1000) (input_of m))))
  ]

  items-kept :
      (s : Door) (now : ℕ) (ms : List InboundMessage) (n : InboundMessage)
      → Known digest s.inbox n
      → Known digest (handle_items w role_for s now digest ms).inbox n
  unfolding handle_items
  items-kept s now [] n h = h
  items-kept s now (m ∷ ms) n h =
      items-kept (handle_inbound w role_for s now digest m) now ms n (handle-kept s now m n h)

  -- No delivery takes a key away.
  items-key :
      (s : Door) (now : ℕ) (ms : List InboundMessage) (k : Text)
      → any (has_key k) s.inbox.rows ≡ true
      → any (has_key k) (handle_items w role_for s now digest ms).inbox.rows ≡ true
  unfolding handle_items
  items-key s now [] k h = h
  items-key s now (m ∷ ms) k h =
      items-key (handle_inbound w role_for s now digest m) now ms k (handle-key s now m k h)

  items-Known :
      (s : Door) (now : ℕ) (ms : List InboundMessage)
      → All (Known digest (handle_items w role_for s now digest ms).inbox) ms
  unfolding handle_items
  items-Known s now [] = tt
  items-Known s now (m ∷ ms) = (
    items-kept (handle_inbound w role_for s now digest m) now ms m (handle-Known s now m),
    items-Known (handle_inbound w role_for s now digest m) now ms,
  )

  abbrev Same : Door → Door → Type 0
  Same t s = (t.inbox ≡ s.inbox) × (t.timers ≡ s.timers)

  store_inbound-Same :
      (s : Door) (now : ℕ) (m : InboundMessage)
      → insert_message s.inbox (now / 1000) (input_of m) ≡ (s.inbox, none)
      → Same (store_inbound w role_for s now digest m) s
  unfolding store_inbound
  store_inbound-Same s now m e = rw (e, store_inbound) (ap (λ p. p.0) e, refl)

  handle-Same :
      (s : Door) (now : ℕ) (m : InboundMessage)
      → Known digest s.inbox m
      → Same (handle_inbound w role_for s now digest m) s
  unfolding handle_inbound
  handle-Same s now m (inl i) = rw i (release-inbox s (ref_of m.media))
  handle-Same s now m (inr h) = elim (Bool-cases (is_ignored m)) [
    | inl e ↦ rw e (release-inbox s (ref_of m.media))
    | inr e ↦ rw e (
        store_inbound-Same s now m (
          insert-known s.inbox (now / 1000) (input_of m)
            (subst (λ k. any (has_key k) s.inbox.rows ≡ true) (sym (key-lem m)) h)))
  ]

  items-Same :
      (s : Door) (now : ℕ) (ms : List InboundMessage)
      → All (Known digest s.inbox) ms
      → Same (handle_items w role_for s now digest ms) s
  unfolding handle_items
  items-Same s now [] a = (refl, refl)
  items-Same s now (m ∷ ms) a =
      let (i, t) = handle-Same s now m a.0 in
      let (i', t') = items-Same (handle_inbound w role_for s now digest m) now ms (rw i a.1) in
      (i' ∙ i, t' ∙ t)

pub post_webhook-key :
    (hmac : Text → Text → Text) (decode : Text → List ℕ) (secret : Text) (w : Windows)
    (role_for : Text → Role) (s : Door) (now : ℕ) (d : Delivery) (k : Text)
    → any (has_key k) s.inbox.rows ≡ true
    → any (has_key k) (post_webhook hmac decode secret w role_for s now d).0.inbox.rows ≡ true
unfolding post_webhook
post_webhook-key hmac decode secret w role_for s now d k h =
    elim (Bool-cases (verify_signature hmac decode d.body d.signature secret)) [
      | inl e ↦ rw e (items-key w role_for d.digest s now d.items k h)
      | inr e ↦ rw e h
    ]

-- Every message of an event whose keys are all still there is settled with the door.
Known-kept :
    (digest : Text) (db db' : Inbox)
    → ((k : Text) → any (has_key k) db.rows ≡ true → any (has_key k) db'.rows ≡ true)
    → (ms : List InboundMessage) → All (Known digest db) ms
    → All (Known digest db') ms
Known-kept digest db db' keeps [] a = tt
Known-kept digest db db' keeps (m ∷ ms) a = (one a.0, Known-kept digest db db' keeps ms a.1)
  where
    one : Known digest db m → Known digest db' m
    one (inl i) = inl i
    one (inr h) = inr (keeps (stable_event_key digest m.id) h)

-- An event that the transport delivers again, after whatever the door has done since and as long as
-- no row that the inbox had after its first delivery has been deleted, changes neither the inbox nor
-- a timer. And a first delivery whose signature does not verify leaves the door as it was, and is
-- answered so.
pub post_webhook-again :
    (hmac : Text → Text → Text) (decode : Text → List ℕ) (secret : Text) (w : Windows)
    (role_for role_for' : Text → Role) (s t : Door) (now later : ℕ) (d : Delivery)
    → let (s', status) = post_webhook hmac decode secret w role_for s now d in
      ((k : Text) → any (has_key k) s'.inbox.rows ≡ true → any (has_key k) t.inbox.rows ≡ true)
      → let t' = (post_webhook hmac decode secret w role_for' t later d).0 in
        (t'.inbox ≡ t.inbox)
        × (t'.timers ≡ t.timers)
        × (verify_signature hmac decode d.body d.signature secret ≡ false
            → (s' ≡ s) × (status ≡ invalid_signature))
unfolding post_webhook
post_webhook-again hmac decode secret w role_for role_for' s t now later d =
    elim (Bool-cases (verify_signature hmac decode d.body d.signature secret)) [
      | inl e ↦ rw e (λ keeps.
          let (i, c) = items-Same w role_for' d.digest t later d.items (
            Known-kept d.digest (handle_items w role_for s now d.digest d.items).inbox t.inbox keeps
              d.items (items-Known w role_for d.digest s now d.items)) in
          (i, c, λ f. absurd (cc f)))
      | inr e ↦ rw e (λ keeps. (refl, refl, λ f. (refl, refl)))
    ]
