-- ===== src/System/Receives.antt =====
-- A message at the WhatsApp door keeps the invariant.
use shopify_vitrina.Inbox.Grown.{grown, insert-cases}
use shopify_vitrina.Base.{
  ℕ, ◌/◌, ◌<◌, ◌≡◌, refl, ap, subst, ◌∙◌, true, ◌||◌, Option, none, some, List, [], ◌∷◌, ◌++◌, All,
  All-append, All-map_to, Text, ==_refl, arith, Bool-cases, Option-cases, inl, inr,
}
use shopify_vitrina.Turn.{Role, truthy}
use shopify_vitrina.Inbox.Rows.{InboxMediaKind, InboxRow}
use shopify_vitrina.Inbox.Tables.{insert_message, new_row}
use shopify_vitrina.Inbox.Ids.{includes}
use shopify_vitrina.Inbox.Valid.{IsValid, insert_message-IsValid}
use shopify_vitrina.Batcher.Timers.{Windows, Timers, schedule}
use shopify_vitrina.Batcher.Process.{Deps, Running}
use shopify_vitrina.Batcher.Process.Declines.{Each}
use shopify_vitrina.Webhook.{
  InboundMessage, Door, handle_inbound, store_inbound, is_ignored, row_input, wanted_media,
  persisted_kind, release, release_unwanted, ref_of,
}
use shopify_vitrina.System.{System, with_inbox, with_timers, receive_message}
use shopify_vitrina.System.Kept.{Inv, pending, held, kept, pending-schedule}
use shopify_vitrina.System.Rows.{Unsettled-weaken}

-- Timers that forget nothing.
abbrev pub Remembers : Timers → Timers → Type 0
Remembers t t' = (key : Text) → pending key t ≡ true → pending key t' ≡ true

pub kept-more :
    (s : System) (t : Timers)
    → Remembers s.store.timers t
    → (id : ℕ) (key : Text) → kept s id key ≡ true
    → (pending key t || held id key s.turns) ≡ true
kept-more s t m id key h = ground (arith, m key, h)

pub timers-Inv :
    (s : System) (t : Timers)
    → Remembers s.store.timers t
    → Inv s
    → Inv (record s { store = with_timers s.store t })
timers-Inv s t m v = record {
  valid = v.valid;
  answered = Unsettled-weaken _ _ s.store.files.inbox.rows (kept-more s t m) v.answered;
  owned = v.owned;
  below = v.below;
}

pub new-Inv :
    (s : System) (x : InboxRow) (t : Timers) (released : List Text)
    → x.id ≡ s.store.files.inbox.next_id
    → pending x.conversation_key t ≡ true
    → Remembers s.store.timers t
    → IsValid (grown s.store.files.inbox x)
    → Inv s
    → Inv (record s {
      store = with_timers (with_inbox s.store (grown s.store.files.inbox x)) t;
      released = released;
    })
new-Inv s x t released e p m valid v = record {
  valid = valid;
  answered =
      All-append _ s.store.files.inbox.rows _
        (Unsettled-weaken _ _ s.store.files.inbox.rows (kept-more s t m) v.answered)
        ((λ h. rw p refl), tt);
  owned = owned s.turns v.owned v.below;
  below = All-map_to _ _ (λ u b i h. omega (arith, b i h)) s.turns v.below;
}
  where
    owned :
        (ts : List Running)
        → All (λ u. Each (λ id key. includes id u.ids ≡ true → key ≡ u.key) s.store.files.inbox) ts
        → All (λ u. (i : ℕ) → includes i u.ids ≡ true → i < s.store.files.inbox.next_id) ts
        → All
            (λ u.
              Each (λ id key. includes id u.ids ≡ true → key ≡ u.key) (grown s.store.files.inbox x))
            ts
    owned [] a b = tt
    owned (u ∷ ts) a b = (
      All-append _ s.store.files.inbox.rows _ a.0
          ((λ h. absurd (omega (arith, e, b.0 x.id h))), tt),
      owned ts a.1 b.1,
    )

-- An insertion either leaves the table alone, or adds a row.

release-Inv : (s : System) (r : List Text) → Inv s → Inv (record s { released = r })
release-Inv s r v = record {
  valid = v.valid;
  answered = v.answered;
  owned = v.owned;
  below = v.below;
}

-- The system with what the door made of its inbox, timers and files.
abbrev with_door : System → Door → System
with_door s d = record s {
  store = with_timers (with_inbox s.store d.inbox) d.timers;
  released = d.released;
}

abbrev door_of : System → Door
door_of s = record { inbox = s.store.files.inbox; timers = s.store.timers; released = s.released }

release-same :
    (d : Door) (ref : Option Text)
    → (released : List Text) × (release d ref ≡ record d { released = released })
unfolding release
release-same d ref = elim (Option-cases (truthy ref)) [
  | inl e ↦ (d.released, rw (e, release) refl)
  | inr (r, e) ↦ (d.released ++ r ∷ [], rw (e, release) refl)
]

module _ (w : Windows) (role_for : Text → Role) (now : ℕ) (digest : Text) (m : InboundMessage) where
  row : Door → InboxRow
  row d = new_row d.inbox (now / 1000) (row_input role_for digest m)

  row-lem : (d : Door) → ((row d).id ≡ d.inbox.next_id) × ((row d).conversation_key ≡ (row d).phone)
  unfolding row row_input
  row-lem d = (refl, refl)

  stored-none :
      (d : Door)
      → insert_message d.inbox (now / 1000) (row_input role_for digest m) ≡ (d.inbox, none)
      → store_inbound w role_for d now digest m ≡ d
  unfolding store_inbound
  stored-none d e = rw (e, store_inbound) (ap (λ p. record d { inbox = p.0 }) e)

  stored-some :
      (d : Door)
      → insert_message d.inbox (now / 1000) (row_input role_for digest m)
        ≡ (grown d.inbox (row d), some (row d))
      → (released : List Text) × (store_inbound w role_for d now digest m ≡ record {
        inbox = grown d.inbox (row d);
        timers = schedule w d.timers (row d).phone (persisted_kind m) now;
        released = released;
      })
  unfolding store_inbound release_unwanted
  stored-some d e =
      let (r, p) =
        unwanted-same (record d { inbox = grown d.inbox (row d) }) (wanted_media role_for m) in
      (r, rw (e, store_inbound) (ap (λ p'. stamped (record d { inbox = p'.0 })) e ∙ ap timed p))
    where
      timed : Door → Door
      timed d' = record d' { timers = schedule w d'.timers (row d).phone (persisted_kind m) now }

      stamped : Door → Door
      stamped d' = timed (release_unwanted d' (wanted_media role_for m) m)

      unwanted-same :
          (d' : Door) (k : Option InboxMediaKind)
          → (released : List Text) × (release_unwanted d' k m ≡ record d' { released = released })
      unwanted-same d' none = release-same d' (ref_of m.media)
      unwanted-same d' (some k) = (d'.released, refl)

  store_inbound-Inv :
      (s : System) → Inv s → Inv (with_door s (store_inbound w role_for (door_of s) now digest m))
  store_inbound-Inv s v =
      elim (insert-cases s.store.files.inbox (now / 1000) (row_input role_for digest m)) [
        | inl e ↦ rw (stored-none (door_of s) e) v
        | inr e ↦
            let e' : insert_message s.store.files.inbox (now / 1000) (row_input role_for digest m)
                ≡ (grown s.store.files.inbox (row (door_of s)), some (row (door_of s))) =
              unfold row in e in
            let (r, p) = stored-some (door_of s) e' in
            let (same_id, same_key) = row-lem (door_of s) in
            rw p (
              new-Inv s (row (door_of s)) _ r same_id
                (rw
                  (
                    same_key,
                    pending-schedule w (row (door_of s)).phone (row (door_of s)).phone
                        (persisted_kind m) now s.store.timers,
                    ==_refl (row (door_of s)).phone,
                  )
                  refl)
                (λ key h.
                  rw
                    (
                      pending-schedule w key (row (door_of s)).phone (persisted_kind m) now
                          s.store.timers,
                      h,
                    )
                    (ground arith))
                (subst (λ q. IsValid q.0) e'
                  (insert_message-IsValid s.store.files.inbox (now / 1000)
                    (row_input role_for digest m) v.valid))
                v)
      ]

  handle_inbound-Inv :
      (s : System) → Inv s → Inv (with_door s (handle_inbound w role_for (door_of s) now digest m))
  unfolding handle_inbound
  handle_inbound-Inv s v = elim (Bool-cases (is_ignored m)) [
    | inl e ↦
        let (r, p) = release-same (door_of s) (ref_of m.media) in rw (e, p) (release-Inv s r v)
    | inr e ↦ rw e (store_inbound-Inv s v)
  ]

pub receive-Inv :
    (d : Deps) (role_for : Text → Role) (s : System) (now : ℕ) (digest : Text) (m : InboundMessage)
    → Inv s
    → Inv (receive_message d role_for s now digest m)
unfolding receive_message
receive-Inv d role_for s now digest m v = handle_inbound-Inv d.windows role_for now digest m s v
