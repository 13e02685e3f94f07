-- ===== src/PendingMedia/Order.antt =====
-- The order of the photos of a chat, among photos whose ids ascend.
use shopify_vitrina.Base.{
  ℕ, ◌<◌, ◌≡◌, true, false, none, some, List, [], ◌∷◌, All, All-map_to, arith, Bool-cases, inl, inr,
  ◌⊎◌,
}
use shopify_vitrina.PendingMedia.{PendingPhoto, before, insert_photo, in_order}

abbrev pub sent : PendingPhoto → ℕ
sent p = elim p.sent_at [ none ↦ 0 | some at ↦ at ]

-- Sent before; or sent at once and received before; or that too at once, and of a smaller id.
abbrev pub Earlier : PendingPhoto → PendingPhoto → Type 0
Earlier p q =
    (sent p < sent q)
    ⊎ ((sent p ≡ sent q)
        × ((p.received_at < q.received_at) ⊎ ((p.received_at ≡ q.received_at) × (p.id < q.id))))

-- Each photo is earlier than all that follow.
abbrev pub Arranged : List PendingPhoto → Type 0
Arranged [] = Unit
Arranged (p ∷ ps) = All (Earlier p) ps × Arranged ps

abbrev pub Ascending : List PendingPhoto → Type 0
Ascending [] = Unit
Ascending (p ∷ ps) = All (λ q. p.id < q.id) ps × Ascending ps

Earlier-before : (p q : PendingPhoto) → p.id < q.id → before p q ≡ true → Earlier p q
Earlier-before p q i h = ground arith

Earlier-after : (p q : PendingPhoto) → before p q ≡ false → Earlier q p
Earlier-after p q h = ground arith

Earlier-trans : (p q r : PendingPhoto) → Earlier p q → Earlier q r → Earlier p r
Earlier-trans p q r h k = ground arith

module _ (P : PendingPhoto → Type 0) where
  insert_photo-All :
      (p : PendingPhoto) (qs : List PendingPhoto) → P p → All P qs → All P (insert_photo p qs)
  unfolding insert_photo
  insert_photo-All p [] h a = (h, tt)
  insert_photo-All p (q ∷ qs) h a = elim (Bool-cases (before p q)) [
    | inl e ↦ rw e (h, a)
    | inr e ↦ rw e (a.0, insert_photo-All p qs h a.1)
  ]

  in_order-All : (ps : List PendingPhoto) → All P ps → All P (in_order ps)
  unfolding in_order
  in_order-All [] a = tt
  in_order-All (p ∷ ps) a = insert_photo-All p (in_order ps) a.0 (in_order-All ps a.1)

insert_photo-Arranged :
    (p : PendingPhoto) (qs : List PendingPhoto)
    → All (λ q. p.id < q.id) qs
    → Arranged qs
    → Arranged (insert_photo p qs)
unfolding insert_photo
insert_photo-Arranged p [] i h = (tt, tt)
insert_photo-Arranged p (q ∷ qs) i h = elim (Bool-cases (before p q)) [
  | inl e ↦ rw e (
      let pq = Earlier-before p q i.0 e in
      ((pq, All-map_to _ _ (λ r k. Earlier-trans p q r pq k) qs h.0), h))
  | inr e ↦ rw e (
    insert_photo-All (Earlier q) p qs (Earlier-after p q e) h.0,
    insert_photo-Arranged p qs i.1 h.1,
  )
]

pub in_order-Arranged : (ps : List PendingPhoto) → Ascending ps → Arranged (in_order ps)
unfolding in_order
in_order-Arranged [] a = tt
in_order-Arranged (p ∷ ps) a =
    insert_photo-Arranged p (in_order ps) (in_order-All (λ q. p.id < q.id) ps a.0)
      (in_order-Arranged ps a.1)
