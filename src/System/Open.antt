-- ===== src/System/Open.antt =====
-- The turns that run, and the jobs of the queue that are under way.
use shopify_vitrina.Base.{
  ℕ, ◌<◌, ◌≡◌, refl, sym, subst, true, false, some, List, [], ◌∷◌, All, All-map_to, eqb, eqb→eq,
  Text, ◌==◌, arith, Bool-cases, inl, inr,
}
use shopify_vitrina.Inbox.Ids.{includes}
use shopify_vitrina.Batcher.Process.{Running}
use shopify_vitrina.AdminSessions.Valid.{All-both}
use shopify_vitrina.Queue.{Job, PerConversationQueue, enqueue, find_job, ready, begin, settle}
use shopify_vitrina.Queue.Links.{find_job-below}
use shopify_vitrina.Queue.Serial
use shopify_vitrina.Queue.Serial.{empty_queue, empty-Inv, enqueue-Inv, begin-Inv, settle-Inv}
use shopify_vitrina.Queue.Ready.{clash, find_job-All, ready-alone}
use shopify_vitrina.System.Chained.{Turn, enqueue_all}
use shopify_vitrina.System.Taken.{Apart}

-- The turn's job is under way.
abbrev pub Open : PerConversationQueue → Turn → Type 0
Open q t =
    (find_job t.job.id q.jobs ≡ some t.job)
    × (includes t.job.id q.started ≡ true)
    × (includes t.job.id q.settled ≡ false)

pub record Inv (turns : List Turn) (q : PerConversationQueue) : Type 0 where
  pub serial : Serial.Inv q
  pub own : All (Open q) turns
  pub apart : Apart turns

enqueue-Own :
    (turns : List Turn) (q : PerConversationQueue) (key : Text)
    → Inv turns q
    → Inv turns (enqueue q key)
unfolding enqueue
enqueue-Own turns q key v = record {
  serial = enqueue-Inv q v.serial key;
  own = All-map_to _ _ (λ t o. (found t o, o.1, o.2)) turns v.own;
  apart = v.apart;
}
  where
    found : (t : Turn) → Open q t → find_job t.job.id (enqueue q key).jobs ≡ some t.job
    found t o =
        unfold find_job in
        rw (newer (find_job-below t.job.id q.next q.jobs t.job o.0 v.serial.below)) o.0
      where
        newer : t.job.id < q.next → eqb q.next t.job.id ≡ false
        newer h = ground (arith, h)

pub enqueue_all-Own :
    (turns : List Turn) (q : PerConversationQueue) (keys : List Text)
    → Inv turns q
    → Inv turns (enqueue_all q keys)
unfolding enqueue_all
enqueue_all-Own turns q [] v = v
enqueue_all-Own turns q (key ∷ keys) v =
    enqueue_all-Own turns (enqueue q key) keys (enqueue-Own turns q key v)

settle_lem :
    (q : PerConversationQueue) (id : ℕ)
    → includes id q.started ≡ true
    → settle q id ≡ record q { settled = id ∷ q.settled }
unfolding settle
settle_lem q id e = rw e refl

pub settle-Own :
    (turns : List Turn) (q : PerConversationQueue) (id : ℕ)
    → Inv turns q
    → All (λ u. eqb id u.job.id ≡ false) turns
    → Inv turns (settle q id)
unfolding settle
settle-Own turns q id v a = elim (Bool-cases (includes id q.started)) [
  | inl e ↦ rw e (record {
    serial = subst Serial.Inv (settle_lem q id e) (settle-Inv q v.serial id);
    own =
        All-map_to _ _ (λ u h. (h.0.0, h.0.1, rw (h.1, h.0.2) refl)) turns
          (All-both _ _ turns v.own a);
    apart = v.apart;
  })
  | inr e ↦ rw e v
]

-- A job that has not been started is no turn's.
unstarted-other :
    (turns : List Turn) (q : PerConversationQueue) (id : ℕ)
    → includes id q.started ≡ false
    → All (Open q) turns
    → All (λ u. eqb id u.job.id ≡ false) turns
unstarted-other turns q id n a = All-map_to _ _ (λ u o. one u o.1) turns a
  where
    one : (u : Turn) → includes u.job.id q.started ≡ true → eqb id u.job.id ≡ false
    one u o = elim (Bool-cases (eqb id u.job.id)) [
      | inl e ↦
          absurd (clash (subst (λ i. includes i q.started ≡ true) (sym (eqb→eq id u.job.id e)) o) n)
      | inr e ↦ e
    ]

module _ (turns : List Turn) (q : PerConversationQueue) (j : Job) (v : Inv turns q)
    (e : find_job j.id q.jobs ≡ some j) (d : ready q.settled j ≡ true)
    (n : includes j.id q.started ≡ false) where
  unfoldable pub begun_queue : PerConversationQueue
  begun_queue = record q { started = j.id ∷ q.started }

  pub begin_lem : begin q j.id ≡ begun_queue
  unfolding begin begun_queue
  begin_lem = rw (e, begin) (rw d refl)

  started-Own : Inv turns begun_queue
  unfolding begun_queue
  started-Own = record {
    serial = subst Serial.Inv begin_lem (begin-Inv q v.serial j.id);
    own = All-map_to _ _ (λ u o. (o.0, ground (arith, o.1), o.2)) turns v.own;
    apart = v.apart;
  }

  -- Its turn is of another conversation than all that run.
  alone : All (λ u. (u.job.key == j.key) ≡ false) turns
  alone = All-map_to _ _ one turns v.own
    where
      one : (u : Turn) → Open q u → (u.job.key == j.key) ≡ false
      one u o = elim (Bool-cases (u.job.key == j.key)) [
        | inl k ↦ absurd (
            clash
              (find_job-All
                (λ i.
                  (i.key == j.key) ≡ true
                  → includes i.id q.started ≡ true
                  → includes i.id q.settled ≡ true)
                u.job.id q.jobs u.job o.0
                (ready-alone q.started q.settled j.id q.jobs j v.serial.links v.serial.ran e d n) k
                o.1)
              o.2)
        | inr k ↦ k
      ]

  unsettled : includes j.id q.settled ≡ false
  unsettled = elim (Bool-cases (includes j.id q.settled)) [
    | inl h ↦ absurd (clash (v.serial.ran j.id h) n)
    | inr h ↦ h
  ]

  pub with_turn-Own : (r : Running) → Inv (record { job = j; running = r } ∷ turns) begun_queue
  unfolding begun_queue
  with_turn-Own r = record {
    serial = started-Own.serial;
    own = ((e, ground arith, unsettled), started-Own.own);
    apart = (alone, v.apart);
  }

  pub without_turn-Own : Inv turns (settle begun_queue j.id)
  without_turn-Own =
      settle-Own turns begun_queue j.id started-Own (unstarted-other turns q j.id n v.own)
