-- ===== src/Handoffs/Paused.antt =====
-- The table as a set of paused conversations.
use shopify_vitrina.Base.{
  ℕ, ◌≤◌, ◌≡◌, refl, ap, ◌∙◌, Bool, true, false, ◌&&◌, ◌||◌, not, none, some, List, [], ◌∷◌, ◌++◌,
  any, head?, length, length-append, Text, ◌==◌, ==→eq, ==_refl, select, select-append, update,
  delete, arith, Option-cases, inl, inr,
}
use shopify_vitrina.Handoffs.{
  Handoff, HandoffTable, PauseInput, of_conversation, live, is_conversation_paused,
  get_live_handoff, new_handoff, pause_conversation, released, release_conversation,
  delete_conversation_handoffs,
}

pub data Call : Type 0 where
  pause : ℕ → PauseInput → Call
  release : ℕ → Text → Text → Text → Call
  forget : Text → Text → Call

unfoldable pub step : HandoffTable → Call → HandoffTable
step db (pause now input) = (pause_conversation db now input).0
step db (release now key agent_id by) = (release_conversation db now key agent_id by).0
step db (forget key agent_id) = (delete_conversation_handoffs db key agent_id).0

-- The calls, the latest first, on a new table.
unfoldable pub run : List Call → HandoffTable
run [] = record { rows = []; next_id = 1 }
run (c ∷ cs) = step (run cs) c

-- A conversation is paused if the latest call about it is a pause.
abbrev same : Text → Text → Text → Text → Bool
same k a key agent_id = k == key && a == agent_id

abbrev pub paused_by_calls : List Call → Text → Text → Bool
paused_by_calls [] key agent_id = false
paused_by_calls (pause now input ∷ cs) key agent_id =
    same input.conversation_key input.agent_id key agent_id || paused_by_calls cs key agent_id
paused_by_calls (release now k a by ∷ cs) key agent_id =
    not (same k a key agent_id) && paused_by_calls cs key agent_id
paused_by_calls (forget k a ∷ cs) key agent_id =
    not (same k a key agent_id) && paused_by_calls cs key agent_id

any-snoc :
    (p : Handoff → Bool) (rs : List Handoff) (h : Handoff)
    → any p (rs ++ h ∷ []) ≡ (any p rs || p h)
any-snoc p [] h = ground arith
any-snoc p (r ∷ rs) h = ground (arith, any-snoc p rs h)

head-any : (p : Handoff → Bool) (rs : List Handoff) → head? (select p rs) ≡ none → any p rs ≡ false
head-any p [] h = refl
head-any p (r ∷ rs) h = ground (arith, head-any p rs)

any-head :
    (p : Handoff → Bool) (rs : List Handoff) (x : Handoff)
    → head? (select p rs) ≡ some x
    → any p rs ≡ true
any-head p [] x h = cc
any-head p (r ∷ rs) x h = ground (arith, any-head p rs x)

live-none :
    (db : HandoffTable) (key agent_id : Text)
    → get_live_handoff db key agent_id ≡ none
    → any (live key agent_id) db.rows ≡ false
unfolding get_live_handoff
live-none db key agent_id = head-any (live key agent_id) db.rows

live-head :
    (db : HandoffTable) (key agent_id : Text) (x : Handoff)
    → get_live_handoff db key agent_id ≡ some x
    → any (live key agent_id) db.rows ≡ true
unfolding get_live_handoff
live-head db key agent_id = any-head (live key agent_id) db.rows

any-released :
    (now : ℕ) (by k a key agent_id : Text) (rs : List Handoff)
    → any (live key agent_id) (update (live k a) (released now by) rs)
      ≡ (not (same k a key agent_id) && any (live key agent_id) rs)
any-released now by k a key agent_id [] = ground arith
any-released now by k a key agent_id (r ∷ rs) = ground (
  arith,
  any-released now by k a key agent_id rs,
  ==→eq r.conversation_key k,
  ==→eq r.agent_id a,
  ==→eq k key,
  ==→eq a agent_id,
)

any-forgotten :
    (k a key agent_id : Text) (rs : List Handoff)
    → any (live key agent_id) (delete (of_conversation k a) rs)
      ≡ (not (same k a key agent_id) && any (live key agent_id) rs)
any-forgotten k a key agent_id [] = ground arith
any-forgotten k a key agent_id (r ∷ rs) = ground (
  arith,
  any-forgotten k a key agent_id rs,
  ==→eq r.conversation_key k,
  ==→eq r.agent_id a,
  ==→eq k key,
  ==→eq a agent_id,
  ==_refl key,
  ==_refl agent_id,
)

any-paused :
    (db : HandoffTable) (now : ℕ) (i : PauseInput) (key agent_id : Text)
    → any (live key agent_id) (pause_conversation db now i).0.rows
      ≡ (same i.conversation_key i.agent_id key agent_id || any (live key agent_id) db.rows)
unfolding pause_conversation
any-paused db now i key agent_id =
    elim (Option-cases (get_live_handoff db i.conversation_key i.agent_id)) [
      | inl e ↦
          rw (e, pause_conversation)
            (ground (arith, any-snoc (live key agent_id) db.rows (new_handoff db now i)))
      | inr (x, e) ↦
          rw (e, pause_conversation)
            (ground (
              arith,
              live-head db i.conversation_key i.agent_id x e,
              ==→eq i.conversation_key key,
              ==→eq i.agent_id agent_id,
            ))
    ]

-- Whatever calls have been made, a conversation is paused exactly if the latest call about it is a
-- pause: a pause or a release of one conversation touches no other, nor another agent's.
pub is_conversation_paused-run :
    (cs : List Call) (key agent_id : Text)
    → is_conversation_paused (run cs) key agent_id ≡ paused_by_calls cs key agent_id
unfolding is_conversation_paused run step release_conversation delete_conversation_handoffs
is_conversation_paused-run [] key agent_id = refl
is_conversation_paused-run (pause now i ∷ cs) key agent_id =
    any-paused (run cs) now i key agent_id
    ∙ ap (λ b. same i.conversation_key i.agent_id key agent_id || b)
        (is_conversation_paused-run cs key agent_id)
is_conversation_paused-run (release now k a by ∷ cs) key agent_id =
    any-released now by k a key agent_id (run cs).rows
    ∙ ap (λ b. not (same k a key agent_id) && b) (is_conversation_paused-run cs key agent_id)
is_conversation_paused-run (forget k a ∷ cs) key agent_id =
    any-forgotten k a key agent_id (run cs).rows
    ∙ ap (λ b. not (same k a key agent_id) && b) (is_conversation_paused-run cs key agent_id)

-- At most one live row.
length-released :
    (now : ℕ) (by k a key agent_id : Text) (rs : List Handoff)
    → length (select (live key agent_id) (update (live k a) (released now by) rs))
      ≤ length (select (live key agent_id) rs)
length-released now by k a key agent_id [] = omega arith
length-released now by k a key agent_id (r ∷ rs) =
    ground (arith, length-released now by k a key agent_id rs)

length-forgotten :
    (p q : Handoff → Bool) (rs : List Handoff)
    → length (select q (delete p rs)) ≤ length (select q rs)
length-forgotten p q [] = omega arith
length-forgotten p q (r ∷ rs) = ground (arith, length-forgotten p q rs)

none-length : (p : Handoff → Bool) (rs : List Handoff) → any p rs ≡ false → length (select p rs) ≡ 0
none-length p [] h = refl
none-length p (r ∷ rs) h = ground (arith, none-length p rs)

length-paused :
    (db : HandoffTable) (now : ℕ) (i : PauseInput) (key agent_id : Text)
    → length (select (live key agent_id) db.rows) ≤ 1
    → length (select (live key agent_id) (pause_conversation db now i).0.rows) ≤ 1
unfolding pause_conversation
length-paused db now i key agent_id h =
    elim (Option-cases (get_live_handoff db i.conversation_key i.agent_id)) [
      | inl e ↦
          rw
            (
              e,
              pause_conversation,
              select-append (live key agent_id) db.rows (new_handoff db now i ∷ []),
              length-append (select (live key agent_id) db.rows)
                  (select (live key agent_id) (new_handoff db now i ∷ [])),
            )
            (ground (
              arith,
              none-length (live key agent_id) db.rows,
              live-none db i.conversation_key i.agent_id e,
              ==→eq i.conversation_key key,
              ==→eq i.agent_id agent_id,
            ))
      | inr (x, e) ↦ rw (e, pause_conversation) h
    ]

-- Whatever calls have been made, a conversation has at most one live row, so that one release ends
-- every pause of it.
pub live-run_one :
    (cs : List Call) (key agent_id : Text) → length (select (live key agent_id) (run cs).rows) ≤ 1
unfolding run step release_conversation delete_conversation_handoffs
live-run_one [] key agent_id = omega arith
live-run_one (pause now i ∷ cs) key agent_id =
    length-paused (run cs) now i key agent_id (live-run_one cs key agent_id)
live-run_one (release now k a by ∷ cs) key agent_id =
    omega
      (arith, length-released now by k a key agent_id (run cs).rows, live-run_one cs key agent_id)
live-run_one (forget k a ∷ cs) key agent_id = omega (
  arith,
  length-forgotten (of_conversation k a) (live key agent_id) (run cs).rows,
  live-run_one cs key agent_id,
)
