-- ===== src/Batcher/Timers/Burst.antt =====
-- A burst after any messages, told from the messages.
use mathlib.Core.List.{append-nil, append_assoc}
use shopify_vitrina.Base.{
  ℕ, ◌+◌, ◌≡◌, refl, ap, Bool, ◌&&◌, ◌||◌, not, Option, none, some, List, [], ◌∷◌, ◌++◌,
  if◌then◌else◌, any, Text, ◌==◌, max, arith, ==→eq, lookup, lookup-insert, Bool-cases, inl, inr,
}
use shopify_vitrina.Inbox.Rows.{MessageKind, text, media}
use shopify_vitrina.Batcher.Prompt.{is_media}
use shopify_vitrina.Batcher.Timers.{
  Windows, PhoneBurst, Timers, schedule, next_burst, continue_burst, open_burst, arm_silence,
  upgraded_cap,
}

-- A message: its kind and the time of its `schedule`.
abbrev pub Message : Type 0
Message = MessageKind × ℕ

-- The hard cap of a burst: `maxWaitMs` after its first message while it is text; `mediaMaxWaitMs`
-- after its first message once media has come, or at once if that is over.
abbrev pub cap_of : Windows → ℕ → List Message → ℕ
cap_of w started [] = started + w.max_wait_ms
cap_of w started ((kind, at) ∷ ms) =
    if is_media kind then max at (started + w.media_max_wait_ms) else cap_of w started ms

abbrev pub latest : ℕ → List Message → ℕ
latest at [] = at
latest at ((kind, t) ∷ ms) = latest t ms

abbrev pub media_in : List Message → Bool
media_in = any (λ m. is_media m.0)

-- The burst that the first message and those after it, in order, leave open.
unfoldable pub burst_of : Windows → Message → List Message → PhoneBurst
burst_of w (kind, at) ms = record {
  silence =
      latest at ms + (if media_in ((kind, at) ∷ ms) then w.media_debounce_ms else w.debounce_ms);
  cap = cap_of w at ((kind, at) ∷ ms);
  has_media = media_in ((kind, at) ∷ ms);
  started_at = at;
}

-- The calls of `schedule`, each with its phone, in order.
unfoldable pub run : Windows → Timers → List (Text × Message) → Timers
run w s [] = s
run w s ((phone, (kind, at)) ∷ ms) = run w (schedule w s phone kind at) ms

abbrev pub messages_of : Text → List (Text × Message) → List Message
messages_of p [] = []
messages_of p ((q, m) ∷ ms) = let rest = messages_of p ms in if q == p then m ∷ rest else rest

abbrev pub expected : Windows → List Message → Option PhoneBurst
expected w [] = none
expected w (m ∷ ms) = some (burst_of w m ms)

latest-snoc : (at : ℕ) (m : Message) (ms : List Message) → latest at (ms ++ m ∷ []) ≡ m.1
latest-snoc at m [] = refl
latest-snoc at m ((k, t) ∷ ms) = latest-snoc t m ms

media_in-snoc :
    (m : Message) (ms : List Message) → media_in (ms ++ m ∷ []) ≡ (is_media m.0 || media_in ms)
media_in-snoc m [] = ground arith
media_in-snoc m ((k, t) ∷ ms) = ground (arith, media_in-snoc m ms)

cap_of-snoc :
    (w : Windows) (started : ℕ) (m : Message) (ms : List Message)
    → cap_of w started (ms ++ m ∷ []) ≡ (
        if is_media m.0 && not (media_in ms)
        then max m.1 (started + w.media_max_wait_ms)
        else cap_of w started ms)
cap_of-snoc w started m [] = ground arith
cap_of-snoc w started m ((k, t) ∷ ms) = ground (arith, cap_of-snoc w started m ms)

open_burst-burst_of :
    (w : Windows) (kind : MessageKind) (at : ℕ) → open_burst w kind at ≡ burst_of w (kind, at) []
unfolding open_burst burst_of arm_silence
open_burst-burst_of w text at = ground arith
open_burst-burst_of w media at = ground arith

upgraded_cap-max :
    (w : Windows) (started at : ℕ)
    → upgraded_cap w started at ≡ max at (started + w.media_max_wait_ms)
unfolding upgraded_cap
upgraded_cap-max w started at = omega arith

continue_burst-burst_of :
    (w : Windows) (m : Message) (ms : List Message) (kind : MessageKind) (at : ℕ)
    → continue_burst w (burst_of w m ms) kind at ≡ burst_of w m (ms ++ (kind, at) ∷ [])
unfolding continue_burst burst_of arm_silence
continue_burst-burst_of w m ms kind at = ground (
  arith,
  latest-snoc m.1 (kind, at) ms,
  media_in-snoc (kind, at) (m ∷ ms),
  cap_of-snoc w m.1 (kind, at) (m ∷ ms),
  upgraded_cap-max w m.1 at,
)

next_burst-expected :
    (w : Windows) (ms : List Message) (kind : MessageKind) (at : ℕ)
    → some (next_burst w (expected w ms) kind at) ≡ expected w (ms ++ (kind, at) ∷ [])
next_burst-expected w [] kind at = ap some (open_burst-burst_of w kind at)
next_burst-expected w (m ∷ ms) kind at = ap some (continue_burst-burst_of w m ms kind at)

schedule-lookup :
    (w : Windows) (s : Timers) (p q : Text) (kind : MessageKind) (at : ℕ)
    → lookup p (schedule w s q kind at).bursts
      ≡ (if q == p then some (next_burst w (lookup q s.bursts) kind at) else lookup p s.bursts)
unfolding schedule
schedule-lookup w s p q kind at =
    lookup-insert q p (next_burst w (lookup q s.bursts) kind at) s.bursts

schedule-expected :
    (w : Windows) (s : Timers) (p q : Text) (m : Message) (done : List Message)
    → lookup p s.bursts ≡ expected w done
    → lookup p (schedule w s q m.0 m.1).bursts ≡ expected w (done ++ messages_of p ((q, m) ∷ []))
schedule-expected w s p q (kind, at) done e =
    rw (schedule-lookup w s p q kind at) (elim (Bool-cases (q == p)) [
      | inl same ↦ rw (same, ==→eq q p same, e) (next_burst-expected w done kind at)
      | inr other ↦ rw (other, append-nil done) e
    ])

messages_of-cons :
    (p q : Text) (m : Message) (ms : List (Text × Message))
    → messages_of p ((q, m) ∷ ms) ≡ messages_of p ((q, m) ∷ []) ++ messages_of p ms
messages_of-cons p q m ms = ground arith

run-expected :
    (w : Windows) (s : Timers) (p : Text) (done : List Message) (ms : List (Text × Message))
    → lookup p s.bursts ≡ expected w done
    → lookup p (run w s ms).bursts ≡ expected w (done ++ messages_of p ms)
unfolding run
run-expected w s p done [] e = rw (append-nil done) e
run-expected w s p done ((q, (kind, at)) ∷ ms) e =
    rw
      (
        messages_of-cons p q (kind, at) ms,
        ← append_assoc done (messages_of p ((q, (kind, at)) ∷ [])) (messages_of p ms),
      )
      (run-expected w (schedule w s q kind at) p _ ms (schedule-expected w s p q (kind, at) done e))

-- Whatever messages of whatever phones `schedule` is called with, a phone that had no burst has one
-- exactly if one of its messages is among them, and then: silence is counted from its last message,
-- with the media window if any of its messages is media; the cap is `maxWaitMs` after its first
-- message if none is media, and otherwise `mediaMaxWaitMs` after the first, or the time of the
-- first media if that is later. Messages of other phones change nothing.
pub run-burst_of :
    (w : Windows) (s : Timers) (p : Text) (ms : List (Text × Message))
    → lookup p s.bursts ≡ none
    → lookup p (run w s ms).bursts ≡ expected w (messages_of p ms)
run-burst_of w s p ms e = run-expected w s p [] ms e
