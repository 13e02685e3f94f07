-- ===== src/AgentDoor/Keys.antt =====
-- The conversations that an agent can name.
use shopify_vitrina.Base.{
  ℕ, ◌≡◌, ◌≢◌, refl, true, false, [], ◌∷◌, ◌++◌, Text, is_digit, arith, Bool-cases, inl, inr, str,
  sym,
}
use shopify_vitrina.Assignments.{normalize_phone}
use shopify_vitrina.AgentDoor.{agent_conversation_key, is_identifier, is_identifier_char, every}

-- A text without a colon, then a colon: where it ends is plain.
split :
    (s s' t t' : Text)
    → every is_identifier_char s ≡ true
    → every is_identifier_char s' ≡ true
    → s ++ b':' ∷ t ≡ s' ++ b':' ∷ t'
    → (s ≡ s') × (t ≡ t')
split [] [] t t' h h' e = (refl, cc e)
split [] (c ∷ s') t t' h h' e = absurd (ground (arith, h', colon))
  where
    colon : b':' ≡ c
    colon = cc e
split (c ∷ s) [] t t' h h' e = absurd (ground (arith, h, colon))
  where
    colon : c ≡ b':'
    colon = cc e
split (c ∷ s) (c' ∷ s') t t' h h' e =
    let (p, q) = split s s' t t' (ground (arith, h)) (ground (arith, h')) rest in (cc (first, p), q)
  where
    first : c ≡ c'
    first = cc e

    rest : s ++ b':' ∷ t ≡ s' ++ b':' ∷ t'
    rest = cc e

colon-every : (s t : Text) → every is_identifier_char (s ++ b':' ∷ t) ≡ false
colon-every [] t = refl
colon-every (c ∷ s) t = ground (arith, colon-every s t)

-- A colon, then a text without one: where it starts is plain.
split_end :
    (s s' t t' : Text)
    → every is_identifier_char t ≡ true
    → every is_identifier_char t' ≡ true
    → s ++ b':' ∷ t ≡ s' ++ b':' ∷ t'
    → (s ≡ s') × (t ≡ t')
split_end [] [] t t' h h' e = (refl, cc e)
split_end [] (c ∷ s') t t' h h' e = absurd (cc (colon-every s' t', rw (inside) at h))
  where
    inside : t ≡ s' ++ b':' ∷ t'
    inside = cc e
split_end (c ∷ s) [] t t' h h' e = absurd (cc (colon-every s t, rw (inside) at h'))
  where
    inside : t' ≡ s ++ b':' ∷ t
    inside = cc e
split_end (c ∷ s) (c' ∷ s') t t' h h' e =
    let (p, q) = split_end s s' t t' h h' rest in (cc (first, p), q)
  where
    first : c ≡ c'
    first = cc e

    rest : s ++ b':' ∷ t ≡ s' ++ b':' ∷ t'
    rest = cc e

identifier-every : (s : Text) → is_identifier s ≡ true → every is_identifier_char s ≡ true
unfolding is_identifier
identifier-every [] h = refl
identifier-every (c ∷ s) h = ground (arith, h)

-- Every character of a phone is a digit.
phone-digits : (c : ℕ) (s p : Text) → normalize_phone p ≡ c ∷ s → is_digit c ≡ true
unfolding normalize_phone
phone-digits c s [] e = absurd (cc e)
phone-digits c s (d ∷ p) e = elim (Bool-cases (is_digit d)) [
  | inl b ↦ digit b (rw b at e)
  | inr b ↦ phone-digits c s p (rw b at e)
]
  where
    digit : is_digit d ≡ true → d ∷ normalize_phone p ≡ c ∷ s → is_digit c ≡ true
    digit b q = ground (arith, b, same q)
      where
        same : d ∷ normalize_phone p ≡ c ∷ s → d ≡ c
        same r = cc r

-- Two exchanges between agents share a conversation only if their callers, their targets and their
-- correlations are the same; and none has the key of a phone's conversation. The ids of the callers
-- and the correlations are identifiers.
pub agent_conversation_key-own :
    (caller caller' target target' x x' phone : Text)
    → is_identifier caller ≡ true
    → is_identifier caller' ≡ true
    → is_identifier x ≡ true
    → is_identifier x' ≡ true
    → (agent_conversation_key caller target x ≡ agent_conversation_key caller' target' x'
        → (caller ≡ caller') × (target ≡ target') × (x ≡ x'))
      × (agent_conversation_key caller target x ≢ normalize_phone phone)
unfolding agent_conversation_key
agent_conversation_key-own caller caller' target target' x x' phone hc hc' hx hx' =
    (same, λ e. no_digit (phone-digits b'a' _ phone (sym e)))
  where
    body : (y z : Text) → str "a2a:" ++ y ≡ str "a2a:" ++ z → y ≡ z
    body y z e = cc e

    same :
        agent_conversation_key caller target x ≡ agent_conversation_key caller' target' x'
        → (caller ≡ caller') × (target ≡ target') × (x ≡ x')
    same e =
        let (p, q) =
          split caller caller' (target ++ b':' ∷ x) (target' ++ b':' ∷ x')
            (identifier-every caller hc) (identifier-every caller' hc') (body _ _ e) in
        let (p', q') =
          split_end target target' x x' (identifier-every x hx) (identifier-every x' hx') q in
        (p, p', q')

    no_digit : is_digit b'a' ≢ true
    no_digit h = cc h
