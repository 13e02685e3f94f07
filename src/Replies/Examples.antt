-- ===== src/Replies/Examples.antt =====
-- Two conversations are parked; the second is answered first.
use shopify_vitrina.Base.{◌≡◌, refl, some, none, List, [], ◌∷◌, Text, str, lookup, insert, ◌==◌}
use shopify_vitrina.Replies.{AgentReplies, register, replied, verdict}
use shopify_vitrina.Replies.Past.{
  Call, register_call, release_call, time_out_call, deliver_call, fail_call, run, step,
  first_verdict,
}
use shopify_vitrina.Replies.Answered.{empty_replies, register-answered}

abbrev one : Text
one = str "a2a:super:ventas:1"

abbrev two : Text
two = str "a2a:super:ventas:2"

abbrev both : AgentReplies
both = record { waiters = (one, 1) ∷ (two, 2) ∷ []; settled = []; posted = []; next = 3 }

abbrev later : List Call
later =
    deliver_call (record { conversation_key = one; reply_to = none }) (str "hola")
    ∷ time_out_call one
    ∷ deliver_call (record { conversation_key = two; reply_to = none }) (str "hay 3")
    ∷ fail_call two
    ∷ release_call two 2
    ∷ []

register-both : register (run none empty_replies (register_call one ∷ [])) two ≡ some (both, 2)
unfolding register run step lookup insert ◌==◌
register-both = refl

first_verdict-later : first_verdict two 2 later ≡ some (replied (str "hay 3"))
unfolding first_verdict ◌==◌
first_verdict-later = refl

register-answered_example : verdict 2 (run none both later).settled ≡ first_verdict two 2 later
register-answered_example =
    register-answered none (register_call one ∷ []) later two both 2 register-both
