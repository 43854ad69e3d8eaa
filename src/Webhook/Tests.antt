-- ===== src/Webhook/Tests.antt =====
-- Replies to a comment over a world that lists the calls of Meta.
use mathlib.Core.Path.{◌≡◌, refl}
use trafego_flow.Common.{◌↔◌, ◌⊎◌, true, Option, none, some, List, [], ◌∷◌, String}
use trafego_flow.Common.Http.{Exception, Result, http, too_many_requests, ok, err}
use trafego_flow.Common.Action.{Action, throw}
use trafego_flow.Conversation.{ConversationRuleEntity, post_comment}
use trafego_flow.Webhook.{Graph, AllSettled, answer_comment}
use trafego_flow.Webhook.Failures.{Spared, LimitedBy, answer_comment_iff}

abbrev World : Type 0
World = List String

abbrev call : String → Action World (Unit {0})
call name w = (ok tt, name ∷ w)

abbrev limited : String → Action World (Unit {0})
limited name w = (err (http too_many_requests "limit"), name ∷ w)

abbrev limit : Exception
limit = http too_many_requests "limit"

-- the error of a rejected call
abbrev reason : Result (Unit {0}) → Option Exception
reason (ok u) = none
reason (err e) = some e

abbrev graph : Graph World
graph = record {
  send_button_template = λ page to text button url. call text;
  send_quick_replies = λ page to text replies. call text;
  send_text_message = λ page to text. call text;
  send_comment_private_reply = λ page comment text. limited text;
  reply_to_comment = λ page comment text. call "public";
}

abbrev rule : ConversationRuleEntity
rule = record {
  id = "r1";
  client_id = "c1";
  rule_type = post_comment;
  trigger_value = some "post";
  reply = record { text = some "Oi!"; quick_replies = none; button_text = none; button_url = none };
  comment_keyword = some "quero";
  public_reply = some "Te chamei!";
  icebreaker_question = none;
  is_active = true;
}

-- the calls, one after the other
abbrev in_turn : AllSettled World
in_turn one two w = let (r, v) = one w in let (q, u) = two v in ((reason r, reason q), u)

comment_runs :
    answer_comment graph in_turn "p1" "m1" rule []
    ≡ (err (http too_many_requests "limit"), "public" ∷ "Oi!" ∷ [])
unfolding answer_comment throw
comment_runs = refl

answer_comment_iff_example :
    ((answer_comment graph in_turn "p1" "m1" rule [] ≡ (ok tt, "public" ∷ "Oi!" ∷ []))
      ↔ (Spared (some limit) × Spared none))
    × ((answer_comment graph in_turn "p1" "m1" rule [] ≡ (err limit, "public" ∷ "Oi!" ∷ []))
        ↔ (LimitedBy limit none ⊎ (LimitedBy limit (some limit) × Spared none)))
answer_comment_iff_example =
    answer_comment_iff graph in_turn "p1" "m1" rule [] ("public" ∷ "Oi!" ∷ []) (some limit) none
      limit refl
