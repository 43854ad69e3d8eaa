-- ===== src/Conversation/Tests.antt =====
-- The rules on concrete messages, over tables in memory.
use mathlib.Core.Path.{◌≡◌, refl}
use trafego_flow.Common.{
  true, Option, none, some, List, [], ◌∷◌, String, str_eq, ◌≤◌, if◌then◌else◌, length,
}
use trafego_flow.Common.Http.{failure, ok}
use trafego_flow.Common.Memory.{memory, first, select, insert_row}
use trafego_flow.Common.Action.{Action, pure, throw, ◌>>=◌, catch}
use trafego_flow.Conversation.{
  Rules, Strings, ConversationRuleEntity, ConversationReply, CreateConversationRuleDto, keyword_dm,
  icebreaker, find_keyword_rule, trigger_length, new_rule,
}
use trafego_flow.Integrations.{Integrations, IntegrationEntity, instagram}
use trafego_flow.Conversation.Service.{create}
use trafego_flow.Conversation.Keywords.{
  Answers, find_keyword_rule-Answers, find_keyword_rule_longest,
}
use trafego_flow.Conversation.Icebreakers.{create_max}

record World : Type 0 where
  stored : List ConversationRuleEntity
  connected : List IntegrationEntity

abbrev rules : Rules World
rules =
    memory (λ r. r.id)
      (record {
        view = λ w. w.stored;
        put = λ t w. record w { stored = t };
        view-put = λ t w. refl;
      })

abbrev integrations : Integrations World
integrations =
    memory (λ i. i.id)
      (record {
        view = λ w. w.connected;
        put = λ t w. record w { connected = t };
        view-put = λ t w. refl;
      })

-- every text has every part, and the keyword `promo verao` is longer than `promo`
abbrev strings : Strings
strings = record {
  to_lower_case = λ s. s;
  includes = λ text part. true;
  code_units = λ s. if str_eq s "promo" then 5 else 11;
  decimal = λ n. "n";
}

abbrev greeting : ConversationReply
greeting = record { text = some "Oi!"; quick_replies = none; button_text = none; button_url = none }

abbrev keyword_rule : (id keyword : String) → ConversationRuleEntity
keyword_rule id keyword = record {
  id = id;
  client_id = "c1";
  rule_type = keyword_dm;
  trigger_value = some keyword;
  reply = greeting;
  comment_keyword = none;
  public_reply = none;
  icebreaker_question = none;
  is_active = true;
}

abbrev page : IntegrationEntity
page = record {
  id = "i1";
  client_id = "c1";
  platform = instagram;
  page_id = "p1";
  access_token = "aaa";
  app_secret = none;
  token_expires_at = none;
  is_active = true;
}

abbrev world : World
world = record {
  stored = keyword_rule "r1" "promo" ∷ keyword_rule "r2" "promo verao" ∷ [];
  connected = page ∷ [];
}

finds :
    find_keyword_rule strings rules "c1" "promo verao" world
    ≡ (ok (some (keyword_rule "r2" "promo verao")), world)
unfolding find_keyword_rule ◌>>=◌ select
finds = refl

find_keyword_rule-Answers_example :
    Answers strings rules world "c1" "promo verao" (keyword_rule "r2" "promo verao")
find_keyword_rule-Answers_example =
    find_keyword_rule-Answers strings rules "c1" "promo verao" world world
      (keyword_rule "r2" "promo verao") finds

find_keyword_rule_longest_example :
    (r : ConversationRuleEntity) × (some (keyword_rule "r2" "promo verao") ≡ some r)
    × (5 ≤ trigger_length strings r.trigger_value)
find_keyword_rule_longest_example =
    find_keyword_rule_longest strings rules "c1" "promo verao" world world
      (keyword_rule "r1" "promo") (some (keyword_rule "r2" "promo verao"))
      (record { row = refl; is_rule = refl; triggered = refl }) finds

abbrev question : CreateConversationRuleDto
question = record {
  client_id = "c1";
  rule_type = icebreaker;
  trigger_value = none;
  reply = greeting;
  comment_keyword = none;
  public_reply = none;
  icebreaker_question = some "Preço?";
}

abbrev graph : String → List (Option String × Option String) → Action World (Unit {0})
graph page_id rows = pure tt

abbrev created : ConversationRuleEntity
created = new_rule "u1" question "nnn"

abbrev after_create : World
after_create = record world { stored = created ∷ world.stored }

create_runs :
    create strings rules integrations graph (λ e. none) "u1" question world
    ≡ (ok created, after_create)
unfolding create ◌>>=◌ catch select first insert_row
create_runs = refl

create_max_example : length {A = ConversationRuleEntity} [] ≤ 3
unfolding select
create_max_example =
    create_max strings rules integrations graph (λ e. none) "u1" question [] world after_create
      created refl refl create_runs

-- Meta refuses every call.
abbrev refusing : String → List (Option String × Option String) → Action World (Unit {0})
refusing page_id rows = throw (failure "expired token")
