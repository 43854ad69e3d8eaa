-- ===== src/Conversation.antt =====
-- modules/conversation-rules: the rules by which messages and comments are answered, and the
-- icebreakers that Meta is told of.
pub mod Service
pub mod Keywords
pub mod Icebreakers
mod Tests
pub mod Removal
use Prim.Native.String
use trafego_flow.Common.{
  ℕ, Bool, true, false, not, ◌&&◌, ◌||◌, Option, none, some, String, str_eq, or_else, or_option,
  is_some, ltb, List, [], ◌∷◌, ◌++◌, map, filter, find?, length, if◌then◌else◌,
}
use trafego_flow.Common.Text.{truthy?}
use trafego_flow.Common.Http.{Exception, http, bad_request, not_found, conflict, bad_gateway}
use trafego_flow.Common.Action.{Action, pure, throw, query, catch, throw_if, or_throw, ◌>>=◌, ◌>>◌}
use trafego_flow.Common.Store.{Repository}

pub data RuleType : Type 0 where
  post_comment keyword_dm icebreaker default : RuleType

pub record ConversationReply : Type 0 where
  pub text : Option String
  pub quick_replies : Option (List String)
  pub button_text : Option String
  pub button_url : Option String

pub record ConversationRuleEntity : Type 0 where
  pub id : String
  pub client_id : String
  pub rule_type : RuleType
  pub trigger_value : Option String
  pub reply : ConversationReply
  pub comment_keyword : Option String
  pub public_reply : Option String
  pub icebreaker_question : Option String
  pub is_active : Bool

pub record CreateConversationRuleDto : Type 0 where
  pub client_id : String
  pub rule_type : RuleType
  pub trigger_value : Option String
  pub reply : ConversationReply
  pub comment_keyword : Option String
  pub public_reply : Option String
  pub icebreaker_question : Option String

pub record UpdateConversationRuleDto : Type 0 where
  pub is_active : Option Bool
  pub trigger_value : Option String
  pub reply : Option ConversationReply
  pub comment_keyword : Option String
  pub public_reply : Option String
  pub icebreaker_question : Option String

-- What the code uses of JavaScript's strings: `toLowerCase`, `includes`, `length`
-- and a number in a template.
pub record Strings : Type 0 where
  pub to_lower_case : String → String
  pub includes : (text part : String) → Bool
  pub code_units : String → ℕ
  pub decimal : ℕ → String

abbrev pub is_type : RuleType → RuleType → Bool
is_type post_comment post_comment = true
is_type keyword_dm keyword_dm = true
is_type icebreaker icebreaker = true
is_type default default = true
is_type _ _ = false

-- the values of the enumeration
abbrev pub type_name : RuleType → String
type_name post_comment = "post_comment"
type_name keyword_dm = "keyword_dm"
type_name icebreaker = "icebreaker"
type_name default = "default"

-- a nullable column compared with a nullable value, `IsNull()` for null
abbrev pub same_value : Option String → Option String → Bool
same_value none none = true
same_value (some s) (some t) = str_eq s t
same_value _ _ = false

-- what Meta is told of an icebreaker: its question and its payload
abbrev pub question_of : ConversationRuleEntity → Option String × Option String
question_of r = (r.icebreaker_question, r.trigger_value)

abbrev pub Rules : Type 0 → Type 0
Rules W = Repository W ConversationRuleEntity (λ r. r.id)

-- `reply.quickReplies?.length`
abbrev pub has_any : Option (List String) → Bool
has_any (some (x ∷ xs)) = true
has_any _ = false

-- `where: { clientId, type, isActive: true }`
abbrev pub is_active_rule : String → RuleType → ConversationRuleEntity → Bool
is_active_rule client_id type r =
    str_eq r.client_id client_id && (is_type r.rule_type type && r.is_active)

module _ {W : Type 0} where
  -- `assertReplyNotEmpty`
  pub assert_reply_not_empty : ConversationReply → Action W (Unit {0})
  assert_reply_not_empty reply = do
    throw_if
        (not (truthy? reply.text)
          && (not (has_any reply.quick_replies) && not (truthy? reply.button_url)))
        (http bad_request "reply must have at least one of: text, quickReplies, buttonUrl")
    throw_if ((truthy? reply.button_text || truthy? reply.button_url) && not (truthy? reply.text))
        (http bad_request "reply.text is required when buttonText/buttonUrl is set")

  -- `assertNoButtonOnPostComment`
  pub assert_no_button_on_post_comment : RuleType → ConversationReply → Action W (Unit {0})
  assert_no_button_on_post_comment type reply =
      throw_if
        (is_type type post_comment && (truthy? reply.button_text || truthy? reply.button_url))
        (http bad_request
          "buttonText/buttonUrl is not supported for post_comment rules — comment private replies only support text")

module _ (strings : Strings) where
  -- the filter of `findKeywordRule`
  abbrev pub is_triggered : String → Option String → Bool
  is_triggered text none = false
  is_triggered text (some trigger) =
      truthy? (some trigger)
      && strings.includes (strings.to_lower_case text) (strings.to_lower_case trigger)

  -- `triggerValue!.length`
  abbrev pub trigger_length : Option String → ℕ
  trigger_length none = 0
  trigger_length (some trigger) = strings.code_units trigger

  -- the `reduce` of `findKeywordRule`
  abbrev pub longest_from :
      ConversationRuleEntity → List ConversationRuleEntity → ConversationRuleEntity
  longest_from best [] = best
  longest_from best (r ∷ rs) =
      longest_from
        (if ltb (trigger_length best.trigger_value) (trigger_length r.trigger_value)
          then r
          else best)
        rs

  abbrev pub longest : List ConversationRuleEntity → Option ConversationRuleEntity
  longest [] = none
  longest (r ∷ rs) = some (longest_from r rs)

  module _ {W : Type 0} (rules : Rules W) where
    -- `findKeywordRule`
    unfoldable pub find_keyword_rule :
        (client_id text : String) → Action W (Option ConversationRuleEntity)
    find_keyword_rule client_id text = do
      found ← query (rules.find (is_active_rule client_id keyword_dm))
      pure (longest (filter (λ r. is_triggered text r.trigger_value) found))

    -- `findDefaultRule`
    unfoldable pub find_default_rule :
        (client_id : String) → Action W (Option ConversationRuleEntity)
    find_default_rule client_id = query (rules.find_one (is_active_rule client_id default))

    -- `findIcebreakerRule`
    unfoldable pub find_icebreaker_rule :
        (client_id payload : String) → Action W (Option ConversationRuleEntity)
    find_icebreaker_rule client_id payload = query (
        rules.find_one
          (λ r. is_active_rule client_id icebreaker r && same_value r.trigger_value (some payload)))

    -- the end of `findPostRule`, for the keyword of the rule that was found
    abbrev pub commented :
        String → Option String → ConversationRuleEntity → Option ConversationRuleEntity
    commented text none rule = none
    commented text (some keyword) rule =
        if truthy? (some keyword)
          && strings.includes (strings.to_lower_case text) (strings.to_lower_case keyword)
        then some rule
        else none

    abbrev pub if_commented : String → Option ConversationRuleEntity → Option ConversationRuleEntity
    if_commented text none = none
    if_commented text (some rule) = commented text rule.comment_keyword rule

    -- `findPostRule`
    unfoldable pub find_post_rule :
        (client_id post_id text : String) → Action W (Option ConversationRuleEntity)
    find_post_rule client_id post_id text = do
      found ← query (
          rules.find_one (λ r.
            is_active_rule client_id post_comment r && same_value r.trigger_value (some post_id)))
      pure (if_commented text found)

-- the trigger that `create` stores; `uuid` is `randomUUID()`
abbrev pub trigger_of : (uuid : String) → RuleType → Option String → Option String
trigger_of uuid default given = none
trigger_of uuid icebreaker given = some uuid
trigger_of uuid _ given = given

abbrev pub new_rule : (uuid : String) → CreateConversationRuleDto → String → ConversationRuleEntity
new_rule uuid dto id = record {
  id = id;
  client_id = dto.client_id;
  rule_type = dto.rule_type;
  trigger_value = trigger_of uuid dto.rule_type dto.trigger_value;
  reply = dto.reply;
  comment_keyword = if is_type dto.rule_type post_comment then dto.comment_keyword else none;
  public_reply = if is_type dto.rule_type post_comment then dto.public_reply else none;
  icebreaker_question = if is_type dto.rule_type icebreaker then dto.icebreaker_question else none;
  is_active = true;
}
