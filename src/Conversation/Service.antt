-- ===== src/Conversation/Service.antt =====
-- modules/conversation-rules: the operations that change the rules, and the icebreakers that Meta is
-- told of.
use Prim.Native.String
use trafego_flow.Common.{
  not, ◌&&◌, ◌||◌, Option, none, some, String, str_eq, or_else, or_option, is_some, ltb, List, [],
  ◌∷◌, ◌++◌, map, filter, find?, length, if◌then◌else◌,
}
use trafego_flow.Common.Text.{truthy?}
use trafego_flow.Common.Http.{Exception, http, bad_request, not_found, conflict, bad_gateway}
use trafego_flow.Common.Action.{Action, pure, throw, query, catch, throw_if, or_throw, ◌>>=◌, ◌>>◌}
use trafego_flow.Conversation.{
  assert_reply_not_empty, assert_no_button_on_post_comment, RuleType, ConversationReply,
  ConversationRuleEntity, CreateConversationRuleDto, UpdateConversationRuleDto, Strings, is_type,
  type_name, same_value, question_of, Rules, is_active_rule, trigger_of, new_rule, icebreaker,
  default,
}
use trafego_flow.Integrations.{is_instagram, Integrations}

-- `graph` is `InstagramGraphService.setIceBreakers`, for a page and its questions and payloads;
-- `meta_message` is the message of Meta in an error of the HTTP client.
module _ {W : Type 0} (strings : Strings) (rules : Rules W) (integrations : Integrations W)
    (graph : String → List (Option String × Option String) → Action W (Unit {0}))
    (meta_message : Exception → Option String) where
  sync_error : Exception → Option String → Exception
  sync_error (http status message) found = http status message
  sync_error e (some message) = if truthy? (some message) then http bad_gateway message else e
  sync_error e none = e

  -- `IcebreakerSyncService.sync`
  pub sync : String → List (Option String × Option String) → Action W (Unit {0})
  unfolding sync_error
  sync client_id active_rules = do
    found ← query (integrations.find (λ i. str_eq i.client_id client_id && i.is_active))
    integration ←
        or_throw (find? is_instagram found)
          (http bad_request "Client has no active Instagram integration to sync icebreakers to")
    catch (graph integration.page_id active_rules) λ e. throw (sync_error e (meta_message e))

  abbrev others : Option String → List ConversationRuleEntity → List ConversationRuleEntity
  others none active = active
  others (some id) active =
      if truthy? (some id) then filter (λ r. not (str_eq r.id id)) active else active

  abbrev questions : List ConversationRuleEntity → List (Option String × Option String)
  questions active = map question_of active

  abbrev added :
      List (Option String × Option String)
      → Option (Option String × Option String)
      → List (Option String × Option String)
  added remaining none = remaining
  added remaining (some addition) = remaining ++ (addition ∷ [])

  -- `syncIfIcebreaker`
  unfoldable pub sync_if_icebreaker :
      (client_id : String) (exclude_id : Option String)
      → Option (Option String × Option String)
      → Action W (Unit {0})
  unfolding sync
  sync_if_icebreaker client_id exclude_id addition = do
    active ← query (rules.find (is_active_rule client_id icebreaker))
    throw_if (ltb 4 (length (added (questions (others exclude_id active)) addition))) (
        http conflict (
          String.◌++◌ "Client already has " (
            String.◌++◌ (strings.decimal (length (others exclude_id active)))
              " active icebreaker rules (max 4)")))
    sync client_id (added (questions (others exclude_id active)) addition)

  -- `syncIfIcebreakerBestEffort`
  unfoldable pub sync_if_icebreaker_best_effort :
      (client_id exclude_id : String) → Action W (Unit {0})
  unfolding sync_if_icebreaker
  sync_if_icebreaker_best_effort client_id exclude_id =
      catch (sync_if_icebreaker client_id (some exclude_id) none) λ e. pure tt

  abbrev already_exists : RuleType → Option String → String
  already_exists type trigger = String.◌++◌ "A rule with type \"" (
      String.◌++◌ (type_name type) (
        String.◌++◌ "\" and trigger \""
          (String.◌++◌ (or_else trigger "default") "\" already exists for this client")))

  -- `create`
  unfoldable pub create :
      (uuid : String) → CreateConversationRuleDto → Action W ConversationRuleEntity
  unfolding assert_reply_not_empty assert_no_button_on_post_comment sync_if_icebreaker
  create uuid dto = do
    assert_reply_not_empty dto.reply
    assert_no_button_on_post_comment dto.rule_type dto.reply
    existing ← query (
        rules.find_one (λ r.
          str_eq r.client_id dto.client_id
          && (is_type r.rule_type dto.rule_type
              && same_value r.trigger_value (trigger_of uuid dto.rule_type dto.trigger_value))))
    throw_if (is_some existing) (
        http conflict
          (already_exists dto.rule_type (trigger_of uuid dto.rule_type dto.trigger_value)))
    (if is_type dto.rule_type icebreaker
        then sync_if_icebreaker dto.client_id none (some (dto.icebreaker_question, some uuid))
        else pure tt)
    rules.insert (new_rule uuid dto)

  -- `findAll`
  unfoldable pub find_all : String → Action W (List ConversationRuleEntity)
  find_all client_id = query (rules.find (λ r. str_eq r.client_id client_id))

  abbrev rule_not_found : String → Exception
  rule_not_found id =
      http not_found (String.◌++◌ "Rule " (String.◌++◌ id " not found for this client"))

  -- `{ ...rule, ...dto }`
  abbrev pub merge : ConversationRuleEntity → UpdateConversationRuleDto → ConversationRuleEntity
  merge rule dto = record rule {
    is_active = or_else dto.is_active rule.is_active;
    trigger_value = or_option dto.trigger_value rule.trigger_value;
    reply = or_else dto.reply rule.reply;
    comment_keyword = or_option dto.comment_keyword rule.comment_keyword;
    public_reply = or_option dto.public_reply rule.public_reply;
    icebreaker_question = or_option dto.icebreaker_question rule.icebreaker_question;
  }

  -- the part of `update` that tells Meta of an icebreaker
  update_icebreaker : UpdateConversationRuleDto → ConversationRuleEntity → Action W (Unit {0})
  unfolding sync_if_icebreaker sync_if_icebreaker_best_effort
  update_icebreaker dto rule =
      if or_else dto.is_active rule.is_active
      then sync_if_icebreaker rule.client_id (some rule.id)
          (some (or_option dto.icebreaker_question rule.icebreaker_question, rule.trigger_value))
      else sync_if_icebreaker_best_effort rule.client_id rule.id

  abbrev when_given :
      Option ConversationReply → (ConversationReply → Action W (Unit {0})) → Action W (Unit {0})
  when_given none check = pure tt
  when_given (some reply) check = check reply

  -- `update`
  unfoldable pub update :
      (id client_id : String) → UpdateConversationRuleDto → Action W ConversationRuleEntity
  unfolding update_icebreaker assert_reply_not_empty assert_no_button_on_post_comment
  update id client_id dto = do
    when_given dto.reply (λ reply. assert_reply_not_empty reply)
    found ← query (rules.find_one (λ r. str_eq r.id id && str_eq r.client_id client_id))
    rule ← or_throw found (rule_not_found id)
    when_given dto.reply (λ reply. assert_no_button_on_post_comment rule.rule_type reply)
    throw_if
        (is_some dto.trigger_value
          && (is_type rule.rule_type icebreaker || is_type rule.rule_type default))
        (http bad_request "triggerValue cannot be changed for this rule type")
    (if is_type rule.rule_type icebreaker then update_icebreaker dto rule else pure tt)
    rules.save (merge rule dto)

  -- `remove`
  unfoldable pub remove : (id client_id : String) → Action W (Unit {0})
  unfolding sync_if_icebreaker_best_effort
  remove id client_id = do
    found ← query (rules.find_one (λ r. str_eq r.id id && str_eq r.client_id client_id))
    rule ← or_throw found (rule_not_found id)
    (if is_type rule.rule_type icebreaker
        then sync_if_icebreaker_best_effort rule.client_id rule.id
        else pure tt)
    rules.delete id
