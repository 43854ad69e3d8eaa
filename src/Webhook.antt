-- ===== src/Webhook.antt =====
-- modules/webhook/instagram: the bot that answers messages and comments by the clients' rules, and
-- the search for the integration of a page in modules/integrations.
pub mod Failures
pub mod GraphApi
pub mod Requests
pub mod Limits
pub mod Events
mod EventTests
mod Tests
use Prim.Native.String
use trafego_flow.Common.{
  Bool, true, false, Option, none, some, String, str_eq, or_else, List, if◌then◌else◌,
}
use trafego_flow.Common.Text.{truthy?}
use trafego_flow.Common.Http.{Exception, http, too_many_requests}
use trafego_flow.Common.Action.{Action, pure, throw, query, catch, or_throw, ◌>>=◌}
use trafego_flow.Common.Store.{Cache}
use trafego_flow.Integrations.{Integrations, IntegrationEntity, find_by_page_id}
use trafego_flow.Conversation.{
  Rules, Strings, ConversationReply, ConversationRuleEntity, has_any, find_keyword_rule,
  find_default_rule, find_icebreaker_rule, find_post_rule,
}

-- The calls of `InstagramGraphService` that the bot makes.
pub record Graph (W : Type 0) : Type 0 where
  pub send_button_template :
      (page_id recipient_id text button_text button_url : String) → Action W (Unit {0})
  pub send_quick_replies :
      (page_id recipient_id text : String) → Option (List String) → Action W (Unit {0})
  pub send_text_message : (page_id recipient_id text : String) → Action W (Unit {0})
  pub send_comment_private_reply : (page_id comment_id text : String) → Action W (Unit {0})
  pub reply_to_comment : (page_id comment_id : String) → Option String → Action W (Unit {0})

-- `Promise.allSettled` of two calls, which the runtime interleaves as it will: the errors of those
-- that are rejected, and the world when both are settled.
abbrev pub AllSettled : Type 0 → Type 0
AllSettled W = (one two : Action W (Unit {0})) → W → (Option Exception × Option Exception) × W

-- `err instanceof GraphApiRateLimitException`, the only exception with this status
abbrev pub is_rate_limit : Exception → Bool
is_rate_limit (http too_many_requests message) = true
is_rate_limit _ = false

module _ {W : Type 0} (integrations : Integrations W) (cache : Cache W IntegrationEntity) where
  -- the client of an active integration; an error of the search is only logged
  client_of_page : String → Action W (Option String)
  client_of_page page_id =
      catch
        (do
          integration ← find_by_page_id integrations cache page_id
          pure (if integration.is_active then some integration.client_id else none))
        λ e. pure none

module _ {W : Type 0} (graph : Graph W) where
  -- `ReplyBuilderService.send`
  unfoldable pub send_message :
      (page_id recipient_id : String) → ConversationReply → Action W (Unit {0})
  send_message page_id recipient_id reply =
      if has_any reply.quick_replies
      then graph.send_quick_replies page_id recipient_id (or_else reply.text "") reply.quick_replies
      else graph.send_text_message page_id recipient_id (or_else reply.text "")

  unfoldable pub send : (page_id recipient_id : String) → ConversationReply → Action W (Unit {0})
  unfolding send_message
  send page_id recipient_id reply =
      if truthy? reply.button_url
      then graph.send_button_template page_id recipient_id (or_else reply.text "")
          (or_else reply.button_text "") (or_else reply.button_url "")
      else send_message page_id recipient_id reply

  -- `ReplyBuilderService.sendCommentReply`
  abbrev pub send_comment_reply :
      (page_id comment_id : String) → ConversationReply → Action W (Unit {0})
  send_comment_reply page_id comment_id reply =
      graph.send_comment_private_reply page_id comment_id (or_else reply.text "")

  -- a reply whose failure is logged, unless it is a rate limit, which the queue repeats
  unfoldable pub send_or_log : Action W (Unit {0}) → Action W (Unit {0})
  send_or_log reply = catch reply λ e. if is_rate_limit e then throw e else pure tt

  -- the loop over the settled results: the last rate limit is kept
  abbrev pub rate_limit_of : Option Exception → Option Exception → Option Exception
  rate_limit_of none kept = kept
  rate_limit_of (some e) kept = if is_rate_limit e then some e else kept

  abbrev pub rethrow : Option Exception → Action W (Unit {0})
  rethrow none = pure tt
  rethrow (some e) = throw e

  -- the end of `handleComment`: both replies run together, and both are awaited
  unfoldable pub answer_comment :
      AllSettled W → (page_id comment_id : String) → ConversationRuleEntity → Action W (Unit {0})
  answer_comment all_settled page_id comment_id rule w =
      let results =
        all_settled (send_comment_reply page_id comment_id rule.reply)
          (graph.reply_to_comment page_id comment_id rule.public_reply) w in
      rethrow (rate_limit_of results.0.1 (rate_limit_of results.0.0 none)) results.1

  abbrev answer : (page_id sender_id : String) → Option ConversationRuleEntity → Action W (Unit {0})
  answer page_id sender_id none = pure tt
  answer page_id sender_id (some rule) = send_or_log (send page_id sender_id rule.reply)

  abbrev answer_comment_by :
      AllSettled W
      → (page_id comment_id : String) → Option ConversationRuleEntity
      → Action W (Unit {0})
  answer_comment_by all_settled page_id comment_id none = pure tt
  answer_comment_by all_settled page_id comment_id (some rule) =
      answer_comment all_settled page_id comment_id rule

module _ {W : Type 0} (strings : Strings) (rules : Rules W) (integrations : Integrations W)
    (cache : Cache W IntegrationEntity) (graph : Graph W) where
  -- `findKeywordRule(…) ?? findDefaultRule(…)`
  or_default : String → Option ConversationRuleEntity → Action W (Option ConversationRuleEntity)
  or_default client_id (some rule) = pure (some rule)
  or_default client_id none = find_default_rule strings rules client_id

  dm_of : (page_id sender_id text : String) → Option String → Action W (Unit {0})
  unfolding or_default
  dm_of page_id sender_id text none = pure tt
  dm_of page_id sender_id text (some client_id) = do
    keyword ← find_keyword_rule strings rules client_id text
    rule ← or_default client_id keyword
    answer graph page_id sender_id rule

  dm_text : (page_id sender_id : String) → Option String → Action W (Unit {0})
  unfolding dm_of client_of_page
  dm_text page_id sender_id none = pure tt
  dm_text page_id sender_id (some text) =
      if truthy? (some text)
      then client_of_page integrations cache page_id >>= dm_of page_id sender_id text
      else pure tt

  -- `handleDm`
  pub handle_dm : (page_id sender_id : String) → Option String → Action W (Unit {0})
  unfolding dm_text
  handle_dm page_id sender_id text =
      if str_eq sender_id page_id then pure tt else dm_text page_id sender_id text

  comment_of :
      AllSettled W
      → (page_id post_id comment_id text : String) → Option String
      → Action W (Unit {0})
  comment_of all_settled page_id post_id comment_id text none = pure tt
  comment_of all_settled page_id post_id comment_id text (some client_id) = do
    rule ← find_post_rule strings rules client_id post_id text
    answer_comment_by graph all_settled page_id comment_id rule

  -- `handleComment`
  pub handle_comment :
      AllSettled W → (page_id post_id comment_id text : String) → Action W (Unit {0})
  unfolding comment_of client_of_page
  handle_comment all_settled page_id post_id comment_id text =
      client_of_page integrations cache page_id
      >>= comment_of all_settled page_id post_id comment_id text

  icebreaker_of : (page_id sender_id payload : String) → Option String → Action W (Unit {0})
  icebreaker_of page_id sender_id payload none = pure tt
  icebreaker_of page_id sender_id payload (some client_id) = do
    rule ← find_icebreaker_rule strings rules client_id payload
    answer graph page_id sender_id rule

  -- `handleIcebreaker`
  pub handle_icebreaker : (page_id sender_id payload : String) → Action W (Unit {0})
  unfolding icebreaker_of client_of_page
  handle_icebreaker page_id sender_id payload =
      client_of_page integrations cache page_id >>= icebreaker_of page_id sender_id payload
