-- ===== src/Webhook/Failures.antt =====
-- modules/webhook/instagram/conversation-bot.service.ts: which failures of a reply are passed on.
use trafego_flow.Common.{◌≡◌, ◌↔◌, ◌⊎◌, true, false, Option, none, some, String, arith}
use trafego_flow.Common.Http.{Exception, ok, err}
use trafego_flow.Common.Action.{pure, throw}
use trafego_flow.Conversation.{ConversationRuleEntity}
use trafego_flow.Webhook.{
  Graph, AllSettled, is_rate_limit, answer_comment, send_comment_reply, rethrow, rate_limit_of,
}

-- A reply that has succeeded, or failed for another reason than the rate limit.
abbrev pub Spared : Option Exception → Type 0
Spared none = Unit
Spared (some e) = is_rate_limit e ≡ false

-- A reply that has failed by the rate limit, with the exception `e`.
abbrev pub LimitedBy : Exception → Option Exception → Type 0
LimitedBy e o = (o ≡ some e) × (is_rate_limit e ≡ true)

module _ {W : Type 0} (graph : Graph W) where
  rethrow_iff :
      (o p : Option Exception) (v : W) (e : Exception)
      → ((rethrow graph (rate_limit_of graph p (rate_limit_of graph o none)) v ≡ (ok tt, v))
          ↔ (Spared o × Spared p))
        × ((rethrow graph (rate_limit_of graph p (rate_limit_of graph o none)) v ≡ (err e, v))
            ↔ (LimitedBy e p ⊎ (LimitedBy e o × Spared p)))
  unfolding pure throw
  rethrow_iff none none v e = ground arith
  rethrow_iff (some x) none v e = ground arith
  rethrow_iff none (some y) v e = ground arith
  rethrow_iff (some x) (some y) v e = ground arith

  -- However the two replies to a comment are settled together, the answer returns exactly if
  -- neither was refused by the rate limit, and throws exactly the rate limit that refused the
  -- public reply, or else the one that refused the private reply; it changes nothing after the
  -- replies.
  pub answer_comment_iff :
      (all_settled : AllSettled W) (page_id comment_id : String) (rule : ConversationRuleEntity)
      (w v : W) (private public : Option Exception) (e : Exception)
      → all_settled
          (send_comment_reply graph page_id comment_id rule.reply)
          (graph.reply_to_comment page_id comment_id rule.public_reply)
          w
        ≡ ((private, public), v)
      → ((answer_comment graph all_settled page_id comment_id rule w ≡ (ok tt, v))
          ↔ (Spared private × Spared public))
        × ((answer_comment graph all_settled page_id comment_id rule w ≡ (err e, v))
            ↔ (LimitedBy e public ⊎ (LimitedBy e private × Spared public)))
  unfolding answer_comment
  answer_comment_iff all_settled page_id comment_id rule w v private public e settled =
      rw settled (rethrow_iff private public v e)
