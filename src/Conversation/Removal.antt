-- ===== src/Conversation/Removal.antt =====
-- modules/conversation-rules/conversation-rules.service.ts: a rule can be removed whatever Meta says.
use trafego_flow.Common.{
  ◌≡◌, refl, ◌&&◌, Option, none, some, String, str_eq, List, arith, Bool-cases, inl, inr,
}
use trafego_flow.Common.Http.{Exception, ok, err, Result}
use trafego_flow.Common.Action.{Action, catch, pure, ◌>>=◌, handled}
use trafego_flow.Conversation.{Rules, Strings, ConversationRuleEntity, is_type, icebreaker}
use trafego_flow.Integrations.{Integrations}
use trafego_flow.Conversation.Service.{remove, sync_if_icebreaker, sync_if_icebreaker_best_effort}

module _ {W : Type 0} (strings : Strings) (rules : Rules W) (integrations : Integrations W)
    (graph : String → List (Option String × Option String) → Action W (Unit {0}))
    (meta_message : Exception → Option String) where
  best_effort_returns :
      (client_id exclude_id : String) (w : W)
      → (v : W) × (sync_if_icebreaker_best_effort strings rules integrations graph meta_message
            client_id exclude_id w
          ≡ (ok tt, v))
  unfolding sync_if_icebreaker_best_effort catch pure
  best_effort_returns client_id exclude_id w = go (
      sync_if_icebreaker strings rules integrations graph meta_message client_id (some exclude_id)
        none w)
    where
      go : (x : Result (Unit {0}) × W) → (v : W) × (handled (λ e. pure tt) x ≡ (ok tt, v))
      go (ok u, v) = (v, refl)
      go (err e, v) = (v, refl)

  -- Where the search finds the rule, remove ends as the deletion of its row does, in some world,
  -- whatever the call of Meta does.
  pub remove_attempts :
      (id client_id : String) (w : W) (r : ConversationRuleEntity)
      → rules.find_one (λ x. str_eq x.id id && str_eq x.client_id client_id) w ≡ ok (some r)
      → (v : W) × (remove strings rules integrations graph meta_message id client_id w
          ≡ rules.delete id v)
  unfolding remove ◌>>=◌
  remove_attempts id client_id w r found =
      let (v, returns) = best_effort_returns r.client_id r.id w in
      elim (Bool-cases (is_type r.rule_type icebreaker)) [
        | inl same ↦ (v, ground arith)
        | inr other ↦ (w, ground arith)
      ]
