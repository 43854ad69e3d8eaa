-- ===== src/Conversation/Icebreakers.antt =====
-- modules/conversation-rules/conversation-rules.service.ts: how many icebreakers a client may have.
use mathlib.Core.Path.{subst}
use trafego_flow.Common.{
  ◌≡◌, refl, sym, ◌∙◌, ◌≤◌, Bool, true, false, Option, none, some, String, List, [], ◌∷◌, ◌++◌,
  arith, ltb, map, length, length-append, length-map,
}
use trafego_flow.Common.Http.{Exception, ok, Result}
use trafego_flow.Common.Action.{
  Action, Triple, Triple-bind, Triple-query, Triple-step, Triple-throw_if, Triple-then, Triple-ok,
  throw_if, query,
}
use trafego_flow.Conversation.{
  Rules, Strings, ConversationRuleEntity, CreateConversationRuleDto, is_type, icebreaker,
  is_active_rule, question_of, assert_reply_not_empty, assert_no_button_on_post_comment,
}
use trafego_flow.Integrations.{Integrations}
use trafego_flow.Conversation.Service.{create, sync_if_icebreaker, sync}

module _ {W : Type 0} where
  Any : {A : Type 0} → A → W → Type 0
  Any a w = Unit

  throw_if-same :
      (w0 : W) (c : Bool) (e : Exception)
      → Triple (λ w. w ≡ w0) (throw_if c e) (λ _ w. w ≡ w0) (λ _ _. Unit)
  throw_if-same w0 c e = Triple-throw_if c e (λ w h same. same) (λ w h same. tt)

  query-same :
      {A : Type 0} (w0 : W) (q : W → Result A)
      → Triple (λ w. w ≡ w0) (query q) (λ _ w. w ≡ w0) (λ _ _. Unit)
  query-same w0 q = Triple-query q (λ w a h same. same) (λ w x h same. tt)

  -- what does not speak of the world stays true
  step_fact :
      {A : Type 0} {F : Type 0} (m : Action W A) → Triple (λ _. F) m (λ _ _. F) (λ _ _. Unit)
  step_fact m = Triple-step m (λ w w' a e h. h) (λ w w' x e h. tt)

fits :
    (l : List ConversationRuleEntity) (x : Option String × Option String)
    → ltb 4 (length (map question_of l ++ (x ∷ []))) ≡ false
    → length l ≤ 3
fits l x h = ground (arith, length-append (map question_of l) (x ∷ []), length-map l question_of)

module _ {W : Type 0} (strings : Strings) (rules : Rules W) (integrations : Integrations W)
    (graph : String → List (Option String × Option String) → Action W (Unit {0}))
    (meta_message : Exception → Option String) where
  sync_if_icebreaker-fits :
      (client_id : String) (addition : Option String × Option String) (w0 : W)
      (l : List ConversationRuleEntity)
      → rules.find (is_active_rule client_id icebreaker) w0 ≡ ok l
      → Triple
          (λ w. w ≡ w0)
          (sync_if_icebreaker strings rules integrations graph meta_message client_id none
            (some addition))
          (λ _ _. length l ≤ 3)
          (λ _ _. Unit)
  unfolding sync_if_icebreaker
  sync_if_icebreaker-fits client_id addition w0 l found =
      Triple-bind (λ active _. active ≡ l)
        (Triple-query _
          (λ w active e same. same_list (
            sym (subst (λ v. rules.find (is_active_rule client_id icebreaker) v ≡ ok active) same e)
            ∙ found))
          (λ w x e same. tt))
        λ active.
          Triple-bind (λ _ _. length l ≤ 3)
            (Triple-throw_if _ _
              (λ w e same. subst (λ k. length k ≤ 3) same (fits active addition e))
              (λ w e same. tt))
            λ _. step_fact (sync strings rules integrations graph meta_message client_id _)
    where
      same_list : {a b : List ConversationRuleEntity} → ok a ≡ ok b → a ≡ b
      same_list e = cc

  -- An icebreaker rule is created only for a client with at most three active icebreakers before.
  pub create_max :
      (uuid : String) (dto : CreateConversationRuleDto) (l : List ConversationRuleEntity) (w w' : W)
      (r : ConversationRuleEntity)
      → is_type dto.rule_type icebreaker ≡ true
      → rules.find (is_active_rule dto.client_id icebreaker) w ≡ ok l
      → create strings rules integrations graph meta_message uuid dto w ≡ (ok r, w')
      → length l ≤ 3
  unfolding create assert_reply_not_empty assert_no_button_on_post_comment
  create_max uuid dto l w w' r kind found done =
      Triple-ok {P = λ v. v ≡ w} {Q = λ _ _. length l ≤ 3} {R = λ _ _. Unit {0}} w
        (Triple-bind (λ _ v. v ≡ w)
          (Triple-bind (λ _ v. v ≡ w) (throw_if-same w _ _) λ _. throw_if-same w _ _)
          λ _.
            Triple-bind (λ _ v. v ≡ w) (throw_if-same w _ _)
              λ _.
                Triple-bind (λ _ v. v ≡ w) (query-same w _)
                  λ existing.
                    Triple-bind (λ _ v. v ≡ w) (throw_if-same w _ _)
                      λ _.
                        Triple-bind (λ _ _. length l ≤ 3)
                          (Triple-then _ (is_type dto.rule_type icebreaker) kind
                            (sync_if_icebreaker-fits dto.client_id _ w l found))
                          λ _. step_fact (rules.insert _))
        refl done
