-- ===== src/Conversation/Keywords.antt =====
-- modules/conversation-rules/conversation-rules.service.ts: which rule answers a message.
use mathlib.Core.Path.{subst}
use trafego_flow.Common.{
  ◌≡◌, refl, sym, ap, ◌∙◌, inl, inr, ℕ, ◌≤◌, Bool, true, false, Option, some, String, List, [], ◌∷◌,
  arith, ltb, filter, Member, Member-filter, if◌then◌else◌,
}
use trafego_flow.Common.Http.{ok}
use trafego_flow.Common.Action.{Triple, Triple-bind, Triple-query, Triple-pure, Triple-ok}
use trafego_flow.Conversation.{
  Rules, Strings, ConversationRuleEntity, keyword_dm, is_active_rule, is_triggered, trigger_length,
  longest_from, longest, find_keyword_rule,
}

module _ (strings : Strings) where
  abbrev length_of : ConversationRuleEntity → ℕ
  length_of r = trigger_length strings r.trigger_value

  longest_from-Member :
      (best : ConversationRuleEntity) (rs : List ConversationRuleEntity)
      → Member (longest_from strings best rs) (best ∷ rs)
  longest_from-Member best [] = inl refl
  longest_from-Member best (r ∷ rs) =
      either (ltb (length_of best) (length_of r))
        (longest_from-Member (if ltb (length_of best) (length_of r) then r else best) rs)
    where
      either :
          (b : Bool) {x : ConversationRuleEntity}
          → Member x ((if b then r else best) ∷ rs)
          → Member x (best ∷ r ∷ rs)
      either true m = inr m
      either false (inl e) = inl e
      either false (inr m) = inr (inr m)

  longest_from_ge :
      (best : ConversationRuleEntity) (rs : List ConversationRuleEntity)
      → length_of best ≤ length_of (longest_from strings best rs)
  longest_from_ge best [] = omega arith
  longest_from_ge best (r ∷ rs) =
      ground (arith, longest_from_ge (if ltb (length_of best) (length_of r) then r else best) rs)

  longest_from_max :
      (best : ConversationRuleEntity) (rs : List ConversationRuleEntity)
      (s : ConversationRuleEntity)
      → Member s rs
      → length_of s ≤ length_of (longest_from strings best rs)
  longest_from_max best [] s m = absurd m
  longest_from_max best (r ∷ rs) s (inl e) =
      let same : length_of s ≡ length_of r = ap length_of e in
      ground (arith, longest_from_ge (if ltb (length_of best) (length_of r) then r else best) rs)
  longest_from_max best (r ∷ rs) s (inr m) =
      longest_from_max (if ltb (length_of best) (length_of r) then r else best) rs s m

  longest-Member :
      (l : List ConversationRuleEntity) {r : ConversationRuleEntity}
      → longest strings l ≡ some r
      → Member r l
  longest-Member [] e = cc
  longest-Member (x ∷ xs) {r} e =
      subst (λ y. Member y (x ∷ xs)) (unwrap e) (longest_from-Member x xs)
    where
      unwrap : {a b : ConversationRuleEntity} → some a ≡ some b → a ≡ b
      unwrap h = cc

  longest_max :
      (l : List ConversationRuleEntity) (s : ConversationRuleEntity)
      → Member s l
      → (r : ConversationRuleEntity) × (longest strings l ≡ some r) × (length_of s ≤ length_of r)
  longest_max [] s m = absurd m
  longest_max (x ∷ xs) s (inl e) =
      let same : length_of s ≡ length_of x = ap length_of e in
      (longest_from strings x xs, refl, ground (arith, longest_from_ge x xs))
  longest_max (x ∷ xs) s (inr m) = (longest_from strings x xs, refl, longest_from_max x xs s m)

  module _ {W : Type 0} (rules : Rules W) where
    -- The rule is an active keyword rule of the client, and the text has its keyword.
    pub record Answers (w : W) (client_id text : String) (r : ConversationRuleEntity) : Type 0 where
      pub row : rules.get w r.id ≡ some r
      pub is_rule : is_active_rule client_id keyword_dm r ≡ true
      pub triggered : is_triggered strings text r.trigger_value ≡ true

    abbrev Found : (client_id text : String) → W → Option ConversationRuleEntity → Type 0
    Found client_id text w o =
        (l : List ConversationRuleEntity) × (rules.find (is_active_rule client_id keyword_dm) w
          ≡ ok l)
        × (longest strings (filter (λ r. is_triggered strings text r.trigger_value) l) ≡ o)

    find_keyword_rule-Found :
        (client_id text : String) (w0 : W)
        → Triple
            (λ w. w ≡ w0)
            (find_keyword_rule strings rules client_id text)
            (λ o _. Found client_id text w0 o)
            (λ _ _. Unit)
    unfolding find_keyword_rule
    find_keyword_rule-Found client_id text w0 =
        Triple-bind (λ l _. rules.find (is_active_rule client_id keyword_dm) w0 ≡ ok l)
          (Triple-query _
            (λ w l e same.
              subst (λ v. rules.find (is_active_rule client_id keyword_dm) v ≡ ok l) same e)
            (λ w x e same. tt))
          λ l. Triple-pure _ (λ w e. (l, e, refl))

    -- A rule that the search for a keyword returns is an active keyword rule of the client in the
    -- table, and the text triggers it.
    pub find_keyword_rule-Answers :
        (client_id text : String) (w w' : W) (r : ConversationRuleEntity)
        → find_keyword_rule strings rules client_id text w ≡ (ok (some r), w')
        → Answers w client_id text r
    find_keyword_rule-Answers client_id text w w' r done =
        let (l, found, longest_is) =
          Triple-ok w (find_keyword_rule-Found client_id text w) refl done in
        let (member, triggered) =
          (Member-filter (λ x. is_triggered strings text x.trigger_value) l r).0 (
            longest-Member (filter (λ x. is_triggered strings text x.trigger_value) l)
              longest_is) in
        let (row, is_rule) =
          (rules.find_ok (is_active_rule client_id keyword_dm) w r found).0 member in
        record { row = row; is_rule = is_rule; triggered = triggered }

    -- If some active keyword rule of the client is triggered by a text and the search returns, it
    -- returns a rule, whose keyword is at least as long.
    pub find_keyword_rule_longest :
        (client_id text : String) (w w' : W) (s : ConversationRuleEntity)
        (o : Option ConversationRuleEntity)
        → Answers w client_id text s
        → find_keyword_rule strings rules client_id text w ≡ (ok o, w')
        → (r : ConversationRuleEntity) × (o ≡ some r)
          × (trigger_length strings s.trigger_value ≤ trigger_length strings r.trigger_value)
    find_keyword_rule_longest client_id text w w' s o answers done =
        let (l, found, longest_is) =
          Triple-ok w (find_keyword_rule-Found client_id text w) refl done in
        let member = (Member-filter (λ x. is_triggered strings text x.trigger_value) l s).1 (
          (rules.find_ok (is_active_rule client_id keyword_dm) w s found).1
              (answers.row, answers.is_rule),
          answers.triggered,
        ) in
        let (r, is_r, le) =
          longest_max (filter (λ x. is_triggered strings text x.trigger_value) l) s member in
        (r, sym longest_is ∙ is_r, le)
