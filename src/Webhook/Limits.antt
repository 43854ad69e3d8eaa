-- ===== src/Webhook/Limits.antt =====
-- modules/webhook/instagram: which errors of Meta make the queue repeat an answer to a message.
use trafego_flow.Common.{
  ◌≡◌, refl, ◌⊎◌, inl, inr, true, false, ◌||◌, Bool-cases, Option, none, some, String, List,
  or_else, arith,
}
use trafego_flow.Common.Text.{truthy?}
use trafego_flow.Common.Http.{Exception, Result, ok, err}
use trafego_flow.Common.Action.{pure, throw, catch, ◌>>=◌, bind_err}
use trafego_flow.Common.Store.{Cache}
use trafego_flow.Integrations.{Integrations, IntegrationEntity, AesCrypto}
use trafego_flow.Conversation.{ConversationReply, has_any}
use trafego_flow.Webhook.{is_rate_limit, send, send_message, send_or_log}
use trafego_flow.Webhook.GraphApi.{
  Json, RequestError, Response, answered, refused, HttpService, is_code, includes_code,
  rate_limit_error_codes, common_graph_error, message_error,
}
use trafego_flow.Webhook.Requests.{
  get_decrypted_token, message_request, post_message, post_as, send_request, send_text_message,
  send_quick_replies, send_button_template, graph_service,
}

-- An answer of Meta that tells of a rate limit, and not of an expired token.
abbrev pub IsLimited : RequestError → Type 0
IsLimited e =
    (is_code 190 e.code ≡ false)
    × ((is_code 429 e.status || includes_code rate_limit_error_codes e.code) ≡ true)

message_error-IsLimited :
    (page_id : String) (e : RequestError)
    → is_rate_limit (message_error page_id e) ≡ true
    → IsLimited e
unfolding message_error common_graph_error
message_error-IsLimited page_id e h = (ground arith, ground arith)

module _ {W : Type 0} (integrations : Integrations W) (cache : Cache W IntegrationEntity)
    (crypto : AesCrypto) (http_service : HttpService W) where
  -- A call ends in a rate limit that came with the page's token, or that Meta answered.
  abbrev pub Limited : (page_id : String) → W → Exception → W → Type 0
  Limited page_id w e w' =
      (get_decrypted_token integrations cache crypto http_service page_id w ≡ (err e, w'))
      ⊎ ((token : String) × (body : Json) × (v : W) × (f : RequestError) × (http_service.request
              (message_request integrations cache crypto http_service page_id token body) v
            ≡ (refused f, w'))
          × IsLimited f)

  post_message-Limited :
      (page_id token : String) (body : Json) (w v w' : W) (e : Exception)
      → post_message integrations cache crypto http_service page_id token body v ≡ (err e, w')
      → is_rate_limit e ≡ true
      → Limited page_id w e w'
  unfolding post_message send_request ◌>>=◌
  post_message-Limited page_id token body w v w' e h limit =
      go
        (http_service.request
          (message_request integrations cache crypto http_service page_id token body) v)
        refl
    where
      go :
          (x : Response × W)
          → http_service.request
              (message_request integrations cache crypto http_service page_id token body)
              v
            ≡ x
          → Limited page_id w e w'
      go (answered a, u) same = absurd (ground arith)
      go (refused f, u) same =
          inr (token, body, v, f, ground arith, message_error-IsLimited page_id f (ground arith))

  post_as-Limited :
      (page_id : String) (body : Json) (w w' : W) (e : Exception)
      → post_as integrations cache crypto http_service page_id body w ≡ (err e, w')
      → is_rate_limit e ≡ true
      → Limited page_id w e w'
  unfolding post_as
  post_as-Limited page_id body w w' e h limit = elim (bind_err _ _ w h) [
    | inl k ↦ inl k
    | inr (token, v, found, k) ↦ post_message-Limited page_id token body w v w' e k limit
  ]

  send_quick_replies-Limited :
      (page_id to content : String) (options : Option (List String)) (w w' : W) (e : Exception)
      → send_quick_replies integrations cache crypto http_service page_id to content options w
        ≡ (err e, w')
      → is_rate_limit e ≡ true
      → Limited page_id w e w'
  unfolding send_quick_replies throw
  send_quick_replies-Limited page_id to content none w w' e h limit = elim (bind_err _ _ w h) [
    | inl k ↦ inl k
    | inr (token, v, found, k) ↦ absurd (ground arith)
  ]
  send_quick_replies-Limited page_id to content (some options) w w' e h limit =
      elim (bind_err _ _ w h) [
        | inl k ↦ inl k
        | inr (token, v, found, k) ↦ post_message-Limited page_id token _ w v w' e k limit
      ]

  send_text_message-Limited :
      (page_id to content : String) (w w' : W) (e : Exception)
      → send_text_message integrations cache crypto http_service page_id to content w ≡ (err e, w')
      → is_rate_limit e ≡ true
      → Limited page_id w e w'
  unfolding send_text_message
  send_text_message-Limited page_id to content w w' e h limit =
      post_as-Limited page_id _ w w' e h limit

  send_button_template-Limited :
      (page_id to content title url : String) (w w' : W) (e : Exception)
      → send_button_template integrations cache crypto http_service page_id to content title url w
        ≡ (err e, w')
      → is_rate_limit e ≡ true
      → Limited page_id w e w'
  unfolding send_button_template
  send_button_template-Limited page_id to content title url w w' e h limit =
      post_as-Limited page_id _ w w' e h limit

  send-Limited :
      (page_id to : String) (reply : ConversationReply) (w w' : W) (e : Exception)
      → send (graph_service integrations cache crypto http_service) page_id to reply w ≡ (err e, w')
      → is_rate_limit e ≡ true
      → Limited page_id w e w'
  unfolding send send_message
  send-Limited page_id to reply w w' e h limit = elim (Bool-cases (truthy? reply.button_url)) [
    | inl button ↦
        send_button_template-Limited page_id to (or_else reply.text "")
          (or_else reply.button_text "") (or_else reply.button_url "") w w' e (ground arith) limit
    | inr no_button ↦ elim (Bool-cases (has_any reply.quick_replies)) [
      | inl quick ↦
          send_quick_replies-Limited page_id to (or_else reply.text "") reply.quick_replies w w' e
            (ground arith) limit
      | inr plain ↦
          send_text_message-Limited page_id to (or_else reply.text "") w w' e (ground arith) limit
    ]
  ]

  -- If the answer to a message throws, so that the queue repeats it, then the error is a rate
  -- limit, and it came with the reading of the page's token, or Meta refused a message with status
  -- 429 or a code of a rate limit and not that of an expired token.
  pub send_or_log-Limited :
      (page_id to : String) (reply : ConversationReply) (w w' : W) (e : Exception)
      → send_or_log
          (graph_service integrations cache crypto http_service)
          (send (graph_service integrations cache crypto http_service) page_id to reply)
          w
        ≡ (err e, w')
      → (is_rate_limit e ≡ true) × Limited page_id w e w'
  unfolding send_or_log catch pure throw
  send_or_log-Limited page_id to reply w w' e h =
      go (send (graph_service integrations cache crypto http_service) page_id to reply w) refl
    where
      go :
          (x : Result (Unit {0}) × W)
          → send (graph_service integrations cache crypto http_service) page_id to reply w ≡ x
          → (is_rate_limit e ≡ true) × Limited page_id w e w'
      go (ok u, v) same = absurd (ground arith)
      go (err f, v) same =
          let limit : is_rate_limit e ≡ true = ground arith in
          (limit, send-Limited page_id to reply w w' e (ground arith) limit)
