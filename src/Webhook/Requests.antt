-- ===== src/Webhook/Requests.antt =====
-- modules/webhook/instagram/instagram-graph.service.ts: the operations of InstagramGraphService.
use Prim.Native.String
use trafego_flow.Common.{Option, none, some, String, List, [], ◌∷◌, map}
use trafego_flow.Common.Text.{join_with}
use trafego_flow.Common.Http.{Exception, failure, Result, ok, err}
use trafego_flow.Common.Action.{Action, pure, throw, query, ◌>>=◌, ◌>>◌}
use trafego_flow.Common.Store.{Cache}
use trafego_flow.Integrations.{Integrations, IntegrationEntity, AesCrypto, find_by_page_id}
use trafego_flow.Webhook.{Graph}
use trafego_flow.Webhook.GraphApi.{
  Json, text, array, object, cons, nil, field, end, property, object_of, items_of, get, post,
  delete, Request, RequestError, Response, answered, refused, HttpService, common_graph_error,
  message_error, recipient, quick_reply, call_to_action, button_message,
}

-- The HTTP request, with the handler that its failure runs into.
abbrev pub outcome : {W : Type 0} → (RequestError → Exception) → Response × W → Result Json × W
outcome handler (answered answer, w) = (ok answer, w)
outcome handler (refused e, w) = (err (handler e), w)

module _ {W : Type 0} (integrations : Integrations W) (cache : Cache W IntegrationEntity)
    (crypto : AesCrypto) (http : HttpService W) where
  -- `baseUrl`
  abbrev pub base_url : String
  base_url = String.◌++◌ http.graph_api_url (String.◌++◌ "/" http.graph_api_version)

  -- `${this.baseUrl}/…`
  abbrev pub address : String → String
  address path = String.◌++◌ base_url (String.◌++◌ "/" path)

  abbrev pub under : (id path : String) → String
  under id path = address (String.◌++◌ id (String.◌++◌ "/" path))

  -- `firstValueFrom(…).catch(…)`
  unfoldable pub send_request : (RequestError → Exception) → Request → Action W Json
  send_request handler request w = outcome handler (http.request request w)

  -- `getDecryptedToken`
  unfoldable pub get_decrypted_token : String → Action W String
  get_decrypted_token page_id = do
    integration ← find_by_page_id integrations cache page_id
    query (λ w. crypto.decrypt integration.access_token)

  -- the request that `post` makes
  abbrev pub message_request : (page_id token : String) → Json → Request
  message_request page_id token body = record {
    method = post;
    url = under page_id "messages";
    body = some body;
    params = ("access_token", some token) ∷ [];
  }

  -- `post`
  unfoldable pub post_message : (page_id token : String) → Json → Action W (Unit {0})
  unfolding send_request
  post_message page_id token body = do
    send_request (message_error page_id) (message_request page_id token body)
    pure tt

  -- a token, and the message to post with it
  unfoldable pub post_as : String → Json → Action W (Unit {0})
  unfolding get_decrypted_token post_message
  post_as page_id body = do token ← get_decrypted_token page_id; post_message page_id token body

  -- `sendTextMessage`
  unfoldable pub send_text_message :
      (page_id recipient_igsid content : String) → Action W (Unit {0})
  unfolding post_as
  send_text_message page_id recipient_igsid content = post_as page_id (
      object (
        object_of (
          recipient "id" recipient_igsid
          ∷ ("message", object (field "text" (text content) end))
          ∷ [])))

  abbrev pub quick_replies_of :
      (page_id recipient_igsid content token : String) → Option (List String) → Action W (Unit {0})
  quick_replies_of page_id recipient_igsid content token none = throw (failure "TypeError")
  quick_replies_of page_id recipient_igsid content token (some options) =
      post_message page_id token (
        object (
          object_of (
            recipient "id" recipient_igsid
            ∷ (
              "message",
              object (
                  object_of (
                    ("text", text content)
                    ∷ ("quick_replies", array (items_of (map quick_reply options)))
                    ∷ [])),
            )
            ∷ [])))

  -- `sendQuickReplies`
  unfoldable pub send_quick_replies :
      (page_id recipient_igsid content : String) → Option (List String) → Action W (Unit {0})
  unfolding get_decrypted_token post_message
  send_quick_replies page_id recipient_igsid content options = do
    token ← get_decrypted_token page_id
    quick_replies_of page_id recipient_igsid content token options

  -- `sendButtonTemplate`
  unfoldable pub send_button_template :
      (page_id recipient_igsid content button_title button_url : String) → Action W (Unit {0})
  unfolding post_as
  send_button_template page_id recipient_igsid content button_title button_url = post_as page_id (
      object (
        object_of (
          recipient "id" recipient_igsid
          ∷ ("message", button_message content button_title button_url)
          ∷ [])))

  -- `sendCommentPrivateReply`
  unfoldable pub send_comment_private_reply :
      (page_id comment_id content : String) → Action W (Unit {0})
  unfolding post_as
  send_comment_private_reply page_id comment_id content = post_as page_id (
      object (
        object_of (
          recipient "comment_id" comment_id
          ∷ ("message", object (field "text" (text content) end))
          ∷ [])))

  -- `markSeen`
  unfoldable pub mark_seen : (page_id recipient_igsid : String) → Action W (Unit {0})
  unfolding post_as
  mark_seen page_id recipient_igsid = post_as page_id (
      object
        (object_of (recipient "id" recipient_igsid ∷ ("sender_action", text "mark_seen") ∷ [])))

  -- `replyToComment`
  unfoldable pub reply_to_comment :
      (page_id comment_id : String) → Option String → Action W (Unit {0})
  unfolding get_decrypted_token send_request
  reply_to_comment page_id comment_id message = do
    token ← get_decrypted_token page_id
    send_request (common_graph_error page_id) (record {
      method = post;
      url = under comment_id "replies";
      body = some (object end);
      params = ("access_token", some token) ∷ ("message", message) ∷ [];
    })
    pure tt

  -- `getFollowStatus`
  unfoldable pub get_follow_status : (page_id igsid : String) → Action W Json
  unfolding get_decrypted_token send_request
  get_follow_status page_id igsid = do
    token ← get_decrypted_token page_id
    send_request (common_graph_error page_id) (record {
      method = get;
      url = address igsid;
      body = none;
      params =
          ("access_token", some token)
          ∷ (
            "fields",
            some "name,username,follower_count,is_user_follow_business,is_business_follow_user",
          )
          ∷ [];
    })

  -- `getTokenDebugInfo`
  unfoldable pub get_token_debug_info : String → Action W (Option Json)
  unfolding get_decrypted_token send_request
  get_token_debug_info page_id = do
    token ← get_decrypted_token page_id
    data_ ← send_request (common_graph_error page_id) (record {
      method = get;
      url = address "debug_token";
      body = none;
      params = ("input_token", some token) ∷ ("access_token", some token) ∷ [];
    })
    pure (property "data" data_)

  -- `subscribeAccountToWebhooks`
  unfoldable pub subscribe_account_to_webhooks : String → List String → Action W Json
  unfolding get_decrypted_token send_request
  subscribe_account_to_webhooks page_id fields = do
    token ← get_decrypted_token page_id
    send_request (common_graph_error page_id) (record {
      method = post;
      url = under page_id "subscribed_apps";
      body = some (object end);
      params =
          ("access_token", some token) ∷ ("subscribed_fields", some (join_with "," fields)) ∷ [];
    })

  abbrev ice_breakers_request :
      (page_id token : String) → List (Option String × Option String) → Request
  ice_breakers_request page_id token [] = record {
    method = delete;
    url = under page_id "messenger_profile";
    body = some (object (field "fields" (array (cons (text "ice_breakers") nil)) end));
    params = ("access_token", some token) ∷ [];
  }
  ice_breakers_request page_id token (q ∷ qs) = record {
    method = post;
    url = under page_id "messenger_profile";
    body = some (
        object (
          object_of (
            ("platform", text "instagram")
            ∷ (
              "ice_breakers",
              array (
                  cons
                    (object (
                      object_of (
                        ("locale", text "default")
                        ∷ ("call_to_actions", array (items_of (map call_to_action (q ∷ qs))))
                        ∷ [])))
                    nil),
            )
            ∷ [])));
    params = ("access_token", some token) ∷ [];
  }

  -- `setIceBreakers`
  unfoldable pub set_ice_breakers :
      String → List (Option String × Option String) → Action W (Unit {0})
  unfolding get_decrypted_token send_request
  set_ice_breakers page_id questions = do
    token ← get_decrypted_token page_id
    send_request (common_graph_error page_id) (ice_breakers_request page_id token questions)
    pure tt

  -- the service as the bot uses it
  abbrev pub graph_service : Graph W
  graph_service = record {
    send_button_template = send_button_template;
    send_quick_replies = send_quick_replies;
    send_text_message = send_text_message;
    send_comment_private_reply = send_comment_private_reply;
    reply_to_comment = reply_to_comment;
  }
