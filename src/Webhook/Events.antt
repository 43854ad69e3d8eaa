-- ===== src/Webhook/Events.antt =====
-- modules/webhook/instagram/instagram-webhook.service.ts: the events that Meta sends, their
-- signature, and the jobs that they become; and processors/instagram-webhook.processor.ts.
pub mod Jobs
pub mod Signed
use Prim.Native.String
use trafego_flow.Common.{
  ℕ, Bool, true, false, not, ◌||◌, ◌≡◌, Option, none, some, String, str_eq, or_else, or_option,
  ◌==◌, List, [], ◌∷◌, if◌then◌else◌,
}
use trafego_flow.Common.Text.{truthy?}
use trafego_flow.Common.Http.{Exception, Result, ok, err, http, forbidden}
use trafego_flow.Common.Action.{Action, pure, throw, throw_if, query, catch, ◌>>=◌, ◌>>◌}
use trafego_flow.Common.Store.{Cache}
use trafego_flow.Integrations.{Integrations, IntegrationEntity, AesCrypto, find_by_page_id}
use trafego_flow.Conversation.{Rules, Strings}
use trafego_flow.Webhook.{Graph, AllSettled, handle_dm, handle_comment, handle_icebreaker}

-- The parts of an event that the service reads: `sender.id`, `message` by its text, and
-- `postback` by its payload.
pub record InstagramMessagingEvent : Type 0 where
  pub sender_id : String
  pub message : Option (Option String)
  pub postback : Option String

-- `field`, `value.media.id`, `value.id` and `value.text`
pub record InstagramCommentChangeEvent : Type 0 where
  pub changed_field : String
  pub media_id : String
  pub comment_id : String
  pub text : String

pub record InstagramEntry : Type 0 where
  pub id : String
  pub messaging : Option (List InstagramMessagingEvent)
  pub changes : Option (List InstagramCommentChangeEvent)

pub record InstagramWebhookPayload : Type 0 where
  pub entry : List InstagramEntry

-- The jobs of the queue `instagram-webhook`, by their names.
pub data Job : Type 0 where
  dm : (page_id sender_id : String) → Option String → Job
  comment : (page_id post_id comment_id text : String) → Job
  postback : (page_id sender_id payload : String) → Job

pub record JobOptions : Type 0 where
  pub attempts : ℕ
  pub backoff_delay : ℕ

-- every job is tried three times, with exponential backoff
abbrev pub job_options : JobOptions
job_options = record { attempts = 3; backoff_delay = 2000 }

pub record Queue (W : Type 0) : Type 0 where
  pub add : Job → JobOptions → Action W (Unit {0})

-- What the code uses of Node's strings, buffers and `crypto`. A text is written to a buffer as
-- UTF-8, and buffers of different lengths cannot be compared.
pub record Platform : Type 0 where
  pub code_units : String → ℕ
  pub buffer_from : String → List ℕ
  pub hmac_sha256 : (secret : String) → List ℕ → String
  pub timing_safe_equal : List ℕ → List ℕ → Result Bool
  pub buffer_from-inj : (s t : String) → buffer_from s ≡ buffer_from t → s ≡ t
  pub timing_safe_equal_true : (a b : List ℕ) → timing_safe_equal a b ≡ ok true → a ≡ b
  pub timing_safe_equal_same : (a : List ℕ) → timing_safe_equal a a ≡ ok true

-- `for (const x of xs) await f(x)`, for a list that may be undefined
module _ {W A : Type 0} (f : A → Action W (Unit {0})) where
  unfoldable pub each : List A → Action W (Unit {0})
  each [] = pure tt
  each (x ∷ xs) = f x >> each xs

  abbrev pub each? : Option (List A) → Action W (Unit {0})
  each? none = pure tt
  each? (some xs) = each xs

-- `verifyWebhook`
unfoldable pub verify_webhook :
    {W : Type 0} (verify_token : String) (mode token challenge : String) → Action W String
verify_webhook verify_token mode token challenge =
    if not (str_eq mode "subscribe") || not (str_eq token verify_token)
    then throw (http forbidden "Webhook verification failed")
    else pure challenge

module _ {W : Type 0} (queue : Queue W) where
  -- a job whose addition may fail, which is only logged
  unfoldable pub enqueue : Job → Action W (Unit {0})
  enqueue job = catch (queue.add job job_options) λ e. pure tt

  -- one of `entry.messaging`, by its postback and its message
  unfoldable pub enqueue_as :
      (page_id sender_id : String) → Option String → Option (Option String) → Action W (Unit {0})
  unfolding enqueue
  enqueue_as page_id sender_id (some payload) message = enqueue (postback page_id sender_id payload)
  enqueue_as page_id sender_id none none = pure tt
  enqueue_as page_id sender_id none (some text) = enqueue (dm page_id sender_id text)

  unfoldable pub enqueue_message : String → InstagramMessagingEvent → Action W (Unit {0})
  unfolding enqueue_as
  enqueue_message page_id event = enqueue_as page_id event.sender_id event.postback event.message

  unfoldable pub enqueue_change : String → InstagramCommentChangeEvent → Action W (Unit {0})
  unfolding enqueue
  enqueue_change page_id change =
      if str_eq change.changed_field "comments"
      then enqueue (comment page_id change.media_id change.comment_id change.text)
      else pure tt

  -- `enqueueEntry`
  unfoldable pub enqueue_entry : InstagramEntry → Action W (Unit {0})
  unfolding enqueue_message enqueue_change each
  enqueue_entry entry =
      each? (enqueue_message entry.id) entry.messaging
      >> each? (enqueue_change entry.id) entry.changes

  -- `enqueueEvents`
  unfoldable pub enqueue_events : InstagramWebhookPayload → Action W (Unit {0})
  unfolding enqueue_entry each
  enqueue_events payload = each enqueue_entry payload.entry

-- `payload.entry?.[0]?.id`
abbrev pub first_page : List InstagramEntry → Option String
first_page [] = none
first_page (entry ∷ entries) = some entry.id

module _ (platform : Platform) where
  abbrev pub expected_header : (secret : String) → List ℕ → String
  expected_header secret raw_body = String.◌++◌ "sha256=" (platform.hmac_sha256 secret raw_body)

  -- `validateSignature`
  unfoldable pub validate_signature :
      {W : Type 0} → List ℕ → Option String → (app_secret : String) → Action W (Unit {0})
  validate_signature raw_body signature app_secret = do
    throw_if
        (not (
          platform.code_units (expected_header app_secret raw_body)
          == platform.code_units (or_else signature "")))
        (http forbidden "Invalid webhook signature")
    safe ← query (λ w.
        platform.timing_safe_equal (platform.buffer_from (expected_header app_secret raw_body))
          (platform.buffer_from (or_else signature "")))
    throw_if (not safe) (http forbidden "Invalid webhook signature")

module _ {W : Type 0} (integrations : Integrations W) (cache : Cache W IntegrationEntity) where
  -- the integration of a page, or null where the search fails
  unfoldable pub integration_of : Option String → Action W (Option IntegrationEntity)
  integration_of none = pure none
  integration_of (some page_id) =
      if truthy? (some page_id)
      then (catch
          (do integration ← find_by_page_id integrations cache page_id; pure (some integration))
          (λ e. pure none))
      else pure none

module _ {W : Type 0} (crypto : AesCrypto) where
  -- `resolveAppSecret`
  unfoldable pub resolve_app_secret : Option IntegrationEntity → Action W String
  resolve_app_secret none = throw (http forbidden "Webhook validation failed")
  resolve_app_secret (some integration) =
      catch (query (λ w. crypto.decrypt (or_else integration.app_secret "")))
        λ e. throw (http forbidden "Webhook validation failed")

module _ {W : Type 0} (integrations : Integrations W) (cache : Cache W IntegrationEntity)
    (crypto : AesCrypto) (platform : Platform) (queue : Queue W) where
  -- `handleEvent`
  unfoldable pub handle_event :
      InstagramWebhookPayload → List ℕ → Option String → Action W (Unit {0})
  unfolding integration_of resolve_app_secret validate_signature enqueue_events
  handle_event payload raw_body signature = do
    integration ← integration_of integrations cache (first_page payload.entry)
    app_secret ← resolve_app_secret crypto integration
    validate_signature platform raw_body signature app_secret
    enqueue_events queue payload

-- `InstagramWebhookProcessor.process`
unfoldable pub process :
    {W : Type 0} (strings : Strings) (rules : Rules W) (integrations : Integrations W)
    (cache : Cache W IntegrationEntity) (graph : Graph W) (all_settled : AllSettled W)
    → Job
    → Action W (Unit {0})
process strings rules integrations cache graph all_settled (dm page_id sender_id text) =
    handle_dm strings rules integrations cache graph page_id sender_id text
process strings rules integrations cache graph all_settled
      (comment page_id post_id comment_id text) =
    handle_comment strings rules integrations cache graph all_settled page_id post_id comment_id
      text
process strings rules integrations cache graph all_settled (postback page_id sender_id payload) =
    handle_icebreaker strings rules integrations cache graph page_id sender_id payload
