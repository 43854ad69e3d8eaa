-- ===== src/Webhook/EventTests.antt =====
-- Signed events over tables in memory, with a queue that lists its jobs.
use Prim.Native.Char.{code}
use mathlib.Core.Path.{ap₂}
use text.Mathlib.TextEquality.{Char-path}
use trafego_flow.Common.{
  ℕ, ◌≡◌, refl, ap, ◌↔◌, Bool, true, false, ◌&&◌, ◌==◌, none, some, List, [], ◌∷◌, String, or_else,
  arith, length,
}
use trafego_flow.Common.Http.{Exception, http, forbidden, too_many_requests, ok, err}
use trafego_flow.Common.Memory.{Table, memory, first}
use trafego_flow.Common.MemoryCache.{memory_cache, drop_entry}
use trafego_flow.Common.Action.{◌>>=◌, catch}
use trafego_flow.Common.Store.{Cached, Cache}
use trafego_flow.Integrations.{
  Integrations, IntegrationEntity, AesCrypto, instagram, find_by_page_id, page_from_cache,
}
use trafego_flow.Integrations.Freshness.{IsFresh}
use trafego_flow.Conversation.{ConversationReply}
use trafego_flow.Webhook.{is_rate_limit, send, send_message, send_or_log}
use trafego_flow.Webhook.GraphApi.{HttpService, refused, message_error, common_graph_error}
use trafego_flow.Webhook.Requests.{
  graph_service, send_text_message, post_as, post_message, get_decrypted_token, send_request,
}
use trafego_flow.Webhook.Limits.{Limited, send_or_log-Limited}
use trafego_flow.Webhook.Events.{
  Job, dm, Queue, Platform, InstagramWebhookPayload, handle_event, integration_of,
  resolve_app_secret, validate_signature, enqueue_events, first_page, expected_header,
}
use trafego_flow.Webhook.Events.Jobs.{added, jobs_of}
use trafego_flow.Webhook.Events.Signed.{
  Accepted, handle_event_iff, handle_event_refused, handle_event_sound,
}

record World : Type 0 where
  connected : List IntegrationEntity
  cached : List (String × IntegrationEntity)
  jobs : List Job

abbrev integration_table : Table World IntegrationEntity
integration_table = record {
  view = λ w. w.connected;
  put = λ t w. record w { connected = t };
  view-put = λ t w. refl;
}

abbrev cache_table : Table World (String × IntegrationEntity)
cache_table = record {
  view = λ w. w.cached;
  put = λ t w. record w { cached = t };
  view-put = λ t w. refl;
}

abbrev integrations : Integrations World
integrations = memory (λ i. i.id) integration_table

abbrev cache : Cache World IntegrationEntity
cache = memory_cache cache_table

apart : Cached integrations cache
apart = record {
  get-set = λ k e w j. refl;
  get-del = λ k w j. refl;
  peek-save = λ e w j. refl;
  peek-insert = λ mk w j. refl;
  peek-delete = λ k w j. refl;
}

abbrev queue : Queue World
queue = record { add = λ job options w. (ok tt, record w { jobs = job ∷ w.jobs }) }

abbrev crypto : AesCrypto
crypto = record {
  encrypt = λ iv plaintext. plaintext;
  decrypt = λ ciphertext. ok ciphertext;
  decrypt-encrypt = λ iv plaintext. refl;
}

abbrev codes : String → List ℕ
codes String.[] = []
codes (String.◌∷◌ c s) = code c ∷ codes s

codes-inj : (s t : String) → codes s ≡ codes t → s ≡ t
codes-inj String.[] String.[] e = refl
codes-inj String.[] (String.◌∷◌ d t) e = absurd (cc (e))
codes-inj (String.◌∷◌ c s) String.[] e = absurd (cc (e))
codes-inj (String.◌∷◌ c s) (String.◌∷◌ d t) e =
    ap₂ String.◌∷◌ (Char-path c d (cc e)) (codes-inj s t (cc e))

abbrev same_bytes : List ℕ → List ℕ → Bool
same_bytes [] [] = true
same_bytes (m ∷ a) (n ∷ b) = (m == n) && same_bytes a b
same_bytes _ _ = false

same_bytes-path : (a b : List ℕ) → same_bytes a b ≡ true → a ≡ b
same_bytes-path [] [] e = refl
same_bytes-path [] (n ∷ b) e = cc
same_bytes-path (m ∷ a) [] e = cc
same_bytes-path (m ∷ a) (n ∷ b) e = ground (arith, same_bytes-path a b)

compared_true : (a b : List ℕ) → ok (same_bytes a b) ≡ ok true → a ≡ b
compared_true a b e = same_bytes-path a b (cc e)

same_bytes-same : (a : List ℕ) → same_bytes a a ≡ true
same_bytes-same [] = refl
same_bytes-same (m ∷ a) = ground (arith, same_bytes-same a)

-- the digest is the secret itself
abbrev platform : Platform
platform = record {
  code_units = λ s. length (codes s);
  buffer_from = codes;
  hmac_sha256 = λ secret body. secret;
  timing_safe_equal = λ a b. ok (same_bytes a b);
  buffer_from-inj = codes-inj;
  timing_safe_equal_true = compared_true;
  timing_safe_equal_same = λ a. ap ok (same_bytes-same a);
}

abbrev page : IntegrationEntity
page = record {
  id = "i1";
  client_id = "c1";
  platform = instagram;
  page_id = "p1";
  access_token = "aaa";
  app_secret = some "s";
  token_expires_at = none;
  is_active = true;
}

abbrev world : World
world = record { connected = page ∷ []; cached = []; jobs = [] }

abbrev payload : InstagramWebhookPayload
payload = record {
  entry =
      record {
        id = "p1";
        messaging =
            some (record { sender_id = "u1"; message = some (some "oi"); postback = none } ∷ []);
        changes = none;
      }
      ∷ [];
}

-- the world after the search for the page, and after its message has been queued
abbrev after_search : World
after_search = record world {
  cached = ("integration:page:p1", page) ∷ ("integration:id:i1", page) ∷ [];
}

abbrev after_event : World
after_event = record after_search { jobs = dm "p1" "u1" (some "oi") ∷ [] }

finds : find_by_page_id integrations cache "p1" world ≡ (ok page, after_search)
unfolding find_by_page_id page_from_cache ◌>>=◌ first drop_entry
finds = refl

accepts :
    handle_event integrations cache crypto platform queue payload [] (some "sha256=s") world
    ≡ (ok tt, after_event)
unfolding handle_event find_by_page_id page_from_cache integration_of resolve_app_secret
    validate_signature enqueue_events ◌>>=◌ catch first drop_entry
accepts = refl

refuses :
    handle_event integrations cache crypto platform queue payload [] (some "sha256=t") world
    ≡ (err (http forbidden "Invalid webhook signature"), after_search)
unfolding handle_event find_by_page_id page_from_cache integration_of resolve_app_secret
    validate_signature enqueue_events ◌>>=◌ catch first drop_entry
refuses = refl

handle_event_iff_example :
    ((handle_event integrations cache crypto platform queue payload [] (some "sha256=s") world).0
      ≡ ok tt)
    ↔ ((v : World) × Accepted integrations cache crypto platform queue payload []
          (some "sha256=s")
          world
          v)
handle_event_iff_example =
    handle_event_iff integrations cache crypto platform queue payload [] (some "sha256=s") world

handle_event_refused_example :
    after_search ≡ (integration_of integrations cache (first_page payload.entry) world).1
handle_event_refused_example =
    handle_event_refused integrations cache crypto platform queue payload [] (some "sha256=t") world
      after_search (http forbidden "Invalid webhook signature") refuses

world-IsFresh : IsFresh integrations cache world
world-IsFresh = record { by_id = λ k i held. cc; by_page = λ p i held. absurd (cc (held)) }

handle_event_sound_example :
    (i : IntegrationEntity) × (app_secret : String) × (v : World) × (first_page payload.entry
      ≡ some i.page_id)
    × (find_by_page_id integrations cache i.page_id world ≡ (ok i, v))
    × (integrations.get v i.id ≡ some i)
    × (crypto.decrypt (or_else i.app_secret "") ≡ ok app_secret)
    × (or_else (some "sha256=s") "" ≡ expected_header platform app_secret [])
    × (after_event ≡ added queue (jobs_of payload) v)
handle_event_sound_example =
    handle_event_sound integrations cache crypto platform queue payload [] (some "sha256=s") apart
      world after_event world-IsFresh accepts

-- Meta answers every request with status 429.
abbrev limited : HttpService World
limited = record {
  request = λ r w. (refused (record { status = some 429; code = none; subcode = none }), w);
  graph_api_url = "https://graph.instagram.com";
  graph_api_version = "v25.0";
}

abbrev greeting : ConversationReply
greeting = record { text = some "Oi!"; quick_replies = none; button_text = none; button_url = none }

abbrev limit : Exception
limit = http too_many_requests "Instagram Graph API rate limit reached for: p1"

repeats :
    send_or_log
      (graph_service integrations cache crypto limited)
      (send (graph_service integrations cache crypto limited) "p1" "u1" greeting)
      world
    ≡ (err limit, after_search)
unfolding find_by_page_id page_from_cache send_or_log send send_message send_text_message post_as
    post_message get_decrypted_token send_request message_error common_graph_error ◌>>=◌ catch first
    drop_entry
repeats = refl

send_or_log-Limited_example :
    (is_rate_limit limit ≡ true)
    × Limited integrations cache crypto limited "p1" world limit after_search
send_or_log-Limited_example =
    send_or_log-Limited integrations cache crypto limited "p1" "u1" greeting world after_search
      limit repeats
