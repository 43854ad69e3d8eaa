-- ===== src/Webhook/GraphApi.antt =====
-- modules/webhook/instagram/instagram-graph.service.ts: the requests to Meta's Graph API, and what
-- its errors become.
use Prim.Native.String
use trafego_flow.Common.{
  ℕ, Bool, false, ◌&&◌, ◌||◌, ◌==◌, Option, none, some, String, str_eq, List, [], ◌∷◌,
  if◌then◌else◌,
}
use trafego_flow.Common.Http.{
  Exception, http, request_failed, bad_request, unauthorized, too_many_requests,
}

mutual
  pub data Json : Type 0 where
    null : Json
    text : String → Json
    array : Items → Json
    object : Fields → Json

  pub data Items : Type 0 where
    nil : Items
    cons : Json → Items → Items

  pub data Fields : Type 0 where
    end : Fields
    field : String → Json → Fields → Fields

-- a property of an object; `undefined` where it has none
abbrev pub member : String → Fields → Option Json
member key end = none
member key (field name value rest) = if str_eq name key then some value else member key rest

abbrev pub property : String → Json → Option Json
property key (object fields) = member key fields
property key _ = none

abbrev pub object_of : List (String × Json) → Fields
object_of [] = end
object_of ((name, value) ∷ rest) = field name value (object_of rest)

abbrev pub items_of : List Json → Items
items_of [] = nil
items_of (x ∷ xs) = cons x (items_of xs)

pub data Method : Type 0 where
  get post delete : Method

-- A request: its query parameters may be undefined, and are not sent then.
pub record Request : Type 0 where
  pub method : Method
  pub url : String
  pub body : Option Json
  pub params : List (String × Option String)

-- An error of the HTTP client, by the status of the response and the code and the subcode of
-- Meta's error.
pub record RequestError : Type 0 where
  pub status : Option ℕ
  pub code : Option ℕ
  pub subcode : Option ℕ

pub data Response : Type 0 where
  answered : Json → Response
  refused : RequestError → Response

-- The HTTP client, and the addresses of the configuration.
pub record HttpService (W : Type 0) : Type 0 where
  pub request : Request → W → Response × W
  pub graph_api_url : String
  pub graph_api_version : String

-- RATE_LIMIT_ERROR_CODES
abbrev pub rate_limit_error_codes : List ℕ
rate_limit_error_codes = 4 ∷ 17 ∷ 32 ∷ 80004 ∷ 613 ∷ []

-- WINDOW_EXPIRED_SUBCODES
abbrev pub window_expired_subcodes : List ℕ
window_expired_subcodes = 2534022 ∷ 2018278 ∷ 2018065 ∷ []

-- `code !== undefined && codes.includes(code)`
abbrev pub includes_code : List ℕ → Option ℕ → Bool
includes_code codes none = false
includes_code [] (some code) = false
includes_code (c ∷ codes) (some code) = (c == code) || includes_code codes (some code)

abbrev pub is_code : ℕ → Option ℕ → Bool
is_code n none = false
is_code n (some code) = code == n

-- `handleCommonGraphError`, the exception that it throws
unfoldable pub common_graph_error : (page_id : String) → RequestError → Exception
common_graph_error page_id e =
    if is_code 190 e.code
    then http unauthorized (String.◌++◌ "OAuth token expired or invalid for: " page_id)
    else if is_code 429 e.status || includes_code rate_limit_error_codes e.code
    then http too_many_requests (String.◌++◌ "Instagram Graph API rate limit reached for: " page_id)
    else request_failed e.status e.code e.subcode

-- the handler of `post`
unfoldable pub message_error : (page_id : String) → RequestError → Exception
message_error page_id e =
    if is_code 10 e.code && includes_code window_expired_subcodes e.subcode
    then http bad_request (
        String.◌++◌ "Messaging window expired for: " (
          String.◌++◌ page_id
            " — Instagram only allows a reply within 24h of the user's last message (or 7 days for comments)"))
    else common_graph_error page_id e

-- a nullable value
abbrev pub json? : Option String → Json
json? none = null
json? (some s) = text s

-- `({ question: q.question, payload: q.payload })`
abbrev pub call_to_action : Option String × Option String → Json
call_to_action (question, payload) =
    object (object_of (("question", json? question) ∷ ("payload", json? payload) ∷ []))

-- `{ recipient, … }` and the other bodies
abbrev pub recipient : String → String → String × Json
recipient key id = ("recipient", object (field key (text id) end))

abbrev pub quick_reply : String → Json
quick_reply title = object (
    object_of
      (("content_type", text "text") ∷ ("title", text title) ∷ ("payload", text title) ∷ []))

abbrev pub button_message : (content title url : String) → Json
button_message content title url = object (
    field "attachment"
      (object (
        object_of (
          ("type", text "template")
          ∷ (
            "payload",
            object (
                object_of (
                  ("template_type", text "button")
                  ∷ ("text", text content)
                  ∷ (
                    "buttons",
                    array (
                        cons
                          (object (
                            object_of (
                              ("type", text "web_url")
                              ∷ ("url", text url)
                              ∷ ("title", text title)
                              ∷ [])))
                          nil),
                  )
                  ∷ [])),
          )
          ∷ [])))
      end)
