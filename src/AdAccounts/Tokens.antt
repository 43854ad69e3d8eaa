-- ===== src/AdAccounts/Tokens.antt =====
-- modules/ad-accounts/meta-token.service.ts, and the check of the token of an account.

use trafego_flow.Common.{ℕ, ◌*◌, ◌==◌, false, Option, none, some, String, [], if◌then◌else◌}
use trafego_flow.Common.Text.{truthy}
use trafego_flow.Common.Action.{Action, pure, throw, query, ◌>>=◌}
use trafego_flow.Common.Store.{Cache}
use trafego_flow.Integrations.{AesCrypto}
use trafego_flow.AdAccounts.{
  AdAccounts, AdAccountEntity, DebugToken, DebugAnswer, answered, refused, unanswered,
  TokenValidationResult, or_kept, find_one,
}

-- the result for an account without a token
abbrev pub no_token : TokenValidationResult
no_token = record {
  valid = false;
  app_id = none;
  token_type = none;
  expires_at = none;
  scopes = [];
  user_id = none;
}

-- `d.expires_at ? new Date(d.expires_at * 1000).toISOString() : null`
abbrev pub expiry : (iso_string : ℕ → String) → Option ℕ → Option String
expiry iso_string none = none
expiry iso_string (some t) = if t == 0 then none else some (iso_string (t * 1000))

-- `(body?.data ?? {})`
abbrev pub refused_token : Option DebugToken → TokenValidationResult
refused_token none = no_token
refused_token (some d) = record no_token { app_id = d.app_id; token_type = d.token_type }

module _ {W : Type 0} (iso_string : ℕ → String) (debug_token : String → W → DebugAnswer × W) where
  abbrev pub validated : DebugAnswer → Action W TokenValidationResult
  validated (answered d) = pure (record {
    valid = or_kept d.is_valid false;
    app_id = d.app_id;
    token_type = d.token_type;
    expires_at = expiry iso_string d.expires_at;
    scopes = or_kept d.scopes [];
    user_id = d.user_id;
  })
  validated (refused d) = pure (refused_token d)
  validated (unanswered e) = throw e

  -- `MetaTokenService.validate`
  unfoldable pub validate : String → Action W TokenValidationResult
  unfolding pure throw
  validate access_token w = let (answer, v) = debug_token access_token w in validated answer v

  -- `AdAccountsService.validateToken`
  unfoldable pub validate_token :
      (repo : AdAccounts W) (cache : Cache W AdAccountEntity) (crypto : AesCrypto)
      → String
      → Action W TokenValidationResult
  unfolding find_one validate
  validate_token repo cache crypto id = do
    account ← find_one repo cache id
    (if truthy account.access_token
        then (query (λ w. crypto.decrypt account.access_token) >>= λ raw_token. validate raw_token)
        else pure no_token)
