-- ===== src/Auth/Bearer.antt =====
-- modules/auth/guards/jwt-auth.guard.ts: which headers carry a bearer token.
use Prim.Native.String.{String}
use text.Mathlib.TextEquality.{eq_iff}
use mathlib.Core.Path.{subst}
use trafego_flow.Common.{true, some, List, [], ◌∷◌, ◌≡◌, sym, ap, ◌∙◌, ◌↔◌, arith, All}
use trafego_flow.Common.Text.{truthy, split, join, Lacks, split-join, join-split, split-All-Lacks}
use trafego_flow.Auth.{Request, bearer_of, pieces, extract_bearer_token}

-- A header of the form `Bearer token rest…`, cut at the single spaces.
pub record Carries (header token : String) : Type 0 where
  pub rest : List String
  pub text : header ≡ join " " ("Bearer" ∷ token ∷ rest)
  pub no_spaces : All (Lacks " ") (token ∷ rest)
  pub not_empty : truthy token ≡ true

bearer_of-eq_some :
    (ps : List String) (token : String)
    → bearer_of ps ≡ some token
    → (rest : List String) × (ps ≡ "Bearer" ∷ token ∷ rest) × (truthy token ≡ true)
bearer_of-eq_some [] token e = cc
bearer_of-eq_some (p ∷ []) token e = cc
bearer_of-eq_some (p ∷ t ∷ rest) token e = (rest, ground (arith, eq_iff p "Bearer"), ground arith)

-- A bearer token is read from exactly the headers that carry it: Bearer, the token, which is not
-- empty, and any further pieces, parted by single spaces.
pub extract_bearer_token_iff :
    (request : Request) (header token : String)
    → request.authorization ≡ some header
    → (extract_bearer_token request ≡ some token) ↔ Carries header token
unfolding extract_bearer_token
extract_bearer_token_iff request header token given = (to, from)
  where
    to : bearer_of (pieces request.authorization) ≡ some token → Carries header token
    to e =
        let (rest, cut, full) =
          bearer_of-eq_some (split " " header) token
            (ap (λ o. bearer_of (pieces o)) (sym given) ∙ e) in
        record {
          rest = rest;
          text = sym (join-split " " header) ∙ ap (join " ") cut;
          no_spaces = (subst (All (Lacks " ")) cut (split-All-Lacks " " header)).1;
          not_empty = full;
        }

    from : Carries header token → bearer_of (pieces request.authorization) ≡ some token
    from c =
        let cut : split " " header ≡ "Bearer" ∷ token ∷ c.rest =
          ap (split " ") c.text
          ∙ split-join " " "Bearer" (token ∷ c.rest) (omega arith, c.no_spaces) in
        ap (λ o. bearer_of (pieces o)) given ∙ ap bearer_of cut ∙ (rw c.not_empty)
