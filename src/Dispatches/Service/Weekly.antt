-- ===== src/Dispatches/Service/Weekly.antt =====
-- modules/report-dispatches/report-dispatches.service.ts: the weekly run and the manual one.
use mathlib.Core.Path.{subst}
use trafego_flow.Common.{
  ℕ, ◌≡◌, ◌≢◌, refl, sym, Option, none, some, String, eq_iff, List, [], ◌∷◌, map, All, arith,
}
use trafego_flow.Common.Http.{Result, ok, err}
use trafego_flow.Common.Action.{Action, pure, query, catch, ◌>>=◌, continue, handled, bind_returns}
use trafego_flow.Ai.{Numbers}
use trafego_flow.Groups.{WhatsAppGroupEntity}
use trafego_flow.Groups.Grouping.{IsMap}
use trafego_flow.Dispatches.{AdAccount, Services, Settings}
use trafego_flow.Dispatches.Service.{Dispatched, nothing, failure, plus, otherwise, clock}
use trafego_flow.Dispatches.Triggers.{
  active_accounts, run_accounts, run_found, run_client, run_clients, groups_of, trigger_for_client,
  attempt_accounts, attempt_found, attempt_client, attempt_clients, trigger_all,
}
use trafego_flow.Dispatches.Service.Runs.{Returns, otherwise-Returns}

-- An action that returns leaves the world as another does, which returns too.
module _ {W A : Type 0} where
  record Mimics (m : Action W (Unit {0})) (n : Action W A) : Type 0 where
    at : (w : W) → (a : A) × (v : W) × (n w ≡ (ok a, v)) × (m w ≡ (ok tt, v))

module _ {W A B C : Type 0} where
  then-Mimics :
      (m k : Action W (Unit {0})) (n : Action W A) (l : Action W B) (f : A → B → C)
      → Mimics m n
      → Mimics k l
      → Mimics (m >>= λ _. k) (n >>= λ a. l >>= λ b. pure (f a b))
  unfolding pure
  then-Mimics m k n l f first second = record {
    at = λ w.
        let (a, v, e, h) = first.at w in
        let (b, u, e', h') = second.at v in
        (f a b, u, bind_returns n _ w e (bind_returns l _ v e' refl), bind_returns m _ w h h');
  }

module _ {W A : Type 0} where
  otherwise-Mimics :
      (default : A) (m : Action W A)
      → Mimics (otherwise tt (m >>= λ _. pure tt)) (otherwise default m)
  unfolding otherwise catch pure ◌>>=◌
  otherwise-Mimics default m = record { at = λ w. go (m w) }
    where
      go :
          (x : Result A × W)
          → (a : A) × (v : W) × (handled (λ e. pure default) x ≡ (ok a, v))
            × (handled (λ e. pure tt) (continue (λ _. pure tt) x) ≡ (ok tt, v))
      go (ok a, v) = (a, v, refl, refl)
      go (err e, v) = (default, v, refl, refl)

  pure-Mimics : (a : A) → Mimics {W = W} (pure tt) (pure a)
  unfolding pure
  pure-Mimics a = record { at = λ w. (a, w, refl, refl) }

module _ {W A B : Type 0} where
  bind-Mimics :
      (m : Action W A) (f : A → Action W (Unit {0})) (g : A → Action W B)
      → Returns m
      → ((a : A) → Mimics (f a) (g a))
      → Mimics (m >>= f) (m >>= g)
  bind-Mimics m f g returns h = record {
    at = λ w.
        let (a, v, e) = returns.at w in
        let (b, u, k, l) = (h a).at v in (b, u, bind_returns m g w e k, bind_returns m f w e l);
  }

-- Each of some entries is what the map has under its key.
abbrev Looked : (all some_ : List (String × List WhatsAppGroupEntity)) → Type 0
Looked all entries = All (λ entry. groups_of entry.0 all ≡ some entry.1) entries

Looked-later :
    (key : String) (groups : List WhatsAppGroupEntity)
    (all entries : List (String × List WhatsAppGroupEntity))
    → All (λ entry. key ≢ entry.0) entries
    → Looked all entries
    → Looked ((key, groups) ∷ all) entries
Looked-later key groups all [] apart h = tt
Looked-later key groups all ((k, g) ∷ entries) apart h =
    (ground (arith, h.0, eq_iff key k), Looked-later key groups all entries apart.1 h.1)

Looked-all : (all : List (String × List WhatsAppGroupEntity)) → IsMap all → Looked all all
Looked-all [] h = tt
Looked-all ((key, groups) ∷ rest) h =
    (ground (arith, eq_iff key key), Looked-later key groups rest rest h.0 (Looked-all rest h.1))

module _ {W : Type 0} (numbers : Numbers) (services : Services W numbers.Float)
    (settings : Settings numbers.Float) where
  active_accounts-Returns :
      (client_id : String) → Returns (active_accounts numbers services settings client_id)
  unfolding active_accounts
  active_accounts-Returns client_id = otherwise-Returns none _

  accounts-Mimics :
      (client_id : String) (groups : List WhatsAppGroupEntity) (week_start : Option ℕ)
      (accounts : List AdAccount)
      → Mimics
          (attempt_accounts numbers services settings client_id groups week_start accounts)
          (run_accounts numbers services settings client_id groups week_start accounts)
  unfolding attempt_accounts run_accounts
  accounts-Mimics client_id groups week_start [] = pure-Mimics nothing
  accounts-Mimics client_id groups week_start (account ∷ accounts) =
      then-Mimics _ _ _ _ plus (otherwise-Mimics failure _)
        (accounts-Mimics client_id groups week_start accounts)

  found-Mimics :
      (client_id : String) (groups : List WhatsAppGroupEntity) (week_start : Option ℕ)
      (accounts : Option (List AdAccount))
      → Mimics
          (attempt_found numbers services settings client_id groups week_start accounts)
          (run_found numbers services settings client_id groups week_start accounts)
  unfolding attempt_found run_found
  found-Mimics client_id groups week_start none = pure-Mimics failure
  found-Mimics client_id groups week_start (some accounts) =
      accounts-Mimics client_id groups week_start accounts

  client-Mimics :
      (client_id : String) (groups : List WhatsAppGroupEntity) (week_start : Option ℕ)
      → Mimics
          (attempt_client numbers services settings client_id groups week_start)
          (run_client numbers services settings client_id (some groups) week_start)
  unfolding attempt_client run_client
  client-Mimics client_id [] week_start = pure-Mimics nothing
  client-Mimics client_id (group ∷ groups) week_start =
      bind-Mimics (active_accounts numbers services settings client_id) _ _
        (active_accounts-Returns client_id)
        λ found. found-Mimics client_id (group ∷ groups) week_start found

  clients-Mimics :
      (all entries : List (String × List WhatsAppGroupEntity)) (week_start : Option ℕ)
      → Looked all entries
      → Mimics
          (attempt_clients numbers services settings week_start entries)
          (run_clients numbers services settings all week_start (map (λ entry. entry.0) entries))
  unfolding attempt_clients run_clients
  clients-Mimics all [] week_start h = pure-Mimics nothing
  clients-Mimics all ((client_id, groups) ∷ entries) week_start h =
      then-Mimics _ _ _ _ plus
        (subst
          (λ o.
            Mimics (attempt_client numbers services settings client_id groups week_start)
              (run_client numbers services settings client_id o week_start))
          (sym h.0) (client-Mimics client_id groups week_start))
        (clients-Mimics all entries week_start h.1)

  -- Where the active groups could be read, with each client once, the weekly run and a trigger
  -- without a client and a date both return, and leave the same world.
  pub trigger_all-trigger_for_client :
      (w v : W) (groups : List (String × List WhatsAppGroupEntity))
      → services.find_all_active_grouped_by_client_id w ≡ (ok groups, v)
      → IsMap groups
      → (w' : W) × (r : Dispatched) × (trigger_all numbers services settings w ≡ (ok tt, w'))
        × (trigger_for_client numbers services settings
              (record { client_id = none; week_start_date = none })
              w
            ≡ (ok r, w'))
  unfolding trigger_all trigger_for_client clock query
  trigger_all-trigger_for_client w v groups found distinct =
      let (r, w', e, h) = (clients-Mimics groups groups _ (Looked-all groups distinct)).at v in
      (
        w',
        r,
        bind_returns _ _ w refl (bind_returns _ _ w found h),
        bind_returns _ _ w refl (bind_returns _ _ w found e),
      )
