-- ===== src/Common/Memory.antt =====
-- A table in memory that meets the repository interface, for tests and examples. The newest version
-- of a row stands first and hides the older ones.
use mathlib.Core.Path.{◌≡◌, refl, sym, ap, subst, ◌∙◌}
use mathlib.Core.Logic.{◌↔◌}
use mathlib.Core.Bool.{Bool, true, false, not, ◌&&◌}
use mathlib.Core.Option.{Option, none, some}
use mathlib.Core.List.{List, [], ◌∷◌}
use Prim.Native.String
use Prim.Native.String.{String}
use text.Mathlib.Text.{◌==◌}
use text.Mathlib.TextEquality.{eq_iff}
use native.Mathlib.Omega.{arith}
use trafego_flow.Common.Tests.{if◌then◌else◌}
use trafego_flow.Common.Lists.{Member}
use trafego_flow.Common.Http.{Exception, failure, Result, ok, err}
use trafego_flow.Common.Action.{Action}
use trafego_flow.Common.Store.{Repository, changed}

module _ {E : Type 0} (id : E → String) where
  abbrev pub row : List E → String → Option E
  row [] k = none
  row (e ∷ t) k = if id e == k then some e else row t k

  abbrev newer : E → (E → Bool) → E → Bool
  newer e p x = p x && not (id e == id x)

  unfoldable pub first : (E → Bool) → List E → Option E
  first p [] = none
  first p (e ∷ t) = if p e then some e else first (newer e p) t

  unfoldable pub select : (E → Bool) → List E → List E
  select p [] = []
  select p (e ∷ t) = if p e then e ∷ select (newer e p) t else select (newer e p) t

  unfoldable pub without : String → List E → List E
  without k [] = []
  without k (e ∷ t) = if id e == k then without k t else e ∷ without k t

  fresh_id : List E → String
  fresh_id [] = "n"
  fresh_id (e ∷ t) = String.◌++◌ "n" (fresh_id t)

  abbrev placed : (String → E) → String → List E → Option E → Result E × List E
  placed mk k t (some e) = (err (failure "taken"), t)
  placed mk k t none = if id (mk k) == k then (ok (mk k), mk k ∷ t) else (err (failure "no id"), t)

  unfoldable pub insert_row : (String → E) → List E → Result E × List E
  unfolding fresh_id
  insert_row mk t = placed mk (fresh_id t) t (row t (fresh_id t))

  pub id-row : (t : List E) (k : String) {e : E} → row t k ≡ some e → id e ≡ k
  id-row [] k h = cc
  id-row (x ∷ t) k {e} h = ground (arith, id-row t k {e = e}, eq_iff (id x) k)

  pub first-some :
      (p : E → Bool) (t : List E) {e : E}
      → first p t ≡ some e
      → (row t (id e) ≡ some e) × (p e ≡ true)
  unfolding first
  first-some p [] h = cc
  first-some p (x ∷ t) {e} h =
      ground (arith, first-some (newer x p) t {e = e}, eq_iff (id x) (id e), eq_iff (id x) (id x))

  pub first-none :
      (p : E → Bool) (t : List E) (k : String) (e : E)
      → first p t ≡ none
      → row t k ≡ some e
      → p e ≡ false
  unfolding first
  first-none p [] k e h g = cc
  first-none p (x ∷ t) k e h g = ground (
    arith,
    first-none (newer x p) t k e,
    eq_iff (id x) k,
    eq_iff (id x) (id e),
    id-row t k {e = e},
  )

  pub select_lem :
      (p : E → Bool) (t : List E) (e : E)
      → Member e (select p t) ↔ ((row t (id e) ≡ some e) × (p e ≡ true))
  unfolding select
  select_lem p [] e = (λ m. absurd m, λ h. cc (h.0))
  select_lem p (x ∷ t) e =
      ground (arith, select_lem (newer x p) t e, eq_iff (id x) (id e), eq_iff (id x) (id x))

  row-without :
      (k : String) (t : List E) (j : String)
      → row (without k t) j ≡ (if k == j then none else row t j)
  unfolding without
  row-without k [] j = ground arith
  row-without k (x ∷ t) j =
      ground (arith, row-without k t j, eq_iff (id x) k, eq_iff (id x) j, eq_iff k j)

  -- the newest version of a row, changed, in front
  abbrev pub rewritten : (E → E) → List E → Option E → List E
  rewritten f t none = t
  rewritten f t (some e) = f e ∷ t

  pub row-rewritten :
      (k : String) (f : E → E) (t : List E) (o : Option E) (j : String)
      → ((e : E) → id (f e) ≡ id e)
      → row t k ≡ o
      → row (rewritten f t o) j ≡ (if k == j then changed f (row t j) else row t j)
  row-rewritten k f t none j same h = ground (arith, eq_iff k j)
  row-rewritten k f t (some e) j same h =
      ground (arith, same e, id-row t k h, eq_iff k j, eq_iff (id e) j, eq_iff (id (f e)) j)

abbrev pub back : {W E A : Type 0} → (List E → W → W) → W → Result A × List E → Result A × W
back put w (r, t) = (r, put t w)

-- One table of a world: how to see it, and how to replace it.
pub record Table (W E : Type 0) : Type 0 where
  pub view : W → List E
  pub put : List E → W → W
  pub view-put : (t : List E) (w : W) → view (put t w) ≡ t

module _ {W E : Type 0} (id : E → String) (table : Table W E) where
  open table use {view, put, view-put}

  abbrev pub insert : (String → E) → Action W E
  insert mk w = back put w (insert_row id mk (view w))

  insert_row_ok :
      (mk : String → E) (t : List E) {t' : List E} {e : E}
      → insert_row id mk t ≡ (ok e, t')
      → (row id t (id e) ≡ none)
        × (e ≡ mk (id e))
        × ((j : String) → row id t' j ≡ (if id e == j then some e else row id t j))
  unfolding insert_row
  insert_row_ok mk t {t'} {e} h = (
    ground (arith, eq_iff (id (mk (fresh_id id t))) (fresh_id id t)),
    ground (arith, eq_iff (id (mk (fresh_id id t))) (fresh_id id t)),
    λ j. ground arith,
  )

  insert_row_err :
      (mk : String → E) (t : List E) {t' : List E} {x : Exception}
      → insert_row id mk t ≡ (err x, t')
      → t' ≡ t
  unfolding insert_row
  insert_row_err mk t h = ground arith

  viewed : {t : List E} {w w' : W} → put t w ≡ w' → view w' ≡ t
  viewed {t} {w} e = ap view (sym e) ∙ view-put t w

  pub insert_ok :
      (mk : String → E) (w : W) {w' : W} {e : E}
      → insert mk w ≡ (ok e, w')
      → (row id (view w) (id e) ≡ none)
        × (e ≡ mk (id e))
        × ((j : String) → row id (view w') j ≡ (if id e == j then some e else row id (view w) j))
  insert_ok mk w {w'} {e} h =
      let made : (insert_row id mk (view w)).0 ≡ ok e = ap (λ x. x.0) h in
      let seen : view w' ≡ (insert_row id mk (view w)).1 = viewed (ap (λ x. x.1) h) in
      rw seen (insert_row_ok mk (view w) (λ i. (made i, (insert_row id mk (view w)).1)))

  pub insert_err :
      (mk : String → E) (w : W) {w' : W} {x : Exception}
      → insert mk w ≡ (err x, w')
      → (j : String) → row id (view w') j ≡ row id (view w) j
  insert_err mk w {w'} {x} h j =
      let made : (insert_row id mk (view w)).0 ≡ err x = ap (λ x. x.0) h in
      let seen : view w' ≡ (insert_row id mk (view w)).1 = viewed (ap (λ x. x.1) h) in
      ap (λ t. row id t j)
        (seen ∙ insert_row_err mk (view w) (λ i. (made i, (insert_row id mk (view w)).1)))

  pub save_ok :
      (e : E) (w : W) {w' : W} {e' : E}
      → ◌≡◌ {A = Result E × W} (ok e, put (e ∷ view w) w) (ok e', w')
      → (e' ≡ e)
        × ((j : String) → row id (view w') j ≡ (if id e == j then some e else row id (view w) j))
  save_ok e w {w'} h =
      (cc, λ j. (let seen : view w' ≡ e ∷ view w = viewed (ap (λ x. x.1) h) in rw seen))

  pub delete_ok :
      (k : String) (w : W) {w' : W} {u : Unit {0}}
      → ◌≡◌ {A = Result (Unit {0}) × W} (ok tt, put (without id k (view w)) w) (ok u, w')
      → (j : String) → row id (view w') j ≡ (if k == j then none else row id (view w) j)
  delete_ok k w {w'} h j =
      let seen : view w' ≡ without id k (view w) = viewed (ap (λ x. x.1) h) in
      rw seen (row-without id k (view w) j)

  pub update_ok :
      (k : String) (f : E → E) (w : W) {w' : W} {u : Unit {0}}
      → ((e : E) → id (f e) ≡ id e)
      → ◌≡◌ {A = Result (Unit {0}) × W}
          (ok tt, put (rewritten id f (view w) (row id (view w) k)) w)
          (ok u, w')
      → (j : String)
      → row id (view w') j ≡ (if k == j then changed f (row id (view w) j) else row id (view w) j)
  update_ok k f w {w'} same h j =
      let seen : view w' ≡ rewritten id f (view w) (row id (view w) k) = viewed (ap (λ x. x.1) h) in
      rw seen (row-rewritten id k f (view w) (row id (view w) k) j same refl)

  pub unwrap : {A : Type 0} {a b : A} → ok a ≡ ok b → a ≡ b
  unwrap e = cc

  pub ok-ne-err : {A : Type 0} {a : A} {x : Exception} → ok a ≡ err x → ⊥
  ok-ne-err e = cc

  -- The repository: it never fails, but when the database cannot make a new id.
  abbrev pub memory : Repository W E id
  memory = record {
    get = λ w k. row id (view w) k;
    find_one = λ p w. ok (first id p (view w));
    find = λ p w. ok (select id p (view w));
    insert = insert;
    save = λ e w. (ok e, put (e ∷ view w) w);
    delete = λ k w. (ok tt, put (without id k (view w)) w);
    update = λ k f w. (ok tt, put (rewritten id f (view w) (row id (view w) k)) w);
    id-get = λ w k. id-row id (view w) k;
    find_one_some = λ p w h. first-some id p (view w) (unwrap h);
    find_one_none = λ p w k e h. first-none id p (view w) k e (unwrap h);
    find_ok = λ p w {l} e h.
        subst (λ l. Member e l ↔ ((row id (view w) (id e) ≡ some e) × (p e ≡ true))) (unwrap h)
          (select_lem id p (view w) e);
    insert_ok = insert_ok;
    insert_err = insert_err;
    save_ok = save_ok;
    save_err = λ e w h. absurd (ok-ne-err (ap (λ x. x.0) h));
    delete_ok = delete_ok;
    delete_err = λ k w h. absurd (ok-ne-err (ap (λ x. x.0) h));
    update_ok = update_ok;
    update_err = λ k f w h. absurd (ok-ne-err (ap (λ x. x.0) h));
  }
