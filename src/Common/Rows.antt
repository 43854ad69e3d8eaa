-- ===== src/Common/Rows.antt =====
-- Consequences of the repositories' documented behaviour that the services share.
use mathlib.Core.Path.{◌≡◌, subst, sym, ap, ◌∙◌}
use mathlib.Core.Logic.{inl, inr}
use mathlib.Core.Bool.{Bool, true, false}
use mathlib.Core.Option.{Option, none, some}
use Prim.Native.String.{String}
use text.Mathlib.Text.{◌==◌}
use text.Mathlib.TextEquality.{eq_iff}
use trafego_flow.Common.Tests.{Option-cases}
use trafego_flow.Common.Http.{Exception, ok}
use trafego_flow.Common.Action.{
  Action, query, or_throw, ◌>>=◌, Triple, Triple-bind, Triple-query, Triple-or_throw,
}
use trafego_flow.Common.Store.{Repository}

module _ {W E : Type 0} {id : E → String} (repo : Repository W E id) where
  -- A search by primary key returns the row with that key, or nothing where there is none.
  pub get-find_one_id :
      (k : String) (w : W) {o : Option E}
      → repo.find_one (λ e. id e == k) w ≡ ok o
      → repo.get w k ≡ o
  get-find_one_id k w {o = some e} found =
      let (row, same) = repo.find_one_some (λ e. id e == k) w found in
      subst (λ j. repo.get w j ≡ some e) ((eq_iff (id e) k).0 same) row
  get-find_one_id k w {o = none} found = elim (Option-cases (repo.get w k)) [
    | inl missing ↦ missing
    | inr (e, row) ↦
        let other : (id e == k) ≡ false = repo.find_one_none (λ e. id e == k) w k e found row in
        let same : (id e == k) ≡ true = (eq_iff (id e) k).1 (repo.id-get w k row) in cc
  ]

module _ {W E A : Type 0} {id : E → String} (repo : Repository W E id) (w0 : W) {S : A → W → Type 0}
    {R : Exception → W → Type 0} where
  -- `const e = await repo.findOne({ where }); if (!e) throw x; …`, begun in the world `w0`: the rest
  -- runs in the same world, for a row that satisfies the condition.
  pub Triple-lookup :
      (p : E → Bool) (x : Exception) {f : E → Action W A}
      → ((y : Exception) → R y w0)
      → ((e : E) → repo.get w0 (id e) ≡ some e → p e ≡ true → Triple (λ w. w ≡ w0) (f e) S R)
      → Triple (λ w. w ≡ w0) (query (repo.find_one p) >>= λ o. or_throw o x >>= f) S R
  Triple-lookup p x fails then_ =
      Triple-bind
        (λ o w. (w ≡ w0) × ((e : E) → o ≡ some e → (repo.get w0 (id e) ≡ some e) × (p e ≡ true)))
        (Triple-query _
          (λ w o found same. (
            same,
            λ e is_e.
                subst (λ v. (repo.get v (id e) ≡ some e) × (p e ≡ true)) same
                  (repo.find_one_some p w (found ∙ ap ok is_e)),
          ))
          (λ w y e same. subst (R y) (sym same) (fails y)))
        λ o.
          Triple-bind (λ e w. (w ≡ w0) × (repo.get w0 (id e) ≡ some e) × (p e ≡ true))
            (Triple-or_throw o x (λ e w is_e h. (h.0, (h.1 e is_e).0, (h.1 e is_e).1))
              (λ w e h. subst (R x) (sym h.0) (fails x)))
            λ e. record { at = λ w h. (then_ e h.1 h.2).at w h.0 }
