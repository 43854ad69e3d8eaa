-- ===== src/Common/MemoryCache.antt =====
-- A cache in memory that meets the cache interface, for tests and examples: it keeps every entry.
use mathlib.Core.Path.{◌≡◌}
use mathlib.Core.Logic.{◌⊎◌}
use mathlib.Core.Option.{Option, none, some}
use mathlib.Core.List.{List, [], ◌∷◌}
use Prim.Native.String.{String}
use text.Mathlib.Text.{◌==◌}
use text.Mathlib.TextEquality.{eq_iff}
use native.Mathlib.Omega.{arith}
use trafego_flow.Common.Tests.{if◌then◌else◌}
use trafego_flow.Common.Http.{ok}
use trafego_flow.Common.Store.{Cache}
use trafego_flow.Common.Memory.{Table}

module _ {V : Type 0} where
  abbrev pub entry : List (String × V) → String → Option V
  entry [] k = none
  entry ((j, v) ∷ t) k = if j == k then some v else entry t k

  unfoldable pub drop_entry : String → List (String × V) → List (String × V)
  drop_entry k [] = []
  drop_entry k ((j, v) ∷ t) = if j == k then drop_entry k t else (j, v) ∷ drop_entry k t

  pub entry-drop :
      (k : String) (t : List (String × V)) (j : String)
      → entry (drop_entry k t) j ≡ (if k == j then none else entry t j)
  unfolding drop_entry
  entry-drop k [] j = ground arith
  entry-drop k ((i, v) ∷ t) j = ground (arith, entry-drop k t j, eq_iff i k, eq_iff i j, eq_iff k j)

module _ {W V : Type 0} (table : Table W (String × V)) where
  open table use {view, put, view-put}

  pub unwrap : {a b : Option V} → ok a ≡ ok b → a ≡ b
  unwrap e = cc

  pub set_lem :
      (k : String) (v : V) (w : W) (j : String) {x : V}
      → entry (view (put ((k, v) ∷ view w) w)) j ≡ some x
      → (entry (view w) j ≡ some x) ⊎ ((k ≡ j) × (v ≡ x))
  set_lem k v w j h = ground (arith, view-put ((k, v) ∷ view w) w, eq_iff k j)

  pub del_lem :
      (k : String) (w : W) (j : String) {x : V}
      → entry (view (put (drop_entry k (view w)) w)) j ≡ some x
      → entry (view w) j ≡ some x
  del_lem k w j h = ground (arith, view-put (drop_entry k (view w)) w, entry-drop k (view w) j)

  pub del_ok : (k : String) (w : W) → entry (view (put (drop_entry k (view w)) w)) k ≡ none
  del_ok k w =
      ground (arith, view-put (drop_entry k (view w)) w, entry-drop k (view w) k, eq_iff k k)

  abbrev pub memory_cache : Cache W V
  memory_cache = record {
    peek = λ w k. entry (view w) k;
    get = λ k w. ok (entry (view w) k);
    set = λ k v w. (ok tt, put ((k, v) ∷ view w) w);
    del = λ k w. (ok tt, put (drop_entry k (view w)) w);
    get_ok = λ k w e. unwrap e;
    set_lem = set_lem;
    del_lem = del_lem;
    del_ok = λ k w e. del_ok k w;
  }
