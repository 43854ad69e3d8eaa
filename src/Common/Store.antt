-- ===== src/Common/Store.antt =====
-- What the services rely on of TypeORM's repositories and of the cache manager, which are not part
-- of the repository's code. A table is seen through `get`, the row that a primary key has (a
-- soft-deleted row is not seen); the order of rows is not specified.
use mathlib.Core.Path.{◌≡◌}
use mathlib.Core.Logic.{◌↔◌, ◌⊎◌}
use mathlib.Core.Bool.{Bool, true, false}
use mathlib.Core.Option.{Option, none, some}
use mathlib.Core.List.{List}
use Prim.Native.String.{String}
use text.Mathlib.Text.{◌==◌}
use trafego_flow.Common.Tests.{if◌then◌else◌}
use trafego_flow.Common.Lists.{Member}
use trafego_flow.Common.Http.{Exception, Result, ok, err}
use trafego_flow.Common.Action.{Action}

abbrev pub changed : {E : Type 0} → (E → E) → Option E → Option E
changed f none = none
changed f (some e) = some (f e)

-- `Repository<E>` over a world `W`. `insert` is `save` of an entity without an id, which the
-- database generates; `save` is that of an entity that has one; `update` is that by primary key.
-- Any call may fail.
pub record Repository (W E : Type 0) (id : E → String) : Type 0 where
  pub get : W → String → Option E
  pub find_one : (E → Bool) → W → Result (Option E)
  pub find : (E → Bool) → W → Result (List E)
  pub insert : (String → E) → Action W E
  pub save : E → Action W E
  pub delete : String → Action W (Unit {0})
  pub update : String → (E → E) → Action W (Unit {0})
  -- the documented behaviour
  pub id-get : (w : W) (k : String) {e : E} → get w k ≡ some e → id e ≡ k
  pub find_one_some :
      (p : E → Bool) (w : W) {e : E}
      → find_one p w ≡ ok (some e)
      → (get w (id e) ≡ some e) × (p e ≡ true)
  pub find_one_none :
      (p : E → Bool) (w : W) (k : String) (e : E)
      → find_one p w ≡ ok none
      → get w k ≡ some e
      → p e ≡ false
  pub find_ok :
      (p : E → Bool) (w : W) {l : List E} (e : E)
      → find p w ≡ ok l
      → Member e l ↔ ((get w (id e) ≡ some e) × (p e ≡ true))
  pub insert_ok :
      (mk : String → E) (w : W) {w' : W} {e : E}
      → insert mk w ≡ (ok e, w')
      → (get w (id e) ≡ none)
        × (e ≡ mk (id e))
        × ((j : String) → get w' j ≡ (if id e == j then some e else get w j))
  pub insert_err :
      (mk : String → E) (w : W) {w' : W} {x : Exception}
      → insert mk w ≡ (err x, w')
      → (j : String) → get w' j ≡ get w j
  pub save_ok :
      (e : E) (w : W) {w' : W} {e' : E}
      → save e w ≡ (ok e', w')
      → (e' ≡ e) × ((j : String) → get w' j ≡ (if id e == j then some e else get w j))
  pub save_err :
      (e : E) (w : W) {w' : W} {x : Exception}
      → save e w ≡ (err x, w')
      → (j : String) → get w' j ≡ get w j
  pub delete_ok :
      (k : String) (w : W) {w' : W} {u : Unit {0}}
      → delete k w ≡ (ok u, w')
      → (j : String) → get w' j ≡ (if k == j then none else get w j)
  pub delete_err :
      (k : String) (w : W) {w' : W} {x : Exception}
      → delete k w ≡ (err x, w')
      → (j : String) → get w' j ≡ get w j
  pub update_ok :
      (k : String) (f : E → E) (w : W) {w' : W} {u : Unit {0}}
      → ((e : E) → id (f e) ≡ id e)
      → update k f w ≡ (ok u, w')
      → (j : String) → get w' j ≡ (if k == j then changed f (get w j) else get w j)
  pub update_err :
      (k : String) (f : E → E) (w : W) {w' : W} {x : Exception}
      → update k f w ≡ (err x, w')
      → (j : String) → get w' j ≡ get w j

-- A cache in front of a table. `peek` is what it holds; a stored entry may be dropped at any call.
pub record Cache (W V : Type 0) : Type 0 where
  pub peek : W → String → Option V
  pub get : String → W → Result (Option V)
  pub set : String → V → Action W (Unit {0})
  pub del : String → Action W (Unit {0})
  pub get_ok : (k : String) (w : W) {r : Option V} → get k w ≡ ok r → peek w k ≡ r
  -- also when the call fails
  pub set_lem :
      (k : String) (v : V) (w : W) (j : String) {x : V}
      → peek (set k v w).1 j ≡ some x
      → (peek w j ≡ some x) ⊎ ((k ≡ j) × (v ≡ x))
  pub del_lem :
      (k : String) (w : W) (j : String) {x : V} → peek (del k w).1 j ≡ some x → peek w j ≡ some x
  pub del_ok : (k : String) (w : W) → (del k w).0 ≡ ok tt → peek (del k w).1 k ≡ none

-- A database table and its cache do not write to one another.
pub record Cached {W E : Type 0} {id : E → String} (repo : Repository W E id) (cache : Cache W E)
    : Type 0 where
  pub get-set :
      (k : String) (e : E) (w : W) (j : String) → repo.get (cache.set k e w).1 j ≡ repo.get w j
  pub get-del : (k : String) (w : W) (j : String) → repo.get (cache.del k w).1 j ≡ repo.get w j
  pub peek-save : (e : E) (w : W) (j : String) → cache.peek (repo.save e w).1 j ≡ cache.peek w j
  pub peek-insert :
      (mk : String → E) (w : W) (j : String) → cache.peek (repo.insert mk w).1 j ≡ cache.peek w j
  pub peek-delete :
      (k : String) (w : W) (j : String) → cache.peek (repo.delete k w).1 j ≡ cache.peek w j

-- Saving rows of one table leaves another as it is.
pub record Separate {W E F : Type 0} {id : E → String} {key : F → String} (repo : Repository W E id)
    (other : Repository W F key) : Type 0 where
  pub get-insert :
      (mk : String → F) (w : W) (j : String) → repo.get (other.insert mk w).1 j ≡ repo.get w j
  pub get-save : (e : F) (w : W) (j : String) → repo.get (other.save e w).1 j ≡ repo.get w j

-- `dataSource.transaction`. The callback's changes stay if it returns and the commit succeeds.
pub record Transactions (W : Type 0) : Type 1 where
  pub run : {A : Type 0} → Action W A → Action W A
  pub run_ok :
      {A : Type 0} (m : Action W A) (w : W) {w' : W} {a : A}
      → run m w ≡ (ok a, w')
      → m w ≡ (ok a, w')

-- A transaction that throws leaves the rows of a table as they were.
pub record RollsBack {W E : Type 0} {id : E → String} (transactions : Transactions W)
    (repo : Repository W E id) : Type 1 where
  pub run_err :
      {A : Type 0} (m : Action W A) (w : W) {w' : W} {x : Exception}
      → transactions.run m w ≡ (err x, w')
      → (j : String) → repo.get w' j ≡ repo.get w j
