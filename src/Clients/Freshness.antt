-- ===== src/Clients/Freshness.antt =====
-- modules/clients/clients.service.ts: what a reader may conclude from a cached client.
use mathlib.Core.Path.{subst}
use text.Mathlib.TextLemmas.{append_cancel_left}
use trafego_flow.Common.{
  Option, none, some, String, str_eq, eq_iff, ◌≡◌, refl, arith, ap, sym, inl, inr, ◌∙◌, ◌≢◌,
  Bool-cases,
}
use trafego_flow.Common.Http.{Result, ok}
use trafego_flow.Common.Rows.{get-find_one_id}
use trafego_flow.Common.Store.{Cache, Cached}
use trafego_flow.Clients.{
  Clients, ClientEntity, cache_key, find_one, from_cache, merge, update, remove, UpdateClientDto,
}
use trafego_flow.Clients.Updates.{IsUpdated, merge-IsUpdated}
use trafego_flow.Common.Action.{
  query, ◌>>◌, Post, Triple, Triple-bind, Triple-pure, Triple-query, Triple-or_throw, Triple-weaken,
  Triple-given, Triple-world, Triple-step,
}

module _ {W : Type 0} (repo : Clients W) (cache : Cache W ClientEntity) where
  -- Every cached client is the row of the table that has its key.
  abbrev pub IsFresh : W → Type 0
  IsFresh w =
      (k : String) (c : ClientEntity) → cache.peek w (cache_key k) ≡ some c → repo.get w k ≡ some c

cache_key_inj : (i j : String) → cache_key i ≡ cache_key j → i ≡ j
cache_key_inj i j e = append_cancel_left "client:id:" i j e

module _ {W : Type 0} (repo : Clients W) (cache : Cache W ClientEntity)
    (apart : Cached repo cache) where
  set-IsFresh :
      (k : String) (v : ClientEntity) (w : W)
      → IsFresh repo cache w
      → repo.get w k ≡ some v
      → IsFresh repo cache (cache.set (cache_key k) v w).1
  set-IsFresh k v w fresh row j c held = elim (cache.set_lem (cache_key k) v w (cache_key j) held) [
    | inl old ↦ apart.get-set (cache_key k) v w j ∙ fresh j c old
    | inr (same, new) ↦ cc (apart.get-set (cache_key k) v w j, cache_key_inj k j same, row, new)
  ]

  -- The world is fresh, and the row with key `k` is `row`.
  abbrev pub Reads : String → Option ClientEntity → W → Type 0
  Reads k row w = IsFresh repo cache w × (repo.get w k ≡ row)

  set-Reads :
      (k : String) (row : Option ClientEntity) (c : ClientEntity)
      → row ≡ some c
      → Triple (Reads k row) (cache.set (cache_key k) c) (λ _. Reads k row) (λ _. Reads k row)
  set-Reads k row c e =
      Triple-world (cache.set (cache_key k) c)
        (λ w h. (set-IsFresh k c w h.0 (h.1 ∙ e), apart.get-set (cache_key k) c w k ∙ h.1))

  from_cache-Reads :
      (k : String) (row o : Option ClientEntity)
      → Triple
          (λ w. Reads k row w × (cache.peek w (cache_key k) ≡ o))
          (from_cache repo cache k o)
          (λ c w. Reads k row w × (row ≡ some c))
          (λ _. Reads k row)
  unfolding from_cache
  from_cache-Reads k row (some c) = Triple-pure c (λ w h. (h.0, sym h.0.1 ∙ h.0.0 k c h.1))
  from_cache-Reads k row none =
      Triple-bind (λ o w. Reads k row w × (row ≡ o))
        (Triple-query _ (λ w o e h. (h.0, sym h.0.1 ∙ get-find_one_id repo k w e)) (λ w x e h. h.0))
        λ o.
          Triple-bind (λ c w. Reads k row w × (row ≡ some c))
            (Triple-or_throw o _ (λ c w e h. (h.0, h.1 ∙ e)) (λ w e h. h.0))
            λ c.
              Triple-bind (λ _ w. Reads k row w × (row ≡ some c))
                (Triple-given (λ e. set-Reads k row c e)) λ _. Triple-pure c (λ w h. h)

  pub find_one-Reads :
      (k : String) (row : Option ClientEntity)
      → Triple
          (Reads k row)
          (find_one repo cache k)
          (λ c w. Reads k row w × (row ≡ some c))
          (λ _. Reads k row)
  unfolding find_one
  find_one-Reads k row =
      Triple-bind (λ o w. Reads k row w × (cache.peek w (cache_key k) ≡ o))
        (Triple-query _ (λ w o e h. (h, cache.get_ok _ w e)) (λ w x e h. h))
        (from_cache-Reads k row)

  -- Fresh but for one client, whose row has just been written.
  abbrev pub FreshBut : String → W → Type 0
  FreshBut k w =
      (j : String) (c : ClientEntity)
      → j ≢ k
      → cache.peek w (cache_key j) ≡ some c
      → repo.get w j ≡ some c

  FreshBut-del :
      (k : String) (w : W)
      → FreshBut k w
      → (cache.del (cache_key k) w).0 ≡ ok tt
      → IsFresh repo cache (cache.del (cache_key k) w).1
  FreshBut-del k w fresh done j c held = elim (Bool-cases (str_eq k j)) [
    | inl same ↦
        let key : k ≡ j = (eq_iff k j).0 same in
        let gone : cache.peek (cache.del (cache_key k) w).1 (cache_key k) ≡ none =
          cache.del_ok (cache_key k) w done in
        cc (ap cache_key key)
    | inr other ↦
        apart.get-del (cache_key k) w j
        ∙ fresh j c (λ e. cc ((eq_iff k j).1 (sym e)))
            (cache.del_lem (cache_key k) w (cache_key j) held)
  ]

  FreshBut-del_any : (k : String) (w : W) → FreshBut k w → FreshBut k (cache.del (cache_key k) w).1
  FreshBut-del_any k w fresh j c ne held =
      apart.get-del (cache_key k) w j
      ∙ fresh j c ne (cache.del_lem (cache_key k) w (cache_key j) held)

  del-FreshBut :
      (k : String) (row : Option ClientEntity)
      → Triple
          (λ w. FreshBut k w × (repo.get w k ≡ row))
          (cache.del (cache_key k))
          (λ _. Reads k row)
          (λ _. FreshBut k)
  del-FreshBut k row =
      Triple-step _
        (λ w w' u e h. (
          subst (λ x. IsFresh repo cache x.1) e (FreshBut-del k w h.0 (ap (λ x. x.0) e)),
          ap (λ x. repo.get x.1 k) (sym e) ∙ apart.get-del (cache_key k) w k ∙ h.1,
        ))
        (λ w w' x e h. subst (λ x. FreshBut k x.1) e (FreshBut-del_any k w h.0))

  -- what the cache holds after a write to the table was there before
  held_before :
      (c x : ClientEntity) (w : W) {w' : W} {r : Result ClientEntity} (j : String)
      → repo.save c w ≡ (r, w')
      → cache.peek w' j ≡ some x
      → cache.peek w j ≡ some x
  held_before c x w j e held = sym (apart.peek-save c w j) ∙ ap (λ y. cache.peek y.1 j) e ∙ held

  held_before_delete :
      (i : String) (x : ClientEntity) (w : W) {w' : W} {r : Result (Unit {0})} (j : String)
      → repo.delete i w ≡ (r, w')
      → cache.peek w' j ≡ some x
      → cache.peek w j ≡ some x
  held_before_delete i x w j e held =
      sym (apart.peek-delete i w j) ∙ ap (λ y. cache.peek y.1 j) e ∙ held

  save-FreshBut :
      (k : String) (c : ClientEntity)
      → c.id ≡ k
      → Triple
          (IsFresh repo cache)
          (repo.save c)
          (λ _ w. FreshBut k w × (repo.get w k ≡ some c))
          (λ _. FreshBut k)
  save-FreshBut k c key =
      Triple-step _
        (λ w w' c' e fresh. (
          (λ j x ne held. ground (
            arith,
            (repo.save_ok c w e).1 j,
            eq_iff c.id j,
            fresh j x (held_before c x w (cache_key j) e held),
          )),
          ground (arith, (repo.save_ok c w e).1 k, eq_iff c.id k),
        ))
        (λ w w' x e fresh.
          λ j y ne held. repo.save_err c w e j ∙ fresh j y (held_before c y w (cache_key j) e held))

  delete-FreshBut :
      (k i : String)
      → i ≡ k
      → Triple
          (IsFresh repo cache)
          (repo.delete i)
          (λ _ w. FreshBut k w × (repo.get w k ≡ none))
          (λ _. FreshBut k)
  delete-FreshBut k i key =
      Triple-step _
        (λ w w' u e fresh. (
          (λ j x ne held. ground (
            arith,
            repo.delete_ok i w e j,
            eq_iff i j,
            fresh j x (held_before_delete i x w (cache_key j) e held),
          )),
          ground (arith, repo.delete_ok i w e k, eq_iff i k),
        ))
        (λ w w' x e fresh j y ne held.
          repo.delete_err i w e j ∙ fresh j y (held_before_delete i y w (cache_key j) e held))

  -- the rest of an update, from the row that it saves on
  save-IsUpdated :
      (k : String) (dto : UpdateClientDto) (row : Option ClientEntity) (client new : ClientEntity)
      → row ≡ some client
      → IsUpdated dto client new
      → Triple
          (Reads k row)
          (do repo.save new; cache.del (cache_key k); query (repo.find_one (λ c. str_eq c.id k)))
          (λ r w.
            IsFresh repo cache w
            × (repo.get w k ≡ r)
            × (c : ClientEntity) × (row ≡ some c)
            × (new : ClientEntity) × (r ≡ some new)
            × IsUpdated dto c new)
          (λ _. FreshBut k)
  save-IsUpdated k dto row client new here updated =
      Triple-bind (λ _ w. FreshBut k w × (repo.get w k ≡ some new))
        (record {
          at = λ w h.
              (save-FreshBut k new (updated.same_id ∙ repo.id-get w k (h.1 ∙ here))).at w h.0;
        })
        λ _.
          Triple-bind (λ _. Reads k (some new)) (del-FreshBut k _)
            λ _.
              Triple-query _
                (λ w r e h.
                  let read : repo.get w k ≡ r = get-find_one_id repo k w e in
                  (h.0, read, client, here, new, sym read ∙ h.1, updated))
                (λ w x e h j c ne. h.0 j c)

  pub update-Reads :
      (k : String) (dto : UpdateClientDto) (row : Option ClientEntity)
      → Triple
          (Reads k row)
          (update repo cache k dto)
          (λ r w.
            IsFresh repo cache w
            × (repo.get w k ≡ r)
            × (c : ClientEntity) × (row ≡ some c)
            × (new : ClientEntity) × (r ≡ some new)
            × IsUpdated dto c new)
          (λ _. FreshBut k)
  unfolding update
  update-Reads k dto row =
      Triple-bind (λ c w. Reads k row w × (row ≡ some c))
        (Triple-weaken _ _ (find_one-Reads k row) (λ c w h. h) (λ e w h j c ne. h.0 j c))
        λ client.
          Triple-bind (λ new w. (Reads k row w × (row ≡ some client)) × IsUpdated dto client new)
            (Triple-or_throw (merge client dto) _
              (λ new w e h. (h, merge-IsUpdated client dto new e)) (λ w e h j c ne. h.0.0 j c))
            λ new. record { at = λ w h. (save-IsUpdated k dto row client new h.0.1 h.1).at w h.0.0 }

  pub remove-Reads :
      (k : String) (row : Option ClientEntity)
      → Triple (Reads k row) (remove repo cache k) (λ _. Reads k none) (λ _. FreshBut k)
  unfolding remove
  remove-Reads k row =
      Triple-bind (λ c w. Reads k row w × (row ≡ some c))
        (Triple-weaken _ _ (find_one-Reads k row) (λ c w h. h) (λ e w h j c ne. h.0 j c))
        λ client.
          Triple-bind (λ _ w. FreshBut k w × (repo.get w k ≡ none))
            (record {
              at = λ w h. (delete-FreshBut k client.id (repo.id-get w k (h.0.1 ∙ h.1))).at w h.0.0;
            })
            λ _. del-FreshBut k none

  -- In a fresh world findOne returns the row of the table, also when it answers from the cache;
  -- however it ends, the world stays fresh and that row is as it was.
  pub find_one-IsFresh :
      (k : String) (w : W)
      → IsFresh repo cache w
      → Post
          (λ c w'. (repo.get w k ≡ some c) × IsFresh repo cache w' × (repo.get w' k ≡ repo.get w k))
          (λ e w'. IsFresh repo cache w' × (repo.get w' k ≡ repo.get w k))
          (find_one repo cache k w)
  find_one-IsFresh k w fresh =
      (Triple-weaken _ _ (find_one-Reads k (repo.get w k)) (λ c w' h. (h.1, h.0.0, h.0.1))
          (λ e w' h. h)).at
        w (fresh, refl)

  -- In a fresh world a successful client update returns a row, which the table then holds, and
  -- leaves the world fresh; in that row each column of the request is the old one where the
  -- request leaves it out, empty where it gives null, which it does not for the name and the
  -- email, and else the given value, and the id, the activity and the strategy are the old ones;
  -- an update that throws leaves no stale client in the cache but, perhaps, the one that it was to
  -- update.
  pub update-IsFresh :
      (k : String) (dto : UpdateClientDto) (w : W)
      → IsFresh repo cache w
      → Post
          (λ r w'.
            IsFresh repo cache w'
            × (repo.get w' k ≡ r)
            × (c : ClientEntity) × (repo.get w k ≡ some c)
            × (new : ClientEntity) × (r ≡ some new)
            × IsUpdated dto c new)
          (λ e w'. FreshBut k w')
          (update repo cache k dto w)
  update-IsFresh k dto w fresh = (update-Reads k dto (repo.get w k)).at w (fresh, refl)

  -- In a fresh world a successful client removal leaves no row with that key and a fresh world;
  -- one that throws leaves no stale client in the cache but, perhaps, that one.
  pub remove-IsFresh :
      (k : String) (w : W)
      → IsFresh repo cache w
      → Post
          (λ _ w'. IsFresh repo cache w' × (repo.get w' k ≡ none))
          (λ e w'. FreshBut k w')
          (remove repo cache k w)
  remove-IsFresh k w fresh = (remove-Reads k (repo.get w k)).at w (fresh, refl)
