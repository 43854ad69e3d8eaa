-- ===== src/Integrations/Freshness.antt =====
-- modules/integrations/integrations.service.ts: what a cached integration tells of the table.
use Prim.Native.Char.{code}
use Prim.Native.String
use mathlib.Core.Path.{subst}
use text.Mathlib.TextLemmas.{append_assoc, append_cancel_left, cons-append}
use trafego_flow.Common.{
  ℕ, Option, none, some, String, str_eq, eq_iff, ◌≡◌, refl, arith, ap, sym, inl, inr, ◌∙◌, ◌≢◌,
}
use trafego_flow.Common.Http.{ok}
use trafego_flow.Common.Store.{Cache, Cached}
use trafego_flow.Integrations.{
  Integrations, IntegrationEntity, cache_by_id, cache_by_page, find_by_page_id, page_from_cache,
}
use trafego_flow.Common.Action.{
  Triple, Triple-bind, Triple-pure, Triple-query, Triple-or_throw, Triple-weaken, Triple-world,
}

first_code : String → ℕ
first_code String.[] = 0
first_code (String.◌∷◌ c s) = code c

numbers_differ : (a b : ℕ) → a ≡ 105 → b ≡ 112 → a ≢ b
numbers_differ a b = ground arith

cache_by_id-ne-cache_by_page : (id page_id : String) → cache_by_id id ≢ cache_by_page page_id
unfolding first_code
cache_by_id-ne-cache_by_page id page_id e =
    let tails =
      append_cancel_left "integration:" (String.◌++◌ "id:" id) (String.◌++◌ "page:" page_id) (
        sym (append_assoc "integration:" "id:" id)
        ∙ e
        ∙ append_assoc "integration:" "page:" page_id) in
    numbers_differ 105 112 refl refl
      (ap first_code (sym (cons-append "i" "d:" id) ∙ tails ∙ cons-append "p" "age:" page_id))

cache_by_id_inj : (i j : String) → cache_by_id i ≡ cache_by_id j → i ≡ j
cache_by_id_inj i j e = append_cancel_left "integration:id:" i j e

cache_by_page_inj : (i j : String) → cache_by_page i ≡ cache_by_page j → i ≡ j
cache_by_page_inj i j e = append_cancel_left "integration:page:" i j e

module _ {W : Type 0} (repo : Integrations W) (cache : Cache W IntegrationEntity) where
  -- An integration that is cached under a key or under a page is a row of the table, with that key
  -- or that page.
  pub record IsFresh (w : W) : Type 0 where
    pub by_id :
        (k : String) (i : IntegrationEntity)
        → cache.peek w (cache_by_id k) ≡ some i
        → repo.get w k ≡ some i
    pub by_page :
        (p : String) (i : IntegrationEntity)
        → cache.peek w (cache_by_page p) ≡ some i
        → (repo.get w i.id ≡ some i) × (i.page_id ≡ p)

  -- A row of the table with a page.
  abbrev pub Holds : String → IntegrationEntity → W → Type 0
  Holds p i w = IsFresh w × (repo.get w i.id ≡ some i) × (i.page_id ≡ p)

module _ {W : Type 0} (repo : Integrations W) (cache : Cache W IntegrationEntity)
    (apart : Cached repo cache) where
  set_id-IsFresh :
      (i : IntegrationEntity) (w : W)
      → IsFresh repo cache w
      → repo.get w i.id ≡ some i
      → IsFresh repo cache (cache.set (cache_by_id i.id) i w).1
  set_id-IsFresh i w fresh row = record {
    by_id = λ k j held. elim (cache.set_lem (cache_by_id i.id) i w (cache_by_id k) held) [
      | inl old ↦ apart.get-set (cache_by_id i.id) i w k ∙ fresh.by_id k j old
      | inr (same, new) ↦
          cc (apart.get-set (cache_by_id i.id) i w k, cache_by_id_inj i.id k same, row, new)
    ];
    by_page = λ p j held. elim (cache.set_lem (cache_by_id i.id) i w (cache_by_page p) held) [
      | inl old ↦ (
        apart.get-set (cache_by_id i.id) i w j.id ∙ (fresh.by_page p j old).0,
        (fresh.by_page p j old).1,
      )
      | inr (same, new) ↦ absurd (cache_by_id-ne-cache_by_page i.id p same)
    ];
  }

  set_page-IsFresh :
      (p : String) (i : IntegrationEntity) (w : W)
      → Holds repo cache p i w
      → IsFresh repo cache (cache.set (cache_by_page p) i w).1
  set_page-IsFresh p i w (fresh, row, page) = record {
    by_id = λ k j held. elim (cache.set_lem (cache_by_page p) i w (cache_by_id k) held) [
      | inl old ↦ apart.get-set (cache_by_page p) i w k ∙ fresh.by_id k j old
      | inr (same, new) ↦ absurd (cache_by_id-ne-cache_by_page k p (sym same))
    ];
    by_page = λ q j held. elim (cache.set_lem (cache_by_page p) i w (cache_by_page q) held) [
      | inl old ↦ (
        apart.get-set (cache_by_page p) i w j.id ∙ (fresh.by_page q j old).0,
        (fresh.by_page q j old).1,
      )
      | inr (same, new) ↦
          subst
            (λ x. (repo.get (cache.set (cache_by_page p) i w).1 x.id ≡ some x) × (x.page_id ≡ q))
            new (apart.get-set (cache_by_page p) i w i.id ∙ row, page ∙ cache_by_page_inj p q same)
    ];
  }

  set_id-Holds :
      (p : String) (i : IntegrationEntity)
      → Triple
          (Holds repo cache p i)
          (cache.set (cache_by_id i.id) i)
          (λ _. Holds repo cache p i)
          (λ _. IsFresh repo cache)
  set_id-Holds p i =
      Triple-weaken (λ _. Holds repo cache p i) (λ _. Holds repo cache p i)
        (Triple-world (cache.set (cache_by_id i.id) i)
          λ w h. (set_id-IsFresh i w h.0 h.1, apart.get-set (cache_by_id i.id) i w i.id ∙ h.1, h.2))
        (λ _ w h. h) λ _ w h. h.0

  set_page-Holds :
      (p : String) (i : IntegrationEntity)
      → Triple
          (Holds repo cache p i)
          (cache.set (cache_by_page p) i)
          (λ _. Holds repo cache p i)
          (λ _. IsFresh repo cache)
  set_page-Holds p i =
      Triple-weaken (λ _. Holds repo cache p i) (λ _. Holds repo cache p i)
        (Triple-world (cache.set (cache_by_page p) i)
          λ w h. (set_page-IsFresh p i w h, apart.get-set (cache_by_page p) i w i.id ∙ h.1, h.2))
        (λ _ w h. h) λ _ w h. h.0

  -- What the search by a page finds in the cache or in the table.
  abbrev Found : String → Option IntegrationEntity → W → Type 0
  Found p none w = IsFresh repo cache w
  Found p (some i) w = Holds repo cache p i w

  page_from_cache-Holds :
      (p : String) (o : Option IntegrationEntity)
      → Triple
          (Found p o)
          (page_from_cache repo cache p o)
          (Holds repo cache p)
          (λ _. IsFresh repo cache)
  unfolding page_from_cache
  page_from_cache-Holds p (some i) = Triple-pure i (λ w h. h)
  page_from_cache-Holds p none =
      Triple-bind (Found p) (Triple-query _ (λ w o e h. found w o e h) (λ w x e h. h)) λ o.
        Triple-bind (Holds repo cache p)
          (Triple-or_throw o _ (λ i w e h. subst (λ o. Found p o w) e h)
            λ w e h. subst (λ o. Found p o w) e h)
          λ i.
            Triple-bind (λ _. Holds repo cache p i) (set_id-Holds p i)
              λ _.
                Triple-bind (λ _. Holds repo cache p i) (set_page-Holds p i)
                  λ _. Triple-pure i (λ w h. h)
    where
      found :
          (w : W) (o : Option IntegrationEntity)
          → repo.find_one (λ i. str_eq i.page_id p) w ≡ ok o
          → IsFresh repo cache w
          → Found p o w
      found w none e h = h
      found w (some i) e h =
          let (row, same) = repo.find_one_some (λ i. str_eq i.page_id p) w e in
          (h, row, ground (arith, eq_iff i.page_id p))

  -- In a fresh world the search by a page leaves a fresh world, however it ends, and what it
  -- returns is the row of the table with that page.
  pub find_by_page_id-Holds :
      (p : String)
      → Triple
          (IsFresh repo cache)
          (find_by_page_id repo cache p)
          (Holds repo cache p)
          (λ _. IsFresh repo cache)
  unfolding find_by_page_id
  find_by_page_id-Holds p =
      Triple-bind (Found p) (Triple-query _ (λ w o e h. cached w o e h) (λ w x e h. h))
        λ o. page_from_cache-Holds p o
    where
      cached :
          (w : W) (o : Option IntegrationEntity)
          → cache.get (cache_by_page p) w ≡ ok o
          → IsFresh repo cache w
          → Found p o w
      cached w none e h = h
      cached w (some i) e h =
          let (row, page) = h.by_page p i (cache.get_ok (cache_by_page p) w e) in (h, row, page)
