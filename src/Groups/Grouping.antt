-- ===== src/Groups/Grouping.antt =====
-- modules/whatsapp-groups/whatsapp-groups.service.ts: the active groups by their clients.
use mathlib.Core.Path.{subst}
use trafego_flow.Common.{
  ◌≡◌, ◌≢◌, refl, inl, inr, Bool-cases, String, str_eq, eq_iff, List, [], ◌∷◌, ◌++◌, All, arith,
}
use trafego_flow.Common.Http.{ok}
use trafego_flow.Common.Action.{pure, query, bind_ok}
use trafego_flow.Groups.{
  WhatsAppGroupEntity, Groups, add_group, group_from, find_all_active_grouped_by_client_id,
}
use trafego_flow.Common.Store.{Cache}

-- The entries of a map: each key stands once.
abbrev pub IsMap : List (String × List WhatsAppGroupEntity) → Type 0
IsMap [] = Unit
IsMap ((key, groups) ∷ rest) = All (λ entry. key ≢ entry.0) rest × IsMap rest

-- Each group stands under its own client.
abbrev pub UnderClient : List (String × List WhatsAppGroupEntity) → Type 0
UnderClient entries = All (λ entry. All (λ g. g.client_id ≡ entry.0) entry.1) entries

add_group-apart :
    (key : String) (g : WhatsAppGroupEntity) (entries : List (String × List WhatsAppGroupEntity))
    → key ≢ g.client_id
    → All (λ entry. key ≢ entry.0) entries
    → All (λ entry. key ≢ entry.0) (add_group g entries)
add_group-apart key g [] h k = (h, tt)
add_group-apart key g ((k', groups) ∷ rest) h k = elim (Bool-cases (str_eq k' g.client_id)) [
  | inl e ↦ rw e (k.0, k.1)
  | inr e ↦ rw e (k.0, add_group-apart key g rest h k.1)
]

add_group-IsMap :
    (g : WhatsAppGroupEntity) (entries : List (String × List WhatsAppGroupEntity))
    → IsMap entries
    → IsMap (add_group g entries)
add_group-IsMap g [] h = (tt, tt)
add_group-IsMap g ((key, groups) ∷ rest) h = elim (Bool-cases (str_eq key g.client_id)) [
  | inl e ↦ rw e (h.0, h.1)
  | inr e ↦ rw e (
    add_group-apart key g rest (ground (arith, eq_iff key g.client_id)) h.0,
    add_group-IsMap g rest h.1,
  )
]

All-append :
    (key : String) (groups : List WhatsAppGroupEntity) (g : WhatsAppGroupEntity)
    → All (λ x. x.client_id ≡ key) groups
    → g.client_id ≡ key
    → All (λ x. x.client_id ≡ key) (groups ++ (g ∷ []))
All-append key [] g h e = (e, tt)
All-append key (x ∷ groups) g h e = (h.0, All-append key groups g h.1 e)

add_group-UnderClient :
    (g : WhatsAppGroupEntity) (entries : List (String × List WhatsAppGroupEntity))
    → UnderClient entries
    → UnderClient (add_group g entries)
add_group-UnderClient g [] h = ((refl, tt), tt)
add_group-UnderClient g ((key, groups) ∷ rest) h = elim (Bool-cases (str_eq key g.client_id)) [
  | inl e ↦ rw e (All-append key groups g h.0 (ground (arith, eq_iff key g.client_id)), h.1)
  | inr e ↦ rw e (h.0, add_group-UnderClient g rest h.1)
]

group_from-IsMap :
    (entries : List (String × List WhatsAppGroupEntity)) (gs : List WhatsAppGroupEntity)
    → IsMap entries
    → UnderClient entries
    → IsMap (group_from entries gs) × UnderClient (group_from entries gs)
group_from-IsMap entries [] h k = (h, k)
group_from-IsMap entries (g ∷ gs) h k =
    group_from-IsMap (add_group g entries) gs (add_group-IsMap g entries h)
      (add_group-UnderClient g entries k)

module _ {W : Type 0} (repo : Groups W) (cache : Cache W WhatsAppGroupEntity)
    (lists : Cache W (List WhatsAppGroupEntity)) where
  pub find_all_active_grouped_by_client_id-IsMap :
      (w v : W) (entries : List (String × List WhatsAppGroupEntity))
      → find_all_active_grouped_by_client_id repo cache lists w ≡ (ok entries, v)
      → IsMap entries × UnderClient entries
  unfolding find_all_active_grouped_by_client_id pure query
  find_all_active_grouped_by_client_id-IsMap w v entries h =
      let (groups, u, found, e) = bind_ok _ _ w h in
      let same : group_from [] groups ≡ entries = cc e in
      subst (λ x. IsMap x × UnderClient x) same (group_from-IsMap [] groups tt tt)
