-- ===== src/Clients/Updates.antt =====
-- modules/clients/clients.service.ts: what an update makes of the columns of a client.
use mathlib.Core.Path.{subst}
use trafego_flow.Common.{◌≡◌, refl, Option, none, some, String}
use trafego_flow.Clients.{
  ClientEntity, UpdateClientDto, Property, undefined, null, value, set_nullable, set_required,
  with_required, merge,
}

-- A property that is left out keeps the column, `null` empties it and a value goes in.
abbrev pub Takes : {A : Type 0} → Property A → (old new : Option A) → Type 0
Takes undefined old new = new ≡ old
Takes null old new = new ≡ none
Takes (value v) old new = new ≡ some v

-- So it is with a column that may not be null, which leaves no room for `null`.
abbrev pub TakesRequired : {A : Type 0} → Property A → (old new : A) → Type 0
TakesRequired undefined old new = new ≡ old
TakesRequired null old new = ⊥
TakesRequired (value v) old new = new ≡ v

-- The row `new` is `old` with the columns of the request replaced.
pub record IsUpdated (dto : UpdateClientDto) (old new : ClientEntity) : Type 0 where
  pub same_id : new.id ≡ old.id
  pub same_is_active : new.is_active ≡ old.is_active
  pub same_ai_strategy_context : new.ai_strategy_context ≡ old.ai_strategy_context
  pub name : TakesRequired dto.name old.name new.name
  pub email : TakesRequired dto.email old.email new.email
  pub phone : Takes dto.phone old.phone new.phone
  pub whatsapp_group_code :
      Takes dto.whatsapp_group_code old.whatsapp_group_code new.whatsapp_group_code
  pub google_drive_folder_url :
      Takes dto.google_drive_folder_url old.google_drive_folder_url new.google_drive_folder_url
  pub profile_type : Takes dto.profile_type old.profile_type new.profile_type

set_nullable-Takes :
    {A : Type 0} (p : Property A) (old : Option A) → Takes p old (set_nullable p old)
set_nullable-Takes undefined old = refl
set_nullable-Takes null old = refl
set_nullable-Takes (value v) old = refl

set_required-TakesRequired :
    {A : Type 0} (p : Property A) (old new : A)
    → set_required p old ≡ some new
    → TakesRequired p old new
set_required-TakesRequired undefined old new e = cc e
set_required-TakesRequired null old new e = cc e
set_required-TakesRequired (value v) old new e = cc e

with_required-some :
    (name email : Option String) (client r : ClientEntity)
    → with_required name email client ≡ some r
    → (name ≡ some r.name)
      × (email ≡ some r.email)
      × (record client { name = r.name; email = r.email } ≡ r)
with_required-some (some name) (some email) client r e =
    let same : record client { name = name; email = email } ≡ r = cc e in
    subst
      (λ x.
        (some name ≡ some x.name)
        × (some email ≡ some x.email)
        × (record client { name = x.name; email = x.email } ≡ x))
      same (refl, refl, refl)
with_required-some (some name) none client r e = cc e
with_required-some none (some email) client r e = cc e
with_required-some none none client r e = cc e

pub merge-IsUpdated :
    (c : ClientEntity) (dto : UpdateClientDto) (r : ClientEntity)
    → merge c dto ≡ some r
    → IsUpdated dto c r
merge-IsUpdated c dto r e =
    let (named, mailed, same) = with_required-some _ _ _ r e in
    subst (IsUpdated dto c) same record {
      same_id = refl;
      same_is_active = refl;
      same_ai_strategy_context = refl;
      name = set_required-TakesRequired dto.name c.name r.name named;
      email = set_required-TakesRequired dto.email c.email r.email mailed;
      phone = set_nullable-Takes dto.phone c.phone;
      whatsapp_group_code = set_nullable-Takes dto.whatsapp_group_code c.whatsapp_group_code;
      google_drive_folder_url =
          set_nullable-Takes dto.google_drive_folder_url c.google_drive_folder_url;
      profile_type = set_nullable-Takes dto.profile_type c.profile_type;
    }
