-- ===== src/Bookings/Guests.antt =====
-- `findOrCreateGuest` of modules/bookings/bookings.service.ts.
use text.Mathlib.Text.{◌==◌ as ◌≟◌}
use property_os.Common.{
  ℕ, ◌≡◌, refl, String, Bool, false, not, ◌&&◌, Option, none, some, List, find_one, save, ◌==◌,
  if◌then◌else◌,
}
use property_os.Numeric.{Number, nought}
use property_os.Service.{Exec, ok, pure, gets, modify, ◌>>=◌, ◌>>◌, is_truthy_text}
use property_os.Entities.{Guest}
use property_os.Database.{Db}
use property_os.Bookings.Request.{GuestDto}

abbrev same_text : Option String → Option String → Bool
same_text (some a) (some b) = a ≟ b
same_text _ _ = false

-- `if (update) field = update`
abbrev pub overwrite : String → String → String
overwrite old new = if is_truthy_text (some new) then new else old

-- `if (update && !field) field = update`
abbrev fill : Option String → Option String → Option String
fill old new = if is_truthy_text new && not (is_truthy_text old) then new else old

module _ {N : Type 0} where
  abbrev first_of_two : Option (Guest N) → Option (Guest N) → Option (Guest N)
  first_of_two none g = g
  first_of_two (some g) _ = some g

  -- the guest with the email address, else the one with the phone number
  find_guest : ℕ → GuestDto → List (Guest N) → Option (Guest N)
  find_guest property_id dto guests =
      let by_email =
        find_one (λ (g : Guest N). g.property_id == property_id && same_text g.email dto.email)
          guests in
      let by_phone =
        find_one (λ (g : Guest N). g.property_id == property_id && same_text g.phone dto.phone)
          guests in
      first_of_two (if is_truthy_text dto.email then by_email else none)
        (if is_truthy_text dto.phone then by_phone else none)

  updated_guest : GuestDto → Guest N → Guest N
  updated_guest dto g = record g {
    first_name = overwrite g.first_name dto.first_name;
    last_name = overwrite g.last_name dto.last_name;
    phone = fill g.phone dto.phone;
    country = fill g.country dto.country;
    id_number = if is_truthy_text dto.id_number then dto.id_number else g.id_number;
  }

module _ {N : Type 0} ⦃num : Number N⦄ where
  abbrev new_guest : ℕ → ℕ → GuestDto → Guest N
  new_guest id property_id dto = record {
    id = id;
    property_id = property_id;
    first_name = dto.first_name;
    last_name = dto.last_name;
    email = dto.email;
    phone = dto.phone;
    country = dto.country;
    id_number = dto.id_number;
    total_stays = 0;
    total_revenue = nought;
    last_stay_date = none;
  }

  abbrev guest_to_save : ℕ → ℕ → GuestDto → Option (Guest N) → Guest N
  guest_to_save id property_id dto none = new_guest id property_id dto
  guest_to_save id property_id dto (some g) = updated_guest dto g

  unfoldable pub find_or_create_guest : ℕ → ℕ → GuestDto → Exec (Db N) (Guest N)
  unfolding find_guest updated_guest
  find_or_create_guest new_id property_id dto = do
    db ← gets (λ d. d)
    let guest : Guest N =
        guest_to_save new_id property_id dto (find_guest property_id dto db.guests)
    modify λ d. record d { guests = save (λ (g : Guest N). g.id) guest d.guests }
    pure guest

  -- A guest is always found or made, and nothing but the guests changes.
  pub find_or_create_guest-saves :
      (new_id property_id : ℕ) (dto : GuestDto) (db : Db N)
      → (guest : Guest N) × (guests : List (Guest N)) × (find_or_create_guest new_id property_id dto
            db
          ≡ (ok guest, record db { guests = guests }))
  unfolding find_or_create_guest
  find_or_create_guest-saves new_id property_id dto db = (_, _, refl)
