-- ===== src/Frontdesk/Folio.antt =====
-- `addFolioItem`, `deleteFolioItem`, `getBookingFolio` and `autoPostRoomCharges` of
-- modules/frontdesk/frontdesk.service.ts, on the bookings and the table `folio_items`. The name of the
-- room type, which a description starts with, is an argument.
pub mod Balance
use property_os.Common.{
  ℕ, String, Bool, true, false, not, ◌&&◌, Option, none, some, List, filter, find_one, save, remove,
  ◌==◌, or_else,
}
use property_os.Common.Int.{ℤ, pos}
use property_os.Numeric.{Number, nought, sum_from}
use property_os.Service.{Exec, not_found, pure, or_throw, gets, modify, ◌>>=◌, ◌>>◌}
use property_os.Entities.{Booking}

pub data FolioCategory : Type 0 where
  room_charge deposit payment refund minibar restaurant laundry parking damage late_checkout other :
      FolioCategory

pub record FolioItem (N : Type 0) : Type 0 where
  pub id : ℕ
  pub booking_id : ℕ
  pub property_id : ℕ
  pub category : FolioCategory
  pub description : String
  pub amount : N
  pub quantity : ℤ
  pub total : N
  pub is_credit : Bool
  pub posted_by : Option String
  pub notes : Option String

pub record AddFolioItemDto (N : Type 0) : Type 0 where
  pub booking_id : ℕ
  pub category : FolioCategory
  pub description : String
  pub amount : N
  pub quantity : Option ℤ
  pub notes : Option String

-- the tables that the service reads and writes, the folio in the order of `created_at`
pub record Desk (N : Type 0) : Type 0 where
  pub bookings : List (Booking N)
  pub items : List (FolioItem N)

-- `[PAYMENT, DEPOSIT, REFUND].includes(category)`
abbrev pub is_credit_category : FolioCategory → Bool
is_credit_category payment = true
is_credit_category deposit = true
is_credit_category refund = true
is_credit_category _ = false

abbrev is_room_charge : FolioCategory → Bool
is_room_charge room_charge = true
is_room_charge _ = false

pub record FolioSummary (N : Type 0) : Type 0 where
  pub charges : N
  pub credits : N
  pub balance : N

module _ {N : Type 0} where
  abbrev pub find_booking : ℕ → ℕ → List (Booking N) → Option (Booking N)
  find_booking id property_id = find_one (λ b. b.id == id && b.property_id == property_id)

  abbrev get_booking : ℕ → ℕ → Exec (Desk N) (Booking N)
  get_booking id property_id = do
    rows ← gets (λ (d : Desk N). d.bookings)
    or_throw (find_booking id property_id rows) (not_found "Booking not found")

  abbrev pub item_key : FolioItem N → ℕ
  item_key i = i.id

  abbrev store : FolioItem N → Exec (Desk N) (Unit {0})
  store i = modify λ d. record d { items = save item_key i d.items }

  unfoldable pub delete_folio_item : ℕ → ℕ → Exec (Desk N) (Unit {0})
  delete_folio_item id property_id = do
    rows ← gets (λ (d : Desk N). d.items)
    item ←
        or_throw (find_one (λ i. i.id == id && i.property_id == property_id) rows)
          (not_found "Folio item not found")
    modify λ d. record d { items = remove item_key item.id d.items }

  -- the room charge of the booking, if one is posted
  abbrev pub posted_charge : ℕ → List (FolioItem N) → Option (FolioItem N)
  posted_charge booking_id = find_one (λ i. i.booking_id == booking_id && is_room_charge i.category)

  abbrev pub room_charge_of : ℕ → ℕ → (Booking N → String) → Booking N → FolioItem N
  room_charge_of new_id property_id describe b = record {
    id = new_id;
    booking_id = b.id;
    property_id = property_id;
    category = room_charge;
    description = describe b;
    amount = b.nightly_rate;
    quantity = b.nights;
    total = b.total_price;
    is_credit = false;
    posted_by = some "system";
    notes = none;
  }

  abbrev post_unless : Option (FolioItem N) → FolioItem N → Exec (Desk N) (Unit {0})
  post_unless none i = store i
  post_unless (some existing) i = pure tt

  unfoldable pub auto_post_room_charges :
      ℕ → (Booking N → String) → ℕ → ℕ → Exec (Desk N) (Unit {0})
  auto_post_room_charges new_id describe booking_id property_id = do
    booking ← get_booking booking_id property_id
    rows ← gets (λ (d : Desk N). d.items)
    post_unless (posted_charge booking_id rows) (room_charge_of new_id property_id describe booking)

module _ {N : Type 0} ⦃num : Number N⦄ where
  open num use {of_int, sub, mul}

  abbrev pub new_item : ℕ → ℕ → Option String → AddFolioItemDto N → FolioItem N
  new_item new_id property_id posted_by dto = record {
    id = new_id;
    booking_id = dto.booking_id;
    property_id = property_id;
    category = dto.category;
    description = dto.description;
    amount = dto.amount;
    quantity = or_else dto.quantity (pos 1);
    total = mul dto.amount (of_int (or_else dto.quantity (pos 1)));
    is_credit = is_credit_category dto.category;
    posted_by = posted_by;
    notes = dto.notes;
  }

  unfoldable pub add_folio_item :
      ℕ → ℕ → Option String → AddFolioItemDto N → Exec (Desk N) (FolioItem N)
  add_folio_item new_id property_id posted_by dto = do
    booking ← get_booking dto.booking_id property_id
    let item : FolioItem N = new_item new_id property_id posted_by dto
    store item
    pure item

  abbrev pub folio_of : ℕ → ℕ → List (FolioItem N) → List (FolioItem N)
  folio_of booking_id property_id =
      filter (λ i. i.booking_id == booking_id && i.property_id == property_id)

  abbrev pub charges_of : List (FolioItem N) → N
  charges_of items = sum_from nought (λ i. i.total) (filter (λ i. not i.is_credit) items)

  abbrev pub credits_of : List (FolioItem N) → N
  credits_of items = sum_from nought (λ i. i.total) (filter (λ i. i.is_credit) items)

  unfoldable pub get_booking_folio : ℕ → ℕ → Exec (Desk N) (List (FolioItem N) × FolioSummary N)
  get_booking_folio booking_id property_id = do
    booking ← get_booking booking_id property_id
    rows ← gets (λ (d : Desk N). d.items)
    let items = folio_of booking_id property_id rows
    pure (
      items,
      record {
        charges = charges_of items;
        credits = credits_of items;
        balance = sub (charges_of items) (credits_of items);
      },
    )
