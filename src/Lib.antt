-- ===== src/Lib.antt =====
-- Property OS: a model of the core of the API server under property-os/apps/api/src.
--
-- The server books rooms for guest houses. A request to modules/bookings finds the guest, checks and
-- takes the nights of each room in the calendar `room_availability` of modules/inventory, and prices
-- them by the rate periods of modules/inventory and the rules of modules/pricing; promo codes
-- (modules/promos) and the tourism levy (modules/tourism-levy) change what is paid. modules/payments
-- records payments and refunds. A cleanup job cancels bookings that are not paid for. A guest finds
-- rooms by a public search and looks after a booking in a portal. The people who work for a property
-- log in through modules/auth and act under the roles and permissions of modules/properties; URLs that
-- users enter are fetched by common/security.
--
-- Where each part is modelled (paths below property-os/apps/api/src):
--   Entities, Database        */entities/*.entity.ts and the events: the rows and the tables
--   Bookings/Request, Guests, Quote, Create
--                             createBooking of modules/bookings/bookings.service.ts and its helpers,
--                             and the exclusion constraint prevent_double_booking (migrations)
--   Bookings/Public           createPublicBooking, with findBestAvailableRoom
--   Bookings/Search           checkPublicAvailability
--   Bookings/Portal           guestCancelBooking, onlineCheckIn, guestModifyBooking
--   Bookings/Status           updateStatus, cancelBooking, cancelBookingGroup
--   Bookings/Update           updateBooking
--   Bookings/Cleanup          modules/bookings/bookings-cleanup.service.ts
--   Bookings/Engine           the requests above and those of the calendar as steps of the database;
--                             a bulk update that sets booked dates available or booked is no step
--   Inventory/Availability, Inventory/Calendar
--                             the calendar: queries and updates of `room_availability`
--   Inventory/Prices          getEffectivePrice, getDerivedPrice
--   Inventory/Restrictions    getYieldRestrictions
--   Pricing, Promos, Levy     calculatePrice; validate and applyDiscount; calculateLevy
--   Payments/Refunds          modules/payments/refunds.service.ts
--   Payments/Itn, Payments/Direct
--                             handlePayfastItn with utils/payfast.util.ts; EFT and manual payments and
--                             the summary of a booking, of modules/payments/payments.service.ts
--   Frontdesk/Folio           the folio of modules/frontdesk/frontdesk.service.ts
--   Auth/Sessions, Auth/Logins, Auth/Exchange
--                             modules/auth/auth.service.ts: refresh tokens, users, Google codes
--   Auth/Steps, Auth/Machine  its calls as actions, and a machine of sessions that they refine
--   Staff, Staff/Permissions  modules/properties/staff.service.ts, common/permissions and
--                             common/guards/property.guard.ts
--   SafeFetch                 common/security/safe-fetch.ts
--   Numeric, Service, Common  doubles, exceptions and transactions, lists and tables
--   Tests                     concrete databases and runs on them
--
-- How the code is read. A service method is a function from the state to a result and the new state;
-- an exception is a value that keeps what was written before it, and a transaction that throws
-- restores the tables, while events that were emitted stay emitted. A table is a list of its rows; a
-- query without an order returns them in the order of the list. Keys are numbers, a date is the
-- number of its day since 1970-01-01 in a time zone without changes of the clock, and a time is in
-- milliseconds. Generated keys, the clock, random references and the texts of templates are
-- arguments. A message of an exception keeps its constant part. JavaScript numbers are the parameter
-- `N` with the operations of `Number`; theorems that need facts about doubles take them as
-- `IsDouble`, and `Fixed`, integers counting ten-thousandths, meets these and runs the examples.
-- The amount of a manual payment is rounded by its column, `Number.column`; the other amounts that
-- are stored are taken as their columns keep them, with two decimals.
-- Requests run one at a time; where the handler of PayFast's notifications acts on a payment that it
-- read before, that payment is an argument (Payments/Itn, `settle`), so notifications may interleave.
-- The loop of generateRefNumber has its ten attempts as fuel, which is the bound of the code itself;
-- dateRange has fuel for each night from its start to its end, which Inventory/Availability/Dates
-- shows to be enough; safeFetch has fuel for its first request and each redirect that it allows, and the proof that
-- this is enough is in SafeFetch/Hops; every other loop is over a list. JWT, bcrypt, SHA-256, URL
-- parsing, DNS and the network are arguments (`Security`, `Runtime`); what is used of JWT is `IsJwt`,
-- which a toy in Tests/Sessions meets.
--
-- Pricing rules, which the database returns by priority, are sorted by the model, and rules of one
-- priority keep the order of the table. The exclusion constraint is checked where a booking
-- is inserted and where its dates change; other updates leave its room and its dates alone.
--
-- Not modelled: HTTP routing and validation of requests, the user interface, mail and messages, calls
-- of payment and accounting services, and the parts of the API that are not named above.
pub mod Common
pub mod Numeric
pub mod Service
pub mod Entities
pub mod Pricing
pub mod Promos
pub mod Levy
pub mod Database
pub mod Inventory
pub mod Bookings
pub mod Payments
pub mod Frontdesk
pub mod Auth
pub mod SafeFetch
pub mod Staff
pub mod Tests
