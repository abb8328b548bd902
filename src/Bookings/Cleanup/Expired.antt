-- ===== src/Bookings/Cleanup/Expired.antt =====
-- The bookings that the cleanup job leaves.
use property_os.Common.{
  ℕ, ◌≡◌, refl, inl, inr, true, false, List, [], ◌∷◌, ◌++◌, All, In, arith, any, filter, Bool, ◌||◌,
  save, ◌==◌, Distinct, Distinct-save, All-save_over, All-weaken, All-of_In, ◌⊎◌,
}
use property_os.Entities.{Booking}
use property_os.Database.{Db}
use property_os.Bookings.Status.{as_cancelled}
use property_os.Bookings.Sound.{booking_key}
use property_os.Bookings.Cleanup.{is_expired, merge, to_cancel, cancel_rows, cancel_expired}

module _ {N : Type 0} where
  -- a booking of the list has the key
  abbrev Lists : List (Booking N) → ℕ → Type 0
  Lists bs k = any (λ b. b.id == k) bs ≡ true

  any-save :
      (x : Booking N) (acc : List (Booking N)) (k : ℕ)
      → any (λ b. b.id == k) (save booking_key x acc) ≡ (x.id == k || any (λ b. b.id == k) acc)
  any-save x [] k = refl
  any-save x (y ∷ ys) k = ground (arith, any-save x ys k)

  Lists-merge :
      (acc bs : List (Booking N)) (k : ℕ) → Lists acc k ⊎ Lists bs k → Lists (merge acc bs) k
  unfolding merge
  Lists-merge acc [] k (inl h) = h
  Lists-merge acc [] k (inr h) = absurd (cc)
  Lists-merge acc (b ∷ bs) k h =
      Lists-merge (save booking_key b acc) bs k (ground (arith, any-save b acc k, h))

  any-append :
      (p : Booking N → Bool) (xs ys : List (Booking N)) → any p xs ≡ true → any p (xs ++ ys) ≡ true
  any-append p [] ys h = absurd (cc)
  any-append p (x ∷ xs) ys h = ground (arith, any-append p xs ys)

  any-expired :
      (now : ℕ) (bs : List (Booking N)) (b : Booking N)
      → In b bs
      → is_expired now b ≡ true
      → any (λ c. c.id == b.id) (filter (is_expired now) bs) ≡ true
  any-expired now [] b i h = absurd i
  any-expired now (c ∷ bs) b (inl e) h = rw (← e, h) (ground arith)
  any-expired now (c ∷ bs) b (inr i) h = ground (arith, any-expired now bs b i h)

  -- Once a list with the expired bookings is cancelled, none is expired.
  cancel_rows-All :
      (now : ℕ) (bs : List (Booking N)) (db : Db N)
      → Distinct booking_key db.bookings
      → All (λ b. is_expired now b ≡ true → Lists bs b.id) db.bookings
      → All (λ b. is_expired now b ≡ false) (cancel_rows now bs db).bookings
  unfolding cancel_rows is_expired
  cancel_rows-All now [] db d h = All-weaken (λ b k. ground (arith, k)) db.bookings h
  cancel_rows-All now (b ∷ bs) db d h =
      let saved = as_cancelled now _ b in
      cancel_rows-All now bs _ (Distinct-save booking_key saved db.bookings d) (
        All-save_over booking_key (λ c. is_expired now c ≡ true → Lists bs c.id) saved db.bookings d
          (λ x. absurd (cc)) (All-weaken (λ c k other x. ground (arith, k x, other)) db.bookings h))

  -- After the cleanup job no booking is expired: pending, direct and more than 30 minutes old. The
  -- bookings have distinct keys.
  pub none_left_expired :
      (now : ℕ) (db : Db N)
      → Distinct booking_key db.bookings
      → All (λ b. is_expired now b ≡ false) (cancel_expired now db).1.bookings
  unfolding cancel_expired to_cancel
  none_left_expired now db d = cancel_rows-All now (to_cancel now db.bookings) db d (
      All-of_In _ db.bookings λ b i h. Lists-merge [] _ b.id (
        inr (
          any-append _ (filter (is_expired now) db.bookings) _
            (any-expired now db.bookings b i h))))
