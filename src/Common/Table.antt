-- ===== src/Common/Table.antt =====
-- The rows of a database table, as the repositories of the services read and write them: a query
-- returns the rows that match in the order of the table, `save` replaces the row with the same
-- primary key or appends a new one, and an `UPDATE … WHERE` changes each row that matches.
use Prim.Native.Nat.{ℕ, ◌+◌}
use mathlib.Core.Path.{◌≡◌, refl, sym, ap, ◌∙◌}
use mathlib.Core.Logic.{◌≢◌, inl, inr}
use mathlib.Core.Bool.{Bool, true, false, not}
use mathlib.Core.Option.{Option, none, some}
use mathlib.Core.List.{List, [], ◌∷◌}
use native.Mathlib.Omega.{arith}
use property_os.Common.Tests.{if◌then◌else◌, leb, ◌==◌, Bool-cases, ==_iff, ==_self}
use property_os.Common.Lists.{length, filter, push, All, In, All-In, All-weaken}

module _ {ℓ} {A : Type ℓ} where
  -- `findOne({ where })`
  abbrev pub find_one : (A → Bool) → List A → Option A
  find_one p [] = none
  find_one p (x ∷ xs) = let rest = find_one p xs in if p x then some x else rest

  -- `UPDATE … SET … WHERE p`
  abbrev pub update_where : (A → Bool) → (A → A) → List A → List A
  update_where p f [] = []
  update_where p f (x ∷ xs) = (if p x then f x else x) ∷ update_where p f xs

  -- the `affected` count of an `UPDATE … WHERE p`
  abbrev pub count_where : (A → Bool) → List A → ℕ
  count_where p xs = length (filter p xs)

pub find_one-In :
    {A : Type 0} (p : A → Bool) (xs : List A) {x : A}
    → find_one p xs ≡ some x
    → In x xs × (p x ≡ true)
find_one-In p [] h = cc
find_one-In p (y ∷ ys) h = elim (Bool-cases (p y)) [
  | inl e ↦ ground (arith, h)
  | inr e ↦ let found = find_one-In p ys (ground arith) in (inr found.0, found.1)
]

module _ {ℓ} {A : Type ℓ} (key : A → ℕ) where
  -- `save(row)`
  abbrev pub save : A → List A → List A
  save x [] = x ∷ []
  save x (y ∷ ys) = let rest = y ∷ save x ys in if key y == key x then x ∷ ys else rest

  -- `remove(row)`
  abbrev pub remove : ℕ → List A → List A
  remove k xs = filter (λ x. not (key x == k)) xs

  -- Rows that satisfy `P` still do after one of them, or a new one, is saved.
  pub All-save {κ} : (P : A → Type κ) (x : A) (xs : List A) → P x → All P xs → All P (save x xs)
  All-save P x [] px h = (px, h)
  All-save P x (y ∷ ys) px h = elim (Bool-cases (key y == key x)) [
    | inl e ↦ rw e (px, h.1)
    | inr e ↦ rw e (h.0, All-save P x ys px h.1)
  ]

pub All-update_where {ℓ κ} :
    {A : Type ℓ} (P : A → Type κ) (p : A → Bool) (f : A → A) (xs : List A)
    → ((x : A) → p x ≡ true → P x → P (f x))
    → All P xs
    → All P (update_where p f xs)
All-update_where P p f [] k h = h
All-update_where P p f (x ∷ xs) k h = elim (Bool-cases (p x)) [
  | inl e ↦ rw e (k x e h.0, All-update_where P p f xs k h.1)
  | inr e ↦ rw e (h.0, All-update_where P p f xs k h.1)
]

-- `order: { column: 'ASC' }`; rows with the same value stay in the order of the table
module _ {ℓ} {A : Type ℓ} (column : A → ℕ) where
  insert_row : A → List A → List A
  insert_row x [] = x ∷ []
  insert_row x (y ∷ ys) =
      let rest = y ∷ insert_row x ys in if leb (column x) (column y) then x ∷ y ∷ ys else rest

  unfoldable pub sort_by : List A → List A
  unfolding insert_row
  sort_by [] = []
  sort_by (x ∷ xs) = insert_row x (sort_by xs)

-- 1 for a row that matches, else 0
abbrev pub tally : Bool → ℕ
tally true = 1
tally false = 0

module _ {A : Type 0} (key : A → ℕ) where
  -- a primary key: no two rows share it
  abbrev pub Distinct : List A → Type 0
  Distinct [] = Unit
  Distinct (x ∷ xs) = All (λ y. key y ≢ key x) xs × Distinct xs

  -- a key that no row has
  abbrev pub Unused : ℕ → List A → Type 0
  Unused k xs = All (λ y. key y ≢ k) xs

  Unused-save : (k : ℕ) (x : A) (xs : List A) → key x ≢ k → Unused k xs → Unused k (save key x xs)
  Unused-save k x xs n h = All-save key (λ y. key y ≢ k) x xs n h

  pub Distinct-save : (x : A) (xs : List A) → Distinct xs → Distinct (save key x xs)
  Distinct-save x [] h = (tt, tt)
  Distinct-save x (y ∷ ys) h = elim (Bool-cases (key y == key x)) [
    | inl e ↦ let same : key y ≡ key x = (==_iff _ _).0 e in rw e (rw same at h.0, h.1)
    | inr e ↦ rw e (Unused-save (key y) x ys (ground arith) h.0, Distinct-save x ys h.1)
  ]

  All-rest :
      (P : A → Type 0) (x : A) (ys : List A)
      → Unused (key x) ys
      → All (λ y. key y ≢ key x → P y) ys
      → All P ys
  All-rest P x [] n h = tt
  All-rest P x (y ∷ ys) n h = (h.0 n.0, All-rest P x ys n.1 h.1)

  -- Saving a row asks nothing of the stored row that it replaces.
  pub All-save_over :
      (P : A → Type 0) (x : A) (xs : List A)
      → Distinct xs
      → P x
      → All (λ y. key y ≢ key x → P y) xs
      → All P (save key x xs)
  All-save_over P x [] d px h = (px, tt)
  All-save_over P x (y ∷ ys) d px h = elim (Bool-cases (key y == key x)) [
    | inl e ↦
        let same : key y ≡ key x = (==_iff _ _).0 e in
        rw e (px, All-rest P x ys (rw same at d.0) h.1)
    | inr e ↦ rw e (h.0 (ground arith), All-save_over P x ys d.1 px h.1)
  ]

  -- With a primary key, the rows that have the key of a stored row are that row.
  pub Distinct-In :
      (xs : List A) (x : A) → Distinct xs → In x xs → All (λ y. key y ≡ key x → y ≡ x) xs
  Distinct-In [] x h i = tt
  Distinct-In (y ∷ ys) x h (inl e) =
      (λ _. sym e, All-weaken (λ z n p. absurd (n (p ∙ ap key e))) ys h.0)
  Distinct-In (y ∷ ys) x h (inr i) =
      (λ p. absurd (All-In (λ z. key z ≢ key y) ys h.0 i (sym p)), Distinct-In ys x h.1 i)

  pub In-save : (x : A) (xs : List A) → In x (save key x xs)
  In-save x [] = inl refl
  In-save x (y ∷ ys) = elim (Bool-cases (key y == key x)) [
    | inl e ↦ rw e (inl refl)
    | inr e ↦ rw e (inr (In-save x ys))
  ]

  pub In-save_other : (x y : A) (xs : List A) → key y ≢ key x → In y xs → In y (save key x xs)
  In-save_other x y [] n i = absurd i
  In-save_other x y (z ∷ zs) n i = elim (Bool-cases (key z == key x)) [
    | inl e ↦
        rw e (elim i [ inl same ↦ absurd (n (ap key same ∙ (==_iff _ _).0 e)) | inr j ↦ inr j ])
    | inr e ↦ rw e (elim i [ inl same ↦ inl same | inr j ↦ inr (In-save_other x y zs n j) ])
  ]

  -- A row is found by its primary key.
  pub find_one-Distinct :
      (x : A) (xs : List A) → Distinct xs → In x xs → find_one (λ y. key y == key x) xs ≡ some x
  find_one-Distinct x [] d i = absurd i
  find_one-Distinct x (y ∷ ys) d (inl e) = rw (← e, ==_self (key x)) refl
  find_one-Distinct x (y ∷ ys) d (inr i) =
      let other = All-In (λ z. key z ≢ key y) ys d.0 i in
      ground (arith, other, find_one-Distinct x ys d.1 i)

  -- A query that finds a row finds the row that is saved over it, if that still matches.
  pub find_one-save :
      (p : A → Bool) (x y : A) (xs : List A)
      → Distinct xs
      → find_one p xs ≡ some y
      → key y ≡ key x
      → p x ≡ true
      → find_one p (save key x xs) ≡ some x
  find_one-save p x y [] d h k e = absurd (cc h)
  find_one-save p x y (z ∷ zs) d h k e = elim (Bool-cases (p z)) [
    | inl f ↦
        let hit : some z ≡ some y = rw (f, if◌then◌else◌) at h in
        let same : z ≡ y = cc hit in rw (same, k, ==_self (key x), e) refl
    | inr f ↦
        let later : find_one p zs ≡ some y = rw (f, if◌then◌else◌) at h in
        let other = All-In (λ w. key w ≢ key z) zs d.0 (find_one-In p zs later).0 in
        ground (arith, f, k, other, find_one-save p x y zs d.1 later k e)
  ]

  -- A query that matches no row finds the row that is saved, if that matches.
  pub find_one-save_only :
      (p : A → Bool) (x : A) (xs : List A)
      → All (λ y. p y ≡ false) xs
      → p x ≡ true
      → find_one p (save key x xs) ≡ some x
  find_one-save_only p x [] h e = ground (arith, e)
  find_one-save_only p x (z ∷ zs) h e = ground (arith, h.0, e, find_one-save_only p x zs h.1 e)

  -- Saving a row with a new key adds it to the counts that it matches.
  pub count_where-save_new :
      (p : A → Bool) (x : A) (xs : List A)
      → Unused (key x) xs
      → count_where p (save key x xs) ≡ count_where p xs + tally (p x)
  count_where-save_new p x [] h = ground arith
  count_where-save_new p x (y ∷ ys) h = ground (arith, h.0, count_where-save_new p x ys h.1)

  pub save_fresh : (x : A) (xs : List A) → Unused (key x) xs → save key x xs ≡ push xs x
  save_fresh x [] h = refl
  save_fresh x (y ∷ ys) h = ground (arith, h.0, save_fresh x ys h.1)

  -- Saving a row over a stored one moves the counts by the difference of the two.
  pub count_where-save :
      (p : A → Bool) (x y : A) (xs : List A)
      → Distinct xs
      → In y xs
      → key y ≡ key x
      → count_where p (save key x xs) + tally (p y) ≡ count_where p xs + tally (p x)
  count_where-save p x y [] d i k = absurd i
  count_where-save p x y (z ∷ zs) d (inl e) k = rw e (ground (arith, ap key e))
  count_where-save p x y (z ∷ zs) d (inr i) k =
      ground (arith, All-In (λ w. key w ≢ key z) zs d.0 i, count_where-save p x y zs d.1 i k)

module _ {A : Type 0} (key : A → ℕ) where
  Unused-filter :
      (k : ℕ) (p : A → Bool) (xs : List A) → Unused key k xs → Unused key k (filter p xs)
  Unused-filter k p [] h = tt
  Unused-filter k p (x ∷ xs) h = ground (arith, h, Unused-filter k p xs h.1)

  -- Rows that are left keep their distinct keys.
  pub Distinct-filter : (p : A → Bool) (xs : List A) → Distinct key xs → Distinct key (filter p xs)
  Distinct-filter p [] h = tt
  Distinct-filter p (x ∷ xs) h = elim (Bool-cases (p x)) [
    | inl e ↦ rw e (Unused-filter (key x) p xs h.0, Distinct-filter p xs h.1)
    | inr e ↦ rw e (Distinct-filter p xs h.1)
  ]

  remove-Unused : (k : ℕ) (xs : List A) → Unused key k xs → remove key k xs ≡ xs
  remove-Unused k [] h = refl
  remove-Unused k (x ∷ xs) h = ground (arith, h.0, remove-Unused k xs h.1)

  -- Removing a row lowers the counts that it matches.
  pub count_where-remove :
      (p : A → Bool) (y : A) (xs : List A)
      → Distinct key xs
      → In y xs
      → count_where p (remove key (key y) xs) + tally (p y) ≡ count_where p xs
  count_where-remove p y [] d i = absurd i
  count_where-remove p y (x ∷ xs) d (inl e) =
      let gone : remove key (key y) xs ≡ xs = remove-Unused (key y) xs (rw e d.0) in
      rw (← e, ==_self (key y), gone) (ground arith)
  count_where-remove p y (x ∷ xs) d (inr i) =
      ground (arith, All-In (λ z. key z ≢ key x) xs d.0 i, count_where-remove p y xs d.1 i)
