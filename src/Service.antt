-- ===== src/Service.antt =====
-- What the service methods share: the exceptions that they throw, methods that read and write the
-- database and may throw, database transactions, and the truth of a text in a test.
use property_os.Common.{
  if◌then◌else◌, ◌≡◌, ◌⊎◌, refl, inl, inr, String, Bool, true, false, Option, none, some,
}

-- The HTTP exceptions of the framework, with the constant part of their message.
pub data Exception : Type 0 where
  bad_request : String → Exception
  not_found : String → Exception
  conflict : String → Exception
  forbidden : String → Exception
  unauthorized : String → Exception
  -- any other error, which the framework answers with status 500
  failed : String → Exception

pub data Result {ℓ} (A : Type ℓ) : Type ℓ where
  ok : A → Result A
  thrown : Exception → Result A

-- A method over a state. What it wrote before it throws stays written.
abbrev pub Exec : Type 0 → Type 0 → Type 0
Exec S A = S → Result A × S

module _ {S A : Type 0} where
  abbrev pub pure : A → Exec S A
  pure a s = (ok a, s)

  abbrev pub throw : Exception → Exec S A
  throw e s = (thrown e, s)

  -- `if (!found) throw …`
  abbrev pub or_throw : Option A → Exception → Exec S A
  or_throw none e s = (thrown e, s)
  or_throw (some a) e s = (ok a, s)

  abbrev undo : (S → S → S) → S → Result A × S → Result A × S
  undo restore before (ok a, s) = (ok a, s)
  undo restore before (thrown e, s) = (thrown e, restore before s)

  -- `dataSource.transaction(…)`: after an exception, what the database restores.
  abbrev pub transaction : (S → S → S) → Exec S A → Exec S A
  transaction restore m s = undo restore s (m s)

  -- a computation that does not touch the state
  abbrev pub lift : Result A → Exec S A
  lift r s = (r, s)

module _ {S A B : Type 0} where
  abbrev continue : (A → Exec S B) → Result A × S → Result B × S
  continue f (ok a, s) = f a s
  continue f (thrown e, s) = (thrown e, s)

  infixl 5 ◌>>=◌ ◌>>◌
  abbrev pub ◌>>=◌ : Exec S A → (A → Exec S B) → Exec S B
  ◌>>=◌ m f s = continue f (m s)

  abbrev pub ◌>>◌ : Exec S A → Exec S B → Exec S B
  ◌>>◌ m n s = continue (λ _. n) (m s)

-- `if (test) throw …`
abbrev pub throw_if : {S : Type 0} → Bool → Exception → Exec S (Unit {0})
throw_if true e s = (thrown e, s)
throw_if false e s = (ok tt, s)

-- `gets`, a read of the state, and `modify`, a write
abbrev pub gets : {S A : Type 0} → (S → A) → Exec S A
gets f s = (ok (f s), s)

abbrev pub modify : {S : Type 0} → (S → S) → Exec S (Unit {0})
modify f s = (ok tt, f s)

-- The truth of a nullable text: it is there and not empty.
abbrev pub is_truthy_text : Option String → Bool
is_truthy_text none = false
is_truthy_text (some String.[]) = false
is_truthy_text (some (String.◌∷◌ c s)) = true

-- The value that a method returned, if it did.
abbrev pub result? {ℓ} : {A : Type ℓ} → Result A → Option A
result? (ok a) = some a
result? (thrown e) = none

-- To split on a result and keep the equation.
pub Result-cases {ℓ} :
    {A : Type ℓ} (r : Result A) → ((a : A) × (r ≡ ok a)) ⊎ ((e : Exception) × (r ≡ thrown e))
Result-cases (ok a) = inl (a, refl)
Result-cases (thrown e) = inr (e, refl)

-- What holds of the state after a method that is run, and then after what follows it.
pub bind_keeps :
    {S A B : Type 0} (P : S → Type 0) (m : Exec S A) (f : A → Exec S B) (s : S)
    → P (m s).1
    → ((a : A) (t : S) → P t → P (f a t).1)
    → P ((m >>= f) s).1
bind_keeps {S} {A} P m f s h k = go (m s) h
  where
    go : (out : Result A × S) → P out.1 → P (continue f out).1
    go (ok a, t) p = k a t p
    go (thrown e, t) p = p

pub if_keeps :
    {S A : Type 0} (P : S → Type 0) (b : Bool) (m n : Exec S A) (s : S)
    → P (m s).1
    → P (n s).1
    → P ((if b then m else n) s).1
if_keeps P true m n s h k = h
if_keeps P false m n s h k = k

pub throw_if_keeps :
    {S : Type 0} (P : S → Type 0) (b : Bool) (e : Exception) (s : S) → P s → P (throw_if b e s).1
throw_if_keeps P true e s h = h
throw_if_keeps P false e s h = h

-- The same for two methods in a row, with what holds between them.
pub then_keeps :
    {S A B : Type 0} (P Q : S → Type 0) (m : Exec S A) (n : Exec S B) (s : S)
    → P (m s).1
    → ((t : S) → P t → Q t)
    → ((t : S) → P t → Q (n t).1)
    → Q ((m >> n) s).1
then_keeps {S} {A} P Q m n s h weak k = go (m s) h
  where
    go : (out : Result A × S) → P out.1 → Q (continue (λ _. n) out).1
    go (ok a, t) p = k t p
    go (thrown e, t) p = weak t p

-- A transaction keeps what its body keeps and what a rollback keeps.
pub transaction_keeps :
    {S A : Type 0} (P : S → Type 0) (restore : S → S → S) (m : Exec S A) (s : S)
    → ((t : S) → P (restore s t))
    → P (m s).1
    → P (transaction restore m s).1
transaction_keeps {S} {A} P restore m s back h = go (m s) h
  where
    go : (out : Result A × S) → P out.1 → P (undo restore s out).1
    go (ok a, t) p = p
    go (thrown e, t) p = back t

-- After a transaction that throws, the state is a restored one.
pub transaction_restores :
    {S A : Type 0} (restore : S → S → S) (m : Exec S A) (s : S) (x : Exception)
    → ((t : S) → restore s (restore s t) ≡ restore s t)
    → (transaction restore m s).0 ≡ thrown x
    → restore s (transaction restore m s).1 ≡ (transaction restore m s).1
transaction_restores {S} {A} restore m s x twice h = go (m s) h
  where
    go :
        (out : Result A × S)
        → (undo restore s out).0 ≡ thrown x
        → restore s (undo restore s out).1 ≡ (undo restore s out).1
    go (ok a, t) p = cc
    go (thrown e, t) p = twice t

-- A method that returns has returned from its first part, and went on from there.
pub bind_ok :
    {S A B : Type 0} (m : Exec S A) (f : A → Exec S B) (s : S) (b : B)
    → ((m >>= f) s).0 ≡ ok b
    → (a : A) × ((m s).0 ≡ ok a) × ((m >>= f) s ≡ f a (m s).1)
bind_ok {S} {A} {B} m f s b h = go (m s) h
  where
    go :
        (out : Result A × S)
        → (continue f out).0 ≡ ok b
        → (a : A) × (out.0 ≡ ok a) × (continue f out ≡ f a out.1)
    go (ok a, t) p = (a, refl, refl)
    go (thrown e, t) p = cc

-- A method that throws has thrown in its first part, or after it.
pub bind_thrown :
    {S A B : Type 0} (m : Exec S A) (f : A → Exec S B) (s : S) (x : Exception)
    → ((m >>= f) s).0 ≡ thrown x
    → ((m s).0 ≡ thrown x) ⊎ ((a : A) × ((m s).0 ≡ ok a) × ((f a (m s).1).0 ≡ thrown x))
bind_thrown {S} {A} {B} m f s x h = go (m s) h
  where
    go :
        (out : Result A × S)
        → (continue f out).0 ≡ thrown x
        → (out.0 ≡ thrown x) ⊎ ((a : A) × (out.0 ≡ ok a) × ((f a out.1).0 ≡ thrown x))
    go (ok a, t) p = inr (a, refl, p)
    go (thrown e, t) p = inl (let same : e ≡ x = cc p in rw same refl)

pub transaction_thrown :
    {S A : Type 0} (restore : S → S → S) (m : Exec S A) (s : S) (x : Exception)
    → (transaction restore m s).0 ≡ thrown x
    → (m s).0 ≡ thrown x
transaction_thrown {S} {A} restore m s x h = go (m s) h
  where
    go : (out : Result A × S) → (undo restore s out).0 ≡ thrown x → out.0 ≡ thrown x
    go (ok a, t) p = p
    go (thrown e, t) p = p

-- an exception of the framework, which has a status of its own
abbrev pub is_http : Exception → Bool
is_http (failed message) = false
is_http _ = true

-- What follows a method that returned.
pub bind_step :
    {S A B : Type 0} (m : Exec S A) (f : A → Exec S B) (s : S) (a : A)
    → (m s).0 ≡ ok a
    → (m >>= f) s ≡ f a (m s).1
bind_step {S} {A} {B} m f s a h = go (m s) h
  where
    go : (out : Result A × S) → out.0 ≡ ok a → continue f out ≡ f a out.1
    go (ok b, t) p = let same : b ≡ a = cc p in rw same refl
    go (thrown e, t) p = cc

pub transaction_returns :
    {S A : Type 0} (restore : S → S → S) (m : Exec S A) (s : S) (a : A)
    → (m s).0 ≡ ok a
    → (transaction restore m s).0 ≡ ok a
transaction_returns {S} {A} restore m s a h = go (m s) h
  where
    go : (out : Result A × S) → out.0 ≡ ok a → (undo restore s out).0 ≡ ok a
    go (ok b, t) p = p
    go (thrown e, t) p = cc

-- A transaction that returns is its body.
pub transaction_ok :
    {S A : Type 0} (restore : S → S → S) (m : Exec S A) (s : S) (a : A)
    → (transaction restore m s).0 ≡ ok a
    → transaction restore m s ≡ m s
transaction_ok {S} {A} restore m s a h = go (m s) h
  where
    go : (out : Result A × S) → (undo restore s out).0 ≡ ok a → undo restore s out ≡ out
    go (ok b, t) p = refl
    go (thrown e, t) p = cc

-- What holds after a method and what follows it, with what the method is known to return.
pub bind_gives :
    {S A B : Type 0} (P : S → Type 0) (Q : A → S → Type 0) (m : Exec S A) (f : A → Exec S B) (s : S)
    → P (m s).1
    → ((a : A) → (m s).0 ≡ ok a → Q a (m s).1)
    → ((a : A) (t : S) → P t → Q a t → P (f a t).1)
    → P ((m >>= f) s).1
bind_gives {S} {A} P Q m f s h give k = go (m s) h give
  where
    go :
        (out : Result A × S) → P out.1 → ((a : A) → out.0 ≡ ok a → Q a out.1) → P (continue f out).1
    go (ok a, t) p g = k a t p (g a refl)
    go (thrown e, t) p g = p
