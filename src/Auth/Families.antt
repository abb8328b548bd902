-- ===== src/Auth/Families.antt =====
-- How many sessions of a family are live.
use property_os.Common.{
  ℕ, ◌≤◌, ◌≡◌, ◌≢◌, refl, Bool, true, ◌&&◌, some, List, [], ◌∷◌, In, All, save, update_where,
  filter, inl, inr, Bool-cases, arith, ◌==◌, ==_iff, count_where, Distinct, Distinct-save,
  Distinct-filter, Unused, count_where-save_new, count_where-save, save_fresh, push,
}
use property_os.Auth.{RefreshToken, Accounts, Security, token_key}
use property_os.Auth.Sessions.{is_live, revoked}
use property_os.Auth.Steps.{
  Reach, here, next, NewId, NewSession, Change, stay, revoke, drop, start, rotate,
}
use property_os.Auth.Machine.{act-Change}

abbrev pub live_in : ℕ → RefreshToken → Bool
live_in family r = r.family_id == family && is_live r

abbrev pub live_tokens : ℕ → List RefreshToken → ℕ
live_tokens family rows = count_where (live_in family) rows

-- The identifiers are distinct, and no family has two live tokens.
pub record IsSound (rows : List RefreshToken) : Type 0 where
  pub distinct : Distinct token_key rows
  pub single : (family : ℕ) → live_tokens family rows ≤ 1

live_tokens-revoke :
    (p : RefreshToken → Bool) (now f : ℕ) (rows : List RefreshToken)
    → live_tokens f (update_where p (revoked now) rows) ≤ live_tokens f rows
live_tokens-revoke p now f [] = omega arith
live_tokens-revoke p now f (r ∷ rows) = ground (arith, live_tokens-revoke p now f rows)

live_tokens-drop :
    (p : RefreshToken → Bool) (f : ℕ) (rows : List RefreshToken)
    → live_tokens f (filter p rows) ≤ live_tokens f rows
live_tokens-drop p f [] = omega arith
live_tokens-drop p f (r ∷ rows) = ground (arith, live_tokens-drop p f rows)

live_tokens-alone :
    (f : ℕ) (rows : List RefreshToken) → All (λ r. r.family_id ≢ f) rows → live_tokens f rows ≡ 0
live_tokens-alone f [] h = refl
live_tokens-alone f (r ∷ rows) h = ground (arith, h.0, live_tokens-alone f rows h.1)

Unused-revoke :
    (k : ℕ) (p : RefreshToken → Bool) (now : ℕ) (rows : List RefreshToken)
    → Unused token_key k rows
    → Unused token_key k (update_where p (revoked now) rows)
Unused-revoke k p now [] h = tt
Unused-revoke k p now (r ∷ rows) h = ground (arith, h, Unused-revoke k p now rows h.1)

Distinct-revoke :
    (p : RefreshToken → Bool) (now : ℕ) (rows : List RefreshToken)
    → Distinct token_key rows
    → Distinct token_key (update_where p (revoked now) rows)
Distinct-revoke p now [] h = tt
Distinct-revoke p now (r ∷ rows) h = elim (Bool-cases (p r)) [
  | inl e ↦ rw e (Unused-revoke r.id p now rows h.0, Distinct-revoke p now rows h.1)
  | inr e ↦ rw e (Unused-revoke r.id p now rows h.0, Distinct-revoke p now rows h.1)
]

In-push : (x y : RefreshToken) (rows : List RefreshToken) → In x rows → In x (push rows y)
In-push x y [] i = absurd i
In-push x y (r ∷ rows) (inl e) = inl e
In-push x y (r ∷ rows) (inr i) = inr (In-push x y rows i)

start-single :
    {k : ℕ} (f : ℕ) (row : RefreshToken) (rows : List RefreshToken)
    → NewSession k row.id row.family_id rows
    → live_tokens f rows ≤ 1
    → live_tokens f (save token_key row rows) ≤ 1
start-single f row rows new h = elim (Bool-cases (row.family_id == f)) [
  | inl e ↦
      let same : row.family_id ≡ f = (==_iff _ _).0 e in
      ground (
        arith,
        count_where-save_new token_key (live_in f) row rows new.id.unused,
        live_tokens-alone f rows (rw (← same) new.alone),
      )
  | inr e ↦ ground (arith, e, h, count_where-save_new token_key (live_in f) row rows new.id.unused)
]

rotate-single :
    {k : ℕ} (now f : ℕ) (old row : RefreshToken) (rows : List RefreshToken)
    → Distinct token_key rows
    → In old rows
    → is_live old ≡ true
    → row.family_id ≡ old.family_id
    → NewId k row.id rows
    → live_tokens f rows ≤ 1
    → live_tokens f (
        save token_key
          (record old { revoked_at = some now; replaced_by = some row.id })
          (save token_key row rows))
      ≤ 1
rotate-single now f old row rows d i live same new h =
    let ended : RefreshToken = record old { revoked_at = some now; replaced_by = some row.id } in
    let opened = count_where-save_new token_key (live_in f) row rows new.unused in
    let kept : In old (save token_key row rows) =
      rw (save_fresh token_key row rows new.unused) (In-push old row rows i) in
    let closed =
      count_where-save token_key (live_in f) ended old (save token_key row rows)
        (Distinct-save token_key row rows d) kept refl in
    ground (arith, opened, closed, live, same, h)

pub Change-IsSound :
    {k : ℕ} {rows after : List RefreshToken} → Change k rows after → IsSound rows → IsSound after
Change-IsSound stay v = v
Change-IsSound {rows = rows} (revoke p now) v = record {
  distinct = Distinct-revoke p now rows v.distinct;
  single = λ f. omega (arith, live_tokens-revoke p now f rows, v.single f);
}
Change-IsSound {rows = rows} (drop p) v = record {
  distinct = Distinct-filter token_key p rows v.distinct;
  single = λ f. omega (arith, live_tokens-drop p f rows, v.single f);
}
Change-IsSound {rows = rows} (start row new) v = record {
  distinct = Distinct-save token_key row rows v.distinct;
  single = λ f. start-single f row rows new (v.single f);
}
Change-IsSound {rows = rows} (rotate now old row i live same new) v = record {
  distinct =
      Distinct-save token_key _ (save token_key row rows)
        (Distinct-save token_key row rows v.distinct);
  single = λ f. rotate-single now f old row rows v.distinct i live same new (v.single f);
}

-- From a sound table, whatever the calls of the service and in whatever order, a rotation family
-- never has two live refresh tokens, when the identifiers that the calls draw are new.
pub one_live_token :
    (sec : Security) (k : ℕ) {a b : Accounts}
    → IsSound a.refresh_tokens
    → Reach sec k a b
    → IsSound b.refresh_tokens
one_live_token sec k v here = v
one_live_token sec k v (next {b} x r new) =
    Change-IsSound (act-Change sec k x b new) (one_live_token sec k v r)
