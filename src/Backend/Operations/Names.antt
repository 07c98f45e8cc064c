-- ===== src/Backend/Operations/Names.antt =====
-- Quoting a name.
use django_clickhouse_backen.Prelude.{
  ℕ, ◌≡◌, refl, Bool, true, false, ◌&&◌, [], ◌∷◌, ◌++◌, Text, arith, if_cases, any, any-append,
}
use django_clickhouse_backen.Backend.Operations.{
  double_quote, ends_quoted, starts_quoted, quote_name,
}

ends_quoted-append : (t : Text) → ends_quoted (t ++ double_quote ∷ []) ≡ true
unfolding ends_quoted
ends_quoted-append [] = refl
ends_quoted-append (c ∷ []) = refl
ends_quoted-append (c ∷ d ∷ t) = ends_quoted-append (d ∷ t)

ends_quoted-cons : (c : ℕ) (t : Text) → ends_quoted t ≡ true → ends_quoted (c ∷ t) ≡ true
unfolding ends_quoted
ends_quoted-cons c [] h = ground arith
ends_quoted-cons c (d ∷ t) h = h

-- A quoted name is in double quotes.
quote_name-Quoted : (n : Text) → (starts_quoted (quote_name n) && ends_quoted (quote_name n)) ≡ true
unfolding quote_name starts_quoted
quote_name-Quoted n =
    if_cases (λ (t : Text). (starts_quoted t && ends_quoted t) ≡ true)
      (starts_quoted n && ends_quoted n) (λ h. h)
      (λ h.
        ground
          (arith, ends_quoted-append n, ends_quoted-cons double_quote (n ++ double_quote ∷ [])))

quote_name-fixed : (t : Text) → (starts_quoted t && ends_quoted t) ≡ true → quote_name t ≡ t
unfolding quote_name
quote_name-fixed t h = ground arith

-- Every quoted name begins and ends with a double quote, and to quote it once more changes nothing.
pub quote_name-quote_name :
    (n : Text)
    → ((starts_quoted (quote_name n) && ends_quoted (quote_name n)) ≡ true)
      × (quote_name (quote_name n) ≡ quote_name n)
quote_name-quote_name n =
    (quote_name-Quoted n, quote_name-fixed (quote_name n) (quote_name-Quoted n))

-- What neither the name nor a double quote has, the quoted name does not have.
pub any-quote_name :
    (p : ℕ → Bool) (n : Text)
    → p double_quote ≡ false
    → any p n ≡ false
    → any p (quote_name n) ≡ false
unfolding quote_name
any-quote_name p n q h =
    if_cases (λ (t : Text). any p t ≡ false) (starts_quoted n && ends_quoted n) (λ _. h)
      (λ _. ground (arith, any-append p n (double_quote ∷ [])))
