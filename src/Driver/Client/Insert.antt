-- ===== src/Driver/Client/Insert.antt =====
-- Which texts the pattern of the client takes for an INSERT with data.
use django_clickhouse_backen.Prelude.{
  ℕ, ◌≡◌, refl, Bool, true, false, not, ◌&&◌, ◌||◌, [], ◌∷◌, ◌++◌, Option, none, some, Text, codes,
  any, is_space, leb, ◌==◌, arith, Option-cases, inl, inr, sym, subst, if_cases, ==_iff,
}
use django_clickhouse_backen.Driver.Client.{
  after_word, skip_spaces, then_values, then_into, at_end, ends_values, some_values, spaces_into,
  is_insert,
}

-- The last character is a closing bracket.
unfoldable pub closed : Text → Bool
closed [] = false
closed (c ∷ []) = c == b')'
closed (c ∷ d ∷ s) = closed (d ∷ s)

no_end : (a b : Bool) → ((a && b) && false) ≡ false
no_end a b = ground arith

not_here : (a : Bool) → ((a && false) && true) ≡ false
not_here a = ground arith

never : (a : Bool) → (a && false) ≡ false
never a = ground arith

before_bracket : (c : ℕ) → at_end (c ∷ b')' ∷ []) ≡ false
unfolding at_end
before_bracket c = if_cases (λ b. b ≡ false) (is_space c) (λ _. refl) (λ _. not_here (c == b';'))

pub closed-append : (s t : Text) → closed t ≡ true → closed (s ++ t) ≡ true
unfolding closed
closed-append [] t h = h
closed-append (c ∷ []) [] h = ground arith
closed-append (c ∷ []) (d ∷ t) h = h
closed-append (c ∷ d ∷ s) t h = closed-append (d ∷ s) t h

at_end-closed : (s : Text) → closed s ≡ true → at_end s ≡ false
unfolding at_end closed
at_end-closed [] h = ground arith
at_end-closed (c ∷ []) h = subst (λ x. at_end (x ∷ []) ≡ false) (sym ((==_iff c b')').0 h)) refl
at_end-closed (c ∷ d ∷ []) h =
    subst (λ x. at_end (c ∷ x ∷ []) ≡ false) (sym ((==_iff d b')').0 h)) (before_bracket c)
at_end-closed (c ∷ d ∷ e ∷ s) h =
    if_cases (λ b. b ≡ false) (is_space c) (λ _. at_end-closed (d ∷ e ∷ s) h)
      (λ _. no_end (c == b';') (d == 10))

-- The words of the pattern have small letters.
is_word : Text → Bool
is_word [] = true
is_word (d ∷ word) = leb b'a' d && leb d b'z' && is_word word

at_bracket :
    (d : ℕ) (word t : Text)
    → is_word (d ∷ word) ≡ true
    → after_word (d ∷ word) (b')' ∷ []) ≡ some t
    → closed t ≡ true
unfolding after_word is_word
at_bracket d word t w e = ground arith

after_word-closed :
    (word s t : Text)
    → is_word word ≡ true
    → closed s ≡ true
    → after_word word s ≡ some t
    → closed t ≡ true
unfolding after_word closed is_word
after_word-closed [] s t w h e = ground arith
after_word-closed (d ∷ word) [] t w h e = ground arith
after_word-closed (d ∷ word) (c ∷ []) t w h e =
    at_bracket d word t w
      (subst (λ x. after_word (d ∷ word) (x ∷ []) ≡ some t) ((==_iff c b')').0 h) e)
after_word-closed (d ∷ word) (c ∷ f ∷ s) t w h e = ground (arith, after_word-closed word (f ∷ s) t)

ends_values-closed : (s : Text) → closed s ≡ true → ends_values s ≡ false
unfolding ends_values is_word codes
ends_values-closed s h = elim (Option-cases (after_word (codes "values") s)) [
  | inl e ↦ rw e refl
  | inr (t, e) ↦ rw e (at_end-closed t (after_word-closed (codes "values") s t refl h e))
]

some_values-closed : (s : Text) → closed s ≡ true → some_values s ≡ false
unfolding some_values closed ends_values after_word codes
some_values-closed [] h = refl
some_values-closed (c ∷ []) h = never (not (c == 10))
some_values-closed (c ∷ d ∷ s) h =
    ground (arith, some_values-closed (d ∷ s), ends_values-closed (d ∷ s))

then_values-closed :
    (o : Option Text) → ((t : Text) → o ≡ some t → closed t ≡ true) → then_values o ≡ false
unfolding then_values
then_values-closed none h = refl
then_values-closed (some t) h = some_values-closed t (h t refl)

none_of : (a b c : Bool) → b ≡ false → c ≡ false → (a && (b || c)) ≡ false
none_of a b c hb hc = ground arith

into_closed : (s : Text) → closed s ≡ true → then_values (after_word (codes "into") s) ≡ false
unfolding is_word codes
into_closed s h =
    then_values-closed (after_word (codes "into") s)
      (λ t e. after_word-closed (codes "into") s t refl h e)

spaces_into-closed : (s : Text) → closed s ≡ true → spaces_into s ≡ false
unfolding spaces_into closed after_word then_values codes
spaces_into-closed [] h = refl
spaces_into-closed (c ∷ []) h = none_of (is_space c) false false refl refl
spaces_into-closed (c ∷ d ∷ s) h =
    none_of (is_space c) (spaces_into (d ∷ s)) (then_values (after_word (codes "into") (d ∷ s)))
      (spaces_into-closed (d ∷ s) h) (into_closed (d ∷ s) h)

skip_spaces-closed : (s : Text) → closed s ≡ true → closed (skip_spaces s) ≡ true
unfolding skip_spaces closed
skip_spaces-closed [] h = h
skip_spaces-closed (c ∷ []) h =
    subst (λ x. closed (skip_spaces (x ∷ [])) ≡ true) (sym ((==_iff c b')').0 h)) refl
skip_spaces-closed (c ∷ d ∷ s) h =
    if_cases (λ t. closed t ≡ true) (is_space c) (λ _. skip_spaces-closed (d ∷ s) h) (λ _. h)

then_into-closed :
    (o : Option Text) → ((t : Text) → o ≡ some t → closed t ≡ true) → then_into o ≡ false
unfolding then_into
then_into-closed none h = refl
then_into-closed (some t) h = spaces_into-closed t (h t refl)

-- A text that ends with a bracket is no INSERT with data.
pub is_insert-closed : (s : Text) → closed s ≡ true → is_insert s ≡ false
unfolding is_insert is_word codes
is_insert-closed s h =
    then_into-closed (after_word (codes "insert") (skip_spaces s))
      (λ t e. after_word-closed (codes "insert") (skip_spaces s) t refl (skip_spaces-closed s h) e)

go_on : (c : ℕ) (a b : Bool) → (c == 10) ≡ false → b ≡ true → (not (c == 10) && (a || b)) ≡ true
go_on c a b h e = ground arith

any_false : (a b : Bool) → (a || b) ≡ false → (a ≡ false) × (b ≡ false)
any_false a b h = (ground arith, ground arith)

some_values_at_end :
    (c : ℕ) (x : Text)
    → any (λ d. d == 10) (c ∷ x) ≡ false
    → some_values (c ∷ (x ++ codes " VALUES")) ≡ true
unfolding some_values codes
some_values_at_end c [] h = ground arith
some_values_at_end c (d ∷ x) h =
    go_on c (ends_values (d ∷ (x ++ codes " VALUES"))) (some_values (d ∷ (x ++ codes " VALUES")))
      (any_false (c == 10) (any (λ e. e == 10) (d ∷ x)) h).0
      (some_values_at_end d x (any_false (c == 10) (any (λ e. e == 10) (d ∷ x)) h).1)

-- An INSERT that names its columns and stops at VALUES is one with data.
pub is_insert_at_end :
    (c : ℕ) (x : Text)
    → any (λ d. d == 10) (c ∷ x) ≡ false
    → is_insert (codes "INSERT INTO" ++ (c ∷ (x ++ codes " VALUES"))) ≡ true
unfolding is_insert skip_spaces after_word then_into spaces_into then_values codes
is_insert_at_end c x h = some_values_at_end c x h
