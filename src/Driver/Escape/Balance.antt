-- ===== src/Driver/Escape/Balance.antt =====
-- Every escaped parameter, however nested, opens and closes its string literals.
use mathlib.Core.List.{flat_map}
use django_clickhouse_backen.Prelude.{
  ℕ, ◌≡◌, ◌≢◌, refl, List, [], ◌∷◌, ◌++◌, All, Text, codes, join, arith, ◌==◌, if◌then◌else◌,
}
use django_clickhouse_backen.Driver.Escape.{Day, format_day, quote, backslash, enclose}

-- Where a character of a query stands: outside of literals, inside one, or behind a backslash in one.
pub data Place : Type 0 where
  outside inside escaped : Place

unfoldable pub advance : Place → ℕ → Place
advance outside c = if c == quote then inside else outside
advance inside c = if c == quote then outside else if c == backslash then escaped else inside
advance escaped c = inside

unfoldable pub scan : Place → Text → Place
unfolding advance
scan p [] = p
scan p (c ∷ s) = scan (advance p c) s

pub scan-append : (p : Place) (s t : Text) → scan p (s ++ t) ≡ scan (scan p s) t
unfolding scan
scan-append p [] t = refl
scan-append p (c ∷ s) t = scan-append (advance p c) s t

abbrev pub Balanced : Text → Type 0
Balanced t = scan outside t ≡ outside

abbrev pub Inner : Text → Type 0
Inner t = scan inside t ≡ inside

pub enclose-Balanced : (t : Text) → Inner t → Balanced (enclose t)
unfolding scan
enclose-Balanced t h = rw (scan-append inside t (quote ∷ []), h)

pub flat_map-Inner : (f : ℕ → Text) (s : Text) → ((c : ℕ) → Inner (f c)) → Inner (flat_map f s)
unfolding flat_map scan
flat_map-Inner f [] h = refl
flat_map-Inner f (c ∷ s) h =
    rw (scan-append inside (f c) (flat_map f s), h c) (flat_map-Inner f s h)

pub join-Balanced : (ts : List Text) → All Balanced ts → Balanced (join (codes ",") ts)
unfolding join codes scan
join-Balanced [] h = refl
join-Balanced (t ∷ []) h = h.0
join-Balanced (t ∷ u ∷ ts) h =
    rw (scan-append outside t (codes "," ++ join (codes ",") (u ∷ ts)), h.0)
      (join-Balanced (u ∷ ts) h.1)

pub wrap-Balanced :
    (front back t : Text)
    → Balanced front
    → Balanced back
    → Balanced t
    → Balanced (front ++ (t ++ back))
wrap-Balanced front back t hf hb ht =
    rw (scan-append outside front (t ++ back), hf, scan-append outside t back, ht) hb

-- Text without a quote, and without a backslash either.
abbrev pub Unquoted : Text → Type 0
Unquoted = All (λ c. c ≢ quote)

abbrev pub Bare : Text → Type 0
Bare = All (λ c. (c ≢ quote) × (c ≢ backslash))

pub Unquoted-Balanced : (t : Text) → Unquoted t → Balanced t
unfolding scan
Unquoted-Balanced [] h = refl
Unquoted-Balanced (c ∷ t) h = ground (arith, h.0, Unquoted-Balanced t h.1)

pub Bare-Inner : (t : Text) → Bare t → Inner t
unfolding scan
Bare-Inner [] h = refl
Bare-Inner (c ∷ t) h = ground (arith, h.0, Bare-Inner t h.1)

pub format_day-Inner : (d : Day) → Inner (format_day d)
unfolding format_day scan
format_day-Inner d = ground arith
