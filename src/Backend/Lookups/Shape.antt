-- ===== src/Backend/Lookups/Shape.antt =====
-- What surrounds the expressions in the SQL of lookups and dates.
use django_clickhouse_backen.Prelude.{
  ◌⊎◌, inl, inr, leb, map, ◌&&◌, some, ℕ, ◌≡◌, ◌+◌, refl, ◌||◌, [], ◌∷◌, ◌++◌, Text, codes, same,
  contains, count, count-append, arith, if◌then◌else◌, if_cases,
}
use django_clickhouse_backen.Backend.Operations.Explain.{percent}
use django_clickhouse_backen.Backend.Lookups.{
  text_lookups, text_cast, lookup_cast, capitalize, call, date_extract_sql, zone, with_zone,
  datetime_cast_date_sql, date_trunc_sql, datetime_extract_sql,
}

text_cast-count : (t : Text) → count percent (text_cast t) ≡ 1
unfolding text_cast codes
text_cast-count t =
    if_cases (λ (u : Text). count percent u ≡ 1)
      (same t (codes "IPAddressField") || same t (codes "IPv4Field")) (λ h. refl)
      (λ h.
        if_cases (λ (u : Text). count percent u ≡ 1) (same t (codes "IPv6Field")) (λ h. refl)
          (λ h.
            if_cases (λ (u : Text). count percent u ≡ 1) (same t (codes "GenericIPAddressField"))
              (λ h. refl)
              (λ h.
                if_cases (λ (u : Text). count percent u ≡ 1)
                  (contains t (codes "EnumField" ∷ codes "Enum8Field" ∷ codes "Enum16Field" ∷ []))
                  (λ h. refl) (λ h. refl))))

upper-count :
    (t : Text) → count percent t ≡ 1 → count percent (codes "UPPER(" ++ (t ++ codes ")")) ≡ 1
unfolding codes
upper-count t h = ground (arith, count-append percent t (codes ")"))

-- Whatever the lookup and the field, the cast has one percent sign, that of the placeholder for the
-- left side, which Django fills in.
pub lookup_cast-count :
    (lookup_type internal_type : Text) → count percent (lookup_cast lookup_type internal_type) ≡ 1
unfolding lookup_cast codes
lookup_cast-count l i =
    let cast =
      if_cases (λ (u : Text). count percent u ≡ 1) (contains l text_lookups) {x = text_cast i}
        {y = codes "%s"} (λ h. text_cast-count i) (λ h. refl) in
    if_cases (λ (u : Text). count percent u ≡ 1) (same l (codes "iexact")) (λ h. upper-count _ cast)
      (λ h. cast)

-- As many opening parentheses as closing ones.
unfoldable pub Even : Text → Type 0
Even t = count b'(' t ≡ count b')' t

lower-count :
    (t : Text) (c : ℕ)
    → (c ≡ b'(') ⊎ (c ≡ b')')
    → count c (map (λ d. if leb b'A' d && leb d b'Z' then d + 32 else d) t) ≡ count c t
lower-count [] c h = refl
lower-count (d ∷ t) c h = ground (arith, lower-count t c h)

capitalize-count :
    (t : Text)
    → (count b'(' (capitalize t) ≡ count b'(' t) × (count b')' (capitalize t) ≡ count b')' t)
unfolding capitalize
capitalize-count [] = (refl, refl)
capitalize-count (c ∷ t) =
    (ground (arith, lower-count t b'(' (inl refl)), ground (arith, lower-count t b')' (inr refl)))

append-Even : (s t : Text) → Even s → Even t → Even (s ++ t)
unfolding Even
append-Even s t hs ht = ground (arith, count-append b'(' s t, count-append b')' s t)

call-Even : (f sql : Text) → Even f → Even sql → Even (call f sql)
unfolding Even codes
call-Even f sql hf hs = ground (
  arith,
  count-append b'(' f (codes "(" ++ (sql ++ codes ")")),
  count-append b')' f (codes "(" ++ (sql ++ codes ")")),
  count-append b'(' sql (codes ")"),
  count-append b')' sql (codes ")"),
)

capitalize-Even : (f t : Text) → Even f → Even t → Even (f ++ capitalize t)
unfolding Even
capitalize-Even f t hf ht =
    let (o, c) = capitalize-count t in append-Even f (capitalize t) hf (ground arith)

week_day-Even :
    (sql : Text) → Even sql → Even (codes "modulo(toDayOfWeek(" ++ (sql ++ codes "), 7) + 1"))
unfolding Even codes
week_day-Even sql h =
    ground
      (arith, count-append b'(' sql (codes "), 7) + 1"), count-append b')' sql (codes "), 7) + 1"))

date_extract_sql-Even : (l sql : Text) → Even l → Even sql → Even (date_extract_sql l sql)
unfolding date_extract_sql Even codes
date_extract_sql-Even l sql hl hs =
    if_cases Even (same l (codes "iso_year")) (λ h. call-Even (codes "toISOYear") sql refl hs)
      (λ h.
        if_cases Even (same l (codes "day")) (λ h. call-Even (codes "toDayOfMonth") sql refl hs)
          (λ h.
            if_cases Even (same l (codes "week")) (λ h. call-Even (codes "toISOWeek") sql refl hs)
              (λ h.
                if_cases Even (same l (codes "week_day")) (λ h. week_day-Even sql hs)
                  (λ h.
                    if_cases Even (same l (codes "iso_week_day"))
                      (λ h. call-Even (codes "toDayOfWeek") sql refl hs)
                      (λ h.
                        call-Even (codes "to" ++ capitalize l) sql
                          (capitalize-Even (codes "to") l refl hl) hs)))))

with_zone-Even : (sql tz : Text) → Even sql → Even tz → Even (with_zone sql tz)
unfolding Even codes
with_zone-Even sql tz hs hz =
    append-Even sql (codes ", '" ++ (tz ++ codes "'")) hs
      (append-Even (codes ", '") (tz ++ codes "'") refl (append-Even tz (codes "'") hz refl))

zone-Even : (default tz : Text) → Even default → Even tz → Even (zone default tz)
zone-Even default [] hd hz = hd
zone-Even default (c ∷ t) hd hz = hz

date_trunc_sql-Even :
    (default l sql tz : Text)
    → Even default
    → Even l
    → Even sql
    → Even tz
    → Even (date_trunc_sql default l sql tz)
unfolding date_trunc_sql datetime_cast_date_sql Even codes
date_trunc_sql-Even default l sql tz hd hl hs hz =
    let z = zone default tz in
    let date =
      call-Even (codes "toDate") (with_zone sql z) refl
        (with_zone-Even sql z hs (zone-Even default tz hd hz)) in
    if_cases Even (same l (codes "day")) (λ h. date)
      (λ h.
        call-Even (codes "toStartOf" ++ capitalize l) (call (codes "toDate") (with_zone sql z))
          (capitalize-Even (codes "toStartOf") l refl hl) date)

zone_name : Even (codes "toTimeZone")
unfolding Even codes
zone_name = refl

-- The SQL of the functions that extract from a date or a datetime and that truncate them, around an
-- expression with as many opening parentheses as closing ones, has as many of the one as of the
-- other, if that holds for the names of the lookup and of the time zones.
pub dates-Even :
    (default l sql tz : Text)
    → Even default
    → Even l
    → Even sql
    → Even tz
    → Even (date_extract_sql l sql)
      × Even (datetime_extract_sql l sql (some tz))
      × Even (date_trunc_sql default l sql tz)
unfolding datetime_extract_sql
dates-Even default l sql tz hd hl hs hz = (
  date_extract_sql-Even l sql hl hs,
  date_extract_sql-Even l (call (codes "toTimeZone") (with_zone sql tz)) hl
      (call-Even (codes "toTimeZone") (with_zone sql tz) zone_name (with_zone-Even sql tz hs hz)),
  date_trunc_sql-Even default l sql tz hd hl hs hz,
)
