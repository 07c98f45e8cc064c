-- ===== src/Migrations/Recorder/Rows.antt =====
-- How the statements of the recorder change what the rows say.
use django_clickhouse_backen.Prelude.{
  ◌≡◌, Bool, true, false, not, ◌&&◌, ◌||◌, List, [], ◌∷◌, map, any, filter, Text, same, same_iff,
  arith, if◌then◌else◌, if_cases,
}
use django_clickhouse_backen.Migrations.Connection.{Connection}
use django_clickhouse_backen.Migrations.Recorder.{Row, matches, in_qs}

-- Whether two migrations are the same.
abbrev pub same_migration : Text → Text → Text → Text → Bool
same_migration app name a n = same app a && same name n

pub matches-same :
    (app name a n : Text) (row : Row)
    → matches app name row ≡ true
    → matches a n row ≡ same_migration app name a n
unfolding matches
matches-same app name a n row h = ground (arith, same_iff row.app app, same_iff row.name name)

pub matches-agree :
    (app name a n : Text) (row : Row)
    → same_migration app name a n ≡ true
    → matches a n row ≡ matches app name row
unfolding matches
matches-agree app name a n row h = ground (
  arith,
  same_iff app a,
  same_iff name n,
  same_iff row.app app,
  same_iff row.name name,
  same_iff row.app a,
  same_iff row.name n,
)

-- Whether a row makes a migration count as applied.
unfoldable pub counts : Connection → Text → Text → Row → Bool
unfolding in_qs matches
counts c a n row = in_qs c row && matches a n row

unfoldable pub revived : Text → Text → Row → Row
revived app name row = if matches app name row then record row { deleted = false } else row

unfoldable pub buried : Connection → Text → Text → Row → Row
buried c app name row = if counts c app name row then record row { deleted = true } else row

pub revived-counts :
    (c : Connection) (app name a n : Text) (row : Row)
    → counts c a n (revived app name row)
      ≡ ((same_migration app name a n && matches app name row) || counts c a n row)
unfolding counts revived matches in_qs
revived-counts c app name a n row = ground (arith, matches-same app name a n row)

pub any-revived :
    (c : Connection) (app name a n : Text) (rows : List Row)
    → any (counts c a n) (map (revived app name) rows)
      ≡ ((same_migration app name a n && any (matches app name) rows) || any (counts c a n) rows)
any-revived c app name a n [] = ground arith
any-revived c app name a n (row ∷ rows) =
    ground (arith, revived-counts c app name a n row, any-revived c app name a n rows)

pub buried-counts :
    (c : Connection) (app name a n : Text) (row : Row)
    → c.is_clickhouse ≡ true
    → counts c a n (buried c app name row) ≡ (not (same_migration app name a n) && counts c a n row)
unfolding counts buried matches in_qs
buried-counts c app name a n row h =
    if_cases (λ row'. counts c a n row' ≡ (not (same_migration app name a n) && counts c a n row))
      (counts c app name row) (λ e. ground (arith, matches-same app name a n row))
      (λ e. ground (arith, matches-agree app name a n row))

pub any-buried :
    (c : Connection) (app name a n : Text) (rows : List Row)
    → c.is_clickhouse ≡ true
    → any (counts c a n) (map (buried c app name) rows)
      ≡ (not (same_migration app name a n) && any (counts c a n) rows)
any-buried c app name a n [] h = ground arith
any-buried c app name a n (row ∷ rows) h =
    ground (arith, buried-counts c app name a n row h, any-buried c app name a n rows h)

pub any-deleted :
    (c : Connection) (app name a n : Text) (rows : List Row)
    → any (counts c a n) (filter (λ row. not (matches app name row)) rows)
      ≡ (not (same_migration app name a n) && any (counts c a n) rows)
unfolding counts
any-deleted c app name a n [] = ground arith
any-deleted c app name a n (row ∷ rows) =
    if_cases
      (λ rest.
        any (counts c a n) rest
        ≡ (not (same_migration app name a n) && (counts c a n row || any (counts c a n) rows)))
      (not (matches app name row))
      (λ e. ground (arith, matches-agree app name a n row, any-deleted c app name a n rows))
      (λ e. ground (arith, matches-same app name a n row, any-deleted c app name a n rows))
