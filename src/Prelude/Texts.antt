-- ===== src/Prelude/Texts.antt =====
-- Text as its list of code points, with the string methods of Python that the sources call.
use Prim.Native.Nat.{ℕ}
use Prim.Native.Char.{code}
use Prim.Native.String.{String}
use mathlib.Core.Path.{◌≡◌, refl}
use mathlib.Core.Logic.{◌↔◌}
use mathlib.Core.Bool.{Bool, true, false, ◌&&◌, ◌||◌}
use mathlib.Core.List.{List, [], ◌∷◌, ◌++◌}
use native.Mathlib.Omega.{arith}
use django_clickhouse_backen.Prelude.Tests.{◌==◌, leb, if◌then◌else◌}

abbrev pub Text : Type 0
Text = List ℕ

-- The code points of a literal.
unfoldable pub codes : String → Text
codes String.[] = []
codes (String.◌∷◌ c s) = code c ∷ codes s

-- s == t
unfoldable pub same : Text → Text → Bool
same [] [] = true
same [] (d ∷ t) = false
same (c ∷ s) [] = false
same (c ∷ s) (d ∷ t) = (c == d) && same s t

pub same_sound : (s t : Text) → same s t ≡ true → s ≡ t
unfolding same
same_sound [] [] h = refl
same_sound [] (d ∷ t) h = ground arith
same_sound (c ∷ s) [] h = ground arith
same_sound (c ∷ s) (d ∷ t) h = ground (arith, same_sound s t)

pub same_refl : (s : Text) → same s s ≡ true
unfolding same
same_refl [] = refl
same_refl (c ∷ s) = ground (arith, same_refl s)

pub same_iff : (s t : Text) → (same s t ≡ true) ↔ (s ≡ t)
same_iff s t = (same_sound s t, λ e. rw e (same_refl t))

-- s.startswith(p)
unfoldable pub starts_with : Text → Text → Bool
starts_with s [] = true
starts_with [] (d ∷ p) = false
starts_with (c ∷ s) (d ∷ p) = (c == d) && starts_with s p

pub starts_with-append : (p t : Text) → starts_with (p ++ t) p ≡ true
unfolding starts_with
starts_with-append [] [] = refl
starts_with-append [] (c ∷ t) = refl
starts_with-append (c ∷ p) t = ground (arith, starts_with-append p t)

-- sep.join(parts)
unfoldable pub join : Text → List Text → Text
join sep [] = []
join sep (p ∷ []) = p
join sep (p ∷ q ∷ ps) = p ++ (sep ++ join sep (q ∷ ps))

-- s in keys, for a set or a tuple of texts
unfoldable pub contains : Text → List Text → Bool
contains s [] = false
contains s (k ∷ ks) = if same s k then true else contains s ks

-- c.isspace(), which is also the `\s` of a regular expression
abbrev pub is_space : ℕ → Bool
is_space c =
    c == 32
    || (leb 9 c && leb c 13)
    || (leb 28 c && leb c 31)
    || c == 133
    || c == 160
    || c == 5760
    || (leb 8192 c && leb c 8202)
    || c == 8232
    || c == 8233
    || c == 8239
    || c == 8287
    || c == 12288
