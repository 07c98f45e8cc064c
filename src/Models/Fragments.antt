-- ===== src/Models/Fragments.antt =====
-- SQL with placeholders. A statement goes to the cursor as a text with `%s` in it and the values for
-- them in order; what is run is the text with each value put in.
use django_clickhouse_backen.Prelude.{
  ℕ, ◌≡◌, refl, sym, subst, ap, ◌∙◌, Bool, true, false, List, [], ◌∷◌, ◌++◌, map, append-nil,
  append_assoc, Text, codes, join, ◌==◌, arith, if◌then◌else◌, any, any-append, All,
}
use django_clickhouse_backen.Backend.Operations.{quote_name}
use django_clickhouse_backen.Backend.Operations.Names.{any-quote_name}

abbrev pub Fragment : Type 0 → Type 0
Fragment P = Text × List P

abbrev pub percent : ℕ
percent = b'%'

-- for _, params in fragments: result.extend(params)
unfoldable pub all_params : {P : Type 0} → List (Fragment P) → List P
all_params [] = []
all_params (f ∷ fs) = f.1 ++ all_params fs

-- Without percent signs.
unfoldable pub Plain : Text → Type 0
Plain s = any (λ c. c == percent) s ≡ false

module _ {P : Type 0} (put : P → Text) where
  -- sql % params, where `put` writes a value; the flag says that the last character was a percent
  -- sign that begins something.
  unfoldable pub fill : Bool → Text → List P → Text
  fill false [] ps = []
  fill false (c ∷ s) ps =
      let inside = fill true s ps in
      let outside = fill false s ps in if c == percent then inside else c ∷ outside
  fill true [] ps = []
  fill true (c ∷ s) [] = let rest = fill false s [] in if c == b's' then rest else c ∷ rest
  fill true (c ∷ s) (p ∷ ps) =
      let taken = fill false s ps in
      let kept = fill false s (p ∷ ps) in if c == b's' then put p ++ taken else c ∷ kept

  unfoldable pub text : Fragment P → Text
  text f = fill false f.0 f.1

  -- A text and its values that stand for an output, whatever follows them.
  unfoldable pub Renders : Text → List P → Text → Type 0
  Renders s ps out =
      (t : Text) (qs : List P) → fill false (s ++ t) (ps ++ qs) ≡ out ++ fill false t qs

  unfoldable pub Whole : Fragment P → Type 0
  unfolding text
  Whole f = Renders f.0 f.1 (text f)

  pub Renders-nil : Renders [] [] []
  unfolding Renders
  Renders-nil t qs = refl

  pub Renders-append :
      (s t : Text) (ps qs : List P) (x y : Text)
      → Renders s ps x
      → Renders t qs y
      → Renders (s ++ t) (ps ++ qs) (x ++ y)
  unfolding Renders
  Renders-append s t ps qs x y h k u rs =
      rw (append_assoc s t u, append_assoc ps qs rs)
        (h (t ++ u) (qs ++ rs)
          ∙ ap (λ z. x ++ z) (k u rs)
          ∙ sym (append_assoc x y (fill false u rs)))

  -- A text without percent signs stands for itself.
  pub Plain-Renders : (s : Text) → Plain s → Renders s [] s
  unfolding Plain Renders fill
  Plain-Renders [] h t qs = refl
  Plain-Renders (c ∷ s) h t qs = ground (arith, Plain-Renders s (ground arith) t qs)

  -- What a fragment stands for is determined.
  pub Renders-text : (s : Text) (ps : List P) (x : Text) → Renders s ps x → text (s, ps) ≡ x
  unfolding Renders text fill
  Renders-text s ps x h =
      ap (λ z. fill false z ps) (sym (append-nil s))
      ∙ ap (λ z. fill false (s ++ []) z) (sym (append-nil ps))
      ∙ h [] []
      ∙ append-nil x

  pub hole-Renders : (p : P) → Renders (codes "%s") (p ∷ []) (put p)
  unfolding Renders fill codes
  hole-Renders p t qs = refl

  pub Whole-Renders : (f : Fragment P) → Whole f → Renders f.0 f.1 (text f)
  unfolding Whole
  Whole-Renders f h = h

  -- Before and after a fragment, text without percent signs.
  pub Renders-between :
      (a b s : Text) (ps : List P) (x : Text)
      → Plain a
      → Plain b
      → Renders s ps x
      → Renders (a ++ (s ++ b)) ps (a ++ (x ++ b))
  Renders-between a b s ps x ha hb h =
      let inner = Renders-append s b ps [] x b h (Plain-Renders b hb) in
      let whole = Renders-append a (s ++ b) [] (ps ++ []) a (x ++ b) (Plain-Renders a ha) inner in
      subst (λ qs. Renders (a ++ (s ++ b)) qs (a ++ (x ++ b))) (append-nil ps) whole

  pub Renders-before :
      (a s : Text) (ps : List P) (x : Text)
      → Plain a
      → Renders s ps x
      → Renders (a ++ s) ps (a ++ x)
  Renders-before a s ps x ha h = Renders-append a s [] ps a x (Plain-Renders a ha) h

  pub Renders-after :
      (s b : Text) (ps : List P) (x : Text)
      → Plain b
      → Renders s ps x
      → Renders (s ++ b) ps (x ++ b)
  Renders-after s b ps x hb h =
      subst (λ qs. Renders (s ++ b) qs (x ++ b)) (append-nil ps)
        (Renders-append s b ps [] x b h (Plain-Renders b hb))

  -- The texts of fragments with a separator, and their values in order.
  pub join-Renders :
      (sep : Text) (fs : List (Fragment P))
      → Plain sep
      → All Whole fs
      → Renders (join sep (map (λ f. f.0) fs)) (all_params fs) (join sep (map text fs))
  unfolding join all_params Whole
  join-Renders sep [] h w = Renders-nil
  join-Renders sep (f ∷ []) h (w, _) =
      subst (λ qs. Renders f.0 qs (text f)) (sym (append-nil f.1)) w
  join-Renders sep (f ∷ g ∷ fs) h (w, ws) =
      Renders-append f.0 _ f.1 _ (text f) _ w
        (Renders-before sep _ _ _ h (join-Renders sep (g ∷ fs) h ws))

  pub Renders-Whole : (f : Fragment P) (x : Text) → Renders f.0 f.1 x → Whole f
  unfolding Whole
  Renders-Whole f x h = subst (Renders f.0 f.1) (sym (Renders-text f.0 f.1 x h)) h

pub Plain-append : (s t : Text) → Plain s → Plain t → Plain (s ++ t)
unfolding Plain
Plain-append s t hs ht = ground (arith, any-append (λ c. c == percent) s t)

pub quote_name-Plain : (n : Text) → Plain n → Plain (quote_name n)
unfolding Plain
quote_name-Plain n h = any-quote_name (λ c. c == percent) n refl h
