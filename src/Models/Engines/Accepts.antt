-- ===== src/Models/Engines/Accepts.antt =====
-- Which keys the MergeTree engines accept.
use django_clickhouse_backen.Prelude.{
  ◌≡◌, ◌≢◌, ◌↔◌, ◌⊎◌, inl, inr, subst, Option, none, All, any, refl, ap, ◌∙◌, true, false, ◌&&◌,
  some, List, [], ◌∷◌, ◌++◌, length, take, Text, same_iff, same_refl, arith, Option-cases,
}
use django_clickhouse_backen.Models.Settings.{
  Result, ok, Setting, then_do-ok, then_do, merge_tree_settings,
}
use django_clickhouse_backen.Models.Engines.{
  Argument, is_null, null, absent, single, iterable, name, value, object, arg_same, args_same, Key,
  Keys, KeyTuples, as_tuple, has_null, not_prefix, is_absent, check_keys, Func, Family, MergeTree,
  base_init, plain_init, engine_init, arity, max_arity, value_if_string, merge_tree, replacing,
  summing, aggregating, collapsing, versioned_collapsing, graphite,
}

arg_same_sound : (a b : Argument) → arg_same a b ≡ true → a ≡ b
arg_same_sound null null h = refl
arg_same_sound (name s) (name t) h = ground (arith, same_iff s t)
arg_same_sound (value s) (value t) h = ground (arith, same_iff s t)
arg_same_sound (object m) (object n) h = ground arith
arg_same_sound null (name t) h = ground arith
arg_same_sound null (value t) h = ground arith
arg_same_sound null (object n) h = ground arith
arg_same_sound (name s) null h = ground arith
arg_same_sound (name s) (value t) h = ground arith
arg_same_sound (name s) (object n) h = ground arith
arg_same_sound (value s) null h = ground arith
arg_same_sound (value s) (name t) h = ground arith
arg_same_sound (value s) (object n) h = ground arith
arg_same_sound (object m) null h = ground arith
arg_same_sound (object m) (name t) h = ground arith
arg_same_sound (object m) (value t) h = ground arith

arg_same_refl : (a : Argument) → arg_same a a ≡ true
arg_same_refl null = refl
arg_same_refl (name t) = same_refl t
arg_same_refl (value t) = same_refl t
arg_same_refl (object n) = ground arith

-- A list whose front, cut to the length of another, is that other, goes on from it.
prefix_sound :
    (p o : List Argument)
    → args_same (take (length p) o) p ≡ true
    → (rest : List Argument) × (o ≡ p ++ rest)
prefix_sound [] o h = (o, refl)
prefix_sound (a ∷ p) [] h = ([], ground arith)
prefix_sound (a ∷ p) (b ∷ o) h =
    let (rest, e) = prefix_sound p o (ground arith) in (rest, ground (arith, arg_same_sound b a))

prefix_complete : (p rest : List Argument) → args_same (take (length p) (p ++ rest)) p ≡ true
prefix_complete [] rest = refl
prefix_complete (a ∷ p) rest = ground (arith, arg_same_refl a, prefix_complete p rest)

-- The expressions of a key that is given: the one, or all of the iterable
pub Gives : Key → List Argument → Type 0
Gives absent as' = ⊥
Gives (single a) as' = as' ≡ a ∷ []
Gives (iterable xs) as' = as' ≡ xs

-- No expression of the key is None.
pub NoNull : Key → Type 0
NoNull absent = Unit
NoNull (single a) = a ≢ null
NoNull (iterable xs) = All (λ a. a ≢ null) xs

-- The tuple that is kept has the expressions of the key, and there is none of a key that is not given.
pub KeptAs : Key → Option (List Argument) → Type 0
KeptAs absent o = o ≡ none
KeptAs (single a) o = o ≡ some (a ∷ [])
KeptAs (iterable xs) o = o ≡ some xs

as_tuple-KeptAs : (k : Key) → KeptAs k (as_tuple k)
unfolding KeptAs
as_tuple-KeptAs absent = refl
as_tuple-KeptAs (single a) = refl
as_tuple-KeptAs (iterable xs) = refl

Gives-as_tuple : (k : Key) (xs : List Argument) → (as_tuple k ≡ some xs) ↔ Gives k xs
unfolding Gives
Gives-as_tuple absent xs = (λ h. cc, λ h. absurd h)
Gives-as_tuple (single a) xs = (λ h. cc, λ h. cc)
Gives-as_tuple (iterable ys) xs = (λ h. cc, λ h. cc)

not_null : (a : Argument) → (is_null a ≡ false) ↔ (a ≢ null)
not_null null = (λ h. absurd (ground arith), λ n. absurd (n refl))
not_null (name t) = (λ h e. ground arith, λ n. refl)
not_null (value t) = (λ h e. ground arith, λ n. refl)
not_null (object n) = (λ h e. ground arith, λ n. refl)

any-NoNull : (xs : List Argument) → (any is_null xs ≡ false) ↔ All (λ a. a ≢ null) xs
any-NoNull [] = (λ h. tt, λ h. refl)
any-NoNull (a ∷ xs) = (
  λ h. ((not_null a).0 (ground arith), (any-NoNull xs).0 (ground arith)),
  λ (p, q). let one = (not_null a).1 p in let others = (any-NoNull xs).1 q in ground arith,
)

has_null-NoNull : (k : Key) → (has_null (as_tuple k) ≡ false) ↔ NoNull k
unfolding has_null NoNull
has_null-NoNull absent = (λ h. tt, λ h. refl)
has_null-NoNull (single a) =
    (λ h. (not_null a).0 (ground arith), λ p. let one = (not_null a).1 p in ground arith)
has_null-NoNull (iterable xs) = any-NoNull xs

is_absent-Gives :
    (k l : Key)
    → ((is_absent k && is_absent l) ≡ false) ↔ ((xs : List Argument) × (Gives k xs ⊎ Gives l xs))
unfolding Gives is_absent
is_absent-Gives absent absent =
    (λ h. absurd (ground arith), λ (xs, g). elim g [ inl p ↦ absurd p | inr p ↦ absurd p ])
is_absent-Gives (single a) l = (λ h. (a ∷ [], inl refl), λ h. refl)
is_absent-Gives (iterable xs) l = (λ h. (xs, inl refl), λ h. refl)
is_absent-Gives absent (single a) = (λ h. (a ∷ [], inr refl), λ h. refl)
is_absent-Gives absent (iterable xs) = (λ h. (xs, inr refl), λ h. refl)

-- The primary key, where both keys are given, is a prefix of the sorting key.
pub Prefix : Key → Key → Type 0
Prefix order_by primary_key =
    (o p : List Argument)
    → Gives order_by o
    → Gives primary_key p
    → (rest : List Argument) × (o ≡ p ++ rest)

not_prefix-Prefix :
    (order_by primary_key : Key)
    → not_prefix (as_tuple order_by) (as_tuple primary_key) ≡ false
    → Prefix order_by primary_key
unfolding Prefix not_prefix
not_prefix-Prefix order_by primary_key h o p go gp =
    let eo = (Gives-as_tuple order_by o).1 go in
    let ep = (Gives-as_tuple primary_key p).1 gp in prefix_sound p o (ground arith)

Prefix-not_prefix :
    (order_by primary_key : Key)
    → Prefix order_by primary_key
    → not_prefix (as_tuple order_by) (as_tuple primary_key) ≡ false
unfolding Prefix not_prefix
Prefix-not_prefix order_by primary_key v = elim (Option-cases (as_tuple order_by)) [
  | inl e ↦ ground arith
  | inr (o, eo) ↦ elim (Option-cases (as_tuple primary_key)) [
    | inl e ↦ ground arith
    | inr (p, ep) ↦
        let (rest, e) =
          v o p ((Gives-as_tuple order_by o).0 eo) ((Gives-as_tuple primary_key p).0 ep) in
        ground (arith, prefix_complete p rest)
  ]
]

pub Valid : Keys → Type 0
Valid k =
    ((xs : List Argument) × (Gives k.order_by xs ⊎ Gives k.primary_key xs))
    × NoNull k.order_by
    × NoNull k.primary_key
    × NoNull k.partition_by
    × Prefix k.order_by k.primary_key

-- Each key is kept as a tuple of what was given.
pub Tuples : Keys → KeyTuples → Type 0
Tuples k t =
    KeptAs k.order_by t.order_by
    × KeptAs k.primary_key t.primary_key
    × KeptAs k.partition_by t.partition_by

tuples_of : Keys → KeyTuples
tuples_of k = record {
  order_by = as_tuple k.order_by;
  partition_by = as_tuple k.partition_by;
  primary_key = as_tuple k.primary_key;
}

check_keys-tuples :
    (k : Keys) (t : KeyTuples)
    → check_keys k ≡ ok t
    → ((is_absent k.order_by && is_absent k.primary_key) ≡ false)
      × (has_null (as_tuple k.order_by) ≡ false)
      × (has_null (as_tuple k.primary_key) ≡ false)
      × (has_null (as_tuple k.partition_by) ≡ false)
      × (not_prefix (as_tuple k.order_by) (as_tuple k.primary_key) ≡ false)
      × (tuples_of k ≡ t)
unfolding check_keys tuples_of
check_keys-tuples k t e =
    (ground arith, ground arith, ground arith, ground arith, ground arith, ground arith)

-- The keys of a MergeTree engine are accepted exactly when order_by or primary_key is given, None
-- is in no key, and the primary key, where both are given, is a prefix of order_by.
pub check_keys-Valid : (k : Keys) → ((t : KeyTuples) × (check_keys k ≡ ok t)) ↔ Valid k
unfolding check_keys Valid
check_keys-Valid k = (
  (λ te.
      let (a, b, c, d, q, _) = check_keys-tuples k te.0 te.1 in
      (
        (is_absent-Gives k.order_by k.primary_key).0 a,
        (has_null-NoNull k.order_by).0 b,
        (has_null-NoNull k.primary_key).0 c,
        (has_null-NoNull k.partition_by).0 d,
        not_prefix-Prefix k.order_by k.primary_key q,
      )),
  (λ (a, b, c, d, q).
      let a' = (is_absent-Gives k.order_by k.primary_key).1 a in
      let b' = (has_null-NoNull k.order_by).1 b in
      let c' = (has_null-NoNull k.primary_key).1 c in
      let d' = (has_null-NoNull k.partition_by).1 d in
      let n = Prefix-not_prefix k.order_by k.primary_key q in
      (
        record {
          order_by = as_tuple k.order_by;
          partition_by = as_tuple k.partition_by;
          primary_key = as_tuple k.primary_key;
        },
        ground arith,
      )),
)

check_keys-Tuples : (k : Keys) (t : KeyTuples) → check_keys k ≡ ok t → Tuples k t
unfolding Tuples tuples_of
check_keys-Tuples k t e =
    let (_, _, _, _, _, same_tuples) = check_keys-tuples k t e in
    subst (Tuples k) same_tuples
      (as_tuple-KeptAs k.order_by, as_tuple-KeptAs k.primary_key, as_tuple-KeptAs k.partition_by)

base_init-keys :
    (F : Func) (c : Family) (expressions : List Argument) (k : Keys)
    (settings : List (Text × Setting)) (t : MergeTree)
    → base_init F c expressions k settings ≡ ok t
    → check_keys k ≡ ok t.keys
unfolding base_init
base_init-keys F c expressions k settings t h =
    let (keys, e, h1) =
      then_do-ok (check_keys k)
        (λ keys.
          then_do (engine_init F (arity c) (max_arity c) merge_tree_settings expressions settings)
            (λ g. ok (record { engine = g; keys = keys })))
        t h in
    let (engine, e1, h2) =
      then_do-ok (engine_init F (arity c) (max_arity c) merge_tree_settings expressions settings)
        (λ g. ok (record { engine = g; keys = keys })) t h1 in
    e ∙ ap (λ (r : Result MergeTree). then_do r (λ m. ok m.keys)) h2

plain_init-base :
    (F : Func) (c : Family) (expressions : List Argument) (k : Keys)
    (settings : List (Text × Setting)) (t : MergeTree)
    → plain_init F c expressions k settings ≡ ok t
    → (passed : List Argument) × (base_init F c passed k settings ≡ ok t)
unfolding plain_init
plain_init-base F graphite (a ∷ []) k settings t h = (value_if_string a ∷ [], h)
plain_init-base F graphite [] k settings t h = ([], ground arith)
plain_init-base F graphite (a ∷ b ∷ rest) k settings t h = ([], ground arith)
plain_init-base F merge_tree expressions k settings t h = (expressions, h)
plain_init-base F replacing expressions k settings t h = (expressions, h)
plain_init-base F summing expressions k settings t h = (expressions, h)
plain_init-base F aggregating expressions k settings t h = (expressions, h)
plain_init-base F collapsing expressions k settings t h = (expressions, h)
plain_init-base F versioned_collapsing expressions k settings t h = (expressions, h)

-- A MergeTree engine, of whatever class of the family, is only ever made with keys that are valid:
-- order_by or primary_key is given, None is in none, and the primary key is a prefix of order_by. It
-- keeps each key that is given as the tuple of its expressions, and None for each other.
pub plain_init-Valid :
    (F : Func) (c : Family) (expressions : List Argument) (k : Keys)
    (settings : List (Text × Setting)) (t : MergeTree)
    → plain_init F c expressions k settings ≡ ok t
    → Valid k × Tuples k t.keys
plain_init-Valid F c expressions k settings t h =
    let (passed, b) = plain_init-base F c expressions k settings t h in
    let e = base_init-keys F c passed k settings t b in
    ((check_keys-Valid k).0 (t.keys, e), check_keys-Tuples k t.keys e)
