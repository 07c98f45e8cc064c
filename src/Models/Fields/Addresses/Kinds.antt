-- ===== src/Models/Fields/Addresses/Kinds.antt =====
-- A prepared address has the type of the column.
use django_clickhouse_backen.Prelude.{
  ℕ, ◌+◌, ◌*◌, ◌/◌, ◌%◌, ◌^◌, ◌<◌, ◌≡◌, refl, Bool, true, false, Option, none, some, ◌==◌, Text,
  same, codes, if◌then◌else◌, arith,
}
use django_clickhouse_backen.Models.Fields.Addresses.{
  Address, ipv4_address, ipv6_address, Value, none_value, text, address, other, Library, Prepared,
  ok, validation_error, mapped, ipv4_mapped, AddressField, ipv4_field, ipv6_field, generic_field,
  made_ipv4, prepare_ipv4, as_ipv6, prepare_ipv6, by_protocol, prepare_generic, get_prep_value,
  unpacked, from_db_value, db_type,
}

abbrev pub type_of : Address → Text
type_of (ipv4_address n) = codes "IPv4"
type_of (ipv6_address n) = codes "IPv6"

ipv4_mapped_lem : (n : ℕ) → n < 2 ^ 32 → ipv4_mapped (0xffff * 2 ^ 32 + n) ≡ some n
unfolding ipv4_mapped
ipv4_mapped_lem n h =
    let high : ((0xffff * 2 ^ 32 + n) / 2 ^ 32 == 0xffff) ≡ true = ground arith in
    let low : (0xffff * 2 ^ 32 + n) % 2 ^ 32 ≡ n = omega arith in ground arith

module _ {X : Type 0} (lib : Library X) where
  Typed : AddressField → Prepared X → Type 0
  Typed f r = (a : Address) → r ≡ ok (address a) → type_of a ≡ db_type f

  made-Typed : (o : Option ℕ) → Typed ipv4_field (made_ipv4 lib o)
  unfolding Typed made_ipv4 db_type
  made-Typed none a h = cc
  made-Typed (some n) (ipv4_address m) h = refl
  made-Typed (some n) (ipv6_address m) h = cc

  ipv4-Typed : (v : Value X) → Typed ipv4_field (prepare_ipv4 lib v)
  unfolding Typed prepare_ipv4 db_type
  ipv4-Typed none_value a h = cc
  ipv4-Typed (text t) a h = made-Typed (lib.ipv4_of_text t) a h
  ipv4-Typed (other x) a h = made-Typed (lib.ipv4_of_other x) a h
  ipv4-Typed (address (ipv4_address n)) (ipv4_address m) h = refl
  ipv4-Typed (address (ipv4_address n)) (ipv6_address m) h = cc
  ipv4-Typed (address (ipv6_address n)) a h = cc

  as_ipv6-Typed : (b : Address) → Typed ipv6_field (ok (as_ipv6 lib b))
  unfolding Typed as_ipv6 db_type
  as_ipv6-Typed b (ipv6_address m) h = refl
  as_ipv6-Typed (ipv4_address n) (ipv4_address m) h = cc
  as_ipv6-Typed (ipv6_address n) (ipv4_address m) h = cc

  ipv6-Typed : (v : Value X) → Typed ipv6_field (prepare_ipv6 lib v)
  unfolding Typed prepare_ipv6
  ipv6-Typed none_value a h = cc
  ipv6-Typed (text t) a h = over (lib.ip_address t) a h
    where
      over :
          (o : Option Address)
          → Typed ipv6_field (elim o [ none ↦ validation_error | some b ↦ ok (as_ipv6 lib b) ])
      over none a h = cc
      over (some b) a h = as_ipv6-Typed b a h
  ipv6-Typed (other x) a h = cc
  ipv6-Typed (address b) a h = as_ipv6-Typed b a h

  protocol_type : Bool → Text
  protocol_type is_ipv4 = if is_ipv4 then codes "IPv4" else codes "IPv6"

  protocol_lem :
      (is_ipv4 : Bool) (b a : Address)
      → by_protocol lib is_ipv4 b ≡ ok (address a)
      → type_of a ≡ protocol_type is_ipv4
  unfolding by_protocol protocol_type
  protocol_lem true b (ipv4_address m) h = refl
  protocol_lem false b (ipv6_address m) h = refl
  protocol_lem true (ipv4_address n) (ipv6_address m) h = cc
  protocol_lem false (ipv4_address n) (ipv4_address m) h = cc
  protocol_lem false (ipv6_address n) (ipv4_address m) h = cc
  protocol_lem true (ipv6_address n) (ipv6_address m) h = absurd (ground arith)

  generic-Typed :
      (is_ipv4 : Bool) (v : Value X) (a : Address)
      → prepare_generic lib is_ipv4 v ≡ ok (address a)
      → type_of a ≡ protocol_type is_ipv4
  unfolding prepare_generic
  generic-Typed is_ipv4 none_value a h = cc
  generic-Typed is_ipv4 (text t) a h = over (lib.ip_address t) h
    where
      over :
          (o : Option Address)
          → elim o [ none ↦ validation_error | some b ↦ by_protocol lib is_ipv4 b ] ≡ ok (address a)
          → type_of a ≡ protocol_type is_ipv4
      over none h = cc
      over (some b) h = protocol_lem is_ipv4 b a h
  generic-Typed is_ipv4 (other x) a h = cc
  generic-Typed is_ipv4 (address b) a h = protocol_lem is_ipv4 b a h

  -- Whatever value a field of addresses is given, if it is prepared as an address, that address has the
  -- type of the column.
  pub get_prep_value-type :
      (f : AddressField) (v : Value X) (a : Address)
      → get_prep_value lib f v ≡ ok (address a)
      → type_of a ≡ db_type f
  unfolding get_prep_value db_type Typed protocol_type
  get_prep_value-type ipv4_field v a h = ipv4-Typed v a h
  get_prep_value-type ipv6_field v a h = ipv6-Typed v a h
  get_prep_value-type (generic_field protocol unpack) v a h =
      generic-Typed (same protocol (codes "ipv4")) v a h

  unpacked_lem :
      (m n : ℕ)
      → ipv4_mapped m ≡ some n
      → unpacked lib true (ipv6_address m) ≡ some (lib.str_of (ipv4_address n))
  unfolding unpacked
  unpacked_lem m n h = ground arith

  -- An IPv4 address in a field of both protocols that unpacks them is stored as IPv6 and read back as the
  -- text of the IPv4 address.
  pub from_db_value-get_prep_value :
      (protocol : Text) (n : ℕ)
      → same protocol (codes "ipv4") ≡ false
      → n < 2 ^ 32
      → (a : Address) × (get_prep_value lib (generic_field protocol true) (address (ipv4_address n))
          ≡ ok (address a))
        × (from_db_value lib (generic_field protocol true) a ≡ some (lib.str_of (ipv4_address n)))
  unfolding get_prep_value from_db_value mapped
  from_db_value-get_prep_value protocol n p h =
      (mapped n, rw p refl, unpacked_lem (0xffff * 2 ^ 32 + n) n (ipv4_mapped_lem n h))
