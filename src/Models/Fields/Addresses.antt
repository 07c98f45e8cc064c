-- ===== src/Models/Fields/Addresses.antt =====
-- The fields of IP addresses in clickhouse_backend/models/fields/__init__.py. Python's ipaddress is the
-- parameter Library; an address is its number, and str writes it.
pub mod Kinds
mod Examples
use django_clickhouse_backen.Prelude.{
  ℕ, ◌+◌, ◌*◌, ◌/◌, ◌%◌, ◌^◌, Bool, true, false, not, ◌&&◌, Option, none, some, ◌==◌, Text, same,
  codes, if◌then◌else◌,
}

pub data Address : Type 0 where
  ipv4_address ipv6_address : ℕ → Address

-- A value of the field: None, a str, an address, or another object
pub data Value (X : Type 0) : Type 0 where
  none_value : Value X
  text : Text → Value X
  address : Address → Value X
  other : X → Value X

-- ipaddress.ip_address of a str and ipaddress.IPv4Address of a str or another object, where `none` is a
-- ValueError, and str of an address.
pub record Library (X : Type 0) : Type 0 where
  pub ip_address : Text → Option Address
  pub ipv4_of_text : Text → Option ℕ
  pub ipv4_of_other : X → Option ℕ
  pub str_of : Address → Text

pub data Prepared (X : Type 0) : Type 0 where
  ok : Value X → Prepared X
  validation_error : Prepared X

-- ipaddress.IPv6Address("::ffff:%s" % value), and ipv4_mapped: the 80 bits above are zeros and the next
-- 16 are ones.
unfoldable pub mapped : ℕ → Address
mapped n = ipv6_address (0xffff * 2 ^ 32 + n)

unfoldable pub ipv4_mapped : ℕ → Option ℕ
ipv4_mapped n = if n / 2 ^ 32 == 0xffff then some (n % 2 ^ 32) else none

pub data AddressField : Type 0 where
  ipv4_field ipv6_field : AddressField
  -- the protocol, in small letters, and unpack_ipv4
  generic_field : Text → Bool → AddressField

module _ {X : Type 0} (lib : Library X) where
  unfoldable pub made_ipv4 : Option ℕ → Prepared X
  made_ipv4 none = validation_error
  made_ipv4 (some n) = ok (address (ipv4_address n))

  unfoldable pub prepare_ipv4 : Value X → Prepared X
  unfolding made_ipv4
  prepare_ipv4 none_value = ok none_value
  prepare_ipv4 (address (ipv4_address n)) = ok (address (ipv4_address n))
  prepare_ipv4 (address (ipv6_address n)) = validation_error
  prepare_ipv4 (text t) = made_ipv4 (lib.ipv4_of_text t)
  prepare_ipv4 (other x) = made_ipv4 (lib.ipv4_of_other x)

  unfoldable pub as_ipv6 : Address → Value X
  unfolding mapped
  as_ipv6 (ipv4_address n) = address (mapped n)
  as_ipv6 (ipv6_address n) = address (ipv6_address n)

  unfoldable pub prepare_ipv6 : Value X → Prepared X
  unfolding as_ipv6
  prepare_ipv6 none_value = ok none_value
  prepare_ipv6 (text t) = elim (lib.ip_address t) [
    | none ↦ validation_error
    | some a ↦ ok (as_ipv6 a)
  ]
  prepare_ipv6 (address a) = ok (as_ipv6 a)
  prepare_ipv6 (other x) = ok (other x)

  unfoldable pub unmapped : Option ℕ → Prepared X
  unmapped none = validation_error
  unmapped (some n) = ok (address (ipv4_address n))

  unfoldable pub by_protocol : Bool → Address → Prepared X
  unfolding mapped ipv4_mapped unmapped
  by_protocol is_ipv4 (ipv4_address n) =
      if not is_ipv4 then ok (address (mapped n)) else ok (address (ipv4_address n))
  by_protocol is_ipv4 (ipv6_address n) =
      if is_ipv4 then unmapped (ipv4_mapped n) else ok (address (ipv6_address n))

  unfoldable pub prepare_generic : Bool → Value X → Prepared X
  unfolding by_protocol
  prepare_generic is_ipv4 none_value = ok none_value
  prepare_generic is_ipv4 (text t) = elim (lib.ip_address t) [
    | none ↦ validation_error
    | some a ↦ by_protocol is_ipv4 a
  ]
  prepare_generic is_ipv4 (address a) = by_protocol is_ipv4 a
  prepare_generic is_ipv4 (other x) = ok (other x)

  unfoldable pub get_prep_value : AddressField → Value X → Prepared X
  unfolding prepare_ipv4 prepare_ipv6 prepare_generic
  get_prep_value ipv4_field v = prepare_ipv4 v
  get_prep_value ipv6_field v = prepare_ipv6 v
  get_prep_value (generic_field protocol unpack) v =
      prepare_generic (same protocol (codes "ipv4")) v

  -- What the client gives for the column is an address: str(value.ipv4_mapped), or str(value).
  -- An IPv4Address has no attribute ipv4_mapped: `none` is the AttributeError.
  unfoldable pub unpacked : Bool → Address → Option Text
  unfolding ipv4_mapped
  unpacked false a = some (lib.str_of a)
  unpacked true (ipv4_address n) = none
  unpacked true (ipv6_address n) = elim (ipv4_mapped n) [
    | none ↦ some (lib.str_of (ipv6_address n))
    | some m ↦ some (lib.str_of (ipv4_address m))
  ]

  unfoldable pub from_db_value : AddressField → Address → Option Text
  unfolding unpacked
  from_db_value ipv4_field a = some (lib.str_of a)
  from_db_value ipv6_field a = some (lib.str_of a)
  from_db_value (generic_field protocol unpack) a = unpacked unpack a

-- db_type of these fields, without the wrappers that only the first two have
unfoldable pub db_type : AddressField → Text
db_type ipv4_field = codes "IPv4"
db_type ipv6_field = codes "IPv6"
db_type (generic_field protocol unpack) =
    if same protocol (codes "ipv4") then codes "IPv4" else codes "IPv6"
