-- ===== src/Models/Fields/Addresses/Examples.antt =====
-- A library of addresses that knows one text.
use django_clickhouse_backen.Prelude.{ℕ, ◌≡◌, refl, true, false, some, codes, same, arith}
use django_clickhouse_backen.Models.Fields.Addresses.{
  Address, ipv4_address, text, address, ok, Library, mapped, generic_field, ipv6_field,
  get_prep_value, from_db_value, db_type,
}
use django_clickhouse_backen.Models.Fields.Addresses.Kinds.{
  type_of, get_prep_value-type, from_db_value-get_prep_value,
}

abbrev one_address : Library ℕ
one_address = record {
  ip_address = λ t. some (ipv4_address 16909060);
  ipv4_of_text = λ t. some 16909060;
  ipv4_of_other = λ n. some n;
  str_of = λ a. codes "1.2.3.4";
}

prepared :
    get_prep_value one_address ipv6_field (text (codes "1.2.3.4")) ≡ ok (address (mapped 16909060))
unfolding get_prep_value
prepared = refl

get_prep_value-type_example : type_of (mapped 16909060) ≡ db_type ipv6_field
get_prep_value-type_example =
    get_prep_value-type one_address ipv6_field (text (codes "1.2.3.4")) (mapped 16909060) prepared

both : same (codes "both") (codes "ipv4") ≡ false
unfolding same codes
both = refl

from_db_value-get_prep_value_example :
    (a : Address) × (get_prep_value one_address
        (generic_field (codes "both") true)
        (address (ipv4_address 16909060))
      ≡ ok (address a))
    × (from_db_value one_address (generic_field (codes "both") true) a ≡ some (codes "1.2.3.4"))
from_db_value-get_prep_value_example =
    from_db_value-get_prep_value one_address (codes "both") 16909060 both (omega arith)
