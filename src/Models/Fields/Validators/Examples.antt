-- ===== src/Models/Fields/Validators/Examples.antt =====
-- An Int8Field with a maximum of its own.
use django_clickhouse_backen.Prelude.{◌≡◌, ◌↔◌, true, List, [], ◌∷◌, all}
use django_clickhouse_backen.Prelude.Int.{pos, negsuc}
use django_clickhouse_backen.Backend.Operations.Ranges.{int8_field, width, Fits}
use django_clickhouse_backen.Models.Fields.Validators.{
  Validator, max_value, accepts, validators, validators-Fits,
}

abbrev own : List Validator
own = max_value (pos 9) ∷ []

validators-Fits_example :
    (all (accepts (negsuc 128)) (validators int8_field own) ≡ true)
    ↔ ((all (accepts (negsuc 128)) own ≡ true) × Fits (width int8_field) (negsuc 128))
validators-Fits_example = validators-Fits int8_field own (negsuc 128)
