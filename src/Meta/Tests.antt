-- ===== src/Meta/Tests.antt =====
-- A command's parameters: a required name, and options with a rate of their own.
use stdiolink.Prelude.{
  ℕ, ◌≡◌, ◌↔◌, refl, Bool, true, false, String, Option, none, some, [], ◌∷◌, All,
}
use stdiolink.Json.Value.{
  Json, number, string, object, double_of, Items, no_items, Members, no_members, member, find,
  contains, insert, is_null,
}
use stdiolink.Meta.Types.{
  FieldType, string_type, int_type, object_type, Constraints, FieldMeta, field, Fields, no_more,
  more_fields, no_item, has_fields, is_object_type,
}
use stdiolink.Meta.Validator.{validate_object}
use stdiolink.Meta.Verdicts.{Valid, HasRequired, OnlyKnown}
use stdiolink.Meta.Conforms.{EachConforms, validate_object-Conforms}
use stdiolink.Meta.Defaults.{fill_value, nested_object, fill_defaults}
use stdiolink.Meta.Filled.{Filled}
use stdiolink.Meta.Lookup.{after_fields, fill_defaults_lem}
use stdiolink.Meta.Filling.{names_object, find-fill_defaults}

abbrev unconstrained : Constraints
unconstrained = record {
  min_value = none;
  max_value = none;
  min_length = none;
  max_length = none;
  pattern = "";
  enum_values = no_items;
  min_items = none;
  max_items = none;
}

abbrev plain_field : String → FieldType → Bool → Option Json → Fields → FieldMeta
plain_field name field_type required default_value metas =
    field
      (record {
        name = name;
        field_type = field_type;
        required = required;
        default_value = default_value;
        constraints = unconstrained;
        required_keys = [];
      })
      metas no_item

abbrev rate_field : FieldMeta
rate_field = plain_field "rate" int_type false (some (number (double_of 9600))) no_more

abbrev parameters : Fields
parameters = more_fields (plain_field "name" string_type true none no_more) (
    more_fields (plain_field "options" object_type false none (more_fields rate_field no_more))
      no_more)

abbrev given : Members
given = member "name" (string "lidar") no_members

fill_defaults_example :
    (find (fill_defaults given parameters) "options"
      ≡ after_fields (find given "options") parameters "options")
    × Filled (fill_defaults given parameters) parameters
    × (fill_defaults (fill_defaults given parameters) parameters ≡ fill_defaults given parameters)
fill_defaults_example = fill_defaults_lem given parameters "options"

-- The options are made, with the rate in them.
options_made :
    find (fill_defaults given parameters) "options"
    ≡ some (object (member "rate" (number (double_of 9600)) no_members))
unfolding fill_defaults find is_object_type has_fields insert fill_value contains nested_object
    is_null
options_made = refl

name_is_plain : names_object parameters "name" ≡ false
unfolding names_object is_object_type
name_is_plain = refl

name_given : find given "name" ≡ some (string "lidar")
unfolding find
name_given = refl

find-fill_defaults_example : find (fill_defaults given parameters) "name" ≡ some (string "lidar")
find-fill_defaults_example =
    find-fill_defaults given parameters "name" (string "lidar") name_is_plain name_given

abbrev no_length : String → ℕ
no_length s = 0

abbrev always_matches : String → String → Bool
always_matches pattern s = true

abbrev never_holds : Items → Json → Bool
never_holds items value = false

abbrev plain_name : String → ℕ → String
plain_name name i = name

conforms_example :
    Valid (
      validate_object no_length always_matches never_holds plain_name given parameters
        ("name" ∷ [])
        false)
    ↔ (HasRequired given parameters
        × All (λ key. contains given key ≡ true) ("name" ∷ [])
        × EachConforms no_length always_matches never_holds plain_name given parameters
        × OnlyKnown given parameters)
conforms_example =
    validate_object-Conforms no_length always_matches never_holds plain_name given parameters
      ("name" ∷ []) false
