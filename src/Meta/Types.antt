-- ===== src/Meta/Types.antt =====
-- FieldType, Constraints and FieldMeta. A field's nested fields and its item's schema are data types of
-- one block; texts for people and for the user interface are left out.
use stdiolink.Prelude.{Bool, true, false, String, Option, List}
use stdiolink.Prelude.Int.{ℤ}
use stdiolink.Json.Value.{Json, Double, Items}

pub data FieldType : Type 0 where
  string_type int_type int64_type double_type bool_type object_type array_type enum_type any_type :
      FieldType

pub record Constraints : Type 0 where
  pub min_value : Option Double
  pub max_value : Option Double
  pub min_length : Option ℤ
  pub max_length : Option ℤ
  pub pattern : String
  pub enum_values : Items
  pub min_items : Option ℤ
  pub max_items : Option ℤ

-- The members of FieldMeta that hold no fields, less the texts and additionalProperties, which no
-- function of the validator or of the defaults reads. A default that is undefined is `none`.
pub record FieldHead : Type 0 where
  pub name : String
  pub field_type : FieldType
  pub required : Bool
  pub default_value : Option Json
  pub constraints : Constraints
  pub required_keys : List String

mutual
  pub data FieldMeta : Type 0 where
    field : FieldHead → Fields → ItemMeta → FieldMeta

  pub data Fields : Type 0 where
    no_more : Fields
    more_fields : FieldMeta → Fields → Fields

  -- The schema of an array's items, if there is one.
  pub data ItemMeta : Type 0 where
    no_item : ItemMeta
    item_meta : FieldMeta → ItemMeta

unfoldable pub head_of : FieldMeta → FieldHead
head_of (field head fields item) = head

unfoldable pub has_fields : Fields → Bool
has_fields no_more = false
has_fields (more_fields f rest) = true

unfoldable pub is_object_type : FieldType → Bool
is_object_type object_type = true
is_object_type _ = false

unfoldable pub is_array_type : FieldType → Bool
is_array_type array_type = true
is_array_type _ = false

unfoldable pub is_enum_type : FieldType → Bool
is_enum_type enum_type = true
is_enum_type _ = false
