-- ===== src/Meta/Defaults.antt =====
-- DefaultFiller::fillDefaults.
use stdiolink.Prelude.{not, ◌&&◌, String, Option, none, some, if◌then◌else◌}
use stdiolink.Json.Value.{
  Json, object, Members, no_members, find, contains, insert, is_null, to_object,
}
use stdiolink.Meta.Types.{
  FieldMeta, field, Fields, no_more, more_fields, has_fields, is_object_type,
}

-- `if (!result.contains(name) && !defaultValue.isNull() && !defaultValue.isUndefined())`
unfoldable pub fill_value : Members → String → Option Json → Members
fill_value result name none = result
fill_value result name (some value) =
    if not (contains result name) && not (is_null value) then insert result name value else result

-- `result.contains(name) ? result[name].toObject() : QJsonObject{}`
unfoldable pub nested_object : Option Json → Members
nested_object none = no_members
nested_object (some value) = to_object value

unfoldable mutual
  -- The body of the loop.
  pub fill_field : Members → FieldMeta → Members
  fill_field result (field head fields item) =
      let filled = fill_value result head.name head.default_value in
      let nested = fill_defaults (nested_object (find filled head.name)) fields in
      if is_object_type head.field_type && has_fields fields
      then insert filled head.name (object nested)
      else filled

  pub fill_defaults : Members → Fields → Members
  fill_defaults result no_more = result
  fill_defaults result (more_fields f rest) = fill_defaults (fill_field result f) rest
