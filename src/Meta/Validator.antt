-- ===== src/Meta/Validator.antt =====
-- MetaValidator.
use stdiolink.Prelude.{
  ℕ, suc, ◌^◌, Bool, true, false, not, ◌&&◌, ◌||◌, String, Option, none, some, List, [], ◌∷◌, ltb,
  ◌==◌, if◌then◌else◌,
}
use Prim.Native.String.{◌++◌ as concat}
use text.Mathlib.Text.{◌==◌ as str_eq}
use stdiolink.Prelude.Int.{ℤ, pos, negsuc}
use stdiolink.Json.Value.{
  Json, number, string, array, Double, double_of, double_lt, is_integral, Items, no_items, item,
  Members, no_members, member, find, contains, count_items, is_object, is_array, is_string,
  is_double, is_bool, is_null, to_object, to_array,
}
use stdiolink.Meta.Types.{
  FieldType, string_type, int_type, int64_type, double_type, bool_type, object_type, array_type,
  enum_type, any_type, Constraints, FieldHead, FieldMeta, field, Fields, no_more, more_fields,
  ItemMeta, no_item, item_meta, head_of, has_fields, is_object_type, is_array_type, is_enum_type,
}

-- `errorMessage`: a fixed text, or one with the value and its bound in it.
pub data ValidationText : Type 0 where
  fixed : String → ValidationText
  below : Double → Double → ValidationText
  above : Double → Double → ValidationText

pub record ValidationResult : Type 0 where
  pub valid : Bool
  pub error_field : String
  pub error_message : ValidationText
  pub error_code : ℕ

abbrev pub okay : ValidationResult
okay = record { valid = true; error_field = ""; error_message = fixed ""; error_code = 0 }

unfoldable pub fail : String → ValidationText → ValidationResult
fail name message = record {
  valid = false;
  error_field = name;
  error_message = message;
  error_code = 400;
}

unfoldable pub and_then : ValidationResult → ValidationResult → ValidationResult
and_then first second = if first.valid then second else first

-- `d == static_cast<int>(d)`. The conversion is defined for values in the range of int only; a value
-- out of it is no int.
unfoldable pub is_int : Double → Bool
is_int d =
    let beyond = double_of (2 ^ 31) in
    is_integral d && (double_lt d beyond && not (double_lt d (record beyond { negative = true })))

-- d < -9007199254740992.0 || d > 9007199254740992.0
unfoldable pub is_out_of_safe_range : Double → Bool
is_out_of_safe_range d =
    let limit = double_of 9007199254740992 in
    double_lt d (record limit { negative = true }) || double_lt limit d

unfoldable pub check_int : Json → ValidationResult
check_int (number d) = if is_int d then okay else fail "" (fixed "expected integer, got decimal")
check_int _ = fail "" (fixed "expected integer")

unfoldable pub check_int64 : Json → ValidationResult
check_int64 (number d) =
    if is_out_of_safe_range d then fail "" (fixed "integer out of safe range") else okay
check_int64 _ = fail "" (fixed "expected integer")

unfoldable pub expect : Bool → String → ValidationResult
expect holds message = if holds then okay else fail "" (fixed message)

unfoldable pub check_type : Json → FieldType → ValidationResult
check_type value string_type = expect (is_string value) "expected string"
check_type value int_type = check_int value
check_type value int64_type = check_int64 value
check_type value double_type = expect (is_double value) "expected number"
check_type value bool_type = expect (is_bool value) "expected boolean"
check_type value object_type = expect (is_object value) "expected object"
check_type value array_type = expect (is_array value) "expected array"
check_type value enum_type = expect (is_string value) "expected string for enum"
check_type value any_type = okay

-- Whether a length is below, or above, a bound that may be missing and may be negative.
unfoldable pub is_below : ℕ → Option ℤ → Bool
is_below n none = false
is_below n (some (pos k)) = ltb n k
is_below n (some (negsuc k)) = false

unfoldable pub is_above : ℕ → Option ℤ → Bool
is_above n none = false
is_above n (some (pos k)) = ltb k n
is_above n (some (negsuc k)) = true

unfoldable pub check_min : String → Option Double → Json → ValidationResult
check_min name (some bound) (number d) =
    if double_lt d bound then fail name (below d bound) else okay
check_min name bound value = okay

unfoldable pub check_max : String → Option Double → Json → ValidationResult
check_max name (some bound) (number d) =
    if double_lt bound d then fail name (above d bound) else okay
check_max name bound value = okay

unfoldable pub check_items : String → Constraints → Json → ValidationResult
check_items name c (array items) =
    if is_below (count_items items) c.min_items
    then fail name (fixed "array too short")
    else if is_above (count_items items) c.max_items
    then fail name (fixed "array too long")
    else okay
check_items name c value = okay

-- The check of required fields: `for (field : fields) if (field.required && !obj.contains(field.name))`.
unfoldable pub check_required : Members → Fields → ValidationResult
check_required obj no_more = okay
check_required obj (more_fields f rest) =
    let head = head_of f in
    let others = check_required obj rest in
    if head.required && not (contains obj head.name)
    then fail head.name (fixed "required field missing")
    else others

unfoldable pub check_keys : Members → List String → ValidationResult
check_keys obj [] = okay
check_keys obj (key ∷ keys) =
    let others = check_keys obj keys in
    if not (contains obj key) then fail key (fixed "required key missing") else others

unfoldable pub is_known : Fields → String → Bool
is_known no_more key = false
is_known (more_fields f rest) key = str_eq (head_of f).name key || is_known rest key

unfoldable pub check_unknown : Members → Fields → ValidationResult
check_unknown no_members fields = okay
check_unknown (member key value rest) fields =
    let others = check_unknown rest fields in
    if not (is_known fields key) then fail key (fixed "unknown field") else others

-- validateObject, with the result of the loop that validates each field.
unfoldable pub object_result :
    Members → Fields → List String → Bool → ValidationResult → ValidationResult
object_result obj fields keys allow_unknown each = and_then (check_required obj fields) (
    and_then (check_keys obj keys)
      (and_then each (if allow_unknown then okay else check_unknown obj fields)))

-- `objResult.errorField = field.name + "." + objResult.errorField`
unfoldable pub within : String → ValidationResult → ValidationResult
within name result =
    if result.valid
    then result
    else record result { error_field = concat name (concat "." result.error_field) }

unfoldable pub if_present : Option Json → (Json → ValidationResult) → ValidationResult
if_present none validate = okay
if_present (some value) validate = validate value

-- The loop of validateArray, with the index in the error's field.
unfoldable pub each_item : (Json → ValidationResult) → (ℕ → String) → ℕ → Items → ValidationResult
each_item validate place i no_items = okay
each_item validate place i (item value rest) =
    let result = validate value in
    let others = each_item validate place (suc i) rest in
    if result.valid then others else record result { error_field = place i }

-- `field_length` is QString::length, `matches` QRegularExpression::match, `holds` QJsonArray::contains,
-- and `indexed` writes a name with an index in brackets.
module _ (field_length : String → ℕ) (matches : String → String → Bool)
    (holds : Items → Json → Bool) (indexed : String → ℕ → String) where
  unfoldable pub check_text : String → Constraints → Json → ValidationResult
  check_text name c (string s) =
      if is_below (field_length s) c.min_length
      then fail name (fixed "string too short")
      else if is_above (field_length s) c.max_length
      then fail name (fixed "string too long")
      else if not (str_eq c.pattern "") && not (matches c.pattern s)
      then fail name (fixed "pattern mismatch")
      else okay
  check_text name c value = okay

  unfoldable pub check_enum : FieldHead → Json → ValidationResult
  check_enum head value =
      if is_enum_type head.field_type && not (count_items head.constraints.enum_values == 0)
      then if not (holds head.constraints.enum_values value)
        then fail head.name (fixed "invalid enum value")
        else okay
      else okay

  unfoldable pub check_constraints : Json → FieldHead → ValidationResult
  check_constraints value head =
      let c = head.constraints in
      and_then (check_min head.name c.min_value value) (
        and_then (check_max head.name c.max_value value) (
          and_then (check_text head.name c value)
            (and_then (check_enum head value) (check_items head.name c value))))

  -- `typeResult.errorField = field.name`, and the constraints.
  unfoldable pub check_value : Json → FieldHead → ValidationResult
  check_value value head =
      let typed = check_type value head.field_type in
      if typed.valid then check_constraints value head else record typed { error_field = head.name }

  unfoldable mutual
    pub validate_field : Json → FieldMeta → ValidationResult
    validate_field value (field head fields schema) =
        let object_part =
          object_result (to_object value) fields head.required_keys true
            (validate_each (to_object value) fields) in
        let array_part = validate_array head.name (to_array value) schema in
        and_then (check_value value head) (
          and_then
            (if is_object_type head.field_type && has_fields fields
              then within head.name object_part
              else okay)
            (if is_array_type head.field_type then array_part else okay))

    -- The loop over the fields that the object has.
    pub validate_each : Members → Fields → ValidationResult
    validate_each obj no_more = okay
    validate_each obj (more_fields f rest) =
        let others = validate_each obj rest in
        and_then (if_present (find obj (head_of f).name) (λ value. validate_field value f)) others

    pub validate_array : String → Items → ItemMeta → ValidationResult
    validate_array name items no_item = okay
    validate_array name items (item_meta f) =
        each_item (λ value. validate_field value f) (indexed name) 0 items

  unfoldable pub validate_object : Members → Fields → List String → Bool → ValidationResult
  validate_object obj fields keys allow_unknown =
      object_result obj fields keys allow_unknown (validate_each obj fields)

  -- `params` is `cmd.params`; params that are undefined are `none`.
  unfoldable pub validate_params : Option Json → Fields → Bool → ValidationResult
  validate_params none params allow_unknown = validate_object no_members params [] allow_unknown
  validate_params (some value) params allow_unknown =
      if not (is_object value) && not (is_null value)
      then fail "" (fixed "params must be an object")
      else validate_object (to_object value) params [] allow_unknown

  unfoldable pub validate_config : Members → Fields → ValidationResult
  validate_config config fields = validate_object config fields [] true
