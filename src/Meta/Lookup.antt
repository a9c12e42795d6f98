-- ===== src/Meta/Lookup.antt =====
-- The member that fillDefaults leaves under a key.
use stdiolink.Prelude.{
  ◌≡◌, refl, ap, subst, ◌∙◌, true, false, ◌&&◌, inl, inr, Bool-cases, String, Option, none, some,
  Option-cases, if◌then◌else◌,
}
use text.Mathlib.Text.{◌==◌ as str_eq}
use text.Mathlib.TextEquality.{eq_iff}
use stdiolink.Json.Value.{Json, object, Members, find, contains, is_null}
use stdiolink.Json.Objects.{find-insert_self, find-insert_ne, contains_found}
use stdiolink.Meta.Types.{
  FieldMeta, field, Fields, no_more, more_fields, head_of, has_fields, is_object_type,
}
use stdiolink.Meta.Defaults.{fill_value, nested_object, fill_field, fill_defaults}
use stdiolink.Meta.Filled.{Filled}
use stdiolink.Meta.Filling.{fill_defaults-makes, fill_defaults_same}

-- What was given, or the default when nothing was; null is no default.
unfoldable pub or_default : Option Json → Option Json → Option Json
or_default (some given) default_value = some given
or_default none none = none
or_default none (some value) = if is_null value then none else some value

-- What a field makes of the member under its name. The member of an object with fields of its own is
-- the object that was there, or an empty one, with its defaults.
unfoldable pub after_field : Option Json → FieldMeta → Option Json
after_field found (field head fields schema) =
    let value = or_default found head.default_value in
    if is_object_type head.field_type && has_fields fields
    then some (object (fill_defaults (nested_object value) fields))
    else value

-- What all fields make of the member under a key: those with that name, in their order.
unfoldable pub after_fields : Option Json → Fields → String → Option Json
after_fields found no_more key = found
after_fields found (more_fields f rest) key =
    after_fields (if str_eq (head_of f).name key then after_field found f else found) rest key

contains_missing : (obj : Members) (key : String) → find obj key ≡ none → contains obj key ≡ false
unfolding contains
contains_missing obj key e = ap (λ o. elim o [ none ↦ false | some v ↦ true ]) e

find-fill_value_self :
    (obj : Members) (name : String) (d : Option Json)
    → find (fill_value obj name d) name ≡ or_default (find obj name) d
unfolding fill_value or_default
find-fill_value_self obj name none = elim (Option-cases (find obj name)) [
  | inl e ↦ rw e refl
  | inr (v, e) ↦ rw e refl
]
find-fill_value_self obj name (some value) = elim (Option-cases (find obj name)) [
  | inr (v, e) ↦ rw (contains_found obj name v e, e) refl
  | inl e ↦ elim (Bool-cases (is_null value)) [
    | inl nothing ↦ rw (contains_missing obj name e, e, nothing) e
    | inr given ↦ rw (contains_missing obj name e, e, given) (find-insert_self obj name value)
  ]
]

find-fill_value_ne :
    (obj : Members) (name key : String) (d : Option Json)
    → str_eq name key ≡ false
    → find (fill_value obj name d) key ≡ find obj key
unfolding fill_value
find-fill_value_ne obj name key none other = refl
find-fill_value_ne obj name key (some value) other = elim (Bool-cases (contains obj name)) [
  | inl there ↦ rw there refl
  | inr missing ↦ elim (Bool-cases (is_null value)) [
    | inl nothing ↦ rw (missing, nothing) refl
    | inr given ↦ rw (missing, given) (find-insert_ne obj name key value other)
  ]
]

find-fill_field_self :
    (obj : Members) (f : FieldMeta)
    → find (fill_field obj f) (head_of f).name ≡ after_field (find obj (head_of f).name) f
unfolding fill_field after_field head_of
find-fill_field_self obj (field head fields schema) =
    let filled = fill_value obj head.name head.default_value in
    let here = find-fill_value_self obj head.name head.default_value in
    elim (Bool-cases (is_object_type head.field_type && has_fields fields)) [
      | inl deep ↦ rw deep (
          find-insert_self filled head.name
            (object (fill_defaults (nested_object (find filled head.name)) fields))
          ∙ ap (λ t. some (object (fill_defaults (nested_object t) fields))) here)
      | inr flat ↦ rw flat here
    ]

find-fill_field_ne :
    (obj : Members) (f : FieldMeta) (key : String)
    → str_eq (head_of f).name key ≡ false
    → find (fill_field obj f) key ≡ find obj key
unfolding fill_field head_of
find-fill_field_ne obj (field head fields schema) key other =
    let filled = fill_value obj head.name head.default_value in
    let here = find-fill_value_ne obj head.name key head.default_value other in
    elim (Bool-cases (is_object_type head.field_type && has_fields fields)) [
      | inl deep ↦ rw deep (
          find-insert_ne filled head.name key
            (object (fill_defaults (nested_object (find filled head.name)) fields)) other
          ∙ here)
      | inr flat ↦ rw flat here
    ]

find-fill_field :
    (obj : Members) (f : FieldMeta) (key : String)
    → find (fill_field obj f) key
      ≡ (if str_eq (head_of f).name key then after_field (find obj key) f else find obj key)
find-fill_field obj f key = elim (Bool-cases (str_eq (head_of f).name key)) [
  | inl same ↦
      let e = (eq_iff (head_of f).name key).0 same in
      rw same (
        subst (λ t. find (fill_field obj f) t ≡ after_field (find obj t) f) e
          (find-fill_field_self obj f))
  | inr other ↦ rw other (find-fill_field_ne obj f key other)
]

find-fill_all :
    (obj : Members) (fields : Fields) (key : String)
    → find (fill_defaults obj fields) key ≡ after_fields (find obj key) fields key
unfolding fill_defaults after_fields
find-fill_all obj no_more key = refl
find-fill_all obj (more_fields f rest) key =
    find-fill_all (fill_field obj f) rest key
    ∙ ap (λ t. after_fields t rest key) (find-fill_field obj f key)

-- For every object and every list of fields, also with names that repeat, and every key: the member
-- under the key is what the fields of that name, in their order, make of the given one: the given
-- value, else the default that is not null, and for an object with fields of its own the given object,
-- or an empty one, with its defaults. The object that is made has its defaults at every depth, and
-- filling it again changes nothing.
pub fill_defaults_lem :
    (obj : Members) (fields : Fields) (key : String)
    → (find (fill_defaults obj fields) key ≡ after_fields (find obj key) fields key)
      × Filled (fill_defaults obj fields) fields
      × (fill_defaults (fill_defaults obj fields) fields ≡ fill_defaults obj fields)
fill_defaults_lem obj fields key = (
  find-fill_all obj fields key,
  fill_defaults-makes obj fields,
  fill_defaults_same (fill_defaults obj fields) fields (fill_defaults-makes obj fields),
)
