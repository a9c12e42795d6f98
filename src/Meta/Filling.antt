-- ===== src/Meta/Filling.antt =====
-- What fillDefaults makes of any object.
use stdiolink.Prelude.{
  ◌≡◌, refl, sym, ap, subst, ◌∙◌, Bool, true, false, ◌&&◌, ◌||◌, inl, inr, Bool-cases, String, some,
}
use mathlib.Core.Bool.{true≢false}
use text.Mathlib.Text.{◌==◌ as str_eq}
use stdiolink.Json.Value.{Json, object, Members, find, insert, to_object}
use stdiolink.Json.Objects.{find-insert_self, find-insert_ne, insert_same}
use stdiolink.Meta.Types.{
  FieldMeta, field, Fields, no_more, more_fields, has_fields, is_object_type,
}
use stdiolink.Meta.Defaults.{fill_value, nested_object, fill_field, fill_defaults}
use stdiolink.Meta.Filled.{
  FieldFilled, NestedFilled, Filled, find-fill_value, fill_value-HasDefault, fill_value_same,
  HasDefault-mono, contains-store, store, fill_defaults-Filled,
}

made_filled :
    (test : Bool) (holds : Members → Type 0) (obj : Members) (name : String) (new : Members)
    → holds new
    → NestedFilled test (store test obj name new) name holds
unfolding NestedFilled
made_filled false holds obj name new h = tt
made_filled true holds obj name new h = (new, find-insert_self obj name (object new), h)

store_same :
    (test : Bool) (holds : Members → Type 0) (obj : Members) (name : String) (new : Members)
    → ((nested : Members) → find obj name ≡ some (object nested) → holds nested → new ≡ nested)
    → NestedFilled test obj name holds
    → store test obj name new ≡ obj
unfolding NestedFilled
store_same false holds obj name new same h = refl
store_same true holds obj name new same (nested, found, h) =
    ap (λ t. insert obj name (object t)) (same nested found h)
    ∙ insert_same obj name (object nested) found

mutual
  unfolding fill_field FieldFilled nested_object to_object

  fill_field-makes : (obj : Members) (f : FieldMeta) → FieldFilled (fill_field obj f) f
  fill_field-makes obj (field head fields schema) =
      let filled = fill_value obj head.name head.default_value in
      let test = is_object_type head.field_type && has_fields fields in
      let new = fill_defaults (nested_object (find filled head.name)) fields in
      (
        HasDefault-mono filled (store test filled head.name new) head.name head.default_value
            (contains-store test filled head.name head.name new)
            (fill_value-HasDefault obj head.name head.default_value),
        made_filled test (λ body. Filled body fields) filled head.name new
            (fill_defaults-makes (nested_object (find filled head.name)) fields),
      )

  pub fill_defaults-makes :
      (obj : Members) (fields : Fields) → Filled (fill_defaults obj fields) fields
  fill_defaults-makes obj no_more = tt
  fill_defaults-makes obj (more_fields f rest) = (
    (fill_defaults-Filled (fill_field obj f) rest (more_fields f no_more)
        (fill_field-makes obj f, tt)).0,
    fill_defaults-makes (fill_field obj f) rest,
  )

mutual
  unfolding fill_field FieldFilled nested_object to_object

  fill_field_same : (obj : Members) (f : FieldMeta) → FieldFilled obj f → fill_field obj f ≡ obj
  fill_field_same obj (field head fields schema) (given, nested) =
      let filled = fill_value obj head.name head.default_value in
      let test = is_object_type head.field_type && has_fields fields in
      let new = fill_defaults (nested_object (find filled head.name)) fields in
      let same : filled ≡ obj = fill_value_same obj head.name head.default_value given in
      store_same test (λ body. Filled body fields) filled head.name new
        (λ body found h.
          ap (λ t. fill_defaults (nested_object t) fields) found ∙ fill_defaults_same body fields h)
        (subst (λ o. NestedFilled test o head.name (λ body. Filled body fields)) (sym same) nested)
      ∙ same

  pub fill_defaults_same :
      (obj : Members) (fields : Fields) → Filled obj fields → fill_defaults obj fields ≡ obj
  fill_defaults_same obj no_more h = refl
  fill_defaults_same obj (more_fields f rest) (here, h) =
      let same : fill_field obj f ≡ obj = fill_field_same obj f here in
      ap (λ o. fill_defaults o rest) same ∙ fill_defaults_same obj rest h

-- Whether one of the fields is an object with fields of its own under that name.
unfoldable pub names_object : Fields → String → Bool
names_object no_more key = false
names_object (more_fields (field head fields schema) rest) key =
    (str_eq head.name key && (is_object_type head.field_type && has_fields fields))
    || names_object rest key

find-store :
    (test : Bool) (obj : Members) (name key : String) (new : Members) (v : Json)
    → (str_eq name key && test) ≡ false
    → find obj key ≡ some v
    → find (store test obj name new) key ≡ some v
find-store false obj name key new v other h = h
find-store true obj name key new v other h = elim (Bool-cases (str_eq name key)) [
  | inl same ↦ absurd (true≢false (rw same at other))
  | inr ne ↦ find-insert_ne obj name key (object new) ne ∙ h
]

or_false : (a b : Bool) → (a || b) ≡ false → (a ≡ false) × (b ≡ false)
or_false true b h = absurd (true≢false h)
or_false false b h = (refl, h)

-- A member that the caller gave keeps its value, unless the fields say that it is an object with fields
-- of its own.
pub find-fill_defaults :
    (obj : Members) (fields : Fields) (key : String) (v : Json)
    → names_object fields key ≡ false
    → find obj key ≡ some v
    → find (fill_defaults obj fields) key ≡ some v
unfolding fill_defaults names_object
find-fill_defaults obj no_more key v other h = h
find-fill_defaults obj (more_fields (field head fields schema) rest) key v other h =
    let (here, later) = or_false _ _ other in
    let filled = fill_value obj head.name head.default_value in
    find-fill_defaults (fill_field obj (field head fields schema)) rest key v later (
      find-store (is_object_type head.field_type && has_fields fields) filled head.name key
        (fill_defaults (nested_object (find filled head.name)) fields) v here
        (find-fill_value obj head.name head.default_value key v h))
