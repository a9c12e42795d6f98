-- ===== src/Meta/Filled.antt =====
-- Objects that have their defaults, and what fillDefaults leaves of them.
use stdiolink.Prelude.{
  ◌≡◌, refl, sym, ap, subst, ◌∙◌, Bool, true, false, ◌&&◌, inl, inr, Bool-cases, String, Option,
  none, some, if◌then◌else◌,
}
use text.Mathlib.Text.{◌==◌ as str_eq}
use text.Mathlib.TextEquality.{eq_iff}
use mathlib.Core.Bool.{true≢false}
use stdiolink.Json.Value.{Json, object, Members, find, contains, insert, is_null, to_object}
use stdiolink.Json.Objects.{
  find-insert_self, find-insert_ne, contains_found, contains-insert, found_contains,
}
use stdiolink.Meta.Types.{
  FieldMeta, field, Fields, no_more, more_fields, has_fields, is_object_type,
}
use stdiolink.Meta.Defaults.{fill_value, nested_object, fill_field, fill_defaults}

-- A default that is not null has been given, or a value in its place.
unfoldable pub HasDefault : Members → String → Option Json → Type 0
HasDefault obj name none = Unit
HasDefault obj name (some value) = if is_null value then Unit else contains obj name ≡ true

-- The field is an object of which a predicate holds, where there is something to test.
unfoldable pub NestedFilled : Bool → Members → String → (Members → Type 0) → Type 0
NestedFilled false obj name holds = Unit
NestedFilled true obj name holds =
    (nested : Members) × (find obj name ≡ some (object nested)) × holds nested

unfoldable mutual
  -- A field has its default, and, where it is an object with fields of its own, an object that has theirs.
  pub FieldFilled : Members → FieldMeta → Type 0
  FieldFilled obj (field head fields schema) =
      HasDefault obj head.name head.default_value
      × NestedFilled (is_object_type head.field_type && has_fields fields) obj head.name
          (λ nested. Filled nested fields)

  pub Filled : Members → Fields → Type 0
  Filled obj no_more = Unit
  Filled obj (more_fields f rest) = FieldFilled obj f × Filled obj rest

-- The default of one field.
module _ (obj : Members) (name : String) where
  pub find-fill_value :
      (d : Option Json) (key : String) (v : Json)
      → find obj key ≡ some v
      → find (fill_value obj name d) key ≡ some v
  unfolding fill_value
  find-fill_value none key v h = h
  find-fill_value (some value) key v h = elim (Bool-cases (contains obj name)) [
    | inl there ↦ rw there h
    | inr missing ↦ elim (Bool-cases (is_null value)) [
      | inl nothing ↦ rw (missing, nothing) h
      | inr given ↦ elim (Bool-cases (str_eq name key)) [
        | inl same ↦ absurd (
            true≢false (
              sym (contains_found obj key v h)
              ∙ subst (λ t. contains obj t ≡ false) ((eq_iff name key).0 same) missing))
        | inr other ↦ rw (missing, given) (find-insert_ne obj name key value other ∙ h)
      ]
    ]
  ]

  pub contains-fill_value :
      (d : Option Json) (key : String)
      → contains obj key ≡ true
      → contains (fill_value obj name d) key ≡ true
  contains-fill_value d key h =
      let (v, found) = found_contains obj key h in
      contains_found (fill_value obj name d) key v (find-fill_value d key v found)

  pub fill_value-HasDefault : (d : Option Json) → HasDefault (fill_value obj name d) name d
  unfolding HasDefault fill_value
  fill_value-HasDefault none = tt
  fill_value-HasDefault (some value) = elim (Bool-cases (is_null value)) [
    | inl nothing ↦ rw nothing tt
    | inr given ↦ elim (Bool-cases (contains obj name)) [
      | inl there ↦ rw (given, there) there
      | inr missing ↦
          rw (given, missing)
            (contains_found (insert obj name value) name value (find-insert_self obj name value))
    ]
  ]

  pub fill_value_same : (d : Option Json) → HasDefault obj name d → fill_value obj name d ≡ obj
  unfolding HasDefault fill_value
  fill_value_same none h = refl
  fill_value_same (some value) h = elim (Bool-cases (is_null value)) [
    | inl nothing ↦ elim (Bool-cases (contains obj name)) [
      | inl there ↦ rw there refl
      | inr missing ↦ rw (missing, nothing) refl
    ]
    | inr given ↦ rw (rw given at h) refl
  ]

-- What holds of each field after a change holds of all.
Filled-each :
    (obj changed : Members)
    → ((f : FieldMeta) → FieldFilled obj f → FieldFilled changed f)
    → (fields : Fields) → Filled obj fields
    → Filled changed fields
unfolding Filled
Filled-each obj changed each no_more h = tt
Filled-each obj changed each (more_fields f rest) (here, h) =
    (each f here, Filled-each obj changed each rest h)

-- A change that keeps what is there, and keeps filled objects filled, keeps a field filled.
pub HasDefault-mono :
    (obj changed : Members) (name : String) (d : Option Json)
    → (contains obj name ≡ true → contains changed name ≡ true)
    → HasDefault obj name d
    → HasDefault changed name d
unfolding HasDefault
HasDefault-mono obj changed name none keeps h = tt
HasDefault-mono obj changed name (some value) keeps h = elim (Bool-cases (is_null value)) [
  | inl nothing ↦ rw nothing tt
  | inr given ↦ rw given (keeps (rw given at h))
]

NestedFilled-mono :
    (test : Bool) (holds : Members → Type 0) (obj changed : Members) (name : String)
    → ((v : Json) → find obj name ≡ some v → find changed name ≡ some v)
    → NestedFilled test obj name holds
    → NestedFilled test changed name holds
unfolding NestedFilled
NestedFilled-mono false holds obj changed name keeps h = tt
NestedFilled-mono true holds obj changed name keeps (nested, found, h) =
    (nested, keeps (object nested) found, h)

-- The object with a nested object stored in it, or as it was.
abbrev pub store : Bool → Members → String → Members → Members
store test obj name new = if test then insert obj name (object new) else obj

pub contains-store :
    (test : Bool) (obj : Members) (name key : String) (new : Members)
    → contains obj key ≡ true
    → contains (store test obj name new) key ≡ true
contains-store true obj name key new h = contains-insert obj name key (object new) h
contains-store false obj name key new h = h

store-NestedFilled :
    (stored test : Bool) (holds : Members → Type 0) (obj : Members) (name key : String)
    (new : Members)
    → ((nested : Members) → find obj name ≡ some (object nested) → holds nested → holds new)
    → NestedFilled test obj key holds
    → NestedFilled test (store stored obj name new) key holds
unfolding NestedFilled
store-NestedFilled false test holds obj name key new keeps h = h
store-NestedFilled true false holds obj name key new keeps h = tt
store-NestedFilled true true holds obj name key new keeps (nested, found, h) =
    elim (Bool-cases (str_eq name key)) [
      | inl same ↦
          let e = (eq_iff name key).0 same in
          (
            new,
            subst (λ t. find (insert obj name (object new)) t ≡ some (object new)) e
                (find-insert_self obj name (object new)),
            keeps nested (subst (λ t. find obj t ≡ some (object nested)) (sym e) found) h,
          )
      | inr other ↦ (nested, find-insert_ne obj name key (object new) other ∙ found, h)
    ]

mutual
  unfolding fill_field FieldFilled nested_object to_object

  fill_field-FieldFilled :
      (obj : Members) (g f : FieldMeta) → FieldFilled obj f → FieldFilled (fill_field obj g) f
  fill_field-FieldFilled obj (field gh gf gs) (field fh ff fs) (given, nested) =
      let filled = fill_value obj gh.name gh.default_value in
      let test = is_object_type gh.field_type && has_fields gf in
      let new = fill_defaults (nested_object (find filled gh.name)) gf in
      (
        HasDefault-mono filled (store test filled gh.name new) fh.name fh.default_value
            (contains-store test filled gh.name fh.name new)
            (HasDefault-mono obj filled fh.name fh.default_value
              (contains-fill_value obj gh.name gh.default_value fh.name) given),
        store-NestedFilled test (is_object_type fh.field_type && has_fields ff)
            (λ body. Filled body ff) filled gh.name fh.name new
            (λ body found h.
              subst (λ t. Filled (fill_defaults t gf) ff) (sym (ap nested_object found))
                (fill_defaults-Filled body gf ff h))
            (NestedFilled-mono (is_object_type fh.field_type && has_fields ff)
              (λ body. Filled body ff) obj filled fh.name
              (find-fill_value obj gh.name gh.default_value fh.name) nested),
      )

  pub fill_defaults-Filled :
      (obj : Members) (gs fs : Fields) → Filled obj fs → Filled (fill_defaults obj gs) fs
  fill_defaults-Filled obj no_more fs h = h
  fill_defaults-Filled obj (more_fields g rest) fs h =
      fill_defaults-Filled (fill_field obj g) rest fs
        (Filled-each obj (fill_field obj g) (λ f here. fill_field-FieldFilled obj g f here) fs h)
