-- ===== src/Meta/Conforms.antt =====
-- The values that a field's metadata allows, and the verdicts of MetaValidator.
use stdiolink.Prelude.{
  ℕ, ◌↔◌, refl, sym, subst, ◌∙◌, Bool, true, false, ◌&&◌, inl, inr, Bool-cases, String, List, All,
  if◌then◌else◌,
}
use mathlib.Core.Bool.{true≢false}
use stdiolink.Json.Value.{Json, Items, Members, find, to_object, to_array}
use stdiolink.Meta.Types.{
  FieldHead, FieldMeta, field, Fields, no_more, more_fields, ItemMeta, no_item, item_meta, head_of,
  has_fields, is_object_type, is_array_type,
}
use stdiolink.Meta.Validator.{
  ValidationResult, okay, and_then, check_type, check_required, check_keys, check_unknown,
  object_result, within, if_present, check_constraints, check_value, validate_field, validate_each,
  validate_array, validate_object,
}
use stdiolink.Meta.Values.{HasType, Meets}
use stdiolink.Meta.OfType.{check_type-HasType}
use stdiolink.Meta.Meeting.{check_constraints-Meets}
use stdiolink.Meta.Verdicts.{
  Valid, Has, HasRequired, OnlyKnown, AllItems, IfPresent, and_then-Valid, within-valid,
  check_required-HasRequired, check_keys-All, check_unknown-OnlyKnown, each_item-AllItems,
  if_present-IfPresent,
}

module _ (field_length : String → ℕ) (matches : String → String → Bool)
    (holds : Items → Json → Bool) (indexed : String → ℕ → String) where
  unfoldable mutual
    -- The value has the field's type and meets its constraints; an object has what its fields
    -- require, and its members conform to them; the items of an array conform to their schema.
    pub Conforms : Json → FieldMeta → Type 0
    Conforms value (field head metas schema) =
        HasType value head.field_type
        × Meets field_length matches holds value head
        × (if is_object_type head.field_type && has_fields metas
            then HasRequired (to_object value) metas
              × All (Has (to_object value)) head.required_keys
              × EachConforms (to_object value) metas
            else Unit)
        × (if is_array_type head.field_type then ItemsConform (to_array value) schema else Unit)

    pub EachConforms : Members → Fields → Type 0
    EachConforms obj no_more = Unit
    EachConforms obj (more_fields f rest) =
        IfPresent (find obj (head_of f).name) (λ value. Conforms value f) × EachConforms obj rest

    pub ItemsConform : Items → ItemMeta → Type 0
    ItemsConform items no_item = Unit
    ItemsConform items (item_meta f) = AllItems (λ value. Conforms value f) items

module _ (field_length : String → ℕ) (matches : String → String → Bool)
    (holds : Items → Json → Bool) (indexed : String → ℕ → String) where
  check_value-Valid :
      (value : Json) (head : FieldHead)
      → Valid (check_value field_length matches holds indexed value head)
        ↔ (HasType value head.field_type × Meets field_length matches holds value head)
  unfolding check_value
  check_value-Valid value head =
      let typed = check_type value head.field_type in
      let rest = check_constraints field_length matches holds indexed value head in
      let bad : ValidationResult = record typed { error_field = head.name } in
      let of_type = check_type-HasType value head.field_type in
      let meets = check_constraints-Meets field_length matches holds indexed value head in
      (
        λ h. elim (Bool-cases typed.valid) [
          | inl e ↦ (of_type.0 e, meets.0 (subst (λ t. Valid (if t then rest else bad)) e h))
          | inr e ↦ absurd (true≢false (sym (subst (λ t. Valid (if t then rest else bad)) e h) ∙ e))
        ],
        λ h. subst (λ t. Valid (if t then rest else bad)) (sym (of_type.1 h.0)) (meets.1 h.1),
      )

  -- A test that applies to some types only.
  only_if :
      (test : Bool) (r : ValidationResult) (P : Type 0)
      → (Valid r ↔ P)
      → Valid (if test then r else okay) ↔ (if test then P else Unit)
  only_if true r P same = same
  only_if false r P same = (λ h. tt, λ h. refl)

  unless :
      (test : Bool) (r : ValidationResult) (P : Type 0)
      → (Valid r ↔ P)
      → Valid (if test then okay else r) ↔ (if test then Unit else P)
  unless true r P same = (λ h. tt, λ h. refl)
  unless false r P same = same

  object_result-Valid :
      (obj : Members) (metas : Fields) (keys : List String) (allow_unknown : Bool)
      (each : ValidationResult)
      → Valid (object_result obj metas keys allow_unknown each) ↔ (
          HasRequired obj metas
          × All (Has obj) keys
          × Valid each
          × (if allow_unknown then Unit else OnlyKnown obj metas))
  unfolding object_result
  object_result-Valid obj metas keys allow_unknown each =
      let unknown = if allow_unknown then okay else check_unknown obj metas in
      let (split1, join1) =
        and_then-Valid (check_required obj metas)
          (and_then (check_keys obj keys) (and_then each unknown)) in
      let (split2, join2) = and_then-Valid (check_keys obj keys) (and_then each unknown) in
      let (split3, join3) = and_then-Valid each unknown in
      let (required, has_required) = check_required-HasRequired obj metas in
      let (keyed, has_keys) = check_keys-All obj keys in
      let (known, only_known) =
        unless allow_unknown (check_unknown obj metas) (OnlyKnown obj metas)
          (check_unknown-OnlyKnown obj metas) in
      (
        λ h.
            let (first, h1) = split1 h in
            let (second, h2) = split2 h1 in
            let (third, fourth) = split3 h2 in (required first, keyed second, third, known fourth),
        λ h. join1 (has_required h.0, join2 (has_keys h.1, join3 (h.2, only_known h.3))),
      )

  within_object :
      (name : String) (obj : Members) (metas : Fields) (keys : List String)
      (each : ValidationResult) (E : Type 0)
      → (Valid each ↔ E)
      → Valid (within name (object_result obj metas keys true each))
        ↔ (HasRequired obj metas × All (Has obj) keys × E)
  within_object name obj metas keys each E (sound, complete) =
      let same = within-valid name (object_result obj metas keys true each) in
      let (split, join) = object_result-Valid obj metas keys true each in
      (
        λ h.
            let (required, keyed, rest, any) = split (sym same ∙ h) in
            (required, keyed, sound rest),
        λ h. same ∙ join (h.0, h.1, complete h.2, tt),
      )

  mutual
    unfolding validate_field Conforms

    validate_field-Conforms :
        (value : Json) (f : FieldMeta)
        → Valid (validate_field field_length matches holds indexed value f)
          ↔ Conforms field_length matches holds indexed value f
    validate_field-Conforms value (field head metas schema) =
        let obj = to_object value in
        let each = validate_each field_length matches holds indexed obj metas in
        let object_part = within head.name (object_result obj metas head.required_keys true each) in
        let array_part =
          validate_array field_length matches holds indexed head.name (to_array value) schema in
        let is_object = is_object_type head.field_type && has_fields metas in
        let is_array = is_array_type head.field_type in
        let (checked, check) = check_value-Valid value head in
        let (split1, join1) =
          and_then-Valid (check_value field_length matches holds indexed value head) (
            and_then (if is_object then object_part else okay)
              (if is_array then array_part else okay)) in
        let (split2, join2) =
          and_then-Valid (if is_object then object_part else okay)
            (if is_array then array_part else okay) in
        let (object_sound, object_complete) =
          only_if is_object object_part
            (HasRequired obj metas
              × All (Has obj) head.required_keys
              × EachConforms field_length matches holds indexed obj metas)
            (within_object head.name obj metas head.required_keys each
              (EachConforms field_length matches holds indexed obj metas)
              (validate_each-EachConforms obj metas)) in
        let (array_sound, array_complete) =
          only_if is_array array_part
            (ItemsConform field_length matches holds indexed (to_array value) schema)
            (validate_array-ItemsConform head.name (to_array value) schema) in
        (
          λ h.
              let (first, h1) = split1 h in
              let (second, third) = split2 h1 in
              let (typed, constrained) = checked first in
              (typed, constrained, object_sound second, array_sound third),
          λ h. join1 (check (h.0, h.1), join2 (object_complete h.2, array_complete h.3)),
        )

    validate_each-EachConforms :
        (obj : Members) (metas : Fields)
        → Valid (validate_each field_length matches holds indexed obj metas)
          ↔ EachConforms field_length matches holds indexed obj metas
    validate_each-EachConforms obj no_more = (λ h. tt, λ h. refl)
    validate_each-EachConforms obj (more_fields f rest) =
        let (split, join) =
          and_then-Valid
            (if_present (find obj (head_of f).name)
              (λ value. validate_field field_length matches holds indexed value f))
            (validate_each field_length matches holds indexed obj rest) in
        let (sound, complete) =
          if_present-IfPresent (λ value. validate_field field_length matches holds indexed value f)
            (λ value. Conforms field_length matches holds indexed value f)
            (λ value. validate_field-Conforms value f) (find obj (head_of f).name) in
        let (sound_rest, complete_rest) = validate_each-EachConforms obj rest in
        (
          λ h. (sound (split h).0, sound_rest (split h).1),
          λ h. join (complete h.0, complete_rest h.1),
        )

    validate_array-ItemsConform :
        (name : String) (items : Items) (schema : ItemMeta)
        → Valid (validate_array field_length matches holds indexed name items schema)
          ↔ ItemsConform field_length matches holds indexed items schema
    validate_array-ItemsConform name items no_item = (λ h. tt, λ h. refl)
    validate_array-ItemsConform name items (item_meta f) =
        each_item-AllItems (λ value. validate_field field_length matches holds indexed value f)
          (indexed name) (λ value. Conforms field_length matches holds indexed value f)
          (λ value. validate_field-Conforms value f) 0 items

  -- An object is accepted exactly when every required field and key is there; each member that a field
  -- names has the field's type and meets its constraints, at every depth of objects with fields of their
  -- own and arrays with an item schema; and, unless unknown members are allowed, every member is named
  -- by a field. An int is a whole number in the range of 32 bits; an int64 is any number, whole or not,
  -- at most 2 ^ 53 away from zero. Constraints bound a number, a string's length, which must also match
  -- the pattern, and an array's size, whatever the type of the field, and an enum's values.
  pub validate_object-Conforms :
      (obj : Members) (metas : Fields) (keys : List String) (allow_unknown : Bool)
      → Valid (validate_object field_length matches holds indexed obj metas keys allow_unknown) ↔ (
          HasRequired obj metas
          × All (Has obj) keys
          × EachConforms field_length matches holds indexed obj metas
          × (if allow_unknown then Unit else OnlyKnown obj metas))
  unfolding validate_object
  validate_object-Conforms obj metas keys allow_unknown =
      let each = validate_each field_length matches holds indexed obj metas in
      let (split, join) = object_result-Valid obj metas keys allow_unknown each in
      let (sound, complete) = validate_each-EachConforms obj metas in
      (
        λ h. let (required, keyed, rest, known) = split h in (required, keyed, sound rest, known),
        λ h. join (h.0, h.1, complete h.2, h.3),
      )
