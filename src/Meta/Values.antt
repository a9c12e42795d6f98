-- ===== src/Meta/Values.antt =====
-- The values that a type and its constraints allow.
use stdiolink.Prelude.{
  ℕ, ◌*◌, ◌%◌, ◌^◌, ◌≡◌, ◌≤◌, ◌<◌, ◌⊎◌, Bool, true, false, String, Option, none, some,
  if◌then◌else◌,
}
use stdiolink.Prelude.Int.{ℤ, pos, negsuc}
use stdiolink.Json.Value.{
  Json, boolean, number, string, array, object, Double, double_lt, Items, Members, count_items,
}
use stdiolink.Meta.Types.{
  FieldType, string_type, int_type, int64_type, double_type, bool_type, object_type, array_type,
  enum_type, any_type, Constraints, FieldHead,
}

-- The value `mantissa / 2 ^ scale`, or its negative, is whole and at least -2 ^ 31 and below 2 ^ 31.
unfoldable pub IsInt32 : Double → Type 0
IsInt32 d =
    (d.mantissa % 2 ^ d.scale ≡ 0)
    × (if d.negative then d.mantissa ≤ 2 ^ 31 * 2 ^ d.scale else d.mantissa < 2 ^ 31 * 2 ^ d.scale)

-- The value is at most 2 ^ 53 away from zero, whole or not.
unfoldable pub IsSafe : Double → Type 0
IsSafe d = d.mantissa ≤ 2 ^ 53 * 2 ^ d.scale

-- The value is of the type. An int64 need not be whole.
unfoldable pub HasType : Json → FieldType → Type 0
HasType value string_type = (s : String) × (value ≡ string s)
HasType value int_type = (d : Double) × (value ≡ number d) × IsInt32 d
HasType value int64_type = (d : Double) × (value ≡ number d) × IsSafe d
HasType value double_type = (d : Double) × (value ≡ number d)
HasType value bool_type = (b : Bool) × (value ≡ boolean b)
HasType value object_type = (body : Members) × (value ≡ object body)
HasType value array_type = (items : Items) × (value ≡ array items)
HasType value enum_type = (s : String) × (value ≡ string s)
HasType value any_type = Unit

unfoldable pub AtLeast : Option ℤ → ℕ → Type 0
AtLeast none n = Unit
AtLeast (some (pos k)) n = k ≤ n
AtLeast (some (negsuc k)) n = Unit

unfoldable pub AtMost : Option ℤ → ℕ → Type 0
AtMost none n = Unit
AtMost (some (pos k)) n = n ≤ k
AtMost (some (negsuc k)) n = n < 0

-- A number is not below the minimum, and not above the maximum.
unfoldable pub AboveMin : Option Double → Json → Type 0
AboveMin (some bound) (number d) = double_lt d bound ≡ false
AboveMin bound value = Unit

unfoldable pub BelowMax : Option Double → Json → Type 0
BelowMax (some bound) (number d) = double_lt bound d ≡ false
BelowMax bound value = Unit

unfoldable pub ItemsFit : Constraints → Json → Type 0
ItemsFit c (array items) =
    AtLeast c.min_items (count_items items) × AtMost c.max_items (count_items items)
ItemsFit c value = Unit

module _ (field_length : String → ℕ) (matches : String → String → Bool)
    (holds : Items → Json → Bool) where
  -- A string has a length within its bounds and matches the pattern, if there is one.
  unfoldable pub TextFits : Constraints → Json → Type 0
  TextFits c (string s) =
      AtLeast c.min_length (field_length s)
      × (AtMost c.max_length (field_length s) × ((c.pattern ≡ "") ⊎ (matches c.pattern s ≡ true)))
  TextFits c value = Unit

  -- A value of an enum with values listed is one of them.
  unfoldable pub InEnum : FieldType → Items → Json → Type 0
  InEnum enum_type values value = (count_items values ≡ 0) ⊎ (holds values value ≡ true)
  InEnum _ values value = Unit

  unfoldable pub Meets : Json → FieldHead → Type 0
  Meets value head =
      let c = head.constraints in
      AboveMin c.min_value value
      × (BelowMax c.max_value value
          × (TextFits c value × (InEnum head.field_type c.enum_values value × ItemsFit c value)))
