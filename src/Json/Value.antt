-- ===== src/Json/Value.antt =====
-- QJsonValue with the queries that the sources make. A finite double is a sign, a mantissa and a power
-- of two to divide by, so comparisons are exact.
use stdiolink.Prelude.{
  ℕ, suc, ◌+◌, ◌-◌, ◌*◌, ◌/◌, ◌%◌, ◌^◌, Bool, true, false, not, String, Option, none, some, ltb,
  leb, ◌==◌, if◌then◌else◌,
}
use stdiolink.Prelude.Int.{ℤ, pos, negsuc}
use text.Mathlib.Text.{◌==◌ as str_eq}

-- The value of `mantissa / 2 ^ scale`, or its negative.
pub record Double : Type 0 where
  pub negative : Bool
  pub mantissa : ℕ
  pub scale : ℕ

mutual
  pub data Json : Type 0 where
    null : Json
    boolean : Bool → Json
    number : Double → Json
    string : String → Json
    array : Items → Json
    object : Members → Json

  pub data Items : Type 0 where
    no_items : Items
    item : Json → Items → Items

  -- The members of an object, in the order that an iterator visits them.
  pub data Members : Type 0 where
    no_members : Members
    member : String → Json → Members → Members

abbrev pub double_of : ℕ → Double
double_of n = record { negative = false; mantissa = n; scale = 0 }

-- `a < b`, by cross-multiplication.
unfoldable pub magnitude_lt : Double → Double → Bool
magnitude_lt a b = ltb (a.mantissa * 2 ^ b.scale) (b.mantissa * 2 ^ a.scale)

unfoldable pub double_lt : Double → Double → Bool
double_lt a b =
    if a.negative
    then if b.negative then magnitude_lt b a else ltb 0 (a.mantissa + b.mantissa)
    else if b.negative
    then false
    else magnitude_lt a b

-- Whether the value is an integer.
unfoldable pub is_integral : Double → Bool
is_integral d = d.mantissa % 2 ^ d.scale == 0

-- QJsonValue::toInt: the value of an integral number in the range of int, else 0.
unfoldable pub int_of : Double → ℤ
int_of d =
    let n = d.mantissa / 2 ^ d.scale in
    if not (is_integral d)
    then pos 0
    else if d.negative
    then if n == 0 then pos 0 else if leb n (2 ^ 31) then negsuc (n - 1) else pos 0
    else if ltb n (2 ^ 31)
    then pos n
    else pos 0

-- QJsonObject::value, with `none` for Undefined, which `contains` tests.
unfoldable pub find : Members → String → Option Json
find no_members key = none
find (member k v rest) key = if str_eq k key then some v else find rest key

unfoldable pub contains : Members → String → Bool
contains members key = elim (find members key) [ none ↦ false | some v ↦ true ]

-- The assignment `object[key] = value`. A new key goes to the end, where Qt keeps the keys sorted:
-- nothing modelled iterates over an object after an assignment.
unfoldable pub insert : Members → String → Json → Members
insert no_members key value = member key value no_members
insert (member k v rest) key value =
    let more = insert rest key value in
    if str_eq k key then member k value rest else member k v more

unfoldable pub count_items : Items → ℕ
count_items no_items = 0
count_items (item x rest) = suc (count_items rest)

unfoldable pub is_object : Json → Bool
is_object (object body) = true
is_object _ = false

unfoldable pub is_array : Json → Bool
is_array (array items) = true
is_array _ = false

unfoldable pub is_string : Json → Bool
is_string (string s) = true
is_string _ = false

unfoldable pub is_double : Json → Bool
is_double (number d) = true
is_double _ = false

unfoldable pub is_bool : Json → Bool
is_bool (boolean b) = true
is_bool _ = false

unfoldable pub is_null : Json → Bool
is_null null = true
is_null _ = false

-- toObject, toArray, toString and toInt, which give an empty value for another type.
unfoldable pub to_object : Json → Members
to_object (object body) = body
to_object _ = no_members

unfoldable pub to_array : Json → Items
to_array (array items) = items
to_array _ = no_items

unfoldable pub to_text : Json → String
to_text (string s) = s
to_text _ = ""

unfoldable pub to_int : Json → ℤ
to_int (number d) = int_of d
to_int _ = pos 0
