-- ===== src/Meta/OfType.antt =====
-- The verdict of checkType.
use stdiolink.Prelude.{
  ◌≡◌, ◌↔◌, inl, inr, refl, sym, ap, subst, ◌∙◌, Bool, true, false, Bool-cases, String, arith,
}
use mathlib.Core.Bool.{true≢false}
use stdiolink.Json.Value.{
  Json, boolean, number, string, array, object, Double, magnitude_lt, double_lt, is_integral, Items,
  Members, is_object, is_array, is_string, is_double, is_bool,
}
use stdiolink.Meta.Types.{
  FieldType, string_type, int_type, int64_type, double_type, bool_type, object_type, array_type,
  enum_type, any_type,
}
use stdiolink.Meta.Validator.{
  ValidationResult, fail, expect, is_int, is_out_of_safe_range, check_int, check_int64, check_type,
}
use stdiolink.Meta.Verdicts.{Valid, unless_only}
use stdiolink.Meta.Values.{IsInt32, IsSafe, HasType}

is_int-IsInt32 : (d : Double) → (is_int d ≡ true) ↔ IsInt32 d
unfolding is_int IsInt32 is_integral double_lt magnitude_lt
is_int-IsInt32 d = elim (Bool-cases d.negative) [
  | inl neg ↦ rw neg (ground arith)
  | inr positive ↦ rw positive (ground arith)
]

is_out_of_safe_range-IsSafe : (d : Double) → (is_out_of_safe_range d ≡ false) ↔ IsSafe d
unfolding is_out_of_safe_range IsSafe double_lt magnitude_lt
is_out_of_safe_range-IsSafe d = elim (Bool-cases d.negative) [
  | inl neg ↦ rw neg (ground arith)
  | inr positive ↦ rw positive (ground arith)
]

expect_iff : (test : Bool) (message : String) → Valid (expect test message) ↔ (test ≡ true)
unfolding expect fail
expect_iff true message = (λ h. refl, λ h. refl)
expect_iff false message = (λ h. h, λ h. h)

string_iff : (value : Json) → (is_string value ≡ true) ↔ ((s : String) × (value ≡ string s))
unfolding is_string
string_iff (string s) = (λ h. (s, refl), λ h. refl)
string_iff _ = (λ h. absurd (true≢false (sym h)), λ (s, e). ap is_string e)

number_iff : (value : Json) → (is_double value ≡ true) ↔ ((d : Double) × (value ≡ number d))
unfolding is_double
number_iff (number d) = (λ h. (d, refl), λ h. refl)
number_iff _ = (λ h. absurd (true≢false (sym h)), λ (d, e). ap is_double e)

boolean_iff : (value : Json) → (is_bool value ≡ true) ↔ ((b : Bool) × (value ≡ boolean b))
unfolding is_bool
boolean_iff (boolean b) = (λ h. (b, refl), λ h. refl)
boolean_iff _ = (λ h. absurd (true≢false (sym h)), λ (b, e). ap is_bool e)

object_iff : (value : Json) → (is_object value ≡ true) ↔ ((body : Members) × (value ≡ object body))
unfolding is_object
object_iff (object body) = (λ h. (body, refl), λ h. refl)
object_iff _ = (λ h. absurd (true≢false (sym h)), λ (body, e). ap is_object e)

array_iff : (value : Json) → (is_array value ≡ true) ↔ ((items : Items) × (value ≡ array items))
unfolding is_array
array_iff (array items) = (λ h. (items, refl), λ h. refl)
array_iff _ = (λ h. absurd (true≢false (sym h)), λ (items, e). ap is_array e)

both : (A B C : Type 0) → A ↔ B → B ↔ C → A ↔ C
both A B C f g = (λ a. g.0 (f.0 a), λ c. f.1 (g.1 c))

-- A test of a number, for a value that must be one.
number_only :
    (check : Json → ValidationResult) (P : Double → Type 0) (value : Json)
    → ((d : Double) → Valid (check (number d)) ↔ P d)
    → ((other : Json) → is_double other ≡ false → Valid (check other) → true ≡ false)
    → Valid (check value) ↔ ((d : Double) × (value ≡ number d) × P d)
number_only check P value same others = elim (Bool-cases (is_double value)) [
  | inl e ↦
      let (d, at_number) = (number_iff value).0 e in
      (
        λ h. (d, at_number, (same d).0 (subst (λ v. Valid (check v)) at_number h)),
        λ (n, at, p). subst (λ v. Valid (check v)) (sym at) ((same n).1 p),
      )
  | inr e ↦ (
    λ h. absurd (true≢false (others value e h)),
    λ (n, at, p). subst (λ v. Valid (check v)) (sym at) ((same n).1 p),
  )
]

no_int : (other : Json) → is_double other ≡ false → Valid (check_int other) → true ≡ false
unfolding check_int is_double fail
no_int (number d) e h = e
no_int _ e h = sym h

no_int64 : (other : Json) → is_double other ≡ false → Valid (check_int64 other) → true ≡ false
unfolding check_int64 is_double fail
no_int64 (number d) e h = e
no_int64 _ e h = sym h

int_iff : (d : Double) → Valid (check_int (number d)) ↔ IsInt32 d
unfolding check_int fail
int_iff d = elim (Bool-cases (is_int d)) [
  | inl e ↦ rw e (λ h. (is_int-IsInt32 d).0 e, λ h. refl)
  | inr e ↦ rw e (
    λ h. absurd (true≢false (sym h)),
    λ h. absurd (true≢false (sym ((is_int-IsInt32 d).1 h) ∙ e)),
  )
]

int64_iff : (d : Double) → Valid (check_int64 (number d)) ↔ IsSafe d
unfolding check_int64
int64_iff d = unless_only (is_out_of_safe_range d) "" _ (IsSafe d) (is_out_of_safe_range-IsSafe d)

-- checkType accepts the values of the type.
pub check_type-HasType :
    (value : Json) (t : FieldType) → Valid (check_type value t) ↔ HasType value t
unfolding check_type HasType
check_type-HasType value string_type =
    both _ _ _ (expect_iff (is_string value) _) (string_iff value)
check_type-HasType value int_type = number_only check_int IsInt32 value int_iff no_int
check_type-HasType value int64_type = number_only check_int64 IsSafe value int64_iff no_int64
check_type-HasType value double_type =
    both _ _ _ (expect_iff (is_double value) _) (number_iff value)
check_type-HasType value bool_type = both _ _ _ (expect_iff (is_bool value) _) (boolean_iff value)
check_type-HasType value object_type =
    both _ _ _ (expect_iff (is_object value) _) (object_iff value)
check_type-HasType value array_type = both _ _ _ (expect_iff (is_array value) _) (array_iff value)
check_type-HasType value enum_type = both _ _ _ (expect_iff (is_string value) _) (string_iff value)
check_type-HasType value any_type = (λ h. tt, λ h. refl)
