-- ===== src/Meta/Meeting.antt =====
-- The verdict of checkConstraints.
use stdiolink.Prelude.{
  ℕ, ◌≡◌, ◌⊎◌, ◌↔◌, inl, inr, refl, sym, ==_iff, ◌∙◌, Bool, true, false, not, ◌&&◌, Bool-cases,
  String, Option, none, some, ◌==◌, if◌then◌else◌, arith,
}
use mathlib.Core.Bool.{true≢false}
use text.Mathlib.Text.{◌==◌ as str_eq}
use text.Mathlib.TextEquality.{eq_iff}
use stdiolink.Prelude.Int.{ℤ, pos, negsuc}
use stdiolink.Json.Value.{Json, number, string, array, Double, double_lt, Items, count_items}
use stdiolink.Meta.Types.{FieldType, enum_type, Constraints, FieldHead, is_enum_type}
use stdiolink.Meta.Validator.{
  fixed, ValidationResult, okay, fail, and_then, is_below, is_above, check_min, check_max,
  check_items, check_text, check_enum, check_constraints,
}
use stdiolink.Meta.Verdicts.{Valid, and_then-Valid, unless_then, unless_only}
use stdiolink.Meta.Values.{AtLeast, AtMost, AboveMin, BelowMax, ItemsFit, TextFits, InEnum, Meets}

is_below-AtLeast : (n : ℕ) (bound : Option ℤ) → (is_below n bound ≡ false) ↔ AtLeast bound n
unfolding is_below AtLeast
is_below-AtLeast n none = (λ h. tt, λ h. refl)
is_below-AtLeast n (some (pos k)) = ground arith
is_below-AtLeast n (some (negsuc k)) = (λ h. tt, λ h. refl)

is_above-AtMost : (n : ℕ) (bound : Option ℤ) → (is_above n bound ≡ false) ↔ AtMost bound n
unfolding is_above AtMost
is_above-AtMost n none = (λ h. tt, λ h. refl)
is_above-AtMost n (some (pos k)) = ground arith
is_above-AtMost n (some (negsuc k)) = (λ h. absurd (true≢false h), λ h. elim h [ ])

check_min-AboveMin :
    (name : String) (bound : Option Double) (value : Json)
    → Valid (check_min name bound value) ↔ AboveMin bound value
unfolding check_min AboveMin
check_min-AboveMin name (some bound) (number d) =
    unless_only (double_lt d bound) name _ (double_lt d bound ≡ false) (λ h. h, λ h. h)
check_min-AboveMin name none value = (λ h. tt, λ h. refl)
check_min-AboveMin name (some bound) _ = (λ h. tt, λ h. refl)

check_max-BelowMax :
    (name : String) (bound : Option Double) (value : Json)
    → Valid (check_max name bound value) ↔ BelowMax bound value
unfolding check_max BelowMax
check_max-BelowMax name (some bound) (number d) =
    unless_only (double_lt bound d) name _ (double_lt bound d ≡ false) (λ h. h, λ h. h)
check_max-BelowMax name none value = (λ h. tt, λ h. refl)
check_max-BelowMax name (some bound) _ = (λ h. tt, λ h. refl)

check_items-ItemsFit :
    (name : String) (c : Constraints) (value : Json)
    → Valid (check_items name c value) ↔ ItemsFit c value
unfolding check_items ItemsFit
check_items-ItemsFit name c (array items) =
    unless_then (is_below (count_items items) c.min_items) name _ _
      (AtLeast c.min_items (count_items items)) (AtMost c.max_items (count_items items))
      (is_below-AtLeast (count_items items) c.min_items)
      (unless_only (is_above (count_items items) c.max_items) name _
        (AtMost c.max_items (count_items items)) (is_above-AtMost (count_items items) c.max_items))
check_items-ItemsFit name c _ = (λ h. tt, λ h. refl)

pattern_iff :
    (pattern : String) (found : Bool)
    → ((not (str_eq pattern "") && not found) ≡ false) ↔ ((pattern ≡ "") ⊎ (found ≡ true))
pattern_iff pattern true = elim (Bool-cases (str_eq pattern "")) [
  | inl e ↦ rw e (λ h. inr refl, λ h. refl)
  | inr e ↦ rw e (λ h. inr refl, λ h. refl)
]
pattern_iff pattern false = elim (Bool-cases (str_eq pattern "")) [
  | inl e ↦ rw e (λ h. inl ((eq_iff pattern "").0 e), λ h. refl)
  | inr e ↦ rw e (
    λ h. absurd (true≢false h),
    λ h. elim h [
      | inl same ↦ absurd (true≢false (sym ((eq_iff pattern "").1 same) ∙ e))
      | inr missed ↦ absurd (true≢false (sym missed))
    ],
  )
]

module _ (field_length : String → ℕ) (matches : String → String → Bool)
    (holds : Items → Json → Bool) (indexed : String → ℕ → String) where
  check_text-TextFits :
      (name : String) (c : Constraints) (value : Json)
      → Valid (check_text field_length matches holds indexed name c value)
        ↔ TextFits field_length matches holds c value
  unfolding check_text TextFits
  check_text-TextFits name c (string s) =
      let n = field_length s in
      let mismatch = not (str_eq c.pattern "") && not (matches c.pattern s) in
      let third : ValidationResult =
        if mismatch then fail name (fixed "pattern mismatch") else okay in
      let second : ValidationResult =
        if is_above n c.max_length then fail name (fixed "string too long") else third in
      let fits : Type 0 = (c.pattern ≡ "") ⊎ (matches c.pattern s ≡ true) in
      unless_then (is_below n c.min_length) name (fixed "string too short") second
        (AtLeast c.min_length n) (AtMost c.max_length n × fits) (is_below-AtLeast n c.min_length)
        (unless_then (is_above n c.max_length) name (fixed "string too long") third
          (AtMost c.max_length n) fits (is_above-AtMost n c.max_length)
          (unless_only mismatch name (fixed "pattern mismatch") fits
            (pattern_iff c.pattern (matches c.pattern s))))
  check_text-TextFits name c _ = (λ h. tt, λ h. refl)

  enum_listed :
      (name : String) (values : Items) (value : Json)
      → Valid (
          if not (count_items values == 0)
          then if not (holds values value) then fail name (fixed "invalid enum value") else okay
          else okay)
        ↔ ((count_items values ≡ 0) ⊎ (holds values value ≡ true))
  unfolding fail
  enum_listed name values value = elim (Bool-cases (count_items values == 0)) [
    | inl e ↦ rw e (λ h. inl ((==_iff (count_items values) 0).0 e), λ h. refl)
    | inr e ↦ elim (Bool-cases (holds values value)) [
      | inl listed ↦ rw (e, listed) (λ h. inr refl, λ h. refl)
      | inr other ↦
          rw (e, other)
            (
              λ h. absurd (true≢false (sym h)),
              λ h. elim h [
                | inl empty ↦
                    absurd (true≢false (sym ((==_iff (count_items values) 0).1 empty) ∙ e))
                | inr listed ↦ absurd (true≢false (sym listed))
              ],
            )
    ]
  ]

  check_enum-InEnum :
      (head : FieldHead) (value : Json)
      → Valid (check_enum field_length matches holds indexed head value)
        ↔ InEnum field_length matches holds head.field_type head.constraints.enum_values value
  unfolding check_enum InEnum is_enum_type
  check_enum-InEnum head value = enum_cases head.field_type
    where
      enum_cases :
          (t : FieldType)
          → Valid (
              if is_enum_type t && not (count_items head.constraints.enum_values == 0)
              then if not (holds head.constraints.enum_values value)
                then fail head.name (fixed "invalid enum value")
                else okay
              else okay)
            ↔ InEnum field_length matches holds t head.constraints.enum_values value
      enum_cases enum_type = enum_listed head.name head.constraints.enum_values value
      enum_cases _ = (λ h. tt, λ h. refl)

  -- checkConstraints accepts the values that meet them.
  pub check_constraints-Meets :
      (value : Json) (head : FieldHead)
      → Valid (check_constraints field_length matches holds indexed value head)
        ↔ Meets field_length matches holds value head
  unfolding check_constraints Meets
  check_constraints-Meets value head =
      let c = head.constraints in
      let first = check_min head.name c.min_value value in
      let second = check_max head.name c.max_value value in
      let third = check_text field_length matches holds indexed head.name c value in
      let fourth = check_enum field_length matches holds indexed head value in
      let fifth = check_items head.name c value in
      chain first (and_then second (and_then third (and_then fourth fifth))) _ _
        (check_min-AboveMin head.name c.min_value value)
        (chain second (and_then third (and_then fourth fifth)) _ _
          (check_max-BelowMax head.name c.max_value value)
          (chain third (and_then fourth fifth) _ _ (check_text-TextFits head.name c value) (
            chain fourth fifth _ _ (check_enum-InEnum head value)
              (check_items-ItemsFit head.name c value))))
    where
      chain :
          (a b : ValidationResult) (P Q : Type 0)
          → (Valid a ↔ P)
          → (Valid b ↔ Q)
          → Valid (and_then a b) ↔ (P × Q)
      chain a b P Q f g =
          let (split, join) = and_then-Valid a b in
          (λ h. (f.0 (split h).0, g.0 (split h).1), λ h. join (f.1 h.0, g.1 h.1))
