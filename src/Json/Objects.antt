-- ===== src/Json/Objects.antt =====
-- Lookups in an object after assignments.
use mathlib.Core.Bool.{false≢true}
use mathlib.Core.Option.{some-injective, none-ne-some}
use stdiolink.Prelude.{
  ◌≡◌, refl, sym, ap, subst, ◌∙◌, true, false, inl, inr, Bool-cases, Option-cases, String, none,
  some, if◌then◌else◌,
}
use text.Mathlib.Text.{◌==◌ as str_eq}
use text.Mathlib.TextEquality.{eq_iff}
use stdiolink.Json.Value.{Json, Members, no_members, member, find, contains, insert}

pub str_eq_same : (s : String) → str_eq s s ≡ true
str_eq_same s = (eq_iff s s).1 refl

pub find-insert_self :
    (m : Members) (key : String) (value : Json) → find (insert m key value) key ≡ some value
unfolding find insert
find-insert_self no_members key value = rw (str_eq_same key) refl
find-insert_self (member k v rest) key value = elim (Bool-cases (str_eq k key)) [
  | inl e ↦ rw (e, e) refl
  | inr e ↦ rw (e, e) (find-insert_self rest key value)
]

pub find-insert_ne :
    (m : Members) (key other : String) (value : Json)
    → str_eq key other ≡ false
    → find (insert m key value) other ≡ find m other
unfolding find insert
find-insert_ne no_members key other value ne = rw ne refl
find-insert_ne (member k v rest) key other value ne = elim (Bool-cases (str_eq k key)) [
  | inl e ↦
      let k_ne : str_eq k other ≡ false =
        subst (λ t. str_eq t other ≡ false) (sym ((eq_iff k key).0 e)) ne in
      rw (e, k_ne) refl
  | inr e ↦
      rw e (ap (λ t. if str_eq k other then some v else t) (find-insert_ne rest key other value ne))
]

-- An assignment of the value that a key has changes nothing.
pub insert_same :
    (m : Members) (key : String) (value : Json) → find m key ≡ some value → insert m key value ≡ m
unfolding find insert
insert_same no_members key value h = absurd (none-ne-some value h)
insert_same (member k v rest) key value h = elim (Bool-cases (str_eq k key)) [
  | inl e ↦ rw e (ap (λ t. member k t rest) (sym (some-injective v value (rw e at h))))
  | inr e ↦ rw e (ap (member k v) (insert_same rest key value (rw e at h)))
]

pub contains_found :
    (m : Members) (key : String) (value : Json) → find m key ≡ some value → contains m key ≡ true
unfolding contains
contains_found m key value h = ap (λ o. elim o [ none ↦ false | some v ↦ true ]) h

pub contains-insert :
    (m : Members) (key other : String) (value : Json)
    → contains m other ≡ true
    → contains (insert m key value) other ≡ true
unfolding contains
contains-insert m key other value h = elim (Bool-cases (str_eq key other)) [
  | inl e ↦ contains_found (insert m key value) other value (
      subst (λ t. find (insert m key value) t ≡ some value) ((eq_iff key other).0 e)
        (find-insert_self m key value))
  | inr e ↦
      ap (λ o. elim o [ none ↦ false | some v ↦ true ]) (find-insert_ne m key other value e) ∙ h
]

pub found_contains :
    (m : Members) (key : String) → contains m key ≡ true → (v : Json) × (find m key ≡ some v)
unfolding contains
found_contains m key h = elim (Option-cases (find m key)) [
  | inl e ↦ absurd (false≢true (sym (ap (λ o. elim o [ none ↦ false | some v ↦ true ]) e) ∙ h))
  | inr found ↦ found
]
