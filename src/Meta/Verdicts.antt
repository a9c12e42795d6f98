-- ===== src/Meta/Verdicts.antt =====
-- What the parts of a verdict say.
use stdiolink.Prelude.{
  ℕ, suc, ◌≡◌, ◌↔◌, refl, sym, subst, ◌∙◌, Bool, true, false, inl, inr, Bool-cases, String, Option,
  none, some, List, [], ◌∷◌, All, if◌then◌else◌,
}
use mathlib.Core.Bool.{true≢false}
use stdiolink.Json.Value.{Json, Items, no_items, item, Members, no_members, member, contains}
use stdiolink.Meta.Types.{Fields, no_more, more_fields, head_of}
use stdiolink.Meta.Validator.{
  ValidationText, okay, ValidationResult, fail, and_then, check_required, check_keys, is_known,
  check_unknown, within, if_present, each_item,
}

abbrev pub Valid : ValidationResult → Type 0
Valid result = result.valid ≡ true

abbrev pub Has : Members → String → Type 0
Has obj key = contains obj key ≡ true

-- Every required field is there.
unfoldable pub HasRequired : Members → Fields → Type 0
HasRequired obj no_more = Unit
HasRequired obj (more_fields f rest) =
    (if (head_of f).required then Has obj (head_of f).name else Unit) × HasRequired obj rest

-- Every key of the object names a field.
unfoldable pub OnlyKnown : Members → Fields → Type 0
OnlyKnown no_members metas = Unit
OnlyKnown (member key value rest) metas = (is_known metas key ≡ true) × OnlyKnown rest metas

unfoldable pub AllItems : (Json → Type 0) → Items → Type 0
AllItems holds no_items = Unit
AllItems holds (item value rest) = holds value × AllItems holds rest

unfoldable pub IfPresent : Option Json → (Json → Type 0) → Type 0
IfPresent none holds = Unit
IfPresent (some value) holds = holds value

pub and_then-Valid : (a b : ValidationResult) → Valid (and_then a b) ↔ (Valid a × Valid b)
unfolding and_then
and_then-Valid a b = (
  λ h. elim (Bool-cases a.valid) [
    | inl e ↦ (e, subst (λ t. Valid (if t then b else a)) e h)
    | inr e ↦ absurd (true≢false (sym (subst (λ t. Valid (if t then b else a)) e h) ∙ e))
  ],
  λ h. subst (λ t. Valid (if t then b else a)) (sym h.0) h.1,
)

pub located :
    (b : Bool) (r : ValidationResult) (name : String)
    → (if b then r else record r { error_field = name }).valid ≡ r.valid
located true r name = refl
located false r name = refl

pub within-valid : (name : String) (r : ValidationResult) → (within name r).valid ≡ r.valid
unfolding within
within-valid name r = located r.valid r _

-- A test that refuses, and what follows it.
pub unless_then :
    (test : Bool) (name : String) (message : ValidationText) (r : ValidationResult) (P Q : Type 0)
    → ((test ≡ false) ↔ P)
    → (Valid r ↔ Q)
    → Valid (if test then fail name message else r) ↔ (P × Q)
unfolding fail
unless_then true name message r P Q p q =
    (λ h. absurd (true≢false (sym h)), λ h. absurd (true≢false (p.1 h.0)))
unless_then false name message r P Q p q = (λ h. (p.0 refl, q.0 h), λ h. q.1 h.1)

pub unless_only :
    (test : Bool) (name : String) (message : ValidationText) (P : Type 0)
    → ((test ≡ false) ↔ P)
    → Valid (if test then fail name message else okay) ↔ P
unfolding fail
unless_only true name message P p =
    (λ h. absurd (true≢false (sym h)), λ h. absurd (true≢false (p.1 h)))
unless_only false name message P p = (λ h. p.0 refl, λ h. refl)

pub check_required-HasRequired :
    (obj : Members) (metas : Fields) → Valid (check_required obj metas) ↔ HasRequired obj metas
unfolding check_required HasRequired fail
check_required-HasRequired obj no_more = (λ h. tt, λ h. refl)
check_required-HasRequired obj (more_fields f rest) =
    let (sound, complete) = check_required-HasRequired obj rest in
    elim (Bool-cases (head_of f).required) [
      | inr free ↦ rw free (λ h. (tt, sound h), λ h. complete h.1)
      | inl needed ↦ elim (Bool-cases (contains obj (head_of f).name)) [
        | inl there ↦ rw (needed, there) (λ h. (refl, sound h), λ h. complete h.1)
        | inr missing ↦
            rw (needed, missing)
              (λ h. absurd (true≢false (sym h)), λ h. absurd (true≢false (sym h.0)))
      ]
    ]

pub check_keys-All :
    (obj : Members) (keys : List String) → Valid (check_keys obj keys) ↔ All (Has obj) keys
unfolding check_keys fail
check_keys-All obj [] = (λ h. tt, λ h. refl)
check_keys-All obj (key ∷ keys) =
    let (sound, complete) = check_keys-All obj keys in
    elim (Bool-cases (contains obj key)) [
      | inl there ↦ rw there (λ h. (refl, sound h), λ h. complete h.1)
      | inr missing ↦
          rw missing (λ h. absurd (true≢false (sym h)), λ h. absurd (true≢false (sym h.0)))
    ]

pub check_unknown-OnlyKnown :
    (obj : Members) (metas : Fields) → Valid (check_unknown obj metas) ↔ OnlyKnown obj metas
unfolding check_unknown OnlyKnown fail
check_unknown-OnlyKnown no_members metas = (λ h. tt, λ h. refl)
check_unknown-OnlyKnown (member key value rest) metas =
    let (sound, complete) = check_unknown-OnlyKnown rest metas in
    elim (Bool-cases (is_known metas key)) [
      | inl known ↦ rw known (λ h. (refl, sound h), λ h. complete h.1)
      | inr unknown ↦
          rw unknown (λ h. absurd (true≢false (sym h)), λ h. absurd (true≢false (sym h.0)))
    ]

pub each_item-AllItems :
    (validate : Json → ValidationResult) (place : ℕ → String) (P : Json → Type 0)
    → ((value : Json) → Valid (validate value) ↔ P value)
    → (i : ℕ) (items : Items) → Valid (each_item validate place i items) ↔ AllItems P items
unfolding each_item AllItems
each_item-AllItems validate place P same i no_items = (λ h. tt, λ h. refl)
each_item-AllItems validate place P same i (item value rest) =
    let (sound, complete) = each_item-AllItems validate place P same (suc i) rest in
    let others = each_item validate place (suc i) rest in
    let r = validate value in
    let bad : ValidationResult = record r { error_field = place i } in
    elim (Bool-cases r.valid) [
      | inl e ↦ (
        λ h. ((same value).0 e, sound (subst (λ t. Valid (if t then others else bad)) e h)),
        λ h. subst (λ t. Valid (if t then others else bad)) (sym e) (complete h.1),
      )
      | inr e ↦ (
        λ h. absurd (true≢false (sym (subst (λ t. Valid (if t then others else bad)) e h) ∙ e)),
        λ h. absurd (true≢false (sym ((same value).1 h.0) ∙ e)),
      )
    ]

pub if_present-IfPresent :
    (validate : Json → ValidationResult) (P : Json → Type 0)
    → ((value : Json) → Valid (validate value) ↔ P value)
    → (found : Option Json) → Valid (if_present found validate) ↔ IfPresent found P
unfolding if_present IfPresent
if_present-IfPresent validate P same none = (λ h. tt, λ h. refl)
if_present-IfPresent validate P same (some value) = same value
