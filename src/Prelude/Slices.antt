-- ===== src/Prelude/Slices.antt =====
-- Indexed reads of parts of lists, and writing one list over a part of another.
use Prim.Native.Nat.{ℕ, zero, suc, ◌+◌, ◌-◌, ◌≤◌, ◌<◌}
use mathlib.Core.Path.{◌≡◌, refl, ap, ap₂, sym, ◌∙◌}
use mathlib.Core.List.{List, [], ◌∷◌, ◌++◌, append-nil}
use native.Mathlib.Decide.{dec_lt}
use native.Mathlib.Omega.{arith}
use native.Mathlib.Nat.{zero-add, suc-add}
use stdiolink.Prelude.Lists.{
  length, get_or, set, take, drop, All, length-append, length-take, length-drop, take-append,
}

module _ {ℓ} {A : Type ℓ} where
  pub take-set_lt :
      (n i : ℕ) (xs : List A) (v : A) → i < n → take n (set xs i v) ≡ set (take n xs) i v
  take-set_lt zero i xs v h = elim h [ ]
  take-set_lt (suc n) i [] v h = refl
  take-set_lt (suc n) zero (x ∷ xs) v h = refl
  take-set_lt (suc n) (suc i) (x ∷ xs) v h = ap (λ t. x ∷ t) (take-set_lt n i xs v (omega arith))

  pub take-set_ge : (n i : ℕ) (xs : List A) (v : A) → n ≤ i → take n (set xs i v) ≡ take n xs
  take-set_ge zero i xs v h = refl
  take-set_ge (suc n) i [] v h = refl
  take-set_ge (suc n) zero (x ∷ xs) v h = elim h [ ]
  take-set_ge (suc n) (suc i) (x ∷ xs) v h = ap (λ t. x ∷ t) (take-set_ge n i xs v (omega arith))

  pub get_or-take : (n i : ℕ) (xs : List A) (d : A) → i < n → get_or (take n xs) i d ≡ get_or xs i d
  get_or-take zero i xs d h = elim h [ ]
  get_or-take (suc n) i [] d h = refl
  get_or-take (suc n) zero (x ∷ xs) d h = refl
  get_or-take (suc n) (suc i) (x ∷ xs) d h = get_or-take n i xs d (omega arith)

  pub get_or-append :
      (xs ys : List A) (i : ℕ) (d : A) → get_or (xs ++ ys) (length xs + i) d ≡ get_or ys i d
  get_or-append [] ys i d = rw zero-add
  get_or-append (x ∷ xs) ys i d = rw suc-add (get_or-append xs ys i d)

  pub All-take {κ} : (P : A → Type κ) (n : ℕ) (xs : List A) → All P xs → All P (take n xs)
  All-take P zero xs h = tt
  All-take P (suc n) [] h = tt
  All-take P (suc n) (x ∷ xs) h = (h.0, All-take P n xs h.1)

  pub All-drop {κ} : (P : A → Type κ) (n : ℕ) (xs : List A) → All P xs → All P (drop n xs)
  All-drop P zero xs h = h
  All-drop P (suc n) [] h = tt
  All-drop P (suc n) (x ∷ xs) h = All-drop P n xs h.1

  pub All-get_or {κ} :
      (P : A → Type κ) (xs : List A) (i : ℕ) (d : A) → P d → All P xs → P (get_or xs i d)
  All-get_or P [] i d pd h = pd
  All-get_or P (x ∷ xs) zero d pd h = h.0
  All-get_or P (x ∷ xs) (suc i) d pd h = All-get_or P xs i d pd h.1

  pub get_or-append_lt :
      (xs ys : List A) (i : ℕ) (d : A) → i < length xs → get_or (xs ++ ys) i d ≡ get_or xs i d
  get_or-append_lt [] ys i d h = elim h [ ]
  get_or-append_lt (x ∷ xs) ys zero d h = refl
  get_or-append_lt (x ∷ xs) ys (suc i) d h = get_or-append_lt xs ys i d (omega arith)

  pub get_or-drop : (n i : ℕ) (xs : List A) (d : A) → get_or (drop n xs) i d ≡ get_or xs (n + i) d
  get_or-drop zero i xs d = rw zero-add
  get_or-drop (suc n) i [] d = refl
  get_or-drop (suc n) i (x ∷ xs) d = rw suc-add (get_or-drop n i xs d)

  -- Two lists of one length with the same item at each index are equal.
  pub get_or_ext :
      (d : A) (xs ys : List A)
      → length xs ≡ length ys
      → ((i : ℕ) → i < length xs → get_or xs i d ≡ get_or ys i d)
      → xs ≡ ys
  get_or_ext d [] [] e h = refl
  get_or_ext d [] (y ∷ ys) e h = absurd (omega arith)
  get_or_ext d (x ∷ xs) [] e h = absurd (omega arith)
  get_or_ext d (x ∷ xs) (y ∷ ys) e h =
      ap₂ (λ a b. a ∷ b) (h 0 (omega arith))
        (get_or_ext d xs ys (omega arith) (λ i lt. h (suc i) (omega arith)))

  -- A list that is as long as a list that it begins is that list.
  pub whole_of_length : (xs ys zs : List A) → xs ++ ys ≡ zs → length zs ≤ length xs → xs ≡ zs
  whole_of_length xs [] zs e h = sym (append-nil xs) ∙ e
  whole_of_length xs (y ∷ ys) zs e h =
      absurd (omega (arith, ap length e, length-append xs (y ∷ ys)))

-- The item at an index of a slice.
pub get_or-slice {ℓ} :
    {A : Type ℓ} (n start i : ℕ) (xs : List A) (d : A)
    → i < n
    → get_or (take n (drop start xs)) i d ≡ get_or xs (start + i) d
get_or-slice n start i xs d h = get_or-take n i (drop start xs) d h ∙ get_or-drop start i xs d

pub length-slice {ℓ} :
    {A : Type ℓ} (n start : ℕ) (xs : List A)
    → start + n ≤ length xs
    → length (take n (drop start xs)) ≡ n
length-slice n start xs h = omega (arith, length-take n (drop start xs), length-drop start xs)

pub All-set {ℓ κ} :
    {A : Type ℓ} (P : A → Type κ) (xs : List A) (i : ℕ) (v : A)
    → P v
    → All P xs
    → All P (set xs i v)
All-set P [] i v pv h = tt
All-set P (x ∷ xs) zero v pv h = (pv, h.1)
All-set P (x ∷ xs) (suc i) v pv h = (h.0, All-set P xs i v pv h.1)

-- `ys` written over the items of `xs` from `start` on.
abbrev pub splice {ℓ} : {A : Type ℓ} → ℕ → List A → List A → List A
splice start ys xs = take start xs ++ (ys ++ drop (start + length ys) xs)

module _ {ℓ} {A : Type ℓ} where
  pub length-splice :
      (start : ℕ) (ys xs : List A)
      → start + length ys ≤ length xs
      → length (splice start ys xs) ≡ length xs
  length-splice start ys xs h = omega (
    arith,
    length-append (take start xs) (ys ++ drop (start + length ys) xs),
    length-append ys (drop (start + length ys) xs),
    length-take start xs,
    length-drop (start + length ys) xs,
  )

  pub slice-splice :
      (start : ℕ) (ys xs : List A)
      → start ≤ length xs
      → take (length ys) (drop start (splice start ys xs)) ≡ ys
  slice-splice zero ys xs h = take-append ys (drop (0 + length ys) xs)
  slice-splice (suc n) ys [] h = elim h [ ]
  slice-splice (suc n) ys (x ∷ xs) h = rw suc-add (slice-splice n ys xs (omega arith))

  get_or-append_at :
      (xs ys : List A) (i j : ℕ) (d : A) → i ≡ length xs + j → get_or (xs ++ ys) i d ≡ get_or ys j d
  get_or-append_at xs ys i j d e = ap (λ n. get_or (xs ++ ys) n d) e ∙ get_or-append xs ys j d

  -- A list that has `ys` from `start` on, and elsewhere the items of `xs`, is the splice.
  pub splice_ext :
      (d : A) (start : ℕ) (ys xs zs : List A)
      → start + length ys ≤ length xs
      → length zs ≡ length xs
      → ((i : ℕ) → i < start → get_or zs i d ≡ get_or xs i d)
      → ((i : ℕ) → i < length ys → get_or zs (start + i) d ≡ get_or ys i d)
      → ((i : ℕ) → start + length ys ≤ i → get_or zs i d ≡ get_or xs i d)
      → zs ≡ splice start ys xs
  splice_ext d start ys xs zs fits e before inside after =
      get_or_ext d zs (splice start ys xs) (e ∙ sym (length-splice start ys xs fits)) (λ i lt.
        elim (dec_lt i start) [
          | yes b ↦
              before i b
              ∙ sym (get_or-take start i xs d b)
              ∙ sym (
                  get_or-append_lt (take start xs) (ys ++ drop (start + length ys) xs) i d
                    (omega (arith, length-take start xs)))
          | no nb ↦
              let j = i - start in
              let here : start + j ≡ i = omega arith in
              let tail : get_or (splice start ys xs) i d
                  ≡ get_or (ys ++ drop (start + length ys) xs) j d =
                get_or-append_at (take start xs) (ys ++ drop (start + length ys) xs) i j d
                  (omega (arith, length-take start xs)) in
              elim (dec_lt j (length ys)) [
                | yes in_ys ↦
                    ap (λ n. get_or zs n d) (sym here)
                    ∙ inside j in_ys
                    ∙ sym (get_or-append_lt ys (drop (start + length ys) xs) j d in_ys)
                    ∙ sym tail
                | no beyond ↦
                    after i (omega arith)
                    ∙ ap (λ n. get_or xs n d)
                        (let k : i ≡ start + length ys + (j - length ys) = omega arith in k)
                    ∙ sym (get_or-drop (start + length ys) (j - length ys) xs d)
                    ∙ sym (
                        get_or-append_at ys (drop (start + length ys) xs) j (j - length ys) d
                          (omega arith))
                    ∙ sym tail
              ]
        ])
