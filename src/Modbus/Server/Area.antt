-- ===== src/Modbus/Server/Area.antt =====
-- The units of the server and their data areas, with the accessors that the driver's commands call.
-- `m_unitDataAreas` is an association list; the mutex is not modelled, each call is one step.
use stdiolink.Prelude.{
  ℕ, ◌==◌, Bool, true, false, Option, none, some, List, [], ◌∷◌, length, get_or, set, replicate,
  leb, if◌then◌else◌,
}

pub record DataArea : Type 0 where
  pub coils : List Bool
  pub discrete_inputs : List Bool
  pub holding_registers : List ℕ
  pub input_registers : List ℕ

unfoldable pub new_area : ℕ → DataArea
new_area size = record {
  coils = replicate size false;
  discrete_inputs = replicate size false;
  holding_registers = replicate size 0;
  input_registers = replicate size 0;
}

pub record Server : Type 0 where
  pub units : List (ℕ × DataArea)

-- `m_unitDataAreas[unitId]`, and whether it is there.
unfoldable pub find_area : ℕ → List (ℕ × DataArea) → Option DataArea
find_area unit [] = none
find_area unit ((j, area) ∷ rest) = if j == unit then some area else find_area unit rest

-- What a write through the shared pointer does: the unit's area is replaced, the others stay.
unfoldable pub put_area : ℕ → DataArea → List (ℕ × DataArea) → List (ℕ × DataArea)
put_area unit area [] = []
put_area unit area ((j, old) ∷ rest) =
    if j == unit then (j, area) ∷ rest else (j, old) ∷ put_area unit area rest

unfoldable pub erase_area : ℕ → List (ℕ × DataArea) → List (ℕ × DataArea)
erase_area unit [] = []
erase_area unit ((j, old) ∷ rest) =
    let others = erase_area unit rest in if j == unit then others else (j, old) ∷ others

unfoldable pub has_unit : Server → ℕ → Bool
has_unit s unit = elim (find_area unit s.units) [ none ↦ false | some area ↦ true ]

unfoldable pub add_unit : Server → ℕ → ℕ → Server × Bool
add_unit s unit size =
    if has_unit s unit
    then (s, false)
    else (record { units = (unit, new_area size) ∷ s.units }, true)

unfoldable pub remove_unit : Server → ℕ → Server × Bool
remove_unit s unit =
    if has_unit s unit then (record { units = erase_area unit s.units }, true) else (s, false)

-- The eight accessors have one shape: no unit or an address out of range is refused.
module _ {A : Type 0} (items : DataArea → List A) (store : DataArea → List A → DataArea) where
  unfoldable pub write_item : Server → ℕ → ℕ → A → Server × Bool
  write_item s unit address value = elim (find_area unit s.units) [
    | none ↦ (s, false)
    | some area ↦ if leb (length (items area)) address then (s, false) else (
      record { units = put_area unit (store area (set (items area) address value)) s.units },
      true,
    )
  ]

module _ {A : Type 0} (items : DataArea → List A) (fallback : A) where
  unfoldable pub read_item : Server → ℕ → ℕ → Option A
  read_item s unit address = elim (find_area unit s.units) [
    | none ↦ none
    | some area ↦
        if leb (length (items area)) address
        then none
        else some (get_or (items area) address fallback)
  ]

unfoldable pub with_coils : DataArea → List Bool → DataArea
with_coils area items = record area { coils = items }

unfoldable pub with_discrete_inputs : DataArea → List Bool → DataArea
with_discrete_inputs area items = record area { discrete_inputs = items }

unfoldable pub with_holding_registers : DataArea → List ℕ → DataArea
with_holding_registers area items = record area { holding_registers = items }

unfoldable pub with_input_registers : DataArea → List ℕ → DataArea
with_input_registers area items = record area { input_registers = items }

unfoldable pub set_coil : Server → ℕ → ℕ → Bool → Server × Bool
set_coil = write_item (λ a. a.coils) with_coils

unfoldable pub get_coil : Server → ℕ → ℕ → Option Bool
get_coil = read_item (λ a. a.coils) false

unfoldable pub set_discrete_input : Server → ℕ → ℕ → Bool → Server × Bool
set_discrete_input = write_item (λ a. a.discrete_inputs) with_discrete_inputs

unfoldable pub get_discrete_input : Server → ℕ → ℕ → Option Bool
get_discrete_input = read_item (λ a. a.discrete_inputs) false

unfoldable pub set_holding_register : Server → ℕ → ℕ → ℕ → Server × Bool
set_holding_register = write_item (λ a. a.holding_registers) with_holding_registers

unfoldable pub get_holding_register : Server → ℕ → ℕ → Option ℕ
get_holding_register = read_item (λ a. a.holding_registers) 0

unfoldable pub set_input_register : Server → ℕ → ℕ → ℕ → Server × Bool
set_input_register = write_item (λ a. a.input_registers) with_input_registers

unfoldable pub get_input_register : Server → ℕ → ℕ → Option ℕ
get_input_register = read_item (λ a. a.input_registers) 0
