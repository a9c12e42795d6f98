-- ===== src/Modbus/Server/Process.antt =====
-- `processRtuRequest` on any frame: the invariant of the server, and the form of the response.
use stdiolink.Prelude.{
  ℕ, ◌-◌, ◌≡◌, ◌≤◌, ◌⊎◌, inl, inr, refl, ap, subst, ◌∙◌, bit_or, true, Bool-cases, Option, none,
  some, List, [], ◌∷◌, map, length, get_or, take, drop, All, All-get_or, All-take, All-drop,
  ltb-false, ◌==◌, arith,
}
use stdiolink.Prelude.Bits.{bit_or-lt}
use stdiolink.Modbus.Crc.{IsByte, append_crc, verify_crc}
use stdiolink.Modbus.Crc.Detect.{verify_crc-append_crc, length-append_crc}
use stdiolink.Modbus.Server.Area.{DataArea, Server, find_area, put_area}
use stdiolink.Modbus.Server.Pdu.{
  data_read, data_written, Exception, illegal_function, illegal_data_address, illegal_data_value,
  gateway_target_device_failed, exception_code, Handled, answer, refuse,
}
use stdiolink.Modbus.Server.Request.{
  Outcome, dispatch, finish, serve_unit, process_rtu_request, build_rtu_response,
  create_rtu_exception_response,
}
use stdiolink.Modbus.Server.Safety.{IsArea, SameSizes, IsSound}
use stdiolink.Modbus.Server.Safety.Handlers.{dispatch-Sound}

-- Every area of the server holds 16-bit registers.
abbrev pub IsServer : Server → Type 0
IsServer s = All (λ (p : ℕ × DataArea). IsArea p.1) s.units

-- The units and the sizes of their four tables.
abbrev pub sizes : List (ℕ × DataArea) → List (ℕ × ℕ × ℕ × ℕ × ℕ)
sizes units =
    map
      (λ (p : ℕ × DataArea). (
        p.0,
        length p.1.coils,
        length p.1.discrete_inputs,
        length p.1.holding_registers,
        length p.1.input_registers,
      ))
      units

IsArea-of_unit :
    (unit : ℕ) (units : List (ℕ × DataArea)) (area : DataArea)
    → All (λ (p : ℕ × DataArea). IsArea p.1) units
    → find_area unit units ≡ some area
    → IsArea area
unfolding find_area
IsArea-of_unit unit [] area h e = cc
IsArea-of_unit unit ((j, a) ∷ rest) area h e = elim (Bool-cases (j == unit)) [
  | inl hit ↦ let same : a ≡ area = ground arith in subst IsArea same h.0
  | inr miss ↦ IsArea-of_unit unit rest area h.1 (ground arith)
]

put_area-IsServer :
    (unit : ℕ) (area : DataArea) (units : List (ℕ × DataArea))
    → IsArea area
    → All (λ (p : ℕ × DataArea). IsArea p.1) units
    → All (λ (p : ℕ × DataArea). IsArea p.1) (put_area unit area units)
unfolding put_area
put_area-IsServer unit area [] v h = tt
put_area-IsServer unit area ((j, a) ∷ rest) v h = elim (Bool-cases (j == unit)) [
  | inl hit ↦ rw hit (v, h.1)
  | inr miss ↦ rw miss (h.0, put_area-IsServer unit area rest v h.1)
]

sizes-put_area :
    (unit : ℕ) (area old : DataArea) (units : List (ℕ × DataArea))
    → find_area unit units ≡ some old
    → SameSizes old area
    → sizes (put_area unit area units) ≡ sizes units
unfolding put_area find_area
sizes-put_area unit area old [] e same = refl
sizes-put_area unit area old ((j, a) ∷ rest) e same =
    ground (arith, sizes-put_area unit area old rest)

put_area_same :
    (unit : ℕ) (area : DataArea) (units : List (ℕ × DataArea))
    → find_area unit units ≡ some area
    → put_area unit area units ≡ units
unfolding put_area find_area
put_area_same unit area [] e = refl
put_area_same unit area ((j, a) ∷ rest) e = ground (arith, put_area_same unit area rest)

-- The frame that a handler's answer becomes.
abbrev IsResponse : ℕ → ℕ → List ℕ → Type 0
IsResponse unit fc response =
    (verify_crc response ≡ true)
    × All IsByte response
    × (length response ≤ 255)
    × (get_or response 0 0 ≡ unit)
    × ((get_or response 1 0 ≡ fc) ⊎ (get_or response 1 0 ≡ bit_or fc 0x80))

-- What a request leaves: the invariant, the sizes of the tables, a response, and a change of the
-- server only under a signal that says so.
pub record Kept (s : Server) (unit fc : ℕ) (o : Outcome) : Type 0 where
  pub valid : IsServer o.server
  pub same_sizes : sizes o.server.units ≡ sizes s.units
  pub response : IsResponse unit fc o.response
  pub quiet : (o.server ≡ s) ⊎ ((a : ℕ) × (q : ℕ) × (o.signal ≡ some (unit, fc, data_written a q)))

framed :
    (unit fc head : ℕ) (bytes : List ℕ)
    → All IsByte (unit ∷ head ∷ bytes)
    → length bytes ≤ 251
    → (head ≡ fc) ⊎ (head ≡ bit_or fc 0x80)
    → IsResponse unit fc (append_crc (unit ∷ head ∷ bytes))
framed unit fc head bytes h short code =
    let (ok, all) = verify_crc-append_crc (unit ∷ head ∷ bytes) h (omega arith) in
    (
      ok,
      all,
      omega (arith, length-append_crc (unit ∷ head ∷ bytes)),
      unfold append_crc in refl,
      unfold append_crc in code,
    )

exception_code-IsByte : (e : Exception) → IsByte (exception_code e)
unfolding exception_code
exception_code-IsByte illegal_function = omega arith
exception_code-IsByte illegal_data_address = omega arith
exception_code-IsByte illegal_data_value = omega arith
exception_code-IsByte gateway_target_device_failed = omega arith

refuse-Kept :
    (s : Server) (unit fc : ℕ) (e : Exception)
    → IsServer s
    → IsByte unit
    → IsByte fc
    → Kept s unit fc (finish s unit fc (refuse e))
unfolding finish create_rtu_exception_response build_rtu_response
refuse-Kept s unit fc e v hu hf = record {
  valid = v;
  same_sizes = refl;
  response =
      framed unit fc (bit_or fc 0x80) (exception_code e ∷ [])
        (hu, (bit_or-lt 8 fc 0x80 hf (omega arith), (exception_code-IsByte e, tt))) (omega arith)
        (inr refl);
  quiet = inl refl;
}

answer-Kept :
    (s : Server) (area : DataArea) (unit fc : ℕ) (h : Handled)
    → find_area unit s.units ≡ some area
    → IsServer s
    → IsByte unit
    → IsByte fc
    → IsSound area h
    → Kept s unit fc (finish s unit fc h)
unfolding finish build_rtu_response
answer-Kept s area unit fc (refuse e) found v hu hf sound = refuse-Kept s unit fc e v hu hf
answer-Kept s area unit fc (answer bytes area' (data_read a q)) found v hu hf sound = record {
  valid = put_area-IsServer unit area' s.units sound.3 v;
  same_sizes = sizes-put_area unit area' area s.units found sound.2;
  response = framed unit fc fc bytes (hu, (hf, sound.0)) sound.1 (inl refl);
  quiet = inl (
      ap (λ u. record { units = u })
        (ap (λ b. put_area unit b s.units) sound.4 ∙ put_area_same unit area s.units found));
}
answer-Kept s area unit fc (answer bytes area' (data_written a q)) found v hu hf sound = record {
  valid = put_area-IsServer unit area' s.units sound.3 v;
  same_sizes = sizes-put_area unit area' area s.units found sound.2;
  response = framed unit fc fc bytes (hu, (hf, sound.0)) sound.1 (inl refl);
  quiet = inr (a, q, refl);
}

serve_unit-Kept :
    (s : Server) (unit fc : ℕ) (request : List ℕ) (o : Option DataArea)
    → find_area unit s.units ≡ o
    → IsServer s
    → IsByte unit
    → IsByte fc
    → All IsByte request
    → Kept s unit fc (serve_unit s unit fc request o)
unfolding serve_unit
serve_unit-Kept s unit fc request none found v hu hf hr =
    refuse-Kept s unit fc gateway_target_device_failed v hu hf
serve_unit-Kept s unit fc request (some area) found v hu hf hr =
    answer-Kept s area unit fc (dispatch fc area request) found v hu hf
      ((dispatch-Sound area (IsArea-of_unit unit s.units area v found) request hr fc).sound)

-- For a server whose areas hold 16-bit registers and a frame of four bytes at least, whatever they
-- are: the areas keep 16-bit registers and their sizes, the server changes only in a request that
-- emits dataWritten, and the response has a valid checksum, at most 255 bytes, the unit of the
-- request, and its function code, with or without the exception bit.
pub process_rtu_request-Kept :
    (s : Server) (frame : List ℕ)
    → IsServer s
    → All IsByte frame
    → 4 ≤ length frame
    → Kept s (get_or frame 0 0) (get_or frame 1 0) (process_rtu_request s frame)
unfolding process_rtu_request
process_rtu_request-Kept s frame v h long = rw (ltb-false (length frame) 4 long) (
    serve_unit-Kept s (get_or frame 0 0) (get_or frame 1 0) (take (length frame - 4) (drop 2 frame))
      (find_area (get_or frame 0 0) s.units) refl v (All-get_or IsByte frame 0 0 (omega arith) h)
      (All-get_or IsByte frame 1 0 (omega arith) h)
      (All-take IsByte (length frame - 4) (drop 2 frame) (All-drop IsByte 2 frame h)))
