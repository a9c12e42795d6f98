-- ===== src/Modbus/Session/WriteRegisters.antt =====
-- The client's write of registers, at the server.
use stdiolink.Prelude.{
  ℕ, zero, suc, ◌+◌, ◌*◌, ◌/◌, ◌%◌, ◌^◌, ◌≡◌, ◌≤◌, ◌<◌, refl, ap, ap₂, ◌∙◌, some, List, [], ◌∷◌,
  ◌++◌, length, length-set, get_or, get_or-set_self, get_or-set_ne, get_or-append, take, drop, set,
  splice, splice_ext, All, All-get_or, All-append, All-take, All-drop, ltb-false, ==_self, arith,
}
use stdiolink.Modbus.Crc.{IsWord, append_crc}
use stdiolink.Modbus.Client.Frame.{build_request}
use stdiolink.Modbus.Client.Call.{DataStream, stream_registers, write_registers_pdu}
use stdiolink.Modbus.Server.Area.{DataArea, Server, find_area, put_area}
use stdiolink.Modbus.Server.Pdu
use stdiolink.Modbus.Server.Pdu.{
  Handled, answer, data_written, bytes_to_uint16, uint16_to_bytes, store_registers,
}
use stdiolink.Modbus.Server.Request.{
  process_rtu_request, serve_unit, dispatch, finish, build_rtu_response,
}
use stdiolink.Modbus.Session.Requests.{process-build_request}
use stdiolink.Modbus.Session.Bytes.{bytes_to_uint16_at, two_more, two_more_one}

length-store_registers :
    (request : List ℕ) (a rounds i : ℕ) (registers : List ℕ)
    → length (store_registers request a rounds i registers) ≡ length registers
unfolding store_registers
length-store_registers request a zero i registers = refl
length-store_registers request a (suc rounds) i registers =
    length-store_registers request a rounds (i + 1)
      (set registers (a + i) (bytes_to_uint16 request (5 + i * 2)))
    ∙ length-set registers (a + i) (bytes_to_uint16 request (5 + i * 2))

store_registers_before :
    (request : List ℕ) (a rounds i : ℕ) (registers : List ℕ) (j : ℕ)
    → j < a + i
    → get_or (store_registers request a rounds i registers) j 0 ≡ get_or registers j 0
unfolding store_registers
store_registers_before request a zero i registers j h = refl
store_registers_before request a (suc rounds) i registers j h =
    let v = bytes_to_uint16 request (5 + i * 2) in
    store_registers_before request a rounds (i + 1) (set registers (a + i) v) j (omega arith)
    ∙ get_or-set_ne registers (a + i) j v 0 (omega arith)

store_registers_after :
    (request : List ℕ) (a rounds i : ℕ) (registers : List ℕ) (j : ℕ)
    → a + i + rounds ≤ j
    → get_or (store_registers request a rounds i registers) j 0 ≡ get_or registers j 0
unfolding store_registers
store_registers_after request a zero i registers j h = refl
store_registers_after request a (suc rounds) i registers j h =
    let v = bytes_to_uint16 request (5 + i * 2) in
    store_registers_after request a rounds (i + 1) (set registers (a + i) v) j (omega arith)
    ∙ get_or-set_ne registers (a + i) j v 0 (omega arith)

store_registers_inside :
    (request : List ℕ) (a rounds i : ℕ) (registers : List ℕ) (k : ℕ)
    → k < rounds
    → a + i + rounds ≤ length registers
    → get_or (store_registers request a rounds i registers) (a + (i + k)) 0
      ≡ bytes_to_uint16 request (5 + (i + k) * 2)
unfolding store_registers
store_registers_inside request a zero i registers k lt fits = elim lt [ ]
store_registers_inside request a (suc rounds) i registers zero lt fits =
    let v = bytes_to_uint16 request (5 + i * 2) in
    let e : a + (i + 0) ≡ a + i = omega arith in
    let e' : i + 0 ≡ i = omega arith in
    rw (e, e')
      (store_registers_before request a rounds (i + 1) (set registers (a + i) v) (a + i)
          (omega arith)
        ∙ get_or-set_self registers (a + i) v 0 (omega arith))
store_registers_inside request a (suc rounds) i registers (suc k) lt fits =
    let v = bytes_to_uint16 request (5 + i * 2) in
    let e : i + suc k ≡ i + 1 + k = omega arith in
    rw e (
      store_registers_inside request a rounds (i + 1) (set registers (a + i) v) k (omega arith)
        (omega (arith, length-set registers (a + i) v)))

-- The bytes of the values in a request.
abbrev pub value_bytes : List ℕ → List ℕ
value_bytes [] = []
value_bytes (v ∷ rest) = v / 256 ∷ v % 256 ∷ value_bytes rest

pub length-value_bytes : (values : List ℕ) → length (value_bytes values) ≡ length values * 2
length-value_bytes [] = refl
length-value_bytes (v ∷ rest) = omega (arith, length-value_bytes rest)

get_or-value_bytes :
    (values : List ℕ) (k : ℕ)
    → (get_or (value_bytes values) (k * 2) 0 ≡ get_or values k 0 / 256)
      × (get_or (value_bytes values) (k * 2 + 1) 0 ≡ get_or values k 0 % 256)
get_or-value_bytes [] k = (omega arith, omega arith)
get_or-value_bytes (v ∷ rest) zero = (refl, refl)
get_or-value_bytes (v ∷ rest) (suc k) = rw (two_more k, two_more_one k) (get_or-value_bytes rest k)

stream_registers-value_bytes :
    (stream : DataStream) (values : List ℕ)
    → All IsWord values
    → stream_registers stream values ≡ value_bytes values
unfolding stream_registers
stream_registers-value_bytes stream [] h = refl
stream_registers-value_bytes stream (v ∷ rest) h =
    ap₂ (λ x y. x ++ y) (stream.put_uint16_lem v h.0) (stream_registers-value_bytes stream rest h.1)

-- The data of the request, as the server sees it.
abbrev pub write_payload : ℕ → List ℕ → List ℕ
write_payload a values =
    let c = length values in a / 256 ∷ a % 256 ∷ c / 256 ∷ c % 256 ∷ (c * 2) ∷ value_bytes values

pub write_registers_pdu-payload :
    (stream : DataStream) (a : ℕ) (values : List ℕ)
    → IsWord a
    → All IsWord values
    → length values ≤ 123
    → write_registers_pdu stream a values ≡ write_payload a values
unfolding write_registers_pdu
write_registers_pdu-payload stream a values ha words small =
    let c = length values in
    let e : c % 2 ^ 16 ≡ c = omega arith in
    let e' : c * 2 % 256 ≡ c * 2 = omega arith in
    rw (
      e,
      e',
      stream.put_uint16_lem a ha,
      stream.put_uint16_lem c (omega arith),
      stream_registers-value_bytes stream values words,
    )

payload_value :
    (a : ℕ) (values : List ℕ) (k : ℕ)
    → All IsWord values
    → bytes_to_uint16 (write_payload a values) (5 + k * 2) ≡ get_or values k 0
payload_value a values k words =
    let c = length values in
    let front : List ℕ = a / 256 ∷ a % 256 ∷ c / 256 ∷ c % 256 ∷ (c * 2) ∷ [] in
    let (high, low) = get_or-value_bytes values k in
    bytes_to_uint16_at (write_payload a values) (5 + k * 2) (get_or values k 0)
      (All-get_or IsWord values k 0 (omega arith) words)
      (get_or-append front (value_bytes values) (k * 2) 0 ∙ high)
      (ap (λ n. get_or (write_payload a values) n 0)
          (let e : 5 + k * 2 + 1 ≡ 5 + (k * 2 + 1) = omega arith in e)
        ∙ get_or-append front (value_bytes values) (k * 2 + 1) 0
        ∙ low)

-- The registers after the server's loop: the values over what was there.
store_registers-splice :
    (a : ℕ) (values registers : List ℕ)
    → All IsWord values
    → a + length values ≤ length registers
    → store_registers (write_payload a values) a (length values) 0 registers
      ≡ splice a values registers
store_registers-splice a values registers words fits =
    let request = write_payload a values in
    splice_ext 0 a values registers (store_registers request a (length values) 0 registers) fits
      (length-store_registers request a (length values) 0 registers)
      (λ i h. store_registers_before request a (length values) 0 registers i (omega arith))
      (λ i h.
        ap (λ n. get_or (store_registers request a (length values) 0 registers) n 0)
          (let e : a + i ≡ a + (0 + i) = omega arith in e)
        ∙ store_registers_inside request a (length values) 0 registers i h (omega arith)
        ∙ ap (λ n. bytes_to_uint16 request (5 + n * 2)) (let e : 0 + i ≡ i = omega arith in e)
        ∙ payload_value a values i words)
      (λ i h. store_registers_after request a (length values) 0 registers i (omega arith))

write_multiple_registers_in_range :
    (area : DataArea) (a : ℕ) (values : List ℕ)
    → IsWord a
    → All IsWord values
    → 1 ≤ length values
    → length values ≤ 123
    → a + length values ≤ length area.holding_registers
    → Pdu.write_multiple_registers area (write_payload a values)
      ≡ answer
          (uint16_to_bytes a ++ uint16_to_bytes (length values))
          (record area { holding_registers = splice a values area.holding_registers })
          (data_written a (length values))
unfolding Pdu.write_multiple_registers
write_multiple_registers_in_range area a values ha words lo hi fits =
    let request = write_payload a values in
    let c = length values in
    let start : bytes_to_uint16 request 0 ≡ a = bytes_to_uint16_at request 0 a ha refl refl in
    let qty : bytes_to_uint16 request 2 ≡ c =
      bytes_to_uint16_at request 2 c (omega arith) refl refl in
    rw (
      ltb-false (length request) 5 (omega arith),
      start,
      qty,
      ltb-false c 1 lo,
      ltb-false 123 c hi,
      ==_self (c * 2),
      ltb-false (length request) (5 + c * 2) (omega (arith, length-value_bytes values)),
      ltb-false (length area.holding_registers) (a + c) fits,
      store_registers-splice a values area.holding_registers words fits,
    )

-- The server after the client's write.
abbrev pub written : Server → ℕ → DataArea → ℕ → List ℕ → Server
written s unit area a values = record {
  units =
      put_area unit (record area { holding_registers = splice a values area.holding_registers })
        s.units;
}

pub process-write_registers :
    (stream : DataStream) (s : Server) (area : DataArea) (unit a : ℕ) (values : List ℕ)
    → find_area unit s.units ≡ some area
    → IsWord a
    → All IsWord values
    → 1 ≤ length values
    → length values ≤ 123
    → a + length values ≤ length area.holding_registers
    → process_rtu_request s (build_request unit 0x10 (write_registers_pdu stream a values))
      ≡ record {
        server = written s unit area a values;
        response =
            append_crc (unit ∷ 0x10 ∷ (uint16_to_bytes a ++ uint16_to_bytes (length values)));
        signal = some (unit, 0x10, data_written a (length values));
      }
unfolding serve_unit dispatch finish build_rtu_response
process-write_registers stream s area unit a values found ha words lo hi fits =
    ap (λ pdu. process_rtu_request s (build_request unit 0x10 pdu))
      (write_registers_pdu-payload stream a values ha words hi)
    ∙ process-build_request unit 0x10 (write_payload a values) s
    ∙ rw (found, write_multiple_registers_in_range area a values ha words lo hi fits)

pub splice-IsWord :
    (a : ℕ) (values registers : List ℕ)
    → All IsWord values
    → All IsWord registers
    → All IsWord (splice a values registers)
splice-IsWord a values registers hv hr =
    All-append IsWord (take a registers) (values ++ drop (a + length values) registers)
      (All-take IsWord a registers hr)
      (All-append IsWord values (drop (a + length values) registers) hv
        (All-drop IsWord (a + length values) registers hr))
