-- ===== src/Modbus/Session/ReadRegisters.antt =====
-- Reading registers through the wire.
use mathlib.Core.List.{flatten}
use stdiolink.Modbus.Server.Receive.{frame_ends}
use stdiolink.Modbus.Session.Wire.{Fragments, wire, wire-whole}
use stdiolink.Prelude.{
  ℕ, ◌+◌, ◌*◌, ◌/◌, ◌%◌, ◌^◌, ◌≡◌, ◌≤◌, ◌<◌, refl, sym, ap, ap₂, ◌∙◌, bit_and, bit_or, none, some,
  true, false, List, [], ◌∷◌, ◌++◌, length, length-append, get_or, get_or-append, get_or-append_lt,
  get_or_ext, get_or-slice, length-slice, take, drop, All, All-get_or, ltb-false, arith,
}
use stdiolink.Modbus.Crc.{IsByte, IsWord, calculate_crc16, append_crc, verify_crc}
use stdiolink.Modbus.Crc.Detect.{verify_crc-append_crc}
use stdiolink.Modbus.Client.Frame.{
  fine, failure, text, registers_from, build_request, read_response, parse_read_registers_response,
}
use stdiolink.Modbus.Client.Call.{DataStream, exchange, check_response, read_holding_registers}
use stdiolink.Modbus.Server.Area.{DataArea, Server, find_area}
use stdiolink.Modbus.Server.Pdu.{
  Handled, answer, data_read, bytes_to_uint16, uint16_to_bytes, registers_to_bytes, read_registers,
}
use stdiolink.Modbus.Server.Pdu
use stdiolink.Modbus.Server.Request.{process_rtu_request, dispatch, finish, build_rtu_response}
use stdiolink.Modbus.Session.Bytes.{
  bytes_to_uint16_at, get_or-registers_to_bytes, length-registers_to_bytes,
  registers_to_bytes-IsByte, get_or-registers_from, length-registers_from, word_back,
}
use stdiolink.Modbus.Session.Fragments.{read_response-flatten}

-- The bytes of two words.
abbrev pub two_words : ℕ → ℕ → List ℕ
two_words a c = a / 256 ∷ a % 256 ∷ c / 256 ∷ c % 256 ∷ []

pub first_word : (a c : ℕ) → IsWord a → bytes_to_uint16 (two_words a c) 0 ≡ a
first_word a c h = bytes_to_uint16_at (two_words a c) 0 a h refl refl

pub second_word : (a c : ℕ) → IsWord c → bytes_to_uint16 (two_words a c) 2 ≡ c
second_word a c h = bytes_to_uint16_at (two_words a c) 2 c h refl refl

pub streamed :
    (stream : DataStream) (a c : ℕ)
    → IsWord a
    → IsWord c
    → (stream.put_uint16 a ++ stream.put_uint16 c) ≡ two_words a c
streamed stream a c ha hc =
    ap₂ (λ x y. x ++ y) (stream.put_uint16_lem a ha) (stream.put_uint16_lem c hc)

read_registers_in_range :
    (registers : List ℕ) (area : DataArea) (a c : ℕ)
    → IsWord a
    → 1 ≤ c
    → c ≤ 125
    → a + c ≤ length registers
    → read_registers registers area (two_words a c)
      ≡ answer (c * 2 % 256 ∷ registers_to_bytes registers a c 0) area (data_read a c)
unfolding read_registers
read_registers_in_range registers area a c ha lo hi fits = rw (
  first_word a c ha,
  second_word a c (omega arith),
  ltb-false c 1 lo,
  ltb-false 125 c hi,
  ltb-false (length registers) (a + c) fits,
)

module _ (registers : List ℕ) (unit fc a c : ℕ) where
  abbrev reply_bytes : List ℕ
  reply_bytes = unit ∷ fc ∷ (c * 2 % 256) ∷ registers_to_bytes registers a c 0

-- The response to a read request that is in range.
read_holding_response :
    (s : Server) (area : DataArea) (unit a c : ℕ)
    → find_area unit s.units ≡ some area
    → IsWord a
    → 1 ≤ c
    → c ≤ 125
    → a + c ≤ length area.holding_registers
    → (process_rtu_request s (build_request unit 0x03 (two_words a c))).response
      ≡ append_crc (reply_bytes area.holding_registers unit 0x03 a c)
unfolding process_rtu_request build_request append_crc dispatch Pdu.read_holding_registers finish
    build_rtu_response
read_holding_response s area unit a c found ha lo hi fits =
    rw (found, read_registers_in_range area.holding_registers area a c ha lo hi fits)

-- Such a response, at the client.
module _ (registers : List ℕ) (unit fc a c : ℕ) where
  abbrev reply : List ℕ
  reply = append_crc (reply_bytes registers unit fc a c)

  length-reply : length reply ≡ 5 + c * 2
  unfolding append_crc
  length-reply = omega (
    arith,
    length-append (registers_to_bytes registers a c 0) (
        bit_and (calculate_crc16 (reply_bytes registers unit fc a c)) 0xff
        ∷ bit_and (calculate_crc16 (reply_bytes registers unit fc a c) / 2 ^ 8) 0xff
        ∷ []),
    length-registers_to_bytes registers a c 0,
  )

  reply_header : (get_or reply 1 0 ≡ fc) × (get_or reply 2 0 ≡ c * 2 % 256)
  unfolding append_crc
  reply_header = (refl, refl)

  -- The data bytes of the response, by index.
  get_or-reply :
      (i : ℕ) → i < c * 2 → get_or reply (3 + i) 0 ≡ get_or (registers_to_bytes registers a c 0) i 0
  unfolding append_crc
  get_or-reply i h =
      let crc = calculate_crc16 (reply_bytes registers unit fc a c) in
      let tail : List ℕ = bit_and crc 0xff ∷ bit_and (crc / 2 ^ 8) 0xff ∷ [] in
      let front : List ℕ = unit ∷ fc ∷ (c * 2 % 256) ∷ [] in
      get_or-append front (registers_to_bytes registers a c 0 ++ tail) i 0
      ∙ get_or-append_lt (registers_to_bytes registers a c 0) tail i 0
          (omega (arith, length-registers_to_bytes registers a c 0))

  item_from-reply :
      (i : ℕ)
      → All IsWord registers
      → i < c
      → get_or (registers_from reply c 0) i 0 ≡ get_or registers (a + i) 0
  item_from-reply i words lt =
      let v = get_or registers (a + (0 + i)) 0 in
      let (high, low) = get_or-registers_to_bytes registers a c 0 i words lt in
      let first : 3 + (0 + i) * 2 ≡ 3 + i * 2 = omega arith in
      let second : 3 + (0 + i) * 2 + 1 ≡ 3 + (i * 2 + 1) = omega arith in
      get_or-registers_from reply c 0 i lt
      ∙ ap₂ (λ x y. bit_or (x * 2 ^ 8) y)
          (ap (λ n. get_or reply n 0) first ∙ get_or-reply (i * 2) (omega arith) ∙ high)
          (ap (λ n. get_or reply n 0) second ∙ get_or-reply (i * 2 + 1) (omega arith) ∙ low)
      ∙ word_back v (All-get_or IsWord registers (a + (0 + i)) 0 (omega arith) words)
      ∙ ap (λ n. get_or registers n 0) (let e : a + (0 + i) ≡ a + i = omega arith in e)

  registers_from-reply :
      All IsWord registers
      → a + c ≤ length registers
      → registers_from reply c 0 ≡ take c (drop a registers)
  registers_from-reply words fits =
      get_or_ext 0 (registers_from reply c 0) (take c (drop a registers))
        (length-registers_from reply c 0 ∙ sym (length-slice c a registers fits))
        (λ i lt.
          let lt' : i < c = omega (arith, length-registers_from reply c 0) in
          item_from-reply i words lt' ∙ sym (get_or-slice c a i registers 0 lt'))

  reply-IsByte : IsByte unit → IsByte fc → All IsByte (reply_bytes registers unit fc a c)
  reply-IsByte hu hf = (hu, (hf, (omega arith, registers_to_bytes-IsByte registers a c 0)))

  -- The client finds the registers in it, however it was cut up.
  parsed-reply :
      (m : ℕ) (chunks : List (List ℕ))
      → IsByte unit
      → IsByte fc
      → bit_and fc 0x80 ≡ 0
      → All IsWord registers
      → 1 ≤ c
      → c ≤ 125
      → a + c ≤ length registers
      → flatten chunks ≡ reply
      → check_response
          (read_response m [] chunks)
          (λ response. some (parse_read_registers_response response))
        ≡ some (record fine { registers = take c (drop a registers) })
  unfolding check_response parse_read_registers_response
  parsed-reply m chunks hu hf plain words lo hi fits e =
      let (fc_back, count_back) = reply_header in
      let size = length-reply in
      let count : get_or reply 2 0 ≡ c * 2 = count_back ∙ omega arith in
      let whole : read_response m [] chunks ≡ reply =
        read_response-flatten m reply chunks (ap (λ t. bit_and t 0x80) fc_back ∙ plain)
          (omega (arith, size, count)) e in
      let valid : verify_crc reply ≡ true =
        (verify_crc-append_crc (reply_bytes registers unit fc a c) (reply-IsByte hu hf)
          (omega arith)).0 in
      let half : get_or reply 2 0 / 2 ≡ c = omega (arith, count) in
      ap (λ r. check_response r (λ response. some (parse_read_registers_response response))) whole
      ∙ rw (
        ltb-false (length reply) 5 (omega (arith, size)),
        valid,
        fc_back,
        plain,
        ltb-false (length reply) 6 (omega (arith, size)),
        ltb-false (length reply) (3 + get_or reply 2 0 + 2) (omega (arith, size, count)),
        half,
        registers_from-reply words fits,
      )

-- A read of holding registers when the server handles the request as it was built.
read_processed :
    (stream : DataStream) (s : Server) (area : DataArea) (unit a c : ℕ)
    (split : List ℕ → List (List ℕ))
    → IsByte unit
    → find_area unit s.units ≡ some area
    → All IsWord area.holding_registers
    → IsWord a
    → 1 ≤ c
    → c ≤ 125
    → a + c ≤ length area.holding_registers
    → Fragments split
    → check_response
        (read_response
          (5 + c * 2)
          []
          (split (process_rtu_request s (build_request unit 0x03 (two_words a c))).response))
        (λ response. some (parse_read_registers_response response))
      ≡ some (record fine { registers = take c (drop a area.holding_registers) })
read_processed stream s area unit a c split hu found words ha lo hi fits pieces =
    parsed-reply area.holding_registers unit 0x03 a c (5 + c * 2) _ hu (omega arith) refl words lo
      hi fits (pieces.joined _ ∙ read_holding_response s area unit a c found ha lo hi fits)

-- A read of holding registers, from the client's call to its result, when the server has received
-- nothing yet and the whole request arrives before its frame timer expires: for 1 to 125 registers
-- inside the table of a unit that holds words, and a request none of whose prefixes of 4 to 7 bytes
-- ends in its own checksum, the client returns the registers of the addressed unit, whatever pieces
-- the request and the response arrive in.
pub read_holding_registers_lem :
    (stream : DataStream) (s : Server) (area : DataArea) (unit a c : ℕ)
    (cut split : List ℕ → List (List ℕ))
    → IsByte unit
    → find_area unit s.units ≡ some area
    → All IsWord area.holding_registers
    → IsWord a
    → 1 ≤ c
    → c ≤ 125
    → a + c ≤ length area.holding_registers
    → Fragments cut
    → Fragments split
    → ((k : ℕ) → k < 4 → frame_ends (build_request unit 0x03 (two_words a c)) (4 + k) ≡ false)
    → read_holding_registers stream unit (wire cut split s) a c
      ≡ some (record fine { registers = take c (drop a area.holding_registers) })
unfolding read_holding_registers exchange
read_holding_registers_lem stream s area unit a c cut split hu found words ha lo hi fits cuts pieces
      before =
    ap
      (λ sent. elim (wire cut split s (build_request unit 0x03 sent)) [
        | none ↦ some (failure 0 (text "Write timeout"))
        | some polls ↦
            check_response (read_response (5 + c * 2) [] polls)
              (λ response. some (parse_read_registers_response response))
      ])
      (streamed stream a c ha (omega arith))
    ∙ ap
        (λ brought. elim brought [
          | none ↦ some (failure 0 (text "Write timeout"))
          | some polls ↦
              check_response (read_response (5 + c * 2) [] polls)
                (λ response. some (parse_read_registers_response response))
        ])
        (wire-whole cut cuts s unit 0x03 (two_words a c) split hu (omega arith) (omega arith)
          (omega arith) before)
    ∙ read_processed stream s area unit a c split hu found words ha lo hi fits pieces
