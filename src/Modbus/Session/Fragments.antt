-- ===== src/Modbus/Session/Fragments.antt =====
-- `readResponse` on a response that arrives in pieces.
use mathlib.Core.List.{flatten}
use native.Mathlib.Decide.{dec_lt}
use stdiolink.Prelude.{
  ℕ, ◌+◌, ◌≡◌, ◌≤◌, ◌<◌, ◌⊎◌, sym, ap, ◌∙◌, bit_and, true, inl, inr, Bool-cases, List, [], ◌∷◌,
  ◌++◌, append_assoc, append-nil, length, get_or, get_or-append_lt, whole_of_length, arith,
}
use stdiolink.Modbus.Client.Frame.{is_complete, read_response}

-- A prefix that ends the loop is the whole response.
abbrev Whole : ℕ → List ℕ → Type 0
Whole m response =
    (front back : List ℕ)
    → front ++ back ≡ response
    → is_complete m front ≡ true
    → length response ≤ length front

read_response_from :
    (m : ℕ) (response acc : List ℕ) (chunks : List (List ℕ))
    → Whole m response
    → acc ++ flatten chunks ≡ response
    → read_response m acc chunks ≡ response
unfolding read_response flatten
read_response_from m response acc [] whole e = sym (append-nil acc) ∙ e
read_response_from m response acc (chunk ∷ rest) whole e =
    let e' : (acc ++ chunk) ++ flatten rest ≡ response =
      append_assoc acc chunk (flatten rest) ∙ e in
    elim (Bool-cases (is_complete m (acc ++ chunk))) [
      | inl done ↦ rw done (
          whole_of_length (acc ++ chunk) (flatten rest) response e'
            (whole (acc ++ chunk) (flatten rest) e' done))
      | inr more ↦ rw more (read_response_from m response (acc ++ chunk) rest whole e')
    ]

-- The header of a response is in each prefix of at least five bytes.
header :
    (front back response : List ℕ) (i : ℕ)
    → front ++ back ≡ response
    → i < length front
    → get_or front i 0 ≡ get_or response i 0
header front back response i e h =
    sym (get_or-append_lt front back i 0 h) ∙ ap (λ t. get_or t i 0) e

data-Whole :
    (m : ℕ) (response : List ℕ)
    → bit_and (get_or response 1 0) 0x80 ≡ 0
    → length response ≡ 5 + get_or response 2 0
    → Whole m response
unfolding is_complete
data-Whole m response plain size front back e done = elim (dec_lt (length front) 5) [
  | yes short ↦ ground arith
  | no long ↦
      let fc = header front back response 1 e (omega arith) in
      let count = header front back response 2 e (omega arith) in
      let plain' : bit_and (get_or front 1 0) 0x80 ≡ 0 = ap (λ t. bit_and t 0x80) fc ∙ plain in
      ground arith
]

-- A response to a read, without the exception bit and as long as its byte count says, arrives
-- whole, however the network cuts it up.
pub read_response-flatten :
    (m : ℕ) (response : List ℕ) (chunks : List (List ℕ))
    → bit_and (get_or response 1 0) 0x80 ≡ 0
    → length response ≡ 5 + get_or response 2 0
    → flatten chunks ≡ response
    → read_response m [] chunks ≡ response
read_response-flatten m response chunks plain size e =
    read_response_from m response [] chunks (data-Whole m response plain size) e

exception-Whole : (m : ℕ) (response : List ℕ) → length response ≡ 5 → Whole m response
unfolding is_complete
exception-Whole m response size front back e done = ground arith

-- An exception response, which has five bytes, arrives whole, however the network cuts it up.
pub read_response-exception :
    (m : ℕ) (response : List ℕ) (chunks : List (List ℕ))
    → length response ≡ 5
    → flatten chunks ≡ response
    → read_response m [] chunks ≡ response
read_response-exception m response chunks size e =
    read_response_from m response [] chunks (exception-Whole m response size) e

-- A response to a read, without the exception bit and as long as its byte count says, and an exception
-- response, which has five bytes, arrive whole, however the network cuts them up.
pub read_response_lem :
    (m : ℕ) (response : List ℕ) (chunks : List (List ℕ))
    → ((bit_and (get_or response 1 0) 0x80 ≡ 0) × (length response ≡ 5 + get_or response 2 0))
      ⊎ (length response ≡ 5)
    → flatten chunks ≡ response
    → read_response m [] chunks ≡ response
read_response_lem m response chunks (inl (plain, size)) e =
    read_response-flatten m response chunks plain size e
read_response_lem m response chunks (inr size) e = read_response-exception m response chunks size e

-- If the first piece of a response has five bytes at least and its third byte is 0, the loop
-- returns that piece and leaves the rest. The loop takes the third byte for a byte count; in the
-- response to a write it is the upper half of the address, and the response has eight bytes.
pub read_response-cut :
    (m : ℕ) (first : List ℕ) (rest : List (List ℕ))
    → 5 ≤ length first
    → get_or first 2 0 ≡ 0
    → read_response m [] (first ∷ rest) ≡ first
unfolding read_response is_complete
read_response-cut m first rest long zero_high = ground arith
