-- ===== src/Host/Answers.antt =====
-- The messages that answer a request, and the loop of pumpStdout on a whole text.
use stdiolink.Prelude.{
  ℕ, zero, suc, ◌<◌, ◌≡◌, ◌⊎◌, inl, inr, refl, ap, Bool, true, false, ◌||◌, Bool-cases, String,
  Option, none, some, Option-cases, List, [], ◌∷◌, ◌++◌, append-nil, append_assoc, length,
  length-append, All, All-append, ◌==◌, if◌then◌else◌, arith,
}
use stdiolink.Json.Value.{Json}
use stdiolink.Json.Message.{Message, parse_response}
use stdiolink.Jsonl.Framing.{newline}
use stdiolink.Jsonl.Chunks.{IsText, parser_of, scan, try_read_line-held, try_read_line-text}
use stdiolink.Host.State.{TaskState, is_final, receive}
use stdiolink.Host.Driver.{Pumped, on_response, on_line, pump_lines}

unfoldable pub is_ended : List Message → Bool
is_ended [] = false
is_ended (m ∷ ms) = is_final m.status || is_ended ms

-- The state after some messages.
unfoldable pub receive_all : List Message → TaskState → TaskState
receive_all [] state = state
receive_all (m ∷ ms) state = receive_all ms (receive m state)

module _ (from_json : List ℕ → Option Json) where
  -- The specification: what the lines say, up to the first message that ends the request. A line that
  -- does not parse says nothing.
  unfoldable pub answer : Option Message → List Message → List Message
  answer none more = more
  answer (some m) more = if is_final m.status then m ∷ [] else m ∷ more

  unfoldable pub answers : List (List ℕ) → List Message
  answers [] = []
  answers (line ∷ lines) = answer (parse_response from_json line) (answers lines)

  abbrev pub Parses : List ℕ → Type 0
  Parses line = (m : Message) × (parse_response from_json line ≡ some m)

  pub answers-append :
      (front back : List (List ℕ))
      → answers (front ++ back)
        ≡ answers front ++ (if is_ended (answers front) then [] else answers back)
  unfolding answers answer is_ended
  answers-append [] back = refl
  answers-append (line ∷ lines) back = elim (Option-cases (parse_response from_json line)) [
    | inl e ↦ rw e (answers-append lines back)
    | inr (m, e) ↦ elim (Bool-cases (is_final m.status)) [
      | inl f ↦ rw (e, f, f) refl
      | inr f ↦ rw (e, f, f) (ap (λ t. m ∷ t) (answers-append lines back))
    ]
  ]

  module _ (from_utf8 : List ℕ → String) where
    abbrev pub Outcome : TaskState → List (List ℕ) → List ℕ → Pumped → Type 0
    Outcome state lines rest pumped =
        (pumped.state ≡ receive_all (answers lines) state)
        × (pumped.detached ≡ is_ended (answers lines))
        × ((is_ended (answers lines) ≡ true) ⊎ (pumped.rest ≡ rest))

    pub pump_lines-scan :
        (fuel : ℕ) (state : TaskState) (held bytes : List ℕ)
        → All IsText held
        → length (held ++ bytes) < fuel
        → All Parses (scan held bytes).0
        → Outcome state
            (scan held bytes).0
            (scan held bytes).1
            (pump_lines from_json from_utf8 fuel state (parser_of (held ++ bytes)))
    unfolding pump_lines scan on_line on_response answers answer receive_all is_ended
    pump_lines-scan zero state held bytes h enough parses = absurd (omega arith)
    pump_lines-scan (suc fuel) state held [] h enough parses =
        rw (append-nil held, try_read_line-text held h) (refl, refl, inr refl)
    pump_lines-scan (suc fuel) state held (b ∷ bs) h enough parses =
        elim (Bool-cases (b == newline)) [
          | inl e ↦
              let cut = try_read_line-held held b bs h e in
              let good : All Parses (held ∷ (scan [] bs).0) = rw e at parses in
              let (m, says) = good.0 in
              elim (Bool-cases (is_final m.status)) [
                | inl f ↦ rw (cut, e, says, f, f) (refl, refl, inl refl)
                | inr f ↦
                    rw (cut, e, says, f, f)
                      (pump_lines-scan fuel (receive m state) [] bs tt
                        (omega (arith, length-append held (b ∷ bs))) good.1)
              ]
          | inr e ↦
              let good : All Parses (scan (held ++ (b ∷ [])) bs).0 = rw e at parses in
              rw e (
                rw (append_assoc held (b ∷ []) bs) at (
                  pump_lines-scan (suc fuel) state (held ++ (b ∷ [])) bs
                    (All-append IsText held (b ∷ []) h (e, tt))
                    (omega (
                      arith,
                      enough,
                      length-append held (b ∷ bs),
                      length-append (held ++ (b ∷ [])) bs,
                      length-append held (b ∷ []),
                    ))
                    good))
        ]
