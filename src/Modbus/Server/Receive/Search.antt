-- ===== src/Modbus/Server/Receive/Search.antt =====
-- The receive buffer and the loop of `onFrameTimeout`.
use stdiolink.Prelude.{
  ℕ, zero, suc, ◌+◌, ◌-◌, ◌≡◌, ◌⊎◌, ◌≤◌, ◌<◌, inl, inr, min, refl, ap, subst, ◌∙◌, true, false,
  Bool-cases, Option, none, some, List, [], ◌++◌, length, length-drop, ltb-false, lt→ltb, arith,
}
use native.Mathlib.Decide.{dec_lt}
use stdiolink.Modbus.Server.Area.{Server}
use stdiolink.Modbus.Server.Receive.{
  Client, on_ready_read, max_recv_buffer, frame_ends, find_frame, Drained, serve_found, search_step,
  search_loop, on_frame_timeout,
}

-- When `onReadyRead` returns, the receive buffer holds the bytes that waited followed by the new ones,
-- within the limit of 4096, and the frame timer runs; or these would be more than 4096 bytes, and the
-- buffer is empty and the timer stopped.
pub on_ready_read-bounded :
    (c : Client) (bytes : List ℕ)
    → (((on_ready_read c bytes).recv_buffer ≡ c.recv_buffer ++ bytes)
        × (length (on_ready_read c bytes).recv_buffer ≤ 4096)
        × ((on_ready_read c bytes).timer_running ≡ true))
      ⊎ ((4096 < length (c.recv_buffer ++ bytes))
          × ((on_ready_read c bytes).recv_buffer ≡ [])
          × ((on_ready_read c bytes).timer_running ≡ false))
unfolding on_ready_read
on_ready_read-bounded c bytes = elim (dec_lt max_recv_buffer (length (c.recv_buffer ++ bytes))) [
  | yes over ↦ rw (lt→ltb _ _ over) (inr (over, refl, refl))
  | no fits ↦
      rw (ltb-false max_recv_buffer (length (c.recv_buffer ++ bytes)) (omega arith))
        (inl (refl, omega arith, refl))
]

-- A length that the search returns lies in its range and ends a frame, and no shorter length of the
-- range does.
find_frame-first :
    (buffer : List ℕ) (rounds len found : ℕ)
    → find_frame buffer rounds len ≡ some found
    → (len ≤ found) × (found < len + rounds) × (frame_ends buffer found ≡ true)
unfolding find_frame
find_frame-first buffer zero len found e = cc
find_frame-first buffer (suc rounds) len found e = elim (Bool-cases (frame_ends buffer len)) [
  | inl hit ↦
      let same : len ≡ found = ground arith in
      (omega arith, omega arith, subst (λ n. frame_ends buffer n ≡ true) same hit)
  | inr miss ↦
      let (lo, hi, ends) = find_frame-first buffer rounds (len + 1) found (ground arith) in
      (omega arith, omega arith, ends)
]

-- If the range holds a length that ends a frame and no shorter one does, the search returns it.
pub find_frame-hit :
    (buffer : List ℕ) (rounds len extra : ℕ)
    → extra < rounds
    → ((k : ℕ) → k < extra → frame_ends buffer (len + k) ≡ false)
    → frame_ends buffer (len + extra) ≡ true
    → find_frame buffer rounds len ≡ some (len + extra)
unfolding find_frame
find_frame-hit buffer zero len extra lt before hit = elim lt [ ]
find_frame-hit buffer (suc rounds) len zero lt before hit =
    let e : len + 0 ≡ len = omega arith in
    let hit' : frame_ends buffer len ≡ true = rw e at hit in rw (hit', e)
find_frame-hit buffer (suc rounds) len (suc extra) lt before hit =
    let e : len + 0 ≡ len = omega arith in
    let miss : frame_ends buffer len ≡ false = rw e at (before 0 (omega arith)) in
    let step : (k : ℕ) → len + 1 + k ≡ len + suc k = λ k. omega arith in
    rw miss (
      rw (step extra) at (
        find_frame-hit buffer rounds (len + 1) extra (omega arith)
          (λ k h. ap (frame_ends buffer) (step k) ∙ before (suc k) (omega arith))
          (ap (frame_ends buffer) (step extra) ∙ hit)))

-- A search that finds nothing or a length of its range takes at least one byte.
serve_found-shorter :
    (s : Server) (buffer : List ℕ) (written : List (List ℕ)) (found : Option ℕ)
    → 4 ≤ length buffer
    → ((len : ℕ) → found ≡ some len → 4 ≤ len)
    → length (serve_found s buffer written found).buffer < length buffer
unfolding serve_found
serve_found-shorter s buffer written none long range = omega (arith, length-drop 1 buffer)
serve_found-shorter s buffer written (some len) long range =
    omega (arith, length-drop len buffer, range len refl)

-- Each round takes at least one byte.
search_step-shorter :
    (s : Server) (buffer : List ℕ) (written : List (List ℕ))
    → 4 ≤ length buffer
    → length (search_step s buffer written).buffer < length buffer
unfolding search_step
search_step-shorter s buffer written long =
    let rounds = min (length buffer) 256 - 3 in
    serve_found-shorter s buffer written (find_frame buffer rounds 4) long
      (λ len e. let (lo, hi, ends) = find_frame-first buffer rounds 4 len e in lo)

-- With as much fuel as bytes the loop ends by its own test.
search_loop-ends :
    (fuel : ℕ) (s : Server) (buffer : List ℕ) (written : List (List ℕ))
    → length buffer ≤ fuel
    → (d : Drained) × (search_loop fuel s buffer written ≡ some d) × (length d.buffer < 4)
unfolding search_loop
search_loop-ends zero s buffer written h = (
  record { server = s; buffer = buffer; written = written },
  rw (lt→ltb (length buffer) 4 (omega arith)),
  omega arith,
)
search_loop-ends (suc fuel) s buffer written h = elim (dec_lt (length buffer) 4) [
  | yes short ↦ (
    record { server = s; buffer = buffer; written = written },
    rw (lt→ltb (length buffer) 4 short),
    short,
  )
  | no long ↦
      let next = search_step s buffer written in
      rw (ltb-false (length buffer) 4 (omega arith)) (
        search_loop-ends fuel next.server next.buffer next.written
          (omega (arith, search_step-shorter s buffer written (omega arith))))
]

-- For any server and any bytes `onFrameTimeout` ends, and leaves fewer than four bytes.
pub on_frame_timeout-ends :
    (s : Server) (buffer : List ℕ)
    → (d : Drained) × (on_frame_timeout s buffer ≡ some d) × (length d.buffer < 4)
unfolding on_frame_timeout
on_frame_timeout-ends s buffer = search_loop-ends (length buffer) s buffer [] (omega arith)
