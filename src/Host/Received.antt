-- ===== src/Host/Received.antt =====
-- What messages leave in a task, and lists that are cut.
use stdiolink.Prelude.{
  ℕ, ◌+◌, ◌≤◌, ◌≡◌, inl, inr, refl, sym, ap, ◌∙◌, Bool, true, false, ◌||◌, Bool-cases, List, [],
  ◌∷◌, ◌++◌, append-nil, append_assoc, length, length-append, get_or, All, ◌==◌, arith,
}
use stdiolink.Json.Message.{Message}
use stdiolink.Jsonl.Framing.{newline}
use stdiolink.Jsonl.Chunks.{scan}
use stdiolink.Host.State.{TaskState, is_final, receive}
use stdiolink.Host.Answers.{is_ended, receive_all}

pub receive-queue :
    (m : Message) (state : TaskState) → (receive m state).queue ≡ state.queue ++ (m ∷ [])
unfolding receive
receive-queue m state = elim (Bool-cases (is_final m.status)) [
  | inl f ↦ rw f refl
  | inr f ↦ rw f refl
]

pub receive-terminal :
    (m : Message) (state : TaskState)
    → (receive m state).terminal ≡ is_final m.status || state.terminal
unfolding receive
receive-terminal m state = elim (Bool-cases (is_final m.status)) [
  | inl f ↦ rw f refl
  | inr f ↦ rw f refl
]

pub receive_all-queue :
    (ms : List Message) (state : TaskState) → (receive_all ms state).queue ≡ state.queue ++ ms
unfolding receive_all
receive_all-queue [] state = sym (append-nil state.queue)
receive_all-queue (m ∷ ms) state =
    receive_all-queue ms (receive m state)
    ∙ ap (λ q. q ++ ms) (receive-queue m state)
    ∙ append_assoc state.queue (m ∷ []) ms

pub swap_or : (a b c : Bool) → (a || (b || c)) ≡ ((b || a) || c)
swap_or true true c = refl
swap_or true false c = refl
swap_or false true c = refl
swap_or false false c = refl

pub receive_all-terminal :
    (ms : List Message) (state : TaskState)
    → (receive_all ms state).terminal ≡ is_ended ms || state.terminal
unfolding receive_all is_ended
receive_all-terminal [] state = refl
receive_all-terminal (m ∷ ms) state =
    receive_all-terminal ms (receive m state)
    ∙ ap (λ b. is_ended ms || b) (receive-terminal m state)
    ∙ swap_or (is_ended ms) (is_final m.status) state.terminal

pub or_assoc : (a b c : Bool) → (a || (b || c)) ≡ ((a || b) || c)
or_assoc true b c = refl
or_assoc false b c = refl

pub or_false : (a : Bool) → (a || false) ≡ a
or_false true = refl
or_false false = refl

pub is_ended-append :
    (front back : List Message) → is_ended (front ++ back) ≡ is_ended front || is_ended back
unfolding is_ended
is_ended-append [] back = refl
is_ended-append (m ∷ ms) back =
    ap (λ b. is_final m.status || b) (is_ended-append ms back)
    ∙ or_assoc (is_final m.status) (is_ended ms) (is_ended back)

pub scan-short : (held bytes : List ℕ) → length (scan held bytes).1 ≤ length held + length bytes
unfolding scan
scan-short held [] = omega arith
scan-short held (b ∷ bs) = elim (Bool-cases (b == newline)) [
  | inl e ↦ rw e (omega (arith, scan-short [] bs))
  | inr e ↦ rw e (omega (arith, scan-short (held ++ (b ∷ [])) bs, length-append held (b ∷ [])))
]

pub All-back {ℓ κ} :
    {A : Type ℓ} (P : A → Type κ) (front back : List A) → All P (front ++ back) → All P back
All-back P [] back h = h
All-back P (x ∷ front) back h = All-back P front back h.1

pub get_or-end {ℓ} :
    {A : Type ℓ} (xs : List A) (x d : A) → get_or (xs ++ (x ∷ [])) (length xs) d ≡ x
get_or-end [] x d = refl
get_or-end (y ∷ ys) x d = get_or-end ys x d

pub All-front {ℓ κ} :
    {A : Type ℓ} (P : A → Type κ) (front back : List A) → All P (front ++ back) → All P front
All-front P [] back h = tt
All-front P (x ∷ front) back h = (h.0, All-front P front back h.1)
