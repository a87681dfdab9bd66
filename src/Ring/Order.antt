-- ===== src/Ring/Order.antt =====
-- What is popped is what was pushed, in order.
use cpp_ipc_dds.Common.{
  ℕ, suc, ◌+◌, ◌%◌, ◌≤◌, ◌<◌, ◌≡◌, refl, sym, ap, ◌∙◌, ◌≢◌, inl, inr, List, [], ◌∷◌, ◌++◌, arith,
  dec_lt, ◌==◌, Bool-cases, length, get_or, set, take, length-append, length-set, get_or-set_self,
  get_or-set_ne, get_or-append_left, get_or-append_last, take-append_left, take-suc, u32, sub32,
}
use cpp_ipc_dds.Ring.{
  index_of, Sender, Receiver, System, sender_step, receiver_step, Turn, send, receive, step, run,
  start,
}

-- Each value under way stands in its slot.
abbrev pub Kept : List ℕ → List ℕ → List ℕ → Type 0
Kept slots pushed popped =
    (k : ℕ) → length popped ≤ k → k < length pushed → get_or slots (k % 256) 0 ≡ get_or pushed k 0

-- The indices are the numbers of values pushed and popped, at most 255 values are under way, and the
-- values popped are the first ones pushed.
abbrev pub IsRing : ℕ → ℕ → List ℕ → List ℕ → List ℕ → Type 0
IsRing wt rd slots pushed popped =
    (wt ≡ u32 (length pushed))
    × (rd ≡ u32 (length popped))
    × (length popped ≤ length pushed)
    × (length pushed ≤ length popped + 255)
    × (length slots ≡ 256)
    × (popped ≡ take (length popped) pushed)
    × Kept slots pushed popped

-- What a sender knows in the middle of a push.
abbrev pub Knows : Sender → List ℕ → List ℕ → List ℕ → Type 0
Knows Sender.idle slots pushed popped = Unit
Knows (Sender.loaded v cur) slots pushed popped = cur ≡ length pushed % 256
Knows (Sender.passed v cur) slots pushed popped =
    (cur ≡ length pushed % 256) × (length pushed < length popped + 255)
Knows (Sender.written v) slots pushed popped =
    (length pushed < length popped + 255) × (get_or slots (length pushed % 256) 0 ≡ v)

-- And a receiver in the middle of a pop.
abbrev pub Expects : Receiver → List ℕ → List ℕ → Type 0
Expects Receiver.idle pushed popped = Unit
Expects (Receiver.loaded cur) pushed popped = cur ≡ length popped % 256
Expects (Receiver.passed cur) pushed popped =
    (cur ≡ length popped % 256) × (length popped < length pushed)
Expects (Receiver.copied v) pushed popped =
    (length popped < length pushed) × (v ≡ get_or pushed (length popped) 0)

abbrev pub Good : System → Type 0
Good s =
    IsRing s.wt s.rd s.slots s.pushed s.popped
    × Knows s.sender s.slots s.pushed s.popped
    × Expects s.receiver s.pushed s.popped

Expects-append :
    (r : Receiver) (pushed popped : List ℕ) (v : ℕ)
    → Expects r pushed popped
    → Expects r (pushed ++ v ∷ []) popped
Expects-append Receiver.idle pushed popped v e = tt
Expects-append (Receiver.loaded cur) pushed popped v e = e
Expects-append (Receiver.passed cur) pushed popped v e =
    (e.0, omega (arith, e.1, length-append pushed (v ∷ [])))
Expects-append (Receiver.copied x) pushed popped v e = (
  omega (arith, e.0, length-append pushed (v ∷ [])),
  e.1 ∙ sym (get_or-append_left pushed (v ∷ []) (length popped) 0 e.0),
)

Kept-set :
    (slots pushed popped : List ℕ) (v : ℕ)
    → length slots ≡ 256
    → length pushed < length popped + 255
    → Kept slots pushed popped
    → Kept (set slots (length pushed % 256) v) pushed popped
Kept-set slots pushed popped v size room kept k low high =
    get_or-set_ne slots (length pushed % 256) (k % 256) v 0 (omega arith) ∙ kept k low high

Kept-append :
    (slots pushed popped : List ℕ) (v : ℕ)
    → get_or slots (length pushed % 256) 0 ≡ v
    → Kept slots pushed popped
    → Kept slots (pushed ++ v ∷ []) popped
Kept-append slots pushed popped v there kept k low high = elim (dec_lt k (length pushed)) [
  | yes old ↦ kept k low old ∙ sym (get_or-append_left pushed (v ∷ []) k 0 old)
  | no new ↦
      let e : k ≡ length pushed = omega (arith, length-append pushed (v ∷ [])) in
      rw e (there ∙ sym (get_or-append_last pushed v 0))
]

sender_step-Good :
    (value : ℕ) (p : Sender) (s : System)
    → IsRing s.wt s.rd s.slots s.pushed s.popped
    → Knows p s.slots s.pushed s.popped
    → Expects s.receiver s.pushed s.popped
    → Good (sender_step value p s)
unfolding sender_step
sender_step-Good value Sender.idle s h k e = (h, omega (arith, h.0), e)
sender_step-Good value (Sender.loaded v cur) s h k e =
    elim (Bool-cases (cur == index_of (sub32 s.rd 1))) [
      | inl full ↦ rw full (h, tt, e)
      | inr room ↦
          let ne : cur ≢ sub32 s.rd 1 % 256 = λ q. ground (arith, room, q) in
          rw room (h, (k, omega (arith, ne, h.0, h.1, h.2, h.3)), e)
    ]
sender_step-Good value (Sender.passed v cur) s h k e = rw k.0 (
  (
    h.0,
    h.1,
    h.2,
    h.3,
    length-set s.slots (length s.pushed % 256) v ∙ h.4,
    h.5,
    Kept-set s.slots s.pushed s.popped v h.4 k.1 h.6,
  ),
  (k.1, get_or-set_self s.slots (length s.pushed % 256) v 0 (omega (arith, h.4))),
  e,
)
sender_step-Good value (Sender.written v) s h k e =
    let len = length-append s.pushed (v ∷ []) in
    (
      (
        omega (arith, h.0, len),
        h.1,
        omega (arith, h.2, len),
        omega (arith, k.0, len),
        h.4,
        h.5 ∙ sym (take-append_left (length s.popped) s.pushed (v ∷ []) h.2),
        Kept-append s.slots s.pushed s.popped v k.1 h.6,
      ),
      tt,
      Expects-append s.receiver s.pushed s.popped v e,
    )

Knows-append :
    (p : Sender) (slots pushed popped : List ℕ) (v : ℕ)
    → Knows p slots pushed popped
    → Knows p slots pushed (popped ++ v ∷ [])
Knows-append Sender.idle slots pushed popped v k = tt
Knows-append (Sender.loaded x cur) slots pushed popped v k = k
Knows-append (Sender.passed x cur) slots pushed popped v k =
    (k.0, omega (arith, k.1, length-append popped (v ∷ [])))
Knows-append (Sender.written x) slots pushed popped v k =
    (omega (arith, k.0, length-append popped (v ∷ [])), k.1)

receiver_step-Good :
    (r : Receiver) (s : System)
    → IsRing s.wt s.rd s.slots s.pushed s.popped
    → Knows s.sender s.slots s.pushed s.popped
    → Expects r s.pushed s.popped
    → Good (receiver_step r s)
unfolding receiver_step
receiver_step-Good Receiver.idle s h k e = (h, k, omega (arith, h.1))
receiver_step-Good (Receiver.loaded cur) s h k e = elim (Bool-cases (cur == index_of s.wt)) [
  | inl empty ↦ rw empty (h, k, tt)
  | inr some_left ↦
      let ne : cur ≢ s.wt % 256 = λ q. ground (arith, some_left, q) in
      rw some_left (h, k, (e, omega (arith, ne, h.0, h.2, h.3)))
]
receiver_step-Good (Receiver.passed cur) s h k e =
    (h, k, (e.1, rw e.0 (h.6 (length s.popped) (omega arith) e.1)))
receiver_step-Good (Receiver.copied v) s h k e =
    let len = length-append s.popped (v ∷ []) in
    let longer : length (s.popped ++ v ∷ []) ≡ suc (length s.popped) = omega (arith, len) in
    (
      (
        h.0,
        omega (arith, h.1, len),
        omega (arith, e.0, len),
        omega (arith, h.3, len),
        h.4,
        rw longer (
            ap (λ r. r ++ v ∷ []) h.5
            ∙ ap (λ x. take (length s.popped) s.pushed ++ x ∷ []) e.1
            ∙ sym (take-suc (length s.popped) s.pushed 0 e.0)),
        λ i low high. h.6 i (omega (arith, len, low)) high,
      ),
      Knows-append s.sender s.slots s.pushed s.popped v k,
      tt,
    )

pub start-Good : Good start
start-Good =
    ((refl, refl, omega arith, omega arith, refl, refl, λ k low high. absurd (omega arith)), tt, tt)

step-Good : (t : Turn) (s : System) → Good s → Good (step t s)
unfolding step
step-Good (send value) s h = sender_step-Good value s.sender s h.0 h.1 h.2
step-Good receive s h = receiver_step-Good s.receiver s h.0 h.1 h.2

pub run-Good : (ts : List Turn) (s : System) → Good s → Good (run ts s)
unfolding run
run-Good [] s h = h
run-Good (t ∷ ts) s h = run-Good ts (step t s) (step-Good t s h)

-- However the operations of one sender and one receiver interleave: the values popped are the first
-- ones of those pushed, in order, and at most 255 are under way.
pub run_order :
    (ts : List Turn)
    → ((run ts start).popped ≡ take (length (run ts start).popped) (run ts start).pushed)
      × (length (run ts start).popped ≤ length (run ts start).pushed)
      × (length (run ts start).pushed ≤ length (run ts start).popped + 255)
run_order ts = let h = (run-Good ts start start-Good).0 in (h.5, h.2, h.3)
