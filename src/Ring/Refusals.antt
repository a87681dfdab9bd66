-- ===== src/Ring/Refusals.antt =====
-- When `push` and `pop` return false.
use cpp_ipc_dds.Common.{
  ℕ, ◌+◌, ◌%◌, ◌≡◌, refl, sym, subst, ◌≢◌, ◌↔◌, inl, inr, List, arith, ◌==◌, Bool-cases, length,
  sub32,
}
use cpp_ipc_dds.Ring.{
  index_of, Sender, Receiver, System, sender_step, receiver_step, Turn, send, receive, step, run,
  start,
}
use cpp_ipc_dds.Ring.Order.{IsRing, Knows, Expects, start-Good, run-Good}

sender_refuses :
    (s : System) (v cur value : ℕ)
    → IsRing s.wt s.rd s.slots s.pushed s.popped
    → cur ≡ length s.pushed % 256
    → ((sender_step value (Sender.loaded v cur) s).sender ≡ Sender.idle)
      ↔ (length s.pushed ≡ length s.popped + 255)
unfolding sender_step
sender_refuses s v cur value h k = elim (Bool-cases (cur == index_of (sub32 s.rd 1))) [
  | inl full ↦
      let e : cur ≡ sub32 s.rd 1 % 256 = ground (arith, full) in
      rw full (λ _. omega (arith, k, h.1, h.2, h.3), λ _. refl)
  | inr room ↦
      let ne : cur ≢ sub32 s.rd 1 % 256 = λ q. ground (arith, room, q) in
      rw room (λ e. cc, λ e. absurd (ne (omega (arith, k, h.1))))
]

-- Once a push has loaded the write index, its test for a full ring fails the push exactly if 255
-- values are under way at that moment.
pub push_refuses :
    (ts : List Turn) (v cur value : ℕ)
    → (run ts start).sender ≡ Sender.loaded v cur
    → ((step (send value) (run ts start)).sender ≡ Sender.idle)
      ↔ (length (run ts start).pushed ≡ length (run ts start).popped + 255)
unfolding step
push_refuses ts v cur value e =
    let good = run-Good ts start start-Good in
    let s : System = run ts start in
    let knows : Knows (Sender.loaded v cur) s.slots s.pushed s.popped =
      subst (λ p. Knows p s.slots s.pushed s.popped) e good.1 in
    subst
      (λ p.
        ((sender_step value p s).sender ≡ Sender.idle) ↔ (length s.pushed ≡ length s.popped + 255))
      (sym e) (sender_refuses s v cur value good.0 knows)

receiver_refuses :
    (s : System) (cur : ℕ)
    → IsRing s.wt s.rd s.slots s.pushed s.popped
    → cur ≡ length s.popped % 256
    → ((receiver_step (Receiver.loaded cur) s).receiver ≡ Receiver.idle)
      ↔ (length s.pushed ≡ length s.popped)
unfolding receiver_step
receiver_refuses s cur h k = elim (Bool-cases (cur == index_of s.wt)) [
  | inl empty ↦
      let e : cur ≡ s.wt % 256 = ground (arith, empty) in
      rw empty (λ _. omega (arith, k, h.0, h.2, h.3), λ _. refl)
  | inr some_left ↦
      let ne : cur ≢ s.wt % 256 = λ q. ground (arith, some_left, q) in
      rw some_left (λ e. cc, λ e. absurd (ne (omega (arith, k, h.0))))
]

-- Once a pop has loaded the read index, its test for an empty ring fails the pop exactly if no value
-- is under way at that moment.
pub pop_refuses :
    (ts : List Turn) (cur : ℕ)
    → (run ts start).receiver ≡ Receiver.loaded cur
    → ((step receive (run ts start)).receiver ≡ Receiver.idle)
      ↔ (length (run ts start).pushed ≡ length (run ts start).popped)
unfolding step
pop_refuses ts cur e =
    let good = run-Good ts start start-Good in
    let s : System = run ts start in
    let expects : Expects (Receiver.loaded cur) s.pushed s.popped =
      subst (λ r. Expects r s.pushed s.popped) e good.2 in
    subst
      (λ r. ((receiver_step r s).receiver ≡ Receiver.idle) ↔ (length s.pushed ≡ length s.popped))
      (sym e) (receiver_refuses s cur good.0 expects)
