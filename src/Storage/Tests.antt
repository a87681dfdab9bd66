-- ===== src/Storage/Tests.antt =====
-- Chunks at concrete schedules: two receivers, and one that disconnects in between.
use cpp_ipc_dds.Common.{
  ℕ, zero, suc, ◌≡◌, refl, ◌≢◌, inr, Bool, true, false, none, some, List, [], ◌∷◌, ◌++◌, arith,
  get_or, replicate,
}
use cpp_ipc_dds.IdPool.{acquire, release, init}
use cpp_ipc_dds.Connections.{Mask, bits_and, is_zero}
use cpp_ipc_dds.Storage.{
  Store, Step, step, acquire_id, publish, recycle, discard, give_back, run, start,
}
use cpp_ipc_dds.Storage.Masks.{occurrences}
use cpp_ipc_dds.Storage.Accounts.{Allowed, AllowedRun, Accounts, run-Accounts}
use cpp_ipc_dds.Storage.Shares.{run_shares}
use cpp_ipc_dds.Storage.Debts.{debt, no_debt, AllowedRun-++, run_reclaims}

-- The receivers with the lowest two bits.
abbrev only : Bool → Bool → Mask
only x y = x ∷ y ∷ replicate 30 false

-- A message for two receivers; one gives it back, and the other one never reads it.
abbrev overwritten : List Step
overwritten =
    acquire_id
    ∷ publish 0 (only true true)
    ∷ acquire_id
    ∷ recycle 0 (only true true) (only true false)
    ∷ discard 0 (only false true)
    ∷ give_back 0
    ∷ []

overwritten-AllowedRun : AllowedRun overwritten start
unfolding AllowedRun Allowed run occurrences acquire init
overwritten-AllowedRun =
    (tt, ((omega arith, refl), (tt, ((refl, refl), (inr refl, (omega arith, tt))))))

overwritten_acquires : (acquire (run overwritten start).pool).0 ≡ some 0
unfolding run acquire init release
overwritten_acquires = refl

run-Accounts_example : Accounts (run overwritten start)
run-Accounts_example = run-Accounts overwritten overwritten-AllowedRun

run_shares_example :
    (is_zero (get_or (run overwritten start).conns 0 []) ≡ true)
    × (occurrences 0 (run overwritten start).filling ≡ 0)
    × (occurrences 0 (run overwritten start).emptied ≡ 0)
run_shares_example = run_shares overwritten 0 overwritten-AllowedRun overwritten_acquires

-- All 32 chunks are acquired.
acquire_only-AllowedRun : (n : ℕ) (s : Store) → AllowedRun (replicate n acquire_id) s
unfolding AllowedRun Allowed
acquire_only-AllowedRun zero s = tt
acquire_only-AllowedRun (suc n) s = (tt, acquire_only-AllowedRun n (step acquire_id s))

-- One of them is sent to two receivers: one gives it back, and the other is discarded.
abbrev left_behind : List Step
left_behind =
    publish 5 (only true true)
    ∷ recycle 5 (only true true) (only true false)
    ∷ discard 5 (only false true)
    ∷ []

abbrev exhausted : List Step
exhausted = replicate 32 acquire_id ++ left_behind

left_behind-AllowedRun : AllowedRun left_behind (run (replicate 32 acquire_id) start)
unfolding AllowedRun Allowed run step occurrences is_zero acquire init bits_and
left_behind-AllowedRun = ((omega arith, refl), ((refl, refl), (inr refl, tt)))

exhausted-AllowedRun : AllowedRun exhausted start
exhausted-AllowedRun =
    AllowedRun-++ (replicate 32 acquire_id) left_behind start (acquire_only-AllowedRun 32 start)
      left_behind-AllowedRun

exhausted_unfilled : occurrences 5 (run exhausted start).filling ≡ 0
unfolding run step occurrences acquire init
exhausted_unfilled = refl

exhausted_paid : is_zero (debt 5 exhausted no_debt).0 ≡ true
unfolding debt is_zero
exhausted_paid = refl

-- `acquire` fails then: the release is still due.
exhausted_refused : (acquire (run exhausted start).pool).0 ≡ none
unfolding run acquire init
exhausted_refused = refl

run_reclaims_example :
    let ys = exhausted ++ replicate (debt 5 exhausted no_debt).1 (give_back 5) in
    AllowedRun ys start × ((acquire (run ys start).pool).0 ≢ none)
run_reclaims_example =
    run_reclaims exhausted 5 exhausted-AllowedRun (omega arith) exhausted_unfilled exhausted_paid

-- The second receiver disconnects while it holds the message: `curr_conns` of the first one does not
-- have it any more, and the chunk is released twice.
abbrev released_twice : List Step
released_twice =
    acquire_id
    ∷ publish 0 (only true true)
    ∷ recycle 0 (only true false) (only true false)
    ∷ give_back 0
    ∷ recycle 0 (only true true) (only false true)
    ∷ give_back 0
    ∷ []

-- From then on every message gets the same chunk.
acquired_again :
    (acquire (run released_twice start).pool).0
    ≡ (acquire (run (released_twice ++ acquire_id ∷ []) start).pool).0
unfolding run acquire release init
acquired_again = refl
