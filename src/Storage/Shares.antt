-- ===== src/Storage/Shares.antt =====
-- What `acquire` hands out.
use cpp_ipc_dds.Common.{
  ℕ, ◌<◌, ◌≡◌, refl, sym, ap, ◌∙◌, inl, inr, true, none, some, List, [], ◌∷◌, arith, Bool-cases,
  get_or,
}
use cpp_ipc_dds.IdPool.{Pool, acquire}
use cpp_ipc_dds.IdPool.Free.{Frees, acquire_lem}
use cpp_ipc_dds.Connections.{is_zero}
use cpp_ipc_dds.Storage.{Store, Step, run, start}
use cpp_ipc_dds.Storage.Masks.{occurrences, one_at_self, in_store_le}
use cpp_ipc_dds.Storage.Accounts.{owned, AllowedRun, Accounts, run-Accounts}

acquired_free :
    (p : Pool) (free : List ℕ) (id : ℕ)
    → Frees p free
    → (acquire p).0 ≡ some id
    → 0 < occurrences id free
unfolding occurrences
acquired_free p [] id f h = absurd (ground (arith, h, (acquire_lem p [] f).0))
acquired_free p (x ∷ xs) id f h =
    let same : some x ≡ some id = sym (acquire_lem p (x ∷ xs) f).0 ∙ h in
    let e : x ≡ id = ground (arith, same) in rw e (omega (arith, one_at_self id))

pub refused_free :
    (p : Pool) (free : List ℕ)
    → Frees p free
    → (acquire p).0 ≡ none
    → (id : ℕ) → occurrences id free ≡ 0
unfolding occurrences
refused_free p [] f h id = refl
refused_free p (x ∷ xs) f h id =
    let same : some x ≡ none = sym (acquire_lem p (x ∷ xs) f).0 ∙ h in absurd (ground (arith, same))

owned→zero :
    (s : Store)
    → Accounts s
    → (id : ℕ) → owned s.owners id ≡ 0
    → is_zero (get_or s.conns id []) ≡ true
owned→zero s a id h =
    rw (ap (λ os. get_or os id []) a.agree) (elim (Bool-cases (is_zero (get_or s.owners id []))) [
      | inl z ↦ z
      | inr z ↦ let one : owned s.owners id ≡ 1 = rw z refl in absurd (omega (arith, h, one))
    ])

-- However the threads interleave, if they keep to the protocol: an id that `acquire` gives has the mask
-- 0 in its chunk, and no other sender fills it and nobody is about to release it.
pub run_shares :
    (xs : List Step) (id : ℕ)
    → AllowedRun xs start
    → (acquire (run xs start).pool).0 ≡ some id
    → (is_zero (get_or (run xs start).conns id []) ≡ true)
      × (occurrences id (run xs start).filling ≡ 0)
      × (occurrences id (run xs start).emptied ≡ 0)
run_shares xs id h got =
    let s = run xs start in
    let a = run-Accounts xs h in
    let free = acquired_free s.pool a.free id a.frees got in
    (
      owned→zero s a id (omega (arith, free, a.each id, in_store_le id)),
      omega (arith, free, a.each id, in_store_le id),
      omega (arith, free, a.each id, in_store_le id),
    )
