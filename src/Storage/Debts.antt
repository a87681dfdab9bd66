-- ===== src/Storage/Debts.antt =====
-- What a chunk waits for, from the list of the steps alone: who has been sent it and has not given it back, and
-- how many releases are due.
use cpp_ipc_dds.Common.{
  ℕ, zero, suc, ◌+◌, ◌-◌, ◌<◌, ◌≡◌, refl, sym, ap, ◌∙◌, subst, ◌≢◌, inl, inr, Bool, true, false,
  Option, none, some, List, [], ◌∷◌, ◌++◌, arith, ◌==◌, if◌then◌else◌, Bool-cases, ==_iff, ne→==,
  length, get_or, replicate, get_or-set_self, get_or-set_ne,
}
use cpp_ipc_dds.IdPool.{max_count, Pool, acquire}
use cpp_ipc_dds.Connections.{Mask, bits_and, bits_not, is_zero}
use cpp_ipc_dds.Storage.{
  Store, sub_rc, sub_rem, Step, acquire_id, publish, recycle, discard, give_back, taken, subtracted,
  step, run, start,
}
use cpp_ipc_dds.Storage.Masks.{
  and_assoc, one_at, occurrences, one_at_self, occurrences-remove, in_store_lt,
}
use cpp_ipc_dds.Storage.Accounts.{
  weight, Allowed, AllowedRun, Accounts, step-Accounts, start-Accounts, run-Accounts,
}
use cpp_ipc_dds.Storage.Shares.{refused_free}

-- The receivers that owe the chunk, and the releases that are due.
abbrev pub Debt : Type 0
Debt = Mask × ℕ

-- Some receivers give it back, and the last of them is to release it.
abbrev pub less : Mask → Debt → Debt
less gone d =
    let left = bits_and d.0 (bits_not gone) in (left, if is_zero left then d.1 + 1 else d.1)

unfoldable pub note : ℕ → Step → Debt → Debt
unfolding bits_and bits_not is_zero
note id acquire_id d = d
note id (publish i conns) d = if i == id then (conns, d.1) else d
note id (recycle i curr_conns conn_id) d = if i == id then less conn_id d else d
note id (discard i rem_cc) d = if i == id then (if is_zero rem_cc then d else less rem_cc d) else d
note id (give_back i) d = if i == id then (d.0, d.1 - 1) else d

unfoldable pub debt : ℕ → List Step → Debt → Debt
unfolding note
debt id [] d = d
debt id (x ∷ xs) d = debt id xs (note id x d)

-- The same in the store.
abbrev booked : ℕ → Store → Debt
booked id s = (get_or s.owners id [], occurrences id s.emptied)

-- A step on the chunk `i`, from what it does to that chunk and to the others.
by_id :
    (i id : ℕ) (f : ℕ → Store) (own other : Debt)
    → (i ≡ id → booked id (f id) ≡ own)
    → (i ≢ id → booked id (f i) ≡ other)
    → booked id (f i) ≡ (if i == id then own else other)
by_id i id f own other p q = elim (Bool-cases (i == id)) [
  | inl e ↦
      rw e (subst (λ j. booked id (f j) ≡ own) (sym ((==_iff i id).0 e)) (p ((==_iff i id).0 e)))
  | inr e ↦ rw e (q (λ same. ground (arith, e, (==_iff i id).1 same)))
]

apart : (i id : ℕ) → i ≢ id → one_at i id ≡ 0
apart i id ne = rw (ne→== i id ne) refl

same_if : (t : Bool) (d : Debt) → d ≡ (if t then d else d)
same_if true d = refl
same_if false d = refl

module _ (s : Store) (id : ℕ) where
  subtracted_own :
      (gone m : Mask)
      → id < length s.owners
      → m ≡ bits_and (get_or s.owners id []) (bits_not gone)
      → booked id (subtracted id gone (is_zero m, m) s) ≡ less gone (booked id s)
  unfolding subtracted occurrences
  subtracted_own gone m room e =
      rw (sym e, get_or-set_self s.owners id m [] room)
        (elim (Bool-cases (is_zero m)) [
          | inl z ↦ rw z (ap (λ (n : ℕ). (m, n)) (omega (arith, one_at_self id)))
          | inr z ↦ rw z refl
        ])

  subtracted_other :
      (i : ℕ) (gone m : Mask) (empty : Bool)
      → i ≢ id
      → booked id (subtracted i gone (empty, m) s) ≡ booked id s
  unfolding subtracted occurrences
  subtracted_other i gone m true ne =
      rw (get_or-set_ne s.owners i id (bits_and (get_or s.owners i []) (bits_not gone)) [] ne)
        (ap (λ (n : ℕ). (get_or s.owners id [], n)) (omega (arith, apart i id ne)))
  subtracted_other i gone m false ne =
      rw (get_or-set_ne s.owners i id (bits_and (get_or s.owners i []) (bits_not gone)) [] ne) refl

  booked-subtracted :
      (i : ℕ) (gone : Mask) (m : ℕ → Mask)
      → id < length s.owners
      → m i ≡ bits_and (get_or s.owners i []) (bits_not gone)
      → booked id (subtracted i gone (is_zero (m i), m i) s)
        ≡ (if i == id then less gone (booked id s) else booked id s)
  booked-subtracted i gone m room e = elim (Bool-cases (i == id)) [
    | inl same ↦
        let j : i ≡ id = (==_iff i id).0 same in
        rw same (
          subst
            (λ k. booked id (subtracted k gone (is_zero (m k), m k) s) ≡ less gone (booked id s))
            (sym j)
            (subtracted_own gone (m id) room
              (subst (λ k. m k ≡ bits_and (get_or s.owners k []) (bits_not gone)) j e)))
    | inr other ↦ rw other (
        subtracted_other i gone (m i) (is_zero (m i))
          (λ k. ground (arith, other, (==_iff i id).1 k)))
  ]

  booked-taken : (o : Option ℕ) (p : Pool) → booked id (taken o p s) ≡ booked id s
  unfolding taken
  booked-taken none p = refl
  booked-taken (some x) p = refl

  booked-step :
      (x : Step)
      → Accounts s
      → Allowed x s
      → id < max_count
      → booked id (step x s) ≡ note id x (booked id s)
  unfolding step note Allowed
  booked-step acquire_id a h lt = booked-taken (acquire s.pool).0 (acquire s.pool).1
  booked-step (publish i conns) a h lt =
      by_id i id (λ k. step (publish k conns) s) _ _
        (λ same. rw (get_or-set_self s.owners id conns [] (omega (arith, a.size, lt))) refl)
        (λ ne. rw (get_or-set_ne s.owners i id conns [] ne) refl)
  booked-step (recycle i curr_conns conn_id) a h lt =
      let e : bits_and (get_or s.conns i []) (bits_and curr_conns (bits_not conn_id))
          ≡ bits_and (get_or s.owners i []) (bits_not conn_id) =
        ap (λ cs. bits_and (get_or cs i []) (bits_and curr_conns (bits_not conn_id))) a.agree
        ∙ and_assoc (get_or s.owners i []) curr_conns (bits_not conn_id)
        ∙ ap (λ o. bits_and o (bits_not conn_id)) h.1 in
      unfold sub_rc in
      booked-subtracted i conn_id
        (λ k. bits_and (get_or s.conns k []) (bits_and curr_conns (bits_not conn_id)))
        (omega (arith, a.size, lt)) e
  booked-step (discard i rem_cc) a h lt =
      let e : bits_and (get_or s.conns i []) (bits_not rem_cc)
          ≡ bits_and (get_or s.owners i []) (bits_not rem_cc) =
        ap (λ cs. bits_and (get_or cs i []) (bits_not rem_cc)) a.agree in
      elim (Bool-cases (is_zero rem_cc)) [
        | inl z ↦ rw z (same_if (i == id) (booked id s))
        | inr z ↦ rw z (
            unfold sub_rem in
            booked-subtracted i rem_cc (λ k. bits_and (get_or s.conns k []) (bits_not rem_cc))
              (omega (arith, a.size, lt)) e)
      ]
  booked-step (give_back i) a h lt =
      by_id i id (λ k. step (give_back k) s) _ _
        (λ same.
          let held : 0 < occurrences id s.emptied =
            subst (λ k. 0 < occurrences k s.emptied) same h in
          ap (λ (n : ℕ). (get_or s.owners id [], n))
            (omega (arith, one_at_self id, occurrences-remove id id s.emptied held)))
        (λ ne.
          ap (λ (n : ℕ). (get_or s.owners id [], n))
            (omega (arith, apart i id ne, occurrences-remove id i s.emptied h)))

run_booked :
    (id : ℕ) (xs : List Step) (s : Store)
    → Accounts s
    → AllowedRun xs s
    → id < max_count
    → booked id (run xs s) ≡ debt id xs (booked id s)
unfolding run AllowedRun debt
run_booked id [] s a h lt = refl
run_booked id (x ∷ xs) s a h lt =
    run_booked id xs (step x s) (step-Accounts x s a h.0) h.1 lt
    ∙ ap (debt id xs) (booked-step s id x a h.0 lt)

no_owner :
    (n id : ℕ) → id < n → get_or (replicate n (replicate 32 false)) id [] ≡ replicate 32 false
no_owner zero id h = absurd (omega arith)
no_owner (suc n) zero h = refl
no_owner (suc n) (suc id) h = no_owner n id (omega arith)

-- Nobody owes a new chunk, and no release is due.
abbrev pub no_debt : Debt
no_debt = (replicate 32 false, 0)

start-booked : (id : ℕ) → id < max_count → booked id start ≡ no_debt
unfolding occurrences
start-booked id h = ap (λ (m : Mask). (m, 0)) (no_owner max_count id h)

run-++ : (xs ys : List Step) (s : Store) → run (xs ++ ys) s ≡ run ys (run xs s)
unfolding run
run-++ [] ys s = refl
run-++ (x ∷ xs) ys s = run-++ xs ys (step x s)

pub AllowedRun-++ :
    (xs ys : List Step) (s : Store)
    → AllowedRun xs s
    → AllowedRun ys (run xs s)
    → AllowedRun (xs ++ ys) s
unfolding AllowedRun run
AllowedRun-++ [] ys s h k = k
AllowedRun-++ (x ∷ xs) ys s h k = (h.0, AllowedRun-++ xs ys (step x s) h.1 k)

-- All releases of a chunk that are due can be done, and nothing else changes.
run-give_back :
    (id n : ℕ) (s : Store)
    → n ≡ occurrences id s.emptied
    → let t = run (replicate n (give_back id)) s in
      AllowedRun (replicate n (give_back id)) s
      × (occurrences id t.emptied ≡ 0)
      × (t.owners ≡ s.owners)
      × (t.filling ≡ s.filling)
unfolding run AllowedRun Allowed step
run-give_back id zero s e = (tt, sym e, refl, refl)
run-give_back id (suc n) s e =
    let held : 0 < occurrences id s.emptied = omega (arith, e) in
    let r =
      run-give_back id n (step (give_back id) s)
        (omega (arith, e, one_at_self id, occurrences-remove id id s.emptied held)) in
    ((held, r.0), r.1, r.2, r.3)

-- However the threads interleave, if they keep to the protocol: take a chunk that no sender holds
-- between its `acquire` and the store of the mask, and of which, as the list of the steps says, each
-- receiver that was sent it has given it back or been discarded. Then the releases of it that are
-- due by that list, and were not done, are allowed, and after them `acquire` does not fail.
pub run_reclaims :
    (xs : List Step) (id : ℕ)
    → AllowedRun xs start
    → id < max_count
    → occurrences id (run xs start).filling ≡ 0
    → is_zero (debt id xs no_debt).0 ≡ true
    → let ys = xs ++ replicate (debt id xs no_debt).1 (give_back id) in
      AllowedRun ys start × ((acquire (run ys start).pool).0 ≢ none)
run_reclaims xs id h lt unfilled paid =
    let s = run xs start in
    let d = debt id xs no_debt in
    let zs = replicate d.1 (give_back id) in
    let e : booked id s ≡ d =
      run_booked id xs start start-Accounts h lt ∙ ap (debt id xs) (start-booked id lt) in
    let r = run-give_back id d.1 s (sym (ap (λ (b : Debt). b.1) e)) in
    let allowed = AllowedRun-++ xs zs start h r.0 in
    let t = run (xs ++ zs) start in
    let same : t ≡ run zs s = run-++ xs zs start in
    let a = run-Accounts (xs ++ zs) allowed in
    let none_owes : weight (get_or t.owners id []) ≡ 0 =
      ap (λ (u : Store). weight (get_or u.owners id [])) same
      ∙ ap (λ os. weight (get_or os id [])) r.2
      ∙ ap (λ (b : Debt). weight b.0) e
      ∙ rw paid refl in
    let none_fills : occurrences id t.filling ≡ 0 =
      ap (λ (u : Store). occurrences id u.filling) same ∙ ap (occurrences id) r.3 ∙ unfilled in
    let none_due : occurrences id t.emptied ≡ 0 =
      ap (λ (u : Store). occurrences id u.emptied) same ∙ r.1 in
    (
      allowed,
      λ refused. omega (
        arith,
        a.each id,
        none_owes,
        none_fills,
        none_due,
        in_store_lt id lt,
        refused_free t.pool a.free a.frees refused id,
      ),
    )
