-- ===== src/Storage/Accounts.antt =====
-- Every chunk is free, or being filled, or being released, or somebody has to give it back: exactly one
-- of these, at every time.
use cpp_ipc_dds.Common.{
  ℕ, zero, suc, ◌+◌, ◌<◌, ◌≡◌, refl, sym, ap, ap₂, ◌∙◌, subst, ◌≢◌, ◌⊎◌, inl, inr, true, false,
  List, [], ◌∷◌, arith, ◌==◌, if◌then◌else◌, Bool-cases, ==_iff, ne→==, length, get_or, set,
  replicate, length-set, length-replicate, get_or-set_self, get_or-set_ne,
}
use cpp_ipc_dds.IdPool.{max_count}
use cpp_ipc_dds.IdPool.Free.{Frees, acquire_lem, release_lem, count_from, init-Frees}
use cpp_ipc_dds.Connections.{Mask, bits_and, bits_not, is_zero}
use cpp_ipc_dds.Storage.{
  Store, sub_rc, sub_rem, Step, acquire_id, publish, recycle, discard, give_back, taken, subtracted,
  step, run, start,
}
use cpp_ipc_dds.Storage.Masks.{
  and_assoc, meets→nonzero, one_at, occurrences, one_at_self, occurrences-remove,
  occurrences→Absent, in_store, in_store→lt, in_store_le, all_free,
}

-- 1 where a mask is not 0.
abbrev pub weight : Mask → ℕ
weight m = if is_zero m then 0 else 1

abbrev pub owned : List Mask → ℕ → ℕ
owned os id = weight (get_or os id [])

-- What the threads keep to. A sender stores the mask of a chunk that it has acquired, and sends to
-- somebody. A receiver recycles a chunk that it has to give back, and `curr_conns` has everybody else
-- who has to. A sender discards for receivers that have to give the chunk back. A release follows the
-- step that emptied the mask.
unfoldable pub Allowed : Step → Store → Type 0
Allowed acquire_id s = Unit
Allowed (publish id conns) s = (0 < occurrences id s.filling) × (is_zero conns ≡ false)
Allowed (recycle id curr_conns conn_id) s =
    (is_zero (bits_and conn_id (get_or s.owners id [])) ≡ false)
    × (bits_and (get_or s.owners id []) curr_conns ≡ get_or s.owners id [])
Allowed (discard id rem_cc) s =
    (is_zero rem_cc ≡ true) ⊎ (is_zero (bits_and rem_cc (get_or s.owners id [])) ≡ false)
Allowed (give_back id) s = 0 < occurrences id s.emptied

unfoldable pub AllowedRun : List Step → Store → Type 0
unfolding Allowed step
AllowedRun [] s = Unit
AllowedRun (x ∷ xs) s = Allowed x s × AllowedRun xs (step x s)

pub record Accounts (s : Store) : Type 0 where
  pub free : List ℕ
  pub frees : Frees s.pool free
  pub agree : s.conns ≡ s.owners
  pub size : length s.owners ≡ max_count
  pub each :
      (id : ℕ)
      → occurrences id free
          + occurrences id s.filling
          + occurrences id s.emptied
          + owned s.owners id
        ≡ in_store id

-- A property of all chunks, from one chunk and the others.
at_and_others : (P : ℕ → Type 0) (id : ℕ) → P id → ((j : ℕ) → id ≢ j → P j) → (j : ℕ) → P j
at_and_others P id p q j = elim (Bool-cases (id == j)) [
  | inl e ↦ subst P ((==_iff id j).0 e) p
  | inr e ↦ q j (λ same. ground (arith, e, (==_iff id j).1 same))
]

owned→lt :
    (s : Store) → Accounts s → (id : ℕ) → is_zero (get_or s.owners id []) ≡ false → id < max_count
owned→lt s a id h =
    let w : owned s.owners id ≡ 1 = rw h refl in in_store→lt id (omega (arith, w, a.each id))

acquire_id-Accounts : (s : Store) → Accounts s → Accounts (step acquire_id s)
unfolding step taken occurrences
acquire_id-Accounts s a = go a.free a.frees a.each
  where
    go :
        (free : List ℕ)
        → Frees s.pool free
        → ((id : ℕ)
            → occurrences id free
                + occurrences id s.filling
                + occurrences id s.emptied
                + owned s.owners id
              ≡ in_store id)
        → Accounts (step acquire_id s)
    go [] f each =
        let r = acquire_lem s.pool [] f in
        rw r.0 record { free = []; frees = r.1; agree = a.agree; size = a.size; each = each }
    go (x ∷ xs) f each =
        let r = acquire_lem s.pool (x ∷ xs) f in
        rw r.0 record {
          free = xs;
          frees = r.1;
          agree = a.agree;
          size = a.size;
          each = λ id. omega (arith, each id);
        }

publish-Accounts :
    (s : Store) (id : ℕ) (conns : Mask)
    → Accounts s
    → Allowed (publish id conns) s
    → Accounts (step (publish id conns) s)
unfolding step Allowed
publish-Accounts s id conns a (held, some_) =
    let room : id < length s.owners =
      omega (arith, a.size, in_store→lt id (omega (arith, held, a.each id))) in
    record {
      free = a.free;
      frees = a.frees;
      agree = ap (λ os. set os id conns) a.agree;
      size = length-set s.owners id conns ∙ a.size;
      each =
          at_and_others _ id
            (rw (get_or-set_self s.owners id conns [] room, some_)
              (omega (
                arith,
                a.each id,
                in_store_le id,
                held,
                one_at_self id,
                occurrences-remove id id s.filling held,
              )))
            (λ j ne. rw (get_or-set_ne s.owners id j conns [] ne) (
              let apart : one_at id j ≡ 0 = rw (ne→== id j ne) refl in
              omega (arith, a.each j, apart, occurrences-remove j id s.filling held)));
    }

subtracted-Accounts :
    (s : Store) (id : ℕ) (gone m : Mask)
    → Accounts s
    → is_zero (get_or s.owners id []) ≡ false
    → m ≡ bits_and (get_or s.owners id []) (bits_not gone)
    → Accounts (subtracted id gone (is_zero m, m) s)
unfolding subtracted occurrences
subtracted-Accounts s id gone m a some_ e =
    let lt : id < max_count = owned→lt s a id some_ in
    let room : id < length s.owners = omega (arith, a.size, lt) in
    let before : owned s.owners id ≡ 1 = rw some_ refl in
    record {
      free = a.free;
      frees = a.frees;
      agree = ap₂ (λ os v. set os id v) a.agree e;
      size = length-set s.owners id _ ∙ a.size;
      each =
          at_and_others _ id
            (rw (sym e, get_or-set_self s.owners id m [] room)
              (elim (Bool-cases (is_zero m)) [
                | inl z ↦ rw z (omega (arith, a.each id, before, one_at_self id))
                | inr z ↦ rw z (omega (arith, a.each id, before))
              ]))
            (λ j ne.
              let apart : one_at id j ≡ 0 = rw (ne→== id j ne) refl in
              rw (sym e, get_or-set_ne s.owners id j m [] ne)
                (elim (Bool-cases (is_zero m)) [
                  | inl z ↦ rw z (omega (arith, a.each j, apart))
                  | inr z ↦ rw z (a.each j)
                ]));
    }

recycle-Accounts :
    (s : Store) (id : ℕ) (curr_conns conn_id : Mask)
    → Accounts s
    → Allowed (recycle id curr_conns conn_id) s
    → Accounts (step (recycle id curr_conns conn_id) s)
unfolding step Allowed sub_rc
recycle-Accounts s id curr_conns conn_id a (owes, others) =
    let m = bits_and (get_or s.conns id []) (bits_and curr_conns (bits_not conn_id)) in
    let e : m ≡ bits_and (get_or s.owners id []) (bits_not conn_id) =
      ap (λ cs. bits_and (get_or cs id []) (bits_and curr_conns (bits_not conn_id))) a.agree
      ∙ and_assoc (get_or s.owners id []) curr_conns (bits_not conn_id)
      ∙ ap (λ o. bits_and o (bits_not conn_id)) others in
    subtracted-Accounts s id conn_id m a (meets→nonzero conn_id (get_or s.owners id []) owes) e

discard-Accounts :
    (s : Store) (id : ℕ) (rem_cc : Mask)
    → Accounts s
    → Allowed (discard id rem_cc) s
    → Accounts (step (discard id rem_cc) s)
unfolding step Allowed sub_rem
discard-Accounts s id rem_cc a (inl z) = rw z a
discard-Accounts s id rem_cc a (inr owe) =
    let m = bits_and (get_or s.conns id []) (bits_not rem_cc) in
    let e : m ≡ bits_and (get_or s.owners id []) (bits_not rem_cc) =
      ap (λ cs. bits_and (get_or cs id []) (bits_not rem_cc)) a.agree in
    let done =
      subtracted-Accounts s id rem_cc m a (meets→nonzero rem_cc (get_or s.owners id []) owe) e in
    elim (Bool-cases (is_zero rem_cc)) [ inl z ↦ rw z a | inr z ↦ rw z done ]

give_back-Accounts :
    (s : Store) (id : ℕ) → Accounts s → Allowed (give_back id) s → Accounts (step (give_back id) s)
unfolding step Allowed occurrences
give_back-Accounts s id a held =
    let lt : id < max_count = in_store→lt id (omega (arith, held, a.each id)) in
    let not_free : occurrences id a.free ≡ 0 = omega (arith, held, a.each id, in_store_le id) in
    record {
      free = id ∷ a.free;
      frees = release_lem s.pool a.free id a.frees lt (occurrences→Absent id a.free not_free);
      agree = a.agree;
      size = a.size;
      each = λ j. omega (arith, a.each j, occurrences-remove j id s.emptied held);
    }

pub step-Accounts : (x : Step) (s : Store) → Accounts s → Allowed x s → Accounts (step x s)
unfolding Allowed
step-Accounts acquire_id s a h = acquire_id-Accounts s a
step-Accounts (publish id conns) s a h = publish-Accounts s id conns a h
step-Accounts (recycle id curr_conns conn_id) s a h = recycle-Accounts s id curr_conns conn_id a h
step-Accounts (discard id rem_cc) s a h = discard-Accounts s id rem_cc a h
step-Accounts (give_back id) s a h = give_back-Accounts s id a h

run-Accounts_from :
    (xs : List Step) (s : Store) → Accounts s → AllowedRun xs s → Accounts (run xs s)
unfolding run AllowedRun
run-Accounts_from [] s a h = a
run-Accounts_from (x ∷ xs) s a (now, later) =
    run-Accounts_from xs (step x s) (step-Accounts x s a now) later

none_owned : (n id : ℕ) → owned (replicate n (replicate 32 false)) id ≡ 0
unfolding is_zero
none_owned zero id = refl
none_owned (suc n) zero = refl
none_owned (suc n) (suc id) = none_owned n id

pub start-Accounts : Accounts start
unfolding occurrences
start-Accounts = record {
  free = count_from 0 max_count;
  frees = init-Frees;
  agree = refl;
  size = length-replicate max_count (replicate 32 false);
  each = λ id. omega (arith, all_free id, none_owned max_count id);
}

-- However the threads interleave, if they keep to the protocol, every chunk of a size class is free
-- or being filled or being released or has to be given back by a receiver, exactly one of these; and
-- the masks in the chunks are those of the receivers that have to give them back.
pub run-Accounts : (xs : List Step) → AllowedRun xs start → Accounts (run xs start)
run-Accounts xs h = run-Accounts_from xs start start-Accounts h
