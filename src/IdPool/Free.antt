-- ===== src/IdPool/Free.antt =====
-- The free identifiers of a pool as a list.
use cpp_ipc_dds.Common.{
  ℕ, zero, suc, ◌+◌, ◌<◌, zero-add, ◌≡◌, refl, sym, ap, ◌∙◌, subst, ◌≢◌, true, false, Option, none,
  some, List, [], ◌∷◌, arith, ◌==◌, ne→==, length, get_or, set, length-set, get_or-set_self,
  get_or-set_ne,
}
use cpp_ipc_dds.IdPool.{max_count, Pool, init_from, init, acquire, release}

-- The links from `cursor` on run through `free` and end at `max_count`.
abbrev pub Chain : List ℕ → ℕ → List ℕ → Type 0
Chain next cursor [] = cursor ≡ max_count
Chain next cursor (x ∷ xs) =
    (cursor ≡ x) × (x < max_count) × Chain next (get_or next x max_count) xs

abbrev pub Absent : ℕ → List ℕ → Type 0
Absent id [] = Unit
Absent id (x ∷ xs) = (id ≢ x) × Absent id xs

abbrev pub Distinct : List ℕ → Type 0
Distinct [] = Unit
Distinct (x ∷ xs) = Absent x xs × Distinct xs

-- The free identifiers of the pool are those of `free`, each once.
pub record Frees (p : Pool) (free : List ℕ) : Type 0 where
  pub cells : length p.next ≡ max_count
  pub chain : Chain p.next p.cursor free
  pub distinct : Distinct free

-- What `acquire` gives if these identifiers are free: the first of them, or none if there is none.
abbrev pub Acquired : List ℕ → Option ℕ × Pool → Type 0
Acquired [] r = (r.0 ≡ none) × Frees r.1 []
Acquired (x ∷ xs) r = (r.0 ≡ some x) × Frees r.1 xs × Absent x xs

-- `acquire` takes a free identifier, which is not free afterwards, and fails exactly if none is.
pub acquire_lem : (p : Pool) (free : List ℕ) → Frees p free → Acquired free (acquire p)
unfolding acquire
acquire_lem p [] f =
    let full : (p.cursor == max_count) ≡ true = ground (arith, f.chain) in rw full (refl, f)
acquire_lem p (x ∷ xs) f =
    let more : (p.cursor == max_count) ≡ false = ne→== _ _ (omega (arith, f.chain.0, f.chain.1)) in
    rw more (
      ap (λ (n : ℕ). some n) f.chain.0,
      record {
        cells = f.cells;
        chain =
            subst (λ (n : ℕ). Chain p.next (get_or p.next n max_count) xs) (sym f.chain.0)
              f.chain.2;
        distinct = f.distinct.1;
      },
      f.distinct.0,
    )

Chain-set :
    (next : List ℕ) (cursor id v : ℕ) (free : List ℕ)
    → Absent id free
    → Chain next cursor free
    → Chain (set next id v) cursor free
Chain-set next cursor id v [] a c = c
Chain-set next cursor id v (x ∷ xs) a c = (
  c.0,
  c.1,
  rw (get_or-set_ne next id x v max_count a.0)
      (Chain-set next (get_or next x max_count) id v xs a.1 c.2),
)

-- An identifier that is released, and was not free, is free again, and is the next to be acquired.
pub release_lem :
    (p : Pool) (free : List ℕ) (id : ℕ)
    → Frees p free
    → id < max_count
    → Absent id free
    → Frees (release id p) (id ∷ free)
unfolding release
release_lem p free id f h a = record {
  cells = length-set p.next id p.cursor ∙ f.cells;
  chain = (
    omega arith,
    h,
    rw (get_or-set_self p.next id p.cursor max_count (omega (arith, f.cells)))
        (Chain-set p.next p.cursor id p.cursor free a f.chain),
  );
  distinct = (a, f.distinct);
}

-- The numbers `i`, `i + 1`, ... , `left` of them.
abbrev pub count_from : ℕ → ℕ → List ℕ
count_from i zero = []
count_from i (suc left) = i ∷ count_from (i + 1) left

Absent-count_from : (id i left : ℕ) → id < i → Absent id (count_from i left)
Absent-count_from id i zero h = tt
Absent-count_from id i (suc left) h = (omega arith, Absent-count_from id (i + 1) left (omega arith))

Distinct-count_from : (i left : ℕ) → Distinct (count_from i left)
Distinct-count_from i zero = tt
Distinct-count_from i (suc left) =
    (Absent-count_from i (i + 1) left (omega arith), Distinct-count_from (i + 1) left)

length-init_from : (i left : ℕ) → length (init_from i left) ≡ left
unfolding init_from
length-init_from i zero = refl
length-init_from i (suc left) = ap suc (length-init_from (i + 1) left)

get_or-init_from :
    (i left j : ℕ) → i + left < 256 → j < left → get_or (init_from i left) j max_count ≡ i + j + 1
unfolding init_from
get_or-init_from i zero j h lt = absurd (omega arith)
get_or-init_from i (suc left) zero h lt = omega arith
get_or-init_from i (suc left) (suc j) h lt =
    get_or-init_from (i + 1) left j (omega arith) (omega arith) ∙ omega arith

Chain-count_from :
    (i left : ℕ) → i + left ≡ max_count → Chain (init_from 0 max_count) i (count_from i left)
Chain-count_from i zero h = omega arith
Chain-count_from i (suc left) h = (
  refl,
  omega arith,
  rw (get_or-init_from 0 max_count i (omega arith) (omega arith), zero-add)
      (Chain-count_from (i + 1) left (omega arith)),
)

-- A new pool has all identifiers from 0 to 31 free.
pub init-Frees : Frees init (count_from 0 max_count)
unfolding init
init-Frees = record {
  cells = length-init_from 0 max_count;
  chain = Chain-count_from 0 max_count refl;
  distinct = Distinct-count_from 0 max_count;
}
