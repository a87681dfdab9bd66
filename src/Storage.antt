-- ===== src/Storage.antt =====
-- The chunks for large messages on a broadcast channel, src/libipc/ipc.cpp (acquire_storage, sub_rc,
-- recycle_storage, discard_storage): one size class, with the free list of IdPool and a mask of
-- receivers in each chunk. A section under the spin lock, a store and a compare-exchange loop are each
-- one atomic step; senders, receivers and overwriting senders interleave in any order. The bytes in
-- the chunks are left out.
pub mod Masks
pub mod Accounts
pub mod Shares
pub mod Debts
pub mod Sizes
mod Tests
use cpp_ipc_dds.Common.{
  ℕ, Bool, false, Option, none, some, List, [], ◌∷◌, ◌==◌, if◌then◌else◌, get_or, set, replicate,
}
use cpp_ipc_dds.IdPool.{max_count, Pool, init, acquire, release}
use cpp_ipc_dds.Connections.{Mask, bits_and, bits_not, is_zero}

-- The pool of the size class and `conns()` of each chunk. Beside these: the chunks whose sender is
-- between `acquire` and the store of the mask (`filling`), those whose mask became 0 and whose
-- `release` is still to come (`emptied`), and for each chunk who has to give it back (`owners`).
pub record Store : Type 0 where
  pub pool : Pool
  pub conns : List Mask
  pub filling : List ℕ
  pub emptied : List ℕ
  pub owners : List Mask

-- The list without its first `id`.
unfoldable pub remove : ℕ → List ℕ → List ℕ
remove id [] = []
remove id (x ∷ xs) = let rest = remove id xs in if x == id then xs else x ∷ rest

-- `sub_rc` for a broadcast channel: the result, and the new mask.
unfoldable pub sub_rc : Mask → Mask → Mask → Bool × Mask
unfolding bits_and bits_not is_zero
sub_rc chunk_conns curr_conns conn_id =
    let last_conns = bits_and curr_conns (bits_not conn_id) in
    (is_zero (bits_and chunk_conns last_conns), bits_and chunk_conns last_conns)

-- The loop of `discard_storage`: whether the chunk is to be released, and the new mask.
unfoldable pub sub_rem : Mask → Mask → Bool × Mask
unfolding bits_and bits_not is_zero
sub_rem cur_conns rem_cc =
    let nxt_conns = bits_and cur_conns (bits_not rem_cc) in (is_zero nxt_conns, nxt_conns)

-- A step: the locked section of `acquire_storage` and its store of the mask; `recycle_storage` and
-- `discard_storage` up to their locked section, with who is no owner any more; that section.
pub data Step : Type 0 where
  acquire_id : Step
  publish : ℕ → Mask → Step
  recycle : ℕ → Mask → Mask → Step
  discard : ℕ → Mask → Step
  give_back : ℕ → Step

-- What `acquire_storage` does with the id that the pool gives.
unfoldable pub taken : Option ℕ → Pool → Store → Store
taken none p s = record s { pool = p }
taken (some id) p s = record s { pool = p; filling = id ∷ s.filling }

-- A chunk with a new mask, after the receivers `gone` have given it back.
unfoldable pub subtracted : ℕ → Mask → Bool × Mask → Store → Store
unfolding bits_and bits_not
subtracted id gone (empty, mask) s = record s {
  conns = set s.conns id mask;
  emptied = if empty then id ∷ s.emptied else s.emptied;
  owners = set s.owners id (bits_and (get_or s.owners id []) (bits_not gone));
}

unfoldable pub step : Step → Store → Store
unfolding taken subtracted sub_rc sub_rem remove
step acquire_id s = let r = acquire s.pool in taken r.0 r.1 s
step (publish id conns) s = record s {
  conns = set s.conns id conns;
  filling = remove id s.filling;
  owners = set s.owners id conns;
}
step (recycle id curr_conns conn_id) s =
    subtracted id conn_id (sub_rc (get_or s.conns id []) curr_conns conn_id) s
step (discard id rem_cc) s =
    if is_zero rem_cc then s else subtracted id rem_cc (sub_rem (get_or s.conns id []) rem_cc) s
step (give_back id) s = record s { pool = release id s.pool; emptied = remove id s.emptied }

unfoldable pub run : List Step → Store → Store
unfolding step
run [] s = s
run (x ∷ xs) s = run xs (step x s)

-- A new size class.
abbrev pub start : Store
start = record {
  pool = init;
  conns = replicate max_count (replicate 32 false);
  filling = [];
  emptied = [];
  owners = replicate max_count (replicate 32 false);
}
