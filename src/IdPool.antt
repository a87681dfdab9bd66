-- ===== src/IdPool.antt =====
-- The pool of identifiers of src/libipc/utility/id_pool.h: a free list that is threaded through the
-- cells. The data that the cells hold besides is left out.
pub mod Free
use cpp_ipc_dds.Common.{
  ℕ, zero, suc, ◌+◌, Option, none, some, List, [], ◌∷◌, ◌==◌, if◌then◌else◌, get_or, set, u8,
}

-- `max_count`: the smaller one of `large_msg_cache` and 255.
abbrev pub max_count : ℕ
max_count = 32

-- `id_pool`: the links `next_`, and `cursor_`.
pub record Pool : Type 0 where
  pub next : List ℕ
  pub cursor : ℕ

-- The loop of `init` from cell `i` on, with `left` cells to go.
pub init_from : ℕ → ℕ → List ℕ
init_from i zero = []
init_from i (suc left) = u8 (i + 1) ∷ init_from (i + 1) left

-- `init` on a pool of zeros.
unfoldable pub init : Pool
unfolding init_from
init = record { next = init_from 0 max_count; cursor = 0 }

-- `acquire`; `none` for -1.
unfoldable pub acquire : Pool → Option ℕ × Pool
acquire p =
    if p.cursor == max_count
    then (none, p)
    else (some p.cursor, record p { cursor = get_or p.next p.cursor max_count })

-- `release` of an identifier that is not negative.
unfoldable pub release : ℕ → Pool → Pool
release id p = record { next = set p.next id p.cursor; cursor = u8 id }
