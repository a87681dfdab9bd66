-- ===== src/Channel.antt =====
-- Messages in fragments over a shared-memory channel, src/libipc/ipc.cpp: the fragments that `send`
-- pushes where a message has no chunk of its own, and the cache by which `recv` puts them together. A
-- fragment carries 64 bytes; `remain_` is an int32_t, kept as a bit pattern that is negative from 2^31
-- on. Here every push succeeds; waiting, force_push and chunks are left out.
pub mod Whole
pub mod Apart
mod Tests
use cpp_ipc_dds.Common.{
  ℕ, zero, suc, ◌+◌, ◌-◌, ◌*◌, ◌/◌, ◌^◌, min, max, ◌||◌, Option, none, some, List, [], ◌∷◌, ◌++◌,
  ltb, leb, ◌==◌, if◌then◌else◌, length, take, replicate, slice, overwrite, u32,
}

-- `ipc::data_length`
abbrev pub data_length : ℕ
data_length = 64

-- `msg_t` with `storage_` false.
pub record Fragment : Type 0 where
  pub id : ℕ
  pub remain : ℕ
  pub block : List ℕ

-- The constructor of `msg_t`, which copies the bytes into a block of zeros.
abbrev pub msg_of : ℕ → ℕ → List ℕ → Fragment
msg_of id remain bytes = record {
  id = id;
  remain = remain;
  block = bytes ++ replicate (data_length - length bytes) 0;
}

-- The `for` loop of `send`, with `left` rounds to go.
unfoldable pub full_fragments : ℕ → List ℕ → ℕ → ℕ → List Fragment
full_fragments id bytes offset zero = []
full_fragments id bytes offset (suc left) =
    msg_of id (u32 (length bytes + 2 ^ 32 - offset - data_length)) (slice bytes offset data_length)
    ∷ full_fragments id bytes (offset + data_length) left

-- The fragment behind the loop, if bytes are left.
unfoldable pub last_fragment : ℕ → List ℕ → ℕ → List Fragment
last_fragment id bytes offset =
    let remain = length bytes - offset in
    if ltb 0 remain
    then msg_of id (u32 (remain + 2 ^ 32 - data_length)) (slice bytes offset remain) ∷ []
    else []

-- What `send` pushes, for fewer than 2^31 bytes.
unfoldable pub send_fragments : ℕ → List ℕ → List Fragment
unfolding full_fragments last_fragment
send_fragments id bytes =
    let count = length bytes / data_length in
    full_fragments id bytes 0 count ++ last_fragment id bytes (count * data_length)

-- `cache_t`
pub record Cached : Type 0 where
  pub fill : ℕ
  pub buff : List ℕ

-- `cache_t::append`
unfoldable pub append : List ℕ → ℕ → Cached → Cached
append block size c =
    let new_fill = min (c.fill + size) (length c.buff) in
    if leb (length c.buff) c.fill || size == 0
    then c
    else record { fill = new_fill; buff = overwrite c.buff c.fill (take (new_fill - c.fill) block) }

-- `make_cache`, with `malloc` for the memory that it allocates.
unfoldable pub make_cache : (ℕ → List ℕ) → List ℕ → ℕ → List ℕ
make_cache malloc block size = overwrite (malloc size) 0 (take (min data_length size) block)

-- `recv_cache`, a map from message ids.
abbrev pub Cache : Type 0
Cache = List (ℕ × Cached)

unfoldable pub find : ℕ → Cache → Option Cached
find id [] = none
find id ((j, c) ∷ rc) = let rest = find id rc in if j == id then some c else rest

unfoldable pub update : ℕ → Cached → Cache → Cache
update id c [] = []
update id c ((j, d) ∷ rc) =
    let rest = update id c rc in if j == id then (j, c) ∷ rc else (j, d) ∷ rest

unfoldable pub erase : ℕ → Cache → Cache
erase id [] = []
erase id ((j, d) ∷ rc) = let rest = erase id rc in if j == id then rest else (j, d) ∷ rest

-- The entries that are kept when the cache is cleaned up for a message with the id `id`.
unfoldable pub collect : ℕ → Cache → Cache
collect id [] = []
collect id ((j, d) ∷ rc) =
    let rest = collect id rc in if ltb 8192 (max id j - min id j) then rest else (j, d) ∷ rest

abbrev pub clean : ℕ → Cache → Cache
clean id rc = if ltb 1024 (length rc) then collect id rc else rc

-- How a round of the loop of `recv` ends: with a message, with an error, or in the next round.
pub data Round : Type 0 where
  message : List ℕ → Round
  failed : Round
  next : Round

-- The branch for a fragment whose message is not in the cache.
unfoldable pub recv_first : (ℕ → List ℕ) → Fragment → ℕ → Cache → Round × Cache
unfolding make_cache collect
recv_first malloc m msg_size rc =
    if leb msg_size data_length then (message (make_cache malloc m.block msg_size), rc) else (
      next,
      (m.id, record { fill = data_length; buff = make_cache malloc m.block msg_size })
          ∷ clean m.id rc,
    )

-- The branch for a later fragment.
unfoldable pub recv_later : Fragment → ℕ → Cached → Cache → Round × Cache
unfolding append update erase
recv_later m msg_size c rc =
    if m.remain == 0 || leb (2 ^ 31) m.remain
    then (message (append m.block msg_size c).buff, erase m.id rc)
    else (next, update m.id (append m.block data_length c) rc)

-- Which of the two.
unfoldable pub recv_found : (ℕ → List ℕ) → Fragment → ℕ → Option Cached → Cache → Round × Cache
unfolding recv_first recv_later
recv_found malloc m msg_size none rc = recv_first malloc m msg_size rc
recv_found malloc m msg_size (some c) rc = recv_later m msg_size c rc

-- A round of the loop of `recv` for a fragment of another sender.
unfoldable pub recv_round : (ℕ → List ℕ) → Fragment → Cache → Round × Cache
unfolding recv_found find
recv_round malloc m rc =
    let r_size = u32 (data_length + m.remain) in
    if r_size == 0 || leb (2 ^ 31) r_size
    then (failed, rc)
    else recv_found malloc m r_size (find m.id rc) rc

-- The messages that come out of a sequence of fragments, each with its id, and the cache behind.
abbrev pub returned : ℕ → Round → List (ℕ × List ℕ)
returned id (message bytes) = (id, bytes) ∷ []
returned id failed = []
returned id next = []

unfoldable pub recv_all : (ℕ → List ℕ) → List Fragment → Cache → List (ℕ × List ℕ) × Cache
unfolding recv_round
recv_all malloc [] rc = ([], rc)
recv_all malloc (m ∷ ms) rc =
    let r = recv_round malloc m rc in
    let later = recv_all malloc ms r.1 in (returned m.id r.0 ++ later.0, later.1)
