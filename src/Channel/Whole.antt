-- ===== src/Channel/Whole.antt =====
-- The fragments of one message are put together again.
use cpp_ipc_dds.Common.{
  ℕ, zero, suc, ◌+◌, ◌-◌, ◌*◌, ◌/◌, ◌^◌, ◌≤◌, ◌<◌, min, zero-add, suc-add, ◌≡◌, refl, sym, ap, ◌∙◌,
  subst, true, false, ◌||◌, List, [], ◌∷◌, ◌++◌, arith, dec_lt, ltb, leb, ◌==◌, length, take,
  replicate, slice, overwrite, length-overwrite, take-overwrite, take-length, length-slice,
  take-append_eq, u32,
}
use cpp_ipc_dds.Control.Frames.{Allocates}
use cpp_ipc_dds.Channel.{
  full_fragments, last_fragment, send_fragments, Cached, append, make_cache, Cache, find, update,
  erase, recv_first, recv_later, recv_found, recv_round, recv_all, message, next,
}

take_nil : (k : ℕ) → ◌≡◌ {A = List ℕ} [] (take k [])
take_nil zero = refl
take_nil (suc k) = refl

take_add : (o k : ℕ) (xs : List ℕ) → take (o + k) xs ≡ take o xs ++ slice xs o k
take_add zero k xs = rw zero-add refl
take_add (suc o) k [] = rw suc-add (take_nil k)
take_add (suc o) k (x ∷ xs) = rw suc-add (ap (λ r. x ∷ r) (take_add o k xs))

module _ (bytes : List ℕ) where
  -- The first `o` bytes have arrived.
  record Filled (o : ℕ) (c : Cached) : Type 0 where
    fill : c.fill ≡ o
    size : length c.buff ≡ length bytes
    same : take o c.buff ≡ take o bytes

  append-Filled :
      (o k : ℕ) (rest : List ℕ) (c : Cached)
      → Filled o c
      → 0 < k
      → o + k ≤ length bytes
      → Filled (o + k) (append (slice bytes o k ++ rest) k c)
  unfolding append
  append-Filled o k rest c f pos fits =
      let src : List ℕ = slice bytes o k in
      let len : length src ≡ k = length-slice bytes o k fits in
      let going : leb (length c.buff) c.fill || k == 0 ≡ false =
        ground (arith, f.fill, f.size, pos, fits) in
      let new_fill : min (c.fill + k) (length c.buff) ≡ o + k =
        omega (arith, f.fill, f.size, fits) in
      let more : o + k - c.fill ≡ k = omega (arith, f.fill) in
      let at : o + length src ≤ length c.buff = omega (arith, len, f.size, fits) in
      rw (going, new_fill, more, take-append_eq k src rest len, f.fill)
        (record {
          fill = refl;
          size = length-overwrite c.buff o src ∙ f.size;
          same =
              subst (λ n. take (o + n) (overwrite c.buff o src) ≡ take o c.buff ++ src) len
                (take-overwrite c.buff o src at)
              ∙ ap (λ r. r ++ src) f.same
              ∙ sym (take_add o k bytes);
        })

  -- All of them have.
  Filled-whole : (c : Cached) → Filled (length bytes) c → c.buff ≡ bytes
  Filled-whole c f =
      sym (take-length (length bytes) c.buff (omega (arith, f.size)))
      ∙ f.same
      ∙ take-length (length bytes) bytes (omega arith)

-- Behind the first fragment.
module _ (malloc : ℕ → List ℕ) (fresh : Allocates malloc) (id : ℕ) (bytes : List ℕ)
    (few : length bytes < 2 ^ 31) where
  same_id : id == id ≡ true
  same_id = ground arith

  erase_self : (c : Cached) → erase id ((id, c) ∷ []) ≡ []
  unfolding erase
  erase_self c = rw same_id refl

  update_self : (c d : Cached) → update id d ((id, c) ∷ []) ≡ (id, d) ∷ []
  unfolding update
  update_self c d = rw same_id refl

  make_cache_lem :
      (k : ℕ) (rest : List ℕ)
      → k ≤ length bytes
      → k ≡ min 64 (length bytes)
      → Filled bytes k
          (record { fill = k; buff = make_cache malloc (slice bytes 0 k ++ rest) (length bytes) })
  unfolding make_cache
  make_cache_lem k rest fits e =
      let src : List ℕ = slice bytes 0 k in
      let len : length src ≡ k = length-slice bytes 0 k (omega arith) in
      let size : length (malloc (length bytes)) ≡ length bytes = fresh (length bytes) in
      let prefix : take (0 + length src) (overwrite (malloc (length bytes)) 0 src) ≡ src =
        take-overwrite (malloc (length bytes)) 0 src (omega (arith, len, size)) in
      rw (← e, take-append_eq k src rest len)
        (record {
          fill = refl;
          size = length-overwrite (malloc (length bytes)) 0 src ∙ size;
          same =
              subst (λ n. take n (overwrite (malloc (length bytes)) 0 src) ≡ src)
                (zero-add (length src) ∙ len) prefix;
        })

  round_last :
      (c : Cached) (remain k : ℕ) (block : List ℕ)
      → 0 < k
      → k ≤ 64
      → remain ≡ u32 (k + 2 ^ 32 - 64)
      → recv_round malloc (record { id = id; remain = remain; block = block }) ((id, c) ∷ [])
        ≡ (message (append block k c).buff, [])
  unfolding recv_round recv_found recv_later find erase
  round_last c remain k block pos small e =
      let size : u32 (64 + remain) ≡ k = omega (arith, e) in
      let some_size : k == 0 || leb (2 ^ 31) k ≡ false = ground arith in
      let ends : remain == 0 || leb (2 ^ 31) remain ≡ true = ground (arith, e) in
      rw (size, some_size, same_id, ends)
        (ap (λ (r : Cache). (message (append block k c).buff, r)) (erase_self c))

  round_more :
      (c : Cached) (remain : ℕ) (block : List ℕ)
      → 0 < remain
      → remain < 2 ^ 31 - 64
      → recv_round malloc (record { id = id; remain = remain; block = block }) ((id, c) ∷ [])
        ≡ (next, (id, append block 64 c) ∷ [])
  unfolding recv_round recv_found recv_later find update
  round_more c remain block pos small =
      let size : u32 (64 + remain) ≡ 64 + remain = omega arith in
      let some_size : 64 + remain == 0 || leb (2 ^ 31) (64 + remain) ≡ false = ground arith in
      let goes_on : remain == 0 || leb (2 ^ 31) remain ≡ false = ground arith in
      rw (size, some_size, same_id, goes_on)
        (ap (λ (r : Cache). (next, r)) (update_self c (append block 64 c)))

  round_first :
      (remain : ℕ) (block : List ℕ)
      → 0 < remain
      → remain < 2 ^ 31 - 64
      → 64 + remain ≡ length bytes
      → recv_round malloc (record { id = id; remain = remain; block = block }) []
        ≡ (next, (id, record { fill = 64; buff = make_cache malloc block (length bytes) }) ∷ [])
  unfolding recv_round recv_found recv_first find
  round_first remain block pos small whole =
      let size : u32 (64 + remain) ≡ length bytes = omega arith in
      let some_size : length bytes == 0 || leb (2 ^ 31) (length bytes) ≡ false = ground arith in
      let long : leb (length bytes) 64 ≡ false = ground arith in rw (size, some_size, long) refl

  round_only :
      (remain : ℕ) (block : List ℕ)
      → 0 < length bytes
      → length bytes ≤ 64
      → remain ≡ u32 (length bytes + 2 ^ 32 - 64)
      → recv_round malloc (record { id = id; remain = remain; block = block }) []
        ≡ (message (make_cache malloc block (length bytes)), [])
  unfolding recv_round recv_found recv_first find
  round_only remain block pos small e =
      let size : u32 (64 + remain) ≡ length bytes = omega arith in
      let some_size : length bytes == 0 || leb (2 ^ 31) (length bytes) ≡ false = ground arith in
      let short : leb (length bytes) 64 ≡ true = ground arith in rw (size, some_size, short) refl

  -- The rest of the fragments, from the offset `o` on, with `left` full ones.
  rest_returned :
      (left o : ℕ) (c : Cached)
      → Filled bytes o c
      → o < length bytes
      → o + left * 64 ≤ length bytes
      → length bytes < o + left * 64 + 64
      → recv_all malloc
          (full_fragments id bytes o left ++ last_fragment id bytes (o + left * 64))
          ((id, c) ∷ [])
        ≡ ((id, bytes) ∷ [], [])
  unfolding recv_all full_fragments last_fragment
  rest_returned zero o c f some_left low high =
      let k : ℕ = length bytes - o in
      let block : List ℕ = slice bytes o k ++ replicate (64 - length (slice bytes o k)) 0 in
      let pos : ltb 0 k ≡ true = ground arith in
      let at : o + 0 * 64 ≡ o = omega arith in
      let all : o + k ≡ length bytes = omega arith in
      let done : Filled bytes (o + k) (append block k c) =
        append-Filled bytes o k (replicate (64 - length (slice bytes o k)) 0) c f (omega arith)
          (omega arith) in
      let same_bytes : (append block k c).buff ≡ bytes =
        Filled-whole bytes _ (subst (λ n. Filled bytes n (append block k c)) all done) in
      rw (at, pos, round_last c _ k block (omega arith) (omega arith) refl, same_bytes) refl
  rest_returned (suc left) o c f some_left low high =
      let block : List ℕ = slice bytes o 64 ++ replicate (64 - length (slice bytes o 64)) 0 in
      let done =
        append-Filled bytes o 64 (replicate (64 - length (slice bytes o 64)) 0) c f (omega arith)
          (omega arith) in
      let exact : u32 (length bytes + 2 ^ 32 - o - 64) ≡ length bytes - o - 64 = omega arith in
      let at : o + suc left * 64 ≡ o + 64 + left * 64 = omega arith in
      elim (dec_lt (o + 64) (length bytes)) [
        | yes more ↦
            rw (exact, at, round_more c (length bytes - o - 64) block (omega arith) (omega arith))
              (rest_returned left (o + 64) (append block 64 c) done more (omega arith)
                (omega arith))
        | no last ↦
            let none_left : left ≡ 0 = omega arith in
            let all : o + 64 ≡ length bytes = omega arith in
            let same_bytes : (append block 64 c).buff ≡ bytes =
              Filled-whole bytes _ (subst (λ n. Filled bytes n (append block 64 c)) all done) in
            let zero_left : length bytes - o - 64 ≡ 0 = omega arith in
            let behind : ltb 0 (length bytes - (o + 1 * 64)) ≡ false = ground arith in
            rw
              (
                none_left,
                exact,
                zero_left,
                behind,
                round_last c 0 64 block (omega arith) (omega arith) refl,
                same_bytes,
              )
              refl
      ]

  -- All fragments, of which `count` are full.
  all_returned :
      (count : ℕ)
      → 0 < length bytes
      → count ≡ length bytes / 64
      → recv_all malloc (full_fragments id bytes 0 count ++ last_fragment id bytes (count * 64)) []
        ≡ ((id, bytes) ∷ [], [])
  unfolding recv_all full_fragments last_fragment
  all_returned zero pos e =
      let k : ℕ = length bytes in
      let block : List ℕ = slice bytes 0 k ++ replicate (64 - length (slice bytes 0 k)) 0 in
      let some_left : ltb 0 k ≡ true = ground arith in
      let at : k - 0 * 64 ≡ k = omega arith in
      let same_bytes : make_cache malloc block k ≡ bytes =
        Filled-whole bytes _ (make_cache_lem k _ (omega arith) (omega arith)) in
      rw (at, some_left, round_only _ block pos (omega arith) refl, same_bytes) refl
  all_returned (suc left) pos e =
      let block : List ℕ = slice bytes 0 64 ++ replicate (64 - length (slice bytes 0 64)) 0 in
      let c : Cached = record { fill = 64; buff = make_cache malloc block (length bytes) } in
      let begun : Filled bytes 64 c = make_cache_lem 64 _ (omega arith) (omega arith) in
      let exact : u32 (length bytes + 2 ^ 32 - 0 - 64) ≡ length bytes - 64 = omega arith in
      let at : suc left * 64 ≡ 64 + left * 64 = omega arith in
      elim (dec_lt 64 (length bytes)) [
        | yes more ↦
            rw
              (
                exact,
                at,
                round_first (length bytes - 64) block (omega arith) (omega arith) (omega arith),
              )
              (rest_returned left 64 c begun more (omega arith) (omega arith))
        | no only ↦
            let none_left : left ≡ 0 = omega arith in
            let whole : 64 ≡ length bytes = omega arith in
            let zero_left : u32 (length bytes + 2 ^ 32 - 0 - 64) ≡ 0 = omega arith in
            let behind : ltb 0 (length bytes - 1 * 64) ≡ false = ground (arith, only) in
            let same_bytes : make_cache malloc block (length bytes) ≡ bytes = Filled-whole bytes _ (
              subst
                (λ n.
                  Filled bytes n
                    (record { fill = n; buff = make_cache malloc block (length bytes) }))
                whole begun) in
            let same64 : make_cache malloc block 64 ≡ bytes =
              subst (λ n. make_cache malloc block n ≡ bytes) (sym whole) same_bytes in
            rw (none_left, zero_left, behind)
              (ap (λ r. ((id, r) ∷ [], [])) (unfold make_cache in same64))
      ]

-- The fragments that `send` pushes for a message of fewer than 2^31 bytes, but not none, are put
-- together to that message by the last of them, and nothing stays in the cache. The memory that
-- `recv` allocates may hold anything.
pub recv_all-send_fragments :
    (malloc : ℕ → List ℕ) (id : ℕ) (bytes : List ℕ)
    → Allocates malloc
    → 0 < length bytes
    → length bytes < 2 ^ 31
    → recv_all malloc (send_fragments id bytes) [] ≡ ((id, bytes) ∷ [], [])
unfolding send_fragments
recv_all-send_fragments malloc id bytes fresh pos few =
    all_returned malloc fresh id bytes few (length bytes / 64) pos refl
