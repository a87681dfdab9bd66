-- ===== src/Framing/Tail.antt =====
-- The tail that ends a stream says what its message says.
use cpp_ipc_dds.Common.{
  ℕ, ◌+◌, ◌-◌, ◌*◌, ◌/◌, ◌^◌, ◌<◌, add_assoc, ◌≡◌, List, ◌++◌, arith, ◌==◌, lt→ltb, le→ltb, length,
  length-append, get_or-append_right, u8,
}
use cpp_ipc_dds.Framing.{MsgBase, tail_bytes, be16, be32, check_id, get_tail_msg}

pub byte_split16 : (n : ℕ) → n < 2 ^ 16 → u8 (n / 2 ^ 8) * 2 ^ 8 + u8 n ≡ n
byte_split16 n h = omega arith

pub byte_split32 :
    (n : ℕ)
    → n < 2 ^ 32
    → u8 (n / 2 ^ 24) * 2 ^ 24 + u8 (n / 2 ^ 16) * 2 ^ 16 + u8 (n / 2 ^ 8) * 2 ^ 8 + u8 n ≡ n
byte_split32 n h = omega arith

module _ (pre suffix : List ℕ) (i : ℕ) where
  pub be16-append : (n : ℕ) → n ≡ length pre + i → be16 (pre ++ suffix) n ≡ be16 suffix i
  be16-append n e = rw e (simp (add_assoc, get_or-append_right))

  pub be32-append : (n : ℕ) → n ≡ length pre + i → be32 (pre ++ suffix) n ≡ be32 suffix i
  be32-append n e = rw e (simp (add_assoc, get_or-append_right))

-- The receiver reads in the last twelve bytes the page count, the page number, the total size and
-- the message id that the sender put there, if they are in the range of their fields.
pub get_tail_msg-tail_bytes :
    (b : MsgBase) (page : ℕ) (pre : List ℕ)
    → b.total_page_cnt < 2 ^ 16
    → page < 2 ^ 16
    → b.total_size < 2 ^ 32
    → b.msg_id < 2 ^ 32
    → get_tail_msg (pre ++ tail_bytes b page) ≡ record {
      page_cnt = b.total_page_cnt;
      now_page = page;
      total_size = b.total_size;
      msg_id = b.msg_id;
    }
unfolding get_tail_msg
get_tail_msg-tail_bytes b page pre h1 h2 h3 h4 = rw (
  lt→ltb 0 (length (pre ++ tail_bytes b page)) (omega (arith, size)),
  be16-append pre (tail_bytes b page) 0 (length (pre ++ tail_bytes b page) - 12)
      (omega (arith, size)),
  be16-append pre (tail_bytes b page) 2 (length (pre ++ tail_bytes b page) - 10)
      (omega (arith, size)),
  be32-append pre (tail_bytes b page) 4 (length (pre ++ tail_bytes b page) - 8)
      (omega (arith, size)),
  be32-append pre (tail_bytes b page) 8 (length (pre ++ tail_bytes b page) - 4)
      (omega (arith, size)),
  byte_split16 _ h1,
  byte_split16 _ h2,
  byte_split32 _ h3,
  byte_split32 _ h4,
)
  where
    size : length (pre ++ tail_bytes b page) ≡ length pre + 12
    size = length-append pre (tail_bytes b page)

-- A stream is taken for a message of type `expected` exactly if it was sent as one.
pub check_id-tail_bytes :
    (b : MsgBase) (page expected : ℕ) (pre : List ℕ)
    → b.msg_id < 2 ^ 32
    → check_id (pre ++ tail_bytes b page) expected ≡ b.msg_id == expected
unfolding check_id
check_id-tail_bytes b page expected pre h = rw (
  le→ltb (length (pre ++ tail_bytes b page)) 12 (omega (arith, size)),
  be32-append pre (tail_bytes b page) 8 (length (pre ++ tail_bytes b page) - 4)
      (omega (arith, size)),
  byte_split32 _ h,
)
  where
    size : length (pre ++ tail_bytes b page) ≡ length pre + 12
    size = length-append pre (tail_bytes b page)
