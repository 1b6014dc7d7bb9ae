-- ===== src/Rtmq/Mesg.antt =====
-- incl/rtmq/rtmq_mesg.h: the header of a message and its byte orders. The host is little-endian, so
-- `htonl` and `ntohl` reverse the four bytes of a word.
pub mod Laws
use cctrl.Prelude.{
  ℕ, zero, suc, ◌+◌, ◌*◌, ◌/◌, ◌%◌, ◌^◌, List, [], ◌∷◌, ◌++◌, length, take, drop, Bool, ◌==◌,
}

-- `rtmq_header_t`
pub record Header : Type 0 where
  pub kind : ℕ  -- `type`
  pub nid : ℕ
  pub flag : ℕ
  pub len : ℕ  -- `length`
  pub chksum : ℕ

-- A message in memory: its header and the bytes behind it.
pub record Mesg : Type 0 where
  pub head : Header
  pub body : List ℕ

-- `sizeof(rtmq_header_t)` and `RTMQ_CHKSUM_VAL`
abbrev pub head_size : ℕ
head_size = 20

abbrev pub chksum_val : ℕ
chksum_val = 0x1FE23DC4

abbrev pub chksum_isvalid : Header → Bool
chksum_isvalid h = h.chksum == chksum_val

-- A word in memory, lowest byte first.
abbrev pub word_bytes : ℕ → List ℕ
word_bytes n = n % 256 ∷ n / 256 % 256 ∷ n / 256 / 256 % 256 ∷ n / 256 / 256 / 256 % 256 ∷ []

abbrev pub head_bytes : Header → List ℕ
head_bytes h =
    word_bytes h.kind
    ++ (word_bytes h.nid ++ (word_bytes h.flag ++ (word_bytes h.len ++ word_bytes h.chksum)))

-- The word at the start of a memory.
abbrev pub word_at : List ℕ → ℕ
word_at (a ∷ b ∷ c ∷ d ∷ _) = a + 256 * (b + 256 * (c + 256 * d))
word_at _ = 0

abbrev pub head_at : List ℕ → Header
head_at m = record {
  kind = word_at m;
  nid = word_at (drop 4 m);
  flag = word_at (drop 8 m);
  len = word_at (drop 12 m);
  chksum = word_at (drop 16 m);
}

-- The first `n` words of a memory with their bytes reversed.
unfoldable pub swap_words : ℕ → List ℕ → List ℕ
swap_words zero m = m
swap_words (suc n) (a ∷ b ∷ c ∷ d ∷ m) = d ∷ c ∷ b ∷ a ∷ swap_words n m
swap_words (suc n) m = m

-- `RTMQ_HEAD_HTON(head, head)` and `RTMQ_HEAD_NTOH(head, head)`, in place.
abbrev pub head_hton : List ℕ → List ℕ
head_hton m = swap_words 5 m

abbrev pub head_ntoh : List ℕ → List ℕ
head_ntoh m = swap_words 5 m

-- The bytes that go into the socket.
abbrev pub wire : Mesg → List ℕ
wire m = head_hton (head_bytes m.head ++ m.body)

abbrev pub wire_all : List Mesg → List ℕ
wire_all [] = []
wire_all (m ∷ ms) = wire m ++ wire_all ms
