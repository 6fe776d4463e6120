-- ===== src/MsgBuffer/Ints.antt =====
-- `peekInt32` and `readInt32` of src/network/base/MsgBuffer.h: an integer in network byte order
-- at the front of the readable bytes. The host is little-endian.
use tmms.Common.{
  ℕ, ◌+◌, ◌*◌, ◌/◌, ◌%◌, ◌^◌, ◌≤◌, ◌<◌, ◌≡◌, ap, ◌∙◌, List, [], ◌∷◌, ◌++◌, length, take, drop,
  arith, Result, ok, ltb, ltb_refuted, if◌then◌else◌, ◌>>=◌,
}
use tmms.MsgBuffer.{MsgBuffer, readable_bytes, retrieve, append}
use tmms.MsgBuffer.Valid.{IsValid, contents, length-contents}
use tmms.MsgBuffer.Moves.{retrieve_lem, string-contents}
use tmms.MsgBuffer.Append.{append_lem, CanHold}

-- `memcpy` of four bytes into a `uint32_t` of a little-endian host.
load_u32 : List ℕ → ℕ
load_u32 (a ∷ b ∷ c ∷ d ∷ rest) = a + 256 * b + 65536 * c + 16777216 * d
load_u32 _ = 0

-- `ntohl` on such a host reverses the four bytes.
ntohl : ℕ → ℕ
ntohl v = v % 256 * 16777216 + v / 256 % 256 * 65536 + v / 65536 % 256 * 256 + v / 16777216 % 256

-- The four bytes at `peek()` are read from the storage.
pub peek_int32 : MsgBuffer → ℕ
unfolding load_u32 ntohl
peek_int32 b =
    if ltb (readable_bytes b) 4 then 0 else ntohl (load_u32 (take 4 (drop b.reader_index b.buffer)))

pub read_int32 : MsgBuffer → Result (ℕ × MsgBuffer)
read_int32 b = do let ret = peek_int32 b; b' ← retrieve 4 b; ok (ret, b')

-- The four bytes of a 32-bit integer, most significant first.
abbrev pub network_order : ℕ → List ℕ
network_order n = n / 16777216 ∷ n / 65536 % 256 ∷ n / 256 % 256 ∷ n % 256 ∷ []

ntohl-load_u32 : (n : ℕ) → n < 2 ^ 32 → ntohl (load_u32 (network_order n)) ≡ n
unfolding ntohl load_u32
ntohl-load_u32 n h = omega arith

peek_int32_lem :
    (n : ℕ) (b : MsgBuffer)
    → IsValid b
    → n < 2 ^ 32
    → 4 ≤ length (contents b)
    → take 4 (contents b) ≡ network_order n
    → peek_int32 b ≡ n
unfolding peek_int32
peek_int32_lem n b v small enough front =
    rw
      (
        ltb_refuted (readable_bytes b) 4 (omega (arith, length-contents b v)),
        string-contents 4 b v enough,
        front,
      )
      (ntohl-load_u32 n small)

-- `readInt32` on a buffer whose readable bytes start with the network order of `n` returns `n` and
-- drops those four bytes.
pub read_int32_lem :
    (n : ℕ) (rest : List ℕ) (b : MsgBuffer)
    → IsValid b
    → n < 2 ^ 32
    → contents b ≡ network_order n ++ rest
    → (b' : MsgBuffer) × (peek_int32 b ≡ n)
      × (read_int32 b ≡ ok (n, b'))
      × IsValid b'
      × (contents b' ≡ rest)
unfolding read_int32
read_int32_lem n rest b v small front =
    let (b', e, (w, c, _)) = retrieve_lem 4 b v long in
    (b', value, rw (e, value), w, c ∙ ap (drop 4) front)
  where
    long : 4 ≤ length (contents b)
    long = omega (arith, ap length front)

    value : peek_int32 b ≡ n
    value = peek_int32_lem n b v small long (ap (take 4) front)

-- A 32-bit integer that is appended in network order, with any bytes behind it, to a valid buffer
-- without readable bytes, whose storage may grow so far, is what `readInt32` returns. Exactly the
-- bytes behind it are readable afterwards, and the buffer is valid.
pub read_int32-append :
    (n : ℕ) (more : List ℕ) (b : MsgBuffer)
    → IsValid b
    → n < 2 ^ 32
    → CanHold (4 + length more) b
    → contents b ≡ []
    → (b' : MsgBuffer) × ((append (network_order n ++ more) b >>= read_int32) ≡ ok (n, b'))
      × IsValid b'
      × (contents b' ≡ more)
read_int32-append n more b v small h empty =
    let (b1, e, w, c) = append_lem (network_order n ++ more) b v (omega arith) in
    let (b2, _, r, w2, c2) =
      read_int32_lem n more b1 w small (c ∙ ap (λ xs. xs ++ (network_order n ++ more)) empty) in
    (b2, rw e r, w2, c2)
