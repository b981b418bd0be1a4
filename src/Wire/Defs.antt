-- ===== src/Wire/Defs.antt =====
-- Words in memory, the conversions to and from network order, struct qp_conn_info.
use rdma_tutorial.Prelude.{
  ℕ, ◌+◌, ◌*◌, ◌/◌, ◌%◌, Option, none, some, List, [], ◌∷◌, ◌++◌, length, take, ltb, if◌then◌else◌,
}

pub data ByteOrder : Type 0 where
  little big : ByteOrder

abbrev byte : ℕ → ℕ → ℕ
byte x unit = x / unit % 256

-- __bswap_16, __bswap_32, __bswap_64
unfoldable pub bswap_16 : ℕ → ℕ
bswap_16 x = byte x 1 * 256 + byte x 256

unfoldable pub bswap_32 : ℕ → ℕ
bswap_32 x = byte x 1 * 16777216 + byte x 256 * 65536 + byte x 65536 * 256 + byte x 16777216

unfoldable pub bswap_64 : ℕ → ℕ
bswap_64 x =
    byte x 1 * 72057594037927936
    + byte x 256 * 281474976710656
    + byte x 65536 * 1099511627776
    + byte x 16777216 * 4294967296
    + byte x 4294967296 * 16777216
    + byte x 1099511627776 * 65536
    + byte x 281474976710656 * 256
    + byte x 72057594037927936

-- htonll and ntohll, as the header defines them for each byte order
unfoldable pub htonll : ByteOrder → ℕ → ℕ
htonll little x = bswap_64 x
htonll big x = x

unfoldable pub ntohll : ByteOrder → ℕ → ℕ
ntohll little x = bswap_64 x
ntohll big x = x

-- htonl and htons of libc; ntohl and ntohs are the same functions
unfoldable pub htonl : ByteOrder → ℕ → ℕ
unfolding bswap_32
htonl little x = bswap_32 x
htonl big x = x

unfoldable pub htons : ByteOrder → ℕ → ℕ
unfolding bswap_16
htons little x = bswap_16 x
htons big x = x

-- How a host keeps a uint32_t and a uint16_t in memory.
unfoldable pub store_32 : ByteOrder → ℕ → List ℕ
store_32 little x = byte x 1 ∷ byte x 256 ∷ byte x 65536 ∷ byte x 16777216 ∷ []
store_32 big x = byte x 16777216 ∷ byte x 65536 ∷ byte x 256 ∷ byte x 1 ∷ []

unfoldable pub store_16 : ByteOrder → ℕ → List ℕ
store_16 little x = byte x 1 ∷ byte x 256 ∷ []
store_16 big x = byte x 256 ∷ byte x 1 ∷ []

unfoldable pub store_64 : ByteOrder → ℕ → List ℕ
store_64 little x =
    byte x 1
    ∷ byte x 256
    ∷ byte x 65536
    ∷ byte x 16777216
    ∷ byte x 4294967296
    ∷ byte x 1099511627776
    ∷ byte x 281474976710656
    ∷ byte x 72057594037927936
    ∷ []
store_64 big x =
    byte x 72057594037927936
    ∷ byte x 281474976710656
    ∷ byte x 1099511627776
    ∷ byte x 4294967296
    ∷ byte x 16777216
    ∷ byte x 65536
    ∷ byte x 256
    ∷ byte x 1
    ∷ []

abbrev load_32 : ByteOrder → (a b c d : ℕ) → ℕ
load_32 little a b c d = a + b * 256 + c * 65536 + d * 16777216
load_32 big a b c d = d + c * 256 + b * 65536 + a * 16777216

abbrev load_16 : ByteOrder → (a b : ℕ) → ℕ
load_16 little a b = a + b * 256
load_16 big a b = b + a * 256

-- struct qp_conn_info, packed: 4 + 2 + 16 bytes
pub record QpConnInfo : Type 0 where
  pub qp_num : ℕ
  pub lid : ℕ
  pub gid : List ℕ

abbrev pub sizeof_qp_conn_info : ℕ
sizeof_qp_conn_info = 22

-- the bytes of the struct
unfoldable pub info_bytes : ByteOrder → QpConnInfo → List ℕ
unfolding store_32 store_16
info_bytes o info = store_32 o info.qp_num ++ store_16 o info.lid ++ info.gid

-- the struct at bytes that were read; `none` where there are not enough
unfoldable pub info_of_bytes : ByteOrder → List ℕ → Option QpConnInfo
info_of_bytes o (a ∷ b ∷ c ∷ d ∷ e ∷ f ∷ gid) =
    if ltb (length gid) 16
    then none
    else some (record { qp_num = load_32 o a b c d; lid = load_16 o e f; gid = take 16 gid })
info_of_bytes o _ = none

-- `local_info`, filled with htonl and htons
unfoldable pub local_info : ByteOrder → (qp_num lid : ℕ) → List ℕ → QpConnInfo
unfolding htonl htons
local_info o qp_num lid gid = record { qp_num = htonl o qp_num; lid = htons o lid; gid = gid }

-- `remote_info` after ntohl and ntohs
unfoldable pub to_host : ByteOrder → QpConnInfo → QpConnInfo
unfolding htonl htons
to_host o info = record info { qp_num = htonl o info.qp_num; lid = htons o info.lid }
