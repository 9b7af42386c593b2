-- ===== src/Wire.antt =====
-- Bytes in memory and on the wire: `uint32_t` and `uint64_t` values copied by `memcpy` on a
-- little-endian host, `htonl`, `ntohl`, and `htonll` of src/inet/htonll.c.
pub mod Laws
pub mod Examples
use v_c_agentd.Prelude.{
  ℕ, zero, suc, ◌+◌, ◌*◌, ◌/◌, ◌%◌, ◌^◌, ◌<◌, List, [], ◌∷◌, ◌++◌, length, take,
}
use mathlib.Core.List.{reverse}

abbrev pub Bytes : Type 0
Bytes = List ℕ

-- every element is a `uint8_t`
abbrev pub AllBytes : Bytes → Type 0
AllBytes [] = Unit
AllBytes (b ∷ bs) = (b < 256) × AllBytes bs

-- the `n` bytes of an unsigned integer, lowest first: what `memcpy` from a variable reads
unfoldable pub le : ℕ → ℕ → Bytes
le zero x = []
le (suc n) x = (x % 256) ∷ le n (x / 256)

-- the integer that bytes copied into a variable make
unfoldable pub from_le : Bytes → ℕ
from_le [] = 0
from_le (b ∷ bs) = b + 256 * from_le bs

-- `htonl` and `ntohl` of the C library on such a host
unfoldable pub htonl : ℕ → ℕ
unfolding le from_le
htonl x = from_le (reverse (le 4 x))

-- `val & 0xFF << 8 k`, shifted so that it lies at byte `j`; the eight parts share no bit, so that
-- `|` is `+`
abbrev byte_to : ℕ → ℕ → ℕ → ℕ
byte_to x k j = x / 256 ^ k % 256 * 256 ^ j

unfoldable pub htonll : ℕ → ℕ
htonll val =
    byte_to val 0 7
    + byte_to val 1 6
    + byte_to val 2 5
    + byte_to val 3 4
    + byte_to val 4 3
    + byte_to val 5 2
    + byte_to val 6 1
    + byte_to val 7 0

-- `uint32_t net = htonl(x); memcpy(p, &net, 4)`
unfoldable pub put32 : ℕ → Bytes
unfolding htonl le
put32 x = le 4 (htonl x)

-- `uint32_t net; memcpy(&net, p, 4); ntohl(net)`
unfoldable pub get32 : Bytes → ℕ
unfolding htonl from_le
get32 bs = htonl (from_le (take 4 bs))

unfoldable pub put64 : ℕ → Bytes
unfolding htonll le
put64 x = le 8 (htonll x)

unfoldable pub get64 : Bytes → ℕ
unfolding htonll from_le
get64 bs = htonll (from_le (take 8 bs))
