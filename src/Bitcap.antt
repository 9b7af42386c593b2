-- ===== src/Bitcap.antt =====
-- Capability sets, include/agentd/bitcap.h: an array of `uint32_t` words.
pub mod Bits
pub mod Laws
pub mod Examples
use v_c_agentd.Prelude.{ℕ, zero, suc, ◌+◌, ◌-◌, ◌/◌, ◌%◌, ◌^◌, Bool, List, [], ◌∷◌, ◌==◌}
use mathlib.Core.Bool.{not}
use Prim.Native.Nat.{bit_and, bit_or}

abbrev pub Caps : Type 0
Caps = List ℕ

-- `cap[i]`; a word behind the array reads as zero here, and no bit constant of the program reaches it
unfoldable pub word : Caps → ℕ → ℕ
word [] i = 0
word (w ∷ ws) zero = w
word (w ∷ ws) (suc i) = word ws i

-- BITCAP_ISSET
unfoldable pub isset : Caps → ℕ → Bool
unfolding word
isset cap bit = not (bit_and (word cap (bit / 32)) (2 ^ (bit % 32)) == 0)

-- `cap[i] = f(cap[i])`
unfoldable pub change : ℕ → (ℕ → ℕ) → Caps → Caps
change i f [] = []
change zero f (w ∷ ws) = f w ∷ ws
change (suc i) f (w ∷ ws) = w ∷ change i f ws

-- BITCAP_INIT_TRUE
unfoldable pub init_true : Caps → Caps
init_true [] = []
init_true (w ∷ ws) = (2 ^ 32 - 1) ∷ init_true ws

-- BITCAP_SET_TRUE
unfoldable pub set_true : Caps → ℕ → Caps
unfolding change
set_true cap bit = change (bit / 32) (λ w. bit_or w (2 ^ (bit % 32))) cap

-- BITCAP_SET_FALSE; `~x` is `2 ^ 32 - 1 - x` on a 32-bit word
unfoldable pub set_false : Caps → ℕ → Caps
unfolding change
set_false cap bit = change (bit / 32) (λ w. bit_and w (2 ^ 32 - 1 - 2 ^ (bit % 32))) cap

-- BITCAP_INTERSECT, on sets of one size
unfoldable pub intersect : Caps → Caps → Caps
intersect [] ys = []
intersect (a ∷ xs) [] = []
intersect (a ∷ xs) (b ∷ ys) = bit_and a b ∷ intersect xs ys
