-- ===== src/Wire/Laws.antt =====
-- Integers on the wire, and htonll of src/inet/htonll.c.
use v_c_agentd.Prelude.{
  ℕ, zero, suc, ◌+◌, ◌*◌, ◌/◌, ◌%◌, ◌^◌, ◌<◌, ◌≡◌, refl, ap, ◌∙◌, [], ◌∷◌, ◌++◌, arith, length,
  take, drop, take-append, drop-append,
}
use mathlib.Core.List.{reverse, reverse-reverse}
use mathlib.Core.Path.{ap₂}
use v_c_agentd.Wire.{Bytes, AllBytes, le, from_le, htonl, htonll, put32, get32, put64, get64}

pub length-le : (n x : ℕ) → length (le n x) ≡ n
unfolding le
length-le zero x = refl
length-le (suc n) x = ap suc (length-le n (x / 256))

le-AllBytes : (n x : ℕ) → AllBytes (le n x)
unfolding le
le-AllBytes zero x = tt
le-AllBytes (suc n) x = (omega arith, le-AllBytes n (x / 256))

-- Memory holds what was copied into it.
le-from_le : (n : ℕ) (bs : Bytes) → length bs ≡ n → AllBytes bs → le n (from_le bs) ≡ bs
unfolding le from_le
le-from_le zero [] h b = refl
le-from_le zero (x ∷ bs) h b = absurd (omega arith)
le-from_le (suc n) [] h b = absurd (omega arith)
le-from_le (suc n) (x ∷ bs) h b = ap₂ ◌∷◌ low (ap (le n) high ∙ le-from_le n bs (omega arith) b.1)
  where
    low : (x + 256 * from_le bs) % 256 ≡ x
    low = omega (arith, b.0)

    high : (x + 256 * from_le bs) / 256 ≡ from_le bs
    high = omega (arith, b.0)

from_le-le_four : (x : ℕ) → x < 2 ^ 32 → from_le (le 4 x) ≡ x
unfolding le from_le
from_le-le_four x h = omega arith

from_le-le_eight : (x : ℕ) → x < 2 ^ 64 → from_le (le 8 x) ≡ x
unfolding le from_le
from_le-le_eight x h = omega arith

length-reverse-le_four : (x : ℕ) → length (reverse (le 4 x)) ≡ 4
unfolding le
length-reverse-le_four x = refl

-- `htonll` is the integer of the reversed eight bytes.
pub htonll-reverse : (x : ℕ) → htonll x ≡ from_le (reverse (le 8 x))
unfolding htonll le from_le
htonll-reverse x = omega arith

AllBytes-reverse_four : (x : ℕ) → AllBytes (reverse (le 4 x))
unfolding le
AllBytes-reverse_four x = omega arith

AllBytes-reverse_eight : (x : ℕ) → AllBytes (reverse (le 8 x))
unfolding le
AllBytes-reverse_eight x = omega arith

le-htonl : (x : ℕ) → le 4 (htonl x) ≡ reverse (le 4 x)
le-htonl x =
    unfold htonl in
    le-from_le 4 (reverse (le 4 x)) (length-reverse-le_four x) (AllBytes-reverse_four x)

length-reverse-le_eight : (x : ℕ) → length (reverse (le 8 x)) ≡ 8
unfolding le
length-reverse-le_eight x = refl

le-htonll : (x : ℕ) → le 8 (htonll x) ≡ reverse (le 8 x)
le-htonll x =
    rw (htonll-reverse x)
      (le-from_le 8 (reverse (le 8 x)) (length-reverse-le_eight x) (AllBytes-reverse_eight x))

-- `htonl` undoes itself on 32-bit words.
pub htonl-htonl : (x : ℕ) → x < 2 ^ 32 → htonl (htonl x) ≡ x
htonl-htonl x h = htonl_lem (htonl x) ∙ rw (le-htonl x, reverse-reverse) (from_le-le_four x h)
  where
    htonl_lem : (y : ℕ) → htonl y ≡ from_le (reverse (le 4 y))
    htonl_lem y = unfold htonl in refl

-- `htonll` undoes itself on 64-bit words.
pub htonll-htonll : (x : ℕ) → x < 2 ^ 64 → htonll (htonll x) ≡ x
htonll-htonll x h =
    htonll-reverse (htonll x) ∙ rw (le-htonll x, reverse-reverse) (from_le-le_eight x h)

htonl-lt : (x : ℕ) → htonl x < 2 ^ 32
unfolding htonl le from_le
htonl-lt x = omega arith

htonll-lt : (x : ℕ) → htonll x < 2 ^ 64
unfolding htonll
htonll-lt x = omega arith

pub length-put32 : (x : ℕ) → length (put32 x) ≡ 4
unfolding put32
length-put32 x = refl

pub length-put64 : (x : ℕ) → length (put64 x) ≡ 8
unfolding put64
length-put64 x = refl

-- A 32-bit value written to the wire is read back, whatever follows it.
pub get32-put32 : (x : ℕ) (rest : Bytes) → x < 2 ^ 32 → get32 (put32 x ++ rest) ≡ x
get32-put32 x rest h =
    unfold get32 in rw (take-append 4 (put32 x) rest (length-put32 x)) (whole ∙ htonl-htonl x h)
  where
    whole : htonl (from_le (put32 x)) ≡ htonl (htonl x)
    whole = ap htonl (unfold put32 in from_le-le_four (htonl x) (htonl-lt x))

-- A 64-bit value written to the wire is read back, whatever follows it.
pub get64-put64 : (x : ℕ) (rest : Bytes) → x < 2 ^ 64 → get64 (put64 x ++ rest) ≡ x
get64-put64 x rest h =
    unfold get64 in rw (take-append 8 (put64 x) rest (length-put64 x)) (whole ∙ htonll-htonll x h)
  where
    whole : htonll (from_le (put64 x)) ≡ htonll (htonll x)
    whole = ap htonll (unfold put64 in from_le-le_eight (htonll x) (htonll-lt x))

pub drop-put32 : (x : ℕ) (rest : Bytes) → drop 4 (put32 x ++ rest) ≡ rest
drop-put32 x rest = drop-append 4 (put32 x) rest (length-put32 x)

pub drop-put64 : (x : ℕ) (rest : Bytes) → drop 8 (put64 x ++ rest) ≡ rest
drop-put64 x rest = drop-append 8 (put64 x) rest (length-put64 x)

pub get32-lt : (bs : Bytes) → get32 bs < 2 ^ 32
unfolding get32
get32-lt bs = htonl-lt (from_le (take 4 bs))

pub get64-lt : (bs : Bytes) → get64 bs < 2 ^ 64
unfolding get64
get64-lt bs = htonll-lt (from_le (take 8 bs))
