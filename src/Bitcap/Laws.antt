-- ===== src/Bitcap/Laws.antt =====
-- Capability sets as sets of bits.
use Prim.Native.Nat.{bit_and, min}
use v_c_agentd.Prelude.{
  ℕ, zero, suc, ◌-◌, ◌/◌, ◌%◌, ◌^◌, ◌≤◌, ◌<◌, ◌≡◌, refl, ap, ◌∙◌, sym, Bool, true, false, ◌&&◌, [],
  ◌∷◌, ◌==◌, ==_iff, arith, length,
}
use mathlib.Core.Bool.{not}
use v_c_agentd.Bitcap.{Caps, word, isset, change, set_false, intersect}
use v_c_agentd.Bitcap.Bits.{digit, digit-bit_and, bit_and-halves, bit_and-power}

isset-digit : (c : Caps) (bit : ℕ) → isset c bit ≡ not (digit (bit % 32) (word c (bit / 32)) == 0)
unfolding isset
isset-digit c bit = ap not (bit_and-power (bit % 32) (word c (bit / 32)))

word-intersect :
    (xs ys : Caps) (i : ℕ)
    → length xs ≡ length ys
    → word (intersect xs ys) i ≡ bit_and (word xs i) (word ys i)
unfolding word intersect
word-intersect [] [] i h = bit_and-halves 0 0
word-intersect [] (b ∷ ys) i h = absurd (omega arith)
word-intersect (a ∷ xs) [] i h = absurd (omega arith)
word-intersect (a ∷ xs) (b ∷ ys) zero h = refl
word-intersect (a ∷ xs) (b ∷ ys) (suc i) h = word-intersect xs ys i (omega arith)

both_digits : (x y z : ℕ) → z ≡ min x y → not (z == 0) ≡ (not (x == 0) && not (y == 0))
both_digits x y z h = ground arith

-- A bit is in the intersection of two sets of the same number of words if and only if it is in
-- both.
pub isset-intersect :
    (xs ys : Caps) (bit : ℕ)
    → length xs ≡ length ys
    → isset (intersect xs ys) bit ≡ (isset xs bit && isset ys bit)
isset-intersect xs ys bit h =
    rw (isset-digit (intersect xs ys) bit, isset-digit xs bit, isset-digit ys bit)
      (both_digits _ _ _
        (ap (digit (bit % 32)) (word-intersect xs ys (bit / 32) h) ∙ digit-bit_and (bit % 32) _ _))

word-change : (f : ℕ → ℕ) (c : Caps) (i : ℕ) → i < length c → word (change i f c) i ≡ f (word c i)
unfolding word change
word-change f [] i h = absurd (omega arith)
word-change f (w ∷ ws) zero h = refl
word-change f (w ∷ ws) (suc i) h = word-change f ws i (omega arith)

all_below : ℕ → (ℕ → Bool) → Bool
all_below zero p = true
all_below (suc n) p = p n && all_below n p

below : (n : ℕ) (p : ℕ → Bool) (k : ℕ) → all_below n p ≡ true → k < n → p k ≡ true
unfolding all_below
below zero p k h lt = absurd (omega arith)
below (suc n) p k h lt = ground (arith, below n p k)

-- the mask of BITCAP_SET_FALSE, at its own bit
mask_table : all_below 32 (λ k. digit k (2 ^ 32 - 1 - 2 ^ k) == 0) ≡ true
unfolding all_below digit
mask_table = refl

mask_digit : (k : ℕ) → k < 32 → digit k (2 ^ 32 - 1 - 2 ^ k) ≡ 0
mask_digit k h = (==_iff _ 0).0 (below 32 (λ k. digit k (2 ^ 32 - 1 - 2 ^ k) == 0) k mask_table h)

-- A bit within the words of a set is not in the set once it is taken out.
pub isset-set_false :
    (c : Caps) (bit : ℕ) → bit / 32 < length c → isset (set_false c bit) bit ≡ false
unfolding set_false
isset-set_false c bit h = isset-digit (set_false c bit) bit ∙ ap (λ d. not (d == 0)) gone
  where
    mask : ℕ
    mask = 2 ^ 32 - 1 - 2 ^ (bit % 32)

    gone : digit (bit % 32) (word (set_false c bit) (bit / 32)) ≡ 0
    gone = omega (
      arith,
      ap (digit (bit % 32)) (word-change (λ w. bit_and w mask) c (bit / 32) h),
      digit-bit_and (bit % 32) (word c (bit / 32)) mask,
      mask_digit (bit % 32) (omega arith),
    )

digit-mask_le :
    (k m : ℕ) (c : Caps) (i j : ℕ)
    → digit k (word (change i (λ w. bit_and w m) c) j) ≤ digit k (word c j)
unfolding word change
digit-mask_le k m [] i j = omega arith
digit-mask_le k m (w ∷ ws) zero zero = omega (arith, digit-bit_and k w m)
digit-mask_le k m (w ∷ ws) zero (suc j) = omega arith
digit-mask_le k m (w ∷ ws) (suc i) zero = omega arith
digit-mask_le k m (w ∷ ws) (suc i) (suc j) = digit-mask_le k m ws i j

fewer : (x y : ℕ) → x ≤ y → not (x == 0) ≡ true → not (y == 0) ≡ true
fewer x y le h = ground arith

-- A bit that is in a set with one taken out is in the set.
pub set_false-subset : (c : Caps) (bit j : ℕ) → isset (set_false c bit) j ≡ true → isset c j ≡ true
unfolding set_false
set_false-subset c bit j h =
    isset-digit c j
    ∙ fewer _ _ (digit-mask_le (j % 32) (2 ^ 32 - 1 - 2 ^ (bit % 32)) c (bit / 32) (j / 32))
        (sym (isset-digit (set_false c bit) j) ∙ h)
