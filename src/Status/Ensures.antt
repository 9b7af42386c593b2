-- ===== src/Status/Ensures.antt =====
-- Postconditions of results.
use v_c_agentd.Prelude.{Bool, true, false, ◌≡◌, refl, if◌then◌else◌, Option, none, some}
use mathlib.Core.Path.{subst}
use v_c_agentd.Status.{Status, Result, ok, err, guard, non_null, ◌>>=◌, ◌>>◌}

-- `P` holds of the value, if there is one.
pub data Ensures {ℓ κ} {A : Type ℓ} (P : A → Type κ) : Result A → Type (ℓ ⊔ κ) where
  holds : {a : A} → P a → Ensures P (ok a)
  refused : {e : Status} → Ensures P (err e)

module _ {ℓ κ} {A : Type ℓ} {P : A → Type κ} where
  pub Ensures-ok : {r : Result A} {a : A} → Ensures P r → r ≡ ok a → P a
  Ensures-ok (holds h) e = subst P (cc) h
  Ensures-ok refused e = cc

  pub Ensures-guard :
      (b : Bool) (e : Status) {k : Result A} → (b ≡ true → Ensures P k) → Ensures P (guard b e >> k)
  unfolding guard ◌>>◌
  Ensures-guard true e h = h refl
  Ensures-guard false e h = refused

  pub Ensures-non_null {ℓ'} :
      {B : Type ℓ'} (p : Option B) {k : B → Result A}
      → ((b : B) → Ensures P (k b))
      → Ensures P (non_null p >>= k)
  unfolding non_null ◌>>=◌
  Ensures-non_null none h = refused
  Ensures-non_null (some b) h = h b

  pub Ensures-if :
      (b : Bool) {x y : Result A} → Ensures P x → Ensures P y → Ensures P (if b then x else y)
  Ensures-if true hx hy = hx
  Ensures-if false hx hy = hy

  pub Ensures-bind {ℓ' κ'} :
      {B : Type ℓ'} {Q : B → Type κ'} {r : Result B} {k : B → Result A}
      → Ensures Q r
      → ((b : B) → Q b → Ensures P (k b))
      → Ensures P (r >>= k)
  unfolding ◌>>=◌
  Ensures-bind (holds {a} h) k = k a h
  Ensures-bind refused k = refused

pub Ensures-map {ℓ κ κ'} :
    {A : Type ℓ} {P : A → Type κ} {Q : A → Type κ'} {r : Result A}
    → Ensures P r
    → ((a : A) → P a → Q a)
    → Ensures Q r
Ensures-map (holds {a} h) f = holds (f a h)
Ensures-map refused f = refused

-- the result of a step of which nothing is said
pub anything : {A : Type 0} (r : Result A) → Ensures (λ _. Unit {0}) r
anything (ok a) = holds tt
anything (err s) = refused
