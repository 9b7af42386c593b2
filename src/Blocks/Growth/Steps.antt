-- ===== src/Blocks/Growth/Steps.antt =====
-- The steps by which a block takes its transactions: what each leaves as it was in the ledger.
use v_c_agentd.Prelude.{
  ℕ, ◌≡◌, refl, sym, ap, ◌∙◌, true, ◌+◌, some, List, [], ◌∷◌, ◌==◌, length, Option-cases,
  Bool-cases, inl, inr, arith, ==_iff, ==_refl,
}
use mathlib.Core.Path.{subst}
use v_c_agentd.Wire.{Bytes}
use v_c_agentd.Status.Ensures.{Ensures, holds, refused}
use v_c_agentd.Queue.{Uuid}
use v_c_agentd.Queue.Chain.{Cell, has}
use v_c_agentd.Queue.Spec.{erase}
use v_c_agentd.Blocks.Certs.{Child}
use v_c_agentd.Blocks.Children.{state_canonized}
use v_c_agentd.Blocks.Ledger.{Txn, Ledger, set, record_txn, unqueue, follow, canonized_txn}

-- the transaction of this id is recorded for this block, with this certificate
abbrev pub Canonized : Uuid → Uuid → Bytes → Ledger → Type 0
Canonized k block_id cert l =
    (x : Txn) × (l.txns k ≡ some x)
    × (x.block_id ≡ block_id)
    × (x.state ≡ state_canonized)
    × (x.cert ≡ cert)

-- From `l` to `l'` no block changes, nothing joins the queue and no recorded transaction goes; `n`
-- transactions leave the queue.
pub record Moves (n : ℕ) (l l' : Ledger) : Type 0 where
  pub same_blocks : l'.blocks ≡ l.blocks
  pub still : (k : Uuid) → has k l'.queue ≡ true → has k l.queue ≡ true
  pub left : length l'.queue + n ≡ length l.queue
  pub kept :
      (k block_id : Uuid) (cert : Bytes)
      → Canonized k block_id cert l
      → Canonized k block_id cert l'

pub Moves-refl : (l : Ledger) → Moves 0 l l
Moves-refl l = record {
  same_blocks = refl;
  still = λ k h. h;
  left = omega arith;
  kept = λ k b c h. h;
}

pub Moves-trans :
    (n m : ℕ) (l1 l2 l3 : Ledger) → Moves n l1 l2 → Moves m l2 l3 → Moves (n + m) l1 l3
Moves-trans n m l1 l2 l3 a b = record {
  same_blocks = b.same_blocks ∙ a.same_blocks;
  still = λ k h. a.still k (b.still k h);
  left = omega (arith, a.left, b.left);
  kept = λ k i c h. b.kept k i c (a.kept k i c h);
}

-- a transaction recorded anew, or changed in its link only
set-kept :
    (k : Uuid) (x : Txn) (l : Ledger)
    → ((y : Txn)
        → l.txns k ≡ some y
        → (x.block_id ≡ y.block_id) × (x.state ≡ y.state) × (x.cert ≡ y.cert))
    → Moves 0 l (record l { txns = set k x l.txns })
set-kept k x l same = record {
  same_blocks = refl;
  still = λ j h. h;
  left = omega arith;
  kept = λ j i c h. kept_at j i c h;
}
  where
    kept_at :
        (j i : Uuid) (c : Bytes)
        → Canonized j i c l
        → Canonized j i c (record l { txns = set k x l.txns })
    kept_at j i c (y, there, block, state, cert) = elim (Bool-cases (k == j)) [
      | inl hit ↦
          let (b, s, d) =
            same y (subst (λ q. l.txns q ≡ some y) (sym ((==_iff k j).0 hit)) there) in
          (x, rw hit refl, b ∙ block, s ∙ state, d ∙ cert)
      | inr miss ↦ (y, rw miss there, block, state, cert)
    ]

pub record_txn-Moves :
    (child : Child) (block_id : Uuid) (cert : Bytes) (l : Ledger)
    → Ensures
        (λ l'.
          Moves 0 l l' × Canonized child.transaction_id block_id cert l' × (l'.queue ≡ l.queue))
        (record_txn child block_id cert l)
record_txn-Moves child block_id cert l = elim (Option-cases (l.txns child.transaction_id)) [
  | inr (x, taken) ↦ rw (record_txn, taken) refused
  | inl free ↦
      rw (record_txn, free)
        (holds (
          set-kept child.transaction_id (canonized_txn child block_id cert) l (λ y there. cc),
          (
            canonized_txn child block_id cert,
            rw (==_refl child.transaction_id) refl,
            refl,
            refl,
            refl,
          ),
          refl,
        ))
]

erase-length : (k : Uuid) (cs : List Cell) → has k cs ≡ true → length (erase k cs) + 1 ≡ length cs
unfolding erase
erase-length k [] h = cc
erase-length k (c ∷ cs) h = ground (arith, erase-length k cs)

erase-has : (k j : Uuid) (cs : List Cell) → has j (erase k cs) ≡ true → has j cs ≡ true
unfolding erase
erase-has k j [] h = h
erase-has k j (c ∷ cs) h = ground (arith, erase-has k j cs)

pub unqueue-Moves :
    (k : Uuid) (l : Ledger) → Ensures (λ l'. Moves 1 l l' × (has k l.queue ≡ true)) (unqueue k l)
unqueue-Moves k l = elim (Bool-cases (has k l.queue)) [
  | inr absent ↦ rw (unqueue, absent) refused
  | inl present ↦
      rw (unqueue, present)
        (holds (
          record {
            same_blocks = refl;
            still = λ j h. erase-has k j l.queue h;
            left = erase-length k l.queue present;
            kept = λ j i c h. h;
          },
          refl,
        ))
]

pub follow-Moves : (prev id : Uuid) (l : Ledger) → Ensures (Moves 0 l) (follow prev id l)
follow-Moves prev id l = elim (Option-cases (l.txns prev)) [
  | inl missing ↦ rw (follow, missing) refused
  | inr (x, there) ↦
      rw (follow, there)
        (holds (
          set-kept prev (record x { next = id }) l
            (λ y there'.
              let eq : x ≡ y = cc in
              (ap (λ z. z.block_id) eq, ap (λ z. z.state) eq, ap (λ z. z.cert) eq))))
]
