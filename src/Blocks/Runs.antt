-- ===== src/Blocks/Runs.antt =====
-- Additions of blocks, one and several in a row, on a store that holds a ledger.
use v_c_agentd.Prelude.{
  ℕ, suc, ◌≡◌, refl, sym, ap, ◌∙◌, ◌+◌, ◌<◌, ◌≤◌, ◌^◌, List, [], ◌∷◌, ◌++◌, length, length-append,
  arith,
}
use mathlib.Core.Path.{subst}
use v_c_agentd.Wire.{Bytes}
use v_c_agentd.Bitcap.{Caps}
use v_c_agentd.Status.{Result, ok, err}
use v_c_agentd.Status.Ensures.{Ensures, Ensures-ok}
use v_c_agentd.Lmdb.Cmd.{Cmd}
use v_c_agentd.Queue.{Uuid}
use v_c_agentd.Database.{Environment}
use v_c_agentd.Database.Reliable.{IsReliableEnv}
use v_c_agentd.Blocks.Certs.{Certificates}
use v_c_agentd.Blocks.Make.{block_make}
use v_c_agentd.Blocks.Chain.{Block}
use v_c_agentd.Blocks.Ledger.{Ledger, block_made}
use v_c_agentd.Blocks.Holds.{Represents}
use v_c_agentd.Blocks.Growth.{Grown, block_made-Grown}
use v_c_agentd.Blocks.Growth.Steps.{Canonized}
use v_c_agentd.Blocks.Refines.Commit.{Did, block_make-refines}

-- a call: the capabilities of the caller, the id and the certificate
pub record Addition : Type 0 where
  pub caps : Caps
  pub block_id : Uuid
  pub block_data : Bytes

-- calls in a row, whether they succeed or fail: the last store
abbrev pub add_all : (e : Environment) → Certificates → List Addition → e.T → e.T
add_all e c [] store = store
add_all e c (a ∷ more) store =
    add_all e c more (block_make e c a.caps a.block_id a.block_data store).1

-- At most `n` blocks have come on top of the chain, and what was recorded for a block is so still.
pub record Onward (n : ℕ) (l l' : Ledger) : Type 0 where
  pub new : List Block
  pub blocks_eq : l'.blocks ≡ new ++ l.blocks
  pub few : length new ≤ n
  pub kept :
      (k block_id : Uuid) (cert : Bytes)
      → Canonized k block_id cert l
      → Canonized k block_id cert l'

Onward-refl : (n : ℕ) (l : Ledger) → Onward n l l
Onward-refl n l = record { new = []; blocks_eq = refl; few = omega arith; kept = λ k i d h. h }

append_assoc : (xs ys zs : List Block) → xs ++ (ys ++ zs) ≡ (xs ++ ys) ++ zs
append_assoc [] ys zs = refl
append_assoc (x ∷ xs) ys zs = ap (◌∷◌ x) (append_assoc xs ys zs)

Onward-step : (m : ℕ) (l1 l2 l3 : Ledger) → Onward 1 l1 l2 → Onward m l2 l3 → Onward (suc m) l1 l3
Onward-step m l1 l2 l3 a b = record {
  new = b.new ++ a.new;
  blocks_eq = b.blocks_eq ∙ ap (λ bs. b.new ++ bs) a.blocks_eq ∙ append_assoc b.new a.new l1.blocks;
  few = omega (arith, a.few, b.few, length-append b.new a.new);
  kept = λ k i d h. b.kept k i d (a.kept k i d h);
}

Grown-Onward :
    (c : Certificates) (block_id : Uuid) (block_data : Bytes) (l l' : Ledger)
    → Grown c block_id block_data l l'
    → Onward 1 l l'
Grown-Onward c block_id block_data l l' g = record {
  new = g.top.0 ∷ [];
  blocks_eq = g.top.3;
  few = omega arith;
  kept = g.kept;
}

module _ {e : Environment} (r : IsReliableEnv e) (c : Certificates) where
  grown :
      (m : Cmd e.T (Unit {0})) (store store' : e.T) (l : Ledger) (s : Result Ledger)
      (block_id : Uuid) (block_data : Bytes)
      → Did r c m store s
      → Ensures (Grown c block_id block_data l) s
      → m store ≡ (ok tt, store')
      → (l' : Ledger) × Represents e c.root_block store' l' × Grown c block_id block_data l l'
  grown m store store' l (ok l') block_id block_data (store1, done, h) g eq = (
    l',
    subst (λ t. Represents e c.root_block t l') (ap (λ x. x.1) (sym done ∙ eq)) h,
    Ensures-ok g refl,
  )
  grown m store store' l (err s) block_id block_data failed g eq = cc

  -- On a store that holds a ledger, where LMDB and `malloc` do not fail, and with fewer than 2^64 - 1
  -- blocks: after an addition of a block that succeeds the store holds a ledger with that block on top
  -- of the chain. Every wrapped transaction of the block stood in the queue before, and is then
  -- recorded for the block with its certificate and as canonized; the queue is shorter by their
  -- number, and what was recorded for a block before is so still.
  pub block_make-grows :
      (childcaps : Caps) (block_id : Uuid) (block_data : Bytes) (store store' : e.T) (l : Ledger)
      → suc (length l.blocks) < 2 ^ 64
      → Represents e c.root_block store l
      → block_make e c childcaps block_id block_data store ≡ (ok tt, store')
      → (l' : Ledger) × Represents e c.root_block store' l' × Grown c block_id block_data l l'
  block_make-grows childcaps block_id block_data store store' l bound h eq =
      grown (block_make e c childcaps block_id block_data) store store' l
        (block_made c childcaps block_id block_data l) block_id block_data
        (block_make-refines r c childcaps block_id block_data store l bound h)
        (block_made-Grown c childcaps block_id block_data l) eq

  added :
      (m : Cmd e.T (Unit {0})) (store : e.T) (l : Ledger) (s : Result Ledger) (block_id : Uuid)
      (block_data : Bytes)
      → Represents e c.root_block store l
      → Did r c m store s
      → Ensures (Grown c block_id block_data l) s
      → (l' : Ledger) × Represents e c.root_block (m store).1 l' × Onward 1 l l'
  added m store l (ok l') block_id block_data h (store1, done, h') g = (
    l',
    subst (λ t. Represents e c.root_block t l') (ap (λ x. x.1) (sym done)) h',
    Grown-Onward c block_id block_data l l' (Ensures-ok g refl),
  )
  added m store l (err s) block_id block_data h failed g = (
    l,
    subst (λ t. Represents e c.root_block t l) (ap (λ x. x.1) (sym failed)) h,
    Onward-refl 1 l,
  )

  -- Additions of blocks in a row, by callers with any capabilities and with any ids and certificates, on a
  -- store that holds a ledger, where LMDB and `malloc` do not fail, and where the blocks and the
  -- additions together are fewer than 2^64: the store holds a ledger in the end. Its chain is the
  -- one of before with at most as many new blocks on top, and what was recorded for a block is so
  -- still.
  pub add_all-extends :
      (calls : List Addition) (store : e.T) (l : Ledger)
      → length l.blocks + length calls < 2 ^ 64
      → Represents e c.root_block store l
      → (l' : Ledger) × Represents e c.root_block (add_all e c calls store) l'
        × Onward (length calls) l l'
  add_all-extends [] store l bound h = (l, h, Onward-refl 0 l)
  add_all-extends (a ∷ more) store l bound h =
      let (l1, h1, o1) =
        added (block_make e c a.caps a.block_id a.block_data) store l
          (block_made c a.caps a.block_id a.block_data l) a.block_id a.block_data h
          (block_make-refines r c a.caps a.block_id a.block_data store l (omega arith) h)
          (block_made-Grown c a.caps a.block_id a.block_data l) in
      let (l2, h2, o2) =
        add_all-extends more (block_make e c a.caps a.block_id a.block_data store).1 l1
          (bounded l1 o1) h1 in
      (l2, h2, Onward-step (length more) l l1 l2 o1 o2)
    where
      bounded : (l1 : Ledger) → Onward 1 l l1 → length l1.blocks + length more < 2 ^ 64
      bounded l1 o = omega (arith, o.few, ap length o.blocks_eq, length-append o.new l.blocks)
