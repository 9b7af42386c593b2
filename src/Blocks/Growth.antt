-- ===== src/Blocks/Growth.antt =====
-- What the addition of a block does to the chain, the queue and the transactions, and additions in a row.
pub mod Steps
use v_c_agentd.Prelude.{
  ℕ, ◌≡◌, refl, sym, ap, ◌∙◌, true, ◌+◌, some, List, [], ◌∷◌, ◌==◌, if◌then◌else◌, length,
  Option-cases, Bool-cases, inl, inr, arith, ==_iff, ==_refl,
}
use mathlib.Core.Path.{subst}
use v_c_agentd.Wire.{Bytes}
use v_c_agentd.Bitcap.{Caps, isset}
use v_c_agentd.Status.{Result, ok, err, ◌>>=◌, ◌>>◌}
use v_c_agentd.Status.Ensures.{
  Ensures, holds, refused, Ensures-bind, Ensures-if, Ensures-map, anything,
}
use v_c_agentd.Queue.{Uuid, begin_id}
use v_c_agentd.Queue.Chain.{Cell, has}
use v_c_agentd.Queue.Spec.{erase}
use v_c_agentd.Blocks.Certs.{
  Certificates, Child, child_fields, open_block, get_first_transaction_id,
}
use v_c_agentd.Blocks.Make.{cap_block_write, first_of}
use v_c_agentd.Blocks.Children.{state_canonized}
use v_c_agentd.Blocks.Chain.{Block, known}
use v_c_agentd.Blocks.Ledger.{
  Txn, Ledger, set, record_txn, unqueue, follow, canonized_txn, artifact_after, canonize,
  canonize_all, stack, made, block_made, fit_height, fit_prev, fit_id,
}
use v_c_agentd.Blocks.Growth.Steps.{
  Canonized, Moves, Moves-refl, Moves-trans, record_txn-Moves, unqueue-Moves, follow-Moves,
}

-- A transaction that a block takes: it stood in the queue, and is recorded for the block then.
abbrev pub Taken : Certificates → Uuid → Ledger → Ledger → Bytes → Type 0
Taken c block_id l l' cert =
    (child : Child) × (child_fields c cert ≡ ok child)
    × (has child.transaction_id l.queue ≡ true)
    × Canonized child.transaction_id block_id cert l'

note-Moves :
    (child : Child) (height : ℕ) (l : Ledger)
    → Moves 0 l (record l {
      artifacts =
          set child.artifact (artifact_after child height (l.artifacts child.artifact)) l.artifacts;
    })
note-Moves child height l = record {
  same_blocks = refl;
  still = λ k h. h;
  left = omega arith;
  kept = λ k i c h. h;
}

canonize-Moves :
    (height : ℕ) (block_id : Uuid) (cert : Bytes) (child : Child) (l : Ledger)
    → Ensures
        (λ l'.
          Moves 1 l l'
          × (has child.transaction_id l.queue ≡ true)
          × Canonized child.transaction_id block_id cert l')
        (canonize height block_id cert child l)
canonize-Moves height block_id cert child l =
    Ensures-bind (record_txn-Moves child block_id cert l) λ l1 (m1, new, same).
      Ensures-bind (unqueue-Moves child.transaction_id l1) λ l2 (m2, stood).
        Ensures-bind (linked l2) λ l3 m3. holds (
          Moves-trans 1 0 l l3 _ (Moves-trans 1 0 l l2 l3 (Moves-trans 0 1 l l1 l2 m1 m2) m3)
              (note-Moves child height l3),
          subst (λ q. has child.transaction_id q ≡ true) same stood,
          m3.kept child.transaction_id block_id cert
              (m2.kept child.transaction_id block_id cert new),
        )
  where
    linked :
        (l2 : Ledger)
        → Ensures (Moves 0 l2) (
            if child.prev_transaction_id == begin_id
            then ok l2
            else follow child.prev_transaction_id child.transaction_id l2)
    linked l2 =
        Ensures-if (child.prev_transaction_id == begin_id) (holds (Moves-refl l2))
          (follow-Moves child.prev_transaction_id child.transaction_id l2)

-- a property of every element
abbrev pub Every : (Bytes → Type 0) → List Bytes → Type 0
Every P [] = Unit
Every P (x ∷ xs) = P x × Every P xs

Every-map :
    (P Q : Bytes → Type 0) → ((x : Bytes) → P x → Q x) → (xs : List Bytes) → Every P xs → Every Q xs
Every-map P Q f [] h = tt
Every-map P Q f (x ∷ xs) h = (f x h.0, Every-map P Q f xs h.1)

child-Moves :
    (c : Certificates) (height : ℕ) (block_id : Uuid) (cert : Bytes) (l : Ledger)
    → Ensures
        (λ l'. Moves 1 l l' × Taken c block_id l l' cert)
        (child_fields c cert >>= λ child. canonize height block_id cert child l)
unfolding ◌>>=◌
child-Moves c height block_id cert l = given (child_fields c cert) refl
  where
    given :
        (x : Result Child)
        → child_fields c cert ≡ x
        → Ensures
            (λ l'. Moves 1 l l' × Taken c block_id l l' cert)
            (x >>= λ child. canonize height block_id cert child l)
    given (err s) eq = refused
    given (ok child) eq =
        Ensures-map (canonize-Moves height block_id cert child l)
          λ l' (m, stood, done). (m, (child, eq, stood, done))

children-Moves :
    (c : Certificates) (height : ℕ) (block_id : Uuid) (certs : List Bytes) (l : Ledger)
    → Ensures
        (λ l'. Moves (length certs) l l' × Every (Taken c block_id l l') certs)
        (canonize_all c height block_id certs l)
children-Moves c height block_id [] l = holds (Moves-refl l, tt)
children-Moves c height block_id (cert ∷ certs) l =
    Ensures-bind (child-Moves c height block_id cert l) λ l1 (m1, taken).
      Ensures-map (children-Moves c height block_id certs l1) λ l2 (m2, all). (
        subst (λ n. Moves n l l2) (omega arith) (Moves-trans 1 (length certs) l l1 l2 m1 m2),
        (
          (taken.0, taken.1, taken.2, m2.kept _ block_id cert taken.3),
          Every-map (Taken c block_id l1 l2) (Taken c block_id l l2)
              (λ x t. (t.0, t.1, m1.still _ t.2, t.3)) certs all,
        ),
      )

-- What a block does to the ledger: it is on top, its transactions have left the queue and are recorded for
-- it, and what was recorded before is recorded still.
pub record Grown (c : Certificates) (block_id : Uuid) (block_data : Bytes) (l l' : Ledger)
    : Type 0 where
  pub top : (b : Block) × (b.id ≡ block_id) × (b.cert ≡ block_data) × (l'.blocks ≡ b ∷ l.blocks)
  pub left : length l'.queue + length (c.wrapped_transactions block_data) ≡ length l.queue
  pub taken : Every (Taken c block_id l l') (c.wrapped_transactions block_data)
  pub kept :
      (k block_id' : Uuid) (cert : Bytes)
      → Canonized k block_id' cert l
      → Canonized k block_id' cert l'

stack-Top :
    (b : Block) (l : Ledger) → Ensures (λ l'. l' ≡ record l { blocks = b ∷ l.blocks }) (stack b l)
stack-Top b l = elim (Bool-cases (known b.id l.blocks)) [
  | inl old ↦ rw (stack, old) refused
  | inr new ↦ rw (stack, new) (holds refl)
]

made-Grown :
    (c : Certificates) (block_id : Uuid) (block_data : Bytes) (l : Ledger)
    → Ensures (Grown c block_id block_data l) (made c block_id block_data l)
unfolding ◌>>◌
made-Grown c block_id block_data l =
    Ensures-bind (anything (fit_height c block_data l.blocks)) λ height _.
      Ensures-bind (anything (fit_prev c block_data l.blocks)) λ prev _.
        Ensures-bind (anything (fit_id c block_data block_id)) λ u _.
          Ensures-bind (anything (first_of (c.wrapped_transactions block_data))) λ first _.
            Ensures-bind (anything (get_first_transaction_id c first)) λ first_txn _.
              let b : Block = record { id = block_id; first_txn = first_txn; cert = block_data } in
              Ensures-bind (stack-Top b l) λ l1 eq.
                Ensures-map
                  (children-Moves c height block_id (c.wrapped_transactions block_data) l1)
                  λ l' (m, all).
                    let m' =
                      subst (λ q. Moves (length (c.wrapped_transactions block_data)) q l') eq m in
                    record {
                      top = (b, refl, refl, m'.same_blocks);
                      left = m'.left;
                      taken =
                          subst
                            (λ q. Every (Taken c block_id q l') (c.wrapped_transactions block_data))
                            eq all;
                      kept = λ k i d h. m'.kept k i d h;
                    }

pub block_made-Grown :
    (c : Certificates) (childcaps : Caps) (block_id : Uuid) (block_data : Bytes) (l : Ledger)
    → Ensures (Grown c block_id block_data l) (block_made c childcaps block_id block_data l)
unfolding ◌>>◌
block_made-Grown c childcaps block_id block_data l =
    Ensures-if (isset childcaps cap_block_write)
      (Ensures-bind (anything (open_block c block_data)) λ u _. made-Grown c block_id block_data l)
      refused
