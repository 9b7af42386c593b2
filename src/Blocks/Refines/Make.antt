-- ===== src/Blocks/Refines/Make.antt =====
-- dataservice_block_make on a store that holds a ledger.
use v_c_agentd.Prelude.{
  ℕ, suc, ◌≡◌, refl, sym, ◌∙◌, false, ◌^◌, ◌<◌, ◌+◌, List, [], ◌∷◌, ◌==◌, if◌then◌else◌, length,
  inl, inr, Bool-cases,
}
use mathlib.Core.Path.{subst, fun_ext}
use v_c_agentd.Wire.{Bytes}
use v_c_agentd.Status.{Result, ok, err, ◌>>=◌, ◌>>◌}
use v_c_agentd.Lmdb.Cmd.{Cmd, and_then, pure}
use v_c_agentd.Lmdb.CmdLaws.{allocate-eq}
use v_c_agentd.Queue.{Uuid, begin_id, sizeof_node}
use v_c_agentd.Queue.Chain.{Holds}
use v_c_agentd.Database.{txn_db, artifact_db, pq_db, Environment}
use v_c_agentd.Database.Reliable.{IsReliableEnv, on_reliable}
use v_c_agentd.Blocks.Certs.{Certificates, Child, child_fields, get_first_transaction_id}
use v_c_agentd.Blocks.Insert.{insert_block, link_block}
use v_c_agentd.Blocks.Children.{canonize_child, process_child, process_children, update_prev_txn}
use v_c_agentd.Blocks.Make.{make_in, first_of}
use v_c_agentd.Blocks.Chain.{Block, known, reserved, end_of, parent_id}
use v_c_agentd.Blocks.Ledger.{
  Ledger, follow, canonize, canonize_all, stack, made, fit_height, fit_prev, fit_id,
}
use v_c_agentd.Blocks.Holds.{Represents, Outcome, Outcome-then, Outcome-lift}
use v_c_agentd.Blocks.Refines.Insertion.{insert, insert-refused, insert-extends, query_end_node-end}
use v_c_agentd.Blocks.Refines.Child.{
  unqueue-Outcome, record_txn-Outcome, follow-Outcome, note_artifact-Outcome,
}
use v_c_agentd.Blocks.Refines.Fit.{
  height-fit, prev-fit, id-fit, fit_height-ok, fit_prev-ok, fit_id-ok,
}

module _ {e : Environment} (r : IsReliableEnv e) (c : Certificates) where
  abbrev root : Uuid
  root = c.root_block

  follow_if :
      (child : Child) (t : e.T) (l : Ledger)
      → Represents e root t l
      → Outcome e root
          ((if child.prev_transaction_id == begin_id
              then pure tt
              else update_prev_txn e child.prev_transaction_id child.transaction_id)
            t)
          (if child.prev_transaction_id == begin_id
            then ok l
            else follow child.prev_transaction_id child.transaction_id l)
  follow_if child t l h = elim (Bool-cases (child.prev_transaction_id == begin_id)) [
    | inl first ↦ rw first (refl, h)
    | inr later ↦
        rw later (follow-Outcome r root child.prev_transaction_id child.transaction_id t l h)
  ]

  canonize-Outcome :
      (height : ℕ) (block_id : Uuid) (cert : Bytes) (child : Child) (t : e.T) (l : Ledger)
      → Represents e root t l
      → Outcome e root
          (canonize_child e height block_id cert child t)
          (canonize height block_id cert child l)
  unfolding canonize_child
  canonize-Outcome height block_id cert child t l h =
      rw (allocate-eq (on_reliable e r txn_db) (sizeof_node + length cert) t) (
        Outcome-then e root _ _ _ _ (record_txn-Outcome r root child block_id cert t l h)
          λ t1 l1 _ h1.
            Outcome-then e root _ _ _ _ (unqueue-Outcome r root child.transaction_id t1 l1 h1)
              λ t2 l2 _ h2.
                Outcome-then e root _ _ _ _ (follow_if child t2 l2 h2)
                  λ t3 l3 _ h3. note_artifact-Outcome r root child height t3 l3 h3)

  child-Outcome :
      (height : ℕ) (block_id : Uuid) (cert : Bytes) (t : e.T) (l : Ledger)
      → Represents e root t l
      → Outcome e root
          (process_child e c height block_id cert t)
          (child_fields c cert >>= λ child. canonize height block_id cert child l)
  unfolding process_child
  child-Outcome height block_id cert t l h =
      Outcome-lift e root (child_fields c cert) (canonize_child e height block_id cert)
        (λ child. canonize height block_id cert child l) t
        λ child _. canonize-Outcome height block_id cert child t l h

  children-Outcome :
      (height : ℕ) (block_id : Uuid) (certs : List Bytes) (t : e.T) (l : Ledger)
      → Represents e root t l
      → Outcome e root
          (process_children e c height block_id certs t)
          (canonize_all c height block_id certs l)
  unfolding process_children
  children-Outcome height block_id [] t l h = (refl, h)
  children-Outcome height block_id (cert ∷ certs) t l h =
      Outcome-then e root _ _ _ _ (child-Outcome height block_id cert t l h)
        λ t' l' _ h'. children-Outcome height block_id certs t' l' h'

  abbrev insert_and_link : Block → List Block → Cmd e.T (Unit {0})
  insert_and_link b bs t =
      and_then (insert r root b bs t) λ _. link_block e b.id (suc (length bs)) (end_of bs)

  stack-Outcome :
      (b : Block) (t : e.T) (l : Ledger)
      → reserved root b.id ≡ false
      → Represents e root t l
      → Outcome e root (insert_and_link b l.blocks t) (stack b l)
  stack-Outcome b t l free h = elim (Bool-cases (known b.id l.blocks)) [
    | inl old ↦ rw (insert-refused r root b l.blocks t h.chain old free, stack, old) refl
    | inr new ↦
        let (t', done, chain, same) = insert-extends r root b l.blocks t h.chain new free in
        rw (done, stack, new)
          (
            refl,
            record {
              chain = chain;
              queued =
                  subst (λ g. Holds g l.queue) (fun_ext λ j. sym (same pq_db j refl refl)) h.queued;
              recorded = λ j. same txn_db j refl refl ∙ h.recorded j;
              noted = λ j. same artifact_db j refl refl ∙ h.noted j;
            },
          )
  ]

  and_then_assoc :
      {T : Type 0} (x : Result (Unit {0}) × T) (k m : Cmd T (Unit {0}))
      → and_then (and_then x (λ _. k)) (λ _. m) ≡ and_then x (λ _ t. and_then (k t) (λ _. m))
  and_then_assoc (ok u, t) k m = refl
  and_then_assoc (err s, t) k m = refl

  module _ (block_id : Uuid) (block_data : Bytes) (l : Ledger) where
    abbrev certs : List Bytes
    certs = c.wrapped_transactions block_data

    -- the rest of the body, from one check on, on the store and on the ledger
    abbrev with_first_txn : ℕ → Uuid → Uuid → Cmd e.T (Unit {0})
    with_first_txn height prev first_txn t =
        and_then (insert_block e block_id prev first_txn height block_data t) λ _ t'.
          and_then (link_block e block_id height (end_of l.blocks) t')
            λ _. process_children e c height block_id certs

    abbrev with_first_txn' : ℕ → Uuid → Result Ledger
    with_first_txn' height first_txn =
        stack (record { id = block_id; first_txn = first_txn; cert = block_data }) l >>= λ l'.
        canonize_all c height block_id certs l'

    abbrev with_first : ℕ → Uuid → Bytes → Cmd e.T (Unit {0})
    with_first height prev first t =
        and_then (get_first_transaction_id c first, t) (with_first_txn height prev)

    abbrev with_first' : ℕ → Bytes → Result Ledger
    with_first' height first = get_first_transaction_id c first >>= with_first_txn' height

    abbrev with_id : ℕ → Uuid → Unit {0} → Cmd e.T (Unit {0})
    with_id height prev u t = and_then (first_of certs, t) (with_first height prev)

    abbrev with_id' : ℕ → Unit {0} → Result Ledger
    with_id' height u = first_of certs >>= with_first' height

    abbrev with_prev : ℕ → Uuid → Cmd e.T (Unit {0})
    with_prev height prev t = and_then (fit_id c block_data block_id, t) (with_id height prev)

    abbrev with_prev' : ℕ → Uuid → Result Ledger
    with_prev' height prev = fit_id c block_data block_id >>= with_id' height

    abbrev with_height : ℕ → Cmd e.T (Unit {0})
    with_height height t = and_then (fit_prev c block_data l.blocks, t) (with_prev height)

    abbrev with_height' : ℕ → Result Ledger
    with_height' height = fit_prev c block_data l.blocks >>= with_prev' height

    with_first_txn-Outcome :
        (height : ℕ) (prev first_txn : Uuid) (t : e.T)
        → height ≡ suc (length l.blocks)
        → prev ≡ parent_id root l.blocks
        → reserved root block_id ≡ false
        → Represents e root t l
        → Outcome e root (with_first_txn height prev first_txn t) (with_first_txn' height first_txn)
    with_first_txn-Outcome height prev first_txn t height_eq prev_eq free h =
        rw
          (
            height_eq,
            prev_eq,
            ← and_then_assoc
                (insert_block e block_id (parent_id root l.blocks) first_txn (suc (length l.blocks))
                  block_data t)
                (link_block e block_id (suc (length l.blocks)) (end_of l.blocks))
                (process_children e c (suc (length l.blocks)) block_id certs),
          )
          (Outcome-then e root _ _ _ _
            (stack-Outcome (record { id = block_id; first_txn = first_txn; cert = block_data }) t l
              free h)
            λ t' l' _ h'. children-Outcome (suc (length l.blocks)) block_id certs t' l' h')

    pub make_in-Outcome :
        (t : e.T)
        → suc (length l.blocks) < 2 ^ 64
        → Represents e root t l
        → Outcome e root (make_in e c block_id block_data t) (made c block_id block_data l)
    unfolding make_in ◌>>◌
    make_in-Outcome t bound h =
        rw
          (
            query_end_node-end r root l.blocks t h.chain.blocks,
            height-fit c block_data l.blocks bound,
            prev-fit c block_data l.blocks,
            id-fit c block_data block_id,
          )
          (Outcome-lift e root (fit_height c block_data l.blocks) with_height with_height' t
            λ height height_ok.
              Outcome-lift e root (fit_prev c block_data l.blocks) (with_prev height)
                (with_prev' height) t
                λ prev prev_ok.
                  Outcome-lift e root (fit_id c block_data block_id) (with_id height prev)
                    (with_id' height) t
                    λ u id_ok.
                      Outcome-lift e root (first_of certs) (with_first height prev)
                        (with_first' height) t
                        λ first _.
                          Outcome-lift e root (get_first_transaction_id c first)
                            (with_first_txn height prev) (with_first_txn' height) t
                            λ first_txn _.
                              with_first_txn-Outcome height prev first_txn t
                                (fit_height-ok c block_data l.blocks height height_ok)
                                (fit_prev-ok c block_data l.blocks prev prev_ok)
                                (fit_id-ok c block_data block_id id_ok) h)
