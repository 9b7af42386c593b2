-- ===== src/Queue/SubmitLaws.antt =====
-- dataservice_transaction_submit.c on a store that holds a queue.
use v_c_agentd.Prelude.{
  ℕ, ◌≡◌, refl, sym, ◌∙◌, Bool, true, false, some, none, List, [], ◌∷◌, ◌++◌, arith, ◌==◌,
  if◌then◌else◌, length, take_all, leb, inl, inr,
}
use v_c_agentd.Wire.{Bytes}
use v_c_agentd.Status.{ok}
use v_c_agentd.Bitcap.{Caps, isset}
use v_c_agentd.Lmdb.{Platform, IsReliable, found, notfound}
use v_c_agentd.Queue.{Uuid, begin_id, end_id, Node, Value, whole, state_submitted, state_attested}
use v_c_agentd.Lmdb.Cmd.{finish}
use v_c_agentd.Lmdb.CmdLaws.{allocate-eq, put-stored, put-new, in_transaction-eq}
use v_c_agentd.Queue.Submit.{
  cap_pq_transaction_submit, read_end, create_queue, read_prev, copy_prev, update_prev, update_end,
  link, submit_in, transaction_submit,
}
use v_c_agentd.Queue.Chain.{
  Cell, node_of, value_of, sentinel, written, IsQueue, Holds, with_ends, has, last_id,
}
use v_c_agentd.Queue.Chain.Laws.{last_cell}
use v_c_agentd.Queue.Chain.Insert.{last_nodes, fresh_parts, insert-IsQueue, create-IsQueue}
use mathlib.Core.Path.{subst}

-- what is added to the queue
abbrev pub new_cell : Bool → Uuid → Uuid → Bytes → Cell
new_cell attestation txn_id artifact_id txn_bytes = record {
  id = txn_id;
  artifact_id = artifact_id;
  block_id = 0;
  state = if attestation then state_submitted else state_attested;
  cert = txn_bytes;
}

module _ {p : Platform Value} (r : IsReliable p) where
  open r use {begun, stored, get-begun, get-stored, get-commit}

  pub read_end-some :
      {t : p.T} {n : Node} {c : Bytes}
      → p.get t end_id ≡ found (whole n c)
      → read_end p t ≡ (ok (some n), t)
  unfolding read_end
  read_end-some h = rw (read_end, h)

  read_end-none : {t : p.T} → p.get t end_id ≡ notfound → read_end p t ≡ (ok none, t)
  unfolding read_end
  read_end-none h = rw (read_end, h)

  leb_refl : (n : ℕ) → leb n n ≡ true
  leb_refl n = ground arith

  read_prev-value :
      (v : Node) (c : Bytes) (prev : Uuid) (t : p.T)
      → p.get t prev ≡ found (whole v c)
      → read_prev p prev t ≡ (ok (v, c), t)
  unfolding read_prev
  read_prev-value v c prev t h = rw (read_prev, h)

  -- A node that names the size of the bytes behind it is copied whole.
  copy_prev-value :
      (a : Cell) (pa na : Uuid) (t : p.T) → copy_prev p (node_of a pa na) a.cert t ≡ (ok a.cert, t)
  unfolding copy_prev
  copy_prev-value a pa na t =
      rw (copy_prev, leb_refl (length a.cert), take_all (length a.cert) a.cert refl)

  update_prev-stored :
      (a : Cell) (pa na prev txn_id : Uuid) (t : p.T)
      → p.get t prev ≡ found (value_of a pa na)
      → update_prev p txn_id prev t ≡ (ok tt, stored t prev (value_of a pa txn_id))
  unfolding update_prev
  update_prev-stored a pa na prev txn_id t h =
      rw
        (
          read_prev-value (node_of a pa na) a.cert prev t h,
          allocate-eq r _ t,
          copy_prev-value a pa na t,
        )
        (put-stored r prev _ t)

  -- the store after the three writes of a submission behind the cell `a`
  abbrev after_writes : p.T → Cell → Cell → Uuid → p.T
  after_writes t a new pa =
      stored (stored (stored t new.id (value_of new a.id end_id)) a.id (value_of a pa new.id))
        end_id (value_of (sentinel end_id) new.id end_id)

  module _ (attestation : Bool) (txn_id artifact_id : Uuid) (txn_bytes : Bytes) where
    abbrev new : Cell
    new = new_cell attestation txn_id artifact_id txn_bytes

    submit_in-some :
        (t : p.T) (a : Cell) (pa : Uuid)
        → p.get t end_id ≡ found (value_of (sentinel end_id) a.id end_id)
        → p.get t a.id ≡ found (value_of a pa end_id)
        → p.get t txn_id ≡ notfound
        → (txn_id == a.id) ≡ false
        → submit_in p attestation txn_id artifact_id txn_bytes t ≡ (ok tt, after_writes t a new pa)
    unfolding submit_in link update_end
    submit_in-some t a pa he ha hn ne =
        rw
          (
            read_end-some he,
            allocate-eq r _ t,
            put-new r txn_id (value_of new a.id end_id) t hn,
            update_prev-stored a pa end_id a.id txn_id _ read_a,
          )
          (put-stored r end_id _ _)
      where
        read_a :
            p.get (stored t txn_id (value_of new a.id end_id)) a.id ≡ found (value_of a pa end_id)
        read_a = rw (get-stored t txn_id (value_of new a.id end_id) a.id, ne) ha

    -- the store after the three writes of the first submission
    abbrev pub after_create : p.T → p.T
    after_create t =
        stored
          (stored (stored t txn_id (value_of new begin_id end_id)) begin_id
            (value_of (sentinel begin_id) begin_id txn_id))
          end_id (value_of (sentinel end_id) txn_id end_id)

    pub submit_in-none :
        (t : p.T)
        → p.get t end_id ≡ notfound
        → p.get t txn_id ≡ notfound
        → submit_in p attestation txn_id artifact_id txn_bytes t ≡ (ok tt, after_create t)
    unfolding submit_in link create_queue
    submit_in-none t he hn =
        rw
          (
            read_end-none he,
            allocate-eq r _ t,
            put-new r txn_id (value_of new begin_id end_id) t hn,
            put-stored r begin_id (value_of (sentinel begin_id) begin_id txn_id)
                (stored t txn_id (value_of new begin_id end_id)),
            put-stored r end_id (value_of (sentinel end_id) txn_id end_id) _,
          )
          refl

    module _ (childcaps : Caps) (allowed : isset childcaps cap_pq_transaction_submit ≡ true) where
      -- A body that succeeds is committed.
      pub submit-commit :
          (store t : p.T)
          → submit_in p attestation txn_id artifact_id txn_bytes (begun store) ≡ (ok tt, t)
          → transaction_submit p attestation childcaps txn_id artifact_id txn_bytes store
            ≡ (ok tt, (p.commit store t).1)
      unfolding transaction_submit finish
      submit-commit store t h =
          rw
            (
              allowed,
              in_transaction-eq r (submit_in p attestation txn_id artifact_id txn_bytes) store,
              h,
            )
            refl

    -- the reads of a committed transaction
    pub get-committed :
        (store : p.T) (k l m : Uuid) (u v w : Value) (j : Uuid)
        → p.get (p.commit store (stored (stored (stored (begun store) k u) l v) m w)).1 j
          ≡ written m w (written l v (written k u (p.get store))) j
    get-committed store k l m u v w j =
        get-commit store _ j
        ∙ rw (get-stored _ m w j, get-stored _ l v j, get-stored _ k u j, get-begun store j)

    apart : (k : Uuid) → (k == txn_id) ≡ false → (txn_id == k) ≡ false
    apart k h = ground arith

    -- Submission of a transaction whose id is neither in use nor a sentinel's, with the
    -- capability, to a store that holds the queue `cs`, where LMDB and `malloc` do not fail:
    -- it succeeds, and the store then holds `cs` with the transaction at its end.
    pub submit-appends :
        (childcaps : Caps) (store : p.T) (cs : List Cell)
        → isset childcaps cap_pq_transaction_submit ≡ true
        → Holds (p.get store) cs
        → has txn_id (with_ends cs) ≡ false
        → (store' : p.T) × (transaction_submit p attestation childcaps txn_id artifact_id txn_bytes
              store
            ≡ (ok tt, store'))
          × IsQueue (p.get store') (cs ++ new ∷ [])
    submit-appends childcaps store cs allowed (inl q) fresh =
        let (pre, a, e) = last_cell (sentinel begin_id) cs in
        let nodes = last_nodes q pre a e in
        let t = after_writes (begun store) a new (last_id begin_id pre) in
        (
          (p.commit store t).1,
          submit-commit childcaps allowed store t (
              submit_in-some (begun store) a (last_id begin_id pre)
                (get-begun store end_id ∙ nodes.1) (get-begun store a.id ∙ nodes.0)
                (get-begun store txn_id ∙ q.only txn_id fresh)
                (apart a.id (fresh_parts q pre a e new fresh).1)),
          insert-IsQueue q pre a e new fresh _ (get-committed store _ _ _ _ _ _),
        )
    submit-appends childcaps store cs allowed (inr (empty, unused)) fresh =
        let t = after_create (begun store) in
        let fresh' : has txn_id (with_ends []) ≡ false =
          subst (λ l. has txn_id (with_ends l) ≡ false) empty fresh in
        (
          (p.commit store t).1,
          submit-commit childcaps allowed store t (
              submit_in-none (begun store) (get-begun store end_id ∙ unused end_id)
                (get-begun store txn_id ∙ unused txn_id)),
          subst (λ l. IsQueue (p.get (p.commit store t).1) (l ++ new ∷ [])) (sym empty)
              (create-IsQueue (p.get store) _ new unused fresh' (get-committed store _ _ _ _ _ _)),
        )
