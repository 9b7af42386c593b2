-- ===== src/Blocks/Refines/Child.antt =====
-- The steps of dataservice_block_make_process_child on a store that holds a ledger.
use mathlib.Core.Path.{subst, fun_ext}
use v_c_agentd.Prelude.{
  ℕ, ◌≡◌, refl, sym, ◌∙◌, true, false, ◌-◌, ◌^◌, none, some, Option-cases, List, [], ◌∷◌, ◌==◌,
  if◌then◌else◌, inl, inr, Bool-cases, ==_iff, ap,
}
use v_c_agentd.Wire.{Bytes}
use v_c_agentd.Status.{ok, err, mdb_get_failure}
use v_c_agentd.Bitcap.{Caps, isset, word}
use v_c_agentd.Lmdb.{found, notfound}
use v_c_agentd.Lmdb.Cmd.{Cmd, put}
use v_c_agentd.Lmdb.CmdLaws.{allocate-eq, put-stored, put-new, put-old}
use v_c_agentd.Queue.{Uuid, whole}
use v_c_agentd.Queue.Chain.{Holds, has, Cell}
use v_c_agentd.Queue.Drop.{cap_pq_transaction_drop, transaction_drop, transaction_drop_internal}
use v_c_agentd.Queue.Spec.{drop, specified}
use v_c_agentd.Queue.Spec.Refines.{drop-Agrees}
use v_c_agentd.Database.{
  Name, block_db, height_db, txn_db, artifact_db, pq_db, handle, artifact_whole, Environment, on,
}
use v_c_agentd.Database.Reliable.{IsReliableEnv, on_reliable, get-stored_other}
use v_c_agentd.Database.Frame.{drop-kept}
use v_c_agentd.Blocks.Certs.{Child}
use v_c_agentd.Blocks.Children.{read_prev_txn, update_prev_txn, update_artifact, txn_rec}
use v_c_agentd.Blocks.Ledger.{
  Txn, Artifact, Ledger, set, record_txn, unqueue, follow, note_artifact, canonized_txn,
  artifact_after,
}
use v_c_agentd.Blocks.Holds.{
  Represents, Outcome, txn_value, txn_node, artifact_value, artifact_record,
}

abbrev a_cap : Caps
a_cap = (2 ^ 32 - 1) ∷ []

may_drop : isset a_cap cap_pq_transaction_drop ≡ true
unfolding isset word
may_drop = refl

module _ {e : Environment} (r : IsReliableEnv e) (root : Uuid) where
  abbrev drop_txn : Uuid → Cmd e.T (Unit {0})
  drop_txn k = transaction_drop_internal (on e pq_db) true k

  drop-specified :
      (k : Uuid) (t : e.T) (cs : List Cell)
      → Holds (e.get pq_db t) cs
      → ((drop_txn k t).0 ≡ (specified true (drop true k) cs).0)
        × Holds (e.get pq_db (drop_txn k t).1) (specified true (drop true k) cs).1
  unfolding transaction_drop
  drop-specified k t cs h =
      rw may_drop at (drop-Agrees (on_reliable e r pq_db) true a_cap true k t cs may_drop h)

  drop-same :
      (d : Name) (k : Uuid) (t : e.T) (j : ℕ)
      → (handle pq_db == handle d) ≡ false
      → e.get d (drop_txn k t).1 j ≡ e.get d t j
  drop-same d k t j apart = (drop-kept r d apart j (e.get d t j) k).at t refl

  pub unqueue-Outcome :
      (k : Uuid) (t : e.T) (l : Ledger)
      → Represents e root t l
      → Outcome e root (drop_txn k t) (unqueue k l)
  unqueue-Outcome k t l h = elim (Bool-cases (has k l.queue)) [
    | inl present ↦
        let (status, held) = rw present at (drop-specified k t l.queue h.queued) in
        rw present (
          status,
          record {
            chain = record {
              blocks = λ j. drop-same block_db k t j refl ∙ h.chain.blocks j;
              heights = λ j. drop-same height_db k t j refl ∙ h.chain.heights j;
              proper = h.chain.proper;
            };
            queued = held;
            recorded = λ j. drop-same txn_db k t j refl ∙ h.recorded j;
            noted = λ j. drop-same artifact_db k t j refl ∙ h.noted j;
          },
        )
    | inr absent ↦
        let (status, held) = rw absent at (drop-specified k t l.queue h.queued) in rw absent status
  ]

  -- what a write of a transaction, and of an artifact, does
  txn-stored :
      (k : Uuid) (x : Txn) (t : e.T) (l : Ledger)
      → Represents e root t l
      → Represents e root
          (r.stored txn_db t k (whole (txn_node k x) x.cert))
          (record l { txns = set k x l.txns })
  txn-stored k x t l h = record {
    chain = record {
      blocks = λ j. get-stored_other r txn_db block_db t k _ j refl ∙ h.chain.blocks j;
      heights = λ j. get-stored_other r txn_db height_db t k _ j refl ∙ h.chain.heights j;
      proper = h.chain.proper;
    };
    queued =
        subst (λ g. Holds g l.queue)
          (fun_ext λ j. sym (get-stored_other r txn_db pq_db t k _ j refl)) h.queued;
    recorded =
        λ j. rw (r.get-stored txn_db t k (whole (txn_node k x) x.cert) j, h.recorded j) (here j);
    noted = λ j. get-stored_other r txn_db artifact_db t k _ j refl ∙ h.noted j;
  }
    where
      here :
          (j : Uuid)
          → (if k == j then found (whole (txn_node k x) x.cert) else txn_value j (l.txns j))
            ≡ txn_value j (set k x l.txns j)
      here j = elim (Bool-cases (k == j)) [
        | inl hit ↦ rw hit (ap (λ i. found (whole (txn_node i x) x.cert)) ((==_iff k j).0 hit))
        | inr miss ↦ rw miss refl
      ]

  artifact-stored :
      (k : Uuid) (a : Artifact) (t : e.T) (l : Ledger)
      → Represents e root t l
      → Represents e root
          (r.stored artifact_db t k (artifact_whole (artifact_record k a)))
          (record l { artifacts = set k a l.artifacts })
  artifact-stored k a t l h = record {
    chain = record {
      blocks = λ j. get-stored_other r artifact_db block_db t k _ j refl ∙ h.chain.blocks j;
      heights = λ j. get-stored_other r artifact_db height_db t k _ j refl ∙ h.chain.heights j;
      proper = h.chain.proper;
    };
    queued =
        subst (λ g. Holds g l.queue)
          (fun_ext λ j. sym (get-stored_other r artifact_db pq_db t k _ j refl)) h.queued;
    recorded = λ j. get-stored_other r artifact_db txn_db t k _ j refl ∙ h.recorded j;
    noted = λ j.
        rw (r.get-stored artifact_db t k (artifact_whole (artifact_record k a)) j, h.noted j)
          (here j);
  }
    where
      here :
          (j : Uuid)
          → (if k == j
              then found (artifact_whole (artifact_record k a))
              else artifact_value j (l.artifacts j))
            ≡ artifact_value j (set k a l.artifacts j)
      here j = elim (Bool-cases (k == j)) [
        | inl hit ↦
            rw hit (ap (λ i. found (artifact_whole (artifact_record i a))) ((==_iff k j).0 hit))
        | inr miss ↦ rw miss refl
      ]

  pub record_txn-Outcome :
      (child : Child) (block_id : Uuid) (cert : Bytes) (t : e.T) (l : Ledger)
      → Represents e root t l
      → Outcome e root
          (put (on e txn_db) true child.transaction_id (whole (txn_rec child block_id cert) cert) t)
          (record_txn child block_id cert l)
  record_txn-Outcome child block_id cert t l h = elim (Option-cases (l.txns child.transaction_id)) [
    | inl free ↦
        rw
          (
            put-new (on_reliable e r txn_db) child.transaction_id
                (whole (txn_rec child block_id cert) cert) t
                (rw free at (h.recorded child.transaction_id)),
            record_txn,
            free,
          )
          (refl, txn-stored child.transaction_id (canonized_txn child block_id cert) t l h)
    | inr (x, taken) ↦
        rw
          (
            put-old (on_reliable e r txn_db) child.transaction_id
                (whole (txn_rec child block_id cert) cert) _ t
                (rw taken at (h.recorded child.transaction_id)),
            record_txn,
            taken,
          )
          refl
  ]

  read_prev_txn-found :
      (k : Uuid) (x : Txn) (t : e.T)
      → e.get txn_db t k ≡ found (whole (txn_node k x) x.cert)
      → read_prev_txn e k t ≡ (ok (txn_node k x, x.cert), t)
  unfolding read_prev_txn
  read_prev_txn-found k x t h = rw (read_prev_txn, h)

  read_prev_txn-missing :
      (k : Uuid) (t : e.T)
      → e.get txn_db t k ≡ notfound
      → read_prev_txn e k t ≡ (err mdb_get_failure, t)
  unfolding read_prev_txn
  read_prev_txn-missing k t h = rw (read_prev_txn, h)

  pub follow-Outcome :
      (prev id : Uuid) (t : e.T) (l : Ledger)
      → Represents e root t l
      → Outcome e root (update_prev_txn e prev id t) (follow prev id l)
  unfolding update_prev_txn
  follow-Outcome prev id t l h = elim (Option-cases (l.txns prev)) [
    | inl none_there ↦
        rw (read_prev_txn-missing prev t (rw none_there at (h.recorded prev)), follow, none_there)
          refl
    | inr (x, there) ↦
        rw
          (
            read_prev_txn-found prev x t (rw there at (h.recorded prev)),
            allocate-eq (on_reliable e r txn_db) _ t,
            put-stored (on_reliable e r txn_db) prev
                (whole (txn_node prev (record x { next = id })) x.cert) t,
            follow,
            there,
          )
          (refl, txn-stored prev (record x { next = id }) t l h)
  ]

  pub note_artifact-Outcome :
      (child : Child) (height : ℕ) (t : e.T) (l : Ledger)
      → Represents e root t l
      → Outcome e root (update_artifact e child height t) (note_artifact child height l)
  unfolding update_artifact
  note_artifact-Outcome child height t l h = elim (Option-cases (l.artifacts child.artifact)) [
    | inl first ↦
        let n = rw first at (h.noted child.artifact) in
        rw
          (
            update_artifact,
            n,
            put-new (on_reliable e r artifact_db) child.artifact
                (artifact_whole (artifact_record child.artifact (artifact_after child height none)))
                t n,
            first,
          )
          (refl, artifact-stored child.artifact (artifact_after child height none) t l h)
    | inr (a, there) ↦
        rw
          (
            update_artifact,
            rw there at (h.noted child.artifact),
            put-stored (on_reliable e r artifact_db) child.artifact
                (artifact_whole
                  (artifact_record child.artifact (artifact_after child height (some a))))
                t,
            there,
          )
          (refl, artifact-stored child.artifact (artifact_after child height (some a)) t l h)
  ]
