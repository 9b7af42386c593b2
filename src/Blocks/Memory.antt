-- ===== src/Blocks/Memory.antt =====
-- The databases in memory.
use v_c_agentd.Prelude.{ℕ, ◌≡◌, refl, ap, ◌∙◌, true, false, Option, some, none, ◌==◌}
use v_c_agentd.Lmdb.{Get, Del, deleted, no_entry, del_failed}
use v_c_agentd.Lmdb.Memory.{stored_in, put_in, put_in-new, put_in-old, erased, del_in, del_in-found}
use v_c_agentd.Wire.{Bytes}
use v_c_agentd.Queue.{Value}
use v_c_agentd.Database.{
  Name, block_db, height_db, txn_db, artifact_db, pq_db, global_db, handle, BlockValue, HeightValue,
  ArtifactValue, ValueOf, Environment,
}
use v_c_agentd.Database.Reliable.{IsReliableEnv}

pub record Stores : Type 0 where
  pub blocks : ℕ → Get BlockValue
  pub heights : ℕ → Get HeightValue
  pub txns : ℕ → Get Value
  pub artifacts : ℕ → Get ArtifactValue
  pub queue : ℕ → Get Value
  pub settings : ℕ → Get Bytes

abbrev pub select : (d : Name) → Stores → ℕ → Get (ValueOf d)
select block_db s = s.blocks
select height_db s = s.heights
select txn_db s = s.txns
select artifact_db s = s.artifacts
select pq_db s = s.queue
select global_db s = s.settings

abbrev pub update : (d : Name) → Stores → (ℕ → Get (ValueOf d)) → Stores
update block_db s g = record s { blocks = g }
update height_db s g = record s { heights = g }
update txn_db s g = record s { txns = g }
update artifact_db s g = record s { artifacts = g }
update pq_db s g = record s { queue = g }
update global_db s g = record s { settings = g }

pub select-update : (d : Name) (s : Stores) (g : ℕ → Get (ValueOf d)) → select d (update d s g) ≡ g
select-update block_db s g = refl
select-update height_db s g = refl
select-update txn_db s g = refl
select-update artifact_db s g = refl
select-update pq_db s g = refl
select-update global_db s g = refl

select-update_other :
    (d d' : Name) (s : Stores) (g : ℕ → Get (ValueOf d))
    → (handle d == handle d') ≡ false
    → select d' (update d s g) ≡ select d' s
select-update_other block_db block_db s g h = cc
select-update_other block_db height_db s g h = refl
select-update_other block_db txn_db s g h = refl
select-update_other block_db artifact_db s g h = refl
select-update_other block_db pq_db s g h = refl
select-update_other height_db block_db s g h = refl
select-update_other height_db height_db s g h = cc
select-update_other height_db txn_db s g h = refl
select-update_other height_db artifact_db s g h = refl
select-update_other height_db pq_db s g h = refl
select-update_other txn_db block_db s g h = refl
select-update_other txn_db height_db s g h = refl
select-update_other txn_db txn_db s g h = cc
select-update_other txn_db artifact_db s g h = refl
select-update_other txn_db pq_db s g h = refl
select-update_other artifact_db block_db s g h = refl
select-update_other artifact_db height_db s g h = refl
select-update_other artifact_db txn_db s g h = refl
select-update_other artifact_db artifact_db s g h = cc
select-update_other artifact_db pq_db s g h = refl
select-update_other pq_db block_db s g h = refl
select-update_other pq_db height_db s g h = refl
select-update_other pq_db txn_db s g h = refl
select-update_other pq_db artifact_db s g h = refl
select-update_other pq_db pq_db s g h = cc
select-update_other block_db global_db s g h = refl
select-update_other global_db block_db s g h = refl
select-update_other height_db global_db s g h = refl
select-update_other global_db height_db s g h = refl
select-update_other txn_db global_db s g h = refl
select-update_other global_db txn_db s g h = refl
select-update_other artifact_db global_db s g h = refl
select-update_other global_db artifact_db s g h = refl
select-update_other pq_db global_db s g h = refl
select-update_other global_db pq_db s g h = refl
select-update_other global_db global_db s g h = cc

abbrev pub put_result : (d : Name) → Stores → Option (ℕ → Get (ValueOf d)) → Option Stores
put_result d s none = none
put_result d s (some g) = some (update d s g)

abbrev pub del_result : (d : Name) → Stores → Del (ℕ → Get (ValueOf d)) → Del Stores
del_result d s (deleted g) = deleted (update d s g)
del_result d s no_entry = no_entry
del_result d s del_failed = del_failed

abbrev pub stores : Environment
stores = record {
  T = Stores;
  begin = λ t. some t;
  commit = λ s t. (true, t);
  abort = λ s t. s;
  get = select;
  put = λ d t k v f. put_result d t (put_in (select d t) k v f);
  del = λ d t k. del_result d t (del_in (select d t) k);
  malloc = λ n. true;
}

pub put_result-other :
    (d d' : Name) (t t' : Stores) (o : Option (ℕ → Get (ValueOf d))) (j : ℕ)
    → put_result d t o ≡ some t'
    → (handle d == handle d') ≡ false
    → select d' t' j ≡ select d' t j
put_result-other d d' t t' none j eq apart = cc
put_result-other d d' t t' (some g) j eq apart =
    let same : t' ≡ update d t g = cc in
    ap (λ s. select d' s j) same ∙ ap (λ f. f j) (select-update_other d d' t g apart)

pub del_result-other :
    (d d' : Name) (t t' : Stores) (o : Del (ℕ → Get (ValueOf d))) (j : ℕ)
    → del_result d t o ≡ deleted t'
    → (handle d == handle d') ≡ false
    → select d' t' j ≡ select d' t j
del_result-other d d' t t' (deleted g) j eq apart =
    let same : t' ≡ update d t g = cc in
    ap (λ s. select d' s j) same ∙ ap (λ f. f j) (select-update_other d d' t g apart)
del_result-other d d' t t' no_entry j eq apart = cc
del_result-other d d' t t' del_failed j eq apart = cc

abbrev pub stores-IsReliableEnv : IsReliableEnv stores
stores-IsReliableEnv = record {
  begun = λ t. t;
  stored = λ d t k v. update d t (stored_in k v (select d t));
  removed = λ d t k. update d t (erased k (select d t));
  begin_eq = λ t. refl;
  get-begun = λ d t j. refl;
  commit_status = λ s t. refl;
  get-commit = λ d s t j. refl;
  abort_eq = λ s t. refl;
  put_eq = λ d t k v. refl;
  put_new = λ d t k v h. ap (put_result d t) (put_in-new (select d t) k v h);
  put_old = λ d t k v w h. ap (put_result d t) (put_in-old (select d t) k v w h);
  get-stored = λ d t k v j. ap (λ g. g j) (select-update d t (stored_in k v (select d t)));
  del_eq = λ d t k v h. ap (del_result d t) (del_in-found (select d t) k v h);
  get-removed = λ d t k j. ap (λ g. g j) (select-update d t (erased k (select d t)));
  malloc_eq = λ n. refl;
  put-other = λ d d' t t' k v f j eq apart.
      put_result-other d d' t t' (put_in (select d t) k v f) j eq apart;
  del-other =
      λ d d' t t' k j eq apart. del_result-other d d' t t' (del_in (select d t) k) j eq apart;
}
