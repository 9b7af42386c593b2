-- ===== src/Blocks/Examples.antt =====
-- The theorems on blocks at a concrete store: databases in memory, with one transaction in the queue.
use v_c_agentd.Prelude.{
  ℕ, ap, sym, ◌∙◌, ◌-◌, ◌^◌, ◌≡◌, refl, true, false, none, some, List, [], ◌∷◌, arith, inl, inr,
}
use v_c_agentd.Wire.{Bytes, get64, get32}
use v_c_agentd.Status.{ok, guard, ◌>>=◌, ◌>>◌}
use v_c_agentd.Bitcap.{Caps, isset, word}
use v_c_agentd.Lmdb.{notfound}
use v_c_agentd.Queue.{begin_id, end_id}
use v_c_agentd.Queue.Chain.{Cell, View, sentinel, value_of, written, IsQueue}
use v_c_agentd.Queue.Chain.Insert.{create-IsQueue}
use v_c_agentd.Queue.SubmitLaws.{new_cell}
use v_c_agentd.Queue.Spec.{erase}
use v_c_agentd.Blocks.Certs.{
  Field, block_uuid, block_height, previous_block_uuid, certificate_id, previous_certificate_id,
  artifact_id, new_artifact_state, Certificates, field, child_fields, get_first_transaction_id,
  open_block, Child,
}
use v_c_agentd.Blocks.Make.{block_make}
use v_c_agentd.Blocks.Chain.{Block, block_view, height_view, block_node}
use v_c_agentd.Blocks.Ledger.{
  Ledger, block_made, set, canonized_txn, artifact_after, fit_height, fit_prev, fit_id,
}
use v_c_agentd.Blocks.Holds.{Represents, txn_value, artifact_value, txn_node, artifact_record}
use v_c_agentd.Blocks.Memory.{Stores, stores, stores-IsReliableEnv}
use v_c_agentd.Blocks.Refines.Commit.{Did, block_make-refines}
use v_c_agentd.Blocks.ReadLaws.{
  latest_block_id_get-newest, block_id_by_height_get-block, block_get-block,
  canonized_transaction_get-txn, artifact_get-record,
}
use v_c_agentd.Blocks.Read.{
  latest_block_id_get, block_id_by_height_get, block_get, canonized_transaction_get,
  block_transaction_get, artifact_get,
}
use v_c_agentd.Blocks.Insert.{start_block}
use mathlib.Core.Path.{subst}
use v_c_agentd.Blocks.RootLaws.{block_get-root}
use v_c_agentd.Blocks.Growth.{Grown}
use v_c_agentd.Blocks.Runs.{Addition, add_all, Onward, block_make-grows, add_all-extends}

abbrev pub all_caps : Caps
all_caps = (2 ^ 32 - 1) ∷ []

-- an id and a big-endian number of small value
abbrev pub id16 : ℕ → Bytes
id16 n = n ∷ 0 ∷ 0 ∷ 0 ∷ 0 ∷ 0 ∷ 0 ∷ 0 ∷ 0 ∷ 0 ∷ 0 ∷ 0 ∷ 0 ∷ 0 ∷ 0 ∷ 0 ∷ []

abbrev pub fields : Field → Bytes
fields block_uuid = id16 50
fields block_height = 0 ∷ 0 ∷ 0 ∷ 0 ∷ 0 ∷ 0 ∷ 0 ∷ 1 ∷ []
fields previous_block_uuid = id16 9
fields certificate_id = id16 7
fields previous_certificate_id = id16 0
fields artifact_id = id16 70
fields new_artifact_state = 0 ∷ 0 ∷ 0 ∷ 3 ∷ []

abbrev pub sample : Certificates
sample = record {
  suite_init = true;
  options_init = true;
  opens = λ bs. true;
  find = λ bs f. some (fields f);
  wrapped_transactions = λ bs. (1 ∷ []) ∷ [];
  root_block = 9;
}

abbrev pub seven : Cell
seven = new_cell true 7 70 (1 ∷ [])

abbrev pub unused : View
unused j = notfound

abbrev pub queued : View
queued = written end_id (value_of (sentinel end_id) 7 end_id) (
    written begin_id (value_of (sentinel begin_id) begin_id 7)
      (written 7 (value_of seven begin_id end_id) unused))

pub queued-IsQueue : IsQueue queued (seven ∷ [])
queued-IsQueue = create-IsQueue unused queued seven (λ j. refl) refl (λ j. refl)

abbrev pub store : Stores
store = record {
  blocks = λ j. notfound;
  heights = λ k. notfound;
  txns = λ j. notfound;
  artifacts = λ j. notfound;
  queue = queued;
  settings = λ j. notfound;
}

abbrev pub ledger : Ledger
ledger = record { blocks = []; queue = seven ∷ []; txns = λ j. none; artifacts = λ j. none }

pub store-Represents : Represents stores 9 store ledger
store-Represents = record {
  chain = record { blocks = λ j. refl; heights = λ k. refl; proper = tt };
  queued = inl queued-IsQueue;
  recorded = λ j. refl;
  noted = λ j. refl;
}

abbrev pub child : Child
child = record { transaction_id = 7; prev_transaction_id = 0; artifact = 70; state = 3 }

abbrev pub fifty : Block
fifty = record { id = 50; first_txn = 7; cert = 5 ∷ 6 ∷ [] }

-- the ledger with the block
abbrev pub ledger' : Ledger
ledger' = record {
  blocks = fifty ∷ [];
  queue = [];
  txns = set 7 (canonized_txn child 50 (1 ∷ [])) (λ j. none);
  artifacts = set 70 (artifact_after child 1 none) (λ j. none);
}

block_make-refines_example :
    (store' : Stores) × (block_make stores sample all_caps 50 (5 ∷ 6 ∷ []) store ≡ (ok tt, store'))
    × Represents stores 9 store' ledger'
unfolding isset word field fit_height fit_prev fit_id child_fields get_first_transaction_id
    open_block guard ◌>>=◌ ◌>>◌ erase get64 get32
block_make-refines_example =
    block_make-refines stores-IsReliableEnv sample all_caps 50 (5 ∷ 6 ∷ []) store ledger
      (omega arith) store-Represents

-- the store with the block
abbrev pub store' : Stores
store' = record {
  blocks = block_view 9 (fifty ∷ []);
  heights = height_view (fifty ∷ []);
  txns = λ j. txn_value j (ledger'.txns j);
  artifacts = λ j. artifact_value j (ledger'.artifacts j);
  queue = unused;
  settings = λ j. notfound;
}

pub store'-Represents : Represents stores 9 store' ledger'
store'-Represents = record {
  chain = record { blocks = λ j. refl; heights = λ k. refl; proper = (refl, refl, tt) };
  queued = inr (refl, λ j. refl);
  recorded = λ j. refl;
  noted = λ j. refl;
}

pub may_read_latest : isset all_caps 9 ≡ true
unfolding isset word
may_read_latest = refl

pub may_read_block : isset all_caps 13 ≡ true
unfolding isset word
may_read_block = refl

pub may_read_txn : isset all_caps 14 ≡ true
unfolding isset word
may_read_txn = refl

pub may_read_artifact : isset all_caps 20 ≡ true
unfolding isset word
may_read_artifact = refl

pub may_read_height : isset all_caps 22 ≡ true
unfolding isset word
may_read_height = refl

latest_block_id_get-newest_example : latest_block_id_get stores 9 false all_caps store' ≡ ok 50
latest_block_id_get-newest_example =
    latest_block_id_get-newest stores-IsReliableEnv 9 ledger' false all_caps store'
      store'-Represents may_read_latest

block_id_by_height_get-block_example : block_id_by_height_get stores true all_caps 1 store' ≡ ok 50
block_id_by_height_get-block_example =
    block_id_by_height_get-block stores-IsReliableEnv 9 ledger' true all_caps store'
      store'-Represents 1 may_read_height

block_get-block_example :
    block_get stores 9 false all_caps 50 store' ≡ ok (block_node 9 end_id fifty [], 5 ∷ 6 ∷ [])
block_get-block_example =
    block_get-block stores-IsReliableEnv 9 ledger' false all_caps store' store'-Represents 50
      may_read_block refl

canonized_transaction_get-txn_example :
    (canonized_transaction_get stores false all_caps 7 store'
      ≡ ok (txn_node 7 (canonized_txn child 50 (1 ∷ [])), 1 ∷ []))
    × (block_transaction_get stores false all_caps 7 store'
        ≡ ok (txn_node 7 (canonized_txn child 50 (1 ∷ [])), 1 ∷ []))
canonized_transaction_get-txn_example =
    canonized_transaction_get-txn stores-IsReliableEnv 9 ledger' false all_caps store'
      store'-Represents 7 may_read_txn

artifact_get-record_example :
    artifact_get stores true all_caps 70 store'
    ≡ ok (artifact_record 70 (artifact_after child 1 none))
artifact_get-record_example =
    artifact_get-record stores-IsReliableEnv 9 ledger' true all_caps store' store'-Represents 70
      may_read_artifact

block_get-root_example : block_get stores 9 false all_caps 9 store' ≡ ok (start_block 50, [])
block_get-root_example =
    block_get-root stores-IsReliableEnv 9 ledger' false all_caps store' store'-Represents refl refl
      may_read_block

-- the store after the addition of the block
abbrev added : Stores
added = (block_make stores sample all_caps 50 (5 ∷ 6 ∷ []) store).1

-- what is specified for the addition
pub specified_50 : block_made sample all_caps 50 (5 ∷ 6 ∷ []) ledger ≡ ok ledger'
unfolding isset word field fit_height fit_prev fit_id child_fields get_first_transaction_id
    open_block guard ◌>>=◌ ◌>>◌ erase get64 get32
specified_50 = refl

added_50 : block_make stores sample all_caps 50 (5 ∷ 6 ∷ []) store ≡ (ok tt, added)
added_50 =
    let (s, done, h) =
      subst
        (Did stores-IsReliableEnv sample (block_make stores sample all_caps 50 (5 ∷ 6 ∷ [])) store)
        specified_50
        (block_make-refines stores-IsReliableEnv sample all_caps 50 (5 ∷ 6 ∷ []) store ledger
          (omega arith) store-Represents) in
    done ∙ ap (λ x. (ok tt, x.1)) (sym done)

block_make-grows_example :
    (l' : Ledger) × Represents stores 9 added l' × Grown sample 50 (5 ∷ 6 ∷ []) ledger l'
block_make-grows_example =
    block_make-grows stores-IsReliableEnv sample all_caps 50 (5 ∷ 6 ∷ []) store added ledger
      (omega arith) store-Represents added_50

-- an addition that succeeds, and one that is not allowed
abbrev additions : List Addition
additions =
    record { caps = all_caps; block_id = 50; block_data = 5 ∷ 6 ∷ [] }
    ∷ record { caps = 0 ∷ []; block_id = 51; block_data = [] }
    ∷ []

add_all-extends_example :
    (l' : Ledger) × Represents stores 9 (add_all stores sample additions store) l'
    × Onward 2 ledger l'
add_all-extends_example =
    add_all-extends stores-IsReliableEnv sample additions store ledger (omega arith)
      store-Represents
