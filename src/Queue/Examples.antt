-- ===== src/Queue/Examples.antt =====
-- The queue's theorems at concrete stores: an LMDB in memory, and one whose commits fail.
use v_c_agentd.Prelude.{◌-◌, ◌^◌, ◌≡◌, refl, true, false, List, [], ◌∷◌, arith, inl, inr}
use v_c_agentd.Status.{ok, err, not_found, invalid_stored_transaction_node}
use v_c_agentd.Bitcap.{Caps, isset, word}
use v_c_agentd.Lmdb.{notfound}
use v_c_agentd.Queue.{begin_id, end_id}
use v_c_agentd.Lmdb.Memory.{memory, good}
use v_c_agentd.Queue.Chain.{Cell, View, node_of, value_of, sentinel, IsQueue, Holds, written}
use v_c_agentd.Queue.Chain.Insert.{create-IsQueue, insert-IsQueue}
use v_c_agentd.Queue.Submit.{transaction_submit}
use v_c_agentd.Queue.Drop.{transaction_drop}
use v_c_agentd.Queue.Promote.{transaction_promote}
use v_c_agentd.Queue.Read.{transaction_get, transaction_get_first}
use v_c_agentd.Queue.SubmitLaws.{new_cell, submit-appends}
use v_c_agentd.Queue.DropLaws.{drop-removes}
use v_c_agentd.Queue.PromoteLaws.{attested, promote-attests}
use v_c_agentd.Queue.ReadLaws.{transaction_get-found, transaction_get_first-front}
use v_c_agentd.Queue.ZeroId.{submit-zero_id}
use v_c_agentd.Queue.Spec.{Call, submit, drop, promote, perform, erase, attest, run_all}
use v_c_agentd.Queue.Spec.Refines.{perform-refines, run-refines}

abbrev all_caps : Caps
all_caps = (2 ^ 32 - 1) ∷ []

abbrev unused : View
unused j = notfound

abbrev seven : Cell
seven = new_cell true 7 70 (1 ∷ 2 ∷ 3 ∷ [])

abbrev eight : Cell
eight = new_cell true 8 80 (4 ∷ [])

-- the store with one transaction, and with two
abbrev one : View
one = written end_id (value_of (sentinel end_id) 7 end_id) (
    written begin_id (value_of (sentinel begin_id) begin_id 7)
      (written 7 (value_of seven begin_id end_id) unused))

one-IsQueue : IsQueue one (seven ∷ [])
one-IsQueue = create-IsQueue unused one seven (λ j. refl) refl (λ j. refl)

abbrev two : View
two =
    written end_id (value_of (sentinel end_id) 8 end_id)
      (written 7 (value_of seven begin_id 8) (written 8 (value_of eight 7 end_id) one))

two-IsQueue : IsQueue two (seven ∷ eight ∷ [])
two-IsQueue =
    insert-IsQueue one-IsQueue (sentinel begin_id ∷ []) seven refl eight refl two (λ j. refl)

may_submit : isset all_caps 15 ≡ true
unfolding isset word
may_submit = refl

may_promote : isset all_caps 16 ≡ true
unfolding isset word
may_promote = refl

may_read_first : isset all_caps 17 ≡ true
unfolding isset word
may_read_first = refl

may_read : isset all_caps 18 ≡ true
unfolding isset word
may_read = refl

may_drop : isset all_caps 19 ≡ true
unfolding isset word
may_drop = refl

submit-appends_example :
    (store' : View) × (transaction_submit (memory true) true all_caps 8 80 (4 ∷ []) one
      ≡ (ok tt, store'))
    × IsQueue store' (seven ∷ eight ∷ [])
submit-appends_example =
    submit-appends good true 8 80 (4 ∷ []) all_caps one (seven ∷ []) may_submit (inl one-IsQueue)
      refl

drop-removes_example :
    (store' : View) × (transaction_drop (memory true) false all_caps 7 two ≡ (ok tt, store'))
    × IsQueue store' (eight ∷ [])
drop-removes_example =
    drop-removes good all_caps may_drop false two [] (eight ∷ []) seven two-IsQueue

promote-attests_example :
    (store' : View) × (transaction_promote (memory true) false all_caps 8 two ≡ (ok tt, store'))
    × IsQueue store' (seven ∷ attested eight ∷ [])
promote-attests_example =
    promote-attests good all_caps may_promote false two (seven ∷ []) [] eight two-IsQueue

transaction_get-found_example :
    transaction_get (memory true) false all_caps 8 two ≡ ok (node_of eight 7 end_id, 4 ∷ [])
transaction_get-found_example =
    transaction_get-found good false all_caps two (seven ∷ []) [] eight may_read two-IsQueue
      (omega arith)

transaction_get_first-front_example :
    transaction_get_first (memory true) false all_caps two
    ≡ ok (node_of seven begin_id 8, 1 ∷ 2 ∷ 3 ∷ [])
transaction_get_first-front_example =
    transaction_get_first-front good false all_caps two (seven ∷ eight ∷ []) may_read_first
      (inl two-IsQueue) (omega arith, (omega arith, tt))

submit-zero_id_example :
    (store' : View) × (transaction_submit (memory true) true all_caps 0 80 (4 ∷ []) unused
      ≡ (ok tt, store'))
    × (transaction_get_first (memory true) false all_caps store'
        ≡ err invalid_stored_transaction_node)
submit-zero_id_example =
    submit-zero_id good all_caps unused true false 80 (4 ∷ []) may_submit may_read_first (λ j. refl)

perform-refines_example :
    ((perform (memory true) true all_caps (drop false 7) two).0 ≡ ok tt)
    × Holds (perform (memory true) true all_caps (drop false 7) two).1 (eight ∷ [])
unfolding erase
perform-refines_example =
    perform-refines good true all_caps (drop false 7) two (seven ∷ eight ∷ []) may_drop tt
      (inl two-IsQueue)

abbrev calls : List Call
calls =
    submit 7 70 (1 ∷ 2 ∷ 3 ∷ [])
    ∷ submit 8 80 (4 ∷ [])
    ∷ promote false 8
    ∷ drop false 7
    ∷ drop true 7
    ∷ []

run-refines_example :
    ((run_all (perform (memory true) true all_caps) calls unused).0
      ≡ ok tt ∷ ok tt ∷ ok tt ∷ ok tt ∷ err not_found ∷ [])
    × Holds (run_all (perform (memory true) true all_caps) calls unused).1 (attested eight ∷ [])
unfolding erase attest
run-refines_example =
    run-refines good true all_caps calls unused []
      (
        (may_submit, (refl, refl)),
        ((may_submit, (refl, refl)), ((may_promote, tt), ((may_drop, tt), ((may_drop, tt), tt)))),
      )
      (inr (refl, λ j. refl))
