-- ===== src/Settings.antt =====
-- Global settings: src/dataservice/dataservice_global_settings_set.c and
-- dataservice_global_settings_get.c, on the database `global_db`. A key is the number that its eight
-- bytes make, and a value its bytes.
pub mod Laws
pub mod Examples
use v_c_agentd.Prelude.{ℕ, Bool, true, false, some, none, ltb, if◌then◌else◌, length}
use v_c_agentd.Wire.{Bytes}
use v_c_agentd.Status.{
  Result, ok, err, not_authorized, not_found, mdb_txn_begin_failure, mdb_txn_commit_failure,
  mdb_put_failure, mdb_get_failure, would_truncate,
}
use v_c_agentd.Bitcap.{Caps, isset}
use v_c_agentd.Lmdb.{Platform, Get, found, notfound, failed}

-- DATASERVICE_API_CAP_APP_GLOBAL_SETTING_READ
abbrev pub cap_global_setting_read : ℕ
cap_global_setting_read = 7

-- DATASERVICE_API_CAP_APP_GLOBAL_SETTING_WRITE
abbrev pub cap_global_setting_write : ℕ
cap_global_setting_write = 8

-- the end of a read: the value, or its size if it does not fit; and `*size` as it is then
abbrev pub fit : ℕ → Bytes → Result Bytes × ℕ
fit size val =
    if ltb size (length val) then (err would_truncate, length val) else (ok val, length val)

module _ (p : Platform Bytes) where
  -- The end of a write: the commit, and its status. After a failed commit the program aborts the
  -- transaction, whose handle the commit has released.
  abbrev pub commit_put : p.T → p.T → Result (Unit {0}) × p.T
  commit_put store txn =
      if (p.commit store txn).0
      then (ok tt, (p.commit store txn).1)
      else (err mdb_txn_commit_failure, (p.commit store txn).1)

  unfoldable pub global_settings_set : Caps → ℕ → Bytes → p.T → Result (Unit {0}) × p.T
  global_settings_set childcaps key buffer store =
      if isset childcaps cap_global_setting_write
      then elim (p.begin store) [
        | none ↦ (err mdb_txn_begin_failure, store)
        | some txn ↦ elim (p.put txn key buffer false) [
          | none ↦ (err mdb_put_failure, p.abort store txn)
          | some txn' ↦ commit_put store txn'
        ]
      ]
      else (err not_authorized, store)

  -- The number is the size of the caller's buffer, and then `*size`.
  unfoldable pub global_settings_get : Caps → ℕ → ℕ → p.T → Result Bytes × ℕ
  global_settings_get childcaps key size store =
      if isset childcaps cap_global_setting_read
      then elim (p.begin store) [
        | none ↦ (err mdb_txn_begin_failure, size)
        | some txn ↦ elim (p.get txn key) [
          | notfound ↦ (err not_found, size)
          | failed n ↦ (err mdb_get_failure, size)
          | found val ↦ fit size val
        ]
      ]
      else (err not_authorized, size)
