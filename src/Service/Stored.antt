-- ===== src/Service/Stored.antt =====
-- Exchanges of clients that write and read a setting.
use v_c_agentd.Prelude.{
  ℕ, ◌≡◌, refl, sym, ap, ◌∙◌, ◌≤◌, ◌<◌, ◌^◌, Option, ◌==◌, true, false, some, arith, length, ltb,
  if◌then◌else◌, Bool-cases, inl, inr,
}
use v_c_agentd.Wire.{Bytes}
use v_c_agentd.Bitcap.{isset}
use v_c_agentd.Status.{Result, ok, ◌>>=◌}
use v_c_agentd.Method.{method_id, app_global_setting_read}
use v_c_agentd.Codec.{Target, global_setting_get, global_setting_set}
use v_c_agentd.Codec.Layout.{IsValid}
use v_c_agentd.Codec.EncodeLaws.{IsReady}
use v_c_agentd.Contexts.{child_context_lookup}
use v_c_agentd.Settings as SettingStore
use v_c_agentd.Settings.{cap_global_setting_read, cap_global_setting_write}
use v_c_agentd.Settings.Laws.{set-get}
use v_c_agentd.Database.{global_db, on}
use v_c_agentd.Database.Reliable.{IsReliableEnv, on_reliable}
use v_c_agentd.Responses.Reads.{decode_response_global_settings_get}
use v_c_agentd.Responses.Answers.Plain.{settings-answer}
use v_c_agentd.Service.{Setup, State, Handler, without_data, operate, respond, setting_buffer}
use v_c_agentd.Service.Exchange.{answer, served, code_of, exchange-change}
use v_c_agentd.Service.Readings.{reading_of, exchange-operate}

module _ (s : Setup) (root_create : Bytes → Handler s) (t : Target) where
  -- what a client decodes that reads a setting
  abbrev pub setting_read : ℕ → ℕ → State s.env → Result (ℕ × ℕ × Option Bytes)
  setting_read index key st =
      reading_of s root_create (λ resp. decode_response_global_settings_get (some resp) true) t
        (global_setting_get index key) st

  module _ (memory : (n : ℕ) → s.env.malloc n ≡ true) (r : IsReliableEnv s.env) (ready : IsReady t)
      (st : State s.env) (i index : ℕ) (fits : index < 2 ^ 32)
      (open_context : child_context_lookup st.inst index ≡ ok i) where
    -- what it decodes of what the operation gives
    abbrev arriving : Result Bytes → Result (ℕ × ℕ × Option Bytes)
    arriving x =
        respond s (method_id app_global_setting_read) index
          (x >>= λ val. ok val >>= λ payload. ok (some payload))
        >>= λ resp. decode_response_global_settings_get (some resp) true

    arriving-found :
        (val : Bytes) → length val ≤ setting_buffer → arriving (ok val) ≡ ok (index, 0, some val)
    unfolding respond ◌>>=◌
    arriving-found val small =
        settings-answer s.env.malloc memory index fits 0 (omega arith) (some val) (omega arith)

    setting_read-arriving :
        (key : ℕ) (store : s.env.T)
        → key < 2 ^ 64
        → setting_read index key (record st { store = store })
          ≡ arriving
              (SettingStore.global_settings_get
                (on s.env global_db)
                (st.inst.children i).childcaps
                key
                setting_buffer
                store).0
    unfolding operate
    setting_read-arriving key store h =
        (exchange-operate s root_create memory t ready (record st { store = store }) i
          (global_setting_get index key)
          (λ resp. decode_response_global_settings_get (some resp) true) (fits, h) tt refl
          open_context).0

    -- A client's exchange of a valid request that writes a setting of at most 16384 bytes, on an open
    -- child context with both capabilities, where LMDB, `malloc` and the buffers do not fail: the client
    -- decodes its index and the status of success, and no child context has changed. An exchange that
    -- reads a setting on the same context then gives the value that was written, with the status of
    -- success, and under another key what it would have given before.
    pub exchange-setting :
        (key j : ℕ) (val : Bytes)
        → IsValid (global_setting_set index key val)
        → j < 2 ^ 64
        → length val ≤ setting_buffer
        → isset (st.inst.children i).childcaps cap_global_setting_write ≡ true
        → isset (st.inst.children i).childcaps cap_global_setting_read ≡ true
        → let after = served s root_create (global_setting_set index key val) st in
          (answer s root_create t (global_setting_set index key val) st ≡ ok (index, 0, some tt))
          × (after.inst ≡ st.inst)
          × (setting_read index j after
              ≡ (if key == j then ok (index, 0, some val) else setting_read index j st))
    unfolding operate
    exchange-setting key j val valid hj small writes reads =
        let caps = (st.inst.children i).childcaps in
        let (decoded, left) =
          exchange-change s root_create memory t (global_setting_set index key val) st i ready valid
            tt refl fits open_context in
        let (store', done, found) =
          set-get (on_reliable s.env r global_db) caps key j setting_buffer val st.store writes
            reads in
        let eq : served s root_create (global_setting_set index key val) st
            ≡ record st { store = store' } =
          left ∙ ap (λ x. record st { store = (without_data x).1 }) done in
        (
          decoded ∙ ap (λ x. ok (index, code_of ((without_data x).0), some tt)) done,
          ap (λ x. x.inst) eq,
          ap (setting_read index j) eq
              ∙ setting_read-arriving j store' hj
              ∙ elim (Bool-cases (key == j)) [
                | inl hit ↦ rw (found, hit, fits_buffer val small) (arriving-found val small)
                | inr miss ↦ rw (found, miss) (sym (setting_read-arriving j st.store hj))
              ],
        )
      where
        fits_buffer :
            (v : Bytes) → length v ≤ setting_buffer → ltb setting_buffer (length v) ≡ false
        fits_buffer v h = ground (arith, h)
