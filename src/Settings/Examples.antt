-- ===== src/Settings/Examples.antt =====
-- Settings, at a store in memory.
use v_c_agentd.Prelude.{ℕ, ◌≡◌, refl, ◌-◌, ◌^◌, true, [], ◌∷◌}
use v_c_agentd.Wire.{Bytes}
use v_c_agentd.Status.{ok, err, would_truncate}
use v_c_agentd.Bitcap.{Caps, isset, word}
use v_c_agentd.Lmdb.{Get, notfound}
use v_c_agentd.Lmdb.Memory.{memory, good}
use v_c_agentd.Settings.{global_settings_set, global_settings_get}
use v_c_agentd.Settings.Laws.{set-get}

abbrev all_caps : Caps
all_caps = (2 ^ 32 - 1) ∷ []

may_read : isset all_caps 7 ≡ true
unfolding isset word
may_read = refl

may_write : isset all_caps 8 ≡ true
unfolding isset word
may_write = refl

abbrev empty : ℕ → Get Bytes
empty j = notfound

-- two bytes do not fit a buffer of one
set-get_example :
    (store' : ℕ → Get Bytes) × (global_settings_set (memory true) all_caps 0 (7 ∷ 8 ∷ []) empty
      ≡ (ok tt, store'))
    × (global_settings_get (memory true) all_caps 0 1 store' ≡ (err would_truncate, 2))
set-get_example = set-get good all_caps 0 0 1 (7 ∷ 8 ∷ []) empty may_write may_read
