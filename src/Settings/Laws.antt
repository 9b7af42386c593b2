-- ===== src/Settings/Laws.antt =====
-- The settings as a map.
use v_c_agentd.Prelude.{ℕ, ◌≡◌, ◌∙◌, true, ◌==◌, if◌then◌else◌, Bool-cases, inl, inr}
use v_c_agentd.Wire.{Bytes}
use v_c_agentd.Status.{ok}
use v_c_agentd.Bitcap.{Caps, isset}
use v_c_agentd.Lmdb.{Platform, IsReliable, found}
use v_c_agentd.Settings.{
  cap_global_setting_read, cap_global_setting_write, fit, global_settings_set, global_settings_get,
}

module _ {p : Platform Bytes} (r : IsReliable p) (childcaps : Caps) where
  open r use {begun, stored, begin_eq, get-begun, commit_status, get-commit, put_eq, get-stored}

  set-stored :
      (key : ℕ) (val : Bytes) (store : p.T)
      → isset childcaps cap_global_setting_write ≡ true
      → global_settings_set p childcaps key val store
        ≡ (ok tt, (p.commit store (stored (begun store) key val)).1)
  unfolding global_settings_set
  set-stored key val store h = rw (
    h,
    begin_eq store,
    put_eq (begun store) key val,
    commit_status store (stored (begun store) key val),
  )

  -- Reading looks at no more than what is stored under the key.
  get-congruent :
      (key size : ℕ) (s t : p.T)
      → p.get s key ≡ p.get t key
      → global_settings_get p childcaps key size s ≡ global_settings_get p childcaps key size t
  unfolding global_settings_get
  get-congruent key size s t h = elim (Bool-cases (isset childcaps cap_global_setting_read)) [
    | inr refused ↦ rw refused
    | inl allowed ↦ rw (allowed, begin_eq s, begin_eq t, get-begun s key, get-begun t key, h)
  ]

  get-found :
      (key size : ℕ) (val : Bytes) (t : p.T)
      → isset childcaps cap_global_setting_read ≡ true
      → p.get t key ≡ found val
      → global_settings_get p childcaps key size t ≡ fit size val
  unfolding global_settings_get
  get-found key size val t allowed h = rw (allowed, begin_eq t, get-begun t key, h)

  -- With both capabilities and where LMDB does not fail, a write succeeds. A read of the same
  -- key then returns the value that was written, or its size if the buffer is too small for
  -- it; a read of another key returns what it returned before.
  pub set-get :
      (key j size : ℕ) (val : Bytes) (store : p.T)
      → isset childcaps cap_global_setting_write ≡ true
      → isset childcaps cap_global_setting_read ≡ true
      → (store' : p.T) × (global_settings_set p childcaps key val store ≡ (ok tt, store'))
        × (global_settings_get p childcaps j size store'
            ≡ (if key == j then fit size val else global_settings_get p childcaps j size store))
  set-get key j size val store writes reads =
      let t = stored (begun store) key val in
      let now : p.get (p.commit store t).1 j ≡ (if key == j then found val else p.get store j) =
        get-commit store t j ∙ rw (get-stored (begun store) key val j, get-begun store j) in
      (
        (p.commit store t).1,
        set-stored key val store writes,
        elim (Bool-cases (key == j)) [
          | inl hit ↦ rw hit (get-found j size val (p.commit store t).1 reads (now ∙ rw hit))
          | inr miss ↦ rw miss (get-congruent j size (p.commit store t).1 store (now ∙ rw miss))
        ],
      )
