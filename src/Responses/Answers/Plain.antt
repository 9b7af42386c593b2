-- ===== src/Responses/Answers/Plain.antt =====
-- The responses without a certificate, encoded by the service and decoded by the client.
use v_c_agentd.Prelude.{
  ℕ, ◌+◌, ◌<◌, ◌^◌, ◌%◌, ◌-◌, ◌≡◌, refl, Bool, true, false, Option, none, some, [], ◌∷◌, ◌==◌,
  arith, ltb, length, take-append, take_all,
}
use v_c_agentd.Wire.{Bytes, put32, put64}
use v_c_agentd.Wire.Laws.{length-put32, length-put64}
use v_c_agentd.Status.{ok, guard, ◌>>=◌, ◌>>◌}
use v_c_agentd.Method.{
  Method, method_id, app_artifact_read, app_global_setting_read, app_block_id_latest_read,
  app_block_id_by_height_read,
}
use v_c_agentd.Responses.{data_of, write_status, check_response}
use v_c_agentd.Responses.Packet.{packet, length-packet, behind_status, read_header-packet}
use v_c_agentd.Responses.Laws.{write_status-packet}
use v_c_agentd.Responses.Fields.{behind, length-behind, rest_at, field_at}
use v_c_agentd.Responses.Reads.{
  encode_response_payload_artifact_read, artifact_of_reply, decode_response_artifact_get,
  encode_response_block_id_by_height_read, encode_response_block_id_latest_read,
  decode_response_block_id_by_height_get, decode_response_latest_block_id_get, decode_status,
  decode_response_global_settings_get,
}
use v_c_agentd.Responses.Answers.Certified.{IsId}

module _ (malloc : ℕ → Bool) (memory : (n : ℕ) → malloc n ≡ true) (offset : ℕ)
    (ho : offset < 2 ^ 32) where
  module _ (a b c h1 h2 s : Bytes) (ha : IsId a) (hb : IsId b) (hc : IsId c) (hh1 : length h1 ≡ 8)
      (hh2 : length h2 ≡ 8) (hs : length s ≡ 4) where
    artifact_of_reply-behind : artifact_of_reply (behind (a ∷ b ∷ c ∷ h1 ∷ h2 ∷ []) s) ≡ record {
      artifact_id = a;
      txn_first = b;
      txn_latest = c;
      net_height_first = h1;
      net_height_latest = h2;
      net_state_latest = s;
    }
    artifact_of_reply-behind = rw (
      take-append 16 a (behind (b ∷ c ∷ h1 ∷ h2 ∷ []) s) ha,
      field_at (a ∷ []) b (c ∷ h1 ∷ h2 ∷ []) s 16 16 (omega arith) hb,
      field_at (a ∷ b ∷ []) c (h1 ∷ h2 ∷ []) s 32 16 (omega arith) hc,
      field_at (a ∷ b ∷ c ∷ []) h1 (h2 ∷ []) s 48 8 (omega arith) hh1,
      field_at (a ∷ b ∷ c ∷ h1 ∷ []) h2 [] s 56 8 (omega arith) hh2,
      rest_at (a ∷ b ∷ c ∷ h1 ∷ h2 ∷ []) s 64 (omega arith),
      take_all 4 s hs,
    )

  pub artifact-answer :
      (a b c : Bytes) (first latest state : ℕ)
      → IsId a
      → IsId b
      → IsId c
      → (encode_response_payload_artifact_read malloc a b c first latest state >>= λ payload.
          write_status malloc (method_id app_artifact_read) offset 0 (some payload) >>= λ resp.
          decode_response_artifact_get (some resp) true)
        ≡ ok (
          offset,
          0,
          some (record {
            artifact_id = a;
            txn_first = b;
            txn_latest = c;
            net_height_first = put64 first;
            net_height_latest = put64 latest;
            net_state_latest = put32 state;
          }),
        )
  unfolding encode_response_payload_artifact_read decode_response_artifact_get check_response guard
      ◌>>=◌ ◌>>◌
  artifact-answer a b c first latest state ha hb hc = rw (
    memory 68,
    take_all 16 a ha,
    take_all 16 b hb,
    take_all 16 c hc,
    write_status-packet malloc memory offset 0 ho (omega arith) (method_id app_artifact_read)
        (some body) small,
    read_header-packet (method_id app_artifact_read) offset 0 body (omega arith) ho (omega arith),
    exact,
    behind_status (method_id app_artifact_read) offset 0 body (omega arith) ho (omega arith),
    artifact_of_reply-behind a b c (put64 first) (put64 latest) (put32 state) ha hb hc
        (length-put64 first) (length-put64 latest) (length-put32 state),
  )
    where
      body : Bytes
      body = behind (a ∷ b ∷ c ∷ put64 first ∷ put64 latest ∷ []) (put32 state)

      small : 12 + length body < 2 ^ 32
      small = omega (
        arith,
        length-behind (a ∷ b ∷ c ∷ put64 first ∷ put64 latest ∷ []) (put32 state),
        length-put64 first,
        length-put64 latest,
        length-put32 state,
      )

      whole : length (packet (method_id app_artifact_read) offset 0 body) ≡ 80
      whole = omega (
        arith,
        length-packet (method_id app_artifact_read) offset 0 body (omega arith) ho (omega arith),
        length-behind (a ∷ b ∷ c ∷ put64 first ∷ put64 latest ∷ []) (put32 state),
        length-put64 first,
        length-put64 latest,
        length-put32 state,
      )

      exact :
          ((length (packet (method_id app_artifact_read) offset 0 body) % 2 ^ 32 + 2 ^ 32 - 12)
              % 2 ^ 32
            == 68)
          ≡ true
      exact = rw whole refl

  pub id-answer :
      (id : Bytes)
      → IsId id
      → ((encode_response_block_id_by_height_read malloc id >>= λ payload.
            write_status malloc (method_id app_block_id_by_height_read) offset 0 (some payload)
            >>= λ resp. decode_response_block_id_by_height_get (some resp) true)
          ≡ ok (offset, 0, some id))
        × ((encode_response_block_id_latest_read malloc id >>= λ payload.
              write_status malloc (method_id app_block_id_latest_read) offset 0 (some payload)
              >>= λ resp. decode_response_latest_block_id_get (some resp) true)
            ≡ ok (offset, 0, some id))
  unfolding encode_response_block_id_by_height_read encode_response_block_id_latest_read
      decode_response_block_id_by_height_get decode_response_latest_block_id_get check_response
      guard ◌>>=◌ ◌>>◌
  id-answer id h = (
    rw (
      memory 16,
      take_all 16 id h,
      write_status-packet malloc memory offset 0 ho (omega arith)
          (method_id app_block_id_by_height_read) (some id) (omega arith),
      read_header-packet (method_id app_block_id_by_height_read) offset 0 id (omega arith) ho
          (omega arith),
      long (method_id app_block_id_by_height_read) (omega arith),
      behind_status (method_id app_block_id_by_height_read) offset 0 id (omega arith) ho
          (omega arith),
      take_all 16 id h,
    ),
    rw (
      memory 16,
      take_all 16 id h,
      write_status-packet malloc memory offset 0 ho (omega arith)
          (method_id app_block_id_latest_read) (some id) (omega arith),
      read_header-packet (method_id app_block_id_latest_read) offset 0 id (omega arith) ho
          (omega arith),
      long (method_id app_block_id_latest_read) (omega arith),
      behind_status (method_id app_block_id_latest_read) offset 0 id (omega arith) ho (omega arith),
      take_all 16 id h,
    ),
  )
    where
      long : (m : ℕ) → m < 2 ^ 32 → ltb (length (packet m offset 0 id)) 28 ≡ false
      long m hm = ground (arith, length-packet m offset 0 id hm ho (omega arith))

  method-small : (m : Method) → method_id m < 2 ^ 32
  method-small m = ground arith

  module _ (status : ℕ) (hs : status < 2 ^ 32) where
    pub status-answer :
        (m : Method)
        → (write_status malloc (method_id m) offset status none >>= λ resp.
            decode_status m (some resp) true)
          ≡ ok (offset, status, some tt)
    unfolding decode_status check_response guard ◌>>=◌ ◌>>◌
    status-answer m = rw (
      write_status-packet malloc memory offset status ho hs (method_id m) none (omega arith),
      exact,
      read_header-packet (method_id m) offset status [] (method-small m) ho hs,
    )
      where
        exact : (length (packet (method_id m) offset status []) == 12) ≡ true
        exact = ground (arith, length-packet (method_id m) offset status [] (method-small m) ho hs)

    pub settings-answer :
        (payload : Option Bytes)
        → 12 + length (data_of payload) < 2 ^ 32
        → (write_status malloc (method_id app_global_setting_read) offset status payload >>= λ resp.
            decode_response_global_settings_get (some resp) true)
          ≡ ok (offset, status, some (data_of payload))
    unfolding decode_response_global_settings_get check_response guard ◌>>=◌ ◌>>◌
    settings-answer payload small = rw (
      write_status-packet malloc memory offset status ho hs (method_id app_global_setting_read)
          payload small,
      read_header-packet (method_id app_global_setting_read) offset status (data_of payload)
          (omega arith) ho hs,
      behind_status (method_id app_global_setting_read) offset status (data_of payload)
          (omega arith) ho hs,
    )
