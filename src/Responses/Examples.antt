-- ===== src/Responses/Examples.antt =====
-- Responses, at concrete values.
use v_c_agentd.Prelude.{ℕ, ◌≡◌, refl, Bool, true, false, some, [], ◌∷◌, arith}
use v_c_agentd.Wire.{Bytes, put64}
use v_c_agentd.Responses.Reads.{encode_response_block_read, decode_response_block_get}
use v_c_agentd.Responses.Answers.{block, answer-Arrives}
use v_c_agentd.Status.{ok, ◌>>=◌}
use v_c_agentd.Method.{method_id, ll_child_context_create, app_block_read, app_pq_transaction_read}
use v_c_agentd.Responses.{
  Reply, write_status, encode_response_child_context_create, decode_response_child_context_create,
  encode_response_transaction_get, decode_response_transaction_get,
}
use v_c_agentd.Responses.Laws.{IsReply, get-response, create-response}

-- memory for every size
abbrev plenty : ℕ → Bool
plenty n = true

abbrev id_of : ℕ → Bytes
id_of b = b ∷ b ∷ b ∷ b ∷ b ∷ b ∷ b ∷ b ∷ b ∷ b ∷ b ∷ b ∷ b ∷ b ∷ b ∷ b ∷ []

abbrev reply : Reply
reply = record {
  txn_id = id_of 7;
  prev_id = id_of 0;
  next_id = id_of 255;
  artifact_id = id_of 9;
  net_txn_state = 0 ∷ 0 ∷ 0 ∷ 2 ∷ [];
  cert = 1 ∷ 2 ∷ 3 ∷ [];
}

abbrev reply-IsReply : IsReply reply
reply-IsReply = (refl, refl, refl, refl, refl)

get-response_example :
    (encode_response_transaction_get plenty reply >>= λ payload.
    write_status plenty (method_id app_pq_transaction_read) 3 0 (some payload) >>= λ resp.
    decode_response_transaction_get (some resp) true)
    ≡ ok (3, 0, some reply)
get-response_example =
    get-response plenty (λ n. refl) 3 (omega arith) reply reply-IsReply (omega arith)

-- a block whose certificate is not asked for
answer-Arrives_example :
    (encode_response_block_read plenty (id_of 7) (id_of 6) (id_of 8) (id_of 1) 12 false (1 ∷ 2 ∷ [])
      >>= λ payload. write_status plenty (method_id app_block_read) 3 0 (some payload) >>= λ resp.
          decode_response_block_get (some resp) true)
    ≡ ok (
      3,
      0,
      some (record {
        block_id = id_of 7;
        prev_id = id_of 6;
        next_id = id_of 8;
        first_txn_id = id_of 1;
        net_block_height = put64 12;
        cert = [];
      }),
    )
answer-Arrives_example =
    answer-Arrives plenty (λ n. refl) 3
      (block (id_of 7) (id_of 6) (id_of 8) (id_of 1) 12 false (1 ∷ 2 ∷ [])) (omega arith)
      (refl, refl, refl, refl, omega arith)

create-response_example :
    (encode_response_child_context_create plenty 1023 >>= λ payload.
    write_status plenty (method_id ll_child_context_create) 0 0 (some payload) >>= λ resp.
    decode_response_child_context_create (some resp) true)
    ≡ ok (0, 0, some 1023)
create-response_example = create-response plenty (λ n. refl) 0 (omega arith) 1023 (omega arith)
