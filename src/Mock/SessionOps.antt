-- ===== src/Mock/SessionOps.antt =====
-- The arms of `dispatch` for HELLO, PING, GET_CAPS and the session operations, with
-- `set_worker_name`, `remove_session`, `remove_buffers_for_pool`, `remove_pools_for_session` and
-- `remove_outputs_for_session`, of crates/vt-ferry-worker/src/mock.rs.
use vt_ferry.Prelude.{
  ℕ, ◌+◌, ◌-◌, ◌%◌, ◌^◌, min, not, ◌==◌, leb, true, false, List, [], ◌∷◌, ◌++◌, map, take, drop,
  replicate, length, modify_first, retain, sum_by,
}
use vt_ferry.Protocol.Codes.{
  vtf_transport_version, cap_codec_h264, cap_codec_hevc, cap_pixel_format_nv12,
  cap_pixel_format_bgra, cap_pixel_format_p010, cap_session_feature_async_complete,
  cap_session_feature_buffer_sync, status_invalid_handle, status_internal_failure,
}
use vt_ferry.Protocol.Wire.{Bytemuck}
use vt_ferry.Protocol.Header.{hello_reply, get_caps_reply}
use vt_ferry.Protocol.Sessions.{
  create_session_payload, create_session_reply, set_property_payload, prepare_session_payload,
  destroy_session_payload, drain_payload, drain_reply,
}
use vt_ferry.Mock.State.{MockBackend, MockSession, max_sessions}
use vt_ferry.Mock.Transfer.{
  Outcome, Check, ok, ◌>>=◌, ◌>>◌, refuse_if, or_refuse, done, respond, read_pod, write_pod,
}
use vt_ferry.Mock.Handles.{to_u64, find_session, session_is, count_outputs_for_session}

unfoldable pub set_worker_name : List ℕ → List ℕ → List ℕ
set_worker_name buffer name =
    let copy_len = min (length buffer) (length name) in take copy_len name ++ drop copy_len buffer

-- b"vt-ferry-host-worker\0"
abbrev pub worker_name : List ℕ
worker_name =
    b'v' ∷ b't' ∷ b'-' ∷ b'f' ∷ b'e' ∷ b'r' ∷ b'r' ∷ b'y' ∷ b'-' ∷ b'h' ∷ b'o' ∷ b's' ∷ b't' ∷ b'-'
    ∷ b'w' ∷ b'o' ∷ b'r' ∷ b'k' ∷ b'e' ∷ b'r' ∷ 0 ∷ []

unfoldable pub remove_session : ℕ → MockBackend → MockBackend
remove_session session_id b = record b {
  sessions = retain (λ s. not (session_is session_id s)) b.sessions;
}

unfoldable pub remove_buffers_for_pool : ℕ → MockBackend → MockBackend
remove_buffers_for_pool pool_id b = record b {
  buffers = retain (λ x. not (x.pool_id == pool_id)) b.buffers;
}

-- The loop over the ids of the removed pools.
unfoldable pub remove_buffers_for_pools : List ℕ → MockBackend → MockBackend
unfolding remove_buffers_for_pool
remove_buffers_for_pools [] b = b
remove_buffers_for_pools (pool_id ∷ ids) b =
    remove_buffers_for_pools ids (remove_buffers_for_pool pool_id b)

unfoldable pub remove_pools_for_session : ℕ → MockBackend → MockBackend
unfolding remove_buffers_for_pools
remove_pools_for_session session_id b =
    remove_buffers_for_pools (map (λ p. p.id) (retain (λ p. p.session_id == session_id) b.pools))
      (record b { pools = retain (λ p. not (p.session_id == session_id)) b.pools })

-- `saturating_sub` is `-` on ℕ.
unfoldable pub remove_outputs_for_session : ℕ → MockBackend → MockBackend
remove_outputs_for_session session_id b = record b {
  outputs = retain (λ o. not (o.reply.session_id == session_id)) b.outputs;
  output_bytes_total =
      b.output_bytes_total
      - sum_by (λ o. o.reply.sample_size)
          (retain (λ o. o.reply.session_id == session_id) b.outputs);
}

module _ (bm : Bytemuck) where
  unfoldable pub on_hello : MockBackend → List ℕ → Outcome
  unfolding set_worker_name
  on_hello b res = respond b (
      write_pod bm hello_reply res (record {
        worker_abi_version = vtf_transport_version;
        reserved = 0;
        supported_features = 0;
        worker_name = set_worker_name (replicate 32 0) worker_name;
      }))

  unfoldable pub on_get_caps : MockBackend → List ℕ → Outcome
  on_get_caps b res = respond b (
      write_pod bm get_caps_reply res (record {
        codec_bits = cap_codec_h264 + cap_codec_hevc;
        pixel_format_bits = cap_pixel_format_nv12 + cap_pixel_format_bgra + cap_pixel_format_p010;
        session_feature_bits = cap_session_feature_async_complete + cap_session_feature_buffer_sync;
        max_width = 7680;
        max_height = 4320;
        max_inflight_frames = b.max_output_count % 2 ^ 32;
        reserved = 0;
      }))

  unfoldable pub on_create_session : MockBackend → List ℕ → List ℕ → Check Outcome
  on_create_session b req res = do
    refuse_if (leb max_sessions (length b.sessions)) status_internal_failure
    payload ← or_refuse (read_pod bm create_session_payload req) status_internal_failure
    let session : MockSession = record {
      id = b.next_host_id;
      kind = payload.kind;
      codec = payload.codec;
      width = payload.width;
      height = payload.height;
      pixel_format = payload.pixel_format;
      prepared = false;
      frames_encoded = 0;
    }
    let b' : MockBackend = record b {
      next_host_id = to_u64 (b.next_host_id + 1);
      sessions = b.sessions ++ session ∷ [];
    }
    ok (
        respond b' (
          write_pod bm create_session_reply res (record {
            session_id = b.next_host_id;
            negotiated_width = payload.width;
            negotiated_height = payload.height;
            pixel_format = payload.pixel_format;
            reserved = 0;
          })))

  -- The mock takes any property of a session that it knows.
  unfoldable pub on_set_property : MockBackend → List ℕ → List ℕ → Check Outcome
  on_set_property b req res = do
    payload ← or_refuse (read_pod bm set_property_payload req) status_internal_failure
    session ← or_refuse (find_session b payload.session_id) status_invalid_handle
    ok (done b res)

  unfoldable pub on_prepare_session : MockBackend → List ℕ → List ℕ → Check Outcome
  on_prepare_session b req res = do
    payload ← or_refuse (read_pod bm prepare_session_payload req) status_internal_failure
    session ← or_refuse (find_session b payload.session_id) status_invalid_handle
    let b' : MockBackend = record b {
      sessions =
          modify_first (session_is payload.session_id) (λ s. record s { prepared = true })
            b.sessions;
    }
    ok (done b' res)

  unfoldable pub on_destroy_session : MockBackend → List ℕ → List ℕ → Check Outcome
  unfolding remove_session remove_pools_for_session remove_outputs_for_session
  on_destroy_session b req res = do
    payload ← or_refuse (read_pod bm destroy_session_payload req) status_internal_failure
    session ← or_refuse (find_session b payload.session_id) status_invalid_handle
    let b' = remove_session payload.session_id (
        remove_pools_for_session payload.session_id
          (remove_outputs_for_session payload.session_id b))
    ok (done b' res)

  unfoldable pub on_drain : MockBackend → List ℕ → List ℕ → Check Outcome
  on_drain b req res = do
    payload ← or_refuse (read_pod bm drain_payload req) status_internal_failure
    session ← or_refuse (find_session b payload.session_id) status_invalid_handle
    ok (
        respond b (
          write_pod bm drain_reply res (record {
            session_id = payload.session_id;
            pending_outputs = count_outputs_for_session b payload.session_id;
            reserved = 0;
          })))
