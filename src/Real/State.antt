-- ===== src/Real/State.antt =====
-- The decode side of `VtRealBackend` in crates/vt-ferry-worker/src/vt_real.rs: its sessions, the frames that
-- arrive in chunks, and the queue of decoded frames.
use vt_ferry.Prelude.{ℕ, ◌+◌, Bool, ◌==◌, if◌then◌else◌, Option, none, some, List, [], ◌∷◌, ◌++◌}
use vt_ferry.Mock.Handles.{to_u64}
use vt_ferry.Real.Maps.{HashMap, empty, insert, remove}
use vt_ferry.Real.Frameworks.{Frameworks, CmTime}

pub record PendingEncodedFrame : Type 0 where
  pub bytes : List ℕ
  pub total_size : ℕ
  pub pts_value : ℕ
  pub pts_timescale : ℕ
  pub duration_value : ℕ
  pub duration_timescale : ℕ

module _ (fw : Frameworks) where
  -- The callback context holds the session's number and the queue, which is the backend's.
  pub record VtRealDecodeSession : Type 0 where
    pub id : ℕ
    pub codec : ℕ
    pub width : ℕ
    pub height : ℕ
    pub format_description : Option fw.CmVideoFormatDescription
    pub vt_session : Option fw.VtDecompressionSession
    pub callback_context : Option ℕ
    pub chunked_output : Bool

  pub record VtRealDecodedOutput : Type 0 where
    pub session_id : ℕ
    pub pts : CmTime
    pub duration : CmTime
    pub status : ℕ
    pub image_buffer : fw.CvImageBuffer

  pub record DecodedOutputQueue : Type 0 where
    pub queued : HashMap VtRealDecodedOutput
    pub session_queues : HashMap (List ℕ)
    pub next_output_id : ℕ
    pub decode_errors : HashMap ℕ

  -- The fields of the backend that the decode operations use, and the frameworks.
  pub record VtRealBackend : Type 0 where
    pub decode_sessions : HashMap VtRealDecodeSession
    pub pending_encoded_frames : HashMap PendingEncodedFrame
    pub next_host_id : ℕ
    pub decoded_output_state : DecodedOutputQueue
    pub world : fw.World

  -- `DecodedOutputQueue::new`
  abbrev pub new_queue : DecodedOutputQueue
  new_queue = record {
    queued = empty;
    session_queues = empty;
    next_output_id = 70000;
    decode_errors = empty;
  }

  -- The queue of a session, empty where the map has none.
  unfoldable pub queue_of : DecodedOutputQueue → ℕ → List ℕ
  queue_of q session_id = elim (q.session_queues session_id) [ none ↦ [] | some queue ↦ queue ]

  unfoldable pub enqueue : ℕ → VtRealDecodedOutput → DecodedOutputQueue → ℕ × DecodedOutputQueue
  unfolding queue_of
  enqueue session_id output q = (
    q.next_output_id,
    record {
      queued = insert q.next_output_id output q.queued;
      session_queues =
          insert session_id (queue_of q session_id ++ q.next_output_id ∷ []) q.session_queues;
      next_output_id = to_u64 (q.next_output_id + 1);
      decode_errors = q.decode_errors;
    },
  )

  unfoldable pub record_decode_error : ℕ → ℕ → DecodedOutputQueue → DecodedOutputQueue
  record_decode_error session_id status q =
      if status == 0
      then q
      else record q { decode_errors = insert session_id status q.decode_errors }

  unfoldable pub take_decode_error : ℕ → DecodedOutputQueue → Option ℕ × DecodedOutputQueue
  take_decode_error session_id q =
      (q.decode_errors session_id, record q { decode_errors = remove session_id q.decode_errors })

  unfoldable pub clear : DecodedOutputQueue → DecodedOutputQueue
  clear q = record {
    queued = empty;
    session_queues = empty;
    next_output_id = q.next_output_id;
    decode_errors = empty;
  }

  -- `reset_from_env`; the frames that arrive in chunks stay.
  unfoldable pub reset_from_env : VtRealBackend → VtRealBackend
  unfolding clear
  reset_from_env b = record b {
    decode_sessions = empty;
    decoded_output_state = clear b.decoded_output_state;
    next_host_id = 1;
  }
