-- ===== src/Real/Frameworks.antt =====
-- What crates/vt-ferry-worker/src/vt_real.rs calls of VideoToolbox, CoreMedia and CoreVideo to decode.
use vt_ferry.Prelude.{ℕ, Bool, Option, List}

pub record CmTime : Type 0 where
  pub value : ℕ
  pub timescale : ℕ
  pub flags : ℕ
  pub epoch : ℕ

pub record CmSampleTimingInfo : Type 0 where
  pub duration : CmTime
  pub presentation_time_stamp : CmTime
  pub decode_time_stamp : CmTime

-- `World` is the state of the frameworks; a call that fails returns `none`, or `false`. The base addresses
-- of a locked pixel buffer are the bytes from them on, and `none` is the null pointer.
pub record Frameworks : Type 1 where
  pub World : Type 0
  pub CmVideoFormatDescription : Type 0
  pub VtDecompressionSession : Type 0
  pub CmBlockBuffer : Type 0
  pub CmSampleBuffer : Type 0
  pub CvImageBuffer : Type 0
  pub new_with_memory_block : ℕ → World → Option CmBlockBuffer × World
  pub replace_data_bytes : CmBlockBuffer → List ℕ → World → Bool × World
  pub create_ready :
      CmBlockBuffer
      → CmVideoFormatDescription
      → CmSampleTimingInfo
      → ℕ
      → World
      → Option CmSampleBuffer × World
  pub decode_frame : VtDecompressionSession → CmSampleBuffer → World → Bool × World
  pub from_h264_parameter_sets : List (List ℕ) → ℕ → World → Option CmVideoFormatDescription × World
  pub from_hevc_parameter_sets : List (List ℕ) → ℕ → World → Option CmVideoFormatDescription × World
  pub can_accept_format_description :
      VtDecompressionSession → CmVideoFormatDescription → World → Bool
  pub new_with_callback :
      CmVideoFormatDescription → ℕ → World → Option VtDecompressionSession × World
  pub get_width : CvImageBuffer → ℕ
  pub get_height : CvImageBuffer → ℕ
  pub get_pixel_format_type : CvImageBuffer → ℕ
  pub get_plane_count : CvImageBuffer → ℕ
  pub get_base_address : CvImageBuffer → Option (ℕ → ℕ)
  pub get_base_address_of_plane : CvImageBuffer → ℕ → Option (ℕ → ℕ)
  pub get_bytes_per_row_of_plane : CvImageBuffer → ℕ → ℕ
