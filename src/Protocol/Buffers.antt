-- ===== src/Protocol/Buffers.antt =====
-- The payloads and replies of the buffer pool operations.
use mathlib.Core.List.{flat_map}
use vt_ferry.Prelude.{ℕ, List, [], ◌∷◌, ◌++◌, map, take, drop, replicate, get_or, repeat, chunks}
use vt_ferry.Protocol.Wire.{Layout}

pub record CreateBufferPoolPayload : Type 0 where
  pub session_id : ℕ
  pub buffer_count : ℕ
  pub pixel_format : ℕ
  pub width : ℕ
  pub height : ℕ
  pub usage_flags : ℕ
  pub padding : ℕ

abbrev pub create_buffer_pool_payload : Layout CreateBufferPoolPayload
create_buffer_pool_payload = record {
  widths = 8 ∷ 4 ∷ 4 ∷ 4 ∷ 4 ∷ 4 ∷ 4 ∷ [];
  words = λ r.
      r.session_id ∷ r.buffer_count ∷ r.pixel_format ∷ r.width ∷ r.height ∷ r.usage_flags
      ∷ r.padding ∷ [];
  of_words = λ ws. record {
    session_id = get_or ws 0 0;
    buffer_count = get_or ws 1 0;
    pixel_format = get_or ws 2 0;
    width = get_or ws 3 0;
    height = get_or ws 4 0;
    usage_flags = get_or ws 5 0;
    padding = get_or ws 6 0;
  };
}

pub record BufferLayoutReply : Type 0 where
  pub plane_count : ℕ
  pub total_size : ℕ
  pub plane_offsets : List ℕ
  pub plane_widths : List ℕ
  pub plane_heights : List ℕ
  pub plane_bytes_per_row : List ℕ

abbrev pub buffer_layout_reply : Layout BufferLayoutReply
buffer_layout_reply = record {
  widths = 4 ∷ 4 ∷ (replicate 4 4 ++ (replicate 4 4 ++ (replicate 4 4 ++ (replicate 4 4))));
  words = λ r.
      r.plane_count
      ∷ r.total_size
      ∷ (r.plane_offsets ++ (r.plane_widths ++ (r.plane_heights ++ (r.plane_bytes_per_row))));
  of_words = λ ws. record {
    plane_count = get_or ws 0 0;
    total_size = get_or ws 1 0;
    plane_offsets = take 4 (drop 2 ws);
    plane_widths = take 4 (drop 6 ws);
    plane_heights = take 4 (drop 10 ws);
    plane_bytes_per_row = take 4 (drop 14 ws);
  };
}

pub record SharedRegionReply : Type 0 where
  pub mapping_id : ℕ
  pub region_size : ℕ
  pub source_offset : ℕ
  pub flags : ℕ
  pub source_kind : ℕ
  pub source_handle : ℕ
  pub source_path : List ℕ

abbrev pub shared_region_reply : Layout SharedRegionReply
shared_region_reply = record {
  widths = 8 ∷ 8 ∷ 8 ∷ 4 ∷ 4 ∷ 8 ∷ (replicate 256 1);
  words = λ r.
      r.mapping_id ∷ r.region_size ∷ r.source_offset ∷ r.flags ∷ r.source_kind ∷ r.source_handle
      ∷ r.source_path;
  of_words = λ ws. record {
    mapping_id = get_or ws 0 0;
    region_size = get_or ws 1 0;
    source_offset = get_or ws 2 0;
    flags = get_or ws 3 0;
    source_kind = get_or ws 4 0;
    source_handle = get_or ws 5 0;
    source_path = take 256 (drop 6 ws);
  };
}

pub record PoolBufferLeaseReply : Type 0 where
  pub buffer_id : ℕ
  pub generation : ℕ
  pub slot_index : ℕ
  pub slot_offset : ℕ
  pub host_backing_kind : ℕ
  pub flags : ℕ

abbrev pub pool_buffer_lease_reply : Layout PoolBufferLeaseReply
pool_buffer_lease_reply = record {
  widths = 8 ∷ 8 ∷ 4 ∷ 4 ∷ 4 ∷ 4 ∷ [];
  words = λ r.
      r.buffer_id ∷ r.generation ∷ r.slot_index ∷ r.slot_offset ∷ r.host_backing_kind ∷ r.flags
      ∷ [];
  of_words = λ ws. record {
    buffer_id = get_or ws 0 0;
    generation = get_or ws 1 0;
    slot_index = get_or ws 2 0;
    slot_offset = get_or ws 3 0;
    host_backing_kind = get_or ws 4 0;
    flags = get_or ws 5 0;
  };
}

pub record CreateBufferPoolReply : Type 0 where
  pub pool_id : ℕ
  pub width : ℕ
  pub height : ℕ
  pub pixel_format : ℕ
  pub slot_count : ℕ
  pub buffer_region_size : ℕ
  pub host_backing_kind : ℕ
  pub layout : BufferLayoutReply
  pub shared_regions : List SharedRegionReply
  pub buffer_leases : List PoolBufferLeaseReply

abbrev pub create_buffer_pool_reply : Layout CreateBufferPoolReply
create_buffer_pool_reply = record {
  widths =
      8
      ∷ 4
      ∷ 4
      ∷ 4
      ∷ 4
      ∷ 4
      ∷ 4
      ∷ (buffer_layout_reply.widths
          ++ (repeat 64 shared_region_reply.widths ++ (repeat 64 pool_buffer_lease_reply.widths)));
  words = λ r.
      r.pool_id
      ∷ r.width
      ∷ r.height
      ∷ r.pixel_format
      ∷ r.slot_count
      ∷ r.buffer_region_size
      ∷ r.host_backing_kind
      ∷ (buffer_layout_reply.words r.layout
          ++ (flat_map shared_region_reply.words r.shared_regions
              ++ (flat_map pool_buffer_lease_reply.words r.buffer_leases)));
  of_words = λ ws. record {
    pool_id = get_or ws 0 0;
    width = get_or ws 1 0;
    height = get_or ws 2 0;
    pixel_format = get_or ws 3 0;
    slot_count = get_or ws 4 0;
    buffer_region_size = get_or ws 5 0;
    host_backing_kind = get_or ws 6 0;
    layout = buffer_layout_reply.of_words (take 18 (drop 7 ws));
    shared_regions = map shared_region_reply.of_words (chunks 64 262 (drop 25 ws));
    buffer_leases = map pool_buffer_lease_reply.of_words (chunks 64 6 (drop 16793 ws));
  };
}

pub record AllocBufferPayload : Type 0 where
  pub pool_id : ℕ

abbrev pub alloc_buffer_payload : Layout AllocBufferPayload
alloc_buffer_payload = record {
  widths = 8 ∷ [];
  words = λ r. r.pool_id ∷ [];
  of_words = λ ws. record { pool_id = get_or ws 0 0 };
}

pub record AllocBufferReply : Type 0 where
  pub buffer_id : ℕ
  pub generation : ℕ
  pub width : ℕ
  pub height : ℕ
  pub pixel_format : ℕ
  pub slot_index : ℕ
  pub slot_offset : ℕ
  pub host_backing_kind : ℕ
  pub layout : BufferLayoutReply

abbrev pub alloc_buffer_reply : Layout AllocBufferReply
alloc_buffer_reply = record {
  widths = 8 ∷ 8 ∷ 4 ∷ 4 ∷ 4 ∷ 4 ∷ 4 ∷ 4 ∷ buffer_layout_reply.widths;
  words = λ r.
      r.buffer_id
      ∷ r.generation
      ∷ r.width
      ∷ r.height
      ∷ r.pixel_format
      ∷ r.slot_index
      ∷ r.slot_offset
      ∷ r.host_backing_kind
      ∷ (buffer_layout_reply.words r.layout);
  of_words = λ ws. record {
    buffer_id = get_or ws 0 0;
    generation = get_or ws 1 0;
    width = get_or ws 2 0;
    height = get_or ws 3 0;
    pixel_format = get_or ws 4 0;
    slot_index = get_or ws 5 0;
    slot_offset = get_or ws 6 0;
    host_backing_kind = get_or ws 7 0;
    layout = buffer_layout_reply.of_words (take 18 (drop 8 ws));
  };
}

pub record ReadBufferPayload : Type 0 where
  pub buffer_id : ℕ
  pub generation : ℕ
  pub offset : ℕ
  pub length : ℕ

abbrev pub read_buffer_payload : Layout ReadBufferPayload
read_buffer_payload = record {
  widths = 8 ∷ 8 ∷ 4 ∷ 4 ∷ [];
  words = λ r. r.buffer_id ∷ r.generation ∷ r.offset ∷ r.length ∷ [];
  of_words = λ ws. record {
    buffer_id = get_or ws 0 0;
    generation = get_or ws 1 0;
    offset = get_or ws 2 0;
    length = get_or ws 3 0;
  };
}

pub record ReadBufferReply : Type 0 where
  pub buffer_id : ℕ
  pub generation : ℕ
  pub offset : ℕ
  pub length : ℕ

abbrev pub read_buffer_reply : Layout ReadBufferReply
read_buffer_reply = record {
  widths = 8 ∷ 8 ∷ 4 ∷ 4 ∷ [];
  words = λ r. r.buffer_id ∷ r.generation ∷ r.offset ∷ r.length ∷ [];
  of_words = λ ws. record {
    buffer_id = get_or ws 0 0;
    generation = get_or ws 1 0;
    offset = get_or ws 2 0;
    length = get_or ws 3 0;
  };
}

pub record WriteBufferPayload : Type 0 where
  pub buffer_id : ℕ
  pub generation : ℕ
  pub offset : ℕ
  pub length : ℕ

abbrev pub write_buffer_payload : Layout WriteBufferPayload
write_buffer_payload = record {
  widths = 8 ∷ 8 ∷ 4 ∷ 4 ∷ [];
  words = λ r. r.buffer_id ∷ r.generation ∷ r.offset ∷ r.length ∷ [];
  of_words = λ ws. record {
    buffer_id = get_or ws 0 0;
    generation = get_or ws 1 0;
    offset = get_or ws 2 0;
    length = get_or ws 3 0;
  };
}

pub record RecycleBufferPayload : Type 0 where
  pub pool_id : ℕ
  pub buffer_id : ℕ
  pub generation : ℕ

abbrev pub recycle_buffer_payload : Layout RecycleBufferPayload
recycle_buffer_payload = record {
  widths = 8 ∷ 8 ∷ 8 ∷ [];
  words = λ r. r.pool_id ∷ r.buffer_id ∷ r.generation ∷ [];
  of_words = λ ws. record {
    pool_id = get_or ws 0 0;
    buffer_id = get_or ws 1 0;
    generation = get_or ws 2 0;
  };
}
