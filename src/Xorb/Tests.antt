-- ===== src/Xorb/Tests.antt =====
-- A body of one frame, and the theorem about the walk at it.
use openxet.Base.{Result, [], arith, none, ok, some, ◌≡◌}
use openxet.Text.{Text, codes}
use openxet.Xorb.{XetCore, XorbInfo, walk, walk_chunk_frames, default_info}
use openxet.Xorb.Layout.{Framed}
use openxet.Xorb.Walk.{walk_chunk_frames-IsFramed}

-- Headers that announce two bytes.
abbrev two_byte_frames : XetCore
two_byte_frames = record {
  parse_chunk_header =
      λ s. some (record { compressed_length = 2; uncompressed_length = 2; scheme = ok 0 });
  decompress = λ scheme s. ok s;
  compute_data_hash = λ s. s;
  xorb_hash = λ chunks. [];
  deserialize = λ s. none;
  validate_xorb_object = λ s hash. ok none;
}

walk_chunk_frames-IsFramed_example :
    (r : Result Text XorbInfo) × (walk two_byte_frames 11
        (codes "headerhexy")
        (record { pos = 0; unpacked = 0; info = default_info })
      ≡ some r)
    × (walk_chunk_frames two_byte_frames (codes "headerhexy") ≡ r)
    × Framed r
walk_chunk_frames-IsFramed_example =
    walk_chunk_frames-IsFramed two_byte_frames (codes "headerhexy") (omega arith)
