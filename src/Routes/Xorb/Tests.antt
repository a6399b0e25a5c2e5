-- ===== src/Routes/Xorb/Tests.antt =====
-- The theorems about uploads and downloads at a xorb of one chunk. Source:
-- crates/server/src/routes/xorb.rs.
use openxet.Base.{
  Bool, [], arith, false, if◌then◌else◌, none, ok, refl, some, true, ℕ, ◌%◌, ◌+◌, ◌>>=◌, ◌∷◌, ◌≡◌,
  ◌≤◌, ◌⊎◌,
}
use openxet.Text.{Text, codes, eq_text, split_once, strip_prefix}
use openxet.Text.Decimal.{u64_mod, decimal, parse_u64}
use openxet.Hash.{validate_hash, IsHash, validate_hash_iff}
use openxet.Auth.{Claims, admin}
use openxet.Auth.Samples.{hash_a, plain, key, provider, keys, config}
use openxet.Auth.FetchUrl.{
  XorbUrlParams, is_signed, span_text, signature, verify_xorb_url, mac, mac_message, parse_span,
}
use openxet.Auth.Middleware.{HeaderMap, authorize}
use openxet.Reconstruction.Range.{parse_range_header}
use openxet.Storage.{xorb_exists, put_xorb, put_at, xorb_path}
use openxet.Storage as Storage
use openxet.Storage.Memory.{Objects, memory, read_object, head_object}
use openxet.Index.Chunks.{put_batch, put_xorb_layout}
use openxet.Index.Chunks.Printed.{json}
use openxet.Xorb.{
  XetCore, XorbInfo, validated_xorb_info, layout_from_info, has_unpacked_offsets, layout_from,
}
use openxet.Gc.{AppState}
use openxet.Routes.Shard.{locations}
use openxet.Routes.Xorb.{get_xorb, post_xorb, in_span, lift_storage}
use openxet.Routes.Xorb.Upload.{Uploaded, post_xorb-Uploaded}
use openxet.Routes.Xorb.Download.{get_xorb-signature, get_xorb_sound, get_xorb-signed_span}

abbrev chunk_one : Text
chunk_one = codes "0000000000000000000000000000000000000000000000000000000000000001"

abbrev one_chunk : XorbInfo
one_chunk = record {
  num_chunks = 1;
  chunk_hashes = chunk_one ∷ [];
  chunk_boundary_offsets = 13 ∷ [];
  unpacked_chunk_offsets = 5 ∷ [];
}

-- A parser to which every xorb has one chunk.
abbrev one_chunk_xorbs : XetCore
one_chunk_xorbs = record {
  parse_chunk_header = λ s. none;
  decompress = λ scheme s. ok s;
  compute_data_hash = λ s. s;
  xorb_hash = λ chunks. hash_a;
  deserialize = λ s. some one_chunk;
  validate_xorb_object = λ s hash. ok (some one_chunk);
}

abbrev empty : AppState Objects
empty = record {
  file_index = record { file_index = []; file_ownership = [] };
  chunk_index = record { chunk_index = []; xorb_layout = [] };
  storage = [];
}

abbrev uploaded : AppState Objects
uploaded = (post_xorb memory one_chunk_xorbs json 1000 hash_a (codes "body") empty).1

upload_a :
    post_xorb memory one_chunk_xorbs json 1000 hash_a (codes "body") empty ≡ (ok true, uploaded)
unfolding post_xorb validate_hash xorb_exists head_object read_object validated_xorb_info
    has_unpacked_offsets layout_from_info layout_from put_xorb put_at put_batch locations
    put_xorb_layout
upload_a = refl

post_xorb-Uploaded_example :
    ((xorb_exists memory hash_a [] ≡ ok true) × (true ≡ false) × (uploaded ≡ empty))
    ⊎ ((xorb_exists memory hash_a [] ≡ ok false)
        × (true ≡ true)
        × Uploaded memory one_chunk_xorbs json 1000 hash_a (codes "body") empty uploaded)
post_xorb-Uploaded_example =
    post_xorb-Uploaded memory one_chunk_xorbs json 1000 hash_a (codes "body") empty uploaded true tt
      upload_a

abbrev stored : Objects
stored = (xorb_path hash_a, codes "0123456789") ∷ []

abbrev signed : XorbUrlParams
signed = record {
  r = some (span_text 2 9);
  exp = some 50;
  sig = some (signature plain key hash_a 2 9 50);
}

-- A request for the bytes from 3 to 4.
abbrev ranged : HeaderMap
ranged name = if eq_text name (codes "range") then some (some (codes "bytes=3-4")) else none

download_a :
    get_xorb memory plain provider keys false config key hash_a signed ranged 40 stored
    ≡ ok (206, codes "34")
unfolding get_xorb validate_hash parse_range_header is_signed verify_xorb_url in_span
    Storage.get_xorb_range read_object eq_text xorb_path strip_prefix split_once parse_u64
    parse_span span_text decimal mac mac_message signature
download_a = refl

get_xorb_sound_example :
    (◌≡◌ {A = Bool} false false)
    × (validate_hash hash_a ≡ ok tt)
    × (((is_signed signed ≡ false)
          × (c : Claims) × (authorize provider keys ranged config admin ≡ ok c))
        ⊎ ((span : ℕ × ℕ) × (r : ℕ × ℕ) × (verify_xorb_url plain key hash_a signed 40 ≡ ok span)
            × (parse_range_header ranged ≡ ok (some r))
            × (span.0 ≤ r.0)
            × (r.1 ≤ span.1)
            × (◌≡◌ {A = ℕ} 206 206)
            × (Storage.get_xorb_range memory hash_a r.0 ((r.1 + 1) % u64_mod) stored
                ≡ ok (codes "34"))))
get_xorb_sound_example =
    get_xorb_sound memory plain provider keys false config key hash_a signed ranged 40 stored
      (206, codes "34") refl download_a

hash_a-IsHash : IsHash hash_a
unfolding validate_hash
hash_a-IsHash = (validate_hash_iff hash_a).0 refl

get_xorb-signed_span_example :
    (40 ≤ 50)
    × (a : ℕ) × (b : ℕ) × (2 ≤ a)
    × (b ≤ 9)
    × (◌≡◌ {A = ℕ} 206 206)
    × (Storage.get_xorb_range memory hash_a a ((b + 1) % u64_mod) stored ≡ ok (codes "34"))
get_xorb-signed_span_example =
    get_xorb-signed_span memory plain provider keys false config key hash_a hash_a (span_text 2 9)
      ranged 50 50 40 2 9 stored (206, codes "34") refl hash_a-IsHash (omega arith)
      (omega arith, omega arith, omega arith) (λ a b e. e) download_a

range_3_4 : parse_range_header ranged ≡ ok (some (3, 4))
unfolding parse_range_header eq_text strip_prefix split_once parse_u64
range_3_4 = refl

get_xorb-signature_example :
    get_xorb memory plain provider keys false config key hash_a signed ranged 40 stored ≡ (
      lift_storage (Storage.get_xorb_range memory hash_a 3 (5 % u64_mod) stored) >>= λ bytes.
      ok (206, bytes))
get_xorb-signature_example =
    get_xorb-signature memory plain provider keys config key hash_a ranged 50 40 2 9 (3, 4) stored
      hash_a-IsHash (omega arith) (omega arith) (omega arith) range_3_4 (omega arith) (omega arith)
