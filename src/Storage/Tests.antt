-- ===== src/Storage/Tests.antt =====
-- The theorem about writing a xorb, at an empty store. Source:
-- crates/server/src/storage/object_store_backend.rs.
use openxet.Base.{[], false, ok, refl, true, ◌∷◌, ◌≡◌}
use openxet.Text.{codes}
use openxet.Auth.Samples.{hash_a}
use openxet.Hash.{validate_hash}
use openxet.Storage.{get_xorb, put_xorb, xorb_path}
use openxet.Storage.Memory.{Objects, memory, head_object}
use openxet.Storage.Blobs.{put_xorb-get_xorb}

abbrev no_objects : Objects
no_objects = []

abbrev one_object : Objects
one_object = (xorb_path hash_a, codes "xorb") ∷ []

first_write : put_xorb memory hash_a (codes "xorb") no_objects ≡ (ok true, one_object)
unfolding put_xorb validate_hash head_object
first_write = refl

put_xorb-get_xorb_example :
    (get_xorb memory hash_a one_object ≡ ok (codes "xorb"))
    × (put_xorb memory hash_a (codes "other") one_object ≡ (ok false, one_object))
put_xorb-get_xorb_example =
    put_xorb-get_xorb memory hash_a (codes "xorb") (codes "other") no_objects one_object first_write
