-- ===== src/Routes/Files/Tests.antt =====
-- An index of a claimed and an unclaimed file, and the theorems about who sees them.
use openxet.Base.{[], err, false, keep, none, ok, refl, some, ◌++◌, ◌∷◌, ◌≡◌, ◌≢◌, ◌⊎◌}
use openxet.Text.{Text, codes, eq_text}
use openxet.Errors.{AppError}
use openxet.Hash.{validate_hash}
use openxet.Auth.{Claims, admin, write, satisfies, owner}
use openxet.Pagination.{Base64, Page, clamp_limit, cursor_after, from_overfetched}
use openxet.Sql.{order_by, is_after}
use openxet.Index.{FileListEntry}
use openxet.Index.Files.{FileIndex}
use openxet.Index.Files as Index
use openxet.Index.Files.Claims.{held}
use openxet.Routes.Files.{ListFilesParams, list_files, authorize_file_read}
use openxet.Routes.Files.Deletion.{delete_file, delete_file-held}
use openxet.Routes.Files.Isolation.{authorize_file_read-held, list_files-held, AllHeld}

abbrev file_a : Text
file_a = codes "00000000000000000000000000000000000000000000000000000000000000aa"

abbrev file_b : Text
file_b = codes "00000000000000000000000000000000000000000000000000000000000000bb"

abbrev shard_c : Text
shard_c = codes "00000000000000000000000000000000000000000000000000000000000000cc"

abbrev alice : Claims
alice = record { scope = write; repo = []; exp = 99; sub = codes "alice" }

abbrev shared : FileIndex
shared = record {
  file_index =
      record { file_hash = file_a; shard_hash = shard_c }
      ∷ record { file_hash = file_b; shard_hash = shard_c }
      ∷ [];
  file_ownership =
      record {
        file_hash = file_a;
        owner_id = codes "alice";
        logical_bytes = 10;
        created_at_unix = 7;
      }
      ∷ [];
}

file_b-valid : validate_hash file_b ≡ ok tt
unfolding validate_hash
file_b-valid = refl

alice_is_no_admin : satisfies alice.scope admin ≡ false
unfolding satisfies
alice_is_no_admin = refl

authorize_file_read-held_example :
    ((authorize_file_read shared alice file_b ≡ ok tt)
      × (held (owner alice) file_b shared.file_ownership ≢ none))
    ⊎ ((authorize_file_read shared alice file_b
          ≡ err (AppError.not_found (codes "file not found: " ++ file_b)))
        × (held (owner alice) file_b shared.file_ownership ≡ none))
authorize_file_read-held_example =
    authorize_file_read-held shared alice file_b alice_is_no_admin file_b-valid

-- A codec that is the identity.
abbrev plain : Base64
plain = record {
  encode = λ b. b;
  decode = λ s. some s;
  decode_encode = λ b. refl;
  encode_nonempty = λ b n. n;
}

abbrev every_file : ListFilesParams
every_file = record { cursor = none; limit = none; owner_id = none }

abbrev page_of_alice : Page FileListEntry
page_of_alice = record {
  items = record { file_hash = file_a; shard_hash = shard_c; logical_bytes = 10 } ∷ [];
  next_cursor = none;
}

alice_lists : list_files plain shared alice every_file ≡ ok page_of_alice
unfolding list_files Index.list_files Index.listed from_overfetched clamp_limit satisfies
    cursor_after order_by keep eq_text owner is_after
alice_lists = refl

list_files-held_example : AllHeld (owner alice) shared.file_ownership page_of_alice.items
list_files-held_example =
    list_files-held plain shared alice every_file page_of_alice alice_is_no_admin alice_lists

abbrev bob : Claims
bob = record { scope = write; repo = []; exp = 99; sub = codes "bob" }

alice_is_not_bob : codes "alice" ≢ owner bob
unfolding owner
alice_is_not_bob = λ e. cc

alice_holds : held (codes "alice") file_a shared.file_ownership ≢ none
unfolding held eq_text
alice_holds = λ e. cc

delete_file-held_example :
    ((g : Text)
      → held (codes "alice") g (delete_file shared bob file_a).1.file_ownership
        ≡ held (codes "alice") g shared.file_ownership)
    × ((delete_file shared bob file_a).1.file_index ≡ shared.file_index)
delete_file-held_example =
    delete_file-held shared bob file_a (codes "alice") alice_is_not_bob alice_holds
