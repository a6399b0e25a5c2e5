-- ===== src/Routes/Files.antt =====
-- Files, as their owners see them. Source: crates/server/src/routes/files.rs.
pub mod Isolation
pub mod Deletion
pub mod Detail
mod Tests
use openxet.Base.{
  Option, Result, any, err, guard, if◌then◌else◌, none, ok, some, ℕ, ◌++◌, ◌+◌, ◌>>=◌, ◌>>◌,
}
use openxet.Text.{Text, codes, eq_text, is_empty}
use openxet.Errors.{AppError, lift_storage}
use openxet.Auth.{Claims, admin, satisfies, owner}
use openxet.Pagination.{Base64, Page, clamp_limit, cursor_after, from_overfetched}
use openxet.Index.{FileListEntry}
use openxet.Index.Files.{FileIndex, file_claims}
use openxet.Index.Files as Index

unfoldable pub authorize_file_read : FileIndex → Claims → Text → Result AppError (Unit {0})
authorize_file_read idx claims file_id = if satisfies claims.scope admin then ok tt else do
  owners ← lift_storage (file_claims idx file_id)
  guard (any (λ c. eq_text c.owner (owner claims)) owners)
      (AppError.not_found (codes "file not found: " ++ file_id))

pub record ListFilesParams : Type 0 where
  pub cursor : Option Text
  pub limit : Option ℕ
  pub owner_id : Option Text

-- `filter(|s| !s.is_empty())`
unfoldable pub filter_empty : Option Text → Option Text
filter_empty none = none
filter_empty (some s) = if is_empty s then none else some s

-- Whose files are listed: an admin's choice, and the caller's own otherwise.
unfoldable pub own_files : Claims → Option Text → Result AppError (Option Text)
own_files claims none = ok (some (owner claims))
own_files claims (some o) =
    if eq_text o (owner claims)
    then ok (some (owner claims))
    else err (AppError.forbidden (codes "only admins can list another owner's files"))

unfoldable pub listed_owner : Claims → Option Text → Result AppError (Option Text)
unfolding own_files
listed_owner claims asked =
    if satisfies claims.scope admin then ok asked else own_files claims asked

module _ (b : Base64) where
  unfoldable pub list_files :
      FileIndex → Claims → ListFilesParams → Result AppError (Page FileListEntry)
  unfolding filter_empty listed_owner
  list_files idx claims params = do
    whose ← listed_owner claims (filter_empty params.owner_id)
    after ← cursor_after b (filter_empty params.cursor)
    ok (
        from_overfetched b (Index.list_files idx after whose (clamp_limit params.limit + 1))
          (clamp_limit params.limit) (λ e. e.file_hash))
