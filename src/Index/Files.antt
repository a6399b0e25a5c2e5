-- ===== src/Index/Files.antt =====
-- The file index: `file_hash → shard_hash`, and the ownership claims on files.
-- Source: crates/server/src/storage/index/sqlite_index.rs, with the tables of
-- crates/server/migrations/sqlite/0001_init.sql as lists of rows. Failures of the database itself
-- are not modelled: a statement runs, and a transaction runs whole.
pub mod Keys
pub mod Claims
use openxet.Base.{
  Bool, List, Option, Result, [], any, false, keep, length, map, max, none, not, ok, some, take,
  true, ℕ, ◌&&◌, ◌+◌, ◌>>=◌, ◌>>◌, ◌∷◌,
}
use openxet.Text.{Text, eq_text}
use openxet.Errors.{StorageError}
use openxet.Hash.{validate_hash}
use openxet.Sql.{order_by, is_after}
use openxet.Index.{OwnershipClaim, OwnerUsage, OwnerClaim, FileListEntry, UsageReport}

pub record FileRow : Type 0 where
  pub file_hash : Text
  pub shard_hash : Text

pub record OwnershipRow : Type 0 where
  pub file_hash : Text
  pub owner_id : Text
  pub logical_bytes : ℕ
  pub created_at_unix : ℕ

pub record FileIndex : Type 0 where
  pub file_index : List FileRow
  pub file_ownership : List OwnershipRow

-- SELECT shard_hash FROM file_index WHERE file_hash = $1
unfoldable pub select_shard : Text → List FileRow → Option Text
select_shard h [] = none
select_shard h (r ∷ rs) = elim (eq_text r.file_hash h) [
  | true ↦ some r.shard_hash
  | false ↦ select_shard h rs
]

unfoldable pub get : FileIndex → Text → Result StorageError (Option Text)
unfolding select_shard
get idx file_hash = do validate_hash file_hash; ok (select_shard file_hash idx.file_index)

-- INSERT INTO file_index … ON CONFLICT (file_hash) DO UPDATE SET shard_hash
upsert_file : Text → Text → List FileRow → List FileRow
upsert_file h s [] = record { file_hash = h; shard_hash = s } ∷ []
upsert_file h s (r ∷ rs) = elim (eq_text r.file_hash h) [
  | true ↦ record r { shard_hash = s } ∷ rs
  | false ↦ r ∷ upsert_file h s rs
]

unfoldable pub put : FileIndex → Text → Text → Result StorageError FileIndex
unfolding upsert_file
put idx file_hash shard_hash = do
  validate_hash file_hash
  validate_hash shard_hash
  ok (record idx { file_index = upsert_file file_hash shard_hash idx.file_index })

unfoldable pub list_all : FileIndex → List (Text × Text)
list_all idx = map (λ r. (r.file_hash, r.shard_hash)) idx.file_index

unfoldable pub remove : FileIndex → Text → Result StorageError FileIndex
remove idx file_hash = do
  validate_hash file_hash
  ok (record {
    file_index = keep (λ r. not (eq_text r.file_hash file_hash)) idx.file_index;
    file_ownership = keep (λ o. not (eq_text o.file_hash file_hash)) idx.file_ownership;
  })

abbrev pub is_claim : Text → Text → OwnershipRow → Bool
is_claim owner file_hash o = eq_text o.file_hash file_hash && eq_text o.owner_id owner

-- INSERT INTO file_ownership … ON CONFLICT (file_hash, owner_id) DO UPDATE SET logical_bytes
upsert_claim : Text → Text → OwnershipClaim → List OwnershipRow → List OwnershipRow
upsert_claim owner h c [] =
    record {
      file_hash = h;
      owner_id = owner;
      logical_bytes = c.logical_bytes;
      created_at_unix = c.created_at_unix;
    }
    ∷ []
upsert_claim owner h c (o ∷ os) = elim (is_claim owner h o) [
  | true ↦ record o { logical_bytes = c.logical_bytes } ∷ os
  | false ↦ o ∷ upsert_claim owner h c os
]

unfoldable pub claim : FileIndex → Text → Text → OwnershipClaim → Result StorageError FileIndex
unfolding upsert_claim
claim idx owner file_hash c = do
  validate_hash file_hash
  ok (record idx { file_ownership = upsert_claim owner file_hash c idx.file_ownership })

-- DELETE … WHERE file_hash = $1 AND owner_id = $2, and whether it affected a row.
unfoldable pub release : FileIndex → Text → Text → Result StorageError (FileIndex × Bool)
release idx owner file_hash = do
  validate_hash file_hash
  ok (
    record idx { file_ownership = keep (λ o. not (is_claim owner file_hash o)) idx.file_ownership },
    any (is_claim owner file_hash) idx.file_ownership,
  )

abbrev pub owner_claim : OwnershipRow → OwnerClaim
owner_claim o = record {
  owner = o.owner_id;
  logical_bytes = o.logical_bytes;
  created_at_unix = o.created_at_unix;
}

unfoldable pub file_claims : FileIndex → Text → Result StorageError (List OwnerClaim)
file_claims idx file_hash = do
  validate_hash file_hash
  ok (
      map owner_claim
        (order_by (λ o. o.owner_id) (keep (λ o. eq_text o.file_hash file_hash) idx.file_ownership)))

-- COALESCE(MAX(logical_bytes), 0) over the claims on a file
max_bytes : Text → List OwnershipRow → ℕ
max_bytes h [] = 0
max_bytes h (o ∷ os) = elim (eq_text o.file_hash h) [
  | true ↦ max o.logical_bytes (max_bytes h os)
  | false ↦ max_bytes h os
]

abbrev listed_file : List OwnershipRow → FileRow → FileListEntry
listed_file os r = record {
  file_hash = r.file_hash;
  shard_hash = r.shard_hash;
  logical_bytes = max_bytes r.file_hash os;
}

-- FROM file_ownership o JOIN file_index f ON f.file_hash = o.file_hash WHERE o.owner_id = $1
unfoldable pub join_owned : Text → List FileRow → List OwnershipRow → List FileListEntry
join_owned owner files [] = []
join_owned owner files (o ∷ os) =
    let rest = join_owned owner files os in
    elim (eq_text o.owner_id owner) [
      | true ↦ elim (select_shard o.file_hash files) [
        | none ↦ rest
        | some s ↦
            record { file_hash = o.file_hash; shard_hash = s; logical_bytes = o.logical_bytes }
            ∷ rest
      ]
      | false ↦ rest
    ]

-- The rows of the listing query before its WHERE on the key.
unfoldable pub listed : FileIndex → Option Text → List FileListEntry
unfolding max_bytes join_owned select_shard
listed idx none = map (listed_file idx.file_ownership) idx.file_index
listed idx (some owner) = join_owned owner idx.file_index idx.file_ownership

unfoldable pub list_files : FileIndex → Option Text → Option Text → ℕ → List FileListEntry
list_files idx after owner limit =
    take limit
      (order_by (λ e. e.file_hash) (keep (is_after (λ e. e.file_hash) after) (listed idx owner)))

-- GROUP BY owner_id with COUNT(*) and SUM(logical_bytes)
charge : OwnershipRow → List OwnerUsage → List OwnerUsage
charge o [] = record { owner = o.owner_id; file_count = 1; logical_bytes = o.logical_bytes } ∷ []
charge o (u ∷ us) = elim (eq_text u.owner o.owner_id) [
  | true ↦
      record u { file_count = u.file_count + 1; logical_bytes = u.logical_bytes + o.logical_bytes }
      ∷ us
  | false ↦ u ∷ charge o us
]

owner_usage : List OwnershipRow → List OwnerUsage
owner_usage [] = []
owner_usage (o ∷ os) = charge o (owner_usage os)

-- GROUP BY file_hash with MAX(logical_bytes)
group_file : OwnershipRow → List (Text × ℕ) → List (Text × ℕ)
group_file o [] = (o.file_hash, o.logical_bytes) ∷ []
group_file o ((h, n) ∷ fs) = elim (eq_text h o.file_hash) [
  | true ↦ (h, max n o.logical_bytes) ∷ fs
  | false ↦ (h, n) ∷ group_file o fs
]

per_file : List OwnershipRow → List (Text × ℕ)
per_file [] = []
per_file (o ∷ os) = group_file o (per_file os)

sum_bytes : List (Text × ℕ) → ℕ
sum_bytes [] = 0
sum_bytes ((h, n) ∷ fs) = n + sum_bytes fs

unfoldable pub usage : FileIndex → UsageReport
unfolding owner_usage charge per_file group_file sum_bytes
usage idx = record {
  owners = order_by (λ u. u.owner) (owner_usage idx.file_ownership);
  claimed_files = length (per_file idx.file_ownership);
  unique_file_bytes = sum_bytes (per_file idx.file_ownership);
}
