-- ===== src/Review/Change.antt =====
-- agent/review/domain.go: the change under review and the snapshot that is analysed.
pub mod Laws
use review.Base.{
  String, Bool, true, false, not, ◌||◌, ◌&&◌, Option, none, str_eq, Error, new, ◌>>◌, fail_if,
  if◌then◌else◌,
}
use review.Base.Text.{is_blank}

pub record ChangeKey : Type 0 where
  pub provider : String
  pub host : String
  pub repository_id : String
  pub change_number : String
  pub workspace_id : String
  pub comparison_id : String

unfoldable pub validate_change_key : ChangeKey → Option Error
validate_change_key k = do
  fail_if (is_blank k.provider) (new "change key provider is required")
  fail_if (is_blank k.repository_id) (new "change key repository ID is required")
  if str_eq k.provider "local"
      then fail_if (is_blank k.workspace_id || is_blank k.comparison_id)
          (new "local change key requires workspace and comparison IDs")
      else fail_if (is_blank k.host || is_blank k.change_number)
          (new "SCM change key requires host and change number")

pub record SnapshotIdentity : Type 0 where
  pub repository_id : String
  pub base_revision : String
  pub head_revision : String
  pub synthetic_merge_revision : String
  pub source_to_merge_mapping_digest : String
  pub local_snapshot_digest : String
  pub file_manifest_digest : String

-- `a == b` on Go's bool
abbrev pub same_bool : Bool → Bool → Bool
same_bool true b = b
same_bool false b = not b

-- The `if ... else if` on the synthetic merge revision.
unfoldable pub validate_synthetic_merge : SnapshotIdentity → Option Error
validate_synthetic_merge s =
    if not (is_blank s.synthetic_merge_revision)
    then (do
      fail_if (is_blank s.head_revision)
          (new "synthetic merge snapshot requires a source head revision")
      fail_if
          (str_eq s.synthetic_merge_revision s.head_revision
            || str_eq s.synthetic_merge_revision s.base_revision)
          (new "synthetic merge revision must differ from source head and base")
      fail_if (is_blank s.source_to_merge_mapping_digest)
          (new "synthetic merge snapshot requires a source-to-merge mapping digest"))
    else fail_if (not (is_blank s.source_to_merge_mapping_digest))
        (new "source-to-merge mapping requires a synthetic merge revision")

unfoldable pub validate_snapshot : SnapshotIdentity → Option Error
unfolding validate_synthetic_merge
validate_snapshot s = do
  fail_if (is_blank s.repository_id) (new "snapshot repository ID is required")
  fail_if (is_blank s.file_manifest_digest) (new "snapshot file manifest digest is required")
  fail_if (same_bool (is_blank s.head_revision) (is_blank s.local_snapshot_digest))
      (new "snapshot requires exactly one of head revision or local digest")
  fail_if (not (is_blank s.head_revision) && is_blank s.base_revision)
      (new "SCM snapshot requires a base revision")
  validate_synthetic_merge s

unfoldable pub analysis_revision : SnapshotIdentity → String
analysis_revision s =
    if not (is_blank s.synthetic_merge_revision)
    then s.synthetic_merge_revision
    else if not (is_blank s.head_revision)
    then s.head_revision
    else s.local_snapshot_digest
