-- ===== src/Review/Change/Laws.antt =====
-- What `Validate` of a change key and of a snapshot accepts.
use review.Base.{String, true, false, ◌≡◌, ◌≢◌, ◌⊎◌, ◌↔◌, none, eq_iff, arith}
use review.Base.Text.{is_blank}
use review.Review.Change.{
  ChangeKey, SnapshotIdentity, validate_change_key, validate_snapshot, analysis_revision,
}

abbrev pub IsGiven : String → Type 0
IsGiven s = is_blank s ≡ false

-- A local change is named by its workspace and comparison, any other by its host and number.
abbrev pub Names : ChangeKey → Type 0
Names k =
    ((k.provider ≡ "local") × IsGiven k.workspace_id × IsGiven k.comparison_id)
    ⊎ ((k.provider ≢ "local") × IsGiven k.host × IsGiven k.change_number)

-- A change key is accepted exactly if provider and repository are given and the provider's own
-- identifiers are too: workspace and comparison for "local", host and change number otherwise.
pub validate_change_key_iff :
    (k : ChangeKey)
    → (validate_change_key k ≡ none) ↔ (IsGiven k.provider × IsGiven k.repository_id × Names k)
unfolding validate_change_key
validate_change_key_iff k =
    (λ h. ground (arith, eq_iff k.provider "local"), λ h. ground (arith, eq_iff k.provider "local"))

abbrev pub IsAbsent : String → Type 0
IsAbsent s = is_blank s ≡ true

-- The head of a change, with no merge revision.
abbrev pub IsSource : SnapshotIdentity → Type 0
IsSource s =
    IsGiven s.head_revision
    × IsGiven s.base_revision
    × IsAbsent s.local_snapshot_digest
    × IsAbsent s.synthetic_merge_revision
    × IsAbsent s.source_to_merge_mapping_digest

-- A synthetic merge of the head into its base, which is neither of them.
abbrev pub IsMerge : SnapshotIdentity → Type 0
IsMerge s =
    IsGiven s.head_revision
    × IsGiven s.base_revision
    × IsAbsent s.local_snapshot_digest
    × IsGiven s.synthetic_merge_revision
    × IsGiven s.source_to_merge_mapping_digest
    × (s.synthetic_merge_revision ≢ s.head_revision)
    × (s.synthetic_merge_revision ≢ s.base_revision)

-- A local snapshot, named by its digest alone.
abbrev pub IsWorkspace : SnapshotIdentity → Type 0
IsWorkspace s =
    IsAbsent s.head_revision
    × IsGiven s.local_snapshot_digest
    × IsAbsent s.synthetic_merge_revision
    × IsAbsent s.source_to_merge_mapping_digest

abbrev pub HasShape : SnapshotIdentity → Type 0
HasShape s = IsSource s ⊎ (IsMerge s ⊎ IsWorkspace s)

-- A snapshot is accepted exactly if repository and manifest are given and it is one of three: a
-- source head, a synthetic merge that differs from head and base, or a local snapshot.
pub validate_snapshot_iff :
    (s : SnapshotIdentity)
    → (validate_snapshot s ≡ none)
      ↔ (IsGiven s.repository_id × IsGiven s.file_manifest_digest × HasShape s)
unfolding validate_snapshot
validate_snapshot_iff s = (
  λ h. ground (
    arith,
    eq_iff s.synthetic_merge_revision s.head_revision,
    eq_iff s.synthetic_merge_revision s.base_revision,
  ),
  λ h. ground (
    arith,
    eq_iff s.synthetic_merge_revision s.head_revision,
    eq_iff s.synthetic_merge_revision s.base_revision,
  ),
)

-- The revision that is analysed, by the shape of the snapshot.
abbrev pub Analyses : SnapshotIdentity → Type 0
Analyses s =
    (IsSource s × (analysis_revision s ≡ s.head_revision))
    ⊎ ((IsMerge s × (analysis_revision s ≡ s.synthetic_merge_revision))
        ⊎ (IsWorkspace s × (analysis_revision s ≡ s.local_snapshot_digest)))

-- Of an accepted snapshot the analysed revision is never blank, and it is the merge revision of a
-- synthetic merge, the head of a source snapshot and the digest of a local one.
pub analysis_revision-IsGiven :
    (s : SnapshotIdentity) → validate_snapshot s ≡ none → IsGiven (analysis_revision s) × Analyses s
unfolding analysis_revision
analysis_revision-IsGiven s h = ground (arith, (validate_snapshot_iff s).0 h)
