-- ===== src/Collection/Archive.antt =====
-- The copying of the guest's artifact tree: `collect_directory`, `charge_tree_entry`,
-- `register_archive_path`, `add_total_bytes` and `validate_relative_path` of
-- src/sandbox/hyperv/result_collector.rs.
pub mod Bounds
mod Tests
use foxhole.Prelude.{
  ℕ, suc, ◌+◌, Bool, true, false, not, ◌||◌, List, [], ◌∷◌, ◌++◌, map, Option, none, some, ltb, leb,
  ◌==◌, if◌then◌else◌, Result, ok, err, ◌>>◌, ◌>>=◌, refuse_if, Text, has_text, all, length,
}
use foxhole.Report.Timeline.{u64_max}
use foxhole.Sandbox.FileName.{is_windows_file_name}

-- The reasons of a refusal, by their messages.
pub data ArchiveError : Type 0 where
  too_deep unreadable_entry too_many_tree_entries uninspected linked irregular : ArchiveError
  over_limit unsafe_path duplicate_path directory_failed too_many_bytes copy_failed : ArchiveError

pub record ArchiveLimits : Type 0 where
  pub maximum_artifact_bytes : ℕ
  pub maximum_total_bytes : ℕ
  pub maximum_artifacts : ℕ

-- A path is its components.
pub record CollectedArtifact : Type 0 where
  pub relative_path : List Text
  pub size_bytes : ℕ
  pub sha256 : Text

pub record Archive : Type 0 where
  pub artifacts : List CollectedArtifact
  pub archived_paths : List Text
  pub total_bytes : ℕ
  pub visited_entries : ℕ

-- What is found of an entry that is no directory: its metadata, whether the archive's directory
-- can be made, and the digest of the copy if the file can be copied at its length.
pub record Found : Type 0 where
  pub inspected : Bool
  pub is_link : Bool
  pub is_file : Bool
  pub size : ℕ
  pub directory_made : Bool
  pub copied : Option Text

-- A directory as it is enumerated: its entries in order, the end, or an error.
pub data Tree : Type 0 where
  finished broken : Tree
  entry : (name : Text) → Found → (behind : Tree) → Tree
  directory : (name : Text) → (below behind : Tree) → Tree

unfoldable pub charge_tree_entry : ℕ → Result ArchiveError ℕ
charge_tree_entry visited_entries = do
  refuse_if (ltb u64_max (suc visited_entries)) too_many_tree_entries
  refuse_if (ltb 4096 (suc visited_entries)) too_many_tree_entries
  ok (suc visited_entries)

unfoldable pub add_total_bytes : ℕ → ℕ → ArchiveLimits → Result ArchiveError ℕ
add_total_bytes total additional limits = do
  refuse_if (ltb u64_max (total + additional)) too_many_bytes
  refuse_if (ltb limits.maximum_total_bytes (total + additional)) too_many_bytes
  ok (total + additional)

-- The names follow the rules that `validate_file_name_component` has on Windows, where Hyper-V runs.
unfoldable pub validate_relative_path : List Text → Result ArchiveError (Unit {0})
validate_relative_path [] = err unsafe_path
validate_relative_path (name ∷ names) =
    refuse_if (not (all is_windows_file_name (name ∷ names))) unsafe_path

-- `path.to_string_lossy().replace('\\', "/")`
unfoldable pub native_path : List Text → Text
native_path [] = []
native_path (name ∷ []) = name
native_path (name ∷ (next ∷ names)) = name ++ 0x5c ∷ native_path (next ∷ names)

abbrev pub forward : ℕ → ℕ
forward c = if c == 0x5c then 0x2f else c

-- `copy_new_bounded(...)?`
abbrev pub copied_digest : Option Text → Result ArchiveError Text
copied_digest none = err copy_failed
copied_digest (some digest) = ok digest

-- `str::to_lowercase` is a parameter.
module _ (to_lowercase : Text → Text) where
  unfoldable pub folded : List Text → Text
  folded path = to_lowercase (map forward (native_path path))

  unfoldable pub register_archive_path : List Text → List Text → Result ArchiveError (List Text)
  register_archive_path path paths = do
    refuse_if (has_text (folded path) paths) duplicate_path
    ok (folded path ∷ paths)

-- The limits and `directory_prefix` stay the same throughout.
module _ (to_lowercase : Text → Text) (limits : ArchiveLimits) (prefix : List Text) where
  -- An entry that is no directory.
  unfoldable pub collect_file :
      (relative : List Text) → Found → Archive → Result ArchiveError Archive
  collect_file relative f archive = do
    refuse_if (not f.inspected) uninspected
    refuse_if f.is_link linked
    refuse_if (not f.is_file) irregular
    refuse_if
        (leb limits.maximum_artifacts (length archive.artifacts)
          || ltb limits.maximum_artifact_bytes f.size)
        over_limit
    validate_relative_path relative
    paths ← register_archive_path to_lowercase (prefix ++ relative) archive.archived_paths
    refuse_if (not f.directory_made) directory_failed
    total ← add_total_bytes archive.total_bytes f.size limits
    digest ← copied_digest f.copied
    let artifact : CollectedArtifact = record {
      relative_path = prefix ++ relative;
      size_bytes = f.size;
      sha256 = digest;
    } in
        ok (record archive {
          artifacts = archive.artifacts ++ artifact ∷ [];
          archived_paths = paths;
          total_bytes = total;
        })

  -- The loop over the entries of the directory `here`.
  unfoldable pub collect_entries :
      (here : List Text) → Tree → Archive → (depth : ℕ) → Result ArchiveError Archive
  collect_entries here finished archive depth = ok archive
  collect_entries here broken archive depth = err unreadable_entry
  collect_entries here (entry name f behind) archive depth = do
    visited ← charge_tree_entry archive.visited_entries
    archive' ← collect_file (here ++ name ∷ []) f (record archive { visited_entries = visited })
    collect_entries here behind archive' depth
  collect_entries here (directory name below behind) archive depth = do
    visited ← charge_tree_entry archive.visited_entries
    refuse_if (ltb 16 (suc depth)) too_deep
    archive' ←
        collect_entries (here ++ name ∷ []) below (record archive { visited_entries = visited })
          (suc depth)
    collect_entries here behind archive' depth

  unfoldable pub collect_directory :
      (here : List Text) → Tree → Archive → (depth : ℕ) → Result ArchiveError Archive
  collect_directory here tree archive depth = do
    refuse_if (ltb 16 depth) too_deep
    collect_entries here tree archive depth
