-- ===== src/Collection/Archive/Tests.antt =====
-- A small tree of artifacts, collected.
use foxhole.Prelude.{
  ℕ, ◌≡◌, refl, [], ◌∷◌, List, some, ok, true, false, codes, Text, replicate, all, map,
  to_ascii_lower, arith,
}
use foxhole.Sandbox.FileName.{is_windows_file_name, passes_common, passes_windows_rules}
use foxhole.Collection.Archive.{
  Archive, ArchiveLimits, CollectedArtifact, Found, Tree, finished, entry, directory,
  charge_tree_entry, add_total_bytes, validate_relative_path, native_path, folded,
  register_archive_path, collect_file, collect_entries, collect_directory,
}
use foxhole.Collection.Archive.Bounds.{IsBounded, collect_directory-IsBounded}

abbrev limits : ArchiveLimits
limits = record { maximum_artifact_bytes = 64; maximum_total_bytes = 100; maximum_artifacts = 3 }

abbrev outside : List Text
outside = codes "guest-output" ∷ []

abbrev lower : Text → Text
lower = map to_ascii_lower

abbrev file : ℕ → Found
file size = record {
  inspected = true;
  is_link = false;
  is_file = true;
  size = size;
  directory_made = true;
  copied = some (replicate 64 b'a');
}

abbrev dumps : Tree
dumps =
    entry (codes "a.bin") (file 60)
      (directory (codes "sub") (entry (codes "b.bin") (file 40) finished) finished)

abbrev empty_archive : Archive
empty_archive = record { artifacts = []; archived_paths = []; total_bytes = 0; visited_entries = 0 }

abbrev artifact : List Text → ℕ → CollectedArtifact
artifact path size = record {
  relative_path = codes "guest-output" ∷ (codes "dumps" ∷ path);
  size_bytes = size;
  sha256 = replicate 64 b'a';
}

abbrev full_archive : Archive
full_archive = record {
  artifacts =
      artifact (codes "a.bin" ∷ []) 60 ∷ (artifact (codes "sub" ∷ (codes "b.bin" ∷ [])) 40 ∷ []);
  archived_paths = codes "guest-output/dumps/sub/b.bin" ∷ (codes "guest-output/dumps/a.bin" ∷ []);
  total_bytes = 100;
  visited_entries = 3;
}

prefix_is_safe : all is_windows_file_name outside ≡ true
unfolding is_windows_file_name passes_common passes_windows_rules
prefix_is_safe = refl

dumps_collected :
    collect_directory lower limits outside (codes "dumps" ∷ []) dumps empty_archive 0
    ≡ ok full_archive
unfolding is_windows_file_name passes_common passes_windows_rules collect_directory collect_entries
    collect_file register_archive_path folded native_path validate_relative_path add_total_bytes
    charge_tree_entry
dumps_collected = refl

empty_archive-IsBounded : IsBounded lower limits outside empty_archive
empty_archive-IsBounded = record {
  few = omega arith;
  small = refl;
  total = omega arith;
  within_total = omega arith;
  visited = omega arith;
  distinct = λ t. omega arith;
}

collect_directory-IsBounded_example : IsBounded lower limits outside full_archive
collect_directory-IsBounded_example =
    collect_directory-IsBounded lower limits outside prefix_is_safe (codes "dumps" ∷ []) dumps
      empty_archive full_archive 0 dumps_collected empty_archive-IsBounded
