-- ===== src/Collection/Archive/Bounds.antt =====
-- What an archive of the guest's artifact tree never exceeds.
use mathlib.Core.Path.{subst}
use foxhole.Prelude.{
  ℕ, suc, ◌+◌, ◌≡◌, ◌≤◌, ◌<◌, refl, ◌∙◌, Bool, true, false, not, ◌&&◌, ◌||◌, List, [], ◌∷◌, ◌++◌,
  ltb, leb, if◌then◌else◌, ok, ok_eq, >>-eq-ok, >>=-eq-ok, refuse_if, refuse_if_ok, Text, has_text,
  ◌=text◌, =text_iff, all, all-append, count, count-append, length, length-append, arith,
  Bool-cases, inl, inr,
}
use foxhole.Report.Timeline.{u64_max}
use foxhole.Sandbox.FileName.{is_windows_file_name}
use foxhole.Collection.Archive.{
  ArchiveLimits, CollectedArtifact, Archive, Found, Tree, finished, broken, entry, directory,
  charge_tree_entry, add_total_bytes, validate_relative_path, copied_digest, folded,
  register_archive_path, collect_file, collect_entries, collect_directory, too_many_bytes,
  duplicate_path, uninspected, linked, irregular, over_limit, directory_failed, too_deep,
}

abbrev pub sizes : List CollectedArtifact → ℕ
sizes [] = 0
sizes (a ∷ rest) = a.size_bytes + sizes rest

sizes-append : (xs ys : List CollectedArtifact) → sizes (xs ++ ys) ≡ sizes xs + sizes ys
sizes-append [] ys = omega arith
sizes-append (x ∷ xs) ys = omega (arith, sizes-append xs ys)

validate_relative_path_ok :
    (path : List Text) → validate_relative_path path ≡ ok tt → all is_windows_file_name path ≡ true
unfolding validate_relative_path
validate_relative_path_ok [] h = refl
validate_relative_path_ok (name ∷ names) h = ground arith

module _ (to_lowercase : Text → Text) (limits : ArchiveLimits) (prefix : List Text) where
  -- One artifact within its size, under a path of safe names.
  abbrev pub is_small : CollectedArtifact → Bool
  is_small x =
      leb x.size_bytes limits.maximum_artifact_bytes && all is_windows_file_name x.relative_path

  -- An archive within the limits, whose paths differ without case.
  pub record IsBounded (a : Archive) : Type 0 where
    pub few : length a.artifacts ≤ limits.maximum_artifacts
    pub small : all is_small a.artifacts ≡ true
    pub total : sizes a.artifacts ≤ a.total_bytes
    pub within_total : a.total_bytes ≤ limits.maximum_total_bytes
    pub visited : a.visited_entries ≤ 4096
    pub distinct :
        (t : Text)
        → count (λ x. folded to_lowercase x.relative_path =text t) a.artifacts
          ≤ (if has_text t a.archived_paths then 1 else 0)

  distinct_paths :
      (key t : Text) (paths : List Text) (n : ℕ)
      → has_text key paths ≡ false
      → n ≤ (if has_text t paths then 1 else 0)
      → n + (if key =text t then 1 else 0) ≤ (if has_text t (key ∷ paths) then 1 else 0)
  distinct_paths key t paths n fresh few = elim (Bool-cases (key =text t)) [
    | inl same ↦
        let absent : has_text t paths ≡ false =
          subst (λ s. has_text s paths ≡ false) ((=text_iff key t).0 same) fresh in
        ground arith
    | inr other ↦ ground arith
  ]

  -- One more artifact.
  IsBounded-push :
      (a : Archive) (x : CollectedArtifact) (paths : List Text) (total : ℕ)
      → IsBounded a
      → length a.artifacts < limits.maximum_artifacts
      → is_small x ≡ true
      → has_text (folded to_lowercase x.relative_path) a.archived_paths ≡ false
      → folded to_lowercase x.relative_path ∷ a.archived_paths ≡ paths
      → a.total_bytes + x.size_bytes ≡ total
      → total ≤ limits.maximum_total_bytes
      → IsBounded (record a {
        artifacts = a.artifacts ++ x ∷ [];
        archived_paths = paths;
        total_bytes = total;
      })
  IsBounded-push a x paths total bounded room small fresh pathed added below = record {
    few = let grown = length-append a.artifacts (x ∷ []) in let few = bounded.few in omega arith;
    small = let former = bounded.small in all-append is_small a.artifacts (x ∷ []) ∙ ground arith;
    total =
        let grown = sizes-append a.artifacts (x ∷ []) in let former = bounded.total in omega arith;
    within_total = below;
    visited = bounded.visited;
    distinct = λ t.
        subst
          (λ ps.
            count (λ y. folded to_lowercase y.relative_path =text t) (a.artifacts ++ x ∷ [])
            ≤ (if has_text t ps then 1 else 0))
          pathed
          (let counted =
              count-append (λ y. folded to_lowercase y.relative_path =text t) a.artifacts
                (x ∷ []) in
            let once =
              distinct_paths (folded to_lowercase x.relative_path) t a.archived_paths
                (count (λ y. folded to_lowercase y.relative_path =text t) a.artifacts) fresh
                (bounded.distinct t) in
            ground (arith, counted, once));
  }

  collect_file-IsBounded :
      (relative : List Text) (f : Found) (a a' : Archive)
      → all is_windows_file_name prefix ≡ true
      → collect_file to_lowercase limits prefix relative f a ≡ ok a'
      → IsBounded a
      → IsBounded a'
  unfolding collect_file register_archive_path add_total_bytes
  collect_file-IsBounded relative f a a' safe collected bounded =
      let (_, h) = >>-eq-ok (refuse_if (not f.inspected) uninspected) _ collected in
      let (_, h) = >>-eq-ok (refuse_if f.is_link linked) _ h in
      let (_, h) = >>-eq-ok (refuse_if (not f.is_file) irregular) _ h in
      let (room, h) =
        >>-eq-ok
          (refuse_if
            (leb limits.maximum_artifacts (length a.artifacts)
              || ltb limits.maximum_artifact_bytes f.size)
            over_limit)
          _ h in
      let (valid, h) = >>-eq-ok (validate_relative_path relative) _ h in
      let (paths, registered, h) =
        >>=-eq-ok (register_archive_path to_lowercase (prefix ++ relative) a.archived_paths) _ h in
      let (_, h) = >>-eq-ok (refuse_if (not f.directory_made) directory_failed) _ h in
      let (total, added, h) = >>=-eq-ok (add_total_bytes a.total_bytes f.size limits) _ h in
      let (digest, copied, h) = >>=-eq-ok (copied_digest f.copied) _ h in
      let (fresh, pathed) =
        >>-eq-ok
          (refuse_if (has_text (folded to_lowercase (prefix ++ relative)) a.archived_paths)
            duplicate_path)
          _ registered in
      let (_, added) =
        >>-eq-ok (refuse_if (ltb u64_max (a.total_bytes + f.size)) too_many_bytes) _ added in
      let (below, added) =
        >>-eq-ok
          (refuse_if (ltb limits.maximum_total_bytes (a.total_bytes + f.size)) too_many_bytes) _
          added in
      let reached : a.total_bytes + f.size ≡ total = ok_eq added in
      let named = validate_relative_path_ok relative valid in
      let named_all = all-append is_windows_file_name prefix relative in
      subst IsBounded (ok_eq h) (
        IsBounded-push a
          (record { relative_path = prefix ++ relative; size_bytes = f.size; sha256 = digest })
          paths total bounded (ground arith) (ground arith) (refuse_if_ok _ duplicate_path fresh)
          (ok_eq pathed) reached (ground arith))

  -- The counting of one more entry.
  charged-IsBounded :
      (a : Archive) (visited : ℕ)
      → charge_tree_entry a.visited_entries ≡ ok visited
      → IsBounded a
      → IsBounded (record a { visited_entries = visited })
  unfolding charge_tree_entry
  charged-IsBounded a visited charged bounded = record {
    few = bounded.few;
    small = bounded.small;
    total = bounded.total;
    within_total = bounded.within_total;
    visited = ground arith;
    distinct = bounded.distinct;
  }

  collect_entries-IsBounded :
      all is_windows_file_name prefix ≡ true
      → (here : List Text) (tree : Tree) (a a' : Archive) (depth : ℕ)
      → collect_entries to_lowercase limits prefix here tree a depth ≡ ok a'
      → IsBounded a
      → IsBounded a'
  unfolding collect_entries
  collect_entries-IsBounded safe here finished a a' depth h bounded =
      subst IsBounded (ok_eq h) bounded
  collect_entries-IsBounded safe here broken a a' depth h bounded = absurd (ground arith)
  collect_entries-IsBounded safe here (entry name f behind) a a' depth h bounded =
      let (visited, charged, h) = >>=-eq-ok (charge_tree_entry a.visited_entries) _ h in
      let counted = charged-IsBounded a visited charged bounded in
      let (b, collected, h) =
        >>=-eq-ok
          (collect_file to_lowercase limits prefix (here ++ name ∷ []) f
            (record a { visited_entries = visited }))
          _ h in
      collect_entries-IsBounded safe here behind b a' depth h (
        collect_file-IsBounded (here ++ name ∷ []) f (record a { visited_entries = visited }) b safe
          collected counted)
  collect_entries-IsBounded safe here (directory name below behind) a a' depth h bounded =
      let (visited, charged, h) = >>=-eq-ok (charge_tree_entry a.visited_entries) _ h in
      let counted = charged-IsBounded a visited charged bounded in
      let (_, h) = >>-eq-ok (refuse_if (ltb 16 (suc depth)) too_deep) _ h in
      let (b, collected, h) =
        >>=-eq-ok
          (collect_entries to_lowercase limits prefix (here ++ name ∷ []) below
            (record a { visited_entries = visited }) (suc depth))
          _ h in
      collect_entries-IsBounded safe here behind b a' depth h (
        collect_entries-IsBounded safe (here ++ name ∷ []) below
          (record a { visited_entries = visited }) b (suc depth) collected counted)

  -- Whatever tree of files the guest left, collecting it keeps an archive within its limits: the
  -- number of artifacts, the size of each and of all, the entries looked at, names that are safe on
  -- Windows, and paths that differ without case. The archive's own directories have safe names.
  pub collect_directory-IsBounded :
      all is_windows_file_name prefix ≡ true
      → (here : List Text) (tree : Tree) (a a' : Archive) (depth : ℕ)
      → collect_directory to_lowercase limits prefix here tree a depth ≡ ok a'
      → IsBounded a
      → IsBounded a'
  unfolding collect_directory
  collect_directory-IsBounded safe here tree a a' depth h bounded =
      let (_, h) = >>-eq-ok (refuse_if (ltb 16 depth) too_deep) _ h in
      collect_entries-IsBounded safe here tree a a' depth h bounded
