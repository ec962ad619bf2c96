-- ===== src/Tests/Snapshots.antt =====
-- Three pushes with two versions kept, and a push of an older version.
use lumen_rl.Base.{suc, ◌≡◌, refl, [], ◌∷◌, arith, ok, some, none}
use lumen_rl.WeightSync.{
  Sync, snapshot, other_dir, push, next_version, make_dir, has_snapshot, is_snapshot, versions_of,
  remove_dir, remove_all, cleanup_old_versions, latest_path, latest_version,
}
use lumen_rl.WeightSync.Kept.{Bounded, push-latest}

abbrev two_kept : Sync
two_kept = record {
  keep_versions = 2;
  version = 7;
  dirs = snapshot 6 ∷ other_dir ∷ snapshot 7 ∷ [];
}

push-run :
    push none two_kept
    ≡ ok (
      record { keep_versions = 2; version = 8; dirs = other_dir ∷ snapshot 7 ∷ snapshot 8 ∷ [] },
      8,
    )
unfolding push next_version make_dir has_snapshot is_snapshot versions_of remove_dir remove_all
    cleanup_old_versions
push-run = refl

push-older :
    push (some 3) two_kept
    ≡ ok (
      record { keep_versions = 2; version = 3; dirs = snapshot 6 ∷ other_dir ∷ snapshot 7 ∷ [] },
      3,
    )
unfolding push next_version make_dir has_snapshot is_snapshot versions_of remove_dir remove_all
    cleanup_old_versions
push-older = refl

push-latest_example :
    (s' : Sync) × (push none two_kept ≡ ok (s', 8))
    × (latest_path s' ≡ some 8)
    × (latest_version s' ≡ 8)
    × Bounded (suc s'.version) s'.dirs
push-latest_example = push-latest two_kept (omega arith) (omega arith, (omega arith, tt))
