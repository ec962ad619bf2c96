-- ===== src/WeightSync.antt =====
-- lumenrl/trainer/weight_sync.py: class FilesystemWeightSync, snapshots of weights in the directories
-- of one parent directory. What is written into a snapshot is left out, and so is the name of the
-- parent. Versions are not negative.
pub mod Kept
use lumen_rl.Base.{
  ℕ, suc, ◌+◌, ◌-◌, max, Bool, true, false, not, ◌||◌, List, [], ◌∷◌, ◌++◌, if◌then◌else◌, ◌==◌,
  ltb, leb, length, take, sort_by, Option, some, none, Result, ok, err, ◌>>=◌, value_error,
}

-- A directory: `v3`, one whose name begins with `v` but is no number after it, or any other.
pub data Dir : Type 0 where
  snapshot : ℕ → Dir
  other_v other_dir : Dir

pub record Sync : Type 0 where
  pub keep_versions : ℕ
  pub version : ℕ
  pub dirs : List Dir

unfoldable pub is_snapshot : ℕ → Dir → Bool
is_snapshot v (snapshot n) = n == v
is_snapshot v other_v = false
is_snapshot v other_dir = false

unfoldable pub has_snapshot : ℕ → List Dir → Bool
unfolding is_snapshot
has_snapshot v [] = false
has_snapshot v (d ∷ ds) = is_snapshot v d || has_snapshot v ds

-- `mkdir(exist_ok=True)`.
unfoldable pub make_dir : ℕ → List Dir → List Dir
unfolding has_snapshot
make_dir v ds = if has_snapshot v ds then ds else ds ++ snapshot v ∷ []

-- The versions of the directories whose names begin with `v`.
unfoldable pub versions_of : List Dir → Result (List ℕ)
versions_of [] = ok []
versions_of (snapshot n ∷ ds) = do vs ← versions_of ds; ok (n ∷ vs)
versions_of (other_v ∷ ds) = err value_error
versions_of (other_dir ∷ ds) = versions_of ds

-- `shutil.rmtree`.
unfoldable pub remove_dir : ℕ → List Dir → List Dir
unfolding is_snapshot
remove_dir v [] = []
remove_dir v (d ∷ ds) = if is_snapshot v d then remove_dir v ds else d ∷ remove_dir v ds

unfoldable pub remove_all : List ℕ → List Dir → List Dir
unfolding remove_dir
remove_all [] ds = ds
remove_all (v ∷ vs) ds = remove_all vs (remove_dir v ds)

-- `_cleanup_old_versions`: the loop removes the least versions while there are too many.
unfoldable pub cleanup_old_versions : ℕ → List Dir → Result (List Dir)
unfolding versions_of remove_all
cleanup_old_versions keep ds = do
  vs ← versions_of ds
  ok (remove_all (take (length vs - keep) (sort_by leb vs)) ds)

unfoldable pub next_version : Option ℕ → ℕ → ℕ
next_version (some version) current = version
next_version none current = suc current

-- `push`, with the version of the snapshot whose path it returns.
unfoldable pub push : Option ℕ → Sync → Result (Sync × ℕ)
unfolding next_version make_dir cleanup_old_versions
push version s = do
  let v = next_version version s.version
  ds ← cleanup_old_versions s.keep_versions (make_dir v s.dirs)
  ok (record s { version = v; dirs = ds }, v)

-- `latest_path`, by its version.
unfoldable pub latest_path : Sync → Option ℕ
unfolding has_snapshot
latest_path s = if has_snapshot s.version s.dirs then some s.version else none

-- `latest_version`.
unfoldable pub latest_from : List Dir → ℕ
latest_from [] = 0
latest_from (snapshot n ∷ ds) = max n (latest_from ds)
latest_from (other_v ∷ ds) = latest_from ds
latest_from (other_dir ∷ ds) = latest_from ds

unfoldable pub latest_version : Sync → ℕ
unfolding latest_from
latest_version s = latest_from s.dirs
