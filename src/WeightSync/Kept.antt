-- ===== src/WeightSync/Kept.antt =====
-- The newest snapshot is there after a push.
use lumen_rl.Base.{
  ℕ, zero, suc, ◌-◌, ◌≤◌, ◌<◌, ◌≡◌, refl, sym, subst, ap, ◌∙◌, true, false, List, [], ◌∷◌, ◌++◌,
  ◌==◌, ==_iff, leb, length, length-append, take, sort_by, insert_by, length-sort_by, All,
  All-sort_by, some, none, ok, ◌>>=◌, arith, Bool-cases, leb→le, inl, inr,
}
use lumen_rl.WeightSync.{
  Dir, Sync, snapshot, other_v, other_dir, is_snapshot, has_snapshot, make_dir, versions_of,
  remove_dir, remove_all, cleanup_old_versions, next_version, push, latest_path, latest_from,
  latest_version,
}

insert_by-last :
    (x m : ℕ) (ys : List ℕ) → x < m → insert_by leb x (ys ++ m ∷ []) ≡ insert_by leb x ys ++ m ∷ []
insert_by-last x m [] h = elim (Bool-cases (leb m x)) [
  | inl over ↦ absurd (omega (arith, leb→le m x over))
  | inr under ↦ rw (under, insert_by) refl
]
insert_by-last x m (y ∷ ys) h = elim (Bool-cases (leb y x)) [
  | inl over ↦ rw (over, insert_by) (ap (◌∷◌ y) (insert_by-last x m ys h))
  | inr under ↦ rw (under, insert_by) refl
]

sort_by-last :
    (m : ℕ) (vs : List ℕ)
    → All (λ v. v < m) vs
    → sort_by leb (vs ++ m ∷ []) ≡ sort_by leb vs ++ m ∷ []
sort_by-last m [] h = refl
sort_by-last m (v ∷ vs) (l, h) =
    ap (insert_by leb v) (sort_by-last m vs h) ∙ insert_by-last v m (sort_by leb vs) l

take-below :
    (k m : ℕ) (ys : List ℕ)
    → k ≤ length ys
    → All (λ v. v < m) ys
    → All (λ v. v < m) (take k (ys ++ m ∷ []))
take-below zero m ys h a = tt
take-below (suc k) m [] h a = absurd (omega arith)
take-below (suc k) m (y ∷ ys) h (l, a) = (l, take-below k m ys (omega arith) a)

remove_dir-has :
    (v m : ℕ) (ds : List Dir) → v < m → has_snapshot m (remove_dir v ds) ≡ has_snapshot m ds
unfolding has_snapshot remove_dir is_snapshot
remove_dir-has v m [] h = refl
remove_dir-has v m (snapshot n ∷ ds) h = ground (arith, remove_dir-has v m ds h)
remove_dir-has v m (other_v ∷ ds) h = remove_dir-has v m ds h
remove_dir-has v m (other_dir ∷ ds) h = remove_dir-has v m ds h

remove_all-has :
    (vs : List ℕ) (m : ℕ) (ds : List Dir)
    → All (λ v. v < m) vs
    → has_snapshot m (remove_all vs ds) ≡ has_snapshot m ds
unfolding remove_all
remove_all-has [] m ds a = refl
remove_all-has (v ∷ vs) m ds (l, a) =
    remove_all-has vs m (remove_dir v ds) a ∙ remove_dir-has v m ds l

-- Every snapshot is of a version below `m`, and a name that begins with `v` is a version's.
abbrev pub Bounded : ℕ → List Dir → Type 0
Bounded m [] = Unit
Bounded m (snapshot n ∷ ds) = (n < m) × Bounded m ds
Bounded m (other_v ∷ ds) = ⊥
Bounded m (other_dir ∷ ds) = Bounded m ds

Bounded-new : (m : ℕ) (ds : List Dir) → Bounded m ds → has_snapshot m ds ≡ false
unfolding has_snapshot is_snapshot
Bounded-new m [] b = refl
Bounded-new m (snapshot n ∷ ds) (l, b) = ground (arith, Bounded-new m ds b)
Bounded-new m (other_v ∷ ds) b = absurd b
Bounded-new m (other_dir ∷ ds) b = Bounded-new m ds b

Bounded-versions :
    (m : ℕ) (ds : List Dir)
    → Bounded m ds
    → (vs : List ℕ) × (versions_of (ds ++ snapshot m ∷ []) ≡ ok (vs ++ m ∷ []))
      × All (λ v. v < m) vs
unfolding versions_of
Bounded-versions m [] b = ([], refl, tt)
Bounded-versions m (snapshot n ∷ ds) (l, b) =
    let (vs, e, a) = Bounded-versions m ds b in
    (n ∷ vs, ap (λ r. r >>= λ ws. ok (n ∷ ws)) e, (l, a))
Bounded-versions m (other_v ∷ ds) b = absurd b
Bounded-versions m (other_dir ∷ ds) b = Bounded-versions m ds b

Bounded-append : (m : ℕ) (ds : List Dir) → Bounded m ds → Bounded (suc m) (ds ++ snapshot m ∷ [])
Bounded-append m [] b = (omega arith, tt)
Bounded-append m (snapshot n ∷ ds) (l, b) = (omega arith, Bounded-append m ds b)
Bounded-append m (other_v ∷ ds) b = absurd b
Bounded-append m (other_dir ∷ ds) b = Bounded-append m ds b

remove_dir-Bounded : (v m : ℕ) (ds : List Dir) → Bounded m ds → Bounded m (remove_dir v ds)
unfolding remove_dir is_snapshot
remove_dir-Bounded v m [] b = tt
remove_dir-Bounded v m (snapshot n ∷ ds) (l, b) = elim (Bool-cases (n == v)) [
  | inl same ↦ rw same (remove_dir-Bounded v m ds b)
  | inr apart ↦ rw apart (l, remove_dir-Bounded v m ds b)
]
remove_dir-Bounded v m (other_v ∷ ds) b = absurd b
remove_dir-Bounded v m (other_dir ∷ ds) b = remove_dir-Bounded v m ds b

remove_all-Bounded :
    (vs : List ℕ) (m : ℕ) (ds : List Dir) → Bounded m ds → Bounded m (remove_all vs ds)
unfolding remove_all
remove_all-Bounded [] m ds b = b
remove_all-Bounded (v ∷ vs) m ds b =
    remove_all-Bounded vs m (remove_dir v ds) (remove_dir-Bounded v m ds b)

has_snapshot-append : (m : ℕ) (ds : List Dir) → has_snapshot m (ds ++ snapshot m ∷ []) ≡ true
unfolding has_snapshot is_snapshot
has_snapshot-append m [] = ground (arith, ==_iff m m)
has_snapshot-append m (d ∷ ds) = ground (arith, has_snapshot-append m ds)

latest_from-below : (m : ℕ) (ds : List Dir) → Bounded (suc m) ds → latest_from ds ≤ m
unfolding latest_from
latest_from-below m [] b = omega arith
latest_from-below m (snapshot n ∷ ds) (l, b) = omega (arith, latest_from-below m ds b)
latest_from-below m (other_v ∷ ds) b = absurd b
latest_from-below m (other_dir ∷ ds) b = latest_from-below m ds b

latest_from-above : (m : ℕ) (ds : List Dir) → has_snapshot m ds ≡ true → m ≤ latest_from ds
unfolding latest_from has_snapshot is_snapshot
latest_from-above m [] h = cc
latest_from-above m (snapshot n ∷ ds) h = elim (Bool-cases (n == m)) [
  | inl same ↦ omega (arith, (==_iff n m).0 same)
  | inr apart ↦ omega (arith, latest_from-above m ds (sym (rw apart refl) ∙ h))
]
latest_from-above m (other_v ∷ ds) h = latest_from-above m ds h
latest_from-above m (other_dir ∷ ds) h = latest_from-above m ds h

make_dir-new : (m : ℕ) (ds : List Dir) → Bounded m ds → make_dir m ds ≡ ds ++ snapshot m ∷ []
unfolding make_dir
make_dir-new m ds b = rw (Bounded-new m ds b) refl

cleanup-removes :
    (keep : ℕ) (vs : List ℕ) (ds : List Dir)
    → versions_of ds ≡ ok vs
    → cleanup_old_versions keep ds ≡ ok (remove_all (take (length vs - keep) (sort_by leb vs)) ds)
unfolding cleanup_old_versions
cleanup-removes keep vs ds e =
    ap (λ t. t >>= λ ws. ok (remove_all (take (length ws - keep) (sort_by leb ws)) ds)) e

removed-below :
    (keep m : ℕ) (vs : List ℕ)
    → 0 < keep
    → All (λ v. v < m) vs
    → All (λ v. v < m) (take (length (vs ++ m ∷ []) - keep) (sort_by leb (vs ++ m ∷ [])))
removed-below keep m vs pos a =
    subst (λ t. All (λ v. v < m) (take (length (vs ++ m ∷ []) - keep) t))
      (sym (sort_by-last m vs a))
      (take-below _ m (sort_by leb vs)
        (omega (arith, length-append vs (m ∷ []), length-sort_by leb vs))
        (All-sort_by (λ v. v < m) leb vs a))

-- Let at least one version be kept, every snapshot be of the current version or an older one, and
-- no other directory's name begin with `v`. Then a push without a version succeeds with the next
-- version; its snapshot is the latest path and the latest version, whatever was removed; and again
-- every snapshot is of the current version or an older one.
pub push-latest :
    (s : Sync)
    → 0 < s.keep_versions
    → Bounded (suc s.version) s.dirs
    → (s' : Sync) × (push none s ≡ ok (s', suc s.version))
      × (latest_path s' ≡ some (suc s.version))
      × (latest_version s' ≡ suc s.version)
      × Bounded (suc s'.version) s'.dirs
unfolding push next_version latest_path latest_version
push-latest s pos b =
    let m = suc s.version in
    let (vs, e, a) = Bounded-versions m s.dirs b in
    let gone = take (length (vs ++ m ∷ []) - s.keep_versions) (sort_by leb (vs ++ m ∷ [])) in
    let below : All (λ v. v < m) gone = removed-below s.keep_versions m vs pos a in
    let ds = remove_all gone (s.dirs ++ snapshot m ∷ []) in
    let has : has_snapshot m ds ≡ true =
      remove_all-has gone m _ below ∙ has_snapshot-append m s.dirs in
    let bounded : Bounded (suc m) ds =
      remove_all-Bounded gone (suc m) _ (Bounded-append m s.dirs b) in
    (
      record s { version = m; dirs = ds },
      ap
            (λ t. cleanup_old_versions s.keep_versions t >>= λ left.
              ok (record s { version = m; dirs = left }, m))
            (make_dir-new m s.dirs b)
          ∙ ap (λ t. t >>= λ left. ok (record s { version = m; dirs = left }, m))
              (cleanup-removes s.keep_versions (vs ++ m ∷ []) (s.dirs ++ snapshot m ∷ []) e),
      rw has refl,
      omega (arith, latest_from-below m ds bounded, latest_from-above m ds has),
      bounded,
    )
