-- ===== src/Db/Previous.antt =====
-- The row that `GetPreviousVersion` finds.
use mathlib.Core.List.{Mem}
use system_of_adownload.Prelude.{
  ==_iff, Bool, Option, arith, codes, false, is_positive, none, refl, some, true, ℕ, ℤ, ◌&&◌, ◌≡◌,
}
use system_of_adownload.Activity.Sort.{sort_stable}
use system_of_adownload.Db.Commits.{has_sha, is_below, is_predecessor, previous_version}
use system_of_adownload.Db.Models.{ArtifactVersion, Store}
use system_of_adownload.Db.Newest.{first_lem, newest_lem}
use system_of_adownload.Db.Versions.{newest_first}
use system_of_adownload.Domain.Json.{Json, has_value}
use system_of_adownload.Prelude.Rows.{any, select}

-- A body with a sha.
abbrev HasSha : Option Json → Type 0
HasSha body = (j : Json) × (body ≡ some j) × (has_value (codes "sha") j ≡ true)

-- A version of the artifact with a positive order below the one that is asked for, and with a sha.
abbrev pub IsPrevious : ℕ → ℤ → ArtifactVersion → Type 0
IsPrevious artifact order v =
    (v.artifact_id ≡ artifact)
    × (is_below v.sort_order order ≡ true)
    × (is_positive v.sort_order ≡ true)
    × HasSha v.commit_body

has_sha-HasSha : (body : Option Json) → has_sha body ≡ true → HasSha body
has_sha-HasSha none h = absurd cc
has_sha-HasSha (some j) h = (j, refl, h)

and_left : (a b : Bool) → (a && b) ≡ true → a ≡ true
and_left a b h = ground arith

and_right : (a b : Bool) → (a && b) ≡ true → b ≡ true
and_right a b h = ground arith

is_predecessor-IsPrevious :
    (artifact : ℕ) (order : ℤ) (v : ArtifactVersion)
    → is_predecessor artifact order v ≡ true
    → IsPrevious artifact order v
is_predecessor-IsPrevious artifact order v h =
    let h1 = and_left _ _ h in
    let h2 = and_left _ _ h1 in
    (
      (==_iff v.artifact_id artifact).0 (and_left _ _ h2),
      and_right _ _ h2,
      and_right _ _ h1,
      has_sha-HasSha v.commit_body (and_right _ _ h),
    )

-- The version that `GetPreviousVersion` gives is a version of the table, of the artifact, with a sha
-- and an order that is positive and below the one that is asked for, and none of these has a
-- higher order.
pub previous_version_lem :
    (artifact : ℕ) (order : ℤ) (s : Store) (v : ArtifactVersion)
    → previous_version artifact order s ≡ some v
    → Mem v s.versions
      × IsPrevious artifact order v
      × (any (λ w. is_predecessor artifact order w && is_below v.sort_order w.sort_order) s.versions
          ≡ false)
unfolding previous_version
previous_version_lem artifact order s v h =
    let (rest, e) =
      first_lem (sort_stable newest_first (select (is_predecessor artifact order) s.versions)) v
        h in
    let (m, p, n) = newest_lem (is_predecessor artifact order) s.versions v rest e in
    (m, is_predecessor-IsPrevious artifact order v p, n)
