-- ===== src/Db/Filter.antt =====
-- internal/repository/repository.go: the listing of versions, filtered by tags. The two ways in
-- which it builds the condition are kept apart: a subquery that counts keys, and EXISTS.
pub mod Agreement
pub mod Exists
pub mod Newest
pub mod Page
use system_of_adownload.Prelude.{
  Bool, List, Option, Text, [], codes, drop, false, if◌then◌else◌, is_empty, length, map, none, not,
  some, suc, take, text_eq, true, ℕ, ◌&&◌, ◌++◌, ◌==◌, ◌||◌, ◌∷◌,
}
use system_of_adownload.Activity.Sort.{sort_stable}
use system_of_adownload.Db.Models.{ArtifactVersion, TagRow, Store}
use system_of_adownload.Db.Versions.{in_artifact, newest_first}
use system_of_adownload.Prelude.Map.{Map}
use system_of_adownload.Prelude.Rows.{any, select}

-- `VersionQueryParams`; limit and offset are not negative. The tags are a Go map.
pub record VersionQueryParams : Type 0 where
  pub group_id : Text
  pub artifact_id : Text
  pub recommended : Option Bool
  pub tags : Map Text
  pub limit : ℕ
  pub offset : ℕ

-- Whether the test holds of the text from some place on.
unfoldable any_suffix : (Text → Bool) → Text → Bool
any_suffix m [] = m []
any_suffix m (c ∷ s) = let later = any_suffix m s in if m (c ∷ s) then true else later

abbrev one_char : (ℕ → Bool) → (Text → Bool) → Text → Bool
one_char p rest [] = false
one_char p rest (c ∷ s) = p c && rest s

-- Postgres's LIKE: `%` is any text, `_` any character, and a backslash takes the next character as
-- it is. The first argument says that a backslash stands before.
unfoldable like : Bool → Text → Text → Bool
unfolding any_suffix
like true [] s = false
like false [] s = is_empty s
like true (x ∷ p) s = one_char (λ c. c == x) (like false p) s
like false (x ∷ p) s =
    if x == b'%'
    then any_suffix (like false p) s
    else if x == b'_'
    then one_char (λ c. true) (like false p) s
    else if x == 0x5c
    then like true p s
    else one_char (λ c. c == x) (like false p) s

-- `(t.tag_key = k AND (t.tag_value = v OR t.tag_value LIKE v || '.%'))`
unfoldable pub tag_matches : TagRow → Text × Text → Bool
unfolding like
tag_matches t (k, v) =
    text_eq t.tag_key k && (text_eq t.tag_value v || like false (v ++ codes ".%") t.tag_value)

-- `recommended IS NULL OR av.recommended = $`
abbrev recommended_matches : Option Bool → Bool → Bool
recommended_matches none b = true
recommended_matches (some true) b = b
recommended_matches (some false) b = not b

-- COUNT(DISTINCT ...)
pub count_distinct : List Text → ℕ
unfolding any
count_distinct [] = 0
count_distinct (k ∷ ks) = if any (text_eq k) ks then count_distinct ks else suc (count_distinct ks)

-- The group of a version in the subquery: its rows that match one of the tags.
pub matched : List TagRow → Map Text → ℕ → List TagRow
unfolding select any
matched rows tags version =
    select (λ t. t.artifact_version_id == version && any (tag_matches t) tags) rows

-- `av.id IN (SELECT ... GROUP BY ... HAVING COUNT(DISTINCT t.tag_key) = n)`
pub in_subquery : List TagRow → Map Text → ℕ → Bool
unfolding matched count_distinct
in_subquery rows tags version =
    let group = matched rows tags version in
    not (is_empty group) && count_distinct (map (λ t. t.tag_key) group) == length tags

-- The EXISTS of every tag.
unfoldable pub exist_all : List TagRow → Map Text → ℕ → Bool
unfolding any
exist_all rows [] version = true
exist_all rows (tag ∷ tags) version =
    let rest = exist_all rows tags version in
    if any (λ t. t.artifact_version_id == version && tag_matches t tag) rows then rest else false

abbrev pub in_listing : Store → VersionQueryParams → ArtifactVersion → Bool
in_listing s q v =
    in_artifact s q.group_id q.artifact_id v && recommended_matches q.recommended v.recommended

-- The rows that `ListVersionsFiltered` and `CountVersionsFiltered` select.
pub filtered : Store → VersionQueryParams → List ArtifactVersion
unfolding in_subquery select
filtered s q =
    if is_empty q.tags
    then select (in_listing s q) s.versions
    else select (λ v. in_listing s q v && in_subquery s.tags q.tags v.id) s.versions

-- The CTE `filtered` of `ListVersionsWithAssets`.
unfoldable pub filtered_by_exists : Store → VersionQueryParams → List ArtifactVersion
unfolding exist_all select
filtered_by_exists s q = select (λ v. in_listing s q v && exist_all s.tags q.tags v.id) s.versions

-- ORDER BY sort_order DESC LIMIT ... OFFSET ...
unfoldable page_of : VersionQueryParams → List ArtifactVersion → List ArtifactVersion
unfolding sort_stable
page_of q rows = take q.limit (drop q.offset (sort_stable newest_first rows))

unfoldable pub list_versions_filtered : Store → VersionQueryParams → List ArtifactVersion
unfolding filtered page_of
list_versions_filtered s q = page_of q (filtered s q)

unfoldable pub count_versions_filtered : Store → VersionQueryParams → ℕ
unfolding filtered
count_versions_filtered s q = length (filtered s q)

-- `ListVersionsWithAssets`, less the assets: the page, and the total, which the rows of the page
-- carry, so that it is 0 on an empty page.
unfoldable pub list_versions_with_assets : Store → VersionQueryParams → List ArtifactVersion × ℕ
unfolding filtered_by_exists page_of
list_versions_with_assets s q =
    let rows = filtered_by_exists s q in
    let page = page_of q rows in (page, if is_empty page then 0 else length rows)
