-- ===== src/Httpapi/Versions.antt =====
-- The listing of versions in internal/httpapi/handler.go. A number of a request is a 64-bit `int`.
pub mod Laws
pub mod Tags
use system_of_adownload.Prelude.{
  Bool, List, Option, Text, [], before, drop, if◌then◌else◌, is_empty, length, ltb, negsuc, none,
  pos, some, split, suc, trim_space, zero, ℕ, ℤ, ◌%◌, ◌-◌, ◌^◌, ◌||◌, ◌∷◌,
}
use system_of_adownload.Activity.Ordering.{int32}
use system_of_adownload.App.Versions.{VersionEntry, GetVersionsResult, get_versions}
use system_of_adownload.Db.Filter.{VersionQueryParams}
use system_of_adownload.Db.Models.{Store}
use system_of_adownload.Db.Tx.{Error, artifact_not_found, Result, ok, err, Faults}
use system_of_adownload.Prelude.Map.{Map, insert}

-- `int32(n)`
abbrev pub int32_of : ℤ → ℤ
int32_of (pos n) = int32 n
int32_of (negsuc n) = int32 (2 ^ 32 - suc n % 2 ^ 32)

abbrev max_versions_page_limit : ℕ
max_versions_page_limit = 25

-- `limit`; `none` is the answer "limit must be at least 1".
abbrev pub at_least_one : ℤ → Option ℕ
at_least_one (pos zero) = none
at_least_one (pos (suc n)) =
    some (if ltb max_versions_page_limit (suc n) then max_versions_page_limit else suc n)
at_least_one (negsuc n) = none

unfoldable pub page_limit : Option ℤ → Option ℕ
page_limit none = some max_versions_page_limit
page_limit (some l) = at_least_one (int32_of l)

-- `offset`; `none` is the answer "offset must be non-negative".
abbrev pub not_negative : ℤ → Option ℕ
not_negative (pos n) = some n
not_negative (negsuc n) = none

unfoldable pub page_offset : Option ℤ → Option ℕ
page_offset none = some 0
page_offset (some o) = not_negative (int32_of o)

-- A pair of `parseTags`, trimmed and not empty; `none` is the error.
unfoldable pub tag_pair : Text → Option (Text × Text)
unfolding before trim_space
tag_pair pair = elim (before b':' pair) [
  | none ↦ none
  | some key ↦
      let value = drop (suc (length key)) pair in
      if is_empty key || is_empty value then none else some (trim_space key, trim_space value)
]

-- The loop of `parseTags`: an empty pair is passed over.
unfoldable pub parse_pairs : List Text → Map Text → Option (Map Text)
unfolding tag_pair insert trim_space
parse_pairs [] tags = some tags
parse_pairs (p ∷ pairs) tags =
    if is_empty (trim_space p) then parse_pairs pairs tags else elim (tag_pair (trim_space p)) [
      | none ↦ none
      | some (k, v) ↦ parse_pairs pairs (insert k v tags)
    ]

-- `parseTags`
unfoldable pub parse_tags : Text → Option (Map Text)
unfolding parse_pairs split
parse_tags raw = elim (parse_pairs (split b',' raw) []) [
  | none ↦ none
  | some tags ↦ if is_empty tags then none else some tags
]

-- The tags of a request that leaves them out, or empty, are none.
abbrev pub request_tags : Option Text → Option (Map Text)
request_tags none = some []
request_tags (some raw) = if is_empty raw then some [] else parse_tags raw

-- `GetVersionsRequestObject`
pub record GetVersionsRequest : Type 0 where
  pub group_id : Text
  pub artifact_id : Text
  pub recommended : Option Bool
  pub tags : Option Text
  pub limit : Option ℤ
  pub offset : Option ℤ

-- `orderedVersionsResponse`
pub record VersionsPage : Type 0 where
  pub entries : List VersionEntry
  pub offset : ℕ
  pub limit : ℕ
  pub total : ℤ

-- What a handler answers; an error that it passes on is answered by the server. The texts of the
-- answers are left out.
pub data Response {ℓ} (A : Type ℓ) : Type ℓ where
  answered : A → Response A
  bad_request conflict missing broken : Response A
  passed_on : Error → Response A

abbrev pub page_params : GetVersionsRequest → Map Text → ℕ → ℕ → VersionQueryParams
page_params r tags limit offset = record {
  group_id = r.group_id;
  artifact_id = r.artifact_id;
  recommended = r.recommended;
  tags = tags;
  limit = limit;
  offset = offset;
}

abbrev pub page_response : ℕ → ℕ → Result GetVersionsResult × Store → Response VersionsPage × Store
page_response limit offset (ok r, s) = (
  answered (record { entries = r.entries; offset = offset; limit = limit; total = int32 r.total }),
  s,
)
page_response limit offset (err artifact_not_found, s) = (missing, s)
page_response limit offset (err e, s) = (passed_on e, s)

module _ (fails : Faults) where
  abbrev get_page : GetVersionsRequest → Map Text → ℕ → ℕ → Store → Response VersionsPage × Store
  get_page r tags limit offset s =
      page_response limit offset (get_versions fails (page_params r tags limit offset) s)

  -- `GetVersions`: the limit is looked at first, then the offset, then the tags.
  unfoldable pub get_versions_page : GetVersionsRequest → Store → Response VersionsPage × Store
  unfolding page_limit page_offset parse_tags get_versions
  get_versions_page r s = elim (page_limit r.limit) [
    | none ↦ (bad_request, s)
    | some limit ↦ elim (page_offset r.offset) [
      | none ↦ (bad_request, s)
      | some offset ↦ elim (request_tags r.tags) [
        | none ↦ (bad_request, s)
        | some tags ↦ get_page r tags limit offset s
      ]
    ]
  ]
