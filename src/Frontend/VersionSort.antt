-- ===== src/Frontend/VersionSort.antt =====
-- internal/frontend/version_sort.go: which versions the selector hides.
pub mod Agreement
use system_of_adownload.Prelude.{
  Bool, Text, [], codes, contains, false, if◌then◌else◌, is_digit, is_empty, is_lower, not, span,
  true, ◌&&◌, ◌==◌, ◌∷◌,
}

-- `[a-z]$`, and `w\d+[a-z]$`.
abbrev weekly_end : Text → Bool
weekly_end (c ∷ []) = is_lower c
weekly_end _ = false

abbrev weekly_tail : Text → Bool
weekly_tail [] = false
weekly_tail (c ∷ r) =
    let (week, r') = span is_digit r in c == b'w' && not (is_empty week) && weekly_end r'

-- `weeklySnapshotRe`: `^\d+w\d+[a-z]$`
pub weekly_text : Text → Bool
unfolding span
weekly_text text = let (year, r) = span is_digit text in not (is_empty year) && weekly_tail r

-- `IsPreRelease`
unfoldable pub is_pre_release : Text → Bool
unfolding contains weekly_text
is_pre_release text = if contains text (codes "-") then true else weekly_text text
