-- ===== src/Activity/Ordering/Ascending.antt =====
-- The order that `ComputeVersionOrdering` assigns.
use system_of_adownload.Prelude.{
  All, Bool, List, Option, Text, [], arith, map, none, some, suc, true, zero, ℕ, ℤ, ◌∷◌, ◌≡◌,
}
use system_of_adownload.Activity.Ordering.{
  VersionRow, VersionWithId, set_segment_order, set_minecraft_order, apply_position, apply_manifest,
  compare_items, parse_row, ordered_items,
}
use system_of_adownload.Activity.Sort.Laws.{IsAscending, sort_stable-IsAscending}
use system_of_adownload.Domain.Version.{
  ParseAs, ParsedVersion, parsed_version, Segments, nil, cons, segment, absent, present, segments,
}
use system_of_adownload.Domain.Version.Compare.Flip.{compare_versions-flip}
use system_of_adownload.Domain.Version.Compare.Order.{HasForm, compare_versions-Coherent}
use system_of_adownload.Domain.Version.Schema.{Pattern, VersionSchema, parse_version_with_schema}
use system_of_adownload.Domain.Version.Schema.Form.{form, has_form, parse-IsFormed}
use system_of_adownload.Prelude.Map.{Map}

set_segment_order-HasForm :
    (ps : List ParseAs) (i : ℕ) (p : ℤ) (s : Segments)
    → HasForm ps s
    → HasForm ps (set_segment_order i p s)
unfolding set_segment_order
set_segment_order-HasForm ps i p nil h = h
set_segment_order-HasForm (q ∷ ps) zero p (cons (segment r raw absent ints n) rest) h = h
set_segment_order-HasForm (q ∷ ps) zero p
      (cons (segment r raw (present (parsed_version f s)) ints n) rest) h =
    h
set_segment_order-HasForm (q ∷ ps) (suc i) p (cons s rest) (e, k, h) =
    (e, k, set_segment_order-HasForm ps i p rest h)
set_segment_order-HasForm [] i p (cons s rest) h = absurd h

set_minecraft_order-HasForm :
    (ps : List ParseAs) (b : Bool) (o : Option ℕ) (p : ℤ) (s : Segments)
    → HasForm ps s
    → HasForm ps (set_minecraft_order b o p s)
set_minecraft_order-HasForm ps true (some i) p s h = set_segment_order-HasForm ps i p s h
set_minecraft_order-HasForm ps b o p s h = ground arith

apply_position-HasForm :
    (ps : List ParseAs) (o : Option ℤ) (pv : ParsedVersion)
    → HasForm ps (segments pv)
    → HasForm ps (segments (apply_position o pv))
unfolding apply_position
apply_position-HasForm ps none pv h = h
apply_position-HasForm ps (some p) (parsed_version f s) h =
    set_minecraft_order-HasForm ps f.is_composite f.minecraft p s h

-- What the manifest sets leaves the form as it is.
apply_manifest-HasForm :
    (ps : List ParseAs) (o : Option (Map ℤ)) (pv : ParsedVersion)
    → HasForm ps (segments pv)
    → HasForm ps (segments (apply_manifest o pv))
unfolding apply_manifest
apply_manifest-HasForm ps none pv h = h
apply_manifest-HasForm ps (some order) pv h = apply_position-HasForm ps _ pv h

abbrev ItemHasForm : List ParseAs → VersionWithId → Type 0
ItemHasForm ps x = HasForm ps (segments x.parsed)

module _ (compile : Text → Option Pattern) (schema : Option VersionSchema)
    (manifest : Option (Map ℤ)) (ps : List ParseAs) where
  -- The text is parsed into segments of the kinds `ps`.
  abbrev pub RowHasForm : VersionRow → Type 0
  RowHasForm v = form (segments (parse_version_with_schema compile v.text schema)) ≡ ps

  rows-HasForm :
      (rows : List VersionRow)
      → All RowHasForm rows
      → All (ItemHasForm ps) (map (parse_row compile schema manifest) rows)
  unfolding parse_row
  rows-HasForm [] h = tt
  rows-HasForm (v ∷ rows) h = (
    apply_manifest-HasForm ps manifest (parse_version_with_schema compile v.text schema) (
        has_form (parse_version_with_schema compile v.text schema) ps h.0
          (parse-IsFormed compile v.text schema)),
    rows-HasForm rows h.1,
  )

  -- The items of `ComputeVersionOrdering` stand in the order of `CompareVersions`.
  pub ordered_items-IsAscending :
      (rows : List VersionRow)
      → All RowHasForm rows
      → IsAscending compare_items (ordered_items compile schema manifest rows)
  unfolding ordered_items
  ordered_items-IsAscending rows h =
      sort_stable-IsAscending compare_items (ItemHasForm ps)
        (λ a b. compare_versions-flip a.parsed b.parsed)
        (λ a b c. compare_versions-Coherent ps a.parsed b.parsed c.parsed)
        (map (parse_row compile schema manifest) rows) (rows-HasForm rows h)
