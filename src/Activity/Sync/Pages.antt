-- ===== src/Activity/Sync/Pages.antt =====
-- The pages of `existingVersionSet` are the whole list.
use mathlib.Core.List.{append_assoc}
use system_of_adownload.Prelude.{
  Bool-cases, List, Ordering, Text, ap, arith, codes, drop, drop-drop, false, inl, inr, length,
  length-drop, length-take, ltb, ltb→lt, lt→ltb, refl, suc, sym, take, take-append-drop, take_all,
  true, zero, ℕ, ◌*◌, ◌++◌, ◌+◌, ◌<◌, ◌^◌, ◌∙◌, ◌≡◌, ◌≤◌,
}
use system_of_adownload.Activity.Sync.{page_loop}
use system_of_adownload.Db.Models.{Store}
use system_of_adownload.Db.Tx.{ok, Faults}
use system_of_adownload.Db.Versions.{version_strings}

last_page :
    (n offset : ℕ) (existing xs : List Text)
    → ltb (length (take n (drop offset xs))) n ≡ true
    → existing ++ take n (drop offset xs) ≡ existing ++ drop offset xs
last_page n offset existing xs h =
    ap (λ ys. existing ++ ys) (take_all n (drop offset xs) (ltb→lt _ _ h))

full_page :
    (n offset : ℕ) (existing xs : List Text)
    → (existing ++ take n (drop offset xs)) ++ drop (offset + n) xs ≡ existing ++ drop offset xs
full_page n offset existing xs =
    rw (append_assoc, sym (drop-drop n offset xs), take-append-drop) refl

-- After a full page the offset is still within the list.
full_page_within :
    (n offset : ℕ) (xs : List Text)
    → ltb (length (take n (drop offset xs))) n ≡ false
    → offset ≤ length xs
    → offset + n ≤ length xs
full_page_within n offset xs h within =
    ground (arith, length-take n (drop offset xs), length-drop offset xs)

module _ (fails : Faults) (collate : Text → Text → Ordering) (artifact : ℕ) (s : Store) where
  pub page_loop-store :
      (fuel call offset : ℕ) (existing : List Text)
      → (page_loop fails collate fuel call artifact offset existing s).1 ≡ s
  unfolding page_loop
  page_loop-store zero call offset existing = refl
  page_loop-store (suc fuel) call offset existing = ground (
    arith,
    page_loop-store fuel (suc call) (offset + 100)
        (existing ++ take 100 (drop offset (version_strings collate s artifact))),
  )

  -- On a list of fewer than 2^31 versions, with the query working, the loop over the pages ends by
  -- itself: from an offset within the list, with one unit of fuel for each 100 versions that are
  -- left, and one more, it returns the rest of the list behind what it has.
  pub page_loop_lem :
      (fuel call offset : ℕ) (existing : List Text)
      → ((i : ℕ) → fails (codes "ListArtifactVersionStringsByArtifactID") i ≡ false)
      → length (version_strings collate s artifact) < 2 ^ 31
      → offset ≤ length (version_strings collate s artifact)
      → length (version_strings collate s artifact) < fuel * 100 + offset
      → page_loop fails collate fuel call artifact offset existing s
        ≡ (ok (existing ++ drop offset (version_strings collate s artifact)), s)
  unfolding page_loop
  page_loop_lem zero call offset existing works small within enough = absurd (omega arith)
  page_loop_lem (suc fuel) call offset existing works small within enough =
      rw (works call, lt→ltb offset (2 ^ 31) (omega arith))
        (elim (Bool-cases
          (ltb (length (take 100 (drop offset (version_strings collate s artifact)))) 100)) [
            | inl e ↦ rw e (
                ap (λ ys. (ok ys, s))
                  (last_page 100 offset existing (version_strings collate s artifact) e))
            | inr e ↦ rw e (
                page_loop_lem fuel (suc call) (offset + 100)
                  (existing ++ take 100 (drop offset (version_strings collate s artifact))) works
                  small (full_page_within 100 offset (version_strings collate s artifact) e within)
                  (omega arith)
                ∙ ap (λ ys. (ok ys, s))
                    (full_page 100 offset existing (version_strings collate s artifact)))
          ])
