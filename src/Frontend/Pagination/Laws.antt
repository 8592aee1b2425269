-- ===== src/Frontend/Pagination/Laws.antt =====
-- What the buttons of `buildPageList` show.
use system_of_adownload.Prelude.{
  All, All-append, Bool, List, [], arith, false, if◌then◌else◌, leb, ltb, not, refl, suc, ap, true,
  zero, ℕ, ◌&&◌, ◌*◌, ◌+◌, ◌/◌, ◌++◌, ◌-◌, ◌<◌, ◌==◌, ◌∷◌, ◌≡◌, ◌≤◌, sym, ◌∙◌,
}
use native.Mathlib.Nat.{add-zero}
use system_of_adownload.Frontend.Pagination.{
  PageLink, PageWindow, placed, moved, joined_left, joined_right, trimmed, page_window, make_link,
  dots, links_from, when, buttons, build_page_list, compute_pagination, builds_per_page,
}
use system_of_adownload.Prelude.Rows.{any, any-append}

-- What a row of buttons shows, after page `shown`: each page but the last has the next one behind it,
-- or dots that hide two pages at least, and dots stand for nothing else. The flag says that dots
-- stand before. The last page shown is `total`, and each offset is that of its page.
unfoldable pub shows : ℕ → ℕ → Bool → List PageLink → Bool
shows total shown gap [] = not gap && shown == total
shows total shown gap (p ∷ pages) =
    if p.ellipsis
    then (let rest = shows total shown true pages in not gap && ltb 0 shown && rest)
    else (let rest = shows total p.number false pages in
        (if gap then ltb (shown + 2) p.number else p.number == suc shown)
        && p.offset + builds_per_page == p.number * builds_per_page
        && rest)

-- The window lies in the pages and holds the current one; it begins with page 1 and no dots, or with
-- page 4 at the earliest and dots before it, and likewise at its end.
record IsPlaced (current total : ℕ) (w : PageWindow) : Type 0 where
  starts : 1 ≤ w.start
  some_links : 1 ≤ w.links
  ends : w.start + w.links ≤ total + 1
  left : (if w.first_dots then leb 4 w.start else w.start == 1) ≡ true
  right :
      (if w.last_dots then leb (w.start + w.links + 2) total else w.start + w.links == total + 1)
      ≡ true
  holds : current ≤ total → w.start ≤ current × current < w.start + w.links

page_window-IsPlaced :
    (current total : ℕ)
    → 1 ≤ current
    → 1 ≤ total
    → IsPlaced current total (page_window current total)
unfolding page_window placed moved joined_left joined_right trimmed
page_window-IsPlaced current total h k = record {
  starts = ground arith;
  some_links = ground arith;
  ends = ground arith;
  left = ground arith;
  right = ground arith;
  holds = λ l. (ground arith, ground arith);
}

abbrev IsMarked : ℕ → PageLink → Type 0
IsMarked current p = p.active ≡ (p.number == current)

module _ (current total : ℕ) where
  -- A row of links, and what follows the last of them.
  shows-links :
      (shown : ℕ) (gap : Bool) (start k last : ℕ) (pages : List PageLink)
      → (if gap then ltb (shown + 2) start else start == suc shown) ≡ true
      → last ≡ start + k
      → shows total last false pages ≡ true
      → shows total shown gap (links_from current start (suc k) ++ pages) ≡ true
  unfolding shows links_from
  shows-links shown gap start zero last pages h l e = ground (arith, rw (l ∙ add-zero start) at e)
  shows-links shown gap start (suc k) last pages h l e =
      ground
        (arith, shows-links start false (suc start) k last pages (ground arith) (omega arith) e)

  -- The end of the row, behind the window.
  shows-right :
      (shown : ℕ) (last_dots : Bool)
      → 1 ≤ shown
      → (if last_dots then leb (shown + 3) total else shown == total) ≡ true
      → shows total shown false
          (when last_dots dots ++ when (not (shown + 1 == total + 1)) (make_link current total))
        ≡ true
  unfolding shows
  shows-right shown true l h =
      let e : (not (shown + 1 == total + 1)) ≡ true = ground arith in rw e (ground arith)
  shows-right shown false l h =
      let e : (not (shown + 1 == total + 1)) ≡ false = ground arith in rw e (ground arith)

  any-links :
      (start k : ℕ)
      → any (λ p. p.active) (links_from current start k)
        ≡ (leb start current && ltb current (start + k))
  unfolding any links_from
  any-links start zero = ground arith
  any-links start (suc k) = ground (arith, any-links (suc start) k)

  -- The row from page 1 on.
  shows-left :
      (first_dots : Bool) (start k last : ℕ) (pages : List PageLink)
      → 1 ≤ start
      → (if first_dots then leb 4 start else start == 1) ≡ true
      → last ≡ start + k
      → shows total last false pages ≡ true
      → shows total 0 false (
          when (not (start == 1)) (make_link current 1)
          ++ (when first_dots dots ++ (links_from current start (suc k) ++ pages)))
        ≡ true
  unfolding shows
  shows-left true start k last pages s h l e =
      let d : (not (start == 1)) ≡ true = ground arith in
      rw d (ground (arith, shows-links 1 true start k last pages (ground arith) l e))
  shows-left false start k last pages s h l e =
      let d : (not (start == 1)) ≡ false = ground arith in
      rw d (shows-links 0 false start k last pages (ground arith) l e)

  shows-row :
      (first_dots last_dots : Bool) (start k : ℕ)
      → 1 ≤ start
      → (if first_dots then leb 4 start else start == 1) ≡ true
      → (if last_dots then leb (start + k + 3) total else start + k == total) ≡ true
      → shows total 0 false (
          buttons current total (record {
            first_dots = first_dots;
            last_dots = last_dots;
            start = start;
            links = suc k;
          }))
        ≡ true
  unfolding buttons
  shows-row first_dots last_dots start k s l r =
      let f : start + suc k ≡ start + k + 1 = omega arith in
      rw f (
        shows-left first_dots start k (start + k) _ s l refl
          (shows-right (start + k) last_dots (omega arith) r))

  shows-buttons :
      (w : PageWindow)
      → IsPlaced current total w
      → shows total 0 false (buttons current total w) ≡ true
  shows-buttons w p =
      let e : suc (w.links - 1) ≡ w.links = omega arith in
      ap (λ n. shows total 0 false (buttons current total (record w { links = n }))) (sym e)
      ∙ shows-row w.first_dots w.last_dots w.start (w.links - 1) p.starts p.left (ground arith)

  All-links : (start k : ℕ) → All (IsMarked current) (links_from current start k)
  unfolding links_from
  All-links start zero = tt
  All-links start (suc k) = (refl, All-links (suc start) k)

  All-when : (b : Bool) (p : PageLink) → IsMarked current p → All (IsMarked current) (when b p)
  All-when true p h = (h, tt)
  All-when false p h = tt

  All-buttons : (w : PageWindow) → 1 ≤ current → All (IsMarked current) (buttons current total w)
  unfolding buttons
  All-buttons w h =
      All-append (IsMarked current) _ _ (All-when (not (w.start == 1)) (make_link current 1) refl) (
        All-append (IsMarked current) _ _ (All-when w.first_dots dots (ground arith)) (
          All-append (IsMarked current) _ _ (All-links w.start w.links) (
            All-append (IsMarked current) _ _ (All-when w.last_dots dots (ground arith))
              (All-when _ (make_link current total) refl))))

  any-when : (b : Bool) (p : PageLink) → any (λ p. p.active) (when b p) ≡ (b && p.active)
  unfolding any
  any-when b p = ground arith

  any-buttons :
      (w : PageWindow)
      → IsPlaced current total w
      → any (λ p. p.active) (buttons current total w) ≡ leb current total
  unfolding buttons
  any-buttons w p = simp (any-append, any-when, any-links) (ground (arith, p.holds))

build_page_list_lem :
    (current total : ℕ)
    → 1 ≤ current
    → 1 ≤ total
    → (shows total 0 false (build_page_list current total) ≡ true)
      × All (IsMarked current) (build_page_list current total)
      × (any (λ p. p.active) (build_page_list current total) ≡ leb current total)
unfolding build_page_list
build_page_list_lem current zero h k = absurd (omega arith)
build_page_list_lem current (suc n) h k =
    let w = page_window current (suc n) in
    let p = page_window-IsPlaced current (suc n) h k in
    (
      shows-buttons current (suc n) w p,
      All-buttons current (suc n) w h,
      any-buttons current (suc n) w p,
    )

-- On a listing of some builds, at whatever offset, also behind the last build: the buttons of
-- `computePagination` show the pages from the first to the last, where dots stand for two pages at
-- least; a button is active exactly if it is that of the current page, and there is an active one
-- exactly if the current page is not behind the last. There is a page before exactly if the offset is
-- 10 at least, and a next one exactly if the next multiple of 10 is the offset of a build.
pub compute_pagination_lem :
    (offset total : ℕ)
    → 1 ≤ total
    → (let page = compute_pagination offset total in
        (shows page.total_pages 0 false page.pages ≡ true)
        × All (λ p. p.active ≡ (p.number == page.current_page)) page.pages
        × (any (λ p. p.active) page.pages ≡ leb page.current_page page.total_pages)
        × (page.has_prev ≡ leb 10 offset)
        × (page.has_next ≡ ltb (offset / 10 * 10 + 10) total))
unfolding compute_pagination
compute_pagination_lem offset zero h = absurd (omega arith)
compute_pagination_lem offset (suc n) h =
    let (a, b, c) =
      build_page_list_lem (offset / 10 + 1) ((suc n + 10 - 1) / 10) (omega arith) (omega arith) in
    (a, b, c, ground arith, ground arith)
