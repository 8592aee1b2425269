-- ===== src/Frontend/Pagination.antt =====
-- The pagination of internal/frontend/handlers.go. An offset is a 64-bit `int` that is not negative;
-- the total is a number of rows, so that it is far below the bounds of an `int`.
pub mod Laws
use system_of_adownload.Prelude.{
  Bool, List, [], false, if◌then◌else◌, leb, ltb, negate, not, pos, suc, true, zero, ℕ, ℤ, ◌&&◌,
  ◌*◌, ◌+◌, ◌++◌, ◌-◌, ◌/◌, ◌==◌, ◌^◌, ◌∷◌,
}

-- `PageLink`
pub record PageLink : Type 0 where
  pub number : ℕ
  pub offset : ℕ
  pub active : Bool
  pub ellipsis : Bool

-- `PaginationData`
pub record PaginationData : Type 0 where
  pub current_page : ℕ
  pub total_pages : ℕ
  pub pages : List PageLink
  pub has_prev : Bool
  pub has_next : Bool
  pub prev_offset : ℤ
  pub next_offset : ℤ

abbrev pub builds_per_page : ℕ
builds_per_page = 10

abbrev pagination_window : ℕ
pagination_window = 5

abbrev pagination_ellipsis_threshold : ℕ
pagination_ellipsis_threshold = 3

-- The variables of `buildPageList`: the window starts at page 1 or later, whatever the two pages.
pub record PageWindow : Type 0 where
  pub first_dots : Bool
  pub last_dots : Bool
  pub links : ℕ
  pub start : ℕ

-- The switch. A difference of two numbers is compared by the sum on the other side.
unfoldable pub placed : ℕ → ℕ → PageWindow
placed current total =
    if leb total pagination_window
    then record { first_dots = false; last_dots = false; links = total; start = 1 }
    else if ltb current (pagination_window - 1)
        && ltb pagination_ellipsis_threshold pagination_window
    then record { first_dots = false; last_dots = true; links = pagination_window; start = 1 }
    else if ltb (total + 2) (pagination_window + current)
        && ltb pagination_ellipsis_threshold pagination_window
    then record {
      first_dots = true;
      last_dots = false;
      links = pagination_window;
      start = total - pagination_window + 1;
    }
    else record {
      first_dots = true;
      last_dots = true;
      links = pagination_window - 2;
      start = current - (pagination_window - 2) / 2;
    }

-- The window is moved into the pages.
unfoldable pub moved : ℕ → PageWindow → PageWindow
moved total w =
    if ltb w.start 1
    then record w { start = 1; first_dots = false }
    else if ltb total (w.start + w.links)
    then record w { start = total - w.links + 1; last_dots = false }
    else w

-- A gap of one page, or none, behind page 1 is filled.
unfoldable pub joined_left : PageWindow → PageWindow
joined_left w =
    if w.first_dots && ltb w.start 4
    then record w { links = w.links + 2; start = 1; first_dots = false }
    else w

-- The same before the last page: `lastPageNumber` is `start + links - 1`.
unfoldable pub joined_right : ℕ → PageWindow → PageWindow
joined_right total w =
    if w.last_dots && ltb total (w.start + w.links + 2)
    then record w {
      links = if w.start + w.links + 1 == total then w.links + 2 else w.links + 3;
      last_dots = false;
    }
    else w

-- `numberOfLinks` is cut to the pages that there are.
unfoldable pub trimmed : ℕ → PageWindow → PageWindow
trimmed total w =
    if ltb (total + 1) (w.links + w.start) then record w { links = total + 1 - w.start } else w

unfoldable pub page_window : ℕ → ℕ → PageWindow
unfolding placed moved joined_left joined_right trimmed
page_window current total =
    trimmed total (joined_right total (joined_left (moved total (placed current total))))

-- `makeLink`
abbrev pub make_link : ℕ → ℕ → PageLink
make_link current n = record {
  number = n;
  offset = (n - 1) * builds_per_page;
  active = n == current;
  ellipsis = false;
}

abbrev pub dots : PageLink
dots = record { number = 0; offset = 0; active = false; ellipsis = true }

-- The loop from `startNumber` on, over a number of links.
unfoldable pub links_from : ℕ → ℕ → ℕ → List PageLink
links_from current start zero = []
links_from current start (suc k) = make_link current start ∷ links_from current (suc start) k

abbrev pub when {ℓ} : {A : Type ℓ} → Bool → A → List A
when b a = if b then a ∷ [] else []

-- The buttons of a window: `windowEnd` is `start + links - 1`.
unfoldable pub buttons : ℕ → ℕ → PageWindow → List PageLink
unfolding links_from
buttons current total w =
    when (not (w.start == 1)) (make_link current 1)
    ++ (when w.first_dots dots
        ++ (links_from current w.start w.links
            ++ (when w.last_dots dots
                ++ when (not (w.start + w.links == total + 1)) (make_link current total))))

-- `buildPageList`
unfoldable pub build_page_list : ℕ → ℕ → List PageLink
unfolding page_window buttons
build_page_list current zero = []
build_page_list current (suc n) = buttons current (suc n) (page_window current (suc n))

-- A 64-bit `int`.
abbrev int64 : ℕ → ℤ
int64 n = if ltb n (2 ^ 63) then pos n else negate (2 ^ 64 - n)

-- `computePagination`; the product of `NextOffset` may overflow.
unfoldable pub compute_pagination : ℕ → ℕ → PaginationData
unfolding build_page_list
compute_pagination offset zero = record {
  current_page = 0;
  total_pages = 0;
  pages = [];
  has_prev = false;
  has_next = false;
  prev_offset = pos 0;
  next_offset = pos 0;
}
compute_pagination offset (suc n) =
    let current = offset / builds_per_page + 1 in
    let total = (suc n + builds_per_page - 1) / builds_per_page in
    record {
      current_page = current;
      total_pages = total;
      pages = build_page_list current total;
      has_prev = ltb 1 current;
      has_next = ltb current total;
      prev_offset =
          if leb 2 current
          then pos ((current - 2) * builds_per_page)
          else negate ((2 - current) * builds_per_page);
      next_offset = int64 (current * builds_per_page);
    }
