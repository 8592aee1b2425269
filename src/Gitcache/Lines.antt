-- ===== src/Gitcache/Lines.antt =====
-- The lines of a text: ended one by one, trimmed and split again.
use system_of_adownload.Prelude.{
  All, Bool, List, Text, [], ap, arith, false, if◌then◌else◌, is_empty, not, refl, split, true, ℕ,
  ◌++◌, ◌==◌, ◌∙◌, ◌∷◌, ◌≡◌,
}
use system_of_adownload.Domain.Commit.{trim_right}
use system_of_adownload.Prelude.Rows.{any}

-- Lines that are each ended, and lines that are kept apart.
abbrev pub terminated : List Text → Text
terminated [] = []
terminated (l ∷ lines) = l ++ b'\n' ∷ terminated lines

abbrev pub joined : List Text → Text
joined [] = []
joined (l ∷ []) = l
joined (l ∷ m ∷ lines) = l ++ b'\n' ∷ joined (m ∷ lines)

abbrev pub IsLine : Text → Type 0
IsLine l = any (λ c. c == b'\n') l ≡ false

abbrev pub ends_full : List Text → Bool
ends_full [] = true
ends_full (l ∷ []) = not (is_empty l)
ends_full (l ∷ m ∷ lines) = ends_full (m ∷ lines)

split_cons : (s : Text) → (part : Text) × (parts : List Text) × (split b'\n' s ≡ part ∷ parts)
unfolding split
split_cons [] = ([], [], refl)
split_cons (c ∷ s) = let (part, parts, e) = split_cons s in rw e (if_cons (c == b'\n') part parts)
  where
    if_cons :
        (b : Bool) (part : Text) (parts : List Text)
        → (p : Text) × (ps : List Text) × ((if b then [] ∷ part ∷ parts else (c ∷ part) ∷ parts)
            ≡ p ∷ ps)
    if_cons true part parts = ([], part ∷ parts, refl)
    if_cons false part parts = (c ∷ part, parts, refl)

split-append : (l s : Text) → IsLine l → split b'\n' (l ++ b'\n' ∷ s) ≡ l ∷ split b'\n' s
unfolding split any
split-append [] s h = let (part, parts, e) = split_cons s in rw e refl
split-append (c ∷ l) s h = rw (split-append l s (ground (arith, h))) (ground (arith, h))

split_line : (l : Text) → IsLine l → split b'\n' l ≡ l ∷ []
unfolding split any
split_line [] h = refl
split_line (c ∷ l) h = rw (split_line l (ground (arith, h))) (ground (arith, h))

pub split-joined :
    (l : Text) (lines : List Text)
    → All IsLine (l ∷ lines)
    → split b'\n' (joined (l ∷ lines)) ≡ l ∷ lines
split-joined l [] h = split_line l h.0
split-joined l (m ∷ lines) h =
    split-append l (joined (m ∷ lines)) h.0 ∙ ap (λ r. l ∷ r) (split-joined m lines h.1)

is_empty-append : (l s : Text) (c : ℕ) → is_empty (l ++ c ∷ s) ≡ false
is_empty-append [] s c = refl
is_empty-append (d ∷ l) s c = refl

trim_right-append :
    (l s : Text)
    → is_empty (trim_right b'\n' s) ≡ false
    → trim_right b'\n' (l ++ b'\n' ∷ s) ≡ l ++ b'\n' ∷ trim_right b'\n' s
unfolding trim_right
trim_right-append [] s h = rw h refl
trim_right-append (c ∷ l) s h =
    rw (trim_right-append l s h) (rw (is_empty-append l (trim_right b'\n' s) b'\n') refl)

trim_right_line : (l : Text) → IsLine l → trim_right b'\n' (l ++ b'\n' ∷ []) ≡ l
unfolding trim_right any
trim_right_line [] h = refl
trim_right_line (c ∷ l) h = rw (trim_right_line l (ground (arith, h))) (ground (arith, h))

pub joined_full :
    (l : Text) (lines : List Text)
    → ends_full (l ∷ lines) ≡ true
    → is_empty (joined (l ∷ lines)) ≡ false
joined_full l [] h = ground (arith, h)
joined_full l (m ∷ lines) h = is_empty-append l (joined (m ∷ lines)) b'\n'

pub trim_right-terminated :
    (lines : List Text)
    → All IsLine lines
    → ends_full lines ≡ true
    → trim_right b'\n' (terminated lines) ≡ joined lines
unfolding trim_right
trim_right-terminated [] a h = refl
trim_right-terminated (l ∷ []) a h = trim_right_line l a.0
trim_right-terminated (l ∷ m ∷ lines) a h =
    let e = trim_right-terminated (m ∷ lines) a.1 h in
    trim_right-append l (terminated (m ∷ lines)) (ap is_empty e ∙ joined_full m lines h)
    ∙ ap (λ s. l ++ b'\n' ∷ s) e
