-- ===== src/Gitcache/Trees.antt =====
-- The submodules that the two readers find.
use mathlib.Core.Path.{ap₂}
use system_of_adownload.Prelude.{
  Bool, Bool-cases, List, Option, Text, [], ap, arith, codes, cut_at, false, if◌then◌else◌, inl,
  inr, is_empty, is_space, none, refl, some, sym, text_eq, true, ℕ, ◌++◌, ◌==◌, ◌∙◌, ◌∷◌, ◌≡◌,
}
use system_of_adownload.Gitcache.GoGit.{
  TreeEntry, ModulesFile, no_file, unreadable, modules_file, Repository, entry_ref, entry_refs,
  read_tree, at_repository, read_submodules,
}
use system_of_adownload.Gitcache.Modules.{parse_gitmodules}
use system_of_adownload.Gitcache.Shell.{
  Git, add_to, put_char, words_from, fields, ref_of, add_ref, tree_ref, tree_refs, list_refs,
  resolve_submodules,
}
use system_of_adownload.Prelude.Map.{Map, lookup}
use system_of_adownload.Prelude.Rows.{any}

-- A word: not empty, and without blanks.
abbrev IsWord : Text → Type 0
IsWord w = (is_empty w ≡ false) × (any is_space w ≡ false)

first_char :
    (c : ℕ) (b : Bool) (words : List Text)
    → is_space c ≡ false
    → put_char c (b, words) ≡ (false, if b then (c ∷ []) ∷ words else add_to c words)
first_char c b words h = rw h refl

no_blank :
    (c : ℕ) (w : Text)
    → any is_space (c ∷ w) ≡ false
    → (is_space c ≡ false) × (any is_space w ≡ false)
unfolding any
no_blank c w h = ground (arith, h)

words_from-append :
    (c : ℕ) (w s : Text)
    → any is_space (c ∷ w) ≡ false
    → words_from ((c ∷ w) ++ b' ' ∷ s) ≡ (false, (c ∷ w) ∷ fields s)
unfolding words_from is_space
words_from-append c [] s h = first_char c true (fields s) (no_blank c [] h).0
words_from-append c (d ∷ w) s h =
    ap (put_char c) (words_from-append d w s (no_blank c (d ∷ w) h).1)
    ∙ first_char c false ((d ∷ w) ∷ fields s) (no_blank c (d ∷ w) h).0

words_from_word :
    (c : ℕ) (w : Text) → any is_space (c ∷ w) ≡ false → words_from (c ∷ w) ≡ (false, (c ∷ w) ∷ [])
unfolding words_from
words_from_word c [] h = first_char c true [] (no_blank c [] h).0
words_from_word c (d ∷ w) h =
    ap (put_char c) (words_from_word d w (no_blank c (d ∷ w) h).1)
    ∙ first_char c false ((d ∷ w) ∷ []) (no_blank c (d ∷ w) h).0

fields-append : (w s : Text) → IsWord w → fields (w ++ b' ' ∷ s) ≡ w ∷ fields s
fields-append [] s h = absurd (ground (arith, h.0))
fields-append (c ∷ w) s h = ap (λ z. z.1) (words_from-append c w s h.1)

fields_word : (w : Text) → IsWord w → fields w ≡ w ∷ []
fields_word [] h = absurd (ground (arith, h.0))
fields_word (c ∷ w) h = ap (λ z. z.1) (words_from_word c w h.1)

cut_at-append :
    (l s : Text)
    → any (λ c. c == b'\t') l ≡ false
    → cut_at (codes "\t") (l ++ b'\t' ∷ s) ≡ some (l, s)
unfolding cut_at any
cut_at-append [] s h = refl
cut_at-append (c ∷ l) s h =
    let (e, f) : ((c == b'\t') ≡ false) × (any (λ c. c == b'\t') l ≡ false) = ground (arith, h) in
    rw (cut_at-append l s f) (ground (arith, e))

no_tab : (w : Text) → any is_space w ≡ false → any (λ c. c == b'\t') w ≡ false
unfolding any is_space
no_tab [] h = refl
no_tab (c ∷ w) h = ground (arith, h, no_tab w)

-- Words with a blank between them.
no_tab-append :
    (w s : Text)
    → any is_space w ≡ false
    → any (λ c. c == b'\t') s ≡ false
    → any (λ c. c == b'\t') (w ++ b' ' ∷ s) ≡ false
unfolding any is_space
no_tab-append [] s h k = ground (arith, k)
no_tab-append (c ∷ w) s h k = ground (arith, h, k, no_tab-append w s)

-- A line of `git ls-tree` for an entry of the tree: the mode, the type, the hash and the name.
abbrev IsListed : Text → TreeEntry → Type 0
IsListed line e =
    (mode : Text) × (type : Text) × IsWord mode
    × IsWord type
    × IsWord e.hash
    × (text_eq type (codes "commit") ≡ e.is_submodule)
    × (line ≡ (mode ++ b' ' ∷ (type ++ b' ' ∷ e.hash)) ++ b'\t' ∷ e.name)

abbrev AreListed : List Text → List TreeEntry → Type 0
AreListed [] [] = Unit
AreListed (l ∷ lines) (e ∷ entries) = IsListed l e × AreListed lines entries
AreListed _ _ = ⊥

-- What `git show` says of the file.
abbrev IsShown : ModulesFile → Option (List Text) → Type 0
IsShown no_file shown = shown ≡ none
IsShown (modules_file lines) shown = shown ≡ some lines
IsShown unreadable shown = ⊥

module _ (urls : Map Text) where
  tree_ref-entry_ref :
      (line : Text) (e : TreeEntry) → IsListed line e → tree_ref urls line ≡ entry_ref urls e
  unfolding tree_ref any
  tree_ref-entry_ref line e (mode, type, m, t, h, s, l) =
      let words = mode ++ b' ' ∷ (type ++ b' ' ∷ e.hash) in
      let free : any (λ c. c == b'\t') words ≡ false =
        no_tab-append mode (type ++ b' ' ∷ e.hash) m.1
          (no_tab-append type e.hash t.1 (no_tab e.hash h.1)) in
      let parts : fields words ≡ mode ∷ type ∷ e.hash ∷ [] =
        fields-append mode (type ++ b' ' ∷ e.hash) m
        ∙ ap (λ ws. mode ∷ ws)
            (fields-append type e.hash t ∙ ap (λ ws. type ∷ ws) (fields_word e.hash h)) in
      ap (tree_ref urls) l
      ∙ rw (cut_at-append words e.name free, tree_ref) (ap (ref_of urls e.name) parts ∙ rw s refl)

  tree_refs-entry_refs :
      (lines : List Text) (entries : List TreeEntry)
      → AreListed lines entries
      → tree_refs urls lines ≡ entry_refs urls entries
  unfolding tree_refs entry_refs
  tree_refs-entry_refs [] [] h = refl
  tree_refs-entry_refs [] (e ∷ entries) h = absurd h
  tree_refs-entry_refs (l ∷ lines) [] h = absurd h
  tree_refs-entry_refs (l ∷ lines) (e ∷ entries) (h, a) =
      ap₂ add_ref (tree_ref-entry_ref l e h) (tree_refs-entry_refs lines entries a)

no_link :
    (e : TreeEntry) (entries : List TreeEntry) → entry_refs [] (e ∷ entries) ≡ entry_refs [] entries
unfolding entry_refs lookup
no_link e entries = elim (Bool-cases e.is_submodule) [ inl h ↦ rw h refl | inr h ↦ rw h refl ]

no_modules : (entries : List TreeEntry) → entry_refs [] entries ≡ []
unfolding entry_refs
no_modules [] = refl
no_modules (e ∷ entries) = no_link e entries ∙ no_modules entries

-- What both readers do with the lines of .gitmodules.
module _ (entries : List TreeEntry) where
  list_refs-read_tree :
      (urls : Map Text) (tree_lines : List Text)
      → AreListed tree_lines entries
      → (if is_empty urls then some [] else list_refs urls (some (tree_lines, true)))
        ≡ some (entry_refs urls entries)
  list_refs-read_tree [] tree_lines a = ap some (sym (no_modules entries))
  list_refs-read_tree (u ∷ urls) tree_lines a =
      ap some (tree_refs-entry_refs (u ∷ urls) tree_lines entries a)

-- Where git shows the file that go-git reads, and lists the entries of its tree: `Manager` and
-- `GoGitReader` give the same submodules, which are none where there is no file.
pub resolve_submodules-read_submodules :
    (git : Git) (plain_open : Text → Option Repository) (repo : Repository) (path sha : Text)
    (file : ModulesFile) (tree_lines : List Text) (entries : List TreeEntry)
    → plain_open path ≡ some repo
    → repo.tree sha ≡ some (file, entries)
    → IsShown file (git.show_modules path sha)
    → git.ls_tree path sha ≡ some (tree_lines, true)
    → AreListed tree_lines entries
    → resolve_submodules git path sha ≡ read_submodules plain_open path sha
unfolding resolve_submodules read_submodules
resolve_submodules-read_submodules git plain_open repo path sha no_file tree_lines entries o t m l
      a =
    rw (m, resolve_submodules)
      (sym (ap (at_repository (λ repo. read_tree (repo.tree sha))) o ∙ ap read_tree t))
resolve_submodules-read_submodules git plain_open repo path sha (modules_file lines) tree_lines
      entries o t m l a =
    let urls = parse_gitmodules lines in
    rw (m, resolve_submodules)
      (ap (λ shown. if is_empty urls then some [] else list_refs urls shown) l
        ∙ list_refs-read_tree entries urls tree_lines a
        ∙ sym (ap (at_repository (λ repo. read_tree (repo.tree sha))) o ∙ ap read_tree t))
resolve_submodules-read_submodules git plain_open repo path sha unreadable tree_lines entries o t m
      l a =
    absurd m
