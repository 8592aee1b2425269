-- ===== src/Gitcache/Modules.antt =====
-- `parseGitmodules` of internal/gitcache/manager.go, on the lines that the scanner gives.
use system_of_adownload.Prelude.{
  List, Text, [], before, codes, drop, has_prefix, if◌then◌else◌, is_empty, length, none, not, some,
  suc, text_eq, trim_space, ◌&&◌, ◌∷◌,
}
use system_of_adownload.Prelude.Map.{Map, insert}

-- `currentPath` and `currentURL`
record Section : Type 0 where
  pub path : Text
  pub url : Text

abbrev no_section : Section
no_section = record { path = []; url = [] }

-- "Flush previous entry"
abbrev flush : Section → Map Text → Map Text
flush s urls =
    if not (is_empty s.path) && not (is_empty s.url) then insert s.path s.url urls else urls

abbrev set_key : Text → Text → Section → Section
set_key key value s =
    if text_eq key (codes "path")
    then record s { path = value }
    else if text_eq key (codes "url")
    then record s { url = value }
    else s

-- A line with a `=` that is not its first character.
unfoldable read_key : Text → Section → Section
unfolding before trim_space
read_key line s = elim (before b'=' line) [
  | none ↦ s
  | some key ↦
      if is_empty key
      then s
      else set_key (trim_space key) (trim_space (drop (suc (length key)) line)) s
]

unfoldable read_lines : List Text → Section → Map Text → Map Text
unfolding read_key has_prefix trim_space insert
read_lines [] s urls = flush s urls
read_lines (l ∷ lines) s urls =
    let line = trim_space l in
    let is_section = has_prefix line (codes "[submodule ") in
    read_lines lines (if is_section then no_section else read_key line s)
      (if is_section then flush s urls else urls)

-- `parseGitmodules`
unfoldable pub parse_gitmodules : List Text → Map Text
unfolding read_lines
parse_gitmodules lines = read_lines lines no_section []
