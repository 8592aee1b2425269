-- ===== src/Gitcache/Clones.antt =====
-- A clone is found again.
use system_of_adownload.Prelude.{
  Bool, List, Option, Text, ap, arith, none, some, sym, text_eq, text_eq_refl, true, ◌≡◌,
}
use system_of_adownload.Gitcache.{
  repo_path, cloned_at, ensured, resolved, ensure_cloned, resolve_repo,
}
use system_of_adownload.Prelude.Rows.{any}

module _ (parse : Text → Option (Text × Text)) (join : Text → Text → Text → Text) (base_dir : Text)
    (clone fetch : Text → Text → Bool) where
  cloned_at-lem :
      (url path q : Text) (repos repos' : List Text)
      → cloned_at parse join base_dir clone fetch url repos path ≡ (some q, repos')
      → (q ≡ path) × (any (λ p. text_eq p path) repos' ≡ true)
  unfolding any
  cloned_at-lem url path q repos repos' h = ground (arith, h, text_eq_refl path)

  resolved-ensured :
      (url path : Text) (repos repos' : List Text) (o : Option Text)
      → ensured parse join base_dir clone fetch url repos o ≡ (some path, repos')
      → resolved parse join base_dir repos' o ≡ some path
  resolved-ensured url path repos repos' none h = absurd cc
  resolved-ensured url path repos repos' (some p) h =
      let (e, f) = cloned_at-lem url p path repos repos' h in rw f (ap some (sym e))

  -- After an `EnsureCloned` that succeeds, `ResolveRepo` gives the path of the clone.
  resolve_repo-ensure_cloned :
      (url path : Text) (repos repos' : List Text)
      → ensure_cloned parse join base_dir clone fetch url repos ≡ (some path, repos')
      → resolve_repo parse join base_dir url repos' ≡ some path
  unfolding ensure_cloned resolve_repo
  resolve_repo-ensure_cloned url path repos repos' h =
      resolved-ensured url path repos repos' (repo_path parse join base_dir url) h
