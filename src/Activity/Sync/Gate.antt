-- ===== src/Activity/Sync/Gate.antt =====
-- `fetchVersionsMetadata`: which candidates it accepts.
use system_of_adownload.Prelude.{
  Bool, Bool-cases, List, Option, Text, [], arith, false, inl, inr, length, none, refl, some, true,
  ◌||◌, ◌∷◌, ◌≡◌, ◌≢◌, ◌≤◌, ◌<◌, ◌⊎◌,
}
use system_of_adownload.Activity.Sync.{VersionInfo, is_known, is_unknown, on_ok, accept, gate}
use system_of_adownload.Db.Tx.{Error, Result, ok, err}
use system_of_adownload.Prelude.Rows.{find, select}

abbrev is_found : Result Bool → Bool
is_found (ok b) = b
is_found (err e) = false

abbrev is_error : Result Bool → Bool
is_error (ok b) = false
is_error (err e) = true

Probe-cases : (r : Result Bool) → (r ≡ ok true) ⊎ (r ≡ ok false) ⊎ ((e : Error) × (r ≡ err e))
Probe-cases (ok true) = inl refl
Probe-cases (ok false) = inr (inl refl)
Probe-cases (err e) = inr (inr (e, refl))

module _ (probe : Text → Result Bool) (existing : List Text) where
  -- A probe that finds assets.
  abbrev has_assets : VersionInfo → Bool
  has_assets v = is_found (probe v.version)

  -- A probe that fails.
  abbrev pub is_failing : VersionInfo → Bool
  is_failing v = is_error (probe v.version)

  abbrev pub is_accepted : VersionInfo → Bool
  is_accepted v = is_known existing v || has_assets v

  -- What the probes give, with the first of the unknown candidates whose probe fails: without one, the
  -- accepted candidates; otherwise the error of that probe.
  abbrev pub IsProbed : List VersionInfo → Option VersionInfo → Result (List VersionInfo) → Type 0
  IsProbed candidates none r = r ≡ ok (select is_accepted candidates)
  IsProbed candidates (some v) r = (e : Error) × (probe v.version ≡ err e) × (r ≡ err e)

  keep-IsProbed :
      (v : VersionInfo) (rest : List VersionInfo) (o : Option VersionInfo)
      (later : Result (List VersionInfo))
      → is_accepted v ≡ true
      → IsProbed rest o later
      → IsProbed (v ∷ rest) o (on_ok (λ kept. v ∷ kept) later)
  unfolding select
  keep-IsProbed v rest none later a h = rw (h, a) refl
  keep-IsProbed v rest (some w) later a (e, p, h) = (e, p, rw h refl)

  drop-IsProbed :
      (v : VersionInfo) (rest : List VersionInfo) (o : Option VersionInfo)
      (later : Result (List VersionInfo))
      → is_accepted v ≡ false
      → IsProbed rest o later
      → IsProbed (v ∷ rest) o later
  unfolding select
  drop-IsProbed v rest none later a h = rw (h, a) refl
  drop-IsProbed v rest (some w) later a h = h

  accept-IsProbed :
      (candidates : List VersionInfo)
      → IsProbed candidates
          (find is_failing (select (is_unknown existing) candidates))
          (accept probe existing candidates)
  unfolding accept select find
  accept-IsProbed [] = refl
  accept-IsProbed (v ∷ rest) =
      let ih = accept-IsProbed rest in
      let o = find is_failing (select (is_unknown existing) rest) in
      let later = accept probe existing rest in
      elim (Bool-cases (is_known existing v)) [
        | inl k ↦ rw k (keep-IsProbed v rest o later (rw k refl) ih)
        | inr k ↦ elim (Probe-cases (probe v.version)) [
          | inl p ↦ rw (k, p) (keep-IsProbed v rest o later (rw (k, p) refl) ih)
          | inr (inl p) ↦ rw (k, p) (drop-IsProbed v rest o later (rw (k, p) refl) ih)
          | inr (inr (e, p)) ↦ rw (k, p) (e, p, refl)
        ]
      ]

  -- With nothing stored, or with more than 50 unknown candidates, no version passes. Otherwise each
  -- unknown candidate is probed, in order, up to the first probe that fails, whose error is the result;
  -- where none fails, those that pass are exactly the candidates that are stored already or that have
  -- assets, in their order.
  pub gate_lem :
      (candidates : List VersionInfo)
      → (((existing ≡ []) ⊎ (50 < length (select (is_unknown existing) candidates)))
          × (gate probe candidates existing ≡ ok []))
        ⊎ ((existing ≢ [])
            × (length (select (is_unknown existing) candidates) ≤ 50)
            × IsProbed candidates
                (find is_failing (select (is_unknown existing) candidates))
                (gate probe candidates existing))
  unfolding gate
  gate_lem candidates = ground (arith, accept-IsProbed candidates)
