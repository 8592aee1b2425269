-- ===== src/Db/Filter/Agreement.antt =====
-- Counting the keys that match, in a subquery, and one EXISTS per tag select the same versions.
use system_of_adownload.Prelude.{
  All, Bool-cases, List, Text, [], arith, false, inl, inr, length, refl, suc, text_eq, text_eq_iff,
  true, ℕ, ◌∷◌, ◌≡◌,
}
use system_of_adownload.Db.Filter.{count_distinct}
use system_of_adownload.Prelude.Rows.{any, select, IsUnique}

-- The values of a list that stand in another one, which has no repetition, are as many as the
-- places of the other one that it hits.
unfoldable pub hits : List Text → List Text → ℕ
unfolding select any
hits ks ws = length (select (λ w. any (text_eq w) ks) ws)

hits_none : (ws : List Text) → 0 ≡ hits [] ws
unfolding hits any select
hits_none [] = refl
hits_none (w ∷ ws) = hits_none ws

hits-missing :
    (k : Text) (ks ws : List Text) → any (text_eq k) ws ≡ false → hits (k ∷ ks) ws ≡ hits ks ws
unfolding hits any select
hits-missing k ks [] h = refl
hits-missing k ks (w ∷ ws) h =
    ground (arith, text_eq_iff k w, text_eq_iff w k, hits-missing k ks ws)

hits-again :
    (k : Text) (ks ws : List Text) → any (text_eq k) ks ≡ true → hits (k ∷ ks) ws ≡ hits ks ws
unfolding hits any select
hits-again k ks [] h = refl
hits-again k ks (w ∷ ws) h = elim (Bool-cases (text_eq w k)) [
  | inl e ↦ ground (arith, text_eq_iff w k, hits-again k ks ws)
  | inr e ↦ ground (arith, hits-again k ks ws)
]

hits-first :
    (k : Text) (ks ws : List Text)
    → IsUnique text_eq ws
    → any (text_eq k) ks ≡ false
    → any (text_eq k) ws ≡ true
    → hits (k ∷ ks) ws ≡ suc (hits ks ws)
unfolding hits any select
hits-first k ks [] u h e = ground arith
hits-first k ks (w ∷ ws) u h e = elim (Bool-cases (text_eq w k)) [
  | inl e' ↦ ground (arith, text_eq_iff w k, hits-missing k ks ws)
  | inr e' ↦ ground (arith, text_eq_iff w k, text_eq_iff k w, hits-first k ks ws)
]

pub count_distinct-hits :
    (ks ws : List Text)
    → IsUnique text_eq ws
    → All (λ k. any (text_eq k) ws ≡ true) ks
    → count_distinct ks ≡ hits ks ws
unfolding count_distinct
count_distinct-hits [] ws u h = hits_none ws
count_distinct-hits (k ∷ ks) ws u h =
    ground (arith, count_distinct-hits ks ws u h.1, hits-again k ks ws, hits-first k ks ws u)
