-- ===== src/Db/Details/Laws.antt =====
-- Reading the default value of a tag.
use system_of_adownload.Prelude.{
  Bool, if◌then◌else◌, true, false, Option, Text, [], arith, inl, inr, ◌⊎◌, codes, none, refl, some,
  ◌∙◌, ◌≡◌,
}
use system_of_adownload.Db.Details.{default_value, empty_value, get_default_tag_value}
use system_of_adownload.Db.Models.{Store}
use system_of_adownload.Db.Registry.{one}
use system_of_adownload.Db.Tx.{no_rows, other, Result, ok, err, Db, after, attempt, Faults, ask}
use system_of_adownload.Db.Tx.Laws.{after-keeps}

empty_value-store : (r : Result Text) (s : Store) → (empty_value r s).1 ≡ s
empty_value-store (ok v) s = refl
empty_value-store (err no_rows) s = refl
empty_value-store (err e) s = refl

one-store : (o : Option Text) (s : Store) → (one o s).1 ≡ s
one-store none s = refl
one-store (some a) s = refl

abbrev query : Faults → Text → Text → Text → Db Text
query fails group artifact key =
    ask fails (codes "GetDefaultTagValue") 0 (λ s. one (default_value group artifact key s) s)

query-store :
    (fails : Faults) (group artifact key : Text) (s : Store)
    → (query fails group artifact key s).1 ≡ s
query-store fails group artifact key s =
    ground (arith, one-store (default_value group artifact key s) s)

-- The read does not change the store.
pub get_default_tag_value-store :
    (fails : Faults) (group artifact key : Text) (s : Store)
    → (get_default_tag_value fails group artifact key s).1 ≡ s
unfolding get_default_tag_value
get_default_tag_value-store fails group artifact key s =
    after-keeps (λ t. t) empty_value (attempt (query fails group artifact key) s) empty_value-store
    ∙ query-store fails group artifact key s

read_cases :
    (b : Bool) (o : Option Text) (s : Store)
    → ((b ≡ true)
        × ((after empty_value (attempt (λ t. if b then (err other, t) else one o t) s)).0
            ≡ err other))
      ⊎ ((o ≡ none)
          × ((after empty_value (attempt (λ t. if b then (err other, t) else one o t) s)).0
              ≡ ok []))
      ⊎ ((v : Text) × (o ≡ some v)
          × ((after empty_value (attempt (λ t. if b then (err other, t) else one o t) s)).0 ≡ ok v))
read_cases true o s = inl (refl, refl)
read_cases false none s = inr (inl (refl, refl))
read_cases false (some v) s = inr (inr (v, refl, refl))

-- The read fails with the connection; otherwise it gives the value that stands in the tables, or
-- nothing, where there is none.
pub get_default_tag_value-read :
    (fails : Faults) (group artifact key : Text) (s : Store)
    → ((fails (codes "GetDefaultTagValue") 0 ≡ true)
        × ((get_default_tag_value fails group artifact key s).0 ≡ err other))
      ⊎ ((default_value group artifact key s ≡ none)
          × ((get_default_tag_value fails group artifact key s).0 ≡ ok []))
      ⊎ ((v : Text) × (default_value group artifact key s ≡ some v)
          × ((get_default_tag_value fails group artifact key s).0 ≡ ok v))
unfolding get_default_tag_value
get_default_tag_value-read fails group artifact key s =
    read_cases (fails (codes "GetDefaultTagValue") 0) (default_value group artifact key s) s
