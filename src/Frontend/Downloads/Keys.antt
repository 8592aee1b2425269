-- ===== src/Frontend/Downloads/Keys.antt =====
-- The keys of the tags that the downloads page asks for.
use system_of_adownload.Prelude.{
  Bool, Bool-cases, Option-cases, Text, [], arith, false, if◌then◌else◌, inl, inr, refl, text_eq,
  text_eq_iff, true, ◌∙◌, ◌∷◌, ◌≡◌,
}
use system_of_adownload.Db.Filter.Exists.{same_key}
use system_of_adownload.Frontend.Config.{PlatformConfig}
use system_of_adownload.Frontend.Downloads.{add_all, tag_filter_of}
use system_of_adownload.Prelude.Map.{Map, insert, lookup}
use system_of_adownload.Prelude.Rows.{any, IsUnique}

-- An insertion keeps each key once.
any-insert :
    (a : Text × Text) (k v : Text) (m : Map Text)
    → any (same_key a) (insert k v m) ≡ (if text_eq a.0 k then true else any (same_key a) m)
unfolding any insert
any-insert a k v [] = refl
any-insert a k v ((j, w) ∷ m) =
    ground (arith, text_eq_iff j k, text_eq_iff a.0 k, text_eq_iff a.0 j, any-insert a k v m)

insert-IsUnique :
    (k v : Text) (m : Map Text) → IsUnique same_key m → IsUnique same_key (insert k v m)
unfolding any insert
insert-IsUnique k v [] u = (refl, tt)
insert-IsUnique k v ((j, w) ∷ m) u = elim (Bool-cases (text_eq j k)) [
  | inl e ↦ rw e (ground (arith, (text_eq_iff j k).0 e, u.0), u.1)
  | inr e ↦ rw e (any-insert (j, w) k v m ∙ rw e u.0, insert-IsUnique k v m u.1)
]

add_all-IsUnique :
    (mods tags : Map Text) → IsUnique same_key tags → IsUnique same_key (add_all mods tags)
unfolding add_all
add_all-IsUnique [] tags u = u
add_all-IsUnique ((k, v) ∷ mods) tags u =
    add_all-IsUnique mods (insert k v tags) (insert-IsUnique k v tags u)

pub tag_filter_of-IsUnique :
    (platform : PlatformConfig) (selected : Text) (filter_api : Bool)
    → IsUnique same_key (tag_filter_of platform selected filter_api)
unfolding tag_filter_of any
tag_filter_of-IsUnique platform selected false = (refl, tt)
tag_filter_of-IsUnique platform selected true =
    elim (Option-cases (lookup selected platform.query_modifiers)) [
      | inl e ↦ rw e (refl, tt)
      | inr (mods, e) ↦ rw e (add_all-IsUnique mods _ (refl, tt))
    ]
