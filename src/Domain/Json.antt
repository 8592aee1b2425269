-- ===== src/Domain/Json.antt =====
-- Package encoding/json, as far as internal/domain uses it: `Marshal` makes a value of a struct by its
-- tags, and `Unmarshal` reads one back, a field after another. The syntax of JSON and the escapes of
-- its strings are left out: a column of type jsonb holds the value.
pub mod Schemas
pub mod Commits
pub mod Laws
use system_of_adownload.Prelude.{
  All, Bool, List, Option, Text, [], codes, false, if◌then◌else◌, is_empty, lower, map, none, refl,
  some, text_eq, true, ℕ, ◌==◌, ◌∷◌, ◌≡◌,
}

mutual
  pub data Json : Type 0 where
    null : Json
    bool : Bool → Json
    string : Text → Json
    array : Items → Json
    object : Members → Json

  pub data Items : Type 0 where
    nil : Items
    cons : Json → Items → Items

  pub data Members : Type 0 where
    end : Members
    member : Text → Json → Members → Members

-- `j->>'key' IS NOT NULL` of Postgres: the object has the key, and not with null.
unfoldable pub has_member : Text → Members → Bool
has_member key end = false
has_member key (member k null rest) = if text_eq k key then false else has_member key rest
has_member key (member k j rest) = if text_eq k key then true else has_member key rest

abbrev pub has_value : Text → Json → Bool
has_value key (object ms) = has_member key ms
has_value key _ = false

-- A name without regard to case, as package json folds it: K is also the Kelvin sign, and S the long s.
abbrev fold_rune : ℕ → ℕ
fold_rune c = if c == 0x212a then b'k' else if c == 0x17f then b's' else lower c

-- The name of a member is that of a field.
abbrev pub is_key : Text → Text → Bool
is_key name key = text_eq (map fold_rune key) (map fold_rune name)

-- A tag with `omitempty` on a text.
abbrev pub omit_text : Text → Text → Members → Members
omit_text name [] rest = rest
omit_text name (c ∷ t) rest = member name (string (c ∷ t)) rest

-- What a member of a field's type does to the value; null leaves it as it is, and another kind of
-- value is an error.
abbrev pub put_text {ℓ} : {A : Type ℓ} → (Text → A) → A → Json → Option A
put_text set a null = some a
put_text set a (string t) = some (set t)
put_text set a _ = none

abbrev pub put_bool {ℓ} : {A : Type ℓ} → (Bool → A) → A → Json → Option A
put_bool set a null = some a
put_bool set a (bool b) = some (set b)
put_bool set a _ = none

abbrev pub set_list {ℓ κ} : {A : Type ℓ} {B : Type κ} → (List A → B) → Option (List A) → Option B
set_list set none = none
set_list set (some xs) = some (set xs)

abbrev pub and_then {ℓ κ} : {A : Type ℓ} {B : Type κ} → Option A → (A → Option B) → Option B
and_then none f = none
and_then (some a) f = f a

-- The fields of a struct: `put` says what a member does.
pub read_members {ℓ} : {A : Type ℓ} → (Text → Json → A → Option A) → A → Members → Option A
read_members put a end = some a
read_members put a (member k j rest) = and_then (put k j a) (λ b. read_members put b rest)

abbrev pub read_struct {ℓ} : {A : Type ℓ} → (Text → Json → A → Option A) → A → Json → Option A
read_struct put a null = some a
read_struct put a (object ms) = read_members put a ms
read_struct put a _ = none

abbrev consed {ℓ} : {A : Type ℓ} → Option A → Option (List A) → Option (List A)
consed (some x) (some xs) = some (x ∷ xs)
consed _ _ = none

pub read_items {ℓ} : {A : Type ℓ} → (Json → Option A) → Items → Option (List A)
read_items read nil = some []
read_items read (cons j rest) = consed (read j) (read_items read rest)

-- A slice of structs.
abbrev pub put_list {ℓ κ} :
    {A : Type ℓ} {B : Type κ} → (Json → Option A) → (List A → B) → B → Json → Option B
put_list read set b null = some (set [])
put_list read set b (array js) = set_list set (read_items read js)
put_list read set b _ = none

pub items_of {ℓ} : {A : Type ℓ} → (A → Json) → List A → Items
items_of show [] = nil
items_of show (x ∷ xs) = cons (show x) (items_of show xs)

-- What each element gives back, the list gives back.
pub read_items-items_of {ℓ} :
    {A : Type ℓ} (read : Json → Option A) (show : A → Json) (xs : List A)
    → All (λ x. read (show x) ≡ some x) xs
    → read_items read (items_of show xs) ≡ some xs
unfolding read_items items_of
read_items-items_of read show [] h = refl
read_items-items_of read show (x ∷ xs) (h, hs) = rw (h, read_items-items_of read show xs hs) refl
