-- ===== src/Httpapi/Auth.antt =====
-- internal/httpapi/auth.go: bearer tokens with scopes.
pub mod Laws
use system_of_adownload.Prelude.{
  Bool, List, Option, Text, [], codes, drop, has_prefix, if◌then◌else◌, is_empty, none, some,
  text_eq, true, ◌∷◌,
}
use system_of_adownload.Prelude.Map.{Map, lookup, insert}

-- `operationScope`, with the scopes as texts.
abbrev pub scope_admin : Text
scope_admin = codes "admin"

abbrev pub scope_sync : Text
scope_sync = codes "sync"

abbrev pub operation_scope : Map Text
operation_scope =
    (codes "RegisterGroup", scope_admin)
    ∷ (codes "RegisterArtifact", scope_admin)
    ∷ (codes "UpdateArtifact", scope_admin)
    ∷ (codes "PutArtifactSchema", scope_admin)
    ∷ (codes "TriggerSync", scope_sync)
    ∷ []

-- `scopeIncludes`
pub scope_includes : Text → Text → Bool
scope_includes has need = if text_eq has need then true else text_eq has scope_admin

-- `TokenSet`: from the token to its scope.
abbrev pub TokenSet : Type 0
TokenSet = Map Text

-- The two loops of `NewTokenSet`.
pub add_admin_tokens : List Text → TokenSet → TokenSet
add_admin_tokens [] ts = ts
add_admin_tokens (t ∷ tokens) ts =
    add_admin_tokens tokens (if is_empty t then ts else insert t scope_admin ts)

-- An admin token is not downgraded.
pub add_sync_tokens : List Text → TokenSet → TokenSet
add_sync_tokens [] ts = ts
add_sync_tokens (t ∷ tokens) ts =
    add_sync_tokens tokens (
      if is_empty t then ts else elim (lookup t ts) [ some s ↦ ts | none ↦ insert t scope_sync ts ])

unfoldable pub new_token_set : List Text → List Text → TokenSet
unfolding add_admin_tokens add_sync_tokens lookup insert
new_token_set admin_tokens sync_tokens =
    add_sync_tokens sync_tokens (add_admin_tokens admin_tokens [])

-- The outcomes of the middleware: the handler runs, or the request ends with 401 or 403.
pub data Outcome : Type 0 where
  handled unauthorized forbidden : Outcome

-- `strings.TrimPrefix(auth, "Bearer ")`, behind the test for the prefix.
pub bearer : Text → Option Text
unfolding has_prefix
bearer auth = if has_prefix auth (codes "Bearer ") then some (drop 7 auth) else none

abbrev check_scope : Text → Option Text → Outcome
check_scope need none = unauthorized
check_scope need (some has) = if scope_includes has need then handled else forbidden

abbrev check_bearer : TokenSet → Text → Option Text → Outcome
check_bearer ts need none = unauthorized
check_bearer ts need (some b) = check_scope need (lookup b ts)

-- `AdminAuthMiddleware`, on the header "Authorization"; the nil `TokenSet` is the empty one.
unfoldable pub admin_auth : TokenSet → Text → Text → Outcome
unfolding scope_includes bearer lookup
admin_auth ts operation auth = elim (lookup operation operation_scope) [
  | none ↦ handled
  | some need ↦ if is_empty ts then handled else check_bearer ts need (bearer auth)
]
