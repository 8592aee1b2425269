-- ===== src/Httpapi/Auth/Laws.antt =====
-- Who passes the middleware.
-- The token is listed, and is not the empty text.
use system_of_adownload.Prelude.{
  Bool, List, Option, Text, [], ap, arith, codes, drop, false, has_prefix, if◌then◌else◌, is_empty,
  length, none, not, refl, some, sym, text_eq, text_eq_iff, true, ◌&&◌, ◌++◌, ◌||◌, ◌∙◌, ◌∷◌, ◌≡◌,
  ◌⊎◌,
}
use system_of_adownload.Httpapi.Auth.{
  scope_admin, scope_sync, operation_scope, scope_includes, TokenSet, add_admin_tokens,
  add_sync_tokens, new_token_set, Outcome, handled, unauthorized, forbidden, bearer, check_scope,
  check_bearer, admin_auth,
}
use system_of_adownload.Prelude.Map.{lookup, insert, lookup-insert}

abbrev pub is_listed : Text → List Text → Bool
is_listed t [] = false
is_listed t (x ∷ xs) = (text_eq x t && not (is_empty x)) || is_listed t xs

lookup-add_admin_tokens :
    (t : Text) (tokens : List Text) (ts : TokenSet)
    → lookup t (add_admin_tokens tokens ts)
      ≡ (if is_listed t tokens then some scope_admin else lookup t ts)
unfolding add_admin_tokens
lookup-add_admin_tokens t [] ts = refl
lookup-add_admin_tokens t (x ∷ tokens) ts = ground (
  arith,
  lookup-add_admin_tokens t tokens ts,
  lookup-add_admin_tokens t tokens (insert x scope_admin ts),
  lookup-insert x t scope_admin ts,
)

abbrev or_sync : Option Text → Bool → Option Text
or_sync (some s) listed = some s
or_sync none listed = if listed then some scope_sync else none

lookup-add_sync_tokens :
    (t : Text) (tokens : List Text) (ts : TokenSet)
    → lookup t (add_sync_tokens tokens ts) ≡ or_sync (lookup t ts) (is_listed t tokens)
unfolding add_sync_tokens
lookup-add_sync_tokens t [] ts = ground arith
lookup-add_sync_tokens t (x ∷ tokens) ts = ground (
  arith,
  lookup-add_sync_tokens t tokens ts,
  lookup-add_sync_tokens t tokens (insert x scope_sync ts),
  lookup-insert x t scope_sync ts,
  text_eq_iff x t,
)

or_sync-if :
    (a s : Bool)
    → or_sync (if a then some scope_admin else none) s
      ≡ (if a then some scope_admin else if s then some scope_sync else none)
or_sync-if a s = ground arith

-- A token has the scope admin if it is a non-empty admin token, and otherwise the scope sync if it
-- is a non-empty sync token; no other token is known.
lookup-new_token_set :
    (t : Text) (admins syncs : List Text)
    → lookup t (new_token_set admins syncs) ≡ (
        if is_listed t admins
        then some scope_admin
        else if is_listed t syncs
        then some scope_sync
        else none)
unfolding new_token_set lookup
lookup-new_token_set t admins syncs =
    lookup-add_sync_tokens t syncs (add_admin_tokens admins [])
    ∙ ap (λ o. or_sync o (is_listed t syncs)) (lookup-add_admin_tokens t admins [])
    ∙ or_sync-if (is_listed t admins) (is_listed t syncs)

-- The verdict on a token that the middleware looks up.
abbrev verdict : Bool → Bool → Text → Outcome
verdict admin sync need =
    if admin
    then handled
    else if sync
    then (if text_eq scope_sync need then handled else forbidden)
    else unauthorized

check_scope-verdict :
    (a s : Bool) (need : Text)
    → check_scope need (if a then some scope_admin else if s then some scope_sync else none)
      ≡ verdict a s need
unfolding scope_includes
check_scope-verdict a s need = ground (arith)

-- On an operation that needs a scope, with some token configured: a request with a bearer token
-- runs the handler if the token is an admin token, or a sync token and the needed scope is sync; a
-- sync token is refused with 403 otherwise, and every other token with 401.
pub admin_auth-verdict :
    (admins syncs : List Text) (operation need b : Text)
    → lookup operation operation_scope ≡ some need
    → is_empty (new_token_set admins syncs) ≡ false
    → admin_auth (new_token_set admins syncs) operation (codes "Bearer " ++ b)
      ≡ verdict (is_listed b admins) (is_listed b syncs) need
unfolding admin_auth
admin_auth-verdict admins syncs operation need b e h =
    rw (e, admin_auth)
      (rw h (
        rw (lookup-new_token_set b admins syncs)
          (check_scope-verdict (is_listed b admins) (is_listed b syncs) need)))

-- `strings.HasPrefix` and `strings.TrimPrefix`.
has_prefix-append : (s p : Text) → has_prefix s p ≡ true → s ≡ p ++ drop (length p) s
unfolding has_prefix
has_prefix-append s [] h = refl
has_prefix-append [] (x ∷ p) h = cc
has_prefix-append (c ∷ s) (x ∷ p) h = ground (arith, has_prefix-append s p)

bearer-eq-some : (auth b : Text) → bearer auth ≡ some b → auth ≡ codes "Bearer " ++ b
unfolding bearer
bearer-eq-some auth b h = ground (arith, has_prefix-append auth (codes "Bearer "))

verdict-handled :
    (a s : Bool) (need : Text)
    → verdict a s need ≡ handled
    → (a ≡ true) ⊎ ((s ≡ true) × (need ≡ scope_sync))
verdict-handled a s need h = ground (arith, text_eq_iff scope_sync need)

refused :
    (ts : TokenSet) (need : Text) (o : Option Text)
    → check_bearer ts need o ≡ handled
    → (b : Text) × (o ≡ some b)
refused ts need none h = absurd (cc)
refused ts need (some b) h = (b, refl)

admin_auth-checked :
    (ts : TokenSet) (operation need auth : Text)
    → lookup operation operation_scope ≡ some need
    → is_empty ts ≡ false
    → admin_auth ts operation auth ≡ check_bearer ts need (bearer auth)
unfolding admin_auth
admin_auth-checked ts operation need auth e h = rw (e, admin_auth) (rw h)

-- With some token configured, the handler of an operation that needs a scope runs only for a
-- request whose header is "Bearer " and a token that is a non-empty admin token or, where the
-- needed scope is sync, a non-empty sync token.
pub admin_auth_safe :
    (admins syncs : List Text) (operation need auth : Text)
    → lookup operation operation_scope ≡ some need
    → is_empty (new_token_set admins syncs) ≡ false
    → admin_auth (new_token_set admins syncs) operation auth ≡ handled
    → (b : Text) × (auth ≡ codes "Bearer " ++ b)
      × ((is_listed b admins ≡ true) ⊎ ((is_listed b syncs ≡ true) × (need ≡ scope_sync)))
admin_auth_safe admins syncs operation need auth e h ran =
    let checked : check_bearer (new_token_set admins syncs) need (bearer auth) ≡ handled =
      sym (admin_auth-checked (new_token_set admins syncs) operation need auth e h) ∙ ran in
    let (b, found) = refused (new_token_set admins syncs) need (bearer auth) checked in
    let split : auth ≡ codes "Bearer " ++ b = bearer-eq-some auth b found in
    (
      b,
      split,
      verdict-handled _ _ need (
          sym (admin_auth-verdict admins syncs operation need b e h)
          ∙ ap (admin_auth (new_token_set admins syncs) operation) (sym split)
          ∙ ran),
    )
