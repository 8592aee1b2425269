-- ===== src/Tests/Auth.antt =====
-- internal/httpapi/auth.go with one admin token and one sync token.
use system_of_adownload.Prelude.{List, Text, [], codes, refl, true, ◌++◌, ◌∷◌, ◌≡◌, ◌⊎◌}
use system_of_adownload.Httpapi.Auth.{scope_sync, new_token_set, handled, forbidden, admin_auth}
use system_of_adownload.Httpapi.Auth.Laws.{is_listed, admin_auth-verdict, admin_auth_safe}
use system_of_adownload.Prelude.Map.{lookup}

abbrev admins : List Text
admins = codes "secret" ∷ []

abbrev syncs : List Text
syncs = codes "cron" ∷ codes "secret" ∷ []

sync_token_is_forbidden :
    admin_auth (new_token_set admins syncs) (codes "RegisterGroup") (codes "Bearer cron")
    ≡ forbidden
unfolding admin_auth new_token_set
sync_token_is_forbidden = refl

admin_auth-verdict_example :
    admin_auth (new_token_set admins syncs) (codes "TriggerSync") (codes "Bearer cron") ≡ handled
unfolding new_token_set lookup
admin_auth-verdict_example =
    admin_auth-verdict admins syncs (codes "TriggerSync") scope_sync (codes "cron") refl refl

admin_auth_safe_example :
    (b : Text) × (codes "Bearer cron" ≡ codes "Bearer " ++ b)
    × ((is_listed b admins ≡ true) ⊎ ((is_listed b syncs ≡ true) × (scope_sync ≡ scope_sync)))
unfolding new_token_set lookup admin_auth
admin_auth_safe_example =
    admin_auth_safe admins syncs (codes "TriggerSync") scope_sync (codes "Bearer cron") refl refl
      refl
