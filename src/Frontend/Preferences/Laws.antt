-- ===== src/Frontend/Preferences/Laws.antt =====
-- What the settings page saves and what it shows then.
use system_of_adownload.Prelude.{
  Bool, List, Text, [], codes, false, map, refl, some, true, ◌∷◌, ◌≡◌,
}
use system_of_adownload.Frontend.Preferences.{
  Request, parse_bool_pref, bool_pref_string, Cookie, write_preferences, is_one, settings_page,
  redirected, settings_submit,
}
use system_of_adownload.Prelude.Map.{Map, lookup}

-- The cookies that the browser sends back.
abbrev sent : List Cookie → Map Text
sent cs = map (λ c. (c.name, c.value)) cs

-- The request that follows the redirection.
abbrev after_redirect : List Cookie → Request
after_redirect cs = record { cookies = sent cs; query = (codes "saved", codes "1") ∷ [] }

parse_bool_pref-bool_pref_string : (v : Bool) → parse_bool_pref (bool_pref_string v) ≡ some v
parse_bool_pref-bool_pref_string true = refl
parse_bool_pref-bool_pref_string false = refl

shown_saved :
    (a b : Bool)
    → settings_page
        (after_redirect (write_preferences (record { show_pre_release = a; filter_api = b })))
      ≡ record { show_pre_release = a; filter_api = b; saved = true }
unfolding settings_page write_preferences
shown_saved true true = refl
shown_saved true false = refl
shown_saved false true = refl
shown_saved false false = refl

-- A form that parses is answered with a redirection, and where the browser sends its cookies with the
-- request that follows, the settings page shows a box as set exactly if the form had "1" for it, and
-- that it is saved.
settings_submit-settings_page :
    (form : Map Text)
    → (cs : List Cookie) × (settings_submit (some form) ≡ redirected cs (codes "/settings?saved=1"))
      × (settings_page (after_redirect cs) ≡ record {
        show_pre_release = is_one (lookup (codes "prerelease") form);
        filter_api = is_one (lookup (codes "apifilter") form);
        saved = true;
      })
unfolding settings_submit
settings_submit-settings_page form = (_, refl, shown_saved _ _)
