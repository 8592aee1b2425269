-- ===== src/Frontend/Preferences.antt =====
-- internal/frontend/preferences.go, and the settings page of handlers.go. Of a request there are the
-- values of the cookies, of the query and of the posted form, each the first of its name.
pub mod Laws
use system_of_adownload.Prelude.{
  Bool, List, Option, Text, [], codes, false, if◌then◌else◌, none, some, text_eq, true, ◌∷◌, ℕ, ◌*◌,
}
use system_of_adownload.Prelude.Map.{Map, lookup}

-- `Preferences`
pub record Preferences : Type 0 where
  pub show_pre_release : Bool
  pub filter_api : Bool

pub record Request : Type 0 where
  pub cookies : Map Text
  pub query : Map Text

abbrev cookie_pre_release : Text
cookie_pre_release = codes "prerelease"

abbrev cookie_api_filter : Text
cookie_api_filter = codes "apifilter"

-- `parseBoolPref`
abbrev pub parse_bool_pref : Text → Option Bool
parse_bool_pref s =
    if text_eq s (codes "1") then some true else if text_eq s (codes "0") then some false else none

abbrev pub bool_pref_string : Bool → Text
bool_pref_string v = if v then codes "1" else codes "0"

-- A value that is there and is "1" or "0", else what was before.
abbrev or_before : Bool → Option Bool → Bool
or_before before none = before
or_before before (some v) = v

abbrev read_value : Bool → Option Text → Bool
read_value before none = before
read_value before (some s) = or_before before (parse_bool_pref s)

-- `ReadPreferences`: the defaults, then the cookies, then the query.
unfoldable pub read_preferences : Request → Preferences
unfolding lookup
read_preferences r =
    let pref = λ (name : Text) (default : Bool).
      read_value (read_value default (lookup name r.cookies)) (lookup name r.query) in
    record {
      show_pre_release = pref cookie_pre_release false;
      filter_api = pref cookie_api_filter true;
    }

-- `http.Cookie`, with the fields that are set; SameSite is Lax.
pub record Cookie : Type 0 where
  pub name : Text
  pub value : Text
  pub path : Text
  pub max_age : ℕ

abbrev bool_cookie : Text → Bool → Cookie
bool_cookie name v = record {
  name = name;
  value = bool_pref_string v;
  path = codes "/";
  max_age = 365 * 24 * 3600;
}

-- `WritePreferences`: the cookies of the response.
unfoldable pub write_preferences : Preferences → List Cookie
write_preferences p =
    bool_cookie cookie_pre_release p.show_pre_release
    ∷ bool_cookie cookie_api_filter p.filter_api
    ∷ []

-- `SettingsPage`
pub record SettingsPage : Type 0 where
  pub show_pre_release : Bool
  pub filter_api : Bool
  pub saved : Bool

abbrev pub is_one : Option Text → Bool
is_one none = false
is_one (some s) = text_eq s (codes "1")

-- `handleSettings`
unfoldable pub settings_page : Request → SettingsPage
unfolding read_preferences lookup
settings_page r =
    let p = read_preferences r in
    record {
      show_pre_release = p.show_pre_release;
      filter_api = p.filter_api;
      saved = is_one (lookup (codes "saved") r.query);
    }

-- What `handleSettingsSubmit` answers.
pub data SubmitAnswer : Type 0 where
  invalid_form : SubmitAnswer
  redirected : List Cookie → Text → SubmitAnswer

-- `handleSettingsSubmit`: `none` is a form that does not parse, or that is too long.
unfoldable pub settings_submit : Option (Map Text) → SubmitAnswer
unfolding write_preferences lookup
settings_submit none = invalid_form
settings_submit (some form) =
    redirected
      (write_preferences (record {
        show_pre_release = is_one (lookup (codes "prerelease") form);
        filter_api = is_one (lookup (codes "apifilter") form);
      }))
      (codes "/settings?saved=1")
