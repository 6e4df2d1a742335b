-- ===== src/Notifications/Preferences.antt =====
-- `update_preferences` and `get_preferences`: what users ask for.
pub mod Stored
use plomio.Notifications.{
  NotificationEvent, NotificationEventPreference, NotificationSetting, Preferences, Messaging,
  Catalog, has_text, get_by_code, set_template, List, String, Bool, ℕ, true, Option, str_eq, none,
  some, not, get_or_create, filter_where,
}
use plomio.Prelude.{
  Bool, List, ℕ, String, str_eq, ◌∷◌, Option, true, none, ◌&&◌, if◌then◌else◌, ◌||◌, some, map,
  ◌==◌, not, [], filter_where,
}

pub data NotificationError : Type 0 where
  unknown_notification_event : NotificationError
  invalid_notification_field_filter invalid_notification_template : NotificationError

-- `a <= b` of two sets.
abbrev pub is_subset : List String → List String → Bool
is_subset [] ys = true
is_subset (x ∷ xs) ys = has_text x ys && is_subset xs ys

-- `ADMIN_ONLY_EVENT_CODES`
abbrev pub is_admin_only : String → Bool
is_admin_only code =
    str_eq code "system.sessions_depleted" || str_eq code "system.sessions_restored"

abbrev pub or_later : Option NotificationError → Option NotificationError → Option NotificationError
or_later none later = later
or_later (some e) later = some e

module _ (catalog : Catalog) where
  abbrev pub is_known_template : String → Option String → Bool
  is_known_template event_code none = true
  is_known_template event_code (some template) =
      is_subset (catalog.get_used_variables template)
        (map (λ v. v.0) (catalog.get_template_variables event_code))

  -- The error that the loop raises for a preference, in the order of its checks.
  abbrev pub preference_error :
      Bool
      → String
      → NotificationEventPreference
      → Option NotificationEvent
      → Option NotificationError
  preference_error is_admin code preference none = some unknown_notification_event
  preference_error is_admin code preference (some event) =
      if not event.is_enabled || (is_admin_only code && not is_admin)
      then some unknown_notification_event
      else (if not (is_subset preference.fields event.available_fields)
          then some invalid_notification_field_filter
          else (if not (is_known_template code (set_template preference.template))
              then some invalid_notification_template
              else none))

  -- The loop, which raises the first error.
  unfoldable pub first_error :
      Bool → List NotificationEvent → Preferences → Option NotificationError
  first_error is_admin events [] = none
  first_error is_admin events ((code, preference) ∷ rest) =
      or_later (preference_error is_admin code preference (get_by_code code events))
        (first_error is_admin events rest)

  -- Replaces the preferences, and creates the row where there is none.
  abbrev pub write_preferences :
      ℕ → Preferences → List NotificationSetting → List NotificationSetting
  write_preferences user_id preferences [] =
      record { user_id = user_id; preferences = preferences } ∷ []
  write_preferences user_id preferences (s ∷ settings) =
      if s.user_id == user_id
      then record s { preferences = preferences } ∷ settings
      else s ∷ write_preferences user_id preferences settings

  abbrev pub store_preferences :
      ℕ → Preferences → Option NotificationError → Messaging → Option NotificationError × Messaging
  store_preferences user_id preferences (some e) m = (some e, m)
  store_preferences user_id preferences none m =
      (none, record m { settings = write_preferences user_id preferences m.settings })

  unfoldable pub update_preferences :
      ℕ → Preferences → Bool → Messaging → Option NotificationError × Messaging
  unfolding first_error
  update_preferences user_id preferences is_admin m =
      store_preferences user_id preferences (first_error is_admin m.events preferences) m

-- `get_preferences`
unfoldable pub get_preferences : ℕ → Messaging → NotificationSetting × Messaging
unfolding get_or_create
get_preferences user_id m =
    let (setting, settings) = get_or_create user_id m.settings in
    (setting, record m { settings = settings })

-- `list_events`
unfoldable pub list_events : Bool → Messaging → List NotificationEvent
list_events is_admin m =
    filter_where (λ e. e.is_enabled && (is_admin || not (is_admin_only e.event_code))) m.events
