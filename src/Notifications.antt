-- ===== src/Notifications.antt =====
-- packages/notifications/src/service.py and repository.py, with the tables of entities.py: the
-- notices that users ask for, and the deliveries that they get. The table of users is that of
-- packages/user with the column `telegram_id`, and the codes for linking an account are those of
-- telegram_link_store.py.
pub mod Notify
pub mod Gates
pub mod Preferences
pub mod Deliveries
pub mod Links
use plomio.Prelude.{
  ℕ, Bool, List, Option, String, none, some, true, false, not, [], ◌∷◌, ◌++◌, ◌==◌, ◌&&◌, ◌||◌, ◌+◌,
  str_eq, find_where, any_where, filter_where, if◌then◌else◌, length,
}
use plomio.Database.{Payload}

pub data NotificationChannel : Type 0 where
  telegram : NotificationChannel

pub data NotificationDeliveryStatus : Type 0 where
  pending sent failed : NotificationDeliveryStatus

pub record NotificationEvent : Type 0 where
  pub event_code : String
  pub is_enabled : Bool
  pub available_fields : List String

-- Null and an empty list of fields are the same to the code.
pub record NotificationEventPreference : Type 0 where
  pub channels : List NotificationChannel
  pub fields : List String
  pub template : Option String

-- The dictionary of preferences, by the code of the event.
abbrev pub Preferences : Type 0
Preferences = List (String × NotificationEventPreference)

pub record NotificationSetting : Type 0 where
  pub user_id : ℕ
  pub preferences : Preferences

pub record NotificationDelivery : Type 0 where
  pub id : ℕ
  pub user_id : ℕ
  pub event_code : String
  pub channel : NotificationChannel
  pub status : NotificationDeliveryStatus
  pub payload : Payload
  pub failure_reason : Option String
  pub sent_at : Option ℕ
  pub created_at : ℕ

pub record User : Type 0 where
  pub id : ℕ
  pub telegram_id : Option ℕ

pub record LinkCode : Type 0 where
  pub code : String
  pub user_id : ℕ
  pub expires_at : ℕ

-- The tables that the service reads and writes, and the codes that Redis holds.
pub record Messaging : Type 0 where
  pub events : List NotificationEvent
  pub settings : List NotificationSetting
  pub deliveries : List NotificationDelivery
  pub users : List User
  pub link_codes : List LinkCode
  pub next_id : ℕ

-- What formatting.py and template_catalog.py give: the names in a template, the variables of an
-- event with the field that each stands for, and the text of a message.
pub record Catalog : Type 0 where
  pub get_used_variables : String → List String
  pub get_template_variables : String → List (String × Option String)
  pub build_message_text : String → Payload → Option String → String

abbrev pub has_text : String → List String → Bool
has_text s xs = any_where (str_eq s) xs

-- `a & b`, as a test.
abbrev pub meets : List String → List String → Bool
meets xs ys = any_where (λ s. has_text s ys) xs

abbrev pub is_empty_list : List String → Bool
is_empty_list [] = true
is_empty_list (x ∷ xs) = false

abbrev pub get_by_code : String → List NotificationEvent → Option NotificationEvent
get_by_code code events = find_where (λ e. str_eq e.event_code code) events

unfoldable pub lookup_preference : String → Preferences → Option NotificationEventPreference
lookup_preference code [] = none
lookup_preference code ((c, preference) ∷ rest) =
    let other = lookup_preference code rest in if str_eq c code then some preference else other

abbrev pub find_setting : ℕ → List NotificationSetting → Option NotificationSetting
find_setting user_id settings = find_where (λ s. s.user_id == user_id) settings

-- `get_or_create`
abbrev pub or_new :
    ℕ
    → List NotificationSetting
    → Option NotificationSetting
    → NotificationSetting × List NotificationSetting
or_new user_id settings (some setting) = (setting, settings)
or_new user_id settings none = (
  record { user_id = user_id; preferences = [] },
  settings ++ record { user_id = user_id; preferences = [] } ∷ [],
)

unfoldable pub get_or_create :
    ℕ → List NotificationSetting → NotificationSetting × List NotificationSetting
get_or_create user_id settings = or_new user_id settings (find_setting user_id settings)

-- The fields of the variables of the template that the catalog knows.
unfoldable pub fields_of : List String → List (String × Option String) → List String
fields_of used [] = []
fields_of used ((name, none) ∷ rest) = fields_of used rest
fields_of used ((name, some field) ∷ rest) =
    let fields = fields_of used rest in if has_text name used then field ∷ fields else fields

abbrev pub accepts : List String → List String → Bool
accepts fields changed_fields = is_empty_list fields || meets fields changed_fields

-- A template that is an empty text is none.
abbrev pub set_template : Option String → Option String
set_template none = none
set_template (some template) = if str_eq template "" then none else some template

module _ (catalog : Catalog) where
  unfoldable pub derive_gating_fields : String → String → List String
  unfolding fields_of
  derive_gating_fields template event_code =
      fields_of (catalog.get_used_variables template) (catalog.get_template_variables event_code)

  -- Whether the filter of a preference lets a notice with these fields through.
  unfoldable pub passes : NotificationEventPreference → String → List String → Bool
  unfolding derive_gating_fields
  passes preference event_code changed_fields = elim (set_template preference.template) [
    | some template ↦ accepts (derive_gating_fields template event_code) changed_fields
    | none ↦ accepts preference.fields changed_fields
  ]
