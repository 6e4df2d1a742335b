-- ===== src/Tests/NotificationsTests.antt =====
-- The notices of a small shop.
use plomio.Prelude.{
  ℕ, List, none, some, true, false, [], ◌∷◌, refl, ◌≡◌, ◌+◌, is_in, map, count_where, if◌then◌else◌,
  leb, ◌⊎◌,
}
use plomio.Database.{Payload}
use plomio.Tests.{noon}
use plomio.Notifications.{
  NotificationChannel, NotificationDelivery, NotificationDeliveryStatus,
  NotificationEventPreference, Preferences, Messaging, Catalog, lookup_preference,
}
use plomio.Notifications.Notify.{Notification, notify}
use plomio.Notifications.Preferences.{update_preferences}
use plomio.Notifications.Preferences.Stored.{update_preferences-notify}
use plomio.Notifications.Notify.Delivered.{IsNotified}
use plomio.Notifications.Deliveries.{
  TelegramNotifier, is_pending_delivery, claim_pending, dispatch_pending,
}
use plomio.Notifications.Deliveries.Settled.{find_delivery, IsSettled, dispatch_pending-settles}
use plomio.Notifications.Links.Owners.{LinkCall, HasOneOwner, run_links, run_links-HasOneOwner}

-- The templates of this catalog use no variables.
abbrev catalog : Catalog
catalog = record {
  get_used_variables = λ t. [];
  get_template_variables = λ code. ("price_new", some "PRICE") ∷ [];
  build_message_text = λ code payload template. code;
}

abbrev delivery : ℕ → ℕ → NotificationDelivery
delivery id user_id = record {
  id = id;
  user_id = user_id;
  event_code = "task.completed";
  channel = NotificationChannel.telegram;
  status = NotificationDeliveryStatus.pending;
  payload = Payload.finished 20 none 4;
  failure_reason = none;
  sent_at = none;
  created_at = id;
}

-- User 1 has linked an account, user 2 has a code for it.
abbrev desk : Messaging
desk = record {
  events =
      record { event_code = "task.completed"; is_enabled = true; available_fields = [] }
      ∷ record {
        event_code = "automation.change_detected";
        is_enabled = true;
        available_fields = "PRICE" ∷ "IN_STOCK" ∷ [];
      }
      ∷ [];
  settings = [];
  deliveries = delivery 50 1 ∷ delivery 51 2 ∷ [];
  users = record { id = 1; telegram_id = some 900 } ∷ record { id = 2; telegram_id = none } ∷ [];
  link_codes = record { code = "abc"; user_id = 2; expires_at = noon + 5 } ∷ [];
  next_id = 60;
}

-- The prices of automations, by Telegram.
abbrev prices : NotificationEventPreference
prices = record {
  channels = NotificationChannel.telegram ∷ [];
  fields = "PRICE" ∷ [];
  template = none;
}

abbrev wishes : Preferences
wishes = ("automation.change_detected", prices) ∷ []

abbrev price_notice : Notification
price_notice = record {
  user_id = 1;
  event_code = "automation.change_detected";
  payload = Payload.paused 20;
  changed_fields = "PRICE" ∷ [];
}

wishes_accepted : (update_preferences catalog 1 wishes false desk).0 ≡ none
unfolding update_preferences
wishes_accepted = refl

wishes_prices : lookup_preference "automation.change_detected" wishes ≡ some prices
unfolding lookup_preference
wishes_prices = refl

update_preferences-notify_example :
    let m' = (update_preferences catalog 1 wishes false desk).1 in
    let (created, m'') = notify catalog noon price_notice m' in
    IsNotified catalog noon price_notice prices desk.deliveries created m''.deliveries
update_preferences-notify_example =
    update_preferences-notify catalog wishes false desk noon price_notice prices wishes_accepted
      wishes_prices

-- Telegram refuses the message to chat 901.
abbrev refuses : TelegramNotifier
refuses id chat_id text = if leb chat_id 900 then none else some "blocked"

desk_has_delivery : find_delivery 51 desk.deliveries ≡ some (delivery 51 2)
desk_has_delivery = refl

dispatch_pending-settles_example :
    let claimed = is_in 51 (map (λ c. c.id) (claim_pending 1 desk.deliveries)) in
    let waiting = count_where is_pending_delivery desk.deliveries in
    let (s, m') = dispatch_pending catalog noon (some refuses) 1 desk in
    (s.sent_count + s.failed_count ≡ (if leb 1 waiting then 1 else waiting))
    × (s.skipped_count ≡ 0)
    × (((claimed ≡ true) × IsSettled 51 m'.deliveries)
        ⊎ ((claimed ≡ false) × (find_delivery 51 m'.deliveries ≡ some (delivery 51 2))))
dispatch_pending-settles_example =
    dispatch_pending-settles catalog noon refuses 1 desk (delivery 51 2) desk_has_delivery

desk-HasOneOwner : HasOneOwner desk.users
desk-HasOneOwner = (refl, (refl, tt))

abbrev link_calls : List (ℕ × LinkCall)
link_calls =
    (noon, LinkCall.confirms "abc" 900)
    ∷ (noon, LinkCall.creates 2 60 "def")
    ∷ (noon + 1, LinkCall.confirms "def" 901)
    ∷ []

run_links-HasOneOwner_example : HasOneOwner (run_links link_calls desk).users
run_links-HasOneOwner_example = run_links-HasOneOwner link_calls desk desk-HasOneOwner
