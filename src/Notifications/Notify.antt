-- ===== src/Notifications/Notify.antt =====
-- `notify` and `notify_admins`: the deliveries that an event puts in the queue.
pub mod Delivered
use plomio.Prelude.{none, some, [], ◌∷◌, ℕ, String, Option, List, if◌then◌else◌, length, ◌++◌, ◌+◌}
use plomio.Database.{Payload}
use plomio.Notifications.{
  NotificationChannel, NotificationEvent, NotificationEventPreference, NotificationDelivery,
  NotificationDeliveryStatus, Messaging, Catalog, get_by_code, lookup_preference, get_or_create,
  passes, ℕ, String, Option, List, length,
}

-- The arguments of a call of `notify`.
pub record Notification : Type 0 where
  pub user_id : ℕ
  pub event_code : String
  pub payload : Payload
  pub changed_fields : List String

abbrev pub new_delivery : ℕ → Notification → NotificationChannel → ℕ → NotificationDelivery
new_delivery now n channel id = record {
  id = id;
  user_id = n.user_id;
  event_code = n.event_code;
  channel = channel;
  status = NotificationDeliveryStatus.pending;
  payload = n.payload;
  failure_reason = none;
  sent_at = none;
  created_at = now;
}

unfoldable pub new_deliveries :
    ℕ → Notification → List NotificationChannel → ℕ → List NotificationDelivery
new_deliveries now n [] id = []
new_deliveries now n (channel ∷ channels) id =
    new_delivery now n channel id ∷ new_deliveries now n channels (id + 1)

-- The rows of `create` for each channel.
abbrev pub deliver :
    ℕ → Notification → List NotificationChannel → Messaging → List NotificationDelivery × Messaging
deliver now n channels m =
    let created = new_deliveries now n channels m.next_id in
    (
      created,
      record m { deliveries = m.deliveries ++ created; next_id = m.next_id + length channels },
    )

module _ (catalog : Catalog) where
  unfoldable pub notify_preference :
      ℕ
      → Notification
      → Option NotificationEventPreference
      → Messaging
      → List NotificationDelivery × Messaging
  unfolding passes new_deliveries
  notify_preference now n none m = ([], m)
  notify_preference now n (some preference) m =
      if passes catalog preference n.event_code n.changed_fields
      then deliver now n preference.channels m
      else ([], m)

  -- With no channels there is nothing to deliver.
  abbrev pub notify_event :
      ℕ
      → Notification
      → Option NotificationEvent
      → Messaging
      → List NotificationDelivery × Messaging
  notify_event now n none m = ([], m)
  notify_event now n (some event) m =
      let (setting, settings) = get_or_create n.user_id m.settings in
      if event.is_enabled
      then notify_preference now n (lookup_preference n.event_code setting.preferences)
          (record m { settings = settings })
      else ([], m)

  unfoldable pub notify : ℕ → Notification → Messaging → List NotificationDelivery × Messaging
  unfolding get_or_create lookup_preference notify_preference
  notify now n m = notify_event now n (get_by_code n.event_code m.events) m

  -- `notify_admins`
  unfoldable pub notify_admins : ℕ → List ℕ → String → Payload → Messaging → ℕ × Messaging
  unfolding notify
  notify_admins now [] event_code payload m = (0, m)
  notify_admins now (admin_id ∷ admin_ids) event_code payload m =
      let (created, m') =
        notify now
          (record {
            user_id = admin_id;
            event_code = event_code;
            payload = payload;
            changed_fields = [];
          })
          m in
      let (count, m'') = notify_admins now admin_ids event_code payload m' in
      (length created + count, m'')
