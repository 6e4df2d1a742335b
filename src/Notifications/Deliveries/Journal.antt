-- ===== src/Notifications/Deliveries/Journal.antt =====
-- The journals of deliveries: of a user, of a task and of an automation, and their counts.
use plomio.Core.Time.{minute}
use plomio.Database.{Payload}
use plomio.Notifications.Deliveries.{is_pending_delivery, leb, take}
use plomio.Notifications.{
  Messaging, NotificationDelivery, NotificationDeliveryStatus, ℕ, Option, Bool, not, List, some,
  true, none, false, ◌∷◌, filter_where, str_eq,
}
use plomio.Prelude.{
  Option, ℕ, Bool, is_id, count_where, ltb, List, none, leb, true, not, ◌==◌, some, is_some, ◌||◌,
  false, ◌∷◌, filter_where, ◌&&◌, take, drop, if◌then◌else◌, str_eq, [], ◌+◌, ◌*◌,
}

-- `payload['task_id']` and `payload['automation_id']`
abbrev pub payload_task_id : Payload → Option ℕ
payload_task_id (Payload.balance balance_after threshold) = none
payload_task_id (Payload.paused task_id) = some task_id
payload_task_id (Payload.finished task_id error_reason result_count) = some task_id
payload_task_id (Payload.change_detected notice) = notice.task_id

abbrev pub payload_automation_id : Payload → Option ℕ
payload_automation_id (Payload.change_detected notice) = some notice.automation_id
payload_automation_id _ = none

-- `ORDER BY created_at DESC`, and `created_at DESC, id DESC`
abbrev pub is_later : NotificationDelivery → NotificationDelivery → Bool
is_later a b = leb b.created_at a.created_at

abbrev pub is_later_by_id : NotificationDelivery → NotificationDelivery → Bool
is_later_by_id a b =
    ltb b.created_at a.created_at || ((a.created_at == b.created_at) && leb b.id a.id)

-- `ORDER BY created_at ASC, id ASC`
abbrev pub is_earlier_by_id : NotificationDelivery → NotificationDelivery → Bool
is_earlier_by_id a b = is_later_by_id b a

module _ (before : NotificationDelivery → NotificationDelivery → Bool) where
  unfoldable pub insert_in_order :
      NotificationDelivery → List NotificationDelivery → List NotificationDelivery
  insert_in_order d [] = d ∷ []
  insert_in_order d (e ∷ es) =
      let rest = insert_in_order d es in if before d e then d ∷ e ∷ es else e ∷ rest

  unfoldable pub order_by : List NotificationDelivery → List NotificationDelivery
  unfolding insert_in_order
  order_by [] = []
  order_by (d ∷ ds) = insert_in_order d (order_by ds)

abbrev pub is_of_user : ℕ → NotificationDelivery → Bool
is_of_user user_id d = d.user_id == user_id

unfoldable pub list_deliveries : ℕ → ℕ → ℕ → Messaging → List NotificationDelivery × ℕ
unfolding order_by
list_deliveries user_id limit offset m = (
  take limit (drop offset (order_by is_later (filter_where (is_of_user user_id) m.deliveries))),
  count_where (is_of_user user_id) m.deliveries,
)

-- A delivery without a task, of a check of the automation that ended within `LEGACY_DELIVERY_WINDOW`.
abbrev pub is_legacy : ℕ → ℕ → NotificationDelivery → Bool
is_legacy automation_id finished_at d =
    not (is_some (payload_task_id d.payload))
    && (str_eq d.event_code "automation.change_detected"
        && (is_id (payload_automation_id d.payload) automation_id
            && (leb finished_at d.created_at && ltb d.created_at (finished_at + 5 * minute))))

abbrev pub is_legacy_of : Option ℕ → Option ℕ → NotificationDelivery → Bool
is_legacy_of (some automation_id) (some finished_at) d = is_legacy automation_id finished_at d
is_legacy_of _ _ d = false

unfoldable pub list_deliveries_for_task :
    ℕ → Option ℕ → Option ℕ → Messaging → List NotificationDelivery
unfolding order_by
list_deliveries_for_task task_id automation_id finished_at m = order_by is_earlier_by_id (
    filter_where
      (λ d. is_id (payload_task_id d.payload) task_id || is_legacy_of automation_id finished_at d)
      m.deliveries)

abbrev pub is_of_automation : ℕ → NotificationDelivery → Bool
is_of_automation automation_id d = is_id (payload_automation_id d.payload) automation_id

unfoldable pub list_deliveries_for_automation :
    ℕ → ℕ → ℕ → Messaging → List NotificationDelivery × ℕ
unfolding order_by
list_deliveries_for_automation automation_id limit offset m = (
  take limit (
      drop offset
        (order_by is_later_by_id (filter_where (is_of_automation automation_id) m.deliveries))),
  count_where (is_of_automation automation_id) m.deliveries,
)

abbrev pub has_status : NotificationDeliveryStatus → NotificationDelivery → Bool
has_status NotificationDeliveryStatus.pending d = is_pending_delivery d
has_status NotificationDeliveryStatus.sent d = elim d.status [
  | NotificationDeliveryStatus.sent ↦ true
  | NotificationDeliveryStatus.pending ↦ false
  | NotificationDeliveryStatus.failed ↦ false
]
has_status NotificationDeliveryStatus.failed d = elim d.status [
  | NotificationDeliveryStatus.failed ↦ true
  | NotificationDeliveryStatus.pending ↦ false
  | NotificationDeliveryStatus.sent ↦ false
]

abbrev pub is_since : Option ℕ → NotificationDelivery → Bool
is_since none d = true
is_since (some date_from) d = leb date_from d.created_at

-- The number of each status; the dictionary has no entry where it is zero.
unfoldable pub get_delivery_counts : Option ℕ → Messaging → NotificationDeliveryStatus → ℕ
get_delivery_counts date_from m status =
    count_where (λ d. has_status status d && is_since date_from d) m.deliveries
