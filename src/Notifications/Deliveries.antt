-- ===== src/Notifications/Deliveries.antt =====
-- `dispatch_pending`, which sends what `notify` has put in the queue, and the journals of deliveries.
pub mod Settled
pub mod Journal
use plomio.Notifications.{
  Messaging, NotificationDelivery, NotificationDeliveryStatus, NotificationSetting,
  NotificationEventPreference, User, Catalog, get_or_create, lookup_preference, Bool, Option, List,
  ℕ, String, some, ◌∷◌, true, false, filter_where, find_where,
}
use plomio.Prelude.{
  Bool, ℕ, List, Option, update_first, take, ◌∷◌, some, true, String, false, if◌then◌else◌, ◌+◌,
  filter_where, ◌==◌, [], none, leb, find_where,
}

-- What the client of Telegram does for a delivery, a chat and a text: the message of the exception
-- that it raises, if it raises one.
abbrev pub TelegramNotifier : Type 0
TelegramNotifier = ℕ → ℕ → String → Option String

abbrev pub is_pending_delivery : NotificationDelivery → Bool
is_pending_delivery d = elim d.status [
  | NotificationDeliveryStatus.pending ↦ true
  | NotificationDeliveryStatus.sent ↦ false
  | NotificationDeliveryStatus.failed ↦ false
]

-- `ORDER BY created_at ASC`
unfoldable pub insert_delivery :
    NotificationDelivery → List NotificationDelivery → List NotificationDelivery
insert_delivery d [] = d ∷ []
insert_delivery d (e ∷ es) =
    let rest = insert_delivery d es in
    if leb d.created_at e.created_at then d ∷ e ∷ es else e ∷ rest

unfoldable pub oldest_first : List NotificationDelivery → List NotificationDelivery
unfolding insert_delivery
oldest_first [] = []
oldest_first (d ∷ ds) = insert_delivery d (oldest_first ds)

unfoldable pub claim_pending : ℕ → List NotificationDelivery → List NotificationDelivery
unfolding oldest_first
claim_pending limit ds = take limit (oldest_first (filter_where is_pending_delivery ds))

abbrev pub set_delivery : ℕ → (NotificationDelivery → NotificationDelivery) → Messaging → Messaging
set_delivery id f m = record m { deliveries = update_first (λ d. d.id == id) f m.deliveries }

abbrev pub mark_sent : ℕ → ℕ → Messaging → Messaging
mark_sent id now =
    set_delivery id (λ d. record d { status = NotificationDeliveryStatus.sent; sent_at = some now })

abbrev pub mark_failed : ℕ → String → Messaging → Messaging
mark_failed id reason =
    set_delivery id
      (λ d. record d { status = NotificationDeliveryStatus.failed; failure_reason = some reason })

pub record Dispatched : Type 0 where
  pub sent_count : ℕ
  pub failed_count : ℕ
  pub skipped_count : ℕ

abbrev pub none_dispatched : Dispatched
none_dispatched = record { sent_count = 0; failed_count = 0; skipped_count = 0 }

abbrev pub template_of : Option NotificationEventPreference → Option String
template_of none = none
template_of (some preference) = preference.template

abbrev pub telegram_of : Option User → Option ℕ
telegram_of none = none
telegram_of (some user) = user.telegram_id

module _ (catalog : Catalog) (now : ℕ) where
  -- The send, and what is written after it.
  abbrev pub settle_delivery :
      NotificationDelivery → Option String → Dispatched → Messaging → Dispatched × Messaging
  settle_delivery d none s m = (record s { sent_count = s.sent_count + 1 }, mark_sent d.id now m)
  settle_delivery d (some reason) s m =
      (record s { failed_count = s.failed_count + 1 }, mark_failed d.id reason m)

  abbrev pub message_of : NotificationDelivery → NotificationSetting → String
  message_of d setting =
      catalog.build_message_text d.event_code d.payload
        (template_of (lookup_preference d.event_code setting.preferences))

  -- A round of the loop for a notifier.
  abbrev pub send_to :
      TelegramNotifier
      → NotificationDelivery
      → Option ℕ
      → Dispatched
      → Messaging
      → Dispatched × Messaging
  send_to send d none s m = settle_delivery d (some "telegram_id не привязан") s m
  send_to send d (some chat_id) s m =
      let (setting, settings) = get_or_create d.user_id m.settings in
      settle_delivery d (send d.id chat_id (message_of d setting)) s
        (record m { settings = settings })

  unfoldable pub dispatch_each :
      Option TelegramNotifier
      → List NotificationDelivery
      → Dispatched
      → Messaging
      → Dispatched × Messaging
  unfolding get_or_create lookup_preference
  dispatch_each telegram [] s m = (s, m)
  dispatch_each none (d ∷ ds) s m =
      dispatch_each none ds (record s { skipped_count = s.skipped_count + 1 }) m
  dispatch_each (some send) (d ∷ ds) s m =
      let (s', m') =
        send_to send d (telegram_of (find_where (λ u. u.id == d.user_id) m.users)) s m in
      dispatch_each (some send) ds s' m'

  unfoldable pub dispatch_pending : Option TelegramNotifier → ℕ → Messaging → Dispatched × Messaging
  unfolding claim_pending dispatch_each
  dispatch_pending telegram batch_size m =
      dispatch_each telegram (claim_pending batch_size m.deliveries) none_dispatched m
