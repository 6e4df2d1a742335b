-- ===== src/Notifications/Notify/Delivered.antt =====
-- The rows that `notify` writes for a preference, said column by column.
use plomio.Prelude.{
  [], ◌∷◌, none, some, inl, inr, true, false, map, All, ◌++◌, ◌⊎◌, ℕ, List, String, ◌≡◌, ap, arith,
  refl, ◌+◌,
}
use plomio.Notifications.Gates.{AreGates, LetsThrough, Blocks, passes-cases}
use plomio.Notifications.{
  NotificationDelivery, NotificationDeliveryStatus, Messaging, Catalog, NotificationChannel,
  NotificationEventPreference, passes, ℕ, String, List,
}
use plomio.Notifications.Notify.{
  Notification, deliver, new_delivery, new_deliveries, notify_preference,
}

-- The row is for the user and the event of the notice, with its payload, and waits to be sent.
pub record IsDeliveryOf (now : ℕ) (n : Notification) (d : NotificationDelivery) : Type 0 where
  pub user_id : d.user_id ≡ n.user_id
  pub event_code : d.event_code ≡ n.event_code
  pub payload : d.payload ≡ n.payload
  pub status : d.status ≡ NotificationDeliveryStatus.pending
  pub failure_reason : d.failure_reason ≡ none
  pub sent_at : d.sent_at ≡ none
  pub created_at : d.created_at ≡ now

-- One row for each channel, in the order of the channels.
pub record AreFor (now : ℕ) (n : Notification) (channels : List NotificationChannel)
    (created : List NotificationDelivery) : Type 0 where
  pub each : map (λ d. d.channel) created ≡ channels
  pub rows : All (IsDeliveryOf now n) created

-- What a notice makes of the deliveries `before`, by the fields that decide for the preference.
abbrev pub IsNotified :
    Catalog
    → ℕ
    → Notification
    → NotificationEventPreference
    → List NotificationDelivery
    → List NotificationDelivery
    → List NotificationDelivery
    → Type 0
IsNotified catalog now n p before created after =
    (fields : List String) × AreGates catalog p n.event_code fields
    × ((LetsThrough fields n.changed_fields
          × AreFor now n p.channels created
          × (after ≡ before ++ created))
        ⊎ (Blocks fields n.changed_fields × (created ≡ []) × (after ≡ before)))

new_delivery-IsDeliveryOf :
    (now : ℕ) (n : Notification) (c : NotificationChannel) (id : ℕ)
    → IsDeliveryOf now n (new_delivery now n c id)
new_delivery-IsDeliveryOf now n c id = record {
  user_id = refl;
  event_code = refl;
  payload = refl;
  status = refl;
  failure_reason = refl;
  sent_at = refl;
  created_at = refl;
}

module _ (catalog : Catalog) where
  new_deliveries-AreFor :
      (now : ℕ) (n : Notification) (channels : List NotificationChannel) (id : ℕ)
      → AreFor now n channels (new_deliveries now n channels id)
  unfolding new_deliveries
  new_deliveries-AreFor now n [] id = record { each = refl; rows = tt }
  new_deliveries-AreFor now n (c ∷ channels) id =
      let rest = new_deliveries-AreFor now n channels (id + 1) in
      record {
        each = ap (λ cs. c ∷ cs) rest.each;
        rows = (new_delivery-IsDeliveryOf now n c id, rest.rows);
      }

  notify_preference-through :
      (now : ℕ) (n : Notification) (p : NotificationEventPreference) (m : Messaging)
      → passes catalog p n.event_code n.changed_fields ≡ true
      → notify_preference catalog now n (some p) m ≡ deliver now n p.channels m
  unfolding notify_preference
  notify_preference-through now n p m e = ground (arith, e)

  notify_preference-blocked :
      (now : ℕ) (n : Notification) (p : NotificationEventPreference) (m : Messaging)
      → passes catalog p n.event_code n.changed_fields ≡ false
      → notify_preference catalog now n (some p) m ≡ ([], m)
  unfolding notify_preference
  notify_preference-blocked now n p m e = ground (arith, e)

  pub notify_preference-IsNotified :
      (now : ℕ) (n : Notification) (p : NotificationEventPreference) (m : Messaging)
      → IsNotified catalog now n p m.deliveries
          (notify_preference catalog now n (some p) m).0
          (notify_preference catalog now n (some p) m).1.deliveries
  notify_preference-IsNotified now n p m =
      let (fields, gates, outcome) = passes-cases catalog p n.event_code n.changed_fields in
      (
        fields,
        gates,
        elim outcome [
          | inl (e, through) ↦
              rw (notify_preference-through now n p m e)
                (inl (through, new_deliveries-AreFor now n p.channels m.next_id, refl))
          | inr (e, blocks) ↦ rw (notify_preference-blocked now n p m e) (inr (blocks, refl, refl))
        ],
      )
