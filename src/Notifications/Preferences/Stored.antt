-- ===== src/Notifications/Preferences/Stored.antt =====
-- What `notify` does with the preferences that a user has stored.
use text.Mathlib.TextEquality.{eq_iff}
use plomio.Prelude.{
  [], ◌∷◌, none, some, inl, inr, true, ℕ, Bool, List, String, ◌≡◌, Option, ap, arith, if◌then◌else◌,
  refl, Bool-cases, str_eq, ◌==◌, sym, ◌∙◌,
}
use mathlib.Core.Option.{some-injective}
use plomio.Notifications.Notify.Delivered.{IsNotified, notify_preference-IsNotified}
use plomio.Notifications.{
  Messaging, Catalog, NotificationEvent, NotificationEventPreference, NotificationSetting,
  Preferences, get_by_code, lookup_preference, find_setting, get_or_create, or_new, Bool, ℕ, String,
  List, Option, str_eq,
}
use plomio.Notifications.Notify.{Notification, notify_preference, notify_event, notify}
use plomio.Notifications.Preferences.{
  NotificationError, preference_error, or_later, first_error, write_preferences, update_preferences,
  store_preferences,
}

or_later-none : (a b : Option NotificationError) → or_later a b ≡ none → (a ≡ none) × (b ≡ none)
or_later-none none b h = (refl, h)
or_later-none (some e) b h = absurd (cc h)

module _ (catalog : Catalog) where
  -- The loop has passed the preference of each event.
  first_error-preference :
      (is_admin : Bool) (events : List NotificationEvent) (preferences : Preferences)
      (code : String) (p : NotificationEventPreference)
      → first_error catalog is_admin events preferences ≡ none
      → lookup_preference code preferences ≡ some p
      → preference_error catalog is_admin code p (get_by_code code events) ≡ none
  unfolding first_error lookup_preference
  first_error-preference is_admin events [] code p h e = absurd (cc e)
  first_error-preference is_admin events ((c, q) ∷ rest) code p h e =
      let (first, later) =
        or_later-none (preference_error catalog is_admin c q (get_by_code c events))
          (first_error catalog is_admin events rest) h in
      elim (Bool-cases (str_eq c code)) [
        | inl s ↦
            let same : q ≡ p =
              some-injective q p
                (sym (ap (λ b. if b then some q else lookup_preference code rest) s) ∙ e) in
            rw (← (eq_iff c code).0 s, ← same) first
        | inr s ↦
            first_error-preference is_admin events rest code p later
              (sym (ap (λ b. if b then some q else lookup_preference code rest) s) ∙ e)
      ]

  preference_error-enabled :
      (is_admin : Bool) (code : String) (p : NotificationEventPreference)
      (o : Option NotificationEvent)
      → preference_error catalog is_admin code p o ≡ none
      → (event : NotificationEvent) × (o ≡ some event) × (event.is_enabled ≡ true)
  preference_error-enabled is_admin code p none h = absurd (cc h)
  preference_error-enabled is_admin code p (some event) h = (event, refl, ground (arith, h))

  find-written :
      (user_id : ℕ) (preferences : Preferences) (settings : List NotificationSetting)
      → (s : NotificationSetting) × (find_setting user_id
            (write_preferences catalog user_id preferences settings)
          ≡ some s)
        × (s.preferences ≡ preferences)
  find-written user_id preferences [] =
      (record { user_id = user_id; preferences = preferences }, ground arith, refl)
  find-written user_id preferences (s ∷ settings) = elim (Bool-cases (s.user_id == user_id)) [
    | inl e ↦ rw e (record s { preferences = preferences }, ground (arith, e), refl)
    | inr e ↦
        let (t, k, q) = find-written user_id preferences settings in
        rw e (t, ground (arith, e, k), q)
  ]

  -- What is left to send once the event is known to be enabled.
  notify_event-eq :
      (now : ℕ) (n : Notification) (p : NotificationEventPreference) (m : Messaging)
      (o : Option NotificationEvent)
      → (event : NotificationEvent) × (o ≡ some event) × (event.is_enabled ≡ true)
      → lookup_preference n.event_code (get_or_create n.user_id m.settings).0.preferences ≡ some p
      → notify_event catalog now n o m
        ≡ notify_preference catalog now n
            (some p)
            (record m { settings = (get_or_create n.user_id m.settings).1 })
  notify_event-eq now n p m none (event, e, k) l = absurd (cc e)
  notify_event-eq now n p m (some c) (event, e, k) l =
      let on : c.is_enabled ≡ true = ap (λ v. v.is_enabled) (some-injective c event e) ∙ k in
      rw (on, l) refl

  store-none :
      (user_id : ℕ) (preferences : Preferences) (o : Option NotificationError) (m : Messaging)
      → (store_preferences catalog user_id preferences o m).0 ≡ none
      → o ≡ none
  store-none user_id preferences none m h = refl
  store-none user_id preferences (some e) m h = absurd (cc h)

  get_or_create-written :
      (user_id : ℕ) (preferences : Preferences) (settings : List NotificationSetting)
      → (get_or_create user_id
          (write_preferences catalog user_id preferences settings)).0.preferences
        ≡ preferences
  unfolding get_or_create
  get_or_create-written user_id preferences settings =
      let written = write_preferences catalog user_id preferences settings in
      let (s, e, q) = find-written user_id preferences settings in
      ap (λ o. (or_new user_id written o).0.preferences) e ∙ q

  -- If update_preferences accepts preferences, then the next notify of an event among them goes by
  -- the fields of its preference, or, where it has a template, by the fields of the variables that
  -- the template uses. Where there are no such fields or one of them has changed, notify appends to
  -- the deliveries, which are otherwise as before update_preferences, and returns, one pending row
  -- for each channel of the preference, in order, for this user and event, with this payload,
  -- created now; otherwise it returns none and the deliveries stay as they were.
  pub update_preferences-notify :
      (preferences : Preferences) (is_admin : Bool) (m : Messaging) (now : ℕ) (n : Notification)
      (p : NotificationEventPreference)
      → (update_preferences catalog n.user_id preferences is_admin m).0 ≡ none
      → lookup_preference n.event_code preferences ≡ some p
      → let m' = (update_preferences catalog n.user_id preferences is_admin m).1 in
        let (created, m'') = notify catalog now n m' in
        IsNotified catalog now n p m.deliveries created m''.deliveries
  unfolding update_preferences notify
  update_preferences-notify preferences is_admin m now n p h e =
      let checks = first_error catalog is_admin m.events preferences in
      let passed : checks ≡ none = store-none n.user_id preferences checks m h in
      let known =
        preference_error-enabled is_admin n.event_code p (get_by_code n.event_code m.events)
          (first_error-preference is_admin m.events preferences n.event_code p passed e) in
      let found =
        ap (lookup_preference n.event_code) (get_or_create-written n.user_id preferences m.settings)
        ∙ e in
      let stored : Messaging = (store_preferences catalog n.user_id preferences none m).1 in
      let same =
        ap (λ o. notify catalog now n (store_preferences catalog n.user_id preferences o m).1)
          passed
        ∙ notify_event-eq now n p stored (get_by_code n.event_code m.events) known found in
      rw same (
        notify_preference-IsNotified catalog now n p
          (record stored { settings = (get_or_create n.user_id stored.settings).1 }))
