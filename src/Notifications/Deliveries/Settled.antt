-- ===== src/Notifications/Deliveries/Settled.antt =====
-- A sweep settles the deliveries that it has claimed, and leaves the others.
use plomio.Notifications.{
  Messaging, NotificationDelivery, Catalog, ℕ, false, List, Option, some, find_where, ◌∷◌, String,
  get_or_create, length, true, filter_where,
}
use plomio.Notifications.Deliveries.{
  TelegramNotifier, Dispatched, is_pending_delivery, settle_delivery, send_to, message_of,
  update_first, insert_delivery, dispatch_pending, oldest_first, dispatch_each, telegram_of,
  claim_pending, leb, none_dispatched,
}
use plomio.Prelude.{
  take-length, filter-count, if◌then◌else◌, suc, ℕ, ◌≡◌, false, List, some, Option, ◌==◌,
  update_first, find_where, Bool-cases, inl, arith, inr, [], ==_iff, ◌+◌, String, refl, ◌∙◌, none,
  length, is_in, ap, map, count_where, leb, true, filter_where, ◌⊎◌,
}

abbrev pub find_delivery : ℕ → List NotificationDelivery → Option NotificationDelivery
find_delivery id ds = find_where (λ d. d.id == id) ds

-- A change that ends a delivery.
abbrev Ends : (NotificationDelivery → NotificationDelivery) → Type 0
Ends f = (d : NotificationDelivery) → ((f d).id ≡ d.id) × (is_pending_delivery (f d) ≡ false)

find_other :
    (i j : ℕ) (f : NotificationDelivery → NotificationDelivery) (ds : List NotificationDelivery)
    → Ends f
    → (j == i) ≡ false
    → find_delivery i (update_first (λ d. d.id == j) f ds) ≡ find_delivery i ds
find_other i j f [] ends n = refl
find_other i j f (d ∷ ds) ends n = elim (Bool-cases (d.id == j)) [
  | inl e ↦ rw e (ground (arith, n, e, (ends d).0))
  | inr e ↦ rw e (ground (arith, find_other i j f ds ends n))
]

-- The row of an id is there and settled.
abbrev pub IsSettled : ℕ → List NotificationDelivery → Type 0
IsSettled i ds =
    (d : NotificationDelivery) × (find_delivery i ds ≡ some d) × (is_pending_delivery d ≡ false)

find_same :
    (i : ℕ) (f : NotificationDelivery → NotificationDelivery) (ds : List NotificationDelivery)
    (d : NotificationDelivery)
    → Ends f
    → find_delivery i ds ≡ some d
    → IsSettled i (update_first (λ d. d.id == i) f ds)
find_same i f [] d ends e = absurd (cc e)
find_same i f (c ∷ ds) d ends e = elim (Bool-cases (c.id == i)) [
  | inl k ↦ rw k (f c, ground (arith, k, (ends c).0), (ends c).1)
  | inr k ↦
      let (d', e', p) = find_same i f ds d ends (ground (arith, k, e)) in
      rw k (d', ground (arith, k, e'), p)
]

find_equal :
    (i j : ℕ) (f : NotificationDelivery → NotificationDelivery) (ds : List NotificationDelivery)
    (d : NotificationDelivery)
    → Ends f
    → j ≡ i
    → find_delivery i ds ≡ some d
    → IsSettled i (update_first (λ d. d.id == j) f ds)
find_equal i j f ds d ends q e = rw q (find_same i f ds d ends e)

-- A settled row stays so.
find_still :
    (i j : ℕ) (f : NotificationDelivery → NotificationDelivery) (ds : List NotificationDelivery)
    → Ends f
    → IsSettled i ds
    → IsSettled i (update_first (λ d. d.id == j) f ds)
find_still i j f ds ends (d, e, p) = elim (Bool-cases (j == i)) [
  | inl k ↦ find_equal i j f ds d ends ((==_iff j i).0 k) e
  | inr k ↦ (d, find_other i j f ds ends k ∙ e, p)
]

module _ (catalog : Catalog) (now : ℕ) (send : TelegramNotifier) where
  -- What a round of the loop does to the table and to the counts.
  abbrev IsRound : NotificationDelivery → Dispatched → Messaging → Dispatched × Messaging → Type 0
  IsRound d s m (s', m') =
      (f : NotificationDelivery → NotificationDelivery) × Ends f
      × (m'.deliveries ≡ update_first (λ c. c.id == d.id) f m.deliveries)
      × (s'.sent_count + s'.failed_count ≡ s.sent_count + s.failed_count + 1)
      × (s'.skipped_count ≡ s.skipped_count)

  settle_delivery-IsRound :
      (d : NotificationDelivery) (reason : Option String) (s : Dispatched) (m : Messaging)
      → IsRound d s m (settle_delivery catalog now d reason s m)
  settle_delivery-IsRound d none s m = (_, (λ c. (refl, refl)), refl, omega arith, refl)
  settle_delivery-IsRound d (some reason) s m = (_, (λ c. (refl, refl)), refl, omega arith, refl)

  send_to-IsRound :
      (d : NotificationDelivery) (chat_id : Option ℕ) (s : Dispatched) (m : Messaging)
      → IsRound d s m (send_to catalog now send d chat_id s m)
  send_to-IsRound d none s m = settle_delivery-IsRound d (some "telegram_id не привязан") s m
  send_to-IsRound d (some chat_id) s m =
      settle_delivery-IsRound d
        (send d.id chat_id (message_of catalog now d (get_or_create d.user_id m.settings).0)) s
        (record m { settings = (get_or_create d.user_id m.settings).1 })

  -- What the loop over `ds` does.
  abbrev HasDispatched :
      List NotificationDelivery → Dispatched → Messaging → Dispatched × Messaging → Type 0
  HasDispatched ds s m (s', m') =
      (s'.sent_count + s'.failed_count ≡ s.sent_count + s.failed_count + length ds)
      × (s'.skipped_count ≡ s.skipped_count)
      × ((i : ℕ)
          → is_in i (map (λ d. d.id) ds) ≡ false
          → find_delivery i m'.deliveries ≡ find_delivery i m.deliveries)
      × ((i : ℕ) → IsSettled i m.deliveries → IsSettled i m'.deliveries)
      × ((i : ℕ) (c : NotificationDelivery)
          → is_in i (map (λ d. d.id) ds) ≡ true
          → find_delivery i m.deliveries ≡ some c
          → IsSettled i m'.deliveries)

  dispatch_each-HasDispatched :
      (ds : List NotificationDelivery) (s : Dispatched) (m : Messaging)
      → HasDispatched ds s m (dispatch_each catalog now (some send) ds s m)
  unfolding dispatch_each
  dispatch_each-HasDispatched [] s m =
      (omega arith, refl, (λ i n. refl), (λ i h. h), (λ i c n e. absurd (cc n)))
  dispatch_each-HasDispatched (d ∷ ds) s m =
      let chat_id = telegram_of (find_where (λ u. u.id == d.user_id) m.users) in
      let round = send_to catalog now send d chat_id s m in
      let (f, ends, moved, count, skip) = send_to-IsRound d chat_id s m in
      let (counts, skips, others, still, all) = dispatch_each-HasDispatched ds round.0 round.1 in
      (
        omega (arith, counts, count),
        skips ∙ skip,
        (λ i n.
            others i (ground (arith, n))
            ∙ (ap (find_delivery i) moved
                ∙ find_other i d.id f m.deliveries ends (ground (arith, n)))),
        (λ i h. still i (rw moved (find_still i d.id f m.deliveries ends h))),
        (λ i c n e. elim (Bool-cases (d.id == i)) [
          | inl k ↦
              still i (rw moved (find_equal i d.id f m.deliveries c ends ((==_iff d.id i).0 k) e))
          | inr k ↦
              all i c (ground (arith, n, k))
                (ap (find_delivery i) moved ∙ (find_other i d.id f m.deliveries ends k ∙ e))
        ]),
      )

insert_delivery-length :
    (d : NotificationDelivery) (ds : List NotificationDelivery)
    → length (insert_delivery d ds) ≡ suc (length ds)
unfolding insert_delivery
insert_delivery-length d [] = refl
insert_delivery-length d (e ∷ es) = ground (arith, insert_delivery-length d es)

oldest_first-length : (ds : List NotificationDelivery) → length (oldest_first ds) ≡ length ds
unfolding oldest_first
oldest_first-length [] = refl
oldest_first-length (d ∷ ds) =
    insert_delivery-length d (oldest_first ds) ∙ ap suc (oldest_first-length ds)

-- With a notifier, dispatch_pending sends or fails as many deliveries as wait, at most the batch,
-- and skips none; of the deliveries of the table, the claimed ones are sent or failed afterwards
-- and the others are as they were.
pub dispatch_pending-settles :
    (catalog : Catalog) (now : ℕ) (send : TelegramNotifier) (batch_size : ℕ) (m : Messaging)
    (d : NotificationDelivery)
    → find_delivery d.id m.deliveries ≡ some d
    → let claimed = is_in d.id (map (λ c. c.id) (claim_pending batch_size m.deliveries)) in
      let waiting = count_where is_pending_delivery m.deliveries in
      let (s, m') = dispatch_pending catalog now (some send) batch_size m in
      (s.sent_count + s.failed_count ≡ (if leb batch_size waiting then batch_size else waiting))
      × (s.skipped_count ≡ 0)
      × (((claimed ≡ true) × IsSettled d.id m'.deliveries)
          ⊎ ((claimed ≡ false) × (find_delivery d.id m'.deliveries ≡ some d)))
unfolding dispatch_pending claim_pending
dispatch_pending-settles catalog now send batch_size m d e =
    let waiting = filter_where is_pending_delivery m.deliveries in
    let claimed = claim_pending batch_size m.deliveries in
    let (counts, skips, others, still, all) =
      dispatch_each-HasDispatched catalog now send claimed none_dispatched m in
    let sum : 0 + 0 + length claimed ≡ length claimed = omega arith in
    (
      counts
          ∙ (sum
              ∙ (take-length batch_size (oldest_first waiting)
                  ∙ ap (λ n. if leb batch_size n then batch_size else n)
                      (oldest_first-length waiting
                        ∙ filter-count is_pending_delivery m.deliveries))),
      skips,
      elim (Bool-cases (is_in d.id (map (λ c. c.id) claimed))) [
        | inl k ↦ inl (k, all d.id d k e)
        | inr k ↦ inr (k, others d.id k ∙ e)
      ],
    )
