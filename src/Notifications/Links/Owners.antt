-- ===== src/Notifications/Links/Owners.antt =====
-- No Telegram account is linked to two users.
use plomio.Notifications.{
  Messaging, User, Option, List, ℕ, Bool, false, any_where, String, find_where, ◌∷◌, some, none,
}
use plomio.Notifications.Links.{
  create_telegram_link_code, consume_link_code, confirm_telegram_link, link_user, link_row,
  confirm_for, has_telegram, set_telegram, is_id, update_first,
}
use plomio.Prelude.{
  List, Option, Bool, ℕ, is_id, find_where, false, String, any_where, ◌∷◌, [], inl, inr, ◌≡◌, none,
  some, Bool-cases, ◌==◌, update_first, refl, arith,
}

abbrev pub same_telegram : Option ℕ → User → Bool
same_telegram none u = false
same_telegram (some telegram_id) u = has_telegram telegram_id u

abbrev pub HasOneOwner : List User → Type 0
HasOneOwner [] = Unit
HasOneOwner (u ∷ us) = (any_where (same_telegram u.telegram_id) us ≡ false) × HasOneOwner us

-- A call on links with its arguments, at an instant.
pub data LinkCall : Type 0 where
  creates : (user_id ttl : ℕ) (code : String) → LinkCall
  confirms : (code : String) (telegram_id : ℕ) → LinkCall

abbrev pub run_link : ℕ → LinkCall → Messaging → Messaging
run_link now (LinkCall.creates user_id ttl code) m =
    create_telegram_link_code now user_id ttl code m
run_link now (LinkCall.confirms code telegram_id) m =
    (confirm_telegram_link now code telegram_id m).1

abbrev pub run_links : List (ℕ × LinkCall) → Messaging → Messaging
run_links [] m = m
run_links ((now, call) ∷ calls) m = run_links calls (run_link now call m)

no_clash : (us : List User) → any_where (same_telegram none) us ≡ false
no_clash [] = refl
no_clash (u ∷ us) = no_clash us

other_kept :
    (p : User → Bool) (t : ℕ) (o : Option ℕ) (us : List User)
    → is_id o t ≡ false
    → any_where (same_telegram o) us ≡ false
    → any_where (same_telegram o) (update_first p (set_telegram t) us) ≡ false
other_kept p t none us n h = no_clash (update_first p (set_telegram t) us)
other_kept p t (some a) [] n h = refl
other_kept p t (some a) (u ∷ us) n h = elim (Bool-cases (p u)) [
  | inl e ↦ rw e (ground (arith, n, h))
  | inr e ↦ rw e (ground (arith, n, h, other_kept p t (some a) us n (ground (arith, h))))
]

set-HasOneOwner :
    (p : User → Bool) (t : ℕ) (us : List User)
    → HasOneOwner us
    → any_where (has_telegram t) us ≡ false
    → HasOneOwner (update_first p (set_telegram t) us)
set-HasOneOwner p t [] h f = tt
set-HasOneOwner p t (u ∷ us) h f = elim (Bool-cases (p u)) [
  | inl e ↦ rw e (ground (arith, f), h.1)
  | inr e ↦ rw e (
    other_kept p t u.telegram_id us (ground (arith, f)) h.0,
    set-HasOneOwner p t us h.1 (ground (arith, f)),
  )
]

none_found : (p : User → Bool) (us : List User) → find_where p us ≡ none → any_where p us ≡ false
none_found p [] e = refl
none_found p (u ∷ us) e = elim (Bool-cases (p u)) [
  | inl k ↦ absurd (cc (e, k))
  | inr k ↦ ground (arith, k, none_found p us (ground (arith, k, e)))
]

link_row-HasOneOwner :
    (user_id t : ℕ) (m : Messaging) (o : Option User)
    → HasOneOwner m.users
    → any_where (has_telegram t) m.users ≡ false
    → HasOneOwner (link_row user_id t m o).1.users
link_row-HasOneOwner user_id t m none h f = h
link_row-HasOneOwner user_id t m (some u) h f = set-HasOneOwner (λ u. u.id == user_id) t m.users h f

link_user-HasOneOwner :
    (user_id t : ℕ) (m : Messaging) (o : Option User)
    → find_where (has_telegram t) m.users ≡ o
    → HasOneOwner m.users
    → HasOneOwner (link_user user_id t m o).1.users
link_user-HasOneOwner user_id t m none e h =
    link_row-HasOneOwner user_id t m (find_where (λ u. u.id == user_id) m.users) h
      (none_found (has_telegram t) m.users e)
link_user-HasOneOwner user_id t m (some owner) e h = h

confirm_for-HasOneOwner :
    (t : ℕ) (user_id : Option ℕ) (m : Messaging)
    → HasOneOwner m.users
    → HasOneOwner (confirm_for t user_id m).1.users
confirm_for-HasOneOwner t none m h = h
confirm_for-HasOneOwner t (some id) m h =
    link_user-HasOneOwner id t m (find_where (has_telegram t) m.users) refl h

run_link-HasOneOwner :
    (now : ℕ) (call : LinkCall) (m : Messaging)
    → HasOneOwner m.users
    → HasOneOwner (run_link now call m).users
unfolding create_telegram_link_code confirm_telegram_link consume_link_code
run_link-HasOneOwner now (LinkCall.creates u ttl code) m h = h
run_link-HasOneOwner now (LinkCall.confirms code t) m h =
    confirm_for-HasOneOwner t (consume_link_code now code m).0 (consume_link_code now code m).1 h

-- If no Telegram account belongs to two users, then none does after any sequence of new codes and
-- of confirmations of codes.
pub run_links-HasOneOwner :
    (calls : List (ℕ × LinkCall)) (m : Messaging)
    → HasOneOwner m.users
    → HasOneOwner (run_links calls m).users
run_links-HasOneOwner [] m h = h
run_links-HasOneOwner ((now, call) ∷ calls) m h =
    run_links-HasOneOwner calls (run_link now call m) (run_link-HasOneOwner now call m h)
