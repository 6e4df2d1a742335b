-- ===== src/Notifications/Links.antt =====
-- The linking of a Telegram account: `create_telegram_link_code` and `confirm_telegram_link`, with
-- `TelegramLinkStore` (packages/notifications/src/telegram_link_store.py).
pub mod Owners
use plomio.Core.Result.{Result, ok, err, object_not_found}
use plomio.Notifications.{
  Messaging, User, LinkCode, ℕ, String, Bool, some, find_where, Option, str_eq, filter_where, not,
  [],
}
use plomio.Prelude.{
  ℕ, find_where, some, Bool, String, is_id, filter_where, if◌then◌else◌, Option, str_eq, ◌==◌, not,
  ◌&&◌, none, update_first, ltb, ◌++◌, ◌+◌, ◌∷◌, [],
}

pub data TelegramLinkOutcome : Type 0 where
  linked already_linked_same already_linked_other invalid_code : TelegramLinkOutcome

-- `SET ... EX`: the code is one of `secrets.token_urlsafe`.
unfoldable pub create_telegram_link_code : ℕ → ℕ → ℕ → String → Messaging → Messaging
create_telegram_link_code now user_id ttl code m = record m {
  link_codes =
      filter_where (λ c. not (str_eq c.code code)) m.link_codes
      ++ record { code = code; user_id = user_id; expires_at = now + ttl } ∷ [];
}

-- `GETDEL`
abbrev pub is_live : ℕ → String → LinkCode → Bool
is_live now code c = str_eq c.code code && ltb now c.expires_at

unfoldable pub consume_link_code : ℕ → String → Messaging → Option ℕ × Messaging
consume_link_code now code m = (
  elim (find_where (is_live now code) m.link_codes) [ none ↦ none | some c ↦ some c.user_id ],
  record m { link_codes = filter_where (λ c. not (str_eq c.code code)) m.link_codes },
)

abbrev pub has_telegram : ℕ → User → Bool
has_telegram telegram_id u = is_id u.telegram_id telegram_id

abbrev pub set_telegram : ℕ → User → User
set_telegram telegram_id u = record u { telegram_id = some telegram_id }

-- The update of a row of the table of users, which raises where there is none.
abbrev pub link_row : ℕ → ℕ → Messaging → Option User → Result TelegramLinkOutcome × Messaging
link_row user_id telegram_id m none = (err object_not_found, m)
link_row user_id telegram_id m (some user) = (
  ok TelegramLinkOutcome.linked,
  record m { users = update_first (λ u. u.id == user_id) (set_telegram telegram_id) m.users },
)

-- The guards on the owner that the account has.
abbrev pub link_user : ℕ → ℕ → Messaging → Option User → Result TelegramLinkOutcome × Messaging
link_user user_id telegram_id m none =
    link_row user_id telegram_id m (find_where (λ u. u.id == user_id) m.users)
link_user user_id telegram_id m (some owner) = (
  ok (
      if owner.id == user_id
      then TelegramLinkOutcome.already_linked_same
      else TelegramLinkOutcome.already_linked_other),
  m,
)

abbrev pub confirm_for : ℕ → Option ℕ → Messaging → Result TelegramLinkOutcome × Messaging
confirm_for telegram_id none m = (ok TelegramLinkOutcome.invalid_code, m)
confirm_for telegram_id (some user_id) m =
    link_user user_id telegram_id m (find_where (has_telegram telegram_id) m.users)

unfoldable pub confirm_telegram_link :
    ℕ → String → ℕ → Messaging → Result TelegramLinkOutcome × Messaging
unfolding consume_link_code
confirm_telegram_link now code telegram_user_id m =
    let (user_id, m') = consume_link_code now code m in confirm_for telegram_user_id user_id m'
