-- ===== src/Sessions/Acquired.antt =====
-- A session that is acquired has enough time, and is nobody else's.
use plomio.Prelude.{
  ==_iff, ◌∙◌, none, some, [], ◌∷◌, inl, inr, zero, suc, false, ℕ, List, Option, ◌≡◌, any_where,
  filter_where, Bool-cases, ◌≤◌, sym, not, ltb, ◌-◌, arith, ap, if◌then◌else◌, refl, ◌∙◌, ==_iff,
}
use mathlib.Core.Option.{some-injective, Option}
use plomio.Sessions.{
  SessionMessage, Saved, Member, Pool, is_member, lowest, is_live_key, get_saved, with_margin,
  without, Attempt, or_next, pop_one, pop_each, acquire_session,
}

-- The session is in Redis with the margin left, and no other call can pop it from these members.
abbrev pub IsHeld : ℕ → ℕ → SessionMessage → List Saved → List Member → Type 0
IsHeld now margin message saved members =
    (s : Saved) × (get_saved now message.session_id saved ≡ some s)
    × (s.message ≡ message)
    × (margin ≤ s.expires_at - now)
    × (any_where (is_member message.session_id) members ≡ false)

none_left :
    (id : ℕ) (ms : List Member)
    → any_where (is_member id) (filter_where (λ m. not (is_member id m)) ms) ≡ false
none_left id [] = refl
none_left id (m ∷ ms) = ground (arith, none_left id ms)

found-id :
    (now id : ℕ) (saved : List Saved) (s : Saved)
    → get_saved now id saved ≡ some s
    → s.message.session_id ≡ id
found-id now id [] s e = absurd (cc e)
found-id now id (t ∷ saved) s e = elim (Bool-cases (is_live_key now id t)) [
  | inl k ↦
      let same : t ≡ s =
        some-injective t s (sym (ap (λ b. if b then some t else get_saved now id saved) k) ∙ e) in
      ap (λ v. v.message.session_id) (sym same)
      ∙ (==_iff t.message.session_id id).0 (ground (arith, k))
  | inr k ↦
      found-id now id saved s (sym (ap (λ b. if b then some t else get_saved now id saved) k) ∙ e)
]

held :
    (now margin id : ℕ) (pool : Pool) (o : Option Saved) (message : SessionMessage)
    → get_saved now id pool.saved ≡ o
    → with_margin now margin o ≡ some message
    → IsHeld now margin message pool.saved (without id pool).members
held now margin id pool none message e h = absurd (cc h)
held now margin id pool (some s) message e h = elim (Bool-cases (ltb (s.expires_at - now) margin)) [
  | inl k ↦ absurd (cc (h, ap (λ b. if b then none else some s.message) k))
  | inr k ↦
      let same : s.message ≡ message =
        some-injective s.message message
          (sym (ap (λ b. if b then none else some s.message) k) ∙ h) in
      let own : message.session_id ≡ id =
        ap (λ v. v.session_id) (sym same) ∙ found-id now id pool.saved s e in
      (
        s,
        ap (λ i. get_saved now i pool.saved) own ∙ e,
        same,
        ground (arith, k),
        ap (λ i. any_where (is_member i) (without id pool).members) own ∙ none_left id pool.members,
      )
]

or_next-IsHeld :
    (now margin id : ℕ) (pool : Pool) (o : Option SessionMessage) (next : Pool → Attempt)
    (message : SessionMessage)
    → with_margin now margin (get_saved now id pool.saved) ≡ o
    → ((p : Pool)
        → (next p).0 ≡ some message
        → IsHeld now margin message p.saved (next p).1.members)
    → (or_next o (without id pool) next).0 ≡ some message
    → IsHeld now margin message pool.saved (or_next o (without id pool) next).1.members
or_next-IsHeld now margin id pool none next message e k h = k (without id pool) h
or_next-IsHeld now margin id pool (some x) next message e k h =
    held now margin id pool (get_saved now id pool.saved) message refl (e ∙ h)

pop_one-IsHeld :
    (now margin : ℕ) (pool : Pool) (o : Option Member) (next : Pool → Attempt)
    (message : SessionMessage)
    → ((p : Pool)
        → (next p).0 ≡ some message
        → IsHeld now margin message p.saved (next p).1.members)
    → (pop_one now margin o pool next).0 ≡ some message
    → IsHeld now margin message pool.saved (pop_one now margin o pool next).1.members
pop_one-IsHeld now margin pool none next message k h = absurd (cc h)
pop_one-IsHeld now margin pool (some m) next message k h =
    or_next-IsHeld now margin m.session_id pool
      (with_margin now margin (get_saved now m.session_id pool.saved)) next message refl k h

pop_each-IsHeld :
    (attempts now margin : ℕ) (pool : Pool) (message : SessionMessage)
    → (pop_each attempts now margin pool).0 ≡ some message
    → IsHeld now margin message pool.saved (pop_each attempts now margin pool).1.members
unfolding pop_each
pop_each-IsHeld zero now margin pool message h = absurd (cc h)
pop_each-IsHeld (suc n) now margin pool message h =
    pop_one-IsHeld now margin pool (lowest pool.members) (pop_each n now margin) message
      (λ p. pop_each-IsHeld n now margin p message) h

-- A session that acquire_session returns is in Redis with at least the margin left of its time, and
-- is no member of the pool any more, so that no other call can acquire it before it is given back.
pub acquire_session-IsHeld :
    (now max_pop_attempts margin : ℕ) (pool : Pool) (message : SessionMessage)
    → (acquire_session now max_pop_attempts margin pool).0 ≡ some message
    → IsHeld now margin message pool.saved
        (acquire_session now max_pop_attempts margin pool).1.members
unfolding acquire_session
acquire_session-IsHeld now attempts margin pool message h =
    pop_each-IsHeld attempts now margin
      (record pool { members = filter_where (λ m. ltb now m.score) pool.members }) message h
