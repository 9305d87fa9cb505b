-- ===== src/Backend/Auth/Reset.antt =====
-- A reset of a password: used once, and the end of every session and token that was out.
use ajar_family.Prelude.{
  ℕ, ◌+◌, ◌≡◌, refl, ◌∙◌, inl, inr, filter, filter-Mem, Bool, true, false, not, ◌&&◌, ◌||◌, Option,
  none, some, Memᴰ, Bool-cases, if-elim, ltb, length, ◌==◌, arith,
}
use ajar_family.Text.{Text, same}
use ajar_family.Backend.Model.Accounts.{User, Session, PasswordResetToken}
use ajar_family.Backend.Table.{get, values, put, update_where}
use ajar_family.Backend.Table.Laws.{
  Keyed, get-put, get-Keyed, find-put, find-IsTrue, find-update_where, values-update_where, updated,
}
use ajar_family.Backend.Store.{MemoryStore}
use ajar_family.Backend.Store.Accounts.{
  is_unset, get_user, update_user, list_sessions_for_user, get_password_reset_token_by_hash,
  update_password_reset_token, invalidate_password_reset_tokens_for_user,
}
use ajar_family.Backend.Outcome.{ErrorCode, Outcome, done, failed}
use ajar_family.Backend.Auth.{
  Crypto, has_expired, revoke_sessions, with_password, finish_reset, reset_known, reset_token,
  reset_password, user_for_token,
}

module _ (crypto : Crypto) (s : MemoryStore) (now : ℕ) (raw new_password : Text) where
  -- Why a reset goes through, and what it leaves.
  record IsReset (u : User) (s' : MemoryStore) : Type 0 where
    long : ltb (length raw) 16 ≡ false
    token : PasswordResetToken
    known : get_password_reset_token_by_hash s (crypto.sha256b64url raw) ≡ some token
    old : User
    account : get_user s token.user_id ≡ some old
    hash : Text
    user : u ≡ with_password old hash
    store : s' ≡ finish_reset crypto s now token old hash

  known-IsReset :
      (token : PasswordResetToken) (o : Option User) (h : Option Text) {u : User} {s' : MemoryStore}
      → ltb (length raw) 16 ≡ false
      → get_password_reset_token_by_hash s (crypto.sha256b64url raw) ≡ some token
      → get_user s token.user_id ≡ o
      → reset_known crypto s now token o h ≡ done u s'
      → IsReset u s'
  unfolding reset_known
  known-IsReset token none h l k a e = absurd (cc e)
  known-IsReset token (some old) none l k a e = absurd (cc e)
  known-IsReset token (some old) (some hash) l k a e = record {
    long = l;
    token = token;
    known = k;
    old = old;
    account = a;
    hash = hash;
    user = cc e;
    store = cc e;
  }

  token-IsReset :
      (o : Option PasswordResetToken) {u : User} {s' : MemoryStore}
      → ltb (length raw) 16 ≡ false
      → get_password_reset_token_by_hash s (crypto.sha256b64url raw) ≡ o
      → reset_token crypto s now new_password o ≡ done u s'
      → IsReset u s'
  unfolding reset_token
  token-IsReset none l k e = absurd (cc e)
  token-IsReset (some token) l k e =
      elim (Bool-cases (not (is_unset token.used_at) || has_expired token.expires_at now)) [
        | inl b ↦ absurd (cc (rw b at e))
        | inr b ↦
            known-IsReset token (get_user s token.user_id) (crypto.hash_password new_password) l k
              refl (rw b at e)
      ]

  reset_password-IsReset :
      {u : User} {s' : MemoryStore}
      → reset_password crypto s now raw new_password ≡ done u s'
      → IsReset u s'
  unfolding reset_password
  reset_password-IsReset e = elim (Bool-cases (ltb (length raw) 16)) [
    | inl b ↦ absurd (cc (rw b at e))
    | inr b ↦
        token-IsReset (get_password_reset_token_by_hash s (crypto.sha256b64url raw)) b refl
          (rw b at e)
  ]

  used_token_fails :
      (token : PasswordResetToken)
      → get_password_reset_token_by_hash s (crypto.sha256b64url raw) ≡ some token
      → is_unset token.used_at ≡ false
      → reset_password crypto s now raw new_password ≡ failed ErrorCode.unauthorized s
  used_token_fails token k n =
      unfold reset_password in
      if-elim (λ (o : Outcome User). o ≡ failed ErrorCode.unauthorized s) (ltb (length raw) 16)
        (λ b. refl) (λ b. rw k (unfold reset_token in rw n))

module _ (crypto : Crypto) (s : MemoryStore) (now : ℕ) (token : PasswordResetToken) (old : User)
    (hash raw_hash : Text) where
  abbrev after : MemoryStore
  after = finish_reset crypto s now token old hash

  abbrev burnt : PasswordResetToken
  burnt = record token { used_at = some (some now) }

  token_burnt :
      Keyed (λ t. t.id) s.reset_tokens
      → get_password_reset_token_by_hash s raw_hash ≡ some token
      → get_password_reset_token_by_hash after raw_hash ≡ some burnt
  token_burnt keyed k =
      unfold finish_reset update_user revoke_sessions invalidate_password_reset_tokens_for_user
        update_password_reset_token get_password_reset_token_by_hash in
      find-update_where (λ (t : PasswordResetToken). same t.user_id old.id && is_unset t.used_at)
        (λ t. record t { used_at = some (some now) }) (λ t. same t.token_hash raw_hash) (λ t. refl)
        (put s.reset_tokens token.id burnt)
        (find-put (λ t. t.id) (λ t. same t.token_hash raw_hash) s.reset_tokens burnt keyed k
          (find-IsTrue (λ (t : PasswordResetToken). same t.token_hash raw_hash) s.reset_tokens k))
      ∙ if-elim (λ (t : PasswordResetToken). some t ≡ some burnt)
          (same burnt.user_id old.id && false) (λ b. refl) (λ b. refl)

  abbrev to_revoke : Session → Bool
  to_revoke v = same v.user_id old.id && is_unset v.revoked_at

  abbrev revoked : Session → Session
  revoked v = record v { revoked_at = some (some now) }

  listed_session :
      {v : Session}
      → Memᴰ v (list_sessions_for_user after old.id)
      → Memᴰ v
          (filter (λ v. same v.user_id old.id) (values (update_where to_revoke revoked s.sessions)))
  listed_session m =
      unfold list_sessions_for_user finish_reset update_user revoke_sessions
        invalidate_password_reset_tokens_for_user update_password_reset_token in
      m

  ended :
      (w : Session)
      → same (updated to_revoke revoked w).user_id old.id ≡ true
      → is_unset (updated to_revoke revoked w).revoked_at ≡ false
  ended w h = elim (Bool-cases (to_revoke w)) [ inl b ↦ rw b | inr b ↦ rw b (rw (rw b at h) at b) ]

  sessions_end :
      (v : Session) → Memᴰ v (list_sessions_for_user after old.id) → is_unset v.revoked_at ≡ false
  sessions_end v m =
      let (l, mine) =
        filter-Mem (λ (v : Session). same v.user_id old.id)
          (values (update_where to_revoke revoked s.sessions)) (listed_session m) in
      let (w, k, e) = values-update_where to_revoke revoked s.sessions l in
      rw e (ended w (rw e at mine))

  user_kept : get_user after old.id ≡ some (with_password old hash)
  user_kept =
      unfold finish_reset update_user get_user in get-put s.users old.id (with_password old hash)

  old_tokens_fail :
      user_for_token after old.id old.token_version ≡ failed ErrorCode.unauthorized after
  old_tokens_fail = unfold user_for_token in rw (user_kept, older, user_for_token) refl
    where
      older : (old.token_version + 1 == old.token_version) ≡ false
      older = ground arith

module _ (crypto : Crypto) (s : MemoryStore) (now : ℕ) (raw new_password : Text) {u : User}
    {s' : MemoryStore} (tokens : Keyed (λ t. t.id) s.reset_tokens)
    (users : Keyed (λ u. u.id) s.users)
    (reset : reset_password crypto s now raw new_password ≡ done u s') where
  abbrev facts : IsReset crypto s now raw new_password u s'
  facts = reset_password-IsReset crypto s now raw new_password reset

  -- A PASSWORD RESET HAPPENS ONCE AND ENDS WHAT WAS OUT. In a store whose reset tokens and users are
  -- kept under their ids, after a reset with a token: the same token is refused at every later time
  -- with every password, every session of the user is revoked, the user is the one whom the store then
  -- has, and tokens of the user's earlier version are refused.
  pub reset_password_once :
      ((later : ℕ) (other : Text)
        → reset_password crypto s' later raw other ≡ failed ErrorCode.unauthorized s')
      × ((v : Session) → Memᴰ v (list_sessions_for_user s' u.id) → is_unset v.revoked_at ≡ false)
      × (get_user s' u.id ≡ some u)
      × ((before : User)
          → get_user s u.id ≡ some before
          → user_for_token s' u.id before.token_version ≡ failed ErrorCode.unauthorized s')
  reset_password_once =
      rw (facts.user, facts.store)
        (
          refused,
          sessions_end crypto s now facts.token facts.old facts.hash raw_hash,
          user_kept crypto s now facts.token facts.old facts.hash raw_hash,
          earlier,
        )
    where
      raw_hash : Text
      raw_hash = crypto.sha256b64url raw

      refused :
          (later : ℕ) (other : Text)
          → reset_password crypto
              (finish_reset crypto s now facts.token facts.old facts.hash)
              later
              raw
              other
            ≡ failed ErrorCode.unauthorized
                (finish_reset crypto s now facts.token facts.old facts.hash)
      refused later other =
          used_token_fails crypto (finish_reset crypto s now facts.token facts.old facts.hash) later
            raw other (burnt crypto s now facts.token facts.old facts.hash raw_hash)
            (token_burnt crypto s now facts.token facts.old facts.hash raw_hash tokens facts.known)
            refl

      own_id : facts.old.id ≡ facts.token.user_id
      own_id =
          let stored : get s.users facts.token.user_id ≡ some facts.old =
            unfold get_user in facts.account in
          get-Keyed (λ (u : User). u.id) s.users facts.token.user_id users stored

      earlier :
          (before : User)
          → get_user s facts.old.id ≡ some before
          → user_for_token
              (finish_reset crypto s now facts.token facts.old facts.hash)
              facts.old.id
              before.token_version
            ≡ failed ErrorCode.unauthorized
                (finish_reset crypto s now facts.token facts.old facts.hash)
      earlier before e =
          let same_user : facts.old ≡ before = cc (facts.account, rw own_id at e) in
          rw (← same_user) (old_tokens_fail crypto s now facts.token facts.old facts.hash raw_hash)
