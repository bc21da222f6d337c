-- ===== src/Auth/Session/Store/Live.antt =====
-- Which sessions load, and that none lives on beyond its end.
use configdeck.Auth.Session.Store.{
  SessionRow, UserRow, Store, is_dead, seen_row, session_of, load_row, load, revoke, create,
  set_session, revoked_row, new_row,
}
use configdeck.Auth.Session.{
  AuthenticatedSession, AuthenticationState, SessionSettings, SessionUser, full, minutes,
}
use configdeck.Errors.{ok, err, unauthorized}
use configdeck.Prelude.Int.{eqb_ℤ}
use configdeck.Prelude.{
  ℕ, ◌+◌, ◌≤◌, ◌<◌, ◌≡◌, ◌↔◌, ◌⊎◌, inl, inr, true, false, some, Text, arith, eq_text, eq_text_refl,
  Bool-cases, Option-cases,
}

module _ (hash : Text → Text) (settings : SessionSettings) where
  -- What the token of the loaded session `s` stands for.
  pub record IsLive (now : ℕ) (raw : Text) (st : Store) (s : AuthenticatedSession) : Type 0 where
    pub row : SessionRow
    pub found : st.sessions (hash raw) ≡ some row
    pub own_hash : eq_text row.token_hash (hash raw) ≡ true
    pub user : UserRow
    pub user_found : st.users row.user_id ≡ some user
    pub kept : row.revoked ≡ false
    pub active : user.active ≡ true
    pub same_version : eqb_ℤ row.auth_version user.auth_version ≡ true
    pub not_idle : now < row.idle_expires_at
    pub not_over : now < row.absolute_expires_at
    pub complete_or_young : (row.authentication_state ≡ full) ⊎ (now < row.created_at + minutes 5)
    pub answer : s ≡ session_of row user

  module _ (now : ℕ) (raw : Text) (st : Store) where
    load_finds :
        (s : AuthenticatedSession)
        → (load hash settings now raw st).0 ≡ ok s
        → (row : SessionRow) × (user : UserRow) × (st.sessions (hash raw) ≡ some row)
          × (st.users row.user_id ≡ some user)
    unfolding load
    load_finds s h = elim (Option-cases (st.sessions (hash raw))) [
      | inl p ↦ absurd (ground arith)
      | inr (row, p) ↦ elim (Option-cases (st.users row.user_id)) [
        | inl q ↦ absurd (ground arith)
        | inr (user, q) ↦ (row, user, p, q)
      ]
    ]

    load_needs :
        (s : AuthenticatedSession) → (load hash settings now raw st).0 ≡ ok s → IsLive now raw st s
    unfolding load load_row is_dead
    load_needs s h =
        let (row, user, p, q) = load_finds s h in
        record {
          row = row;
          found = p;
          own_hash = ground arith;
          user = user;
          user_found = q;
          kept = ground arith;
          active = ground arith;
          same_version = ground arith;
          not_idle = ground arith;
          not_over = ground arith;
          complete_or_young = ground arith;
          answer = ground arith;
        }

    -- A token loads a session exactly if its row is there and not revoked, its user is active and
    -- has the version that the session was made for, neither of its two ends has come, and it is
    -- complete or less than five minutes old; and the session that it loads is the row's.
    pub load_iff :
        (s : AuthenticatedSession)
        → ((load hash settings now raw st).0 ≡ ok s) ↔ IsLive now raw st s
    unfolding load load_row is_dead
    load_iff s = (
      load_needs s,
      λ l. ground (
        arith, l.found, l.own_hash, l.user_found, l.kept, l.active, l.same_version, l.not_idle,
        l.not_over, l.complete_or_young, l.answer,
      ),
    )

    -- A token that was revoked is refused at every time afterwards.
    pub load-revoke :
        (load hash settings now raw (revoke hash settings raw st)).0 ≡ err unauthorized
    unfolding load revoke
    load-revoke = elim (Option-cases (st.sessions (hash raw))) [
      | inl p ↦ ground arith
      | inr (row, p) ↦ elim (Option-cases (st.users row.user_id)) [
        | inl q ↦ ground (arith, eq_text_refl (hash raw))
        | inr (user, q) ↦ ground (arith, eq_text_refl (hash raw))
      ]
    ]

  -- No session idles beyond its absolute end.
  abbrev pub IsBounded : Store → Type 0
  IsBounded st =
      (h : Text) (row : SessionRow)
      → st.sessions h ≡ some row
      → row.idle_expires_at ≤ row.absolute_expires_at

  IsBounded-set :
      (st : Store) (h : Text) (row : SessionRow)
      → IsBounded st
      → row.idle_expires_at ≤ row.absolute_expires_at
      → IsBounded (set_session st h row)
  IsBounded-set st h row b small j r e = elim (Bool-cases (eq_text h j)) [
    | inl t ↦ ground (arith, small)
    | inr t ↦ b j r (ground arith)
  ]

  seen_row_small :
      (now : ℕ) (row : SessionRow)
      → row.idle_expires_at ≤ row.absolute_expires_at
      → (seen_row settings now row).idle_expires_at
        ≤ (seen_row settings now row).absolute_expires_at
  unfolding seen_row
  seen_row_small now row small = ground (arith, small)

  load_row-IsBounded :
      (now : ℕ) (h : Text) (row : SessionRow) (user : UserRow) (st : Store)
      → row.idle_expires_at ≤ row.absolute_expires_at
      → IsBounded st
      → IsBounded (load_row hash settings now h row user st).1
  unfolding load_row
  load_row-IsBounded now h row user st small b = elim (Bool-cases (eq_text row.token_hash h)) [
    | inr t ↦ rw (load_row, t) b
    | inl t ↦ elim (Bool-cases (is_dead now row user)) [
      | inl d ↦ rw (load_row, t, d) (IsBounded-set st h (revoked_row row) b small)
      | inr d ↦
          rw (load_row, t, d)
            (IsBounded-set st h (seen_row settings now row) b (seen_row_small now row small))
    ]
  ]

  pub load-load_row :
      (now : ℕ) (raw : Text) (st : Store) (row : SessionRow) (user : UserRow)
      → st.sessions (hash raw) ≡ some row
      → st.users row.user_id ≡ some user
      → row.revoked ≡ false
      → load hash settings now raw st ≡ load_row hash settings now (hash raw) row user st
  unfolding load
  load-load_row now raw st row user p q r = ground arith

  load-IsBounded :
      (now : ℕ) (raw : Text) (st : Store)
      → IsBounded st
      → IsBounded (load hash settings now raw st).1
  unfolding load
  load-IsBounded now raw st b = elim (Option-cases (st.sessions (hash raw))) [
    | inl p ↦ rw (load, p) b
    | inr (row, p) ↦ elim (Option-cases (st.users row.user_id)) [
      | inl q ↦ rw (load, p, q) b
      | inr (user, q) ↦ elim (Bool-cases row.revoked) [
        | inl r ↦ rw (load, p, q, r) b
        | inr r ↦
            rw (load-load_row now raw st row user p q r)
              (load_row-IsBounded now (hash raw) row user st (b (hash raw) row p) b)
      ]
    ]
  ]

  revoke-IsBounded :
      (raw : Text) (st : Store) → IsBounded st → IsBounded (revoke hash settings raw st)
  unfolding revoke
  revoke-IsBounded raw st b = elim (Option-cases (st.sessions (hash raw))) [
    | inl p ↦ rw (revoke, p) b
    | inr (row, p) ↦
        rw (revoke, p) (IsBounded-set st (hash raw) (revoked_row row) b (b (hash raw) row p))
  ]

  create-IsBounded :
      (now : ℕ) (id raw csrf : Text) (user : SessionUser) (state : AuthenticationState)
      (st st' : Store)
      → create hash settings now id raw csrf user state st ≡ ok st'
      → IsBounded st
      → IsBounded st'
  unfolding create
  create-IsBounded now id raw csrf user state st st' h b =
      let row = new_row hash settings now id raw csrf user state in
      let made : set_session st (hash raw) row ≡ st' = ground arith in
      rw (← made) (IsBounded-set st (hash raw) row b (ground arith))

  -- What anybody may do with the table of sessions, at any time.
  pub data Move (st : Store) : Store → Type 0 where
    loading : (now : ℕ) (raw : Text) → Move st (load hash settings now raw st).1
    revoking : (raw : Text) → Move st (revoke hash settings raw st)
    creating :
        (now : ℕ) (id raw csrf : Text) (user : SessionUser) (state : AuthenticationState)
        {st' : Store}
        → create hash settings now id raw csrf user state st ≡ ok st'
        → Move st st'

  -- Loading, revoking and creating sessions keeps the idle end of every session at or before its
  -- absolute end.
  pub Move-IsBounded : {st st' : Store} → Move st st' → IsBounded st → IsBounded st'
  Move-IsBounded {st} (loading now raw) b = load-IsBounded now raw st b
  Move-IsBounded {st} (revoking raw) b = revoke-IsBounded raw st b
  Move-IsBounded {st} {st'} (creating now id raw csrf user state h) b =
      create-IsBounded now id raw csrf user state st st' h b
