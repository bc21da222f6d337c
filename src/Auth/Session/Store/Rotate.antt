-- ===== src/Auth/Session/Store/Rotate.antt =====
-- `rotate` of src/auth/session.rs: a session is revoked, at most once, and another one is created.
-- The statement that claims the session finds it by its identifier; here it is found by the hash of
-- its token, which the session carries, and must have the identifier. The instants of the row are
-- compared there as texts, so that this comparison is a parameter.
use configdeck.Auth.Session.Store.{
  SessionRow, Store, load, create, set_session, revoked_row, new_row,
}
use configdeck.Auth.Session.{
  AuthenticatedSession, AuthenticationState, PrivilegedAuthLevel, SessionSettings, SessionUser,
}
use configdeck.Errors.{Result, ok, err, forbidden, unauthorized, Result-cases}
use configdeck.Prelude.Int.{ℤ, eqb_ℤ}
use configdeck.Prelude.Tables.{row_where}
use configdeck.Prelude.{
  ℕ, ◌≡◌, Bool, true, false, not, ◌&&◌, Option, none, some, Text, eq_text, eq_text_iff,
  eq_text_refl, if◌then◌else◌, arith, Bool-cases, Option-cases, inl, inr, refl,
}

-- The active user has the version.
abbrev pub has_version : Store → Text → ℤ → Bool
has_version st user_id auth_version = elim (st.users user_id) [
  | none ↦ false
  | some user ↦ eqb_ℤ auth_version user.auth_version && user.active
]

-- The time and the level of a privileged session.
abbrev pub privileged_row : ℕ → PrivilegedAuthLevel → SessionRow → SessionRow
privileged_row now level row = record row {
  privileged_authenticated_at = some now;
  privileged_auth_level = some level;
}

-- `UPDATE sessions SET privileged_authenticated_at = ?, … WHERE token_hash = ?`
unfoldable pub set_level : ℕ → Option PrivilegedAuthLevel → Text → Store → Store
set_level now none token_hash st = st
set_level now (some level) token_hash st = elim (st.sessions token_hash) [
  | none ↦ st
  | some row ↦ set_session st token_hash (privileged_row now level row)
]

module _ (hash : Text → Text) (settings : SessionSettings) (is_later : ℕ → ℕ → Bool) where
  -- the conditions of the claim on the row
  unfoldable pub claimable : ℕ → AuthenticatedSession → SessionUser → Store → SessionRow → Bool
  claimable now old user st row =
      eq_text row.session_id old.id
      && not row.revoked
      && is_later row.idle_expires_at now
      && is_later row.absolute_expires_at now
      && has_version st row.user_id user.auth_version

  -- `id`, `raw` and `csrf` are the fresh identifier and tokens, `later` the clock at the end.
  unfoldable pub rotate :
      ℕ
      → ℕ
      → AuthenticatedSession
      → SessionUser
      → AuthenticationState
      → Option PrivilegedAuthLevel
      → Text
      → Text
      → Text
      → Store
      → Result (Unit {0}) × Store
  unfolding claimable create set_level
  rotate now later old user state level id raw csrf st =
      if not (eq_text old.user.id user.id)
      then (err forbidden, st)
      else elim (row_where st.sessions old.token_hash (claimable now old user st)) [
        | none ↦ (err unauthorized, st)
        | some row ↦
            let claimed = set_session st old.token_hash (revoked_row row) in
            elim (create hash settings now id raw csrf user state claimed) [
              | err e ↦ (err e, claimed)
              | ok st' ↦ (ok tt, set_level later level (hash raw) st')
            ]
      ]

  -- The old session is there, and revoked.
  IsOver : AuthenticatedSession → Store → Type 0
  IsOver old st =
      (row : SessionRow) × (st.sessions old.token_hash ≡ some row) × (row.revoked ≡ true)

  revoked-IsOver :
      (old : AuthenticatedSession) (row : SessionRow) (st : Store)
      → IsOver old (set_session st old.token_hash (revoked_row row))
  unfolding IsOver
  revoked-IsOver old row st = (revoked_row row, ground (arith, eq_text_refl old.token_hash), refl)

  set_level-IsOver :
      (now : ℕ) (level : Option PrivilegedAuthLevel) (token_hash : Text)
      (old : AuthenticatedSession) (st : Store)
      → eq_text token_hash old.token_hash ≡ false
      → IsOver old st
      → IsOver old (set_level now level token_hash st)
  unfolding set_level IsOver
  set_level-IsOver now none token_hash old st f o = o
  set_level-IsOver now (some level) token_hash old st f (row, e, r) =
      elim (Option-cases (st.sessions token_hash)) [
        | inl p ↦ rw (set_level, p) (row, e, r)
        | inr (other, p) ↦ rw (set_level, p) (row, ground arith, r)
      ]

  create-IsOver :
      (now : ℕ) (id raw csrf : Text) (user : SessionUser) (state : AuthenticationState)
      (old : AuthenticatedSession) (st : Store) {st' : Store}
      → create hash settings now id raw csrf user state st ≡ ok st'
      → IsOver old st
      → (eq_text (hash raw) old.token_hash ≡ false) × IsOver old st'
  unfolding create IsOver
  create-IsOver now id raw csrf user state old st {st'} h (row, e, r) =
      let free : st.sessions (hash raw) ≡ none = ground arith in
      let other : eq_text (hash raw) old.token_hash ≡ false =
        ground (arith, eq_text_iff (hash raw) old.token_hash) in
      let made : set_session st (hash raw) (new_row hash settings now id raw csrf user state)
          ≡ st' =
        ground arith in
      (other, rw (← made) (row, ground arith, r))

  rotate-IsOver :
      (now later : ℕ) (old : AuthenticatedSession) (user : SessionUser)
      (state : AuthenticationState) (level : Option PrivilegedAuthLevel) (id raw csrf : Text)
      (st : Store)
      → (rotate now later old user state level id raw csrf st).0 ≡ ok tt
      → IsOver old (rotate now later old user state level id raw csrf st).1
  unfolding rotate
  rotate-IsOver now later old user state level id raw csrf st h =
      elim (Bool-cases (eq_text old.user.id user.id)) [
        | inr f ↦ absurd (ground arith)
        | inl f ↦
            elim (Option-cases (row_where st.sessions old.token_hash (claimable now old user st))) [
              | inl p ↦ absurd (ground arith)
              | inr (row, p) ↦
                  let claimed = set_session st old.token_hash (revoked_row row) in
                  elim (Result-cases (create hash settings now id raw csrf user state claimed)) [
                    | inr (e, c) ↦ absurd (ground arith)
                    | inl (st', c) ↦
                        let (other, over) =
                          create-IsOver now id raw csrf user state old claimed c
                            (revoked-IsOver old row st) in
                        rw (rotate, f, p, c)
                          (set_level-IsOver later level (hash raw) old st' other over)
                  ]
            ]
      ]

  IsOver-claim :
      (now : ℕ) (old : AuthenticatedSession) (user : SessionUser) (st : Store)
      → IsOver old st
      → row_where st.sessions old.token_hash (claimable now old user st) ≡ none
  unfolding IsOver claimable
  IsOver-claim now old user st (row, e, r) = ground arith

  IsOver-rotate :
      (now later : ℕ) (old : AuthenticatedSession) (user : SessionUser)
      (state : AuthenticationState) (level : Option PrivilegedAuthLevel) (id raw csrf : Text)
      (st : Store)
      → IsOver old st
      → old.user.id ≡ user.id
      → rotate now later old user state level id raw csrf st ≡ (err unauthorized, st)
  unfolding rotate
  IsOver-rotate now later old user state level id raw csrf st o e =
      let same : eq_text old.user.id user.id ≡ true = (eq_text_iff old.user.id user.id).1 e in
      let over = IsOver-claim now old user st o in rw (rotate, same, over) refl

  IsOver-load :
      (now : ℕ) (old : AuthenticatedSession) (raw : Text) (st : Store)
      → IsOver old st
      → hash raw ≡ old.token_hash
      → (load hash settings now raw st).0 ≡ err unauthorized
  unfolding load IsOver
  IsOver-load now old raw st (row, e, r) same = elim (Option-cases (st.users row.user_id)) [
    | inl p ↦ ground arith
    | inr (user, p) ↦ ground arith
  ]

  -- A session is rotated at most once: after a rotation that succeeded, its token is refused at
  -- every time, and another rotation of it for its user is refused and changes nothing.
  pub rotate_once :
      (now later : ℕ) (old : AuthenticatedSession) (user : SessionUser)
      (state : AuthenticationState) (level : Option PrivilegedAuthLevel) (id raw csrf : Text)
      (st : Store)
      → (rotate now later old user state level id raw csrf st).0 ≡ ok tt
      → let st' = (rotate now later old user state level id raw csrf st).1 in
        ((at : ℕ) (token : Text)
          → hash token ≡ old.token_hash
          → (load hash settings at token st').0 ≡ err unauthorized)
        × ((at at' : ℕ) (again : SessionUser) (state' : AuthenticationState)
              (level' : Option PrivilegedAuthLevel) (id' raw' csrf' : Text)
            → old.user.id ≡ again.id
            → rotate at at' old again state' level' id' raw' csrf' st' ≡ (err unauthorized, st'))
  rotate_once now later old user state level id raw csrf st h =
      let st' = (rotate now later old user state level id raw csrf st).1 in
      let over = rotate-IsOver now later old user state level id raw csrf st h in
      (
        λ at token same. IsOver-load at old token st' over same,
        λ at at' again state' level' id' raw' csrf' same.
            IsOver-rotate at at' old again state' level' id' raw' csrf' st' over same,
      )
