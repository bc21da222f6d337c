-- ===== src/Auth/Session/Store/Refused.antt =====
-- A session whose token was refused never comes back, whatever is done with sessions and accounts.
use configdeck.Accounts.{revoke_sessions}
use configdeck.Auth.Session.Store.Live.{Move, loading, revoking, creating, load-load_row}
use configdeck.Auth.Session.Store.Rotate.{rotate, claimable, set_level, privileged_row}
use configdeck.Auth.Session.Store.{
  SessionRow, UserRow, Store, is_dead, seen_row, load_row, load, revoke, create, set_session,
  revoked_row, new_row,
}
use configdeck.Auth.Session.{
  AuthenticatedSession, AuthenticationState, PrivilegedAuthLevel, SessionSettings, SessionUser,
}
use configdeck.Errors.{AppError, ok, err, unauthorized, Result-cases}
use configdeck.Prelude.Tables.{Table, row_where}
use configdeck.Prelude.{
  ℕ, ◌≡◌, inl, inr, refl, Bool, true, false, not, ◌||◌, Option, some, none, Text, arith, eq_text,
  eq_text_refl, eq_text_iff, Bool-cases, Option-cases,
}

-- The row that stands under the hash cannot be loaded again.
abbrev is_over : Text → SessionRow → Bool
is_over h row = row.revoked || not (eq_text row.token_hash h)

IsOver : Text → Store → Type 0
IsOver h st = (row : SessionRow) × (st.sessions h ≡ some row) × (is_over h row ≡ true)

IsOver-set :
    (h j : Text) (row : SessionRow) (st : Store)
    → ((old : SessionRow)
        → st.sessions h ≡ some old
        → eq_text j h ≡ true
        → is_over h old ≡ true
        → is_over h row ≡ true)
    → IsOver h st
    → IsOver h (set_session st j row)
unfolding IsOver
IsOver-set h j row st k (old, e, o) = elim (Bool-cases (eq_text j h)) [
  | inl same ↦ (row, ground arith, k old e same o)
  | inr other ↦ (old, ground arith, o)
]

IsOver-revoked :
    (h j : Text) (row : SessionRow) (st : Store)
    → IsOver h st
    → IsOver h (set_session st j (revoked_row row))
IsOver-revoked h j row st = IsOver-set h j (revoked_row row) st (λ old e same o. refl)

module _ (hash : Text → Text) (settings : SessionSettings) where
  load_row-IsOver :
      (now : ℕ) (h j : Text) (row : SessionRow) (user : UserRow) (st : Store)
      → st.sessions j ≡ some row
      → row.revoked ≡ false
      → IsOver h st
      → IsOver h (load_row hash settings now j row user st).1
  unfolding load_row seen_row
  load_row-IsOver now h j row user st e r o = elim (Bool-cases (eq_text row.token_hash j)) [
    | inr t ↦ rw (load_row, t) o
    | inl t ↦ elim (Bool-cases (is_dead now row user)) [
      | inl d ↦ rw (load_row, t, d) (IsOver-revoked h j row st o)
      | inr d ↦
          rw (load_row, t, d)
            (IsOver-set h j (seen_row settings now row) st
              (λ old f same over. absurd (ground (arith, eq_text_iff j h))) o)
    ]
  ]

  load-IsOver :
      (now : ℕ) (h raw : Text) (st : Store)
      → IsOver h st
      → IsOver h (load hash settings now raw st).1
  unfolding load
  load-IsOver now h raw st o = elim (Option-cases (st.sessions (hash raw))) [
    | inl p ↦ rw (load, p) o
    | inr (row, p) ↦ elim (Option-cases (st.users row.user_id)) [
      | inl q ↦ rw (load, p, q) o
      | inr (user, q) ↦ elim (Bool-cases row.revoked) [
        | inl r ↦ rw (load, p, q, r) o
        | inr r ↦
            rw (load-load_row hash settings now raw st row user p q r)
              (load_row-IsOver now h (hash raw) row user st p r o)
      ]
    ]
  ]

  revoke-IsOver : (h raw : Text) (st : Store) → IsOver h st → IsOver h (revoke hash settings raw st)
  unfolding revoke
  revoke-IsOver h raw st o = elim (Option-cases (st.sessions (hash raw))) [
    | inl p ↦ rw (revoke, p) o
    | inr (row, p) ↦ rw (revoke, p) (IsOver-revoked h (hash raw) row st o)
  ]

  create-IsOver :
      (h : Text) (now : ℕ) (id raw csrf : Text) (user : SessionUser) (state : AuthenticationState)
      (st : Store) {st' : Store}
      → create hash settings now id raw csrf user state st ≡ ok st'
      → IsOver h st
      → IsOver h st'
  unfolding create
  create-IsOver h now id raw csrf user state st {st'} e o =
      let row = new_row hash settings now id raw csrf user state in
      let free : st.sessions (hash raw) ≡ none = ground arith in
      let made : set_session st (hash raw) row ≡ st' = ground arith in
      rw (← made) (
        IsOver-set h (hash raw) row st
          (λ old f same over. absurd (ground (arith, eq_text_iff (hash raw) h))) o)

  set_level-IsOver :
      (h : Text) (now : ℕ) (level : Option PrivilegedAuthLevel) (j : Text) (st : Store)
      → IsOver h st
      → IsOver h (set_level now level j st)
  unfolding set_level
  set_level-IsOver h now none j st o = o
  set_level-IsOver h now (some level) j st o = elim (Option-cases (st.sessions j)) [
    | inl p ↦ rw (set_level, p) o
    | inr (row, p) ↦
        rw (set_level, p)
          (IsOver-set h j (privileged_row now level row) st
            (λ old f same over. ground (arith, eq_text_iff j h)) o)
  ]

  module _ (is_later : ℕ → ℕ → Bool) where
    rotate-IsOver :
        (h : Text) (now later : ℕ) (old : AuthenticatedSession) (user : SessionUser)
        (state : AuthenticationState) (level : Option PrivilegedAuthLevel) (id raw csrf : Text)
        (st : Store)
        → IsOver h st
        → IsOver h (rotate hash settings is_later now later old user state level id raw csrf st).1
    unfolding rotate
    rotate-IsOver h now later old user state level id raw csrf st o =
        elim (Bool-cases (eq_text old.user.id user.id)) [
          | inr f ↦ rw (rotate, f) o
          | inl f ↦
              elim (Option-cases (
                row_where st.sessions old.token_hash
                  (claimable hash settings is_later now old user st))) [
                    | inl p ↦ rw (rotate, f, p) o
                    | inr (row, p) ↦
                        let claimed = set_session st old.token_hash (revoked_row row) in
                        let over = IsOver-revoked h old.token_hash row st o in
                        elim (Result-cases
                          (create hash settings now id raw csrf user state claimed)) [
                            | inr (e, c) ↦ rw (rotate, f, p, c) over
                            | inl (st', c) ↦
                                rw (rotate, f, p, c)
                                  (set_level-IsOver h later level (hash raw) st'
                                    (create-IsOver h now id raw csrf user state claimed c over))
                          ]
                  ]
        ]

    -- What anybody may do with sessions, and what may happen to the users that they belong to.
    pub data Visit (st : Store) : Store → Type 0 where
      moving : {st' : Store} → Move hash settings st st' → Visit st st'
      rotating :
          (now later : ℕ) (old : AuthenticatedSession) (user : SessionUser)
          (state : AuthenticationState) (level : Option PrivilegedAuthLevel) (id raw csrf : Text)
          → Visit st (rotate hash settings is_later now later old user state level id raw csrf st).1
      ending :
          (user_id : Text) → Visit st (record st { sessions = revoke_sessions user_id st.sessions })
      managing : (users : Table UserRow) → Visit st (record st { users = users })

    pub data Visits (st : Store) : Store → Type 0 where
      here : Visits st st
      next : {mid last : Store} → Visits st mid → Visit mid last → Visits st last

    Visit-IsOver : (h : Text) {st st' : Store} → Visit st st' → IsOver h st → IsOver h st'
    unfolding revoke_sessions IsOver
    Visit-IsOver h {st} (moving (loading now raw)) o = load-IsOver now h raw st o
    Visit-IsOver h {st} (moving (revoking raw)) o = revoke-IsOver h raw st o
    Visit-IsOver h {st} (moving (creating now id raw csrf user state e)) o =
        create-IsOver h now id raw csrf user state st e o
    Visit-IsOver h {st} (rotating now later old user state level id raw csrf) o =
        rotate-IsOver h now later old user state level id raw csrf st o
    Visit-IsOver h {st} (ending user_id) (row, e, o) =
        elim (Bool-cases (eq_text row.user_id user_id)) [
          | inl own ↦ (revoked_row row, ground arith, refl)
          | inr other ↦ (row, ground arith, o)
        ]
    Visit-IsOver h (managing users) o = o

    Visits-IsOver : (h : Text) {st st' : Store} → Visits st st' → IsOver h st → IsOver h st'
    Visits-IsOver h here o = o
    Visits-IsOver h (next v w) o = Visit-IsOver h w (Visits-IsOver h v o)

    IsOver-load :
        (now : ℕ) (raw : Text) (st : Store)
        → IsOver (hash raw) st
        → (load hash settings now raw st).0 ≡ err unauthorized
    unfolding load load_row IsOver
    IsOver-load now raw st (row, e, o) = elim (Option-cases (st.users row.user_id)) [
      | inl q ↦ ground arith
      | inr (user, q) ↦ elim (Bool-cases row.revoked) [
        | inl r ↦ ground arith
        | inr r ↦ ground arith
      ]
    ]

    load-refuses :
        (now : ℕ) (raw : Text) (st : Store) (row : SessionRow) (user : UserRow) (e : AppError)
        → st.sessions (hash raw) ≡ some row
        → st.users row.user_id ≡ some user
        → (load hash settings now raw st).0 ≡ err e
        → IsOver (hash raw) (load hash settings now raw st).1
    unfolding load load_row IsOver
    load-refuses now raw st row user e p q h = elim (Bool-cases row.revoked) [
      | inl r ↦ (row, ground arith, ground arith)
      | inr r ↦ elim (Bool-cases (eq_text row.token_hash (hash raw))) [
        | inr t ↦ (row, ground arith, ground arith)
        | inl t ↦ elim (Bool-cases (is_dead now row user)) [
          | inl d ↦ (revoked_row row, ground (arith, eq_text_refl (hash raw)), refl)
          | inr d ↦ absurd (ground arith)
        ]
      ]
    ]

    -- A token whose session, of a user that exists, was refused once, for whatever reason, is
    -- refused at every time afterwards, whatever sessions are loaded, revoked, created and rotated
    -- in between, whoever's sessions are ended, and whatever becomes of the users.
    pub load_stays_refused :
        (now later : ℕ) (raw : Text) (st : Store) {st' : Store} (row : SessionRow) (user : UserRow)
        (e : AppError)
        → st.sessions (hash raw) ≡ some row
        → st.users row.user_id ≡ some user
        → (load hash settings now raw st).0 ≡ err e
        → Visits (load hash settings now raw st).1 st'
        → (load hash settings later raw st').0 ≡ err unauthorized
    load_stays_refused now later raw st {st'} row user e p q h v =
        IsOver-load later raw st'
          (Visits-IsOver (hash raw) v (load-refuses now raw st row user e p q h))
