-- ===== src/Auth/Totp/Window.antt =====
-- Which codes `verify_at` accepts, and why it refuses the others.
use configdeck.Auth.Totp.{
  matches, is_stale, well_formed, verify_loop, verify_at, ok, err, replayed_code, period_seconds,
}
use configdeck.Prelude.Int.{ℤ, pos, negsuc, ◌+ℤ◌, ◌≤ℤ◌, div_euclid, +ℤ_parts}
use configdeck.Prelude.{
  ℕ, ◌≡◌, ◌≢◌, ◌⊎◌, inl, inr, ◌↔◌, refl, Bool, true, false, not, Option, List, Text, arith,
  Bool-cases, ◌&&◌,
}

abbrev pub IsNear : ℤ → ℤ → Type 0
IsNear now step = (step ≡ now +ℤ negsuc 0) ⊎ ((step ≡ now +ℤ pos 0) ⊎ (step ≡ now +ℤ pos 1))

before_le : (now step : ℤ) → IsNear now step → now +ℤ negsuc 0 ≤ℤ step
before_le now step (inl e) = rw e (omega arith)
before_le now step (inr (inl e)) =
    rw e (omega (arith, +ℤ_parts now (negsuc 0), +ℤ_parts now (pos 0)))
before_le now step (inr (inr e)) =
    rw e (omega (arith, +ℤ_parts now (negsuc 0), +ℤ_parts now (pos 1)))

now_le : (now step : ℤ) → IsNear now step → step ≢ now +ℤ negsuc 0 → now +ℤ pos 0 ≤ℤ step
now_le now step (inl e) ne = absurd (ne e)
now_le now step (inr (inl e)) ne = rw e (omega arith)
now_le now step (inr (inr e)) ne = rw e (omega (arith, +ℤ_parts now (pos 1), +ℤ_parts now (pos 0)))

module _ (hmac_sha1 : List ℕ → List ℕ → List ℕ) (secret : List ℕ) (code : Text) where
  -- A step of the window of three around `now` whose code was typed.
  pub record Hit (now step : ℤ) : Type 0 where
    pub formed : well_formed code ≡ true
    pub near : IsNear now step
    pub matching : matches hmac_sha1 secret code step ≡ true

  -- a hit that is above the last step used
  abbrev fits : Option ℤ → ℤ → Bool
  fits last step = matches hmac_sha1 secret code step && not (is_stale last step)

  module _ (unix : ℤ) (last : Option ℤ) where
    -- An accepted step is a hit of the window and lies above the last one used.
    pub verify_at-eq-ok :
        {step : ℤ}
        → verify_at hmac_sha1 secret code unix last ≡ ok step
        → Hit (div_euclid unix period_seconds) step × (is_stale last step ≡ false)
    unfolding verify_at verify_loop
    verify_at-eq-ok {step} h = (
      record { formed = ground arith; near = ground arith; matching = ground arith },
      ground arith,
    )

    -- Where some hit lies above the last one used, a step is accepted, the lowest such.
    pub verify_at_complete :
        (step : ℤ)
        → Hit (div_euclid unix period_seconds) step
        → is_stale last step ≡ false
        → (first : ℤ) × (verify_at hmac_sha1 secret code unix last ≡ ok first) × (first ≤ℤ step)
    unfolding verify_at verify_loop
    verify_at_complete step hit fresh =
        let now : ℤ = div_euclid unix period_seconds in
        elim (Bool-cases (fits last (now +ℤ negsuc 0))) [
          | inl p ↦ (now +ℤ negsuc 0, ground (arith, hit.formed), before_le now step hit.near)
          | inr p ↦ elim (Bool-cases (fits last (now +ℤ pos 0))) [
            | inl q ↦ (
              now +ℤ pos 0,
              ground (arith, hit.formed),
              now_le now step hit.near (λ e. ground arith),
            )
            | inr q ↦ (step, ground (arith, hit.formed), omega arith)
          ]
        ]

    replayed-Hit :
        verify_at hmac_sha1 secret code unix last ≡ err replayed_code
        → (step : ℤ) × Hit (div_euclid unix period_seconds) step
    unfolding verify_at verify_loop
    replayed-Hit h =
        let now : ℤ = div_euclid unix period_seconds in
        let formed : well_formed code ≡ true = ground arith in
        elim (Bool-cases (matches hmac_sha1 secret code (now +ℤ negsuc 0))) [
          | inl p ↦ (now +ℤ negsuc 0, record { formed = formed; near = inl refl; matching = p })
          | inr p ↦ elim (Bool-cases (matches hmac_sha1 secret code (now +ℤ pos 0))) [
            | inl q ↦
                (now +ℤ pos 0, record { formed = formed; near = inr (inl refl); matching = q })
            | inr q ↦ (
              now +ℤ pos 1,
              record { formed = formed; near = inr (inr refl); matching = ground arith },
            )
          ]
        ]

    replayed_stale :
        verify_at hmac_sha1 secret code unix last ≡ err replayed_code
        → (step : ℤ) → Hit (div_euclid unix period_seconds) step
        → is_stale last step ≡ true
    unfolding verify_at verify_loop
    replayed_stale h step hit = ground arith

    all_stale :
        ((step : ℤ) → Hit (div_euclid unix period_seconds) step → is_stale last step ≡ true)
        → (step : ℤ) → Hit (div_euclid unix period_seconds) step
        → verify_at hmac_sha1 secret code unix last ≡ err replayed_code
    unfolding verify_at verify_loop
    all_stale stale step hit =
        let now : ℤ = div_euclid unix period_seconds in
        let at : (s : ℤ)
            → IsNear now s
            → matches hmac_sha1 secret code s ≡ true
            → is_stale last s ≡ true =
          λ s n m. stale s (record { formed = hit.formed; near = n; matching = m }) in
        ground (
          arith,
          at (now +ℤ negsuc 0) (inl refl),
          at (now +ℤ pos 0) (inr (inl refl)),
          at (now +ℤ pos 1) (inr (inr refl)),
        )

    -- The answer is "already used" exactly if there are hits and none lies above the last one used.
    pub verify_at-replayed : (verify_at hmac_sha1 secret code unix last ≡ err replayed_code) ↔ (
        ((step : ℤ) × Hit (div_euclid unix period_seconds) step)
        × ((step : ℤ) → Hit (div_euclid unix period_seconds) step → is_stale last step ≡ true))
    verify_at-replayed = (λ h. (replayed-Hit h, replayed_stale h), λ h. all_stale h.1 h.0.0 h.0.1)
