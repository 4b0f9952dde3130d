-- ===== src/Auth/Accepted.antt =====
-- What SessionSigner.Verify accepts (internal/auth/session.go).
use conbench.Base.{
  ℕ, ◌*◌, ◌≤◌, ◌≡◌, ◌≢◌, refl, ◌∙◌, ap, Option, none, some, [], ◌∷◌, ◌++◌, Bool-cases, inl, inr,
}
use conbench.Base.Int.{ℤ, pos}
use conbench.Base.Results.{Result, ok, err}
use conbench.Auth.{
  Bytes, AuthError, cut, dot, bar, Primitives, verify, is_expired, on_expiry, on_payload,
  on_verified, verify_session,
}
use conbench.Auth.Signed.{cut_found, verify_authentic, is_expired-end_of}

-- The cookie carries the signature of its own body, the body decodes to the user, a bar and a
-- number, and the user is not empty and the number not an end in seconds before now.
abbrev pub IsSigned : Primitives → Bytes → Bytes → ℕ → Type 0
IsSigned p cookie uid now =
    (body : Bytes) × (exp_text : Bytes) × (expires : ℕ) × (cookie
      ≡ body ++ dot ∷ p.encode (p.mac body))
    × (p.decode body ≡ some (uid ++ bar ∷ exp_text))
    × (uid ≢ [])
    × (p.parse_int exp_text ≡ some (pos expires))
    × (now ≤ expires * 1000000000)

module _ (p : Primitives) (now : ℕ) (cookie uid : Bytes) where
  expiry_accepted :
      (user : Bytes) (r : Option ℤ)
      → on_expiry p user now r ≡ ok uid
      → (user ≡ uid) × ((expires : ℕ) × (r ≡ some (pos expires)) × (now ≤ expires * 1000000000))
  expiry_accepted user none h = absurd cc
  expiry_accepted user (some exp) h = elim (Bool-cases (is_expired now exp)) [
    | inl over ↦ absurd (cc (rw over at h))
    | inr going ↦
        let taken : ◌≡◌ {A = Result AuthError Bytes} (ok user) (ok uid) = rw going at h in
        let end = is_expired-end_of now exp going in (cc, (end.0, ap some end.1, end.2))
  ]

  payload_accepted :
      (body payload : Bytes) (c : Option (Bytes × Bytes))
      → cut bar payload ≡ c
      → cookie ≡ body ++ dot ∷ p.encode (p.mac body)
      → p.decode body ≡ some payload
      → on_payload p now c ≡ ok uid
      → IsSigned p cookie uid now
  payload_accepted body payload none q signed decoded h = absurd cc
  payload_accepted body payload (some ([], exp)) q signed decoded h = absurd cc
  payload_accepted body payload (some (x ∷ xs, exp)) q signed decoded h =
      let end = expiry_accepted (x ∷ xs) (p.parse_int exp) h in
      let user : x ∷ xs ≡ uid = end.0 in
      (
        body,
        exp,
        end.1.0,
        signed,
        decoded ∙ ap some (cut_found bar payload (x ∷ xs) exp q ∙ ap (λ u. u ++ bar ∷ exp) user),
        (λ nobody. absurd (cc (user, nobody))),
        end.1.1,
        end.1.2,
      )

  -- A session that is accepted is signed, names the user and has not ended.
  pub verify_session-IsSigned : verify_session p cookie now ≡ ok uid → IsSigned p cookie uid now
  unfolding verify_session
  verify_session-IsSigned = by_verified (verify p cookie) refl
    where
      by_verified :
          (r : Result AuthError Bytes)
          → verify p cookie ≡ r
          → on_verified p now r ≡ ok uid
          → IsSigned p cookie uid now
      by_verified (err e) v h = absurd cc
      by_verified (ok payload) v h =
          let found = verify_authentic p cookie payload v in
          payload_accepted found.0 payload (cut bar payload) refl found.1 found.2 h
