-- ===== src/Auth/Resolves.antt =====
-- What a request that is authorized has presented (Authenticator, internal/auth/auth.go).
use conbench.Base.{
  ℕ, ◌≡◌, ◌⊎◌, refl, sym, ap, true, false, not, ◌&&◌, Option, none, some, [], ◌∷◌, if◌then◌else◌,
  arith, Bool-cases, inl, inr, ◌≢◌, ◌∙◌,
}
use conbench.Base.Results.{Result, ok, err}
use conbench.Auth.{
  Bytes, bytes_eq, AuthError, Primitives, verify_session, ApiToken, Authenticator, is_empty,
  strip_prefix, bearer, is_set, is_revoked, Bearer, on_row, resolve_db_token, from_table,
  on_presented, resolve_bearer, on_session, session_of, resolve_session, on_session_user, on_bearer,
  resolve_principal, should_touch_last_used,
}
use conbench.Auth.Signed.{bytes_eq_sound}
use conbench.Auth.Accepted.{IsSigned, verify_session-IsSigned}

not_revoked : (revoked_at : Option ℕ) → is_set revoked_at ≡ false → revoked_at ≡ none
not_revoked none h = refl
not_revoked (some t) h = absurd cc

module _ (hash_token : Bytes → Bytes) (a : Authenticator) (now : ℕ) where
  -- The static token, which is set, behind "Bearer ".
  abbrev pub IsOperator : Bytes → Type 0
  IsOperator auth_header = (strip_prefix bearer auth_header ≡ some a.token) × (a.token ≢ [])

  -- A token whose row, found by its hash, is not revoked.
  abbrev pub IsTokenOf : Bytes → Bytes → Type 0
  IsTokenOf uid auth_header =
      (presented : Bytes) × (get : Bytes → Option ApiToken) × (row : ApiToken) × (strip_prefix
          bearer auth_header
        ≡ some presented)
      × (a.tokens ≡ some get)
      × (get (hash_token presented) ≡ some row)
      × (row.token_hash ≡ hash_token presented)
      × (row.revoked_at ≡ none)
      × (row.user_id ≡ uid)

  -- A session under the authenticator's secret.
  abbrev pub IsSessionOf : Bytes → Bytes → Type 0
  IsSessionOf uid cookie = (p : Primitives) × (a.sessions ≡ some p) × IsSigned p cookie uid now

  resolve_session-IsSessionOf :
      (cookie uid : Bytes)
      → resolve_session hash_token a now cookie ≡ some uid
      → IsSessionOf uid cookie
  unfolding resolve_session
  resolve_session-IsSessionOf cookie uid = by_signer a.sessions refl
    where
      by_result :
          (p : Primitives) (r : Result AuthError Bytes)
          → a.sessions ≡ some p
          → verify_session p cookie now ≡ r
          → on_session hash_token a now r ≡ some uid
          → IsSessionOf uid cookie
      by_result p (err e) h v k = absurd cc
      by_result p (ok found) h v k =
          let same : found ≡ uid = cc in
          (p, h, verify_session-IsSigned p now cookie uid (v ∙ ap ok same))

      by_signer :
          (s : Option Primitives)
          → a.sessions ≡ s
          → session_of hash_token a now cookie s ≡ some uid
          → IsSessionOf uid cookie
      by_signer none h k = absurd cc
      by_signer (some p) h k = elim (Bool-cases (is_empty cookie)) [
        | inl e ↦ absurd (cc (rw e at k))
        | inr e ↦ by_result p (verify_session p cookie now) h refl (rw e at k)
      ]

  resolve_db_token-IsTokenOf :
      (auth_header presented uid : Bytes) (stamp : Option Bytes) (get : Bytes → Option ApiToken)
      → strip_prefix bearer auth_header ≡ some presented
      → a.tokens ≡ some get
      → resolve_db_token hash_token a now get presented ≡ some (uid, stamp)
      → IsTokenOf uid auth_header
  unfolding resolve_db_token
  resolve_db_token-IsTokenOf auth_header presented uid stamp get h t =
      by_row (get (hash_token presented)) refl
    where
      by_row :
          (r : Option ApiToken)
          → get (hash_token presented) ≡ r
          → on_row hash_token a now (hash_token presented) r ≡ some (uid, stamp)
          → IsTokenOf uid auth_header
      by_row none g k = absurd cc
      by_row (some row) g k = elim (Bool-cases (bytes_eq (hash_token presented) row.token_hash)) [
        | inr e ↦ absurd (cc (rw e at k))
        | inl e ↦ elim (Bool-cases (is_revoked row)) [
          | inl q ↦ absurd (cc (rw (e, q) at k))
          | inr q ↦
              let pairs : ◌≡◌ {A = Option (Bytes × Option Bytes)}
                  (some (
                    row.user_id,
                    (if should_touch_last_used row.last_used_at now then some row.id else none),
                  ))
                  (some (uid, stamp)) =
                rw (e, q) at k in
              let same : ◌≡◌ {A = Bytes × Option Bytes}
                  (
                    row.user_id,
                    (if should_touch_last_used row.last_used_at now then some row.id else none),
                  )
                  (uid, stamp) =
                cc in
              (
                presented,
                get,
                row,
                h,
                t,
                g,
                sym (bytes_eq_sound (hash_token presented) row.token_hash e),
                not_revoked row.revoked_at q,
                ap (λ x. x.0) same,
              )
        ]
      ]

  resolve_bearer-Presented :
      (auth_header uid : Bytes) (stamp : Option Bytes)
      → resolve_bearer hash_token a now auth_header ≡ some (uid, stamp)
      → ((uid ≡ []) × IsOperator auth_header) ⊎ IsTokenOf uid auth_header
  unfolding resolve_bearer
  resolve_bearer-Presented auth_header uid stamp =
      by_presented (strip_prefix bearer auth_header) refl
    where
      by_table :
          (presented : Bytes) (t : Option (Bytes → Option ApiToken))
          → strip_prefix bearer auth_header ≡ some presented
          → a.tokens ≡ t
          → from_table hash_token a now presented t ≡ some (uid, stamp)
          → IsTokenOf uid auth_header
      by_table presented none h t k = absurd cc
      by_table presented (some get) h t k =
          resolve_db_token-IsTokenOf auth_header presented uid stamp get h t k

      by_presented :
          (s : Option Bytes)
          → strip_prefix bearer auth_header ≡ s
          → on_presented hash_token a now s ≡ some (uid, stamp)
          → ((uid ≡ []) × IsOperator auth_header) ⊎ IsTokenOf uid auth_header
      by_presented none h k = absurd cc
      by_presented (some []) h k = absurd cc
      by_presented (some (x ∷ xs)) h k =
          elim (Bool-cases (not (is_empty a.token) && bytes_eq (x ∷ xs) a.token)) [
            | inl e ↦
                let equal : bytes_eq (x ∷ xs) a.token ≡ true = ground arith in
                let same : x ∷ xs ≡ a.token = bytes_eq_sound (x ∷ xs) a.token equal in
                let found : ◌≡◌ {A = Option (Bytes × Option Bytes)} (some ([], none))
                    (some (uid, stamp)) =
                  rw e at k in
                let pairs : ◌≡◌ {A = Bytes × Option Bytes} ([], none) (uid, stamp) = cc in
                inl (sym (ap (λ y. y.0) pairs), ((rw (← same) h), λ q. absurd (cc (same, q))))
            | inr e ↦ inr (by_table (x ∷ xs) a.tokens h refl (rw e at k))
          ]

  -- When authentication is on, a request is only authorized by the static token, as the operator
  -- without a user id, by a token in the table that is not revoked, as its user, or by a session
  -- cookie whose MAC is that of its body under the secret, and whose body holds the user, who is not
  -- empty, and an end in seconds that is not before now.
  pub resolve_principal-Presented :
      (auth_header cookie uid : Bytes)
      → a.disabled ≡ false
      → (resolve_principal hash_token a now auth_header cookie).0 ≡ ok uid
      → ((uid ≡ []) × IsOperator auth_header) ⊎ (IsTokenOf uid auth_header ⊎ IsSessionOf uid cookie)
  unfolding resolve_principal resolve_session resolve_bearer resolve_db_token
  resolve_principal-Presented auth_header cookie uid on h =
      by_bearer (resolve_bearer hash_token a now auth_header) refl (rw on at h)
    where
      by_session :
          (r : Option Bytes)
          → resolve_session hash_token a now cookie ≡ r
          → (on_session_user hash_token a now r).0 ≡ ok uid
          → IsSessionOf uid cookie
      by_session none s k = absurd cc
      by_session (some found) s k =
          let same : found ≡ uid = cc in resolve_session-IsSessionOf cookie uid (rw (← same) s)

      widen :
          ((uid ≡ []) × IsOperator auth_header) ⊎ IsTokenOf uid auth_header
          → ((uid ≡ []) × IsOperator auth_header)
            ⊎ (IsTokenOf uid auth_header ⊎ IsSessionOf uid cookie)
      widen (inl x) = inl x
      widen (inr y) = inr (inl y)

      by_bearer :
          (r : Bearer)
          → resolve_bearer hash_token a now auth_header ≡ r
          → (on_bearer hash_token a now cookie r).0 ≡ ok uid
          → ((uid ≡ []) × IsOperator auth_header)
            ⊎ (IsTokenOf uid auth_header ⊎ IsSessionOf uid cookie)
      by_bearer none b k = inr (inr (by_session (resolve_session hash_token a now cookie) refl k))
      by_bearer (some (user, stamp)) b k =
          let same : user ≡ uid = cc in
          widen (resolve_bearer-Presented auth_header uid stamp (rw (← same) b))
