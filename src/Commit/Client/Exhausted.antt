-- ===== src/Commit/Client/Exhausted.antt =====
-- getJSON when the quota of every token is exhausted (internal/commit/github_client.go).
use conbench.Base.{
  ℕ, zero, suc, ◌+◌, ◌≤◌, ◌<◌, ◌≡◌, refl, Bool, true, false, none, String, arith, inl, inr, length,
  Bool-cases, ltb, leb, leb→le,
}
use conbench.Base.Results.{Result}
use conbench.Commit.Client.{
  ClientError, Network, Client, ClientState, attempt, failed, Fetch, after_wait, get_json_loop,
  get_json, handle_403, token, pool_token, reply, quota_exhausted, token_rotated,
}

-- The outcome of a call that gave up, from `rotations` and `cur` on.
abbrev pub GivesUp {ℓ} : {World : Type 0} {A : Type ℓ} → ℕ → ℕ → ℕ → Fetch World A → Type ℓ
GivesUp size rotations cur x =
    (x.0 ≡ failed quota_exhausted) × (x.1.cur + rotations ≡ cur + (size + 1))

-- GitHub answers every request with an exhausted quota, and the deadline is far away.
abbrev pub IsExhausted : {World : Type 0} → Network World → String → Type 0
IsExhausted net u =
    (net.build u ≡ none)
    × ((tok : String) (w : _) → (body : String) × ((net.send u tok w).0 ≡ reply 403 "0" body))
    × ((k : ℕ) (w : _) → (net.wait k w).0 ≡ true)

module _ {ℓ} {World : Type 0} {A : Type ℓ} (client : Client World) (net : Network World)
    (decode : String → Result String A) (u : String) (exhausted : IsExhausted net u)
    (no_source : client.token_source ≡ none) where
  exhausted-attempt :
      (rotations : ℕ) (st : ClientState World)
      → (w : World) × (attempt client net u rotations st
          ≡ handle_403 client "0" rotations (record st { world = w }))
  unfolding attempt token
  exhausted-attempt rotations st =
      let (body, got) = exhausted.1 (pool_token client st) st.world in
      ((net.send u (pool_token client st) st.world).1, rw (exhausted.0, no_source) rw got refl)

  after_wait-exhausted :
      (again : ClientState World → Fetch World A) (e : ClientError) (rotations cur : ℕ)
      (st : ClientState World) (r : Bool × World)
      → ((w : World)
          → GivesUp
              (length client.tokens)
              (rotations + 1)
              (cur + 1)
              (again (record st { world = w })))
      → r.0 ≡ true
      → GivesUp (length client.tokens) rotations cur (after_wait again e st r)
  after_wait-exhausted again e rotations cur st (false, w) ih q = absurd cc
  after_wait-exhausted again e rotations cur st (true, w) ih q = ((ih w).0, omega (arith, (ih w).1))

  -- The loop then tries the tokens that are left, and gives up.
  get_json_loop-GivesUp :
      (n k rotations : ℕ) (renewed : Bool) (st : ClientState World)
      → rotations ≤ length client.tokens
      → length client.tokens + 1 ≤ n + rotations
      → 1 < length client.tokens
      → GivesUp
          (length client.tokens)
          rotations
          st.cur
          (get_json_loop client net decode n u k rotations renewed st)
  unfolding get_json_loop handle_403
  get_json_loop-GivesUp zero k rotations renewed st h enough pool = absurd (omega arith)
  get_json_loop-GivesUp (suc n) k rotations renewed st h enough pool =
      let (w, sent) = exhausted-attempt rotations st in
      let many : ltb 1 (length client.tokens) ≡ true = ground arith in
      rw (sent, many)
        (elim (Bool-cases (leb (rotations + 1) (length client.tokens))) [
          | inl e ↦
              rw (e, no_source)
                (after_wait-exhausted
                  (get_json_loop client net decode n u (k + 1) (rotations + 1) renewed)
                  token_rotated rotations st.cur (record st { world = w; cur = st.cur + 1 })
                  (net.wait k w)
                  (λ v.
                    get_json_loop-GivesUp n (k + 1) (rotations + 1) renewed
                      (record st { world = v; cur = st.cur + 1 }) (leb→le _ _ e)
                      (omega (arith, enough)) pool)
                  (exhausted.2 k w))
          | inr e ↦ rw (e, no_source) (refl, ground arith)
        ])

  -- When each request can be built and GitHub answers it with an exhausted quota, no source of
  -- tokens is there and every wait is served, getJSON over two or more tokens ends with the error
  -- of an exhausted quota, with the index moved on by one more than the number of tokens, given a
  -- round for each.
  pub get_json-GivesUp :
      (n : ℕ) (st : ClientState World)
      → length client.tokens + 1 ≤ n
      → 1 < length client.tokens
      → GivesUp (length client.tokens) 0 st.cur (get_json client net decode n u st)
  unfolding get_json
  get_json-GivesUp n st enough pool =
      get_json_loop-GivesUp n 1 0 false st (omega arith) (omega arith) pool
