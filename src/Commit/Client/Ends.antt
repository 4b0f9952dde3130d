-- ===== src/Commit/Client/Ends.antt =====
-- The end of the retries of getJSON (internal/commit/github_client.go).
use conbench.Base.{
  ℕ, zero, suc, ◌+◌, ◌-◌, ◌≤◌, ◌≡◌, ◌≢◌, refl, Bool, true, false, Option, none, some, String, arith,
  inl, inr, Bool-cases, leb, leb→le, ap,
}
use conbench.Base.Results.{Result, ok, err}
use conbench.Commit.Client.{
  ClientError, Network, TokenSource, Client, ClientState, answered, refused, Attempted, attempt,
  out_of_fuel, to_renew, decoded, Fetch, after_wait, on_refused, on_attempt, get_json_loop,
  get_json,
}

-- The context is done by the time of attempt `limit`.
abbrev pub HasDeadline : {World : Type 0} → Network World → ℕ → Type 0
HasDeadline net limit = (k : ℕ) (w : _) → limit ≤ k → (net.wait k w).0 ≡ false

decoded-ends {ℓ} : {A : Type ℓ} (r : Result String A) → decoded r ≢ out_of_fuel
decoded-ends (ok a) h = absurd cc
decoded-ends (err e) h = absurd cc

-- A renewal that may still come costs one round.
abbrev rest_rounds : Bool → ℕ
rest_rounds true = 0
rest_rounds false = 1

module _ {ℓ} {World : Type 0} {A : Type ℓ} (client : Client World) (net : Network World)
    (decode : String → Result String A) (limit : ℕ) (deadline : HasDeadline net limit)
    (u : String) where
  on_refused-ends :
      (again : ℕ → Bool → ClientState World → Fetch World A) (n k rotations : ℕ)
      (renewed retryable : Bool) (e : ClientError) (st : ClientState World)
      → limit - k + rest_rounds renewed ≤ n
      → ((j : ℕ) (r : Bool) (t : ClientState World)
          → limit - (k + 1) + rest_rounds r + 1 ≤ n
          → (again j r t).0 ≢ out_of_fuel)
      → (source : Option (TokenSource World))
      → (on_refused net again k renewed retryable e rotations st (to_renew source renewed e)).0
        ≢ out_of_fuel
  on_refused-ends again n k rotations renewed retryable e st h ends source =
      by_renewal (to_renew source renewed e) (renews source renewed e)
    where
      renews :
          (source : Option (TokenSource World)) (renewed : Bool) (e : ClientError)
          (x : String × TokenSource World)
          → to_renew source renewed e ≡ some x
          → renewed ≡ false
      renews none renewed e x q = absurd cc
      renews (some source) true e x q = absurd cc
      renews (some source) false e x q = refl

      before_limit : (limit ≤ k → true ≡ false) → limit - (k + 1) + rest_rounds renewed + 1 ≤ n
      before_limit d = elim (Bool-cases (leb limit k)) [
        | inl q ↦ absurd (cc (d (leb→le limit k q)))
        | inr q ↦ let late : k + 1 ≤ limit = ground arith in omega (arith, h, late)
      ]

      by_wait :
          (r : Bool × World)
          → (limit ≤ k → r.0 ≡ false)
          → (after_wait (again rotations renewed) e st r).0 ≢ out_of_fuel
      by_wait (false, w) d q = absurd cc
      by_wait (true, w) d q = ends rotations renewed (record st { world = w }) (before_limit d) q

      by_retryable :
          (b : Bool) → (on_refused net again k renewed b e rotations st none).0 ≢ out_of_fuel
      by_retryable false q = absurd cc
      by_retryable true q = by_wait (net.wait k st.world) (deadline k st.world) q

      by_renewal :
          (x : Option (String × TokenSource World))
          → ((y : String × TokenSource World) → x ≡ some y → renewed ≡ false)
          → (on_refused net again k renewed retryable e rotations st x).0 ≢ out_of_fuel
      by_renewal none d = by_retryable retryable
      by_renewal (some (tok, source)) d =
          ends rotations true (record st { world = source.invalidate tok st.world })
            (omega (arith, h, ap rest_rounds (d (tok, source) refl)))

  on_attempt-ends :
      (again : ℕ → Bool → ClientState World → Fetch World A) (n k : ℕ) (renewed : Bool)
      → limit - k + rest_rounds renewed ≤ n
      → ((j : ℕ) (r : Bool) (t : ClientState World)
          → limit - (k + 1) + rest_rounds r + 1 ≤ n
          → (again j r t).0 ≢ out_of_fuel)
      → (a : Attempted World) → (on_attempt client net decode again k renewed a).0 ≢ out_of_fuel
  on_attempt-ends again n k renewed h ends (answered body, rotations, st) =
      decoded-ends (decode body)
  on_attempt-ends again n k renewed h ends (refused retryable e, rotations, st) =
      on_refused-ends again n k rotations renewed retryable e st h ends client.token_source

  get_json_loop-ends :
      (n k rotations : ℕ) (renewed : Bool) (st : ClientState World)
      → limit - k + rest_rounds renewed + 1 ≤ n
      → (get_json_loop client net decode n u k rotations renewed st).0 ≢ out_of_fuel
  unfolding get_json_loop
  get_json_loop-ends zero k rotations renewed st h = absurd (omega arith)
  get_json_loop-ends (suc n) k rotations renewed st h =
      on_attempt-ends (get_json_loop client net decode n u (k + 1)) n k renewed (omega arith)
        (λ j r t le. get_json_loop-ends n (k + 1) j r t le) (attempt client net u rotations st)

  -- When the waits after attempt `limit` and later end with the context, `limit + 2` rounds are
  -- enough fuel: getJSON gives a value or an error.
  pub get_json-ends :
      (n : ℕ) (st : ClientState World)
      → limit + 2 ≤ n
      → (get_json client net decode n u st).0 ≢ out_of_fuel
  unfolding get_json
  get_json-ends n st h = get_json_loop-ends n 1 0 false st (omega arith)
