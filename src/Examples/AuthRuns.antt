-- ===== src/Examples/AuthRuns.antt =====
-- Blobs, sessions and requests over a plain coding of bytes, and the theorems about them
-- (internal/auth).
use conbench.Base.{
  zero, suc, ◌*◌, ◌<◌, ◌≤◌, ◌+◌, ◌-◌, ◌≡◌, ◌⊎◌, refl, ap, false, Option, none, some, [], ◌∷◌, ◌++◌,
  arith, map,
}
use conbench.Base.Int.{ℤ, pos, negsuc}
use conbench.Base.Results.{ok, err}
use conbench.Auth.{
  Bytes, Primitives, invalid_session, ApiToken, Authenticator, dot, sign, verify, sign_session,
  verify_session, is_expired, resolve_principal, resolve_bearer, resolve_db_token, bearer,
  resolve_session,
}
use conbench.Auth.Signed.{PrimitiveLaws, verify-sign, verify_session-sign_session, Lacks}
use conbench.Auth.Resolves.{IsOperator, IsTokenOf, IsSessionOf, resolve_principal-Presented}

abbrev format_pair : ℤ → Bytes
format_pair (pos n) = 0 ∷ n ∷ []
format_pair (negsuc n) = 1 ∷ n ∷ []

abbrev parse_pair : Bytes → Option ℤ
parse_pair (zero ∷ n ∷ []) = some (pos n)
parse_pair (suc k ∷ n ∷ []) = some (negsuc n)
parse_pair xs = none

abbrev plain : Primitives
plain = record {
  encode = map (λ x. x + 47);
  decode = λ xs. some (map (λ x. x - 47) xs);
  mac = λ xs. xs;
  format_int = format_pair;
  parse_int = parse_pair;
}

shift_back : (xs : Bytes) → map (λ x. x - 47) (map (λ x. x + 47) xs) ≡ xs
shift_back [] = refl
shift_back (x ∷ xs) = let e : x + 47 - 47 ≡ x = omega arith in rw (e, shift_back xs) refl

shift_plain : (xs : Bytes) → Lacks dot (map (λ x. x + 47) xs)
shift_plain [] = refl
shift_plain (x ∷ xs) = ground (arith, shift_plain xs)

abbrev plain_laws : PrimitiveLaws plain
plain_laws = record {
  decode-encode = λ xs. ap some (shift_back xs);
  encode_plain = shift_plain;
  parse-format = λ n h. elim n as (λ k. parse_pair (format_pair k) ≡ some k) [
    | pos m ↦ refl
    | negsuc m ↦ refl
  ];
}

signed_blob_example : verify plain (sign plain (1 ∷ 2 ∷ [])) ≡ ok (1 ∷ 2 ∷ [])
signed_blob_example = verify-sign plain plain_laws (1 ∷ 2 ∷ [])

session_example :
    ((6000000000 ≤ 5 * 1000000000)
      × (verify_session plain (sign_session plain (7 ∷ []) (pos 5)) 6000000000 ≡ ok (7 ∷ [])))
    ⊎ ((5 * 1000000000 < 6000000000)
        × (verify_session plain (sign_session plain (7 ∷ []) (pos 5)) 6000000000
            ≡ err invalid_session))
session_example = verify_session-sign_session plain plain_laws 7 [] 5 6000000000 refl (omega arith)

abbrev user : Bytes
user = 9 ∷ []

-- A token in the table, of the user.
abbrev row : ApiToken
row = record {
  id = 1 ∷ [];
  user_id = user;
  token_hash = 5 ∷ [];
  last_used_at = none;
  revoked_at = none;
}

abbrev authenticator : Authenticator
authenticator = record {
  token = 3 ∷ [];
  disabled = false;
  tokens = some (λ hash. some row);
  sessions = some plain;
}

accepted_token : (resolve_principal (λ t. t) authenticator 0 (bearer ++ 5 ∷ []) []).0 ≡ ok user
unfolding resolve_principal resolve_bearer resolve_db_token
accepted_token = refl

-- A session of the user until second 5.
abbrev cookie : Bytes
cookie = map (λ x. x + 47) (9 ∷ 124 ∷ 0 ∷ 5 ∷ []) ++ 46 ∷ map (λ x. x + 94) (9 ∷ 124 ∷ 0 ∷ 5 ∷ [])

accepted_session : (resolve_principal (λ t. t) authenticator 4000000000 [] cookie).0 ≡ ok user
unfolding resolve_principal resolve_bearer resolve_session verify_session verify is_expired
accepted_session = refl

accepted_request_example :
    ((user ≡ []) × IsOperator (λ t. t) authenticator 4000000000 [])
    ⊎ (IsTokenOf (λ t. t) authenticator 4000000000 user []
        ⊎ IsSessionOf (λ t. t) authenticator 4000000000 user cookie)
accepted_request_example =
    resolve_principal-Presented (λ t. t) authenticator 4000000000 [] cookie user refl
      accepted_session
