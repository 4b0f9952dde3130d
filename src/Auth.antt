-- ===== src/Auth.antt =====
-- internal/auth: signed blobs and session cookies (signed.go, session.go), API tokens (token.go) and
-- the resolution of a request to its principal (auth.go). A string is the list of its bytes; base64,
-- HMAC, SHA-256 and the numbers in text are the caller's. Times are nanoseconds from the Unix epoch.
pub mod Signed
pub mod Accepted
pub mod Resolves
use conbench.Base.{
  ℕ, zero, suc, ◌+◌, ◌/◌, ◌%◌, ◌^◌, ◌≡◌, Bool, true, false, not, ◌&&◌, ◌||◌, Option, none, some,
  List, [], ◌∷◌, ◌++◌, ltb, leb, ◌==◌, if◌then◌else◌, drop, length,
}
use conbench.Base.Int.{ℤ, pos, negsuc, sub_ℕ}
use conbench.Base.Results.{Result, ok, err}

abbrev pub Bytes : Type 0
Bytes = List ℕ

-- Comparison of byte strings, in constant time or not.
abbrev pub bytes_eq : Bytes → Bytes → Bool
bytes_eq [] [] = true
bytes_eq [] (y ∷ ys) = false
bytes_eq (x ∷ xs) [] = false
bytes_eq (x ∷ xs) (y ∷ ys) = x == y && bytes_eq xs ys

abbrev pub under : ℕ → Option (Bytes × Bytes) → Option (Bytes × Bytes)
under x none = none
under x (some (b, a)) = some (x ∷ b, a)

-- strings.Cut at a separator of one byte.
abbrev pub cut : ℕ → Bytes → Option (Bytes × Bytes)
cut sep [] = none
cut sep (x ∷ xs) = if x == sep then some ([], xs) else under x (cut sep xs)

abbrev pub dot : ℕ
dot = 46

abbrev pub bar : ℕ
bar = 124

pub data AuthError : Type 0 where
  bad_signature : AuthError
  invalid_session : AuthError
  unauthorized : AuthError

-- base64.RawURLEncoding, HMAC-SHA256 under the secret, and strconv.
pub record Primitives : Type 0 where
  pub encode : Bytes → Bytes
  pub decode : Bytes → Option Bytes
  pub mac : Bytes → Bytes
  pub format_int : ℤ → Bytes
  pub parse_int : Bytes → Option ℤ

-- The seconds from the year 1 to the Unix epoch.
abbrev pub unix_to_internal : ℕ
unix_to_internal = 62135596800

abbrev pub int64 : ℕ → ℤ
int64 n = let r = n % 2 ^ 64 in if ltb r (2 ^ 63) then pos r else sub_ℕ r (2 ^ 64)

-- The seconds that time.Unix(exp, 0) holds, from the year 1; the sum wraps around only at the top.
abbrev pub time_unix : ℤ → ℤ
time_unix (pos exp) = int64 (exp + unix_to_internal)
time_unix (negsuc n) = sub_ℕ unix_to_internal (suc n)

-- After, of a time from the epoch on and a whole second, which is given from the year 1.
abbrev pub is_after : ℕ → ℤ → Bool
is_after now (negsuc n) = true
is_after now (pos sec) =
    let now_sec = now / 1000000000 + unix_to_internal in
    ltb sec now_sec || (sec == now_sec && ltb 0 (now % 1000000000))

-- now.After(time.Unix(exp, 0)).
unfoldable pub is_expired : ℕ → ℤ → Bool
is_expired now exp = is_after now (time_unix exp)

module _ (p : Primitives) where
  unfoldable pub sign : Bytes → Bytes
  sign payload = p.encode payload ++ dot ∷ p.encode (p.mac (p.encode payload))

  abbrev pub decoded_body : Option Bytes → Result AuthError Bytes
  decoded_body none = err bad_signature
  decoded_body (some payload) = ok payload

  abbrev pub verify_parts : Option (Bytes × Bytes) → Result AuthError Bytes
  verify_parts none = err bad_signature
  verify_parts (some (body, sig)) =
      if bytes_eq sig (p.encode (p.mac body))
      then decoded_body (p.decode body)
      else err bad_signature

  unfoldable pub verify : Bytes → Result AuthError Bytes
  verify token = verify_parts (cut dot token)

  -- A session of a user, until a Unix time in seconds.
  unfoldable pub sign_session : Bytes → ℤ → Bytes
  sign_session user_id expires = sign (user_id ++ bar ∷ p.format_int expires)

  abbrev pub on_expiry : Bytes → ℕ → Option ℤ → Result AuthError Bytes
  on_expiry user_id now none = err invalid_session
  on_expiry user_id now (some exp) = if is_expired now exp then err invalid_session else ok user_id

  abbrev pub on_payload : ℕ → Option (Bytes × Bytes) → Result AuthError Bytes
  on_payload now none = err invalid_session
  on_payload now (some ([], exp)) = err invalid_session
  on_payload now (some (x ∷ xs, exp)) = on_expiry (x ∷ xs) now (p.parse_int exp)

  abbrev pub on_verified : ℕ → Result AuthError Bytes → Result AuthError Bytes
  on_verified now (err e) = err e
  on_verified now (ok payload) = on_payload now (cut bar payload)

  unfoldable pub verify_session : Bytes → ℕ → Result AuthError Bytes
  verify_session value now = on_verified now (verify value)

pub record ApiToken : Type 0 where
  pub id : Bytes
  pub user_id : Bytes
  pub token_hash : Bytes
  pub last_used_at : Option ℕ
  pub revoked_at : Option ℕ

-- The lookup of a token by its hash; any error is `none`, since each is a miss.
pub record Authenticator : Type 0 where
  pub token : Bytes
  pub disabled : Bool
  pub tokens : Option (Bytes → Option ApiToken)
  pub sessions : Option Primitives

abbrev pub is_empty : Bytes → Bool
is_empty [] = true
is_empty (x ∷ xs) = false

-- strings.HasPrefix and the rest behind it.
abbrev pub strip_prefix : Bytes → Bytes → Option Bytes
strip_prefix [] s = some s
strip_prefix (x ∷ xs) [] = none
strip_prefix (x ∷ xs) (y ∷ ys) = if x == y then strip_prefix xs ys else none

-- "Bearer ".
abbrev pub bearer : Bytes
bearer = 66 ∷ 101 ∷ 97 ∷ 114 ∷ 101 ∷ 114 ∷ 32 ∷ []

-- Five minutes.
abbrev pub last_used_staleness : ℕ
last_used_staleness = 300000000000

unfoldable pub should_touch_last_used : Option ℕ → ℕ → Bool
should_touch_last_used none now = true
should_touch_last_used (some t) now = ltb (t + last_used_staleness) now

abbrev pub is_set : Option ℕ → Bool
is_set none = false
is_set (some t) = true

abbrev pub is_revoked : ApiToken → Bool
is_revoked row = is_set row.revoked_at

-- A user id, empty for the operator, and the token to stamp.
abbrev pub Bearer : Type 0
Bearer = Option (Bytes × Option Bytes)

module _ (hash_token : Bytes → Bytes) (a : Authenticator) (now : ℕ) where
  abbrev pub on_row : Bytes → Option ApiToken → Bearer
  on_row hash none = none
  on_row hash (some row) =
      if not (bytes_eq hash row.token_hash)
      then none
      else (if is_revoked row
          then none
          else some (
            row.user_id,
            (if should_touch_last_used row.last_used_at now then some row.id else none),
          ))

  unfoldable pub resolve_db_token : (Bytes → Option ApiToken) → Bytes → Bearer
  resolve_db_token get presented = on_row (hash_token presented) (get (hash_token presented))

  abbrev pub from_table : Bytes → Option (Bytes → Option ApiToken) → Bearer
  from_table presented none = none
  from_table presented (some get) = resolve_db_token get presented

  abbrev pub on_presented : Option Bytes → Bearer
  on_presented none = none
  on_presented (some []) = none
  on_presented (some (x ∷ xs)) =
      if not (is_empty a.token) && bytes_eq (x ∷ xs) a.token
      then some ([], none)
      else from_table (x ∷ xs) a.tokens

  unfoldable pub resolve_bearer : Bytes → Bearer
  resolve_bearer auth_header = on_presented (strip_prefix bearer auth_header)

  abbrev pub on_session : Result AuthError Bytes → Option Bytes
  on_session (err e) = none
  on_session (ok uid) = some uid

  abbrev pub session_of : Bytes → Option Primitives → Option Bytes
  session_of cookie none = none
  session_of cookie (some p) =
      if is_empty cookie then none else on_session (verify_session p cookie now)

  unfoldable pub resolve_session : Bytes → Option Bytes
  resolve_session cookie = session_of cookie a.sessions

  abbrev pub on_session_user : Option Bytes → Result AuthError Bytes × Option Bytes
  on_session_user none = (err unauthorized, none)
  on_session_user (some uid) = (ok uid, none)

  abbrev pub on_bearer : Bytes → Bearer → Result AuthError Bytes × Option Bytes
  on_bearer cookie (some (uid, stamp)) = (ok uid, stamp)
  on_bearer cookie none = on_session_user (resolve_session cookie)

  -- The user id of the principal, and the token whose use is stamped in the background.
  unfoldable pub resolve_principal : Bytes → Bytes → Result AuthError Bytes × Option Bytes
  resolve_principal auth_header cookie =
      if a.disabled then (ok [], none) else on_bearer cookie (resolve_bearer auth_header)
