-- ===== src/Auth/Signed.antt =====
-- Signed blobs and sessions (internal/auth/signed.go and session.go).
use conbench.Base.{
  ℕ, suc, ◌+◌, ◌-◌, ◌*◌, ◌/◌, ◌%◌, ◌≤◌, ◌<◌, ◌⊎◌, ◌≡◌, refl, sym, ap, true, false, Option, none,
  some, [], ◌∷◌, ◌++◌, ◌==◌, any, arith, Bool-cases, inl, inr, ltb, leb, ◌^◌, ◌∙◌,
}
use conbench.Base.Int.{ℤ, pos, negsuc}
use conbench.Base.Results.{ok, err}
use conbench.Auth.{
  Bytes, bytes_eq, under, cut, dot, bar, invalid_session, Primitives, sign, decoded_body,
  verify_parts, verify, sign_session, is_expired, verify_session, is_after, unix_to_internal,
}

-- The separator does not occur.
abbrev pub Lacks : ℕ → Bytes → Type 0
Lacks sep xs = any (λ x. x == sep) xs ≡ false

cut-append : (sep : ℕ) (xs ys : Bytes) → Lacks sep xs → cut sep (xs ++ sep ∷ ys) ≡ some (xs, ys)
cut-append sep [] ys h = let e : (sep == sep) ≡ true = ground arith in rw e refl
cut-append sep (x ∷ xs) ys h =
    let e : (x == sep) ≡ false = ground arith in
    let rest : Lacks sep xs = ground arith in rw (e, cut-append sep xs ys rest) refl

pub cut_found : (sep : ℕ) (s b a : Bytes) → cut sep s ≡ some (b, a) → s ≡ b ++ sep ∷ a
cut_found sep [] b a h = absurd cc
cut_found sep (x ∷ xs) b a h = elim (Bool-cases (x == sep)) [
  | inl e ↦
      let same : x ≡ sep = ground arith in
      let k : some ([], xs) ≡ some (b, a) = rw e at h in
      let pairs : ◌≡◌ {A = Bytes × Bytes} ([], xs) (b, a) = cc in
      let eb : [] ≡ b = ap (λ q. q.0) pairs in
      let ea : xs ≡ a = ap (λ q. q.1) pairs in rw (← eb, ← ea, same) refl
  | inr e ↦ by_rest (cut sep xs) (λ b2 a2 q. cut_found sep xs b2 a2 q) (rw e at h)
]
  where
    by_rest :
        (r : Option (Bytes × Bytes))
        → ((b2 a2 : Bytes) → r ≡ some (b2, a2) → xs ≡ b2 ++ sep ∷ a2)
        → under x r ≡ some (b, a)
        → (x ∷ xs) ≡ b ++ sep ∷ a
    by_rest none q k = absurd cc
    by_rest (some (b2, a2)) q k =
        let pairs : ◌≡◌ {A = Bytes × Bytes} (x ∷ b2, a2) (b, a) = cc in
        let eb : x ∷ b2 ≡ b = ap (λ r. r.0) pairs in
        let ea : a2 ≡ a = ap (λ r. r.1) pairs in
        let rest : xs ≡ b2 ++ sep ∷ a2 = q b2 a2 refl in rw (← eb, ← ea, rest) refl

bytes_eq_refl : (xs : Bytes) → bytes_eq xs xs ≡ true
bytes_eq_refl [] = refl
bytes_eq_refl (x ∷ xs) = ground (arith, bytes_eq_refl xs)

pub bytes_eq_sound : (xs ys : Bytes) → bytes_eq xs ys ≡ true → xs ≡ ys
bytes_eq_sound [] [] h = refl
bytes_eq_sound [] (y ∷ ys) h = absurd cc
bytes_eq_sound (x ∷ xs) [] h = absurd cc
bytes_eq_sound (x ∷ xs) (y ∷ ys) h =
    let e : x ≡ y = ground arith in
    let f : bytes_eq xs ys ≡ true = ground arith in let g : xs ≡ ys = bytes_eq_sound xs ys f in cc

-- The end of a session, in nanoseconds from the epoch.
abbrev pub end_of : ℕ → ℕ
end_of expires = expires * 1000000000

is_after-pos :
    (now sec expires : ℕ)
    → is_after now (pos sec) ≡ false
    → sec ≤ expires + unix_to_internal
    → now ≤ end_of expires
is_after-pos now sec expires h le =
    let split : now ≡ now / 1000000000 * 1000000000 + now % 1000000000 = omega arith in
    ground (arith, split)

is_after-early : (now sec : ℕ) → is_after now (pos sec) ≡ false → unix_to_internal ≤ sec
is_after-early now sec h = ground arith

not_expired_early : (now n : ℕ) → is_expired now (negsuc n) ≡ true
unfolding is_expired
not_expired_early now n = elim (Bool-cases (is_expired now (negsuc n))) [
  | inl e ↦ e
  | inr e ↦ elim (Bool-cases (leb (suc n) unix_to_internal)) [
    | inl q ↦
        let early = is_after-early now (unix_to_internal - suc n) (rw q at e) in
        absurd (omega arith)
    | inr q ↦ absurd (cc (rw q at e))
  ]
]

-- A session that is accepted ends at the epoch or later, and not before now.
pub is_expired-end_of :
    (now : ℕ) (exp : ℤ)
    → is_expired now exp ≡ false
    → (expires : ℕ) × (exp ≡ pos expires) × (now ≤ end_of expires)
unfolding is_expired
is_expired-end_of now (negsuc n) h = absurd (cc (not_expired_early now n, h))
is_expired-end_of now (pos n) h =
    let r : ℕ = (n + unix_to_internal) % 18446744073709551616 in
    let below : r ≤ n + unix_to_internal = omega arith in
    elim (Bool-cases (ltb r 9223372036854775808)) [
      | inl e ↦ (n, refl, is_after-pos now r n (rw e at h) below)
      | inr e ↦
          let small : leb 18446744073709551616 r ≡ false = ground arith in
          absurd (cc (rw (e, small) at h))
    ]

-- For an end that time.Unix holds, the session is over exactly after it.
is_expired-eq :
    (now expires : ℕ)
    → expires + unix_to_internal < 2 ^ 63
    → is_expired now (pos expires) ≡ ltb (end_of expires) now
unfolding is_expired
is_expired-eq now expires fits =
    let same : (expires + unix_to_internal) % 18446744073709551616 ≡ expires + unix_to_internal =
      omega arith in
    let low : ltb (expires + unix_to_internal) 9223372036854775808 ≡ true = ground arith in
    let split : now ≡ now / 1000000000 * 1000000000 + now % 1000000000 = omega arith in
    let part : now % 1000000000 < 1000000000 = omega arith in
    rw (same, low) (ground (arith, split, part))

-- An int64.
abbrev pub IsInt64 : ℤ → Type 0
IsInt64 (pos n) = n < 2 ^ 63
IsInt64 (negsuc n) = n < 2 ^ 63

-- base64 gives back what it encoded, and writes no dot; an int64 that was printed is read.
pub record PrimitiveLaws (p : Primitives) : Type 0 where
  pub decode-encode : (xs : Bytes) → p.decode (p.encode xs) ≡ some xs
  pub encode_plain : (xs : Bytes) → Lacks dot (p.encode xs)
  pub parse-format : (n : ℤ) → IsInt64 n → p.parse_int (p.format_int n) ≡ some n

module _ (p : Primitives) where
  -- When base64 decodes what it encoded and writes no dot, and a printed int64 is read again,
  -- Verify gives back each payload that Sign signed under the same secret.
  pub verify-sign : PrimitiveLaws p → (payload : Bytes) → verify p (sign p payload) ≡ ok payload
  unfolding verify sign
  verify-sign laws payload =
      rw
        (
          cut-append dot (p.encode payload) (p.encode (p.mac (p.encode payload)))
              (laws.encode_plain payload),
          bytes_eq_refl (p.encode (p.mac (p.encode payload))),
          laws.decode-encode payload,
        )
        refl

  -- A blob that passes holds the signature of its body under the secret, and its payload is that body.
  pub verify_authentic :
      (token payload : Bytes)
      → verify p token ≡ ok payload
      → (body : Bytes) × (token ≡ body ++ dot ∷ p.encode (p.mac body))
        × (p.decode body ≡ some payload)
  unfolding verify
  verify_authentic token payload h = by_cut (cut dot token) refl h
    where
      by_decode :
          (body : Bytes) (d : Option Bytes)
          → p.decode body ≡ d
          → decoded_body p d ≡ ok payload
          → p.decode body ≡ some payload
      by_decode body none q k = absurd cc
      by_decode body (some found) q k = let same : found ≡ payload = cc in cc

      by_cut :
          (c : Option (Bytes × Bytes))
          → cut dot token ≡ c
          → verify_parts p c ≡ ok payload
          → (body : Bytes) × (token ≡ body ++ dot ∷ p.encode (p.mac body))
            × (p.decode body ≡ some payload)
      by_cut none q k = absurd cc
      by_cut (some (body, sig)) q k = elim (Bool-cases (bytes_eq sig (p.encode (p.mac body)))) [
        | inl e ↦ (
          body,
          (rw (sym (bytes_eq_sound sig (p.encode (p.mac body)) e))
              (cut_found dot token body sig q)),
          by_decode body (p.decode body) refl (rw e at k),
        )
        | inr e ↦ absurd (cc (rw e at k))
      ]

  -- When base64 decodes what it encoded and writes no dot, and a printed int64 is read again, the
  -- session of a user whose id is not empty and has no bar, signed for a second from the epoch on
  -- that time.Unix holds, is verified as this user's until that second, and after it is an invalid
  -- session.
  pub verify_session-sign_session :
      PrimitiveLaws p
      → (x : ℕ) (rest : Bytes) (expires now : ℕ) → Lacks bar (x ∷ rest)
      → expires + unix_to_internal < 2 ^ 63
      → ((now ≤ expires * 1000000000)
          × (verify_session p (sign_session p (x ∷ rest) (pos expires)) now ≡ ok (x ∷ rest)))
        ⊎ ((expires * 1000000000 < now)
            × (verify_session p (sign_session p (x ∷ rest) (pos expires)) now
                ≡ err invalid_session))
  unfolding verify_session sign_session
  verify_session-sign_session laws x rest expires now plain fits =
      let payload : Bytes = (x ∷ rest) ++ bar ∷ p.format_int (pos expires) in
      let read : verify p (sign p payload) ≡ ok payload = verify-sign laws payload in
      let parts : cut bar payload ≡ some (x ∷ rest, p.format_int (pos expires)) =
        cut-append bar (x ∷ rest) (p.format_int (pos expires)) plain in
      let number : p.parse_int (p.format_int (pos expires)) ≡ some (pos expires) =
        laws.parse-format (pos expires) (omega arith) in
      elim (Bool-cases (ltb (end_of expires) now)) [
        | inl late ↦
            let over : is_expired now (pos expires) ≡ true =
              is_expired-eq now expires fits ∙ late in
            inr (ground arith, rw (read, parts, number, over) refl)
        | inr early ↦
            let going : is_expired now (pos expires) ≡ false =
              is_expired-eq now expires fits ∙ early in
            inl (ground arith, rw (read, parts, number, going) refl)
      ]
