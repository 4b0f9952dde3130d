-- ===== src/Commit/Endpoints/Pages.antt =====
-- The paging of commitsOnBranch (internal/commit/github_client.go).
use conbench.Base.{
  ℕ, zero, suc, ◌+◌, ◌*◌, ◌≤◌, ◌<◌, ◌≡◌, refl, sym, ap, ◌∙◌, Bool, true, false, List, [], ◌∷◌, ◌++◌,
  String, ltb, if◌then◌else◌, length, take, drop, length-take, length-drop, arith,
}
use mathlib.Core.List.{append_assoc}
use conbench.Commit.Client.{Network, Client, ClientState, fetched, get_json}
use conbench.Commit.Endpoints.{
  CommitJson, Codec, GithubText, full_page, pages, commits_on_branch, query_branch,
}

module _ {ℓ} {A : Type ℓ} where
  take-append-drop : (n : ℕ) (xs : List A) → take n xs ++ drop n xs ≡ xs
  take-append-drop zero xs = refl
  take-append-drop (suc n) [] = refl
  take-append-drop (suc n) (x ∷ xs) = ap (λ ys. x ∷ ys) (take-append-drop n xs)

  take-all : (n : ℕ) (xs : List A) → length xs ≤ n → take n xs ≡ xs
  take-all zero [] h = refl
  take-all (suc n) [] h = refl
  take-all zero (x ∷ xs) h = absurd (omega arith)
  take-all (suc n) (x ∷ xs) h = ap (λ ys. x ∷ ys) (take-all n xs (omega arith))

  drop-nil : (n : ℕ) → drop {A = A} n [] ≡ []
  drop-nil zero = refl
  drop-nil (suc n) = refl

  drop-drop : (m n : ℕ) (xs : List A) → drop m (drop n xs) ≡ drop (n + m) xs
  drop-drop m zero xs = ap (λ k. drop k xs) (omega arith)
  drop-drop m (suc n) [] = drop-nil m ∙ sym (drop-nil (suc n + m))
  drop-drop m (suc n) (x ∷ xs) =
      let next : suc (n + m) ≡ suc n + m = omega arith in
      drop-drop m n xs ∙ ap (λ k. drop k (x ∷ xs)) next

module _ {World : Type 0} (client : Client World) (codec : Codec) (text : GithubText) (fuel : ℕ)
    (net : Network World) where
  -- Page `p + 1` holds the commits from `100 * p` on, 100 at most.
  abbrev pub ServesPages : (ℕ → String) → List CommitJson → Type 0
  ServesPages url history =
      (p : ℕ) (st : ClientState World)
      → (t : ClientState World) × (get_json client net codec.commits fuel (url (p + 1)) st
          ≡ (fetched (take full_page (drop (full_page * p) history)), t))

  pages-fetched :
      (url : ℕ → String) (history : List CommitJson)
      → ServesPages url history
      → (n p : ℕ) (found : List CommitJson) (st : ClientState World)
      → length (drop (full_page * p) history) < full_page * n
      → (pages client codec text fuel net n url (p + 1) found st).0
        ≡ fetched (found ++ drop (full_page * p) history)
  unfolding pages
  pages-fetched url history serves zero p found st h = absurd (omega arith)
  pages-fetched url history serves (suc n) p found st h =
      let (t, got) = serves p st in
      rw got (
        by_size t (ltb (length (take full_page (drop (full_page * p) history))) full_page) refl
          (λ u le.
            pages-fetched url history serves n (p + 1)
              (found ++ take full_page (drop (full_page * p) history)) u le))
    where
      rem : List CommitJson
      rem = drop (full_page * p) history

      more : drop (full_page * (p + 1)) history ≡ drop full_page rem
      more =
          ap (λ k. drop k history) (omega arith) ∙ sym (drop-drop full_page (full_page * p) history)

      together : (found ++ take full_page rem) ++ drop full_page rem ≡ found ++ rem
      together =
          append_assoc found (take full_page rem) (drop full_page rem)
          ∙ ap (λ xs. found ++ xs) (take-append-drop full_page rem)

      by_size :
          (t : ClientState World) (b : Bool)
          → ltb (length (take full_page rem)) full_page ≡ b
          → ((u : ClientState World)
              → length (drop (full_page * (p + 1)) history) < full_page * n
              → (pages client codec text fuel net n url
                  (p + 1 + 1)
                  (found ++ take full_page rem)
                  u).0
                ≡ fetched ((found ++ take full_page rem) ++ drop (full_page * (p + 1)) history))
          → (if b
              then (fetched (found ++ take full_page rem), t)
              else pages client codec text fuel net n url
                  (p + 1 + 1)
                  (found ++ take full_page rem)
                  t).0
            ≡ fetched (found ++ rem)
      by_size t true e ih =
          ap (λ xs. fetched (found ++ xs))
            (take-all full_page rem (ground (arith, length-take full_page rem)))
      by_size t false e ih =
          let many : full_page ≤ length rem = ground (arith, length-take full_page rem) in
          ih t (
            omega (
              arith,
              h,
              many,
              length-drop (full_page * p) history,
              length-drop (full_page * (p + 1)) history,
            ))
          ∙ ap fetched (ap (λ xs. (found ++ take full_page rem) ++ xs) more ∙ together)

  -- When GitHub serves the commits of a branch and window in pages of 100, then with fuel for
  -- pages that hold more than those commits commitsOnBranch gives all of them, in their order.
  pub commits_on_branch-fetched :
      (history : List CommitJson) (n : ℕ) (spec branch : String) (since until : ℕ)
      (st : ClientState World)
      → ServesPages
          (text.page_url spec (query_branch branch (text.cut branch ":")) since until)
          history
      → length history < full_page * n
      → (commits_on_branch client codec text fuel net n spec branch since until st).0
        ≡ fetched history
  unfolding commits_on_branch
  commits_on_branch-fetched history n spec branch since until st serves h =
      pages-fetched (text.page_url spec (query_branch branch (text.cut branch ":")) since until)
        history serves n 0 [] st (omega (arith, h))
