-- ===== src/Subscription/Access.antt =====
-- Who is answered (services/subscription/src/lib.rs).
use mathlib.Core.List.{Memᴰ}
use vpn.Prelude.{
  ℕ, ◌≤◌, ◌≡◌, ◌≢◌, ◌⊎◌, inl, inr, refl, sym, subst, String, string_Eq, true, ◌&&◌, ◌||◌, ltb,
  nat_eq, List, [], ◌∷◌, length, Option, none, some, Result, ok, err, F64, Eq, arith, Bool-cases,
  Option-cases,
}
use vpn.CompatConfig.Model.{CompatUser, CompatError, UsersJson, is_active}
use vpn.CompatConfig.Disk.{Disk, Host}
use vpn.CompatConfig.Users.{load_users}
use vpn.Rendezvous.RateLimiter.{Limiter}
use vpn.Subscription.Eviction.{allow}
use vpn.Subscription.{
  Rendering, SubQuery, Response, too_many_requests, not_found, internal_error, verify_token,
  find_from, find_user_by_token, render_for, answer_for, answer_users, get_subscription,
}

module _ (r : Rendering) (token : List ℕ) (now : ℕ) where
  -- A user that the token belongs to, and who may be served.
  pub record IsEntitled (u : CompatUser) : Type 0 where
    pub token_matches : r.hash_token token ≡ u.subscription_token_hash_hex
    pub active : is_active u now ≡ true

  entitled_lem :
      (u : CompatUser)
      → verify_token r token u.subscription_token_hash_hex && is_active u now ≡ true
      → IsEntitled u
  unfolding verify_token
  entitled_lem u h = record {
    token_matches =
        ground (arith, string_Eq.beq_iff (r.hash_token token) u.subscription_token_hash_hex);
    active = ground arith;
  }

  lem_entitled :
      (u : CompatUser)
      → IsEntitled u
      → verify_token r token u.subscription_token_hash_hex && is_active u now ≡ true
  unfolding verify_token
  lem_entitled u i = ground (
    arith,
    i.active,
    i.token_matches,
    string_Eq.beq_iff (r.hash_token token) u.subscription_token_hash_hex,
  )

  find_from_sound :
      (us : List CompatUser) (found : Option CompatUser) (u : CompatUser)
      → find_from r found us token now ≡ some u
      → (found ≡ some u) ⊎ (Memᴰ u us × IsEntitled u)
  unfolding find_from
  find_from_sound [] found u h = inl h
  find_from_sound (v ∷ vs) found u h =
      elim (Bool-cases (verify_token r token v.subscription_token_hash_hex && is_active v now)) [
        | inl e ↦ elim (find_from_sound vs (some v) u (rw e at h)) [
          | inl same ↦
              let q : v ≡ u = cc in inr (Memᴰ.head (sym q), subst IsEntitled q (entitled_lem v e))
          | inr (inside, i) ↦ inr (Memᴰ.tail inside, i)
        ]
        | inr e ↦ elim (find_from_sound vs found u (rw e at h)) [
          | inl same ↦ inl same
          | inr (inside, i) ↦ inr (Memᴰ.tail inside, i)
        ]
      ]

  find_from-none :
      (us : List CompatUser)
      → ((u : CompatUser) → Memᴰ u us → ¬ IsEntitled u)
      → find_from r none us token now ≡ none
  unfolding find_from
  find_from-none [] nobody = refl
  find_from-none (v ∷ vs) nobody =
      elim (Bool-cases (verify_token r token v.subscription_token_hash_hex && is_active v now)) [
        | inl e ↦ absurd (nobody v (Memᴰ.head refl) (entitled_lem v e))
        | inr e ↦ rw e (find_from-none vs (λ u m. nobody u (Memᴰ.tail m)))
      ]

  module _ (q : SubQuery) where
    -- an answer with a body, or one of the failures after a user was found
    abbrev pub IsServed : Response → Type 0
    IsServed x = (x ≢ too_many_requests) × (x ≢ not_found) × (x ≢ internal_error)

    answer_users-served :
        (loaded : Result CompatError (List CompatUser))
        → IsServed (answer_users r loaded token now q)
        → (users : List CompatUser) × (u : CompatUser) × (loaded ≡ ok users)
          × Memᴰ u users
          × IsEntitled u
          × (answer_users r loaded token now q ≡ render_for r u q)
    unfolding answer_users find_user_by_token answer_for
    answer_users-served (err e) served = absurd (served.2 refl)
    answer_users-served (ok users) served = elim (Option-cases (find_from r none users token now)) [
      | inl e ↦ absurd (served.1 (rw e refl))
      | inr (u, e) ↦ elim (find_from_sound users none u e) [
        | inl h ↦ absurd (cc)
        | inr (inside, i) ↦ (users, u, refl, inside, i, rw e refl)
      ]
    ]

    answer_users-nobody :
        (users : List CompatUser)
        → ((u : CompatUser) → Memᴰ u users → ¬ IsEntitled u)
        → answer_users r (ok users) token now q ≡ not_found
    unfolding answer_users find_user_by_token answer_for
    answer_users-nobody users nobody = rw (find_from-none users nobody) refl

module _ (d : F64) (Ip : Type 0) ⦃ip_Eq : Eq Ip⦄ (r : Rendering) (h : Host) (json_users : UsersJson)
    (users_file : String) where
  -- A request that is not shed, not refused as unknown and not failed on the user store was made with
  -- the token of a user of the store who is active now, and is answered with what is rendered for
  -- that user; the token has 1 to 128 bytes.
  pub get_subscription_served :
      (limiter : Limiter d Ip) (ip : Ip) (instant : ℕ) (disk : Disk) (token : List ℕ) (q : SubQuery)
      (now : ℕ)
      → let answer =
          (get_subscription d Ip r h json_users users_file limiter ip instant disk token q now).0 in
        IsServed r token now q answer
        → (users : List CompatUser) × (u : CompatUser) × (load_users h json_users users_file disk
            ≡ ok users)
          × Memᴰ u users
          × IsEntitled r token now u
          × (answer ≡ render_for r u q)
          × (1 ≤ length token)
          × (length token ≤ 128)
  unfolding get_subscription
  get_subscription_served limiter ip instant disk token q now served =
      elim (Bool-cases (allow d Ip limiter ip instant).0) [
        | inr e ↦ absurd (served.0 (rw e refl))
        | inl e ↦ elim (Bool-cases (nat_eq (length token) 0 || ltb 128 (length token))) [
          | inl e' ↦ absurd (served.1 (rw (e, e') refl))
          | inr e' ↦
              let loaded = load_users h json_users users_file disk in
              let (users, u, there, inside, i, answer) =
                answer_users-served r token now q loaded (rw (e, e') at served) in
              (users, u, there, inside, i, rw (e, e') answer, ground arith, ground arith)
        ]
      ]

  -- A request that is not shed, while the user store loads, is answered as not found if its token
  -- belongs to nobody, or only to users who are disabled or expired.
  pub get_subscription_refused :
      (limiter : Limiter d Ip) (ip : Ip) (instant : ℕ) (disk : Disk) (token : List ℕ) (q : SubQuery)
      (now : ℕ) (users : List CompatUser)
      → (allow d Ip limiter ip instant).0 ≡ true
      → load_users h json_users users_file disk ≡ ok users
      → ((u : CompatUser) → Memᴰ u users → ¬ IsEntitled r token now u)
      → (get_subscription d Ip r h json_users users_file limiter ip instant disk token q now).0
        ≡ not_found
  unfolding get_subscription
  get_subscription_refused limiter ip instant disk token q now users allowed loaded nobody =
      let none_found = answer_users-nobody r token now q users nobody in
      elim (Bool-cases (nat_eq (length token) 0 || ltb 128 (length token))) [
        | inl e ↦ rw (allowed, e) refl
        | inr e ↦ rw (allowed, e, loaded) none_found
      ]
