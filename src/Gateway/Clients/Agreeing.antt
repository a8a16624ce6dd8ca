-- ===== src/Gateway/Clients/Agreeing.antt =====
-- gateway/src/websocket.rs: who is authenticated on which connection.
use mexchange_study.Common.{ℕ, ◌≡◌, sym, ◌∙◌, inl, inr, some, arith, Option-cases}
use mexchange_study.Common.IdMap
use mexchange_study.Common.IdMap.{IdMap, get-remove, get-insert}
use mexchange_study.Gateway.Clients.{ChannelManager, authenticate_client, remove_client}

-- A client that is authenticated as a user is the client of that user.
abbrev pub Agrees : IdMap ℕ → IdMap ℕ → Type 0
Agrees users clients =
    (client user : ℕ) → IdMap.get client users ≡ some user → IdMap.get user clients ≡ some client

insert-Agrees :
    (client user : ℕ) (users clients : IdMap ℕ)
    → ((c : ℕ) → IdMap.get c users ≡ some user → c ≡ client)
    → Agrees users clients
    → Agrees (IdMap.insert client user users) (IdMap.insert user client clients)
insert-Agrees client user users clients alone h c u e =
    let a = get-insert c client user users in
    let b = get-insert u user client clients in
    let k = h c u in let l = alone c in ground (arith, a, b, k, l)

module _ (client : ℕ) (m : ChannelManager) where
  pub authenticate_client-Agrees :
      (user : ℕ)
      → Agrees m.authenticated_users m.user_to_client
      → Agrees
          (authenticate_client client user m).authenticated_users
          (authenticate_client client user m).user_to_client
  unfolding authenticate_client
  authenticate_client-Agrees user h = elim (Option-cases (IdMap.get user m.user_to_client)) [
    | inl e ↦
        rw (e, authenticate_client)
          (insert-Agrees client user m.authenticated_users m.user_to_client
            (λ c f. cc (sym e ∙ h c user f)) h)
    | inr (old, e) ↦
        rw (e, authenticate_client)
          (insert-Agrees client user (IdMap.remove old m.authenticated_users) m.user_to_client
            (λ c f. ground (arith, get-remove c old m.authenticated_users, h c user, e, f))
            (λ c u f. ground (arith, get-remove c old m.authenticated_users, h c u, f)))
  ]

  pub remove_client-Agrees :
      Agrees m.authenticated_users m.user_to_client
      → Agrees (remove_client client m).authenticated_users (remove_client client m).user_to_client
  unfolding remove_client
  remove_client-Agrees h = elim (Option-cases (IdMap.get client m.authenticated_users)) [
    | inl e ↦
        rw (e, remove_client)
          (λ c u f. ground (arith, get-remove c client m.authenticated_users, h c u, f))
    | inr (own, e) ↦
        rw (e, remove_client)
          (λ c u f. ground (
            arith,
            get-remove c client m.authenticated_users,
            get-remove u own m.user_to_client,
            h c u,
            h client own,
            e,
            f,
          ))
  ]
