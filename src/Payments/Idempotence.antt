-- ===== src/Payments/Idempotence.antt =====
-- The in-process gateway never charges twice under one idempotency key.
use concurrent_flight_bookin.Prelude.{
  ℕ, suc, ◌≡◌, none, some, Text, List, [], ◌∷◌, arith, same_refl, same-eq, ◌⊎◌,
}
use concurrent_flight_bookin.Payments.{AuthorizationResult, done, timed_out}
use concurrent_flight_bookin.Payments.Triggers.{trigger_for}
use concurrent_flight_bookin.Payments.Fake.{
  FakeGateway, get, answer, fake_authorize, fake_capture, fake_void, fake_refund, fake_arm,
  authorization_count,
}

-- A call of the gateway, by any client.
pub data GatewayCall : Type 0 where
  authorizes : (card_token : Text) → (amount : ℕ) → (currency drawn key : Text) → GatewayCall
  captures voids : (ref key : Text) → GatewayCall
  refunds : (ref : Text) → (amount : ℕ) → (key : Text) → GatewayCall
  arms : (ref : Text) → GatewayCall

unfoldable pub serve : GatewayCall → FakeGateway → FakeGateway
unfolding fake_authorize fake_capture fake_void fake_refund fake_arm
serve (authorizes card_token amount currency drawn key) g =
    (fake_authorize card_token amount currency drawn key g).1
serve (captures ref key) g = (fake_capture ref key g).1
serve (voids ref key) g = (fake_void ref key g).1
serve (refunds ref amount key) g = (fake_refund ref amount key g).1
serve (arms ref) g = fake_arm ref g

unfoldable pub serve_all : List GatewayCall → FakeGateway → FakeGateway
unfolding serve
serve_all [] g = g
serve_all (c ∷ cs) g = serve_all cs (serve c g)

-- A recorded answer stays under every later call.
serve-get :
    (key : Text) (r : AuthorizationResult) (c : GatewayCall) (g : FakeGateway)
    → get key g.authorizations ≡ some r
    → get key (serve c g).authorizations ≡ some r
unfolding serve
serve-get key r (authorizes card_token amount currency drawn k) g h = ground (arith, same-eq key k)
serve-get key r (captures ref k) g h = h
serve-get key r (voids ref k) g h = h
serve-get key r (refunds ref amount k) g h = ground arith
serve-get key r (arms ref) g h = h

serve_all-get :
    (key : Text) (r : AuthorizationResult) (cs : List GatewayCall) (g : FakeGateway)
    → get key g.authorizations ≡ some r
    → get key (serve_all cs g).authorizations ≡ some r
unfolding serve_all
serve_all-get key r [] g h = h
serve_all-get key r (c ∷ cs) g h = serve_all-get key r cs (serve c g) (serve-get key r c g h)

authorize-records :
    (card_token : Text) (amount : ℕ) (currency drawn key : Text) (r : AuthorizationResult)
    (g : FakeGateway)
    → (fake_authorize card_token amount currency drawn key g).0 ≡ done r
    → get key (fake_authorize card_token amount currency drawn key g).1.authorizations ≡ some r
unfolding fake_authorize
authorize-records card_token amount currency drawn key r g h = ground (arith, same_refl key)

-- Once `authorize` has answered under a key, any later `authorize` under that key, with any card and amount and after any calls by
-- anyone, gives the same answer and leaves the gateway as it is: it charges nothing.
authorize_replays :
    (card_token : Text) (amount : ℕ) (currency drawn key : Text) (r : AuthorizationResult)
    (g : FakeGateway) (cs : List GatewayCall) (card_token' : Text) (amount' : ℕ)
    (currency' drawn' : Text)
    → (fake_authorize card_token amount currency drawn key g).0 ≡ done r
    → let g' = serve_all cs (fake_authorize card_token amount currency drawn key g).1 in
      fake_authorize card_token' amount' currency' drawn' key g' ≡ (done r, g')
authorize_replays card_token amount currency drawn key r g cs card_token' amount' currency' drawn'
      h =
    replay card_token' amount' currency' drawn' key r _
      (serve_all-get key r cs _ (authorize-records card_token amount currency drawn key r g h))
  where
    replay :
        (card : Text) (m : ℕ) (c drawn key : Text) (r : AuthorizationResult) (g : FakeGateway)
        → get key g.authorizations ≡ some r
        → fake_authorize card m c drawn key g ≡ (done r, g)
    replay card m c drawn key r g h = unfold fake_authorize in ground arith

-- A call that times out has charged nothing, and a retry under the same key, with the same card and amount, is answered: the saga's
-- one retry is enough for this gateway.
authorize_retry :
    (card_token : Text) (amount : ℕ) (currency drawn drawn' key : Text) (g : FakeGateway)
    → (fake_authorize card_token amount currency drawn key g).0 ≡ timed_out
    → let g' = (fake_authorize card_token amount currency drawn key g).1 in
      (g'.authorizations ≡ g.authorizations)
      × ((fake_authorize card_token amount currency drawn' key g').0
          ≡ done (answer (trigger_for card_token) amount currency drawn'))
unfolding fake_authorize
authorize_retry card_token amount currency drawn drawn' key g h = ground (arith, same_refl key)

-- A call of `authorize` adds one authorization at most, and none when it times out or replays.
authorize-count :
    (card_token : Text) (amount : ℕ) (currency drawn key : Text) (g : FakeGateway)
    → let (r, g') = fake_authorize card_token amount currency drawn key g in
      (authorization_count g' ≡ authorization_count g)
      ⊎ ((authorization_count g' ≡ suc (authorization_count g))
          × (get key g.authorizations ≡ none)
          × (r ≡ done (answer (trigger_for card_token) amount currency drawn)))
unfolding fake_authorize
authorize-count card_token amount currency drawn key g = ground arith
