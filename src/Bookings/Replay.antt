-- ===== src/Bookings/Replay.antt =====
-- A second POST /bookings under the key of a first.
use concurrent_flight_bookin.Prelude.{
  ℕ, ◌+◌, ◌≤◌, ◌≡◌, ◌≢◌, refl, true, false, List, Text, arith, same_refl,
}
use concurrent_flight_bookin.Errors.{Exc, AppError, status_code}
use concurrent_flight_bookin.Config.{Settings, seconds}
use concurrent_flight_bookin.Domain.Models.{Booking, IdempotencyKey}
use concurrent_flight_bookin.Idempotency.{
  Claim, claimed, replayed, Replay as Stored, begin, claim_key, complete, release,
}
use concurrent_flight_bookin.Idempotency.Replays.{begin-release}
use concurrent_flight_bookin.Payments.{PaymentGateway}
use concurrent_flight_bookin.Saga.Session.{World, Outcome, ok, raised}
use concurrent_flight_bookin.Bookings.{
  Response, answered, failed, Server, CreateRequest, create_booking, after_run, after_begin,
  rolled_back, committed, run_request, post_bookings,
}

status_code-ne : (e : AppError) → status_code e ≢ 0
unfolding status_code
status_code-ne e = ground arith

-- A completed claim is replayed.
begin-complete :
    (settings : Settings) (others : List IdempotencyKey → List IdempotencyKey) (now later : ℕ)
    (key : Text) (user_id : ℕ) (endpoint digest : Text) (rows : List IdempotencyKey) (status : ℕ)
    (body : Text)
    → (begin settings others now key user_id endpoint digest rows).0 ≡ claimed
    → later ≤ now + seconds settings.idempotency_ttl_seconds
    → status ≢ 0
    → let rows' =
        complete key user_id status body
          (begin settings others now key user_id endpoint digest rows).1 in
      (begin settings (λ r. r) later key user_id endpoint digest rows').0
      ≡ replayed (record { replay_status = status; replay_body = body })
unfolding begin complete claim_key
begin-complete settings others now later key user_id endpoint digest rows status body h fresh real =
    ground (arith, same_refl key, same_refl digest)

module _ {G : Type 0} (settings : Settings) (gateway : PaymentGateway G) (render : Booking → Text)
    (problem : AppError → Text) where
  -- What a request is answered after one that was answered so: the same answer, marked as a replay, and nothing done; or,
  -- after a failure, a saga of its own.
  abbrev pub Repeated : CreateRequest → Server G → Response → Type 0
  Repeated q s (answered m status body) =
      let (r, s') = create_booking settings gateway render problem (λ k. k) q s in
      (r ≡ answered true status body) × (s'.world ≡ s.world)
  Repeated q s (failed e) =
      (keys : List IdempotencyKey) × (create_booking settings gateway render problem (λ k. k) q s
        ≡ after_run settings gateway render problem q keys
            (run_request settings gateway render problem q s.world))

  after_begin-replayed :
      (q : CreateRequest) (w : World G) (c : Claim × List IdempotencyKey) (r : Stored)
      → c.0 ≡ replayed r
      → let (a, s) = after_begin settings gateway render problem q w c in
        (a ≡ answered true r.replay_status r.replay_body) × (s.world ≡ w)
  after_begin-replayed q w c r e = ground arith

  after_begin-claimed :
      (q : CreateRequest) (w : World G) (c : Claim × List IdempotencyKey)
      → c.0 ≡ claimed
      → after_begin settings gateway render problem q w c
        ≡ after_run settings gateway render problem q c.1
            (run_request settings gateway render problem q w)
  after_begin-claimed q w (c, keys) e = rw e refl

  module _ (others : List IdempotencyKey → List IdempotencyKey) (q again : CreateRequest)
      (rows : List IdempotencyKey)
      (h : (begin settings others q.now q.key q.user_id post_bookings q.digest rows).0 ≡ claimed)
      (fresh : again.now ≤ q.now + seconds settings.idempotency_ttl_seconds)
      (ek : again.key ≡ q.key) (eu : again.user_id ≡ q.user_id) (ed : again.digest ≡ q.digest) where
    abbrev keys_then : List IdempotencyKey
    keys_then = (begin settings others q.now q.key q.user_id post_bookings q.digest rows).1

    stored-Repeated :
        (status : ℕ) (body : Text) (w : World G)
        → status ≢ 0
        → Repeated again
            (record { world = w; keys = complete q.key q.user_id status body keys_then })
            (answered false status body)
    unfolding create_booking
    stored-Repeated status body w real = after_begin-replayed again w _ _ (
        rw (ek, eu, ed)
          (begin-complete settings others q.now again.now q.key q.user_id post_bookings q.digest
            rows status body h fresh real))

    released-Repeated :
        (w : World G) (e : Exc)
        → Repeated again (record { world = w; keys = release q.key q.user_id keys_then }) (failed e)
    unfolding create_booking
    released-Repeated w e =
        let keys : List IdempotencyKey = release q.key q.user_id keys_then in
        let c =
          begin settings (λ k. k) again.now again.key again.user_id post_bookings again.digest
            keys in
        (
          c.1,
          after_begin-claimed again w c (
              rw (ek, eu)
                (begin-release settings (λ k. k) again.now q.key q.user_id post_bookings
                  again.digest keys_then)),
        )

    after_run-Repeated :
        (o : Outcome Booking × World G)
        → let (r, s) = after_run settings gateway render problem q keys_then o in Repeated again s r
    after_run-Repeated (ok b, w) = stored-Repeated 201 (render b) (committed w) (omega arith)
    after_run-Repeated (raised (Exc.app e), w) =
        stored-Repeated (status_code e) (problem e) (committed (rolled_back w)) (status_code-ne e)
    after_run-Repeated (raised Exc.illegal_transition, w) =
        released-Repeated _ Exc.illegal_transition
    after_run-Repeated (raised Exc.payment_timeout, w) = released-Repeated _ Exc.payment_timeout
    after_run-Repeated (raised Exc.refund_failed, w) = released-Repeated _ Exc.refund_failed
    after_run-Repeated (raised Exc.ticketing_failed, w) = released-Repeated _ Exc.ticketing_failed
    after_run-Repeated (raised Exc.integrity_error, w) = released-Repeated _ Exc.integrity_error
    after_run-Repeated (raised Exc.no_unique_pnr, w) = released-Repeated _ Exc.no_unique_pnr
    after_run-Repeated (raised Exc.zip_length, w) = released-Repeated _ Exc.zip_length

  -- Once a POST /bookings that claimed its key has been dealt with, a repeat under that key by the same user with the same body,
  -- before the claim expires and with no other session at its keys, is answered with the same status and body, marked as
  -- replayed, and touches neither the tables nor the gateway, whether the first was a booking or a refusal; only if the
  -- first was answered with a 500 the repeat runs the saga itself.
  pub create_booking_again :
      (others : List IdempotencyKey → List IdempotencyKey) (q again : CreateRequest) (s : Server G)
      → (begin settings others q.now q.key q.user_id post_bookings q.digest s.keys).0 ≡ claimed
      → again.now ≤ q.now + seconds settings.idempotency_ttl_seconds
      → again.key ≡ q.key
      → again.user_id ≡ q.user_id
      → again.digest ≡ q.digest
      → let (r, s') = create_booking settings gateway render problem others q s in
        Repeated again s' r
  unfolding create_booking
  create_booking_again others q again s h fresh ek eu ed =
      rw
        (after_begin-claimed q s.world
          (begin settings others q.now q.key q.user_id post_bookings q.digest s.keys) h)
        (after_run-Repeated others q again s.keys h fresh ek eu ed
          (run_request settings gateway render problem q s.world))
