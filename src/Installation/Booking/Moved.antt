-- ===== src/Installation/Booking/Moved.antt =====
-- What `UpdateBookingStatus` does.
use auto_store_api.Prelude.{
  String, ◌≢◌, ◌⊎◌, inl, inr, Bool-cases, ℕ, ◌≡◌, refl, ◌∙◌, ap, Bool, true, false, not, ◌&&◌,
  ==→eq, ◌∷◌, ok, Has, upsert, if◌then◌else◌,
}
use auto_store_api.Platform.{Platform}
use auto_store_api.Models.Installation.{
  Booking, BookingStatus, is_en_route, is_confirmed, is_valid_booking_status,
}
use auto_store_api.Models.Sales.{PaymentStatus, is_unpaid}
use auto_store_api.World.{
  World, Notice, mechanic_en_route, Returns, Returns-ok, pure-Returns, query_missing_then,
  raise_if_then, exec_then, call_then, skip_if_then, notify_last, skip_if, notify,
}
use auto_store_api.Installation.Transition.{is_allowed_status_transition}
use auto_store_api.Installation.Booking.{update_booking_status}

and_both : (a b : Bool) → (a && b) ≡ true → (a ≡ true) × (b ≡ true)
and_both true true h = (refl, refl)
and_both true false h = cc
and_both false b h = cc

of_not : (b : Bool) → not b ≡ false → b ≡ true
of_not true h = refl
of_not false h = cc

contradiction : {b : Bool} → b ≡ true → b ≡ false → ⊥
contradiction h g = cc

not_true : (b : Bool) → (b ≢ true) → b ≡ false
not_true true h = absurd (h refl)
not_true false h = refl

and_false : (b : Bool) → (b && false) ≡ false
and_false true = refl
and_false false = refl

confirmed_is : (s : BookingStatus) → is_confirmed s ≡ true → s ≡ BookingStatus.confirmed
confirmed_is BookingStatus.confirmed e = refl
confirmed_is _ e = cc

en_route_is : (s : BookingStatus) → is_en_route s ≡ true → s ≡ BookingStatus.en_route
en_route_is BookingStatus.en_route e = refl
en_route_is _ e = cc

pending_is : (s : PaymentStatus) → is_unpaid s ≡ true → s ≡ PaymentStatus.pending
pending_is PaymentStatus.pending e = refl
pending_is _ e = cc

valid_is :
    (s : BookingStatus)
    → is_valid_booking_status s ≡ true
    → (t : String) → s ≢ BookingStatus.other t
unfolding is_valid_booking_status
valid_is s h t e = contradiction h (ap is_valid_booking_status e)

module _ (p : Platform) where
  tell_if :
      (c : Bool) (n : Notice) (w : World p)
      → Returns
          (λ _ u. (u.db ≡ w.db) × (u.notices ≡ (if c then n ∷ w.notices else w.notices)))
          (skip_if p (not c) (notify p n) w)
  tell_if true n w = skip_if_then _ _ _ w (λ e. absurd cc) λ _. notify_last _ n w (refl, refl)
  tell_if false n w = skip_if_then _ _ _ w (λ _. (refl, refl)) λ e. absurd cc

  -- The payment of a booking that comes to a status: it is paid when a pending one is confirmed.
  abbrev pub IsPaidBy : BookingStatus → PaymentStatus → PaymentStatus → Type 0
  IsPaidBy status old new =
      (status ≡ BookingStatus.confirmed → old ≡ PaymentStatus.pending → new ≡ PaymentStatus.paid)
      × ((status ≢ BookingStatus.confirmed) ⊎ (old ≢ PaymentStatus.pending) → new ≡ old)

  paid_by :
      (status : BookingStatus) (old : PaymentStatus)
      → IsPaidBy status old
          (if is_confirmed status && is_unpaid old then PaymentStatus.paid else old)
  paid_by status old = elim (Bool-cases (is_confirmed status)) [
    | inl c ↦ elim (Bool-cases (is_unpaid old)) [
      | inl u ↦ rw (c, u) (λ _ _. refl, λ other. absurd (neither c u other))
      | inr u ↦ rw (c, u) (λ _ is. absurd (contradiction (ap is_unpaid is) u), λ _. refl)
    ]
    | inr c ↦ rw c (λ is _. absurd (contradiction (ap is_confirmed is) c), λ _. refl)
  ]
    where
      neither :
          is_confirmed status ≡ true
          → is_unpaid old ≡ true
          → (status ≢ BookingStatus.confirmed) ⊎ (old ≢ PaymentStatus.pending)
          → ⊥
      neither c u (inl ne) = ne (confirmed_is status c)
      neither c u (inr ne) = ne (pending_is old u)

  -- The customer is told just when the mechanic gets on the way.
  abbrev pub IsTold : Booking p.Float → BookingStatus → ℕ → World p → World p → Type 0
  IsTold old status id w v =
      (status ≡ BookingStatus.en_route
        → old.status ≢ BookingStatus.en_route
        → v.notices ≡ mechanic_en_route old.user_id id ∷ w.notices)
      × ((status ≢ BookingStatus.en_route) ⊎ (old.status ≡ BookingStatus.en_route)
          → v.notices ≡ w.notices)

  told_as :
      (old : Booking p.Float) (status : BookingStatus) (id : ℕ) (w v : World p)
      → v.notices ≡ (
          if is_en_route status && not (is_en_route old.status)
          then mechanic_en_route old.user_id id ∷ w.notices
          else w.notices)
      → IsTold old status id w v
  told_as old status id w v told = (
    λ now before.
        let a : is_en_route status ≡ true = ap is_en_route now in
        let b : is_en_route old.status ≡ false =
          not_true _ (λ e. before (en_route_is old.status e)) in
        told ∙ rw (a, b) refl,
    λ stays. told ∙ elim stays [
      | inl ne ↦
          let a : is_en_route status ≡ false = not_true _ (λ e. ne (en_route_is status e)) in
          rw a refl
      | inr same ↦
          let b : is_en_route old.status ≡ true = ap is_en_route same in
          rw (b, and_false (is_en_route status)) refl
    ],
  )

  -- What `UpdateBookingStatus` has done with a booking of the mechanic's.
  pub record Moved (mechanic_user_id id : ℕ) (status : BookingStatus) (b : Booking p.Float)
      (w v : World p) : Type 0 where
    pub old : Booking p.Float
    pub was : Has old (p.bookings.rows w.db.bookings)
    pub of_id : old.id ≡ id
    pub of_mechanic : old.mechanic_user_id ≡ mechanic_user_id
    pub valid : (t : String) → status ≢ BookingStatus.other t
    pub allowed : is_allowed_status_transition old.status status ≡ true
    pub result : b ≡ record old { status = status; payment_status = b.payment_status }
    pub payment : IsPaidBy status old.payment_status b.payment_status
    pub stored :
        p.bookings.rows v.db.bookings ≡ upsert (λ r. r.id) b (p.bookings.rows w.db.bookings)
    pub told : IsTold old status id w v

  -- When `UpdateBookingStatus` returns a booking: it was one of the mechanic's, the new status is one of
  -- the six and may follow the old one, the booking's row is the returned one, which has the new status and
  -- is paid if it has just been confirmed while its payment was pending; and the customer is told that the mechanic is
  -- on the way exactly when that is the new status and was not the old one.
  pub update_booking_status-Moved :
      (mechanic_user_id id : ℕ) (status : BookingStatus) (w v : World p) (b : Booking p.Float)
      → update_booking_status p mechanic_user_id id status w ≡ (ok b, v)
      → Moved mechanic_user_id id status b w v
  unfolding update_booking_status
  update_booking_status-Moved mechanic_user_id id status w v b e =
      Returns-ok (λ b v. Moved mechanic_user_id id status b w v) _ b v e
        (raise_if_then _ _ _ _ w λ valid. query_missing_then _ _ _ w _ λ old found.
          raise_if_then _ _ _ _ w λ allowed. exec_then _ _ _ _ w λ t saved.
            call_then _ _ _ _ _ (tell_if _ _ _) λ _ u (same, told).
              let (there, test) = p.bookings.first_ok _ _ old found in
              let (of_id, of_mechanic) = and_both _ _ test in
              pure-Returns _ _ u (record {
                old = old;
                was = there;
                of_id = ==→eq _ _ of_id;
                of_mechanic = ==→eq _ _ of_mechanic;
                valid = valid_is status (of_not _ valid);
                allowed = of_not _ allowed;
                result = refl;
                payment = paid_by status old.payment_status;
                stored = ap (λ d. p.bookings.rows d.bookings) same ∙ p.bookings.save_ok _ _ t saved;
                told = told_as old status id w u (
                    told
                    ∙ ap
                        (λ i.
                          if is_en_route status && not (is_en_route old.status)
                          then mechanic_en_route old.user_id i ∷ w.notices
                          else w.notices)
                        (==→eq _ _ of_id));
              }))
