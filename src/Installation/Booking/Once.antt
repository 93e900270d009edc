-- ===== src/Installation/Booking/Once.antt =====
-- A quote that has been booked is not booked again.
use auto_store_api.Prelude.{
  ℕ, ◌≡◌, ◌≢◌, refl, sym, subst, Bool, true, false, not, ◌&&◌, ◌||◌, ◌==◌, ==→eq, List, [], ◌∷◌, ok,
  All, Has, update_where, ltb, arith, inl, inr, Bool-cases, if◌then◌else◌,
}
use auto_store_api.Platform.{Platform}
use auto_store_api.Models.Installation.{Quote, QuoteStatus, Booking, is_ready}
use auto_store_api.World.{
  World, Returns, Returns-ok, Returns-always, pure-Returns, query_then, query_missing_then,
  raise_if_then, exec_then, fresh_then, notify_then, lift_then, ignore_then, call_then,
  transaction-Returns,
}
use auto_store_api.Installation.Booking.{
  CreateBookingInput, load_quote, get_quote_for_user, book_quote, store_booking, create_booking,
  parts_total,
}

abbrev is_booked : QuoteStatus → Bool
is_booked QuoteStatus.booked = true
is_booked _ = false

-- Is the quote, if it has this id, booked?
abbrev booked_as : ℕ → Quote → Bool
booked_as id q = not (q.id == id) || is_booked q.status

abbrev AllBooked : ℕ → List Quote → Type 0
AllBooked id qs = All (λ q. booked_as id q ≡ true) qs

and_left : (a b : Bool) → (a && b) ≡ true → a ≡ true
and_left true b h = refl
and_left false b h = cc

booked-update :
    (id : ℕ) (qs : List Quote)
    → AllBooked id
        (update_where (λ q. q.id == id) (λ q. record q { status = QuoteStatus.booked }) qs)
booked-update id [] = tt
booked-update id (q ∷ qs) = elim (Bool-cases (q.id == id)) [
  | inl e ↦ rw e (rw e refl, booked-update id qs)
  | inr e ↦ rw e (rw e refl, booked-update id qs)
]

expired_one :
    (id : ℕ) (c : Bool) (q : Quote)
    → booked_as id q ≡ true
    → booked_as id (if is_ready q.status && c then record q { status = QuoteStatus.expired } else q)
      ≡ true
expired_one id c q h = ground arith

booked-expire :
    (id : ℕ) (c : Quote → Bool) (qs : List Quote)
    → AllBooked id qs
    → AllBooked id (
        update_where
          (λ q. is_ready q.status && c q)
          (λ q. record q { status = QuoteStatus.expired })
          qs)
booked-expire id c [] h = tt
booked-expire id c (q ∷ qs) h = (expired_one id (c q) q h.0, booked-expire id c qs h.1)

booked_found :
    (id : ℕ) (q : Quote) (qs : List Quote) → AllBooked id qs → Has q qs → booked_as id q ≡ true
booked_found id q (x ∷ qs) h (inl e) = subst (λ y. booked_as id y ≡ true) (sym e) (h.0)
booked_found id q (x ∷ qs) h (inr m) = booked_found id q qs (h.1) m
booked_found id q [] h m = elim m [ ]

not_ready :
    (id : ℕ) (q : Quote) → (q.id == id) ≡ true → booked_as id q ≡ true → is_ready q.status ≡ false
not_ready id q e h = ground arith

contradiction : (a : Bool) → a ≡ false → not a ≡ false → ⊥
contradiction true e f = cc
contradiction false e f = cc

module _ (p : Platform) where
  -- What is true of the quote that is found, and of the quotes that it is found in.
  abbrev Booked : ℕ → World p → Type 0
  Booked id w = AllBooked id (p.quotes.rows w.db.quotes)

  expire-Booked :
      (id now : ℕ) (w : World p) (t : p.quotes.Rows)
      → p.quotes.update
          (λ q. is_ready q.status && ltb q.expires_at now)
          (λ q. record q { status = QuoteStatus.expired })
          w.db.quotes
        ≡ ok t
      → Booked id w
      → AllBooked id (p.quotes.rows t)
  expire-Booked id now w t e h =
      subst (AllBooked id) (sym (p.quotes.update_ok _ _ _ t e)) (booked-expire id _ _ h)

  load_quote-id :
      (now user_id id : ℕ) (w : World p)
      → Returns (λ r v. r.0.id ≡ id) (load_quote p now user_id id w)
  unfolding load_quote
  load_quote-id now user_id id w = query_missing_then _ _ _ w _ λ q found.
      query_then _ _ _ w λ lines _. query_then _ _ _ w λ items _.
        raise_if_then _ _ _ _ w
          λ valid. pure-Returns _ _ w (==→eq _ _ (and_left _ _ (p.quotes.first_ok _ _ q found).1))

  load_quote_closed :
      (now user_id id : ℕ) (w : World p)
      → Booked id w
      → Returns (λ r v. is_ready r.0.status ≡ false) (load_quote p now user_id id w)
  unfolding load_quote
  load_quote_closed now user_id id w h = query_missing_then _ _ _ w _ λ q found.
      query_then _ _ _ w λ lines _. query_then _ _ _ w λ items _. raise_if_then _ _ _ _ w λ valid.
        let (there, test) = p.quotes.first_ok _ _ q found in
        pure-Returns _ _ w (not_ready id q (and_left _ _ test) (booked_found id q _ h there))

  get_quote-id :
      (now user_id id : ℕ) (w : World p)
      → Returns (λ r v. r.0.id ≡ id) (get_quote_for_user p now user_id id w)
  unfolding get_quote_for_user
  get_quote-id now user_id id w =
      ignore_then _ _ _ _ w (load_quote-id now user_id id w) (λ t _. load_quote-id now user_id id _)

  get_quote_closed :
      (now user_id id : ℕ) (w : World p)
      → Booked id w
      → Returns (λ r v. is_ready r.0.status ≡ false) (get_quote_for_user p now user_id id w)
  unfolding get_quote_for_user
  get_quote_closed now user_id id w h =
      ignore_then _ _ _ _ w (load_quote_closed now user_id id w h)
        (λ t e. load_quote_closed now user_id id _ (expire-Booked id now w t e h))

  store_booking-Booked :
      (b : Booking p.Float) (w : World p)
      → Returns (λ _ v. Booked b.quote_id v) (store_booking p b w)
  unfolding store_booking
  store_booking-Booked b w = exec_then _ _ _ _ w λ t1 _. fresh_then _ _ _ (
      exec_then _ _ _ _ _ λ t2 _. exec_then _ _ _ _ _ λ t3 updated. exec_then _ _ _ _ _ λ t4 _.
        exec_then _ _ _ _ _ λ t5 _. pure-Returns _ tt _ (
          subst (AllBooked b.quote_id) (sym (p.quotes.update_ok _ _ _ t3 updated))
            (booked-update b.quote_id _)))

  book_quote-Booked :
      (now user_id : ℕ) (input : CreateBookingInput) (w : World p)
      → Returns (λ _ v. Booked input.quote_id v) (book_quote p now user_id input w)
  unfolding book_quote
  book_quote-Booked now user_id input w =
      call_then _ _ _ _ w (get_quote-id now user_id input.quote_id w) λ quote u id.
        raise_if_then _ _ _ _ u λ ready. query_then _ _ _ u λ count counted.
          raise_if_then _ _ _ _ u λ none_yet. lift_then _ _ _ u λ line chosen.
            query_then _ _ _ u λ profile found.
              call_then _ _ _ _ u (Returns-always (parts_total p quote.0.order_id u)) λ parts x _.
                fresh_then _ _ x (
                  call_then _ _ _ _ _
                    (transaction-Returns (λ _ v. Booked quote.0.id v) _ _
                      (store_booking-Booked _ _))
                    λ _ y booked. query_then _ _ _ y λ loaded _. notify_then _ _ _ y (
                      notify_then _ _ _ _
                        (pure-Returns _ loaded _ (subst (λ i. Booked i y) id booked))))

  closed_refused :
      (now user_id : ℕ) (input : CreateBookingInput) (w : World p)
      → Booked input.quote_id w
      → Returns (λ _ _. ⊥) (book_quote p now user_id input w)
  unfolding book_quote
  closed_refused now user_id input w h =
      call_then _ _ _ _ w (get_quote_closed now user_id input.quote_id w h)
        λ quote u closed. raise_if_then _ _ _ _ u λ ready. absurd (contradiction _ closed ready)

  -- In the state that `CreateBooking` leaves when it returns a booking of a quote, another call for the
  -- quote, by anyone, at any time and for any of its lines, returns no booking.
  pub create_booking_once :
      (now later user_id other : ℕ) (input again : CreateBookingInput) (w v : World p)
      (b : Booking p.Float)
      → again.quote_id ≡ input.quote_id
      → create_booking p now user_id input w ≡ (ok b, v)
      → (c : Booking p.Float) → (create_booking p later other again v).0 ≢ ok c
  unfolding create_booking
  create_booking_once now later user_id other input again w v b same e c f =
      let booked : Booked input.quote_id v =
        Returns-ok (λ _ v. Booked input.quote_id v) _ b v e
          (raise_if_then _ _ _ _ w λ soon.
            ignore_then _ _ _ _ w (book_quote-Booked now user_id input w)
              (λ t _. book_quote-Booked now user_id input _)) in
      let there : Booked again.quote_id v = subst (λ i. Booked i v) (sym same) booked in
      let never : Returns (λ _ _. ⊥) (create_booking p later other again v) =
        raise_if_then _ _ _ _ v λ soon.
          ignore_then _ _ _ _ v (closed_refused later other again v there) (λ t e.
            closed_refused later other again _ (expire-Booked again.quote_id later v t e there)) in
      Returns-ok (λ _ _. ⊥) _ c _ (λ i. (f i, (create_booking p later other again v).1)) never
