-- ===== src/Installation/Lifecycle.antt =====
-- The life of a booking, as a step relation, and that the code's test decides it.
use auto_store_api.Prelude.{
  ◌≡◌, refl, ap, Bool, true, false, List, [], ◌∷◌, ◌⊎◌, inl, inr, ◌↔◌, eq_iff, str_eq, String, Has,
  arith, subst, sym, ◌||◌, ◌&&◌, ⊤, All,
}
use auto_store_api.Models.Installation.{BookingStatus}
use auto_store_api.Installation.Transition.{
  is_allowed_status_transition, same_status, has_status, allowed_next,
}

-- A booking is paid, the mechanic may set out, works, and finishes; until then it can be cancelled.
pub data Step : BookingStatus → BookingStatus → Type 0 where
  pay : Step BookingStatus.pending_payment BookingStatus.confirmed
  set_out : Step BookingStatus.confirmed BookingStatus.en_route
  begin_at_once : Step BookingStatus.confirmed BookingStatus.in_progress
  begin : Step BookingStatus.en_route BookingStatus.in_progress
  finish : Step BookingStatus.in_progress BookingStatus.completed
  cancel_pending : Step BookingStatus.pending_payment BookingStatus.cancelled
  cancel_confirmed : Step BookingStatus.confirmed BookingStatus.cancelled
  cancel_en_route : Step BookingStatus.en_route BookingStatus.cancelled
  cancel_in_progress : Step BookingStatus.in_progress BookingStatus.cancelled

other_eq : (s t : String) → str_eq s t ≡ true → BookingStatus.other s ≡ BookingStatus.other t
other_eq s t h = ap BookingStatus.other ((eq_iff s t).0 h)

same_status-eq : (a b : BookingStatus) → same_status a b ≡ true → a ≡ b
unfolding same_status
same_status-eq (BookingStatus.other s) (BookingStatus.other t) h = other_eq s t h
same_status-eq a b h = ground arith

or_cases : (a b : Bool) → (a || b) ≡ true → (a ≡ true) ⊎ (b ≡ true)
or_cases true b h = inl refl
or_cases false b h = inr h

has_status-Has : (s : BookingStatus) (xs : List BookingStatus) → has_status s xs ≡ true → Has s xs
unfolding has_status
has_status-Has s [] h = cc
has_status-Has s (x ∷ xs) h = elim (or_cases _ _ h) [
  | inl e ↦ inl (sym (same_status-eq x s e))
  | inr e ↦ inr (has_status-Has s xs e)
]

allowed_next-Step : (a b : BookingStatus) → Has b (allowed_next a) → Step a b
unfolding allowed_next
allowed_next-Step BookingStatus.pending_payment b (inl e) = subst (Step _) (sym e) Step.pay
allowed_next-Step BookingStatus.pending_payment b (inr (inl e)) =
    subst (Step _) (sym e) Step.cancel_pending
allowed_next-Step BookingStatus.confirmed b (inl e) = subst (Step _) (sym e) Step.set_out
allowed_next-Step BookingStatus.confirmed b (inr (inl e)) =
    subst (Step _) (sym e) Step.begin_at_once
allowed_next-Step BookingStatus.confirmed b (inr (inr (inl e))) =
    subst (Step _) (sym e) Step.cancel_confirmed
allowed_next-Step BookingStatus.en_route b (inl e) = subst (Step _) (sym e) Step.begin
allowed_next-Step BookingStatus.en_route b (inr (inl e)) =
    subst (Step _) (sym e) Step.cancel_en_route
allowed_next-Step BookingStatus.in_progress b (inl e) = subst (Step _) (sym e) Step.finish
allowed_next-Step BookingStatus.in_progress b (inr (inl e)) =
    subst (Step _) (sym e) Step.cancel_in_progress
allowed_next-Step BookingStatus.pending_payment b (inr (inr x)) = elim x [ ]
allowed_next-Step BookingStatus.confirmed b (inr (inr (inr x))) = elim x [ ]
allowed_next-Step BookingStatus.en_route b (inr (inr x)) = elim x [ ]
allowed_next-Step BookingStatus.in_progress b (inr (inr x)) = elim x [ ]
allowed_next-Step BookingStatus.completed b x = elim x [ ]
allowed_next-Step BookingStatus.cancelled b x = elim x [ ]
allowed_next-Step (BookingStatus.other _) b x = elim x [ ]

allowed-Step : (a b : BookingStatus) → is_allowed_status_transition a b ≡ true → (a ≡ b) ⊎ Step a b
unfolding is_allowed_status_transition
allowed-Step a b h = elim (or_cases _ _ h) [
  | inl e ↦ inl (same_status-eq a b e)
  | inr e ↦ inr (allowed_next-Step a b (has_status-Has b _ e))
]

same_status_self : (a : BookingStatus) → same_status a a ≡ true
unfolding same_status
same_status_self (BookingStatus.other s) = (eq_iff s s).1 refl
same_status_self BookingStatus.pending_payment = refl
same_status_self BookingStatus.confirmed = refl
same_status_self BookingStatus.en_route = refl
same_status_self BookingStatus.in_progress = refl
same_status_self BookingStatus.completed = refl
same_status_self BookingStatus.cancelled = refl

Step-allowed : (a b : BookingStatus) → Step a b → is_allowed_status_transition a b ≡ true
unfolding is_allowed_status_transition
Step-allowed _ _ Step.pay = refl
Step-allowed _ _ Step.set_out = refl
Step-allowed _ _ Step.begin_at_once = refl
Step-allowed _ _ Step.begin = refl
Step-allowed _ _ Step.finish = refl
Step-allowed _ _ Step.cancel_pending = refl
Step-allowed _ _ Step.cancel_confirmed = refl
Step-allowed _ _ Step.cancel_en_route = refl
Step-allowed _ _ Step.cancel_in_progress = refl

same-allowed : (a b : BookingStatus) → a ≡ b → is_allowed_status_transition a b ≡ true
unfolding is_allowed_status_transition
same-allowed a b e =
    subst (λ c. is_allowed_status_transition a c ≡ true) e
      (ap (λ x. x || has_status a (allowed_next a)) (same_status_self a))

-- `isAllowedStatusTransition` lets a booking keep its status or take one step of its life, and
-- nothing else.
pub is_allowed_status_transition-Step :
    (a b : BookingStatus) → (is_allowed_status_transition a b ≡ true) ↔ ((a ≡ b) ⊎ Step a b)
is_allowed_status_transition-Step a b = (allowed-Step a b, back)
  where
    back : (a ≡ b) ⊎ Step a b → is_allowed_status_transition a b ≡ true
    back (inl e) = same-allowed a b e
    back (inr s) = Step-allowed a b s

-- The statuses that a booking has had, one after the other, as the code lets them follow.
abbrev pub follows : BookingStatus → List BookingStatus → Bool
follows s [] = true
follows s (t ∷ ts) = is_allowed_status_transition s t && follows t ts

abbrev pub last_status : BookingStatus → List BookingStatus → BookingStatus
last_status s [] = s
last_status s (t ∷ ts) = last_status t ts

-- What must still come before a booking is completed.
abbrev Needs : BookingStatus → List BookingStatus → Type 0
Needs BookingStatus.pending_payment ts =
    Has BookingStatus.confirmed ts × Has BookingStatus.in_progress ts
Needs BookingStatus.confirmed ts = Has BookingStatus.in_progress ts
Needs BookingStatus.en_route ts = Has BookingStatus.in_progress ts
Needs BookingStatus.in_progress ts = ⊤
Needs BookingStatus.completed ts = ⊤
Needs BookingStatus.cancelled ts = ⊥
Needs (BookingStatus.other _) ts = ⊥

Needs-cons :
    (a t : BookingStatus) (ts : List BookingStatus) → Step a t → Needs t ts → Needs a (t ∷ ts)
Needs-cons _ _ ts Step.pay n = (inl refl, inr n)
Needs-cons _ _ ts Step.set_out n = inr n
Needs-cons _ _ ts Step.begin_at_once n = inl refl
Needs-cons _ _ ts Step.begin n = inl refl
Needs-cons _ _ ts Step.finish n = tt
Needs-cons _ _ ts Step.cancel_pending n = absurd n
Needs-cons _ _ ts Step.cancel_confirmed n = absurd n
Needs-cons _ _ ts Step.cancel_en_route n = absurd n
Needs-cons _ _ ts Step.cancel_in_progress n = absurd n

Needs-same : (a : BookingStatus) (ts : List BookingStatus) → Needs a ts → Needs a (a ∷ ts)
Needs-same BookingStatus.pending_payment ts n = (inr (n.0), inr (n.1))
Needs-same BookingStatus.confirmed ts n = inr n
Needs-same BookingStatus.en_route ts n = inr n
Needs-same BookingStatus.in_progress ts n = tt
Needs-same BookingStatus.completed ts n = tt
Needs-same BookingStatus.cancelled ts n = n
Needs-same (BookingStatus.other _) ts n = n

Needs-nil : (a : BookingStatus) → a ≡ BookingStatus.completed → Needs a []
Needs-nil BookingStatus.pending_payment e = absurd cc
Needs-nil BookingStatus.confirmed e = absurd cc
Needs-nil BookingStatus.en_route e = absurd cc
Needs-nil BookingStatus.in_progress e = tt
Needs-nil BookingStatus.completed e = tt
Needs-nil BookingStatus.cancelled e = absurd cc
Needs-nil (BookingStatus.other _) e = absurd cc

and_true : (a b : Bool) → (a && b) ≡ true → (a ≡ true) × (b ≡ true)
and_true true true h = (refl, refl)
and_true true false h = cc
and_true false b h = cc

completed-Needs :
    (a : BookingStatus) (ts : List BookingStatus)
    → follows a ts ≡ true
    → last_status a ts ≡ BookingStatus.completed
    → Needs a ts
completed-Needs a [] h e = Needs-nil a e
completed-Needs a (t ∷ ts) h e =
    let (first, rest) = and_true _ _ h in
    let n = completed-Needs t ts rest e in
    elim (allowed-Step a t first) [
      | inl same ↦ subst (λ x. Needs x (t ∷ ts)) (sym same) (Needs-same t ts n)
      | inr s ↦ Needs-cons a t ts s n
    ]

-- However a booking that awaits its payment comes to be completed by transitions that
-- `isAllowedStatusTransition` lets through, it has been confirmed and it has been in progress.
pub completed_after_work :
    (ts : List BookingStatus)
    → follows BookingStatus.pending_payment ts ≡ true
    → last_status BookingStatus.pending_payment ts ≡ BookingStatus.completed
    → Has BookingStatus.confirmed ts × Has BookingStatus.in_progress ts
completed_after_work ts h e = completed-Needs BookingStatus.pending_payment ts h e

completed_ends : (t : BookingStatus) → Step BookingStatus.completed t → ⊥
completed_ends t s = elim s [ ]

cancelled_ends : (t : BookingStatus) → Step BookingStatus.cancelled t → ⊥
cancelled_ends t s = elim s [ ]

final_ends :
    (a t : BookingStatus)
    → (a ≡ BookingStatus.completed) ⊎ (a ≡ BookingStatus.cancelled)
    → Step a t
    → ⊥
final_ends a t (inl e) s = completed_ends t (subst (λ x. Step x t) e s)
final_ends a t (inr e) s = cancelled_ends t (subst (λ x. Step x t) e s)

-- From a status that is completed or cancelled every allowed transition leads to itself.
final_stays :
    (a : BookingStatus) (ts : List BookingStatus)
    → (a ≡ BookingStatus.completed) ⊎ (a ≡ BookingStatus.cancelled)
    → follows a ts ≡ true
    → All (λ t. t ≡ a) ts
final_stays a [] f h = tt
final_stays a (t ∷ ts) f h =
    let (first, rest) = and_true _ _ h in
    elim (allowed-Step a t first) [
      | inl same ↦ (
        sym same,
        subst (λ x. All (λ y. y ≡ x) ts) (sym same)
            (final_stays t ts
              (subst (λ x. (x ≡ BookingStatus.completed) ⊎ (x ≡ BookingStatus.cancelled)) same f)
              rest),
      )
      | inr s ↦ absurd (final_ends a t f s)
    ]
