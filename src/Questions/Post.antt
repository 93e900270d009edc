-- ===== src/Questions/Post.antt =====
-- What `PostAnswer` has done when it returns, and that nobody answers a question twice.
use auto_store_api.Prelude.{
  ℕ, ◌≡◌, refl, sym, ap, ◌∙◌, subst, Bool, true, false, some, List, [], ◌∷◌, ◌++◌, ok, not, ltb,
  ◌==◌, ==→eq, ==→ne, String, Bool-cases, ◌≤◌, if◌then◌else◌, inl, inr, lookup, upsert, lookup-key,
  lookup-upsert_self, lookup-upsert_ne, both, length, select, length-select_few, empty_of,
}
use auto_store_api.Platform.{Platform}
use auto_store_api.Models.Community.{
  Question, Answer, QuestionStatus, is_closed_question, is_open_question,
}
use auto_store_api.World.{
  Db, World, Returns, Returns-ok, pure-Returns, raise_if_then, exec_then, step_then, skip_if_then,
  exec_last, notify_last, query_then, query_missing_then, fresh_then, value_then,
  transaction-Returns,
}
use auto_store_api.Questions.{by_user_on, new_answer, store_answer, post_answer, get_question}

-- Nobody has two answers to one question.
abbrev pub AtMostOneEach : List Answer → Type 0
AtMostOneEach rows =
    (question_id user_id : ℕ) → length (select (by_user_on question_id user_id) rows) ≤ 1

module _ (p : Platform) where
  -- What `PostAnswer` has done: the question is there and is not closed, the user had no answer to it,
  -- the answer is a new row that is not accepted, and a question that was open is stored as answered.
  pub record Posted (question_id user_id : ℕ) (d e : Db p) : Type 0 where
    pub question : Question
    pub was : lookup (λ q. q.id) question_id (p.questions.rows d.questions) ≡ some question
    pub not_closed : is_closed_question question.status ≡ false
    pub none_yet : select (by_user_on question_id user_id) (p.answers.rows d.answers) ≡ []
    pub answer : Answer
    pub of_question : answer.question_id ≡ question_id
    pub of_user : answer.user_id ≡ user_id
    pub not_accepted : answer.is_accepted ≡ false
    pub created : p.answers.rows e.answers ≡ p.answers.rows d.answers ++ answer ∷ []
    pub stored :
        (k : ℕ)
        → lookup (λ q. q.id) k (p.questions.rows e.questions) ≡ (
            if k == question_id
            then some (record question { status = QuestionStatus.answered })
            else lookup (λ q. q.id) k (p.questions.rows d.questions))

  answered_already :
      (s : QuestionStatus)
      → is_closed_question s ≡ false
      → not (is_open_question s) ≡ true
      → s ≡ QuestionStatus.answered
  answered_already QuestionStatus.open_ c o = cc
  answered_already QuestionStatus.answered c o = refl
  answered_already QuestionStatus.closed c o = cc

  -- The row of the question at any id, when nothing had to be written.
  unchanged :
      (k id : ℕ) (q r : Question) (rows : List Question)
      → lookup (λ q. q.id) id rows ≡ some q
      → r ≡ q
      → lookup (λ q. q.id) k rows ≡ (if k == id then some r else lookup (λ q. q.id) k rows)
  unchanged k id q r rows found same = elim (Bool-cases (k == id)) [
    | inl e ↦ rw e (ap (λ k. lookup (λ q. q.id) k rows) (==→eq k id e) ∙ found ∙ ap some (sym same))
    | inr e ↦ rw e refl
  ]

  -- The same when the row was saved.
  changed :
      (k id : ℕ) (r : Question) (rows : List Question)
      → r.id ≡ id
      → lookup (λ q. q.id) k (upsert (λ q. q.id) r rows)
        ≡ (if k == id then some r else lookup (λ q. q.id) k rows)
  changed k id r rows i = elim (Bool-cases (k == id)) [
    | inl e ↦
        lookup-upsert_self (λ q. q.id) k r rows (i ∙ sym (==→eq k id e))
        ∙ ap (λ b. if b then some r else lookup (λ q. q.id) k rows) (sym e)
    | inr e ↦
        lookup-upsert_ne (λ q. q.id) k r rows (λ x. ==→ne k id e (sym x ∙ i))
        ∙ ap (λ b. if b then some r else lookup (λ q. q.id) k rows) (sym e)
  ]

  abbrev Stored : Question → Answer → ℕ → Db p → Db p → Type 0
  Stored q a id d e =
      (p.answers.rows e.answers ≡ p.answers.rows d.answers ++ a ∷ [])
      × ((k : ℕ)
          → lookup (λ q. q.id) k (p.questions.rows e.questions) ≡ (
              if k == id
              then some (record q { status = QuestionStatus.answered })
              else lookup (λ q. q.id) k (p.questions.rows d.questions)))

  store_answer-Stored :
      (q : Question) (a : Answer) (id : ℕ) (w : World p)
      → lookup (λ q. q.id) id (p.questions.rows w.db.questions) ≡ some q
      → is_closed_question q.status ≡ false
      → Returns (λ _ v. Stored q a id w.db v.db) (store_answer p q a w)
  unfolding store_answer
  store_answer-Stored q a id w found not_closed = exec_then _ _ _ _ w λ t made.
      skip_if_then _ _ _ _
        (λ answered. (
          (p.answers.create_ok _ _ t made).1,
          λ k. unchanged k id q _ _ found (
              ap (λ s. record q { status = s })
                (sym (answered_already q.status not_closed answered))),
        ))
        λ open_. exec_last _ _ _ _ λ u saved. (
          (p.answers.create_ok _ _ t made).1,
          λ k.
              ap (lookup (λ q. q.id) k) (p.questions.save_ok _ _ u saved)
              ∙ changed k id _ _ (lookup-key (λ q. q.id) id _ q found),
        )

  -- When `PostAnswer` returns: the question is there and is not closed, the user had no answer to it, a new
  -- answer of the user's that is not accepted has been added to it, the question is stored as answered,
  -- and no other question has changed.
  pub post_answer-Posted :
      (question_id user_id : ℕ) (body : String) (verified : Bool) (w v : World p) (answer : Answer)
      → post_answer p question_id user_id body verified w ≡ (ok answer, v)
      → Posted question_id user_id w.db v.db
  unfolding post_answer get_question
  post_answer-Posted question_id user_id body verified w v answer e =
      Returns-ok (λ _ v. Posted question_id user_id w.db v.db) _ answer v e
        (query_missing_then _ _ _ w _ λ q found. raise_if_then _ _ _ _ w λ open_.
          query_then _ _ _ w λ n counted. raise_if_then _ _ _ _ w λ first. fresh_then _ _ w (
            step_then _
              (λ _ v.
                Stored q (new_answer (p.uuid w.drawn) question_id user_id body verified) question_id
                  w.db v.db)
              _ _ _
              (transaction-Returns _ _ _
                (store_answer-Stored q _ question_id _ (p.questions.get_ok _ _ q found) open_))
              λ _ v (made, stored).
                step_then _ (λ _ u. u.db ≡ v.db) _ _ v
                  (skip_if_then _ _ _ v (λ _. refl) λ _. notify_last _ _ v refl)
                  λ _ u same. value_then _ _ _ u λ r. pure-Returns _ _ u (
                    subst (Posted question_id user_id w.db) (sym same) (record {
                      question = q;
                      was = p.questions.get_ok _ _ q found;
                      not_closed = open_;
                      none_yet =
                          empty_of _
                            (subst (λ n. ltb 0 n ≡ false) (p.answers.count_ok _ _ n counted) first);
                      answer = new_answer (p.uuid w.drawn) question_id user_id body verified;
                      of_question = refl;
                      of_user = refl;
                      not_accepted = refl;
                      created = made;
                      stored = stored;
                    }))))

  -- If nobody has two answers to one question, then that is so when `PostAnswer` has returned.
  pub post_answer-AtMostOneEach :
      (question_id user_id : ℕ) (body : String) (verified : Bool) (w v : World p) (answer : Answer)
      → AtMostOneEach (p.answers.rows w.db.answers)
      → post_answer p question_id user_id body verified w ≡ (ok answer, v)
      → AtMostOneEach (p.answers.rows v.db.answers)
  post_answer-AtMostOneEach question_id user_id body verified w v answer h e i u =
      let posted = post_answer-Posted question_id user_id body verified w v answer e in
      subst (λ rows. length (select (by_user_on i u) rows) ≤ 1) (sym posted.created)
        (length-select_few (by_user_on i u) posted.answer _ (h i u) λ m.
          let (a, b) = both (posted.answer.question_id == i) (posted.answer.user_id == u) m in
          ap (λ i. select (by_user_on i u) (p.answers.rows w.db.answers))
            (sym (==→eq _ i a) ∙ posted.of_question)
          ∙ ap (λ u. select (by_user_on question_id u) (p.answers.rows w.db.answers))
              (sym (==→eq _ u b) ∙ posted.of_user)
          ∙ posted.none_yet)
