-- ===== src/Questions/Accept.antt =====
-- What `AcceptAnswer` has done when it returns.
use auto_store_api.Prelude.{
  ℕ, ◌≡◌, ◌≢◌, refl, sym, ap, ◌∙◌, true, false, Option, none, some, List, ok, ◌==◌, ==→eq, ==→ne,
  ==_self, ne→==, Bool-cases, of_not, both, map_option, IsKeyed, if◌then◌else◌, inl, inr, lookup,
  upsert, update_where, amend, lookup-key, lookup-upsert_self, lookup-upsert_ne,
  lookup-update_where,
}
use auto_store_api.Platform.{Platform}
use auto_store_api.Models.Community.{Question, Answer, QuestionStatus, is_closed_question}
use auto_store_api.World.{
  Db, World, Returns-ok, raise_if_then, exec_then, step_then, exec_last, query_last,
  query_missing_then, transaction-Returns,
}
use auto_store_api.Questions.{get_question, mark_accepted, accept_answer}

-- What the acceptance of an answer makes of any answer.
abbrev pub decided : ℕ → ℕ → Answer → Answer
decided question_id answer_id a =
    if a.question_id == question_id then record a { is_accepted = a.id == answer_id } else a

decided_other :
    (question_id answer_id k : ℕ) (o : Option Answer)
    → ((a : Answer) → o ≡ some a → a.id ≡ k)
    → k ≢ answer_id
    → amend (λ a. a.question_id == question_id) (λ a. record a { is_accepted = false }) o
      ≡ map_option (decided question_id answer_id) o
decided_other question_id answer_id k none id ne = refl
decided_other question_id answer_id k (some a) id ne =
    ap (λ b. some (if a.question_id == question_id then record a { is_accepted = b } else a))
      (sym (ne→== a.id answer_id (λ e. ne (sym (id a refl) ∙ e))))

decided_self :
    (question_id answer_id : ℕ) (a : Answer)
    → a.id ≡ answer_id
    → a.question_id ≡ question_id
    → decided question_id answer_id a ≡ record a { is_accepted = true }
decided_self question_id answer_id a i q = rw (q, i, ==_self question_id, ==_self answer_id) refl

module _ (p : Platform) where
  -- What `AcceptAnswer` has done: the question was the author's and not closed, it has the answer, and now
  -- that answer is accepted, no other one of the question is, and the answers to other questions are as they were.
  pub record Accepted (question_id answer_id author_user_id : ℕ) (d e : Db p) : Type 0 where
    pub question : Question
    pub was : lookup (λ q. q.id) question_id (p.questions.rows d.questions) ≡ some question
    pub of_author : question.user_id ≡ author_user_id
    pub not_closed : is_closed_question question.status ≡ false
    pub answer : Answer
    pub there : lookup (λ a. a.id) answer_id (p.answers.rows d.answers) ≡ some answer
    pub of_question : answer.question_id ≡ question_id
    pub answers :
        (k : ℕ)
        → lookup (λ a. a.id) k (p.answers.rows e.answers)
          ≡ map_option
              (decided question_id answer_id)
              (lookup (λ a. a.id) k (p.answers.rows d.answers))
    pub questions :
        p.questions.rows e.questions
        ≡ upsert
            (λ q. q.id)
            (record question { status = QuestionStatus.answered })
            (p.questions.rows d.questions)

  -- The two writes to the answers, as a function of the row that an id finds.
  answers_decided :
      (question_id answer_id k : ℕ) (answer : Answer) (rows : List Answer)
      → lookup (λ a. a.id) answer_id rows ≡ some answer
      → answer.id ≡ answer_id
      → answer.question_id ≡ question_id
      → lookup
          (λ a. a.id)
          k
          (upsert
            (λ a. a.id)
            (record answer { is_accepted = true })
            (update_where
              (λ a. a.question_id == question_id)
              (λ a. record a { is_accepted = false })
              rows))
        ≡ map_option (decided question_id answer_id) (lookup (λ a. a.id) k rows)
  answers_decided question_id answer_id k answer rows found i q =
      elim (Bool-cases (k == answer_id)) [
        | inl e ↦
            let same = ==→eq k answer_id e in
            lookup-upsert_self (λ a. a.id) k (record answer { is_accepted = true }) _ (i ∙ sym same)
            ∙ sym (ap some (decided_self question_id answer_id answer i q))
            ∙ sym (
                ap (map_option (decided question_id answer_id))
                  (ap (λ k. lookup (λ a. a.id) k rows) same ∙ found))
        | inr e ↦
            let other : k ≢ answer_id = ==→ne k answer_id e in
            lookup-upsert_ne (λ a. a.id) k (record answer { is_accepted = true }) _
              (λ x. other (sym x ∙ i))
            ∙ lookup-update_where (λ a. a.id) k (λ a. a.question_id == question_id)
                (λ a. record a { is_accepted = false }) rows (λ a. refl)
            ∙ decided_other question_id answer_id k (lookup (λ a. a.id) k rows)
                (λ a h. lookup-key (λ a. a.id) k rows a h) other
      ]

  -- When `AcceptAnswer` returns, if each answer is the one that its id finds: the question was the author's and not closed,
  -- and is stored as answered; the answer is the question's; and among the answers, that one is accepted, the question's other ones are
  -- not, and those of other questions have not changed.
  pub accept_answer-Accepted :
      (question_id answer_id author_user_id : ℕ) (w v : World p) (question : Question)
      → IsKeyed (λ a. a.id) (p.answers.rows w.db.answers)
      → accept_answer p question_id answer_id author_user_id w ≡ (ok question, v)
      → Accepted question_id answer_id author_user_id w.db v.db
  unfolding accept_answer get_question mark_accepted
  accept_answer-Accepted question_id answer_id author_user_id w v question keyed e =
      Returns-ok (λ _ v. Accepted question_id answer_id author_user_id w.db v.db) _ question v e
        (query_missing_then _ _ _ w _ λ q found. raise_if_then _ _ _ _ w λ own.
          raise_if_then _ _ _ _ w λ open_. query_missing_then _ _ _ w _ λ answer read.
            step_then _ (λ _ v. Accepted question_id answer_id author_user_id w.db v.db) _ _ w
              (transaction-Returns _ _ w (
                exec_then _ _ _ _ w λ t cleared. exec_then _ _ _ _ _ λ u accepted.
                  exec_last _ _ _ _ λ z saved.
                    let (i, of) = both _ _ (p.answers.first_ok _ _ answer read).1 in
                    let same : answer.id ≡ answer_id = ==→eq _ _ i in
                    let row : lookup (λ a. a.id) answer_id (p.answers.rows w.db.answers)
                        ≡ some answer =
                      ap (λ k. lookup (λ a. a.id) k (p.answers.rows w.db.answers)) (sym same)
                      ∙ keyed answer (p.answers.first_ok _ _ answer read).0 in
                    record {
                      question = q;
                      was = p.questions.get_ok _ _ q found;
                      of_author = ==→eq _ _ (of_not _ own);
                      not_closed = open_;
                      answer = answer;
                      there = row;
                      of_question = ==→eq _ _ of;
                      answers = λ k.
                          ap (lookup (λ a. a.id) k) (
                            p.answers.save_ok _ _ u accepted
                            ∙ ap (upsert (λ a. a.id) (record answer { is_accepted = true }))
                                (p.answers.update_ok _ _ _ t cleared))
                          ∙ answers_decided question_id answer_id k answer _ row same
                              (==→eq _ _ of);
                      questions = p.questions.save_ok _ _ z saved;
                    }))
              λ _ v h. query_last _ _ v λ r again. h)
