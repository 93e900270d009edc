-- ===== src/Questions.antt =====
-- Questions and answers: internal/services/question_service.go, with
-- internal/repositories/question_repository.go and `Slugify` of internal/validators/validators.go.
pub mod Slug
pub mod Accept
pub mod Post
use auto_store_api.Prelude.{
  ⊤, ℕ, zero, suc, ◌-◌, ℤ, pos, Bool, true, false, Option, none, some, List, [], ◌∷◌, String,
  Result, ok, err, ◌==◌, ◌&&◌, ◌||◌, not, ltb, if◌then◌else◌, text_append, str_eq, add_int64,
}
use auto_store_api.Platform.{Platform}
use auto_store_api.Platform.Text.{Texts}
use auto_store_api.Platform.Sql.{DbError}
use auto_store_api.Models.Community.{
  Question, Answer, QuestionStatus, is_closed_question, is_open_question,
}
use auto_store_api.World.{
  Db, M, Error, ◌>>=◌, ◌>>◌, pure, raise, query, exec, raise_if, or_raise, on_missing, attempt,
  ignore, fresh, notify, transaction, skip_if, message, qa_answer_posted, product_not_found,
  category_not_found, question_not_found, answer_not_found, question_closed, not_question_author,
  invalid_question_context, already_answered_by_user,
}

-- `CreateQuestionInput`
pub record CreateQuestionInput : Type 0 where
  pub title : String
  pub body : String
  pub product_id : Option ℕ
  pub category_id : Option ℕ
  pub make : String
  pub model : String
  pub year : Option ℤ

-- `Slugify`
abbrev pub slugify : Texts → String → String
slugify t s = t.trim_dashes (t.dashed (t.trim_space (t.lower s)))

-- The loop of `stringsTrimSuffixDash`, on fuel.
unfoldable pub trim_dash_from : Texts → ℕ → String → String
trim_dash_from t zero s = s
trim_dash_from t (suc n) s = elim (t.ends_dashed s) [
  | true ↦ trim_dash_from t n (t.prefix (t.byte_len s - 1) s)
  | false ↦ s
]

-- `stringsTrimSuffixDash`: each round takes a byte off.
abbrev pub strings_trim_suffix_dash : Texts → String → String
strings_trim_suffix_dash t s = trim_dash_from t (t.byte_len s) s

-- `if base == "" { base = "question" }`
abbrev named : String → String
named base = if str_eq base "" then "question" else base

-- What `uniqueSlug` makes of the title before it looks for it.
abbrev pub base_slug : Texts → String → String
base_slug t title =
    let base = named (slugify t title) in
    if ltb 80 (t.byte_len base) then strings_trim_suffix_dash t (t.prefix 80 base) else base

abbrev pub is_some : {A : Type 0} → Option A → Bool
is_some none = false
is_some (some _) = true

-- The row that `Create` makes.
abbrev pub new_question : ℕ → ℕ → String → CreateQuestionInput → Question
new_question id user_id slug input = record {
  id = id;
  user_id = user_id;
  title = input.title;
  body = input.body;
  slug = slug;
  product_id = input.product_id;
  category_id = input.category_id;
  make = input.make;
  model = input.model;
  year = input.year;
  status = QuestionStatus.open_;
  view_count = pos 0;
}

-- The row that `PostAnswer` makes.
abbrev pub new_answer : ℕ → ℕ → ℕ → String → Bool → Answer
new_answer id question_id user_id body verified = record {
  id = id;
  question_id = question_id;
  user_id = user_id;
  body = body;
  is_accepted = false;
  is_verified_mechanic = verified;
}

abbrev pub by_user_on : ℕ → ℕ → Answer → Bool
by_user_on question_id user_id a = a.question_id == question_id && a.user_id == user_id

abbrev found_in : ℕ → List Answer → Answer → Answer
found_in id [] answer = answer
found_in id (a ∷ rest) answer = if a.id == id then a else found_in id rest answer

-- The answer as it has been read again, or else as it was created.
abbrev pub reread : Result Error (List Answer) → Answer → Answer
reread (ok rest) answer = found_in answer.id rest answer
reread (err e) answer = answer

module _ (p : Platform) where
  abbrev pub put_questions : p.questions.Rows → Db p → Db p
  put_questions t d = record d { questions = t }

  abbrev pub put_answers : p.answers.Rows → Db p → Db p
  put_answers t d = record d { answers = t }

  -- `GetByID` of the service; the rows that it preloads are read where they are used.
  unfoldable pub get_question : ℕ → M p Question
  get_question id = on_missing (query p (λ d. p.questions.get id d.questions)) question_not_found

  -- The checks of `validateQuestionContext` that read a row.
  unfoldable pub check_product : Option ℕ → M p ⊤
  check_product none = pure tt
  check_product (some id) = do
    _ ← on_missing (query p (λ d. p.products.get id d.products)) product_not_found
    pure tt

  unfoldable pub check_category : Option ℕ → M p ⊤
  check_category none = pure tt
  check_category (some id) = do
    _ ← on_missing (query p (λ d. p.categories.get id d.categories)) category_not_found
    pure tt

  -- `validateQuestionContext`
  unfoldable pub validate_question_context : CreateQuestionInput → M p ⊤
  validate_question_context input = do
    raise_if p
        (not (is_some input.product_id)
          && not (is_some input.category_id)
          && not (not (str_eq input.make "") && not (str_eq input.model "")))
        invalid_question_context
    check_product input.product_id
    check_category input.category_id

  -- `SlugExists`
  unfoldable pub slug_exists : String → M p Bool
  slug_exists slug = do
    count ← query p (λ d. p.questions.count (λ q. str_eq q.slug slug) d.questions)
    pure (ltb 0 count)

  -- `if !exists { return slug, nil }`, and then the rest of the round.
  abbrev pub after_slug : String → Bool → M p String → M p String
  after_slug slug false retry = pure slug
  after_slug slug true retry = retry

  -- `slug = fmt.Sprintf("%s-%s", base, suffix)`, and the next round.
  abbrev pub slug_again : String → (String → M p String) → M p String
  slug_again base next = do id ← fresh p; next (text_append base (text_append "-" (p.short id)))

  -- The rounds of `uniqueSlug` that are left.
  unfoldable pub try_slug : ℕ → String → String → M p String
  unfolding slug_exists
  try_slug zero base slug = raise (message "could not generate unique slug")
  try_slug (suc n) base slug = do
    exists ← slug_exists slug
    after_slug slug exists (slug_again base (try_slug n base))

  -- `uniqueSlug`
  unfoldable pub unique_slug : String → M p String
  unfolding try_slug
  unique_slug title = let base = base_slug p.texts title in try_slug 10 base base

  -- `Create`
  unfoldable pub create : ℕ → CreateQuestionInput → M p Question
  create user_id input = do
    validate_question_context input
    slug ← unique_slug input.title
    id ← fresh p
    exec p (λ d. p.questions.create (new_question id user_id slug input) d.questions) put_questions
    query p (λ d. p.questions.get id d.questions)

  -- The branch of `GetBySlug` on `trackView`; a failure of the update is dropped.
  count_view : Question → Bool → M p Question
  count_view q false = pure q
  count_view q true = do
    ignore (
        exec p
          (λ d.
            p.questions.update (λ r. r.id == q.id)
              (λ r. record r { view_count = add_int64 r.view_count (pos 1) }) d.questions)
          put_questions)
    pure (record q { view_count = add_int64 q.view_count (pos 1) })

  -- `GetBySlug`
  unfoldable pub get_by_slug : String → Bool → M p Question
  unfolding count_view
  get_by_slug slug track_view = do
    q ←
        on_missing (query p (λ d. p.questions.first (λ q. str_eq q.slug slug) d.questions))
          question_not_found
    raise_if p (is_closed_question q.status) question_not_found
    count_view q track_view

  -- The transaction of `PostAnswer`.
  unfoldable pub store_answer : Question → Answer → M p ⊤
  store_answer q answer = do
    exec p (λ d. p.answers.create answer d.answers) put_answers
    skip_if p (not (is_open_question q.status)) (
        exec p (λ d. p.questions.save (record q { status = QuestionStatus.answered }) d.questions)
          put_questions)

  -- `GetByID` of the repository, as far as `PostAnswer` looks at it again.
  abbrev answers_of : ℕ → Db p → Result DbError (List Answer)
  answers_of question_id d = elim (p.questions.get question_id d.questions) [
    | ok _ ↦ p.answers.find (λ a. a.question_id == question_id) d.answers
    | err e ↦ err e
  ]

  -- `PostAnswer`
  unfoldable pub post_answer : ℕ → ℕ → String → Bool → M p Answer
  unfolding get_question store_answer
  post_answer question_id mechanic_user_id body verified = do
    q ← get_question question_id
    raise_if p (is_closed_question q.status) question_closed
    existing ← query p (λ d. p.answers.count (by_user_on question_id mechanic_user_id) d.answers)
    raise_if p (ltb 0 existing) already_answered_by_user
    id ← fresh p
    let answer = new_answer id question_id mechanic_user_id body verified
    transaction (store_answer q answer)
    skip_if p (q.user_id == mechanic_user_id) (notify p (qa_answer_posted q.user_id q.id))
    full ← attempt (query p (answers_of question_id))
    pure (reread full answer)

  -- The transaction of `AcceptAnswer`.
  unfoldable pub mark_accepted : ℕ → Question → Answer → M p ⊤
  mark_accepted question_id q answer = do
    exec p
        (λ d.
          p.answers.update (λ a. a.question_id == question_id)
            (λ a. record a { is_accepted = false }) d.answers)
        put_answers
    exec p (λ d. p.answers.save (record answer { is_accepted = true }) d.answers) put_answers
    exec p (λ d. p.questions.save (record q { status = QuestionStatus.answered }) d.questions)
        put_questions

  -- `AcceptAnswer`
  unfoldable pub accept_answer : ℕ → ℕ → ℕ → M p Question
  unfolding get_question mark_accepted
  accept_answer question_id answer_id author_user_id = do
    q ← get_question question_id
    raise_if p (not (q.user_id == author_user_id)) not_question_author
    raise_if p (is_closed_question q.status) question_closed
    answer ←
        on_missing
          (query p (λ d.
            p.answers.first (λ a. a.id == answer_id && a.question_id == question_id) d.answers))
          answer_not_found
    transaction (mark_accepted question_id q answer)
    query p (λ d. p.questions.get question_id d.questions)

  -- `Close`
  unfoldable pub close : ℕ → ℕ → Bool → M p Question
  unfolding get_question
  close question_id actor_user_id is_admin = do
    q ← get_question question_id
    raise_if p (not is_admin && not (q.user_id == actor_user_id)) not_question_author
    let shut : Question = record q { status = QuestionStatus.closed }
    exec p (λ d. p.questions.save shut d.questions) put_questions
    pure shut
