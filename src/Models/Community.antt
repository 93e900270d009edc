-- ===== src/Models/Community.antt =====
-- Questions, answers and categories: internal/models/question.go and product.go.
use auto_store_api.Prelude.{ℕ, ℤ, Bool, true, false, Option, String}

-- `QuestionStatus`
pub data QuestionStatus : Type 0 where
  open_ answered closed : QuestionStatus

abbrev pub is_open_question : QuestionStatus → Bool
is_open_question QuestionStatus.open_ = true
is_open_question _ = false

abbrev pub is_closed_question : QuestionStatus → Bool
is_closed_question QuestionStatus.closed = true
is_closed_question _ = false

-- `Question`; its answers are rows of their own table.
pub record Question : Type 0 where
  pub id : ℕ
  pub user_id : ℕ
  pub title : String
  pub body : String
  pub slug : String
  pub product_id : Option ℕ
  pub category_id : Option ℕ
  pub make : String
  pub model : String
  pub year : Option ℤ
  pub status : QuestionStatus
  pub view_count : ℤ

-- `Answer`
pub record Answer : Type 0 where
  pub id : ℕ
  pub question_id : ℕ
  pub user_id : ℕ
  pub body : String
  pub is_accepted : Bool
  pub is_verified_mechanic : Bool

-- `Category`
pub record Category : Type 0 where
  pub id : ℕ
  pub name : String
  pub slug : String
