-- ===== src/Tests/Community.antt =====
-- Questions with an answer, and notifications.
use auto_store_api.Prelude.{
  ℕ, pos, ◌≡◌, ◌≤◌, refl, true, false, Bool, none, [], ◌∷◌, ok, inl, inr, IsKeyed, length,
  if◌then◌else◌, str_eq, arith,
}
use auto_store_api.Models.Accounts.{Role}
use auto_store_api.Models.Community.{Question, QuestionStatus, Answer}
use auto_store_api.Models.Support.{Notification, NotificationChannel}
use auto_store_api.World.{
  World, ◌>>=◌, ◌>>◌, pure, query, exec, raise_if, on_missing, attempt, fresh, notify, skip_if,
  transaction, raise,
}
use auto_store_api.Questions.{
  CreateQuestionInput, create, validate_question_context, check_product, check_category,
  unique_slug, try_slug, slug_exists, post_answer, get_question, store_answer, accept_answer,
  mark_accepted, new_answer, strings_trim_suffix_dash,
}
use auto_store_api.Questions.Slug.{AreUnique, create-AreUnique, strings_trim_suffix_dash-ends}
use auto_store_api.Questions.Accept.{Accepted, accept_answer-Accepted}
use auto_store_api.Questions.Post.{Posted, post_answer-Posted}
use auto_store_api.Notifications.{
  NotifyInput, notify_user, default_preferences, new_notification, process_delivery, deliver_by,
  deliver_mail, after_mail, mark_failed, mark_sent, send_mail,
}
use auto_store_api.Notifications.Notify.{OncePerKey, notify_user-OncePerKey}
use auto_store_api.Notifications.Notifier.{low_stock, low_stock_alert, low_stock_alert_shared}
use auto_store_api.Notifications.Delivery.{Settled, process_delivery-Settled}
use auto_store_api.Memory.{memory_platform, empty_db, started}
use auto_store_api.Memory.Store.{memory_texts}

abbrev asked : Question
asked = record {
  id = 1;
  user_id = 7;
  title = "a";
  body = "";
  slug = "a";
  product_id = none;
  category_id = none;
  make = "";
  model = "";
  year = none;
  status = QuestionStatus.open_;
  view_count = pos 0;
}

abbrev answer : Answer
answer = record {
  id = 2;
  question_id = 1;
  user_id = 8;
  body = "";
  is_accepted = false;
  is_verified_mechanic = true;
}

-- The user 7 has asked the question 1, to which the mechanic 8 has given the answer 2.
abbrev forum : World memory_platform
forum = started (record empty_db { questions = asked ∷ []; answers = answer ∷ [] })

forum-IsKeyed : IsKeyed (λ a. a.id) (memory_platform.answers.rows forum.db.answers)
forum-IsKeyed a (inl e) = rw e refl
forum-IsKeyed a (inr x) = elim x [ ]

abbrev after_accept : World memory_platform
after_accept = (accept_answer memory_platform 1 2 7 forum).1

abbrev answered : Question
answered = record asked { status = QuestionStatus.answered }

accept-run : accept_answer memory_platform 1 2 7 forum ≡ (ok answered, after_accept)
unfolding accept_answer get_question mark_accepted ◌>>=◌ ◌>>◌ pure query exec raise_if on_missing
    transaction
accept-run = refl

accept_answer-Accepted_example : Accepted memory_platform 1 2 7 forum.db after_accept.db
accept_answer-Accepted_example =
    accept_answer-Accepted memory_platform 1 2 7 forum after_accept answered forum-IsKeyed
      accept-run

abbrev after_post : World memory_platform
after_post = (post_answer memory_platform 1 9 "yes" true forum).1

post-run :
    post_answer memory_platform 1 9 "yes" true forum
    ≡ (ok (new_answer 100 1 9 "yes" true), after_post)
unfolding post_answer get_question store_answer ◌>>=◌ ◌>>◌ pure query exec raise_if on_missing
    transaction fresh skip_if notify attempt
post-run = refl

post_answer-Posted_example : Posted memory_platform 1 9 forum.db after_post.db
post_answer-Posted_example =
    post_answer-Posted memory_platform 1 9 "yes" true forum after_post
      (new_answer 100 1 9 "yes" true) post-run

abbrev input : CreateQuestionInput
input = record {
  title = "a-";
  body = "";
  product_id = none;
  category_id = none;
  make = "Audi";
  model = "A4";
  year = none;
}

abbrev after_question : World memory_platform
after_question = (create memory_platform 7 input forum).1

abbrev second : Question
second = record asked { id = 100; title = "a-"; slug = "a-"; make = "Audi"; model = "A4" }

create_question-run : create memory_platform 7 input forum ≡ (ok second, after_question)
unfolding create validate_question_context check_product check_category unique_slug try_slug
    slug_exists ◌>>=◌ ◌>>◌ pure query exec raise_if on_missing fresh
create_question-run = refl

forum-AreUnique : AreUnique (memory_platform.questions.rows forum.db.questions)
forum-AreUnique slug = ground arith

create-AreUnique_example : AreUnique (memory_platform.questions.rows after_question.db.questions)
create-AreUnique_example =
    create-AreUnique memory_platform 7 input forum after_question second forum-AreUnique
      create_question-run

strings_trim_suffix_dash-ends_example :
    memory_texts.ends_dashed (strings_trim_suffix_dash memory_texts "a--") ≡ false
strings_trim_suffix_dash-ends_example = strings_trim_suffix_dash-ends memory_texts "a--"

abbrev low_stock_for : ℕ → NotifyInput
low_stock_for user_id = low_stock memory_platform user_id 1 (pos 1) ""

abbrev queued : Notification
queued = new_notification 5 (low_stock_for 7) NotificationChannel.email 1

-- The user 7 has been told that a stock is low; the user 8 has preferences and has not been told.
abbrev told : World memory_platform
told = started (record empty_db {
  preferences = default_preferences 3 8 ∷ [];
  notifications = new_notification 4 (low_stock_for 7) NotificationChannel.in_app 1 ∷ queued ∷ [];
})

-- The user 8 is not told, since the keys of the two alerts are the same.
low_stock_alert_shared_example :
    low_stock_alert memory_platform 8 1 (pos 1) "" 2 told ≡ (ok tt, told)
low_stock_alert_shared_example =
    low_stock_alert_shared memory_platform 7 8 1 (pos 1) "" 2 told (default_preferences 3 8) refl
      refl
      (
        (new_notification 4 (low_stock_for 7) NotificationChannel.in_app 1, refl),
        ((queued, refl), tt),
      )

-- The user 7 alone has a notification.
abbrev one_told : World memory_platform
one_told = record told { db = record told.db { notifications = queued ∷ [] } }

one_told-OncePerKey : OncePerKey memory_platform one_told.db
one_told-OncePerKey key = at_most (str_eq queued.idempotency_key key)
  where
    at_most : (b : Bool) → length (if b then queued ∷ [] else []) ≤ 1
    at_most true = omega arith
    at_most false = omega arith

notify_user-OncePerKey_example : OncePerKey memory_platform (
    (notify_user memory_platform
      (record (low_stock_for 8) { idempotency_key = "x" })
      2
      one_told).1.db)
notify_user-OncePerKey_example =
    notify_user-OncePerKey memory_platform (record (low_stock_for 8) { idempotency_key = "x" }) 2
      one_told one_told-OncePerKey

abbrev reader : World memory_platform
reader = record told {
  db = record told.db {
    users =
        record {
          id = 7;
          email = "a";
          password_hash = "";
          first_name = "";
          last_name = "";
          phone = "";
          role = Role.customer;
          email_verified = true;
        }
        ∷ [];
  };
}

abbrev after_delivery : World memory_platform
after_delivery = (process_delivery memory_platform "" 1 5 3 reader).1

deliver-run : process_delivery memory_platform "" 1 5 3 reader ≡ (ok tt, after_delivery)
unfolding process_delivery deliver_by deliver_mail after_mail mark_failed mark_sent send_mail ◌>>=◌
    ◌>>◌ query exec skip_if raise
deliver-run = refl

process_delivery-Settled_example : Settled memory_platform 1 5 reader.db after_delivery.db
process_delivery-Settled_example =
    process_delivery-Settled memory_platform "" 1 5 3 queued reader after_delivery refl refl
      deliver-run
