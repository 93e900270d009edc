-- ===== src/Questions/Slug.antt =====
-- Slugs: the loop that trims them ends, and each question has one of its own.
use auto_store_api.Prelude.{
  ℕ, zero, suc, ◌-◌, ◌≤◌, ◌≡◌, refl, sym, ap, ◌∙◌, subst, Bool, true, false, Option, none, some,
  List, [], ◌∷◌, ◌++◌, String, ok, ltb, str_eq, eq_iff, Bool-cases, inl, inr, length, select,
  length-select_few, empty_of, text_append, arith,
}
use auto_store_api.Platform.{Platform}
use auto_store_api.Platform.Text.{Texts}
use auto_store_api.Models.Community.{Question, QuestionStatus}
use auto_store_api.World.{
  Db, World, M, Returns, Returns-ok, pure-Returns, raise-Returns, raise_if_then, exec_then,
  call_then, step_then, query_then, query_missing_then, fresh_then, query_last,
}
use auto_store_api.Questions.{
  trim_dash_from, strings_trim_suffix_dash, try_slug, unique_slug, create, CreateQuestionInput,
  validate_question_context, slug_exists, after_slug, slug_again, new_question, check_product,
  check_category,
}

trim_dash_from-ends :
    (t : Texts) (n : ℕ) (s : String)
    → t.byte_len s ≤ n
    → t.ends_dashed (trim_dash_from t n s) ≡ false
unfolding trim_dash_from
trim_dash_from-ends t zero s h = elim (Bool-cases (t.ends_dashed s)) [
  | inl e ↦ absurd (let z = t.len_dashed s e in omega arith)
  | inr e ↦ e
]
trim_dash_from-ends t (suc n) s h = go (t.ends_dashed s) refl λ e.
    let z = t.len_dashed s e in
    let l = t.len_prefix (t.byte_len s - 1) s (omega arith) in
    trim_dash_from-ends t n (t.prefix (t.byte_len s - 1) s) (omega arith)
  where
    go :
        (b : Bool)
        → t.ends_dashed s ≡ b
        → (t.ends_dashed s ≡ true
            → t.ends_dashed (trim_dash_from t n (t.prefix (t.byte_len s - 1) s)) ≡ false)
        → t.ends_dashed
            (elim b [ true ↦ trim_dash_from t n (t.prefix (t.byte_len s - 1) s) | false ↦ s ])
          ≡ false
    go true e next = next e
    go false e next = e

-- The loop of `stringsTrimSuffixDash` ends within as many rounds as the text has bytes: what it returns
-- does not end with a dash.
pub strings_trim_suffix_dash-ends :
    (t : Texts) (s : String) → t.ends_dashed (strings_trim_suffix_dash t s) ≡ false
strings_trim_suffix_dash-ends t s = trim_dash_from-ends t (t.byte_len s) s (omega arith)

-- No two questions have the same slug.
abbrev pub AreUnique : List Question → Type 0
AreUnique rows = (slug : String) → length (select (λ q. str_eq q.slug slug) rows) ≤ 1

module _ (p : Platform) where
  abbrev Unused : String → World p → Type 0
  Unused slug w = select (λ q. str_eq q.slug slug) (p.questions.rows w.db.questions) ≡ []

  -- The slug is unused, and nothing has been written.
  abbrev Fresh : Db p → String → World p → Type 0
  Fresh d slug w = (w.db ≡ d) × Unused slug w

  slug_exists-Unused :
      (slug : String) (w : World p)
      → Returns (λ b v. (v ≡ w) × (b ≡ false → Unused slug w)) (slug_exists p slug w)
  unfolding slug_exists
  slug_exists-Unused slug w = query_then _ _ _ w λ n counted. pure-Returns _ _ w (
    refl,
    λ none. empty_of _ (subst (λ n. ltb 0 n ≡ false) (p.questions.count_ok _ _ n counted) none),
  )

  -- A round of the loop, with the rounds that are left.
  after_slug-Fresh :
      (slug : String) (b : Bool) (retry : M p String) (w : World p)
      → (b ≡ false → Unused slug w)
      → Returns (Fresh w.db) (retry w)
      → Returns (Fresh w.db) (after_slug p slug b retry w)
  after_slug-Fresh slug false retry w free h = pure-Returns _ _ w (refl, free refl)
  after_slug-Fresh slug true retry w free h = h

  try_slug-Fresh :
      (n : ℕ) (base slug : String) (w : World p) → Returns (Fresh w.db) (try_slug p n base slug w)
  unfolding try_slug
  try_slug-Fresh zero base slug w = raise-Returns _ _ w
  try_slug-Fresh (suc n) base slug w =
      call_then _ (λ b v. (v ≡ w) × (b ≡ false → Unused slug w)) _ _ w (slug_exists-Unused slug w)
        λ b v (same, free).
          subst
            (λ v.
              Returns (Fresh w.db) (after_slug p slug b (slug_again p base (try_slug p n base)) v))
            (sym same)
            (after_slug-Fresh slug b (slug_again p base (try_slug p n base)) w free (
              fresh_then _ _ w (
                try_slug-Fresh n base
                  (text_append base (text_append "-" (p.short (p.uuid w.drawn)))) _)))

  unique_slug-Fresh : (title : String) (w : World p) → Returns (Fresh w.db) (unique_slug p title w)
  unfolding unique_slug
  unique_slug-Fresh title w = try_slug-Fresh 10 _ _ w

  validate_same :
      (input : CreateQuestionInput) (w : World p)
      → Returns (λ _ v. v ≡ w) (validate_question_context p input w)
  unfolding validate_question_context check_product check_category
  validate_same input w = raise_if_then _ _ _ _ w λ given.
      step_then _ (λ _ v. v ≡ w) _ _ w (product input.product_id)
        λ _ v same.
          subst (λ v. Returns (λ _ v. v ≡ w) (check_category p input.category_id v)) (sym same)
            (category input.category_id)
    where
      product : (o : Option ℕ) → Returns (λ _ v. v ≡ w) (check_product p o w)
      product none = pure-Returns _ _ w refl
      product (some id) = query_missing_then _ _ _ w _ λ r found. pure-Returns _ _ w refl

      category : (o : Option ℕ) → Returns (λ _ v. v ≡ w) (check_category p o w)
      category none = pure-Returns _ _ w refl
      category (some id) = query_missing_then _ _ _ w _ λ r found. pure-Returns _ _ w refl

  -- What `Create` has done: it has added one question, which is the user's, is open and has a slug that no question had.
  pub record Asked (user_id : ℕ) (d e : Db p) : Type 0 where
    pub question : Question
    pub of_user : question.user_id ≡ user_id
    pub is_new : question.status ≡ QuestionStatus.open_
    pub unused : select (λ q. str_eq q.slug question.slug) (p.questions.rows d.questions) ≡ []
    pub created : p.questions.rows e.questions ≡ p.questions.rows d.questions ++ question ∷ []

  -- When `Create` returns: it has added one question and has changed no other, which is the user's, is open, and has a slug
  -- that no question had.
  pub create-Asked :
      (user_id : ℕ) (input : CreateQuestionInput) (w v : World p) (question : Question)
      → create p user_id input w ≡ (ok question, v)
      → Asked user_id w.db v.db
  unfolding create
  create-Asked user_id input w v question e =
      Returns-ok (λ _ v. Asked user_id w.db v.db) _ question v e
        (step_then _ (λ _ v. v ≡ w) _ _ w (validate_same input w)
          λ _ v same. call_then _ (Fresh v.db) _ _ v (unique_slug-Fresh _ v) λ slug u (kept, free).
            fresh_then _ _ u (
              exec_then _ _ _ _ _ λ t made. query_last _ _ _ λ q read.
                let before : u.db ≡ w.db = kept ∙ ap (λ (w : World p). w.db) same in
                record {
                  question = new_question (p.uuid u.drawn) user_id slug input;
                  of_user = refl;
                  is_new = refl;
                  unused =
                      subst
                        (λ d. select (λ q. str_eq q.slug slug) (p.questions.rows d.questions) ≡ [])
                        before free;
                  created =
                      subst
                        (λ d.
                          p.questions.rows t
                          ≡ p.questions.rows d.questions
                            ++ new_question (p.uuid u.drawn) user_id slug input ∷ [])
                        before (p.questions.create_ok _ _ t made).1;
                }))

  -- If no two questions have the same slug, then that is so when `Create` has returned.
  pub create-AreUnique :
      (user_id : ℕ) (input : CreateQuestionInput) (w v : World p) (question : Question)
      → AreUnique (p.questions.rows w.db.questions)
      → create p user_id input w ≡ (ok question, v)
      → AreUnique (p.questions.rows v.db.questions)
  create-AreUnique user_id input w v question h e slug =
      let made = create-Asked user_id input w v question e in
      subst (λ rows. length (select (λ q. str_eq q.slug slug) rows) ≤ 1) (sym made.created)
        (length-select_few (λ q. str_eq q.slug slug) made.question _ (h slug)
          λ m.
            subst (λ s. select (λ q. str_eq q.slug s) (p.questions.rows w.db.questions) ≡ [])
              ((eq_iff made.question.slug slug).0 m) made.unused)
