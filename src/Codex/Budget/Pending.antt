-- ===== src/Codex/Budget/Pending.antt =====
-- internal/codex/budget.go: `boundPendingRequest`, which cuts only what a client reads, never what it
-- needs to answer.
use codex_remote.Prelude.{
  ℕ, ◌/◌, max, min, Bool, ◌≡◌, refl, ap, ◌∙◌, Option, none, some, List, [], ◌∷◌, map, length,
  if_cases, if◌then◌else◌, ltb, leb, String,
}
use codex_remote.Codex.Budget.{
  Completeness, budget_completeness, merge_completeness, valid_utf8_prefix, bound_string,
  bounded_proto_prefix,
}

pub record Approval : Type 0 where
  pub approval_id : String
  pub title : List ℕ
  pub explanation : List ℕ
  pub command : List (List ℕ)

pub record QuestionOption : Type 0 where
  pub option_id : String
  pub label : List ℕ
  pub description : List ℕ

pub record Question : Type 0 where
  pub question_id : String
  pub header : List ℕ
  pub prompt : List ℕ
  pub options : List QuestionOption

pub record ResolvedAnswer : Type 0 where
  pub question_id : String
  pub free_form_text : List ℕ

pub record UserInput : Type 0 where
  pub user_input_request_id : String
  pub questions : List Question
  pub resolved_answers : List ResolvedAnswer
  pub completeness : Option Completeness

pub data PendingRequest : Type 0 where
  approval_request : Approval → PendingRequest
  user_input_request : UserInput → PendingRequest
  unknown_request : PendingRequest

module _ (valid : List ℕ → Bool) (size : PendingRequest → ℕ) where
  bound : ℕ → List ℕ → List ℕ
  unfolding bound_string
  bound budget text = (bound_string valid text budget).0

  at_most_one : List ℕ → List ℕ
  unfolding valid_utf8_prefix
  at_most_one text = valid_utf8_prefix valid text (min (length text) 1)

  cut_approval : ℕ → Approval → Approval
  unfolding bound
  cut_approval field a = record a {
    title = bound field a.title;
    explanation = bound field a.explanation;
    command = map (bound field) a.command;
  }

  short_command : ℕ → Approval → Approval
  unfolding bounded_proto_prefix
  short_command budget a = record a {
    command =
        bounded_proto_prefix a.command 1
          (λ values. leb (size (approval_request (record a { command = values }))) budget);
  }

  minimal_command : List (List ℕ) → List (List ℕ)
  unfolding at_most_one
  minimal_command [] = []
  minimal_command (c ∷ cs) = at_most_one c ∷ cs

  minimal_approval : Approval → Approval
  unfolding at_most_one minimal_command
  minimal_approval a = record a {
    title = at_most_one a.title;
    explanation = at_most_one a.explanation;
    command = minimal_command a.command;
  }

  bound_approval : ℕ → Approval → Approval
  unfolding cut_approval short_command minimal_approval
  bound_approval budget a =
      let short = short_command budget (cut_approval (max (budget / 16) 1) a) in
      if ltb budget (size (approval_request short)) then minimal_approval short else short

  cut_option : ℕ → QuestionOption → QuestionOption
  unfolding bound
  cut_option field o = record o {
    label = bound field o.label;
    description = bound field o.description;
  }

  cut_question : ℕ → Question → Question
  unfolding bound cut_option
  cut_question field q = record q {
    header = bound field q.header;
    prompt = bound field q.prompt;
    options = map (cut_option field) q.options;
  }

  cut_answer : ℕ → ResolvedAnswer → ResolvedAnswer
  unfolding bound
  cut_answer field a = record a { free_form_text = bound field a.free_form_text }

  bare_option : QuestionOption → QuestionOption
  bare_option o = record o { description = [] }

  bare_question : Question → Question
  unfolding bare_option
  bare_question q = record q { header = []; prompt = []; options = map bare_option q.options }

  frame_budget_reason : Option Completeness → Option Completeness
  frame_budget_reason none = none
  frame_budget_reason (some c) = some (record c { reason = "frame budget" })

  cut_input : ℕ → Completeness → UserInput → UserInput
  unfolding cut_question cut_answer merge_completeness
  cut_input field complete input = record input {
    questions = map (cut_question field) input.questions;
    resolved_answers = map (cut_answer field) input.resolved_answers;
    completeness = merge_completeness input.completeness (some complete);
  }

  bare_if_large : ℕ → UserInput → UserInput
  unfolding bare_question
  bare_if_large budget input =
      if ltb budget (size (user_input_request input))
      then record input { questions = map bare_question input.questions }
      else input

  reason_if_large : ℕ → UserInput → UserInput
  unfolding frame_budget_reason
  reason_if_large budget input =
      if ltb budget (size (user_input_request input))
      then record input { completeness = frame_budget_reason input.completeness }
      else input

  bound_fields : ℕ → Completeness → PendingRequest → PendingRequest
  unfolding bound_approval cut_input bare_if_large reason_if_large
  bound_fields budget complete (approval_request a) = approval_request (bound_approval budget a)
  bound_fields budget complete (user_input_request input) = user_input_request (
      reason_if_large budget
        (bare_if_large budget (cut_input (max (budget / 16) 1) complete input)))
  bound_fields budget complete unknown_request = unknown_request

  unfoldable pub bound_pending_request :
      Option PendingRequest → ℕ → Option PendingRequest × Option Completeness
  unfolding bound_fields budget_completeness
  bound_pending_request none budget = (none, none)
  bound_pending_request (some pending) budget =
      let complete =
        budget_completeness (size pending)
          "pending request presentation fields exceed C/S frame budget" in
      if leb (size pending) budget
      then (some pending, none)
      else (some (bound_fields budget complete pending), some complete)

-- What a client needs to answer: the id of the request, the ids of its questions with those of
-- their options, and the ids of the questions that are answered.
pub data Identity : Type 0 where
  approval_identity : String → Identity
  input_identity : String → List (String × List String) → List String → Identity
  no_identity : Identity

question_identity : Question → String × List String
question_identity q = (q.question_id, map (λ (o : QuestionOption). o.option_id) q.options)

unfoldable pub identity : PendingRequest → Identity
unfolding question_identity
identity (approval_request a) = approval_identity a.approval_id
identity (user_input_request i) =
    input_identity i.user_input_request_id (map question_identity i.questions)
      (map (λ (a : ResolvedAnswer). a.question_id) i.resolved_answers)
identity unknown_request = no_identity

unfoldable pub identity_of : Option PendingRequest → Option Identity
unfolding identity
identity_of none = none
identity_of (some p) = some (identity p)

map-keeps :
    {A B : Type 0} (f : A → A) (g : A → B) (xs : List A)
    → ((x : A) → g (f x) ≡ g x)
    → map g (map f xs) ≡ map g xs
map-keeps f g [] same = refl
map-keeps f g (x ∷ xs) same = cc (same x, map-keeps f g xs same)

module _ (valid : List ℕ → Bool) (size : PendingRequest → ℕ) where
  cut_question-identity :
      (field : ℕ) (q : Question)
      → question_identity (cut_question valid size field q) ≡ question_identity q
  unfolding cut_question cut_option question_identity
  cut_question-identity field q =
      ap (λ (os : List String). (q.question_id, os))
        (map-keeps (cut_option valid size field) (λ (o : QuestionOption). o.option_id) q.options
          (λ o. refl))

  bare_question-identity :
      (q : Question) → question_identity (bare_question valid size q) ≡ question_identity q
  unfolding bare_question bare_option question_identity
  bare_question-identity q =
      ap (λ (os : List String). (q.question_id, os))
        (map-keeps (bare_option valid size) (λ (o : QuestionOption). o.option_id) q.options
          (λ o. refl))

  cut_input-identity :
      (field : ℕ) (complete : Completeness) (i : UserInput)
      → identity (user_input_request (cut_input valid size field complete i))
        ≡ identity (user_input_request i)
  unfolding identity cut_input cut_answer
  cut_input-identity field complete i = cc (
    map-keeps (cut_question valid size field) question_identity i.questions
        (cut_question-identity field),
    map-keeps (cut_answer valid size field) (λ (a : ResolvedAnswer). a.question_id)
        i.resolved_answers (λ a. refl),
  )

  bare_if_large-identity :
      (budget : ℕ) (i : UserInput)
      → identity (user_input_request (bare_if_large valid size budget i))
        ≡ identity (user_input_request i)
  unfolding identity bare_if_large
  bare_if_large-identity budget i =
      if_cases
        (λ (r : UserInput). identity (user_input_request r) ≡ identity (user_input_request i))
        (ltb budget (size (user_input_request i)))
        (λ large. cc (
          map-keeps (bare_question valid size) question_identity i.questions
            bare_question-identity))
        (λ small. refl)

  reason_if_large-identity :
      (budget : ℕ) (i : UserInput)
      → identity (user_input_request (reason_if_large valid size budget i))
        ≡ identity (user_input_request i)
  unfolding identity reason_if_large
  reason_if_large-identity budget i =
      if_cases
        (λ (r : UserInput). identity (user_input_request r) ≡ identity (user_input_request i))
        (ltb budget (size (user_input_request i))) (λ large. refl) (λ small. refl)

  bound_approval-identity :
      (budget : ℕ) (a : Approval)
      → identity (approval_request (bound_approval valid size budget a))
        ≡ identity (approval_request a)
  unfolding identity bound_approval short_command cut_approval minimal_approval
  bound_approval-identity budget a =
      let short =
        short_command valid size budget (cut_approval valid size (max (budget / 16) 1) a) in
      if_cases (λ (r : Approval). identity (approval_request r) ≡ identity (approval_request a))
        (ltb budget (size (approval_request short))) (λ large. refl) (λ small. refl)

  bound_fields-identity :
      (budget : ℕ) (complete : Completeness) (p : PendingRequest)
      → identity (bound_fields valid size budget complete p) ≡ identity p
  unfolding bound_fields
  bound_fields-identity budget complete (approval_request a) = bound_approval-identity budget a
  bound_fields-identity budget complete (user_input_request i) =
      let cut = cut_input valid size (max (budget / 16) 1) complete i in
      reason_if_large-identity budget (bare_if_large valid size budget cut)
      ∙ bare_if_large-identity budget cut
      ∙ cut_input-identity (max (budget / 16) 1) complete i
  bound_fields-identity budget complete unknown_request = refl

  -- `boundPendingRequest` keeps what is needed to answer a request, whatever its size and the budget:
  -- the id of the request, every question and option with its id, and the answered questions.
  pub bound_pending_request-identity :
      (p : Option PendingRequest) (budget : ℕ)
      → identity_of (bound_pending_request valid size p budget).0 ≡ identity_of p
  unfolding bound_pending_request identity_of
  bound_pending_request-identity none budget = refl
  bound_pending_request-identity (some p) budget =
      if_cases
        (λ (r : Option PendingRequest × Option Completeness). identity_of r.0 ≡ some (identity p))
        (leb (size p) budget) (λ small. refl)
        (λ large. ap some (
          bound_fields-identity budget
            (budget_completeness (size p)
              "pending request presentation fields exceed C/S frame budget")
            p))
